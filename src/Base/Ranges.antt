-- ===== src/Base/Ranges.antt =====
-- `range`, counting, and how many positions a list can name.
use Prim.Native.Nat.{ℕ, zero, suc, ◌+◌, ◌≤◌, ◌<◌}
use mathlib.Core.Path.{◌≡◌, refl, ap}
use mathlib.Core.Logic.{inl, inr}
use mathlib.Core.Bool.{Bool, true, false, not, ◌&&◌, ◌||◌}
use mathlib.Core.Option.{Option, none, some}
use mathlib.Core.List.{List, [], ◌∷◌}
use native.Mathlib.Omega.{arith}
use ded_swarm.Base.Equality.{◌==◌, contains, if◌then◌else◌, nat_eq}
use ded_swarm.Base.Tests.{ltb, leb, Bool-cases}
use ded_swarm.Base.Lists.{length, any}

-- `range(i, i + n)`
abbrev pub upto : ℕ → ℕ → List ℕ
upto zero i = []
upto (suc n) i = i ∷ upto n (i + 1)

-- `range(n)`
abbrev pub range : ℕ → List ℕ
range n = upto n 0

module _ {ℓ} {A : Type ℓ} where
  -- `[x for x in xs if p(x)]`
  abbrev pub filter : (A → Bool) → List A → List A
  filter p [] = []
  filter p (x ∷ xs) = let rest = filter p xs in if p x then x ∷ rest else rest

  -- `sum(p(x) for x in xs)`
  abbrev pub count : (A → Bool) → List A → ℕ
  count p [] = 0
  count p (x ∷ xs) = (if p x then 1 else 0) + count p xs

  abbrev pub get_elem? : List A → ℕ → Option A
  get_elem? [] i = none
  get_elem? (x ∷ xs) zero = some x
  get_elem? (x ∷ xs) (suc i) = get_elem? xs i

  pub length-filter : (p : A → Bool) (xs : List A) → length (filter p xs) ≡ count p xs
  length-filter p [] = refl
  length-filter p (x ∷ xs) = ground (arith, length-filter p xs)

  pub count-le-length : (p : A → Bool) (xs : List A) → count p xs ≤ length xs
  count-le-length p [] = omega arith
  count-le-length p (x ∷ xs) = ground (arith, count-le-length p xs)

  pub count-le-count :
      (p q : A → Bool) (xs : List A)
      → any (λ x. p x && not (q x)) xs ≡ false
      → count p xs ≤ count q xs
  count-le-count p q [] h = omega arith
  count-le-count p q (x ∷ xs) h = ground (arith, count-le-count p q xs)

  count_or : (p q : A → Bool) (xs : List A) → count (λ x. p x || q x) xs ≤ count p xs + count q xs
  count_or p q [] = omega arith
  count_or p q (x ∷ xs) = ground (arith, count_or p q xs)

  pub any-false : (p : A → Bool) → ((x : A) → p x ≡ false) → (xs : List A) → any p xs ≡ false
  any-false p h [] = refl
  any-false p h (x ∷ xs) = ground (arith, h x, any-false p h xs)

pub length-upto : (n i : ℕ) → length (upto n i) ≡ n
length-upto zero i = refl
length-upto (suc n) i = ap suc (length-upto n (i + 1))

pub contains-upto : (n i j : ℕ) → contains (upto n i) j ≡ (leb i j && ltb j (i + n))
contains-upto zero i j = ground arith
contains-upto (suc n) i j = ground (arith, contains-upto n (i + 1) j)

pub any-upto :
    (p : ℕ → Bool) (n i : ℕ)
    → any p (upto n i) ≡ true
    → (j : ℕ) × (p j ≡ true) × (i ≤ j) × (j < i + n)
any-upto p zero i h = cc
any-upto p (suc n) i h = elim (Bool-cases (p i)) [
  | inl e ↦ (i, e, omega arith, omega arith)
  | inr e ↦
      let (j, k, lo, hi) = any-upto p n (i + 1) (ground arith) in (j, k, omega arith, omega arith)
]

pub not-any-upto :
    (p : ℕ → Bool) (n i j : ℕ) → any p (upto n i) ≡ false → i ≤ j → j < i + n → p j ≡ false
not-any-upto p zero i j h lo hi = absurd (omega arith)
not-any-upto p (suc n) i j h lo hi = elim (Bool-cases (j == i)) [
  | inl e ↦ ground arith
  | inr e ↦ not-any-upto p n (i + 1) j (ground arith) (ground arith) (omega arith)
]

count_one :
    (r n i : ℕ)
    → (count (λ x. x == r) (upto n i) ≤ 1) × (r < i → count (λ x. x == r) (upto n i) ≡ 0)
count_one r zero i = (omega arith, λ h. refl)
count_one r (suc n) i = let (one, after) = count_one r n (i + 1) in ground (arith, one, after)

count-none : (n i : ℕ) → count (contains []) (upto n i) ≤ 0
count-none zero i = omega arith
count-none (suc n) i = omega (arith, count-none n (i + 1))

-- A list names at most as many positions as it is long.
pub count-contains : (rs : List ℕ) (n i : ℕ) → count (contains rs) (upto n i) ≤ length rs
count-contains [] n i = count-none n i
count-contains (r ∷ rs) n i = omega (
  arith,
  count_or (λ x. x == r) (contains rs) (upto n i),
  (count_one r n i).0,
  count-contains rs n i,
)
