-- ===== src/Base/Every.antt =====
-- A property of all entries of a dict, under the operations on dicts.
use mathlib.Core.Path.{◌≡◌, refl, subst}
use mathlib.Core.Logic.{inl, inr, ◌≢◌, ◌⊎◌}
use mathlib.Core.Bool.{Bool}
use mathlib.Core.Option.{none, some}
use mathlib.Core.List.{List, [], ◌∷◌, map}
use native.Mathlib.Omega.{arith}
use ded_swarm.Base.Equality.{Eq, ◌==◌}
use ded_swarm.Base.Lists.{All}
use ded_swarm.Base.Tests.{Bool-cases}
use ded_swarm.Base.Exceptions.{Result, ok, for_each, each, ◌>>=◌, >>=-eq-ok}
use ded_swarm.Base.Dict.{Dict, lookup, insert, erase, keep, NodupKeys}

module _ {ℓ κ μ} {K : Type ℓ} {V : Type κ} ⦃e : Eq K⦄ (Q : K × V → Type μ) where
  pub All-insert : (k : K) (v : V) (d : Dict K V) → Q (k, v) → All Q d → All Q (insert k v d)
  unfolding insert
  All-insert k v [] q h = (q, h)
  All-insert k v ((j, w) ∷ d) q (i, h) = elim (Bool-cases (k == j)) [
    | inl same ↦ let at : k ≡ j = ground arith in rw same (rw at at q, h)
    | inr differ ↦ rw differ (i, All-insert k v d q h)
  ]

  pub All-erase : (k : K) (d : Dict K V) → All Q d → All Q (erase k d)
  unfolding erase
  All-erase k [] h = h
  All-erase k ((j, w) ∷ d) (i, h) = elim (Bool-cases (k == j)) [
    | inl same ↦ rw same (All-erase k d h)
    | inr differ ↦ rw differ (i, All-erase k d h)
  ]

  pub lookup-All : (k : K) (v : V) (d : Dict K V) → All Q d → lookup k d ≡ some v → Q (k, v)
  unfolding lookup
  lookup-All k v [] h there = cc
  lookup-All k v ((j, w) ∷ d) (i, h) there = elim (Bool-cases (k == j)) [
    | inl same ↦
        let at : j ≡ k = ground arith in let val : w ≡ v = ground arith in rw (← at, ← val) i
    | inr differ ↦ lookup-All k v d h (ground arith)
  ]

module _ {ℓ κ μ} {K : Type ℓ} {V : Type κ} (Q : K × V → Type μ) where
  pub All-keep : (p : K → V → Bool) (d : Dict K V) → All Q d → All Q (keep p d)
  unfolding keep
  All-keep p [] h = tt
  All-keep p ((k, v) ∷ d) (i, h) = elim (Bool-cases (p k v)) [
    | inl passes ↦ rw passes (i, All-keep p d h)
    | inr fails ↦ rw fails (All-keep p d h)
  ]

module _ {ℓ κ μ} {K : Type ℓ} {V : Type κ} ⦃e : Eq K⦄ where
  -- What holds of every value that a lookup finds holds of all entries, if no key stands twice.
  pub All-lookup :
      (P : K → V → Type μ) (d : Dict K V)
      → NodupKeys d
      → ((k : K) (v : V) → lookup k d ≡ some v → P k v)
      → All (λ x. P x.0 x.1) d
  unfolding lookup
  All-lookup P [] u h = tt
  All-lookup P ((k, v) ∷ d) (fresh, u) h =
      (h k v (ground arith), All-lookup P d u (λ j w there. h j w (ground arith)))

  -- What holds of every key that is there.
  pub All-keys :
      (R : K → Type μ) (d : Dict K V) → ((k : K) → lookup k d ≢ none → R k) → All (λ x. R x.0) d
  unfolding lookup
  All-keys R [] h = tt
  All-keys R ((k, v) ∷ d) h =
      (h k (ground arith), All-keys R d (λ j there. h j (λ miss. there (ground arith))))

module _ {ℓ κ μ ν} {A : Type ℓ} (P : A → Type κ) (Q : A → Type μ) (R : A → Type ν) where
  pub All-zip : (xs : List A) → ((x : A) → P x → Q x → R x) → All P xs → All Q xs → All R xs
  All-zip [] f h k = tt
  All-zip (x ∷ xs) f (p, h) (q, k) = (f x p q, All-zip xs f h k)

module _ {ℓ κ μ} {A : Type ℓ} (P : A → Type κ) (Q : A → Type μ) where
  pub All-map : (xs : List A) → ((x : A) → P x → Q x) → All P xs → All Q xs
  All-map [] f h = tt
  All-map (x ∷ xs) f (p, h) = (f x p, All-map xs f h)

-- A loop whose body, started well on a good element, raises nothing and goes on well.
module _ {ℓ κ μ ν} {S : Type ℓ} {A : Type κ} (body : S → A → Result S) (Well : S → Type μ)
    (Good : A → Type ν)
    (steps : (s : S) (x : A) → Well s → Good x → (s' : S) × (body s x ≡ ok s') × Well s') where
  pub for_each_total :
      (xs : List A) (s : S)
      → Well s
      → All Good xs
      → (s' : S) × (for_each body s xs ≡ ok s') × Well s'
  for_each_total [] s w good = (s, refl, w)
  for_each_total (x ∷ xs) s w (g, good) =
      let (s', run, w') = steps s x w g in
      let (r, rest, w'') = for_each_total xs s' w' good in (r, rw run rest, w'')

-- What a body computes of each element, where it does not raise.
module _ {ℓ κ} {A : Type ℓ} {B : Type κ} (body : A → Result B) (g : A → B) where
  pub each-eq-ok :
      ((x : A) (y : B) → body x ≡ ok y → y ≡ g x)
      → (xs : List A) (ys : List B) → each body xs ≡ ok ys
      → ys ≡ map g xs
  each-eq-ok h [] ys e = ground arith
  each-eq-ok h (x ∷ xs) ys e =
      let (y, first, rest) = >>=-eq-ok (body x) (λ y. each body xs >>= λ ys. ok (y ∷ ys)) e in
      let (zs, more, last) = >>=-eq-ok (each body xs) (λ ys. ok (y ∷ ys)) rest in
      cc (h x y first, each-eq-ok h xs zs more)

module _ {ℓ κ μ} {A : Type ℓ} {B : Type κ} (body : A → Result B) (g : A → B)
    (Good : A → Type μ) where
  pub each_total :
      ((x : A) → Good x → body x ≡ ok (g x))
      → (xs : List A) → All Good xs
      → each body xs ≡ ok (map g xs)
  each_total h [] good = refl
  each_total h (x ∷ xs) (good, rest) = rw (h x good, each_total h xs rest) refl

-- One of the elements.
abbrev pub Among : {A : Type 0} → A → List A → Type 0
Among x [] = ⊥
Among x (y ∷ ys) = (x ≡ y) ⊎ Among x ys

pub All-Among : {A : Type 0} (xs : List A) → All (λ x. Among x xs) xs
All-Among [] = tt
All-Among (x ∷ xs) =
    (inl refl, All-map (λ y. Among y xs) (λ y. Among y (x ∷ xs)) xs (λ y h. inr h) (All-Among xs))

-- What a loop makes of good elements, where it does not raise.
module _ {ℓ κ μ ν} {S : Type ℓ} {A : Type κ} (body : S → A → Result S) (Well : S → Type μ)
    (Good : A → Type ν)
    (steps : (s : S) (x : A) (s' : S) → Well s → Good x → body s x ≡ ok s' → Well s') where
  pub for_each_keeps :
      (xs : List A) (s s' : S) → Well s → All Good xs → for_each body s xs ≡ ok s' → Well s'
  for_each_keeps [] s s' w good e = let same : s ≡ s' = cc in subst Well same w
  for_each_keeps (x ∷ xs) s s' w (g, good) e =
      let (r, run, rest) = >>=-eq-ok (body s x) (λ r. for_each body r xs) e in
      for_each_keeps xs r s' (steps s x r w g run) good rest
