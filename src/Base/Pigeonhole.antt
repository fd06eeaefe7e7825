-- ===== src/Base/Pigeonhole.antt =====
-- Choosing positions among the first `n`: when one is left out, and when none is.
use Prim.Native.Nat.{ℕ, zero, suc, ◌+◌, ◌≤◌, ◌<◌}
use mathlib.Core.Path.{◌≡◌}
use mathlib.Core.Logic.{inl, inr}
use mathlib.Core.Bool.{Bool, true, false, not, ◌&&◌}
use mathlib.Core.List.{List, [], ◌∷◌}
use native.Mathlib.Omega.{arith}
use ded_swarm.Base.Equality.{◌==◌, contains, if◌then◌else◌, nat_eq}
use ded_swarm.Base.Tests.{Bool-cases}
use ded_swarm.Base.Lists.{length, any, IsSetList}
use ded_swarm.Base.Ranges.{
  upto, range, count, count-le-count, any-upto, not-any-upto, any-false, count-contains,
}

abbrev pub without : ℕ → List ℕ → List ℕ
without i [] = []
without i (r ∷ rs) = let rest = without i rs in if i == r then rest else r ∷ rest

pub contains-without :
    (i j : ℕ) (rs : List ℕ) → contains (without i rs) j ≡ (not (j == i) && contains rs j)
contains-without i j [] = ground arith
contains-without i j (r ∷ rs) = ground (arith, contains-without i j rs)

length-without-le : (i : ℕ) (rs : List ℕ) → length (without i rs) ≤ length rs
length-without-le i [] = omega arith
length-without-le i (r ∷ rs) = ground (arith, length-without-le i rs)

length-without : (i : ℕ) (rs : List ℕ) → contains rs i ≡ true → length (without i rs) < length rs
length-without i [] h = cc
length-without i (r ∷ rs) h = ground (arith, length-without-le i rs, length-without i rs)

-- A choice that spends a place on a position without `p` leaves out a position with `p`, if there
-- are as many as places.
pub left_out :
    (p : ℕ → Bool) (rs : List ℕ) (n i : ℕ)
    → p i ≡ false
    → contains rs i ≡ true
    → length rs ≤ count p (range n)
    → (j : ℕ) × (j < n) × (p j ≡ true) × (contains rs j ≡ false)
left_out p rs n i out there few =
    elim (Bool-cases (any (λ x. p x && not (contains rs x)) (range n))) [
      | inl e ↦
          let (j, h, _, hi) = any-upto (λ x. p x && not (contains rs x)) n 0 e in
          (j, omega arith, ground arith, ground arith)
      | inr e ↦ absurd (
          omega (
            arith,
            count-le-count p (contains (without i rs)) (range n) (within e),
            count-contains (without i rs) n 0,
            length-without i rs there,
          ))
    ]
  where
    within :
        any (λ x. p x && not (contains rs x)) (range n) ≡ false
        → any (λ x. p x && not (contains (without i rs) x)) (range n) ≡ false
    within e = elim (Bool-cases (any (λ x. p x && not (contains (without i rs) x)) (range n))) [
      | inr d ↦ d
      | inl d ↦
          let (j, h, lo, hi) = any-upto (λ x. p x && not (contains (without i rs) x)) n 0 d in
          absurd (
            ground (
              arith,
              not-any-upto (λ x. p x && not (contains rs x)) n 0 j e lo hi,
              contains-without i j rs,
            ))
    ]

count-take_one :
    (p : ℕ → Bool) (r n i : ℕ)
    → p r ≡ true
    → i ≤ r
    → r < i + n
    → count (λ x. p x && not (x == r)) (upto n i) < count p (upto n i)
count-take_one p r zero i h lo hi = absurd (omega arith)
count-take_one p r (suc n) i h lo hi = elim (Bool-cases (i == r)) [
  | inl e ↦ ground (
    arith,
    count-le-count (λ x. p x && not (x == r)) p (upto n (i + 1))
        (any-false _ (λ x. ground arith) (upto n (i + 1))),
  )
  | inr e ↦ ground (arith, count-take_one p r n (i + 1) h)
]

-- Distinct positions with `p` are no more than there are.
pub length-le-count :
    (p : ℕ → Bool) (rs : List ℕ) (n : ℕ)
    → IsSetList rs
    → ((r : ℕ) → contains rs r ≡ true → (p r ≡ true) × (r < n))
    → length rs ≤ count p (range n)
length-le-count p [] n s h = omega arith
length-le-count p (r ∷ rs) n (fresh, s) h =
    let (here, lt) = h r (ground arith) in
    omega (
      arith,
      count-take_one p r n 0 here (omega arith) (omega arith),
      length-le-count (λ x. p x && not (x == r)) rs n s
          (λ q k. let (a, b) = h q (ground arith) in (ground arith, b)),
    )

-- Distinct positions with `p`, as many as there are, are all of them.
pub none_left :
    (p : ℕ → Bool) (rs : List ℕ) (n j : ℕ)
    → IsSetList rs
    → ((r : ℕ) → contains rs r ≡ true → (p r ≡ true) × (r < n))
    → count p (range n) ≤ length rs
    → p j ≡ true
    → j < n
    → contains rs j ≡ true
none_left p rs n j s h many e lt = elim (Bool-cases (contains rs j)) [
  | inl k ↦ k
  | inr k ↦ absurd (omega (arith, length-le-count p (j ∷ rs) n (k, s) (λ r m. ground (arith, h r))))
]
