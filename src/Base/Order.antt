-- ===== src/Base/Order.antt =====
-- Linear orders, and `sorted`.
use Prim.Native.Nat.{ℕ}
use mathlib.Core.Path.{◌≡◌, refl}
use mathlib.Core.Logic.{◌⊎◌}
use mathlib.Core.Bool.{Bool, true, ◌||◌}
use mathlib.Core.List.{List, [], ◌∷◌}
use native.Mathlib.Omega.{arith}
use ded_swarm.Base.Equality.{Eq, ◌==◌, contains, if◌then◌else◌}
use ded_swarm.Base.Lists.{All}
use ded_swarm.Base.Tests.{leb}

pub record Ord {ℓ} (K : Type ℓ) : Type ℓ where
  pub le : K → K → Bool
  pub le_refl : (a : K) → le a a ≡ true
  pub le_antisymm : (a b : K) → le a b ≡ true → le b a ≡ true → a ≡ b
  pub le_trans : (a b c : K) → le a b ≡ true → le b c ≡ true → le a c ≡ true
  pub le_total : (a b : K) → (le a b ≡ true) ⊎ (le b a ≡ true)

infix 50 ◌≼◌
abbrev pub ◌≼◌ {ℓ} : {K : Type ℓ} ⦃o : Ord K⦄ → K → K → Type 0
◌≼◌ ⦃o⦄ a b = o.le a b ≡ true

module _ {ℓ} {K : Type ℓ} ⦃o : Ord K⦄ where
  abbrev pub IsSorted : List K → Type 0
  IsSorted [] = Unit
  IsSorted (x ∷ xs) = All (λ y. x ≼ y) xs × IsSorted xs

  unfoldable pub sort_insert : K → List K → List K
  sort_insert x [] = x ∷ []
  sort_insert x (y ∷ ys) = if o.le x y then x ∷ y ∷ ys else y ∷ sort_insert x ys

  -- `sorted(xs)`
  unfoldable pub sorted : List K → List K
  unfolding sort_insert
  sorted [] = []
  sorted (x ∷ xs) = sort_insert x (sorted xs)

  All-le_trans : (x y : K) (ys : List K) → x ≼ y → All (λ z. y ≼ z) ys → All (λ z. x ≼ z) ys
  All-le_trans x y [] h _ = tt
  All-le_trans x y (z ∷ zs) h (p, ps) = (o.le_trans x y z h p, All-le_trans x y zs h ps)

  All-sort_insert :
      (z x : K) (ys : List K) → z ≼ x → All (λ y. z ≼ y) ys → All (λ y. z ≼ y) (sort_insert x ys)
  unfolding sort_insert
  All-sort_insert z x [] h _ = (h, tt)
  All-sort_insert z x (y ∷ ys) h (p, ps) = ground (arith, All-sort_insert z x ys h ps)

  sort_insert-IsSorted : (x : K) (ys : List K) → IsSorted ys → IsSorted (sort_insert x ys)
  unfolding sort_insert
  sort_insert-IsSorted x [] _ = (tt, tt)
  sort_insert-IsSorted x (y ∷ ys) (h, s) = ground (
    arith,
    o.le_total x y,
    All-le_trans x y ys,
    All-sort_insert y x ys,
    sort_insert-IsSorted x ys s,
  )

  pub sorted-IsSorted : (xs : List K) → IsSorted (sorted xs)
  unfolding sorted
  sorted-IsSorted [] = tt
  sorted-IsSorted (x ∷ xs) = sort_insert-IsSorted x (sorted xs) (sorted-IsSorted xs)

  module _ ⦃e : Eq K⦄ where
    contains-sort_insert :
        (z x : K) (ys : List K) → contains (sort_insert x ys) z ≡ (z == x || contains ys z)
    unfolding sort_insert
    contains-sort_insert z x [] = refl
    contains-sort_insert z x (y ∷ ys) = ground (arith, contains-sort_insert z x ys)

    pub contains-sorted : (z : K) (xs : List K) → contains (sorted xs) z ≡ contains xs z
    unfolding sorted
    contains-sorted z [] = refl
    contains-sorted z (x ∷ xs) =
        ground (arith, contains-sort_insert z x (sorted xs), contains-sorted z xs)

    pub All-contains :
        (P : K → Type 0) (z : K) (xs : List K) → All P xs → contains xs z ≡ true → P z
    All-contains P z [] h c = cc
    All-contains P z (x ∷ xs) (p, ps) c = ground (arith, All-contains P z xs ps)

pub nat_le_refl : (a : ℕ) → leb a a ≡ true
nat_le_refl a = ground arith

pub nat_le_antisymm : (a b : ℕ) → leb a b ≡ true → leb b a ≡ true → a ≡ b
nat_le_antisymm a b h k = ground arith

pub nat_le_trans : (a b c : ℕ) → leb a b ≡ true → leb b c ≡ true → leb a c ≡ true
nat_le_trans a b c h k = ground arith

pub nat_le_total : (a b : ℕ) → (leb a b ≡ true) ⊎ (leb b a ≡ true)
nat_le_total a b = ground arith

instance abbrev pub nat_ord : Ord ℕ
nat_ord = record {
  le = leb;
  le_refl = nat_le_refl;
  le_antisymm = nat_le_antisymm;
  le_trans = nat_le_trans;
  le_total = nat_le_total;
}
