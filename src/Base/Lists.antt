-- ===== src/Base/Lists.antt =====
-- Lists measured by native numbers, Python's sets as lists, and predicates over a list.
use Prim.Native.Nat.{ℕ, suc}
use mathlib.Core.Path.{◌≡◌}
use mathlib.Core.Bool.{Bool, false, ◌||◌}
use mathlib.Core.List.{List, [], ◌∷◌}
use native.Mathlib.Omega.{arith}
use ded_swarm.Base.Equality.{Eq, ◌==◌, contains, if◌then◌else◌}

module _ {ℓ} {A : Type ℓ} where
  abbrev pub length : List A → ℕ
  length [] = 0
  length (x ∷ xs) = suc (length xs)

  abbrev pub All {κ} : (A → Type κ) → List A → Type κ
  All P [] = Unit
  All P (x ∷ xs) = P x × All P xs

  -- `any(f(x) for x in xs)`
  abbrev pub any : (A → Bool) → List A → Bool
  any f [] = false
  any f (x ∷ xs) = f x || any f xs

module _ {ℓ} {A : Type ℓ} ⦃e : Eq A⦄ where
  abbrev pub IsSetList : List A → Type 0
  IsSetList [] = Unit
  IsSetList (x ∷ xs) = (contains xs x ≡ false) × IsSetList xs

  -- `s.add(x)`
  unfoldable pub set_add : A → List A → List A
  set_add x xs = if contains xs x then xs else x ∷ xs

  pub contains-set_add :
      (x y : A) (xs : List A) → contains (set_add x xs) y ≡ (y == x || contains xs y)
  unfolding set_add
  contains-set_add x y xs = ground arith

  pub set_add-IsSetList : (x : A) (xs : List A) → IsSetList xs → IsSetList (set_add x xs)
  unfolding set_add
  set_add-IsSetList x xs s = ground arith
