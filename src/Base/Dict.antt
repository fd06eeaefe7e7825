-- ===== src/Base/Dict.antt =====
-- Dicts in insertion order. Proofs elsewhere go by the laws; only tests unfold the operations.

use mathlib.Core.Path.{◌≡◌, refl}
use mathlib.Core.Logic.{◌≢◌, ◌↔◌}
use mathlib.Core.Bool.{Bool, true}
use mathlib.Core.Option.{Option, none, some}
use mathlib.Core.List.{List, [], ◌∷◌}
use mathlib.Core.List
use native.Mathlib.Omega.{arith}
use ded_swarm.Base.Equality.{Eq, ◌==◌, contains, if◌then◌else◌}

abbrev pub Dict {ℓ κ} : Type ℓ → Type κ → Type (ℓ ⊔ κ)
Dict K V = List (K × V)

unfoldable pub keys {ℓ κ} : {K : Type ℓ} {V : Type κ} → Dict K V → List K
keys = List.map (λ (k, _). k)

-- `o` if it is there, or else the default: `d.get(k, default)` is `get_or (lookup k d) default`.
abbrev pub get_or {ℓ} : {A : Type ℓ} → Option A → A → A
get_or none d = d
get_or (some a) d = a

module _ {ℓ κ} {K : Type ℓ} {V : Type κ} where
  -- `{k: v for k, v in d.items() if p(v)}`
  unfoldable pub keep : (K → V → Bool) → Dict K V → Dict K V
  keep p [] = []
  keep p ((k, v) ∷ d) = let rest = keep p d in if p k v then (k, v) ∷ rest else rest

module _ {ℓ κ} {K : Type ℓ} {V : Type κ} ⦃e : Eq K⦄ where
  unfoldable pub lookup : K → Dict K V → Option V
  lookup k [] = none
  lookup k ((j, w) ∷ d) = if k == j then some w else lookup k d

  -- `d[k] = v`
  unfoldable pub insert : K → V → Dict K V → Dict K V
  insert k v [] = (k, v) ∷ []
  insert k v ((j, w) ∷ d) = if k == j then (j, v) ∷ d else (j, w) ∷ insert k v d

  -- `d.pop(k, None)`. Every entry of the key goes; a real dict has at most one.
  unfoldable pub erase : K → Dict K V → Dict K V
  erase k [] = []
  erase k ((j, w) ∷ d) = let rest = erase k d in if k == j then rest else (j, w) ∷ rest

  -- `d == d'`: the order of the entries does not count.
  abbrev pub SameLookups : Dict K V → Dict K V → Type (ℓ ⊔ κ)
  SameLookups d d' = (k : K) → lookup k d ≡ lookup k d'

  abbrev pub NodupKeys : Dict K V → Type κ
  NodupKeys [] = Unit
  NodupKeys ((k, _) ∷ d) = (lookup k d ≡ none) × NodupKeys d

  pub lookup-insert :
      (j k : K) (v : V) (d : Dict K V)
      → lookup j (insert k v d) ≡ (if j == k then some v else lookup j d)
  unfolding insert lookup
  lookup-insert j k v [] = ground arith
  lookup-insert j k v (_ ∷ d) = ground (arith, lookup-insert j k v d)

  pub lookup-erase :
      (j k : K) (d : Dict K V) → lookup j (erase k d) ≡ (if j == k then none else lookup j d)
  unfolding erase lookup
  lookup-erase j k [] = ground arith
  lookup-erase j k (_ ∷ d) = ground (arith, lookup-erase j k d)

  pub lookup-keep-none :
      (p : K → V → Bool) (j : K) (d : Dict K V) → lookup j d ≡ none → lookup j (keep p d) ≡ none
  unfolding keep lookup
  lookup-keep-none p j [] h = refl
  lookup-keep-none p j (_ ∷ d) h = ground (arith, lookup-keep-none p j d)

  -- What `keep` leaves at a key.
  abbrev pub kept : (K → V → Bool) → K → Option V → Option V
  kept p k none = none
  kept p k (some v) = if p k v then some v else none

  pub lookup-keep :
      (p : K → V → Bool) (j : K) (d : Dict K V)
      → NodupKeys d
      → lookup j (keep p d) ≡ kept p j (lookup j d)
  unfolding keep lookup
  lookup-keep p j [] u = refl
  lookup-keep p j ((k, v) ∷ d) (fresh, u) =
      ground (arith, lookup-keep p j d u, lookup-keep-none p j d)

  pub contains-keys : (d : Dict K V) (k : K) → (contains (keys d) k ≡ true) ↔ (lookup k d ≢ none)
  unfolding keys lookup
  contains-keys [] k = (λ h. cc, λ h. absurd (h refl))
  contains-keys (_ ∷ d) k = ground (arith, contains-keys d k)

  pub insert-NodupKeys : (k : K) (v : V) (d : Dict K V) → NodupKeys d → NodupKeys (insert k v d)
  unfolding insert lookup
  insert-NodupKeys k v [] _ = (refl, tt)
  insert-NodupKeys k v ((j, _) ∷ d) (fresh, u) =
      ground (arith, insert-NodupKeys k v d u, lookup-insert j k v d)

  pub erase-NodupKeys : (k : K) (d : Dict K V) → NodupKeys d → NodupKeys (erase k d)
  unfolding erase
  erase-NodupKeys k [] _ = tt
  erase-NodupKeys k ((j, _) ∷ d) (fresh, u) =
      ground (arith, erase-NodupKeys k d u, lookup-erase j k d)

  pub erase-erase : (k : K) (d : Dict K V) → erase k (erase k d) ≡ erase k d
  unfolding erase
  erase-erase k [] = refl
  erase-erase k (_ ∷ d) = ground (arith, erase-erase k d)

  pub insert-insert : (k : K) (v w : V) (d : Dict K V) → insert k w (insert k v d) ≡ insert k w d
  unfolding insert
  insert-insert k v w [] = ground arith
  insert-insert k v w (_ ∷ d) = ground (arith, insert-insert k v w d)
