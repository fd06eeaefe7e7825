-- ===== src/Base/Perms.antt =====
-- Two dicts with the same lookups hold the same entries, each in an order of its own.
use mathlib.Core.Path.{◌≡◌, refl, sym, ◌∙◌}
use mathlib.Core.Logic.{inl, inr}
use mathlib.Core.Option.{none, some}
use mathlib.Core.List.{[], ◌∷◌, Permᴰ}
use mathlib.Core.List.Permᴰ
use native.Mathlib.Omega.{arith}
use ded_swarm.Base.Equality.{Eq, ◌==◌}
use ded_swarm.Base.Tests.{Bool-cases}
use ded_swarm.Base.Dict.{Dict, lookup, erase, NodupKeys, SameLookups, lookup-erase, erase-NodupKeys}

module _ {ℓ κ} {K : Type ℓ} {V : Type κ} ⦃e : Eq K⦄ where
  erase-absent : (k : K) (d : Dict K V) → lookup k d ≡ none → erase k d ≡ d
  unfolding erase lookup
  erase-absent k [] h = refl
  erase-absent k ((j, w) ∷ d) h = ground (arith, erase-absent k d)

  perm-cons-erase :
      (k : K) (v : V) (d : Dict K V)
      → NodupKeys d
      → lookup k d ≡ some v
      → Permᴰ ((k, v) ∷ erase k d) d
  unfolding erase lookup
  perm-cons-erase k v [] u h = cc
  perm-cons-erase k v ((j, w) ∷ d) (fresh, u) h = elim (Bool-cases (k == j)) [
    | inl same ↦
        let at : k ≡ j = ground arith in
        rw (same, erase-absent k d (rw at fresh)) (Permᴰ.cons (ground arith) (Permᴰ.refl d))
    | inr differ ↦ rw differ (
        Permᴰ.trans (Permᴰ.swap refl refl)
          (Permᴰ.cons refl (perm-cons-erase k v d u (ground arith))))
  ]

  pub empty-lookups : (d : Dict K V) → ((k : K) → lookup k d ≡ none) → d ≡ []
  unfolding lookup
  empty-lookups [] h = refl
  empty-lookups ((k, v) ∷ d) h = absurd (ground (arith, h k))

  pub SameLookups-perm : (c d : Dict K V) → NodupKeys c → NodupKeys d → SameLookups c d → Permᴰ c d
  unfolding lookup
  SameLookups-perm [] [] u v same = Permᴰ.nil
  SameLookups-perm [] ((j, w) ∷ d) u v same = absurd (ground (arith, same j))
  SameLookups-perm ((k, x) ∷ c) d (fresh, u) v same =
      Permᴰ.trans
        (Permᴰ.cons refl (
          SameLookups-perm c (erase k d) u (erase-NodupKeys k d v)
            (λ j. ground (arith, same j, lookup-erase j k d))))
        (perm-cons-erase k x d v (sym (same k) ∙ ground arith))
