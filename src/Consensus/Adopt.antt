-- ===== src/Consensus/Adopt.antt =====
-- The last loop of `merge_consensus`: what each position ends with.
use ded_swarm.Base.{
  ◌≡◌, ◌≢◌, inl, inr, refl, true, List, [], ◌∷◌, nat_eq, length, Option, none, some, contains,
  IsSetList, arith, Option-cases, ok, raise, for_each,
}
use ded_swarm.Base.Dict.{Dict, lookup, insert, NodupKeys, lookup-insert}
use ded_swarm.Consensus.{Position, Token, TokenSet, next, adopt}

-- What Python promises of the iteration over a set: every member once, in some order.
pub record IsIteration (iter : TokenSet → List Token) : Type 0 where
  pub same : (ts : TokenSet) (t : Token) → contains (iter ts) t ≡ contains ts t
  pub size : (ts : TokenSet) → length (iter ts) ≡ length ts
  pub distinct : (ts : TokenSet) → IsSetList ts → IsSetList (iter ts)

-- The value of a position after the last loop of `merge_consensus`.
abbrev pub chosen :
    (TokenSet → List Token) → Option TokenSet → Option Token → Option Token → Option Token
chosen iter none w old = old
chosen iter (some ts) (some w) old = some w
chosen iter (some ts) none old = elim (next (iter ts)) [ ok t ↦ some t | raise _ ↦ none ]

abbrev pub NoneEmpty : Dict Position TokenSet → Type 0
NoneEmpty [] = Unit
NoneEmpty ((_, ts) ∷ groups) = (ts ≢ []) × NoneEmpty groups

pub NoneEmpty-lookup :
    (groups : Dict Position TokenSet)
    → NodupKeys groups
    → ((pos : Position) → lookup pos groups ≢ some [])
    → NoneEmpty groups
unfolding lookup
NoneEmpty-lookup [] u h = tt
NoneEmpty-lookup ((p, ts) ∷ groups) (fresh, u) h =
    (ground (arith, h p), NoneEmpty-lookup groups u (λ pos e. ground (arith, h pos)))

module _ (iter : TokenSet → List Token) (law : IsIteration iter) where
  pub next-iter :
      (ts : TokenSet) → ts ≢ [] → (t : Token) × (next (iter ts) ≡ ok t) × (contains ts t ≡ true)
  next-iter ts ne = go (iter ts) refl
    where
      go :
          (us : List Token)
          → iter ts ≡ us
          → (t : Token) × (next (iter ts) ≡ ok t) × (contains ts t ≡ true)
      go [] e = absurd (ground (arith, law.size ts))
      go (t ∷ us) e = (t, ground arith, ground (arith, law.same ts t))

  pub adopt_all :
      (resolved : Dict Position Token) (groups : Dict Position TokenSet)
      (updated : Dict Position Token)
      → NodupKeys groups
      → NoneEmpty groups
      → (m : Dict Position Token) × (for_each (adopt iter resolved) updated groups ≡ ok m)
        × ((pos : Position)
            → lookup pos m
              ≡ chosen iter (lookup pos groups) (lookup pos resolved) (lookup pos updated))
  unfolding adopt lookup
  adopt_all resolved [] updated u n = (updated, refl, λ pos. refl)
  adopt_all resolved ((p, ts) ∷ groups) updated (fresh, u) (ne, n) =
      elim (Option-cases (lookup p resolved)) [
        | inr (w, e) ↦
            let (m, run, eq) = adopt_all resolved groups (insert p w updated) u n in
            (m, ground arith, λ pos. ground (arith, eq pos, lookup-insert pos p w updated))
        | inl e ↦
            let (t, first, _) = next-iter ts ne in
            let (m, run, eq) = adopt_all resolved groups (insert p t updated) u n in
            (m, ground arith, λ pos. ground (arith, eq pos, lookup-insert pos p t updated))
      ]
