-- ===== src/Consensus/Disputes.antt =====
-- `detect_disputes` (diffusion/consensus.py) against the proposals of the participants.
use ded_swarm.Base.{
  ◌≡◌, ◌≢◌, ◌↔◌, inl, inr, true, false, [], ◌∷◌, nat_eq, length, ltb, none, some, contains, arith,
  Option-cases,
}
use ded_swarm.Base.Dict.{lookup, lookup-keep}
use ded_swarm.Consensus.{Position, Token, TokenSet, Commits, by_position, detect_disputes}
use ded_swarm.Consensus.Proposals.{
  tokens_at, proposes, by_position-IsGathered, contains-by_position,
}

-- A set with two different members has at least two, and the converse.
two_members :
    (ts : TokenSet) (t u : Token)
    → t ≢ u
    → contains ts t ≡ true
    → contains ts u ≡ true
    → ltb 1 (length ts) ≡ true
two_members [] t u ne h k = cc
two_members (x ∷ []) t u ne h k = ground arith
two_members (x ∷ y ∷ ts) t u ne h k = ground arith

module _ {F : Type 0} where
  -- Two participants propose different tokens.
  abbrev pub Contested : Commits F → Position → Type 0
  Contested commits pos =
      (t : Token) × (u : Token) × (t ≢ u)
      × (proposes commits pos t ≡ true)
      × (proposes commits pos u ≡ true)

  lookup-detect_disputes :
      (commits : Commits F) (pos : Position) (ts : TokenSet)
      → lookup pos (detect_disputes commits) ≡ some ts
      → (tokens_at pos (by_position commits) ≡ ts) × (ltb 1 (length ts) ≡ true)
  unfolding detect_disputes
  lookup-detect_disputes commits pos ts h = ground (
    arith,
    lookup-keep (λ (_ : Position) (s : TokenSet). ltb 1 (length s)) pos (by_position commits)
        (by_position-IsGathered commits).nodup,
  )

  not-detect_disputes :
      (commits : Commits F) (pos : Position)
      → lookup pos (detect_disputes commits) ≡ none
      → ltb 1 (length (tokens_at pos (by_position commits))) ≡ false
  unfolding detect_disputes
  not-detect_disputes commits pos h = ground (
    arith,
    lookup-keep (λ (_ : Position) (s : TokenSet). ltb 1 (length s)) pos (by_position commits)
        (by_position-IsGathered commits).nodup,
  )

  -- What `detect_disputes` reports at a position is the set of exactly the tokens proposed there.
  pub contains-detect_disputes :
      (commits : Commits F) (pos : Position) {ts : TokenSet}
      → lookup pos (detect_disputes commits) ≡ some ts
      → (t : Token) → contains ts t ≡ proposes commits pos t
  contains-detect_disputes commits pos h t =
      ground (arith, lookup-detect_disputes commits pos _ h, contains-by_position commits pos t)

  two_of_length :
      (commits : Commits F) (pos : Position) (ts : TokenSet)
      → tokens_at pos (by_position commits) ≡ ts
      → ltb 1 (length ts) ≡ true
      → Contested commits pos
  two_of_length commits pos [] e h = cc
  two_of_length commits pos (x ∷ []) e h = ground arith
  two_of_length commits pos (x ∷ y ∷ ts) e h = (
    x,
    y,
    ground (arith, (by_position-IsGathered commits).sets pos),
    ground (arith, contains-by_position commits pos x),
    ground (arith, contains-by_position commits pos y),
  )

  -- A position is reported as disputed exactly when two participants propose different tokens at it.
  pub detect_disputes_iff :
      (commits : Commits F) (pos : Position)
      → (lookup pos (detect_disputes commits) ≢ none) ↔ Contested commits pos
  detect_disputes_iff commits pos =
      (found, λ (t, u, ne, h, k). λ miss. absurd (lost t u ne h k miss))
    where
      found : lookup pos (detect_disputes commits) ≢ none → Contested commits pos
      found h = elim (Option-cases (lookup pos (detect_disputes commits))) [
        | inl e ↦ absurd (h e)
        | inr (ts, e) ↦
            let (same, two) = lookup-detect_disputes commits pos ts e in
            two_of_length commits pos ts same two
      ]

      lost :
          (t u : Token)
          → t ≢ u
          → proposes commits pos t ≡ true
          → proposes commits pos u ≡ true
          → lookup pos (detect_disputes commits) ≡ none
          → ⊥
      lost t u ne h k miss = ground (
        arith,
        two_members (tokens_at pos (by_position commits)) t u ne,
        contains-by_position commits pos t,
        contains-by_position commits pos u,
        not-detect_disputes commits pos miss,
      )
