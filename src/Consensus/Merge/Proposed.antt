-- ===== src/Consensus/Merge/Proposed.antt =====
-- What the commits of a sync propose at a position, read directly, and the state that they ask for.
use ded_swarm.Base.{
  ◌⊎◌, string_eq, ◌≡◌, ◌≢◌, inl, inr, refl, true, false, [], ◌∷◌, ◌==◌, nat_eq, Option, none, some,
  if◌then◌else◌, any, arith,
}
use ded_swarm.Base.Dict.{Dict, lookup, get_or}
use ded_swarm.Consensus.{NodeId, Position, Token, Commit, Commits}
use ded_swarm.Consensus.Proposals.{names, proposes}

module _ {F : Type 0} where
  -- The first token that a reader of the commits meets at the position.
  first_in : Position → Commit F → Option Token
  first_in pos [] = none
  first_in pos ((p, (t, _)) ∷ es) = if pos == p then some t else first_in pos es

  pub first_proposal : Position → Commits F → Option Token
  unfolding first_in
  first_proposal pos [] = none
  first_proposal pos ((_, es) ∷ commits) = elim (first_in pos es) [
    | some t ↦ some t
    | none ↦ first_proposal pos commits
  ]

  -- The specification: what is resolved wins; else what is proposed; else the old value stays.
  unfoldable pub merged_at :
      Dict Position Token → Commits F → Dict Position Token → Position → Option Token
  unfolding first_proposal
  merged_at shared_x commits resolved pos = elim (first_proposal pos commits) [
    | none ↦ lookup pos shared_x
    | some t ↦ some (get_or (lookup pos resolved) t)
  ]

  first_in-lookup :
      (pos : Position) (es : Commit F)
      → first_in pos es ≡ (elim (lookup pos es) [ none ↦ none | some e ↦ some e.0 ])
  unfolding first_in lookup
  first_in-lookup pos [] = refl
  first_in-lookup pos ((p, (t, _)) ∷ es) = ground (arith, first_in-lookup pos es)

  -- With one participant and nothing resolved, what it proposes is adopted.
  pub merged_at_single :
      (shared_x : Dict Position Token) (id : NodeId) (mine : Commit F) (pos : Position)
      → merged_at shared_x ((id, mine) ∷ []) [] pos
        ≡ (elim (lookup pos mine) [ none ↦ lookup pos shared_x | some e ↦ some e.0 ])
  unfolding merged_at first_proposal lookup
  merged_at_single shared_x id mine pos = ground (arith, first_in-lookup pos mine)

  first_proposal-own :
      (commits : Commits F) (id : NodeId) (mine : Commit F) (pos : Position)
      → lookup id commits ≡ some mine
      → lookup pos mine ≢ none
      → first_proposal pos commits ≢ none
  unfolding first_proposal lookup
  first_proposal-own [] id mine pos h there e = cc
  first_proposal-own ((j, es) ∷ commits) id mine pos h there e = ground (
    arith,
    first_in-lookup pos es,
    first_in-lookup pos mine,
    first_proposal-own commits id mine pos,
  )

  -- A position that a participant commits, or that was settled before, is settled after.
  pub merged_at-settled :
      (shared_x : Dict Position Token) (commits : Commits F) (resolved : Dict Position Token)
      (id : NodeId) (mine : Commit F) (pos : Position)
      → lookup id commits ≡ some mine
      → (lookup pos mine ≢ none) ⊎ (lookup pos shared_x ≢ none)
      → merged_at shared_x commits resolved pos ≢ none
  unfolding merged_at
  merged_at-settled shared_x commits resolved id mine pos h (inl there) =
      ground (arith, first_proposal-own commits id mine pos h there)
  merged_at-settled shared_x commits resolved id mine pos h (inr there) = ground arith

  first_in-names :
      (pos : Position) (es : Commit F) (t : Token)
      → first_in pos es ≡ some t
      → any (names pos t) es ≡ true
  unfolding first_in
  first_in-names pos [] t h = cc
  first_in-names pos ((p, (u, _)) ∷ es) t h = ground (arith, first_in-names pos es t)

  first_in-none :
      (pos : Position) (es : Commit F) (t : Token)
      → first_in pos es ≡ none
      → any (names pos t) es ≡ false
  unfolding first_in
  first_in-none pos [] t h = refl
  first_in-none pos ((p, (u, _)) ∷ es) t h = ground (arith, first_in-none pos es t)

  pub first_proposal-proposes :
      (pos : Position) (commits : Commits F) (t : Token)
      → first_proposal pos commits ≡ some t
      → proposes commits pos t ≡ true
  unfolding first_proposal
  first_proposal-proposes pos [] t h = cc
  first_proposal-proposes pos ((_, es) ∷ commits) t h =
      ground (arith, first_in-names pos es t, first_proposal-proposes pos commits t)

  pub first_proposal-none :
      (pos : Position) (commits : Commits F) (t : Token)
      → first_proposal pos commits ≡ none
      → proposes commits pos t ≡ false
  unfolding first_proposal
  first_proposal-none pos [] t h = refl
  first_proposal-none pos ((_, es) ∷ commits) t h =
      ground (arith, first_in-none pos es t, first_proposal-none pos commits t)
