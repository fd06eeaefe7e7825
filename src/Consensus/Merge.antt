-- ===== src/Consensus/Merge.antt =====
-- `merge_consensus` against a direct reading of the commits.
mod Proposed
unfoldable pub use Proposed.{merged_at}
pub use Proposed.{merged_at_single, merged_at-settled}
use Proposed.{first_proposal, first_proposal-proposes, first_proposal-none}
use ded_swarm.Base.{
  ℕ_discrete, ◌⊎◌, string_eq, ap, sym, ◌∙◌, ◌≡◌, ◌≢◌, inl, inr, refl, true, false, List, [], ◌∷◌,
  ◌==◌, nat_eq, Option, none, some, if◌then◌else◌, any, contains, arith, Option-cases, ok,
}
use ded_swarm.Base.Dict.{Dict, lookup, get_or, SameLookups}
use ded_swarm.Consensus.{
  NodeId, Position, Token, TokenSet, Commit, Commits, by_position, merge_consensus,
}
use ded_swarm.Consensus.Adopt.{IsIteration, chosen, NoneEmpty-lookup, next-iter, adopt_all}
use ded_swarm.Consensus.Proposals.{names, proposes, by_position-IsGathered, contains-by_position}
use ded_swarm.Consensus.Disputes.{Contested}

module _ {F : Type 0} where
  -- Every position that two participants dispute has been resolved.
  abbrev pub Covers : Dict Position Token → Commits F → Type 0
  Covers resolved commits = (pos : Position) → Contested commits pos → lookup pos resolved ≢ none

module _ {F : Type 0} (iter : TokenSet → List Token) (law : IsIteration iter) where
  chosen-none :
      (commits : Commits F) (pos : Position) (w old : Option Token)
      → first_proposal pos commits ≡ none
      → chosen iter (lookup pos (by_position commits)) w old ≡ old
  chosen-none commits pos w old e = go (lookup pos (by_position commits)) refl
    where
      go : (g : Option TokenSet) → lookup pos (by_position commits) ≡ g → chosen iter g w old ≡ old
      go none h = refl
      go (some []) h = absurd ((by_position-IsGathered commits).nonempty pos h)
      go (some (x ∷ ts)) h =
          absurd (
            ground (arith, contains-by_position commits pos x, first_proposal-none pos commits x e))

  chosen-some :
      (commits : Commits F) (pos : Position) (w old : Option Token) (t : Token)
      → first_proposal pos commits ≡ some t
      → (Contested commits pos → w ≢ none)
      → chosen iter (lookup pos (by_position commits)) w old ≡ some (get_or w t)
  chosen-some commits pos w old t e covered = go (lookup pos (by_position commits)) refl w covered
    where
      here : proposes commits pos t ≡ true
      here = first_proposal-proposes pos commits t e

      only :
          (ts : TokenSet)
          → lookup pos (by_position commits) ≡ some ts
          → (Contested commits pos → ⊥)
          → (u : Token) → contains ts u ≡ true
          → u ≡ t
      only ts h calm u k = elim (ℕ_discrete u t) [
        | yes p ↦ p
        | no n ↦ absurd (calm (u, t, n, ground (arith, contains-by_position commits pos u), here))
      ]

      go :
          (g : Option TokenSet)
          → lookup pos (by_position commits) ≡ g
          → (v : Option Token) → (Contested commits pos → v ≢ none)
          → chosen iter g v old ≡ some (get_or v t)
      go none h v c = absurd (ground (arith, here, contains-by_position commits pos t))
      go (some ts) h (some x) c = refl
      go (some ts) h none c =
          let (u, first, member) =
            next-iter iter law ts
              (λ z. (by_position-IsGathered commits).nonempty pos (h ∙ ap some z)) in
          let same : u ≡ t = only ts h (λ d. c d refl) u member in ground arith

  -- `merge_consensus` raises nothing, resolved or not.
  pub merge_consensus_total :
      (shared_x : Dict Position Token) (commits : Commits F) (resolved : Dict Position Token)
      → (m : Dict Position Token) × (merge_consensus iter shared_x commits resolved ≡ ok m)
  unfolding merge_consensus
  merge_consensus_total shared_x commits resolved =
      let g = by_position-IsGathered commits in
      let (m, run, _) =
        adopt_all iter law resolved (by_position commits) shared_x g.nodup
          (NoneEmpty-lookup (by_position commits) g.nodup g.nonempty) in
      (m, run)

  -- Whatever the order in which the interpreter iterates over a set, `merge_consensus` raises
  -- nothing. If moreover every disputed position is resolved, each position that some participant
  -- proposes a token for ends with the resolved token, or with the first token proposed for it if it
  -- is not resolved; and every other position keeps its old value, resolved or not.
  pub merge_consensus-merged_at :
      (shared_x : Dict Position Token) (commits : Commits F) (resolved : Dict Position Token)
      → (m : Dict Position Token) × (merge_consensus iter shared_x commits resolved ≡ ok m)
        × (Covers resolved commits
            → (pos : Position) → lookup pos m ≡ merged_at shared_x commits resolved pos)
  unfolding merge_consensus merged_at
  merge_consensus-merged_at shared_x commits resolved =
      let g = by_position-IsGathered commits in
      let (m, run, eq) =
        adopt_all iter law resolved (by_position commits) shared_x g.nodup
          (NoneEmpty-lookup (by_position commits) g.nodup g.nonempty) in
      (m, run, λ covers pos. eq pos ∙ at pos (lookup pos resolved) (covers pos))
    where
      at :
          (pos : Position) (w : Option Token)
          → (Contested commits pos → w ≢ none)
          → chosen iter (lookup pos (by_position commits)) w (lookup pos shared_x)
            ≡ elim (first_proposal pos commits) [
              | none ↦ lookup pos shared_x
              | some t ↦ some (get_or w t)
            ]
      at pos w c = elim (Option-cases (first_proposal pos commits)) [
        | inl e ↦ rw e (chosen-none commits pos w (lookup pos shared_x) e)
        | inr (t, e) ↦ rw e (chosen-some commits pos w (lookup pos shared_x) t e c)
      ]

module _ {F : Type 0} where
  -- Two logs of commits in which the same tokens are proposed at every position.
  abbrev pub SameProposals : Commits F → Commits F → Type 0
  SameProposals c d = (pos : Position) (t : Token) → proposes c pos t ≡ proposes d pos t

  merged_at_congr :
      (s r : Dict Position Token) (c : Commits F) (s' r' : Dict Position Token) (d : Commits F)
      → SameProposals c d
      → SameLookups s s'
      → SameLookups r r'
      → Covers r c
      → (pos : Position) → merged_at s c r pos ≡ merged_at s' d r' pos
  unfolding merged_at
  merged_at_congr s r c s' r' d same ss rr covers pos =
      go (first_proposal pos c) (first_proposal pos d) refl refl
    where
      calm :
          (t u : Token)
          → t ≢ u
          → proposes c pos t ≡ true
          → proposes c pos u ≡ true
          → lookup pos r ≢ none
      calm t u n h k = covers pos (t, u, n, h, k)

      go :
          (a b : Option Token)
          → first_proposal pos c ≡ a
          → first_proposal pos d ≡ b
          → elim a [ none ↦ lookup pos s | some t ↦ some (get_or (lookup pos r) t) ]
            ≡ elim b [ none ↦ lookup pos s' | some t ↦ some (get_or (lookup pos r') t) ]
      go none none e f = ss pos
      go none (some u) e f = absurd (
          ground
            (arith, first_proposal-none pos c u e, first_proposal-proposes pos d u f, same pos u))
      go (some t) none e f = absurd (
          ground
            (arith, first_proposal-none pos d t f, first_proposal-proposes pos c t e, same pos t))
      go (some t) (some u) e f = ground (
        arith,
        rr pos,
        calm t u,
        same pos u,
        first_proposal-proposes pos c t e,
        first_proposal-proposes pos d u f,
      )

  -- Two participants that saw the same proposals, in whatever order and whoever made them, that
  -- resolved the disputes alike and started from the same state end in the same state, although
  -- their interpreters may iterate over sets in different orders.
  pub merge_consensus_agree :
      (iter iter' : TokenSet → List Token) (s r : Dict Position Token) (c : Commits F)
      (s' r' : Dict Position Token) (d : Commits F)
      → IsIteration iter
      → IsIteration iter'
      → SameProposals c d
      → SameLookups s s'
      → SameLookups r r'
      → Covers r c
      → (m n : Dict Position Token) × (merge_consensus iter s c r ≡ ok m)
        × (merge_consensus iter' s' d r' ≡ ok n)
        × SameLookups m n
  merge_consensus_agree iter iter' s r c s' r' d law law' same ss rr covers =
      let covers' : Covers r' d = λ pos (t, u, n, h, k).
        λ miss. covers pos (t, u, n, same pos t ∙ h, same pos u ∙ k) (rr pos ∙ miss) in
      let (m, run, eq) = merge_consensus-merged_at iter law s c r in
      let (m', run', eq') = merge_consensus-merged_at iter' law' s' d r' in
      (
        m,
        m',
        run,
        run',
        λ pos.
            eq covers pos
            ∙ merged_at_congr s r c s' r' d same ss rr covers pos
            ∙ sym (eq' covers' pos),
      )
