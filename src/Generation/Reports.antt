-- ===== src/Generation/Reports.antt =====
-- What a participant reports of the disputes (`my_scores`, node/generation.py) is a dict of dicts
-- with no empty row.
use ded_swarm.Generation.Scoring.{scores_for}
use ded_swarm.Base.{
  Bool, ℕ, ◌≡◌, ◌≢◌, refl, true, false, List, [], ◌∷◌, nat_eq, map, length, ltb, none, arith,
  contains, All, IsSetList,
}
use ded_swarm.Base.Dict.{Dict, lookup, keep, NodupKeys, lookup-keep-none, lookup-keep}
use ded_swarm.Base.Every.{All-lookup}
use ded_swarm.Float.{Float}
use ded_swarm.Consensus.{Position, Token, TokenSet, Commits, by_position, detect_disputes}
use ded_swarm.Consensus.Adopt.{IsIteration}
use ded_swarm.Consensus.Proposals.{by_position-IsGathered}
use ded_swarm.Consensus.Votes.{IsReport, FitsIn}
use ded_swarm.Consensus.Pair.{IsDictReport}

-- A set that is in dispute.
abbrev pub IsDisputed : Position × TokenSet → Type 0
IsDisputed (_, ts) = IsSetList ts × (ltb 1 (length ts) ≡ true)

keep-NodupKeys : {V : Type 0} (p : ℕ → V → Bool) (d : Dict ℕ V) → NodupKeys d → NodupKeys (keep p d)
unfolding keep
keep-NodupKeys p [] u = tt
keep-NodupKeys p ((k, v) ∷ d) (fresh, u) =
    ground (arith, keep-NodupKeys p d u, lookup-keep-none p k d fresh)

module _ {F : Type 0} where
  pub detect_disputes-IsDisputed :
      (commits : Commits F)
      → NodupKeys (detect_disputes commits) × All IsDisputed (detect_disputes commits)
  unfolding detect_disputes
  detect_disputes-IsDisputed commits =
      let g = by_position-IsGathered commits in
      let big = λ (_ : Position) (ts : TokenSet). ltb 1 (length ts) in
      let u = keep-NodupKeys big (by_position commits) g.nodup in
      (
        u,
        All-lookup (λ pos ts. IsDisputed (pos, ts)) (keep big (by_position commits)) u
            (λ pos ts e.
              ground (arith, g.sets pos, lookup-keep big pos (by_position commits) g.nodup)),
      )

  module _ (iter : TokenSet → List Token) (law : IsIteration iter)
      (log_prob : Position → Token → F) where
    lookup-row-none :
        (pos : Position) (ts : List Token) (t : Token)
        → contains ts t ≡ false
        → lookup t (map (λ tok. (tok, log_prob pos tok)) ts) ≡ none
    unfolding lookup
    lookup-row-none pos [] t h = refl
    lookup-row-none pos (u ∷ ts) t h = ground (arith, lookup-row-none pos ts t)

    lookup-scores_for-none :
        (disputes : Dict Position TokenSet) (pos : Position)
        → lookup pos disputes ≡ none
        → lookup pos (scores_for iter log_prob disputes) ≡ none
    unfolding scores_for lookup
    lookup-scores_for-none [] pos h = refl
    lookup-scores_for-none ((p, ts) ∷ ds) pos h = ground (arith, lookup-scores_for-none ds pos)

    row-NodupKeys :
        (pos : Position) (ts : List Token)
        → IsSetList ts
        → NodupKeys (map (λ tok. (tok, log_prob pos tok)) ts)
    row-NodupKeys pos [] s = tt
    row-NodupKeys pos (t ∷ ts) (fresh, s) = (lookup-row-none pos ts t fresh, row-NodupKeys pos ts s)

    pub scores_for-IsDictReport :
        (disputes : Dict Position TokenSet)
        → NodupKeys disputes
        → All IsDisputed disputes
        → IsDictReport (scores_for iter log_prob disputes)
    unfolding scores_for
    scores_for-IsDictReport [] u d = (tt, tt)
    scores_for-IsDictReport ((pos, ts) ∷ ds) (fresh, u) ((set, _), d) =
        let (nodup, rows) = scores_for-IsDictReport ds u d in
        (
          (lookup-scores_for-none ds pos fresh, nodup),
          (row-NodupKeys pos (iter ts) (law.distinct ts set), rows),
        )

  module _ ⦃f : Float F⦄ (iter : TokenSet → List Token) (law : IsIteration iter)
      (log_prob : Position → Token → F)
      (fits : (pos : Position) (tok : Token) → f.exp (log_prob pos tok) ≢ none) where
    row-FitsIn :
        (pos : Position) (ts : List Token) → FitsIn (map (λ tok. (tok, log_prob pos tok)) ts)
    row-FitsIn pos [] = tt
    row-FitsIn pos (t ∷ ts) = (fits pos t, row-FitsIn pos ts)

    row-ne-nil :
        (pos : Position) (ts : List Token)
        → ltb 1 (length ts) ≡ true
        → map {B = Token × F} (λ tok. (tok, log_prob pos tok)) ts ≢ []
    row-ne-nil pos [] h = absurd (ground arith)
    row-ne-nil pos (t ∷ ts) h = λ e. cc

    pub scores_for-IsReport :
        (disputes : Dict Position TokenSet)
        → All IsDisputed disputes
        → All IsReport (scores_for iter log_prob disputes)
    unfolding scores_for
    scores_for-IsReport [] d = tt
    scores_for-IsReport ((pos, ts) ∷ ds) ((_, many), d) = (
      (row-FitsIn pos (iter ts), row-ne-nil pos (iter ts) (rw (law.size ts) many)),
      scores_for-IsReport ds d,
    )
