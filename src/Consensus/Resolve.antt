-- ===== src/Consensus/Resolve.antt =====
-- `resolve_disputes`: which token wins, and when two participants agree about it.
use ded_swarm.Base.{sym, ◌∙◌, ◌≡◌, ◌≢◌, refl, [], ◌∷◌, nat_eq, Option, none, some, All, arith, ok}
use ded_swarm.Base.Dict.{Dict, lookup, get_or, NodupKeys, SameLookups}
use ded_swarm.Float.{Float, IsOrdered}
use ded_swarm.Consensus.{Position, Token, AllScores, resolve_disputes}
use ded_swarm.Consensus.Votes.{score, bucket_at, AreReports, total_scores-score}
use ded_swarm.Consensus.Winner.{IsWinner, Picked, Outdone, pick-All}

module _ {F : Type 0} ⦃f : Float F⦄ where
  buckets_of_IsTally :
      (totals : Dict Position (Dict Token F))
      → NodupKeys totals
      → ((pos : Position) → NodupKeys (bucket_at pos totals))
      → ((pos : Position) → lookup pos totals ≢ some [])
      → All (λ e. (e.1 ≢ []) × NodupKeys e.1) totals
  unfolding lookup
  buckets_of_IsTally [] u b n = tt
  buckets_of_IsTally ((p, bucket) ∷ totals) (fresh, u) b n = (
    (ground (arith, n p), ground (arith, b p)),
    buckets_of_IsTally totals u (λ pos. ground (arith, b pos)) (λ pos e. ground (arith, n pos)),
  )

  -- If no reported log-probability overflows and no map of candidates is empty, `resolve_disputes`
  -- raises nothing, and it names a winner at exactly the positions with a score: a candidate whose
  -- score is the highest, and of those with that score the one with the lowest id.
  pub resolve_disputes-IsWinner :
      (laws : IsOrdered F) (scores : AllScores F)
      → AreReports scores
      → (w : Dict Position Token) × (resolve_disputes scores ≡ ok w)
        × ((pos : Position) → IsWinner scores pos (lookup pos w))
  unfolding resolve_disputes lookup
  resolve_disputes-IsWinner laws scores h =
      let (totals, run, g, eq) = total_scores-score scores h in
      let (w, run', picked) =
        pick-All laws totals [] g.nodup (buckets_of_IsTally totals g.nodup g.buckets g.nonempty) in
      (w, rw run run', λ pos. at pos (lookup pos totals) (lookup pos w) (eq pos) (picked pos))
    where
      at :
          (pos : Position) (bucket : Option (Dict Token F)) (new : Option Token)
          → ((t : Token) → lookup t (get_or bucket []) ≡ score scores pos t)
          → Picked bucket none new
          → IsWinner scores pos new
      at pos none new eq h = rw h (λ t. sym (eq t))
      at pos (some b) new eq (t, e, (s, found, best)) =
          rw e (s, sym (eq t) ∙ found, λ u. rw (eq u) at (best u))

  -- A winner is determined by the scores alone.
  IsWinner-unique :
      (laws : IsOrdered F) (c d : AllScores F) (pos : Position) (a b : Option Token)
      → ((t : Token) → score c pos t ≡ score d pos t)
      → IsWinner c pos a
      → IsWinner d pos b
      → a ≡ b
  IsWinner-unique laws c d pos none none same h k = refl
  IsWinner-unique laws c d pos none (some u) same h (r, e, _) = absurd (ground (arith, h u, same u))
  IsWinner-unique laws c d pos (some t) none same (s, e, _) k = absurd (ground (arith, k t, same t))
  IsWinner-unique laws c d pos (some t) (some u) same (s, e, best) (r, e', best') =
      let up : Outdone t s u (some r) = rw (same u ∙ e') at (best u) in
      let down : Outdone u r t (some s) = rw (sym (same t) ∙ e) at (best' t) in ground arith

  -- Two participants with the same score for every candidate name the same winners.
  pub resolve_disputes_congr :
      (laws : IsOrdered F) (c d : AllScores F)
      → AreReports c
      → AreReports d
      → ((pos : Position) (t : Token) → score c pos t ≡ score d pos t)
      → (w v : Dict Position Token) × (resolve_disputes c ≡ ok w)
        × (resolve_disputes d ≡ ok v)
        × SameLookups w v
  resolve_disputes_congr laws c d h k same =
      let (w, run, win) = resolve_disputes-IsWinner laws c h in
      let (v, run', win') = resolve_disputes-IsWinner laws d k in
      (
        w,
        v,
        run,
        run',
        λ pos.
            IsWinner-unique laws c d pos (lookup pos w) (lookup pos v) (same pos) (win pos)
              (win' pos),
      )
