-- ===== src/Generation/Scoring.antt =====
-- The scores of the disputed tokens that a participant takes from its model's output in `_do_sync`
-- (node/generation.py), and what keeps the lookup from raising.
use ded_swarm.Base.{
  ◌<◌, ◌≡◌, refl, ap, each, sym, ◌∙◌, true, List, [], ◌∷◌, map, contains, All, Result, ok, ◌>>=◌,
  >>=-eq-ok, arith, nat_eq, Option,
}
use ded_swarm.Base.Dict.{Dict}
use ded_swarm.Base.Every.{each-eq-ok, each_total}
use ded_swarm.Float.{Float}
use ded_swarm.Config.{sync_barrier_timeout}
use ded_swarm.Protocol.{dispute_score}
use ded_swarm.Consensus.{Position, Token, TokenSet, Scores}
use ded_swarm.Consensus.Adopt.{IsIteration}
use ded_swarm.Swarm.{SwarmNode, Tick, collect_until}
use ded_swarm.Generation.{
  SyncArgs, Resolved, score_candidate, score_row, score_disputes, scores_payload, resolve_collected,
  score_phase,
}

module _ {F : Type 0} where
  -- The scores, where no lookup raises.
  unfoldable pub scores_for :
      (TokenSet → List Token) → (Position → Token → F) → Dict Position TokenSet → Scores F
  scores_for iter log_prob = map (λ e. (e.0, map (λ tok. (tok, log_prob e.0 tok)) (iter e.1)))

module _ {F : Type 0} (iter : TokenSet → List Token) (a : SyncArgs F) where
  abbrev pub IsScored : Dict Position TokenSet → Type 0
  IsScored ds = score_disputes iter a ds ≡ ok (scores_for iter a.log_prob ds)

  -- The model's output has an entry for the position and the token.
  abbrev pub IsInside : Position → Token → Type 0
  IsInside pos tok = (pos < a.seq_len) × (tok < a.vocab_size)

  abbrev pub IsScorable : Position × TokenSet → Type 0
  IsScorable d = (tok : Token) → contains d.1 tok ≡ true → IsInside d.0 tok

  score_candidate-eq-ok :
      (pos : Position) (tok : Token) (y : Token × F)
      → score_candidate a pos tok ≡ ok y
      → y ≡ (tok, a.log_prob pos tok)
  unfolding score_candidate
  score_candidate-eq-ok pos tok y e = ground arith

  score_row-eq-ok :
      (d : Position × TokenSet) (y : Position × Dict Token F)
      → score_row iter a d ≡ ok y
      → y ≡ (d.0, map (λ tok. (tok, a.log_prob d.0 tok)) (iter d.1))
  unfolding score_row
  score_row-eq-ok (pos, tokens) y e =
      let (row, run, last) =
        >>=-eq-ok (each (score_candidate a pos) (iter tokens)) (λ row. ok (pos, row)) e in
      cc (
        each-eq-ok (score_candidate a pos) (λ tok. (tok, a.log_prob pos tok))
          (score_candidate-eq-ok pos) (iter tokens) row run)

  score_disputes-eq-ok :
      (ds : Dict Position TokenSet) (mine : Scores F)
      → score_disputes iter a ds ≡ ok mine
      → mine ≡ scores_for iter a.log_prob ds
  unfolding score_disputes scores_for
  score_disputes-eq-ok =
      each-eq-ok (score_row iter a) (λ e. (e.0, map (λ tok. (tok, a.log_prob e.0 tok)) (iter e.1)))
        score_row-eq-ok

  candidates-IsInside :
      (pos : Position) (toks : List Token)
      → ((tok : Token) → contains toks tok ≡ true → IsInside pos tok)
      → All (IsInside pos) toks
  candidates-IsInside pos [] h = tt
  candidates-IsInside pos (tok ∷ toks) h =
      (h tok (ground arith), candidates-IsInside pos toks (λ t there. h t (ground arith)))

  score_row_total :
      IsIteration iter
      → (d : Position × TokenSet) → IsScorable d
      → score_row iter a d ≡ ok (d.0, map (λ tok. (tok, a.log_prob d.0 tok)) (iter d.1))
  unfolding score_row score_candidate
  score_row_total law (pos, tokens) h =
      rw
        (each_total (score_candidate a pos) (λ tok. (tok, a.log_prob pos tok)) (IsInside pos)
          (λ tok (x, y). ground arith) (iter tokens)
          (candidates-IsInside pos (iter tokens)
            (λ t there. h t (sym (law.same tokens t) ∙ there))))
        refl

  -- Where the model's output has an entry for each disputed token, the lookup raises nothing.
  pub scorable-IsScored :
      IsIteration iter → (ds : Dict Position TokenSet) → All IsScorable ds → IsScored ds
  unfolding score_disputes scores_for
  scorable-IsScored law =
      each_total (score_row iter a) (λ e. (e.0, map (λ tok. (tok, a.log_prob e.0 tok)) (iter e.1)))
        IsScorable (score_row_total law)

module _ {F : Type 0} ⦃f : Float F⦄ (iter : TokenSet → List Token) (a : SyncArgs F)
    (d : Position × TokenSet) (ds : Dict Position TokenSet) (started : F) (ticks : List (Tick F))
    (n : SwarmNode F) where
  abbrev mine : Scores F
  mine = scores_for iter a.log_prob (d ∷ ds)

  -- Phase 2 once the scores are there.
  abbrev pub phase_2_with : Result (Option (Resolved F))
  phase_2_with =
      collect_until dispute_score a.round_id a.sync_seq a.other_participants sync_barrier_timeout
        started ticks n
      >>= resolve_collected iter mine
          ((dispute_score, scores_payload a.round_id a.sync_seq mine) ∷ []) a.id

  pub score_phase-IsScored :
      IsScored iter a (d ∷ ds) → score_phase iter a (d ∷ ds) started ticks n ≡ phase_2_with
  unfolding score_phase
  score_phase-IsScored h = rw h refl

  pub score_phase-eq-ok :
      (o : Option (Resolved F))
      → score_phase iter a (d ∷ ds) started ticks n ≡ ok o
      → IsScored iter a (d ∷ ds) × (phase_2_with ≡ ok o)
  unfolding score_phase
  score_phase-eq-ok o e =
      let (s, run, rest) =
        >>=-eq-ok (score_disputes iter a (d ∷ ds))
          (λ (mine : Scores F).
            collect_until dispute_score a.round_id a.sync_seq a.other_participants
              sync_barrier_timeout started ticks n
            >>= resolve_collected iter mine
                ((dispute_score, scores_payload a.round_id a.sync_seq mine) ∷ []) a.id)
          e in
      let scored : IsScored iter a (d ∷ ds) =
        run ∙ ap ok (score_disputes-eq-ok iter a (d ∷ ds) s run) in
      (scored, sym (score_phase-IsScored scored) ∙ e)

module _ {F : Type 0} ⦃f : Float F⦄ (iter : TokenSet → List Token) (a : SyncArgs F) where
  -- A phase 2 that has not raised has scored all that is disputed.
  pub score_phase-scores :
      (ds : Dict Position TokenSet) (started : F) (ticks : List (Tick F)) (n : SwarmNode F)
      (o : Option (Resolved F))
      → score_phase iter a ds started ticks n ≡ ok o
      → IsScored iter a ds
  unfolding score_disputes scores_for
  score_phase-scores [] started ticks n o e = refl
  score_phase-scores (d ∷ ds) started ticks n o e =
      (score_phase-eq-ok iter a d ds started ticks n o e).0
