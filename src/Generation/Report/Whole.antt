-- ===== src/Generation/Report/Whole.antt =====
-- The report of a sync that has returned (node/generation.py, under VERBOSE).
use ded_swarm.Base.{
  ℕ, ◌≡◌, ◌≢◌, refl, sym, ◌∙◌, false, true, List, [], ◌∷◌, nat_eq, string_eq, map, String, Option,
  none, contains, All, ok, arith,
}
use ded_swarm.Base.Dict.{Dict, lookup, keys, contains-keys}
use ded_swarm.Base.Order.{sorted, nat_ord, contains-sorted}
use ded_swarm.Float.{Float}
use ded_swarm.Consensus.{Position, Token, TokenSet, AllScores, detect_disputes}
use ded_swarm.Stop.{StopDetector}
use ded_swarm.Swarm.{SwarmNode, Tick}
use ded_swarm.Generation.{SyncArgs, Synced}
use ded_swarm.Generation.Sync.{score_phase-covers}
use ded_swarm.Generation.Phases.{Phased, Scored}
use ded_swarm.Generation.Report.{ReportArgs, SyncReport, dispute_line, report_with, sync_report}
use ded_swarm.Generation.Report.Printed.{
  each_total, dispute_line_total, FitIn, resolve_disputes-fits,
}

-- What a list has is in it.
All-there : (xs : List ℕ) (P : ℕ → Type 0) → ((x : ℕ) → contains xs x ≡ true → P x) → All P xs
All-there [] P h = tt
All-there (x ∷ xs) P h = (h x (ground arith), All-there xs P (λ y there. h y (ground arith)))

module _ {F : Type 0} ⦃f : Float F⦄ (iter : TokenSet → List Token) (a : SyncArgs F)
    (shared_x : Dict Position Token) (detector : StopDetector) (started later : F)
    (ticks : List (Tick F)) (n : SwarmNode F) (s : Synced F)
    (ph : Phased iter a shared_x detector started later ticks n s) (all_scores : AllScores F)
    (frozen_from : Option ℕ) (mask_id : ℕ) where
  -- What is printed of a sync in which phase 2 has gathered `all_scores`.
  abbrev pub report_args : ReportArgs F
  report_args = record {
    all_commits = ph.log;
    disputes = detect_disputes ph.log;
    all_scores = all_scores;
    resolved = ph.r.resolved;
    shared_x = s.shared_x;
    new_frozen_from = s.detector.stop_pos;
    frozen_from = frozen_from;
    gen_start = a.gen_start;
    gen_end = a.gen_end;
    mask_id = mask_id;
  }

module _ {F : Type 0} ⦃f : Float F⦄ (show : Token → String) (decode : List Token → String)
    (iter : TokenSet → List Token) (a : SyncArgs F) (shared_x : Dict Position Token)
    (detector : StopDetector) (started later : F) (ticks : List (Tick F)) (n : SwarmNode F)
    (s : Synced F) (ph : Phased iter a shared_x detector started later ticks n s)
    (all_scores : AllScores F) (frozen_from : Option ℕ) (mask_id : ℕ) where
  abbrev pub printed : ReportArgs F
  printed =
      report_args iter a shared_x detector started later ticks n s ph all_scores frozen_from mask_id

  -- The report of a sync with disputes is printed whole, its commits, scores and resolution being those
  -- of the sync: no exception is raised, each disputed position has one line, in order, and every line
  -- has a winner (never `?`). The node is not among those that it waits for.
  pub sync_report_total :
      contains a.other_participants a.id ≡ false
      → (sc : Scored iter a (detect_disputes ph.log) later ph.c.ticks ph.c.node ph.r)
      → sc.all_scores ≡ all_scores
      → (r : SyncReport F) × (sync_report show decode printed ≡ ok r)
        × All (λ l. l.winner ≢ none) r.disputes
        × (map (λ l. l.pos) r.disputes ≡ sorted (keys (detect_disputes ph.log)))
  unfolding sync_report report_with
  sync_report_total alone sc same =
      let ds = detect_disputes ph.log in
      let fits : FitIn all_scores =
        resolve_disputes-fits all_scores ph.r.resolved (rw (← same) sc.resolves) in
      let (lines, run, winners, positions) =
        each_total (dispute_line show decode printed) (λ pos. lookup pos ph.r.resolved ≢ none)
          (λ pos l. (l.winner ≢ none) × (l.pos ≡ pos)) (dispute_line_total show decode printed fits)
          (sorted (keys ds))
          (All-there (sorted (keys ds)) (λ pos. lookup pos ph.r.resolved ≢ none)
            (λ pos there.
              score_phase-covers iter a ds later ph.c.ticks ph.c.node ph.r pos alone ph.scores
                ((contains-keys ds pos).0 (sym (contains-sorted pos (keys ds)) ∙ there)))) in
      (
        report_with show decode printed lines,
        rw run refl,
        winners (λ l. l.winner ≢ none) (λ pos l q. q.0),
        positions (λ l. l.pos) (λ pos l q. q.1),
      )
