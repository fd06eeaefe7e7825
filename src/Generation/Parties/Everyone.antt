-- ===== src/Generation/Parties/Everyone.antt =====
-- Any two participants of a sync (`_do_sync`, node/generation.py) agree, however many take part.
use ded_swarm.Base.{◌≡◌, ◌≢◌, inl, inr, sym, ap, ◌∙◌, [], nat_eq, string_eq, String, some}
use ded_swarm.Base.Dict.{lookup, SameLookups}
use ded_swarm.Float.{Float, IsOrdered, IsExact}
use ded_swarm.Consensus.{detect_disputes}
use ded_swarm.Consensus.Agreement.{resolve_disputes_exact}
use ded_swarm.Consensus.Calm.{calm-Covers}
use ded_swarm.Consensus.Merge.{Covers, merge_consensus_agree}
use ded_swarm.Stop.Agreement.{check_congr}
use ded_swarm.Generation.Parties.{Participant, Meeting, AllTakePart}
use ded_swarm.Generation.Parties.Logs.{takes_part, phases, IsDisputing, phase_2_or_none}
use ded_swarm.Generation.Parties.Gathered.{same_proposals, calm_together}
use ded_swarm.Generation.Parties.Tallies.{
  phase_2, all_scores-AreReports, resolved-Covers, all_scores_perm,
}

module _ {F : Type 0} ⦃f : Float F⦄ (laws : IsOrdered F) (exact : IsExact F) (m : Meeting F)
    (all : AllTakePart m) (id other : String) (p q : Participant F)
    (there : lookup id m.participants ≡ some p)
    (there' : lookup other m.participants ≡ some q) where
  -- Equal resolutions of the disputes leave equal states.
  merged_alike :
      SameLookups (phases m all id p there).r.resolved (phases m all other q there').r.resolved
      → Covers (phases m all id p there).r.resolved (phases m all id p there).log
      → SameLookups p.result.shared_x q.result.shared_x
  merged_alike winners covers =
      let t = takes_part m all id p there in
      let t' = takes_part m all other q there' in
      let ph = phases m all id p there in
      let ph' = phases m all other q there' in
      let (x, y, run, run', same) =
        merge_consensus_agree p.iter q.iter p.shared_x ph.r.resolved ph.log q.shared_x
          ph'.r.resolved ph'.log t.iterates t'.iterates
          (same_proposals m all id other p q there there')
          (λ pos. t.same_state pos ∙ sym (t'.same_state pos)) winners covers in
      let left : x ≡ p.result.shared_x = cc (ph.merges) in
      let right : y ≡ q.result.shared_x = cc (ph'.merges) in
      λ pos. ap (lookup pos) (sym left) ∙ same pos ∙ ap (lookup pos) right

  all_disputing :
      IsDisputing m all p (phases m all id p there)
      → (s : String) (o : Participant F) (here : lookup s m.participants ≡ some o)
      → detect_disputes (phases m all s o here).log ≢ []
  all_disputing (storm, _) s o here calm = storm (calm_together m all s id o p here there calm)

  same_states : SameLookups p.result.shared_x q.result.shared_x
  same_states = elim (phase_2_or_none m all p (phases m all id p there)) [
    | inl (calm, resolved, _) ↦ elim (phase_2_or_none m all q (phases m all other q there')) [
      | inr (storm, _) ↦ absurd (storm (calm_together m all id other p q there there' calm))
      | inl (_, resolved', _) ↦
          merged_alike (λ pos. ap (lookup pos) (resolved ∙ sym resolved'))
            (rw resolved (calm-Covers (phases m all id p there).log calm))
    ]
    | inr d ↦
        let disputed = all_disputing d in
        let sc = phase_2 m all disputed id p there in
        let sc' = phase_2 m all disputed other q there' in
        let (w, v, run, run', same) =
          resolve_disputes_exact laws exact sc.all_scores sc'.all_scores
            (all_scores_perm m all disputed id other p q there there')
            (all_scores-AreReports m all disputed id p there) in
        let left : w ≡ (phases m all id p there).r.resolved = cc (sc.resolves) in
        let right : v ≡ (phases m all other q there').r.resolved = cc (sc'.resolves) in
        merged_alike (λ pos. ap (lookup pos) (sym left) ∙ same pos ∙ ap (lookup pos) right)
          (resolved-Covers m all disputed id p there)
  ]

  -- Any two of all the participants of a sync end with equal states and with the same stop detector,
  -- boundary included. All have started from equal states, have committed each position once, and
  -- have returned, with no reading of a clock at a deadline; and each payload under a key of the sync
  -- that one of them has read, or found in its inbox, in the name of another is one that the other
  -- published. The messages come in any order and any number of times, among those of strangers and of
  -- other syncs. Each iterates over sets in an order of its own and scores tokens in a way of its own
  -- that does not overflow `exp`; sums of floats are exact.
  pub do_sync_everyone :
      SameLookups p.result.shared_x q.result.shared_x × (p.result.detector ≡ q.result.detector)
  do_sync_everyone =
      let t = takes_part m all id p there in
      let t' = takes_part m all other q there' in
      (
        same_states,
        (phases m all id p there).checks
            ∙ check_congr m.detector p.result.shared_x q.result.shared_x p.args.gen_start
                p.args.gen_end same_states
            ∙ rw (t.same_start, t.same_end, ← t'.same_start, ← t'.same_end)
                (sym (phases m all other q there').checks),
      )
