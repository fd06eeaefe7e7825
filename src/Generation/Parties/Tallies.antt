-- ===== src/Generation/Parties/Tallies.antt =====
-- Every participant of a sync with disputes weighs the same reports, in an order of its own.
use mathlib.Core.List.{Permᴰ}
use ded_swarm.Base.{
  ◌≡◌, ◌≢◌, inl, inr, refl, sym, ap, ◌∙◌, List, [], ◌∷◌, nat_eq, string_eq, String, Option, none,
  some, All, ok, raise, Option-cases, arith, subst,
}
use ded_swarm.Base.Dict.{lookup, insert, NodupKeys}
use ded_swarm.Base.Every.{All-map, All-lookup}
use ded_swarm.Base.Perms.{SameLookups-perm}
use ded_swarm.Base.Refill.{for_each-filled}
use ded_swarm.Float.{Float}
use ded_swarm.Protocol.{MsgType, commit, dispute_score, Payload}
use ded_swarm.Consensus.{Scores, AllScores, detect_disputes}
use ded_swarm.Consensus.Disputes.{detect_disputes_iff}
use ded_swarm.Consensus.Merge.{Covers}
use ded_swarm.Consensus.Covering.{resolve_disputes-covers}
use ded_swarm.Consensus.Votes.{IsReport, AreReports}
use ded_swarm.Consensus.Pair.{IsDictReport}
use ded_swarm.Generation.Scoring.{scores_for}
use ded_swarm.Generation.{commit_payload, scores_payload, read_scores, add_scores}
use ded_swarm.Generation.Sync.{lookup-scores_for}
use ded_swarm.Generation.Messages.{read_scores-scores_payload}
use ded_swarm.Generation.Reports.{
  detect_disputes-IsDisputed, scores_for-IsDictReport, scores_for-IsReport,
}
use ded_swarm.Generation.Phases.{Scored}
use ded_swarm.Generation.Parties.{Participant, Meeting, IsAmong, Published, AllTakePart}
use ded_swarm.Generation.Parties.Logs.{takes_part, phases, phase_2_or_none, heard, everyone_heard}

module _ {F : Type 0} where
  -- The scores that the messages of a sync carry.
  reported : List (MsgType × Payload F) → Scores F
  reported [] = []
  reported ((msg_type, x) ∷ rest) = elim msg_type [
    | dispute_score ↦ elim (read_scores x) [ ok s ↦ s | raise _ ↦ [] ]
    | _ ↦ reported rest
  ]

  reported-scores_payload :
      (x y : Payload F) (s : Scores F)
      → read_scores y ≡ ok s
      → reported ((commit, x) ∷ (dispute_score, y) ∷ []) ≡ s
  unfolding reported
  reported-scores_payload x y s h = ground (arith, h)

  scores_second :
      (payload x y : Payload F)
      → IsAmong (dispute_score, payload) ((commit, x) ∷ (dispute_score, y) ∷ [])
      → payload ≡ y
  scores_second payload x y (inl e) = cc
  scores_second payload x y (inr (inl e)) = ap (λ z. z.1) e
  scores_second payload x y (inr (inr other)) = absurd other

module _ {F : Type 0} ⦃f : Float F⦄ (m : Meeting F) (all : AllTakePart m)
    (disputed : (id : String) (p : Participant F) (there : lookup id m.participants ≡ some p)
      → detect_disputes (phases m all id p there).log ≢ []) where
  report_of : Option (Participant F) → Scores F
  report_of none = []
  report_of (some p) = reported p.result.published

  report : String → Scores F
  report s = report_of (lookup s m.participants)

  IsReadScores : String × Payload F → Type 0
  IsReadScores (s, payload) = read_scores payload ≡ ok (report s)

  add_scores-IsReadScores :
      (acc : AllScores F) (x : String × Payload F)
      → IsReadScores x
      → add_scores acc x ≡ ok (insert x.0 (report (x.0)) acc)
  unfolding IsReadScores add_scores
  add_scores-IsReadScores acc (s, payload) h = rw h refl

  module _ (id : String) (p : Participant F) (there : lookup id m.participants ≡ some p) where
    pub phase_2 :
        let ph = phases m all id p there in
        Scored p.iter p.args (detect_disputes ph.log) p.later ph.c.ticks ph.c.node ph.r
    phase_2 = elim (phase_2_or_none m all p (phases m all id p there)) [
      | inl (calm, _, _) ↦ absurd (disputed id p there calm)
      | inr (_, sc) ↦ sc
    ]

    mine : Scores F
    mine = scores_for p.iter p.args.log_prob (detect_disputes (phases m all id p there).log)

    mine-IsDictReport : IsDictReport mine × All IsReport mine
    unfolding mine
    mine-IsDictReport =
        let t = takes_part m all id p there in
        let ds = detect_disputes (phases m all id p there).log in
        let (u, d) = detect_disputes-IsDisputed (phases m all id p there).log in
        (
          scores_for-IsDictReport p.iter t.iterates p.args.log_prob ds u d,
          scores_for-IsReport p.iter t.iterates p.args.log_prob t.fits ds d,
        )

    reads_mine : read_scores (scores_payload p.args.round_id p.args.sync_seq mine) ≡ ok mine
    reads_mine =
        let ((u, rows), _) = mine-IsDictReport in
        read_scores-scores_payload p.args.round_id p.args.sync_seq mine u rows

    report-eq-mine : report id ≡ mine
    unfolding report report_of mine
    report-eq-mine =
        ap report_of there
        ∙ ap reported (
            (phases m all id p there).publishes
            ∙ ap
                (λ rest.
                  (commit, commit_payload p.args.round_id p.args.sync_seq p.args.my_commits) ∷ rest)
                phase_2.publishes)
        ∙ reported-scores_payload _ _ _ reads_mine

    -- A DISPUTE_SCORE that the participant published carries its report.
    published_scores :
        (payload : Payload F)
        → IsAmong (dispute_score, payload) p.result.published
        → read_scores payload ≡ ok (report id)
    unfolding mine
    published_scores payload sent =
        ap read_scores (
          scores_second payload _ _
            (rw ((phases m all id p there).publishes, phase_2.publishes) at sent))
        ∙ reads_mine
        ∙ ap ok (sym report-eq-mine)

  reads_scores :
      (s : String) (payload : Payload F)
      → Published (lookup s m.participants) (dispute_score, payload)
      → IsReadScores (s, payload)
  unfolding IsReadScores
  reads_scores s payload sent = elim (Option-cases (lookup s m.participants)) [
    | inl e ↦ absurd (rw e at sent)
    | inr (q, e) ↦ published_scores s q e payload (rw e at sent)
  ]

  module _ (id : String) (p : Participant F) (there : lookup id m.participants ≡ some p) where
    tallied :
        let all_scores = (phase_2 id p there).all_scores in
        NodupKeys all_scores
        × ((s : String)
            → lookup s all_scores
              ≡ elim (lookup s m.participants) [ none ↦ none | some _ ↦ some (report s) ])
    unfolding lookup mine
    tallied =
        let t = takes_part m all id p there in
        let ph = phases m all id p there in
        let sc = phase_2 id p there in
        let (_, _, i, g, w) =
          heard m all id p there commit p.started p.ticks p.node ph.c t.inbox t.filed_genuine
            t.timely (λ tick timely. timely.0) ph.collects in
        let (sent, who, _, _, _) =
          heard m all id p there dispute_score p.later ph.c.ticks ph.c.node sc.c i g w
            (λ tick timely. timely.1) sc.collects in
        let (nodup, at) =
          for_each-filled add_scores report IsReadScores add_scores-IsReadScores sc.c.received
            ((p.args.id, mine id p there) ∷ []) sc.all_scores
            (All-map (λ e. Published (lookup e.0 m.participants) (dispute_score, e.1)) IsReadScores
              sc.c.received (λ e. reads_scores e.0 e.1) sent)
            (refl, tt) sc.reads in
        (
          nodup,
          λ s.
              at s
              ∙ everyone_heard m all id p there sc.c.received report (mine id p there) s (who s)
                  (report-eq-mine id p there),
        )

    each_score_fits :
        (s : String) (r : Scores F)
        → lookup s (phase_2 id p there).all_scores ≡ some r
        → All IsReport r
    each_score_fits s r found = elim (Option-cases (lookup s m.participants)) [
      | inl e ↦ cc (tallied.1 s)
      | inr (q, e) ↦
          let same : mine s q e ≡ r = cc (tallied.1 s, report-eq-mine s q e) in
          subst (All IsReport) same (mine-IsDictReport s q e).1
    ]

    pub all_scores-AreReports : AreReports (phase_2 id p there).all_scores
    all_scores-AreReports =
        All-lookup (λ _ r. All IsReport r) (phase_2 id p there).all_scores tallied.0 each_score_fits

    -- What is resolved covers all disputes.
    pub resolved-Covers : Covers (phases m all id p there).r.resolved (phases m all id p there).log
    unfolding mine
    resolved-Covers pos contested =
        let log = (phases m all id p there).log in
        resolve_disputes-covers (phase_2 id p there).all_scores (phases m all id p there).r.resolved
          id (mine id p there) pos (phase_2 id p there).resolves
          (tallied.1 id ∙ rw there (ap some (report-eq-mine id p there)))
          (λ miss.
            (detect_disputes_iff log pos).1 contested
              (lookup-scores_for p.iter p.args.log_prob (detect_disputes log) pos miss))

  -- Any two of them hold the same reports.
  pub all_scores_perm :
      (id other : String) (p q : Participant F) (there : lookup id m.participants ≡ some p)
      (there' : lookup other m.participants ≡ some q)
      → Permᴰ (phase_2 id p there).all_scores (phase_2 other q there').all_scores
  all_scores_perm id other p q there there' =
      let (nodup, at) = tallied id p there in
      let (nodup', at') = tallied other q there' in
      SameLookups-perm (phase_2 id p there).all_scores (phase_2 other q there').all_scores nodup
        nodup' (λ s. at s ∙ sym (at' s))
