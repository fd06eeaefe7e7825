-- ===== src/Generation/Refines.antt =====
-- What a `_do_sync` (node/generation.py) that has returned has made of what it heard.
use ded_swarm.Base.{
  ◌≡◌, ◌⊎◌, inl, inr, refl, sym, ap, subst, ◌∙◌, false, true, List, [], ◌∷◌, nat_eq, string_eq,
  some, String, contains, All, ok, for_each, >>=-eq-ok, arith,
}
use ded_swarm.Base.Dict.{Dict, lookup, insert}
use ded_swarm.Base.Every.{Among, All-Among, All-insert, All-map, All-zip, All-keys, for_each_keeps}
use ded_swarm.Base.Refill.{for_each-untouched}
use ded_swarm.Float.{Float}
use ded_swarm.Config.{sync_barrier_timeout}
use ded_swarm.Protocol.{MsgType, commit, dispute_score, Payload, Envelope}
use ded_swarm.Consensus.{
  NodeId, Position, Token, TokenSet, Commit, Commits, Scores, AllScores, detect_disputes,
  resolve_disputes,
}
use ded_swarm.Consensus.Adopt.{IsIteration}
use ded_swarm.Consensus.Disputes.{detect_disputes_iff}
use ded_swarm.Consensus.Merge.{Covers, merge_consensus-merged_at}
use ded_swarm.Stop.{StopDetector}
use ded_swarm.Swarm.{Key, Bucket, SwarmNode, Tick, Collected, key_of, collect_until}
use ded_swarm.Swarm.Origin.{collect_until-SentUnder}
use ded_swarm.Swarm.Senders.{collect_until-expected}
use ded_swarm.Generation.Scoring.{scores_for}
use ded_swarm.Generation.{
  SyncArgs, Synced, read_commit, add_commit, read_scores, add_scores, do_sync,
}
use ded_swarm.Generation.Phases.{Phased, do_sync-Phased, score_phase-calm, score_phase-Scored}
use ded_swarm.Generation.Sync.{add_commit-stores, score_phase-covers, IsMerged}

module _ {F : Type 0} (a : SyncArgs F) (ticks : List (Tick F)) (n : SwarmNode F) where
  -- The node had the payload in its inbox when the sync began, or has read it in a turn of a barrier.
  abbrev pub IsHeard : Key → String → Payload F → Type 0
  IsHeard key sender payload =
      ((b : Bucket F) × Among (key, b) n.gen_inbox × Among (sender, payload) b)
      ⊎ ((t : Tick F) × (env : Envelope F) × Among t ticks
          × (t.env ≡ some env)
          × (key_of env ≡ key)
          × (env.node_id ≡ sender)
          × (env.payload ≡ payload))

  -- The other participant has sent the payload for this sync, and the node has heard it.
  abbrev pub IsSent : MsgType → String → Payload F → Type 0
  IsSent msg_type sender payload =
      (contains a.other_participants sender ≡ true)
      × IsHeard (msg_type, (some a.round_id, some a.sync_seq)) sender payload

  -- An entry of the log: the own commits, or those of a COMMIT that was heard.
  abbrev pub IsLogged : NodeId × Commit F → Type 0
  IsLogged (id, c) =
      ((id ≡ a.id) × (c ≡ a.my_commits))
      ⊎ ((payload : Payload F) × IsSent commit id payload × (read_commit payload ≡ ok c))

  -- An entry of the scores: the own ones, or those of a DISPUTE_SCORE that was heard.
  abbrev pub IsReported : Scores F → NodeId × Scores F → Type 0
  IsReported mine (id, s) =
      ((id ≡ a.id) × (s ≡ mine))
      ⊎ ((payload : Payload F) × IsSent dispute_score id payload × (read_scores payload ≡ ok s))

  inbox-IsHeard : All (λ b. All (λ e. IsHeard b.0 e.0 e.1) b.1) n.gen_inbox
  inbox-IsHeard =
      All-map (λ b. Among b n.gen_inbox) (λ b. All (λ e. IsHeard b.0 e.0 e.1) b.1) n.gen_inbox
        (λ b there.
          All-map (λ e. Among e b.1) (λ e. IsHeard b.0 e.0 e.1) b.1
            (λ e inside. inl (b.1, there, inside)) (All-Among b.1))
        (All-Among n.gen_inbox)

  module _ ⦃f : Float F⦄ where
    -- What a barrier of the sync receives.
    received-IsSent :
        (msg_type : MsgType) (started : F) (ahead : List (Tick F)) (m : SwarmNode F)
        (c : Collected F)
        → All (λ t. Among t ticks) ahead
        → All (λ b. All (λ e. IsHeard b.0 e.0 e.1) b.1) m.gen_inbox
        → collect_until msg_type a.round_id a.sync_seq a.other_participants sync_barrier_timeout
            started ahead m
          ≡ ok (some c)
        → All (λ e. IsSent msg_type e.0 e.1) c.received
          × All (λ b. All (λ e. IsHeard b.0 e.0 e.1) b.1) c.node.gen_inbox
          × All (λ t. Among t ticks) c.ticks
    received-IsSent msg_type started ahead m c w i run =
        let (heard, left, rest) =
          collect_until-SentUnder IsHeard (λ t. Among t ticks)
            (λ t env there e. inr (t, env, there, e, refl, refl, refl)) msg_type a.round_id
            a.sync_seq a.other_participants sync_barrier_timeout started ahead m c w i run in
        let expected =
          All-keys (λ s. contains a.other_participants s ≡ true) c.received
            (λ s there.
              collect_until-expected msg_type a.round_id a.sync_seq a.other_participants
                sync_barrier_timeout started ahead m c s run (ground arith)) in
        (
          All-zip (λ e. IsHeard (msg_type, (some a.round_id, some a.sync_seq)) e.0 e.1)
              (λ e. contains a.other_participants e.0 ≡ true) (λ e. IsSent msg_type e.0 e.1)
              c.received (λ e h x. (x, h)) heard expected,
          left,
          rest,
        )

  log-IsLogged :
      (received : Bucket F) (log : Commits F)
      → All (λ e. IsSent commit e.0 e.1) received
      → for_each add_commit ((a.id, a.my_commits) ∷ []) received ≡ ok log
      → All IsLogged log
  unfolding add_commit
  log-IsLogged received log h =
      for_each_keeps add_commit (All IsLogged) (λ e. IsSent commit e.0 e.1)
        (λ acc x acc' well sent e.
          let (c, read, rest) = >>=-eq-ok (read_commit x.1) (λ c. ok (insert x.0 c acc)) e in
          let same : insert x.0 c acc ≡ acc' = cc in
          subst (All IsLogged) same (All-insert IsLogged x.0 c acc (inr (x.1, sent, read)) well))
        received ((a.id, a.my_commits) ∷ []) log (inl (refl, refl), tt) h

  scores-IsReported :
      (received : Bucket F) (mine : Scores F) (all : AllScores F)
      → All (λ e. IsSent dispute_score e.0 e.1) received
      → for_each add_scores ((a.id, mine) ∷ []) received ≡ ok all
      → All (IsReported mine) all
  unfolding add_scores
  scores-IsReported received mine all h =
      for_each_keeps add_scores (All (IsReported mine)) (λ e. IsSent dispute_score e.0 e.1)
        (λ acc x acc' well sent e.
          let (s, read, rest) = >>=-eq-ok (read_scores x.1) (λ s. ok (insert x.0 s acc)) e in
          let same : insert x.0 s acc ≡ acc' = cc in
          subst (All (IsReported mine)) same
            (All-insert (IsReported mine) x.0 s acc (inr (x.1, sent, read)) well))
        received ((a.id, mine) ∷ []) all (inl (refl, refl), tt) h

  module _ ⦃f : Float F⦄ (iter : TokenSet → List Token) where
    -- The resolution of the disputes of the log: none, or the winners of the scores.
    abbrev pub IsResolution : Commits F → Dict Position Token → Type 0
    IsResolution log resolved =
        ((detect_disputes log ≡ []) × (resolved ≡ []))
        ⊎ ((all : AllScores F) × (resolve_disputes all ≡ ok resolved)
            × All (IsReported (scores_for iter a.log_prob (detect_disputes log))) all)

    module _ (law : IsIteration iter) (shared_x : Dict Position Token) (detector : StopDetector)
        (started later : F) (s : Synced F) where
      resolution :
          (ph : Phased iter a shared_x detector started later ticks n s)
          → All (λ b. All (λ e. IsHeard b.0 e.0 e.1) b.1) ph.c.node.gen_inbox
          → All (λ t. Among t ticks) ph.c.ticks
          → IsResolution ph.log ph.r.resolved
      resolution ph left rest = go (detect_disputes ph.log) refl
        where
          go :
              (ds : Dict Position TokenSet)
              → detect_disputes ph.log ≡ ds
              → IsResolution ph.log ph.r.resolved
          go [] e =
              let (resolved, _) =
                score_phase-calm iter a later ph.c.ticks ph.c.node ph.r (rw e at ph.scores) in
              inl (e, resolved)
          go (d ∷ ds) e =
              let sc =
                score_phase-Scored iter a d ds later ph.c.ticks ph.c.node ph.r
                  (rw e at ph.scores) in
              let (sent, _, _) =
                received-IsSent dispute_score later ph.c.ticks ph.c.node sc.c rest left
                  sc.collects in
              inr (
                sc.all_scores,
                sc.resolves,
                rw e (
                    scores-IsReported sc.c.received (scores_for iter a.log_prob (d ∷ ds))
                      sc.all_scores sent sc.reads),
              )

      -- What a sync that returns makes of what it has heard, and of nothing else: its new state is
      -- the old one with a log of commits merged into it. Each entry of the log is the node's own
      -- commits or those of a COMMIT that another participant sent for this sync, found in the inbox or
      -- read by a barrier. Each disputed position of the log is resolved, by the winners among
      -- scores that are the node's own for these disputes or those of a DISPUTE_SCORE that was heard
      -- alike. The new detector is what a check of the new state leaves. The node must not be among the
      -- others.
      pub do_sync-refines :
          contains a.other_participants a.id ≡ false
          → do_sync iter a shared_x detector started later ticks n ≡ ok (some s)
          → (log : Commits F) × (resolved : Dict Position Token) × All IsLogged log
            × (lookup a.id log ≡ some a.my_commits)
            × IsResolution log resolved
            × Covers resolved log
            × IsMerged iter law a shared_x detector s log resolved
      unfolding lookup
      do_sync-refines alone run =
          let ph = do_sync-Phased iter a shared_x detector started later ticks n s run in
          let (sent, left, rest) =
            received-IsSent commit started ticks n ph.c (All-Among ticks) inbox-IsHeard
              ph.collects in
          let covers : Covers ph.r.resolved ph.log = λ pos contested.
            score_phase-covers iter a (detect_disputes ph.log) later ph.c.ticks ph.c.node ph.r pos
              alone ph.scores ((detect_disputes_iff ph.log pos).1 contested) in
          let (m, merges, eq) = merge_consensus-merged_at iter law shared_x ph.log ph.r.resolved in
          let same : m ≡ s.shared_x = cc (ph.merges) in
          (
            ph.log,
            ph.r.resolved,
            log-IsLogged ph.c.received ph.log sent ph.reads,
            for_each-untouched add_commit add_commit-stores ph.c.received
                  ((a.id, a.my_commits) ∷ []) ph.log a.id ph.reads
                  (ground (
                    arith,
                    alone,
                    collect_until-expected commit a.round_id a.sync_seq a.other_participants
                        sync_barrier_timeout started ticks n ph.c a.id ph.collects,
                  ))
                ∙ ground arith,
            resolution ph left rest,
            covers,
            (λ pos. ap (lookup pos) (sym same) ∙ eq covers pos, ph.checks),
          )
