-- ===== src/Generation/Phases.antt =====
-- A `_do_sync` (node/generation.py) that has returned, taken apart: what its two barriers received,
-- and what it made of it.
use ded_swarm.Base.{
  ◌≡◌, List, [], ◌∷◌, nat_eq, string_eq, Option, none, some, Result, ok, for_each, ◌>>=◌, >>=-eq-ok,
  arith,
}
use ded_swarm.Base.Dict.{Dict}
use ded_swarm.Float.{Float}
use ded_swarm.Config.{sync_barrier_timeout}
use ded_swarm.Protocol.{MsgType, commit, dispute_score, Payload}
use ded_swarm.Consensus.{
  Position, Token, TokenSet, Commits, AllScores, detect_disputes, resolve_disputes, merge_consensus,
}
use ded_swarm.Stop.{StopDetector, check}
use ded_swarm.Swarm.{SwarmNode, Tick, Collected, collect_until}
use ded_swarm.Generation.Scoring.{score_phase-eq-ok, scores_for}
use ded_swarm.Generation.{
  SyncArgs, Resolved, Synced, commit_payload, scores_payload, add_commit, add_scores,
  resolve_collected, score_phase, merge_phase, commits_collected, do_sync,
}

module _ {F : Type 0} ⦃f : Float F⦄ (iter : TokenSet → List Token) (a : SyncArgs F) where
  -- Phase 2 with the disputes `ds`.
  pub record Scored (ds : Dict Position TokenSet) (started : F) (ticks : List (Tick F))
      (n : SwarmNode F) (r : Resolved F) : Type 0 where
    pub c : Collected F
    pub all_scores : AllScores F
    pub collects :
        collect_until dispute_score a.round_id a.sync_seq a.other_participants sync_barrier_timeout
          started ticks n
        ≡ ok (some c)
    pub reads :
        for_each add_scores ((a.id, scores_for iter a.log_prob ds) ∷ []) c.received ≡ ok all_scores
    pub resolves : resolve_disputes all_scores ≡ ok r.resolved
    pub publishes :
        r.published
        ≡ (dispute_score, scores_payload a.round_id a.sync_seq (scores_for iter a.log_prob ds)) ∷ []

  pub score_phase-calm :
      (started : F) (ticks : List (Tick F)) (n : SwarmNode F) (r : Resolved F)
      → score_phase iter a [] started ticks n ≡ ok (some r)
      → (r.resolved ≡ []) × (r.published ≡ [])
  unfolding score_phase
  score_phase-calm started ticks n r e = ground arith

  pub score_phase-Scored :
      (d : Position × TokenSet) (ds : Dict Position TokenSet) (started : F) (ticks : List (Tick F))
      (n : SwarmNode F) (r : Resolved F)
      → score_phase iter a (d ∷ ds) started ticks n ≡ ok (some r)
      → Scored (d ∷ ds) started ticks n r
  unfolding score_phase resolve_collected
  score_phase-Scored d ds started ticks n r e =
      let mine = scores_for iter a.log_prob (d ∷ ds) in
      let published : List (MsgType × Payload F) =
        (dispute_score, scores_payload a.round_id a.sync_seq mine) ∷ [] in
      let (o, run, rest) =
        >>=-eq-ok
          (collect_until dispute_score a.round_id a.sync_seq a.other_participants
            sync_barrier_timeout started ticks n)
          (resolve_collected iter mine published a.id)
          (score_phase-eq-ok iter a d ds started ticks n (some r) e).1 in
      go o run rest
    where
      go :
          (o : Option (Collected F))
          → collect_until dispute_score a.round_id a.sync_seq a.other_participants
              sync_barrier_timeout started ticks n
            ≡ ok o
          → resolve_collected iter
              (scores_for iter a.log_prob (d ∷ ds))
              ((
                dispute_score,
                scores_payload a.round_id a.sync_seq (scores_for iter a.log_prob (d ∷ ds)),
              )
                ∷ [])
              a.id
              o
            ≡ ok (some r)
          → Scored (d ∷ ds) started ticks n r
      go none run rest = cc
      go (some c) run rest =
          let published : List (MsgType × Payload F) =
            (
              dispute_score,
              scores_payload a.round_id a.sync_seq (scores_for iter a.log_prob (d ∷ ds)),
            )
            ∷ [] in
          let after : Dict Position Token → Result (Option (Resolved F)) = λ resolved. ok (
            some (record {
              node = c.node;
              ticks = c.ticks;
              resolved = resolved;
              published = published;
            })) in
          let (all, reads, next) =
            >>=-eq-ok
              (for_each add_scores ((a.id, scores_for iter a.log_prob (d ∷ ds)) ∷ []) c.received)
              (λ all. resolve_disputes all >>= after) rest in
          let (w, resolves, last) = >>=-eq-ok (resolve_disputes all) after next in
          record {
            c = c;
            all_scores = all;
            collects = run;
            reads = reads;
            resolves = ground arith;
            publishes = ground arith;
          }

  module _ (shared_x : Dict Position Token) (detector : StopDetector) where
    pub record Phased (started later : F) (ticks : List (Tick F)) (n : SwarmNode F) (s : Synced F)
        : Type 0 where
      pub c : Collected F
      pub log : Commits F
      pub r : Resolved F
      pub collects :
          collect_until commit a.round_id a.sync_seq a.other_participants sync_barrier_timeout
            started ticks n
          ≡ ok (some c)
      pub reads : for_each add_commit ((a.id, a.my_commits) ∷ []) c.received ≡ ok log
      pub scores : score_phase iter a (detect_disputes log) later c.ticks c.node ≡ ok (some r)
      pub merges : merge_consensus iter shared_x log r.resolved ≡ ok s.shared_x
      pub checks : s.detector ≡ check detector s.shared_x a.gen_start a.gen_end
      pub publishes :
          s.published ≡ (commit, commit_payload a.round_id a.sync_seq a.my_commits) ∷ r.published

    merged_of :
        (started later : F) (ticks : List (Tick F)) (n : SwarmNode F) (s : Synced F)
        (c : Collected F) (log : Commits F) (o : Option (Resolved F))
        → collect_until commit a.round_id a.sync_seq a.other_participants sync_barrier_timeout
            started ticks n
          ≡ ok (some c)
        → for_each add_commit ((a.id, a.my_commits) ∷ []) c.received ≡ ok log
        → score_phase iter a (detect_disputes log) later c.ticks c.node ≡ ok o
        → merge_phase iter a shared_x detector log o ≡ ok (some s)
        → Phased started later ticks n s
    unfolding merge_phase
    merged_of started later ticks n s c log none collects reads scores last = cc
    merged_of started later ticks n s c log (some r) collects reads scores last =
        let done : Dict Position Token → Result (Option (Synced F)) = λ merged. ok (
          some (record {
            node = r.node;
            ticks = r.ticks;
            shared_x = merged;
            detector = check detector merged a.gen_start a.gen_end;
            published = (commit, commit_payload a.round_id a.sync_seq a.my_commits) ∷ r.published;
          })) in
        let (m, merges, end_) =
          >>=-eq-ok (merge_consensus iter shared_x log r.resolved) done last in
        record {
          c = c;
          log = log;
          r = r;
          collects = collects;
          reads = reads;
          scores = scores;
          merges = ground arith;
          checks = ground arith;
          publishes = ground arith;
        }

    pub do_sync-Phased :
        (started later : F) (ticks : List (Tick F)) (n : SwarmNode F) (s : Synced F)
        → do_sync iter a shared_x detector started later ticks n ≡ ok (some s)
        → Phased started later ticks n s
    unfolding do_sync commits_collected
    do_sync-Phased started later ticks n s e =
        let (o, run, rest) =
          >>=-eq-ok
            (collect_until commit a.round_id a.sync_seq a.other_participants sync_barrier_timeout
              started ticks n)
            (commits_collected iter a shared_x detector later) e in
        go o run rest
      where
        go :
            (o : Option (Collected F))
            → collect_until commit a.round_id a.sync_seq a.other_participants sync_barrier_timeout
                started ticks n
              ≡ ok o
            → commits_collected iter a shared_x detector later o ≡ ok (some s)
            → Phased started later ticks n s
        go none run rest = cc
        go (some c) run rest =
            let (log, reads, next) =
              >>=-eq-ok (for_each add_commit ((a.id, a.my_commits) ∷ []) c.received)
                (λ log.
                  score_phase iter a (detect_disputes log) later c.ticks c.node
                  >>= merge_phase iter a shared_x detector log)
                rest in
            let (p, scores, last) =
              >>=-eq-ok (score_phase iter a (detect_disputes log) later c.ticks c.node)
                (merge_phase iter a shared_x detector log) next in
            merged_of started later ticks n s c log p run reads scores last
