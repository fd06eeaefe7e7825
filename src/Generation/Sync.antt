-- ===== src/Generation/Sync.antt =====
-- One sync, from the first COMMIT to the check of the stop boundary.
use ded_swarm.Base.{
  ◌≡◌, ◌≢◌, refl, ap, ◌∙◌, sym, false, List, [], ◌∷◌, contains, nat_eq, string_eq, option_eq,
  String, Option, none, some, Result, ok, for_each, ◌>>=◌, >>=-eq-ok, arith,
}
use ded_swarm.Base.Dict.{Dict, lookup, insert}
use ded_swarm.Base.Refill.{for_each-untouched}
use ded_swarm.Float.{Float}
use ded_swarm.Config.{sync_barrier_timeout}
use ded_swarm.Protocol.{MsgType, commit, dispute_score, Payload}
use ded_swarm.Consensus.{
  Position, Token, TokenSet, Commit, Commits, Scores, AllScores, detect_disputes, resolve_disputes,
}
use ded_swarm.Consensus.Adopt.{IsIteration}
use ded_swarm.Consensus.Disputes.{detect_disputes_iff}
use ded_swarm.Consensus.Merge.{Covers, merged_at, merge_consensus-merged_at}
use ded_swarm.Consensus.Covering.{resolve_disputes-covers}
use ded_swarm.Stop.{StopDetector, check}
use ded_swarm.Swarm.{SwarmNode, Tick, Collected, collect_until, has}
use ded_swarm.Swarm.Senders.{collect_until-expected}
use ded_swarm.Generation.Scoring.{score_phase-eq-ok, scores_for}
use ded_swarm.Generation.{
  SyncArgs, Resolved, Synced, read_commit, add_commit, read_scores, add_scores, scores_payload,
  resolve_collected, score_phase, merge_phase, commits_collected, do_sync,
}

module _ {F : Type 0} where
  pub add_commit-stores :
      (acc : Commits F) (x : String × Payload F) (acc' : Commits F)
      → add_commit acc x ≡ ok acc'
      → (c : Commit F) × (acc' ≡ insert x.0 c acc)
  unfolding add_commit
  add_commit-stores acc (id, p) acc' run =
      let (c, _, rest) = >>=-eq-ok (read_commit p) (λ c. ok (insert id c acc)) run in (c, cc)

  add_scores-stores :
      (acc : AllScores F) (x : String × Payload F) (acc' : AllScores F)
      → add_scores acc x ≡ ok acc'
      → (s : Scores F) × (acc' ≡ insert x.0 s acc)
  unfolding add_scores
  add_scores-stores acc (id, p) acc' run =
      let (s, _, rest) = >>=-eq-ok (read_scores p) (λ s. ok (insert id s acc)) run in (s, cc)

  pub lookup-scores_for :
      (iter : TokenSet → List Token) (log_prob : Position → Token → F)
      (disputes : Dict Position TokenSet) (pos : Position)
      → lookup pos (scores_for iter log_prob disputes) ≡ none
      → lookup pos disputes ≡ none
  unfolding scores_for lookup
  lookup-scores_for iter log_prob [] pos h = refl
  lookup-scores_for iter log_prob ((p, ts) ∷ ds) pos h =
      ground (arith, lookup-scores_for iter log_prob ds pos)

module _ {F : Type 0} ⦃f : Float F⦄ (iter : TokenSet → List Token) where
  resolve_collected-covers :
      (mine : Scores F) (published : List (MsgType × Payload F)) (id : String)
      (o : Option (Collected F)) (r : Resolved F) (pos : Position)
      → ((c : Collected F) → o ≡ some c → has id c.received ≡ false)
      → resolve_collected iter mine published id o ≡ ok (some r)
      → lookup pos mine ≢ none
      → lookup pos r.resolved ≢ none
  unfolding resolve_collected lookup
  resolve_collected-covers mine published id none r pos alone run there = cc
  resolve_collected-covers mine published id (some c) r pos alone run there =
      let after : Dict Position Token → Result (Option (Resolved F)) = λ resolved. ok (
        some (record {
          node = c.node;
          ticks = c.ticks;
          resolved = resolved;
          published = published;
        })) in
      let (all, first, rest) =
        >>=-eq-ok (for_each add_scores ((id, mine) ∷ []) c.received)
          (λ all. resolve_disputes all >>= after) run in
      let (res, second, last) = >>=-eq-ok (resolve_disputes all) after rest in
      let own : lookup id all ≡ some mine =
        for_each-untouched add_scores add_scores-stores c.received ((id, mine) ∷ []) all id first
          (ground (arith, alone c refl))
        ∙ ground arith in
      let same : res ≡ r.resolved = cc in
      rw (← same) (resolve_disputes-covers all res id mine pos second own there)

  -- Phase 2 resolves every dispute that it is given.
  pub score_phase-covers :
      (a : SyncArgs F) (disputes : Dict Position TokenSet) (started : F) (ticks : List (Tick F))
      (n : SwarmNode F) (r : Resolved F) (pos : Position)
      → contains a.other_participants a.id ≡ false
      → score_phase iter a disputes started ticks n ≡ ok (some r)
      → lookup pos disputes ≢ none
      → lookup pos r.resolved ≢ none
  unfolding score_phase lookup
  score_phase-covers a [] started ticks n r pos alone run there = absurd (there refl)
  score_phase-covers a (d ∷ ds) started ticks n r pos alone run there =
      let mine = scores_for iter a.log_prob (d ∷ ds) in
      let published : List (MsgType × Payload F) =
        (dispute_score, scores_payload a.round_id a.sync_seq mine) ∷ [] in
      let (o, first, rest) =
        >>=-eq-ok
          (collect_until dispute_score a.round_id a.sync_seq a.other_participants
            sync_barrier_timeout started ticks n)
          (resolve_collected iter mine published a.id)
          (score_phase-eq-ok iter a d ds started ticks n (some r) run).1 in
      resolve_collected-covers mine published a.id o r pos
        (λ c e. ground (
          arith,
          alone,
          collect_until-expected dispute_score a.round_id a.sync_seq a.other_participants
              sync_barrier_timeout started ticks n c a.id (first ∙ ap ok e),
        ))
        rest (λ miss. there (lookup-scores_for iter a.log_prob (d ∷ ds) pos miss))

module _ {F : Type 0} ⦃f : Float F⦄ (iter : TokenSet → List Token) (law : IsIteration iter)
    (a : SyncArgs F) (shared_x : Dict Position Token) (detector : StopDetector) (s : Synced F) where
  -- The new state is that of a merge, and the boundary that of a check.
  abbrev pub IsMerged : Commits F → Dict Position Token → Type 0
  IsMerged commits resolved =
      ((pos : Position) → lookup pos s.shared_x ≡ merged_at shared_x commits resolved pos)
      × (s.detector ≡ check detector s.shared_x a.gen_start a.gen_end)

  merge_phase-IsMerged :
      (commits : Commits F) (o : Option (Resolved F))
      → merge_phase iter a shared_x detector commits o ≡ ok (some s)
      → ((r : Resolved F) → o ≡ some r → Covers r.resolved commits)
      → (resolved : Dict Position Token) × Covers resolved commits × IsMerged commits resolved
  unfolding merge_phase
  merge_phase-IsMerged commits none run covers = cc
  merge_phase-IsMerged commits (some r) run covers =
      let (m, merges, eq) = merge_consensus-merged_at iter law shared_x commits r.resolved in
      let same : m ≡ s.shared_x = ground (arith, merges, run) in
      (
        r.resolved,
        covers r refl,
        (λ pos. ap (lookup pos) (sym same) ∙ eq (covers r refl) pos, ground (arith, merges, run)),
      )

  commits_collected-IsMerged :
      (later : F) (o : Option (Collected F))
      → ((c : Collected F) → o ≡ some c → has a.id c.received ≡ false)
      → contains a.other_participants a.id ≡ false
      → commits_collected iter a shared_x detector later o ≡ ok (some s)
      → (commits : Commits F) × (resolved : Dict Position Token) × (lookup a.id commits
          ≡ some a.my_commits)
        × Covers resolved commits
        × IsMerged commits resolved
  unfolding commits_collected lookup
  commits_collected-IsMerged later none own alone run = cc
  commits_collected-IsMerged later (some c) own alone run =
      let (commits, first, rest) =
        >>=-eq-ok (for_each add_commit ((a.id, a.my_commits) ∷ []) c.received)
          (λ commits.
            score_phase iter a (detect_disputes commits) later c.ticks c.node
            >>= merge_phase iter a shared_x detector commits)
          run in
      let (o, second, last) =
        >>=-eq-ok (score_phase iter a (detect_disputes commits) later c.ticks c.node)
          (merge_phase iter a shared_x detector commits) rest in
      let (resolved, covers, merged) = merge_phase-IsMerged commits o last (λ r e pos contested.
        score_phase-covers iter a (detect_disputes commits) later c.ticks c.node r pos alone
          (second ∙ ap ok e) ((detect_disputes_iff commits pos).1 contested)) in
      (
        commits,
        resolved,
        for_each-untouched add_commit add_commit-stores c.received ((a.id, a.my_commits) ∷ [])
              commits a.id first (ground (arith, own c refl))
            ∙ ground arith,
        covers,
        merged,
      )

  -- What a sync that returns has done: for some log of commits that holds the node's own and some
  -- resolution of all its disputes, every position of the new state has the token that the log and
  -- the resolution give it, and the boundary is that of a check of the new state.
  pub do_sync-IsMerged :
      (started later : F) (ticks : List (Tick F)) (n : SwarmNode F)
      → contains a.other_participants a.id ≡ false
      → do_sync iter a shared_x detector started later ticks n ≡ ok (some s)
      → (commits : Commits F) × (resolved : Dict Position Token) × (lookup a.id commits
          ≡ some a.my_commits)
        × Covers resolved commits
        × IsMerged commits resolved
  unfolding do_sync
  do_sync-IsMerged started later ticks n alone run =
      let (o, first, rest) =
        >>=-eq-ok
          (collect_until commit a.round_id a.sync_seq a.other_participants sync_barrier_timeout
            started ticks n)
          (commits_collected iter a shared_x detector later) run in
      commits_collected-IsMerged later o
        (λ c e. ground (
          arith,
          alone,
          collect_until-expected commit a.round_id a.sync_seq a.other_participants
              sync_barrier_timeout started ticks n c a.id (first ∙ ap ok e),
        ))
        alone rest
