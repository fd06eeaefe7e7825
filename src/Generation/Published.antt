-- ===== src/Generation/Published.antt =====
-- What a sync of two publishes (`_do_sync`, node/generation.py).
use ded_swarm.Base.{
  ◌≡◌, ◌≢◌, refl, ap, ◌∙◌, sym, List, [], ◌∷◌, nat_eq, string_eq, true, Option, some, none, ok,
  Result, ◌>>=◌, >>=-eq-ok, for_each, arith,
}
use ded_swarm.Base.Dict.{Dict, NodupKeys}
use ded_swarm.Float.{Float}
use ded_swarm.Config.{sync_barrier_timeout}
use ded_swarm.Protocol.{MsgType, commit, dispute_score, Payload}
use ded_swarm.Consensus.{
  Position, Token, TokenSet, Commits, detect_disputes, resolve_disputes, merge_consensus,
}
use ded_swarm.Stop.{StopDetector, check}
use ded_swarm.Swarm.{SwarmNode, Tick, Collected, collect_until}
use ded_swarm.Generation.Scoring.{IsScored, score_phase-eq-ok, score_phase-scores, scores_for}
use ded_swarm.Generation.{
  SyncArgs, Resolved, Synced, commit_payload, scores_payload, add_commit, add_scores,
  resolve_collected, score_phase, merge_phase, commits_collected, do_sync,
}
use ded_swarm.Generation.Exchange.{tick_of, do_sync-hears_commit}
use ded_swarm.Generation.Pair.{log_of, reply, sends}

module _ {F : Type 0} ⦃f : Float F⦄ (iter : TokenSet → List Token) (a : SyncArgs F)
    (shared_x : Dict Position Token) (detector : StopDetector) where
  merge_phase-published :
      (commits : Commits F) (o : Option (Resolved F)) (s : Synced F)
      → merge_phase iter a shared_x detector commits o ≡ ok (some s)
      → (r : Resolved F) × (o ≡ some r)
        × (s.published ≡ (commit, commit_payload a.round_id a.sync_seq a.my_commits) ∷ r.published)
  unfolding merge_phase
  merge_phase-published commits none s run = cc
  merge_phase-published commits (some r) s run =
      let (m, _, rest) =
        >>=-eq-ok (merge_consensus iter shared_x commits r.resolved)
          (λ merged. ok (
            some (record {
              node = r.node;
              ticks = r.ticks;
              shared_x = merged;
              detector = check detector merged a.gen_start a.gen_end;
              published = (commit, commit_payload a.round_id a.sync_seq a.my_commits) ∷ r.published;
            })))
          run in
      (r, refl, ground arith)

  resolve_collected-published :
      (mine : Dict Position (Dict Token F)) (published : List (MsgType × Payload F))
      (o : Option (Collected F)) (r : Resolved F)
      → resolve_collected iter mine published a.id o ≡ ok (some r)
      → r.published ≡ published
  unfolding resolve_collected
  resolve_collected-published mine published none r run = cc
  resolve_collected-published mine published (some c) r run =
      let after : Dict Position Token → Result (Option (Resolved F)) = λ resolved. ok (
        some (record {
          node = c.node;
          ticks = c.ticks;
          resolved = resolved;
          published = published;
        })) in
      let (all, _, rest) =
        >>=-eq-ok (for_each add_scores ((a.id, mine) ∷ []) c.received)
          (λ all. resolve_disputes all >>= after) run in
      let (w, _, last) = >>=-eq-ok (resolve_disputes all) after rest in ground arith

  score_phase-published :
      (disputes : Dict Position TokenSet) (later : F) (ticks : List (Tick F)) (n : SwarmNode F)
      (r : Resolved F)
      → score_phase iter a disputes later ticks n ≡ ok (some r)
      → r.published ≡ reply iter a disputes
  unfolding score_phase
  score_phase-published [] later ticks n r run = ground arith
  score_phase-published (d ∷ ds) later ticks n r run =
      let mine = scores_for iter a.log_prob (d ∷ ds) in
      let published = (dispute_score, scores_payload a.round_id a.sync_seq mine) ∷ [] in
      let (o, _, rest) =
        >>=-eq-ok
          (collect_until dispute_score a.round_id a.sync_seq a.other_participants
            sync_barrier_timeout later ticks n)
          (resolve_collected iter mine published a.id)
          (score_phase-eq-ok iter a d ds later ticks n (some r) run).1 in
      resolve_collected-published mine published o r rest

  commits_collected-commit_first :
      (later : F) (o : Option (Collected F)) (s : Synced F)
      → commits_collected iter a shared_x detector later o ≡ ok (some s)
      → (rest : List (MsgType × Payload F)) × (s.published
          ≡ (commit, commit_payload a.round_id a.sync_seq a.my_commits) ∷ rest)
  unfolding commits_collected
  commits_collected-commit_first later none s run = cc
  commits_collected-commit_first later (some c) s run =
      let (commits, _, scores) =
        >>=-eq-ok (for_each add_commit ((a.id, a.my_commits) ∷ []) c.received)
          (λ commits.
            score_phase iter a (detect_disputes commits) later c.ticks c.node
            >>= merge_phase iter a shared_x detector commits)
          run in
      let (o, _, merges) =
        >>=-eq-ok (score_phase iter a (detect_disputes commits) later c.ticks c.node)
          (merge_phase iter a shared_x detector commits) scores in
      let (r, _, published) = merge_phase-published commits o s merges in (r.published, published)

  -- Whatever a sync reads, the first message that it publishes is its COMMIT.
  pub do_sync-commit_first :
      (started later : F) (ticks : List (Tick F)) (n : SwarmNode F) (s : Synced F)
      → do_sync iter a shared_x detector started later ticks n ≡ ok (some s)
      → (rest : List (MsgType × Payload F)) × (s.published
          ≡ (commit, commit_payload a.round_id a.sync_seq a.my_commits) ∷ rest)
  unfolding do_sync
  do_sync-commit_first started later ticks n s run =
      let (o, _, rest) =
        >>=-eq-ok
          (collect_until commit a.round_id a.sync_seq a.other_participants sync_barrier_timeout
            started ticks n)
          (commits_collected iter a shared_x detector later) run in
      commits_collected-commit_first later o s rest

  -- With the other's COMMIT at hand, what it publishes is determined, and it has scored all disputes.
  pub do_sync-sends :
      (b : SyncArgs F) (now : MsgType → F) (started later : F) (ticks : List (Tick F))
      (n : SwarmNode F) (s : Synced F)
      → a.id ≢ b.id
      → a.other_participants ≡ b.id ∷ []
      → NodupKeys b.my_commits
      → n.gen_inbox ≡ []
      → f.lt (now commit) (f.add started sync_barrier_timeout) ≡ true
      → do_sync iter a shared_x detector started later
          (tick_of b.id now (commit, commit_payload a.round_id a.sync_seq b.my_commits) ∷ ticks)
          n
        ≡ ok (some s)
      → (s.published ≡ sends iter a (log_of a b)) × IsScored iter a (detect_disputes (log_of a b))
  do_sync-sends b now started later ticks n s differ only u empty in_time run =
      let (n', _, same) =
        do_sync-hears_commit iter a b.id b.my_commits now differ only u shared_x detector started
          later ticks n empty in_time in
      let (o, first, rest) =
        >>=-eq-ok (score_phase iter a (detect_disputes (log_of a b)) later ticks n')
          (merge_phase iter a shared_x detector (log_of a b)) (sym same ∙ run) in
      let (r, is, published) = merge_phase-published (log_of a b) o s rest in
      (
        published
            ∙ ap (λ ms. (commit, commit_payload a.round_id a.sync_seq a.my_commits) ∷ ms)
                (score_phase-published (detect_disputes (log_of a b)) later ticks n' r
                  (first ∙ ap ok is)),
        score_phase-scores iter a (detect_disputes (log_of a b)) later ticks n' o first,
      )
