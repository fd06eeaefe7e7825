-- ===== src/Generation/Exchange.antt =====
-- One side of a sync between two participants (`_do_sync`, node/generation.py): a node that hears the
-- other's COMMIT and, if it finds disputes, the other's DISPUTE_SCORE.
use ded_swarm.Base.{
  ℕ, ◌≡◌, ◌≢◌, refl, true, List, [], ◌∷◌, nat_eq, string_eq, option_eq, pair_eq, String, some,
  arith, ok, ◌>>=◌, for_each,
}
use ded_swarm.Base.Dict.{Dict, insert, NodupKeys}
use ded_swarm.Float.{Float}
use ded_swarm.Config.{sync_barrier_timeout}
use ded_swarm.Protocol.{
  MsgType, commit, dispute_score, msg_type_eq, Payload, Envelope, get_round_id, get_sync_seq,
}
use ded_swarm.Consensus.{
  Position, Token, TokenSet, Commit, Commits, Scores, detect_disputes, resolve_disputes,
}
use ded_swarm.Consensus.Pair.{IsDictReport}
use ded_swarm.Stop.{StopDetector}
use ded_swarm.Swarm.{SwarmNode, Tick, key_of}
use ded_swarm.Generation.Scoring.{IsScored, score_phase-IsScored, scores_for}
use ded_swarm.Generation.{
  SyncArgs, Resolved, commit_payload, scores_payload, add_commit, add_scores, resolve_collected,
  score_phase, merge_phase, commits_collected, do_sync,
}
use ded_swarm.Generation.Messages.{read_commit-commit_payload, read_scores-scores_payload}
use ded_swarm.Generation.Hearing.{collect_until_sole}

module _ {F : Type 0} where
  -- What a turn of the loop reads: a message of `sender`, at a time that depends on its type.
  abbrev pub tick_of : String → (MsgType → F) → MsgType × Payload F → Tick F
  tick_of sender now (msg_type, payload) = record {
    now = now msg_type;
    env =
        some
          (record { msg_type = msg_type; node_id = sender; ts = now msg_type; payload = payload });
    receive_ts = now msg_type;
  }

  add_commit_other :
      (self_id other : String) (mine theirs : Commit F) (round_id : String) (sync_seq : ℕ)
      → self_id ≢ other
      → NodupKeys theirs
      → for_each add_commit
          ((self_id, mine) ∷ [])
          ((other, commit_payload round_id sync_seq theirs) ∷ [])
        ≡ ok ((self_id, mine) ∷ (other, theirs) ∷ [])
  unfolding add_commit insert
  add_commit_other self_id other mine theirs round_id sync_seq differ u =
      rw (read_commit-commit_payload round_id sync_seq theirs u) (ground arith)

  add_scores_other :
      (self_id other : String) (mine theirs : Scores F) (round_id : String) (sync_seq : ℕ)
      → self_id ≢ other
      → IsDictReport theirs
      → for_each add_scores
          ((self_id, mine) ∷ [])
          ((other, scores_payload round_id sync_seq theirs) ∷ [])
        ≡ ok ((self_id, mine) ∷ (other, theirs) ∷ [])
  unfolding add_scores insert
  add_scores_other self_id other mine theirs round_id sync_seq differ (u, rows) =
      rw (read_scores-scores_payload round_id sync_seq theirs u rows) (ground arith)

  key_of_commit :
      (sender : String) (ts : F) (round_id : String) (sync_seq : ℕ) (c : Commit F)
      → key_of (record {
        msg_type = commit;
        node_id = sender;
        ts = ts;
        payload = commit_payload round_id sync_seq c;
      })
        ≡ (commit, (some round_id, some sync_seq))
  unfolding commit_payload get_round_id get_sync_seq
  key_of_commit sender ts round_id sync_seq c = refl

  key_of_scores :
      (sender : String) (ts : F) (round_id : String) (sync_seq : ℕ) (s : Scores F)
      → key_of (record {
        msg_type = dispute_score;
        node_id = sender;
        ts = ts;
        payload = scores_payload round_id sync_seq s;
      })
        ≡ (dispute_score, (some round_id, some sync_seq))
  unfolding scores_payload get_round_id get_sync_seq
  key_of_scores sender ts round_id sync_seq s = refl

module _ {F : Type 0} ⦃f : Float F⦄ (iter : TokenSet → List Token) (a : SyncArgs F) (other : String)
    (theirs : Commit F) (now : MsgType → F) (differ : a.id ≢ other)
    (only : a.other_participants ≡ other ∷ []) (u : NodupKeys theirs) where
  -- The commits of both, the node's own first.
  abbrev pub both : Commits F
  both = (a.id, a.my_commits) ∷ (other, theirs) ∷ []

  pub do_sync-hears_commit :
      (shared_x : Dict Position Token) (detector : StopDetector) (started later : F)
      (ticks : List (Tick F)) (n : SwarmNode F)
      → n.gen_inbox ≡ []
      → f.lt (now commit) (f.add started sync_barrier_timeout) ≡ true
      → (n' : SwarmNode F) × (n'.gen_inbox ≡ [])
        × (do_sync iter a shared_x detector started later
              (tick_of other now (commit, commit_payload a.round_id a.sync_seq theirs) ∷ ticks)
              n
            ≡ (score_phase iter a (detect_disputes both) later ticks n'
                >>= merge_phase iter a shared_x detector both))
  unfolding do_sync commits_collected
  do_sync-hears_commit shared_x detector started later ticks n empty in_time =
      let t = tick_of other now (commit, commit_payload a.round_id a.sync_seq theirs) in
      let env : Envelope F = record {
        msg_type = commit;
        node_id = other;
        ts = now commit;
        payload = commit_payload a.round_id a.sync_seq theirs;
      } in
      let (c, run, received, rest, left) =
        collect_until_sole sync_barrier_timeout started t env ticks n commit a.round_id a.sync_seq
          refl refl (key_of_commit other (now commit) a.round_id a.sync_seq theirs) in_time empty in
      (
        c.node,
        left,
        rw
            (
              only,
              run,
              received,
              rest,
              add_commit_other a.id other a.my_commits theirs a.round_id a.sync_seq differ u,
            )
            refl,
      )

  pub score_phase-hears_scores :
      (disputes : Dict Position TokenSet) (reply : Scores F) (w : Dict Position Token) (later : F)
      (n : SwarmNode F)
      → disputes ≢ []
      → IsDictReport reply
      → n.gen_inbox ≡ []
      → f.lt (now dispute_score) (f.add later sync_barrier_timeout) ≡ true
      → IsScored iter a disputes
      → resolve_disputes ((a.id, scores_for iter a.log_prob disputes) ∷ (other, reply) ∷ []) ≡ ok w
      → (r : Resolved F) × (score_phase iter a disputes later
            (tick_of other now (dispute_score, scores_payload a.round_id a.sync_seq reply) ∷ [])
            n
          ≡ ok (some r))
        × (r.resolved ≡ w)
        × (r.node.gen_inbox ≡ [])
        × (r.published
            ≡ (
              dispute_score,
              scores_payload a.round_id a.sync_seq (scores_for iter a.log_prob disputes),
            )
              ∷ [])
  unfolding resolve_collected
  score_phase-hears_scores [] reply w later n some_ dict empty in_time scored resolves =
      absurd (some_ refl)
  score_phase-hears_scores (d ∷ ds) reply w later n some_ dict empty in_time scored resolves =
      let t = tick_of other now (dispute_score, scores_payload a.round_id a.sync_seq reply) in
      let env : Envelope F = record {
        msg_type = dispute_score;
        node_id = other;
        ts = now dispute_score;
        payload = scores_payload a.round_id a.sync_seq reply;
      } in
      let mine = scores_for iter a.log_prob (d ∷ ds) in
      let (c, run, received, rest, left) =
        collect_until_sole sync_barrier_timeout later t env [] n dispute_score a.round_id a.sync_seq
          refl refl (key_of_scores other (now dispute_score) a.round_id a.sync_seq reply) in_time
          empty in
      (
        record {
          node = c.node;
          ticks = c.ticks;
          resolved = w;
          published = (dispute_score, scores_payload a.round_id a.sync_seq mine) ∷ [];
        },
        rw
            (
              score_phase-IsScored iter a d ds later (t ∷ []) n scored,
              only,
              run,
              received,
              add_scores_other a.id other mine reply a.round_id a.sync_seq differ dict,
              resolves,
            )
            refl,
        refl,
        left,
        refl,
      )
