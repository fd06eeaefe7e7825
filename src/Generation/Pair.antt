-- ===== src/Generation/Pair.antt =====
-- A sync (`_do_sync`, node/generation.py) of two participants, each of which hears what the other
-- publishes.
use ded_swarm.Base.{
  ◌≡◌, ◌≢◌, refl, true, List, [], ◌∷◌, nat_eq, string_eq, option_eq, pair_eq, map, some, arith, ok,
}
use ded_swarm.Base.Dict.{Dict, NodupKeys}
use ded_swarm.Float.{Float}
use ded_swarm.Config.{sync_barrier_timeout}
use ded_swarm.Protocol.{MsgType, commit, dispute_score, msg_type_eq, Payload}
use ded_swarm.Consensus.{
  Position, Token, TokenSet, Commits, detect_disputes, resolve_disputes, merge_consensus,
}
use ded_swarm.Consensus.Merge.{SameProposals}
use ded_swarm.Consensus.Calm.{no_disputes_congr}
use ded_swarm.Consensus.Pair.{IsDictReport}
use ded_swarm.Stop.{StopDetector, check}
use ded_swarm.Swarm.{SwarmNode}
use ded_swarm.Generation.Scoring.{IsScored, scores_for}
use ded_swarm.Generation.{
  SyncArgs, Synced, commit_payload, scores_payload, score_phase, merge_phase, do_sync,
}
use ded_swarm.Generation.Exchange.{tick_of, do_sync-hears_commit, score_phase-hears_scores}

module _ {F : Type 0} where
  -- The log of commits that a participant of a sync of two has, its own first.
  abbrev pub log_of : SyncArgs F → SyncArgs F → Commits F
  log_of a b = (a.id, a.my_commits) ∷ (b.id, b.my_commits) ∷ []

  -- The scores that a participant publishes, if there are disputes.
  abbrev pub reply :
      (TokenSet → List Token) → SyncArgs F → Dict Position TokenSet → List (MsgType × Payload F)
  reply iter a [] = []
  reply iter a (d ∷ ds) =
      (dispute_score, scores_payload a.round_id a.sync_seq (scores_for iter a.log_prob (d ∷ ds)))
      ∷ []

  -- What a participant publishes: its COMMIT, and its scores of the disputes that the log holds.
  abbrev pub sends : (TokenSet → List Token) → SyncArgs F → Commits F → List (MsgType × Payload F)
  sends iter a commits =
      (commit, commit_payload a.round_id a.sync_seq a.my_commits)
      ∷ reply iter a (detect_disputes commits)

  pub log_of-SameProposals : (a b : SyncArgs F) → SameProposals (log_of a b) (log_of b a)
  log_of-SameProposals a b pos t = ground arith

  -- Both find disputes, or neither does.
  pub no_disputes_swap :
      (a b : SyncArgs F) → detect_disputes (log_of a b) ≡ [] → detect_disputes (log_of b a) ≡ []
  no_disputes_swap a b = no_disputes_congr (log_of a b) (log_of b a) (log_of-SameProposals a b)

module _ {F : Type 0} ⦃f : Float F⦄ (iter iter' : TokenSet → List Token) (a b : SyncArgs F)
    (shared_x : Dict Position Token) (detector : StopDetector) (now : MsgType → F)
    (started later : F) (n : SwarmNode F) (differ : a.id ≢ b.id)
    (only : a.other_participants ≡ b.id ∷ []) (same_round : b.round_id ≡ a.round_id)
    (same_sync : b.sync_seq ≡ a.sync_seq) (u : NodupKeys b.my_commits) (empty : n.gen_inbox ≡ [])
    (in_time : f.lt (now commit) (f.add started sync_barrier_timeout) ≡ true)
    (in_time' : f.lt (now dispute_score) (f.add later sync_barrier_timeout) ≡ true) where
  -- What the sync of `a` makes of `m`, the merged state.
  abbrev pub EndsWith : Dict Position Token → Type 0
  EndsWith m =
      (s : Synced F) × (do_sync iter a shared_x detector started later
          (map (tick_of b.id now) (sends iter' b (log_of b a))) n
        ≡ ok (some s))
      × (s.published ≡ sends iter a (log_of a b))
      × (s.node.gen_inbox ≡ [])
      × (s.shared_x ≡ m)
      × (s.detector ≡ check detector m a.gen_start a.gen_end)

  pub EndsWith-calm :
      (m : Dict Position Token)
      → detect_disputes (log_of a b) ≡ []
      → detect_disputes (log_of b a) ≡ []
      → merge_consensus iter shared_x (log_of a b) [] ≡ ok m
      → EndsWith m
  unfolding score_phase merge_phase
  EndsWith-calm m calm calm' merges =
      let (n', empty', run) =
        do_sync-hears_commit iter a b.id b.my_commits now differ only u shared_x detector started
          later [] n empty in_time in
      (
        record {
          node = n';
          ticks = [];
          shared_x = m;
          detector = check detector m a.gen_start a.gen_end;
          published = (commit, commit_payload a.round_id a.sync_seq a.my_commits) ∷ [];
        },
        rw (calm', same_round, same_sync, run, calm, merges) refl,
        rw calm refl,
        empty',
        refl,
        refl,
      )

  pub EndsWith-disputed :
      (m w : Dict Position Token) (d d' : Position × TokenSet) (ds ds' : Dict Position TokenSet)
      → detect_disputes (log_of a b) ≡ d ∷ ds
      → detect_disputes (log_of b a) ≡ d' ∷ ds'
      → IsDictReport (scores_for iter' b.log_prob (d' ∷ ds'))
      → IsScored iter a (d ∷ ds)
      → resolve_disputes (
          (a.id, scores_for iter a.log_prob (d ∷ ds))
          ∷ (b.id, scores_for iter' b.log_prob (d' ∷ ds'))
          ∷ [])
        ≡ ok w
      → merge_consensus iter shared_x (log_of a b) w ≡ ok m
      → EndsWith m
  unfolding merge_phase
  EndsWith-disputed m w d d' ds ds' disputed disputed' dict scored resolves merges =
      let theirs = scores_for iter' b.log_prob (d' ∷ ds') in
      let t = tick_of b.id now (dispute_score, scores_payload a.round_id a.sync_seq theirs) in
      let (n', empty', run) =
        do_sync-hears_commit iter a b.id b.my_commits now differ only u shared_x detector started
          later (t ∷ []) n empty in_time in
      let (r, scores, resolved, left, published) =
        score_phase-hears_scores iter a b.id b.my_commits now differ only u (d ∷ ds) theirs w later
          n' (λ e. cc) dict empty' in_time' scored resolves in
      (
        record {
          node = r.node;
          ticks = r.ticks;
          shared_x = m;
          detector = check detector m a.gen_start a.gen_end;
          published = (commit, commit_payload a.round_id a.sync_seq a.my_commits) ∷ r.published;
        },
        rw (disputed', same_round, same_sync, run, disputed, scores, resolved, merges) refl,
        rw (disputed, published) refl,
        left,
        refl,
        refl,
      )
