-- ===== src/Tests/Agreed.antt =====
-- node-a and node-b dispute position 10, and end alike.
use ded_swarm.Base.{
  String, ◌≡◌, ◌≢◌, refl, [], ◌∷◌, nat_eq, string_eq, map, none, some, arith, ok, true, false, ap,
  All, if◌then◌else◌, ◌==◌,
}
use ded_swarm.Base.Dict.{lookup, NodupKeys, SameLookups}
use ded_swarm.Float.{Ticks, ticks_float, Ticks-IsOrdered, Ticks-IsIeee}
use ded_swarm.Protocol.{MsgType, commit}
use ded_swarm.Consensus.{Position, Token, Commit, detect_disputes}
use ded_swarm.Swarm.{SwarmNode}
use ded_swarm.Generation.{SyncArgs, Synced, do_sync}
use ded_swarm.Generation.Scoring.{IsScorable}
use ded_swarm.Generation.Pair.{log_of}
use ded_swarm.Generation.Exchange.{tick_of}
use ded_swarm.Generation.Agreed.{do_sync_pair}
use ded_swarm.Tests.Generation.{program, in_order, in_order-IsIteration, detector, fresh}

abbrev side : String → String → Commit Ticks → SyncArgs Ticks
side id other mine = record {
  id = id;
  round_id = "r1";
  sync_seq = 3;
  other_participants = other ∷ [];
  my_commits = mine;
  seq_len = 30;
  vocab_size = 1000;
  log_prob = λ pos tok. if tok == 600 then 900 else 20;
  gen_start = 0;
  gen_end = 30;
}

abbrev node_a : SyncArgs Ticks
node_a = side "node-a" "node-b" ((10, (500, 90)) ∷ (20, (700, 99)) ∷ [])

abbrev node_b : SyncArgs Ticks
node_b = side "node-b" "node-a" ((10, (600, 70)) ∷ [])

-- A COMMIT is read at 6, a DISPUTE_SCORE at 8.
abbrev pub read_at : MsgType → Ticks
read_at commit = 6
read_at _ = 8

mine-NodupKeys : NodupKeys node_a.my_commits × NodupKeys node_b.my_commits
unfolding lookup
mine-NodupKeys = ground arith

pub node_a-ne-node_b : (node_a.id ≢ node_b.id)
unfolding string_eq
node_a-ne-node_b e = let read : true ≡ false = ap (λ (s : String). s == "node-a") e in cc

scores_fit : (pos : Position) (tok : Token) → ticks_float.exp (node_a.log_prob pos tok) ≢ none
scores_fit pos tok = ground arith

abbrev other : SwarmNode Ticks
other = record fresh { id = "node-b" }

inside_a : All (IsScorable in_order node_a) (detect_disputes (log_of node_a node_b))
unfolding program
inside_a = ((λ tok there. ground arith), tt)

inside_b : All (IsScorable in_order node_b) (detect_disputes (log_of node_b node_a))
unfolding program
inside_b = ((λ tok there. ground arith), tt)

do_sync_pair_example :
    (s s' : Synced Ticks) × (do_sync in_order node_a
        ((1, 5) ∷ [])
        detector
        5
        7
        (map (tick_of "node-b" read_at) s'.published)
        fresh
      ≡ ok (some s))
    × (do_sync in_order node_b
          ((1, 5) ∷ [])
          detector
          5
          7
          (map (tick_of "node-a" read_at) s.published)
          other
        ≡ ok (some s'))
    × SameLookups s.shared_x s'.shared_x
    × (s.detector ≡ s'.detector)
do_sync_pair_example =
    do_sync_pair Ticks-IsOrdered Ticks-IsIeee in_order in_order in_order-IsIteration
      in_order-IsIteration node_a node_b scores_fit scores_fit ((1, 5) ∷ []) ((1, 5) ∷ []) detector
      read_at read_at 5 7 5 7 fresh other node_a-ne-node_b refl refl refl refl refl refl
      mine-NodupKeys.0 mine-NodupKeys.1 (λ pos. refl) refl refl refl refl refl refl inside_a
      inside_b
