-- ===== src/Tests/Generation.antt =====
-- A sync of node-a with node-b, with a dispute and both barriers.
use ded_swarm.Base.{
  All, ℕ_discrete, ◌≡◌, refl, List, [], ◌∷◌, nat_eq, string_eq, option_eq, pair_eq, String, none,
  some, ok, raise, value_error, arith, set_add,
}
use ded_swarm.Base.Dict.{Dict, lookup, insert, erase, keep, keys, NodupKeys}
use ded_swarm.Base.Numerals.{str, int}
use ded_swarm.Float.{Ticks, ticks_float}
use ded_swarm.Protocol.{
  MsgType, Envelope, Payload, commit, dispute_score, commit_of, scores_of, get_round_id,
  get_sync_seq, msg_type_eq,
}
use ded_swarm.Consensus.{
  Position, Token, Commit, Commits, Scores, propose, by_position, detect_disputes, adopt,
  merge_consensus, add_vote, add_votes, total_scores, outranks, max_item, best_token, pick_winner,
  resolve_disputes,
}
use ded_swarm.Consensus.Adopt.{IsIteration}
use ded_swarm.Consensus.Merge.{Covers}
use ded_swarm.Stop.{
  StopDetector, committed_positions, max_of, walk_back, confirm, reset, check_frontier, check,
}
use ded_swarm.Round.{note_leader_activity}
use ded_swarm.Swarm.{
  SwarmNode, Tick, note_sender, file_message, handle, dispatch, pump_once, discard, missing, accept,
  early, collect_loop, close_key, collect_until,
}
use ded_swarm.Generation.{
  SyncArgs, Synced, commit_payload, zip_commit, read_commit, add_commit, scores_payload, read_row,
  read_rows, read_scores, add_scores, score_candidate, score_row, score_disputes, resolve_collected,
  score_phase, merge_phase, commits_collected, do_sync,
}
use ded_swarm.Generation.Messages.{HasRows}
use ded_swarm.Generation.Alone.{do_sync_alone}
use ded_swarm.Generation.Sync.{IsMerged}
use ded_swarm.Generation.Refines.{IsLogged, IsResolution, do_sync-refines}

abbrev node_a : String
node_a = "node-a"

abbrev mine : Commit Ticks
mine = (10, (500, 90)) ∷ (20, (700, 99)) ∷ []

abbrev my_scores : Scores Ticks
my_scores = (10, (500, 900) ∷ (600, 50) ∷ []) ∷ (112, (7, 3) ∷ []) ∷ []

abbrev pub in_order : List Token → List Token
in_order ts = ts

pub in_order-IsIteration : IsIteration in_order
in_order-IsIteration = record { same = λ ts t. refl; size = λ ts. refl; distinct = λ ts s. s }

abbrev pub fresh : SwarmNode Ticks
fresh = record {
  id = node_a;
  peers = record { self_id = node_a; timeout = 6; last_seen = []; prev_leader = none };
  round_mgr = record { self_id = node_a; active_round = none };
  gen_inbox = [];
}

abbrev args : SyncArgs Ticks
args = record {
  id = node_a;
  round_id = "r1";
  sync_seq = 3;
  other_participants = "node-b" ∷ [];
  my_commits = mine;
  seq_len = 200;
  vocab_size = 1000;
  log_prob = λ pos tok. tok;
  gen_start = 0;
  gen_end = 30;
}

abbrev pub from_b : MsgType → Payload Ticks → Envelope Ticks
from_b msg_type payload = record {
  msg_type = msg_type;
  node_id = "node-b";
  ts = 1;
  payload = payload;
}

-- node-b proposes 600 at position 10, and gives 600 the higher score.
abbrev ticks : List (Tick Ticks)
ticks =
    record {
      now = 6;
      env = some (from_b commit (commit_of "r1" 3 (10 ∷ []) (600 ∷ []) (70 ∷ [])));
      receive_ts = 7;
    }
    ∷ record {
      now = 8;
      env =
          some (
            from_b dispute_score (scores_of "r1" 3 (("10", ("500", 20) ∷ ("600", 900) ∷ []) ∷ [])));
      receive_ts = 9;
    }
    ∷ []

abbrev pub detector : StopDetector
detector = record {
  cfg = record {
    eos_id = 999;
    mask_id = 0;
    min_gen_length = 4;
    stop_run_min = 2;
    stop_confirmations = 2;
  };
  stop_pos = none;
  pending_stop_pos = none;
  pending_confirms = 0;
}

abbrev after : Synced Ticks
after = record {
  node = fresh;
  ticks = [];
  shared_x = (1, 5) ∷ (10, 600) ∷ (20, 700) ∷ [];
  detector = detector;
  published =
      (commit, commit_of "r1" 3 (10 ∷ 20 ∷ []) (500 ∷ 700 ∷ []) (90 ∷ 99 ∷ []))
      ∷ (dispute_score, scores_of "r1" 3 (("10", ("600", 600) ∷ ("500", 500) ∷ []) ∷ []))
      ∷ [];
}

unfoldable pub program : Unit {0}
unfolding str int keys commit_payload zip_commit read_commit add_commit scores_payload read_row
    read_rows read_scores add_scores score_candidate score_row score_disputes resolve_collected
    score_phase merge_phase commits_collected do_sync propose by_position detect_disputes adopt
    merge_consensus add_vote add_votes total_scores outranks max_item best_token pick_winner
    resolve_disputes set_add committed_positions max_of walk_back confirm reset check_frontier check
    note_sender file_message handle dispatch pump_once discard missing accept early collect_loop
    close_key collect_until note_leader_activity get_round_id get_sync_seq lookup insert erase keep
    string_eq option_eq pair_eq msg_type_eq ℕ_discrete
program = tt

writes : str 1205 ≡ "1205"
unfolding str
writes = refl

reads : int "1205" ≡ ok 1205
unfolding int
reads = refl

refuses : int "12a" ≡ raise value_error
unfolding int
refuses = refl

syncs : do_sync in_order args ((1, 5) ∷ []) detector 5 7 ticks fresh ≡ ok (some after)
unfolding program
syncs = refl

mine-NodupKeys : NodupKeys mine
unfolding lookup
mine-NodupKeys = ground arith

my_scores-NodupKeys : NodupKeys my_scores × HasRows my_scores
unfolding lookup
my_scores-NodupKeys = ground arith

do_sync-refines_example :
    (log : Commits Ticks) × (resolved : Dict Position Token) × All (IsLogged args ticks fresh) log
    × (lookup node_a log ≡ some mine)
    × IsResolution args ticks fresh in_order log resolved
    × Covers resolved log
    × IsMerged in_order in_order-IsIteration args ((1, 5) ∷ []) detector after log resolved
unfolding string_eq
do_sync-refines_example =
    do_sync-refines args ticks fresh in_order in_order-IsIteration ((1, 5) ∷ []) detector 5 7 after
      refl syncs

abbrev solo : SyncArgs Ticks
solo = record args { other_participants = [] }

do_sync_alone_example :
    (s : Synced Ticks) × (do_sync in_order solo ((1, 5) ∷ []) detector 5 7 [] fresh ≡ ok (some s))
    × (s.ticks ≡ [])
    × (s.node.round_mgr ≡ fresh.round_mgr)
    × (s.published ≡ (commit, commit_payload "r1" 3 mine) ∷ [])
    × ((pos : Position)
        → lookup pos s.shared_x
          ≡ (elim (lookup pos mine) [ none ↦ lookup pos ((1, 5) ∷ []) | some e ↦ some e.0 ]))
do_sync_alone_example =
    do_sync_alone in_order in_order-IsIteration solo ((1, 5) ∷ []) detector 5 7 [] fresh refl
      mine-NodupKeys
