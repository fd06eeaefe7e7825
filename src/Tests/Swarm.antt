-- ===== src/Tests/Swarm.antt =====
-- A barrier on the model: a report that comes early, and one in time.
use ded_swarm.Base.{
  ℕ_discrete, ◌≡◌, ◌≢◌, refl, true, List, [], ◌∷◌, nat_eq, string_eq, option_eq, pair_eq, String,
  none, some, ok, ◌>>=◌,
}
use ded_swarm.Base.Dict.{lookup, insert, erase, keep}
use ded_swarm.Float.{Ticks, ticks_float}
use ded_swarm.Protocol.{
  Envelope, commit_of, commit, heartbeat, nothing, get_round_id, get_sync_seq, msg_type_eq,
}
use ded_swarm.Peers.{mark_alive}
use ded_swarm.Peers
use ded_swarm.Round
use ded_swarm.Round.{note_leader_activity}
use ded_swarm.Swarm.{
  Key, SwarmNode, Tick, init, key_of, note_sender, file_message, handle, dispatch, pump_once,
  discard, missing, has, accept, early, Collected, collect_loop, close_key, collect_until,
}
use ded_swarm.Swarm.Inbox.{filed, IsInbox, dispatch-IsInbox, pump_all, pump_all-filed}
use ded_swarm.Swarm.Copies.{dispatch-copy}
use ded_swarm.Swarm.Barrier.{early_message_counts}

-- The report of node-b for sync 3 of the round, and the one of node-c.
abbrev report_of_b : Envelope Ticks
report_of_b = record {
  msg_type = commit;
  node_id = "node-b";
  ts = 1;
  payload = commit_of "r1" 3 (10 ∷ []) (500 ∷ []) (90 ∷ []);
}

abbrev report_of_c : Envelope Ticks
report_of_c = record report_of_b {
  node_id = "node-c";
  payload = commit_of "r1" 3 (20 ∷ []) (700 ∷ []) (80 ∷ []);
}

abbrev beat : Envelope Ticks
beat = record report_of_b { msg_type = heartbeat; node_id = "node-c"; payload = nothing }

abbrev fresh : SwarmNode Ticks
fresh = record {
  id = "node-a";
  peers = record { self_id = "node-a"; timeout = 6; last_seen = []; prev_leader = none };
  round_mgr = record { self_id = "node-a"; active_round = none };
  gen_inbox = [];
}

abbrev sync_3 : Key
sync_3 = (commit, (some "r1", some 3))

-- With the report of node-b on file.
abbrev early_bird : SwarmNode Ticks
early_bird = record fresh { gen_inbox = (sync_3, ("node-b", report_of_b.payload) ∷ []) ∷ [] }

-- And after a heartbeat of node-c.
abbrev polled : SwarmNode Ticks
polled = record early_bird { peers = record fresh.peers { last_seen = ("node-c", 5) ∷ [] } }

abbrev polls : List (Tick Ticks)
polls =
    record { now = 3; env = none; receive_ts = 3 }
    ∷ record { now = 4; env = some beat; receive_ts = 5 }
    ∷ []

-- The report of node-c comes in time, and the next reading of the clock is late.
abbrev ticks : List (Tick Ticks)
ticks =
    record { now = 6; env = some report_of_c; receive_ts = 7 }
    ∷ record { now = 200; env = none; receive_ts = 200 }
    ∷ []

abbrev outcome : Collected Ticks
outcome = record {
  node = record polled { gen_inbox = [] };
  received = ("node-b", report_of_b.payload) ∷ ("node-c", report_of_c.payload) ∷ [];
  ticks = record { now = 200; env = none; receive_ts = 200 } ∷ [];
}

abbrev expected : List String
expected = "node-b" ∷ "node-c" ∷ []

program : Unit {0}
unfolding init note_sender file_message handle dispatch pump_once discard missing accept early
    collect_loop close_key collect_until mark_alive note_leader_activity get_round_id get_sync_seq
    lookup insert erase keep string_eq option_eq pair_eq msg_type_eq ℕ_discrete
program = tt

fresh-init : init "node-a" ≡ fresh
unfolding program Peers.init Round.init
fresh-init = refl

pub fresh-IsInbox : IsInbox fresh.gen_inbox
unfolding lookup
fresh-IsInbox = record { nodup = tt; buckets = λ key. tt; matching = λ key s. tt }

filed_under : key_of report_of_b ≡ sync_3
unfolding get_round_id get_sync_seq
filed_under = refl

files : dispatch fresh report_of_b 2 ≡ ok early_bird
unfolding program
files = refl

on_file : filed early_bird.gen_inbox sync_3 "node-b" ≢ none
unfolding program
on_file = cc

pumps : pump_all early_bird polls ≡ ok polled
unfolding program
pumps = refl

polled-IsInbox : IsInbox polled.gen_inbox
polled-IsInbox =
    (pump_all-filed polls early_bird polled sync_3 "node-b"
      (dispatch-IsInbox fresh report_of_b 2 early_bird files fresh-IsInbox) pumps on_file).0

collects : collect_until commit "r1" 3 expected 100 5 ticks polled ≡ ok (some outcome)
unfolding program
collects = refl

early_message_counts_example : has "node-b" outcome.received ≡ true
unfolding string_eq
early_message_counts_example =
    early_message_counts commit "r1" 3 expected 100 5 fresh report_of_b 2 early_bird polls polled
      ticks outcome fresh-IsInbox refl filed_under refl files pumps collects

dispatch-copy_example :
    (dispatch fresh report_of_b 2 >>= λ n. dispatch n report_of_b 9) ≡ dispatch fresh report_of_b 9
dispatch-copy_example = dispatch-copy fresh report_of_b 2 9 (λ e. cc)
