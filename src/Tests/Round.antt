-- ===== src/Tests/Round.antt =====
-- tests/test_round.py on the model, with times in whole ticks.
use ded_swarm.Base.{
  ◌≡◌, ◌≢◌, ◌⊎◌, refl, ap, true, false, List, [], ◌∷◌, ◌==◌, nat_eq, string_eq, option_eq, String,
  none, some, ok, arith,
}
use ded_swarm.Base.Order.{sort_insert, sorted}
use ded_swarm.Base.Text.{string_ord}
use ded_swarm.Float.{Ticks, ticks_float}
use ded_swarm.Protocol
use ded_swarm.Protocol.{Envelope, Payload, start_of, done_of, get_round_id}
use ded_swarm.Round.{
  active, RoundState, RoundManager, init, start_round, adopt, has_active, on_gen_start, on_gen_done,
  note_leader_activity, is_round_leader, check_leader_timeout,
}
use ded_swarm.Round.Locked.{
  Event, gen_start, gen_done, activity, timeout, step, run, IsValid, SameRound, FreedIn,
  step-IsValid, run-SameRound,
}
use ded_swarm.Round.Leading.{run-SameRound_leader}
use ded_swarm.Round.Timeout.{on_gen_start_reopens}

abbrev node_a : String
node_a = "node-a"

abbrev node_b : String
node_b = "node-b"

abbrev announcement : Envelope Ticks
announcement = record {
  msg_type = Protocol.MsgType.gen_start;
  node_id = node_a;
  ts = 100;
  payload = start_of "r1" (node_b ∷ node_a ∷ []) "hello" [];
}

-- A second announcement, which comes while the first round is active.
abbrev intruder : Envelope Ticks
intruder = record announcement {
  node_id = "node-0";
  payload = start_of "r2" ("node-0" ∷ []) "hi" [];
}

abbrev farewell : Envelope Ticks
farewell = record announcement { msg_type = Protocol.MsgType.gen_done; payload = done_of "r1" }

abbrev round_of_a : RoundState Ticks
round_of_a = record {
  round_id = "r1";
  leader_id = node_a;
  participants = node_a ∷ node_b ∷ [];
  prompt = "hello";
  gen_config = [];
  started_at = 100;
  last_leader_seen = 100;
  status = active;
}

abbrev idle : RoundManager Ticks
idle = record { self_id = node_b; active_round = none }

abbrev following : RoundManager Ticks
following = record { self_id = node_b; active_round = some round_of_a }

abbrev leading : RoundManager Ticks
leading = record following { self_id = node_a }

program : Unit {0}
unfolding init start_round adopt on_gen_start on_gen_done note_leader_activity is_round_leader
    check_leader_timeout get_round_id step sort_insert sorted string_eq option_eq
program = tt

follows : on_gen_start idle announcement 100 ≡ ok following
unfolding program
follows = refl

times_out : (check_leader_timeout following 109).1 ≡ true
unfolding program
times_out = refl

in_time : (check_leader_timeout following 108).1 ≡ false
unfolding program
in_time = refl

abbrev intruded : List (Event Ticks)
intruded = gen_start intruder 101 ∷ activity node_a 104 ∷ timeout 112 ∷ []

stays :
    run following intruded
    ≡ ok (record following { active_round = some (record round_of_a { last_leader_seen = 104 }) })
unfolding program
stays = refl

following-IsValid : IsValid following
following-IsValid = (refl, ground arith)

run-SameRound_example :
    FreedIn following intruded
    ⊎ ((s : RoundState Ticks) × (some (record round_of_a { last_leader_seen = 104 }) ≡ some s)
        × SameRound round_of_a s)
run-SameRound_example =
    run-SameRound intruded following
      (record following { active_round = some (record round_of_a { last_leader_seen = 104 }) })
      round_of_a following-IsValid refl stays

joins : step idle (gen_start announcement 100) ≡ ok following
unfolding program
joins = refl

step-IsValid_example : IsValid following
step-IsValid_example = step-IsValid idle (gen_start announcement 100) following tt joins

ends : step following (gen_done farewell) ≡ ok idle
unfolding program
ends = refl

a_is_not_b : node_a ≢ node_b
unfolding string_eq
a_is_not_b = λ p. ground (arith, ap (λ s. s == node_a) p)

abbrev left_alone : List (Event Ticks)
left_alone = gen_start intruder 101 ∷ timeout 200 ∷ []

holds : run leading left_alone ≡ ok leading
unfolding program
holds = refl

run-SameRound_leader_example :
    (s : RoundState Ticks) × (some round_of_a ≡ some s) × SameRound round_of_a s
run-SameRound_leader_example =
    run-SameRound_leader left_alone leading leading round_of_a following-IsValid refl refl refl
      holds

on_gen_start_reopens_example :
    (m₁ m₂ m₃ : RoundManager Ticks) × (on_gen_start idle announcement 100 ≡ ok m₁)
    × ((on_gen_done m₁ farewell).0 ≡ m₂)
    × (m₂.active_round ≡ none)
    × (on_gen_start m₂ announcement 120 ≡ ok m₃)
    × (has_active m₃.active_round ≡ true)
unfolding get_round_id
on_gen_start_reopens_example =
    on_gen_start_reopens idle node_a 100 "r1" (node_b ∷ node_a ∷ []) "hello" [] farewell 100 120
      refl refl
