-- ===== src/Tests/Together.antt =====
-- Two steps of node-a and node-b, with models that disagree, and their syncs.
use ded_swarm.Base.{
  zero, suc, ◌++◌, ◌+◌, String, ℕ, ◌≡◌, ◌≢◌, refl, List, [], ◌∷◌, nat_eq, string_eq, map, none,
  arith, ok, Result,
}
use ded_swarm.Base.Dict.{SameLookups}
use ded_swarm.Float.{Ticks, ticks_float, Ticks-IsOrdered, Ticks-IsIeee}
use ded_swarm.Protocol.{MsgType, Payload, commit, dispute_score, commit_of, scores_of}
use ded_swarm.Swarm.{Tick}
use ded_swarm.LocalStep.{clamp_min}
use ded_swarm.Generation.Exchange.{tick_of}
use ded_swarm.Generation.Loop.{GenConfig, Moment, Run, RoundArgs, Progress, going, begin, step}
use ded_swarm.Generation.Loop.Together.{IsHeard, start, stepped, run_round-Together}
use ded_swarm.Tests.Generation.{in_order, in_order-IsIteration}
use ded_swarm.Tests.Agreed.{read_at, node_a-ne-node_b}
use ded_swarm.Tests.Loop.{torch, cfg, node, pair, program, quiet}

-- Every step syncs.
abbrev every : GenConfig Ticks
every = record cfg { sync_every = 1 }

abbrev sent_a : List (MsgType × Payload Ticks)
sent_a =
    (commit, commit_of "r1" 0 (3 ∷ 4 ∷ []) (24 ∷ 25 ∷ []) (124 ∷ 125 ∷ []))
    ∷ (
      dispute_score,
      scores_of "r1" 0
          (("3", ("34", 124) ∷ ("24", 124) ∷ []) ∷ ("4", ("35", 125) ∷ ("25", 125) ∷ []) ∷ []),
    )
    ∷ []

abbrev sent_b : List (MsgType × Payload Ticks)
sent_b =
    (commit, commit_of "r1" 0 (3 ∷ 4 ∷ []) (34 ∷ 35 ∷ []) (134 ∷ 135 ∷ []))
    ∷ (
      dispute_score,
      scores_of "r1" 0
          (("3", ("24", 134) ∷ ("34", 134) ∷ []) ∷ ("4", ("25", 135) ∷ ("35", 135) ∷ []) ∷ []),
    )
    ∷ []

-- What each says in the second sync, once the clock has moved on.
abbrev then_a : List (MsgType × Payload Ticks)
then_a =
    (commit, commit_of "r1" 1 (2 ∷ []) (23 ∷ []) (123 ∷ []))
    ∷ (dispute_score, scores_of "r1" 1 (("2", ("33", 123) ∷ ("23", 123) ∷ []) ∷ []))
    ∷ []

abbrev then_b : List (MsgType × Payload Ticks)
then_b =
    (commit, commit_of "r1" 1 (2 ∷ []) (33 ∷ []) (133 ∷ []))
    ∷ (dispute_score, scores_of "r1" 1 (("2", ("23", 133) ∷ ("33", 133) ∷ []) ∷ []))
    ∷ []

abbrev read_then : MsgType → Ticks
read_then commit = 121
read_then _ = 131

abbrev moments : (first second : List (Tick Ticks)) → ℕ → ℕ → Moment Ticks
moments first second block_idx zero = quiet first
moments first second block_idx (suc step_idx) = record (quiet second) { started = 120; later = 130 }

abbrev side :
    String
    → String
    → ℕ
    → List (MsgType × Payload Ticks)
    → List (MsgType × Payload Ticks)
    → RoundArgs Ticks
side id other shift heard after = record {
  id = id;
  round_id = "r1";
  other_participants = other ∷ [];
  model = λ x pos v. shift + pos;
  cfg = every;
  gen_start = 2;
  steps_per_block = 2;
  moment = moments (map (tick_of other read_at) heard) (map (tick_of other read_then) after);
}

abbrev node_a : RoundArgs Ticks
node_a = side "node-a" "node-b" 20 sent_b then_b

abbrev node_b : RoundArgs Ticks
node_b = side "node-b" "node-a" 30 sent_a then_a

abbrev run_of : Result (Progress Ticks) → Run Ticks → Run Ticks
run_of (ok (going r)) default = r
run_of _ default = default

abbrev begin_a : Run Ticks
begin_a = begin (node pair) (7 ∷ 7 ∷ []) every

abbrev begin_b : Run Ticks
begin_b = begin (record (node pair) { id = "node-b" }) (7 ∷ 7 ∷ []) every

after_a : Run Ticks
after_a = run_of (step torch in_order node_a 0 0 begin_a) begin_a

after_b : Run Ticks
after_b = run_of (step torch in_order node_b 0 0 begin_b) begin_b

goes_a : step torch in_order node_a 0 0 begin_a ≡ ok (going after_a)
unfolding program after_a
goes_a = refl

says_a : after_a.published ≡ sent_a
unfolding program after_a
says_a = refl

goes_b : step torch in_order node_b 0 0 begin_b ≡ ok (going after_b)
unfolding program after_b
goes_b = refl

says_b : after_b.published ≡ sent_b
unfolding program after_b
says_b = refl

scores_fit : (t : Ticks) → ticks_float.exp (torch.log (clamp_min torch every.step_cfg t)) ≢ none
scores_fit t = ground arith

hear_each_other : IsHeard torch in_order in_order node_a node_b 0 0 begin_a after_a begin_b after_b
unfolding begin
hear_each_other = record {
  now = read_at;
  now' = read_at;
  sent = sent_a;
  sent' = sent_b;
  publishes = says_a;
  publishes' = says_b;
  reads = refl;
  reads' = refl;
  in_time = refl;
  scores_in_time = refl;
  in_time' = refl;
  scores_in_time' = refl;
}

last_a : Run Ticks
last_a = run_of (step torch in_order node_a 0 1 after_a) begin_a

last_b : Run Ticks
last_b = run_of (step torch in_order node_b 0 1 after_b) begin_b

ends_a : step torch in_order node_a 0 1 after_a ≡ ok (going last_a)
unfolding program after_a last_a
ends_a = refl

ends_b : step torch in_order node_b 0 1 after_b ≡ ok (going last_b)
unfolding program after_b last_b
ends_b = refl

says_then_a : last_a.published ≡ after_a.published ++ then_a
unfolding program after_a last_a
says_then_a = refl

says_then_b : last_b.published ≡ after_b.published ++ then_b
unfolding program after_b last_b
says_then_b = refl

hear_then : IsHeard torch in_order in_order node_a node_b 0 1 after_a last_a after_b last_b
hear_then = record {
  now = read_then;
  now' = read_then;
  sent = then_a;
  sent' = then_b;
  publishes = says_then_a;
  publishes' = says_then_b;
  reads = refl;
  reads' = refl;
  in_time = refl;
  scores_in_time = refl;
  in_time' = refl;
  scores_in_time' = refl;
}

run_round-Together_example :
    SameLookups last_a.shared_x last_b.shared_x
    × (last_a.stop_detector ≡ last_b.stop_detector)
    × (last_a.frozen_from ≡ last_b.frozen_from)
run_round-Together_example =
    run_round-Together Ticks-IsOrdered Ticks-IsIeee torch in_order in_order in_order-IsIteration
      in_order-IsIteration node_a node_b scores_fit node_a-ne-node_b refl refl refl refl refl refl
      (node pair) (record (node pair) { id = "node-b" }) (7 ∷ 7 ∷ []) last_a last_b refl refl
      (stepped {r = after_a} {q = after_b} 0 1
        (stepped {r = begin_a} {q = begin_b} 0 0 start refl refl goes_a goes_b hear_each_other) refl
        refl ends_a ends_b hear_then)
