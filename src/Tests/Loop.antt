-- ===== src/Tests/Loop.antt =====
-- Rounds of node-a: with node-b and a dispute, and alone. A prompt of two, and two blocks of three.
use ded_swarm.Base.{
  ℕ_discrete, ℕ, zero, suc, ◌+◌, ◌≡◌, ◌≢◌, refl, List, [], ◌∷◌, nat_eq, string_eq, option_eq,
  pair_eq, String, none, some, Result, ok, arith, set_add,
}
use ded_swarm.Base.Dict.{Dict, lookup, insert, erase, keep, keys}
use ded_swarm.Base.Numerals.{str, int}
use ded_swarm.Float.{Ticks, ticks_float}
use ded_swarm.Torch.{Row, Torch}
use ded_swarm.Protocol.{
  MsgType, Payload, commit, dispute_score, gen_done, commit_of, scores_of, done_of, get_round_id,
  get_sync_seq, msg_type_eq,
}
use ded_swarm.Consensus.{
  Position, Token, propose, by_position, detect_disputes, adopt, merge_consensus, add_vote,
  add_votes, total_scores, outranks, max_item, best_token, pick_winner, resolve_disputes,
}
use ded_swarm.Stop
use ded_swarm.Stop.{committed_positions, max_of, walk_back, confirm, reset, check_frontier, check}
use ded_swarm.Round.{
  active, RoundState, note_leader_activity, check_leader_timeout, is_round_leader,
}
use ded_swarm.Swarm.{
  SwarmNode, Tick, note_sender, file_message, handle, dispatch, pump_once, discard, missing, accept,
  early, collect_loop, close_key, collect_until,
}
use ded_swarm.LocalStep.{
  add_gumbel_noise, clamp_min, is_masked, p, conf_current, x0, conf_new, eos_margin,
  eos_not_trusted, allow_remask, eligible, low_conf, remask_cap, remask_idx, remask, conf_in_block,
  conf_new_masked, remaining, transfer_count, transfer_idx, transfer, local_step,
}
use ded_swarm.Generation.{
  commit_payload, zip_commit, read_commit, add_commit, scores_payload, read_row, read_rows,
  read_scores, add_scores, score_candidate, score_row, score_disputes, resolve_collected,
  score_phase, merge_phase, commits_collected, do_sync,
}
use ded_swarm.Generation.Loop.{
  GenConfig, Moment, Outcome, finished, still_waiting, add_transfers, settled_at, adopt_shared,
  sync_due, step_args, sync_args, after_sync, sync_if, step_going, go_on, polled, step, run_steps,
  run_blocks, enumerate, masked_row, finish, begin, round_args, run_round,
}
use ded_swarm.Generation.Loop.Completes.{run_round-completes}
use ded_swarm.Tests.Selection.{topk, ticks_torch, ticks_torch-IsTorch}
use ded_swarm.Tests.Generation.{in_order, in_order-IsIteration, from_b}

-- No guess is 0, the mask.
abbrev guess : Row ℕ → ℕ
guess l = l 0 + 1

abbrev pub torch : Torch Ticks
torch = ticks_torch guess

abbrev pub cfg : GenConfig Ticks
cfg = record {
  gen_length = 6;
  block_length = 3;
  steps = 4;
  sync_every = 2;
  step_cfg = record {
    mask_id = 0;
    eos_id = 9;
    temperature = 0;
    eos_margin_threshold = 0;
    remask_conf_threshold = 105;
    remask_min_age = 1;
    remask_max_frac = 5;
    remask_reserve_frac = 1;
  };
  stop_cfg = record {
    eos_id = 9;
    mask_id = 0;
    min_gen_length = 6;
    stop_run_min = 2;
    stop_confirmations = 1;
  };
}

abbrev model : Row ℕ → Row (Row Ticks)
model x pos v = 20 + pos

abbrev round : List String → RoundState Ticks
round participants = record {
  round_id = "r1";
  leader_id = "node-a";
  participants = participants;
  prompt = "p";
  gen_config = [];
  started_at = 0;
  last_leader_seen = 0;
  status = active;
}

abbrev pub node : List String → SwarmNode Ticks
node participants = record {
  id = "node-a";
  peers = record { self_id = "node-a"; timeout = 6; last_seen = []; prev_leader = none };
  round_mgr = record { self_id = "node-a"; active_round = some (round participants) };
  gen_inbox = [];
}

abbrev pub quiet : List (Tick Ticks) → Moment Ticks
quiet ticks = record {
  tick = record { now = 1; env = none; receive_ts = 1 };
  checked = 1;
  noise = λ pos v. 1;
  started = 1;
  later = 2;
  ticks = ticks;
}

abbrev hear : MsgType → Payload Ticks → Tick Ticks
hear msg_type payload = record { now = 1; env = some (from_b msg_type payload); receive_ts = 1 }

-- In the first sync node-b disputes position 3, with the higher score; in the second it agrees.
abbrev with_b : ℕ → ℕ → Moment Ticks
with_b zero step_idx = quiet (
    hear commit (commit_of "r1" 0 (3 ∷ []) (600 ∷ []) (70 ∷ []))
    ∷ hear dispute_score (scores_of "r1" 0 (("3", ("24", 20) ∷ ("600", 900) ∷ []) ∷ []))
    ∷ [])
with_b (suc block_idx) step_idx = quiet (hear commit (commit_of "r1" 1 [] [] []) ∷ [])

unfoldable pub program : Unit {0}
unfolding add_gumbel_noise clamp_min is_masked p conf_current x0 conf_new eos_margin eos_not_trusted
    allow_remask eligible low_conf remask_cap remask_idx remask conf_in_block conf_new_masked
    remaining transfer_count transfer_idx transfer local_step topk add_transfers settled_at
    adopt_shared sync_due step_args sync_args after_sync sync_if step_going go_on polled step
    run_steps run_blocks enumerate masked_row finish begin round_args run_round check_leader_timeout
    is_round_leader Stop.init str int keys commit_payload zip_commit read_commit add_commit
    scores_payload read_row read_rows read_scores add_scores score_candidate score_row
    score_disputes resolve_collected score_phase merge_phase commits_collected do_sync propose
    by_position detect_disputes adopt merge_consensus add_vote add_votes total_scores outranks
    max_item best_token pick_winner resolve_disputes set_add committed_positions max_of walk_back
    confirm reset check_frontier check note_sender file_message handle dispatch pump_once discard
    missing accept early collect_loop close_key collect_until note_leader_activity get_round_id
    get_sync_seq lookup insert erase keep string_eq option_eq pair_eq msg_type_eq ℕ_discrete
program = tt

-- node-b won position 3.
abbrev filled : Dict Position Token
filled = (0, 7) ∷ (1, 7) ∷ (3, 600) ∷ (4, 25) ∷ (2, 23) ∷ (6, 27) ∷ (7, 28) ∷ (5, 26) ∷ []

run : List String → (ℕ → ℕ → Moment Ticks) → Result (Outcome Ticks)
run participants moment = run_round torch in_order (node participants) model moment (7 ∷ 7 ∷ []) cfg

shared : Result (Outcome Ticks) → Dict Position Token
shared (ok (finished n d ms)) = d
shared _ = []

abbrev pub pair : List String
pair = "node-a" ∷ "node-b" ∷ []

abbrev sent : List (MsgType × Payload Ticks)
sent =
    (commit, commit_of "r1" 0 (3 ∷ 4 ∷ 2 ∷ []) (24 ∷ 25 ∷ 23 ∷ []) (124 ∷ 125 ∷ 123 ∷ []))
    ∷ (dispute_score, scores_of "r1" 0 (("3", ("600", 124) ∷ ("24", 124) ∷ []) ∷ []))
    ∷ (commit, commit_of "r1" 1 (6 ∷ 7 ∷ 5 ∷ []) (27 ∷ 28 ∷ 26 ∷ []) (127 ∷ 128 ∷ 126 ∷ []))
    ∷ (gen_done, done_of "r1")
    ∷ []

both : run pair with_b ≡ ok (finished (node pair) filled sent)
unfolding program run
both = refl

-- node-a leads, and hears of nobody: the clock does not matter.
solo :
    shared (run ("node-a" ∷ []) (λ block_idx step_idx. quiet []))
    ≡ (0, 7) ∷ (1, 7) ∷ (3, 24) ∷ (4, 25) ∷ (2, 23) ∷ (6, 27) ∷ (7, 28) ∷ (5, 26) ∷ []
unfolding program run shared
solo = refl

-- Without a message of node-b the first barrier waits.
waits : run pair (λ block_idx step_idx. quiet []) ≡ ok still_waiting
unfolding program run
waits = refl

-- node-b leads, and was heard of too long ago.
abbrev led_by_b : RoundState Ticks
led_by_b = record (round pair) { leader_id = "node-b" }

abbrev follower : SwarmNode Ticks
follower = record (node pair) {
  round_mgr = record { self_id = "node-a"; active_round = some led_by_b };
}

abbrev too_late : ℕ → ℕ → Moment Ticks
too_late block_idx step_idx = record (quiet []) { checked = 100 }

run_round-completes_example : lookup 6 filled ≢ none
unfolding run
run_round-completes_example =
    run_round-completes torch (ticks_torch-IsTorch guess) in_order in_order-IsIteration (node pair)
      (node pair) model with_b (7 ∷ 7 ∷ []) cfg filled sent both (omega arith) (omega arith)
      (λ l. omega arith) 6 (omega arith)
