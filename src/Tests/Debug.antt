-- ===== src/Tests/Debug.antt =====
-- The first step of a round, and what is printed of it.
use ded_swarm.Base.{
  ℕ, ◌+◌, ◌≤◌, ◌≡◌, ◌↔◌, refl, List, [], ◌∷◌, String, ok, ℕ_discrete, length, All, if◌then◌else◌,
  nat_eq,
}
use ded_swarm.Float.{Ticks, ticks_float}
use ded_swarm.LocalStep.{StepArgs, Stepped, local_step, eos_margin}
use ded_swarm.LocalStep
use ded_swarm.Generation.Loop.{RoundArgs, Run, begin, step_args}
use ded_swarm.Generation.Debug.{
  DebugArgs, take, masked_pos, top_line, debug_topk, debug_distribution, debug_args, n_masked,
  step_print,
}
use ded_swarm.Generation.Debug.Sampled.{
  IsShown, top_positions, distribution_positions, debug_positions, HaveMargin,
  step_print-eos_margin,
}
use ded_swarm.Tests.Generation.{in_order}
use ded_swarm.Tests.Loop.{torch, cfg, node, quiet, program, pair}

abbrev round : RoundArgs Ticks
round = record {
  id = "node-a";
  round_id = "r1";
  other_participants = [];
  model = λ x pos v. 20 + pos;
  cfg = cfg;
  gen_start = 2;
  steps_per_block = 2;
  moment = λ block_idx step_idx. quiet [];
}

abbrev start : Run Ticks
start = begin (node pair) (7 ∷ 7 ∷ []) cfg

abbrev first : StepArgs Ticks
first = step_args torch in_order round 0 0 start

abbrev stepped : Stepped Ticks
stepped = record {
  x = λ pos.
      if LocalStep.transfer torch cfg.step_cfg first pos
      then LocalStep.x0 torch cfg.step_cfg first pos
      else if LocalStep.remask torch cfg.step_cfg first pos
      then 0
      else first.x pos;
  age = λ pos.
      if LocalStep.transfer torch cfg.step_cfg first pos
      then 0
      else if LocalStep.remask torch cfg.step_cfg first pos
      then 0
      else if LocalStep.is_masked torch cfg.step_cfg first pos
      then first.age pos
      else first.age pos + 1;
  x0 = LocalStep.x0 torch cfg.step_cfg first;
  p = LocalStep.p torch cfg.step_cfg first;
  conf_new = LocalStep.conf_new torch cfg.step_cfg first;
  transfer = LocalStep.transfer torch cfg.step_cfg first;
  remask = LocalStep.remask torch cfg.step_cfg first;
}

steps : local_step torch cfg.step_cfg first ≡ ok stepped
unfolding local_step step_args ℕ_discrete
steps = refl

abbrev decode : List ℕ → String
decode ts = "token"

abbrev given : DebugArgs Ticks
unfolding debug_args
given = debug_args round 0 0 start stepped

-- The block of positions 2, 3 and 4 is masked.
shows_block : top_positions (debug_topk torch decode 10 given) ≡ 2 ∷ 3 ∷ 4 ∷ []
unfolding program debug_topk masked_pos top_line debug_args
shows_block = refl

masks_at : (n_masked round 0 0 stepped ≡ 1)
unfolding program n_masked
masks_at = refl

debug_positions_example :
    All
      (IsShown given)
      (distribution_positions (debug_distribution torch decode 10 given (λ r. r 0)))
    × (length (top_positions (debug_topk torch decode 10 given)) ≤ 5)
    × (length (distribution_positions (debug_distribution torch decode 10 given (λ r. r 0))) ≤ 10)
    × (top_positions (debug_topk torch decode 10 given)
        ≡ take 5 (distribution_positions (debug_distribution torch decode 10 given (λ r. r 0))))
    × ((top_positions (debug_topk torch decode 10 given) ≡ []) ↔ ((pos : ℕ) → ¬ IsShown given pos))
debug_positions_example = debug_positions torch decode 10 given (λ r. r 0)

step_print-eos_margin_example :
    HaveMargin
      (step_print round 0 0 torch decode 10 (λ r. r 0) start stepped).top
      (eos_margin torch cfg.step_cfg first)
step_print-eos_margin_example =
    step_print-eos_margin torch decode 10 in_order (λ r. r 0) round 0 0 start stepped steps
