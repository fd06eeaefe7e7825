-- ===== src/Tests/LocalStep.antt =====
-- Steps of a row of eight positions: a prompt of two, and two blocks of three.
use ded_swarm.Base.{
  ℕ, zero, suc, ℕ_discrete, ◌+◌, ◌*◌, ◌≤◌, ◌<◌, ◌≡◌, ◌≢◌, refl, true, false, List, [], ◌∷◌, map,
  ◌==◌, contains, nat_eq, length, ltb, leb, none, some, if◌then◌else◌, arith, IsSetList, Result, ok,
  raise, zero_division_error,
}
use ded_swarm.Base.Ranges.{range, count}
use ded_swarm.Float.{Ticks, ticks_float}
use ded_swarm.Torch.{Row, Torch}
use ded_swarm.LocalStep.{
  StepConfig, StepArgs, Stepped, is_frozen, add_gumbel_noise, clamp_min, is_masked, in_block, p,
  conf_current, x0, conf_new, eos_margin, eos_not_trusted, allow_remask, eligible, low_conf,
  remask_cap, remask_idx, remask, conf_in_block, conf_new_masked, remaining, transfer_count,
  transfer_idx, transfer, local_step,
}
use ded_swarm.LocalStep.Transfer.{is_open, transfer_count_bounds}
use ded_swarm.LocalStep.Remask.{remask-low_conf}
use ded_swarm.LocalStep.Blocks.{
  IsWhole, local_step-outside, local_step-completes, transfer_overflow,
}
use ded_swarm.Tests.Selection.{topk, ticks_torch, ticks_torch-IsTorch}

-- The guess for a position is in its logits, under 0.
abbrev torch : Torch Ticks
torch = ticks_torch (λ l. l 0)

abbrev cfg : StepConfig Ticks
cfg = record {
  mask_id = 0;
  eos_id = 9;
  temperature = 0;
  eos_margin_threshold = 0;
  remask_conf_threshold = 105;
  remask_min_age = 1;
  remask_max_frac = 5;
  remask_reserve_frac = 1;
}

abbrev row : List ℕ → Row ℕ
row [] pos = 0
row (t ∷ ts) zero = t
row (t ∷ ts) (suc pos) = row ts pos

-- Positions 3 and 4 of the first block are masked, and so is the second block.
abbrev args : StepArgs Ticks
args = record {
  seq_len = 8;
  x = row (7 ∷ 7 ∷ 1 ∷ 0 ∷ 0 ∷ 0 ∷ 0 ∷ 0 ∷ []);
  age = λ pos. 3;
  logits = λ pos v. 20 + pos;
  noise = λ pos v. 1;
  steps_remaining = 2;
  block_start = 2;
  block_end = 5;
  steps_per_block = 2;
  frozen_from = none;
}

abbrev last : StepArgs Ticks
last = record args { steps_remaining = 1 }

-- The boundary cuts the block: both masks of it are frozen.
abbrev cut : StepArgs Ticks
cut = record args { frozen_from = some 3 }

program : Unit {0}
unfolding add_gumbel_noise clamp_min is_masked p conf_current x0 conf_new eos_margin eos_not_trusted
    allow_remask eligible low_conf remask_cap remask_idx remask conf_in_block conf_new_masked
    remaining transfer_count transfer_idx transfer local_step topk ℕ_discrete
program = tt

row_of : Result (Stepped Ticks) → List ℕ
row_of (ok s) = map s.x (range 8)
row_of (raise _) = []

-- One of the two masks is settled: the one of the higher confidence.
commits_one : row_of (local_step torch cfg args) ≡ 7 ∷ 7 ∷ 1 ∷ 0 ∷ 24 ∷ 0 ∷ 0 ∷ 0 ∷ []
unfolding program row_of
commits_one = refl

commits_all : row_of (local_step torch cfg last) ≡ 7 ∷ 7 ∷ 1 ∷ 23 ∷ 24 ∷ 0 ∷ 0 ∷ 0 ∷ []
unfolding program row_of
commits_all = refl

-- With the boundary at 3 the step overwrites the first position of the prompt.
overwrites_prompt : row_of (local_step torch cfg cut) ≡ 20 ∷ 7 ∷ 1 ∷ 0 ∷ 0 ∷ 0 ∷ 0 ∷ 0 ∷ []
unfolding program row_of
overwrites_prompt = refl

never_divides :
    local_step torch cfg (record args { steps_remaining = 0 }) ≡ raise zero_division_error
unfolding program
never_divides = refl

one_each : (0 < args.steps_remaining) × (0 < cut.steps_remaining)
one_each = omega arith

args-IsWhole : IsWhole torch (ticks_torch-IsTorch (λ l. l 0)) cfg args
args-IsWhole pos h = refl

last-IsWhole : IsWhole torch (ticks_torch-IsTorch (λ l. l 0)) cfg last
last-IsWhole pos h = refl

abbrev after : StepArgs Ticks → Stepped Ticks
after a = record {
  x = λ pos.
      if transfer torch cfg a pos
      then x0 torch cfg a pos
      else if remask torch cfg a pos
      then 0
      else a.x pos;
  age = λ pos.
      if transfer torch cfg a pos
      then 0
      else if remask torch cfg a pos
      then 0
      else if is_masked torch cfg a pos
      then a.age pos
      else a.age pos + 1;
  x0 = x0 torch cfg a;
  p = p torch cfg a;
  conf_new = conf_new torch cfg a;
  transfer = transfer torch cfg a;
  remask = remask torch cfg a;
}

steps : local_step torch cfg args ≡ ok (after args)
unfolding local_step ℕ_discrete
steps = refl

steps_last : local_step torch cfg last ≡ ok (after last)
unfolding local_step ℕ_discrete
steps_last = refl

local_step-outside_example :
    (in_block torch cfg args 1 ≡ false → (after args).x 1 ≡ 7)
    × ((after args).transfer 1 ≡ true → (◌≡◌ {A = ℕ} 7 0) × ((after args).x 1 ≡ (after args).x0 1))
    × ((after args).remask 1 ≡ true → (◌≢◌ {A = ℕ} 7 0) × ((after args).x 1 ≡ 0))
local_step-outside_example =
    local_step-outside torch (ticks_torch-IsTorch (λ l. l 0)) cfg args (after args) 1 args-IsWhole
      steps

guesses : (after last).x0 3 ≢ 0
unfolding program
guesses = λ h. omega (arith, h)

local_step-completes_example : (after last).x 3 ≢ 0
local_step-completes_example =
    local_step-completes torch (ticks_torch-IsTorch (λ l. l 0)) cfg last (after last) 3 last-IsWhole
      refl steps_last (omega arith) refl guesses

none_open : count (is_open torch cfg cut) (range 8) ≡ 0
unfolding program
none_open = refl

one_due : transfer_count torch cfg cut ≡ 1
unfolding program
one_due = refl

transfer_overflow_example :
    (pos : ℕ) × (pos < 8)
    × (transfer torch cfg cut pos ≡ true)
    × (is_open torch cfg cut pos ≡ false)
transfer_overflow_example =
    transfer_overflow torch (ticks_torch-IsTorch (λ l. l 0)) cfg cut one_each.1
      (omega (arith, none_open, one_due))

transfer_count_bounds_example :
    (length (transfer_idx torch cfg args) ≤ remaining torch cfg args)
    × (remaining torch cfg args ≤ length (transfer_idx torch cfg args) * 2)
    × IsSetList (transfer_idx torch cfg args)
    × ((pos : ℕ) → contains (transfer_idx torch cfg args) pos ≡ true → pos < 8)
transfer_count_bounds_example =
    transfer_count_bounds torch (ticks_torch-IsTorch (λ l. l 0)) cfg args one_each.0

-- A settled position of low confidence is reopened.
abbrev doubtful : StepArgs Ticks
doubtful = record args {
  steps_remaining = 2;
  steps_per_block = 2;
  logits = λ pos v. if pos == 2 then 1 else 20;
}

reopens : remask torch cfg doubtful 2 ≡ true
unfolding program
reopens = refl

remask-low_conf_example :
    (is_masked torch cfg doubtful 2 ≡ false)
    × (in_block torch cfg doubtful 2 ≡ true)
    × (is_frozen none 2 ≡ false)
    × (leb 1 3 ≡ true)
    × (ltb (conf_current torch cfg doubtful 2) 105 ≡ true)
    × (1 < 2)
    × (torch.round (torch.mul cfg.remask_reserve_frac (ticks_float.of_nat doubtful.steps_per_block))
        < 2)
remask-low_conf_example = remask-low_conf torch cfg doubtful 2 reopens
