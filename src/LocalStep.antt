-- ===== src/LocalStep.antt =====
-- diffusion/local_step.py: one denoising step of a node's own model. The batch has one row, as
-- `run_round` makes it: a tensor over the positions is a function of the position, and a tensor over
-- positions and vocabulary one of both. What torch and the model compute is a parameter.
pub mod Transfer
pub mod Remask
pub mod Blocks
pub mod Greedy
use ded_swarm.Base.{
  ℕ, ◌+◌, ◌-◌, ◌/◌, Bool, true, false, not, ◌&&◌, List, [], ◌∷◌, map, ◌==◌, contains, nat_eq,
  length, ltb, leb, Option, none, some, if◌then◌else◌, Result, ok, raise, zero_division_error,
}
use ded_swarm.Base.Ranges.{range, filter, count, get_elem?}
use ded_swarm.Float.{Float}
use ded_swarm.Torch.{Row, Torch}

pub record StepConfig (F : Type 0) : Type 0 where
  pub mask_id : ℕ
  pub eos_id : ℕ
  pub temperature : F
  pub eos_margin_threshold : F
  pub remask_conf_threshold : F
  pub remask_min_age : ℕ
  pub remask_max_frac : F
  pub remask_reserve_frac : F

-- What a step is given: the row and its length, the ages, and where the step stands in its block.
-- `logits` is `model(x).logits`, and `noise` the random numbers that `torch.rand_like` draws.
pub record StepArgs (F : Type 0) : Type 0 where
  pub seq_len : ℕ
  pub x : Row ℕ
  pub age : Row ℕ
  pub logits : Row (Row F)
  pub noise : Row (Row F)
  pub steps_remaining : ℕ
  pub block_start : ℕ
  pub block_end : ℕ
  pub steps_per_block : ℕ
  pub frozen_from : Option ℕ

pub record Stepped (F : Type 0) : Type 0 where
  pub x : Row ℕ
  pub age : Row ℕ
  pub x0 : Row ℕ
  pub p : Row (Row F)
  pub conf_new : Row F
  pub transfer : Row Bool
  pub remask : Row Bool

-- `frozen_from` is not None, and the position is not before it.
abbrev pub is_frozen : Option ℕ → ℕ → Bool
is_frozen none pos = false
is_frozen (some from) pos = leb from pos

-- `xs[is]`
abbrev pub gather : List ℕ → List ℕ → List ℕ
gather xs [] = []
gather xs (i ∷ is) =
    let rest = gather xs is in elim (get_elem? xs i) [ none ↦ rest | some x ↦ x ∷ rest ]

-- `max(1, n)`
abbrev pub at_least_one : ℕ → ℕ
at_least_one n = if ltb 1 n then n else 1

-- `-(-n // d)`
abbrev pub ceil_div : ℕ → ℕ → ℕ
ceil_div n d = (n + (d - 1)) / d

-- `min(m, n)`
abbrev pub min : ℕ → ℕ → ℕ
min m n = if ltb n m then n else m

module _ {F : Type 0} ⦃f : Float F⦄ (torch : Torch F) (cfg : StepConfig F) where
  unfoldable pub add_gumbel_noise : Row F → Row F → Row F
  add_gumbel_noise logits noise = if f.eq cfg.temperature f.zero then logits else λ v.
      torch.div (torch.exp (logits v)) (torch.pow (torch.neg (torch.log (noise v))) cfg.temperature)

  -- `t.clamp_min(1e-12)`
  unfoldable pub clamp_min : F → F
  clamp_min t = if f.lt t torch.tiny then torch.tiny else t

  module _ (a : StepArgs F) where
    unfoldable pub is_masked : ℕ → Bool
    is_masked pos = a.x pos == cfg.mask_id

    abbrev pub in_block : ℕ → Bool
    in_block pos = leb a.block_start pos && ltb pos a.block_end

    unfoldable pub p : Row (Row F)
    p pos = torch.softmax (a.logits pos)

    unfoldable pub conf_current : Row F
    unfolding p
    conf_current pos = p pos (a.x pos)

    unfoldable pub x0 : Row ℕ
    x0 pos = torch.argmax (add_gumbel_noise (a.logits pos) (a.noise pos))

    unfoldable pub conf_new : Row F
    unfolding p x0
    conf_new pos = p pos (x0 pos)

    unfoldable pub eos_margin : Row F
    unfolding p
    eos_margin pos =
        let p_no_eos : Row F = λ v. if v == cfg.eos_id then f.zero else p pos v in
        f.sub (torch.log (clamp_min (p pos cfg.eos_id)))
          (torch.log (clamp_min (torch.max_over p_no_eos)))

    unfoldable pub eos_not_trusted : ℕ → Bool
    unfolding x0
    eos_not_trusted pos = x0 pos == cfg.eos_id && f.lt (eos_margin pos) cfg.eos_margin_threshold

    unfoldable pub allow_remask : Bool
    allow_remask =
        let reserve_steps =
          at_least_one
            (torch.round (torch.mul cfg.remask_reserve_frac (f.of_nat a.steps_per_block))) in
        ltb reserve_steps a.steps_remaining

    unfoldable pub eligible : ℕ → Bool
    eligible pos =
        (not (is_masked pos) && leb cfg.remask_min_age (a.age pos))
        && (in_block pos && not (is_frozen a.frozen_from pos))

    unfoldable pub low_conf : ℕ → Bool
    low_conf pos = eligible pos && f.lt (conf_current pos) cfg.remask_conf_threshold

    unfoldable pub remask_cap : ℕ
    remask_cap =
        at_least_one (
          torch.trunc (torch.mul cfg.remask_max_frac (f.of_nat (count eligible (range a.seq_len)))))

    -- The positions that are reopened: the least confident, if there are too many.
    unfoldable pub remask_idx : List ℕ
    remask_idx =
        let idx = filter low_conf (range a.seq_len) in
        if ltb remask_cap (length idx)
        then gather idx (torch.topk (map (λ pos. torch.neg (conf_current pos)) idx) remask_cap)
        else idx

    unfoldable pub remask : ℕ → Bool
    remask pos = allow_remask && contains remask_idx pos

    -- `conf_new_masked`, before the penalty for an EOS guess that is not trusted
    unfoldable pub conf_in_block : Row F
    conf_in_block pos =
        if not (in_block pos)
        then torch.neg_inf
        else if is_frozen a.frozen_from pos
        then torch.neg_inf
        else if is_masked pos
        then conf_new pos
        else torch.neg_inf

    unfoldable pub conf_new_masked : Row F
    conf_new_masked pos =
        if is_masked pos && eos_not_trusted pos
        then f.sub (conf_in_block pos) (f.of_nat 100)
        else conf_in_block pos

    -- The masks of this block, frozen or not.
    unfoldable pub remaining : ℕ
    remaining = count (λ pos. is_masked pos && in_block pos) (range a.seq_len)

    unfoldable pub transfer_count : ℕ
    transfer_count = min (ceil_div remaining a.steps_remaining) remaining

    unfoldable pub transfer_idx : List ℕ
    transfer_idx =
        if ltb 0 transfer_count
        then torch.topk (map conf_new_masked (range a.seq_len)) transfer_count
        else []

    unfoldable pub transfer : ℕ → Bool
    transfer pos = contains transfer_idx pos

    unfoldable pub local_step : Result (Stepped F)
    local_step =
        if a.steps_remaining == 0
        then raise zero_division_error
        else ok (record {
          x = λ pos. if transfer pos then x0 pos else if remask pos then cfg.mask_id else a.x pos;
          age = λ pos.
              if transfer pos
              then 0
              else if remask pos
              then 0
              else if is_masked pos
              then a.age pos
              else a.age pos + 1;
          x0 = x0;
          p = p;
          conf_new = conf_new;
          transfer = transfer;
          remask = remask;
        })
