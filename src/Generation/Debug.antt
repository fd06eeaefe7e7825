-- ===== src/Generation/Debug.antt =====
-- node/generation.py: `debug_topk` and `debug_distribution`, which print what the model thinks of the
-- masked positions of a block. What is printed is a value: the numbers and texts of each line.
-- `decode` stands for the tokenizer's `decode` and `width` for the size of the vocabulary.
pub mod Sampled
use ded_swarm.Base.{
  ℕ, zero, suc, ◌+◌, ◌-◌, ◌%◌, Bool, true, ◌&&◌, List, [], ◌∷◌, ◌==◌, nat_eq, map, String, Option,
  none, some, if◌then◌else◌, leb, ltb,
}
use ded_swarm.Base.Ranges.{range, upto, filter, count}
use ded_swarm.Float.{Float}
use ded_swarm.Torch.{Row, Torch}
use ded_swarm.LocalStep.{Stepped}
use ded_swarm.Generation.Loop.{RoundArgs, Run, gen_end, block_start, block_end}

abbrev pub verbose : Bool
verbose = true

abbrev pub debug_every : ℕ
debug_every = 8

-- `xs[:n]`
abbrev pub take {ℓ} : {A : Type ℓ} → ℕ → List A → List A
take zero xs = []
take (suc n) [] = []
take (suc n) (x ∷ xs) = x ∷ take n xs

-- The arguments of both functions that they read.
pub record DebugArgs (F : Type 0) : Type 0 where
  pub seq_len : ℕ
  pub p : Row (Row F)
  pub mask_index : ℕ → Bool
  pub block_start : ℕ
  pub block_end : ℕ
  pub steps_remaining : ℕ
  pub eos_id : ℕ

-- A line of `debug_topk`, and one of `debug_distribution`.
pub record TopLine (F : Type 0) : Type 0 where
  pub pos : ℕ
  pub top : List (String × F)
  pub eos_prob : F
  pub margin : F

pub record DistributionLine (F : Type 0) : Type 0 where
  pub pos : ℕ
  pub max_prob : F
  pub entropy : F
  pub top : List (String × F)
  pub eos_prob : F

-- What one of the functions prints: its header with the steps that remain, and its lines.
pub record Printed (L : Type 0) : Type 0 where
  pub steps_remaining : ℕ
  pub lines : List L

module _ {F : Type 0} where
  -- `masked_pos`, inside the block
  unfoldable pub masked_pos : DebugArgs F → List ℕ
  masked_pos a =
      filter (λ pos. leb a.block_start pos && ltb pos a.block_end)
        (filter a.mask_index (range a.seq_len))

module _ {F : Type 0} ⦃f : Float F⦄ (torch : Torch F) (decode : List ℕ → String) (width : ℕ)
    (a : DebugArgs F) where
  -- `t.clamp_min(1e-12)`
  unfoldable pub clamp_min : F → F
  clamp_min t = if f.lt t torch.tiny then torch.tiny else t

  -- The three likeliest tokens at a position, with their probabilities.
  unfoldable pub top_tokens : ℕ → List (String × F)
  top_tokens pos =
      map (λ tid. (decode (tid ∷ []), a.p pos tid)) (torch.topk (map (a.p pos) (range width)) 3)

  unfoldable pub best_non_eos : ℕ → F
  best_non_eos pos =
      let others : Row F = λ v. if v == a.eos_id then f.zero else a.p pos v in
      clamp_min (torch.max_over others)

  unfoldable pub top_line : ℕ → TopLine F
  unfolding clamp_min best_non_eos
  top_line pos = record {
    pos = pos;
    top = top_tokens pos;
    eos_prob = a.p pos a.eos_id;
    margin = f.sub (torch.log (clamp_min (a.p pos a.eos_id))) (torch.log (best_non_eos pos));
  }

  -- `-torch.sum(probs * torch.log(probs.clamp_min(1e-12)), dim=-1)`
  unfoldable pub entropy : (Row F → F) → ℕ → F
  entropy sum pos =
      let terms : Row F = λ v. torch.mul (a.p pos v) (torch.log (clamp_min (a.p pos v))) in
      torch.neg (sum terms)

  unfoldable pub distribution_line : (Row F → F) → ℕ → DistributionLine F
  distribution_line sum pos = record {
    pos = pos;
    max_prob = torch.max_over (a.p pos);
    entropy = entropy sum pos;
    top = top_tokens pos;
    eos_prob = a.p pos a.eos_id;
  }

  -- `none` where nothing is printed.
  unfoldable pub debug_topk : Option (Printed (TopLine F))
  debug_topk =
      if verbose
      then elim (take 5 (masked_pos a)) [
        | [] ↦ none
        | pos ∷ sample ↦
            some
              (record { steps_remaining = a.steps_remaining; lines = map top_line (pos ∷ sample) })
      ]
      else none

  -- `sum` stands for `torch.sum` along the vocabulary.
  unfoldable pub debug_distribution : (Row F → F) → Option (Printed (DistributionLine F))
  debug_distribution sum =
      if verbose
      then elim (masked_pos a) [
        | [] ↦ none
        | pos ∷ rest ↦ some (record {
          steps_remaining = a.steps_remaining;
          lines = map (distribution_line sum) (take 10 (pos ∷ rest));
        })
      ]
      else none

-- What `run_round` prints at a step.
pub record StepPrint (F : Type 0) : Type 0 where
  pub top : Option (Printed (TopLine F))
  pub distribution : Option (Printed (DistributionLine F))
  pub masks_remain : Option ℕ

module _ {F : Type 0} (a : RoundArgs F) (block_idx step_idx : ℕ) where
  -- The arguments at a step: `r` is the run before it, `s` what `local_step` returned. What is masked
  -- is read off the row before the step.
  unfoldable pub debug_args : Run F → Stepped F → DebugArgs F
  debug_args r s = record {
    seq_len = gen_end a;
    p = s.p;
    mask_index = λ pos. r.x pos == a.cfg.step_cfg.mask_id;
    block_start = block_start a block_idx;
    block_end = block_end a block_idx;
    steps_remaining = a.steps_per_block - step_idx;
    eos_id = a.cfg.step_cfg.eos_id;
  }

  -- `(x[0, block_start:block_end] == mask_id).sum()`
  unfoldable pub n_masked : Stepped F → ℕ
  n_masked s =
      count (λ pos. s.x pos == a.cfg.step_cfg.mask_id)
        (upto (block_end a block_idx - block_start a block_idx) (block_start a block_idx))

  module _ ⦃f : Float F⦄ (torch : Torch F) (decode : List ℕ → String) (width : ℕ)
      (sum : Row F → F) where
    unfoldable pub step_print : Run F → Stepped F → StepPrint F
    step_print r s = record {
      top =
          if verbose && (step_idx % debug_every == 0)
          then debug_topk torch decode width (debug_args r s)
          else none;
      distribution =
          if verbose && (step_idx % debug_every == 0)
          then debug_distribution torch decode width (debug_args r s) sum
          else none;
      masks_remain =
          if verbose && ((step_idx + 1) % debug_every == 0) then some (n_masked s) else none;
    }
