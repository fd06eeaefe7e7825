-- ===== src/LocalStep/Remask.antt =====
-- Which positions a step reopens.
use ded_swarm.Base.{
  ℕ, zero, suc, ◌≤◌, ◌<◌, ◌≡◌, refl, ap, inl, inr, Bool, true, false, ◌&&◌, List, [], ◌∷◌, map,
  contains, nat_eq, length, leb, some, arith, Option-cases,
}
use ded_swarm.Base.Ranges.{range, filter, get_elem?}
use ded_swarm.Float.{Float}
use ded_swarm.Torch.{Torch, IsTorch}
use ded_swarm.LocalStep.{
  StepConfig, StepArgs, is_frozen, gather, is_masked, in_block, conf_current, eligible, low_conf,
  remask_cap, remask_idx, remask, allow_remask,
}

contains-get : (xs : List ℕ) (i x : ℕ) → get_elem? xs i ≡ some x → contains xs x ≡ true
contains-get [] i x h = cc
contains-get (y ∷ xs) zero x h = ground arith
contains-get (y ∷ xs) (suc i) x h = ground (arith, contains-get xs i x h)

contains-gather : (xs is : List ℕ) (x : ℕ) → contains (gather xs is) x ≡ true → contains xs x ≡ true
contains-gather xs [] x h = cc
contains-gather xs (i ∷ is) x h = elim (Option-cases (get_elem? xs i)) [
  | inl e ↦ ground (arith, contains-gather xs is x)
  | inr (y, e) ↦ ground (arith, contains-gather xs is x, contains-get xs i y e)
]

length-gather : (xs is : List ℕ) → length (gather xs is) ≤ length is
length-gather xs [] = omega arith
length-gather xs (i ∷ is) = ground (arith, length-gather xs is)

contains-filter :
    (p : ℕ → Bool) (xs : List ℕ) (x : ℕ) → contains (filter p xs) x ≡ (p x && contains xs x)
contains-filter p [] x = ground arith
contains-filter p (y ∷ xs) x = ground (arith, contains-filter p xs x)

module _ {F : Type 0} where
  length-map : (g : ℕ → F) (xs : List ℕ) → length (map g xs) ≡ length xs
  length-map g [] = refl
  length-map g (x ∷ xs) = ap suc (length-map g xs)

module _ {F : Type 0} ⦃f : Float F⦄ (torch : Torch F) (cfg : StepConfig F) (a : StepArgs F) where
  remask_idx-low_conf :
      (pos : ℕ) → contains (remask_idx torch cfg a) pos ≡ true → low_conf torch cfg a pos ≡ true
  unfolding remask_idx
  remask_idx-low_conf pos h =
      let idx = filter (low_conf torch cfg a) (range a.seq_len) in
      let worst =
        torch.topk (map (λ q. torch.neg (conf_current torch cfg a q)) idx)
          (remask_cap torch cfg a) in
      ground (
        arith,
        contains-gather idx worst pos,
        contains-filter (low_conf torch cfg a) (range a.seq_len) pos,
      )

  -- Only a settled position of the block is reopened, before the frozen boundary, old enough, and
  -- of a confidence below the threshold; and only while more steps are left, the current one
  -- included, than the reserve: the given fraction of the steps of a block, rounded, and at least 1.
  pub remask-low_conf :
      (pos : ℕ)
      → remask torch cfg a pos ≡ true
      → (is_masked torch cfg a pos ≡ false)
        × (in_block torch cfg a pos ≡ true)
        × (is_frozen a.frozen_from pos ≡ false)
        × (leb cfg.remask_min_age (a.age pos) ≡ true)
        × (f.lt (conf_current torch cfg a pos) cfg.remask_conf_threshold ≡ true)
        × (1 < a.steps_remaining)
        × (torch.round (torch.mul cfg.remask_reserve_frac (f.of_nat a.steps_per_block))
            < a.steps_remaining)
  unfolding remask low_conf eligible allow_remask
  remask-low_conf pos h = ground (arith, remask_idx-low_conf pos)

  module _ (laws : IsTorch F torch) where
    -- A step reopens at most the given fraction of what it may reopen, but one position always.
    pub length-remask_idx : length (remask_idx torch cfg a) ≤ remask_cap torch cfg a
    unfolding remask_idx
    length-remask_idx =
        let idx = filter (low_conf torch cfg a) (range a.seq_len) in
        let vals = map (λ q. torch.neg (conf_current torch cfg a q)) idx in
        ground (
          arith,
          length-gather idx (torch.topk vals (remask_cap torch cfg a)),
          laws.topk_count vals (remask_cap torch cfg a),
          length-map (λ q. torch.neg (conf_current torch cfg a q)) idx,
        )
