-- ===== src/LocalStep/Transfer.antt =====
-- Which positions a step commits.
use native.Mathlib.Nat.{div-add-mod, mod-lt}
use ded_swarm.Base.{
  ℕ, zero, suc, ◌+◌, ◌-◌, ◌*◌, ◌≤◌, ◌<◌, ◌≡◌, refl, ap, subst, ◌∙◌, inl, inr, Bool, true, false,
  not, ◌&&◌, List, map, contains, nat_eq, length, ltb, some, arith, Bool-cases, IsSetList,
}
use ded_swarm.Base.Ranges.{upto, range, count, get_elem?, count-le-length, length-upto}
use ded_swarm.Base.Pigeonhole.{left_out}
use ded_swarm.Float.{Float}
use ded_swarm.Torch.{Torch, IsTorch}
use ded_swarm.LocalStep.{
  StepConfig, StepArgs, is_frozen, ceil_div, is_masked, in_block, p, x0, conf_new, conf_in_block,
  conf_new_masked, remaining, transfer_count, transfer_idx, transfer,
}

module _ {F : Type 0} where
  get-map : (g : ℕ → F) (n i j : ℕ) → j < n → get_elem? (map g (upto n i)) j ≡ some (g (i + j))
  get-map g zero i j h = absurd (omega arith)
  get-map g (suc n) i zero h = ap (λ k. some (g k)) (omega arith)
  get-map g (suc n) i (suc j) h =
      get-map g n (i + 1) j (omega arith) ∙ ap (λ k. some (g k)) (omega arith)

  length-map-upto : (g : ℕ → F) (n i : ℕ) → length (map g (upto n i)) ≡ n
  length-map-upto g zero i = refl
  length-map-upto g (suc n) i = ap suc (length-map-upto g n (i + 1))

ceil_div-le : (n d : ℕ) → 0 < d → n ≤ ceil_div n d * d
ceil_div-le n d pos = omega (arith, div-add-mod (n + (d - 1)) d, mod-lt (n + (d - 1)) pos)

le-mul : (n d : ℕ) → 0 < d → n ≤ n * d
le-mul n d h = grind arith

module _ {F : Type 0} ⦃f : Float F⦄ (torch : Torch F) (cfg : StepConfig F) (a : StepArgs F) where
  -- What a step may commit: a mask of its block, not frozen.
  abbrev pub is_open : ℕ → Bool
  is_open pos =
      (is_masked torch cfg a pos && in_block torch cfg a pos) && not (is_frozen a.frozen_from pos)

module _ {F : Type 0} ⦃f : Float F⦄ (torch : Torch F) (laws : IsTorch F torch) (cfg : StepConfig F)
    (a : StepArgs F) where
  open_value :
      (pos : ℕ)
      → (is_open torch cfg a) pos ≡ true
      → f.le (conf_new_masked torch cfg a pos) torch.neg_inf ≡ false
  unfolding conf_new_masked conf_in_block conf_new p
  open_value pos h = ground (
    arith,
    laws.softmax_finite (a.logits pos) (x0 torch cfg a pos),
    laws.softmax_penalty (a.logits pos) (x0 torch cfg a pos),
  )

  shut_value :
      (pos : ℕ)
      → (is_open torch cfg a) pos ≡ false
      → conf_new_masked torch cfg a pos ≡ torch.neg_inf
  unfolding conf_new_masked conf_in_block
  shut_value pos h = ground (arith, laws.neg_inf_penalty)

  pub transfer_count-le-remaining : transfer_count torch cfg a ≤ remaining torch cfg a
  unfolding transfer_count
  transfer_count-le-remaining = ground arith

  remaining-le-seq_len : remaining torch cfg a ≤ a.seq_len
  unfolding remaining
  remaining-le-seq_len = omega (
    arith,
    count-le-length (λ pos. is_masked torch cfg a pos && in_block torch cfg a pos)
        (range a.seq_len),
    length-upto a.seq_len 0,
  )

  abbrev values : List F
  values = map (conf_new_masked torch cfg a) (range a.seq_len)

  few : transfer_count torch cfg a ≤ length values
  few = omega (
    arith,
    transfer_count-le-remaining,
    remaining-le-seq_len,
    length-map-upto (conf_new_masked torch cfg a) a.seq_len 0,
  )

  -- The number of positions that a step commits.
  pub length-transfer_idx : length (transfer_idx torch cfg a) ≡ transfer_count torch cfg a
  unfolding transfer_idx
  length-transfer_idx = ground (arith, laws.topk_count values (transfer_count torch cfg a) few)

  pub transfer_idx-IsSetList : IsSetList (transfer_idx torch cfg a)
  unfolding transfer_idx
  transfer_idx-IsSetList = elim (Bool-cases (ltb 0 (transfer_count torch cfg a))) [
    | inl e ↦ rw e (laws.topk_distinct values (transfer_count torch cfg a) few)
    | inr e ↦ rw e tt
  ]

  pub transfer-lt-seq_len : (pos : ℕ) → transfer torch cfg a pos ≡ true → pos < a.seq_len
  unfolding transfer transfer_idx
  transfer-lt-seq_len pos h = ground (
    arith,
    few,
    laws.topk_in_range values (transfer_count torch cfg a) pos few,
    length-map-upto (conf_new_masked torch cfg a) a.seq_len 0,
  )

  pub transfer_count-ge :
      0 < a.steps_remaining → remaining torch cfg a ≤ transfer_count torch cfg a * a.steps_remaining
  unfolding transfer_count
  transfer_count-ge h = ground (
    arith,
    ceil_div-le (remaining torch cfg a) a.steps_remaining h,
    le-mul (remaining torch cfg a) a.steps_remaining h,
  )

  -- A step commits its share of the masks that the block still has: no more than there are, enough
  -- to be done in the steps that remain, each position once, and within the row.
  pub transfer_count_bounds :
      0 < a.steps_remaining
      → (length (transfer_idx torch cfg a) ≤ remaining torch cfg a)
        × (remaining torch cfg a ≤ length (transfer_idx torch cfg a) * a.steps_remaining)
        × IsSetList (transfer_idx torch cfg a)
        × ((pos : ℕ) → contains (transfer_idx torch cfg a) pos ≡ true → pos < a.seq_len)
  unfolding transfer
  transfer_count_bounds h = (
    omega (arith, length-transfer_idx, transfer_count-le-remaining),
    rw length-transfer_idx (transfer_count-ge h),
    transfer_idx-IsSetList,
    transfer-lt-seq_len,
  )

  chosen :
      (pos : ℕ)
      → contains (transfer_idx torch cfg a) pos ≡ true
      → transfer_idx torch cfg a ≡ torch.topk values (transfer_count torch cfg a)
  unfolding transfer_idx
  chosen pos h = ground arith

  -- What a step leaves has no greater value than what it commits.
  pub left-le-committed :
      (pos j : ℕ)
      → transfer torch cfg a pos ≡ true
      → j < a.seq_len
      → transfer torch cfg a j ≡ false
      → f.le (conf_new_masked torch cfg a j) (conf_new_masked torch cfg a pos) ≡ true
  unfolding transfer
  left-le-committed pos j h lt out =
      laws.topk_largest values (transfer_count torch cfg a) pos j (conf_new_masked torch cfg a pos)
        (conf_new_masked torch cfg a j) few (subst (λ rs. contains rs pos ≡ true) (chosen pos h) h)
        (subst (λ rs. contains rs j ≡ false) (chosen pos h) out)
        (get-map (conf_new_masked torch cfg a) a.seq_len 0 pos (transfer-lt-seq_len pos h)
          ∙ ap (λ k. some (conf_new_masked torch cfg a k)) (omega arith))
        (get-map (conf_new_masked torch cfg a) a.seq_len 0 j lt
          ∙ ap (λ k. some (conf_new_masked torch cfg a k)) (omega arith))

  -- If the block has as many open positions as the step commits, it commits only such.
  pub transfer-is_open :
      (pos : ℕ)
      → transfer_count torch cfg a ≤ count (is_open torch cfg a) (range a.seq_len)
      → transfer torch cfg a pos ≡ true
      → (is_open torch cfg a) pos ≡ true
  unfolding transfer
  transfer-is_open pos enough h = elim (Bool-cases ((is_open torch cfg a) pos)) [
    | inl e ↦ e
    | inr e ↦
        let (j, lt, o, out) =
          left_out (is_open torch cfg a) (transfer_idx torch cfg a) a.seq_len pos e h
            (omega (arith, length-transfer_idx, enough)) in
        absurd (ground (arith, left-le-committed pos j h lt out, open_value j o, shut_value pos e))
  ]
