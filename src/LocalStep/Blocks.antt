-- ===== src/LocalStep/Blocks.antt =====
-- What a step leaves of its block, and of the rest of the row.
use ded_swarm.Base.{
  ℕ, ◌≤◌, ◌<◌, ◌≡◌, ◌≢◌, inl, inr, Bool, true, false, not, ◌&&◌, contains, nat_eq, arith,
  Bool-cases, ok, any,
}
use ded_swarm.Base.Ranges.{range, count, count-le-count, any-false, any-upto, not-any-upto}
use ded_swarm.Base.Pigeonhole.{none_left, length-le-count}
use ded_swarm.Float.{Float}
use ded_swarm.Torch.{Row, Torch, IsTorch}
use ded_swarm.LocalStep.{
  StepConfig, StepArgs, Stepped, is_frozen, add_gumbel_noise, is_masked, in_block, x0, remaining,
  transfer_count, transfer_idx, transfer, local_step,
}
use ded_swarm.LocalStep.Transfer.{
  is_open, length-transfer_idx, transfer_idx-IsSetList, transfer-lt-seq_len,
  transfer_count-le-remaining, transfer_count-ge, transfer-is_open,
}
use ded_swarm.LocalStep.Remask.{remask-low_conf}

module _ {F : Type 0} ⦃f : Float F⦄ (torch : Torch F) (laws : IsTorch F torch) (cfg : StepConfig F)
    (a : StepArgs F) where
  -- The frozen boundary does not cut the block.
  abbrev pub IsWhole : Type 0
  IsWhole = (pos : ℕ) → in_block torch cfg a pos ≡ true → is_frozen a.frozen_from pos ≡ false

  whole_count : IsWhole → remaining torch cfg a ≤ count (is_open torch cfg a) (range a.seq_len)
  unfolding remaining
  whole_count whole =
      count-le-count (λ pos. is_masked torch cfg a pos && in_block torch cfg a pos)
        (is_open torch cfg a) (range a.seq_len)
        (any-false _ (λ pos. ground (arith, whole pos)) (range a.seq_len))

  whole_transfer :
      IsWhole → (pos : ℕ) → transfer torch cfg a pos ≡ true → is_open torch cfg a pos ≡ true
  whole_transfer whole pos h =
      transfer-is_open torch laws cfg a pos
        (omega (arith, transfer_count-le-remaining torch laws cfg a, whole_count whole)) h

  -- In a block that the frozen boundary does not cut, a step commits masks of the block only, and
  -- reopens settled positions of the block only: what stands outside keeps its token, and what it
  -- commits is the model's guess.
  pub local_step-outside :
      (s : Stepped F) (pos : ℕ)
      → IsWhole
      → local_step torch cfg a ≡ ok s
      → (in_block torch cfg a pos ≡ false → s.x pos ≡ a.x pos)
        × (s.transfer pos ≡ true → (a.x pos ≡ cfg.mask_id) × (s.x pos ≡ s.x0 pos))
        × (s.remask pos ≡ true → (a.x pos ≢ cfg.mask_id) × (s.x pos ≡ cfg.mask_id))
  unfolding local_step is_masked
  local_step-outside s pos whole run =
      ground (arith, whole_transfer whole pos, remask-low_conf torch cfg a pos)

  whole_last :
      (pos : ℕ)
      → IsWhole
      → a.steps_remaining ≡ 1
      → pos < a.seq_len
      → in_block torch cfg a pos ≡ true
      → is_masked torch cfg a pos ≡ true
      → transfer torch cfg a pos ≡ true
  unfolding transfer remaining
  whole_last pos whole last lt inside masked =
      none_left (λ q. is_masked torch cfg a q && in_block torch cfg a q) (transfer_idx torch cfg a)
        a.seq_len pos (transfer_idx-IsSetList torch laws cfg a)
        (λ r h.
          (ground (arith, whole_transfer whole r h), transfer-lt-seq_len torch laws cfg a r h))
        (ground
          (arith, transfer_count-ge torch laws cfg a, length-transfer_idx torch laws cfg a, last))
        (ground arith) lt

  -- The last step of a block leaves no mask in it, if the frozen boundary does not cut the block and
  -- the model's guesses are not the mask itself.
  pub local_step-completes :
      (s : Stepped F) (pos : ℕ)
      → IsWhole
      → a.steps_remaining ≡ 1
      → local_step torch cfg a ≡ ok s
      → pos < a.seq_len
      → in_block torch cfg a pos ≡ true
      → s.x0 pos ≢ cfg.mask_id
      → s.x pos ≢ cfg.mask_id
  unfolding local_step is_masked
  local_step-completes s pos whole last run lt inside guess =
      ground (arith, whole_last pos whole last lt inside, remask-low_conf torch cfg a pos)

  -- A guess is an argmax, of the logits or of what the noise made of them.
  pub local_step-argmax :
      (s : Stepped F) (pos : ℕ)
      → local_step torch cfg a ≡ ok s
      → (l : Row F) × (s.x0 pos ≡ torch.argmax l)
  unfolding local_step x0
  local_step-argmax s pos run =
      (add_gumbel_noise torch cfg (a.logits pos) (a.noise pos), ground arith)

  -- Where the frozen boundary leaves the block fewer open positions than the step commits, the step
  -- commits a position that is not open: one outside the block, settled, or past the boundary.
  pub transfer_overflow :
      0 < a.steps_remaining
      → count (is_open torch cfg a) (range a.seq_len) < transfer_count torch cfg a
      → (pos : ℕ) × (pos < a.seq_len)
        × (transfer torch cfg a pos ≡ true)
        × (is_open torch cfg a pos ≡ false)
  unfolding transfer
  transfer_overflow h few =
      let spills : ℕ → Bool =
        λ pos. contains (transfer_idx torch cfg a) pos && not (is_open torch cfg a pos) in
      elim (Bool-cases (any spills (range a.seq_len))) [
        | inl e ↦
            let (pos, k, _, lt) = any-upto spills a.seq_len 0 e in
            (pos, omega arith, ground arith, ground arith)
        | inr e ↦ absurd (
            omega (
              arith,
              few,
              length-transfer_idx torch laws cfg a,
              length-le-count (is_open torch cfg a) (transfer_idx torch cfg a) a.seq_len
                  (transfer_idx-IsSetList torch laws cfg a)
                  (λ r there. (
                    ground (
                      arith,
                      not-any-upto spills a.seq_len 0 r e (omega arith),
                      transfer-lt-seq_len torch laws cfg a r there,
                    ),
                    transfer-lt-seq_len torch laws cfg a r there,
                  )),
            ))
      ]
