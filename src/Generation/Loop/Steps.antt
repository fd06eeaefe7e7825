-- ===== src/Generation/Loop/Steps.antt =====
-- The steps and the blocks of `run_round`: what each leaves in the shared state.
use ded_swarm.Base.{
  ℕ, zero, suc, ◌+◌, ◌≤◌, ◌<◌, ◌≡◌, ◌≢◌, inl, inr, refl, Bool, true, false, List, [], ◌==◌, nat_eq,
  string_eq, ltb, contains, Result, ok, raise, ◌>>=◌, >>=-eq-ok, arith, Bool-cases,
}
use ded_swarm.Float.{Float}
use ded_swarm.Torch.{Row, Torch, IsTorch}
use ded_swarm.Consensus.{Token, TokenSet}
use ded_swarm.Consensus.Adopt.{IsIteration}
use ded_swarm.Round.{check_leader_timeout}
use ded_swarm.Swarm.{SwarmNode, pump_once}
use ded_swarm.LocalStep.{local_step}
use ded_swarm.Generation.Loop.{
  Run, RoundArgs, Progress, going, aborted, waiting, gen_end, block_start, sync_due, step_args,
  sync_if, step_going, go_on, polled, step, run_steps, run_blocks,
}
use ded_swarm.Generation.Loop.Settled.{
  has_key, IsHeld, Grows, IsSettled, after_local, after_local-IsHeld, local_completes,
  sync_if-IsHeld,
}

>>=-go_on-eq-going :
    {F : Type 0} (e : Result (Progress F)) (k : Run F → Result (Progress F)) (r' : Run F)
    → (e >>= go_on k) ≡ ok (going r')
    → (r : Run F) × (e ≡ ok (going r)) × (k r ≡ ok (going r'))
unfolding go_on
>>=-go_on-eq-going (ok (going r)) k r' run = (r, refl, run)
>>=-go_on-eq-going (ok (aborted n published)) k r' run = cc
>>=-go_on-eq-going (ok waiting) k r' run = cc
>>=-go_on-eq-going (raise x) k r' run = cc

module _ {F : Type 0} (a : RoundArgs F) where
  due_at_last :
      (step_idx : ℕ) (due : Bool)
      → sync_due a step_idx ≡ ok due
      → step_idx + 1 ≡ a.steps_per_block
      → due ≡ true
  unfolding sync_due
  due_at_last step_idx due run last = ground arith

  -- The run's node is not part of what the loop keeps.
  IsHeld-node : (r : Run F) (n : SwarmNode F) → IsHeld a r → IsHeld a (record r { node = n })
  IsHeld-node r n h = record {
    held = h.held;
    unset = h.unset;
    unfrozen = h.unfrozen;
    same_cfg = h.same_cfg;
  }

  -- Every position before the block is shared, and no commit is pending.
  abbrev pub Before : ℕ → Run F → Type 0
  Before block_idx r =
      ((pos : ℕ) → pos < gen_end a → pos < block_start a block_idx → has_key pos r.shared_x ≡ true)
      × (r.pending_commits ≡ [])

module _ {F : Type 0} ⦃f : Float F⦄ (torch : Torch F) (laws : IsTorch F torch)
    (iter : TokenSet → List Token) (law : IsIteration iter) (a : RoundArgs F)
    (alone : contains a.other_participants a.id ≡ false)
    (long : a.cfg.gen_length ≤ a.cfg.stop_cfg.min_gen_length)
    (guess : (l : Row F) → torch.argmax l ≢ a.cfg.step_cfg.mask_id) where
  -- What a step, or several, leave of a run.
  abbrev Kept : Run F → Run F → Type 0
  Kept r r' = IsHeld a r' × Grows a r.shared_x r'.shared_x

  step_going-IsHeld :
      (block_idx step_idx : ℕ) (r r' : Run F)
      → step_going torch iter a block_idx step_idx r ≡ ok (going r')
      → IsHeld a r
      → Kept r r' × (step_idx + 1 ≡ a.steps_per_block → IsSettled a block_idx r')
  unfolding step_going after_local
  step_going-IsHeld block_idx step_idx r r' run h =
      let (s, stepped, rest) =
        >>=-eq-ok (local_step torch a.cfg.step_cfg (step_args torch iter a block_idx step_idx r))
          (λ s. sync_due a step_idx >>= λ due.
            sync_if torch iter a block_idx step_idx s.p (after_local a r s) due)
          run in
      let r1 = after_local a r s in
      let (due, is_due, synced) =
        >>=-eq-ok (sync_due a step_idx) (sync_if torch iter a block_idx step_idx s.p r1) rest in
      let h1 =
        after_local-IsHeld torch laws iter law a alone long guess block_idx step_idx r s stepped
          h in
      let (kept, grows, settles) =
        sync_if-IsHeld torch laws iter law a alone long guess block_idx step_idx s.p r1 r' due
          synced h1 in
      (
        (kept, grows),
        λ last.
            let (shares, none_left) = settles (due_at_last a step_idx due is_due last) in
            (
              λ pos lt inside. shares pos (
                  h1.held pos lt (
                    ground (
                      arith,
                      local_completes torch laws iter law a alone long guess block_idx step_idx r s
                          pos stepped h (omega arith) lt inside,
                    ))),
              none_left,
            ),
      )

  polled-IsHeld :
      (block_idx step_idx : ℕ) (r r' : Run F) (n : SwarmNode F)
      → polled torch iter a block_idx step_idx r n ≡ ok (going r')
      → IsHeld a r
      → Kept r r' × (step_idx + 1 ≡ a.steps_per_block → IsSettled a block_idx r')
  unfolding polled
  polled-IsHeld block_idx step_idx r r' n run h =
      let checked = check_leader_timeout n.round_mgr (a.moment block_idx step_idx).checked in
      let n' : SwarmNode F = record n { round_mgr = checked.0 } in
      let going_on : step_going torch iter a block_idx step_idx (record r { node = n' })
          ≡ ok (going r') =
        ground arith in
      step_going-IsHeld block_idx step_idx (record r { node = n' }) r' going_on
        (IsHeld-node a r n' h)

  run_steps-IsHeld :
      (block_idx left step_idx : ℕ) (r r' : Run F)
      → run_steps torch iter a block_idx left step_idx r ≡ ok (going r')
      → IsHeld a r
      → step_idx + left ≡ a.steps_per_block
      → Kept r r' × (1 ≤ left → IsSettled a block_idx r')
  unfolding run_steps step
  run_steps-IsHeld block_idx zero step_idx r r' run h total =
      let same : r ≡ r' = cc in rw (← same) ((h, λ pos k. k), λ lt. absurd (omega arith))
  run_steps-IsHeld block_idx (suc left) step_idx r r' run h total =
      let (r1, first, rest) =
        >>=-go_on-eq-going (step torch iter a block_idx step_idx r)
          (λ r'. run_steps torch iter a block_idx left (step_idx + 1) r') r' run in
      let (n, _, polls) =
        >>=-eq-ok (pump_once r.node (a.moment block_idx step_idx).tick)
          (polled torch iter a block_idx step_idx r) first in
      let ((held, grows), settled) = polled-IsHeld block_idx step_idx r r1 n polls h in
      let ((held', grows'), settled') =
        run_steps-IsHeld block_idx left (step_idx + 1) r1 r' rest held (omega arith) in
      (
        (held', λ pos k. grows' pos (grows pos k)),
        λ _. elim (Bool-cases (left == 0)) [
          | inl e ↦ rw (← ran_out left r1 r' (ground arith) rest) (settled (ground arith))
          | inr e ↦ settled' (ground arith)
        ],
      )
    where
      ran_out :
          (left : ℕ) (r1 r' : Run F)
          → left ≡ 0
          → run_steps torch iter a block_idx left (step_idx + 1) r1 ≡ ok (going r')
          → r1 ≡ r'
      ran_out zero r1 r' e rest = cc
      ran_out (suc left) r1 r' e rest = absurd (omega arith)

  run_block-IsHeld :
      (block_idx : ℕ) (r r' : Run F)
      → run_steps torch iter a block_idx a.steps_per_block 0
          (record r { age = λ pos. 0; pending_commits = [] })
        ≡ ok (going r')
      → 1 ≤ a.steps_per_block
      → IsHeld a r
      → Before a block_idx r
      → IsHeld a r' × Before a (block_idx + 1) r'
  run_block-IsHeld block_idx r r' run many h (before, none_left) =
      let r1 : Run F = record r { age = λ pos. 0; pending_commits = [] } in
      let h1 : IsHeld a r1 = record {
        held = λ pos lt shown. ground (arith, h.held pos lt shown);
        unset = h.unset;
        unfrozen = h.unfrozen;
        same_cfg = h.same_cfg;
      } in
      let ((held, grows), settled) =
        run_steps-IsHeld block_idx a.steps_per_block 0 r1 r' run h1 (omega arith) in
      let (shares, none_left') = settled many in
      (
        held,
        (
          λ pos lt past. elim (Bool-cases (ltb pos (block_start a block_idx))) [
            | inl e ↦ grows pos (before pos lt (ground arith))
            | inr e ↦ shares pos lt (ground arith)
          ],
          none_left',
        ),
      )

  pub run_blocks-IsHeld :
      (left block_idx : ℕ) (r r' : Run F)
      → run_blocks torch iter a left block_idx r ≡ ok (going r')
      → 1 ≤ a.steps_per_block
      → IsHeld a r
      → Before a block_idx r
      → IsHeld a r' × Before a (block_idx + left) r'
  unfolding run_blocks
  run_blocks-IsHeld zero block_idx r r' run many h before =
      let same : r ≡ r' = cc in
      let stays : block_idx + 0 ≡ block_idx = omega arith in rw (← same, stays) (h, before)
  run_blocks-IsHeld (suc left) block_idx r r' run many h before =
      let (r1, first, rest) =
        >>=-go_on-eq-going
          (run_steps torch iter a block_idx a.steps_per_block 0
            (record r { age = λ pos. 0; pending_commits = [] }))
          (λ r'. run_blocks torch iter a left (block_idx + 1) r') r' (ground (arith, h.unfrozen)) in
      let (held, before') = run_block-IsHeld block_idx r r1 first many h before in
      let shift : block_idx + suc left ≡ (block_idx + 1) + left = omega arith in
      rw shift (run_blocks-IsHeld left (block_idx + 1) r1 r' rest many held before')
