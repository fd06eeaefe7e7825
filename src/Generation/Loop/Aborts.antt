-- ===== src/Generation/Loop/Aborts.antt =====
-- A round that fails while `run_round` generates.
use ded_swarm.Base.{
  ℕ, zero, suc, ◌/◌, ◌≤◌, ◌≡◌, refl, true, List, [], nat_eq, string_eq, none, some, ok, arith,
}
use ded_swarm.Float.{Float}
use ded_swarm.Torch.{Row, Torch}
use ded_swarm.Consensus.{Token, TokenSet}
use ded_swarm.Round.{RoundManager, RoundState, check_leader_timeout}
use ded_swarm.Round.Timeout.{Overdue}
use ded_swarm.Swarm.{SwarmNode, pump_once}
use ded_swarm.Generation.Loop.{
  Run, RoundArgs, GenConfig, Moment, aborted, gave_up, go_on, polled, step, run_steps, run_blocks,
  begin, round_args, finish, run_round,
}
use ded_swarm.Generation.Loop.Completes.{div-is_pos}

module _ {F : Type 0} ⦃f : Float F⦄ where
  -- A manager that has let go of its round.
  abbrev pub freed : SwarmNode F → SwarmNode F
  freed n = record n { round_mgr = record n.round_mgr { active_round = none } }

  pub check_leader_timeout-Overdue :
      (m : RoundManager F) (now : F)
      → Overdue m now
      → ((check_leader_timeout m now).0 ≡ record m { active_round = none })
        × ((check_leader_timeout m now).1 ≡ true)
  unfolding check_leader_timeout
  check_leader_timeout-Overdue m now (r, h, s, other, late) = (ground arith, ground arith)

module _ {F : Type 0} ⦃f : Float F⦄ (torch : Torch F) (iter : TokenSet → List Token)
    (a : RoundArgs F) where
  step-aborted :
      (block_idx step_idx : ℕ) (r : Run F)
      → (a.moment block_idx step_idx).tick.env ≡ none
      → Overdue r.node.round_mgr (a.moment block_idx step_idx).checked
      → step torch iter a block_idx step_idx r ≡ ok (aborted (freed r.node) r.published)
  unfolding step polled pump_once
  step-aborted block_idx step_idx r quiet overdue = ground (
    arith,
    quiet,
    check_leader_timeout-Overdue r.node.round_mgr (a.moment block_idx step_idx).checked overdue,
  )

  run_steps-aborted :
      (block_idx left step_idx : ℕ) (r : Run F)
      → 1 ≤ left
      → (a.moment block_idx step_idx).tick.env ≡ none
      → Overdue r.node.round_mgr (a.moment block_idx step_idx).checked
      → run_steps torch iter a block_idx left step_idx r ≡ ok (aborted (freed r.node) r.published)
  unfolding run_steps go_on
  run_steps-aborted block_idx zero step_idx r some_ quiet overdue = absurd (omega arith)
  run_steps-aborted block_idx (suc left) step_idx r some_ quiet overdue =
      rw (step-aborted block_idx step_idx r quiet overdue) refl

  run_blocks-aborted :
      (left block_idx : ℕ) (r : Run F)
      → 1 ≤ left
      → 1 ≤ a.steps_per_block
      → r.frozen_from ≡ none
      → (a.moment block_idx 0).tick.env ≡ none
      → Overdue r.node.round_mgr (a.moment block_idx 0).checked
      → run_blocks torch iter a left block_idx r ≡ ok (aborted (freed r.node) r.published)
  unfolding run_blocks go_on
  run_blocks-aborted zero block_idx r some_ many unset quiet overdue = absurd (omega arith)
  run_blocks-aborted (suc left) block_idx r some_ many unset quiet overdue = ground (
    arith,
    unset,
    run_steps-aborted block_idx a.steps_per_block 0
        (record r { age = λ pos. 0; pending_commits = [] }) many quiet overdue,
  )

module _ {F : Type 0} ⦃f : Float F⦄ (torch : Torch F) (iter : TokenSet → List Token) where
  -- A follower that polls, reads nothing, and has not heard of the round's leader for longer than
  -- the timeout gives up at its first step: `run_round` returns no text, publishes nothing,
  -- and leaves the node without a round and unchanged otherwise.
  pub run_round_aborts :
      (n : SwarmNode F) (state : RoundState F) (model : Row ℕ → Row (Row F))
      (moment : ℕ → ℕ → Moment F) (prompt_ids : List Token) (cfg : GenConfig F)
      → n.round_mgr.active_round ≡ some state
      → (moment 0 0).tick.env ≡ none
      → Overdue n.round_mgr (moment 0 0).checked
      → 1 ≤ cfg.block_length
      → cfg.block_length ≤ cfg.gen_length
      → cfg.gen_length / cfg.block_length ≤ cfg.steps
      → run_round torch iter n model moment prompt_ids cfg
        ≡ ok (gave_up (record n { round_mgr = record n.round_mgr { active_round = none } }) [])
  unfolding run_round round_args begin finish
  run_round_aborts n state model moment prompt_ids cfg active quiet overdue some_ fits many =
      let a = round_args n state model moment prompt_ids cfg in
      let blocks = div-is_pos cfg.gen_length cfg.block_length some_ fits in
      let steps = div-is_pos cfg.steps (cfg.gen_length / cfg.block_length) blocks many in
      let run =
        run_blocks-aborted torch iter a (cfg.gen_length / cfg.block_length) 0
          (begin n prompt_ids cfg) blocks steps refl quiet overdue in
      ground arith
