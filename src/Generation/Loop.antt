-- ===== src/Generation/Loop.antt =====
-- node/generation.py: `GenerationRunner.run_round`, the loop around `_do_sync`. What the world gives
-- at a step is a function of the block and the step: what the poll reads, the clock, the random
-- numbers, and the ticks of the two barriers if there is a sync.
mod State
pub mod Settled
pub mod Steps
pub mod Completes
pub mod Alone
pub mod Aborts
pub mod GivesUp
pub mod Turns
pub mod Together
pub use State.*
use ded_swarm.Base.{
  ℕ, zero, suc, ◌+◌, ◌-◌, ◌*◌, ◌/◌, ◌%◌, Bool, true, false, ◌&&◌, ◌||◌, List, [], ◌∷◌, ◌++◌, ◌==◌,
  nat_eq, string_eq, String, Option, none, some, if◌then◌else◌, ltb, leb, length, Result, ok, raise,
  ◌>>=◌, attribute_error, zero_division_error,
}
use ded_swarm.Base.Dict.{Dict, lookup, insert}
use ded_swarm.Base.Ranges.{range, upto, get_elem?}
use ded_swarm.Float.{Float}
use ded_swarm.Torch.{Row, Torch}
use ded_swarm.Protocol.{MsgType, gen_done, Payload, done_of}
use ded_swarm.Consensus.{Position, Token, TokenSet, Commit}
use ded_swarm.Stop
use ded_swarm.Stop.{StopConfig, StopDetector}
use ded_swarm.Round.{RoundState, check_leader_timeout, is_round_leader}
use ded_swarm.Swarm.{SwarmNode, Tick, pump_once, discard}
use ded_swarm.LocalStep.{StepConfig, StepArgs, Stepped, clamp_min, local_step, is_frozen}
use ded_swarm.Generation.{SyncArgs, Synced, do_sync}

module _ {F : Type 0} where
  abbrev pub gen_end : RoundArgs F → ℕ
  gen_end a = a.gen_start + a.cfg.gen_length

  abbrev pub block_start : RoundArgs F → ℕ → ℕ
  block_start a block_idx = a.gen_start + block_idx * a.cfg.block_length

  abbrev pub block_end : RoundArgs F → ℕ → ℕ
  block_end a block_idx = a.gen_start + (block_idx + 1) * a.cfg.block_length

  -- `for pos in torch.where(transfer[0])[0].tolist(): pending_commits[pos] = (...)`
  unfoldable pub add_transfers : Stepped F → List ℕ → Commit F → Commit F
  add_transfers s [] pending = pending
  add_transfers s (pos ∷ rest) pending =
      add_transfers s rest
        (if s.transfer pos then insert pos (s.x0 pos, s.conf_new pos) pending else pending)

  -- The token that the shared state has for a position of the block.
  unfoldable pub settled_at : RoundArgs F → ℕ → Dict Position Token → ℕ → Option Token
  settled_at a block_idx shared_x pos =
      if leb (block_start a block_idx) pos && ltb pos (block_end a block_idx)
      then lookup pos shared_x
      else none

  -- After a sync, the shared state overwrites the row inside the block.
  unfoldable pub adopt_shared : RoundArgs F → ℕ → Run F → Synced F → Run F
  adopt_shared a block_idx r s = record {
    node = s.node;
    x = λ pos. elim (settled_at a block_idx s.shared_x pos) [ none ↦ r.x pos | some token ↦ token ];
    age = λ pos. elim (settled_at a block_idx s.shared_x pos) [ none ↦ r.age pos | some _ ↦ 0 ];
    shared_x = s.shared_x;
    stop_detector = s.detector;
    frozen_from = s.detector.stop_pos;
    sync_seq = r.sync_seq + 1;
    pending_commits = [];
    published = r.published ++ s.published;
  }

  -- `(step_idx + 1) % gen_cfg.sync_every == 0 or is_last_step`
  unfoldable pub sync_due : RoundArgs F → ℕ → Result Bool
  sync_due a step_idx =
      if a.cfg.sync_every == 0
      then raise zero_division_error
      else ok (((step_idx + 1) % a.cfg.sync_every == 0) || (step_idx == a.steps_per_block - 1))

module _ {F : Type 0} where
  -- The rest of the loop runs only where it goes on.
  unfoldable pub go_on : (Run F → Result (Progress F)) → Progress F → Result (Progress F)
  go_on rest (going r) = rest r
  go_on rest (aborted n published) = ok (aborted n published)
  go_on rest waiting = ok waiting

module _ {F : Type 0} ⦃f : Float F⦄ (torch : Torch F) (iter : TokenSet → List Token)
    (a : RoundArgs F) where
  unfoldable pub step_args : ℕ → ℕ → Run F → StepArgs F
  step_args block_idx step_idx r = record {
    seq_len = gen_end a;
    x = r.x;
    age = r.age;
    logits = a.model r.x;
    noise = (a.moment block_idx step_idx).noise;
    steps_remaining = a.steps_per_block - step_idx;
    block_start = block_start a block_idx;
    block_end = block_end a block_idx;
    steps_per_block = a.steps_per_block;
    frozen_from = r.frozen_from;
  }

  unfoldable pub sync_args : Run F → Row (Row F) → SyncArgs F
  sync_args r p = record {
    id = a.id;
    round_id = a.round_id;
    sync_seq = r.sync_seq;
    other_participants = a.other_participants;
    my_commits = r.pending_commits;
    seq_len = gen_end a;
    vocab_size = torch.vocab_size;
    log_prob = λ pos tok. torch.log (clamp_min torch a.cfg.step_cfg (p pos tok));
    gen_start = a.gen_start;
    gen_end = gen_end a;
  }

  unfoldable pub after_sync : ℕ → Run F → Option (Synced F) → Result (Progress F)
  after_sync block_idx r none = ok waiting
  after_sync block_idx r (some s) = ok (going (adopt_shared a block_idx r s))

  -- The end of a step: a sync, if one is due.
  unfoldable pub sync_if : ℕ → ℕ → Row (Row F) → Run F → Bool → Result (Progress F)
  sync_if block_idx step_idx p r false = ok (going r)
  sync_if block_idx step_idx p r true =
      let m = a.moment block_idx step_idx in
      do_sync iter (sync_args r p) r.shared_x r.stop_detector m.started m.later m.ticks r.node
      >>= after_sync block_idx r

  unfoldable pub step_going : ℕ → ℕ → Run F → Result (Progress F)
  step_going block_idx step_idx r =
      local_step torch a.cfg.step_cfg (step_args block_idx step_idx r) >>= λ s.
      sync_due a step_idx >>= λ due.
      sync_if block_idx step_idx s.p
        (record r {
          x = s.x;
          age = s.age;
          pending_commits = add_transfers s (range (gen_end a)) r.pending_commits;
        })
        due

  -- After the poll: the round may have failed, which aborts the generation.
  unfoldable pub polled : ℕ → ℕ → Run F → SwarmNode F → Result (Progress F)
  polled block_idx step_idx r n =
      let (mgr, failed, _) =
        check_leader_timeout n.round_mgr (a.moment block_idx step_idx).checked in
      let n' : SwarmNode F = record n { round_mgr = mgr } in
      elim failed [
        | true ↦ ok (aborted n' r.published)
        | false ↦ step_going block_idx step_idx (record r { node = n' })
      ]

  unfoldable pub step : ℕ → ℕ → Run F → Result (Progress F)
  step block_idx step_idx r =
      pump_once r.node (a.moment block_idx step_idx).tick >>= polled block_idx step_idx r

  -- The steps of a block from `step_idx` on, `left` of them.
  unfoldable pub run_steps : ℕ → ℕ → ℕ → Run F → Result (Progress F)
  run_steps block_idx zero step_idx r = ok (going r)
  run_steps block_idx (suc left) step_idx r =
      step block_idx step_idx r >>= go_on (λ r'. run_steps block_idx left (step_idx + 1) r')

  -- The blocks from `block_idx` on, `left` of them.
  unfoldable pub run_blocks : ℕ → ℕ → Run F → Result (Progress F)
  run_blocks zero block_idx r = ok (going r)
  run_blocks (suc left) block_idx r = elim (is_frozen r.frozen_from (block_start a block_idx)) [
    | true ↦ ok (going r)
    | false ↦
        run_steps block_idx a.steps_per_block 0 (record r { age = λ pos. 0; pending_commits = [] })
        >>= go_on (λ r'. run_blocks left (block_idx + 1) r')
  ]

-- `{p: prompt_ids[0, p].item() for p in range(gen_start)}`, from position `i` on
unfoldable pub enumerate : ℕ → List Token → Dict Position Token
enumerate i [] = []
enumerate i (t ∷ ts) = (i, t) ∷ enumerate (i + 1) ts

-- The row at the start: the prompt, and masks.
unfoldable pub masked_row : ℕ → List Token → Row ℕ
masked_row mask_id prompt_ids pos = elim (get_elem? prompt_ids pos) [ none ↦ mask_id | some t ↦ t ]

module _ {F : Type 0} where
  -- The leader announces the end.
  unfoldable pub finish : RoundArgs F → Progress F → Outcome F
  finish a (going r) = finished r.node r.shared_x (
      if is_round_leader r.node.round_mgr
      then r.published ++ ((gen_done, done_of a.round_id) ∷ [])
      else r.published)
  finish a (aborted n published) = gave_up n published
  finish a waiting = still_waiting

  unfoldable pub begin : SwarmNode F → List Token → GenConfig F → Run F
  begin n prompt_ids cfg = record {
    node = n;
    x = masked_row cfg.step_cfg.mask_id prompt_ids;
    age = λ pos. 0;
    shared_x = enumerate 0 prompt_ids;
    stop_detector = Stop.init cfg.stop_cfg;
    frozen_from = none;
    sync_seq = 0;
    pending_commits = [];
    published = [];
  }

  unfoldable pub round_args :
      SwarmNode F
      → RoundState F
      → (Row ℕ → Row (Row F))
      → (ℕ → ℕ → Moment F)
      → List Token
      → GenConfig F
      → RoundArgs F
  round_args n state model moment prompt_ids cfg = record {
    id = n.id;
    round_id = state.round_id;
    other_participants = discard n.id state.participants;
    model = model;
    cfg = cfg;
    gen_start = length prompt_ids;
    steps_per_block = cfg.steps / (cfg.gen_length / cfg.block_length);
    moment = moment;
  }

module _ {F : Type 0} ⦃f : Float F⦄ (torch : Torch F) (iter : TokenSet → List Token) where
  unfoldable pub run_round :
      SwarmNode F
      → (Row ℕ → Row (Row F))
      → (ℕ → ℕ → Moment F)
      → List Token
      → GenConfig F
      → Result (Outcome F)
  run_round n model moment prompt_ids cfg = elim n.round_mgr.active_round [
    | none ↦ raise attribute_error
    | some state ↦
        let num_blocks = cfg.gen_length / cfg.block_length in
        if cfg.block_length == 0
        then raise zero_division_error
        else if num_blocks == 0
        then raise zero_division_error
        else (let a = round_args n state model moment prompt_ids cfg in
            run_blocks torch iter a num_blocks 0 (begin n prompt_ids cfg) >>= λ progress.
            ok (finish a progress))
  ]
