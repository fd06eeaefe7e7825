-- ===== src/Generation/Loop/State.antt =====
-- node/generation.py: what `run_round` is called with, what it carries from step to step, and what it
-- ends with.
use ded_swarm.Base.{ℕ, List, nat_eq, string_eq, String, Option}
use ded_swarm.Base.Dict.{Dict}
use ded_swarm.Torch.{Row}
use ded_swarm.Protocol.{MsgType, Payload}
use ded_swarm.Consensus.{Position, Token, Commit}
use ded_swarm.Stop.{StopConfig, StopDetector}
use ded_swarm.Swarm.{SwarmNode, Tick}
use ded_swarm.LocalStep.{StepConfig}

pub record GenConfig (F : Type 0) : Type 0 where
  pub gen_length : ℕ
  pub block_length : ℕ
  pub steps : ℕ
  pub sync_every : ℕ
  pub step_cfg : StepConfig F
  pub stop_cfg : StopConfig

-- What the world gives at a step.
pub record Moment (F : Type 0) : Type 0 where
  pub tick : Tick F
  pub checked : F
  pub noise : Row (Row F)
  pub started : F
  pub later : F
  pub ticks : List (Tick F)

-- What the loop carries from step to step, with the messages that were published.
pub record Run (F : Type 0) : Type 0 where
  pub node : SwarmNode F
  pub x : Row ℕ
  pub age : Row ℕ
  pub shared_x : Dict Position Token
  pub stop_detector : StopDetector
  pub frozen_from : Option ℕ
  pub sync_seq : ℕ
  pub pending_commits : Commit F
  pub published : List (MsgType × Payload F)

-- The loop goes on, has been aborted because the round failed, or waits at a barrier.
pub data Progress (F : Type 0) : Type 0 where
  going : Run F → Progress F
  aborted : SwarmNode F → List (MsgType × Payload F) → Progress F
  waiting : Progress F

-- What `run_round` does not change. `model` is `lambda x: model(x).logits`.
pub record RoundArgs (F : Type 0) : Type 0 where
  pub id : String
  pub round_id : String
  pub other_participants : List String
  pub model : Row ℕ → Row (Row F)
  pub cfg : GenConfig F
  pub gen_start : ℕ
  pub steps_per_block : ℕ
  pub moment : ℕ → ℕ → Moment F

-- What `run_round` ends with.
pub data Outcome (F : Type 0) : Type 0 where
  finished : SwarmNode F → Dict Position Token → List (MsgType × Payload F) → Outcome F
  gave_up : SwarmNode F → List (MsgType × Payload F) → Outcome F
  still_waiting : Outcome F
