-- ===== src/Generation/Loop/GivesUp.antt =====
-- What a `run_round` (node/generation.py) that gives up has done.
use ded_swarm.Base.{ℕ, ◌≡◌, List, nat_eq, string_eq, All}
use ded_swarm.Base.Dict.{Dict}
use ded_swarm.Float.{Float}
use ded_swarm.Torch.{Torch}
use ded_swarm.Protocol.{MsgType, commit, dispute_score, Payload}
use ded_swarm.Consensus.{Token, TokenSet}
use ded_swarm.Round.Timeout.{Overdue}
use ded_swarm.Swarm.{SwarmNode}
use ded_swarm.Generation.Loop.{RoundArgs, Progress, going, aborted, waiting}
use ded_swarm.Generation.Loop.Aborts.{freed}

module _ {F : Type 0} where
  -- A COMMIT or a DISPUTE_SCORE.
  abbrev pub IsSyncMessage : MsgType × Payload F → Type 0
  IsSyncMessage (msg_type, _) = elim msg_type [ commit ↦ Unit | dispute_score ↦ Unit | _ ↦ ⊥ ]

module _ {F : Type 0} ⦃f : Float F⦄ (torch : Torch F) (iter : TokenSet → List Token)
    (a : RoundArgs F) where
  -- The round was overdue at a step, and the node has let go of it.
  abbrev IsFailed : SwarmNode F → Type 0
  IsFailed n =
      (block_idx step_idx : ℕ) × (m : SwarmNode F) × Overdue m.round_mgr
        (a.moment block_idx step_idx).checked
      × (n ≡ freed m)

  -- What the loop has come to.
  abbrev IsSound : Progress F → Type 0
  IsSound (going r) = All IsSyncMessage r.published
  IsSound (aborted n published) = All IsSyncMessage published × IsFailed n
  IsSound waiting = Unit
