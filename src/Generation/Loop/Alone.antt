-- ===== src/Generation/Loop/Alone.antt =====
-- `run_round` at a node that is alone in a round that it leads.
use ded_swarm.Base.{
  ℕ, ◌≤◌, ◌≡◌, inl, inr, true, List, [], ◌∷◌, nat_eq, string_eq, none, Result, ok, Bool-cases,
}
use ded_swarm.Base.Dict.{Dict, NodupKeys, insert-NodupKeys}
use ded_swarm.Float.{Float}
use ded_swarm.Torch.{Torch}
use ded_swarm.Consensus.{Token, TokenSet, Commit}
use ded_swarm.Consensus.Adopt.{IsIteration}
use ded_swarm.Round.{RoundManager, is_round_leader}
use ded_swarm.LocalStep.{Stepped}
use ded_swarm.Generation.Loop.{Run, RoundArgs, Progress, going, add_transfers}

module _ {F : Type 0} where
  pub add_transfers-NodupKeys :
      (s : Stepped F) (xs : List ℕ) (pending : Commit F)
      → NodupKeys pending
      → NodupKeys (add_transfers s xs pending)
  unfolding add_transfers
  add_transfers-NodupKeys s [] pending u = u
  add_transfers-NodupKeys s (pos ∷ xs) pending u = elim (Bool-cases (s.transfer pos)) [
    | inl e ↦
        rw e (
          add_transfers-NodupKeys s xs _
            (insert-NodupKeys pos (s.x0 pos, s.conf_new pos) pending u))
    | inr e ↦ rw e (add_transfers-NodupKeys s xs pending u)
  ]

  -- The node still has the round that it leads, and no position is pending twice.
  pub record IsLeading (mgr : RoundManager F) (r : Run F) : Type 0 where
    pub same : r.node.round_mgr ≡ mgr
    pub once : NodupKeys r.pending_commits

module _ {F : Type 0} ⦃f : Float F⦄ (torch : Torch F) (iter : TokenSet → List Token)
    (law : IsIteration iter) (a : RoundArgs F) (mgr : RoundManager F)
    (nobody : a.other_participants ≡ [])
    (quiet : (block_idx step_idx : ℕ) → (a.moment block_idx step_idx).tick.env ≡ none)
    (lead : is_round_leader mgr ≡ true) (syncs : 1 ≤ a.cfg.sync_every) where
  -- The computation ends with a run that goes on.
  abbrev GoesOn : Result (Progress F) → Type 0
  GoesOn e = (r : Run F) × (e ≡ ok (going r)) × IsLeading mgr r
