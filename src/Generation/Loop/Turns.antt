-- ===== src/Generation/Loop/Turns.antt =====
-- What one step of `run_round` that goes on has done.
use ded_swarm.Base.{
  ◌≡◌, refl, Bool, true, false, List, ℕ, nat_eq, string_eq, some, none, Option, ok, ◌>>=◌,
  >>=-eq-ok, arith,
}
use ded_swarm.Base.Dict.{NodupKeys}
use ded_swarm.Base.Ranges.{range}
use ded_swarm.Float.{Float}
use ded_swarm.Torch.{Row, Torch}
use ded_swarm.Consensus.{Token, TokenSet}
use ded_swarm.Round.{check_leader_timeout}
use ded_swarm.Swarm.{SwarmNode, pump_once}
use ded_swarm.LocalStep.{local_step}
use ded_swarm.Generation.{Synced, do_sync}
use ded_swarm.Generation.Loop.{
  Run, RoundArgs, going, gen_end, adopt_shared, sync_due, step_args, sync_args, after_sync, sync_if,
  step_going, polled, step,
}
use ded_swarm.Generation.Loop.Settled.{after_local}
use ded_swarm.Generation.Loop.Alone.{add_transfers-NodupKeys}

module _ {F : Type 0} ⦃f : Float F⦄ (torch : Torch F) (iter : TokenSet → List Token)
    (a : RoundArgs F) (block_idx step_idx : ℕ) (r r' : Run F) where
  -- The step without its sync leaves the shared state, the detector and the inbox as they were.
  pub record IsLocal (r₁ : Run F) : Type 0 where
    pub shared_x : r₁.shared_x ≡ r.shared_x
    pub stop_detector : r₁.stop_detector ≡ r.stop_detector
    pub frozen_from : r₁.frozen_from ≡ r.frozen_from
    pub sync_seq : r₁.sync_seq ≡ r.sync_seq
    pub published : r₁.published ≡ r.published
    pub gen_inbox : r₁.node.gen_inbox ≡ r.node.gen_inbox
    pub once : NodupKeys r.pending_commits → NodupKeys r₁.pending_commits

  -- What has happened after the local step: nothing, or a sync.
  abbrev pub Ended : Run F → Row (Row F) → Bool → Type 0
  Ended r₁ p false = r₁ ≡ r'
  Ended r₁ p true =
      (s : Synced F) × (do_sync iter (sync_args torch iter a r₁ p) r₁.shared_x r₁.stop_detector
          (a.moment block_idx step_idx).started (a.moment block_idx step_idx).later
          (a.moment block_idx step_idx).ticks r₁.node
        ≡ ok (some s))
      × (adopt_shared a block_idx r₁ s ≡ r')

  after_sync-Ended :
      (r₁ : Run F) (p : Row (Row F)) (o : Option (Synced F))
      → do_sync iter
          (sync_args torch iter a r₁ p)
          r₁.shared_x
          r₁.stop_detector
          (a.moment block_idx step_idx).started
          (a.moment block_idx step_idx).later
          (a.moment block_idx step_idx).ticks
          r₁.node
        ≡ ok o
      → after_sync torch iter a block_idx r₁ o ≡ ok (going r')
      → Ended r₁ p true
  unfolding after_sync
  after_sync-Ended r₁ p none run after = cc
  after_sync-Ended r₁ p (some s) run after = (s, run, cc)

  sync_if-Ended :
      (r₁ : Run F) (p : Row (Row F)) (due : Bool)
      → sync_if torch iter a block_idx step_idx p r₁ due ≡ ok (going r')
      → Ended r₁ p due
  unfolding sync_if
  sync_if-Ended r₁ p false run = cc
  sync_if-Ended r₁ p true run =
      let m = a.moment block_idx step_idx in
      let (o, first, rest) =
        >>=-eq-ok
          (do_sync iter (sync_args torch iter a r₁ p) r₁.shared_x r₁.stop_detector m.started m.later
            m.ticks r₁.node)
          (after_sync torch iter a block_idx r₁) run in
      after_sync-Ended r₁ p o first rest

  step_going-Ended :
      (r₀ : Run F)
      → IsLocal r₀
      → r₀.pending_commits ≡ r.pending_commits
      → step_going torch iter a block_idx step_idx r₀ ≡ ok (going r')
      → (r₁ : Run F) × IsLocal r₁
        × (p : Row (Row F)) × (due : Bool) × (sync_due a step_idx ≡ ok due)
        × Ended r₁ p due
  unfolding step_going after_local
  step_going-Ended r₀ h pending run =
      let (s, stepped, rest) =
        >>=-eq-ok (local_step torch a.cfg.step_cfg (step_args torch iter a block_idx step_idx r₀))
          (λ s. sync_due a step_idx >>= λ due.
            sync_if torch iter a block_idx step_idx s.p (after_local a r₀ s) due)
          run in
      let r₁ = after_local a r₀ s in
      let (due, is_due, synced) =
        >>=-eq-ok (sync_due a step_idx) (sync_if torch iter a block_idx step_idx s.p r₁) rest in
      (
        r₁,
        record {
          shared_x = h.shared_x;
          stop_detector = h.stop_detector;
          frozen_from = h.frozen_from;
          sync_seq = h.sync_seq;
          published = h.published;
          gen_inbox = h.gen_inbox;
          once =
              λ u. add_transfers-NodupKeys s (range (gen_end a)) r₀.pending_commits (rw pending u);
        },
        s.p,
        due,
        is_due,
        sync_if-Ended r₁ s.p due synced,
      )

  -- A step that reads nothing in its poll and goes on.
  pub step-Ended :
      (a.moment block_idx step_idx).tick.env ≡ none
      → step torch iter a block_idx step_idx r ≡ ok (going r')
      → (r₁ : Run F) × IsLocal r₁
        × (p : Row (Row F)) × (due : Bool) × (sync_due a step_idx ≡ ok due)
        × Ended r₁ p due
  unfolding step polled pump_once
  step-Ended quiet run =
      let checked = check_leader_timeout r.node.round_mgr (a.moment block_idx step_idx).checked in
      let n' : SwarmNode F = record r.node { round_mgr = checked.0 } in
      let going_on : step_going torch iter a block_idx step_idx (record r { node = n' })
          ≡ ok (going r') =
        ground (arith, quiet) in
      step_going-Ended (record r { node = n' })
        (record {
          shared_x = refl;
          stop_detector = refl;
          frozen_from = refl;
          sync_seq = refl;
          published = refl;
          gen_inbox = refl;
          once = λ u. u;
        })
        refl going_on
