-- ===== src/Generation/Loop/Settled.antt =====
-- What the loop of `run_round` keeps from step to step.
use ded_swarm.Base.{
  ℕ, ◌-◌, ◌≤◌, ◌<◌, ◌≡◌, ◌≢◌, ◌⊎◌, inl, inr, refl, ap, ◌∙◌, sym, Bool, true, false, ◌&&◌, ◌||◌,
  List, [], ◌∷◌, ◌==◌, nat_eq, string_eq, Option, none, some, if◌then◌else◌, ltb, leb, contains, ok,
  >>=-eq-ok, arith, Option-cases,
}
use ded_swarm.Base.Dict.{Dict, lookup, insert, lookup-insert}
use ded_swarm.Base.Ranges.{range, contains-upto}
use ded_swarm.Float.{Float}
use ded_swarm.Torch.{Row, Torch, IsTorch}
use ded_swarm.Consensus.{Token, TokenSet, Commit}
use ded_swarm.Consensus.Adopt.{IsIteration}
use ded_swarm.Consensus.Merge.{merged_at-settled}
use ded_swarm.Stop.{StopConfig}
use ded_swarm.Stop.Checks.{check-never}
use ded_swarm.Swarm.{Tick}
use ded_swarm.LocalStep.{Stepped, local_step}
use ded_swarm.LocalStep.Blocks.{local_step-argmax, local_step-completes}
use ded_swarm.Generation.{Synced, do_sync}
use ded_swarm.Generation.Sync.{do_sync-IsMerged}
use ded_swarm.Generation.Loop.{
  Moment, Run, RoundArgs, going, gen_end, block_start, block_end, add_transfers, settled_at,
  adopt_shared, step_args, sync_args, after_sync, sync_if,
}

-- The position has an entry.
abbrev pub has_key {ℓ} : {V : Type ℓ} → ℕ → Dict ℕ V → Bool
has_key pos d = elim (lookup pos d) [ none ↦ false | some _ ↦ true ]

module _ {F : Type 0} where
  has_key-add_transfers :
      (s : Stepped F) (xs : List ℕ) (pending : Commit F) (pos : ℕ)
      → has_key pos (add_transfers s xs pending)
        ≡ (has_key pos pending || (contains xs pos && s.transfer pos))
  unfolding add_transfers
  has_key-add_transfers s [] pending pos = ground arith
  has_key-add_transfers s (q ∷ xs) pending pos = ground (
    arith,
    has_key-add_transfers s xs
        (if s.transfer q then insert q (s.x0 q, s.conf_new q) pending else pending) pos,
    lookup-insert pos q (s.x0 q, s.conf_new q) pending,
  )

module _ {F : Type 0} (a : RoundArgs F) where
  -- Whatever the row shows has been committed, and awaits the next sync or is shared; and the stop
  -- boundary has not been set.
  pub record IsHeld (r : Run F) : Type 0 where
    pub held :
        (pos : ℕ)
        → pos < gen_end a
        → (r.x pos == a.cfg.step_cfg.mask_id) ≡ false
        → (has_key pos r.pending_commits || has_key pos r.shared_x) ≡ true
    pub unset : r.stop_detector.stop_pos ≡ none
    pub unfrozen : r.frozen_from ≡ none
    pub same_cfg : r.stop_detector.cfg ≡ a.cfg.stop_cfg

  -- What is shared stays shared.
  abbrev pub Grows : Dict ℕ ℕ → Dict ℕ ℕ → Type 0
  Grows d d' = (pos : ℕ) → has_key pos d ≡ true → has_key pos d' ≡ true

  -- Every position of the block is shared, and no commit is pending.
  abbrev pub IsSettled : ℕ → Run F → Type 0
  IsSettled block_idx r =
      ((pos : ℕ)
        → pos < gen_end a
        → (leb (block_start a block_idx) pos && ltb pos (block_end a block_idx)) ≡ true
        → has_key pos r.shared_x ≡ true)
      × (r.pending_commits ≡ [])

  -- The row after the local step, with the commits that it makes.
  unfoldable pub after_local : Run F → Stepped F → Run F
  after_local r s = record r {
    x = s.x;
    age = s.age;
    pending_commits = add_transfers s (range (gen_end a)) r.pending_commits;
  }

module _ {F : Type 0} ⦃f : Float F⦄ (torch : Torch F) (laws : IsTorch F torch)
    (iter : TokenSet → List Token) (law : IsIteration iter) (a : RoundArgs F)
    (alone : contains a.other_participants a.id ≡ false)
    (long : a.cfg.gen_length ≤ a.cfg.stop_cfg.min_gen_length)
    (guess : (l : Row F) → torch.argmax l ≢ a.cfg.step_cfg.mask_id) where
  sync_settles :
      (r : Run F) (q : Row (Row F)) (s : Synced F) (started later : F) (ticks : List (Tick F))
      → do_sync iter
          (sync_args torch iter a r q)
          r.shared_x
          r.stop_detector
          started
          later
          ticks
          r.node
        ≡ ok (some s)
      → r.stop_detector.stop_pos ≡ none
      → r.stop_detector.cfg ≡ a.cfg.stop_cfg
      → ((pos : ℕ)
          → (has_key pos r.pending_commits || has_key pos r.shared_x) ≡ true
          → has_key pos s.shared_x ≡ true)
        × (s.detector.stop_pos ≡ none)
        × (s.detector.cfg ≡ a.cfg.stop_cfg)
  unfolding sync_args
  sync_settles r q s started later ticks run unset same =
      let (commits, resolved, own, _, (merged, checked)) =
        do_sync-IsMerged iter law (sync_args torch iter a r q) r.shared_x r.stop_detector s started
          later ticks r.node alone run in
      let (none_set, cfg) =
        check-never r.stop_detector s.shared_x a.gen_start (gen_end a)
          (omega (arith, long, ap (λ (c : StopConfig). c.min_gen_length) same)) unset in
      (
        λ pos h. ground (
          arith,
          merged pos,
          merged_at-settled r.shared_x commits resolved a.id r.pending_commits pos own
              (here r pos h),
        ),
        ground (arith, checked, none_set),
        ground (arith, checked, cfg, same),
      )
    where
      here :
          (r : Run F) (pos : ℕ)
          → (has_key pos r.pending_commits || has_key pos r.shared_x) ≡ true
          → (lookup pos r.pending_commits ≢ none) ⊎ (lookup pos r.shared_x ≢ none)
      here r pos h = elim (Option-cases (lookup pos r.pending_commits)) [
        | inl e ↦ inr (λ k. ground arith)
        | inr (_, e) ↦ inl (λ k. cc)
      ]

  pub after_local-IsHeld :
      (block_idx step_idx : ℕ) (r : Run F) (s : Stepped F)
      → local_step torch a.cfg.step_cfg (step_args torch iter a block_idx step_idx r) ≡ ok s
      → IsHeld a r
      → IsHeld a (after_local a r s)
  unfolding after_local local_step step_args
  after_local-IsHeld block_idx step_idx r s run h = record {
    held = λ pos lt shown. ground (
      arith,
      h.held pos lt,
      has_key-add_transfers s (range (gen_end a)) r.pending_commits pos,
      contains-upto (gen_end a) 0 pos,
    );
    unset = h.unset;
    unfrozen = h.unfrozen;
    same_cfg = h.same_cfg;
  }

  pub local_completes :
      (block_idx step_idx : ℕ) (r : Run F) (s : Stepped F) (pos : ℕ)
      → local_step torch a.cfg.step_cfg (step_args torch iter a block_idx step_idx r) ≡ ok s
      → IsHeld a r
      → a.steps_per_block - step_idx ≡ 1
      → pos < gen_end a
      → (leb (block_start a block_idx) pos && ltb pos (block_end a block_idx)) ≡ true
      → s.x pos ≢ a.cfg.step_cfg.mask_id
  unfolding step_args
  local_completes block_idx step_idx r s pos run h one lt inside =
      let (l, argmax) =
        local_step-argmax torch laws a.cfg.step_cfg (step_args torch iter a block_idx step_idx r) s
          pos run in
      local_step-completes torch laws a.cfg.step_cfg (step_args torch iter a block_idx step_idx r) s
        pos (λ q k. ground (arith, h.unfrozen)) one run lt inside (λ e. guess l (sym argmax ∙ e))

  adopt-IsHeld :
      (block_idx : ℕ) (r : Run F) (s : Synced F)
      → ((pos : ℕ)
          → (has_key pos r.pending_commits || has_key pos r.shared_x) ≡ true
          → has_key pos s.shared_x ≡ true)
      → IsHeld a r
      → s.detector.stop_pos ≡ none
      → s.detector.cfg ≡ a.cfg.stop_cfg
      → IsHeld a (adopt_shared a block_idx r s)
  unfolding adopt_shared settled_at lookup
  adopt-IsHeld block_idx r s settles h unset same = record {
    held = λ pos lt shown. ground (arith, settles pos, h.held pos lt);
    unset = unset;
    unfrozen = unset;
    same_cfg = same;
  }

  after_sync-IsHeld :
      (block_idx : ℕ) (r r' : Run F) (q : Row (Row F)) (o : Option (Synced F)) (m : Moment F)
      → do_sync iter
          (sync_args torch iter a r q)
          r.shared_x
          r.stop_detector
          m.started
          m.later
          m.ticks
          r.node
        ≡ ok o
      → after_sync torch iter a block_idx r o ≡ ok (going r')
      → IsHeld a r
      → IsHeld a r'
        × ((pos : ℕ)
            → (has_key pos r.pending_commits || has_key pos r.shared_x) ≡ true
            → has_key pos r'.shared_x ≡ true)
        × (r'.pending_commits ≡ [])
  unfolding after_sync adopt_shared
  after_sync-IsHeld block_idx r r' q none m run after h = cc
  after_sync-IsHeld block_idx r r' q (some s) m run after h =
      let (settles, unset, same) =
        sync_settles r q s m.started m.later m.ticks run h.unset h.same_cfg in
      let e : adopt_shared a block_idx r s ≡ r' = cc in
      rw (← e) (adopt-IsHeld block_idx r s settles h unset same, settles, refl)

  pub sync_if-IsHeld :
      (block_idx step_idx : ℕ) (q : Row (Row F)) (r r' : Run F) (due : Bool)
      → sync_if torch iter a block_idx step_idx q r due ≡ ok (going r')
      → IsHeld a r
      → IsHeld a r'
        × Grows a r.shared_x r'.shared_x
        × (due ≡ true
            → ((pos : ℕ)
                → (has_key pos r.pending_commits || has_key pos r.shared_x) ≡ true
                → has_key pos r'.shared_x ≡ true)
              × (r'.pending_commits ≡ []))
  unfolding sync_if
  sync_if-IsHeld block_idx step_idx q r r' false run h =
      let same : r ≡ r' = cc in rw (← same) (h, λ pos k. k, λ e. cc)
  sync_if-IsHeld block_idx step_idx q r r' true run h =
      let m = a.moment block_idx step_idx in
      let (o, first, rest) =
        >>=-eq-ok
          (do_sync iter (sync_args torch iter a r q) r.shared_x r.stop_detector m.started m.later
            m.ticks r.node)
          (after_sync torch iter a block_idx r) run in
      let (kept, settles, none_left) = after_sync-IsHeld block_idx r r' q o m first rest h in
      (kept, λ pos k. settles pos (ground arith), λ _. (settles, none_left))
