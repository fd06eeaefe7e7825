-- ===== src/Stop/History.antt =====
-- A detector over a whole round: `GenerationRunner._do_sync` calls `check` once a sync.
use ded_swarm.Base.{
  ℕ, suc, ◌+◌, ◌≤◌, ◌≡◌, ◌⊎◌, inl, inr, refl, ap, ◌∙◌, List, [], ◌∷◌, ◌==◌, nat_eq, option_eq, ltb,
  Option, none, some, if◌then◌else◌, arith, Option-cases,
}
use ded_swarm.Base.Dict.{Dict}
use ded_swarm.Stop.{StopConfig, StopDetector, init, confirm, reset, check}
use ded_swarm.Stop.Checks.{Observation, unseen, no_run, run, observe, apply, check-apply}

abbrev pub push : Observation → List Observation → List Observation
push unseen os = os
push no_run os = no_run ∷ os
push (run c) os = run c ∷ os

module _ (cfg : StopConfig) (start end_ : ℕ) where
  -- The detector after a check of each shared state of a list, the latest first.
  unfoldable pub run_checks : List (Dict ℕ ℕ) → StopDetector
  run_checks [] = init cfg
  run_checks (x ∷ older) = check (run_checks older) x start end_

  -- What the checks observed, the latest first, without those that saw nothing committed.
  unfoldable pub seen : List (Dict ℕ ℕ) → List Observation
  seen [] = []
  seen (x ∷ older) = push (observe cfg x start end_) (seen older)

-- How many of the latest observations in a row are a run from `c` on.
abbrev pub streak : ℕ → List Observation → ℕ
streak c (run x ∷ os) = if x == c then suc (streak c os) else 0
streak c _ = 0

-- At some moment the latest `n` observations, or more, were a run from `c` on.
abbrev pub Confirmed : ℕ → ℕ → List Observation → Type 0
Confirmed c n [] = n ≤ 0
Confirmed c n (o ∷ os) = (n ≤ streak c (o ∷ os)) ⊎ Confirmed c n os

abbrev count_for : Option ℕ → ℕ → ℕ → ℕ
count_for none n c = 0
count_for (some x) n c = if c == x then n else 0

-- The counter of the detector is the length of the streak of its pending boundary.
record Counts (cfg : StopConfig) (d : StopDetector) (os : List Observation) : Type 0 where
  same_cfg : d.cfg ≡ cfg
  counted : (c : ℕ) → streak c os ≡ count_for d.pending_stop_pos d.pending_confirms c

Counts-apply :
    (cfg : StopConfig) (d : StopDetector) (os : List Observation) (o : Observation)
    → Counts cfg d os
    → Counts cfg (apply o d) (push o os)
unfolding confirm reset option_eq
Counts-apply cfg d os unseen k = k
Counts-apply cfg d os no_run k = record { same_cfg = k.same_cfg; counted = λ c. ground arith }
Counts-apply cfg d os (run x) k = record {
  same_cfg = k.same_cfg;
  counted = λ c. go d.pending_stop_pos refl c (k.counted c) (k.counted x);
}
  where
    go :
        (p : Option ℕ)
        → d.pending_stop_pos ≡ p
        → (c : ℕ) → streak c os ≡ count_for d.pending_stop_pos d.pending_confirms c
        → streak x os ≡ count_for d.pending_stop_pos d.pending_confirms x
        → streak c (run x ∷ os) ≡ (
            if c == x
            then (if some x == d.pending_stop_pos then d.pending_confirms + 1 else 1)
            else 0)
    go none e c h i = rw e (ground arith)
    go (some y) e c h i = rw e (ground arith)

module _ (cfg : StopConfig) (start end_ : ℕ) where
  -- The detector and its observations after one more check.
  after_check :
      (x : Dict ℕ ℕ) (older : List (Dict ℕ ℕ))
      → Counts cfg (run_checks cfg start end_ older) (seen cfg start end_ older)
      → run_checks cfg start end_ (x ∷ older)
        ≡ apply (observe cfg x start end_) (run_checks cfg start end_ older)
  unfolding run_checks
  after_check x older k =
      let d = run_checks cfg start end_ older in
      check-apply d x start end_ ∙ ap (λ g. apply (observe g x start end_) d) k.same_cfg

  run_checks-Counts :
      (history : List (Dict ℕ ℕ))
      → Counts cfg (run_checks cfg start end_ history) (seen cfg start end_ history)
  unfolding seen
  run_checks-Counts [] = unfold run_checks init in record { same_cfg = refl; counted = λ c. refl }
  run_checks-Counts (x ∷ older) =
      let k = run_checks-Counts older in
      rw (after_check x older k) (
        Counts-apply cfg (run_checks cfg start end_ older) (seen cfg start end_ older)
          (observe cfg x start end_) k)

  Confirmed-apply :
      (d : StopDetector) (os : List Observation) (o : Observation) (p : ℕ)
      → Counts cfg d os
      → ((q : ℕ) → d.stop_pos ≡ some q → Confirmed q cfg.stop_confirmations os)
      → (apply o d).stop_pos ≡ some p
      → Confirmed p cfg.stop_confirmations (push o os)
  unfolding confirm reset option_eq
  Confirmed-apply d os unseen p k h e = h p e
  Confirmed-apply d os no_run p k h e = inr (h p e)
  Confirmed-apply d os (run c) p k h e =
      ground (arith, (Counts-apply cfg d os (run c) k).counted p, k.same_cfg, h p)

  -- The boundary of a detector that started fresh has been confirmed: at some moment the latest
  -- `stop_confirmations` checks that saw a commit, or more, all found a run from it on.
  pub run_checks-Confirmed :
      (history : List (Dict ℕ ℕ)) {p : ℕ}
      → (run_checks cfg start end_ history).stop_pos ≡ some p
      → Confirmed p cfg.stop_confirmations (seen cfg start end_ history)
  unfolding seen
  run_checks-Confirmed [] e = unfold run_checks init in cc
  run_checks-Confirmed (x ∷ older) {p} e =
      let k = run_checks-Counts older in
      Confirmed-apply (run_checks cfg start end_ older) (seen cfg start end_ older)
        (observe cfg x start end_) p k (λ q h. run_checks-Confirmed older h)
        (rw (after_check x older k) at e)

  stop-apply :
      (d : StopDetector) (os : List Observation) (o : Observation) (c : ℕ)
      → Counts cfg d os
      → (1 ≤ streak c os
          → cfg.stop_confirmations ≤ streak c os
          → (p : ℕ) × (d.stop_pos ≡ some p) × (p ≤ c))
      → 1 ≤ streak c (push o os)
      → cfg.stop_confirmations ≤ streak c (push o os)
      → (p : ℕ) × ((apply o d).stop_pos ≡ some p) × (p ≤ c)
  unfolding confirm reset option_eq
  stop-apply d os unseen c k h one n = h one n
  stop-apply d os no_run c k h one n = absurd (omega arith)
  stop-apply d os (run x) c k h one n =
      let same : x ≡ c = ground arith in
      let counted = (Counts-apply cfg d os (run x) k).counted c in
      elim (Option-cases d.stop_pos) [
        | inl e ↦ (c, ground (arith, counted, k.same_cfg), omega arith)
        | inr (q, e) ↦ (if ltb c q then c else q, ground (arith, counted, k.same_cfg), ground arith)
      ]

  -- Conversely, once the latest `stop_confirmations` checks that saw a commit all found a run from
  -- `c` on, and there was one, the boundary is set, at `c` or before it.
  pub run_checks_stops :
      (history : List (Dict ℕ ℕ)) (c : ℕ)
      → 1 ≤ streak c (seen cfg start end_ history)
      → cfg.stop_confirmations ≤ streak c (seen cfg start end_ history)
      → (p : ℕ) × ((run_checks cfg start end_ history).stop_pos ≡ some p) × (p ≤ c)
  unfolding seen
  run_checks_stops [] c one n = absurd (omega arith)
  run_checks_stops (x ∷ older) c one n =
      let k = run_checks-Counts older in
      rw (after_check x older k) (
        stop-apply (run_checks cfg start end_ older) (seen cfg start end_ older)
          (observe cfg x start end_) c k (run_checks_stops older c) one n)
