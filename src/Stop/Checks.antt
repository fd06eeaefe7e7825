-- ===== src/Stop/Checks.antt =====
-- One check: what it observes, what it does to the detector, and what a new stop boundary means.
use ded_swarm.Base.{
  ℕ, ◌+◌, ◌-◌, ◌≤◌, ◌<◌, ◌≡◌, ◌≢◌, ◌⊎◌, inl, inr, refl, ap, ◌∙◌, Bool, ◌&&◌, List, [], ◌∷◌, ◌==◌,
  nat_eq, option_eq, ltb, leb, Option, none, some, if◌then◌else◌, arith, Option-cases,
}
use ded_swarm.Base.Dict.{Dict}
use ded_swarm.Stop.{
  StopConfig, StopDetector, committed_positions, walk_back, confirm, reset, check_frontier, check,
}
use ded_swarm.Stop.Frontier.{
  IsFrontier, IsRun, FrontierOf, frontier_of, frontier_of-FrontierOf, walk_back-IsRun,
}

-- What a check makes of the shared state: nothing is committed, the run is too short or too early,
-- or there is a run from a position on.
pub data Observation : Type 0 where
  unseen : Observation
  no_run : Observation
  run : ℕ → Observation

abbrev pub observe_at : StopConfig → Dict ℕ ℕ → ℕ → Option ℕ → Observation
observe_at cfg shared_x start none = unseen
observe_at cfg shared_x start (some frontier) =
    let run_start = walk_back shared_x cfg.eos_id start frontier in
    if ltb cfg.min_gen_length (frontier - start) && leb cfg.stop_run_min (frontier - run_start)
    then run run_start
    else no_run

unfoldable pub observe : StopConfig → Dict ℕ ℕ → ℕ → ℕ → Observation
observe cfg shared_x start end_ =
    observe_at cfg shared_x start (frontier_of (committed_positions shared_x start end_))

abbrev pub apply : Observation → StopDetector → StopDetector
apply unseen d = d
apply no_run d = reset d
apply (run c) d = confirm d c

pub check-apply :
    (d : StopDetector) (shared_x : Dict ℕ ℕ) (start end_ : ℕ)
    → check d shared_x start end_ ≡ apply (observe d.cfg shared_x start end_) d
unfolding check observe frontier_of check_frontier
check-apply d shared_x start end_ = go (committed_positions shared_x start end_) refl
  where
    go :
        (cs : List ℕ)
        → committed_positions shared_x start end_ ≡ cs
        → check d shared_x start end_
          ≡ apply
              (observe_at d.cfg shared_x start
                (frontier_of (committed_positions shared_x start end_)))
              d
    go [] e = ground arith
    go (p ∷ ps) e = ground arith

-- A run of EOS tokens that ends at the frontier, is long enough and late enough, and starts at `c`.
pub record IsStopRun (cfg : StopConfig) (shared_x : Dict ℕ ℕ) (start end_ c : ℕ) : Type 0 where
  pub frontier : ℕ
  pub at_frontier : IsFrontier shared_x start end_ frontier
  pub is_run : IsRun shared_x cfg.eos_id start frontier c
  pub late : cfg.min_gen_length < frontier - start
  pub long : cfg.stop_run_min ≤ frontier - c

observe-IsStopRun :
    (cfg : StopConfig) (shared_x : Dict ℕ ℕ) (start end_ c : ℕ)
    → observe cfg shared_x start end_ ≡ run c
    → IsStopRun cfg shared_x start end_ c
unfolding observe
observe-IsStopRun cfg shared_x start end_ c =
    go (frontier_of (committed_positions shared_x start end_))
      (frontier_of-FrontierOf shared_x start end_)
  where
    go :
        (f : Option ℕ)
        → FrontierOf shared_x start end_ f
        → observe_at cfg shared_x start f ≡ run c
        → IsStopRun cfg shared_x start end_ c
    go none h e = cc
    go (some f) h e =
        let r = walk_back-IsRun shared_x cfg.eos_id start f (omega (arith, h.after)) in
        let same : walk_back shared_x cfg.eos_id start f ≡ c = ground arith in
        record {
          frontier = f;
          at_frontier = h;
          is_run = rw same at r;
          late = ground arith;
          long = ground arith;
        }

-- A boundary that a check sets is the start of such a run in the shared state, and it lies before the
-- old boundary. It is what the detector has pending, and the count of its confirmations, which this
-- check has raised by one if the same position was pending before, and has started at 1 otherwise, has
-- reached the number that the configuration asks.
pub check-IsStopRun :
    (d : StopDetector) (shared_x : Dict ℕ ℕ) (start end_ p : ℕ)
    → (check d shared_x start end_).stop_pos ≡ some p
    → d.stop_pos ≢ some p
    → let d' = check d shared_x start end_ in
      IsStopRun d.cfg shared_x start end_ p
      × (d'.pending_stop_pos ≡ some p)
      × (d.cfg.stop_confirmations ≤ d'.pending_confirms)
      × (d.pending_stop_pos ≡ some p → d'.pending_confirms ≡ d.pending_confirms + 1)
      × (d.pending_stop_pos ≢ some p → d'.pending_confirms ≡ 1)
      × ((d.stop_pos ≡ none) ⊎ ((q : ℕ) × (d.stop_pos ≡ some q) × (p < q)))
unfolding confirm reset
check-IsStopRun d shared_x start end_ p =
    rw check-apply (go (observe d.cfg shared_x start end_) refl)
  where
    go :
        (o : Observation)
        → observe d.cfg shared_x start end_ ≡ o
        → (apply o d).stop_pos ≡ some p
        → d.stop_pos ≢ some p
        → IsStopRun d.cfg shared_x start end_ p
          × ((apply o d).pending_stop_pos ≡ some p)
          × (d.cfg.stop_confirmations ≤ (apply o d).pending_confirms)
          × (d.pending_stop_pos ≡ some p → (apply o d).pending_confirms ≡ d.pending_confirms + 1)
          × (d.pending_stop_pos ≢ some p → (apply o d).pending_confirms ≡ 1)
          × ((d.stop_pos ≡ none) ⊎ ((q : ℕ) × (d.stop_pos ≡ some q) × (p < q)))
    go unseen e h n = absurd (n h)
    go no_run e h n = absurd (n h)
    go (run c) e h n =
        let same : c ≡ p = ground arith in
        (
          observe-IsStopRun d.cfg shared_x start end_ p (e ∙ ap run same),
          ap some same,
          ground arith,
          λ before. ground arith,
          λ other. ground arith,
          elim (Option-cases d.stop_pos) [ inl u ↦ inl u | inr (q, u) ↦ inr (q, u, ground arith) ],
        )

-- A boundary is never taken back, and only ever moves to the front.
pub check_mono :
    (d : StopDetector) (shared_x : Dict ℕ ℕ) (start end_ : ℕ) {q : ℕ}
    → d.stop_pos ≡ some q
    → (p : ℕ) × ((check d shared_x start end_).stop_pos ≡ some p) × (p ≤ q)
unfolding confirm reset
check_mono d shared_x start end_ {q} h = rw check-apply (go (observe d.cfg shared_x start end_))
  where
    go : (o : Observation) → (p : ℕ) × ((apply o d).stop_pos ≡ some p) × (p ≤ q)
    go unseen = (q, h, omega arith)
    go no_run = (q, h, omega arith)
    go (run c) =
        let now : Bool =
          leb d.cfg.stop_confirmations
            (if some c == d.pending_stop_pos then d.pending_confirms + 1 else 1)
          && ltb c q in
        (if now then c else q, ground arith, ground arith)

check-cfg :
    (d : StopDetector) (shared_x : Dict ℕ ℕ) (start end_ : ℕ)
    → (check d shared_x start end_).cfg ≡ d.cfg
unfolding confirm reset
check-cfg d shared_x start end_ = rw check-apply (go (observe d.cfg shared_x start end_))
  where
    go : (o : Observation) → (apply o d).cfg ≡ d.cfg
    go unseen = refl
    go no_run = refl
    go (run c) = refl

-- A detector whose minimum is no less than the whole generation never sets a boundary.
pub check-never :
    (d : StopDetector) (shared_x : Dict ℕ ℕ) (start end_ : ℕ)
    → end_ - start ≤ d.cfg.min_gen_length
    → d.stop_pos ≡ none
    → let d' = check d shared_x start end_ in (d'.stop_pos ≡ none) × (d'.cfg ≡ d.cfg)
check-never d shared_x start end_ long h = (
  elim (Option-cases (check d shared_x start end_).stop_pos) [
    | inl e ↦ e
    | inr (p, e) ↦
        let (r, _, _, _, _, _) = check-IsStopRun d shared_x start end_ p e (λ k. ground arith) in
        absurd (omega (arith, r.late, r.at_frontier.before, long))
  ],
  check-cfg d shared_x start end_,
)
