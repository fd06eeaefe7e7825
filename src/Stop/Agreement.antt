-- ===== src/Stop/Agreement.antt =====
-- The stop detectors (diffusion/stop_detection.py) of two participants.
use ded_swarm.Base.{
  ℕ, zero, suc, ◌+◌, ◌-◌, ◌≡◌, refl, sym, ap, ◌∙◌, List, [], ◌∷◌, nat_eq, option_eq, Option, none,
  some,
}
use ded_swarm.Base.Dict.{Dict, SameLookups}
use ded_swarm.Stop.{StopConfig, StopDetector, committed_from, committed_positions, walk_back, check}
use ded_swarm.Stop.Frontier.{frontier_of}
use ded_swarm.Stop.Checks.{observe, observe_at, apply, check-apply}
use ded_swarm.Stop.History.{run_checks}

committed_from_congr :
    (m m' : Dict ℕ ℕ) (n i : ℕ) → SameLookups m m' → committed_from m n i ≡ committed_from m' n i
unfolding committed_from
committed_from_congr m m' zero i same = refl
committed_from_congr m m' (suc n) i same = rw (same i, committed_from_congr m m' n (i + 1) same)

walk_back_congr :
    (m m' : Dict ℕ ℕ) (eos start r : ℕ)
    → SameLookups m m'
    → walk_back m eos start r ≡ walk_back m' eos start r
unfolding walk_back
walk_back_congr m m' eos start zero same = refl
walk_back_congr m m' eos start (suc r) same = rw (same r, walk_back_congr m m' eos start r same)

observe_congr :
    (cfg : StopConfig) (m m' : Dict ℕ ℕ) (start end_ : ℕ)
    → SameLookups m m'
    → observe cfg m start end_ ≡ observe cfg m' start end_
unfolding observe committed_positions
observe_congr cfg m m' start end_ same =
    rw (committed_from_congr m m' (end_ - start) start same)
      (go (frontier_of (committed_from m' (end_ - start) start)))
  where
    go : (f : Option ℕ) → observe_at cfg m start f ≡ observe_at cfg m' start f
    go none = refl
    go (some f) = rw (walk_back_congr m m' cfg.eos_id start f same)

-- A check of equal states leaves the same detector.
pub check_congr :
    (d : StopDetector) (m m' : Dict ℕ ℕ) (start end_ : ℕ)
    → SameLookups m m'
    → check d m start end_ ≡ check d m' start end_
check_congr d m m' start end_ same =
    check-apply d m start end_
    ∙ ap (λ o. apply o d) (observe_congr d.cfg m m' start end_ same)
    ∙ sym (check-apply d m' start end_)

abbrev pub SameHistory : List (Dict ℕ ℕ) → List (Dict ℕ ℕ) → Type 0
SameHistory [] [] = Unit
SameHistory (x ∷ xs) (y ∷ ys) = SameLookups x y × SameHistory xs ys
SameHistory _ _ = ⊥

-- Two participants that checked equal shared states, whatever the order of the entries of their
-- dicts, have the same detector, boundary included.
pub run_checks_agree :
    (cfg : StopConfig) (start end_ : ℕ) (mine yours : List (Dict ℕ ℕ))
    → SameHistory mine yours
    → run_checks cfg start end_ mine ≡ run_checks cfg start end_ yours
unfolding run_checks
run_checks_agree cfg start end_ [] [] h = refl
run_checks_agree cfg start end_ [] (y ∷ ys) h = absurd h
run_checks_agree cfg start end_ (x ∷ xs) [] h = absurd h
run_checks_agree cfg start end_ (x ∷ xs) (y ∷ ys) (same, h) =
    let d = run_checks cfg start end_ xs in
    let e = run_checks cfg start end_ ys in
    check_congr d x y start end_ same
    ∙ ap (λ z. check z y start end_) (run_checks_agree cfg start end_ xs ys h)
