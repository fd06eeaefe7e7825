-- ===== src/Tests/Stop.antt =====
-- tests/test_stop_detection.py on the model.
use ded_swarm.Base.{
  ◌+◌, ℕ, ℕ_discrete, ◌≤◌, ◌<◌, ◌≡◌, ◌≢◌, ◌⊎◌, refl, [], ◌∷◌, none, some, arith, nat_eq, option_eq,
}
use ded_swarm.Base.Dict.{Dict, lookup}
use ded_swarm.Stop.{
  StopConfig, StopDetector, init, committed_positions, max_of, walk_back, confirm, reset,
  check_frontier, check,
}
use ded_swarm.Stop.Frontier.{frontier_of}
use ded_swarm.Stop.Checks.{observe, IsStopRun, check-IsStopRun}
use ded_swarm.Stop.History.{
  run_checks, seen, streak, Confirmed, run_checks-Confirmed, run_checks_stops,
}
use ded_swarm.Stop.Agreement.{SameHistory}

abbrev cfg : StopConfig
cfg = record {
  eos_id = 999;
  mask_id = 0;
  min_gen_length = 4;
  stop_run_min = 2;
  stop_confirmations = 2;
}

-- Four tokens from position 32 on, and then two EOS.
abbrev shared_x : Dict ℕ ℕ
shared_x = (32, 100) ∷ (33, 101) ∷ (34, 102) ∷ (35, 103) ∷ (36, 999) ∷ (37, 999) ∷ []

abbrev reordered : Dict ℕ ℕ
reordered = (37, 999) ∷ (36, 999) ∷ (32, 100) ∷ (33, 101) ∷ (34, 102) ∷ (35, 103) ∷ []

program : Unit {0}
unfolding init committed_positions max_of walk_back confirm reset check_frontier check lookup
    ℕ_discrete observe frontier_of run_checks seen option_eq
program = tt

first_check : (check (init cfg) shared_x 32 40).stop_pos ≡ none
unfolding program
first_check = refl

second_check : (run_checks cfg 32 40 (shared_x ∷ shared_x ∷ [])).stop_pos ≡ some 36
unfolding program
second_check = refl

abbrev pending : StopDetector
pending = record (init cfg) { pending_stop_pos = some 36; pending_confirms = 1 }

pending_stop : (check pending shared_x 32 40).stop_pos ≡ some 36
unfolding program
pending_stop = refl

no_stop_yet : pending.stop_pos ≢ some 36
unfolding program
no_stop_yet = cc

check-IsStopRun_example :
    IsStopRun cfg shared_x 32 40 36
    × ((check pending shared_x 32 40).pending_stop_pos ≡ some 36)
    × (2 ≤ (check pending shared_x 32 40).pending_confirms)
    × (pending.pending_stop_pos ≡ some 36
        → (check pending shared_x 32 40).pending_confirms ≡ pending.pending_confirms + 1)
    × (pending.pending_stop_pos ≢ some 36 → (check pending shared_x 32 40).pending_confirms ≡ 1)
    × ((pending.stop_pos ≡ none) ⊎ ((q : ℕ) × (pending.stop_pos ≡ some q) × (36 < q)))
unfolding init
check-IsStopRun_example = check-IsStopRun pending shared_x 32 40 36 pending_stop no_stop_yet

abbrev stopped : StopDetector
stopped = record pending { stop_pos = some 37 }

run_checks-Confirmed_example : Confirmed 36 2 (seen cfg 32 40 (shared_x ∷ shared_x ∷ []))
run_checks-Confirmed_example =
    run_checks-Confirmed cfg 32 40 (shared_x ∷ shared_x ∷ []) second_check

two_in_a_row : streak 36 (seen cfg 32 40 (shared_x ∷ shared_x ∷ [])) ≡ 2
unfolding program
two_in_a_row = refl

run_checks_stops_example :
    (p : ℕ) × ((run_checks cfg 32 40 (shared_x ∷ shared_x ∷ [])).stop_pos ≡ some p) × (p ≤ 36)
run_checks_stops_example =
    run_checks_stops cfg 32 40 (shared_x ∷ shared_x ∷ []) 36 (omega (arith, two_in_a_row))
      (omega (arith, two_in_a_row))

reordered-SameHistory : SameHistory (shared_x ∷ []) (reordered ∷ [])
unfolding lookup
reordered-SameHistory = (λ k. ground arith, tt)
