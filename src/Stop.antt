-- ===== src/Stop.antt =====
-- diffusion/stop_detection.py: the detector of the stop boundary. Positions, tokens and lengths are
-- naturals. `StopDetector.check` changes the detector and returns its `stop_pos`: here it returns
-- the new detector.
pub mod Frontier
pub mod Checks
pub mod History
pub mod Agreement
use ded_swarm.Base.{
  ℕ, zero, suc, ◌+◌, ◌-◌, Bool, true, false, ◌&&◌, ◌||◌, List, [], ◌∷◌, ◌==◌, nat_eq, option_eq,
  ltb, leb, Option, none, some, if◌then◌else◌, foldl,
}
use ded_swarm.Base.Dict.{Dict, lookup}

pub record StopConfig : Type 0 where
  pub eos_id : ℕ
  pub mask_id : ℕ
  pub min_gen_length : ℕ
  pub stop_run_min : ℕ
  pub stop_confirmations : ℕ

pub record StopDetector : Type 0 where
  pub cfg : StopConfig
  pub stop_pos : Option ℕ
  pub pending_stop_pos : Option ℕ
  pub pending_confirms : ℕ

-- `StopDetector.__init__`
unfoldable pub init : StopConfig → StopDetector
init cfg = record { cfg = cfg; stop_pos = none; pending_stop_pos = none; pending_confirms = 0 }

abbrev pub is_some {ℓ} : {A : Type ℓ} → Option A → Bool
is_some none = false
is_some (some _) = true

-- `[p for p in range(i, i + n) if p in shared_x]`
unfoldable pub committed_from : Dict ℕ ℕ → ℕ → ℕ → List ℕ
committed_from shared_x zero i = []
committed_from shared_x (suc n) i =
    let rest = committed_from shared_x n (i + 1) in
    if is_some (lookup i shared_x) then i ∷ rest else rest

unfoldable pub committed_positions : Dict ℕ ℕ → ℕ → ℕ → List ℕ
unfolding committed_from
committed_positions shared_x gen_start gen_end =
    committed_from shared_x (gen_end - gen_start) gen_start

-- `max(x, *xs)`
unfoldable pub max_of : ℕ → List ℕ → ℕ
max_of x [] = x
max_of x (y ∷ ys) = max_of (if ltb x y then y else x) ys

-- The loop that walks back from the frontier over agreed EOS tokens.
unfoldable pub walk_back : Dict ℕ ℕ → ℕ → ℕ → ℕ → ℕ
walk_back shared_x eos_id gen_start zero = zero
walk_back shared_x eos_id gen_start (suc r) =
    let rest = walk_back shared_x eos_id gen_start r in
    if ltb gen_start (suc r) && (lookup r shared_x == some eos_id) then rest else suc r

-- The branch of a run that is long enough.
unfoldable pub confirm : StopDetector → ℕ → StopDetector
confirm d candidate_stop =
    let confirms : ℕ =
      if some candidate_stop == d.pending_stop_pos then d.pending_confirms + 1 else 1 in
    let lower : Bool = elim d.stop_pos [ none ↦ true | some stop ↦ ltb candidate_stop stop ] in
    record d {
      pending_stop_pos = some candidate_stop;
      pending_confirms = confirms;
      stop_pos =
          if leb d.cfg.stop_confirmations confirms && lower
          then some candidate_stop
          else d.stop_pos;
    }

-- The branch of a run that is too short, or too early.
unfoldable pub reset : StopDetector → StopDetector
reset d = record d { pending_stop_pos = none; pending_confirms = 0 }

unfoldable pub check_frontier : StopDetector → Dict ℕ ℕ → ℕ → ℕ → StopDetector
check_frontier d shared_x gen_start frontier =
    let run_start = walk_back shared_x d.cfg.eos_id gen_start frontier in
    let run_len = frontier - run_start in
    if ltb d.cfg.min_gen_length (frontier - gen_start) && leb d.cfg.stop_run_min run_len
    then confirm d run_start
    else reset d

unfoldable pub check : StopDetector → Dict ℕ ℕ → ℕ → ℕ → StopDetector
check d shared_x gen_start gen_end = elim (committed_positions shared_x gen_start gen_end) [
  | [] ↦ d
  | p ∷ ps ↦ check_frontier d shared_x gen_start (max_of p ps + 1)
]
