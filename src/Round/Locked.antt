-- ===== src/Round/Locked.antt =====
-- The calls that the node makes of its round manager (node/round.py), one and in sequence.
use ded_swarm.Base.{
  true, false, List, [], ◌∷◌, ◌==◌, ◌≡◌, ◌≢◌, ◌⊎◌, inl, inr, refl, string_eq, option_eq, String,
  Option, none, some, if◌then◌else◌, Result, ok, raise, assertion_error, for_each, arith,
  Bool-cases,
}
use ded_swarm.Base.Order.{IsSorted, sorted-IsSorted}
use ded_swarm.Base.Text.{string_ord}
use ded_swarm.Float.{Float}
use ded_swarm.Config.{round_leader_timeout}
use ded_swarm.Protocol.{
  Envelope, Payload, nothing, start_of, done_of, commit_of, scores_of, GenSettings, get_round_id,
}
use ded_swarm.Round.{
  active, RoundState, RoundManager, start_round, adopt, has_active, on_gen_start, on_gen_done,
  note_leader_activity, check_leader_timeout,
}

-- The calls that the node makes of its round manager. `start` is
-- `SwarmNode.start_round_as_leader`, which asserts that there is no round.
pub data Event (F : Type 0) : Type 0 where
  start :
      (participants : List String) (prompt : String) (gen_config : GenSettings F) (hex : String)
      (started seen : F)
      → Event F
  gen_start : Envelope F → F → Event F
  gen_done : Envelope F → Event F
  activity : String → F → Event F
  timeout : F → Event F

module _ {F : Type 0} ⦃f : Float F⦄ where
  unfoldable pub step : RoundManager F → Event F → Result (RoundManager F)
  step m (start participants prompt gen_config hex started seen) = elim m.active_round [
    | none ↦ ok (start_round m participants prompt gen_config hex started seen).0
    | some _ ↦ raise assertion_error
  ]
  step m (gen_start env now) = on_gen_start m env now
  step m (gen_done env) = ok (on_gen_done m env).0
  step m (activity node_id ts) = ok (note_leader_activity m node_id ts)
  step m (timeout now) = ok (check_leader_timeout m now).0

  abbrev pub run : RoundManager F → List (Event F) → Result (RoundManager F)
  run = for_each step

module _ {F : Type 0} where
  -- A round that the manager holds is active, and its participants are sorted.
  abbrev pub IsValidRound : Option (RoundState F) → Type 0
  IsValidRound none = Unit
  IsValidRound (some r) = (r.status ≡ active) × IsSorted r.participants

  abbrev pub IsValid : RoundManager F → Type 0
  IsValid m = IsValidRound m.active_round

  -- The same round: only the time at which its leader was last heard of may differ.
  pub record SameRound (r s : RoundState F) : Type 0 where
    pub round_id : s.round_id ≡ r.round_id
    pub leader_id : s.leader_id ≡ r.leader_id
    pub participants : s.participants ≡ r.participants
    pub prompt : s.prompt ≡ r.prompt
    pub gen_config : s.gen_config ≡ r.gen_config
    pub started_at : s.started_at ≡ r.started_at

  pub SameRound-refl : (r : RoundState F) → SameRound r r
  SameRound-refl r = ground arith

  pub SameRound-trans : (r s t : RoundState F) → SameRound r s → SameRound s t → SameRound r t
  SameRound-trans r s t h k = ground arith

  -- What became of a round: it is over, or the manager still holds it.
  abbrev pub Kept : RoundState F → RoundManager F → Type 0
  Kept r m =
      (m.active_round ≡ none) ⊎ ((s : RoundState F) × (m.active_round ≡ some s) × SameRound r s)

  adopt-IsValidRound :
      (id : String) (p : Payload F) (now : F) (r : RoundState F)
      → adopt id p now ≡ ok r
      → IsValidRound (some r)
  unfolding adopt
  adopt-IsValidRound id nothing now r e = cc
  adopt-IsValidRound id (start_of x ps prompt g) now r e = ground (arith, sorted-IsSorted ps)
  adopt-IsValidRound id (done_of x) now r e = cc
  adopt-IsValidRound id (commit_of x s ps ts cs) now r e = cc
  adopt-IsValidRound id (scores_of x s ss) now r e = cc

  -- An accepted GEN_START leaves an active round alone, and else adopts the announced one.
  pub on_gen_start_cases :
      (m : RoundManager F) (env : Envelope F) (now : F) (m' : RoundManager F)
      → on_gen_start m env now ≡ ok m'
      → (m' ≡ m)
        ⊎ ((has_active m.active_round ≡ false)
            × ((r : RoundState F) × (adopt env.node_id env.payload now ≡ ok r)
                × (m' ≡ record m { active_round = some r })))
  unfolding on_gen_start
  on_gen_start_cases m env now m' e = elim (Bool-cases (has_active m.active_round)) [
    | inl a ↦ inl (ground arith)
    | inr b ↦ inr (b, go (adopt env.node_id env.payload now) refl (ground arith))
  ]
    where
      go :
          (x : Result (RoundState F))
          → adopt env.node_id env.payload now ≡ x
          → elim x [ ok r ↦ ok (record m { active_round = some r }) | raise err ↦ raise err ]
            ≡ ok m'
          → (r : RoundState F) × (adopt env.node_id env.payload now ≡ ok r)
            × (m' ≡ record m { active_round = some r })
      go (ok r) h k = (r, h, ground arith)
      go (raise err) h k = cc

module _ {F : Type 0} ⦃f : Float F⦄ where
  -- Every call keeps the manager valid.
  pub step-IsValid :
      (m : RoundManager F) (e : Event F) (m' : RoundManager F)
      → IsValid m
      → step m e ≡ ok m'
      → IsValid m'
  unfolding step start_round on_gen_done note_leader_activity check_leader_timeout
  step-IsValid m (start ps prompt g hex t u) m' v e = ground (arith, sorted-IsSorted ps)
  step-IsValid m (gen_start env now) m' v e = elim (on_gen_start_cases m env now m' e) [
    | inl same ↦ rw same v
    | inr (_, (r, h, k)) ↦ rw k (adopt-IsValidRound env.node_id env.payload now r h)
  ]
  step-IsValid m (gen_done env) m' v e = ground arith
  step-IsValid m (activity node ts) m' v e = ground arith
  step-IsValid m (timeout now) m' v e = ground arith

  -- One call ends the round, or keeps it with its leader and its participants.
  pub step-Kept :
      (m : RoundManager F) (e : Event F) (m' : RoundManager F) (r : RoundState F)
      → IsValid m
      → step m e ≡ ok m'
      → m.active_round ≡ some r
      → Kept r m'
  unfolding step start_round on_gen_done note_leader_activity check_leader_timeout
  step-Kept m (start ps prompt g hex t u) m' r v e h = absurd (ground arith)
  step-Kept m (gen_start env now) m' r v e h = elim (on_gen_start_cases m env now m' e) [
    | inl same ↦ inr (r, ground arith, SameRound-refl r)
    | inr (idle, _) ↦ absurd (ground arith)
  ]
  step-Kept m (gen_done env) m' r v e h =
      elim (Bool-cases (get_round_id env.payload == some r.round_id)) [
        | inl over ↦ inl (ground arith)
        | inr other ↦ inr (r, ground arith, SameRound-refl r)
      ]
  step-Kept m (activity node ts) m' r v e h = inr (
    if node == r.leader_id then record r { last_leader_seen = ts } else r,
    ground arith,
    ground arith,
  )
  step-Kept m (timeout now) m' r v e h = elim (Bool-cases (r.leader_id == m.self_id)) [
    | inl mine ↦ inr (r, ground arith, SameRound-refl r)
    | inr his ↦ elim (Bool-cases (f.lt round_leader_timeout (f.sub now r.last_leader_seen))) [
      | inl late ↦ inl (ground arith)
      | inr early ↦ inr (r, ground arith, SameRound-refl r)
    ]
  ]

  -- At some moment of the run the manager holds no round.
  abbrev pub FreedIn : RoundManager F → List (Event F) → Type 0
  FreedIn m [] = ⊥
  FreedIn m (e ∷ es) = elim (step m e) [
    | ok m' ↦ (m'.active_round ≡ none) ⊎ FreedIn m' es
    | raise _ ↦ ⊥
  ]

  -- Leadership changes only between rounds: after any calls, in any order, either the manager still
  -- holds the same round, with the leader and the participants that it had at the start, or at some
  -- moment in between it held none.
  pub run-SameRound :
      (es : List (Event F)) (m m' : RoundManager F) (r : RoundState F)
      → IsValid m
      → m.active_round ≡ some r
      → run m es ≡ ok m'
      → FreedIn m es ⊎ ((s : RoundState F) × (m'.active_round ≡ some s) × SameRound r s)
  run-SameRound [] m m' r v h e = inr (r, ground arith, SameRound-refl r)
  run-SameRound (x ∷ es) m m' r v h e = go (step m x) refl (λ m₁. run-SameRound es m₁ m')
    where
      go :
          (y : Result (RoundManager F))
          → step m x ≡ y
          → ((m₁ : RoundManager F) (s : RoundState F)
              → IsValid m₁
              → m₁.active_round ≡ some s
              → run m₁ es ≡ ok m'
              → FreedIn m₁ es ⊎ ((t : RoundState F) × (m'.active_round ≡ some t) × SameRound s t))
          → FreedIn m (x ∷ es) ⊎ ((s : RoundState F) × (m'.active_round ≡ some s) × SameRound r s)
      go (raise err) k ih = absurd (ground arith)
      go (ok m₁) k ih = elim (step-Kept m x m₁ r v k h) [
        | inl free ↦ inl (rw (k, FreedIn) (inl free))
        | inr (s, held, same) ↦ elim (ih m₁ s (step-IsValid m x m₁ v k) held (ground arith)) [
          | inl later ↦ inl (rw (k, FreedIn) (inr later))
          | inr (t, held', same') ↦ inr (t, held', SameRound-trans r s t same same')
        ]
      ]

  -- A round ends only by a GEN_DONE with its id, or because another node leads it and has been
  -- silent for longer than the timeout.
  pub step_ends :
      (m : RoundManager F) (e : Event F) (m' : RoundManager F) (r : RoundState F)
      → IsValid m
      → step m e ≡ ok m'
      → m.active_round ≡ some r
      → m'.active_round ≡ none
      → ((env : Envelope F) × (e ≡ gen_done env) × (get_round_id env.payload ≡ some r.round_id))
        ⊎ ((now : F) × (e ≡ timeout now)
            × (r.leader_id ≢ m.self_id)
            × (f.lt round_leader_timeout (f.sub now r.last_leader_seen) ≡ true))
  unfolding step start_round on_gen_done note_leader_activity check_leader_timeout
  step_ends m (start ps prompt g hex t u) m' r v e h k = absurd (ground arith)
  step_ends m (gen_start env now) m' r v e h k = elim (on_gen_start_cases m env now m' e) [
    | inl same ↦ absurd (ground arith)
    | inr (idle, _) ↦ absurd (ground arith)
  ]
  step_ends m (gen_done env) m' r v e h k = inl (env, refl, ground arith)
  step_ends m (activity node ts) m' r v e h k = absurd (ground arith)
  step_ends m (timeout now) m' r v e h k = inr (now, refl, ground arith, ground arith)
