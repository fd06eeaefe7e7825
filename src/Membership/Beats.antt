-- ===== src/Membership/Beats.antt =====
-- The heartbeats of a node (node/node.py), over any number of turns.
use ded_swarm.Base.{◌≡◌, refl, ap, ◌∙◌, false, string_eq, List, [], ◌∷◌, if◌then◌else◌, arith}
use ded_swarm.Float.{Float, IsOrdered}
use ded_swarm.Config.{heartbeat_interval}
use ded_swarm.Membership.{
  Node, Turn, Told, handle_envelope, due, keep_time, receive, turn, run_turns,
}

-- The clock at the last turn that published a heartbeat.
abbrev pub last_beat : {F : Type 0} → F → List (Turn F) → List Told → F
last_beat since [] told = since
last_beat since (t ∷ ts) [] = since
last_beat since (t ∷ ts) (x ∷ xs) = last_beat (if x.beat then t.now else since) ts xs

module _ {F : Type 0} ⦃f : Float F⦄ where
  turn-last_heartbeat :
      (n : Node F) (t : Turn F)
      → (turn n t).0.last_heartbeat ≡ (if (turn n t).1.beat then t.now else n.last_heartbeat)
  unfolding turn receive handle_envelope keep_time
  turn-last_heartbeat n t = ground arith

  run_turns-last_heartbeat :
      (ts : List (Turn F)) (n : Node F)
      → (run_turns n ts).0.last_heartbeat ≡ last_beat n.last_heartbeat ts (run_turns n ts).1
  unfolding run_turns
  run_turns-last_heartbeat [] n = refl
  run_turns-last_heartbeat (t ∷ ts) n =
      run_turns-last_heartbeat ts (turn n t).0
      ∙ ap (λ x. last_beat x ts (run_turns (turn n t).0 ts).1) (turn-last_heartbeat n t)

  -- However many turns went before it, a turn publishes a heartbeat exactly if the interval has
  -- passed since the last one, and after the turn less than the interval has passed since.
  pub run_turns_beat :
      (laws : IsOrdered F) (ts : List (Turn F)) (n : Node F) (t : Turn F)
      → f.le heartbeat_interval f.zero ≡ false
      → let (n₁, told) = run_turns n ts in
        let since = last_beat n.last_heartbeat ts told in
        let (n₂, now) = turn n₁ t in
        (now.beat ≡ f.le heartbeat_interval (f.sub t.now since))
        × (f.le heartbeat_interval (f.sub t.now (if now.beat then t.now else since)) ≡ false)
  unfolding turn due
  run_turns_beat laws ts n t positive = rw (← (run_turns-last_heartbeat ts n)) (
    refl,
    ground
        (arith, laws.le_trans heartbeat_interval (f.sub t.now t.now) f.zero, laws.sub_self t.now),
  )
