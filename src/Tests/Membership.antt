-- ===== src/Tests/Membership.antt =====
-- A member that sees a lower id join and leave.
use ded_swarm.Base.{
  ◌≡◌, ◌-◌, refl, true, false, if◌then◌else◌, List, [], ◌∷◌, string_eq, option_eq, none, some,
  raise, system_exit, set_add,
}
use ded_swarm.Base.Dict.{lookup, insert, erase, keep, keys}
use ded_swarm.Base.Order.{sort_insert, sorted}
use ded_swarm.Float.{Ticks, ticks_float, Ticks-IsOrdered}
use ded_swarm.Config.{heartbeat_interval}
use ded_swarm.Protocol.{Envelope, hello, heartbeat, bye, nothing}
use ded_swarm.Peers
use ded_swarm.Peers.{mark_alive, mark_gone, alive_peers, leader, leader_changed}
use ded_swarm.Peers.Leader.{or_else}
use ded_swarm.Membership.{
  Turn, handle_envelope, init, due, keep_time, receive, turn, run_turns, beats, run, resolve_relays,
}
use ded_swarm.Membership.Announced.{last_announced, run_turns_announce}
use ded_swarm.Membership.Beats.{last_beat, run_turns_beat}

abbrev joins : Envelope Ticks
joins = record { msg_type = hello; node_id = "node-a"; ts = 4; payload = nothing }

abbrev turns : List (Turn Ticks)
turns =
    record { now = 3; env = none; checked = 3 }
    ∷ record { now = 4; env = some joins; checked = 4 }
    ∷ []

abbrev leaves : Turn Ticks
leaves = record { now = 5; env = some (record joins { msg_type = bye }); checked = 5 }

program : Unit {0}
unfolding init due keep_time receive handle_envelope turn run_turns Peers.init mark_alive mark_gone
    alive_peers leader leader_changed lookup insert erase keep keys sort_insert sorted set_add
    string_eq option_eq beats run resolve_relays
program = tt

tells :
    (run_turns {F = Ticks} (init "node-b") turns).1
    ≡ record { beat = true; leader = some "node-b" }
      ∷ record { beat = false; leader = some "node-a" }
      ∷ []
unfolding program
tells = refl

no_relays : resolve_relays "prod" ≡ raise system_exit
unfolding program
no_relays = refl

run_turns_announce_example :
    let (n₁, told) = run_turns {F = Ticks} (init "node-b") turns in
    let (n₂, now) = turn n₁ leaves in
    or_else now.leader (last_announced (init {F = Ticks} "node-b").peers.prev_leader told)
    ≡ leader n₂.peers 5
run_turns_announce_example = run_turns_announce turns (init "node-b") leaves

publishes : run {F = Ticks} (init "node-b") turns ≡ hello ∷ heartbeat ∷ bye ∷ []
unfolding program
publishes = refl

run_turns_beat_example :
    let (n₁, told) = run_turns {F = Ticks} (init "node-b") turns in
    let since = last_beat (init {F = Ticks} "node-b").last_heartbeat turns told in
    let (n₂, now) = turn n₁ leaves in
    (now.beat ≡ ticks_float.le heartbeat_interval (5 - since))
    × (ticks_float.le heartbeat_interval (5 - (if now.beat then 5 else since)) ≡ false)
run_turns_beat_example = run_turns_beat Ticks-IsOrdered turns (init "node-b") leaves refl
