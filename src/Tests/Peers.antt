-- ===== src/Tests/Peers.antt =====
-- Two peer tables, with times in whole ticks.
use ded_swarm.Base.{
  ◌≡◌, refl, true, [], ◌∷◌, nat_eq, string_eq, option_eq, String, none, some, contains, set_add,
  arith,
}
use ded_swarm.Base.Dict.{lookup, insert, erase, keep, keys}
use ded_swarm.Base.Order.{◌≼◌, sort_insert, sorted}
use ded_swarm.Base.Text.{string_ord}
use ded_swarm.Float.{Ticks, ticks_float}
use ded_swarm.Peers.{
  PeerTable, init, mark_alive, mark_gone, alive_peers, leader, is_leader, leader_changed,
}
use ded_swarm.Peers.Liveness.{IsValid}
use ded_swarm.Peers.Leader.{leader_least}

abbrev node_a : String
node_a = "node-a"

abbrev node_b : String
node_b = "node-b"

abbrev node_c : String
node_c = "node-c"

-- node-b has heard of node-a at 10 and of node-c at 12.
abbrev table : PeerTable Ticks
table = record {
  self_id = node_b;
  timeout = 6;
  last_seen = (node_a, 10) ∷ (node_c, 12) ∷ [];
  prev_leader = none;
}

-- node-a has heard of the others.
abbrev table_of_a : PeerTable Ticks
table_of_a = record {
  self_id = node_a;
  timeout = 6;
  last_seen = (node_c, 11) ∷ (node_b, 13) ∷ [];
  prev_leader = none;
}

program : Unit {0}
unfolding init mark_alive mark_gone alive_peers leader is_leader leader_changed lookup insert erase
    keep sort_insert sorted set_add keys string_eq option_eq
program = tt

all_alive : alive_peers table 15 ≡ node_a ∷ node_b ∷ node_c ∷ []
unfolding program
all_alive = refl

leader_dies : leader table 17 ≡ some node_b
unfolding program
leader_dies = refl

all_alive_for_a : alive_peers table_of_a 15 ≡ node_a ∷ node_b ∷ node_c ∷ []
unfolding program
all_alive_for_a = refl

a_leads : is_leader table_of_a 15 ≡ true
unfolding program
a_leads = refl

table-IsValid : IsValid table
unfolding lookup string_eq
table-IsValid = ground arith

still_there : contains (alive_peers table 16) node_a ≡ true
unfolding program
still_there = refl

leader_least_example :
    (l : String) × (leader table 15 ≡ some l)
    × (contains (alive_peers table 15) l ≡ true)
    × ((id : String) → contains (alive_peers table 15) id ≡ true → l ≼ id)
leader_least_example = leader_least table 15

same_view :
    (id : String) → contains (alive_peers table 15) id ≡ contains (alive_peers table_of_a 15) id
same_view id = rw (all_alive, all_alive_for_a) refl
