-- ===== src/Config.antt =====
-- common/config.py: the timing constants and the relay addresses.
use ded_swarm.Base.{ℕ, List, [], ◌∷◌, String}
use ded_swarm.Float.{Float}

module _ {F : Type 0} ⦃f : Float F⦄ where
  -- HEARTBEAT_INTERVAL = 2.0
  abbrev pub heartbeat_interval : F
  heartbeat_interval = f.of_nat 2

  -- PEER_TIMEOUT = 6.0
  abbrev pub peer_timeout : F
  peer_timeout = f.of_nat 6

  -- ROUND_LEADER_TIMEOUT = 8.0
  abbrev pub round_leader_timeout : F
  round_leader_timeout = f.of_nat 8

  -- SYNC_BARRIER_TIMEOUT = 45.0
  abbrev pub sync_barrier_timeout : F
  sync_barrier_timeout = f.of_nat 45

-- (host, pub_port, sub_port)
abbrev pub Relay : Type 0
Relay = String × ℕ × ℕ

abbrev pub relays : List Relay
relays = []

abbrev pub local_relays : List Relay
local_relays = ("127.0.0.1", 5555, 5556) ∷ []
