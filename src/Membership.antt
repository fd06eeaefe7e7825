-- ===== src/Membership.antt =====
-- node/node.py: the membership program, which runs the peer table on its own. A turn of its loop is
-- given by what the turn reads: the clock, what `poll_recv` returns, and the clock again in
-- `leader_changed`. What it publishes and announces is returned.
pub mod Announced
pub mod Beats
pub mod Stopped
use ded_swarm.Base.{
  ℕ, Bool, true, false, List, [], ◌∷◌, ◌++◌, ◌==◌, string_eq, String, Option, none, some,
  if◌then◌else◌, not, Result, ok, raise, value_error, system_exit,
}
use ded_swarm.Float.{Float}
use ded_swarm.Config.{heartbeat_interval, peer_timeout, Relay, relays, local_relays}
use ded_swarm.Protocol.{MsgType, heartbeat, hello, bye, Envelope}
use ded_swarm.Peers
use ded_swarm.Peers.{PeerTable, mark_alive, mark_gone, leader_changed, alive_peers}

pub record Node (F : Type 0) : Type 0 where
  pub id : String
  pub peers : PeerTable F
  pub last_heartbeat : F

pub record Turn (F : Type 0) : Type 0 where
  pub now : F
  pub env : Option (Envelope F)
  pub checked : F

-- What a turn tells: whether it publishes a heartbeat, and the leader that it announces, if it does.
pub record Told : Type 0 where
  pub beat : Bool
  pub leader : Option String

module _ {F : Type 0} where
  unfoldable pub handle_envelope : Node F → Envelope F → Node F
  handle_envelope n env = if env.node_id == n.id then n else elim env.msg_type [
    | heartbeat ↦ record n { peers = mark_alive n.peers env.node_id env.ts }
    | hello ↦ record n { peers = mark_alive n.peers env.node_id env.ts }
    | bye ↦ record n { peers = mark_gone n.peers env.node_id }
    | _ ↦ n
  ]

module _ {F : Type 0} ⦃f : Float F⦄ where
  -- `Node.__init__`, and `last_heartbeat = 0.0`
  unfoldable pub init : String → Node F
  init node_id = record {
    id = node_id;
    peers = Peers.init node_id peer_timeout;
    last_heartbeat = f.zero;
  }

  -- `now - last_heartbeat >= config.HEARTBEAT_INTERVAL`
  unfoldable pub due : Node F → F → Bool
  due n now = f.le heartbeat_interval (f.sub now n.last_heartbeat)

  unfoldable pub keep_time : Node F → F → Node F
  keep_time n now = if due n now then record n { last_heartbeat = now } else n

  unfoldable pub receive : Node F → Option (Envelope F) → Node F
  receive n none = n
  receive n (some env) = handle_envelope n env

  unfoldable pub turn : Node F → Turn F → Node F × Told
  turn n t =
      let heard = receive (keep_time n t.now) t.env in
      let (peers, changed) = leader_changed heard.peers t.checked in
      (record heard { peers = peers }, record { beat = due n t.now; leader = changed })

  -- The loop of `run`, for the turns that it makes before it is stopped.
  unfoldable pub run_turns : Node F → List (Turn F) → Node F × List Told
  run_turns n [] = (n, [])
  run_turns n (t ∷ ts) =
      let (n', told) = turn n t in let (n'', rest) = run_turns n' ts in (n'', told ∷ rest)

-- The heartbeats of some turns.
unfoldable pub beats : List Told → List MsgType
beats [] = []
beats (t ∷ ts) = let rest = beats ts in if t.beat then heartbeat ∷ rest else rest

module _ {F : Type 0} ⦃f : Float F⦄ where
  -- `run`, until it is stopped: what it publishes, HELLO first and BYE last.
  unfoldable pub run : Node F → List (Turn F) → List MsgType
  run n ts = hello ∷ (beats (run_turns n ts).1 ++ (bye ∷ []))

-- What `_announce_leader_if_changed` prints.
pub record Announcement : Type 0 where
  pub leader : String
  pub role : String
  pub alive : List String

module _ {F : Type 0} ⦃f : Float F⦄ where
  -- `changed` is what `leader_changed` returned, and `now` the time at which `alive_peers` is called.
  unfoldable pub announce : Node F → (changed : Option String) → F → Option Announcement
  announce n none now = none
  announce n (some leader) now = some (record {
    leader = leader;
    role = if leader == n.id then "LEADER" else "follower";
    alive = alive_peers n.peers now;
  })

-- `while self._running`: the turns that are made of those that the world has ready, each with whether
-- SIGTERM arrives in its course. The handler lets the turn end.
unfoldable pub turns_made : {F : Type 0} → (running : Bool) → List (Turn F × Bool) → List (Turn F)
turns_made false events = []
turns_made true [] = []
turns_made true ((t, sigterm) ∷ events) = t ∷ turns_made (not sigterm) events

-- `_resolve_relays`
unfoldable pub resolve_relays : String → Result (List Relay)
resolve_relays spec =
    if spec == "local"
    then ok local_relays
    else if spec == "prod"
    then elim relays [ [] ↦ raise system_exit | r ∷ rs ↦ ok (r ∷ rs) ]
    else raise value_error
