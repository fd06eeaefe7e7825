-- ===== src/Transport.antt =====
-- node/transport.py: the two sockets of a node. ZeroMQ is outside: a frame that is published is one
-- more of the frames that were sent to every relay, and the frames that the relays deliver wait to
-- be received.
pub mod Delivery
use ded_swarm.Base.{
  Bool, true, false, List, [], ◌∷◌, ◌++◌, String, Option, none, some, Result, ok, raise, ◌>>=◌,
  value_error, zmq_error, if◌then◌else◌, ◌≡◌, arith,
}
use ded_swarm.Config.{Relay}
use ded_swarm.Protocol.{MsgType, Payload}
use ded_swarm.Wire.{Value, Codec, encode, decode}

pub record Transport (Bytes : Type 0) : Type 0 where
  pub relays : List Relay
  pub sent : List (Bytes × Bytes)
  pub received : List (Bytes × Bytes)
  pub closed : Bool

module _ {Bytes : Type 0} where
  -- `Transport.__init__`: both sockets connect to every relay.
  unfoldable pub init : List Relay → Result (Transport Bytes)
  init [] = raise value_error
  init (r ∷ rs) = ok (record { relays = r ∷ rs; sent = []; received = []; closed = false })

  unfoldable pub close : Transport Bytes → Transport Bytes
  close t = record t { closed = true }

module _ {F Bytes : Type 0} (codec : Codec F Bytes) where
  -- `ts` is the time of the call. A socket that is closed raises ZMQError.
  unfoldable pub publish :
      Transport Bytes → String → MsgType → Payload F → F → Result (Transport Bytes)
  publish t node_id msg_type payload ts = encode codec node_id msg_type payload ts >>= λ frame.
      if t.closed then raise zmq_error else ok (record t { sent = t.sent ++ (frame ∷ []) })

  -- `none` where nothing arrives in time. A socket that is closed raises ZMQError.
  unfoldable pub poll_recv : Transport Bytes → Result (Option (Value F) × Transport Bytes)
  poll_recv t = if t.closed then raise zmq_error else elim t.received [
    | [] ↦ ok (none, t)
    | (topic, body) ∷ rest ↦
        decode codec topic body >>= λ env. ok (some env, record t { received = rest })
  ]

  -- On a transport that is not closed, a message that can be packed is sent.
  pub publish_open :
      (t : Transport Bytes) (node_id : String) (msg_type : MsgType) (payload : Payload F) (ts : F)
      (frame : Bytes × Bytes)
      → t.closed ≡ false
      → encode codec node_id msg_type payload ts ≡ ok frame
      → publish t node_id msg_type payload ts ≡ ok (record t { sent = t.sent ++ (frame ∷ []) })
  unfolding publish
  publish_open t node_id msg_type payload ts frame live sends = ground (arith, live, sends)

  -- The next frame is taken from a transport that is not closed.
  pub poll_recv_open :
      (t : Transport Bytes) (topic body : Bytes) (rest : List (Bytes × Bytes)) (v : Value F)
      → t.closed ≡ false
      → decode codec topic body ≡ ok v
      → poll_recv (record t { received = (topic, body) ∷ rest })
        ≡ ok (some v, record t { received = rest })
  unfolding poll_recv
  poll_recv_open t topic body rest v live reads = ground (arith, live, reads)
