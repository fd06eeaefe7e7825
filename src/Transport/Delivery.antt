-- ===== src/Transport/Delivery.antt =====
-- From `publish` at one node to `poll_recv` at another (node/transport.py).
use ded_swarm.Base.{
  ℕ, zero, suc, ◌≡◌, refl, false, List, [], ◌∷◌, ◌++◌, String, Option, some, Result, ok, ◌>>=◌,
}
use ded_swarm.Protocol.{MsgType, Payload}
use ded_swarm.Wire.{Value, Codec, IsCodec, decode}
use ded_swarm.Wire.Published.{NumbersFit, ReadsAs, decode-encode}
use ded_swarm.Transport.{Transport, publish, poll_recv, publish_open, poll_recv_open}

-- `n` copies of a frame.
abbrev pub copies {ℓ} : {A : Type ℓ} → ℕ → A → List A
copies zero x = []
copies (suc n) x = x ∷ copies n x

module _ {F Bytes : Type 0} (codec : Codec F Bytes) where
  -- `n` polls, and what they return.
  unfoldable pub poll_times :
      ℕ → Transport Bytes → Result (List (Option (Value F)) × Transport Bytes)
  poll_times zero u = ok ([], u)
  poll_times (suc n) u =
      poll_recv codec u >>= λ (v, u'). poll_times n u' >>= λ (vs, u''). ok (v ∷ vs, u'')

  module _ (law : IsCodec F Bytes codec) where
    poll_times-copies :
        (n : ℕ) (topic body : Bytes) (v : Value F) (u : Transport Bytes)
        (rest : List (Bytes × Bytes))
        → u.closed ≡ false
        → decode codec topic body ≡ ok v
        → poll_times n (record u { received = copies n (topic, body) ++ rest })
          ≡ ok (copies n (some v), record u { received = rest })
    unfolding poll_times
    poll_times-copies zero topic body v u rest live h = refl
    poll_times-copies (suc n) topic body v u rest live h =
        rw
          (
            poll_recv_open codec u topic body (copies n (topic, body) ++ rest) v live h,
            poll_times-copies n topic body v u rest live h,
          )
          refl

    -- Publishing a message whose numbers have 64 bits on a transport that is not closed sends one
    -- frame, whatever was sent before. A node whose transport is not closed, and to which that frame is
    -- delivered by any number of relays, reads the message once for each of them, with the type, sender, time, round and sync that were published, and then what waits
    -- behind.
    pub poll_recv-publish :
        (t : Transport Bytes) (node_id : String) (msg_type : MsgType) (payload : Payload F) (ts : F)
        → t.closed ≡ false
        → NumbersFit payload
        → (t' : Transport Bytes) × (frame : Bytes × Bytes) × (v : Value F) × (publish codec t
              node_id msg_type payload ts
            ≡ ok t')
          × (t'.sent ≡ t.sent ++ (frame ∷ []))
          × ReadsAs v
              (record { msg_type = msg_type; node_id = node_id; ts = ts; payload = payload })
          × ((n : ℕ) (u : Transport Bytes) (rest : List (Bytes × Bytes))
              → u.closed ≡ false
              → poll_times n (record u { received = copies n frame ++ rest })
                ≡ ok (copies n (some v), record u { received = rest }))
    poll_recv-publish t node_id msg_type payload ts live h =
        let (topic, body, v, sends, reads, same) =
          decode-encode codec law node_id msg_type payload ts h in
        (
          record t { sent = t.sent ++ ((topic, body) ∷ []) },
          (topic, body),
          v,
          publish_open codec t node_id msg_type payload ts (topic, body) live sends,
          refl,
          same,
          λ n u rest open_. poll_times-copies n topic body v u rest open_ reads,
        )
