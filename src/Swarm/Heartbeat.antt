-- ===== src/Swarm/Heartbeat.antt =====
-- node/swarm.py: the thread that sends heartbeats over the transport, and `close`. `wakes` are the
-- times at which the thread's loop turns; it sleeps HEARTBEAT_INTERVAL between two of them.
use mathlib.Core.List.{append-nil, append_assoc}
use ded_swarm.Base.{
  ◌≡◌, ◌≢◌, refl, sym, ◌∙◌, true, false, List, [], ◌∷◌, ◌++◌, string_eq, String, contains, Result,
  ok, ◌>>=◌, arith,
}
use ded_swarm.Float.{Float}
use ded_swarm.Protocol.{heartbeat, nothing, Envelope}
use ded_swarm.Wire.{Value, Codec, IsCodec, decode}
use ded_swarm.Wire.Published.{ReadsAs, decode-encode}
use ded_swarm.Transport
use ded_swarm.Transport.{Transport, publish, publish_open}
use ded_swarm.Peers.{alive_peers}
use ded_swarm.Peers.Liveness.{IsValid, contains-alive_peers-mark_alive}
use ded_swarm.Swarm.{SwarmNode, send_heartbeat, note_sender, handle, dispatch}

module _ {Bytes : Type 0} where
  -- `SwarmNode.close`
  unfoldable pub close : Transport Bytes → Transport Bytes
  close = Transport.close

module _ {F : Type 0} where
  -- What a heartbeat says.
  abbrev pub heartbeat_of : String → F → Envelope F
  heartbeat_of id now = record { msg_type = heartbeat; node_id = id; ts = now; payload = nothing }

module _ {F Bytes : Type 0} (codec : Codec F Bytes) where
  -- A turn of the thread's loop.
  unfoldable pub beat_once : SwarmNode F → F → Transport Bytes → Result (Transport Bytes)
  unfolding send_heartbeat
  beat_once n now t =
      let (msg_type, payload) = send_heartbeat n in publish codec t n.id msg_type payload now

  -- `_loop`
  unfoldable pub heartbeat_loop : SwarmNode F → List F → Transport Bytes → Result (Transport Bytes)
  heartbeat_loop n [] t = ok t
  heartbeat_loop n (now ∷ wakes) t = beat_once n now t >>= λ t'. heartbeat_loop n wakes t'

  -- A frame that another node reads as the heartbeat of `id` at the time.
  abbrev pub IsHeartbeat : String → F → Bytes × Bytes → Type 0
  IsHeartbeat id now frame =
      (v : Value F) × (decode codec frame.0 frame.1 ≡ ok v) × ReadsAs v (heartbeat_of id now)

  abbrev pub AreHeartbeats : String → List F → List (Bytes × Bytes) → Type 0
  AreHeartbeats id [] [] = Unit
  AreHeartbeats id (now ∷ wakes) (frame ∷ frames) =
      IsHeartbeat id now frame × AreHeartbeats id wakes frames
  AreHeartbeats id _ _ = ⊥

module _ {F : Type 0} ⦃f : Float F⦄ where
  -- Another node that dispatches the heartbeat counts the sender as alive until the timeout after
  -- its receipt.
  heartbeat_alive :
      (m : SwarmNode F) (id : String) (sent seen now : F)
      → id ≢ m.id
      → IsValid m.peers
      → f.le (f.sub now seen) m.peers.timeout ≡ true
      → (m' : SwarmNode F) × (dispatch m (heartbeat_of id sent) seen ≡ ok m')
        × (contains (alive_peers m'.peers now) id ≡ true)
  unfolding dispatch note_sender handle
  heartbeat_alive m id sent seen now other valid recent =
      let (_, alive) = contains-alive_peers-mark_alive m.peers now id id seen valid in
      (note_sender m (heartbeat_of id sent) seen, ground arith, ground (arith, alive))

module _ {F Bytes : Type 0} ⦃f : Float F⦄ (codec : Codec F Bytes) (law : IsCodec F Bytes codec)
    (n : SwarmNode F) where
  heartbeat_loop_sends :
      (wakes : List F) (t : Transport Bytes)
      → t.closed ≡ false
      → (t' : Transport Bytes) × (frames : List (Bytes × Bytes)) × (heartbeat_loop codec n wakes t
          ≡ ok t')
        × (t'.sent ≡ t.sent ++ frames)
        × AreHeartbeats codec n.id wakes frames
  unfolding heartbeat_loop beat_once send_heartbeat
  heartbeat_loop_sends [] t live = (t, [], refl, sym (append-nil t.sent), tt)
  heartbeat_loop_sends (now ∷ wakes) t live =
      let (topic, body, v, sends, decodes, reads) =
        decode-encode codec law n.id heartbeat nothing now tt in
      let frame : Bytes × Bytes = (topic, body) in
      let (t', frames, rest, all_sent, beats) =
        heartbeat_loop_sends wakes (record t { sent = t.sent ++ (frame ∷ []) }) live in
      (
        t',
        frame ∷ frames,
        rw (publish_open codec t n.id heartbeat nothing now frame live sends) rest,
        all_sent ∙ append_assoc t.sent (frame ∷ []) frames,
        ((v, decodes, reads), beats),
      )

  -- On a transport that is not closed, the heartbeat thread raises at none of its turns, and sends one
  -- frame at each, behind all that was sent before; whoever decodes it reads a heartbeat of the node and of that time. Another node that
  -- dispatches a heartbeat of the node counts it as alive at every time that lies no longer than its
  -- timeout after the receipt, whatever time the heartbeat claims.
  pub heartbeat_loop_keeps_alive :
      (wakes : List F) (t : Transport Bytes) (m : SwarmNode F) (claimed seen now : F)
      → t.closed ≡ false
      → n.id ≢ m.id
      → IsValid m.peers
      → f.le (f.sub now seen) m.peers.timeout ≡ true
      → ((t' : Transport Bytes) × (frames : List (Bytes × Bytes)) × (heartbeat_loop codec n wakes t
            ≡ ok t')
          × (t'.sent ≡ t.sent ++ frames)
          × AreHeartbeats codec n.id wakes frames)
        × ((m' : SwarmNode F) × (dispatch m (heartbeat_of n.id claimed) seen ≡ ok m')
            × (contains (alive_peers m'.peers now) n.id ≡ true))
  heartbeat_loop_keeps_alive wakes t m claimed seen now live other valid recent = (
    heartbeat_loop_sends wakes t live,
    heartbeat_alive m n.id claimed seen now other valid recent,
  )
