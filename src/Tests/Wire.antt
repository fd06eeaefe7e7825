-- ===== src/Tests/Wire.antt =====
-- A COMMIT on the wire, with a codec whose bytes are the values themselves.
use ded_swarm.Base.{
  ℕ, String, contains, ap, ◌≢◌, ◌==◌, ◌≡◌, ◌^◌, refl, true, false, List, [], ◌∷◌, ◌++◌, some,
  if◌then◌else◌, ok, raise, overflow_error, value_error, string_eq, arith,
}
use ded_swarm.Float.{Ticks, ticks_float}
use ded_swarm.Peers
use ded_swarm.Peers.{alive_peers}
use ded_swarm.Swarm.{SwarmNode, init, dispatch}
use ded_swarm.Swarm.Heartbeat.{
  heartbeat_loop, AreHeartbeats, heartbeat_of, heartbeat_loop_keeps_alive,
}
use ded_swarm.Protocol.{Payload, Envelope, commit, commit_of}
use ded_swarm.Wire.{
  Value, text, integer, dict, entry, no_entry, ints_fit, text_keys, Codec, IsCodec, encode, decode,
  payload_value, commit_value, envelope_value,
}
use ded_swarm.Wire.Published.{ReadsAs, decode-encode}
use ded_swarm.Transport
use ded_swarm.Transport.{Transport, publish, poll_recv}
use ded_swarm.Transport.Delivery.{copies, poll_times, poll_recv-publish}

abbrev plain : Codec Ticks (Value Ticks)
plain = record {
  packb = λ v. if ints_fit v then ok v else raise overflow_error;
  unpackb = λ b. if text_keys b then ok b else raise value_error;
  utf8 = text;
}

plain-IsCodec : IsCodec Ticks (Value Ticks) plain
plain-IsCodec = record {
  packs = λ v h. (v, rw h refl);
  unpacks = λ v b run keys. ground arith;
  strict_keys = λ v b run keys. ground arith;
}

abbrev settled : Payload Ticks
settled = commit_of "r1" 3 (10 ∷ 20 ∷ []) (500 ∷ 700 ∷ []) (90 ∷ 99 ∷ [])

abbrev settled_envelope : Envelope Ticks
settled_envelope = record { msg_type = commit; node_id = "node-a"; ts = 7; payload = settled }

-- A dict with a number for a key is packed, and cannot be unpacked.
number_key :
    decode plain (text "node-a") (dict (entry (integer 10) (integer 500) no_entry))
    ≡ raise value_error
unfolding decode text_keys
number_key = refl

-- A position of 65 bits is not packed.
too_long :
    encode plain "node-a" commit (commit_of "r1" 3 (2 ^ 64 ∷ []) [] []) 7 ≡ raise overflow_error
unfolding encode ints_fit envelope_value payload_value commit_value
too_long = refl

no_relays : Transport.init {Bytes = Value Ticks} [] ≡ raise value_error
unfolding Transport.init
no_relays = refl

abbrev idle : Transport (Value Ticks)
idle = record { relays = ("127.0.0.1", 5555, 5556) ∷ []; sent = []; received = []; closed = false }

b-ne-a : (heartbeat_of {F = Ticks} "node-b" 1).node_id ≢ "node-a"
unfolding string_eq
b-ne-a e = let read : true ≡ false = ap (λ (s : String). s == "node-b") e in cc

decode-encode_example :
    (topic : Value Ticks) × (body : Value Ticks) × (v : Value Ticks) × (encode plain "node-a" commit
        settled 7
      ≡ ok (topic, body))
    × (decode plain topic body ≡ ok v)
    × ReadsAs v (record { msg_type = commit; node_id = "node-a"; ts = 7; payload = settled })
decode-encode_example = decode-encode plain plain-IsCodec "node-a" commit settled 7 (ground arith)

poll_recv-publish_example :
    (t : Transport (Value Ticks)) × (frame : Value Ticks × Value Ticks) × (v : Value Ticks)
    × (publish plain idle "node-a" commit settled 7 ≡ ok t)
    × (t.sent ≡ [] ++ (frame ∷ []))
    × ReadsAs v (record { msg_type = commit; node_id = "node-a"; ts = 7; payload = settled })
    × ((n : ℕ) (u : Transport (Value Ticks)) (rest : List (Value Ticks × Value Ticks))
        → u.closed ≡ false
        → poll_times plain n (record u { received = copies n frame ++ rest })
          ≡ ok (copies n (some v), record u { received = rest }))
poll_recv-publish_example =
    poll_recv-publish plain plain-IsCodec idle "node-a" commit settled 7 refl (ground arith)

-- The heartbeat thread of node-b at two of its turns, and node-a, which hears it.
heartbeat_loop_keeps_alive_example :
    ((t : Transport (Value Ticks)) × (frames : List (Value Ticks × Value Ticks)) × (heartbeat_loop
          plain
          (init "node-b")
          (1 ∷ 3 ∷ [])
          idle
        ≡ ok t)
      × (t.sent ≡ [] ++ frames)
      × AreHeartbeats plain "node-b" (1 ∷ 3 ∷ []) frames)
    × ((m : SwarmNode Ticks) × (dispatch (init "node-a") (heartbeat_of "node-b" 999) 4 ≡ ok m)
        × (contains (alive_peers m.peers 10) "node-b" ≡ true))
unfolding init Peers.init
heartbeat_loop_keeps_alive_example =
    heartbeat_loop_keeps_alive plain plain-IsCodec (init "node-b") (1 ∷ 3 ∷ []) idle (init "node-a")
      999 4 10 refl b-ne-a tt refl
