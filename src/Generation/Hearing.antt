-- ===== src/Generation/Hearing.antt =====
-- A barrier (`collect_until`, node/swarm.py) that expects one sender, and hears it in time.
use ded_swarm.Base.{
  ℕ, ◌≡◌, refl, true, List, [], ◌∷◌, nat_eq, string_eq, option_eq, pair_eq, String, some, ok, arith,
}
use ded_swarm.Base.Dict.{lookup, insert, keep, erase}
use ded_swarm.Float.{Float}
use ded_swarm.Protocol.{msg_type_eq, MsgType, Envelope}
use ded_swarm.Swarm.{
  Key, SwarmNode, Tick, Collected, note_sender, file_message, handle, dispatch, pump_once, key_of,
  accept, discard, collect_until, collect_loop, missing, early, close_key,
}
use ded_swarm.Generation.Alone.{loop_nobody}
use ded_swarm.Swarm.Inbox.{is_gen_message}

discard-sole : (s : String) → discard s (s ∷ []) ≡ []
unfolding discard
discard-sole s = ground arith

module _ {F : Type 0} where
  note_sender-gen_inbox :
      (n : SwarmNode F) (env : Envelope F) (ts : F) → (note_sender n env ts).gen_inbox ≡ n.gen_inbox
  unfolding note_sender
  note_sender-gen_inbox n env ts = ground arith

  handle_gen_message :
      (n : SwarmNode F) (env : Envelope F) (ts : F)
      → is_gen_message env.msg_type ≡ true
      → handle n env ts ≡ ok (record n { gen_inbox = file_message n.gen_inbox env })
  unfolding handle
  handle_gen_message n env ts h = ground arith

  file_message-empty : (env : Envelope F) → erase (key_of env) (file_message [] env) ≡ []
  unfolding file_message insert erase lookup
  file_message-empty env = ground arith

  accept-sole :
      (env : Envelope F)
      → accept (key_of env) (some env) [] (env.node_id ∷ []) ≡ ((env.node_id, env.payload) ∷ [], [])
  unfolding accept insert lookup
  accept-sole env = ground (arith, discard-sole env.node_id)

module _ {F : Type 0} ⦃f : Float F⦄ where
  -- The node after it has read the message.
  heard : SwarmNode F → Envelope F → F → SwarmNode F
  heard n env ts = record (note_sender n env ts) { gen_inbox = file_message n.gen_inbox env }

  pump_once_gen_message :
      (n : SwarmNode F) (t : Tick F) (env : Envelope F)
      → t.env ≡ some env
      → is_gen_message env.msg_type ≡ true
      → pump_once n t ≡ ok (heard n env t.receive_ts)
  unfolding pump_once dispatch heard
  pump_once_gen_message n t env h gen =
      rw
        (
          h,
          handle_gen_message (note_sender n env t.receive_ts) env t.receive_ts gen,
          note_sender-gen_inbox n env t.receive_ts,
        )
        refl

  collect_loop_sole :
      (deadline : F) (t : Tick F) (env : Envelope F) (ticks : List (Tick F)) (n : SwarmNode F)
      → t.env ≡ some env
      → is_gen_message env.msg_type ≡ true
      → f.lt t.now deadline ≡ true
      → collect_loop (key_of env) deadline (t ∷ ticks) n [] (env.node_id ∷ [])
        ≡ ok (
            some (record {
              node = heard n env t.receive_ts;
              received = (env.node_id, env.payload) ∷ [];
              ticks = ticks;
            }))
  unfolding collect_loop
  collect_loop_sole deadline t env ticks n h gen in_time = ground (
    arith,
    pump_once_gen_message n t env h gen,
    accept-sole env,
    loop_nobody (key_of env) deadline ticks (heard n env t.receive_ts)
        ((env.node_id, env.payload) ∷ []),
  )

  early-empty :
      (n : SwarmNode F) (key : Key) (expected : List String)
      → n.gen_inbox ≡ []
      → early n key expected ≡ []
  unfolding early lookup keep
  early-empty n key expected empty = rw empty refl

  -- The barrier opens at the message, and leaves the inbox empty.
  pub collect_until_sole :
      (timeout started : F) (t : Tick F) (env : Envelope F) (ticks : List (Tick F))
      (n : SwarmNode F) (msg_type : MsgType) (round_id : String) (sync_seq : ℕ)
      → t.env ≡ some env
      → is_gen_message env.msg_type ≡ true
      → key_of env ≡ (msg_type, (some round_id, some sync_seq))
      → f.lt t.now (f.add started timeout) ≡ true
      → n.gen_inbox ≡ []
      → (c : Collected F) × (collect_until msg_type round_id sync_seq
            (env.node_id ∷ [])
            timeout
            started
            (t ∷ ticks)
            n
          ≡ ok (some c))
        × (c.received ≡ (env.node_id, env.payload) ∷ [])
        × (c.ticks ≡ ticks)
        × (c.node.gen_inbox ≡ [])
  unfolding collect_until close_key missing heard lookup
  collect_until_sole timeout started t env ticks n msg_type round_id sync_seq h gen key in_time
        empty =
      (
        record {
          node = record (heard n env t.receive_ts) {
            gen_inbox = erase (key_of env) (file_message n.gen_inbox env);
          };
          received = (env.node_id, env.payload) ∷ [];
          ticks = ticks;
        },
        rw
            (
              ← key,
              early-empty n (key_of env) (env.node_id ∷ []) empty,
              collect_loop_sole (f.add started timeout) t env ticks n h gen in_time,
            )
            refl,
        refl,
        refl,
        rw (empty, file_message-empty env) refl,
      )
