-- ===== src/Swarm.antt =====
-- node/swarm.py: the one reader of the socket, and its inbox for the messages of a sync. What the
-- transport delivers is a list of ticks, one for each turn of a loop: the time that the loop's test
-- reads, what `poll_recv` returns, and the time of receipt. Messages that go out are returned.
pub mod Inbox
pub mod Collect
pub mod Barrier
pub mod Senders
pub mod Origin
pub mod Heard
pub mod Overdue
pub mod Heartbeat
pub mod Copies
use ded_swarm.Base.{
  ℕ, Bool, true, false, List, [], ◌∷◌, ◌==◌, ◌&&◌, ◌||◌, nat_eq, string_eq, option_eq, pair_eq,
  String, Option, none, some, if◌then◌else◌, not, contains, Result, ok, raise, ◌>>=◌,
  assertion_error,
}
use ded_swarm.Base.Dict.{Dict, lookup, insert, erase, keep, keys, get_or}
use ded_swarm.Float.{Float}
use ded_swarm.Config.{peer_timeout}
use ded_swarm.Protocol.{
  MsgType, heartbeat, hello, bye, gen_start, gen_done, commit, dispute_score, other, msg_type_eq,
  Payload, nothing, start_of, Envelope, GenSettings, get_round_id, get_sync_seq,
}
use ded_swarm.Peers
use ded_swarm.Peers.{PeerTable, mark_alive, mark_gone}
use ded_swarm.Round
use ded_swarm.Round.{
  RoundManager, RoundState, on_gen_start, on_gen_done, note_leader_activity, start_round,
}

-- (msg_type, round_id, sync_seq)
abbrev pub Key : Type 0
Key = MsgType × (Option String × Option ℕ)

-- The payloads of one key, by sender.
abbrev pub Bucket : Type 0 → Type 0
Bucket F = Dict String (Payload F)

pub record SwarmNode (F : Type 0) : Type 0 where
  pub id : String
  pub peers : PeerTable F
  pub round_mgr : RoundManager F
  pub gen_inbox : Dict Key (Bucket F)

pub record Tick (F : Type 0) : Type 0 where
  pub now : F
  pub env : Option (Envelope F)
  pub receive_ts : F

-- `s.discard(x)`
unfoldable pub discard : String → List String → List String
discard x [] = []
discard x (y ∷ ys) = let rest = discard x ys in if x == y then rest else y ∷ rest

module _ {F : Type 0} where
  -- The key under which a message is filed.
  abbrev pub key_of : Envelope F → Key
  key_of env = (env.msg_type, (get_round_id env.payload, get_sync_seq env.payload))

  -- The first half of `_dispatch`: liveness, for the messages of others.
  unfoldable pub note_sender : SwarmNode F → Envelope F → F → SwarmNode F
  note_sender n env receive_ts = if env.node_id == n.id then n else record n {
    round_mgr = note_leader_activity n.round_mgr env.node_id receive_ts;
    peers = elim env.msg_type [
      | heartbeat ↦ mark_alive n.peers env.node_id receive_ts
      | hello ↦ mark_alive n.peers env.node_id receive_ts
      | bye ↦ mark_gone n.peers env.node_id
      | _ ↦ n.peers
    ];
  }

  -- `self._gen_inbox.setdefault(key, {})[node_id] = payload`
  unfoldable pub file_message : Dict Key (Bucket F) → Envelope F → Dict Key (Bucket F)
  file_message inbox env =
      insert (key_of env) (insert env.node_id env.payload (get_or (lookup (key_of env) inbox) []))
        inbox

  -- The second half of `_dispatch`.
  unfoldable pub handle : SwarmNode F → Envelope F → F → Result (SwarmNode F)
  handle n env receive_ts = elim env.msg_type [
    | gen_start ↦ on_gen_start n.round_mgr env receive_ts >>= λ m. ok (record n { round_mgr = m })
    | gen_done ↦ ok (record n { round_mgr = (on_gen_done n.round_mgr env).0 })
    | commit ↦ ok (record n { gen_inbox = file_message n.gen_inbox env })
    | dispute_score ↦ ok (record n { gen_inbox = file_message n.gen_inbox env })
    | _ ↦ ok n
  ]

  unfoldable pub dispatch : SwarmNode F → Envelope F → F → Result (SwarmNode F)
  dispatch n env receive_ts = handle (note_sender n env receive_ts) env receive_ts

  unfoldable pub pump_once : SwarmNode F → Tick F → Result (SwarmNode F)
  pump_once n t = elim t.env [ none ↦ ok n | some env ↦ dispatch n env t.receive_ts ]

  -- `set(expected_from) - set(received.keys())`
  unfoldable pub missing : List String → Bucket F → List String
  missing [] received = []
  missing (x ∷ xs) received =
      let rest = missing xs received in elim (lookup x received) [ some _ ↦ rest | none ↦ x ∷ rest ]

  abbrev pub has : String → Bucket F → Bool
  has x received = elim (lookup x received) [ none ↦ false | some _ ↦ true ]

  -- What one turn of the loop of `collect_until` does with what it received.
  unfoldable pub accept :
      Key → Option (Envelope F) → Bucket F → List String → Bucket F × List String
  accept key none received remaining = (received, remaining)
  accept key (some env) received remaining =
      if not (key_of env == key)
      then (received, remaining)
      else if not (contains remaining env.node_id) && not (has env.node_id received)
      then (received, remaining)
      else (insert env.node_id env.payload received, discard env.node_id remaining)

  -- `received`, when `collect_until` begins.
  unfoldable pub early : SwarmNode F → Key → List String → Bucket F
  early n key expected =
      keep (λ sender _. contains expected sender) (get_or (lookup key n.gen_inbox) [])

-- What `collect_until` returns, with the node and with the ticks that are left. `none` while it
-- still waits.
pub record Collected (F : Type 0) : Type 0 where
  pub node : SwarmNode F
  pub received : Bucket F
  pub ticks : List (Tick F)

module _ {F : Type 0} ⦃f : Float F⦄ where
  -- `SwarmNode.__init__`
  unfoldable pub init : String → SwarmNode F
  init self_id = record {
    id = self_id;
    peers = Peers.init self_id peer_timeout;
    round_mgr = Round.init self_id;
    gen_inbox = [];
  }

  unfoldable pub collect_loop :
      Key → F → List (Tick F) → SwarmNode F → Bucket F → List String → Result (Option (Collected F))
  collect_loop key deadline ticks n received [] =
      ok (some (record { node = n; received = received; ticks = ticks }))
  collect_loop key deadline [] n received (r ∷ rs) = ok none
  collect_loop key deadline (t ∷ ticks) n received (r ∷ rs) = elim (f.lt t.now deadline) [
    | false ↦ ok (some (record { node = n; received = received; ticks = t ∷ ticks }))
    | true ↦ pump_once n t >>= λ n'.
        let (received', remaining') = accept key t.env received (r ∷ rs) in
        collect_loop key deadline ticks n' received' remaining'
  ]

  -- `self._gen_inbox.pop(key, None)`, and `return received`
  unfoldable pub close_key : Key → Option (Collected F) → Option (Collected F)
  close_key key none = none
  close_key key (some c) =
      some (record c { node = record c.node { gen_inbox = erase key c.node.gen_inbox } })

  unfoldable pub collect_until :
      MsgType
      → String
      → ℕ
      → List String
      → F
      → (started : F) → List (Tick F)
      → SwarmNode F
      → Result (Option (Collected F))
  collect_until msg_type round_id sync_seq expected timeout started ticks n =
      let key : Key = (msg_type, (some round_id, some sync_seq)) in
      let received = early n key expected in
      collect_loop key (f.add started timeout) ticks n received (missing expected received) >>= λ c.
      ok (close_key key c)

module _ {F : Type 0} where
  -- What the heartbeat thread publishes, once in an interval.
  unfoldable pub send_heartbeat : SwarmNode F → MsgType × Payload F
  send_heartbeat n = (heartbeat, nothing)

  -- The round starts only if there is none; its GEN_START goes out.
  unfoldable pub start_round_as_leader :
      SwarmNode F
      → List String
      → String
      → GenSettings F
      → (hex : String) (started seen : F) → Result (SwarmNode F × RoundState F × Payload F)
  start_round_as_leader n participants prompt gen_config hex started seen =
      elim n.round_mgr.active_round [
        | some _ ↦ raise assertion_error
        | none ↦
            let (m, r) = start_round n.round_mgr participants prompt gen_config hex started seen in
            ok (record n { round_mgr = m }, r, start_of r.round_id r.participants prompt gen_config)
      ]

module _ {F : Type 0} ⦃f : Float F⦄ where
  abbrev pub past : Option F → F → Bool
  past none now = false
  past (some deadline) now = f.lt deadline now

  -- The loop of `wait_for_round`, with its deadline if it has one: the node, and the round unless
  -- the deadline has passed. `none` while it still waits.
  unfoldable pub wait_loop :
      Option F → List (Tick F) → SwarmNode F → Result (Option (SwarmNode F × Option (RoundState F)))
  wait_loop deadline [] n = elim n.round_mgr.active_round [
    | some r ↦ ok (some (n, some r))
    | none ↦ ok none
  ]
  wait_loop deadline (t ∷ ticks) n = elim n.round_mgr.active_round [
    | some r ↦ ok (some (n, some r))
    | none ↦ elim (past deadline t.now) [
      | true ↦ ok (some (n, none))
      | false ↦ pump_once n t >>= λ n'. wait_loop deadline ticks n'
    ]
  ]

  unfoldable pub wait_for_round :
      Option F
      → (started : F) → List (Tick F)
      → SwarmNode F
      → Result (Option (SwarmNode F × Option (RoundState F)))
  wait_for_round timeout started =
      wait_loop (elim timeout [ none ↦ none | some t ↦ some (f.add started t) ])
