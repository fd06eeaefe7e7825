-- ===== src/Peers.antt =====
-- node/peers.py: which peers are alive, and who leads. `now` and `ts` are the times that the caller
-- gives or, where it gives none, `time.time()`.
pub mod Liveness
pub mod Leader
use ded_swarm.Base.{
  Bool, true, false, List, [], ◌∷◌, ◌==◌, string_eq, option_eq, String, Option, none, some,
  if◌then◌else◌, not, set_add,
}
use ded_swarm.Base.Dict.{Dict, insert, erase, keep, keys}
use ded_swarm.Base.Order.{sorted}
use ded_swarm.Base.Text.{string_ord}
use ded_swarm.Float.{Float}

pub record PeerTable (F : Type 0) : Type 0 where
  pub self_id : String
  pub timeout : F
  pub last_seen : Dict String F
  pub prev_leader : Option String

module _ {F : Type 0} where
  -- `PeerTable.__init__`
  unfoldable pub init : String → F → PeerTable F
  init self_id timeout = record {
    self_id = self_id;
    timeout = timeout;
    last_seen = [];
    prev_leader = none;
  }

  unfoldable pub mark_alive : PeerTable F → String → F → PeerTable F
  mark_alive t node_id ts = record t { last_seen = insert node_id ts t.last_seen }

  unfoldable pub mark_gone : PeerTable F → String → PeerTable F
  mark_gone t node_id = record t { last_seen = erase node_id t.last_seen }

module _ {F : Type 0} ⦃f : Float F⦄ where
  -- `now - seen <= self.timeout`
  abbrev pub is_recent : PeerTable F → F → F → Bool
  is_recent t now seen = f.le (f.sub now seen) t.timeout

  unfoldable pub alive_peers : PeerTable F → F → List String
  alive_peers t now =
      sorted (set_add t.self_id (keys (keep (λ _ seen. is_recent t now seen) t.last_seen)))

  unfoldable pub leader : PeerTable F → F → Option String
  leader t now = elim (alive_peers t now) [ [] ↦ none | x ∷ _ ↦ some x ]

  unfoldable pub is_leader : PeerTable F → F → Bool
  is_leader t now = leader t now == some t.self_id

  unfoldable pub leader_changed : PeerTable F → F → PeerTable F × Option String
  leader_changed t now =
      let current = leader t now in
      if not (current == t.prev_leader)
      then (record t { prev_leader = current }, current)
      else (t, none)
