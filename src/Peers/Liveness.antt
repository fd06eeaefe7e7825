-- ===== src/Peers/Liveness.antt =====
-- Who is alive, after any of the operations.
use ded_swarm.Base.{
  Bool, true, false, ◌==◌, ◌||◌, ◌≡◌, refl, ap, ◌∙◌, string_eq, option_eq, String, Option, none,
  some, if◌then◌else◌, set_add, contains, contains-set_add, arith,
}
use ded_swarm.Base.Dict.{
  Dict, lookup, insert, erase, keep, keys, kept, NodupKeys, contains-keys, lookup-keep,
  lookup-insert, lookup-erase, insert-NodupKeys, erase-NodupKeys, insert-insert,
}
use ded_swarm.Base.Order.{contains-sorted}
use ded_swarm.Base.Text.{string_ord}
use ded_swarm.Float.{Float, IsOrdered}
use ded_swarm.Peers.{PeerTable, mark_alive, mark_gone, is_recent, alive_peers}

module _ {F : Type 0} ⦃f : Float F⦄ where
  -- `last_seen` is a dict: no node has two entries.
  abbrev pub IsValid : PeerTable F → Type 0
  IsValid t = NodupKeys t.last_seen

  abbrev pub heard : PeerTable F → F → Option F → Bool
  heard t now none = false
  heard t now (some seen) = is_recent t now seen

  contains-keys_eq :
      (d : Dict String F) (k : String) (o : Option F)
      → lookup k d ≡ o
      → contains (keys d) k ≡ (elim o [ none ↦ false | some _ ↦ true ])
  contains-keys_eq d k none e = ground (arith, contains-keys d k)
  contains-keys_eq d k (some x) e = ground (arith, contains-keys d k)

  -- A node counts as alive exactly when it is the node itself, or was last heard of no longer than
  -- the timeout ago.
  pub contains-alive_peers :
      (t : PeerTable F) (now : F) (id : String)
      → IsValid t
      → contains (alive_peers t now) id ≡ (id == t.self_id || heard t now (lookup id t.last_seen))
  unfolding alive_peers
  contains-alive_peers t now id u =
      let fresh = keep (λ _ seen. is_recent t now seen) t.last_seen in
      contains-sorted id (set_add t.self_id (keys fresh))
      ∙ contains-set_add t.self_id id (keys fresh)
      ∙ ap (λ b. id == t.self_id || b) (go (lookup id t.last_seen) refl)
    where
      go :
          (o : Option F)
          → lookup id t.last_seen ≡ o
          → contains (keys (keep (λ _ seen. is_recent t now seen) t.last_seen)) id ≡ heard t now o
      go o e =
          let p : String → F → Bool = λ _ seen. is_recent t now seen in
          contains-keys_eq (keep p t.last_seen) id (kept p id o)
            (lookup-keep p id t.last_seen u ∙ ap (kept p id) e)
          ∙ fin o
        where
          fin :
              (x : Option F)
              → elim (kept (λ (_ : String) seen. is_recent t now seen) id x) [
                | none ↦ false
                | some _ ↦ true
              ]
                ≡ heard t now x
          fin none = refl
          fin (some x) = ground arith

  -- A heartbeat: the sender is as alive as its new time of receipt says, and nobody else's state
  -- changes. The table stays valid.
  pub contains-alive_peers-mark_alive :
      (t : PeerTable F) (now : F) (node id : String) (ts : F)
      → IsValid t
      → IsValid (mark_alive t node ts)
        × (contains (alive_peers (mark_alive t node ts) now) id ≡ (
            if id == node
            then (id == t.self_id || is_recent t now ts)
            else contains (alive_peers t now) id))
  unfolding mark_alive
  contains-alive_peers-mark_alive t now node id ts u =
      let u' = insert-NodupKeys node ts t.last_seen u in
      (
        u',
        ground (
          arith,
          contains-alive_peers t now id u,
          contains-alive_peers (record t { last_seen = insert node ts t.last_seen }) now id u',
          lookup-insert id node ts t.last_seen,
        ),
      )

  -- A clean departure: the sender is gone at once (unless it is the node itself, which is always
  -- alive), and nobody else's state changes. The table stays valid.
  pub contains-alive_peers-mark_gone :
      (t : PeerTable F) (now : F) (node id : String)
      → IsValid t
      → IsValid (mark_gone t node)
        × (contains (alive_peers (mark_gone t node) now) id
            ≡ (if id == node then id == t.self_id else contains (alive_peers t now) id))
  unfolding mark_gone
  contains-alive_peers-mark_gone t now node id u =
      let u' = erase-NodupKeys node t.last_seen u in
      (
        u',
        ground (
          arith,
          contains-alive_peers t now id u,
          contains-alive_peers (record t { last_seen = erase node t.last_seen }) now id u',
          lookup-erase id node t.last_seen,
        ),
      )

  -- A message that two relays deliver marks its sender alive twice, which is the same as once at the
  -- later time.
  pub mark_alive_twice :
      (t : PeerTable F) (node : String) (ts later : F)
      → mark_alive (mark_alive t node ts) node later ≡ mark_alive t node later
  unfolding mark_alive
  mark_alive_twice t node ts later =
      ap (λ d. record t { last_seen = d }) (insert-insert node ts later t.last_seen)

  module _ (laws : IsOrdered F) where
    open laws use {le_trans, sub_mono}

    -- Silence is what removes a peer: who is alive at some time was alive at any earlier one, if no
    -- message came in between.
    pub alive_peers_antitone :
        (t : PeerTable F) (now earlier : F) (id : String)
        → IsValid t
        → f.le earlier now ≡ true
        → contains (alive_peers t now) id ≡ true
        → contains (alive_peers t earlier) id ≡ true
    alive_peers_antitone t now earlier id u h alive = go (lookup id t.last_seen) refl
      where
        go : (o : Option F) → lookup id t.last_seen ≡ o → contains (alive_peers t earlier) id ≡ true
        go none e =
            ground
              (arith, alive, contains-alive_peers t now id u, contains-alive_peers t earlier id u)
        go (some x) e = ground (
          arith,
          alive,
          contains-alive_peers t now id u,
          contains-alive_peers t earlier id u,
          le_trans (f.sub earlier x) (f.sub now x) t.timeout,
          sub_mono earlier now x h,
        )
