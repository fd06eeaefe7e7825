-- ===== src/Peers/Leader.antt =====
-- Leadership is computed, not elected: the least id of those alive.
use ded_swarm.Base.{
  true, List, [], ◌∷◌, ◌≡◌, ◌≢◌, ◌⊎◌, refl, sym, ap, ◌∙◌, string_eq, option_eq, String, Option,
  none, some, set_add, contains, contains-set_add, arith,
}
use ded_swarm.Base.Order.{◌≼◌, IsSorted, sorted-IsSorted, All-contains, contains-sorted}
use ded_swarm.Base.Text.{string_ord, le_refl, le_antisymm}
use ded_swarm.Base.Dict.{keys, keep}
use ded_swarm.Float.{Float}
use ded_swarm.Peers.{PeerTable, is_recent, alive_peers, leader, is_leader, leader_changed}

abbrev pub or_else : Option String → Option String → Option String
or_else none old = old
or_else (some x) old = some x

module _ {F : Type 0} ⦃f : Float F⦄ where
  alive_peers-IsSorted : (t : PeerTable F) (now : F) → IsSorted (alive_peers t now)
  unfolding alive_peers
  alive_peers-IsSorted t now = sorted-IsSorted _

  contains-alive_peers_self :
      (t : PeerTable F) (now : F) → contains (alive_peers t now) t.self_id ≡ true
  unfolding alive_peers
  contains-alive_peers_self t now =
      let others = keys (keep (λ _ seen. is_recent t now seen) t.last_seen) in
      ground (
        arith,
        contains-sorted t.self_id (set_add t.self_id others),
        contains-set_add t.self_id t.self_id others,
      )

  -- There is always a leader: a node that is alive, and no node that is alive has a lower id.
  pub leader_least :
      (t : PeerTable F) (now : F)
      → (l : String) × (leader t now ≡ some l)
        × (contains (alive_peers t now) l ≡ true)
        × ((id : String) → contains (alive_peers t now) id ≡ true → l ≼ id)
  unfolding leader
  leader_least t now = go (alive_peers t now) refl
    where
      go :
          (xs : List String)
          → alive_peers t now ≡ xs
          → (l : String) × (leader t now ≡ some l)
            × (contains (alive_peers t now) l ≡ true)
            × ((id : String) → contains (alive_peers t now) id ≡ true → l ≼ id)
      go [] e = absurd (ground (arith, contains-alive_peers_self t now))
      go (x ∷ xs) e =
          let s : IsSorted (x ∷ xs) = rw e at (alive_peers-IsSorted t now) in
          (
            x,
            ground arith,
            ground arith,
            λ id h. All-contains (λ y. x ≼ y) id (x ∷ xs) (le_refl x, s.0) (rw e at h),
          )

  -- Two nodes, each with a table and a clock of its own, that take the same nodes for alive follow
  -- the same leader.
  pub leader_agree :
      (t u : PeerTable F) (now later : F)
      → ((id : String) → contains (alive_peers t now) id ≡ contains (alive_peers u later) id)
      → leader t now ≡ leader u later
  leader_agree t u now later same =
      let (l, e, alive, least) = leader_least t now in
      let (m, e', alive', least') = leader_least u later in
      let p : l ≡ m =
        le_antisymm l m (least m (same m ∙ alive')) (least' l (sym (same l) ∙ alive)) in
      e ∙ ap some p ∙ sym e'

  -- No split brain: of the nodes that take the same nodes for alive, at most one believes that it
  -- leads.
  pub is_leader_unique :
      (t u : PeerTable F) (now later : F)
      → ((id : String) → contains (alive_peers t now) id ≡ contains (alive_peers u later) id)
      → is_leader t now ≡ true
      → is_leader u later ≡ true
      → t.self_id ≡ u.self_id
  unfolding is_leader
  is_leader_unique t u now later same h k = ground (arith, leader_agree t u now later same)

  leader-prev_leader :
      (t : PeerTable F) (now : F) (p : Option String)
      → leader (record t { prev_leader = p }) now ≡ leader t now
  unfolding leader alive_peers
  leader-prev_leader t now p = refl

  pub leader-leader_changed :
      (t : PeerTable F) (now : F) → leader (leader_changed t now).0 now ≡ leader t now
  unfolding leader_changed
  leader-leader_changed t now = ground (arith, leader-prev_leader t now (leader t now))

  -- Whoever keeps the last report of `leader_changed` knows the leader at the time of the last
  -- call; a report is never a repetition; a second call at the same moment reports nothing.
  pub leader_changed_lem :
      (t : PeerTable F) (now : F)
      → let (t', report) = leader_changed t now in
        (or_else report t.prev_leader ≡ leader t now)
        × ((report ≡ none) ⊎ (report ≢ t.prev_leader))
        × (t'.prev_leader ≡ leader t now)
        × (leader_changed t' now ≡ (t', none))
  unfolding leader_changed
  leader_changed_lem t now =
      let (l, e, _, _) = leader_least t now in
      ground (arith, leader-prev_leader t now (leader t now))
