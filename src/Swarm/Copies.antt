-- ===== src/Swarm/Copies.antt =====
-- A message that two relays deliver is read twice (node/transport.py): what the second copy does.
use ded_swarm.Base.{
  ◌≡◌, inl, inr, refl, ap, ◌≢◌, ◌==◌, nat_eq, string_eq, option_eq, pair_eq, some, arith,
  Bool-cases, Option-cases, ◌>>=◌, [], String,
}
use ded_swarm.Base.Dict.{Dict, lookup, insert, get_or, lookup-insert, insert-insert, erase-erase}
use ded_swarm.Protocol.{
  MsgType, Envelope, gen_start, gen_done, heartbeat, hello, bye, commit, dispute_score, other,
  msg_type_eq,
}
use ded_swarm.Peers.{PeerTable, mark_alive, mark_gone}
use ded_swarm.Round.{RoundManager, note_leader_activity, on_gen_done}
use ded_swarm.Swarm.{Key, Bucket, SwarmNode, key_of, file_message, note_sender, handle, dispatch}

module _ {F : Type 0} where
  file_message-file_message :
      (inbox : Dict Key (Bucket F)) (env : Envelope F)
      → file_message (file_message inbox env) env ≡ file_message inbox env
  unfolding file_message
  file_message-file_message inbox env =
      let old = get_or (lookup (key_of env) inbox) [] in
      let new = insert env.node_id env.payload old in
      let there : lookup (key_of env) (insert (key_of env) new inbox) ≡ some new =
        ground (arith, lookup-insert (key_of env) (key_of env) new inbox) in
      rw
        (
          there,
          insert-insert (key_of env) new (insert env.node_id env.payload new) inbox,
          insert-insert env.node_id env.payload env.payload old,
        )
        refl

  note_leader_activity-note_leader_activity :
      (m : RoundManager F) (id : String) (t u : F)
      → note_leader_activity (note_leader_activity m id t) id u ≡ note_leader_activity m id u
  unfolding note_leader_activity
  note_leader_activity-note_leader_activity m id t u = elim (Option-cases m.active_round) [
    | inl e ↦ ground arith
    | inr (r, e) ↦ ground arith
  ]

  mark_alive-mark_alive :
      (p : PeerTable F) (id : String) (t u : F)
      → mark_alive (mark_alive p id t) id u ≡ mark_alive p id u
  unfolding mark_alive
  mark_alive-mark_alive p id t u =
      ap (λ d. record p { last_seen = d }) (insert-insert id t u p.last_seen)

  mark_gone-mark_gone :
      (p : PeerTable F) (id : String) → mark_gone (mark_gone p id) id ≡ mark_gone p id
  unfolding mark_gone
  mark_gone-mark_gone p id = ap (λ d. record p { last_seen = d }) (erase-erase id p.last_seen)

  note_sender-note_sender :
      (n : SwarmNode F) (env : Envelope F) (t u : F)
      → note_sender (note_sender n env t) env u ≡ note_sender n env u
  unfolding note_sender
  note_sender-note_sender n env t u = elim (Bool-cases (env.node_id == n.id)) [
    | inl e ↦ ground arith
    | inr e ↦ ground (
      arith,
      note_leader_activity-note_leader_activity n.round_mgr env.node_id t u,
      mark_alive-mark_alive n.peers env.node_id t u,
      mark_gone-mark_gone n.peers env.node_id,
    )
  ]

  -- Liveness does not depend on the inbox.
  note_sender-gen_inbox :
      (n : SwarmNode F) (inbox : Dict Key (Bucket F)) (env : Envelope F) (t : F)
      → note_sender (record n { gen_inbox = inbox }) env t
        ≡ record (note_sender n env t) { gen_inbox = inbox }
  unfolding note_sender
  note_sender-gen_inbox n inbox env t = ground arith

  inbox_kept :
      (n : SwarmNode F) (env : Envelope F) (t : F) → (note_sender n env t).gen_inbox ≡ n.gen_inbox
  unfolding note_sender
  inbox_kept n env t = ground arith

  filed_twice :
      (n : SwarmNode F) (env : Envelope F) (t u : F)
      → let first : SwarmNode F = record (note_sender n env t) {
        gen_inbox = file_message (note_sender n env t).gen_inbox env;
      } in
        let again = note_sender first env u in
        record again { gen_inbox = file_message again.gen_inbox env }
        ≡ record (note_sender n env u) {
          gen_inbox = file_message (note_sender n env u).gen_inbox env;
        }
  filed_twice n env t u =
      rw
        (
          note_sender-gen_inbox (note_sender n env t)
              (file_message (note_sender n env t).gen_inbox env) env u,
          note_sender-note_sender n env t u,
          inbox_kept n env t,
          inbox_kept n env u,
          file_message-file_message n.gen_inbox env,
        )
        refl

  done_twice :
      (n : SwarmNode F) (env : Envelope F) (t u : F)
      → env.msg_type ≡ gen_done
      → let first : SwarmNode F = record (note_sender n env t) {
        round_mgr = (on_gen_done (note_sender n env t).round_mgr env).0;
      } in
        let again = note_sender first env u in
        record again { round_mgr = (on_gen_done again.round_mgr env).0 }
        ≡ record (note_sender n env u) {
          round_mgr = (on_gen_done (note_sender n env u).round_mgr env).0;
        }
  unfolding note_sender on_gen_done note_leader_activity
  done_twice n env t u type = elim (Option-cases n.round_mgr.active_round) [
    | inl e ↦ ground arith
    | inr (r, e) ↦ ground arith
  ]

  -- The second copy of a message that is not a GEN_START changes nothing but the time at which its
  -- sender was last heard: the node is as if it had read the message once, when the copy came.
  pub dispatch-copy :
      (n : SwarmNode F) (env : Envelope F) (t u : F)
      → env.msg_type ≢ gen_start
      → (dispatch n env t >>= λ n'. dispatch n' env u) ≡ dispatch n env u
  unfolding dispatch handle
  dispatch-copy n env t u ordinary = by_type env.msg_type refl
    where
      by_type :
          (k : MsgType)
          → env.msg_type ≡ k
          → (dispatch n env t >>= λ n'. dispatch n' env u) ≡ dispatch n env u
      by_type gen_start e = absurd (ordinary e)
      by_type heartbeat e = ground (arith, note_sender-note_sender n env t u)
      by_type hello e = ground (arith, note_sender-note_sender n env t u)
      by_type bye e = ground (arith, note_sender-note_sender n env t u)
      by_type (other s) e = ground (arith, note_sender-note_sender n env t u)
      by_type gen_done e = ground (arith, done_twice n env t u e)
      by_type commit e = ground (arith, filed_twice n env t u)
      by_type dispute_score e = ground (arith, filed_twice n env t u)
