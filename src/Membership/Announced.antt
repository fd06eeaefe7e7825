-- ===== src/Membership/Announced.antt =====
-- The leaders that a node announces (node/node.py), over any number of turns.
use ded_swarm.Base.{◌≡◌, refl, sym, ap, string_eq, ◌∙◌, List, [], ◌∷◌, String, Option, arith}
use ded_swarm.Float.{Float}
use ded_swarm.Peers.{mark_alive, mark_gone, leader, leader_changed}
use ded_swarm.Peers.Leader.{or_else, leader_changed_lem, leader-leader_changed}
use ded_swarm.Membership.{Node, Turn, Told, handle_envelope, keep_time, receive, turn, run_turns}

-- The last leader that was announced, if one was.
abbrev pub last_announced : Option String → List Told → Option String
last_announced l [] = l
last_announced l (t ∷ ts) = last_announced (or_else t.leader l) ts

module _ {F : Type 0} ⦃f : Float F⦄ where
  receive-prev_leader :
      (n : Node F) (t : Turn F)
      → (receive (keep_time n t.now) t.env).peers.prev_leader ≡ n.peers.prev_leader
  unfolding receive keep_time handle_envelope mark_alive mark_gone
  receive-prev_leader n t = ground arith

  turn-announces :
      (n : Node F) (t : Turn F)
      → let (n', told) = turn n t in
        (or_else told.leader n.peers.prev_leader ≡ n'.peers.prev_leader)
        × (n'.peers.prev_leader ≡ leader n'.peers t.checked)
  unfolding turn
  turn-announces n t =
      let p = (receive (keep_time n t.now) t.env).peers in
      let (reported, _, kept, _) = leader_changed_lem p t.checked in
      (
        ap (or_else (leader_changed p t.checked).1) (sym (receive-prev_leader n t))
            ∙ reported
            ∙ sym kept,
        kept ∙ sym (leader-leader_changed p t.checked),
      )

  run_turns-prev_leader :
      (ts : List (Turn F)) (n : Node F)
      → let (n', told) = run_turns n ts in
        last_announced n.peers.prev_leader told ≡ n'.peers.prev_leader
  unfolding run_turns
  run_turns-prev_leader [] n = refl
  run_turns-prev_leader (t ∷ ts) n =
      ap (λ l. last_announced l (run_turns (turn n t).0 ts).1) (turn-announces n t).0
      ∙ run_turns-prev_leader ts (turn n t).0

  -- After every turn, however many went before it, the leader that the node last announced is the
  -- leader that its peer table then gives: no change of leader goes unannounced.
  pub run_turns_announce :
      (ts : List (Turn F)) (n : Node F) (t : Turn F)
      → let (n₁, told) = run_turns n ts in
        let (n₂, now) = turn n₁ t in
        or_else now.leader (last_announced n.peers.prev_leader told) ≡ leader n₂.peers t.checked
  run_turns_announce ts n t =
      let (n₁, told) = run_turns n ts in
      ap (or_else (turn n₁ t).1.leader) (run_turns-prev_leader ts n)
      ∙ (turn-announces n₁ t).0
      ∙ (turn-announces n₁ t).1
