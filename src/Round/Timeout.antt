-- ===== src/Round/Timeout.antt =====
-- When a round fails, when it does not, and what a late copy of GEN_START does.
use ded_swarm.Base.{
  true, List, ◌==◌, ◌≡◌, ◌≢◌, ◌↔◌, ◌⊎◌, inl, inr, refl, string_eq, option_eq, String, none, some,
  not, ok, arith, Option-cases,
}
use ded_swarm.Base.Order.{sorted}
use ded_swarm.Base.Text.{string_ord}
use ded_swarm.Float.{Float, IsOrdered}
use ded_swarm.Config.{round_leader_timeout}
use ded_swarm.Protocol
use ded_swarm.Protocol.{
  Envelope, Payload, nothing, start_of, done_of, commit_of, scores_of, GenSettings, get_round_id,
}
use ded_swarm.Round.{
  active, RoundState, RoundManager, adopt, has_active, on_gen_start, on_gen_done,
  note_leader_activity, check_leader_timeout,
}

module _ {F : Type 0} ⦃f : Float F⦄ where
  -- The node is in an active round that another node leads, and has not heard of the leader for
  -- longer than the timeout.
  abbrev pub Overdue : RoundManager F → F → Type 0
  Overdue m now =
      (r : RoundState F) × (m.active_round ≡ some r)
      × (r.status ≡ active)
      × (r.leader_id ≢ m.self_id)
      × (f.lt round_leader_timeout (f.sub now r.last_leader_seen) ≡ true)

  -- `check_leader_timeout` returns true exactly if the round is overdue.
  pub check_leader_timeout_iff :
      (m : RoundManager F) (now : F) → ((check_leader_timeout m now).1 ≡ true) ↔ Overdue m now
  unfolding check_leader_timeout
  check_leader_timeout_iff m now =
      (fails (Option-cases m.active_round), λ (r, h, s, n, late). ground arith)
    where
      fails :
          (m.active_round ≡ none) ⊎ ((r : RoundState F) × (m.active_round ≡ some r))
          → (check_leader_timeout m now).1 ≡ true
          → Overdue m now
      fails (inl e) h = absurd (ground arith)
      fails (inr (r, e)) h = (r, e, ground arith, ground arith, ground arith)

  module _ (laws : IsOrdered F) where
    open laws use {lt-eq-not-le}

    -- In a round that is overdue, a message that was received within the timeout averts the failure
    -- exactly if it comes from the round's leader.
    pub note_leader_activity-Overdue :
        (m : RoundManager F) (node : String) (ts now : F) (overdue : Overdue m now)
        → f.le (f.sub now ts) round_leader_timeout ≡ true
        → (check_leader_timeout (note_leader_activity m node ts) now).1
          ≡ not (node == overdue.0.leader_id)
    unfolding note_leader_activity check_leader_timeout
    note_leader_activity-Overdue m node ts now (r, h, s, n, late) k =
        ground (arith, lt-eq-not-le round_leader_timeout (f.sub now ts))

module _ {F : Type 0} where
  -- A copy of GEN_START that arrives after the GEN_DONE of its round, as a second relay may deliver
  -- it, opens the round again, whoever sent the GEN_DONE: `on_gen_start` is not idempotent.
  pub on_gen_start_reopens :
      (m : RoundManager F) (id : String) (ts : F) (round : String) (ps : List String)
      (prompt : String) (g : GenSettings F) (end_ : Envelope F) (now later : F)
      → m.active_round ≡ none
      → get_round_id end_.payload ≡ some round
      → let env : Envelope F = record {
        msg_type = Protocol.MsgType.gen_start;
        node_id = id;
        ts = ts;
        payload = start_of round ps prompt g;
      } in
        (m₁ m₂ m₃ : RoundManager F) × (on_gen_start m env now ≡ ok m₁)
        × ((on_gen_done m₁ end_).0 ≡ m₂)
        × (m₂.active_round ≡ none)
        × (on_gen_start m₂ env later ≡ ok m₃)
        × (has_active m₃.active_round ≡ true)
  unfolding on_gen_start on_gen_done adopt get_round_id
  on_gen_start_reopens m id ts round ps prompt g end_ now later h k =
      let reopened : F → RoundManager F = λ t. record m {
        active_round = some (record {
          round_id = round;
          leader_id = id;
          participants = sorted ps;
          prompt = prompt;
          gen_config = g;
          started_at = t;
          last_leader_seen = t;
          status = active;
        });
      } in
      (reopened now, m, reopened later, ground arith, ground arith, h, ground arith, refl)
