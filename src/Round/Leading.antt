-- ===== src/Round/Leading.antt =====
-- A round at the node that leads it (node/round.py).
use ded_swarm.Base.{
  Bool, false, List, [], ◌∷◌, ◌==◌, ◌≡◌, inl, inr, sym, ◌∙◌, string_eq, option_eq, String, some,
  any, ok, >>=-eq-ok, arith,
}
use ded_swarm.Float.{Float}
use ded_swarm.Protocol.{get_round_id}
use ded_swarm.Round.{
  RoundState, RoundManager, start_round, on_gen_done, note_leader_activity, check_leader_timeout,
}
use ded_swarm.Round.Locked.{
  Event, start, gen_start, gen_done, activity, timeout, step, run, IsValid, SameRound,
  SameRound-refl, SameRound-trans, step-IsValid, step-Kept, step_ends, on_gen_start_cases,
}

module _ {F : Type 0} where
  -- A GEN_DONE with this id.
  abbrev pub is_end : String → Event F → Bool
  is_end id (gen_done env) = get_round_id env.payload == some id
  is_end id _ = false

module _ {F : Type 0} ⦃f : Float F⦄ where
  step-self_id :
      (m : RoundManager F) (e : Event F) (m' : RoundManager F)
      → step m e ≡ ok m'
      → m'.self_id ≡ m.self_id
  unfolding step start_round on_gen_done note_leader_activity check_leader_timeout
  step-self_id m (start ps prompt g hex t u) m' h = ground arith
  step-self_id m (gen_start env now) m' h = elim (on_gen_start_cases m env now m' h) [
    | inl same ↦ ground arith
    | inr (_, (_, _, k)) ↦ ground arith
  ]
  step-self_id m (gen_done env) m' h = ground arith
  step-self_id m (activity node ts) m' h = ground arith
  step-self_id m (timeout now) m' h = ground arith

  -- Only a GEN_DONE takes a round from the node that leads it: after any calls, however late and
  -- whoever else announces a round, of which none is a GEN_DONE with the round's id, it still holds
  -- the same round.
  pub run-SameRound_leader :
      (es : List (Event F)) (m m' : RoundManager F) (r : RoundState F)
      → IsValid m
      → m.active_round ≡ some r
      → r.leader_id ≡ m.self_id
      → any (is_end r.round_id) es ≡ false
      → run m es ≡ ok m'
      → (s : RoundState F) × (m'.active_round ≡ some s) × SameRound r s
  run-SameRound_leader [] m m' r v h lead calm e = (r, ground arith, SameRound-refl r)
  run-SameRound_leader (x ∷ es) m m' r v h lead calm e =
      let (m₁, first, rest) = >>=-eq-ok (step m x) (λ n. run n es) e in
      elim (step-Kept m x m₁ r v first h) [
        | inl free ↦ absurd (elim (step_ends m x m₁ r v first h free) [
          | inl (env, is, id) ↦ ground arith
          | inr (_, _, other, _) ↦ other lead
        ])
        | inr (s, held, same) ↦
            let (t, held', same') =
              run-SameRound_leader es m₁ m' s (step-IsValid m x m₁ v first) held
                (same.leader_id ∙ lead ∙ sym (step-self_id m x m₁ first))
                (ground (arith, same.round_id)) rest in
            (t, held', SameRound-trans r s t same same')
      ]
