-- ===== src/Round.antt =====
-- node/round.py: the round that a node takes part in, with the leader and the participants that it
-- had at its start. Times are those that the caller gives or, where it gives none, `time.time()`;
-- the random part of a round id (`uuid.uuid4().hex[:8]`) is an argument. A round that ends is let go
-- of, and its final state is returned beside the manager, for whoever still holds the object.
pub mod Locked
pub mod Timeout
pub mod Leading
use ded_swarm.Base.{
  Bool, true, false, List, [], ◌∷◌, ◌==◌, ◌&&◌, string_eq, option_eq, String, Option, none, some,
  if◌then◌else◌, not, contains, Result, ok, raise, Error, key_error, ◌<>◌,
}
use ded_swarm.Base.Order.{sorted}
use ded_swarm.Base.Text.{string_ord}
use ded_swarm.Float.{Float}
use ded_swarm.Config.{round_leader_timeout}
use ded_swarm.Protocol.{
  Envelope, Payload, nothing, start_of, done_of, commit_of, scores_of, GenSettings, get_round_id,
}

pub data Status : Type 0 where
  active done failed : Status

abbrev pub is_active : Status → Bool
is_active active = true
is_active _ = false

pub record RoundState (F : Type 0) : Type 0 where
  pub round_id : String
  pub leader_id : String
  pub participants : List String
  pub prompt : String
  pub gen_config : GenSettings F
  pub started_at : F
  pub last_leader_seen : F
  pub status : Status

pub record RoundManager (F : Type 0) : Type 0 where
  pub self_id : String
  pub active_round : Option (RoundState F)

module _ {F : Type 0} where
  -- `RoundManager.__init__`
  unfoldable pub init : String → RoundManager F
  init self_id = record { self_id = self_id; active_round = none }

  -- `started` and `seen` are the two readings of the clock.
  unfoldable pub start_round :
      RoundManager F
      → List String
      → String
      → GenSettings F
      → (hex : String) (started seen : F) → RoundManager F × RoundState F
  start_round m participants prompt gen_config hex started seen =
      let r : RoundState F = record {
        round_id = m.self_id <> (":" <> hex);
        leader_id = m.self_id;
        participants = sorted participants;
        prompt = prompt;
        gen_config = gen_config;
        started_at = started;
        last_leader_seen = seen;
        status = active;
      } in
      (record m { active_round = some r }, r)

  -- The round that a GEN_START announces. Another payload lacks a key that is read.
  unfoldable pub adopt : String → Payload F → F → Result (RoundState F)
  adopt node_id (start_of round_id participants prompt gen_config) now = ok (record {
    round_id = round_id;
    leader_id = node_id;
    participants = sorted participants;
    prompt = prompt;
    gen_config = gen_config;
    started_at = now;
    last_leader_seen = now;
    status = active;
  })
  adopt node_id _ now = raise key_error

  abbrev pub has_active : Option (RoundState F) → Bool
  has_active none = false
  has_active (some r) = is_active r.status

  unfoldable pub on_gen_start : RoundManager F → Envelope F → F → Result (RoundManager F)
  on_gen_start m env now =
      if has_active m.active_round
      then elim (get_round_id env.payload) [ some _ ↦ ok m | none ↦ raise key_error ]
      else elim (adopt env.node_id env.payload now) [
        | ok r ↦ ok (record m { active_round = some r })
        | raise e ↦ raise e
      ]

  unfoldable pub on_gen_done : RoundManager F → Envelope F → RoundManager F × Option (RoundState F)
  on_gen_done m env = elim m.active_round [
    | none ↦ (m, none)
    | some r ↦
        if get_round_id env.payload == some r.round_id
        then (record m { active_round = none }, some (record r { status = done }))
        else (m, none)
  ]

  unfoldable pub note_leader_activity : RoundManager F → String → F → RoundManager F
  note_leader_activity m node_id ts = elim m.active_round [
    | none ↦ m
    | some r ↦
        if is_active r.status && (node_id == r.leader_id)
        then record m { active_round = some (record r { last_leader_seen = ts }) }
        else m
  ]

  unfoldable pub is_round_leader : RoundManager F → Bool
  is_round_leader m = elim m.active_round [ none ↦ false | some r ↦ r.leader_id == m.self_id ]

  unfoldable pub is_participant : RoundManager F → String → Bool
  is_participant m node_id = elim m.active_round [
    | none ↦ false
    | some r ↦ contains r.participants node_id
  ]

module _ {F : Type 0} ⦃f : Float F⦄ where
  unfoldable pub check_leader_timeout :
      RoundManager F → F → RoundManager F × Bool × Option (RoundState F)
  check_leader_timeout m now = elim m.active_round [
    | none ↦ (m, false, none)
    | some r ↦
        if not (is_active r.status)
        then (m, false, none)
        else if r.leader_id == m.self_id
        then (m, false, none)
        else if f.lt round_leader_timeout (f.sub now r.last_leader_seen)
        then (record m { active_round = none }, true, some (record r { status = failed }))
        else (m, false, none)
  ]
