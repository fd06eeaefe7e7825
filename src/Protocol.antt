-- ===== src/Protocol.antt =====
-- common/protocol.py: the messages of the swarm. A message type is one of the constants, or any
-- other text that a stranger may send. A payload is a dict; here it is one of the shapes that the
-- code builds, with what the code reads from a payload of another shape.
use mathlib.Core.HLevel.{Discrete}
use ded_swarm.Base.{ℕ, List, String, Option, none, some, Eq, string_eq}
use ded_swarm.Base.Dict.{Dict}

pub data MsgType : Type 0 where
  heartbeat hello bye gen_start gen_done commit dispute_score : MsgType
  other : String → MsgType

-- The text of a type on the wire.
unfoldable pub type_name : MsgType → String
type_name MsgType.heartbeat = "heartbeat"
type_name MsgType.hello = "hello"
type_name MsgType.bye = "bye"
type_name MsgType.gen_start = "gen_start"
type_name MsgType.gen_done = "gen_done"
type_name MsgType.commit = "commit"
type_name MsgType.dispute_score = "dispute_score"
type_name (MsgType.other s) = s

MsgType-discrete : Discrete MsgType
MsgType-discrete = hlevel string_eq.dec

instance unfoldable pub msg_type_eq : Eq MsgType
unfolding MsgType-discrete
msg_type_eq = record { dec = MsgType-discrete }

-- A value in the dict of settings that GEN_START carries.
pub data Setting (F : Type 0) : Type 0 where
  int_setting : ℕ → Setting F
  float_setting : F → Setting F
  str_setting : String → Setting F

-- The dict of settings, by name.
abbrev pub GenSettings : Type 0 → Type 0
GenSettings F = Dict String (Setting F)

-- `nothing` is the empty dict, which `encode` puts for no payload.
pub data Payload (F : Type 0) : Type 0 where
  nothing : Payload F
  start_of :
      (round_id : String) (participants : List String) (prompt : String)
      (gen_config : GenSettings F)
      → Payload F
  done_of : (round_id : String) → Payload F
  commit_of :
      (round_id : String) (sync_seq : ℕ) (positions tokens : List ℕ) (confidences : List F)
      → Payload F
  scores_of : (round_id : String) (sync_seq : ℕ) (scores : Dict String (Dict String F)) → Payload F

pub record Envelope (F : Type 0) : Type 0 where
  pub msg_type : MsgType
  pub node_id : String
  pub ts : F
  pub payload : Payload F

module _ {F : Type 0} where
  -- `payload.get("round_id")`
  unfoldable pub get_round_id : Payload F → Option String
  get_round_id nothing = none
  get_round_id (start_of r _ _ _) = some r
  get_round_id (done_of r) = some r
  get_round_id (commit_of r _ _ _ _) = some r
  get_round_id (scores_of r _ _) = some r

  -- `payload.get("sync_seq")`
  unfoldable pub get_sync_seq : Payload F → Option ℕ
  get_sync_seq (commit_of _ s _ _ _) = some s
  get_sync_seq (scores_of _ s _) = some s
  get_sync_seq _ = none
