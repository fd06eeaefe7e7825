-- ===== src/Generation/Parties.antt =====
-- A sync (`_do_sync`, node/generation.py) among any number of participants: what each of them runs
-- with, and what is asked of the network between them.
pub mod Logs
pub mod Gathered
pub mod Tallies
pub mod Everyone
use ded_swarm.Base.{
  ℕ, ◌≡◌, ◌≢◌, ◌⊎◌, true, List, [], ◌∷◌, ◌==◌, ◌&&◌, not, nat_eq, string_eq, String, Option, none,
  some, contains, All, ok,
}
use ded_swarm.Base.Dict.{Dict, lookup, keys, NodupKeys, SameLookups}
use ded_swarm.Float.{Float}
use ded_swarm.Config.{sync_barrier_timeout}
use ded_swarm.Protocol.{MsgType, Payload, Envelope}
use ded_swarm.Consensus.{Position, Token, TokenSet}
use ded_swarm.Consensus.Adopt.{IsIteration}
use ded_swarm.Stop.{StopDetector}
use ded_swarm.Swarm.{Key, SwarmNode, Tick, key_of}
use ded_swarm.Swarm.Inbox.{IsInbox}
use ded_swarm.Generation.{SyncArgs, Synced, do_sync}

-- A participant of a sync: what its `_do_sync` is called with, what its two barriers meet, and what
-- it returned.
pub record Participant (F : Type 0) : Type 0 where
  pub iter : TokenSet → List Token
  pub args : SyncArgs F
  pub shared_x : Dict Position Token
  pub started : F
  pub later : F
  pub ticks : List (Tick F)
  pub node : SwarmNode F
  pub result : Synced F

-- What all of them have in common: their ids, the sync, and the state that they start from.
pub record Meeting (F : Type 0) : Type 0 where
  pub participants : Dict String (Participant F)
  pub round_id : String
  pub sync_seq : ℕ
  pub gen_start : ℕ
  pub gen_end : ℕ
  pub shared_x : Dict Position Token
  pub detector : StopDetector

module _ {F : Type 0} where
  abbrev pub IsAmong : MsgType × Payload F → List (MsgType × Payload F) → Type 0
  IsAmong x [] = ⊥
  IsAmong x (y ∷ ys) = (x ≡ y) ⊎ IsAmong x ys

  -- The participant published the message in this sync.
  abbrev pub Published : Option (Participant F) → MsgType × Payload F → Type 0
  Published none x = ⊥
  Published (some p) x = IsAmong x p.result.published

module _ {F : Type 0} (m : Meeting F) where
  -- A payload that stands under a key of this sync and is of another participant is one that the
  -- other published: nobody else speaks in its name.
  abbrev pub Genuine : Participant F → Key → String → Payload F → Type 0
  Genuine p key sender payload =
      contains p.args.other_participants sender ≡ true
      → key.1 ≡ (some m.round_id, some m.sync_seq)
      → Published (lookup sender m.participants) (key.0, payload)

  abbrev pub BringsGenuine : Participant F → Option (Envelope F) → Type 0
  BringsGenuine p none = Unit
  BringsGenuine p (some env) = Genuine p (key_of env) env.node_id env.payload

  module _ ⦃f : Float F⦄ where
    -- A turn of a barrier's loop: the clock is before both deadlines, and what it reads is genuine.
    abbrev pub IsTimely : Participant F → Tick F → Type 0
    IsTimely p t =
        (f.lt t.now (f.add p.started sync_barrier_timeout) ≡ true)
        × (f.lt t.now (f.add p.later sync_barrier_timeout) ≡ true)
        × BringsGenuine p t.env

    -- A participant that takes part: it runs this sync with all the others, has committed each
    -- position once, starts from the common state, and returns.
    pub record TakesPart (id : String) (p : Participant F) : Type 0 where
      pub named : p.args.id ≡ id
      pub same_round : p.args.round_id ≡ m.round_id
      pub same_sync : p.args.sync_seq ≡ m.sync_seq
      pub same_start : p.args.gen_start ≡ m.gen_start
      pub same_end : p.args.gen_end ≡ m.gen_end
      pub others :
          (s : String)
          → contains p.args.other_participants s
            ≡ (contains (keys m.participants) s && not (s == id))
      pub iterates : IsIteration p.iter
      pub nodup : NodupKeys p.args.my_commits
      pub fits : (pos : Position) (tok : Token) → f.exp (p.args.log_prob pos tok) ≢ none
      pub same_state : SameLookups p.shared_x m.shared_x
      pub inbox : IsInbox p.node.gen_inbox
      pub filed_genuine : All (λ b. All (λ e. Genuine p b.0 e.0 e.1) b.1) p.node.gen_inbox
      pub timely : All (IsTimely p) p.ticks
      pub returns :
          do_sync p.iter p.args p.shared_x m.detector p.started p.later p.ticks p.node
          ≡ ok (some p.result)

    -- All of them take part.
    abbrev pub AllTakePart : Type 0
    AllTakePart = All (λ e. TakesPart e.0 e.1) m.participants
