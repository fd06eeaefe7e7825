-- ===== src/Generation/Loop/Together/Relation.antt =====
-- Two participants that make the steps of `run_round` (node/generation.py) side by side, as a
-- relation, and what they have in common on the way.
use ded_swarm.Base.{ℕ, ◌≡◌, true, List, [], ◌++◌, nat_eq, string_eq, none, ok, map}
use ded_swarm.Base.Dict.{NodupKeys, SameLookups}
use ded_swarm.Float.{Float}
use ded_swarm.Config.{sync_barrier_timeout}
use ded_swarm.Torch.{Torch}
use ded_swarm.Protocol.{MsgType, commit, dispute_score, Payload}
use ded_swarm.Consensus.{Token, TokenSet}
use ded_swarm.Generation.Exchange.{tick_of}
use ded_swarm.Generation.Loop.{Run, RoundArgs, going, step}

module _ {F : Type 0} ⦃f : Float F⦄ (torch : Torch F) (iter iter' : TokenSet → List Token)
    (a b : RoundArgs F) where
  -- The messages that each publishes in a step are what the other reads, in time for both barriers.
  pub record IsHeard (block_idx step_idx : ℕ) (r r' : Run F) (q q' : Run F) : Type 0 where
    pub now : MsgType → F
    pub now' : MsgType → F
    pub sent : List (MsgType × Payload F)
    pub sent' : List (MsgType × Payload F)
    pub publishes : r'.published ≡ r.published ++ sent
    pub publishes' : q'.published ≡ q.published ++ sent'
    pub reads : (a.moment block_idx step_idx).ticks ≡ map (tick_of b.id now) sent'
    pub reads' : (b.moment block_idx step_idx).ticks ≡ map (tick_of a.id now') sent
    pub in_time :
        f.lt (now commit) (f.add (a.moment block_idx step_idx).started sync_barrier_timeout) ≡ true
    pub scores_in_time :
        f.lt (now dispute_score) (f.add (a.moment block_idx step_idx).later sync_barrier_timeout)
        ≡ true
    pub in_time' :
        f.lt (now' commit) (f.add (b.moment block_idx step_idx).started sync_barrier_timeout) ≡ true
    pub scores_in_time' :
        f.lt (now' dispute_score) (f.add (b.moment block_idx step_idx).later sync_barrier_timeout)
        ≡ true

  -- How far two participants have come.
  pub data Together (r₀ q₀ : Run F) : Run F → Run F → Type 0 where
    start : Together r₀ q₀ r₀ q₀
    stepped :
        {r q r' q' : Run F} (block_idx step_idx : ℕ)
        → Together r₀ q₀ r q
        → (a.moment block_idx step_idx).tick.env ≡ none
        → (b.moment block_idx step_idx).tick.env ≡ none
        → step torch iter a block_idx step_idx r ≡ ok (going r')
        → step torch iter' b block_idx step_idx q ≡ ok (going q')
        → IsHeard block_idx step_idx r r' q q'
        → Together r₀ q₀ r' q'
    next_block :
        {r q : Run F}
        → Together r₀ q₀ r q
        → Together r₀ q₀
            (record r { age = λ pos. 0; pending_commits = [] })
            (record q { age = λ pos. 0; pending_commits = [] })

-- What two participants have in common at every moment.
pub record IsShared {F : Type 0} (r q : Run F) : Type 0 where
  pub shared_x : SameLookups r.shared_x q.shared_x
  pub stop_detector : r.stop_detector ≡ q.stop_detector
  pub frozen_from : r.frozen_from ≡ q.frozen_from
  pub sync_seq : r.sync_seq ≡ q.sync_seq
  pub inbox : r.node.gen_inbox ≡ []
  pub inbox' : q.node.gen_inbox ≡ []
  pub once : NodupKeys r.pending_commits
  pub once' : NodupKeys q.pending_commits
