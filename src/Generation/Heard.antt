-- ===== src/Generation/Heard.antt =====
-- Two participants whose syncs (`_do_sync`, node/generation.py) have returned.
use ded_swarm.Base.{
  ◌≡◌, ◌≢◌, sym, subst, List, [], ◌∷◌, nat_eq, string_eq, true, none, some, ok, map,
}
use ded_swarm.Base.Dict.{Dict, NodupKeys, SameLookups}
use ded_swarm.Float.{Float, IsOrdered, IsIeee}
use ded_swarm.Config.{sync_barrier_timeout}
use ded_swarm.Protocol.{MsgType, commit, dispute_score, Payload}
use ded_swarm.Consensus.{Position, Token, TokenSet}
use ded_swarm.Consensus.Adopt.{IsIteration}
use ded_swarm.Stop.{StopDetector}
use ded_swarm.Swarm.{SwarmNode}
use ded_swarm.Generation.{SyncArgs, Synced, commit_payload, do_sync}
use ded_swarm.Generation.Exchange.{tick_of}
use ded_swarm.Generation.Agreed.{both_agree}
use ded_swarm.Generation.Published.{do_sync-commit_first, do_sync-sends}

module _ {F : Type 0} ⦃f : Float F⦄ (laws : IsOrdered F) (ieee : IsIeee F)
    (iter iter' : TokenSet → List Token) (law : IsIteration iter) (law' : IsIteration iter')
    (a b : SyncArgs F) (fits : (pos : Position) (tok : Token) → f.exp (a.log_prob pos tok) ≢ none)
    (fits' : (pos : Position) (tok : Token) → f.exp (b.log_prob pos tok) ≢ none)
    (shared_x shared_y : Dict Position Token) (detector : StopDetector) (now now' : MsgType → F)
    (started later started' later' : F) (n m : SwarmNode F) (differ : a.id ≢ b.id)
    (only : a.other_participants ≡ b.id ∷ []) (only' : b.other_participants ≡ a.id ∷ [])
    (same_round : b.round_id ≡ a.round_id) (same_sync : b.sync_seq ≡ a.sync_seq)
    (same_start : b.gen_start ≡ a.gen_start) (same_end : b.gen_end ≡ a.gen_end)
    (u : NodupKeys a.my_commits) (v : NodupKeys b.my_commits) (same : SameLookups shared_x shared_y)
    (empty : n.gen_inbox ≡ []) (empty' : m.gen_inbox ≡ [])
    (in_time : f.lt (now commit) (f.add started sync_barrier_timeout) ≡ true)
    (in_time_scores : f.lt (now dispute_score) (f.add later sync_barrier_timeout) ≡ true)
    (in_time' : f.lt (now' commit) (f.add started' sync_barrier_timeout) ≡ true)
    (in_time_scores' : f.lt (now' dispute_score) (f.add later' sync_barrier_timeout) ≡ true) where
  abbrev pub Alike : Synced F → Synced F → Type 0
  Alike s s' =
      SameLookups s.shared_x s'.shared_x
      × (s.detector ≡ s'.detector)
      × (s.node.gen_inbox ≡ [])
      × (s'.node.gen_inbox ≡ [])

  -- If each has read what the other published, they agree.
  pub heard_pair :
      (s s' : Synced F)
      → do_sync iter a shared_x detector started later (map (tick_of b.id now) s'.published) n
        ≡ ok (some s)
      → do_sync iter' b shared_y detector started' later' (map (tick_of a.id now') s.published) m
        ≡ ok (some s')
      → Alike s s'
  heard_pair s s' run run' =
      let hears = λ (ms : List (MsgType × Payload F)).
        do_sync iter a shared_x detector started later (map (tick_of b.id now) ms) n in
      let hears' = λ (ms : List (MsgType × Payload F)).
        do_sync iter' b shared_y detector started' later' (map (tick_of a.id now') ms) m in
      let (rest, first) =
        do_sync-commit_first iter a shared_x detector started later
          (map (tick_of b.id now) s'.published) n s run in
      let (rest', first') =
        do_sync-commit_first iter' b shared_y detector started' later'
          (map (tick_of a.id now') s.published) m s' run' in
      let opens : s'.published
          ≡ (commit, commit_payload a.round_id a.sync_seq b.my_commits) ∷ rest' =
        rw (← same_round, ← same_sync) first' in
      let opens' : s.published
          ≡ (commit, commit_payload b.round_id b.sync_seq a.my_commits) ∷ rest =
        rw (same_round, same_sync) first in
      let (sent, scored) =
        do_sync-sends iter a shared_x detector b now started later (map (tick_of b.id now) rest') n
          s differ only v empty in_time (subst (λ ms. hears ms ≡ ok (some s)) opens run) in
      let (sent', scored') =
        do_sync-sends iter' b shared_y detector a now' started' later'
          (map (tick_of a.id now') rest) m s' (λ e. differ (sym e)) only' u empty' in_time'
          (subst (λ ms. hears' ms ≡ ok (some s')) opens' run') in
      let (t, t', ends, ends', _, _, agree, detect, left, left') =
        both_agree laws ieee iter iter' law law' a b fits fits' shared_x shared_y detector now now'
          started later started' later' n m differ only only' same_round same_sync same_start
          same_end u v same empty empty' in_time in_time_scores in_time' in_time_scores' scored
          scored' in
      let is : t ≡ s = cc (ends, subst (λ ms. hears ms ≡ ok (some s)) sent' run) in
      let is' : t' ≡ s' = cc (ends', subst (λ ms. hears' ms ≡ ok (some s')) sent run') in
      subst (Alike s) is' (subst (λ x. Alike x t') is (agree, detect, left, left'))
