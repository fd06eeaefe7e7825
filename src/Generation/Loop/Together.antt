-- ===== src/Generation/Loop/Together.antt =====
-- Two participants in `run_round` (node/generation.py), step by step, each of which hears what the
-- other publishes.
mod Relation
pub use Relation.*
use ded_swarm.Base.{
  ℕ, ◌+◌, ◌≡◌, ◌≢◌, refl, ap, ◌∙◌, sym, subst, Bool, true, false, List, [], ◌∷◌, ◌++◌, nat_eq,
  string_eq, none, some, ok, map,
}
use ded_swarm.Base.Dict.{NodupKeys, SameLookups}
use ded_swarm.Float.{Float, IsOrdered, IsIeee}
use ded_swarm.Config.{sync_barrier_timeout}
use ded_swarm.Torch.{Row, Torch}
use ded_swarm.Protocol.{MsgType, commit, dispute_score, Payload}
use ded_swarm.Consensus.{Token, TokenSet}
use ded_swarm.Consensus.Adopt.{IsIteration}
use ded_swarm.LocalStep.{clamp_min}
use ded_swarm.Stop
use ded_swarm.Stop.{StopDetector}
use ded_swarm.Swarm.{SwarmNode}
use ded_swarm.Generation.{Synced, do_sync}
use ded_swarm.Generation.Exchange.{tick_of}
use ded_swarm.Generation.Heard.{heard_pair}
use ded_swarm.Generation.Loop.{
  Run, RoundArgs, GenConfig, begin, Moment, going, adopt_shared, sync_due, sync_args, step,
}
use ded_swarm.Generation.Loop.Turns.{IsLocal, Ended, step-Ended}

append-cancel : {A : Type 0} (xs ys zs : List A) → xs ++ ys ≡ xs ++ zs → ys ≡ zs
append-cancel [] ys zs h = h
append-cancel (x ∷ xs) ys zs h = append-cancel xs ys zs (cc h)

module _ {F : Type 0} ⦃f : Float F⦄ (laws : IsOrdered F) (ieee : IsIeee F) (torch : Torch F)
    (iter iter' : TokenSet → List Token) (law : IsIteration iter) (law' : IsIteration iter')
    (a b : RoundArgs F)
    (fits : (t : F) → f.exp (torch.log (clamp_min torch a.cfg.step_cfg t)) ≢ none)
    (differ : a.id ≢ b.id) (only : a.other_participants ≡ b.id ∷ [])
    (only' : b.other_participants ≡ a.id ∷ []) (same_round : b.round_id ≡ a.round_id)
    (same_start : b.gen_start ≡ a.gen_start) (same_cfg : b.cfg ≡ a.cfg)
    (same_steps : b.steps_per_block ≡ a.steps_per_block) where
  same_due : (step_idx : ℕ) → sync_due b step_idx ≡ sync_due a step_idx
  unfolding sync_due
  same_due step_idx = rw (same_cfg, same_steps) refl

  -- The sync of both: `heard_pair`, at what the two loops pass to it.
  synced_alike :
      (now now' : MsgType → F) (r q : Run F) (p p' : Row (Row F)) (m m' : Moment F)
      (s s' : Synced F)
      → SameLookups r.shared_x q.shared_x
      → r.stop_detector ≡ q.stop_detector
      → r.sync_seq ≡ q.sync_seq
      → r.node.gen_inbox ≡ []
      → q.node.gen_inbox ≡ []
      → NodupKeys r.pending_commits
      → NodupKeys q.pending_commits
      → f.lt (now commit) (f.add m.started sync_barrier_timeout) ≡ true
      → f.lt (now dispute_score) (f.add m.later sync_barrier_timeout) ≡ true
      → f.lt (now' commit) (f.add m'.started sync_barrier_timeout) ≡ true
      → f.lt (now' dispute_score) (f.add m'.later sync_barrier_timeout) ≡ true
      → m.ticks ≡ map (tick_of b.id now) s'.published
      → m'.ticks ≡ map (tick_of a.id now') s.published
      → do_sync iter
          (sync_args torch iter a r p)
          r.shared_x
          r.stop_detector
          m.started
          m.later
          m.ticks
          r.node
        ≡ ok (some s)
      → do_sync iter'
          (sync_args torch iter' b q p')
          q.shared_x
          q.stop_detector
          m'.started
          m'.later
          m'.ticks
          q.node
        ≡ ok (some s')
      → SameLookups s.shared_x s'.shared_x
        × (s.detector ≡ s'.detector)
        × (s.node.gen_inbox ≡ [])
        × (s'.node.gen_inbox ≡ [])
  unfolding sync_args
  synced_alike now now' r q p p' m m' s s' same detect seq empty empty' u v t₁ t₂ t₃ t₄ reads reads'
        run run' =
      heard_pair laws ieee iter iter' law law' (sync_args torch iter a r p)
        (sync_args torch iter' b q p') (λ pos tok. fits (p pos tok))
        (λ pos tok. rw same_cfg (fits (p' pos tok))) r.shared_x q.shared_x r.stop_detector now now'
        m.started m.later m'.started m'.later r.node q.node differ only only' same_round (sym seq)
        same_start (rw (same_start, same_cfg) refl) u v same empty empty' t₁ t₂ t₃ t₄ s s'
        (rw (← reads) run) (rw (← reads', detect) run')

  both-Ended :
      (block_idx step_idx : ℕ) (r r' q q' r₁ q₁ : Run F) (p p' : Row (Row F)) (due : Bool)
      → IsShared r q
      → IsHeard torch iter iter' a b block_idx step_idx r r' q q'
      → IsLocal torch iter a block_idx step_idx r r' r₁
      → IsLocal torch iter' b block_idx step_idx q q' q₁
      → Ended torch iter a block_idx step_idx r r' r₁ p due
      → Ended torch iter' b block_idx step_idx q q' q₁ p' due
      → IsShared r' q'
  unfolding adopt_shared sync_args
  both-Ended block_idx step_idx r r' q q' r₁ q₁ p p' false h heard l l' e e' =
      rw (← e, ← e')
        (record {
          shared_x = rw (l.shared_x, l'.shared_x) h.shared_x;
          stop_detector = l.stop_detector ∙ h.stop_detector ∙ sym l'.stop_detector;
          frozen_from = l.frozen_from ∙ h.frozen_from ∙ sym l'.frozen_from;
          sync_seq = l.sync_seq ∙ h.sync_seq ∙ sym l'.sync_seq;
          inbox = l.gen_inbox ∙ h.inbox;
          inbox' = l'.gen_inbox ∙ h.inbox';
          once = l.once h.once;
          once' = l'.once h.once';
        })
  both-Ended block_idx step_idx r r' q q' r₁ q₁ p p' true h heard l l' (s, run, e) (s', run', e') =
      let sent_by : s.published ≡ heard.sent = append-cancel r.published s.published heard.sent (
        ap (λ x. x ++ s.published) (sym l.published)
        ∙ ap (λ (x : Run F). x.published) e
        ∙ heard.publishes) in
      let sent_by' : s'.published ≡ heard.sent' =
        append-cancel q.published s'.published heard.sent' (
          ap (λ x. x ++ s'.published) (sym l'.published)
          ∙ ap (λ (x : Run F). x.published) e'
          ∙ heard.publishes') in
      let (agree, detect, left, left') =
        synced_alike heard.now heard.now' r₁ q₁ p p' (a.moment block_idx step_idx)
          (b.moment block_idx step_idx) s s' (rw (l.shared_x, l'.shared_x) h.shared_x)
          (l.stop_detector ∙ h.stop_detector ∙ sym l'.stop_detector)
          (l.sync_seq ∙ h.sync_seq ∙ sym l'.sync_seq) (l.gen_inbox ∙ h.inbox)
          (l'.gen_inbox ∙ h.inbox') (l.once h.once) (l'.once h.once') heard.in_time
          heard.scores_in_time heard.in_time' heard.scores_in_time'
          (heard.reads ∙ ap (map (tick_of b.id heard.now)) (sym sent_by'))
          (heard.reads' ∙ ap (map (tick_of a.id heard.now')) (sym sent_by)) run run' in
      rw (← e, ← e')
        (record {
          shared_x = agree;
          stop_detector = detect;
          frozen_from = ap (λ (d : StopDetector). d.stop_pos) detect;
          sync_seq = ap (λ n. n + 1) (l.sync_seq ∙ h.sync_seq ∙ sym l'.sync_seq);
          inbox = left;
          inbox' = left';
          once = tt;
          once' = tt;
        })

  pub Together-IsShared :
      {r₀ q₀ r q : Run F} → Together torch iter iter' a b r₀ q₀ r q → IsShared r₀ q₀ → IsShared r q
  Together-IsShared start h = h
  Together-IsShared (stepped {r} {q} {r'} {q'} block_idx step_idx t quiet quiet' run run' heard) h =
      let before = Together-IsShared t h in
      let (r₁, l, p, due, is_due, e) = step-Ended torch iter a block_idx step_idx r r' quiet run in
      let (q₁, l', p', due', is_due', e') =
        step-Ended torch iter' b block_idx step_idx q q' quiet' run' in
      let same : due' ≡ due = cc (same_due step_idx, is_due, is_due') in
      both-Ended block_idx step_idx r r' q q' r₁ q₁ p p' due before heard l l' e
        (subst (λ d. Ended torch iter' b block_idx step_idx q q' q₁ p' d) same e')
  Together-IsShared (next_block t) h =
      let before = Together-IsShared t h in
      record {
        shared_x = before.shared_x;
        stop_detector = before.stop_detector;
        frozen_from = before.frozen_from;
        sync_seq = before.sync_seq;
        inbox = before.inbox;
        inbox' = before.inbox';
        once = tt;
        once' = tt;
      }

  -- Two participants of a round, each the only other of the other, with models of their own, that
  -- begin with the same prompt and settings and with empty inboxes: at every moment, however many
  -- steps and blocks they have made together, they hold the same shared state, and their stop
  -- detectors and frozen boundaries are the same. Each must have read in every sync, in time for its
  -- barriers, what the other published in it, and nothing in the polls between; and the scores must
  -- not overflow `exp`.
  pub run_round-Together :
      (n m : SwarmNode F) (prompt_ids : List Token) (r q : Run F)
      → n.gen_inbox ≡ []
      → m.gen_inbox ≡ []
      → Together torch iter iter' a b (begin n prompt_ids a.cfg) (begin m prompt_ids b.cfg) r q
      → SameLookups r.shared_x q.shared_x
        × (r.stop_detector ≡ q.stop_detector)
        × (r.frozen_from ≡ q.frozen_from)
  unfolding begin
  run_round-Together n m prompt_ids r q empty empty' t =
      let h = Together-IsShared t (record {
        shared_x = λ pos. refl;
        stop_detector = ap (λ (c : GenConfig F). Stop.init c.stop_cfg) (sym same_cfg);
        frozen_from = refl;
        sync_seq = refl;
        inbox = empty;
        inbox' = empty';
        once = tt;
        once' = tt;
      }) in
      (h.shared_x, h.stop_detector, h.frozen_from)
