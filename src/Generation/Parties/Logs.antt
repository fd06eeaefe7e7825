-- ===== src/Generation/Parties/Logs.antt =====
-- Every participant of a sync gathers the same commits, in an order of its own.
use ded_swarm.Base.{
  ◌≡◌, ◌≢◌, ◌⊎◌, inl, inr, refl, ap, ◌∙◌, true, List, [], ◌∷◌, ◌==◌, ◌&&◌, not, nat_eq, string_eq,
  String, Option, none, some, contains, All, ok, arith, Option-cases,
}
use ded_swarm.Base.Dict.{Dict, lookup, insert, keys, contains-keys}
use ded_swarm.Base.Every.{lookup-All, All-keys, All-map, All-zip}
use ded_swarm.Base.Refill.{filled}
use ded_swarm.Float.{Float}
use ded_swarm.Config.{sync_barrier_timeout}
use ded_swarm.Protocol.{MsgType, commit, dispute_score, msg_type_eq, Payload}
use ded_swarm.Consensus.{Position, Token, Commit, Commits, detect_disputes}
use ded_swarm.Swarm.{Key, Bucket, SwarmNode, Tick, has, collect_until, Collected}
use ded_swarm.Swarm.Inbox.{IsInbox}
use ded_swarm.Swarm.Senders.{collect_until-expected}
use ded_swarm.Swarm.Origin.{collect_until-SentUnder}
use ded_swarm.Swarm.Heard.{collect_until-IsInbox, collect_until_everyone}
use ded_swarm.Generation.{commit_payload, read_commit, add_commit}
use ded_swarm.Generation.Messages.{read_commit-commit_payload}
use ded_swarm.Generation.Phases.{
  Phased, Scored, do_sync-Phased, score_phase-calm, score_phase-Scored,
}
use ded_swarm.Generation.Parties.{
  Participant, Meeting, IsAmong, Published, Genuine, IsTimely, TakesPart, AllTakePart,
}

module _ {F : Type 0} where
  commit_alone :
      (payload x : Payload F) → IsAmong (commit, payload) ((commit, x) ∷ []) → payload ≡ x
  commit_alone payload x (inl e) = ap (λ z. z.1) e
  commit_alone payload x (inr other) = absurd other

  commit_first :
      (payload x y : Payload F)
      → IsAmong (commit, payload) ((commit, x) ∷ (dispute_score, y) ∷ [])
      → payload ≡ x
  commit_first payload x y (inl e) = ap (λ z. z.1) e
  commit_first payload x y (inr (inl e)) = cc
  commit_first payload x y (inr (inr other)) = absurd other

module _ {F : Type 0} ⦃f : Float F⦄ (m : Meeting F) (all : AllTakePart m) where
  abbrev pub takes_part :
      (id : String) (p : Participant F) → lookup id m.participants ≡ some p → TakesPart m id p
  takes_part id p there = lookup-All (λ e. TakesPart m e.0 e.1) id p m.participants all there

  -- The phases of a participant's sync.
  abbrev pub PhasesOf : Participant F → Type 0
  PhasesOf p = Phased p.iter p.args p.shared_x m.detector p.started p.later p.ticks p.node p.result

  pub phases : (id : String) (p : Participant F) → lookup id m.participants ≡ some p → PhasesOf p
  phases id p there =
      do_sync-Phased p.iter p.args p.shared_x m.detector p.started p.later p.ticks p.node p.result
        (takes_part id p there).returns

  -- Its commits, as the participant with the id made them.
  abbrev pub commits_of : Option (Participant F) → Commit F
  commits_of none = []
  commits_of (some p) = p.args.my_commits

  abbrev pub committed : String → Commit F
  committed s = commits_of (lookup s m.participants)

  -- A participant finds no dispute and publishes no score, or it goes through phase 2.
  abbrev pub IsCalm : (p : Participant F) → PhasesOf p → Type 0
  IsCalm p ph = (detect_disputes ph.log ≡ []) × (ph.r.resolved ≡ []) × (ph.r.published ≡ [])

  abbrev pub IsDisputing : (p : Participant F) → PhasesOf p → Type 0
  IsDisputing p ph =
      (detect_disputes ph.log ≢ [])
      × Scored p.iter p.args (detect_disputes ph.log) p.later ph.c.ticks ph.c.node ph.r

  pub phase_2_or_none : (p : Participant F) (ph : PhasesOf p) → IsCalm p ph ⊎ IsDisputing p ph
  phase_2_or_none p ph = go (detect_disputes ph.log) refl
    where
      go :
          (ds : Dict Position (List Token))
          → detect_disputes ph.log ≡ ds
          → IsCalm p ph ⊎ IsDisputing p ph
      go [] e =
          let (resolved, published) =
            score_phase-calm p.iter p.args p.later ph.c.ticks ph.c.node ph.r (rw e at ph.scores) in
          inl (e, resolved, published)
      go (d ∷ ds) e = inr (
        λ none_. cc,
        rw e (
            score_phase-Scored p.iter p.args d ds p.later ph.c.ticks ph.c.node ph.r
              (rw e at ph.scores)),
      )

  -- A COMMIT that a participant published carries its commits.
  published_commit :
      (id : String) (p : Participant F) (payload : Payload F)
      → lookup id m.participants ≡ some p
      → IsAmong (commit, payload) p.result.published
      → payload ≡ commit_payload p.args.round_id p.args.sync_seq p.args.my_commits
  published_commit id p payload there sent =
      let ph = phases id p there in
      elim (phase_2_or_none p ph) [
        | inl (_, _, nothing) ↦ commit_alone payload _ (rw (ph.publishes, nothing) at sent)
        | inr (_, sc) ↦ commit_first payload _ _ (rw (ph.publishes, sc.publishes) at sent)
      ]

  -- What a participant reads of a COMMIT of this sync is what its sender committed.
  pub IsRead : String × Payload F → Type 0
  IsRead (s, payload) = read_commit payload ≡ ok (committed s)

  pub reads_commit :
      (s : String) (payload : Payload F)
      → Published (lookup s m.participants) (commit, payload)
      → IsRead (s, payload)
  unfolding IsRead
  reads_commit s payload sent = elim (Option-cases (lookup s m.participants)) [
    | inl e ↦ absurd (rw e at sent)
    | inr (p, e) ↦
        rw
          (
            published_commit s p payload e (rw e at sent),
            e,
            read_commit-commit_payload p.args.round_id p.args.sync_seq p.args.my_commits
                (takes_part s p e).nodup,
          )
          refl
  ]

  pub add_commit-IsRead :
      (acc : Commits F) (x : String × Payload F)
      → IsRead x
      → add_commit acc x ≡ ok (insert x.0 (committed (x.0)) acc)
  unfolding IsRead add_commit
  add_commit-IsRead acc (s, payload) h = rw h refl

  module _ (id : String) (p : Participant F) (there : lookup id m.participants ≡ some p) where
    -- What either barrier of the sync returns: the messages that the others published, of all of
    -- them.
    pub heard :
        (msg_type : MsgType) (started : F) (ticks : List (Tick F)) (n : SwarmNode F)
        (c : Collected F)
        → IsInbox n.gen_inbox
        → All (λ b. All (λ e. Genuine m p b.0 e.0 e.1) b.1) n.gen_inbox
        → All (IsTimely m p) ticks
        → ((t : Tick F) → IsTimely m p t → f.lt t.now (f.add started sync_barrier_timeout) ≡ true)
        → collect_until msg_type p.args.round_id p.args.sync_seq p.args.other_participants
            sync_barrier_timeout started ticks n
          ≡ ok (some c)
        → All (λ e. Published (lookup e.0 m.participants) (msg_type, e.1)) c.received
          × ((s : String) → has s c.received ≡ (contains (keys m.participants) s && not (s == id)))
          × IsInbox c.node.gen_inbox
          × All (λ b. All (λ e. Genuine m p b.0 e.0 e.1) b.1) c.node.gen_inbox
          × All (IsTimely m p) c.ticks
    heard msg_type started ticks n c i g w in_time run =
        let t = takes_part id p there in
        let key : Key = (msg_type, (some p.args.round_id, some p.args.sync_seq)) in
        let (sent, left, ahead) =
          collect_until-SentUnder (Genuine m p) (IsTimely m p)
            (λ t env timely e. rw e at (timely.2)) msg_type p.args.round_id p.args.sync_seq
            p.args.other_participants sync_barrier_timeout started ticks n c w g run in
        let present =
          All-keys (λ s. contains p.args.other_participants s ≡ true) c.received
            (λ s there.
              collect_until-expected msg_type p.args.round_id p.args.sync_seq
                p.args.other_participants sync_barrier_timeout started ticks n c s run
                (ground arith)) in
        (
          All-zip (λ e. Genuine m p key e.0 e.1)
              (λ e. contains p.args.other_participants e.0 ≡ true)
              (λ e. Published (lookup e.0 m.participants) (msg_type, e.1)) c.received
              (λ e genuine expected. genuine expected (cc (t.same_round, t.same_sync))) sent
              present,
          λ s.
              collect_until_everyone msg_type p.args.round_id p.args.sync_seq
                p.args.other_participants sync_barrier_timeout started ticks n c i run
                (All-map (IsTimely m p)
                  (λ (t : Tick F). f.lt t.now (f.add started sync_barrier_timeout) ≡ true) c.ticks
                  in_time ahead)
                s
              ∙ t.others s,
          collect_until-IsInbox msg_type p.args.round_id p.args.sync_seq p.args.other_participants
              sync_barrier_timeout started ticks n c i run,
          left,
          ahead,
        )

    -- Whose message of a kind a participant has, its own included.
    pub everyone_heard :
        {W : Type 0} (received : Bucket F) (value : String → W) (mine : W) (s : String)
        → has s received ≡ (contains (keys m.participants) s && not (s == id))
        → value id ≡ mine
        → filled (lookup s received) (value s) (lookup s ((p.args.id, mine) ∷ []))
          ≡ elim (lookup s m.participants) [ none ↦ none | some _ ↦ some (value s) ]
    unfolding lookup
    everyone_heard received value mine s h own =
        ground (arith, contains-keys m.participants s, (takes_part id p there).named, there)
