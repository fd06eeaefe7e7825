-- ===== src/Generation/Returns.antt =====
-- Every sync (`_do_sync`, node/generation.py) comes to an end, whoever is silent in it.
use ded_swarm.Base.{
  ◌≡◌, refl, true, false, Bool, Bool-cases, inl, inr, List, [], ◌∷◌, ◌&&◌, not, any, nat_eq,
  string_eq, String, Option, none, some, contains, All, ok, ◌<◌, ltb, length, sym, ◌∙◌, for_each,
  arith, ◌≢◌,
}
use ded_swarm.Base.Dict.{Dict, insert, lookup}
use ded_swarm.Base.Every.{
  All-insert, All-keep, All-lookup, All-keys, All-map, All-zip, for_each_total,
}
use ded_swarm.Float.{Float, IsOrdered}
use ded_swarm.Config.{sync_barrier_timeout}
use ded_swarm.Protocol.{MsgType, commit, dispute_score, Payload, Envelope}
use ded_swarm.Consensus.{
  Position, Token, TokenSet, Commit, Commits, Scores, AllScores, detect_disputes, by_position,
}
use ded_swarm.Consensus.Proposals.{names, proposes, by_position-IsGathered, contains-by_position}
use ded_swarm.Consensus.Adopt.{IsIteration}
use ded_swarm.Consensus.Merge.{merge_consensus_total}
use ded_swarm.Consensus.Resolve.{resolve_disputes-IsWinner}
use ded_swarm.Consensus.Votes.{IsReport}
use ded_swarm.Stop.{StopDetector, check}
use ded_swarm.Swarm.{Key, Bucket, SwarmNode, Tick, Collected, key_of, collect_until}
use ded_swarm.Swarm.Barrier.{IsWellFormed, collect_until_total}
use ded_swarm.Swarm.Origin.{collect_until-SentUnder}
use ded_swarm.Swarm.Overdue.{collect_until-any}
use ded_swarm.Swarm.Senders.{collect_until-expected}
use ded_swarm.Generation.Scoring.{
  IsScored, IsScorable, scorable-IsScored, score_phase-IsScored, scores_for,
}
use ded_swarm.Generation.{
  SyncArgs, Resolved, Synced, commit_payload, read_commit, add_commit, read_scores, add_scores,
  scores_payload, resolve_collected, score_phase, merge_phase, commits_collected, do_sync,
}
use ded_swarm.Generation.Reports.{IsDisputed, detect_disputes-IsDisputed, scores_for-IsReport}

any_mono {ℓ} :
    {A : Type ℓ} (p q : A → Bool) (xs : List A)
    → ((x : A) → p x ≡ true → q x ≡ true)
    → any p xs ≡ true
    → any q xs ≡ true
any_mono p q [] h e = cc
any_mono p q (x ∷ xs) h e = elim (Bool-cases (p x)) [
  | inl here ↦ rw (h x here) refl
  | inr there ↦ ground (arith, any_mono p q xs h)
]

module _ {F : Type 0} ⦃f : Float F⦄ where
  -- The output of the model has an entry for the position and the token that are proposed.
  abbrev pub IsEntryInside : SyncArgs F → Position × (Token × F) → Type 0
  IsEntryInside a (pos, (tok, _)) = (pos < a.seq_len) × (tok < a.vocab_size)

  -- The code can read what a message of a sync carries, can look up what it proposes in the output of
  -- its own model, and can weigh the scores that it reports.
  abbrev pub IsReadable : SyncArgs F → MsgType → Payload F → Type 0
  IsReadable a msg_type payload = elim msg_type [
    | commit ↦ (c : Commit F) × (read_commit payload ≡ ok c) × All (IsEntryInside a) c
    | dispute_score ↦ (s : Scores F) × (read_scores payload ≡ ok s) × All IsReport s
    | _ ↦ Unit
  ]

  module _ (a : SyncArgs F) where
    -- If a participant sends it for this sync, it can be read.
    abbrev pub IsProper : Key → String → Payload F → Type 0
    IsProper key sender payload =
        contains a.other_participants sender ≡ true
        → key.1 ≡ (some a.round_id, some a.sync_seq)
        → IsReadable a key.0 payload

    abbrev pub BringsProper : Option (Envelope F) → Type 0
    BringsProper none = Unit
    BringsProper (some env) = IsProper (key_of env) env.node_id env.payload

    abbrev pub IsProperTick : Tick F → Type 0
    IsProperTick t = IsWellFormed t × BringsProper t.env

    abbrev pub IsProperInbox : Dict Key (Bucket F) → Type 0
    IsProperInbox = All (λ b. All (λ e. IsProper b.0 e.0 e.1) b.1)

    -- The deadlines of both barriers have passed.
    abbrev pub is_over : (started later : F) → Tick F → Bool
    is_over started later t =
        not (f.lt t.now (f.add started sync_barrier_timeout))
        && not (f.lt t.now (f.add later sync_barrier_timeout))

    -- What either barrier leaves, and that it ends.
    barrier :
        (msg_type : MsgType) (started later begun : F) (ticks : List (Tick F)) (n : SwarmNode F)
        → ((t : Tick F)
            → is_over started later t ≡ true
            → f.lt t.now (f.add begun sync_barrier_timeout) ≡ false)
        → All IsProperTick ticks
        → IsProperInbox n.gen_inbox
        → any (is_over started later) ticks ≡ true
        → (c : Collected F) × (collect_until msg_type a.round_id a.sync_seq a.other_participants
              sync_barrier_timeout begun ticks n
            ≡ ok (some c))
          × All (λ e. IsReadable a msg_type e.1) c.received
          × IsProperInbox c.node.gen_inbox
          × All IsProperTick c.ticks
          × (any (is_over started later) c.ticks ≡ true)
    barrier msg_type started later begun ticks n over w i late =
        let key : Key = (msg_type, (some a.round_id, some a.sync_seq)) in
        let (c, run) =
          collect_until_total msg_type a.round_id a.sync_seq a.other_participants
            sync_barrier_timeout begun ticks n
            (All-map IsProperTick IsWellFormed ticks (λ t h. h.0) w)
            (any_mono (is_over started later)
              (λ (t : Tick F). not (f.lt t.now (f.add begun sync_barrier_timeout))) ticks
              (λ t h. rw (over t h) refl) late) in
        let (sent, left, ahead) =
          collect_until-SentUnder IsProper IsProperTick (λ t env h e. rw e at (h.1)) msg_type
            a.round_id a.sync_seq a.other_participants sync_barrier_timeout begun ticks n c w i
            run in
        let present =
          All-keys (λ s. contains a.other_participants s ≡ true) c.received
            (λ s there.
              collect_until-expected msg_type a.round_id a.sync_seq a.other_participants
                sync_barrier_timeout begun ticks n c s run (ground arith)) in
        (
          c,
          run,
          All-zip (λ e. IsProper key e.0 e.1) (λ e. contains a.other_participants e.0 ≡ true)
              (λ e. IsReadable a msg_type e.1) c.received
              (λ e proper expected. proper expected refl) sent present,
          left,
          ahead,
          collect_until-any (is_over started later) msg_type a.round_id a.sync_seq
              a.other_participants sync_barrier_timeout begun ticks n c over run late,
        )

module _ {F : Type 0} ⦃f : Float F⦄ (a : SyncArgs F) where
  named-IsInside :
      (pos : Position) (tok : Token) (c : Commit F)
      → All (IsEntryInside a) c
      → any (names pos tok) c ≡ true
      → (pos < a.seq_len) × (tok < a.vocab_size)
  named-IsInside pos tok [] h e = cc
  named-IsInside pos tok ((p, (t, x)) ∷ c) ((x1, x2), h) e =
      elim (Bool-cases (names pos tok (p, (t, x)))) [
        | inl here ↦ ground arith
        | inr there ↦ named-IsInside pos tok c h (rw there at e)
      ]

  proposed-IsInside :
      (pos : Position) (tok : Token) (log : Commits F)
      → All (λ e. All (IsEntryInside a) e.1) log
      → proposes log pos tok ≡ true
      → (pos < a.seq_len) × (tok < a.vocab_size)
  proposed-IsInside pos tok [] h e = cc
  proposed-IsInside pos tok ((_, c) ∷ log) (h, hs) e = elim (Bool-cases (any (names pos tok) c)) [
    | inl here ↦ named-IsInside pos tok c h here
    | inr there ↦ proposed-IsInside pos tok log hs (rw there at e)
  ]

  -- What is disputed has been proposed.
  disputes-IsScorable :
      (iter : TokenSet → List Token) (log : Commits F)
      → All (λ e. All (IsEntryInside a) e.1) log
      → All (IsScorable iter a) (detect_disputes log)
  unfolding detect_disputes lookup
  disputes-IsScorable iter log h =
      All-keep (IsScorable iter a) (λ _ tokens. ltb 1 (length tokens)) (by_position log)
        (All-lookup (λ pos tokens. IsScorable iter a (pos, tokens)) (by_position log)
          (by_position-IsGathered log).nodup
          (λ pos tokens there tok member.
            proposed-IsInside pos tok log h
              (sym (contains-by_position log pos tok) ∙ rw there member)))

module _ {F : Type 0} ⦃f : Float F⦄ (laws : IsOrdered F) (iter : TokenSet → List Token)
    (law : IsIteration iter) (a : SyncArgs F)
    (fits : (pos : Position) (tok : Token) → f.exp (a.log_prob pos tok) ≢ none) where
  add_commit_total :
      (received : Bucket F)
      → All (IsEntryInside a) a.my_commits
      → All (λ e. IsReadable a commit e.1) received
      → (log : Commits F) × (for_each add_commit ((a.id, a.my_commits) ∷ []) received ≡ ok log)
        × All (λ e. All (IsEntryInside a) e.1) log
  unfolding add_commit
  add_commit_total received own h =
      for_each_total add_commit (All (λ e. All (IsEntryInside a) e.1))
        (λ e. IsReadable a commit e.1)
        (λ acc x well (c, e, good). (
          insert x.0 c acc,
          rw e refl,
          All-insert (λ e. All (IsEntryInside a) e.1) x.0 c acc good well,
        ))
        received ((a.id, a.my_commits) ∷ []) (own, tt) h

  add_scores_total :
      (received : Bucket F) (mine : Scores F)
      → All IsReport mine
      → All (λ e. IsReadable a dispute_score e.1) received
      → (all : AllScores F) × (for_each add_scores ((a.id, mine) ∷ []) received ≡ ok all)
        × All (λ e. All IsReport e.1) all
  unfolding add_scores
  add_scores_total received mine fit h =
      for_each_total add_scores (All (λ e. All IsReport e.1)) (λ e. IsReadable a dispute_score e.1)
        (λ acc x well (s, e, good).
          (insert x.0 s acc, rw e refl, All-insert (λ e. All IsReport e.1) x.0 s acc good well))
        received ((a.id, mine) ∷ []) (fit, tt) h

  score_phase_total :
      (ds : Dict Position TokenSet) (started later : F) (ticks : List (Tick F)) (n : SwarmNode F)
      → All IsDisputed ds
      → IsScored iter a ds
      → All (IsProperTick a) ticks
      → IsProperInbox a n.gen_inbox
      → any (is_over a started later) ticks ≡ true
      → (r : Resolved F) × (score_phase iter a ds later ticks n ≡ ok (some r))
  unfolding score_phase resolve_collected
  score_phase_total [] started later ticks n h scored w i late = (_, refl)
  score_phase_total (d ∷ ds) started later ticks n h scored w i late =
      let (c, run, sent, _, _, _) =
        barrier a dispute_score started later later ticks n (λ t e. ground arith) w i late in
      let (all, reads, good) =
        add_scores_total c.received (scores_for iter a.log_prob (d ∷ ds))
          (scores_for-IsReport iter law a.log_prob fits (d ∷ ds) h) sent in
      let (resolved, resolves, _) = resolve_disputes-IsWinner laws all good in
      (
        record {
          node = c.node;
          ticks = c.ticks;
          resolved = resolved;
          published =
              (
                dispute_score,
                scores_payload a.round_id a.sync_seq (scores_for iter a.log_prob (d ∷ ds)),
              )
              ∷ [];
        },
        rw (score_phase-IsScored iter a d ds later ticks n scored, run, reads, resolves) refl,
      )

  -- A sync comes to an end, whoever is silent in it: `_do_sync` raises nothing and has returned by the
  -- first time that a barrier's test reads a time past the deadlines of both barriers. The COMMITs
  -- and DISPUTE_SCOREs that come in the name of a participant for this sync, read or found in the
  -- inbox, must be readable, with scores that do not overflow `exp`, the own ones included, and none
  -- of them without a candidate; every position and token that is proposed, by the node itself too,
  -- must have an entry in the output of its model; and every GEN_START must be well formed.
  pub do_sync_total :
      (shared_x : Dict Position Token) (detector : StopDetector) (started later : F)
      (ticks : List (Tick F)) (n : SwarmNode F)
      → All (IsEntryInside a) a.my_commits
      → All (IsProperTick a) ticks
      → IsProperInbox a n.gen_inbox
      → any (is_over a started later) ticks ≡ true
      → (s : Synced F) × (do_sync iter a shared_x detector started later ticks n ≡ ok (some s))
  unfolding do_sync commits_collected merge_phase
  do_sync_total shared_x detector started later ticks n own w i late =
      let (c, run, sent, left, ahead, still) =
        barrier a commit started later started ticks n (λ t e. ground arith) w i late in
      let (log, reads, inside) = add_commit_total c.received own sent in
      let (r, scores) =
        score_phase_total (detect_disputes log) started later c.ticks c.node
          (detect_disputes-IsDisputed log).1
          (scorable-IsScored iter a law (detect_disputes log)
            (disputes-IsScorable a iter log inside))
          ahead left still in
      let (m, merges) = merge_consensus_total iter law shared_x log r.resolved in
      (
        record {
          node = r.node;
          ticks = r.ticks;
          shared_x = m;
          detector = check detector m a.gen_start a.gen_end;
          published = (commit, commit_payload a.round_id a.sync_seq a.my_commits) ∷ r.published;
        },
        rw (run, reads, scores, merges) refl,
      )
