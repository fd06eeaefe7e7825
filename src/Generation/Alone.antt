-- ===== src/Generation/Alone.antt =====
-- `_do_sync` (node/generation.py) of a participant without others.
use ded_swarm.Base.{
  ℕ, ◌≡◌, ◌⊎◌, inl, inr, refl, ◌∙◌, true, false, List, [], ◌∷◌, nat_eq, string_eq, option_eq,
  pair_eq, String, Option, none, some, ok, arith, Option-cases, any,
}
use ded_swarm.Base.Perms.{empty-lookups}
use ded_swarm.Base.Dict.{Dict, lookup, keep, erase, get_or, NodupKeys}
use ded_swarm.Float.{Float}
use ded_swarm.Config.{sync_barrier_timeout}
use ded_swarm.Protocol.{MsgType, msg_type_eq, commit}
use ded_swarm.Consensus.{Position, Token, TokenSet, Commit, Commits, detect_disputes}
use ded_swarm.Consensus.Adopt.{IsIteration}
use ded_swarm.Consensus.Proposals.{names}
use ded_swarm.Consensus.Disputes.{Contested, detect_disputes_iff}
use ded_swarm.Consensus.Merge.{merge_consensus-merged_at, merged_at_single}
use ded_swarm.Stop.{StopDetector, check}
use ded_swarm.Swarm.{
  Key, Bucket, SwarmNode, Tick, Collected, collect_until, collect_loop, missing, early, close_key,
}
use ded_swarm.Generation.{
  SyncArgs, Synced, commit_payload, score_phase, merge_phase, commits_collected, do_sync,
}

module _ {F : Type 0} where
  keep-nothing : (d : Bucket F) → keep (λ _ _. false) d ≡ []
  unfolding keep
  keep-nothing [] = refl
  keep-nothing (_ ∷ d) = keep-nothing d

  -- The token that a commit gives a position.
  abbrev pub token_of : Option (Token × F) → Option Token
  token_of none = none
  token_of (some (t, _)) = some t

  names-lookup :
      (mine : Commit F) (pos : Position) (t : Token)
      → NodupKeys mine
      → any (names pos t) mine ≡ true
      → token_of (lookup pos mine) ≡ some t
  unfolding lookup
  names-lookup [] pos t u h = cc
  names-lookup ((p, (v, c)) ∷ mine) pos t (fresh, u) h = ground (arith, names-lookup mine pos t u)

  -- One node disputes nothing with itself.
  alone-Contested :
      (id : String) (mine : Commit F) (pos : Position)
      → NodupKeys mine
      → Contested ((id, mine) ∷ []) pos
      → ⊥
  alone-Contested id mine pos u (t, v, ne, h, k) =
      ground (arith, names-lookup mine pos t u, names-lookup mine pos v u)

  detect_disputes_alone :
      (id : String) (mine : Commit F) → NodupKeys mine → detect_disputes ((id, mine) ∷ []) ≡ []
  detect_disputes_alone id mine u =
      empty-lookups _
        (λ pos. go pos (Option-cases (lookup pos (detect_disputes ((id, mine) ∷ [])))))
    where
      go :
          (pos : Position)
          → (lookup pos (detect_disputes ((id, mine) ∷ [])) ≡ none)
            ⊎ ((ts : TokenSet) × (lookup pos (detect_disputes ((id, mine) ∷ [])) ≡ some ts))
          → lookup pos (detect_disputes ((id, mine) ∷ [])) ≡ none
      go pos (inl e) = e
      go pos (inr (ts, e)) = absurd (
          alone-Contested id mine pos u
            ((detect_disputes_iff ((id, mine) ∷ []) pos).0 (λ miss. ground arith)))

module _ {F : Type 0} ⦃f : Float F⦄ where
  pub loop_nobody :
      (key : Key) (deadline : F) (ticks : List (Tick F)) (n : SwarmNode F) (received : Bucket F)
      → collect_loop key deadline ticks n received []
        ≡ ok (some (record { node = n; received = received; ticks = ticks }))
  unfolding collect_loop
  loop_nobody key deadline [] n received = refl
  loop_nobody key deadline (t ∷ ticks) n received = refl

  -- A barrier for nobody opens at once.
  collect_until_nobody :
      (msg_type : MsgType) (round_id : String) (sync_seq : ℕ) (timeout started : F)
      (ticks : List (Tick F)) (n : SwarmNode F)
      → (c : Collected F) × (collect_until msg_type round_id sync_seq [] timeout started ticks n
          ≡ ok (some c))
        × (c.received ≡ [])
        × (c.ticks ≡ ticks)
        × (c.node.round_mgr ≡ n.round_mgr)
  unfolding collect_until close_key missing early
  collect_until_nobody msg_type round_id sync_seq timeout started ticks n =
      let key : Key = (msg_type, (some round_id, some sync_seq)) in
      let received = early n key [] in
      (
        record {
          node = record n { gen_inbox = erase key n.gen_inbox };
          received = received;
          ticks = ticks;
        },
        rw (loop_nobody key (f.add started timeout) ticks n received) refl,
        keep-nothing (get_or (lookup key n.gen_inbox) []),
        refl,
        refl,
      )

module _ {F : Type 0} ⦃f : Float F⦄ (iter : TokenSet → List Token) (law : IsIteration iter)
    (a : SyncArgs F) (shared_x : Dict Position Token) (detector : StopDetector) where
  -- A node alone in its round never waits: the sync returns at once and reads nothing, sends its
  -- COMMIT and nothing else, adopts its own tokens, and leaves all other positions and the round as
  -- they were.
  pub do_sync_alone :
      (started later : F) (ticks : List (Tick F)) (n : SwarmNode F)
      → a.other_participants ≡ []
      → NodupKeys a.my_commits
      → (s : Synced F) × (do_sync iter a shared_x detector started later ticks n ≡ ok (some s))
        × (s.ticks ≡ ticks)
        × (s.node.round_mgr ≡ n.round_mgr)
        × (s.published ≡ (commit, commit_payload a.round_id a.sync_seq a.my_commits) ∷ [])
        × ((pos : Position)
            → lookup pos s.shared_x
              ≡ (elim (lookup pos a.my_commits) [ none ↦ lookup pos shared_x | some e ↦ some e.0 ]))
  unfolding do_sync commits_collected score_phase merge_phase
  do_sync_alone started later ticks n nobody u =
      let (c, run, empty, rest, same) =
        collect_until_nobody commit a.round_id a.sync_seq sync_barrier_timeout started ticks n in
      let commits : Commits F = (a.id, a.my_commits) ∷ [] in
      let (m, merges, eq) = merge_consensus-merged_at iter law shared_x commits [] in
      (
        record {
          node = c.node;
          ticks = c.ticks;
          shared_x = m;
          detector = check detector m a.gen_start a.gen_end;
          published = (commit, commit_payload a.round_id a.sync_seq a.my_commits) ∷ [];
        },
        rw (nobody, run, empty, detect_disputes_alone a.id a.my_commits u, merges) refl,
        rest,
        same,
        refl,
        λ pos.
            eq (λ pos contested. absurd (alone-Contested a.id a.my_commits pos u contested)) pos
            ∙ merged_at_single shared_x a.id a.my_commits pos,
      )
