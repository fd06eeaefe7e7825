-- ===== src/Generation/Agreed.antt =====
-- Two participants of a sync (`_do_sync`, node/generation.py) that hear each other agree.
use ded_swarm.Base.{
  ◌≡◌, ◌≢◌, refl, ◌∙◌, ap, sym, List, [], ◌∷◌, nat_eq, string_eq, map, none, some, arith, ok, true,
  All,
}
use ded_swarm.Base.Dict.{Dict, lookup, NodupKeys, SameLookups}
use ded_swarm.Float.{Float, IsOrdered, IsIeee}
use ded_swarm.Config.{sync_barrier_timeout}
use ded_swarm.Protocol.{MsgType, commit, dispute_score}
use ded_swarm.Consensus.{Position, Token, TokenSet, Scores, detect_disputes, resolve_disputes}
use ded_swarm.Consensus.Adopt.{IsIteration}
use ded_swarm.Consensus.Disputes.{detect_disputes_iff}
use ded_swarm.Consensus.Calm.{calm-Covers}
use ded_swarm.Consensus.Covering.{resolve_disputes-covers}
use ded_swarm.Consensus.Merge.{Covers, merge_consensus_agree}
use ded_swarm.Consensus.Pair.{IsDictReport, resolve_disputes_pair}
use ded_swarm.Stop.{StopDetector}
use ded_swarm.Stop.Agreement.{check_congr}
use ded_swarm.Swarm.{SwarmNode}
use ded_swarm.Generation.Scoring.{IsScored, IsScorable, scorable-IsScored, scores_for}
use ded_swarm.Generation.{SyncArgs, Synced, do_sync}
use ded_swarm.Generation.Sync.{lookup-scores_for}
use ded_swarm.Generation.Reports.{
  detect_disputes-IsDisputed, scores_for-IsDictReport, scores_for-IsReport,
}
use ded_swarm.Generation.Exchange.{tick_of}
use ded_swarm.Generation.Pair.{
  sends, log_of, log_of-SameProposals, no_disputes_swap, EndsWith, EndsWith-calm, EndsWith-disputed,
}

module _ {F : Type 0} ⦃f : Float F⦄ (laws : IsOrdered F) (ieee : IsIeee F)
    (iter iter' : TokenSet → List Token) (law : IsIteration iter) (law' : IsIteration iter')
    (a b : SyncArgs F) (fits : (pos : Position) (tok : Token) → f.exp (a.log_prob pos tok) ≢ none)
    (fits' : (pos : Position) (tok : Token) → f.exp (b.log_prob pos tok) ≢ none) where
  mine : Scores F
  mine = scores_for iter a.log_prob (detect_disputes (log_of a b))

  theirs : Scores F
  theirs = scores_for iter' b.log_prob (detect_disputes (log_of b a))

  reports_agree :
      IsDictReport mine
      × IsDictReport theirs
      × ((w v : Dict Position Token) × (resolve_disputes ((a.id, mine) ∷ (b.id, theirs) ∷ [])
            ≡ ok w)
          × (resolve_disputes ((b.id, theirs) ∷ (a.id, mine) ∷ []) ≡ ok v)
          × SameLookups w v)
  unfolding mine theirs
  reports_agree =
      let (u, d) = detect_disputes-IsDisputed (log_of a b) in
      let (u', d') = detect_disputes-IsDisputed (log_of b a) in
      let x = scores_for-IsDictReport iter law a.log_prob (detect_disputes (log_of a b)) u d in
      let y = scores_for-IsDictReport iter' law' b.log_prob (detect_disputes (log_of b a)) u' d' in
      (
        x,
        y,
        resolve_disputes_pair laws ieee a.id b.id mine theirs x y (
          scores_for-IsReport iter law a.log_prob fits (detect_disputes (log_of a b)) d,
          (scores_for-IsReport iter' law' b.log_prob fits' (detect_disputes (log_of b a)) d', tt),
        ),
      )

  resolved-Covers :
      (w : Dict Position Token)
      → resolve_disputes ((a.id, mine) ∷ (b.id, theirs) ∷ []) ≡ ok w
      → Covers w (log_of a b)
  unfolding mine lookup
  resolved-Covers w resolves pos contested =
      resolve_disputes-covers ((a.id, mine) ∷ (b.id, theirs) ∷ []) w a.id mine pos resolves
        (ground arith)
        (λ miss.
          (detect_disputes_iff (log_of a b) pos).1 contested
            (lookup-scores_for iter a.log_prob (detect_disputes (log_of a b)) pos miss))

  module _ (shared_x shared_y : Dict Position Token) (detector : StopDetector)
      (now now' : MsgType → F) (started later started' later' : F) (n m : SwarmNode F)
      (differ : a.id ≢ b.id) (only : a.other_participants ≡ b.id ∷ [])
      (only' : b.other_participants ≡ a.id ∷ []) (same_round : b.round_id ≡ a.round_id)
      (same_sync : b.sync_seq ≡ a.sync_seq) (same_start : b.gen_start ≡ a.gen_start)
      (same_end : b.gen_end ≡ a.gen_end) (u : NodupKeys a.my_commits) (v : NodupKeys b.my_commits)
      (same : SameLookups shared_x shared_y) (empty : n.gen_inbox ≡ []) (empty' : m.gen_inbox ≡ [])
      (in_time : f.lt (now commit) (f.add started sync_barrier_timeout) ≡ true)
      (in_time_scores : f.lt (now dispute_score) (f.add later sync_barrier_timeout) ≡ true)
      (in_time' : f.lt (now' commit) (f.add started' sync_barrier_timeout) ≡ true)
      (in_time_scores' : f.lt (now' dispute_score) (f.add later' sync_barrier_timeout) ≡ true) where
    -- Both return, after each has read what the other publishes, with the same state and boundary, and
    -- with nothing left to read.
    abbrev pub Agree : Type 0
    Agree =
        (s s' : Synced F) × (do_sync iter a shared_x detector started later
            (map (tick_of b.id now) (sends iter' b (log_of b a))) n
          ≡ ok (some s))
        × (do_sync iter' b shared_y detector started' later'
              (map (tick_of a.id now') (sends iter a (log_of a b))) m
            ≡ ok (some s'))
        × (s.published ≡ sends iter a (log_of a b))
        × (s'.published ≡ sends iter' b (log_of b a))
        × SameLookups s.shared_x s'.shared_x
        × (s.detector ≡ s'.detector)
        × (s.node.gen_inbox ≡ [])
        × (s'.node.gen_inbox ≡ [])

    ends_agree :
        (x y : Dict Position Token)
        → SameLookups x y
        → EndsWith iter iter' a b shared_x detector now started later n differ only same_round
            same_sync v empty in_time in_time_scores x
        → EndsWith iter' iter b a shared_y detector now' started' later' m
            (λ e. differ (sym e))
            only'
            (sym same_round)
            (sym same_sync)
            u
            empty'
            in_time'
            in_time_scores'
            y
        → Agree
    ends_agree x y lookups (s, run, published, left, shared, checked)
          (s', run', published', left', shared', checked') =
        (
          s,
          s',
          run,
          run',
          published,
          published',
          λ pos. ap (lookup pos) shared ∙ lookups pos ∙ sym (ap (lookup pos) shared'),
          checked
              ∙ check_congr detector x y a.gen_start a.gen_end lookups
              ∙ rw (← same_start, ← same_end) (sym checked'),
          left,
          left',
        )

    agree_on :
        (ds ds' : Dict Position TokenSet)
        → detect_disputes (log_of a b) ≡ ds
        → detect_disputes (log_of b a) ≡ ds'
        → IsScored iter a ds
        → IsScored iter' b ds'
        → Agree
    unfolding mine theirs
    agree_on [] [] e e' scored scored' =
        let (x, y, run, run', lookups) =
          merge_consensus_agree iter iter' shared_x [] (log_of a b) shared_y [] (log_of b a) law
            law' (log_of-SameProposals a b) same (λ pos. refl) (calm-Covers (log_of a b) e) in
        ends_agree x y lookups
          (EndsWith-calm iter iter' a b shared_x detector now started later n differ only same_round
            same_sync v empty in_time in_time_scores x e e' run)
          (EndsWith-calm iter' iter b a shared_y detector now' started' later' m
            (λ e. differ (sym e)) only' (sym same_round) (sym same_sync) u empty' in_time'
            in_time_scores' y e' e run')
    agree_on [] (d' ∷ ds') e e' scored scored' = cc (no_disputes_swap a b e)
    agree_on (d ∷ ds) [] e e' scored scored' = cc (no_disputes_swap b a e')
    agree_on (d ∷ ds) (d' ∷ ds') e e' scored scored' =
        let (x_dict, y_dict, (w, w', resolves, resolves', winners)) = reports_agree in
        let (x, y, run, run', lookups) =
          merge_consensus_agree iter iter' shared_x w (log_of a b) shared_y w' (log_of b a) law law'
            (log_of-SameProposals a b) same winners (resolved-Covers w resolves) in
        ends_agree x y lookups
          (EndsWith-disputed iter iter' a b shared_x detector now started later n differ only
            same_round same_sync v empty in_time in_time_scores x w d d' ds ds' e e'
            (rw (← e') y_dict) scored (rw (← e, ← e') resolves) run)
          (EndsWith-disputed iter' iter b a shared_y detector now' started' later' m
            (λ e. differ (sym e)) only' (sym same_round) (sym same_sync) u empty' in_time'
            in_time_scores' y w' d' d ds' ds e' e (rw (← e) x_dict) scored'
            (rw (← e, ← e') resolves') run')

    pub both_agree :
        IsScored iter a (detect_disputes (log_of a b))
        → IsScored iter' b (detect_disputes (log_of b a))
        → Agree
    both_agree = agree_on (detect_disputes (log_of a b)) (detect_disputes (log_of b a)) refl refl

    -- A sync of two participants that start from equal states, have read nothing of the sync before,
    -- and each read, before its barriers' deadlines, exactly what the other publishes: both return,
    -- with equal states and the same stop detector, boundary included. Sums of floats may round,
    -- each interpreter may iterate over sets in an order of its own, and the models may score the
    -- disputed tokens in any way that does not overflow `exp`. The output of each model must have an
    -- entry for each disputed position and token.
    pub do_sync_pair :
        All (IsScorable iter a) (detect_disputes (log_of a b))
        → All (IsScorable iter' b) (detect_disputes (log_of b a))
        → (s s' : Synced F) × (do_sync iter a shared_x detector started later
              (map (tick_of b.id now) s'.published)
              n
            ≡ ok (some s))
          × (do_sync iter' b shared_y detector started' later'
                (map (tick_of a.id now') s.published)
                m
              ≡ ok (some s'))
          × SameLookups s.shared_x s'.shared_x
          × (s.detector ≡ s'.detector)
    do_sync_pair inside inside' =
        let (s, s', run, run', published, published', same_state, same_detector, _, _) =
          both_agree (scorable-IsScored iter a law (detect_disputes (log_of a b)) inside)
            (scorable-IsScored iter' b law' (detect_disputes (log_of b a)) inside') in
        (s, s', rw published' run, rw published run', same_state, same_detector)
