-- ===== src/Swarm/Barrier.antt =====
-- The sync barrier: what `collect_until` promises to the generation loop.
use ded_swarm.Base.{
  ℕ, Bool, true, false, List, [], ◌∷◌, ◌&&◌, ◌≡◌, ◌≢◌, ◌⊎◌, inl, inr, refl, nat_eq, string_eq,
  option_eq, pair_eq, String, Option, none, some, not, contains, any, All, Result, ok, >>=-eq-ok,
  ok_of, arith, Bool-cases, Option-cases,
}
use ded_swarm.Base.Dict.{lookup, erase, lookup-erase}
use ded_swarm.Float.{Float}
use ded_swarm.Protocol.{MsgType, gen_start, msg_type_eq, start_of, Envelope, get_round_id}
use ded_swarm.Swarm.{
  Key, Bucket, SwarmNode, Tick, Collected, key_of, handle, note_sender, dispatch, pump_once,
  missing, has, accept, early, collect_loop, close_key, collect_until,
}
use ded_swarm.Round.{on_gen_start, adopt}
use ded_swarm.Swarm.Inbox.{
  filed, is_gen_message, Matches, IsInbox, pump_all, pump_all-filed, filed-dispatch,
  dispatch-IsInbox,
}
use ded_swarm.Swarm.Collect.{HasLeft, IsLate, collect_loop-HasLeft, lookup-early, early-IsWaiting}

module _ {F : Type 0} where
  -- A GEN_START that carries all its keys.
  abbrev pub is_well_formed : Envelope F → Bool
  is_well_formed env = elim env.msg_type [
    | gen_start ↦ elim env.payload [ start_of _ _ _ _ ↦ true | _ ↦ false ]
    | _ ↦ true
  ]

  abbrev pub IsWellFormed : Tick F → Type 0
  IsWellFormed t = elim t.env [ none ↦ Unit | some env ↦ is_well_formed env ≡ true ]

  handle_total :
      (n : SwarmNode F) (env : Envelope F) (ts : F)
      → is_well_formed env ≡ true
      → (n' : SwarmNode F) × (handle n env ts ≡ ok n')
  unfolding handle on_gen_start adopt get_round_id
  handle_total n env ts w = ok_of (handle n env ts) (ground arith)

  pump_once_total :
      (n : SwarmNode F) (t : Tick F) → IsWellFormed t → (n' : SwarmNode F) × (pump_once n t ≡ ok n')
  unfolding pump_once dispatch
  pump_once_total n t w = elim (Option-cases t.env) [
    | inl e ↦ (n, rw e)
    | inr (env, e) ↦
        let (n', run) =
          handle_total (note_sender n env t.receive_ts) env t.receive_ts (rw e at w) in
        (n', rw (e, run))
  ]

module _ {F : Type 0} ⦃f : Float F⦄ (msg_type : MsgType) (round_id : String) (sync_seq : ℕ)
    (expected : List String) (timeout started : F) where
  abbrev pub key : Key
  key = (msg_type, (some round_id, some sync_seq))

  -- A run of `collect_until` that returned is a run of its loop that was left.
  collected-HasLeft :
      (ticks : List (Tick F)) (n : SwarmNode F) (c : Collected F)
      → IsInbox n.gen_inbox
      → collect_until msg_type round_id sync_seq expected timeout started ticks n ≡ ok (some c)
      → (d : Collected F) × HasLeft key expected (early n key expected) (f.add started timeout) d
        × (c.received ≡ d.received)
        × (c.ticks ≡ d.ticks)
        × (c.node ≡ record d.node { gen_inbox = erase key d.node.gen_inbox })
  unfolding collect_until close_key
  collected-HasLeft ticks n c i e =
      let received = early n key expected in
      let (o, run, rest) =
        >>=-eq-ok
          (collect_loop key (f.add started timeout) ticks n received (missing expected received))
          (λ o. ok (close_key key o)) e in
      go o run rest
    where
      go :
          (o : Option (Collected F))
          → collect_loop key
              (f.add started timeout)
              ticks
              n
              (early n key expected)
              (missing expected (early n key expected))
            ≡ ok o
          → ◌≡◌ {A = Result (Option (Collected F))} (ok (close_key key o)) (ok (some c))
          → (d : Collected F) × HasLeft key expected
              (early n key expected)
              (f.add started timeout)
              d
            × (c.received ≡ d.received)
            × (c.ticks ≡ d.ticks)
            × (c.node ≡ record d.node { gen_inbox = erase key d.node.gen_inbox })
      go none run rest = cc
      go (some d) run rest = (
        d,
        collect_loop-HasLeft key expected (f.add started timeout) ticks n (early n key expected)
            (missing expected (early n key expected)) d (early-IsWaiting n key expected i) run,
        ground arith,
        ground arith,
        ground arith,
      )

  -- Only expected senders count, each with a payload of this round and this sync: a stranger, or a
  -- message of another sync, has no say.
  pub collect_until_senders :
      (ticks : List (Tick F)) (n : SwarmNode F) (c : Collected F) (s : String)
      → IsInbox n.gen_inbox
      → collect_until msg_type round_id sync_seq expected timeout started ticks n ≡ ok (some c)
      → ((has s c.received && not (contains expected s)) ≡ false)
        × Matches key (lookup s c.received)
  collect_until_senders ticks n c s i e =
      let (d, left, r, _, _) = collected-HasLeft ticks n c i e in
      (rw r (ground (arith, left.waiting.parts s)), rw r (left.waiting.matching s))

  -- `collect_until` returns with every expected sender reported, or late.
  pub collect_until_complete :
      (ticks : List (Tick F)) (n : SwarmNode F) (c : Collected F)
      → IsInbox n.gen_inbox
      → collect_until msg_type round_id sync_seq expected timeout started ticks n ≡ ok (some c)
      → ((s : String) → has s c.received ≡ contains expected s)
        ⊎ IsLate (f.add started timeout) c.ticks
  collect_until_complete ticks n c i e =
      let (d, left, r, t, _) = collected-HasLeft ticks n c i e in
      elim left.reason [
        | inl all ↦ inl (λ s. rw r (ground (arith, left.waiting.parts s)))
        | inr late ↦ inr (rw t late)
      ]

  -- A message that is read early, by any poll before `collect_until` is called and however many
  -- polls follow, is counted by it: polling between syncs loses no report.
  pub early_message_counts :
      (n : SwarmNode F) (env : Envelope F) (ts : F) (n₁ : SwarmNode F) (polls : List (Tick F))
      (n₂ : SwarmNode F) (ticks : List (Tick F)) (c : Collected F)
      → IsInbox n.gen_inbox
      → is_gen_message env.msg_type ≡ true
      → key_of env ≡ key
      → contains expected env.node_id ≡ true
      → dispatch n env ts ≡ ok n₁
      → pump_all n₁ polls ≡ ok n₂
      → collect_until msg_type round_id sync_seq expected timeout started ticks n₂ ≡ ok (some c)
      → has env.node_id c.received ≡ true
  early_message_counts n env ts n₁ polls n₂ ticks c i g k x run runs e =
      let i₁ = dispatch-IsInbox n env ts n₁ run i in
      let there : filed n₁.gen_inbox key env.node_id ≢ none =
        ground (arith, filed-dispatch n env ts n₁ key env.node_id run) in
      let (i₂, still) = pump_all-filed polls n₁ n₂ key env.node_id i₁ runs there in
      let (d, left, r, _, _) = collected-HasLeft ticks n₂ c i₂ e in
      rw r (left.kept_all env.node_id (ground (arith, lookup-early n₂ key expected env.node_id i₂)))

  -- Afterwards the inbox holds nothing under the key.
  pub filed-collect_until :
      (ticks : List (Tick F)) (n : SwarmNode F) (c : Collected F) (s : String)
      → IsInbox n.gen_inbox
      → collect_until msg_type round_id sync_seq expected timeout started ticks n ≡ ok (some c)
      → filed c.node.gen_inbox key s ≡ none
  unfolding lookup
  filed-collect_until ticks n c s i e =
      let (d, left, _, _, node) = collected-HasLeft ticks n c i e in
      ground (arith, lookup-erase key key d.node.gen_inbox)

  abbrev has_late : List (Tick F) → Bool
  has_late = any (λ t. not (f.lt t.now (f.add started timeout)))

  collect_loop_total :
      (ticks : List (Tick F)) (n : SwarmNode F) (received : Bucket F) (remaining : List String)
      → All IsWellFormed ticks
      → has_late ticks ≡ true
      → (c : Collected F) × (collect_loop key (f.add started timeout) ticks n received remaining
          ≡ ok (some c))
  unfolding collect_loop
  collect_loop_total [] n received remaining w late = cc
  collect_loop_total (t ∷ ticks) n received [] w late =
      (record { node = n; received = received; ticks = t ∷ ticks }, refl)
  collect_loop_total (t ∷ ticks) n received (r ∷ rs) (w, ws) late =
      elim (Bool-cases (f.lt t.now (f.add started timeout))) [
        | inr e ↦
            (record { node = n; received = received; ticks = t ∷ ticks }, rw (e, collect_loop))
        | inl e ↦
            let (n', run) = pump_once_total n t w in
            let (received', remaining') = accept key t.env received (r ∷ rs) in
            let (c, rest) = collect_loop_total ticks n' received' remaining' ws (ground arith) in
            (c, rw (e, run, collect_loop) rest)
      ]

  -- The barrier is bounded: whatever arrives or fails to arrive, as long as every GEN_START among it
  -- is well formed, `collect_until` has returned by the first time that the loop's test reads a time
  -- that is not before the deadline.
  pub collect_until_total :
      (ticks : List (Tick F)) (n : SwarmNode F)
      → All IsWellFormed ticks
      → has_late ticks ≡ true
      → (c : Collected F) × (collect_until msg_type round_id sync_seq expected timeout started ticks
            n
          ≡ ok (some c))
  unfolding collect_until close_key
  collect_until_total ticks n w late =
      let received = early n key expected in
      let (c, run) = collect_loop_total ticks n received (missing expected received) w late in
      (record c { node = record c.node { gen_inbox = erase key c.node.gen_inbox } }, rw run)
