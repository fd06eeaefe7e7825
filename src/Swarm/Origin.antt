-- ===== src/Swarm/Origin.antt =====
-- Where the messages of `collect_until` (node/swarm.py) come from: the inbox, or a turn of a loop.
use ded_swarm.Base.{
  ℕ, List, [], ◌∷◌, ◌==◌, ◌&&◌, ◌≡◌, inl, inr, nat_eq, string_eq, option_eq, pair_eq, String,
  Option, none, some, not, contains, All, Result, ok, >>=-eq-ok, arith, Bool-cases, Option-cases,
  subst,
}
use ded_swarm.Base.Dict.{Dict, lookup, insert, erase}
use ded_swarm.Base.Every.{All-insert, All-erase, All-keep, lookup-All}
use ded_swarm.Float.{Float}
use ded_swarm.Protocol.{MsgType, msg_type_eq, Payload, Envelope}
use ded_swarm.Swarm.{
  Key, Bucket, SwarmNode, Tick, Collected, key_of, file_message, dispatch, pump_once, missing, has,
  accept, early, collect_loop, close_key, collect_until,
}
use ded_swarm.Swarm.Inbox.{bucket_at, is_gen_message, after_message, dispatch-fields}

-- `P` says which payloads a sender may have sent under a key, and `T` holds of the turns ahead.
module _ {F : Type 0} (P : Key → String → Payload F → Type 0) (T : Tick F → Type 0)
    (brings : (t : Tick F) (env : Envelope F)
      → T t
      → t.env ≡ some env
      → P (key_of env) env.node_id env.payload) where
  abbrev pub SentUnder : Key → Bucket F → Type 0
  SentUnder key = All (λ e. P key e.0 e.1)

  abbrev pub IsSentInbox : Dict Key (Bucket F) → Type 0
  IsSentInbox = All (λ e. SentUnder e.0 e.1)

  bucket_at-SentUnder :
      (key : Key) (inbox : Dict Key (Bucket F))
      → IsSentInbox inbox
      → SentUnder key (bucket_at key inbox)
  bucket_at-SentUnder key inbox h = elim (Option-cases (lookup key inbox)) [
    | inl e ↦ rw e tt
    | inr (b, e) ↦ rw e (lookup-All (λ x. SentUnder x.0 x.1) key b inbox h e)
  ]

  after_message-IsSentInbox :
      (inbox : Dict Key (Bucket F)) (env : Envelope F)
      → P (key_of env) env.node_id env.payload
      → IsSentInbox inbox
      → IsSentInbox (after_message inbox env)
  unfolding file_message
  after_message-IsSentInbox inbox env p h = elim (Bool-cases (is_gen_message env.msg_type)) [
    | inr e ↦ rw e h
    | inl e ↦ rw e (
        All-insert (λ x. SentUnder x.0 x.1) (key_of env)
          (insert env.node_id env.payload (bucket_at (key_of env) inbox)) inbox
          (All-insert (λ x. P (key_of env) x.0 x.1) env.node_id env.payload
            (bucket_at (key_of env) inbox) p (bucket_at-SentUnder (key_of env) inbox h))
          h)
  ]

  pump_once-IsSentInbox :
      (n : SwarmNode F) (t : Tick F) (n' : SwarmNode F)
      → T t
      → pump_once n t ≡ ok n'
      → IsSentInbox n.gen_inbox
      → IsSentInbox n'.gen_inbox
  unfolding pump_once
  pump_once-IsSentInbox n t n' w run h = elim (Option-cases t.env) [
    | inl e ↦ let same : n ≡ n' = ground arith in rw (← same) h
    | inr (env, e) ↦
        let one : dispatch n env t.receive_ts ≡ ok n' = ground arith in
        rw (dispatch-fields n env t.receive_ts n' one).1
          (after_message-IsSentInbox n.gen_inbox env (brings t env w e) h)
  ]

  accept-SentUnder :
      (key : Key) (t : Tick F) (received : Bucket F) (remaining : List String)
      → T t
      → SentUnder key received
      → SentUnder key (accept key t.env received remaining).0
  unfolding accept
  accept-SentUnder key t received remaining w h = elim (Option-cases t.env) [
    | inl e ↦ rw e h
    | inr (env, e) ↦ rw e (elim (Bool-cases (key_of env == key)) [
      | inr other ↦ rw other h
      | inl same ↦
          let at : key_of env ≡ key = ground arith in
          rw same
            (elim (Bool-cases
              (not (contains remaining env.node_id) && not (has env.node_id received))) [
                | inl d ↦ rw d h
                | inr d ↦ rw d (
                    All-insert (λ x. P key x.0 x.1) env.node_id env.payload received
                      (subst (λ k. P k env.node_id env.payload) at (brings t env w e)) h)
              ])
    ])
  ]

  module _ ⦃f : Float F⦄ where
    -- What the loop leaves: all that it received was sent, and so is all that it did not read.
    abbrev Leaves : Key → Collected F → Type 0
    Leaves key c = SentUnder key c.received × IsSentInbox c.node.gen_inbox × All T c.ticks

    collect_loop-Leaves :
        (key : Key) (deadline : F) (ticks : List (Tick F)) (n : SwarmNode F) (received : Bucket F)
        (remaining : List String) (c : Collected F)
        → All T ticks
        → IsSentInbox n.gen_inbox
        → SentUnder key received
        → collect_loop key deadline ticks n received remaining ≡ ok (some c)
        → Leaves key c
    unfolding collect_loop
    collect_loop-Leaves key deadline [] n received [] c w i s e =
        let same : record { node = n; received = received; ticks = [] } ≡ c = ground arith in
        subst (Leaves key) same (s, i, w)
    collect_loop-Leaves key deadline (t ∷ ticks) n received [] c w i s e =
        let same : record { node = n; received = received; ticks = t ∷ ticks } ≡ c = ground arith in
        subst (Leaves key) same (s, i, w)
    collect_loop-Leaves key deadline [] n received (r ∷ rs) c w i s e = cc
    collect_loop-Leaves key deadline (t ∷ ticks) n received (r ∷ rs) c (w, ws) i s e =
        elim (Bool-cases (f.lt t.now deadline)) [
          | inr late ↦
              let same : record { node = n; received = received; ticks = t ∷ ticks } ≡ c =
                ground arith in
              subst (Leaves key) same (s, i, (w, ws))
          | inl in_time ↦
              let next = accept key t.env received (r ∷ rs) in
              let (n', run, rest) =
                >>=-eq-ok (pump_once n t) (λ m. collect_loop key deadline ticks m next.0 next.1)
                  (ground arith) in
              collect_loop-Leaves key deadline ticks n' next.0 next.1 c ws
                (pump_once-IsSentInbox n t n' w run i)
                (accept-SentUnder key t received (r ∷ rs) w s) rest
        ]

    -- What `collect_until` returns was sent by those who are expected, and so was all that it leaves.
    pub collect_until-SentUnder :
        (msg_type : MsgType) (round_id : String) (sync_seq : ℕ) (expected : List String)
        (timeout started : F) (ticks : List (Tick F)) (n : SwarmNode F) (c : Collected F)
        → All T ticks
        → IsSentInbox n.gen_inbox
        → collect_until msg_type round_id sync_seq expected timeout started ticks n ≡ ok (some c)
        → Leaves (msg_type, (some round_id, some sync_seq)) c
    unfolding collect_until close_key early
    collect_until-SentUnder msg_type round_id sync_seq expected timeout started ticks n c w i e =
        let key : Key = (msg_type, (some round_id, some sync_seq)) in
        let (o, run, rest) =
          >>=-eq-ok
            (collect_loop key (f.add started timeout) ticks n (early n key expected)
              (missing expected (early n key expected)))
            (λ o. ok (close_key key o)) e in
        go o run rest
      where
        own : Key
        own = (msg_type, (some round_id, some sync_seq))

        go :
            (o : Option (Collected F))
            → collect_loop own
                (f.add started timeout)
                ticks
                n
                (early n own expected)
                (missing expected (early n own expected))
              ≡ ok o
            → ◌≡◌ {A = Result (Option (Collected F))} (ok (close_key own o)) (ok (some c))
            → Leaves own c
        go none run rest = cc
        go (some d) run rest =
            let (s, left, ahead) =
              collect_loop-Leaves own (f.add started timeout) ticks n (early n own expected)
                (missing expected (early n own expected)) d w i
                (All-keep (λ x. P own x.0 x.1) (λ sender _. contains expected sender)
                  (bucket_at own n.gen_inbox) (bucket_at-SentUnder own n.gen_inbox i))
                run in
            let same : record d { node = record d.node { gen_inbox = erase own d.node.gen_inbox } }
                ≡ c =
              ground arith in
            subst (Leaves own) same
              (s, All-erase (λ x. SentUnder x.0 x.1) own d.node.gen_inbox left, ahead)
