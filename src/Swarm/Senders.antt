-- ===== src/Swarm/Senders.antt =====
-- Whom `collect_until` lets in, whatever the inbox holds.
use ded_swarm.Base.{
  Bool, true, List, [], ◌∷◌, ◌||◌, ◌≡◌, inl, inr, refl, nat_eq, string_eq, option_eq, pair_eq,
  String, Option, none, some, contains, Result, ok, >>=-eq-ok, arith, Bool-cases, ℕ,
}
use ded_swarm.Base.Dict.{lookup, keep, get_or, lookup-insert}
use ded_swarm.Float.{Float}
use ded_swarm.Protocol.{MsgType, msg_type_eq, Payload, Envelope}
use ded_swarm.Swarm.{
  Key, Bucket, SwarmNode, Tick, Collected, pump_once, missing, has, accept, early, collect_loop,
  close_key, collect_until,
}
use ded_swarm.Swarm.Collect.{contains-discard, contains-missing}

module _ {F : Type 0} where
  has-keep :
      (p : String → Payload F → Bool) (ok_ : String → Bool) (s : String) (d : Bucket F)
      → ((k : String) (v : Payload F) → p k v ≡ ok_ k)
      → has s (keep p d) ≡ true
      → ok_ s ≡ true
  unfolding keep lookup
  has-keep p ok_ s [] h e = cc
  has-keep p ok_ s ((k, v) ∷ d) h e = ground (arith, h k v, has-keep p ok_ s d h)

  -- Whoever has reported, or is awaited, is expected.
  abbrev Only : List String → Bucket F → List String → Type 0
  Only expected received remaining =
      (s : String) → (has s received || contains remaining s) ≡ true → contains expected s ≡ true

  accept-Only :
      (key : Key) (expected : List String) (o : Option (Envelope F)) (received : Bucket F)
      (remaining : List String)
      → Only expected received remaining
      → let (received', remaining') = accept key o received remaining in
        Only expected received' remaining'
  unfolding accept
  accept-Only key expected none received remaining h s = h s
  accept-Only key expected (some env) received remaining h s = ground (
    arith,
    h s,
    h env.node_id,
    lookup-insert s env.node_id env.payload received,
    contains-discard env.node_id s remaining,
  )

  early-Only :
      (n : SwarmNode F) (key : Key) (expected : List String)
      → Only expected (early n key expected) (missing expected (early n key expected))
  unfolding early
  early-Only n key expected s h = ground (
    arith,
    contains-missing expected (early n key expected) s,
    has-keep (λ sender _. contains expected sender) (contains expected) s
        (get_or (lookup key n.gen_inbox) []) (λ k v. refl),
  )

module _ {F : Type 0} ⦃f : Float F⦄ where
  collect_loop-Only :
      (key : Key) (expected : List String) (deadline : F) (ticks : List (Tick F)) (n : SwarmNode F)
      (received : Bucket F) (remaining : List String) (c : Collected F)
      → Only expected received remaining
      → collect_loop key deadline ticks n received remaining ≡ ok (some c)
      → (s : String) → has s c.received ≡ true
      → contains expected s ≡ true
  unfolding collect_loop
  collect_loop-Only key expected deadline [] n received [] c h e s k = ground (arith, h s)
  collect_loop-Only key expected deadline (t ∷ ticks) n received [] c h e s k = ground (arith, h s)
  collect_loop-Only key expected deadline [] n received (r ∷ rs) c h e s k = cc
  collect_loop-Only key expected deadline (t ∷ ticks) n received (r ∷ rs) c h e s k =
      elim (Bool-cases (f.lt t.now deadline)) [
        | inr late ↦ ground (arith, h s)
        | inl early_ ↦
            let next = accept key t.env received (r ∷ rs) in
            let (n', run, rest) =
              >>=-eq-ok (pump_once n t) (λ m. collect_loop key deadline ticks m next.0 next.1)
                (ground arith) in
            collect_loop-Only key expected deadline ticks n' next.0 next.1 c
              (accept-Only key expected t.env received (r ∷ rs) h) rest s k
      ]

  pub collect_until-expected :
      (msg_type : MsgType) (round_id : String) (sync_seq : ℕ) (expected : List String)
      (timeout started : F) (ticks : List (Tick F)) (n : SwarmNode F) (c : Collected F) (s : String)
      → collect_until msg_type round_id sync_seq expected timeout started ticks n ≡ ok (some c)
      → has s c.received ≡ true
      → contains expected s ≡ true
  unfolding collect_until close_key
  collect_until-expected msg_type round_id sync_seq expected timeout started ticks n c s e k =
      let key : Key = (msg_type, (some round_id, some sync_seq)) in
      let received = early n key expected in
      let (o, run, rest) =
        >>=-eq-ok
          (collect_loop key (f.add started timeout) ticks n received (missing expected received))
          (λ o. ok (close_key key o)) e in
      go o run rest
    where
      go :
          (o : Option (Collected F))
          → collect_loop
              (msg_type, (some round_id, some sync_seq))
              (f.add started timeout)
              ticks
              n
              (early n (msg_type, (some round_id, some sync_seq)) expected)
              (missing expected (early n (msg_type, (some round_id, some sync_seq)) expected))
            ≡ ok o
          → ◌≡◌ {A = Result (Option (Collected F))}
              (ok (close_key (msg_type, (some round_id, some sync_seq)) o))
              (ok (some c))
          → contains expected s ≡ true
      go none run rest = cc
      go (some d) run rest =
          collect_loop-Only (msg_type, (some round_id, some sync_seq)) expected
            (f.add started timeout) ticks n
            (early n (msg_type, (some round_id, some sync_seq)) expected)
            (missing expected (early n (msg_type, (some round_id, some sync_seq)) expected)) d
            (early-Only n (msg_type, (some round_id, some sync_seq)) expected) run s (ground arith)
