-- ===== src/Swarm/Collect.antt =====
-- `collect_until`: who is counted, what is not lost, and when it ends.
use ded_swarm.Base.{
  Bool, true, false, List, [], ◌∷◌, ◌==◌, ◌&&◌, ◌||◌, ◌≡◌, ◌⊎◌, inl, inr, refl, subst, nat_eq,
  string_eq, option_eq, pair_eq, String, Option, none, some, if◌then◌else◌, not, contains, Result,
  ok, >>=-eq-ok, arith, Bool-cases,
}
use ded_swarm.Base.Dict.{lookup, insert, lookup-insert, lookup-keep}
use ded_swarm.Float.{Float}
use ded_swarm.Protocol.{msg_type_eq, Payload, Envelope}
use ded_swarm.Swarm.{
  Key, Bucket, SwarmNode, Tick, Collected, key_of, pump_once, discard, missing, has, accept, early,
  collect_loop,
}
use ded_swarm.Swarm.Inbox.{bucket_at, filed, Matches, IsInbox}

pub contains-discard :
    (x s : String) (ys : List String) → contains (discard x ys) s ≡ (not (s == x) && contains ys s)
unfolding discard
contains-discard x s [] = ground arith
contains-discard x s (y ∷ ys) = ground (arith, contains-discard x s ys)

module _ {F : Type 0} where
  pub contains-missing :
      (xs : List String) (received : Bucket F) (s : String)
      → contains (missing xs received) s ≡ (contains xs s && not (has s received))
  unfolding missing
  contains-missing [] received s = refl
  contains-missing (x ∷ xs) received s = ground (arith, contains-missing xs received s)

  -- The loop's invariant: the senders that have reported and those that are awaited are together
  -- those expected, and every payload is one of this round and sync.
  pub record IsWaiting (key : Key) (expected : List String) (received : Bucket F)
      (remaining : List String) : Type 0 where
    pub parts : (s : String) → (has s received || contains remaining s) ≡ contains expected s
    pub matching : (s : String) → Matches key (lookup s received)

  Matches-insert :
      (key : Key) (env : Envelope F) (received : Bucket F) (s : String)
      → key_of env ≡ key
      → Matches key (lookup s received)
      → Matches key (lookup s (insert env.node_id env.payload received))
  Matches-insert key env received s e h =
      rw (lookup-insert s env.node_id env.payload received)
        (elim (Bool-cases (s == env.node_id)) [ inr d ↦ rw d h | inl d ↦ rw (d, ← e) (refl, refl) ])

  accept-IsWaiting :
      (key : Key) (expected : List String) (o : Option (Envelope F)) (received : Bucket F)
      (remaining : List String)
      → IsWaiting key expected received remaining
      → let (received', remaining') = accept key o received remaining in
        IsWaiting key expected received' remaining'
        × ((s : String) → has s received ≡ true → has s received' ≡ true)
  unfolding accept
  accept-IsWaiting key expected none received remaining w = (w, λ s h. h)
  accept-IsWaiting key expected (some env) received remaining w =
      elim (Bool-cases (key_of env == key)) [
        | inr e ↦ rw e (w, λ s h. h)
        | inl e ↦
            rw e
              (elim (Bool-cases
                (not (contains remaining env.node_id) && not (has env.node_id received))) [
                  | inl d ↦ rw d (w, λ s h. h)
                  | inr d ↦ rw d (
                    record {
                      parts = λ s. ground (
                        arith,
                        w.parts s,
                        lookup-insert s env.node_id env.payload received,
                        contains-discard env.node_id s remaining,
                      );
                      matching =
                          λ s. Matches-insert key env received s (ground arith) (w.matching s);
                    },
                    λ s h. ground (arith, lookup-insert s env.node_id env.payload received),
                  )
                ])
      ]

  pub lookup-early :
      (n : SwarmNode F) (key : Key) (expected : List String) (s : String)
      → IsInbox n.gen_inbox
      → lookup s (early n key expected)
        ≡ (if contains expected s then filed n.gen_inbox key s else none)
  unfolding early
  lookup-early n key expected s i = ground (
    arith,
    lookup-keep (λ (sender : String) (_ : Payload F). contains expected sender) s
        (bucket_at key n.gen_inbox) (i.buckets key),
  )

  pub early-IsWaiting :
      (n : SwarmNode F) (key : Key) (expected : List String)
      → IsInbox n.gen_inbox
      → IsWaiting key expected (early n key expected) (missing expected (early n key expected))
  early-IsWaiting n key expected i = record {
    parts = λ s. ground (
      arith,
      lookup-early n key expected s i,
      contains-missing expected (early n key expected) s,
    );
    matching = λ s. rw (lookup-early n key expected s i) (elim (Bool-cases (contains expected s)) [
      | inl e ↦ rw e (i.matching key s)
      | inr e ↦ rw e tt
    ]);
  }

module _ {F : Type 0} ⦃f : Float F⦄ where
  -- The loop's test has read a time that is not before the deadline.
  abbrev pub IsLate : F → List (Tick F) → Type 0
  IsLate deadline [] = ⊥
  IsLate deadline (t ∷ _) = f.lt t.now deadline ≡ false

  -- How the loop leaves: nobody is awaited any more, or it is late.
  pub record HasLeft (key : Key) (expected : List String) (before : Bucket F) (deadline : F)
      (c : Collected F) : Type 0 where
    pub remaining : List String
    pub waiting : IsWaiting key expected c.received remaining
    pub kept_all : (s : String) → has s before ≡ true → has s c.received ≡ true
    pub reason : (remaining ≡ []) ⊎ IsLate deadline c.ticks

  leave :
      (key : Key) (expected : List String) (deadline : F) (ticks : List (Tick F)) (n : SwarmNode F)
      (received : Bucket F) (remaining : List String)
      → IsWaiting key expected received remaining
      → (remaining ≡ []) ⊎ IsLate deadline ticks
      → HasLeft key expected received deadline
          (record { node = n; received = received; ticks = ticks })
  leave key expected deadline ticks n received remaining w why = record {
    remaining = remaining;
    waiting = w;
    kept_all = λ s h. h;
    reason = why;
  }

  returned :
      {c d : Collected F}
      → ◌≡◌ {A = Result (Option (Collected F))} (ok (some c)) (ok (some d))
      → c ≡ d
  returned e = cc

  pub collect_loop-HasLeft :
      (key : Key) (expected : List String) (deadline : F) (ticks : List (Tick F)) (n : SwarmNode F)
      (received : Bucket F) (remaining : List String) (c : Collected F)
      → IsWaiting key expected received remaining
      → collect_loop key deadline ticks n received remaining ≡ ok (some c)
      → HasLeft key expected received deadline c
  unfolding collect_loop
  collect_loop-HasLeft key expected deadline [] n received [] c w e =
      subst (HasLeft key expected received deadline) (returned e)
        (leave key expected deadline [] n received [] w (inl refl))
  collect_loop-HasLeft key expected deadline (t ∷ ticks) n received [] c w e =
      subst (HasLeft key expected received deadline) (returned e)
        (leave key expected deadline (t ∷ ticks) n received [] w (inl refl))
  collect_loop-HasLeft key expected deadline [] n received (r ∷ rs) c w e = cc
  collect_loop-HasLeft key expected deadline (t ∷ ticks) n received (r ∷ rs) c w e =
      go (f.lt t.now deadline) refl (λ n' received' remaining'.
        collect_loop-HasLeft key expected deadline ticks n' received' remaining' c)
    where
      next : Bucket F × List String
      next = accept key t.env received (r ∷ rs)

      go :
          (b : Bool)
          → f.lt t.now deadline ≡ b
          → ((n' : SwarmNode F) (received' : Bucket F) (remaining' : List String)
              → IsWaiting key expected received' remaining'
              → collect_loop key deadline ticks n' received' remaining' ≡ ok (some c)
              → HasLeft key expected received' deadline c)
          → HasLeft key expected received deadline c
      go false h ih =
          subst (HasLeft key expected received deadline) (returned (ground arith))
            (leave key expected deadline (t ∷ ticks) n received (r ∷ rs) w (inr h))
      go true h ih =
          let (n', run, rest) =
            >>=-eq-ok (pump_once n t) (λ m. collect_loop key deadline ticks m next.0 next.1)
              (ground arith) in
          let (w', keeps) = accept-IsWaiting key expected t.env received (r ∷ rs) w in
          let left = ih n' next.0 next.1 w' rest in
          record {
            remaining = left.remaining;
            waiting = left.waiting;
            kept_all = λ s k. left.kept_all s (keeps s k);
            reason = left.reason;
          }
