-- ===== src/Swarm/Heard.antt =====
-- A `collect_until` (node/swarm.py) that no clock reading finds late hears all that it expects, and
-- leaves an inbox for the next.
use ded_swarm.Base.{
  ℕ, true, List, [], ◌∷◌, ◌≡◌, inl, inr, nat_eq, string_eq, option_eq, pair_eq, String, Option,
  none, some, contains, All, Result, ok, >>=-eq-ok, arith, Bool-cases, subst, ◌==◌,
}
use ded_swarm.Base.Dict.{Dict, lookup, erase, lookup-erase, erase-NodupKeys}
use ded_swarm.Float.{Float}
use ded_swarm.Protocol.{MsgType, msg_type_eq}
use ded_swarm.Swarm.{
  Key, Bucket, SwarmNode, Tick, Collected, pump_once, missing, has, accept, early, collect_loop,
  close_key, collect_until,
}
use ded_swarm.Swarm.Inbox.{IsInbox, pump_once-IsInbox}
use ded_swarm.Swarm.Collect.{IsLate}
use ded_swarm.Swarm.Barrier.{collect_until_complete}

module _ {F : Type 0} where
  erase-IsInbox :
      (key : Key) (inbox : Dict Key (Bucket F)) → IsInbox inbox → IsInbox (erase key inbox)
  unfolding lookup
  erase-IsInbox key inbox i = record {
    nodup = erase-NodupKeys key inbox i.nodup;
    buckets = λ k.
        rw (lookup-erase k key inbox)
          (elim (Bool-cases (k == key)) [ inl e ↦ rw e tt | inr e ↦ rw e (i.buckets k) ]);
    matching = λ k s.
        rw (lookup-erase k key inbox)
          (elim (Bool-cases (k == key)) [ inl e ↦ rw e tt | inr e ↦ rw e (i.matching k s) ]);
  }

module _ {F : Type 0} ⦃f : Float F⦄ where
  collect_loop-IsInbox :
      (key : Key) (deadline : F) (ticks : List (Tick F)) (n : SwarmNode F) (received : Bucket F)
      (remaining : List String) (c : Collected F)
      → IsInbox n.gen_inbox
      → collect_loop key deadline ticks n received remaining ≡ ok (some c)
      → IsInbox c.node.gen_inbox
  unfolding collect_loop
  collect_loop-IsInbox key deadline [] n received [] c i e =
      let same : n ≡ c.node = ground arith in
      subst (λ (m : SwarmNode F). IsInbox m.gen_inbox) same i
  collect_loop-IsInbox key deadline (t ∷ ticks) n received [] c i e =
      let same : n ≡ c.node = ground arith in
      subst (λ (m : SwarmNode F). IsInbox m.gen_inbox) same i
  collect_loop-IsInbox key deadline [] n received (r ∷ rs) c i e = cc
  collect_loop-IsInbox key deadline (t ∷ ticks) n received (r ∷ rs) c i e =
      elim (Bool-cases (f.lt t.now deadline)) [
        | inr late ↦
            let same : n ≡ c.node = ground arith in
            subst (λ (m : SwarmNode F). IsInbox m.gen_inbox) same i
        | inl in_time ↦
            let next = accept key t.env received (r ∷ rs) in
            let (n', run, rest) =
              >>=-eq-ok (pump_once n t) (λ m. collect_loop key deadline ticks m next.0 next.1)
                (ground arith) in
            collect_loop-IsInbox key deadline ticks n' next.0 next.1 c
              (pump_once-IsInbox n t n' run i).0 rest
      ]

  in_time-not-IsLate :
      (deadline : F) (ts : List (Tick F))
      → All (λ (t : Tick F). f.lt t.now deadline ≡ true) ts
      → ¬ IsLate deadline ts
  in_time-not-IsLate deadline [] h late = late
  in_time-not-IsLate deadline (t ∷ ts) (h, hs) late = cc

  module _ (msg_type : MsgType) (round_id : String) (sync_seq : ℕ) (expected : List String)
      (timeout started : F) (ticks : List (Tick F)) (n : SwarmNode F) (c : Collected F)
      (i : IsInbox n.gen_inbox)
      (e : collect_until msg_type round_id sync_seq expected timeout started ticks n
        ≡ ok (some c)) where
    pub collect_until-IsInbox : IsInbox c.node.gen_inbox
    unfolding collect_until close_key
    collect_until-IsInbox =
        let (o, run, rest) =
          >>=-eq-ok
            (collect_loop own (f.add started timeout) ticks n (early n own expected)
              (missing expected (early n own expected)))
            (λ o. ok (close_key own o)) e in
        go o run rest
      where
        own : Key
        own = (msg_type, (some round_id, some sync_seq))

        go :
            (o : Option (Collected F))
            → collect_loop own
                (f.add started timeout)
                ticks
                n
                (early n own expected)
                (missing expected (early n own expected))
              ≡ ok o
            → ◌≡◌ {A = Result (Option (Collected F))} (ok (close_key own o)) (ok (some c))
            → IsInbox c.node.gen_inbox
        go none run rest = cc
        go (some d) run rest =
            let same : erase own d.node.gen_inbox ≡ c.node.gen_inbox = ground arith in
            subst IsInbox same (
              erase-IsInbox own d.node.gen_inbox (
                collect_loop-IsInbox own (f.add started timeout) ticks n (early n own expected)
                  (missing expected (early n own expected)) d i run))

    -- A barrier whose remaining turns are all in time has heard everyone that it expects.
    pub collect_until_everyone :
        All (λ (t : Tick F). f.lt t.now (f.add started timeout) ≡ true) c.ticks
        → (s : String) → has s c.received ≡ contains expected s
    collect_until_everyone w =
        elim (collect_until_complete msg_type round_id sync_seq expected timeout started ticks n c i
          e) [
            | inl all ↦ all
            | inr late ↦ absurd (in_time-not-IsLate (f.add started timeout) c.ticks w late)
          ]
