-- ===== src/Swarm/Overdue.antt =====
-- The clock of a `collect_until` (node/swarm.py): a turn at which its deadline has passed is left to
-- what follows.
use ded_swarm.Base.{
  ℕ, Bool, true, false, List, [], ◌∷◌, ◌≡◌, nat_eq, string_eq, option_eq, pair_eq, String, Option,
  none, some, inl, inr, any, Result, ok, >>=-eq-ok, arith, Bool-cases, subst,
}
use ded_swarm.Float.{Float}
use ded_swarm.Protocol.{MsgType, msg_type_eq}
use ded_swarm.Swarm.{
  Key, Bucket, SwarmNode, Tick, Collected, pump_once, missing, accept, early, collect_loop,
  close_key, collect_until,
}

module _ {F : Type 0} ⦃f : Float F⦄ (p : Tick F → Bool) where
  collect_loop-any :
      (key : Key) (deadline : F) (ticks : List (Tick F)) (n : SwarmNode F) (received : Bucket F)
      (remaining : List String) (c : Collected F)
      → ((t : Tick F) → p t ≡ true → f.lt t.now deadline ≡ false)
      → collect_loop key deadline ticks n received remaining ≡ ok (some c)
      → any p ticks ≡ true
      → any p c.ticks ≡ true
  unfolding collect_loop
  collect_loop-any key deadline [] n received [] c h e late = cc
  collect_loop-any key deadline (t ∷ ticks) n received [] c h e late =
      let same : t ∷ ticks ≡ c.ticks = ground arith in subst (λ ts. any p ts ≡ true) same late
  collect_loop-any key deadline [] n received (r ∷ rs) c h e late = cc
  collect_loop-any key deadline (t ∷ ticks) n received (r ∷ rs) c h e late =
      elim (Bool-cases (f.lt t.now deadline)) [
        | inr over ↦
            let same : t ∷ ticks ≡ c.ticks = ground arith in subst (λ ts. any p ts ≡ true) same late
        | inl in_time ↦
            let next = accept key t.env received (r ∷ rs) in
            let ahead : any p ticks ≡ true = elim (Bool-cases (p t)) [
              | inl here ↦ cc (h t here)
              | inr there ↦ rw there at late
            ] in
            let (n', run, rest) =
              >>=-eq-ok (pump_once n t) (λ m. collect_loop key deadline ticks m next.0 next.1)
                (ground arith) in
            collect_loop-any key deadline ticks n' next.0 next.1 c h rest ahead
      ]

  -- A turn at which the deadline has passed is not consumed.
  pub collect_until-any :
      (msg_type : MsgType) (round_id : String) (sync_seq : ℕ) (expected : List String)
      (timeout started : F) (ticks : List (Tick F)) (n : SwarmNode F) (c : Collected F)
      → ((t : Tick F) → p t ≡ true → f.lt t.now (f.add started timeout) ≡ false)
      → collect_until msg_type round_id sync_seq expected timeout started ticks n ≡ ok (some c)
      → any p ticks ≡ true
      → any p c.ticks ≡ true
  unfolding collect_until close_key
  collect_until-any msg_type round_id sync_seq expected timeout started ticks n c h e late =
      let own : Key = (msg_type, (some round_id, some sync_seq)) in
      let (o, run, rest) =
        >>=-eq-ok
          (collect_loop own (f.add started timeout) ticks n (early n own expected)
            (missing expected (early n own expected)))
          (λ o. ok (close_key own o)) e in
      go o run rest
    where
      own : Key
      own = (msg_type, (some round_id, some sync_seq))

      go :
          (o : Option (Collected F))
          → collect_loop own
              (f.add started timeout)
              ticks
              n
              (early n own expected)
              (missing expected (early n own expected))
            ≡ ok o
          → ◌≡◌ {A = Result (Option (Collected F))} (ok (close_key own o)) (ok (some c))
          → any p c.ticks ≡ true
      go none run rest = cc
      go (some d) run rest =
          let same : d.ticks ≡ c.ticks = ground arith in
          subst (λ ts. any p ts ≡ true) same
            (collect_loop-any own (f.add started timeout) ticks n (early n own expected)
              (missing expected (early n own expected)) d h run late)
