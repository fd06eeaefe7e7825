-- ===== src/Swarm/Inbox.antt =====
-- What `_dispatch` does with each kind of message, and the inbox under any number of polls.
use ded_swarm.Base.{
  Bool, true, false, List, [], ◌∷◌, ◌==◌, ◌&&◌, ◌≡◌, ◌≢◌, ◌⊎◌, inl, inr, refl, ap, ◌∙◌, nat_eq,
  string_eq, option_eq, pair_eq, String, Option, none, some, if◌then◌else◌, Result, ok, for_each,
  >>=-eq-ok, arith, Bool-cases, Option-cases,
}
use ded_swarm.Base.Dict.{Dict, lookup, insert, get_or, NodupKeys, lookup-insert, insert-NodupKeys}
use ded_swarm.Protocol.{
  MsgType, commit, dispute_score, msg_type_eq, Payload, Envelope, get_round_id, get_sync_seq,
}
use ded_swarm.Swarm.{
  Key, Bucket, SwarmNode, Tick, key_of, note_sender, file_message, handle, dispatch, pump_once,
}

abbrev pub is_gen_message : MsgType → Bool
is_gen_message commit = true
is_gen_message dispute_score = true
is_gen_message _ = false

module _ {F : Type 0} where
  abbrev pub bucket_at : Key → Dict Key (Bucket F) → Bucket F
  bucket_at key inbox = get_or (lookup key inbox) []

  -- The payload filed for a sender under a key.
  abbrev pub filed : Dict Key (Bucket F) → Key → String → Option (Payload F)
  filed inbox key sender = lookup sender (bucket_at key inbox)

  -- A payload that carries the round and the sync of its key.
  abbrev pub Matches : Key → Option (Payload F) → Type 0
  Matches key none = Unit
  Matches (_, (round, seq)) (some p) = (get_round_id p ≡ round) × (get_sync_seq p ≡ seq)

  -- The inbox is a dict of dicts, and every payload stands under its own key.
  pub record IsInbox (inbox : Dict Key (Bucket F)) : Type 0 where
    pub nodup : NodupKeys inbox
    pub buckets : (key : Key) → NodupKeys (bucket_at key inbox)
    pub matching : (key : Key) (sender : String) → Matches key (filed inbox key sender)

  filed-file_message :
      (inbox : Dict Key (Bucket F)) (env : Envelope F) (key : Key) (sender : String)
      → filed (file_message inbox env) key sender ≡ (
          if key == key_of env
          then (if sender == env.node_id then some env.payload else filed inbox key sender)
          else filed inbox key sender)
  unfolding file_message
  filed-file_message inbox env key sender =
      let old = bucket_at (key_of env) inbox in
      ground (
        arith,
        lookup-insert key (key_of env) (insert env.node_id env.payload old) inbox,
        lookup-insert sender env.node_id env.payload old,
      )

  Matches-file_message :
      (inbox : Dict Key (Bucket F)) (env : Envelope F) (key : Key) (sender : String)
      → Matches key (filed inbox key sender)
      → Matches key (filed (file_message inbox env) key sender)
  Matches-file_message inbox env key sender h =
      rw (filed-file_message inbox env key sender) (go (Bool-cases (key == key_of env)))
    where
      go :
          ((key == key_of env) ≡ true) ⊎ ((key == key_of env) ≡ false)
          → Matches key (
              if key == key_of env
              then (if sender == env.node_id then some env.payload else filed inbox key sender)
              else filed inbox key sender)
      go (inr e) = rw e h
      go (inl e) = rw e (elim (Bool-cases (sender == env.node_id)) [
        | inr d ↦ rw d h
        | inl d ↦ rw d (let same : key ≡ key_of env = ground arith in rw same (refl, refl))
      ])

  file_message-IsInbox :
      (inbox : Dict Key (Bucket F)) (env : Envelope F)
      → IsInbox inbox
      → IsInbox (file_message inbox env)
  unfolding file_message
  file_message-IsInbox inbox env i =
      let old = bucket_at (key_of env) inbox in
      let new = insert env.node_id env.payload old in
      record {
        nodup = insert-NodupKeys (key_of env) new inbox i.nodup;
        buckets = λ key. ground (
          arith,
          lookup-insert key (key_of env) new inbox,
          i.buckets key,
          insert-NodupKeys env.node_id env.payload old (i.buckets (key_of env)),
        );
        matching = λ key sender. Matches-file_message inbox env key sender (i.matching key sender);
      }

  abbrev pub after_message : Dict Key (Bucket F) → Envelope F → Dict Key (Bucket F)
  after_message inbox env = if is_gen_message env.msg_type then file_message inbox env else inbox

  note_sender-fields :
      (n : SwarmNode F) (env : Envelope F) (ts : F)
      → ((note_sender n env ts).id ≡ n.id) × ((note_sender n env ts).gen_inbox ≡ n.gen_inbox)
  unfolding note_sender
  note_sender-fields n env ts = ground arith

  handle-fields :
      (n : SwarmNode F) (env : Envelope F) (ts : F) (n' : SwarmNode F)
      → handle n env ts ≡ ok n'
      → (n'.id ≡ n.id) × (n'.gen_inbox ≡ after_message n.gen_inbox env)
  unfolding handle
  handle-fields n env ts n' e = ground arith

  pub dispatch-fields :
      (n : SwarmNode F) (env : Envelope F) (ts : F) (n' : SwarmNode F)
      → dispatch n env ts ≡ ok n'
      → (n'.id ≡ n.id) × (n'.gen_inbox ≡ after_message n.gen_inbox env)
  unfolding dispatch
  dispatch-fields n env ts n' e =
      let (i, g) = note_sender-fields n env ts in
      let (i', g') = handle-fields (note_sender n env ts) env ts n' e in
      (i' ∙ i, g' ∙ ap (λ x. after_message x env) g)

  -- A COMMIT or DISPUTE_SCORE, of whatever round and sync and whenever it is read, is filed under its
  -- type, round and sync for its sender; nothing else in the inbox changes, and no other message
  -- changes the inbox.
  pub filed-dispatch :
      (n : SwarmNode F) (env : Envelope F) (ts : F) (n' : SwarmNode F) (key : Key) (sender : String)
      → dispatch n env ts ≡ ok n'
      → filed n'.gen_inbox key sender ≡ (
          if is_gen_message env.msg_type && (key == key_of env && sender == env.node_id)
          then some env.payload
          else filed n.gen_inbox key sender)
  filed-dispatch n env ts n' key sender e =
      ap (λ x. filed x key sender) (dispatch-fields n env ts n' e).1
      ∙ ground (arith, filed-file_message n.gen_inbox env key sender)

  after_message-IsInbox :
      (inbox : Dict Key (Bucket F)) (env : Envelope F)
      → IsInbox inbox
      → IsInbox (after_message inbox env)
  after_message-IsInbox inbox env i = elim (Bool-cases (is_gen_message env.msg_type)) [
    | inl e ↦ rw e (file_message-IsInbox inbox env i)
    | inr e ↦ rw e i
  ]

  pub dispatch-IsInbox :
      (n : SwarmNode F) (env : Envelope F) (ts : F) (n' : SwarmNode F)
      → dispatch n env ts ≡ ok n'
      → IsInbox n.gen_inbox
      → IsInbox n'.gen_inbox
  dispatch-IsInbox n env ts n' e i =
      rw (dispatch-fields n env ts n' e).1 (after_message-IsInbox n.gen_inbox env i)

  -- What a turn of any loop over the socket leaves alone: the inbox stays a dict of dicts, and what
  -- is filed stays filed.
  pub pump_once-IsInbox :
      (n : SwarmNode F) (t : Tick F) (n' : SwarmNode F)
      → pump_once n t ≡ ok n'
      → IsInbox n.gen_inbox
      → IsInbox n'.gen_inbox
        × ((key : Key) (sender : String)
            → filed n.gen_inbox key sender ≢ none
            → filed n'.gen_inbox key sender ≢ none)
  unfolding pump_once
  pump_once-IsInbox n t n' e i = elim (Option-cases t.env) [
    | inl h ↦ let same : n ≡ n' = ground arith in rw (← same) (i, λ key sender k. k)
    | inr (env, h) ↦
        let run : dispatch n env t.receive_ts ≡ ok n' = ground arith in
        (
          dispatch-IsInbox n env t.receive_ts n' run i,
          λ key sender k. rw (filed-dispatch n env t.receive_ts n' key sender run) (ground arith),
        )
  ]

  -- `pump_once`, any number of times.
  abbrev pub pump_all : SwarmNode F → List (Tick F) → Result (SwarmNode F)
  pump_all = for_each pump_once

  pub pump_all-filed :
      (ticks : List (Tick F)) (n n' : SwarmNode F) (key : Key) (sender : String)
      → IsInbox n.gen_inbox
      → pump_all n ticks ≡ ok n'
      → filed n.gen_inbox key sender ≢ none
      → IsInbox n'.gen_inbox × (filed n'.gen_inbox key sender ≢ none)
  pump_all-filed [] n n' key sender i e k = let same : n ≡ n' = ground arith in rw (← same) (i, k)
  pump_all-filed (t ∷ ticks) n n' key sender i e k =
      let (n₁, run, rest) = >>=-eq-ok (pump_once n t) (λ m. pump_all m ticks) e in
      let (i₁, keeps) = pump_once-IsInbox n t n₁ run i in
      pump_all-filed ticks n₁ n' key sender i₁ rest (keeps key sender k)
