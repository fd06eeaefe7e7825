-- ===== src/Wire/Published.antt =====
-- What the swarm publishes can be packed, and is read back (common/protocol.py).
use ded_swarm.Base.{
  ℕ, ◌≡◌, ◌<◌, refl, ◌^◌, true, List, [], ◌∷◌, String, none, some, string_eq, ok, All, arith,
}
use ded_swarm.Base.Dict.{Dict}
use ded_swarm.Protocol.{
  Setting, int_setting, float_setting, str_setting, GenSettings, MsgType, type_name, Payload,
  nothing, start_of, done_of, commit_of, scores_of, Envelope, get_round_id, get_sync_seq,
}
use ded_swarm.Wire.{
  Value, text, integer, float, ints_fit, text_keys, Codec, IsCodec, texts, ints, floats, row_value,
  rows_value, items_fit, entries_fit, text_keys_in, text_keys_of, settings_value, start_value,
  done_value, commit_value, scores_value, payload_value, envelope_value, get, field, encode, decode,
}

texts-fit :
    (F : Type 0) (ss : List String)
    → (items_fit {F = F} (texts ss) ≡ true) × (text_keys_in {F = F} (texts ss) ≡ true)
unfolding ints_fit text_keys
texts-fit F [] = (refl, refl)
texts-fit F (s ∷ ss) = texts-fit F ss

ints-fit :
    (F : Type 0) (ns : List ℕ)
    → All (λ n. n < 2 ^ 64) ns
    → (items_fit {F = F} (ints ns) ≡ true) × (text_keys_in {F = F} (ints ns) ≡ true)
unfolding ints_fit text_keys
ints-fit F [] h = (refl, refl)
ints-fit F (n ∷ ns) (h, hs) = ground (arith, ints-fit F ns hs)

module _ {F : Type 0} where
  abbrev pub SettingFits : String × Setting F → Type 0
  SettingFits (_, int_setting n) = n < 2 ^ 64
  SettingFits _ = Unit

  -- The numbers of a payload have 64 bits.
  abbrev pub NumbersFit : Payload F → Type 0
  NumbersFit (start_of _ _ _ g) = All SettingFits g
  NumbersFit (commit_of _ s ps ts _) =
      (s < 2 ^ 64) × All (λ n. n < 2 ^ 64) ps × All (λ n. n < 2 ^ 64) ts
  NumbersFit (scores_of _ s _) = s < 2 ^ 64
  NumbersFit _ = Unit

  floats-fit : (xs : List F) → (items_fit (floats xs) ≡ true) × (text_keys_in (floats xs) ≡ true)
  unfolding ints_fit text_keys
  floats-fit [] = (refl, refl)
  floats-fit (x ∷ xs) = floats-fit xs

  row_value-fits :
      (d : Dict String F) → (entries_fit (row_value d) ≡ true) × (text_keys_of (row_value d) ≡ true)
  unfolding ints_fit text_keys
  row_value-fits [] = (refl, refl)
  row_value-fits ((k, x) ∷ d) = row_value-fits d

  settings_value-fits :
      (g : GenSettings F)
      → All SettingFits g
      → (entries_fit (settings_value g) ≡ true) × (text_keys_of (settings_value g) ≡ true)
  unfolding ints_fit text_keys
  settings_value-fits [] h = (refl, refl)
  settings_value-fits ((k, int_setting n) ∷ g) (h, hs) = ground (arith, settings_value-fits g hs)
  settings_value-fits ((k, float_setting x) ∷ g) (h, hs) = settings_value-fits g hs
  settings_value-fits ((k, str_setting x) ∷ g) (h, hs) = settings_value-fits g hs

  rows_value-fits :
      (d : Dict String (Dict String F))
      → (entries_fit (rows_value d) ≡ true) × (text_keys_of (rows_value d) ≡ true)
  unfolding ints_fit text_keys
  rows_value-fits [] = (refl, refl)
  rows_value-fits ((k, row) ∷ d) = ground (arith, row_value-fits row, rows_value-fits d)

  payload_value-fits :
      (p : Payload F)
      → NumbersFit p
      → (ints_fit (payload_value p) ≡ true) × (text_keys (payload_value p) ≡ true)
  unfolding payload_value start_value done_value commit_value scores_value ints_fit text_keys
  payload_value-fits nothing h = (refl, refl)
  payload_value-fits (start_of r ps prompt g) h =
      ground (arith, texts-fit F ps, settings_value-fits g h)
  payload_value-fits (done_of r) h = (refl, refl)
  payload_value-fits (commit_of r s ps ts cs) (seq, positions, tokens) =
      ground (arith, ints-fit F ps positions, ints-fit F ts tokens, floats-fit cs)
  payload_value-fits (scores_of r s rows) h = ground (arith, rows_value-fits rows)

  -- What is packed of a message whose numbers have 64 bits holds no longer integer and no key but
  -- texts, at any depth: msgpack can pack it, and unpack it with strict keys.
  pub envelope_value-fits :
      (env : Envelope F)
      → NumbersFit env.payload
      → (ints_fit (envelope_value env) ≡ true) × (text_keys (envelope_value env) ≡ true)
  unfolding envelope_value ints_fit text_keys
  envelope_value-fits env h = ground (arith, payload_value-fits env.payload h)

  -- What the code looks up in a dict that it has received.
  abbrev pub ReadsAs : Value F → Envelope F → Type 0
  ReadsAs v env =
      (field "type" v ≡ some (text (type_name env.msg_type)))
      × (field "node_id" v ≡ some (text env.node_id))
      × (field "ts" v ≡ some (float env.ts))
      × ((p : Value F) × (field "payload" v ≡ some p)
          × (field "round_id" p
              ≡ (elim (get_round_id env.payload) [ none ↦ none | some r ↦ some (text r) ]))
          × (field "sync_seq" p
              ≡ (elim (get_sync_seq env.payload) [ none ↦ none | some s ↦ some (integer s) ])))

  payload_fields :
      (p : Payload F)
      → (field "round_id" (payload_value p)
          ≡ (elim (get_round_id p) [ none ↦ none | some r ↦ some (text r) ]))
        × (field "sync_seq" (payload_value p)
            ≡ (elim (get_sync_seq p) [ none ↦ none | some s ↦ some (integer s) ]))
  unfolding payload_value start_value done_value commit_value scores_value field get get_round_id
      get_sync_seq string_eq
  payload_fields nothing = (refl, refl)
  payload_fields (start_of r ps prompt g) = (refl, refl)
  payload_fields (done_of r) = (refl, refl)
  payload_fields (commit_of r s ps ts cs) = (refl, refl)
  payload_fields (scores_of r s rows) = (refl, refl)

  envelope_value-ReadsAs : (env : Envelope F) → ReadsAs (envelope_value env) env
  unfolding envelope_value field get string_eq
  envelope_value-ReadsAs env =
      let (round, sync) = payload_fields env.payload in
      (refl, refl, refl, (payload_value env.payload, refl, round, sync))

module _ {F Bytes : Type 0} (codec : Codec F Bytes) (law : IsCodec F Bytes codec) where
  -- Every message whose numbers have 64 bits can be published, and whoever receives it looks up in
  -- it the type, the sender, the time, the round and the sync that its sender gave.
  pub decode-encode :
      (node_id : String) (msg_type : MsgType) (payload : Payload F) (ts : F)
      → NumbersFit payload
      → (topic : Bytes) × (body : Bytes) × (v : Value F) × (encode codec node_id msg_type payload ts
          ≡ ok (topic, body))
        × (decode codec topic body ≡ ok v)
        × ReadsAs v (record { msg_type = msg_type; node_id = node_id; ts = ts; payload = payload })
  unfolding encode decode
  decode-encode node_id msg_type payload ts h =
      let env : Envelope F = record {
        msg_type = msg_type;
        node_id = node_id;
        ts = ts;
        payload = payload;
      } in
      let (fit, keys) = envelope_value-fits env h in
      let (body, packs) = law.packs (envelope_value env) fit in
      (
        codec.utf8 node_id,
        body,
        envelope_value env,
        rw packs refl,
        law.unpacks (envelope_value env) body packs keys,
        envelope_value-ReadsAs env,
      )
