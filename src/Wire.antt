-- ===== src/Wire.antt =====
-- common/protocol.py: `encode` and `decode`, with msgpack and the UTF-8 codec as parameters. A dict
-- of Python that goes on the wire is a value of msgpack.
pub mod Published
use ded_swarm.Base.{
  ℕ, ◌≡◌, ◌^◌, Bool, true, false, ◌&&◌, List, [], ◌∷◌, String, Option, none, some, ltb, ◌==◌,
  string_eq, if◌then◌else◌, Result, ok, raise, ◌>>=◌, value_error,
}
use ded_swarm.Base.Dict.{Dict}
use ded_swarm.Protocol.{
  Setting, int_setting, float_setting, str_setting, GenSettings, MsgType, type_name, Payload,
  nothing, start_of, done_of, commit_of, scores_of, Envelope,
}

mutual
  -- What msgpack packs.
  pub data Value (F : Type 0) : Type 0 where
    text : String → Value F
    integer : ℕ → Value F
    float : F → Value F
    array : Items F → Value F
    dict : Entries F → Value F

  pub data Items (F : Type 0) : Type 0 where
    no_item : Items F
    item : Value F → Items F → Items F

  pub data Entries (F : Type 0) : Type 0 where
    no_entry : Entries F
    entry : Value F → Value F → Entries F → Entries F

module _ {F : Type 0} where
  unfoldable mutual
    -- Every integer fits in 64 bits.
    pub ints_fit : Value F → Bool
    ints_fit (integer n) = ltb n (2 ^ 64)
    ints_fit (array xs) = items_fit xs
    ints_fit (dict es) = entries_fit es
    ints_fit _ = true

    pub items_fit : Items F → Bool
    items_fit no_item = true
    items_fit (item v xs) = ints_fit v && items_fit xs

    pub entries_fit : Entries F → Bool
    entries_fit no_entry = true
    entries_fit (entry k v es) = ints_fit k && (ints_fit v && entries_fit es)

  abbrev pub is_text : Value F → Bool
  is_text (text _) = true
  is_text _ = false

  unfoldable mutual
    -- Every key of every dict is a text.
    pub text_keys : Value F → Bool
    text_keys (array xs) = text_keys_in xs
    text_keys (dict es) = text_keys_of es
    text_keys _ = true

    pub text_keys_in : Items F → Bool
    text_keys_in no_item = true
    text_keys_in (item v xs) = text_keys v && text_keys_in xs

    pub text_keys_of : Entries F → Bool
    text_keys_of no_entry = true
    text_keys_of (entry k v es) = is_text k && (text_keys v && text_keys_of es)

-- `msgpack.packb(v, use_bin_type=True)`, `msgpack.unpackb(b, raw=False)` and `s.encode("utf-8")`
pub record Codec (F Bytes : Type 0) : Type 0 where
  pub packb : Value F → Result Bytes
  pub unpackb : Bytes → Result (Value F)
  pub utf8 : String → Bytes

-- What msgpack documents: it packs integers of up to 64 bits, and raises OverflowError for others;
-- it unpacks what was packed, unless a dict has a key that is no text, for which it raises
-- ValueError.
pub record IsCodec (F Bytes : Type 0) (codec : Codec F Bytes) : Type 0 where
  pub packs : (v : Value F) → ints_fit v ≡ true → (b : Bytes) × (codec.packb v ≡ ok b)
  pub unpacks :
      (v : Value F) (b : Bytes) → codec.packb v ≡ ok b → text_keys v ≡ true → codec.unpackb b ≡ ok v
  pub strict_keys :
      (v : Value F) (b : Bytes)
      → codec.packb v ≡ ok b
      → text_keys v ≡ false
      → codec.unpackb b ≡ raise value_error

module _ {F : Type 0} where
  abbrev pub texts : List String → Items F
  texts [] = no_item
  texts (s ∷ ss) = item (text s) (texts ss)

  abbrev pub ints : List ℕ → Items F
  ints [] = no_item
  ints (n ∷ ns) = item (integer n) (ints ns)

  abbrev pub floats : List F → Items F
  floats [] = no_item
  floats (x ∷ xs) = item (float x) (floats xs)

  -- A dict of floats by text, and a dict of those.
  abbrev pub row_value : Dict String F → Entries F
  row_value [] = no_entry
  row_value ((k, x) ∷ d) = entry (text k) (float x) (row_value d)

  abbrev pub rows_value : Dict String (Dict String F) → Entries F
  rows_value [] = no_entry
  rows_value ((k, row) ∷ d) = entry (text k) (dict (row_value row)) (rows_value d)

  abbrev pub setting_value : Setting F → Value F
  setting_value (int_setting n) = integer n
  setting_value (float_setting x) = float x
  setting_value (str_setting s) = text s

  abbrev pub settings_value : GenSettings F → Entries F
  settings_value [] = no_entry
  settings_value ((k, v) ∷ d) = entry (text k) (setting_value v) (settings_value d)

  -- The dict that goes out with GEN_START.
  unfoldable pub start_value : String → List String → String → GenSettings F → Value F
  start_value round_id participants prompt gen_config = dict (
      entry (text "round_id") (text round_id) (
        entry (text "participants") (array (texts participants)) (
          entry (text "prompt") (text prompt)
            (entry (text "gen_config") (dict (settings_value gen_config)) no_entry))))

  -- The dict that goes out with GEN_DONE.
  unfoldable pub done_value : String → Value F
  done_value round_id = dict (entry (text "round_id") (text round_id) no_entry)

  -- The dict that goes out with COMMIT.
  unfoldable pub commit_value : String → ℕ → List ℕ → List ℕ → List F → Value F
  commit_value round_id sync_seq positions tokens confidences = dict (
      entry (text "round_id") (text round_id) (
        entry (text "sync_seq") (integer sync_seq) (
          entry (text "positions") (array (ints positions)) (
            entry (text "tokens") (array (ints tokens))
              (entry (text "confidences") (array (floats confidences)) no_entry)))))

  -- The dict that goes out with DISPUTE_SCORE.
  unfoldable pub scores_value : String → ℕ → Dict String (Dict String F) → Value F
  scores_value round_id sync_seq scores = dict (
      entry (text "round_id") (text round_id) (
        entry (text "sync_seq") (integer sync_seq)
          (entry (text "scores") (dict (rows_value scores)) no_entry)))

  -- `payload or {}`
  unfoldable pub payload_value : Payload F → Value F
  payload_value nothing = dict no_entry
  payload_value (start_of r ps prompt g) = start_value r ps prompt g
  payload_value (done_of r) = done_value r
  payload_value (commit_of r s ps ts cs) = commit_value r s ps ts cs
  payload_value (scores_of r s rows) = scores_value r s rows

  -- The dict that `encode` builds.
  unfoldable pub envelope_value : Envelope F → Value F
  envelope_value env = dict (
      entry (text "type") (text (type_name env.msg_type)) (
        entry (text "node_id") (text env.node_id) (
          entry (text "ts") (float env.ts)
            (entry (text "payload") (payload_value env.payload) no_entry))))

  -- `d.get(key)`
  unfoldable pub get : String → Entries F → Option (Value F)
  get key no_entry = none
  get key (entry (text k) v es) = let rest = get key es in if key == k then some v else rest
  get key (entry _ v es) = get key es

  -- `v.get(key)`, of a dict
  unfoldable pub field : String → Value F → Option (Value F)
  field key (dict es) = get key es
  field key _ = none

module _ {F Bytes : Type 0} (codec : Codec F Bytes) where
  -- `ts` is the time of the call.
  unfoldable pub encode : String → MsgType → Payload F → F → Result (Bytes × Bytes)
  encode node_id msg_type payload ts =
      codec.packb (
        envelope_value
          (record { msg_type = msg_type; node_id = node_id; ts = ts; payload = payload }))
      >>= λ body. ok (codec.utf8 node_id, body)

  unfoldable pub decode : Bytes → Bytes → Result (Value F)
  decode topic body = codec.unpackb body
