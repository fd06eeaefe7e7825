-- ===== src/Generation.antt =====
-- node/generation.py: `GenerationRunner._do_sync`, one sync of a participant with the others. The
-- messages that it publishes are returned; what it prints is left out. `log_prob` stands for the
-- log-probability that the local model gave a token at a position in its last step
-- (`my_p[0, pos, tok].clamp_min(1e-12).log().item()`, a tensor of torch), and `iter` for the order
-- in which the interpreter iterates over a set of tokens.
pub mod Scoring
pub mod Messages
pub mod Sync
pub mod Alone
pub mod Hearing
pub mod Reports
pub mod Exchange
pub mod Pair
pub mod Agreed
pub mod Published
pub mod Heard
pub mod Phases
pub mod Returns
pub mod Refines
pub mod Parties
pub mod Debug
pub mod Report
pub mod Loop
use ded_swarm.Base.{
  ℕ, nat_eq, string_eq, List, [], ◌∷◌, map, String, none, some, Option, Result, ok, raise, ◌>>=◌,
  for_each, each, key_error, index_error, if◌then◌else◌, ltb, ◌&&◌,
}
use ded_swarm.Base.Dict.{Dict, insert, keys}
use ded_swarm.Base.Numerals.{str, int}
use ded_swarm.Float.{Float}
use ded_swarm.Config.{sync_barrier_timeout}
use ded_swarm.Protocol.{MsgType, commit, dispute_score, Payload, commit_of, scores_of}
use ded_swarm.Consensus.{
  Position, Token, TokenSet, Commit, Commits, Scores, AllScores, detect_disputes, resolve_disputes,
  merge_consensus,
}
use ded_swarm.Stop.{StopDetector, check}
use ded_swarm.Swarm.{SwarmNode, Tick, Collected, collect_until}

-- What does not change in the course of `_do_sync`: the id of the node, and most arguments.
pub record SyncArgs (F : Type 0) : Type 0 where
  pub id : String
  pub round_id : String
  pub sync_seq : ℕ
  pub other_participants : List String
  pub my_commits : Commit F
  pub seq_len : ℕ
  pub vocab_size : ℕ
  pub log_prob : Position → Token → F
  pub gen_start : ℕ
  pub gen_end : ℕ

-- What phase 2 leaves.
pub record Resolved (F : Type 0) : Type 0 where
  pub node : SwarmNode F
  pub ticks : List (Tick F)
  pub resolved : Dict Position Token
  pub published : List (MsgType × Payload F)

-- What `_do_sync` leaves. Its second result is `detector.stop_pos`.
pub record Synced (F : Type 0) : Type 0 where
  pub node : SwarmNode F
  pub ticks : List (Tick F)
  pub shared_x : Dict Position Token
  pub detector : StopDetector
  pub published : List (MsgType × Payload F)

module _ {F : Type 0} where
  -- The payload of COMMIT. A dict lists its keys in the order of its entries, so the tokens and the
  -- confidences that are looked up key by key are those of the entries in order.
  unfoldable pub commit_payload : String → ℕ → Commit F → Payload F
  commit_payload round_id sync_seq mine =
      commit_of round_id sync_seq (keys mine) (map (λ e. e.1.0) mine) (map (λ e. e.1.1) mine)

  -- `{pos: (tok, conf) for pos, tok, conf in zip(...)}`, onto the entries so far
  unfoldable pub zip_commit : Commit F → List Position → List Token → List F → Commit F
  zip_commit acc [] ts cs = acc
  zip_commit acc (p ∷ ps) [] cs = acc
  zip_commit acc (p ∷ ps) (t ∷ ts) [] = acc
  zip_commit acc (p ∷ ps) (t ∷ ts) (c ∷ cs) = zip_commit (insert p (t, c) acc) ps ts cs

  unfoldable pub read_commit : Payload F → Result (Commit F)
  read_commit (commit_of _ _ ps ts cs) = ok (zip_commit [] ps ts cs)
  read_commit _ = raise key_error

  -- One turn of the loop that fills `all_commits`.
  unfoldable pub add_commit : Commits F → String × Payload F → Result (Commits F)
  add_commit acc (node_id, payload) = read_commit payload >>= λ c. ok (insert node_id c acc)

  -- `{str(t): s for t, s in toks.items()}`
  abbrev pub write_row : Dict Token F → Dict String F
  write_row = map (λ (t, s). (str t, s))

  -- `{str(pos): {...} for pos, toks in my_scores.items()}`
  abbrev pub write_rows : Scores F → Dict String (Dict String F)
  write_rows = map (λ (pos, toks). (str pos, write_row toks))

  -- The payload of DISPUTE_SCORE.
  unfoldable pub scores_payload : String → ℕ → Scores F → Payload F
  scores_payload round_id sync_seq mine = scores_of round_id sync_seq (write_rows mine)

  -- `{int(tok): score for tok, score in toks.items()}`, onto the entries so far
  unfoldable pub read_row : Dict Token F → Dict String F → Result (Dict Token F)
  read_row acc [] = ok acc
  read_row acc ((tok, score) ∷ toks) = int tok >>= λ t. read_row (insert t score acc) toks

  -- `{int(pos): {...} for pos, toks in payload["scores"].items()}`, onto the entries so far
  unfoldable pub read_rows : Scores F → Dict String (Dict String F) → Result (Scores F)
  read_rows acc [] = ok acc
  read_rows acc ((pos, toks) ∷ rows) =
      int pos >>= λ p. read_row [] toks >>= λ row. read_rows (insert p row acc) rows

  unfoldable pub read_scores : Payload F → Result (Scores F)
  read_scores (scores_of _ _ rows) = read_rows [] rows
  read_scores _ = raise key_error

  -- One turn of the loop that fills `all_scores`.
  unfoldable pub add_scores : AllScores F → String × Payload F → Result (AllScores F)
  add_scores acc (node_id, payload) = read_scores payload >>= λ s. ok (insert node_id s acc)

  -- `my_p[0, pos, tok].clamp_min(1e-12).log().item()`, by the token; IndexError where `my_p` has no
  -- such entry.
  unfoldable pub score_candidate : SyncArgs F → Position → Token → Result (Token × F)
  score_candidate a pos tok =
      if ltb pos a.seq_len && ltb tok a.vocab_size
      then ok (tok, a.log_prob pos tok)
      else raise index_error

  unfoldable pub score_row :
      (TokenSet → List Token) → SyncArgs F → Position × TokenSet → Result (Position × Dict Token F)
  score_row iter a (pos, tokens) =
      each (score_candidate a pos) (iter tokens) >>= λ row. ok (pos, row)

  -- `my_scores`
  unfoldable pub score_disputes :
      (TokenSet → List Token) → SyncArgs F → Dict Position TokenSet → Result (Scores F)
  score_disputes iter a = each (score_row iter a)

module _ {F : Type 0} ⦃f : Float F⦄ (iter : TokenSet → List Token) where
  -- The scores are in, or the barrier still waits for them.
  unfoldable pub resolve_collected :
      Scores F
      → List (MsgType × Payload F)
      → String
      → Option (Collected F)
      → Result (Option (Resolved F))
  resolve_collected mine published self_id none = ok none
  resolve_collected mine published self_id (some c) =
      for_each add_scores ((self_id, mine) ∷ []) c.received >>= λ all_scores.
      resolve_disputes all_scores >>= λ resolved.
      ok (
        some
          (record { node = c.node; ticks = c.ticks; resolved = resolved; published = published }))

  -- Phase 2, `if disputes:`
  unfoldable pub score_phase :
      SyncArgs F
      → Dict Position TokenSet
      → F
      → List (Tick F)
      → SwarmNode F
      → Result (Option (Resolved F))
  score_phase a [] started ticks n =
      ok (some (record { node = n; ticks = ticks; resolved = []; published = [] }))
  score_phase a (d ∷ ds) started ticks n = score_disputes iter a (d ∷ ds) >>= λ mine.
      collect_until dispute_score a.round_id a.sync_seq a.other_participants sync_barrier_timeout
        started ticks n
      >>= resolve_collected mine ((dispute_score, scores_payload a.round_id a.sync_seq mine) ∷ [])
          a.id

  -- From `merge_consensus` on.
  unfoldable pub merge_phase :
      SyncArgs F
      → Dict Position Token
      → StopDetector
      → Commits F
      → Option (Resolved F)
      → Result (Option (Synced F))
  merge_phase a shared_x detector all_commits none = ok none
  merge_phase a shared_x detector all_commits (some r) =
      merge_consensus iter shared_x all_commits r.resolved >>= λ merged. ok (
        some (record {
          node = r.node;
          ticks = r.ticks;
          shared_x = merged;
          detector = check detector merged a.gen_start a.gen_end;
          published = (commit, commit_payload a.round_id a.sync_seq a.my_commits) ∷ r.published;
        }))

  -- The commits are in, or the barrier still waits for them.
  unfoldable pub commits_collected :
      SyncArgs F
      → Dict Position Token
      → StopDetector
      → (later : F) → Option (Collected F)
      → Result (Option (Synced F))
  commits_collected a shared_x detector later none = ok none
  commits_collected a shared_x detector later (some c) =
      for_each add_commit ((a.id, a.my_commits) ∷ []) c.received >>= λ all_commits.
      score_phase a (detect_disputes all_commits) later c.ticks c.node
      >>= merge_phase a shared_x detector all_commits

  -- `started` and `later` are the times at which the two barriers begin. `none` while one of them
  -- still waits.
  unfoldable pub do_sync :
      SyncArgs F
      → Dict Position Token
      → StopDetector
      → (started later : F) → List (Tick F)
      → SwarmNode F
      → Result (Option (Synced F))
  do_sync a shared_x detector started later ticks n =
      collect_until commit a.round_id a.sync_seq a.other_participants sync_barrier_timeout started
        ticks n
      >>= commits_collected a shared_x detector later
