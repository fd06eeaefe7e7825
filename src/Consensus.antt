-- ===== src/Consensus.antt =====
-- diffusion/consensus.py: what every participant computes from the commits and the scores that it
-- has received. `commits` is {node_id: {position: (token, confidence)}} and `dispute_scores` is
-- {node_id: {position: {token: log_prob}}}.
pub mod Proposals
pub mod Disputes
pub mod Adopt
pub mod Merge
pub mod Votes
pub mod Winner
pub mod Resolve
pub mod Agreement
pub mod Pair
pub mod Covering
pub mod Calm
use ded_swarm.Base.{
  ℕ, Bool, List, [], ◌∷◌, nat_eq, length, ltb, foldl, String, none, some, if◌then◌else◌, set_add,
  Result, ok, raise, ◌>>=◌, for_each, overflow_error, value_error, stop_iteration,
}
use ded_swarm.Base.Dict.{Dict, lookup, insert, keep, get_or}
use ded_swarm.Float.{Float}

abbrev pub Position : Type 0
Position = ℕ

abbrev pub Token : Type 0
Token = ℕ

abbrev pub NodeId : Type 0
NodeId = String

-- One participant's commits of a sync.
abbrev pub Commit : Type 0 → Type 0
Commit F = Dict Position (Token × F)

abbrev pub Commits : Type 0 → Type 0
Commits F = Dict NodeId (Commit F)

-- One participant's log-probabilities for the candidates at each position.
abbrev pub Scores : Type 0 → Type 0
Scores F = Dict Position (Dict Token F)

abbrev pub AllScores : Type 0 → Type 0
AllScores F = Dict NodeId (Scores F)

-- Sets of tokens are lists without duplicates. `iter` is the order in which the interpreter
-- iterates over such a set.
abbrev pub TokenSet : Type 0
TokenSet = List Token

-- `next(iter(tokens))`
abbrev pub next : List Token → Result Token
next [] = raise stop_iteration
next (t ∷ _) = ok t

module _ (iter : TokenSet → List Token) where
  -- One round of the last loop of `merge_consensus`.
  unfoldable pub adopt :
      Dict Position Token → Dict Position Token → Position × TokenSet → Result (Dict Position Token)
  adopt resolved updated (pos, tokens) = elim (lookup pos resolved) [
    | some token ↦ ok (insert pos token updated)
    | none ↦ next (iter tokens) >>= λ token. ok (insert pos token updated)
  ]

module _ {F : Type 0} where
  -- `by_position.setdefault(pos, set()).add(token)`
  unfoldable pub propose : Dict Position TokenSet → Position × (Token × F) → Dict Position TokenSet
  propose acc (pos, (token, _)) = insert pos (set_add token (get_or (lookup pos acc) [])) acc

  -- The nested loops that open `detect_disputes` and `merge_consensus`.
  unfoldable pub by_position : Commits F → Dict Position TokenSet
  by_position commits = foldl (λ acc e. foldl propose acc e.1) [] commits

  unfoldable pub detect_disputes : Commits F → Dict Position TokenSet
  detect_disputes commits = keep (λ _ tokens. ltb 1 (length tokens)) (by_position commits)

  module _ (iter : TokenSet → List Token) where
    unfoldable pub merge_consensus :
        Dict Position Token → Commits F → Dict Position Token → Result (Dict Position Token)
    merge_consensus shared_x commits resolved =
        for_each (adopt iter resolved) shared_x (by_position commits)

module _ {F : Type 0} ⦃f : Float F⦄ where
  -- `math.exp(logprob)`
  abbrev pub exp_or_raise : F → Result F
  exp_or_raise x = elim (f.exp x) [ none ↦ raise overflow_error | some e ↦ ok e ]

  -- `bucket[token] = bucket.get(token, 0.0) + math.exp(logprob)`
  unfoldable pub add_vote : Dict Token F → Token × F → Result (Dict Token F)
  add_vote bucket (token, logprob) = exp_or_raise logprob >>= λ e.
      ok (insert token (f.add (get_or (lookup token bucket) f.zero) e) bucket)

  -- The candidates that one node reports at one position. The bucket is changed in place, so it is
  -- stored back.
  unfoldable pub add_votes :
      Dict Position (Dict Token F) → Position × Dict Token F → Result (Dict Position (Dict Token F))
  add_votes totals (pos, candidates) =
      for_each add_vote (get_or (lookup pos totals) []) candidates >>= λ bucket.
      ok (insert pos bucket totals)

  unfoldable pub total_scores : AllScores F → Result (Dict Position (Dict Token F))
  total_scores scores = for_each (λ totals e. for_each add_votes totals e.1) [] scores

  -- `(s, -t) > (r, -u)` as Python compares tuples: at the first place where they differ.
  unfoldable pub outranks : Token × F → Token × F → Bool
  outranks (t, s) (u, r) = if f.eq s r then ltb t u else f.lt r s

  -- `max` keeps the first of the greatest items.
  unfoldable pub max_item : Token × F → Dict Token F → Token × F
  max_item best [] = best
  max_item best (x ∷ xs) = max_item (if outranks x best then x else best) xs

  -- `max(candidates.items(), key=...)[0]`
  unfoldable pub best_token : Dict Token F → Result Token
  best_token [] = raise value_error
  best_token (x ∷ xs) = ok (max_item x xs).0

  unfoldable pub pick_winner :
      Dict Position Token → Position × Dict Token F → Result (Dict Position Token)
  pick_winner winners (pos, candidates) =
      best_token candidates >>= λ token. ok (insert pos token winners)

  unfoldable pub resolve_disputes : AllScores F → Result (Dict Position Token)
  resolve_disputes scores = total_scores scores >>= λ totals. for_each pick_winner [] totals
