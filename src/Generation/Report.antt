-- ===== src/Generation/Report.antt =====
-- node/generation.py: what `_do_sync` prints at its end, under VERBOSE, as a value. `show` stands for
-- `repr(tokenizer.decode([token]))` and `decode` for the tokenizer's `decode` of a list.
pub mod Printed
pub mod Whole
pub mod Alike
use ded_swarm.Base.{
  ℕ, ◌+◌, ◌-◌, Bool, true, false, List, [], ◌∷◌, ◌++◌, Eq, ◌==◌, nat_eq, string_eq, option_eq, map,
  String, Option, none, some, if◌then◌else◌, not, length, Result, ok, ◌>>=◌, each,
}
use ded_swarm.Base.Dict.{Dict, lookup, keys, get_or}
use ded_swarm.Base.Order.{Ord, sorted, nat_ord}
use ded_swarm.Base.Text.{string_ord}
use ded_swarm.Base.Ranges.{upto, count}
use ded_swarm.Float.{Float}
use ded_swarm.Consensus.{
  Position, Token, TokenSet, Commit, Commits, Scores, AllScores, exp_or_raise,
}

-- The local variables of `_do_sync` that are printed, at its end. `shared_x` is the merged state and
-- `frozen_from` the boundary before the sync.
pub record ReportArgs (F : Type 0) : Type 0 where
  pub all_commits : Commits F
  pub disputes : Dict Position TokenSet
  pub all_scores : AllScores F
  pub resolved : Dict Position Token
  pub shared_x : Dict Position Token
  pub new_frozen_from : Option ℕ
  pub frozen_from : Option ℕ
  pub gen_start : ℕ
  pub gen_end : ℕ
  pub mask_id : ℕ

-- A line for a committed position: `Pos 12 -> 'the' (0.93)`.
pub record CommitLine (F : Type 0) : Type 0 where
  pub pos : Position
  pub decoded : String
  pub conf : F

-- A candidate of a disputed position, as one node scored it; the winner has a star.
pub record Part (F : Type 0) : Type 0 where
  pub node_id : String
  pub decoded : String
  pub prob : F
  pub starred : Bool

-- A line for a disputed position. Without a winner it ends in `?`.
pub record DisputeLine (F : Type 0) : Type 0 where
  pub pos : Position
  pub parts : List (Part F)
  pub winner : Option String

pub record SyncReport (F : Type 0) : Type 0 where
  pub confirmed : Option ℕ
  pub commits : List (String × List (CommitLine F))
  pub reporters : ℕ
  pub n_commits : ℕ
  pub n_disputes : ℕ
  pub disputes : List (DisputeLine F)
  pub frozen_note : Option ℕ
  pub committed_n : ℕ
  pub span : ℕ
  pub preview : String

-- `for k, v in sorted(d.items())`. The keys of a dict differ, so that no values are compared.
module _ {K V : Type 0} ⦃e : Eq K⦄ ⦃o : Ord K⦄ where
  unfoldable pub items_at : Dict K V → List K → List (K × V)
  items_at d [] = []
  items_at d (k ∷ ks) =
      let rest = items_at d ks in elim (lookup k d) [ none ↦ rest | some v ↦ (k, v) ∷ rest ]

  unfoldable pub sorted_items : Dict K V → List (K × V)
  unfolding items_at
  sorted_items d = items_at d (sorted (keys d))

-- `parts`, joined over the nodes
abbrev pub concat : {A : Type 0} → List (List A) → List A
concat [] = []
concat (xs ∷ xss) = xs ++ concat xss

abbrev pub sum_of : {A : Type 0} → (A → ℕ) → List A → ℕ
sum_of g [] = 0
sum_of g (x ∷ xs) = g x + sum_of g xs

module _ {F : Type 0} where
  -- `full_ids`: a position without a token counts as a mask.
  unfoldable pub full_ids : ReportArgs F → List Token
  full_ids a =
      map (λ p. get_or (lookup p a.shared_x) a.mask_id) (upto (a.gen_end - a.gen_start) a.gen_start)

  unfoldable pub committed_n : ReportArgs F → ℕ
  committed_n a =
      count (λ p. elim (lookup p a.shared_x) [ none ↦ false | some _ ↦ true ])
        (upto (a.gen_end - a.gen_start) a.gen_start)

  -- `new_frozen_from is not None and new_frozen_from != frozen_from`. A boundary does not lie before
  -- `gen_start`.
  unfoldable pub confirmed : ReportArgs F → Option ℕ
  confirmed a = elim a.new_frozen_from [
    | none ↦ none
    | some n ↦ if some n == a.frozen_from then none else some (n - a.gen_start)
  ]

  unfoldable pub frozen_note : ReportArgs F → Option ℕ
  frozen_note a = elim a.frozen_from [ none ↦ none | some n ↦ some (n - a.gen_start) ]

module _ {F : Type 0} (show : Token → String) (decode : List Token → String) where
  unfoldable pub commit_lines : Commit F → List (CommitLine F)
  commit_lines node_commits =
      map (λ (pos, (tok, conf)). record { pos = pos; decoded = show tok; conf = conf })
        (sorted_items node_commits)

  module _ ⦃f : Float F⦄ where
    unfoldable pub part : Option Token → String → Token × F → Result (Part F)
    part winner_tok node_id (tok, logprob) = exp_or_raise logprob >>= λ prob. ok (record {
      node_id = node_id;
      decoded = show tok;
      prob = prob;
      starred = elim winner_tok [ none ↦ false | some w ↦ tok == w ];
    })

    unfoldable pub node_parts : Position → Option Token → String × Scores F → Result (List (Part F))
    node_parts pos winner_tok (node_id, scores) =
        each (part winner_tok node_id) (sorted_items (get_or (lookup pos scores) []))

    unfoldable pub dispute_line : ReportArgs F → Position → Result (DisputeLine F)
    dispute_line a pos =
        let winner_tok = lookup pos a.resolved in
        each (node_parts pos winner_tok) (sorted_items a.all_scores) >>= λ parts. ok (record {
          pos = pos;
          parts = concat parts;
          winner = elim winner_tok [ none ↦ none | some w ↦ some (show w) ];
        })

  -- The report, with the lines for the disputes.
  unfoldable pub report_with : ReportArgs F → List (DisputeLine F) → SyncReport F
  report_with a lines = record {
    confirmed = confirmed a;
    commits = map (λ (node_id, c). (node_id, commit_lines c)) (sorted_items a.all_commits);
    reporters = length a.all_commits;
    n_commits = sum_of (λ e. length e.1) a.all_commits;
    n_disputes = length a.disputes;
    disputes = lines;
    frozen_note = frozen_note a;
    committed_n = committed_n a;
    span = a.gen_end - a.gen_start;
    preview = decode (full_ids a);
  }

  unfoldable pub sync_report : ⦃f : Float F⦄ → ReportArgs F → Result (SyncReport F)
  sync_report a =
      each (dispute_line a) (sorted (keys a.disputes)) >>= λ lines. ok (report_with a lines)
