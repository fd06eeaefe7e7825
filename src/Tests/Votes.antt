-- ===== src/Tests/Votes.antt =====
-- tests/test_consensus.py on the model: scores and winners. Probabilities are in thousandths, and
-- `exp` is the identity.
use mathlib.Core.List.{Permᴰ}
use ded_swarm.Base.{
  ℕ_discrete, ◌≡◌, refl, [], ◌∷◌, arith, ok, raise, value_error, nat_eq, option_eq,
}
use ded_swarm.Base.Dict.{Dict, lookup, insert, SameLookups}
use ded_swarm.Float.{Ticks, ticks_float, Ticks-IsOrdered, Ticks-IsExact}
use ded_swarm.Consensus.{
  Position, Token, AllScores, Scores, add_vote, add_votes, total_scores, outranks, max_item,
  best_token, pick_winner, resolve_disputes,
}
use ded_swarm.Consensus.Votes.{AreReports}
use ded_swarm.Consensus.Winner.{IsWinner}
use ded_swarm.Consensus.Resolve.{resolve_disputes-IsWinner}
use ded_swarm.Consensus.Agreement.{resolve_disputes_exact}

-- `test_bland_compromise_loses_under_weighted_average`
abbrev of_a : Scores Ticks
of_a = (10, (100, 990) ∷ (200, 3) ∷ (300, 300) ∷ []) ∷ []

abbrev of_b : Scores Ticks
of_b = (10, (100, 5) ∷ (200, 980) ∷ (300, 300) ∷ []) ∷ []

abbrev scores : AllScores Ticks
scores = ("node-a", of_a) ∷ ("node-b", of_b) ∷ []

abbrev scores_of_b : AllScores Ticks
scores_of_b = ("node-b", of_b) ∷ ("node-a", of_a) ∷ []

program : Unit {0}
unfolding add_vote add_votes total_scores outranks max_item best_token pick_winner resolve_disputes
    lookup insert ℕ_discrete
program = tt

int_wins : resolve_disputes scores ≡ ok ((10, 100) ∷ [])
unfolding program
int_wins = refl

-- `test_tie_break_is_deterministic`
lower_token_wins :
    resolve_disputes {F = Ticks} (("node-a", (10, (100, 500) ∷ (50, 500) ∷ []) ∷ []) ∷ [])
    ≡ ok ((10, 50) ∷ [])
unfolding program
lower_token_wins = refl

-- A map without candidates makes `max` raise.
no_candidates : resolve_disputes {F = Ticks} (("node-a", (10, []) ∷ []) ∷ []) ≡ raise value_error
unfolding program
no_candidates = refl

scores-AreReports : AreReports scores
scores-AreReports = ground arith

resolve_disputes-IsWinner_example :
    (w : Dict Position Token) × (resolve_disputes scores ≡ ok w)
    × ((pos : Position) → IsWinner scores pos (lookup pos w))
resolve_disputes-IsWinner_example =
    resolve_disputes-IsWinner Ticks-IsOrdered scores scores-AreReports

resolve_disputes_exact_example :
    (w v : Dict Position Token) × (resolve_disputes scores ≡ ok w)
    × (resolve_disputes scores_of_b ≡ ok v)
    × SameLookups w v
resolve_disputes_exact_example =
    resolve_disputes_exact Ticks-IsOrdered Ticks-IsExact scores scores_of_b (Permᴰ.swap refl refl)
      scores-AreReports
