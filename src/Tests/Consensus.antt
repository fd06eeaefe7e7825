-- ===== src/Tests/Consensus.antt =====
-- tests/test_consensus.py on the model: disputes and merging.
use ded_swarm.Base.{
  ℕ_discrete, ◌≡◌, ◌≢◌, ◌↔◌, refl, List, [], ◌∷◌, none, some, set_add, arith, ok, nat_eq, option_eq,
}
use ded_swarm.Base.Dict.{Dict, lookup, insert, keep, SameLookups}
use ded_swarm.Float.{Ticks, ticks_float}
use ded_swarm.Consensus.{
  Position, Token, Commits, propose, by_position, detect_disputes, adopt, merge_consensus,
}
use ded_swarm.Consensus.Disputes.{Contested, detect_disputes_iff}
use ded_swarm.Consensus.Adopt.{IsIteration}
use ded_swarm.Consensus.Merge.{Covers, merged_at, merge_consensus-merged_at, merge_consensus_agree}

-- Position 10 is disputed, and 20 is not. Confidences are in hundredths.
abbrev commits : Commits Ticks
commits =
    ("node-a", (10, (500, 90)) ∷ (20, (700, 99)) ∷ [])
    ∷ ("node-b", (10, (600, 70)) ∷ (20, (700, 95)) ∷ [])
    ∷ []

-- The same commits as the other node sees them.
abbrev swapped : Commits Ticks
swapped =
    ("node-b", (10, (600, 70)) ∷ (20, (700, 95)) ∷ [])
    ∷ ("node-a", (10, (500, 90)) ∷ (20, (700, 99)) ∷ [])
    ∷ []

abbrev resolved : Dict Position Token
resolved = (10, 500) ∷ []

abbrev in_order : List Token → List Token
in_order ts = ts

program : Unit {0}
unfolding propose by_position detect_disputes adopt merge_consensus lookup insert keep set_add
    ℕ_discrete
program = tt

disputed : lookup 10 (detect_disputes commits) ≡ some (600 ∷ 500 ∷ [])
unfolding program
disputed = refl

merges : merge_consensus in_order [] commits resolved ≡ ok ((10, 500) ∷ (20, 700) ∷ [])
unfolding program
merges = refl

in_order-IsIteration : IsIteration in_order
in_order-IsIteration = record { same = λ ts t. refl; size = λ ts. refl; distinct = λ ts s. s }

resolved-Covers : Covers resolved commits
unfolding lookup
resolved-Covers pos (t, u, ne, h, k) = ground arith

detect_disputes_iff_example : (lookup 10 (detect_disputes commits) ≢ none) ↔ Contested commits 10
detect_disputes_iff_example = detect_disputes_iff commits 10

merge_consensus-merged_at_example :
    (m : Dict Position Token) × (merge_consensus in_order [] commits resolved ≡ ok m)
    × (Covers resolved commits
        → (pos : Position) → lookup pos m ≡ merged_at [] commits resolved pos)
merge_consensus-merged_at_example =
    merge_consensus-merged_at in_order in_order-IsIteration [] commits resolved

merge_consensus_agree_example :
    (m n : Dict Position Token) × (merge_consensus in_order [] commits resolved ≡ ok m)
    × (merge_consensus in_order [] swapped resolved ≡ ok n)
    × SameLookups m n
merge_consensus_agree_example =
    merge_consensus_agree in_order in_order [] resolved commits [] resolved swapped
      in_order-IsIteration in_order-IsIteration (λ pos t. ground arith) (λ pos. refl) (λ pos. refl)
      resolved-Covers
