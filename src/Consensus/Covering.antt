-- ===== src/Consensus/Covering.antt =====
-- Where `resolve_disputes` names a winner, if it returns.
use ded_swarm.Base.{
  ◌≡◌, ◌≢◌, [], ◌∷◌, nat_eq, string_eq, none, some, ok, for_each, >>=-eq-ok, arith, String,
}
use ded_swarm.Base.Dict.{Dict, lookup, insert, get_or}
use ded_swarm.Base.Refill.{for_each-missing}
use ded_swarm.Float.{Float}
use ded_swarm.Consensus.{
  Position, Token, Scores, AllScores, add_vote, add_votes, total_scores, best_token, pick_winner,
  resolve_disputes,
}

module _ {F : Type 0} ⦃f : Float F⦄ where
  pick_winner-stores :
      (w : Dict Position Token) (x : Position × Dict Token F) (w' : Dict Position Token)
      → pick_winner w x ≡ ok w'
      → (t : Token) × (w' ≡ insert x.0 t w)
  unfolding pick_winner
  pick_winner-stores w (pos, cands) w' run =
      let (t, _, rest) = >>=-eq-ok (best_token cands) (λ t. ok (insert pos t w)) run in (t, cc)

  add_votes-stores :
      (totals : Dict Position (Dict Token F)) (x : Position × Dict Token F)
      (totals' : Dict Position (Dict Token F))
      → add_votes totals x ≡ ok totals'
      → (b : Dict Token F) × (totals' ≡ insert x.0 b totals)
  unfolding add_votes
  add_votes-stores totals (pos, cands) totals' run =
      let (b, _, rest) =
        >>=-eq-ok (for_each add_vote (get_or (lookup pos totals) []) cands)
          (λ b. ok (insert pos b totals)) run in
      (b, cc)

  add_reports-missing :
      (scores : AllScores F) (acc totals : Dict Position (Dict Token F)) (pos : Position)
      → for_each (λ t e. for_each add_votes t e.1) acc scores ≡ ok totals
      → lookup pos totals ≡ none
      → (lookup pos acc ≡ none)
        × ((id : String) (s : Scores F) → lookup id scores ≡ some s → lookup pos s ≡ none)
  unfolding lookup
  add_reports-missing [] acc totals pos run miss = (ground arith, λ id s h. cc)
  add_reports-missing ((j, report) ∷ scores) acc totals pos run miss =
      let (t, first, rest) =
        >>=-eq-ok (for_each add_votes acc report)
          (λ t. for_each (λ t e. for_each add_votes t e.1) t scores) run in
      let (before, later) = add_reports-missing scores t totals pos rest miss in
      let (old, mine) = for_each-missing add_votes add_votes-stores report acc t pos first before in
      (old, λ id s h. ground (arith, later id s))

  -- If `resolve_disputes` returns, it names a winner at every position at which some participant
  -- scored a candidate.
  pub resolve_disputes-covers :
      (scores : AllScores F) (r : Dict Position Token) (id : String) (s : Scores F) (pos : Position)
      → resolve_disputes scores ≡ ok r
      → lookup id scores ≡ some s
      → lookup pos s ≢ none
      → lookup pos r ≢ none
  unfolding resolve_disputes total_scores
  resolve_disputes-covers scores r id s pos run mine scored miss =
      let (totals, first, rest) =
        >>=-eq-ok (total_scores scores) (λ t. for_each pick_winner [] t) run in
      let (_, none_there) =
        for_each-missing pick_winner pick_winner-stores totals [] r pos rest miss in
      let (_, unscored) = add_reports-missing scores [] totals pos first none_there in
      scored (unscored id s mine)
