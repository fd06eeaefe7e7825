-- ===== src/Consensus/Votes.antt =====
-- The first loop of `resolve_disputes`: every bucket holds the sum of the reported probabilities.
use ded_swarm.Base.{
  ap, sym, ◌∙◌, ◌≡◌, ◌≢◌, inl, inr, refl, List, [], ◌∷◌, ◌++◌, ◌==◌, nat_eq, foldl, Option, none,
  some, if◌then◌else◌, All, arith, Option-cases, ok, for_each,
}
use ded_swarm.Base.Dict.{Dict, lookup, insert, get_or, NodupKeys, lookup-insert, insert-NodupKeys}
use ded_swarm.Float.{Float}
use ded_swarm.Consensus.{Position, Token, Scores, AllScores, add_vote, add_votes, total_scores}

module _ {F : Type 0} where
  -- The log-probabilities reported for a candidate: in one map of candidates, by one node at a
  -- position, and by all nodes, in the order in which they are met.
  unfoldable pub voices_in : Dict Token F → Token → List F
  voices_in [] t = []
  voices_in ((u, x) ∷ cands) t = if t == u then x ∷ voices_in cands t else voices_in cands t

  unfoldable pub voices_of : Scores F → Position → Token → List F
  unfolding voices_in
  voices_of [] pos t = []
  voices_of ((p, cands) ∷ rest) pos t =
      (if pos == p then voices_in cands t else []) ++ voices_of rest pos t

  unfoldable pub voices : AllScores F → Position → Token → List F
  unfolding voices_of
  voices [] pos t = []
  voices ((_, s) ∷ scores) pos t = voices_of s pos t ++ voices scores pos t

module _ {F : Type 0} ⦃f : Float F⦄ where
  abbrev pub weight : F → F
  weight x = get_or (f.exp x) f.zero

  abbrev pub credit : Option F → F → Option F
  credit acc x = some (f.add (get_or acc f.zero) (weight x))

  -- The score of a candidate: the sum of the probabilities that the nodes give it, added in the
  -- order of their reports, and none if no node reports it.
  unfoldable pub score : AllScores F → Position → Token → Option F
  score scores pos t = foldl credit none (voices scores pos t)

  -- No reported log-probability overflows `math.exp`, and no map of candidates is empty.
  abbrev pub FitsIn : Dict Token F → Type 0
  FitsIn = All (λ c. f.exp c.1 ≢ none)

  abbrev pub IsReport : Position × Dict Token F → Type 0
  IsReport (_, cands) = FitsIn cands × (cands ≢ [])

  abbrev pub AreReports : AllScores F → Type 0
  AreReports = All (λ e. All IsReport e.1)

  pub foldl-append :
      (acc : Option F) (xs ys : List F)
      → foldl credit acc (xs ++ ys) ≡ foldl credit (foldl credit acc xs) ys
  foldl-append acc [] ys = refl
  foldl-append acc (x ∷ xs) ys = foldl-append (credit acc x) xs ys

  -- One map of candidates, into one bucket.
  add_all_votes :
      (cands bucket : Dict Token F)
      → FitsIn cands
      → NodupKeys bucket
      → (b : Dict Token F) × (for_each add_vote bucket cands ≡ ok b)
        × NodupKeys b
        × ((t : Token) → lookup t b ≡ foldl credit (lookup t bucket) (voices_in cands t))
  unfolding add_vote voices_in
  add_all_votes [] bucket fits u = (bucket, refl, u, λ t. refl)
  add_all_votes ((v, x) ∷ cands) bucket (fit, fits) u = elim (Option-cases (f.exp x)) [
    | inl e ↦ absurd (fit e)
    | inr (p, e) ↦
        let new = f.add (get_or (lookup v bucket) f.zero) p in
        let (b, run, u', eq) =
          add_all_votes cands (insert v new bucket) fits (insert-NodupKeys v new bucket u) in
        (b, ground arith, u', λ t. ground (arith, eq t, lookup-insert t v new bucket))
  ]

  abbrev pub bucket_at : Position → Dict Position (Dict Token F) → Dict Token F
  bucket_at pos totals = get_or (lookup pos totals) []

  -- What the totals are at every moment.
  pub record IsTally (totals : Dict Position (Dict Token F)) : Type 0 where
    pub nodup : NodupKeys totals
    pub buckets : (pos : Position) → NodupKeys (bucket_at pos totals)
    pub nonempty : (pos : Position) → lookup pos totals ≢ some []

  -- The totals after more reports, whose voices are `more`.
  abbrev Adds :
      (Position → Token → List F)
      → Dict Position (Dict Token F)
      → Dict Position (Dict Token F)
      → Type 0
  Adds more old new =
      (pos : Position) (t : Token)
      → lookup t (bucket_at pos new) ≡ foldl credit (lookup t (bucket_at pos old)) (more pos t)

  foldl-credit-ne-none : (acc : Option F) (xs : List F) → acc ≢ none → foldl credit acc xs ≢ none
  foldl-credit-ne-none acc [] h = h
  foldl-credit-ne-none acc (x ∷ xs) h = foldl-credit-ne-none (credit acc x) xs (λ e. cc)

  add_all_votes-ne-nil :
      (cands bucket b : Dict Token F)
      → cands ≢ []
      → ((t : Token) → lookup t b ≡ foldl credit (lookup t bucket) (voices_in cands t))
      → b ≢ []
  unfolding voices_in lookup
  add_all_votes-ne-nil [] bucket b ne eq e = ne refl
  add_all_votes-ne-nil ((v, x) ∷ cands) bucket b ne eq e =
      foldl-credit-ne-none (credit (lookup v bucket) x) (voices_in cands v) (λ h. cc)
        (ground (arith, eq v))

  add_votes-IsTally :
      (totals : Dict Position (Dict Token F)) (p : Position) (cands : Dict Token F)
      → IsReport (p, cands)
      → IsTally totals
      → (r : Dict Position (Dict Token F)) × (add_votes totals (p, cands) ≡ ok r)
        × IsTally r
        × Adds (λ pos t. if pos == p then voices_in cands t else []) totals r
  unfolding add_votes
  add_votes-IsTally totals p cands (fits, ne) g =
      let old = bucket_at p totals in
      let (b, run, u, eq) = add_all_votes cands old fits (g.buckets p) in
      (
        insert p b totals,
        ground arith,
        record {
          nodup = insert-NodupKeys p b totals g.nodup;
          buckets = λ pos. ground (arith, lookup-insert pos p b totals, g.buckets pos);
          nonempty = λ pos h. ground (
            arith,
            lookup-insert pos p b totals,
            g.nonempty pos,
            add_all_votes-ne-nil cands old b ne eq,
          );
        },
        λ pos t. ground (arith, lookup-insert pos p b totals, eq t),
      )

  add_report :
      (report : Scores F) (totals : Dict Position (Dict Token F))
      → All IsReport report
      → IsTally totals
      → (r : Dict Position (Dict Token F)) × (for_each add_votes totals report ≡ ok r)
        × IsTally r
        × Adds (voices_of report) totals r
  unfolding voices_of
  add_report [] totals h g = (totals, refl, g, λ pos t. refl)
  add_report ((p, cands) ∷ report) totals (h, hs) g =
      let (r, run, tally, eq) = add_votes-IsTally totals p cands h g in
      let (r', run', tally', eq') = add_report report r hs tally in
      (
        r',
        rw run run',
        tally',
        λ pos t.
            eq' pos t
            ∙ ap (λ a. foldl credit a (voices_of report pos t)) (eq pos t)
            ∙ sym (foldl-append _ (if pos == p then voices_in cands t else []) _),
      )

  add_reports :
      (scores : AllScores F) (totals : Dict Position (Dict Token F))
      → AreReports scores
      → IsTally totals
      → (r : Dict Position (Dict Token F)) × (for_each
            (λ totals e. for_each add_votes totals e.1)
            totals
            scores
          ≡ ok r)
        × IsTally r
        × Adds (voices scores) totals r
  unfolding voices
  add_reports [] totals h g = (totals, refl, g, λ pos t. refl)
  add_reports ((_, report) ∷ scores) totals (h, hs) g =
      let (r, run, tally, eq) = add_report report totals h g in
      let (r', run', tally', eq') = add_reports scores r hs tally in
      (
        r',
        rw run run',
        tally',
        λ pos t.
            eq' pos t
            ∙ ap (λ a. foldl credit a (voices scores pos t)) (eq pos t)
            ∙ sym (foldl-append _ (voices_of report pos t) _),
      )

  -- If no report overflows, the totals hold the score of every candidate.
  pub total_scores-score :
      (scores : AllScores F)
      → AreReports scores
      → (r : Dict Position (Dict Token F)) × (total_scores scores ≡ ok r)
        × IsTally r
        × ((pos : Position) (t : Token) → lookup t (bucket_at pos r) ≡ score scores pos t)
  unfolding total_scores score lookup
  total_scores-score scores h =
      add_reports scores [] h (record { nodup = tt; buckets = λ pos. tt; nonempty = λ pos e. cc })
