-- ===== src/Generation/Report/Printed.antt =====
-- The report at the end of a sync (node/generation.py, under VERBOSE): that it is printed whole, and
-- with a winner at every dispute.
use ded_swarm.Base.{
  ◌≡◌, ◌≢◌, refl, inl, inr, false, List, [], ◌∷◌, ◌==◌, nat_eq, string_eq, map, Eq, String, Option,
  none, some, All, Result, ok, >>=-eq-ok, for_each, each, arith, Option-cases,
}
use ded_swarm.Base.Dict.{Dict, lookup, insert, keys, get_or}
use ded_swarm.Base.Every.{lookup-All}
use ded_swarm.Base.Order.{Ord, sorted, nat_ord}
use ded_swarm.Base.Text.{string_ord}
use ded_swarm.Float.{Float}
use ded_swarm.Consensus.{
  Position, Token, Scores, AllScores, add_vote, add_votes, total_scores, pick_winner,
  resolve_disputes, exp_or_raise,
}
use ded_swarm.Consensus.Votes.{FitsIn}
use ded_swarm.Generation.Report.{
  ReportArgs, Part, DisputeLine, items_at, sorted_items, part, node_parts, dispute_line, concat,
}

-- A loop that has not raised has run its body on every element.
for_each-All :
    {S A : Type 0} (body : S → A → Result S) (P : A → Type 0)
    → ((s s' : S) (x : A) → body s x ≡ ok s' → P x)
    → (xs : List A) (s s' : S) → for_each body s xs ≡ ok s'
    → All P xs
for_each-All body P h [] s s' run = tt
for_each-All body P h (x ∷ xs) s s' run =
    let (t, first, rest) = >>=-eq-ok (body s x) (λ u. for_each body u xs) run in
    (h s t x first, for_each-All body P h xs t s' rest)

-- A loop whose body raises on no element does not raise.
pub each_total :
    {A B : Type 0} (body : A → Result B) (P : A → Type 0) (Q : A → B → Type 0)
    → ((x : A) → P x → (y : B) × (body x ≡ ok y) × Q x y)
    → (xs : List A) → All P xs
    → (ys : List B) × (each body xs ≡ ok ys)
      × ((R : B → Type 0) → ((x : A) (y : B) → Q x y → R y) → All R ys)
      × ((g : B → A) → ((x : A) (y : B) → Q x y → g y ≡ x) → map g ys ≡ xs)
each_total body P Q h [] ps = ([], refl, λ R r. tt, λ g same. refl)
each_total body P Q h (x ∷ xs) (p, ps) =
    let (y, one, q) = h x p in
    let (ys, rest, qs, gs) = each_total body P Q h xs ps in
    (y ∷ ys, rw (one, rest) refl, λ R r. (r x y q, qs R r), λ g same. cc (same x y q, gs g same))

module _ {K V : Type 0} ⦃e : Eq K⦄ ⦃o : Ord K⦄ where
  items_at-All : (Q : K × V → Type 0) (d : Dict K V) (ks : List K) → All Q d → All Q (items_at d ks)
  unfolding items_at
  items_at-All Q d [] h = tt
  items_at-All Q d (k ∷ ks) h = elim (Option-cases (lookup k d)) [
    | inl miss ↦ rw (miss, items_at) (items_at-All Q d ks h)
    | inr (v, hit) ↦ rw (hit, items_at) (lookup-All Q k v d h hit, items_at-All Q d ks h)
  ]

module _ {F : Type 0} ⦃f : Float F⦄ where
  pub FitIn : AllScores F → Type 0
  FitIn = All (λ n. All (λ row. FitsIn row.1) n.1)

  add_vote-fits : (b b' : Dict Token F) (c : Token × F) → add_vote b c ≡ ok b' → f.exp c.1 ≢ none
  unfolding add_vote
  add_vote-fits b b' (t, x) run = λ h. ground arith

  add_votes-fits :
      (t t' : Dict Position (Dict Token F)) (row : Position × Dict Token F)
      → add_votes t row ≡ ok t'
      → FitsIn row.1
  unfolding add_votes
  add_votes-fits t t' (pos, cands) run =
      let (b, voted, _) =
        >>=-eq-ok (for_each add_vote (get_or (lookup pos t) []) cands) (λ b. ok (insert pos b t))
          run in
      for_each-All add_vote (λ c. f.exp c.1 ≢ none) (λ s s' x. add_vote-fits s s' x) cands _ b voted

  -- Scores that have been resolved do not overflow `exp`.
  pub resolve_disputes-fits :
      (all : AllScores F) (w : Dict Position Token) → resolve_disputes all ≡ ok w → FitIn all
  unfolding resolve_disputes total_scores FitIn
  resolve_disputes-fits all w run =
      let (totals, summed, _) = >>=-eq-ok (total_scores all) (λ t. for_each pick_winner [] t) run in
      for_each-All (λ t n. for_each add_votes t n.1) (λ n. All (λ row. FitsIn row.1) n.1)
        (λ s s' n one. for_each-All add_votes (λ row. FitsIn row.1) add_votes-fits (n.1) s s' one)
        all [] totals summed

module _ {F : Type 0} ⦃f : Float F⦄ (show : Token → String) (decode : List Token → String)
    (a : ReportArgs F) where
  part_total :
      (w : Option Token) (id : String) (c : Token × F)
      → f.exp c.1 ≢ none
      → (y : Part F) × (part show decode w id c ≡ ok y) × Unit {0}
  unfolding part
  part_total w id (t, x) fits = elim (Option-cases (f.exp x)) [
    | inl miss ↦ absurd (fits miss)
    | inr (e, hit) ↦ (
      record {
        node_id = id;
        decoded = show t;
        prob = e;
        starred = elim w [ none ↦ false | some v ↦ t == v ];
      },
      rw (hit, exp_or_raise) refl,
      tt,
    )
  ]

  node_parts_total :
      (pos : Position) (w : Option Token) (n : String × Scores F)
      → All (λ row. FitsIn row.1) n.1
      → (y : List (Part F)) × (node_parts show decode pos w n ≡ ok y) × Unit {0}
  unfolding node_parts sorted_items
  node_parts_total pos w (id, scores) fits =
      let (ys, run, _, _) =
        each_total (part show decode w id) (λ c. f.exp c.1 ≢ none) (λ c y. Unit) (part_total w id)
          (sorted_items (get_or (lookup pos scores) []))
          (items_at-All (λ c. f.exp c.1 ≢ none) (get_or (lookup pos scores) [])
            (sorted (keys (get_or (lookup pos scores) []))) (row_fits (lookup pos scores) refl)) in
      (ys, run, tt)
    where
      row_fits : (o : Option (Dict Token F)) → lookup pos scores ≡ o → FitsIn (get_or o [])
      row_fits none e = tt
      row_fits (some row) e = lookup-All (λ r. FitsIn r.1) pos row scores fits e

  pub dispute_line_total :
      FitIn a.all_scores
      → (pos : Position) → lookup pos a.resolved ≢ none
      → (l : DisputeLine F) × (dispute_line show decode a pos ≡ ok l)
        × ((l.winner ≢ none) × (l.pos ≡ pos))
  unfolding dispute_line sorted_items FitIn
  dispute_line_total fits pos won = elim (Option-cases (lookup pos a.resolved)) [
    | inl miss ↦ absurd (won miss)
    | inr (w, hit) ↦
        let (ys, run, _, _) =
          each_total (node_parts show decode pos (some w)) (λ n. All (λ row. FitsIn row.1) n.1)
            (λ n y. Unit) (node_parts_total pos (some w)) (sorted_items a.all_scores)
            (items_at-All (λ n. All (λ row. FitsIn row.1) n.1) a.all_scores
              (sorted (keys a.all_scores)) fits) in
        (
          record { pos = pos; parts = concat ys; winner = some (show w) },
          rw (hit, run) refl,
          (λ none_. cc, refl),
        )
  ]
