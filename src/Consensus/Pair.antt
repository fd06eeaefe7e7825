-- ===== src/Consensus/Pair.antt =====
-- `resolve_disputes` on floats that round: IEEE sums commute, and do not associate.
use mathlib.Core.List.{Permᴰ, append-nil}
use ded_swarm.Base.{
  ℕ, ℕ_discrete, ◌+◌, ◌-◌, ◌/◌, ◌*◌, ◌≤◌, ◌≡◌, inl, inr, refl, ◌&&◌, List, [], ◌∷◌, ◌++◌, ◌==◌,
  nat_eq, length, ltb, leb, foldl, none, some, if◌then◌else◌, All, arith, Bool-cases, ok,
}
use ded_swarm.Base.Dict.{Dict, lookup, insert, NodupKeys, SameLookups}
use ded_swarm.Float.{Float, IsOrdered, IsIeee}
use ded_swarm.Consensus.{
  Position, Token, NodeId, Scores, AllScores, resolve_disputes, total_scores, add_votes, add_vote,
  pick_winner, best_token, max_item, outranks,
}
use ded_swarm.Consensus.Votes.{score, credit, weight, voices, voices_of, voices_in, AreReports}
use ded_swarm.Consensus.Resolve.{resolve_disputes_congr}

module _ {F : Type 0} where
  -- A report as a dict of dicts: no position twice, and no candidate twice at a position.
  abbrev pub IsDictReport : Scores F → Type 0
  IsDictReport report = NodupKeys report × All (λ e. NodupKeys e.1) report

  voices_in-none :
      (cands : Dict Token F) (t : Token) → lookup t cands ≡ none → voices_in cands t ≡ []
  unfolding voices_in lookup
  voices_in-none [] t h = refl
  voices_in-none ((u, x) ∷ cands) t h = ground (arith, voices_in-none cands t)

  length-voices_in-le :
      (cands : Dict Token F) (t : Token) → NodupKeys cands → length (voices_in cands t) ≤ 1
  unfolding voices_in
  length-voices_in-le [] t u = omega arith
  length-voices_in-le ((v, x) ∷ cands) t (fresh, u) =
      ground (arith, length-voices_in-le cands t u, voices_in-none cands t)

  voices_of-none :
      (report : Scores F) (pos : Position) (t : Token)
      → lookup pos report ≡ none
      → voices_of report pos t ≡ []
  unfolding voices_of lookup
  voices_of-none [] pos t h = refl
  voices_of-none ((p, cands) ∷ report) pos t h = ground (arith, voices_of-none report pos t)

  -- A participant has at most one voice for a candidate.
  length-voices_of-le :
      (report : Scores F) (pos : Position) (t : Token)
      → NodupKeys report
      → All (λ e. NodupKeys e.1) report
      → length (voices_of report pos t) ≤ 1
  unfolding voices_of
  length-voices_of-le [] pos t u a = omega arith
  length-voices_of-le ((p, cands) ∷ report) pos t (fresh, u) (nd, a) =
      elim (Bool-cases (pos == p)) [
        | inl e ↦
            let same : pos ≡ p = ground arith in
            rw (e, same, voices_of-none report p t fresh, append-nil)
              (length-voices_in-le cands t nd)
        | inr e ↦ rw e (length-voices_of-le report pos t u a)
      ]

module _ {F : Type 0} ⦃f : Float F⦄ where
  foldl-credit_pair :
      (ieee : IsIeee F) (u v : List F)
      → length u ≤ 1
      → length v ≤ 1
      → foldl credit none (u ++ (v ++ [])) ≡ foldl credit none (v ++ (u ++ []))
  foldl-credit_pair ieee [] [] h k = refl
  foldl-credit_pair ieee [] (y ∷ []) h k = refl
  foldl-credit_pair ieee (x ∷ []) [] h k = refl
  foldl-credit_pair ieee (x ∷ []) (y ∷ []) h k =
      let p = weight x in
      let q = weight y in cc (ieee.zero_add p, ieee.zero_add q, ieee.add_comm p q)
  foldl-credit_pair ieee (x ∷ x' ∷ u) v h k = absurd (omega arith)
  foldl-credit_pair ieee u (y ∷ y' ∷ v) h k = absurd (omega arith)

  -- Two participants that hold each other's report, each with its own first, name the same
  -- winners, rounding included.
  pub resolve_disputes_pair :
      (laws : IsOrdered F) (ieee : IsIeee F) (a b : NodeId) (x y : Scores F)
      → IsDictReport x
      → IsDictReport y
      → AreReports ((a, x) ∷ (b, y) ∷ [])
      → (w v : Dict Position Token) × (resolve_disputes ((a, x) ∷ (b, y) ∷ []) ≡ ok w)
        × (resolve_disputes ((b, y) ∷ (a, x) ∷ []) ≡ ok v)
        × SameLookups w v
  unfolding score voices
  resolve_disputes_pair laws ieee a b x y (ux, ax) (uy, ay) (h, (k, _)) =
      resolve_disputes_congr laws ((a, x) ∷ (b, y) ∷ []) ((b, y) ∷ (a, x) ∷ []) (h, (k, tt))
        (k, (h, tt))
        λ pos t.
          foldl-credit_pair ieee (voices_of x pos t) (voices_of y pos t)
            (length-voices_of-le x pos t ux ax) (length-voices_of-le y pos t uy ay)

-- A float of two digits: sums of two terms that are not 0 are rounded down to an even number. It
-- meets the laws of the order and of IEEE sums.
abbrev rounded_add : ℕ → ℕ → ℕ
rounded_add x y = if x == 0 then y else if y == 0 then x else 2 * ((x + y) / 2)

abbrev rounded : Float ℕ
rounded = record {
  zero = 0;
  of_nat = λ n. n;
  add = rounded_add;
  sub = λ x y. x - y;
  exp = λ x. some x;
  le = leb;
  lt = ltb;
  eq = λ x y. leb x y && leb y x;
}

rounded-IsOrdered : IsOrdered ℕ ⦃f = rounded⦄
rounded-IsOrdered = ground arith

rounded-IsIeee : IsIeee ℕ ⦃f = rounded⦄
rounded-IsIeee = ground arith

-- At position 0 the nodes give token 7 the probabilities 1, 1 and 2, and node a gives token 8 a 3.
abbrev at_7 : ℕ → Scores ℕ
at_7 p = (0, (7, p) ∷ []) ∷ []

abbrev seen_by_a : AllScores ℕ
seen_by_a = ("a", (0, (7, 1) ∷ (8, 3) ∷ []) ∷ []) ∷ ("b", at_7 1) ∷ ("c", at_7 2) ∷ []

abbrev seen_by_c : AllScores ℕ
seen_by_c = ("c", at_7 2) ∷ ("a", (0, (7, 1) ∷ (8, 3) ∷ []) ∷ []) ∷ ("b", at_7 1) ∷ []

seen_perm : Permᴰ seen_by_a seen_by_c
seen_perm = Permᴰ.trans (Permᴰ.cons refl (Permᴰ.swap refl refl)) (Permᴰ.swap refl refl)

runs_differ :
    (resolve_disputes ⦃f = rounded⦄ seen_by_a ≡ ok ((0, 7) ∷ []))
    × (resolve_disputes ⦃f = rounded⦄ seen_by_c ≡ ok ((0, 8) ∷ []))
unfolding resolve_disputes total_scores add_votes add_vote pick_winner best_token max_item outranks
    insert lookup ℕ_discrete
runs_differ = (refl, refl)

-- With three participants it is not so that, whatever floats with the order and the IEEE laws of
-- sums the code runs on, two orders of the same reports give the same winners.
pub not-resolve_disputes_perm : ¬ (
    (F : Type 0) (f : Float F)
    → IsOrdered F ⦃f = f⦄
    → IsIeee F ⦃f = f⦄
    → (c d : AllScores F) → Permᴰ c d
    → AreReports ⦃f = f⦄ c
    → (w v : Dict Position Token) → resolve_disputes ⦃f = f⦄ c ≡ ok w
    → resolve_disputes ⦃f = f⦄ d ≡ ok v
    → SameLookups w v)
unfolding lookup ℕ_discrete
not-resolve_disputes_perm all = cc (
    all ℕ rounded rounded-IsOrdered rounded-IsIeee seen_by_a seen_by_c seen_perm (ground arith)
      ((0, 7) ∷ []) ((0, 8) ∷ []) runs_differ.0 runs_differ.1 0)
