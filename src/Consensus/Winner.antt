-- ===== src/Consensus/Winner.antt =====
-- The second loop of `resolve_disputes`: `max` with a tuple as its key.
use ded_swarm.Base.{
  sym, subst, ◌≤◌, ◌≡◌, ◌≢◌, inl, inr, refl, Bool, true, false, [], ◌∷◌, ◌==◌, nat_eq, Option, none,
  some, if◌then◌else◌, All, arith, Bool-cases, ok, for_each,
}
use ded_swarm.Base.Dict.{Dict, lookup, insert, NodupKeys, lookup-insert}
use ded_swarm.Float.{Float, IsOrdered}
use ded_swarm.Consensus.{Position, Token, AllScores, outranks, max_item, best_token, pick_winner}
use ded_swarm.Consensus.Votes.{score}

module _ {F : Type 0} ⦃f : Float F⦄ where
  -- The first candidate scores at least as much as the second, and in a tie it has the lower id.
  abbrev pub AtLeast : Token × F → Token × F → Type 0
  AtLeast (t, s) (u, r) = (f.le r s ≡ true) × (f.le s r ≡ true → t ≤ u)

  -- No score, or a score that does not beat the winner's.
  abbrev pub Outdone : Token → F → Token → Option F → Type 0
  Outdone t s u none = Unit
  Outdone t s u (some r) = AtLeast (t, s) (u, r)

  -- The winner of a position: it has a score, and no candidate beats it. No winner: no scores.
  abbrev pub IsWinner : AllScores F → Position → Option Token → Type 0
  IsWinner scores pos none = (t : Token) → score scores pos t ≡ none
  IsWinner scores pos (some t) =
      (s : F) × (score scores pos t ≡ some s) × ((u : Token) → Outdone t s u (score scores pos u))

  module _ (laws : IsOrdered F) where
    open laws use {le_refl, le_trans, le_total, lt-eq-not-le, eq-eq-le-le}

    AtLeast-refl : (x : Token × F) → AtLeast x x
    AtLeast-refl (t, s) = ground (arith, le_refl s)

    AtLeast-trans : (x y z : Token × F) → AtLeast x y → AtLeast y z → AtLeast x z
    AtLeast-trans (t, s) (u, r) (v, q) (h, i) (k, l) =
        (le_trans q r s k h, λ e. ground (arith, le_trans s q r e k, le_trans r s q h e))

    AtLeast-outranks : (x y : Token × F) → outranks x y ≡ true → AtLeast x y
    unfolding outranks
    AtLeast-outranks (t, s) (u, r) h =
        ground (arith, eq-eq-le-le s r, lt-eq-not-le r s, le_total s r)

    AtLeast-not-outranks : (x y : Token × F) → outranks x y ≡ false → AtLeast y x
    unfolding outranks
    AtLeast-not-outranks (t, s) (u, r) h =
        ground (arith, eq-eq-le-le s r, lt-eq-not-le r s, le_total s r)

    All-AtLeast :
        (x y : Token × F) (xs : Dict Token F)
        → AtLeast x y
        → All (AtLeast y) xs
        → All (AtLeast x) xs
    All-AtLeast x y [] h a = tt
    All-AtLeast x y (z ∷ zs) h (a, as') = (AtLeast-trans x y z h a, All-AtLeast x y zs h as')

    -- `max` returns an item that no item beats.
    max_item-AtLeast :
        (best : Token × F) (xs : Dict Token F)
        → AtLeast (max_item best xs) best × All (AtLeast (max_item best xs)) xs
    unfolding max_item
    max_item-AtLeast best [] = (AtLeast-refl best, tt)
    max_item-AtLeast best (x ∷ xs) = elim (Bool-cases (outranks x best)) [
      | inl e ↦
          let (top, rest) = max_item-AtLeast x xs in
          by_item e
            (AtLeast-trans (max_item x xs) x best top (AtLeast-outranks x best e), (top, rest))
      | inr e ↦
          let (top, rest) = max_item-AtLeast best xs in
          by_item e (
            top,
            (AtLeast-trans (max_item best xs) best x top (AtLeast-not-outranks x best e), rest),
          )
    ]
      where
        by_item :
            {b : Bool}
            → outranks x best ≡ b
            → (AtLeast (max_item (if b then x else best) xs) best
                × All (AtLeast (max_item (if b then x else best) xs)) (x ∷ xs))
            → AtLeast (max_item best (x ∷ xs)) best
              × All (AtLeast (max_item best (x ∷ xs))) (x ∷ xs)
        by_item e h =
            subst
              (λ c.
                AtLeast (max_item (if c then x else best) xs) best
                × All (AtLeast (max_item (if c then x else best) xs)) (x ∷ xs))
              (sym e) h

    lookup-AtLeast :
        (x : Token × F) (xs : Dict Token F) (u : Token)
        → All (AtLeast x) xs
        → Outdone x.0 x.1 u (lookup u xs)
    unfolding lookup
    lookup-AtLeast x [] u h = tt
    lookup-AtLeast x ((v, r) ∷ xs) u (h, hs) = elim (Bool-cases (u == v)) [
      | inl e ↦ rw e (let same : u ≡ v = ground arith in rw same h)
      | inr e ↦ rw e (lookup-AtLeast x xs u hs)
    ]

  lookup-max_item :
      (best : Token × F) (xs : Dict Token F)
      → NodupKeys (best ∷ xs)
      → lookup (max_item best xs).0 (best ∷ xs) ≡ some (max_item best xs).1
  unfolding max_item lookup
  lookup-max_item best [] u = ground arith
  lookup-max_item best (x ∷ xs) (fresh, (fresh', u)) = elim (Bool-cases (outranks x best)) [
    | inl e ↦ ground (arith, lookup-max_item x xs (fresh', u))
    | inr e ↦ ground (arith, lookup-max_item best xs (ground arith, u))
  ]

  -- The winner of a bucket: one of its candidates, and no other beats it.
  abbrev pub IsBest : Dict Token F → Token → Type 0
  IsBest bucket t =
      (s : F) × (lookup t bucket ≡ some s) × ((u : Token) → Outdone t s u (lookup u bucket))

  -- What the last loop leaves at a position.
  abbrev pub Picked : Option (Dict Token F) → Option Token → Option Token → Type 0
  Picked none old new = new ≡ old
  Picked (some bucket) old new = (t : Token) × (new ≡ some t) × IsBest bucket t

  module _ (laws : IsOrdered F) where
    best_token-IsBest :
        (bucket : Dict Token F)
        → bucket ≢ []
        → NodupKeys bucket
        → (t : Token) × (best_token bucket ≡ ok t) × IsBest bucket t
    unfolding best_token
    best_token-IsBest [] ne u = absurd (ne refl)
    best_token-IsBest (x ∷ xs) ne u =
        let top = max_item x xs in
        (
          top.0,
          refl,
          (
            top.1,
            lookup-max_item x xs u,
            λ v. lookup-AtLeast laws top (x ∷ xs) v (max_item-AtLeast laws x xs),
          ),
        )

    pub pick-All :
        (totals : Dict Position (Dict Token F)) (winners : Dict Position Token)
        → NodupKeys totals
        → All (λ e. (e.1 ≢ []) × NodupKeys e.1) totals
        → (w : Dict Position Token) × (for_each pick_winner winners totals ≡ ok w)
          × ((pos : Position) → Picked (lookup pos totals) (lookup pos winners) (lookup pos w))
    unfolding pick_winner lookup
    pick-All [] winners u h = (winners, refl, λ pos. refl)
    pick-All ((p, bucket) ∷ totals) winners (fresh, u) ((ne, nd), h) =
        let (t, found, best) = best_token-IsBest bucket ne nd in
        let (w, run, picked) = pick-All totals (insert p t winners) u h in
        (w, rw found run, λ pos. at t best (lookup pos w) pos (picked pos))
      where
        at :
            (t : Token)
            → IsBest bucket t
            → (new : Option Token) (pos : Position)
            → Picked (lookup pos totals) (lookup pos (insert p t winners)) new
            → Picked (if pos == p then some bucket else lookup pos totals) (lookup pos winners) new
        at t best new pos h = elim (Bool-cases (pos == p)) [
          | inl e ↦
              let same : pos ≡ p = ground arith in
              rw e (t, ground (arith, lookup-insert pos p t winners), best)
          | inr e ↦ rw e (rw (lookup-insert, e) at h)
        ]
