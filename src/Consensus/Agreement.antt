-- ===== src/Consensus/Agreement.antt =====
-- Participants meet the same reports in different orders: each counts its own first, and then the
-- others' as they arrive. When do they still name the same winners?
use mathlib.Core.List.{Permᴰ}
use ded_swarm.Base.{
  ap, sym, ◌∙◌, ◌≡◌, refl, List, [], ◌∷◌, ◌++◌, nat_eq, foldl, Option, none, All, ok,
}
use ded_swarm.Base.Dict.{Dict, get_or, SameLookups}
use ded_swarm.Float.{Float, IsOrdered, IsExact}
use ded_swarm.Consensus.{Position, Token, NodeId, Scores, AllScores, resolve_disputes}
use ded_swarm.Consensus.Votes.{score, credit, weight, voices, voices_of, AreReports, foldl-append}
use ded_swarm.Consensus.Resolve.{resolve_disputes_congr}

module _ {F : Type 0} ⦃f : Float F⦄ where
  -- Neither order of two voices matters where sums are exact.
  credit_comm :
      (exact : IsExact F) (acc : Option F) (x y : F)
      → credit (credit acc x) y ≡ credit (credit acc y) x
  credit_comm exact acc x y =
      let a = get_or acc f.zero in
      let p = weight x in
      let q = weight y in cc (exact.add_assoc a p q, exact.add_assoc a q p, exact.add_comm p q)

  foldl-credit-cons :
      (exact : IsExact F) (acc : Option F) (x : F) (ys : List F)
      → foldl credit (credit acc x) ys ≡ credit (foldl credit acc ys) x
  foldl-credit-cons exact acc x [] = refl
  foldl-credit-cons exact acc x (y ∷ ys) =
      ap (λ a. foldl credit a ys) (credit_comm exact acc x y)
      ∙ foldl-credit-cons exact (credit acc y) x ys

  foldl-credit_swap :
      (exact : IsExact F) (acc : Option F) (xs ys : List F)
      → foldl credit (foldl credit acc xs) ys ≡ foldl credit (foldl credit acc ys) xs
  foldl-credit_swap exact acc [] ys = refl
  foldl-credit_swap exact acc (x ∷ xs) ys =
      foldl-credit_swap exact (credit acc x) xs ys
      ∙ ap (λ a. foldl credit a xs) (foldl-credit-cons exact acc x ys)

  voices_perm :
      (exact : IsExact F) {c d : AllScores F}
      → Permᴰ c d
      → (acc : Option F) (pos : Position) (t : Token)
      → foldl credit acc (voices c pos t) ≡ foldl credit acc (voices d pos t)
  unfolding voices
  voices_perm exact Permᴰ.nil acc pos t = refl
  voices_perm exact (Permᴰ.cons {a = a} {b = b} {l₁ = c} {l₂ = d} e h) acc pos t =
      foldl-append acc (voices_of a.1 pos t) (voices c pos t)
      ∙ ap (λ x. foldl credit (foldl credit acc (voices_of (x.1) pos t)) (voices c pos t)) e
      ∙ voices_perm exact h (foldl credit acc (voices_of b.1 pos t)) pos t
      ∙ sym (foldl-append acc (voices_of b.1 pos t) (voices d pos t))
  voices_perm exact (Permᴰ.swap {a = a} {b = b} {a' = a'} {b' = b'} {l = l} e e') acc pos t =
      let u = voices_of b'.1 pos t in
      let v = voices_of a'.1 pos t in
      let rest = voices l pos t in
      rw
        (
          e,
          e',
          foldl-append acc u (v ++ rest),
          foldl-append (foldl credit acc u) v rest,
          foldl-append acc v (u ++ rest),
          foldl-append (foldl credit acc v) u rest,
        )
        (ap (λ x. foldl credit x rest) (foldl-credit_swap exact acc u v))
  voices_perm exact (Permᴰ.trans h k) acc pos t =
      voices_perm exact h acc pos t ∙ voices_perm exact k acc pos t

  All-perm : (P : NodeId × Scores F → Type 0) {c d : AllScores F} → Permᴰ c d → All P c → All P d
  All-perm P Permᴰ.nil h = tt
  All-perm P (Permᴰ.cons e k) (h, hs) = (rw (sym e) h, All-perm P k hs)
  All-perm P (Permᴰ.swap e e') (h, (i, hs)) = (rw (sym e') i, (rw (sym e) h, hs))
  All-perm P (Permᴰ.trans k l) h = All-perm P l (All-perm P k h)

  -- Where sums are exact, any number of participants that hold the same reports, each in an order
  -- of its own, name the same winners.
  pub resolve_disputes_exact :
      (laws : IsOrdered F) (exact : IsExact F) (c d : AllScores F)
      → Permᴰ c d
      → AreReports c
      → (w v : Dict Position Token) × (resolve_disputes c ≡ ok w)
        × (resolve_disputes d ≡ ok v)
        × SameLookups w v
  unfolding score
  resolve_disputes_exact laws exact c d p h =
      resolve_disputes_congr laws c d h (All-perm _ p h) (voices_perm exact p none)
