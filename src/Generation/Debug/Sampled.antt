-- ===== src/Generation/Debug/Sampled.antt =====
-- Which positions the debug printing of node/generation.py shows, and with which margin.
use ded_swarm.Base.{
  ℕ, zero, suc, ◌+◌, ◌≤◌, ◌<◌, ◌≡◌, ◌≢◌, ◌↔◌, refl, ap, inl, inr, Bool-cases, ◌%◌, true, false, sym,
  ◌∙◌, ok, ◌&&◌, List, [], ◌∷◌, nat_eq, map, length, contains, All, leb, ltb, Option, none, some,
  arith, String, ◌==◌,
}
use ded_swarm.Base.Ranges.{upto, filter}
use ded_swarm.Float.{Float}
use ded_swarm.Torch.{Row, Torch}
use ded_swarm.LocalStep.{StepConfig, StepArgs, Stepped, local_step, eos_margin, is_masked, p}
use ded_swarm.LocalStep
use ded_swarm.Consensus.{Token, TokenSet}
use ded_swarm.Generation.Loop.{RoundArgs, Run, step_args}
use ded_swarm.Generation.Debug.{
  step_print, debug_args, debug_every, DebugArgs, TopLine, DistributionLine, Printed, take,
  masked_pos, clamp_min, best_non_eos, top_line, distribution_line, debug_topk, debug_distribution,
}

take-take : {A : Type 0} (m n : ℕ) (xs : List A) → m ≤ n → take m (take n xs) ≡ take m xs
take-take zero n xs h = refl
take-take (suc m) zero xs h = absurd (omega arith)
take-take (suc m) (suc n) [] h = refl
take-take (suc m) (suc n) (x ∷ xs) h = ap (λ r. x ∷ r) (take-take m n xs (omega arith))

take-map : {A B : Type 0} (g : A → B) (n : ℕ) (xs : List A) → take n (map g xs) ≡ map g (take n xs)
take-map g zero xs = refl
take-map g (suc n) [] = refl
take-map g (suc n) (x ∷ xs) = ap (λ r. g x ∷ r) (take-map g n xs)

length-take : {A : Type 0} (n : ℕ) (xs : List A) → length (take n xs) ≤ n
length-take zero xs = omega arith
length-take (suc n) [] = omega arith
length-take (suc n) (x ∷ xs) = omega (arith, length-take n xs)

All-take : {A : Type 0} (P : A → Type 0) (n : ℕ) (xs : List A) → All P xs → All P (take n xs)
All-take P zero xs h = tt
All-take P (suc n) [] h = tt
All-take P (suc n) (x ∷ xs) (p, h) = (p, All-take P n xs h)

All-of_map :
    {A B : Type 0} (P : B → Type 0) (g : A → B) (xs : List A)
    → ((x : A) → P (g x))
    → All P (map g xs)
All-of_map P g [] h = tt
All-of_map P g (x ∷ xs) h = (h x, All-of_map P g xs h)

module _ {F : Type 0} (a : DebugArgs F) where
  -- A position that was masked, in the block and on the row.
  abbrev pub IsShown : ℕ → Type 0
  IsShown pos =
      (a.mask_index pos ≡ true) × (a.block_start ≤ pos) × (pos < a.block_end) × (pos < a.seq_len)

  masked-IsShown :
      (n i : ℕ)
      → i + n ≤ a.seq_len
      → All IsShown (
          filter
            (λ pos. leb a.block_start pos && ltb pos a.block_end)
            (filter a.mask_index (upto n i)))
  masked-IsShown zero i h = tt
  masked-IsShown (suc n) i h = ground (arith, masked-IsShown n (i + 1))

  masked_pos-IsShown : All IsShown (masked_pos a)
  unfolding masked_pos
  masked_pos-IsShown = masked-IsShown a.seq_len 0 (omega arith)

  contains-masked :
      (n i pos : ℕ)
      → contains
          (filter (λ q. leb a.block_start q && ltb q a.block_end) (filter a.mask_index (upto n i)))
          pos
        ≡ (a.mask_index pos
            && ((leb a.block_start pos && ltb pos a.block_end) && (leb i pos && ltb pos (i + n))))
  contains-masked zero i pos = ground arith
  contains-masked (suc n) i pos = ground (arith, contains-masked n (i + 1) pos)

  shown_somewhere : (pos : ℕ) → IsShown pos → masked_pos a ≢ []
  unfolding masked_pos
  shown_somewhere pos shown nothing =
      let there = contains-masked a.seq_len 0 pos in
      let none_ : contains (masked_pos a) pos ≡ false = rw nothing refl in ground arith

nothing_shown :
    {F : Type 0} (a : DebugArgs F) (xs : List ℕ)
    → All (IsShown a) xs
    → ((pos : ℕ) → ¬ IsShown a pos)
    → xs ≡ []
nothing_shown a [] h hidden = refl
nothing_shown a (x ∷ xs) (h, hs) hidden = absurd (hidden x h)

take-nil : (xs : List ℕ) → take 5 xs ≡ [] → xs ≡ []
take-nil [] e = refl
take-nil (x ∷ xs) e = cc

module _ {F : Type 0} where
  abbrev pub top_positions : Option (Printed (TopLine F)) → List ℕ
  top_positions none = []
  top_positions (some r) = map (λ l. l.pos) r.lines

  -- Every line that is printed has this margin.
  abbrev pub HaveMargin : Option (Printed (TopLine F)) → (ℕ → F) → Type 0
  HaveMargin none margin = Unit
  HaveMargin (some t) margin = All (λ l. l.margin ≡ margin l.pos) t.lines

  abbrev pub distribution_positions : Option (Printed (DistributionLine F)) → List ℕ
  distribution_positions none = []
  distribution_positions (some r) = map (λ l. l.pos) r.lines

module _ {F : Type 0} ⦃f : Float F⦄ (torch : Torch F) (decode : List ℕ → String) (width : ℕ)
    (a : DebugArgs F) (sum : Row F → F) where
  map-top_line : (xs : List ℕ) → map (λ l. l.pos) (map (top_line torch decode width a) xs) ≡ xs
  unfolding top_line
  map-top_line [] = refl
  map-top_line (x ∷ xs) = ap (λ r. x ∷ r) (map-top_line xs)

  map-distribution_line :
      (xs : List ℕ) → map (λ l. l.pos) (map (distribution_line torch decode width a sum) xs) ≡ xs
  unfolding distribution_line
  map-distribution_line [] = refl
  map-distribution_line (x ∷ xs) = ap (λ r. x ∷ r) (map-distribution_line xs)

  top_positions-debug_topk :
      (xs : List ℕ)
      → masked_pos a ≡ xs
      → top_positions (debug_topk torch decode width a) ≡ take 5 xs
  unfolding debug_topk
  top_positions-debug_topk [] e = rw e refl
  top_positions-debug_topk (x ∷ xs) e = rw e (map-top_line (take 5 (x ∷ xs)))

  distribution_positions-debug_distribution :
      (xs : List ℕ)
      → masked_pos a ≡ xs
      → distribution_positions (debug_distribution torch decode width a sum) ≡ take 10 xs
  unfolding debug_distribution
  distribution_positions-debug_distribution [] e = rw e refl
  distribution_positions-debug_distribution (x ∷ xs) e =
      rw e (map-distribution_line (take 10 (x ∷ xs)))

  -- What the two functions show: only positions of the block that were masked, at most five of them
  -- and at most ten, the five being the first of the ten; and nothing is shown exactly when no
  -- position of the block was masked.
  pub debug_positions :
      All (IsShown a) (distribution_positions (debug_distribution torch decode width a sum))
      × (length (top_positions (debug_topk torch decode width a)) ≤ 5)
      × (length (distribution_positions (debug_distribution torch decode width a sum)) ≤ 10)
      × (top_positions (debug_topk torch decode width a)
          ≡ take 5 (distribution_positions (debug_distribution torch decode width a sum)))
      × ((top_positions (debug_topk torch decode width a) ≡ []) ↔ ((pos : ℕ) → ¬ IsShown a pos))
  debug_positions =
      let xs = masked_pos a in
      let top = top_positions-debug_topk xs refl in
      let dist = distribution_positions-debug_distribution xs refl in
      (
        rw dist (All-take (IsShown a) 10 xs (masked_pos-IsShown a)),
        rw top (length-take 5 xs),
        rw dist (length-take 10 xs),
        top ∙ sym (ap (take 5) dist ∙ take-take 5 10 xs (omega arith)),
        (
          λ nothing pos shown. shown_somewhere a pos shown (take-nil xs (sym top ∙ nothing)),
          λ hidden. top ∙ ap (take 5) (nothing_shown a xs (masked_pos-IsShown a) hidden),
        ),
      )

module _ {F : Type 0} ⦃f : Float F⦄ (torch : Torch F) (decode : List ℕ → String) (width : ℕ)
    (iter : TokenSet → List Token) (sum : Row F → F) (a : RoundArgs F) (block_idx step_idx : ℕ)
    (r : Run F) (s : Stepped F) where
  HaveMargin-debug_topk :
      (d : DebugArgs F) (margin : ℕ → F)
      → ((pos : ℕ) → (top_line torch decode width d pos).margin ≡ margin pos)
      → (xs : List ℕ) → take 5 (masked_pos d) ≡ xs
      → HaveMargin (debug_topk torch decode width d) margin
  unfolding debug_topk top_line
  HaveMargin-debug_topk d margin h [] e = rw e tt
  HaveMargin-debug_topk d margin h (x ∷ xs) e =
      rw e (All-of_map (λ l. l.margin ≡ margin l.pos) (top_line torch decode width d) (x ∷ xs) h)

  margin-eq-eos_margin :
      local_step torch a.cfg.step_cfg (step_args torch iter a block_idx step_idx r) ≡ ok s
      → (pos : ℕ)
      → (top_line torch decode width (debug_args a block_idx step_idx r s) pos).margin
        ≡ eos_margin torch a.cfg.step_cfg (step_args torch iter a block_idx step_idx r) pos
  unfolding debug_args local_step top_line clamp_min best_non_eos eos_margin LocalStep.clamp_min
      LocalStep.p
  margin-eq-eos_margin run pos =
      let read : s.p ≡ p torch a.cfg.step_cfg (step_args torch iter a block_idx step_idx r) =
        ground arith in
      rw read refl

  -- The margin that is printed for a position is the one by which the step has decided whether to
  -- trust an end-of-sequence token there.
  pub step_print-eos_margin :
      local_step torch a.cfg.step_cfg (step_args torch iter a block_idx step_idx r) ≡ ok s
      → HaveMargin
          (step_print a block_idx step_idx torch decode width sum r s).top
          (eos_margin torch a.cfg.step_cfg (step_args torch iter a block_idx step_idx r))
  unfolding step_print
  step_print-eos_margin run = elim (Bool-cases (step_idx % debug_every == 0)) [
    | inr e ↦ rw e tt
    | inl e ↦ rw e (
        HaveMargin-debug_topk (debug_args a block_idx step_idx r s)
          (eos_margin torch a.cfg.step_cfg (step_args torch iter a block_idx step_idx r))
          (λ pos. margin-eq-eos_margin run pos)
          (take 5 (masked_pos (debug_args a block_idx step_idx r s))) refl)
  ]
