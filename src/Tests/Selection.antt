-- ===== src/Tests/Selection.antt =====
-- A `topk` that can be run, by repeated choice of the greatest, and torch over whole ticks.
use ded_swarm.Base.{
  ℕ, zero, suc, ◌+◌, ◌-◌, ◌*◌, ◌/◌, ◌%◌, ◌≤◌, ◌<◌, ◌≡◌, refl, true, false, List, [], ◌∷◌, ◌==◌,
  contains, nat_eq, length, ltb, none, some, if◌then◌else◌, arith, IsSetList, inl, inr, Bool-cases,
}
use ded_swarm.Base.Ranges.{upto, range, get_elem?, length-upto, contains-upto}
use ded_swarm.Base.Pigeonhole.{without, contains-without}
use ded_swarm.Float.{Ticks, ticks_float}
use ded_swarm.Torch.{Row, Torch, IsTorch}

abbrev best : (ℕ → ℕ) → ℕ → List ℕ → ℕ
best v c [] = c
best v c (d ∷ ds) = best v (if ltb (v c) (v d) then d else c) ds

abbrev pick : (ℕ → ℕ) → ℕ → List ℕ → List ℕ
pick v zero cs = []
pick v (suc k) [] = []
pick v (suc k) (c ∷ cs) = let b = best v c cs in b ∷ pick v k (without b (c ∷ cs))

abbrev value_at : List ℕ → ℕ → ℕ
value_at values i = elim (get_elem? values i) [ none ↦ 0 | some v ↦ v ]

unfoldable pub topk : List ℕ → ℕ → List ℕ
topk values k = pick (value_at values) k (range (length values))

best-contains : (v : ℕ → ℕ) (c : ℕ) (cs : List ℕ) → contains (c ∷ cs) (best v c cs) ≡ true
best-contains v c [] = ground arith
best-contains v c (d ∷ ds) = ground (arith, best-contains v (if ltb (v c) (v d) then d else c) ds)

best-ge : (v : ℕ → ℕ) (c : ℕ) (cs : List ℕ) → v c ≤ v (best v c cs)
best-ge v c [] = omega arith
best-ge v c (d ∷ ds) = ground (arith, best-ge v (if ltb (v c) (v d) then d else c) ds)

best-largest :
    (v : ℕ → ℕ) (c : ℕ) (cs : List ℕ) (j : ℕ) → contains (c ∷ cs) j ≡ true → v j ≤ v (best v c cs)
best-largest v c [] j h = ground arith
best-largest v c (d ∷ ds) j h = elim (Bool-cases (ltb (v c) (v d))) [
  | inl e ↦ ground (arith, best-largest v d ds j, best-ge v d ds)
  | inr e ↦ ground (arith, best-largest v c ds j, best-ge v c ds)
]

length-without_set :
    (i : ℕ) (cs : List ℕ)
    → IsSetList cs
    → (contains cs i ≡ true → length (without i cs) + 1 ≡ length cs)
      × (contains cs i ≡ false → without i cs ≡ cs)
length-without_set i [] s = (λ h. cc, λ h. refl)
length-without_set i (c ∷ cs) (fresh, s) = ground (arith, length-without_set i cs s)

without-IsSetList : (i : ℕ) (cs : List ℕ) → IsSetList cs → IsSetList (without i cs)
without-IsSetList i [] s = tt
without-IsSetList i (c ∷ cs) (fresh, s) =
    ground (arith, without-IsSetList i cs s, contains-without i c cs)

contains-pick :
    (v : ℕ → ℕ) (k : ℕ) (cs : List ℕ) (j : ℕ)
    → contains (pick v k cs) j ≡ true
    → contains cs j ≡ true
contains-pick v zero cs j h = cc
contains-pick v (suc k) [] j h = cc
contains-pick v (suc k) (c ∷ cs) j h =
    let b = best v c cs in
    ground (
      arith,
      best-contains v c cs,
      contains-pick v k (without b (c ∷ cs)) j,
      contains-without b j (c ∷ cs),
    )

length-pick :
    (v : ℕ → ℕ) (k : ℕ) (cs : List ℕ) → IsSetList cs → k ≤ length cs → length (pick v k cs) ≡ k
length-pick v zero cs s h = refl
length-pick v (suc k) [] s h = absurd (omega arith)
length-pick v (suc k) (c ∷ cs) s h =
    let b = best v c cs in
    let shorter = (length-without_set b (c ∷ cs) s).0 (best-contains v c cs) in
    omega (
      arith,
      length-pick v k (without b (c ∷ cs)) (without-IsSetList b (c ∷ cs) s)
          (omega (arith, shorter)),
    )

pick-IsSetList : (v : ℕ → ℕ) (k : ℕ) (cs : List ℕ) → IsSetList cs → IsSetList (pick v k cs)
pick-IsSetList v zero cs s = tt
pick-IsSetList v (suc k) [] s = tt
pick-IsSetList v (suc k) (c ∷ cs) s =
    let b = best v c cs in
    (
      ground (arith, contains-pick v k (without b (c ∷ cs)) b, contains-without b b (c ∷ cs)),
      pick-IsSetList v k (without b (c ∷ cs)) (without-IsSetList b (c ∷ cs) s),
    )

pick-largest :
    (v : ℕ → ℕ) (k : ℕ) (cs : List ℕ) (i j : ℕ)
    → contains (pick v k cs) i ≡ true
    → contains cs j ≡ true
    → contains (pick v k cs) j ≡ false
    → v j ≤ v i
pick-largest v zero cs i j h there out = cc
pick-largest v (suc k) [] i j h there out = cc
pick-largest v (suc k) (c ∷ cs) i j h there out =
    let b = best v c cs in
    elim (Bool-cases (i == b)) [
      | inl e ↦ let same : i ≡ b = ground arith in rw same (best-largest v c cs j there)
      | inr e ↦
          pick-largest v k (without b (c ∷ cs)) i j (ground arith)
            (ground (arith, contains-without b j (c ∷ cs))) (ground arith)
    ]

upto-IsSetList : (n i : ℕ) → IsSetList (upto n i)
upto-IsSetList zero i = tt
upto-IsSetList (suc n) i = (ground (arith, contains-upto n (i + 1) i), upto-IsSetList n (i + 1))

get-lt : (xs : List ℕ) (i x : ℕ) → get_elem? xs i ≡ some x → i < length xs
get-lt [] i x h = cc
get-lt (y ∷ xs) zero x h = omega arith
get-lt (y ∷ xs) (suc i) x h = omega (arith, get-lt xs i x h)

-- Softmax is a shift of the logit modulo 50, so that a penalty of 100 leaves a number above the 0 that stands for -inf; the
-- guess is a parameter.
abbrev pub ticks_torch : (Row ℕ → ℕ) → Torch Ticks
ticks_torch argmax = record {
  vocab_size = 1000;
  neg_inf = 0;
  tiny = 1;
  neg = λ x. 1000 - x;
  mul = λ x y. x * y / 10;
  div = λ x y. x;
  pow = λ x y. x;
  log = λ x. x % 1000;
  exp = λ x. x;
  trunc = λ x. x;
  round = λ x. x;
  softmax = λ l v. 101 + l v % 50;
  argmax = argmax;
  max_over = λ l. l 0;
  topk = topk;
}

pub ticks_torch-IsTorch : (argmax : Row ℕ → ℕ) → IsTorch Ticks (ticks_torch argmax)
unfolding topk
ticks_torch-IsTorch argmax = record {
  topk_count = λ values k h.
      length-pick (value_at values) k (range (length values)) (upto-IsSetList (length values) 0)
        (omega (arith, length-upto (length values) 0));
  topk_distinct = λ values k h.
      pick-IsSetList (value_at values) k (range (length values)) (upto-IsSetList (length values) 0);
  topk_in_range = λ values k i h there. ground (
    arith,
    contains-pick (value_at values) k (range (length values)) i there,
    contains-upto (length values) 0 i,
  );
  topk_largest = λ values k i j u v h there out at_i at_j. ground (
    arith,
    pick-largest (value_at values) k (range (length values)) i j there
        (ground (arith, contains-upto (length values) 0 j, get-lt values j v at_j)) out,
  );
  softmax_close = λ l other v w. ground arith;
  softmax_finite = λ l v. ground arith;
  softmax_penalty = λ l v. ground arith;
  neg_inf_penalty = refl;
}
