-- ===== src/Stop/Frontier.antt =====
-- The frontier, the run before it, and what a check observes.
use ded_swarm.Base.{
  ℕ_discrete, ℕ, zero, suc, ◌+◌, ◌-◌, ◌≤◌, ◌<◌, ◌≡◌, ◌≢◌, ◌⊎◌, inl, inr, refl, true, ◌&&◌, List, [],
  ◌∷◌, ◌==◌, nat_eq, option_eq, ltb, leb, Option, none, some, if◌then◌else◌, contains, arith,
  Bool-cases,
}
use ded_swarm.Base.Dict.{Dict, lookup}
use ded_swarm.Stop.{is_some, committed_from, committed_positions, max_of, walk_back}

-- The end of the committed part of [start, end): the position before it is committed, and from it
-- on none is.
pub record IsFrontier (shared_x : Dict ℕ ℕ) (start end_ frontier : ℕ) : Type 0 where
  pub after : start < frontier
  pub before : frontier ≤ end_
  pub committed : lookup (frontier - 1) shared_x ≢ none
  pub last : (p : ℕ) → frontier ≤ p → p < end_ → lookup p shared_x ≡ none

-- The run of EOS tokens that ends at the frontier, as long as it can be.
pub record IsRun (shared_x : Dict ℕ ℕ) (eos start frontier run_start : ℕ) : Type 0 where
  pub after : start ≤ run_start
  pub before : run_start ≤ frontier
  pub all_eos : (p : ℕ) → run_start ≤ p → p < frontier → lookup p shared_x ≡ some eos
  pub longest : (run_start ≡ start) ⊎ (lookup (run_start - 1) shared_x ≢ some eos)

contains-committed_from :
    (shared_x : Dict ℕ ℕ) (n i p : ℕ)
    → contains (committed_from shared_x n i) p
      ≡ (leb i p && (ltb p (i + n) && is_some (lookup p shared_x)))
unfolding committed_from
contains-committed_from shared_x zero i p = ground arith
contains-committed_from shared_x (suc n) i p =
    ground (arith, contains-committed_from shared_x n (i + 1) p)

le-max_of : (x : ℕ) (xs : List ℕ) → x ≤ max_of x xs
unfolding max_of
le-max_of x [] = omega arith
le-max_of x (y ∷ ys) = ground (arith, le-max_of (if ltb x y then y else x) ys)

le-max_of_mem : (x : ℕ) (xs : List ℕ) (z : ℕ) → contains xs z ≡ true → z ≤ max_of x xs
unfolding max_of
le-max_of_mem x [] z h = cc
le-max_of_mem x (y ∷ ys) z h =
    let m = if ltb x y then y else x in ground (arith, le-max_of m ys, le-max_of_mem m ys z)

contains-max_of : (x : ℕ) (xs : List ℕ) → contains (x ∷ xs) (max_of x xs) ≡ true
unfolding max_of
contains-max_of x [] = ground arith
contains-max_of x (y ∷ ys) = ground (arith, contains-max_of (if ltb x y then y else x) ys)

-- The frontier of `check`: none if nothing of the range is committed.
unfoldable pub frontier_of : List ℕ → Option ℕ
frontier_of [] = none
frontier_of (p ∷ ps) = some (max_of p ps + 1)

-- Whether the range has a committed position, and if so the end of its committed part.
abbrev pub FrontierOf : Dict ℕ ℕ → ℕ → ℕ → Option ℕ → Type 0
FrontierOf shared_x start end_ none = (p : ℕ) → start ≤ p → p < end_ → lookup p shared_x ≡ none
FrontierOf shared_x start end_ (some f) = IsFrontier shared_x start end_ f

pub frontier_of-FrontierOf :
    (shared_x : Dict ℕ ℕ) (start end_ : ℕ)
    → FrontierOf shared_x start end_ (frontier_of (committed_positions shared_x start end_))
unfolding committed_positions frontier_of
frontier_of-FrontierOf shared_x start end_ = go (committed_from shared_x (end_ - start) start) refl
  where
    inside :
        (cs : List ℕ)
        → committed_from shared_x (end_ - start) start ≡ cs
        → (p : ℕ) → contains cs p ≡ (leb start p && (ltb p end_ && is_some (lookup p shared_x)))
    inside cs e p = ground (arith, contains-committed_from shared_x (end_ - start) start p)

    go :
        (cs : List ℕ)
        → committed_from shared_x (end_ - start) start ≡ cs
        → FrontierOf shared_x start end_ (frontier_of cs)
    go [] e = λ p h k. ground (arith, inside [] e p)
    go (x ∷ xs) e =
        let m = max_of x xs in
        record {
          after = ground (arith, inside (x ∷ xs) e m, contains-max_of x xs);
          before = ground (arith, inside (x ∷ xs) e m, contains-max_of x xs);
          committed = ground (arith, inside (x ∷ xs) e m, contains-max_of x xs);
          last = λ p h k. ground (
            arith,
            inside (x ∷ xs) e p,
            inside (x ∷ xs) e m,
            contains-max_of x xs,
            le-max_of x xs,
            le-max_of_mem x xs p,
          );
        }

pub walk_back-IsRun :
    (shared_x : Dict ℕ ℕ) (eos start frontier : ℕ)
    → start ≤ frontier
    → IsRun shared_x eos start frontier (walk_back shared_x eos start frontier)
unfolding walk_back
walk_back-IsRun shared_x eos start zero h = record {
  after = h;
  before = omega arith;
  all_eos = λ p a b. absurd (omega arith);
  longest = inl (omega arith);
}
walk_back-IsRun shared_x eos start (suc r) h =
    elim (Bool-cases (ltb start (suc r) && (lookup r shared_x == some eos))) [
      | inl e ↦
          let ih = walk_back-IsRun shared_x eos start r (ground arith) in
          rw e (record {
            after = ih.after;
            before = omega (arith, ih.before);
            all_eos = λ p a b. elim (ℕ_discrete p r) [
              | yes q ↦ ground arith
              | no n ↦ ih.all_eos p a (omega arith)
            ];
            longest = ih.longest;
          })
      | inr e ↦ rw e (record {
        after = h;
        before = omega arith;
        all_eos = λ p a b. absurd (omega arith);
        longest = ground arith;
      })
    ]
