-- ===== src/Float.antt =====
-- What the code does with a `float`: times, confidences, log-probabilities and scores.
use ded_swarm.Base.{
  ℕ, ◌+◌, ◌-◌, ◌≡◌, Bool, true, not, ◌&&◌, ◌⊎◌, Option, none, some, leb, ltb, arith,
}

-- The operations, Python's and those of its `math` module. `exp` is `none` where `math.exp` raises
-- `OverflowError`.
pub record Float (F : Type 0) : Type 0 where
  pub zero : F
  pub of_nat : ℕ → F
  pub add : F → F → F
  pub sub : F → F → F
  pub exp : F → Option F
  pub le : F → F → Bool
  pub lt : F → F → Bool
  pub eq : F → F → Bool

-- The order of the floats that are numbers: `F` leaves out NaN, which the code neither makes nor
-- expects. Two floats that are `==` need not be one value (0.0 and -0.0). Rounding is monotone, so
-- subtraction is.
pub record IsOrdered (F : Type 0) ⦃f : Float F⦄ : Type 0 where
  pub le_refl : (x : F) → f.le x x ≡ true
  pub le_trans : (x y z : F) → f.le x y ≡ true → f.le y z ≡ true → f.le x z ≡ true
  pub le_total : (x y : F) → (f.le x y ≡ true) ⊎ (f.le y x ≡ true)
  pub lt-eq-not-le : (x y : F) → f.lt x y ≡ not (f.le y x)
  pub eq-eq-le-le : (x y : F) → f.eq x y ≡ (f.le x y && f.le y x)
  pub sub_mono : (x y z : F) → f.le x y ≡ true → f.le (f.sub x z) (f.sub y z) ≡ true
  pub sub_self : (x : F) → f.le (f.sub x x) f.zero ≡ true

-- What IEEE 754 gives of a sum: it does not depend on the order of two terms, and 0.0 + x is x (for
-- any x but -0.0, which `exp` never returns).
pub record IsIeee (F : Type 0) ⦃f : Float F⦄ : Type 0 where
  pub add_comm : (x y : F) → f.add x y ≡ f.add y x
  pub zero_add : (x : F) → f.add f.zero x ≡ x

-- Sums that are not rounded.
pub record IsExact (F : Type 0) ⦃f : Float F⦄ : Type 0 where
  pub ieee : IsIeee F
  pub open ieee use *
  pub add_assoc : (x y z : F) → f.add (f.add x y) z ≡ f.add x (f.add y z)

-- The laws can be met: whole ticks, with `exp` the identity below an overflow bound.
abbrev pub Ticks : Type 0
Ticks = ℕ

abbrev pub max_exp : ℕ
max_exp = 1000000

instance abbrev pub ticks_float : Float Ticks
ticks_float = record {
  zero = 0;
  of_nat = λ n. n;
  add = λ x y. x + y;
  sub = λ x y. x - y;
  exp = λ x. elim (leb x max_exp) [ true ↦ some x | _ ↦ none ];
  le = leb;
  lt = ltb;
  eq = λ x y. leb x y && leb y x;
}

pub Ticks-IsOrdered : IsOrdered Ticks
Ticks-IsOrdered = ground arith

pub Ticks-IsIeee : IsIeee Ticks
Ticks-IsIeee = ground arith

pub Ticks-IsExact : IsExact Ticks
Ticks-IsExact = record { ieee = Ticks-IsIeee; add_assoc = ground arith }
