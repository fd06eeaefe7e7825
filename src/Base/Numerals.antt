-- ===== src/Base/Numerals.antt =====
-- Python's `str` of a natural number, and its `int` of a text of digits. The signs, blanks and
-- underscores that `int` also reads are left out: the code never writes them.
use Prim.Native.Nat.{ℕ, zero, suc, ◌+◌, ◌-◌, ◌*◌, ◌/◌, ◌%◌, ◌<◌, ◌≤◌}
use Prim.Native.Char.{Char, code}
use Prim.Native.String.{String}
use mathlib.Core.Path.{◌≡◌, refl, ap, ◌∙◌}
use mathlib.Core.Logic.{inl, inr}
use mathlib.Core.Bool.{true, false, ◌&&◌}
use mathlib.Core.Option.{Option, none, some}
use native.Mathlib.Omega.{arith}
use ded_swarm.Base.Equality.{if◌then◌else◌}
use ded_swarm.Base.Tests.{ltb, leb, Bool-cases}
use ded_swarm.Base.Exceptions.{Result, ok, raise, value_error}

abbrev digit : ℕ → Char
digit d =
    if ltb d 1
    then "0"
    else if ltb d 2
    then "1"
    else if ltb d 3
    then "2"
    else if ltb d 4
    then "3"
    else if ltb d 5
    then "4"
    else if ltb d 6
    then "5"
    else if ltb d 7
    then "6"
    else if ltb d 8
    then "7"
    else if ltb d 9
    then "8"
    else "9"

abbrev value : Char → Option ℕ
value c = if leb 48 (code c) && ltb (code c) 58 then some (code c - 48) else none

-- The last digit first, `fuel` digits at most after it.
unfoldable str_onto : ℕ → ℕ → String → String
str_onto zero n s = String.◌∷◌ (digit n) s
str_onto (suc fuel) n s = elim (ltb n 10) [
  | true ↦ String.◌∷◌ (digit n) s
  | false ↦ str_onto fuel (n / 10) (String.◌∷◌ (digit (n % 10)) s)
]

-- A number has fewer digits than it counts.
unfoldable pub str : ℕ → String
unfolding str_onto
str n = str_onto n n String.[]

unfoldable int_onto : ℕ → String → Result ℕ
int_onto n String.[] = ok n
int_onto n (String.◌∷◌ c s) = elim (value c) [
  | none ↦ raise value_error
  | some d ↦ int_onto (10 * n + d) s
]

unfoldable pub int : String → Result ℕ
unfolding int_onto
int String.[] = raise value_error
int (String.◌∷◌ c s) = int_onto 0 (String.◌∷◌ c s)

value-digit : (d : ℕ) → d < 10 → value (digit d) ≡ some d
value-digit zero h = refl
value-digit (suc zero) h = refl
value-digit (suc (suc zero)) h = refl
value-digit (suc (suc (suc zero))) h = refl
value-digit (suc (suc (suc (suc zero)))) h = refl
value-digit (suc (suc (suc (suc (suc zero))))) h = refl
value-digit (suc (suc (suc (suc (suc (suc zero)))))) h = refl
value-digit (suc (suc (suc (suc (suc (suc (suc zero))))))) h = refl
value-digit (suc (suc (suc (suc (suc (suc (suc (suc zero)))))))) h = refl
value-digit (suc (suc (suc (suc (suc (suc (suc (suc (suc zero))))))))) h = refl
value-digit (suc (suc (suc (suc (suc (suc (suc (suc (suc (suc d)))))))))) h = absurd (omega arith)

int_onto-digit :
    (n d : ℕ) (s : String) → d < 10 → int_onto n (String.◌∷◌ (digit d) s) ≡ int_onto (10 * n + d) s
unfolding int_onto
int_onto-digit n d s h = ground (arith, value-digit d h)

int_onto-str_onto :
    (fuel n : ℕ) (s : String) → n ≤ fuel → int_onto 0 (str_onto fuel n s) ≡ int_onto n s
unfolding str_onto
int_onto-str_onto zero n s h =
    int_onto-digit 0 n s (omega arith) ∙ ap (λ m. int_onto m s) (omega arith)
int_onto-str_onto (suc fuel) n s h = elim (Bool-cases (ltb n 10)) [
  | inl e ↦
      rw (e, str_onto) (int_onto-digit 0 n s (ground arith) ∙ ap (λ m. int_onto m s) (omega arith))
  | inr e ↦
      let big : 10 ≤ n = ground arith in
      rw (e, str_onto)
        (int_onto-str_onto fuel (n / 10) (String.◌∷◌ (digit (n % 10)) s) (omega arith)
          ∙ int_onto-digit (n / 10) (n % 10) s (omega arith)
          ∙ ap (λ m. int_onto m s) (omega arith))
]

int-str_onto : (fuel n : ℕ) (s : String) → int (str_onto fuel n s) ≡ int_onto 0 (str_onto fuel n s)
unfolding int str_onto
int-str_onto zero n s = refl
int-str_onto (suc fuel) n s = elim (Bool-cases (ltb n 10)) [
  | inl e ↦ rw (e, str_onto) refl
  | inr e ↦ rw (e, str_onto) (int-str_onto fuel (n / 10) (String.◌∷◌ (digit (n % 10)) s))
]

-- Reading a number that was written gives it back.
pub int-str : (n : ℕ) → int (str n) ≡ ok n
unfolding str int_onto
int-str n = int-str_onto n n String.[] ∙ int_onto-str_onto n n String.[] (omega arith)
