-- ===== src/Base/Exceptions.antt =====
-- Exceptions as values, and a loop whose body may raise.
use mathlib.Core.Path.{◌≡◌, refl}
use mathlib.Core.Bool.{Bool, true, false}
use mathlib.Core.List.{List, [], ◌∷◌}

-- The exceptions that the modelled code can raise.
pub data Error : Type 0 where
  overflow_error value_error key_error stop_iteration assertion_error system_exit attribute_error
        zero_division_error index_error zmq_error :
      Error

pub data Result {ℓ} (A : Type ℓ) : Type ℓ where
  ok : A → Result A
  raise : Error → Result A

infixl 5 ◌>>=◌
abbrev pub ◌>>=◌ {ℓ κ} : {A : Type ℓ} {B : Type κ} → Result A → (A → Result B) → Result B
ok a >>= f = f a
raise e >>= f = raise e

module _ {ℓ} {A : Type ℓ} where
  abbrev pub is_ok : Result A → Bool
  is_ok (ok a) = true
  is_ok (raise e) = false

  pub ok_of : (r : Result A) → is_ok r ≡ true → (a : A) × (r ≡ ok a)
  ok_of (ok a) h = (a, refl)
  ok_of (raise e) h = cc

module _ {ℓ κ} {S : Type ℓ} {A : Type κ} where
  -- `for x in xs: s = body(s, x)`
  abbrev pub for_each : (S → A → Result S) → S → List A → Result S
  for_each body s [] = ok s
  for_each body s (x ∷ xs) = body s x >>= λ s'. for_each body s' xs

  pub >>=-eq-ok :
      (m : Result S) (f : S → Result A) {a : A}
      → (m >>= f) ≡ ok a
      → (s : S) × (m ≡ ok s) × (f s ≡ ok a)
  >>=-eq-ok (ok s) f h = (s, refl, h)
  >>=-eq-ok (raise e) f h = cc

module _ {ℓ κ} {A : Type ℓ} {B : Type κ} where
  -- `body(x)` for each `x`, up to the first that raises.
  abbrev pub each : (A → Result B) → List A → Result (List B)
  each body [] = ok []
  each body (x ∷ xs) = body x >>= λ y. each body xs >>= λ ys. ok (y ∷ ys)
