-- ===== src/Base/Text.antt =====
-- The order of texts: Python compares the code points of two `str` one after the other.
use Prim.Native.Nat.{Ordering}
use Prim.Native.String.compare
use Prim.Native.String.{String, compare}
use mathlib.Core.Path.{◌≡◌, refl}
use mathlib.Core.Logic.{◌⊎◌}
use mathlib.Core.Bool.{Bool, true, false}
use native.Mathlib.Omega.{arith}
use text.Mathlib.TextEquality.{path_by_compare}
use text.Mathlib.TextPositions.{compare_refl}
use ded_swarm.Base.Order.{Ord}

abbrev pub not_gt : Ordering → Bool
not_gt Ordering.gt = false
not_gt _ = true

-- Two comparisons that answer each other.
abbrev pub opposite : Ordering → Ordering
opposite Ordering.lt = Ordering.gt
opposite Ordering.eq = Ordering.eq
opposite Ordering.gt = Ordering.lt

compare-opposite : (s t : String) → compare t s ≡ opposite (compare s t)
compare-opposite String.[] String.[] = refl
compare-opposite String.[] (String.◌∷◌ d t) =
    ground (arith, compare.nil-cons d t, compare.cons-nil d t)
compare-opposite (String.◌∷◌ c s) String.[] =
    ground (arith, compare.nil-cons c s, compare.cons-nil c s)
compare-opposite (String.◌∷◌ c s) (String.◌∷◌ d t) =
    ground (arith, compare.cons-cons c d s t, compare.cons-cons d c t s, compare-opposite s t)

-- Where the first comparison is no `gt` and the second is none, neither is the outer one.
pub compare_trans :
    (s t u : String)
    → not_gt (compare s t) ≡ true
    → not_gt (compare t u) ≡ true
    → not_gt (compare s u) ≡ true
compare_trans String.[] t String.[] h k = refl
compare_trans String.[] t (String.◌∷◌ e u) h k = rw (compare.nil-cons e u)
compare_trans (String.◌∷◌ c s) String.[] u h k = ground (arith, compare.cons-nil c s)
compare_trans (String.◌∷◌ c s) (String.◌∷◌ d t) String.[] h k = ground (arith, compare.cons-nil d t)
compare_trans (String.◌∷◌ c s) (String.◌∷◌ d t) (String.◌∷◌ e u) h k = ground (
  arith,
  compare.cons-cons c d s t,
  compare.cons-cons d e t u,
  compare.cons-cons c e s u,
  compare_trans s t u,
)

abbrev pub le : String → String → Bool
le s t = not_gt (compare s t)

pub le_antisymm : (s t : String) → le s t ≡ true → le t s ≡ true → s ≡ t
le_antisymm s t h k = path_by_compare s t (ground (arith, compare-opposite s t))

pub le_refl : (s : String) → le s s ≡ true
le_refl s = rw (compare_refl s)

pub le_total : (s t : String) → (le s t ≡ true) ⊎ (le t s ≡ true)
le_total s t = ground (arith, compare-opposite s t)

instance abbrev pub string_ord : Ord String
string_ord = record {
  le = le;
  le_refl = le_refl;
  le_antisymm = le_antisymm;
  le_trans = compare_trans;
  le_total = le_total;
}
