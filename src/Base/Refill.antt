-- ===== src/Base/Refill.antt =====
-- Filling a dict with the entries of another, one after the other.
use mathlib.Core.Path.{◌≡◌, refl, sym, ap, ◌∙◌}
use mathlib.Core.Logic.{◌≢◌}
use mathlib.Core.Option.{Option, none, some}
use mathlib.Core.List.{List, [], ◌∷◌, ◌++◌, foldl}
use mathlib.Core.List
use native.Mathlib.Omega.{arith}
use ded_swarm.Base.Equality.{Eq}
use ded_swarm.Base.Lists.{All}
use ded_swarm.Base.Exceptions.{Result, ok, for_each, >>=-eq-ok}
use ded_swarm.Base.Dict.{Dict, lookup, insert, NodupKeys, lookup-insert, insert-NodupKeys}

module _ {ℓ κ} {K : Type ℓ} {V : Type κ} ⦃e : Eq K⦄ where
  -- `for k, v in es.items(): d[k] = v`
  abbrev pub insert_all : Dict K V → Dict K V → Dict K V
  insert_all acc [] = acc
  insert_all acc ((k, v) ∷ es) = insert_all (insert k v acc) es

  insert-fresh :
      (k : K) (v : V) (d : Dict K V) → lookup k d ≡ none → insert k v d ≡ d ++ ((k, v) ∷ [])
  unfolding insert lookup
  insert-fresh k v [] h = refl
  insert-fresh k v ((j, w) ∷ d) h = ground (arith, insert-fresh k v d)

  lookup-append : (k : K) (d es : Dict K V) → lookup k d ≡ none → lookup k (d ++ es) ≡ lookup k es
  unfolding lookup
  lookup-append k [] es h = refl
  lookup-append k ((j, w) ∷ d) es h = ground (arith, lookup-append k d es)

  insert_all-append :
      (acc es : Dict K V)
      → NodupKeys es
      → ((k : K) → lookup k es ≢ none → lookup k acc ≡ none)
      → insert_all acc es ≡ acc ++ es
  unfolding lookup
  insert_all-append acc [] u h = sym (List.append-nil acc)
  insert_all-append acc ((k, v) ∷ es) (fresh, u) h =
      ap (λ d. insert_all d es) (insert-fresh k v acc (h k (ground arith)))
      ∙ insert_all-append (acc ++ ((k, v) ∷ [])) es u
          (λ j there. lookup-append j acc ((k, v) ∷ []) (h j (ground arith)) ∙ ground arith)
      ∙ List.append_assoc acc ((k, v) ∷ []) es

  -- A dict that is filled from nothing with the entries of another is that other.
  pub insert_all_self : (es : Dict K V) → NodupKeys es → insert_all [] es ≡ es
  unfolding lookup
  insert_all_self es u = insert_all-append [] es u (λ k h. refl)

-- A loop whose body stores each entry under its key, whatever value it computes from it.
module _ {ℓ κ μ} {K : Type ℓ} {V : Type κ} {W : Type μ} ⦃e : Eq K⦄
    (body : Dict K V → K × W → Result (Dict K V))
    (stores : (acc : Dict K V) (x : K × W) (acc' : Dict K V)
      → body acc x ≡ ok acc'
      → (v : V) × (acc' ≡ insert x.0 v acc)) where
  -- A key that it left out was not among its entries, nor there before.
  pub for_each-missing :
      (es : Dict K W) (acc acc' : Dict K V) (k : K)
      → for_each body acc es ≡ ok acc'
      → lookup k acc' ≡ none
      → (lookup k acc ≡ none) × (lookup k es ≡ none)
  unfolding lookup
  for_each-missing [] acc acc' k run miss = (ground arith, refl)
  for_each-missing ((j, w) ∷ es) acc acc' k run miss =
      let (s, first, rest) = >>=-eq-ok (body acc (j, w)) (λ t. for_each body t es) run in
      let (v, same) = stores acc (j, w) s first in
      let (before, later) = for_each-missing es s acc' k rest miss in
      ground (arith, lookup-insert k j v acc)

  -- A key that is not among its entries keeps its value.
  pub for_each-untouched :
      (es : Dict K W) (acc acc' : Dict K V) (k : K)
      → for_each body acc es ≡ ok acc'
      → lookup k es ≡ none
      → lookup k acc' ≡ lookup k acc
  unfolding lookup
  for_each-untouched [] acc acc' k run miss = ground arith
  for_each-untouched ((j, w) ∷ es) acc acc' k run miss =
      let (s, first, rest) = >>=-eq-ok (body acc (j, w)) (λ t. for_each body t es) run in
      let (v, same) = stores acc (j, w) s first in
      for_each-untouched es s acc' k rest (ground arith) ∙ ground (arith, lookup-insert k j v acc)

-- What a dict holds at a key after a loop: the new value, if the loop has met the key.
abbrev pub filled {ℓ κ} : {W : Type ℓ} {V : Type κ} → Option W → V → Option V → Option V
filled none new old = old
filled (some _) new old = some new

-- A loop whose body stores under each key a value that the key determines.
module _ {ℓ κ μ ν} {K : Type ℓ} {V : Type κ} {W : Type μ} ⦃e : Eq K⦄
    (body : Dict K V → K × W → Result (Dict K V)) (value : K → V) (Good : K × W → Type ν)
    (stores : (acc : Dict K V) (x : K × W)
      → Good x
      → body acc x ≡ ok (insert x.0 (value x.0) acc)) where
  pub for_each-filled :
      (es : Dict K W) (acc acc' : Dict K V)
      → All Good es
      → NodupKeys acc
      → for_each body acc es ≡ ok acc'
      → NodupKeys acc' × ((k : K) → lookup k acc' ≡ filled (lookup k es) (value k) (lookup k acc))
  unfolding lookup
  for_each-filled [] acc acc' good u run =
      let same : acc ≡ acc' = ground arith in rw (← same) (u, λ k. refl)
  for_each-filled ((j, w) ∷ es) acc acc' (g, good) u run =
      let (s, first, rest) = >>=-eq-ok (body acc (j, w)) (λ t. for_each body t es) run in
      let same : s ≡ insert j (value j) acc = ground (arith, stores acc (j, w) g) in
      let (u', at) =
        for_each-filled es s acc' good (rw same (insert-NodupKeys j (value j) acc u)) rest in
      (u', λ k. at k ∙ rw same (ground (arith, lookup-insert k j (value j) acc)))
