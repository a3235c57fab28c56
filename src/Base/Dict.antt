-- ===== src/Base/Dict.antt =====
-- Python's sets and dicts, in insertion order: lists whose operations keep their keys distinct.
use mathlib.Core.Bool.{Bool, true, false, ◌&&◌, ◌||◌}
use mathlib.Core.List.{List, [], ◌∷◌, ◌++◌}
use mathlib.Core.Option.{Option, none, some}
use token_throttle.Base.Tests.{Eq, ◌==◌, if◌then◌else◌, all}

abbrev pub Dict {ℓ κ} : Type ℓ → Type κ → Type (ℓ ⊔ κ)
Dict K V = List (K × V)

module _ {ℓ} {K : Type ℓ} ⦃e : Eq K⦄ where
  -- `k in s`
  abbrev pub contains : List K → K → Bool
  contains [] k = false
  contains (x ∷ xs) k = x == k || contains xs k

  -- `s.discard(k)`
  abbrev pub discard : List K → K → List K
  discard [] k = []
  discard (x ∷ xs) k = if x == k then discard xs k else x ∷ discard xs k

  -- `s.add(k)`; a new member goes to the end.
  abbrev pub add_member : List K → K → List K
  add_member xs k = if contains xs k then xs else xs ++ k ∷ []

  -- `set(xs) <= set(ys)` and `set(xs) == set(ys)`
  abbrev pub is_subset : List K → List K → Bool
  is_subset xs ys = all (contains ys) xs

  abbrev pub same_set : List K → List K → Bool
  same_set xs ys = is_subset xs ys && is_subset ys xs

module _ {ℓ κ} {K : Type ℓ} ⦃e : Eq K⦄ {V : Type κ} where
  -- `d.get(k)`
  abbrev pub lookup : Dict K V → K → Option V
  lookup [] k = none
  lookup ((j, v) ∷ d) k = if j == k then some v else lookup d k

  abbrev pub has_key : Dict K V → K → Bool
  has_key d k = elim (lookup d k) [ none ↦ false | some _ ↦ true ]

  -- `d[k] = v`
  abbrev pub insert : Dict K V → K → V → Dict K V
  insert [] k v = (k, v) ∷ []
  insert ((j, w) ∷ d) k v = if j == k then (j, v) ∷ d else (j, w) ∷ insert d k v

  -- `d.pop(k, None)`
  abbrev pub pop_key : Dict K V → K → Dict K V
  pop_key [] k = []
  pop_key ((j, w) ∷ d) k = if j == k then pop_key d k else (j, w) ∷ pop_key d k

  abbrev pub keys : Dict K V → List K
  keys [] = []
  keys ((j, w) ∷ d) = j ∷ keys d
