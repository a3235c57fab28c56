-- ===== src/Base/Members.antt =====
-- Membership under the operations on sets and dicts whose keys are numbers.
use token_throttle.Base.{
  ℕ, suc, ◌≤◌, ◌<◌, ◌≡◌, refl, true, false, not, ◌&&◌, ◌||◌, none, some, List, [], ◌∷◌, ◌++◌, arith,
  length, Eq, ◌==◌, nat_eq, if◌then◌else◌, leb, pair_eq, map, Option-cases, inl, inr,
}
use token_throttle.Base.Dict.{
  Dict, contains, discard, add_member, lookup, insert, pop_key, keys, is_subset, same_set,
}

abbrev pub IsNodup : List ℕ → Type 0
IsNodup [] = Unit
IsNodup (x ∷ xs) = (contains xs x ≡ false) × IsNodup xs

pub contains-append :
    (xs : List ℕ) (k j : ℕ) → contains (xs ++ k ∷ []) j ≡ (contains xs j || k == j)
contains-append [] k j = ground arith
contains-append (x ∷ xs) k j = ground (arith, contains-append xs k j)

pub contains-discard :
    (xs : List ℕ) (k j : ℕ) → contains (discard xs k) j ≡ (contains xs j && not (k == j))
contains-discard [] k j = refl
contains-discard (x ∷ xs) k j = ground (arith, contains-discard xs k j)

pub contains-add_member :
    (xs : List ℕ) (k j : ℕ) → contains (add_member xs k) j ≡ (contains xs j || k == j)
contains-add_member xs k j = ground (arith, contains-append xs k j, contains_eq xs)
  where
    contains_eq : (xs : List ℕ) → contains xs k ≡ true → k ≡ j → contains xs j ≡ true
    contains_eq xs h e = ground arith

pub discard-fresh : (xs : List ℕ) (k : ℕ) → contains xs k ≡ false → discard xs k ≡ xs
discard-fresh [] k h = refl
discard-fresh (x ∷ xs) k h = ground (arith, discard-fresh xs k)

pub IsNodup-append :
    (xs : List ℕ) (k : ℕ) → IsNodup xs → contains xs k ≡ false → IsNodup (xs ++ k ∷ [])
IsNodup-append [] k d h = (refl, tt)
IsNodup-append (x ∷ xs) k d h = ground (arith, IsNodup-append xs k d.1, contains-append xs k x)

module _ {ℓ} {V : Type ℓ} where
  pub keys-insert : (d : Dict ℕ V) (k : ℕ) (v : V) → keys (insert d k v) ≡ add_member (keys d) k
  keys-insert [] k v = refl
  keys-insert ((j, w) ∷ d) k v = ground (arith, keys-insert d k v)

  pub keys-pop_key : (d : Dict ℕ V) (k : ℕ) → keys (pop_key d k) ≡ discard (keys d) k
  keys-pop_key [] k = refl
  keys-pop_key ((j, w) ∷ d) k = ground (arith, keys-pop_key d k)

  pub lookup-fresh : (d : Dict ℕ V) (k : ℕ) → contains (keys d) k ≡ false → lookup d k ≡ none
  lookup-fresh [] k h = refl
  lookup-fresh ((j, w) ∷ d) k h = ground (arith, lookup-fresh d k)

  pub lookup-none : (d : Dict ℕ V) (k : ℕ) → lookup d k ≡ none → contains (keys d) k ≡ false
  lookup-none [] k h = refl
  lookup-none ((j, w) ∷ d) k h = ground (arith, lookup-none d k)

  pub lookup-insert :
      (d : Dict ℕ V) (k j : ℕ) (v : V)
      → lookup (insert d k v) j ≡ (if k == j then some v else lookup d j)
  lookup-insert [] k j v = refl
  lookup-insert ((i, w) ∷ d) k j v = ground (arith, lookup-insert d k j v)

  pub lookup-pop_key :
      (d : Dict ℕ V) (k j : ℕ) → lookup (pop_key d k) j ≡ (if k == j then none else lookup d j)
  lookup-pop_key [] k j = ground arith
  lookup-pop_key ((i, w) ∷ d) k j = ground (arith, lookup-pop_key d k j)

-- The last `limit` members of a list.
abbrev pub trim : ℕ → List ℕ → List ℕ
trim limit [] = []
trim limit (x ∷ xs) = if leb (suc (length xs)) limit then x ∷ xs else trim limit xs

pub length-trim-le : (limit : ℕ) (xs : List ℕ) → length (trim limit xs) ≤ limit
length-trim-le limit [] = omega arith
length-trim-le limit (x ∷ xs) = ground (arith, length-trim-le limit xs)

pub IsNodup-trim : (limit : ℕ) (xs : List ℕ) → IsNodup xs → IsNodup (trim limit xs)
IsNodup-trim limit [] d = tt
IsNodup-trim limit (x ∷ xs) d = ground (arith, IsNodup-trim limit xs d.1)

pub contains-trim :
    (limit : ℕ) (xs : List ℕ) (k : ℕ) → contains xs k ≡ false → contains (trim limit xs) k ≡ false
contains-trim limit [] k h = refl
contains-trim limit (x ∷ xs) k h = ground (arith, contains-trim limit xs k)

pub contains-trim_last :
    (limit : ℕ) (xs : List ℕ) (k : ℕ) → 0 < limit → contains (trim limit (xs ++ k ∷ [])) k ≡ true
contains-trim_last limit [] k h = ground arith
contains-trim_last limit (x ∷ xs) k h =
    ground (arith, contains-trim_last limit xs k h, contains-append xs k k)

module _ {ℓ} {K : Type ℓ} ⦃e : Eq K⦄ where
  subset-cons : (xs ys : List K) (y : K) → is_subset xs ys ≡ true → is_subset xs (y ∷ ys) ≡ true
  subset-cons [] ys y h = refl
  subset-cons (x ∷ xs) ys y h = ground (arith, subset-cons xs ys y)

  pub subset_refl : (xs : List K) → is_subset xs xs ≡ true
  subset_refl [] = refl
  subset_refl (x ∷ xs) =
      ground (arith, subset-cons xs xs x (subset_refl xs), (e.is_same_iff x x).1 refl)

  pub same_set_refl : (xs : List K) → same_set xs xs ≡ true
  same_set_refl xs = rw (subset_refl xs)

pub subset-member :
    (xs ys : List ℕ) (k : ℕ) → is_subset xs ys ≡ true → contains xs k ≡ true → contains ys k ≡ true
subset-member [] ys k h c = ground arith
subset-member (x ∷ xs) ys k h c = ground (arith, subset-member xs ys k)

-- The first half of a member of a set of pairs.
pub contains-firsts :
    (ids : List (ℕ × ℕ)) (p : ℕ × ℕ)
    → contains ids p ≡ true
    → contains (map (λ (b : ℕ × ℕ). b.0) ids) p.0 ≡ true
contains-firsts [] p h = ground arith
contains-firsts (x ∷ ids) p h = ground (arith, contains-firsts ids p)

pub lookup-member {ℓ} :
    {V : Type ℓ} (d : Dict ℕ V) (k : ℕ)
    → contains (keys d) k ≡ true
    → (v : V) × (lookup d k ≡ some v)
lookup-member d k h = elim (Option-cases (lookup d k)) [
  | inl missing ↦ absurd (ground (arith, lookup-none d k missing))
  | inr found ↦ found
]
