-- ===== src/Memory/Refund/Scope.antt =====
-- A refund on a well-formed backend: the amounts that it computes, bucket by bucket.
use token_throttle.Base.Dict.{contains, is_subset, keys, lookup}
use token_throttle.Exceptions.{Result-cases, ok}
use token_throttle.Float.{Float, max_f, min_f}
use token_throttle.Memory.State.{id_of, ids_of, registered}
use token_throttle.Memory.State.Reads.{available}
use token_throttle.Base.{
  ℕ, Bool, true, false, ◌≡◌, refl, Option, some, none, List, [], ◌∷◌, arith, All, nat_eq, pair_eq,
  if◌then◌else◌, Bool-cases, inl, inr, Option-cases,
}
use token_throttle.Base.Members.{lookup-none}
use token_throttle.Validation.{BucketId, Usage}
use token_throttle.Memory.Bucket.{MemoryBucket}
use token_throttle.Memory.State.Pointwise.{amounts, scoped, IsDistinct}
use token_throttle.Memory.Refund.{refund_amounts, refund_entry, updated_capacities, in_scope}

module _ {F : Type 0} where
  unfoldable pub IsRegistered : List (MemoryBucket F) → MemoryBucket F → Type 0
  IsRegistered bs b = registered bs (id_of b) ≡ some b

module _ {F : Type 0} ⦃fl : Float F⦄ where
  open fl use {add, sub, neg, le, is_finite}

  -- The refund of a metric: what was reserved less what was used.
  abbrev pub owed : Option F → Option F → Option F
  owed (some reserved) (some actual) = some (sub reserved actual)
  owed _ _ = none

  pub lookup-refund_amounts :
      (reserved actual refund : Usage F) (m : ℕ)
      → refund_amounts reserved actual ≡ ok refund
      → lookup refund m ≡ owed (lookup reserved m) (lookup actual m)
  unfolding refund_amounts
  lookup-refund_amounts [] actual refund m e = ground arith
  lookup-refund_amounts ((k, r) ∷ u) actual refund m e = elim (Option-cases (lookup actual k)) [
    | inl missing ↦ ground (arith, missing)
    | inr (a, found) ↦ elim (Result-cases (refund_amounts u actual)) [
      | inr (x, bad) ↦ ground (arith, found, bad)
      | inl (rest, good) ↦ ground (arith, found, good, lookup-refund_amounts u actual rest m good)
    ]
  ]

  -- The actual usage has every metric of the reservation.
  pub refund_amounts-total :
      (reserved actual : Usage F)
      → is_subset (keys reserved) (keys actual) ≡ true
      → (refund : Usage F) × (refund_amounts reserved actual ≡ ok refund)
  unfolding refund_amounts
  refund_amounts-total [] actual h = ([], refl)
  refund_amounts-total ((k, r) ∷ u) actual h =
      let (rest, good) = refund_amounts-total u actual (ground arith) in
      elim (Option-cases (lookup actual k)) [
        | inl missing ↦ absurd (ground (arith, lookup-none actual k missing))
        | inr (a, found) ↦ ((k, sub r a) ∷ rest, rw (found, good) refl)
      ]

  -- The capacity that a refund leaves in a bucket in scope: what it held, with the refund, of at least
  -- minus the maximum, added, between minus the maximum and the maximum.
  abbrev pub given_amount : F → Option F → F → F
  given_amount amount none maximum = amount
  given_amount amount (some refund) maximum =
      let back = max_f refund (neg maximum) in max_f (neg maximum) (min_f (add amount back) maximum)

  abbrev pub given : F → (ℕ → Option F) → MemoryBucket F → F
  given now refund b = given_amount (available now b) (refund b.usage_metric) b.max_capacity

  abbrev pub is_scoped : List BucketId → MemoryBucket F → Bool
  is_scoped ids b = contains ids (id_of b)

  unfoldable pub settled : F → Usage F → List BucketId → MemoryBucket F → F
  settled now refund ids b =
      if is_scoped ids b then given now (lookup refund) b else available now b

  refund_entry_lem :
      (a : F) (p : Bool) (o : Option F) (b : MemoryBucket F)
      → refund_entry a p o (some b) ≡ ok (if p then given_amount a o b.max_capacity else a)
  refund_entry_lem a false o b = refl
  refund_entry_lem a true none b = refl
  refund_entry_lem a true (some x) b = refl

  pub updated-amounts :
      (now : F) (refund : Usage F) (ids : List BucketId) (bs all_bs : List (MemoryBucket F))
      → All (IsRegistered all_bs) bs
      → updated_capacities refund ids all_bs (amounts (available now) bs)
        ≡ ok (amounts (settled now refund ids) bs)
  unfolding updated_capacities IsRegistered settled
  updated-amounts now refund ids [] all_bs h = refl
  updated-amounts now refund ids (b ∷ bs) all_bs h = rw (
    h.0,
    refund_entry_lem (available now b) (contains ids (id_of b)) (lookup refund b.usage_metric) b,
    updated-amounts now refund ids bs all_bs h.1,
  )

  -- The filter keeps the entries of the buckets in scope.
  pub in_scope-amounts :
      (now : F) (refund : Usage F) (ids : List BucketId) (bs : List (MemoryBucket F))
      → in_scope ids (amounts (settled now refund ids) bs)
        ≡ scoped (is_scoped ids) (given now (lookup refund)) bs
  unfolding settled
  in_scope-amounts now refund ids [] = refl
  in_scope-amounts now refund ids (b ∷ bs) = elim (Bool-cases (is_scoped ids b)) [
    | inl e ↦ rw (e, in_scope-amounts now refund ids bs)
    | inr e ↦ rw (e, in_scope-amounts now refund ids bs)
  ]

  IsRegistered-cons :
      (c : MemoryBucket F) (bs ds : List (MemoryBucket F))
      → contains (ids_of ds) (id_of c) ≡ false
      → All (IsRegistered bs) ds
      → All (IsRegistered (c ∷ bs)) ds
  unfolding IsRegistered
  IsRegistered-cons c bs [] h a = tt
  IsRegistered-cons c bs (d ∷ ds) h a = ground (arith, IsRegistered-cons c bs ds)

  pub All-IsRegistered : (bs : List (MemoryBucket F)) → IsDistinct bs → All (IsRegistered bs) bs
  unfolding IsRegistered
  All-IsRegistered [] d = tt
  All-IsRegistered (b ∷ bs) d =
      (ground arith, IsRegistered-cons b bs bs d.0 (All-IsRegistered bs d.1))
