-- ===== src/Memory/Wait/Cancelled.antt =====
-- How giving a cancelled consumption back keeps the backend's invariant.
use token_throttle.Base.{
  ℕ, Bool, true, false, Bool-cases, filter, if◌then◌else◌, ◌≡◌, refl, Option, some, none, List, [],
  ◌∷◌, arith, All, map, nat_eq, pair_eq, Option-cases, inl, inr,
}
use token_throttle.Base.Dict.{contains, lookup}
use token_throttle.Float.{Float, IsIeee, zero_f}
use token_throttle.Float.Order.{min_f-le-right, le-min_f}
use token_throttle.Capacity.Refill.{IsTime}
use token_throttle.Validation.{BucketId, Usage}
use token_throttle.Validation.Amounts.{IsAmounts, IsAmounts-lookup, amount_nonneg}
use token_throttle.Memory.Bucket.{MemoryBucket}
use token_throttle.Memory.Bucket.Limits.{IsValid}
use token_throttle.Memory.State.{Backend, id_of, ids_of, write_capacities}
use token_throttle.Memory.State.Pointwise.{
  amounts, scoped, written, IsDistinct, set_capacities-scoped,
}
use token_throttle.Memory.State.Reads.{
  available, available_finite, available-le-max, get_capacities-valid,
}
use token_throttle.Memory.Reservations.{forget_if_named, forget_acquired_reservation}
use token_throttle.Memory.Reservations.Registry.{forget_acquired_reservation-IsRegistry}
use token_throttle.Memory.Invariant.{IsBackend, IsBackend-map, written-IsValid}
use token_throttle.Memory.Refund.Scope.{IsRegistered, All-IsRegistered}
use token_throttle.Memory.Wait.{restored, restored_amount, refund_cancelled_consumption}

module _ {F : Type 0} ⦃fl : Float F⦄ where
  open fl use {add, is_finite, le}

  pub IsBackend-waiters :
      (ws : List ℕ) (b : Backend F) → IsBackend b → IsBackend (record b { waiters = ws })
  IsBackend-waiters ws b ib = record {
    valid = ib.valid;
    distinct = ib.distinct;
    names = ib.names;
    registry = record {
      same_keys = ib.registry.same_keys;
      ordered = ib.registry.ordered;
      nodup = ib.registry.nodup;
      bounded = ib.registry.bounded;
      disjoint = ib.registry.disjoint;
    };
  }

  forget_if_named-IsBackend :
      (rid : Option ℕ) (b : Backend F) → IsBackend b → IsBackend (forget_if_named rid b)
  unfolding forget_if_named forget_acquired_reservation
  forget_if_named-IsBackend none b ib = ib
  forget_if_named-IsBackend (some rid) b ib = record {
    valid = ib.valid;
    distinct = ib.distinct;
    names = ib.names;
    registry = forget_acquired_reservation-IsRegistry rid b ib.registry;
  }

  -- A consumption that is given back to a bucket.
  given_back : F → Usage F → MemoryBucket F → F
  given_back now usage k = restored_amount (available now k) (lookup usage k.usage_metric) (some k)

  restored-amounts :
      (now : F) (usage : Usage F) (bs ds : List (MemoryBucket F))
      → All (IsRegistered bs) ds
      → restored usage bs (amounts (available now) ds) ≡ amounts (given_back now usage) ds
  unfolding IsRegistered given_back
  restored-amounts now usage bs [] h = refl
  restored-amounts now usage bs (d ∷ ds) h = rw (h.0, restored-amounts now usage bs ds h.1) refl

module _ {F : Type 0} ⦃fl : Float F⦄ (laws : IsIeee fl) (now : F) (t : IsTime now) where
  open fl use {add, is_finite, le}

  restored_finite :
      (u : F) (k : MemoryBucket F)
      → IsValid k
      → is_finite u ≡ true
      → le zero_f u ≡ true
      → is_finite (restored_amount (available now k) (some u) (some k)) ≡ true
  restored_finite u k v fu nu =
      let fa = available_finite laws now t k v in
      let grows = laws.add_nonneg (available now k) u fa nu in
      laws.finite_between (available now k) _ k.max_capacity fa v.rate.max_finite
        (le-min_f laws (available now k) (add (available now k) u) k.max_capacity grows
          (available-le-max laws now t k v))
        (min_f-le-right laws _ k.max_capacity (laws.le_right _ _ grows)
          (laws.finite_num k.max_capacity v.rate.max_finite))

  given_back_finite :
      (usage : Usage F) (k : MemoryBucket F)
      → IsAmounts usage
      → IsValid k
      → is_finite (given_back now usage k) ≡ true
  unfolding given_back
  given_back_finite usage k a v = elim (Option-cases (lookup usage k.usage_metric)) [
    | inl e ↦ rw e (available_finite laws now t k v)
    | inr (u, e) ↦
        let (fu, nu) = IsAmounts-lookup usage k.usage_metric u a e in
        rw e (restored_finite u k v fu (amount_nonneg laws u fu nu))
  ]

  module _ (f : MemoryBucket F → F) (allow : Bool) where
    pub All-written :
        (bs : List (MemoryBucket F))
        → All (λ k. is_finite (f k) ≡ true) bs
        → All IsValid bs
        → All (λ k. IsValid (written now allow (f k) k)) bs
    All-written [] h v = tt
    All-written (k ∷ bs) h v =
        (written-IsValid laws now (f k) allow k t.finite h.0 v.0, All-written bs h.1 v.1)

  All-given_back :
      (usage : Usage F) (bs : List (MemoryBucket F))
      → IsAmounts usage
      → All IsValid bs
      → All (λ k. is_finite (given_back now usage k) ≡ true) bs
  All-given_back usage [] a v = tt
  All-given_back usage (k ∷ bs) a v =
      (given_back_finite usage k a v.0, All-given_back usage bs a v.1)

  module _ (p : MemoryBucket F → Bool) where
    All-filter :
        (P : MemoryBucket F → Type 0) (bs : List (MemoryBucket F)) → All P bs → All P (filter p bs)
    All-filter P [] h = tt
    All-filter P (k ∷ bs) h = elim (Bool-cases (p k)) [
      | inl e ↦ rw e (h.0, All-filter P bs h.1)
      | inr e ↦ rw e (All-filter P bs h.1)
    ]

    ids_of-filter :
        (id : BucketId) (bs : List (MemoryBucket F))
        → contains (ids_of bs) id ≡ false
        → contains (ids_of (filter p bs)) id ≡ false
    ids_of-filter id [] h = refl
    ids_of-filter id (k ∷ bs) h = ground (arith, h, ids_of-filter id bs)

    IsDistinct-filter : (bs : List (MemoryBucket F)) → IsDistinct bs → IsDistinct (filter p bs)
    IsDistinct-filter [] d = tt
    IsDistinct-filter (k ∷ bs) d = elim (Bool-cases (p k)) [
      | inl e ↦ rw e (ids_of-filter (id_of k) bs d.0, IsDistinct-filter bs d.1)
      | inr e ↦ rw e (IsDistinct-filter bs d.1)
    ]

    amounts-filter :
        (f : MemoryBucket F → F) (bs : List (MemoryBucket F))
        → amounts f (filter p bs) ≡ scoped p f bs
    amounts-filter f [] = refl
    amounts-filter f (k ∷ bs) = elim (Bool-cases (p k)) [
      | inl e ↦ rw (e, amounts-filter f bs) refl
      | inr e ↦ rw (e, amounts-filter f bs) refl
    ]

  -- A bucket after a cancelled consumption that was taken from the buckets of the snapshot.
  refilled_bucket : Usage F → List BucketId → MemoryBucket F → MemoryBucket F
  refilled_bucket usage snapshot k =
      if contains snapshot (id_of k) then written now true (given_back now usage k) k else k

  refund_cancelled_lem :
      (usage : Usage F) (snapshot : List BucketId) (rid : Option ℕ) (b : Backend F)
      → IsAmounts usage
      → IsBackend b
      → (refund_cancelled_consumption usage snapshot rid now b).1
        ≡ forget_if_named rid
            (record b { buckets = map (refilled_bucket usage snapshot) b.buckets })
  unfolding refund_cancelled_consumption write_capacities refilled_bucket
  refund_cancelled_lem usage snapshot rid b a ib =
      let p = λ (k : MemoryBucket F). contains snapshot (id_of k) in
      let bs = filter p b.buckets in
      ground (
        arith,
        get_capacities-valid laws now t bs (All-filter p IsValid b.buckets ib.valid),
        restored-amounts now usage bs bs
            (All-IsRegistered bs (IsDistinct-filter p b.buckets ib.distinct)),
        amounts-filter p (given_back now usage) b.buckets,
        set_capacities-scoped p (given_back now usage) now true b.buckets ib.distinct
            (All-given_back usage b.buckets a ib.valid),
      )

  All-refilled :
      (usage : Usage F) (snapshot : List BucketId) (bs : List (MemoryBucket F))
      → IsAmounts usage
      → All IsValid bs
      → All (λ k. IsValid (refilled_bucket usage snapshot k)) bs
  unfolding refilled_bucket
  All-refilled usage snapshot [] a v = tt
  All-refilled usage snapshot (k ∷ bs) a v = (
    elim (Bool-cases (contains snapshot (id_of k))) [
      | inl e ↦ rw e (
          written-IsValid laws now (given_back now usage k) true k t.finite
            (given_back_finite usage k a v.0) v.0)
      | inr e ↦ rw e v.0
    ],
    All-refilled usage snapshot bs a v.1,
  )

  refilled-id :
      (usage : Usage F) (snapshot : List BucketId) (k : MemoryBucket F)
      → id_of (refilled_bucket usage snapshot k) ≡ id_of k
  unfolding refilled_bucket
  refilled-id usage snapshot k = ground arith

  pub refund_cancelled-IsBackend :
      (usage : Usage F) (snapshot : List BucketId) (rid : Option ℕ) (b : Backend F)
      → IsAmounts usage
      → IsBackend b
      → IsBackend (refund_cancelled_consumption usage snapshot rid now b).1
  refund_cancelled-IsBackend usage snapshot rid b a ib =
      rw (refund_cancelled_lem usage snapshot rid b a ib) (
        forget_if_named-IsBackend rid _ (
          IsBackend-map (refilled_bucket usage snapshot) b b (refilled-id usage snapshot) ib refl
            ib.registry (All-refilled usage snapshot b.buckets a ib.valid)))
