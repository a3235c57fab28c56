-- ===== src/Memory/Refund/Effects.antt =====
-- What a call of `refund_capacity_for_buckets` promises.
use token_throttle.Base.Dict.{lookup}
use token_throttle.Capacity.Refill.{IsTime}
use token_throttle.Memory.State.{Backend, ids_of, set_capacities, write_capacities}
use token_throttle.Memory.State.Reads.{get_capacities-valid}
use token_throttle.Base.{
  ℕ, Bool, true, false, ◌≡◌, refl, ap, Option, List, [], ◌∷◌, arith, All, map, nat_eq, pair_eq,
  if◌then◌else◌, Bool-cases, inl, inr,
}
use token_throttle.Float.{Float, IsIeee}
use token_throttle.Exceptions.{ok}
use token_throttle.Validation.{
  BucketId, Usage, is_empty, validate_backend_refund_usage_for_bucket_ids,
}
use token_throttle.Memory.Bucket.{MemoryBucket}
use token_throttle.Memory.Bucket.Limits.{IsValid}
use token_throttle.Memory.State.Pointwise.{
  amounts, scoped, IsDistinct, written, set_capacities-scoped,
}
use token_throttle.Memory.Invariant.{IsBackend, IsWithin, written-IsWithin}
use token_throttle.Memory.Refund.{
  refund_amounts, in_scope, mark_refunded, check_acquired, refund_scoped, refund_locked,
  refund_scope, refund_capacity_for_buckets,
}
use token_throttle.Memory.Refund.Scope.{
  owed, given, is_scoped, settled, lookup-refund_amounts, refund_amounts-total, updated-amounts,
  in_scope-amounts, All-IsRegistered,
}
use token_throttle.Memory.Refund.Bounds.{
  IsRefund, owed-IsNumber, given_finite, given_bounds, validate_backend-IsRefund,
}

module _ {F : Type 0} ⦃fl : Float F⦄ where
  -- A bucket after a refund.
  abbrev pub refunded_bucket : F → (ℕ → Option F) → List BucketId → MemoryBucket F → MemoryBucket F
  refunded_bucket now refund ids k =
      if is_scoped ids k then written now true (given now refund k) k else k

  -- The refund of each metric.
  abbrev pub refund_of : Usage F → Usage F → ℕ → Option F
  refund_of reserved actual m = owed (lookup reserved m) (lookup actual m)

  -- A bucket in scope lies within its bounds; one out of scope is as before.
  abbrev pub IsSettledIf : Bool → MemoryBucket F → MemoryBucket F → Type 0
  IsSettledIf true k k' = IsWithin k'
  IsSettledIf false k k' = k' ≡ k

  abbrev pub IsSettled : F → (ℕ → Option F) → List BucketId → MemoryBucket F → Type 0
  IsSettled now refund ids k = IsSettledIf (is_scoped ids k) k (refunded_bucket now refund ids k)

  refund_of_lem :
      (reserved actual refund : Usage F)
      → refund_amounts reserved actual ≡ ok refund
      → (λ m. lookup refund m) ≡ refund_of reserved actual
  refund_of_lem reserved actual refund e =
      λ i. λ m. lookup-refund_amounts reserved actual refund m e i

module _ {F : Type 0} ⦃fl : Float F⦄ (laws : IsIeee fl) (now : F) (t : IsTime now) where
  open fl use {is_finite}

  pub All-given_finite :
      (reserved actual : Usage F) (ids : List BucketId) (bs : List (MemoryBucket F))
      → IsRefund reserved actual ids
      → All IsValid bs
      → All (λ k. is_finite (given now (refund_of reserved actual) k) ≡ true) bs
  All-given_finite reserved actual ids [] h v = tt
  All-given_finite reserved actual ids (k ∷ bs) h v = (
    given_finite laws now t (refund_of reserved actual k.usage_metric) k v.0
        (owed-IsNumber laws reserved actual k.usage_metric ids h),
    All-given_finite reserved actual ids bs h v.1,
  )

  All-IsSettled :
      (reserved actual : Usage F) (ids : List BucketId) (bs : List (MemoryBucket F))
      → IsRefund reserved actual ids
      → All IsValid bs
      → All (IsSettled now (refund_of reserved actual) ids) bs
  All-IsSettled reserved actual ids [] h v = tt
  All-IsSettled reserved actual ids (k ∷ bs) h v = (
    elim (Bool-cases (is_scoped ids k)) [
      | inl s ↦
          let (l, u) = given_bounds laws now t reserved actual ids k h v.0 s in
          rw s (written-IsWithin laws now _ k v.0.rate l u)
      | inr s ↦ rw s refl
    ],
    All-IsSettled reserved actual ids bs h v.1,
  )

  scoped_writes :
      (reserved actual refund : Usage F) (ids : List BucketId) (bs : List (MemoryBucket F))
      → IsRefund reserved actual ids
      → refund_amounts reserved actual ≡ ok refund
      → All IsValid bs
      → IsDistinct bs
      → set_capacities (in_scope ids (amounts (settled now refund ids) bs)) now true bs
        ≡ (ok tt, map (refunded_bucket now (refund_of reserved actual) ids) bs)
  scoped_writes reserved actual refund ids bs h e v d =
      rw
        (
          in_scope-amounts now refund ids bs,
          ap (λ r. scoped (is_scoped ids) (given now r) bs)
              (refund_of_lem reserved actual refund e),
        )
        (set_capacities-scoped (is_scoped ids) (given now (refund_of reserved actual)) now true bs d
          (All-given_finite reserved actual ids bs h v))

  refund_scoped_lem :
      (reserved actual refund : Usage F) (ids : List BucketId) (rid : Option ℕ) (b : Backend F)
      → IsBackend b
      → IsRefund reserved actual ids
      → refund_amounts reserved actual ≡ ok refund
      → refund_scoped refund ids rid now b ≡ (
        ok true,
        mark_refunded rid (record b {
          buckets = map (refunded_bucket now (refund_of reserved actual) ids) b.buckets;
        }),
      )
  unfolding refund_scoped write_capacities
  refund_scoped_lem reserved actual refund ids rid b ib h e = ground (
    arith,
    get_capacities-valid laws now t b.buckets ib.valid,
    updated-amounts now refund ids b.buckets b.buckets (All-IsRegistered b.buckets ib.distinct),
    scoped_writes reserved actual refund ids b.buckets h e ib.valid ib.distinct,
  )

  -- A refund over buckets of the backend whose usage is valid and whose reservation, if it names
  -- one, is live, returns. Every bucket in scope is stamped with the time, and to what was available
  -- in it is added what was reserved less what was used, of which at most the maximum is taken away,
  -- and the sum is brought between minus the maximum and the maximum; no other bucket changes; and
  -- the reservation is marked as refunded.
  pub refund_capacity_for_buckets_buckets :
      (reserved actual : Usage F) (scope : Option (List BucketId)) (rid : Option ℕ) (b : Backend F)
      → IsBackend b
      → is_empty (refund_scope scope b) ≡ false
      → validate_backend_refund_usage_for_bucket_ids reserved actual
          (refund_scope scope b)
          (ids_of b.buckets)
        ≡ ok tt
      → check_acquired rid b ≡ ok tt
      → let ids = refund_scope scope b in
        (refund_capacity_for_buckets reserved actual scope rid now b ≡ (
          ok true,
          mark_refunded rid (record b {
            buckets = map (refunded_bucket now (refund_of reserved actual) ids) b.buckets;
          }),
        ))
        × All (IsSettled now (refund_of reserved actual) ids) b.buckets
  unfolding refund_capacity_for_buckets refund_locked
  refund_capacity_for_buckets_buckets reserved actual scope rid b ib n checked live =
      let ids = refund_scope scope b in
      let h = validate_backend-IsRefund reserved actual ids (ids_of b.buckets) n checked in
      let (refund, e) = refund_amounts-total reserved actual h.covered in
      (
        ground
            (arith, checked, live, n, e, refund_scoped_lem reserved actual refund ids rid b ib h e),
        All-IsSettled reserved actual ids b.buckets h ib.valid,
      )
