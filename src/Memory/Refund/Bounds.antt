-- ===== src/Memory/Refund/Bounds.antt =====
-- A refund keeps every bucket in scope between minus its maximum and its maximum.
use token_throttle.Base.Dict.{contains, is_subset, keys, lookup}
use token_throttle.Exceptions.{ok}
use token_throttle.Float.{Float, IsIeee, max_f}
use token_throttle.Float.Order.{le-max_f-left, max_f-le, min_f-le-right}
use token_throttle.Memory.Invariant.{neg-le-max}
use token_throttle.Memory.Refund.{refunded_amount}
use token_throttle.Memory.Refund.Scope.{given, given_amount, owed}
use token_throttle.Memory.State.{id_of}
use token_throttle.Memory.State.Reads.{available, available_finite}
use token_throttle.Base.{
  ℕ, true, false, ◌≡◌, Option, some, none, List, arith, map, nat_eq, pair_eq, inl, inr,
  Option-cases,
}
use token_throttle.Base.Members.{subset-member, contains-firsts, lookup-member}
use token_throttle.Capacity.Refill.{IsTime, IsRate}
use token_throttle.Validation.{
  BucketId, Usage, is_empty, validate_usage_mapping, validate_refund_usage,
  validate_backend_refund_usage_for_bucket_ids,
}
use token_throttle.Validation.Amounts.{
  IsAmounts, IsAmounts-lookup, validate_usage_mapping-IsAmounts,
}
use token_throttle.Memory.Bucket.{MemoryBucket}
use token_throttle.Memory.Bucket.Limits.{IsValid}

module _ {F : Type 0} ⦃fl : Float F⦄ where
  open fl use {sub, neg, le, is_finite}

  -- An amount that may be a refund: any number, also an infinite one.
  abbrev pub IsNumber : Option F → Type 0
  IsNumber none = Unit
  IsNumber (some x) = le x x ≡ true

  -- The two usages of a refund, checked: finite amounts over the same metrics.
  pub record IsRefund (reserved actual : Usage F) (ids : List BucketId) : Type 0 where
    pub reserved_amounts : IsAmounts reserved
    pub actual_amounts : IsAmounts actual
    pub covered : is_subset (keys reserved) (keys actual) ≡ true
    pub scoped_metrics : is_subset (map (λ (b : BucketId). b.0) ids) (keys reserved) ≡ true

  pub validate_backend-IsRefund :
      (reserved actual : Usage F) (ids backend_ids : List BucketId)
      → is_empty ids ≡ false
      → validate_backend_refund_usage_for_bucket_ids reserved actual ids backend_ids ≡ ok tt
      → IsRefund reserved actual ids
  unfolding validate_backend_refund_usage_for_bucket_ids validate_refund_usage
  validate_backend-IsRefund reserved actual ids backend_ids n h =
      let metrics = map (λ (b : BucketId). b.0) ids in
      let first : validate_usage_mapping reserved metrics ≡ ok tt = ground arith in
      let second : validate_usage_mapping actual (keys reserved) ≡ ok tt = ground arith in
      let (s, a) = validate_usage_mapping-IsAmounts actual (keys reserved) second in
      record {
        reserved_amounts = (validate_usage_mapping-IsAmounts reserved metrics first).1;
        actual_amounts = a;
        covered = ground arith;
        scoped_metrics =
            ground (arith, (validate_usage_mapping-IsAmounts reserved metrics first).0);
      }

module _ {F : Type 0} ⦃fl : Float F⦄ (laws : IsIeee fl) where
  open fl use {sub, neg, le, is_finite, add}

  pub owed-IsNumber :
      (reserved actual : Usage F) (m : ℕ) (ids : List BucketId)
      → IsRefund reserved actual ids
      → IsNumber (owed (lookup reserved m) (lookup actual m))
  owed-IsNumber reserved actual m ids h = elim (Option-cases (lookup reserved m)) [
    | inl e ↦ rw e tt
    | inr (r, e) ↦ elim (Option-cases (lookup actual m)) [
      | inl k ↦ rw (e, k) tt
      | inr (a, k) ↦
          rw (e, k)
            (laws.sub_num r a (IsAmounts-lookup reserved m r h.reserved_amounts e).0
              (IsAmounts-lookup actual m a h.actual_amounts k).0)
    ]
  ]

  refunded_bounds :
      (a x m r : F)
      → IsRate m r
      → is_finite a ≡ true
      → le x x ≡ true
      → (le (neg m) (refunded_amount a x m) ≡ true) × (le (refunded_amount a x m) m ≡ true)
  refunded_bounds a x m r q fa nx =
      let low = neg-le-max laws m r q in
      let num_low = laws.le_left (neg m) m low in
      let num_m = laws.finite_num m q.max_finite in
      let num_x : le (max_f x (neg m)) (max_f x (neg m)) ≡ true =
        laws.le_right x (max_f x (neg m)) (le-max_f-left laws x (neg m) nx) in
      let num_sum = laws.add_mono a (max_f x (neg m)) (max_f x (neg m)) fa num_x in
      (
        le-max_f-left laws (neg m) _ num_low,
        max_f-le laws (neg m) _ m low (min_f-le-right laws _ m num_sum num_m),
      )

  module _ (now : F) (t : IsTime now) where
    -- The amount written for a bucket is finite.
    pub given_finite :
        (o : Option F) (b : MemoryBucket F)
        → IsValid b
        → IsNumber o
        → is_finite (given_amount (available now b) o b.max_capacity) ≡ true
    given_finite none b v n = available_finite laws now t b v
    given_finite (some x) b v n =
        let (l, u) =
          refunded_bounds (available now b) x b.max_capacity b.rate_per_sec v.rate
            (available_finite laws now t b v) n in
        laws.finite_between _ _ _ (laws.finite_neg b.max_capacity v.rate.max_finite)
          v.rate.max_finite l u

    -- A bucket in scope has a refund, and ends within its bounds.
    pub given_bounds :
        (reserved actual : Usage F) (ids : List BucketId) (b : MemoryBucket F)
        → IsRefund reserved actual ids
        → IsValid b
        → contains ids (id_of b) ≡ true
        → let amount = given now (λ m. owed (lookup reserved m) (lookup actual m)) b in
          (le (neg b.max_capacity) amount ≡ true) × (le amount b.max_capacity ≡ true)
    given_bounds reserved actual ids b h v s =
        let m = b.usage_metric in
        let c =
          subset-member (map (λ (k : BucketId). k.0) ids) (keys reserved) m h.scoped_metrics
            (contains-firsts ids (id_of b) s) in
        let (r, er) = lookup-member reserved m c in
        let (a, ea) =
          lookup-member actual m (subset-member (keys reserved) (keys actual) m h.covered c) in
        rw (er, ea)
          (refunded_bounds (available now b) (sub r a) b.max_capacity b.rate_per_sec v.rate
            (available_finite laws now t b v)
            (laws.sub_num r a (IsAmounts-lookup reserved m r h.reserved_amounts er).0
              (IsAmounts-lookup actual m a h.actual_amounts ea).0))
