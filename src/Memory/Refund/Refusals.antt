-- ===== src/Memory/Refund/Refusals.antt =====
-- How a refund ends where it does not write a bucket.
use token_throttle.Float.{Float}
use token_throttle.Memory.Refund.Bounds.{validate_backend-IsRefund}
use token_throttle.Memory.Refund.Scope.{refund_amounts-total}
use token_throttle.Memory.State.{Backend, ids_of}
use token_throttle.Base.{
  ℕ, true, ◌≡◌, refl, Option, some, none, List, [], ◌∷◌, arith, nat_eq, pair_eq, Bool-cases, inl,
  inr,
}
use token_throttle.Exceptions.{ok, err, Error}
use token_throttle.Validation.{
  BucketId, Usage, is_empty, validate_backend_refund_usage_for_bucket_ids,
}
use token_throttle.Memory.Refund.{
  mark_refunded, check_acquired, refund_locked, refund_scope, refund_capacity_for_buckets,
  refund_amounts,
}

is_empty-nil {ℓ} : {A : Type ℓ} (xs : List A) → is_empty xs ≡ true → xs ≡ []
is_empty-nil [] h = refl
is_empty-nil (x ∷ xs) h = absurd (ground arith)

module _ {F : Type 0} ⦃fl : Float F⦄ where
  -- A refund for a reservation that is not live raises what the registry says of it, and changes
  -- nothing.
  pub refund_refused :
      (reserved actual : Usage F) (scope : Option (List BucketId)) (rid : ℕ) (now : F)
      (b : Backend F) (e : Error) (refund : Usage F)
      → validate_backend_refund_usage_for_bucket_ids reserved actual
          (refund_scope scope b)
          (ids_of b.buckets)
        ≡ ok tt
      → refund_amounts reserved actual ≡ ok refund
      → check_acquired (some rid) b ≡ err e
      → refund_capacity_for_buckets reserved actual scope (some rid) now b ≡ (err e, b)
  unfolding refund_capacity_for_buckets refund_locked
  refund_refused reserved actual scope rid now b e refund checked good dead =
      elim (Bool-cases (is_empty (refund_scope scope b))) [
        | inl empty ↦ ground (arith, checked, good, dead, empty)
        | inr full ↦ ground (arith, checked, good, dead, full)
      ]

  -- Usages that pass the check have a refund for each metric.
  pub refund_amounts-checked :
      (reserved actual : Usage F) (ids backend_ids : List BucketId)
      → validate_backend_refund_usage_for_bucket_ids reserved actual ids backend_ids ≡ ok tt
      → (refund : Usage F) × (refund_amounts reserved actual ≡ ok refund)
  unfolding validate_backend_refund_usage_for_bucket_ids refund_amounts
  refund_amounts-checked reserved actual ids backend_ids h = elim (Bool-cases (is_empty ids)) [
    | inl empty ↦ rw (is_empty-nil reserved (ground (arith, empty))) ([], refl)
    | inr full ↦
        refund_amounts-total reserved actual
          (validate_backend-IsRefund reserved actual ids backend_ids full h).covered
  ]

  -- Over no buckets, a refund of a live reservation only marks it.
  pub refund_empty :
      (reserved actual : Usage F) (scope : Option (List BucketId)) (rid : Option ℕ) (now : F)
      (b : Backend F) (refund : Usage F)
      → validate_backend_refund_usage_for_bucket_ids reserved actual
          (refund_scope scope b)
          (ids_of b.buckets)
        ≡ ok tt
      → refund_amounts reserved actual ≡ ok refund
      → is_empty (refund_scope scope b) ≡ true
      → check_acquired rid b ≡ ok tt
      → refund_capacity_for_buckets reserved actual scope rid now b ≡ (ok true, mark_refunded rid b)
  unfolding refund_capacity_for_buckets refund_locked mark_refunded
  refund_empty reserved actual scope none now b refund checked good empty live =
      ground (arith, checked, good, live, empty)
  refund_empty reserved actual scope (some rid) now b refund checked good empty live =
      ground (arith, checked, good, live, empty)

  pub refund_invalid :
      (reserved actual : Usage F) (scope : Option (List BucketId)) (rid : Option ℕ) (now : F)
      (b : Backend F) (e : Error)
      → validate_backend_refund_usage_for_bucket_ids reserved actual
          (refund_scope scope b)
          (ids_of b.buckets)
        ≡ err e
      → refund_capacity_for_buckets reserved actual scope rid now b ≡ (err e, b)
  unfolding refund_capacity_for_buckets
  refund_invalid reserved actual scope rid now b e bad = ground (arith, bad)

  pub check_acquired-none :
      (rid : Option ℕ) (b : Backend F) (e : Error)
      → check_acquired rid b ≡ err e
      → (k : ℕ) × (rid ≡ some k)
  unfolding check_acquired
  check_acquired-none none b e h = absurd (ground arith)
  check_acquired-none (some k) b e h = (k, refl)
