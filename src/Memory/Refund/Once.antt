-- ===== src/Memory/Refund/Once.antt =====
-- A reservation is refunded at most once, and every call of a refund keeps the backend's invariant.
use token_throttle.Base.Dict.{contains}
use token_throttle.Memory.Refund.Scope.{is_scoped}
use token_throttle.Memory.State.{Backend, id_of, ids_of}
use token_throttle.Base.{
  ℕ, ◌<◌, Bool, true, ◌≡◌, refl, ◌⊎◌, Option, some, List, [], ◌∷◌, arith, All, map, nat_eq, pair_eq,
  Bool-cases, inl, inr,
}
use token_throttle.Float.{Float, IsIeee}
use token_throttle.Exceptions.{
  Result, ok, err, Error, Result-cases, duplicate_refund, already_refunded,
}
use token_throttle.Capacity.Refill.{IsTime}
use token_throttle.Validation.{
  BucketId, Usage, is_empty, validate_backend_refund_usage_for_bucket_ids,
}
use token_throttle.Memory.Bucket.{MemoryBucket}
use token_throttle.Memory.Bucket.Limits.{IsValid}
use token_throttle.Memory.Invariant.{IsBackend, IsBackend-map, written-IsValid}
use token_throttle.Memory.Refund.{
  mark_refunded, check_acquired, refund_scope, refund_capacity_for_buckets,
}
use token_throttle.Memory.Refund.Bounds.{IsRefund, validate_backend-IsRefund}
use token_throttle.Memory.Refund.Effects.{
  refunded_bucket, refund_of, refund_capacity_for_buckets_buckets, All-given_finite,
}
use token_throttle.Memory.Refund.Marked.{mark_refunded-check, mark_refunded-IsBackend}
use token_throttle.Memory.Refund.Refusals.{
  refund_refused, refund_amounts-checked, refund_empty, refund_invalid, check_acquired-none,
}

module _ {F : Type 0} ⦃fl : Float F⦄ where
  -- How a refund may end: it raises and changes nothing, or returns from a backend that is marked.
  abbrev IsRefundEnd : Option ℕ → Backend F → Result Bool × Backend F → Type 0
  IsRefundEnd rid b p =
      ((e : Error) × (p ≡ (err e, b)))
      ⊎ ((c : Backend F) × (p ≡ (ok true, mark_refunded rid c))
          × IsBackend c
          × (c.refunded_ids_cap ≡ b.refunded_ids_cap))

module _ {F : Type 0} ⦃fl : Float F⦄ (laws : IsIeee fl) (now : F) (t : IsTime now) where
  refunded-IsValid :
      (reserved actual : Usage F) (ids : List BucketId) (bs : List (MemoryBucket F))
      → IsRefund reserved actual ids
      → All IsValid bs
      → All (λ k. IsValid (refunded_bucket now (refund_of reserved actual) ids k)) bs
  refunded-IsValid reserved actual ids [] h v = tt
  refunded-IsValid reserved actual ids (k ∷ bs) h v =
      let fin = (All-given_finite laws now t reserved actual ids (k ∷ bs) h v).0 in
      (
        elim (Bool-cases (is_scoped ids k)) [
          | inl s ↦ rw s (written-IsValid laws now _ true k t.finite fin v.0)
          | inr s ↦ rw s v.0
        ],
        refunded-IsValid reserved actual ids bs h v.1,
      )

  refunded_id :
      (r : ℕ → Option F) (ids : List BucketId) (k : MemoryBucket F)
      → id_of (refunded_bucket now r ids k) ≡ id_of k
  refunded_id r ids k = elim (Bool-cases (is_scoped ids k)) [
    | inl s ↦ rw s refl
    | inr s ↦ rw s refl
  ]

  refunded-IsBackend :
      (reserved actual : Usage F) (ids : List BucketId) (b : Backend F)
      → IsRefund reserved actual ids
      → IsBackend b
      → IsBackend (record b {
        buckets = map (refunded_bucket now (refund_of reserved actual) ids) b.buckets;
      })
  refunded-IsBackend reserved actual ids b h ib =
      let g = refunded_bucket now (refund_of reserved actual) ids in
      IsBackend-map g b b (refunded_id (refund_of reserved actual) ids) ib refl ib.registry
        (refunded-IsValid reserved actual ids b.buckets h ib.valid)

  refund_live :
      (reserved actual : Usage F) (scope : Option (List BucketId)) (rid : Option ℕ) (b : Backend F)
      → IsBackend b
      → validate_backend_refund_usage_for_bucket_ids reserved actual
          (refund_scope scope b)
          (ids_of b.buckets)
        ≡ ok tt
      → check_acquired rid b ≡ ok tt
      → IsRefundEnd rid b (refund_capacity_for_buckets reserved actual scope rid now b)
  refund_live reserved actual scope rid b ib checked live =
      let ids = refund_scope scope b in
      elim (Bool-cases (is_empty ids)) [
        | inl empty ↦
            let (refund, good) =
              refund_amounts-checked reserved actual ids (ids_of b.buckets) checked in
            inr (
              b,
              refund_empty reserved actual scope rid now b refund checked good empty live,
              ib,
              refl,
            )
        | inr full ↦
            let h = validate_backend-IsRefund reserved actual ids (ids_of b.buckets) full checked in
            inr (
              _,
              (refund_capacity_for_buckets_buckets laws now t reserved actual scope rid b ib full
                  checked live).0,
              refunded-IsBackend reserved actual ids b h ib,
              refl,
            )
      ]

  refund-cases :
      (reserved actual : Usage F) (scope : Option (List BucketId)) (rid : Option ℕ) (b : Backend F)
      → IsBackend b
      → IsRefundEnd rid b (refund_capacity_for_buckets reserved actual scope rid now b)
  refund-cases reserved actual scope rid b ib =
      let ids = refund_scope scope b in
      elim (Result-cases
        (validate_backend_refund_usage_for_bucket_ids reserved actual ids (ids_of b.buckets))) [
          | inr (e, bad) ↦ inl (e, refund_invalid reserved actual scope rid now b e bad)
          | inl (_, checked) ↦ elim (Result-cases (check_acquired rid b)) [
            | inl (_, live) ↦ refund_live reserved actual scope rid b ib checked live
            | inr (e, dead) ↦
                let (refund, good) =
                  refund_amounts-checked reserved actual ids (ids_of b.buckets) checked in
                let (k, named) = check_acquired-none rid b e dead in
                inl (
                  e,
                  rw named (
                      refund_refused reserved actual scope k now b e refund checked good
                        (rw named at dead)),
                )
          ]
        ]

  -- The invariant of the backend outlasts every refund, also one that raises.
  pub refund_capacity_for_buckets-IsBackend :
      (reserved actual : Usage F) (scope : Option (List BucketId)) (rid : Option ℕ) (b : Backend F)
      → IsBackend b
      → IsBackend (refund_capacity_for_buckets reserved actual scope rid now b).1
  refund_capacity_for_buckets-IsBackend reserved actual scope rid b ib =
      elim (refund-cases reserved actual scope rid b ib) [
        | inl (e, same) ↦ rw same ib
        | inr (c, marked, ic, _) ↦ rw marked (mark_refunded-IsBackend rid c ic)
      ]

  refunded_dead :
      (reserved actual : Usage F) (scope : Option (List BucketId)) (rid : ℕ) (b : Backend F)
      → IsBackend b
      → 0 < b.refunded_ids_cap
      → (refund_capacity_for_buckets reserved actual scope (some rid) now b).0 ≡ ok true
      → check_acquired
          (some rid)
          (refund_capacity_for_buckets reserved actual scope (some rid) now b).1
        ≡ err (duplicate_refund already_refunded rid)
  unfolding check_acquired
  refunded_dead reserved actual scope rid b ib p done =
      elim (refund-cases reserved actual scope (some rid) b ib) [
        | inl (e, failed) ↦ absurd (ground (arith, failed, done))
        | inr (c, marked, ic, limit) ↦
            let (gone, seen) = mark_refunded-check rid c (rw limit p) ic.registry in
            rw marked (rw (gone, seen) refl)
      ]

  -- A reservation is refunded once: after a call that names it has returned, on a backend that
  -- remembers at least one refund, a call that names it with usage that passes the checks raises
  -- DuplicateRefundError (already refunded) and changes nothing, in the state that the first call left
  -- and in every state in which the id is among the acquired and the refunded ones as it was then.
  pub refund_capacity_for_buckets_once :
      (reserved actual reserved' actual' : Usage F) (scope scope' : Option (List BucketId))
      (rid : ℕ) (later : F) (b m : Backend F)
      → IsBackend b
      → 0 < b.refunded_ids_cap
      → let after = (refund_capacity_for_buckets reserved actual scope (some rid) now b).1 in
        (refund_capacity_for_buckets reserved actual scope (some rid) now b).0 ≡ ok true
        → contains m.acquired_ids rid ≡ contains after.acquired_ids rid
        → contains m.refunded_ids rid ≡ contains after.refunded_ids rid
        → validate_backend_refund_usage_for_bucket_ids reserved' actual'
            (refund_scope scope' m)
            (ids_of m.buckets)
          ≡ ok tt
        → refund_capacity_for_buckets reserved' actual' scope' (some rid) later m
          ≡ (err (duplicate_refund already_refunded rid), m)
  unfolding check_acquired
  refund_capacity_for_buckets_once reserved actual reserved' actual' scope scope' rid later b m ib p
        done acquired refunded checked =
      let (refund, good) =
        refund_amounts-checked reserved' actual' (refund_scope scope' m) (ids_of m.buckets)
          checked in
      refund_refused reserved' actual' scope' rid later m (duplicate_refund already_refunded rid)
        refund checked good
        (rw (acquired, refunded) (refunded_dead reserved actual scope rid b ib p done))
