-- ===== src/Memory/Refund.antt =====
-- _memory/_sync_backend.py, `refund_capacity` and `refund_capacity_for_buckets`: the difference of
-- reserved and actual usage goes back to the buckets in scope, once for each reservation. The
-- arguments that the method drops, log records, warnings and callbacks are left out.
pub mod Scope
pub mod Bounds
pub mod Effects
pub mod Marked
pub mod Refusals
pub mod Once
use token_throttle.Base.{
  ℕ, Bool, true, false, not, ◌&&◌, Option, none, some, List, [], ◌∷◌, filter, if◌then◌else◌, ◌==◌,
  nat_eq, pair_eq,
}
use token_throttle.Base.Dict.{Dict, lookup, contains}
use token_throttle.Float.{Float, max_f, min_f}
use token_throttle.Exceptions.{
  Result, ok, err, other_error, duplicate_refund, already_refunded, unknown_reservation,
}
use token_throttle.Exceptions
use token_throttle.Action.{Action, ◌>>=◌, ◌>>◌, pure, raise, lift, gets, modify, branch}
use token_throttle.Validation.{
  BucketId, Usage, is_empty, validate_backend_refund_usage_for_bucket_ids,
}
use token_throttle.Memory.Bucket.{MemoryBucket}
use token_throttle.Memory.State.{
  Backend, Capacities, get_capacities, write_capacities, registered, ids_of,
}
use token_throttle.Memory.Reservations.{
  remember_refunded_reservation_id, forget_acquired_reservation,
}

abbrev pub is_unnamed : Option ℕ → Bool
is_unnamed none = true
is_unnamed (some _) = false

module _ {F : Type 0} where
  unfoldable pub mark_refunded : Option ℕ → Backend F → Backend F
  unfolding remember_refunded_reservation_id forget_acquired_reservation
  mark_refunded none b = b
  mark_refunded (some rid) b =
      remember_refunded_reservation_id rid (forget_acquired_reservation rid b)

  unfoldable pub check_acquired : Option ℕ → Backend F → Result (Unit {0})
  check_acquired none b = ok tt
  check_acquired (some rid) b =
      if contains b.acquired_ids rid
      then ok tt
      else if contains b.refunded_ids rid
      then err (duplicate_refund already_refunded rid)
      else err (unknown_reservation rid false)

module _ {F : Type 0} ⦃fl : Float F⦄ where
  open fl use {add, sub, neg}

  abbrev pub difference : F → Option F → Result F
  difference reserved none = err other_error
  difference reserved (some actual) = ok (sub reserved actual)

  -- `refund_usage`: a metric of the reservation that the actual usage lacks is a KeyError.
  unfoldable pub refund_amounts : Usage F → Usage F → Result (Usage F)
  refund_amounts [] actual = ok []
  refund_amounts ((metric, reserved) ∷ usage) actual =
      Exceptions.◌>>=◌ (difference reserved (lookup actual metric)) λ amount.
        Exceptions.◌>>=◌ (refund_amounts usage actual) λ rest. ok ((metric, amount) ∷ rest)

  -- The capacity of a bucket after a refund, at least minus its maximum and at most its maximum.
  abbrev pub refunded_amount : F → F → F → F
  refunded_amount amount refund maximum =
      max_f (neg maximum) (min_f (add amount (max_f refund (neg maximum))) maximum)

  abbrev pub refund_bucket : F → F → Option (MemoryBucket F) → Result F
  refund_bucket amount refund none = err other_error
  refund_bucket amount refund (some b) = ok (refunded_amount amount refund b.max_capacity)

  abbrev pub refund_entry : F → Bool → Option F → Option (MemoryBucket F) → Result F
  refund_entry amount false refund b = ok amount
  refund_entry amount true none b = ok amount
  refund_entry amount true (some refund) b = refund_bucket amount refund b

  -- `updated_capacities`
  unfoldable pub updated_capacities :
      Usage F → List BucketId → List (MemoryBucket F) → Capacities F → Result (Capacities F)
  updated_capacities refund ids buckets [] = ok []
  updated_capacities refund ids buckets ((id, amount) ∷ cs) =
      Exceptions.◌>>=◌
        (refund_entry amount (contains ids id) (lookup refund id.0) (registered buckets id))
        λ x. Exceptions.◌>>=◌ (updated_capacities refund ids buckets cs) λ rest. ok ((id, x) ∷ rest)

  -- The entries of buckets in scope.
  abbrev pub in_scope : List BucketId → Capacities F → Capacities F
  in_scope ids cs = filter (λ (c : BucketId × F). contains ids c.0) cs

  unfoldable pub refund_scoped : Usage F → List BucketId → Option ℕ → F → Action (Backend F) Bool
  unfolding get_capacities write_capacities updated_capacities mark_refunded
  refund_scoped refund ids rid current_time = do
    buckets ← gets (λ b. b.buckets)
    pre ← lift (get_capacities current_time buckets)
    updated ← lift (updated_capacities refund ids buckets pre)
    write_capacities (in_scope ids updated) current_time true
    modify (mark_refunded rid)
    pure true

  -- The part under the lock.
  unfoldable pub refund_locked : Usage F → List BucketId → Option ℕ → F → Action (Backend F) Bool
  unfolding refund_scoped mark_refunded check_acquired
  refund_locked refund ids rid current_time = do
    checked ← (λ b. (check_acquired rid b, b))
    branch (is_empty ids) (do modify (mark_refunded rid); pure true)
        (refund_scoped refund ids rid current_time)

  abbrev pub refund_scope : Option (List BucketId) → Backend F → List BucketId
  refund_scope none b = ids_of b.buckets
  refund_scope (some ids) b = ids

  unfoldable pub refund_capacity_for_buckets :
      Usage F → Usage F → Option (List BucketId) → Option ℕ → F → Action (Backend F) Bool
  unfolding refund_locked refund_amounts validate_backend_refund_usage_for_bucket_ids
  refund_capacity_for_buckets reserved actual bucket_ids rid current_time = do
    ids ← gets (refund_scope bucket_ids)
    backend_ids ← gets (λ b. ids_of b.buckets)
    lift (validate_backend_refund_usage_for_bucket_ids reserved actual ids backend_ids)
    branch (is_empty ids && is_unnamed rid) (pure true) (do
      refund ← lift (refund_amounts reserved actual)
      refund_locked refund ids rid current_time)

  -- `refund_capacity`: without a reservation, over all buckets.
  unfoldable pub refund_capacity : Usage F → Usage F → F → Action (Backend F) Bool
  unfolding refund_capacity_for_buckets
  refund_capacity reserved actual current_time = do
    ids ← gets (λ b. ids_of b.buckets)
    refund_capacity_for_buckets reserved actual (some ids) none current_time
