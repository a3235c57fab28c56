-- ===== src/Tests/Calls.antt =====
-- Calls of the in-memory backend on the shared data.
use token_throttle.Base.{
  ◌≡◌, refl, Bool, true, false, some, none, [], ◌∷◌, arith, All, map, ◌==◌, nat_eq, pair_eq, ◌⊎◌,
  ap,
}
use token_throttle.Base.Dict.{lookup}
use token_throttle.Base.Int.{ℤ, pos}
use token_throttle.Float.Ints.{ints, ints-IsIeee}
use token_throttle.Exceptions.{
  timeout_error, Result, ok, err, value_error, exceeds_max_capacity, duplicate_refund,
  already_refunded,
}
use token_throttle.Capacity.{elapsed, py_float, calculate_capacity}
use token_throttle.Memory.Bucket.{get_capacity}
use token_throttle.Validation.{
  Usage, validate_backend_usage, validate_usage_mapping, check_values, coerce_usage_value,
  validate_refund_usage, validate_backend_refund_usage_for_bucket_ids,
}
use token_throttle.Memory.State.{Backend, ids_of}
use token_throttle.Memory.State.Pointwise.{written, amounts}
use token_throttle.Memory.State.Reads.{available}
use token_throttle.Memory.Reservations.{is_replay, is_replayed_acquire, record_if_named}
use token_throttle.Memory.Invariant.{IsBackend, IsWithin}
use token_throttle.Memory.Consume.{consume_capacity}
use token_throttle.Memory.Consume.Record.{drawn}
use token_throttle.Memory.Consume.Effects.{
  consume_capacity_buckets, consume_capacity-IsBackend, consume_capacity_replay,
}
use token_throttle.Memory.Wait.{
  attempt, blocked, acquired, raised, Call, Round, Interruption, wait_loop, wait_for_capacity,
}
use token_throttle.Memory.Wait.Unspent.{IsFrame, wait_for_capacity_unspent}
use token_throttle.Memory.Wait.Rounds.{wait_for_capacity-IsBackend}
use token_throttle.Memory.Wait.Admission.{HasEnough, taken, IsPaid}
use token_throttle.Memory.Wait.Fits.{all_fit}
use token_throttle.Memory.Wait.Loop.{IsEnd, attempt_decides, wait_loop_ends}
use token_throttle.Memory.Refund.{
  mark_refunded, check_acquired, refund_scope, refund_capacity_for_buckets,
}
use token_throttle.Memory.Refund.Effects.{
  refunded_bucket, refund_of, IsSettled, refund_capacity_for_buckets_buckets,
}
use token_throttle.Memory.Refund.Once.{
  refund_capacity_for_buckets-IsBackend, refund_capacity_for_buckets_once,
}
use token_throttle.Tests.{backend, backend-IsBackend, usage, ten, ten-IsTime}

usage_passes : validate_backend_usage usage backend.usage_metric_names ≡ ok tt
unfolding validate_backend_usage validate_usage_mapping check_values coerce_usage_value
usage_passes = refl

new_reservation : is_replay (some 9) usage backend ≡ ok false
unfolding is_replay is_replayed_acquire
new_reservation = refl

consume_capacity_buckets_example :
    (consume_capacity usage (some 9) ten backend ≡ (
      ok ten,
      record (record_if_named (some 9) usage backend) {
        buckets = map (λ k. written ten true (drawn ten usage k) k) backend.buckets;
      },
    ))
    × All IsWithin (map (λ k. written ten true (drawn ten usage k) k) backend.buckets)
consume_capacity_buckets_example =
    consume_capacity_buckets ints-IsIeee usage (some 9) ten backend ten-IsTime backend-IsBackend
      usage_passes new_reservation

consume_capacity-IsBackend_example : IsBackend (consume_capacity usage (some 9) ten backend).1
consume_capacity-IsBackend_example =
    consume_capacity-IsBackend ints-IsIeee usage (some 9) ten backend ten-IsTime backend-IsBackend

consume_capacity_replay_example :
    let after = (consume_capacity usage (some 9) ten backend).1 in
    consume_capacity usage (some 9) (pos 20) after ≡ (ok (pos 20), after)
consume_capacity_replay_example =
    consume_capacity_replay ints-IsIeee usage 9 ten (pos 20) backend ten-IsTime backend-IsBackend
      (refl, (refl, tt)) usage_passes new_reservation

attempt_decides_example :
    ((all_fit usage (λ k. k.max_capacity) backend.buckets ≡ false)
      × (attempt usage (some 9) ten backend ≡ (err (value_error exceeds_max_capacity), backend)))
    ⊎ ((all_fit usage (λ k. k.max_capacity) backend.buckets ≡ true)
        × (all_fit usage (available ten) backend.buckets ≡ false)
        × (attempt usage (some 9) ten backend
            ≡ (ok (blocked (amounts (available ten) backend.buckets)), backend)))
    ⊎ ((all_fit usage (λ k. k.max_capacity) backend.buckets ≡ true)
        × (all_fit usage (available ten) backend.buckets ≡ true)
        × All (λ k. HasEnough (available ten k) (lookup usage k.usage_metric)) backend.buckets
        × (attempt usage (some 9) ten backend ≡ (
          ok (acquired (amounts (taken ten usage) backend.buckets)),
          record (record_if_named (some 9) usage backend) {
            buckets = map (λ k. written ten false (taken ten usage k) k) backend.buckets;
          },
        ))
        × All IsPaid (map (λ k. written ten false (taken ten usage k) k) backend.buckets))
attempt_decides_example =
    attempt_decides ints-IsIeee usage (some 9) ten backend ten-IsTime backend-IsBackend usage_passes
      new_reservation

-- The usage fits, so the example above is its third case.
enough_test : all_fit usage (available ten) backend.buckets ≡ true
unfolding elapsed
enough_test = refl

abbrev late_call : Call ℤ
late_call = record {
  usage = usage;
  reservation_id = none;
  waiter_key = 1;
  deadline = some (pos 5);
  has_wait_start = false;
}

abbrev late_round : Round ℤ
late_round = record {
  now = pos 1;
  checked_at = pos 5;
  callback_started = pos 5;
  callback_ended = pos 5;
  callback_raises = false;
  others = λ b. b;
}

wait_loop_ends_example : IsEnd late_call (wait_loop late_call true (late_round ∷ []) backend)
wait_loop_ends_example = wait_loop_ends late_call true (late_round ∷ []) backend refl

-- At time 10 every bucket has enough.
abbrev early_round : Round ℤ
early_round = record late_round { now = ten }

-- Only the first bucket is still the one that was taken from when the consumption is given back.
abbrev dropping : Interruption ℤ
dropping = record { others = λ b. b; kept = λ id. id == (1, 60); at = ten }

wait_for_capacity-IsBackend_example :
    IsBackend
      (wait_for_capacity usage
        (py_float (pos 4))
        (some 9)
        1
        false
        (pos 1)
        (early_round ∷ [])
        (some dropping)
        backend).1
wait_for_capacity-IsBackend_example =
    wait_for_capacity-IsBackend ints-IsIeee usage (py_float (pos 4)) (some 9) 1 false (pos 1)
      (early_round ∷ []) (some dropping) backend
      (record { time = ten-IsTime; others = λ b ib. ib }, tt)
      (record { time = ten-IsTime; others = λ b ib. ib }) backend-IsBackend

abbrev IsSameBuckets : Backend ℤ → Backend ℤ → Type 0
IsSameBuckets b d = d.buckets ≡ b.buckets

IsSameBuckets-IsFrame : IsFrame IsSameBuckets
IsSameBuckets-IsFrame = record { same = λ b. refl; join = λ p q. cc; waiters = λ ws b. refl }

-- At time 1 the first bucket holds 110 of the 120 wanted, and the check at time 5 is past the deadline.
late_call_raises :
    (wait_for_capacity usage
      (py_float (pos 4))
      (some 9)
      1
      false
      (pos 1)
      (late_round ∷ [])
      none
      backend).0
    ≡ raised timeout_error
unfolding wait_for_capacity elapsed validate_backend_usage validate_usage_mapping check_values
    coerce_usage_value attempt get_capacity calculate_capacity
late_call_raises = refl

wait_for_capacity_unspent_example :
    IsSameBuckets backend
      (wait_for_capacity usage
        (py_float (pos 4))
        (some 9)
        1
        false
        (pos 1)
        (late_round ∷ [])
        none
        backend).1
wait_for_capacity_unspent_example =
    wait_for_capacity_unspent IsSameBuckets IsSameBuckets-IsFrame timeout_error ints-IsIeee usage
      (py_float (pos 4)) (some 9) 1 false (pos 1) (late_round ∷ []) backend
      (record { time = record { finite = refl; nonneg = refl }; others = λ b ib. ib }, tt)
      ((λ b. refl), tt) backend-IsBackend late_call_raises

abbrev reserved : Usage ℤ
reserved = (1, pos 90) ∷ (2, pos 5) ∷ []

abbrev actual : Usage ℤ
actual = (1, pos 60) ∷ (2, pos 9) ∷ []

refund_passes :
    validate_backend_refund_usage_for_bucket_ids reserved actual
      (refund_scope none backend)
      (ids_of backend.buckets)
    ≡ ok tt
unfolding validate_backend_refund_usage_for_bucket_ids validate_refund_usage validate_usage_mapping
    check_values coerce_usage_value
refund_passes = refl

live : check_acquired (some 7) backend ≡ ok tt
unfolding check_acquired
live = refl

refund_capacity_for_buckets_buckets_example :
    let ids = refund_scope none backend in
    (refund_capacity_for_buckets reserved actual none (some 7) ten backend ≡ (
      ok true,
      mark_refunded (some 7) (record backend {
        buckets = map (refunded_bucket ten (refund_of reserved actual) ids) backend.buckets;
      }),
    ))
    × All (IsSettled ten (refund_of reserved actual) ids) backend.buckets
refund_capacity_for_buckets_buckets_example =
    refund_capacity_for_buckets_buckets ints-IsIeee ten ten-IsTime reserved actual none (some 7)
      backend backend-IsBackend refl refund_passes live

refund_capacity_for_buckets-IsBackend_example :
    IsBackend (refund_capacity_for_buckets reserved actual none (some 7) ten backend).1
refund_capacity_for_buckets-IsBackend_example =
    refund_capacity_for_buckets-IsBackend ints-IsIeee ten ten-IsTime reserved actual none (some 7)
      backend backend-IsBackend

-- The first refund returns.
first_returns : (refund_capacity_for_buckets reserved actual none (some 7) ten backend).0 ≡ ok true
first_returns =
    ap (λ (p : Result Bool × Backend ℤ). p.0)
      (refund_capacity_for_buckets_buckets ints-IsIeee ten ten-IsTime reserved actual none (some 7)
        backend backend-IsBackend refl refund_passes live).0

second_passes :
    (b : Backend ℤ)
    → validate_backend_refund_usage_for_bucket_ids {F = ℤ} [] []
        (refund_scope (some []) b)
        (ids_of b.buckets)
      ≡ ok tt
unfolding validate_backend_refund_usage_for_bucket_ids
second_passes b = refl

refund_capacity_for_buckets_once_example :
    let after = (refund_capacity_for_buckets reserved actual none (some 7) ten backend).1 in
    refund_capacity_for_buckets [] [] (some []) (some 7) (pos 20) after
    ≡ (err (duplicate_refund already_refunded 7), after)
refund_capacity_for_buckets_once_example =
    refund_capacity_for_buckets_once ints-IsIeee ten ten-IsTime reserved actual [] [] none (some [])
      7 (pos 20) backend (refund_capacity_for_buckets reserved actual none (some 7) ten backend).1
      backend-IsBackend (omega arith) first_returns refl refl
      (second_passes (refund_capacity_for_buckets reserved actual none (some 7) ten backend).1)
