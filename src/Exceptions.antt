-- ===== src/Exceptions.antt =====
-- token_throttle/_exceptions.py: the exceptions as values, and the two ways a call ends. A message
-- is left out; what tells two exceptions apart in the code (class and reason) is kept.
use token_throttle.Base.{ℕ, Bool, true, false, ◌≡◌, refl, ◌⊎◌, inl, inr}

pub data DuplicateRefundReason : Type 0 where
  already_refunded in_progress duplicate_acquire : DuplicateRefundReason

-- Why a ValueError was raised.
pub data Reason : Type 0 where
  is_boolean not_a_number too_large not_finite not_positive is_negative : Reason
  bad_current_time bad_stored_state bad_rate bad_amount : Reason
  keys_mismatch inactive_metrics exceeds_max_capacity bucket_not_found : Reason
  empty_bucket_ids unknown_bucket_ids backend_not_found : Reason
  out_of_range ttl_too_short missing_issue_time lifetime_exceeded : Reason
  bad_safety_margin debt_too_long missing_marker_metadata : Reason
  changed_model_family inconsistent_family : Reason

pub data Error : Type 0 where
  value_error : Reason → Error
  type_error : Error
  duplicate_refund : DuplicateRefundReason → ℕ → Error
  -- the flag is `_unknown_reservation_should_forget_in_flight`
  unknown_reservation : ℕ → Bool → Error
  cardinality_limit_exceeded : Error
  timeout_error : Error
  -- BackendLockContentionError
  lock_contention : Error
  -- AcquireRefundFailedError, of that reservation
  acquire_refund_failed : ℕ → Error
  -- RuntimeError of a closed limiter
  closed_error : Error
  -- any other exception of the code that is called
  other_error : Error

-- How a call ends that returns a `V`.
pub data Result {ℓ} (V : Type ℓ) : Type ℓ where
  err : Error → Result V
  ok : V → Result V

-- `if test: raise e`
abbrev pub raise_if : Bool → Error → Result (Unit {0})
raise_if false e = ok tt
raise_if true e = err e

infixl 5 ◌>>◌ ◌>>=◌
-- One call after another that writes nothing.
abbrev pub ◌>>◌ {κ} : {W : Type κ} → Result (Unit {0}) → Result W → Result W
err e >> next = err e
ok _ >> next = next

abbrev pub ◌>>=◌ {ℓ κ} : {V : Type ℓ} {W : Type κ} → Result V → (V → Result W) → Result W
err e >>= next = err e
ok v >>= next = next v

abbrev pub is_ok {ℓ} : {V : Type ℓ} → Result V → Bool
is_ok (err _) = false
is_ok (ok _) = true

pub Result-cases {ℓ} :
    {V : Type ℓ} (q : Result V) → ((v : V) × (q ≡ ok v)) ⊎ ((e : Error) × (q ≡ err e))
Result-cases (err e) = inr (e, refl)
Result-cases (ok v) = inl (v, refl)
