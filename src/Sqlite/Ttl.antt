-- ===== src/Sqlite/Ttl.antt =====
-- token_throttle/_limiter_backends/_debt_ttl.py and _sqlite/_ttl.py: how long a row is kept.
pub mod Cover
use token_throttle.Base.{
  ℕ, ◌*◌, Bool, true, false, not, ◌||◌, Option, none, some, List, [], ◌∷◌, any, if◌then◌else◌, ltb,
}
use token_throttle.Base.Int.{ℤ, pos, negsuc}
use token_throttle.Float.{Float, min_f, zero_f}
use token_throttle.Exceptions.{
  Result, ok, err, value_error, type_error, other_error, ◌>>=◌, ◌>>◌, raise_if, out_of_range,
  not_positive, too_large, bad_safety_margin, ttl_too_short, debt_too_long,
}
use token_throttle.Capacity.{PyValue, py_none, py_bool, py_int, py_float, or_raise}

abbrev pub max_state_ttl_seconds : ℕ
max_state_ttl_seconds = 2_147_483_647

abbrev pub max_ℕ : ℕ → ℕ → ℕ
max_ℕ a b = if ltb a b then b else a

abbrev pub min_ℕ : ℕ → ℕ → ℕ
min_ℕ a b = if ltb b a then b else a

-- From the windows of the quotas, `quota.per_seconds`.
unfoldable pub validate_bucket_ttl_covers_quota_windows : ℕ → List ℕ → Result (Unit {0})
validate_bucket_ttl_covers_quota_windows bucket_ttl_seconds windows =
    raise_if (any (λ per_seconds. ltb bucket_ttl_seconds (2 * per_seconds)) windows)
      (value_error ttl_too_short)

module _ {F : Type 0} ⦃fl : Float F⦄ where
  open fl use {add, mul, div, neg, from_nat, from_int, lt, le, eq, is_finite, ceil, next_to_zero}

  -- The seconds until a debt is repaid at the slower of two rates, and one window more.
  abbrev pub repayment : F → ℕ → F → F → F
  repayment capacity per_seconds max_capacity configured =
      mul (add (from_nat 1) (div (neg capacity) (min_f max_capacity configured)))
        (from_nat per_seconds)

  -- A division by zero raises ZeroDivisionError.
  unfoldable pub debt_ttl_seconds : F → ℕ → ℕ → F → F → Result ℕ
  debt_ttl_seconds capacity bucket_ttl_seconds per_seconds max_capacity configured =
      if le zero_f capacity then ok bucket_ttl_seconds else do
        raise_if (eq (min_f max_capacity configured) zero_f) other_error
        let required = repayment capacity per_seconds max_capacity configured
        raise_if (not (is_finite required) || lt (from_nat max_state_ttl_seconds) required)
            (value_error debt_too_long)
        ok (max_ℕ bucket_ttl_seconds (ceil required))

  -- `type(value) is not int`; a bool is not an exact int.
  unfoldable pub validate_sqlite_ttl_seconds : PyValue F → Result ℕ
  validate_sqlite_ttl_seconds (py_int (pos n)) = do
    raise_if (not (ltb 0 n)) (value_error not_positive)
    raise_if (ltb max_state_ttl_seconds n) (value_error too_large)
    ok n
  validate_sqlite_ttl_seconds (py_int (negsuc n)) = err (value_error not_positive)
  validate_sqlite_ttl_seconds _ = err type_error

  check_lifetime : F → Result (Option F)
  check_lifetime x = do
    raise_if (not (is_finite x) || le x zero_f) (value_error not_positive)
    raise_if (lt (from_nat max_state_ttl_seconds) x) (value_error too_large)
    ok (some x)

  -- `float` of a huge int raises OverflowError.
  unfoldable pub validate_max_reservation_lifetime_seconds : PyValue F → Result (Option F)
  unfolding check_lifetime
  validate_max_reservation_lifetime_seconds py_none = ok none
  validate_max_reservation_lifetime_seconds (py_int n) = do
    x ← or_raise (from_int n) other_error
    check_lifetime x
  validate_max_reservation_lifetime_seconds (py_float x) = check_lifetime x
  validate_max_reservation_lifetime_seconds _ = err (value_error not_positive)

  check_margin : F → Result F
  check_margin x = do
    raise_if (not (is_finite x) || le x (from_nat 1)) (value_error bad_safety_margin)
    ok x

  unfoldable pub validate_safety_margin : PyValue F → Result F
  unfolding check_margin
  validate_safety_margin (py_int n) = do x ← or_raise (from_int n) other_error; check_margin x
  validate_safety_margin (py_float x) = check_margin x
  validate_safety_margin _ = err (value_error bad_safety_margin)

  unfoldable pub derive_default_max_reservation_lifetime_seconds_from_ttls :
      PyValue F → PyValue F → PyValue F → Result F
  unfolding validate_safety_margin validate_sqlite_ttl_seconds
  derive_default_max_reservation_lifetime_seconds_from_ttls bucket_ttl refund_ttl safety_margin = do
    margin ← validate_safety_margin safety_margin
    bucket ← validate_sqlite_ttl_seconds bucket_ttl
    refund ← validate_sqlite_ttl_seconds refund_ttl
    ok (next_to_zero (div (from_nat (min_ℕ bucket refund)) margin))

  -- `float(ttl) <= required_ttl` for one of the two.
  abbrev pub is_too_short : F → ℕ → ℕ → Bool
  is_too_short required bucket refund =
      any (λ ttl. le (from_nat ttl) required) (bucket ∷ refund ∷ [])

  -- Under a limit on the lifetime.
  unfoldable pub check_ttls : F → PyValue F → PyValue F → PyValue F → Result (Unit {0})
  unfolding validate_safety_margin validate_sqlite_ttl_seconds
  check_ttls max_lifetime bucket_ttl refund_ttl safety_margin = do
    margin ← validate_safety_margin safety_margin
    bucket ← validate_sqlite_ttl_seconds bucket_ttl
    refund ← validate_sqlite_ttl_seconds refund_ttl
    raise_if (is_too_short (mul max_lifetime margin) bucket refund) (value_error ttl_too_short)

  check_ttls_if : Option F → PyValue F → PyValue F → PyValue F → Result (Unit {0})
  unfolding check_ttls
  check_ttls_if none bucket_ttl refund_ttl safety_margin = ok tt
  check_ttls_if (some max_lifetime) bucket_ttl refund_ttl safety_margin =
      check_ttls max_lifetime bucket_ttl refund_ttl safety_margin

  unfoldable pub validate_reservation_lifetime_ttl_invariant :
      PyValue F → PyValue F → PyValue F → PyValue F → Result (Unit {0})
  unfolding check_ttls_if validate_max_reservation_lifetime_seconds
  validate_reservation_lifetime_ttl_invariant max_lifetime bucket_ttl refund_ttl safety_margin = do
    limit ← validate_max_reservation_lifetime_seconds max_lifetime
    check_ttls_if limit bucket_ttl refund_ttl safety_margin

  resolve_limit : Option F → PyValue F → PyValue F → PyValue F → Result F
  unfolding derive_default_max_reservation_lifetime_seconds_from_ttls
      validate_reservation_lifetime_ttl_invariant
  resolve_limit none bucket_ttl refund_ttl safety_margin =
      derive_default_max_reservation_lifetime_seconds_from_ttls bucket_ttl refund_ttl safety_margin
  resolve_limit (some limit) bucket_ttl refund_ttl safety_margin = do
    validate_reservation_lifetime_ttl_invariant (py_float limit) bucket_ttl refund_ttl safety_margin
    ok limit

  unfoldable pub resolve_max_reservation_lifetime_seconds_from_ttls :
      PyValue F → PyValue F → PyValue F → PyValue F → Result F
  unfolding resolve_limit validate_max_reservation_lifetime_seconds
  resolve_max_reservation_lifetime_seconds_from_ttls max_lifetime bucket_ttl refund_ttl
        safety_margin =
      do
        limit ← validate_max_reservation_lifetime_seconds max_lifetime
        resolve_limit limit bucket_ttl refund_ttl safety_margin
