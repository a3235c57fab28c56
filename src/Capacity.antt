-- ===== src/Capacity.antt =====
-- token_throttle/_capacity.py: the token bucket's arithmetic. Warnings and their rate limit
-- (`_backward_clock_warned`) change no result and are left out.
pub mod Refill
pub mod Checks
use token_throttle.Base.{
  pair_eq, ℕ, Bool, true, false, not, ◌||◌, Option, none, some, if◌then◌else◌, ◌==◌, nat_eq,
}
use Prim.Native.String.{String}
use token_throttle.Base.Int.{ℤ}
use token_throttle.Float.{Float, min_f, zero_f}
use token_throttle.Exceptions.{
  Error, Result, ok, err, value_error, ◌>>=◌, ◌>>◌, raise_if, is_boolean, not_a_number, too_large,
  not_positive, bad_current_time, bad_stored_state, bad_rate, bad_amount,
}

-- What an argument annotated `object` may hold.
pub data PyValue (F : Type 0) : Type 0 where
  py_none : PyValue F
  py_bool : Bool → PyValue F
  py_int : ℤ → PyValue F
  py_float : F → PyValue F
  py_text : String → PyValue F
  -- any other object, which `float` refuses
  py_other : PyValue F

pub record CalculatedCapacity (F : Type 0) : Type 0 where
  pub amount : F
  pub is_fresh_start : Bool

abbrev pub or_raise {ℓ} : {A : Type ℓ} → Option A → Error → Result A
or_raise none e = err e
or_raise (some a) e = ok a

module _ {F : Type 0} ⦃fl : Float F⦄ where
  open fl use {add, sub, mul, div, from_nat, from_int, from_text, nano, lt, le, is_finite}

  -- `float(value)`; `none` where it raises TypeError, ValueError or OverflowError.
  unfoldable pub to_float : PyValue F → Option F
  to_float py_none = none
  to_float (py_bool true) = some (from_nat 1)
  to_float (py_bool false) = some (from_nat 0)
  to_float (py_int n) = from_int n
  to_float (py_float x) = some x
  to_float (py_text s) = from_text s
  to_float py_other = none

  unfoldable pub is_py_none : PyValue F → Bool
  is_py_none py_none = true
  is_py_none _ = false

  unfoldable pub validate_plain_number : PyValue F → Result F
  validate_plain_number (py_bool _) = err (value_error is_boolean)
  validate_plain_number (py_float x) = ok x
  validate_plain_number (py_int n) = or_raise (from_int n) (value_error too_large)
  validate_plain_number _ = err (value_error not_a_number)

  unfoldable pub validate_max_capacity_finite_positive : PyValue F → Result F
  unfolding validate_plain_number
  validate_max_capacity_finite_positive value = do
    x ← validate_plain_number value
    raise_if (not (is_finite x) || lt x nano) (value_error not_positive)
    ok x

  unfoldable pub validate_rate_per_sec_finite_positive : PyValue F → Result F
  unfolding validate_plain_number
  validate_rate_per_sec_finite_positive value = do
    x ← validate_plain_number value
    raise_if (not (is_finite x) || le x zero_f) (value_error bad_rate)
    ok x

  -- A division by `float(0)` raises ZeroDivisionError, which becomes the same ValueError.
  unfoldable pub calculate_rate_per_sec : F → ℕ → Result F
  unfolding validate_rate_per_sec_finite_positive
  calculate_rate_per_sec max_capacity per_seconds = do
    raise_if (per_seconds == 0) (value_error bad_rate)
    validate_rate_per_sec_finite_positive (py_float (div max_capacity (from_nat per_seconds)))

  -- The constructor's validator.
  unfoldable pub new_calculated_capacity : F → Bool → Result (CalculatedCapacity F)
  new_calculated_capacity amount is_fresh_start = do
    raise_if (not (is_finite amount)) (value_error bad_amount)
    ok (record { amount = amount; is_fresh_start = is_fresh_start })

  -- A time that runs backwards counts as no time.
  unfoldable pub elapsed : F → F → F
  elapsed current_time last_checked =
      let time_passed = sub current_time last_checked in
      if lt time_passed zero_f then zero_f else time_passed

  -- From the stored pair, both present.
  unfoldable pub refill : PyValue F → PyValue F → F → F → F → Result (CalculatedCapacity F)
  unfolding to_float new_calculated_capacity elapsed
  refill last_checked outdated_capacity current_time max_capacity rate_per_sec = do
    last ← or_raise (to_float last_checked) (value_error bad_stored_state)
    outdated ← or_raise (to_float outdated_capacity) (value_error bad_stored_state)
    raise_if (not (is_finite last) || not (is_finite outdated)) (value_error bad_stored_state)
    new_calculated_capacity
        (min_f max_capacity (add outdated (mul (elapsed current_time last) rate_per_sec))) false

  unfoldable pub calculate_capacity :
      PyValue F → PyValue F → PyValue F → PyValue F → PyValue F → Result (CalculatedCapacity F)
  unfolding to_float is_py_none refill new_calculated_capacity validate_max_capacity_finite_positive
      validate_rate_per_sec_finite_positive
  calculate_capacity last_checked outdated_capacity current_time max_capacity rate_per_sec = do
    now ← or_raise (to_float current_time) (value_error bad_current_time)
    raise_if (not (is_finite now) || lt now zero_f) (value_error bad_current_time)
    maximum ← validate_max_capacity_finite_positive max_capacity
    rate ← validate_rate_per_sec_finite_positive rate_per_sec
    if is_py_none last_checked || is_py_none outdated_capacity
        then new_calculated_capacity maximum true
        else refill last_checked outdated_capacity now maximum rate
