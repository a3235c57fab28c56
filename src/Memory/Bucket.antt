-- ===== src/Memory/Bucket.antt =====
-- token_throttle/_limiter_backends/_memory/_bucket.py. Metrics and model families are names that
-- the code only compares, so they are numbers here. Warnings are left out.
pub mod Limits
use token_throttle.Base.{
  pair_eq, ℕ, ◌+◌, Bool, true, false, not, ◌&&◌, Option, none, some, if◌then◌else◌, ltb, ◌==◌,
  nat_eq,
}
use token_throttle.Float.{Float, max_f, zero_f}
use token_throttle.Exceptions.{Result, ok, err, value_error, out_of_range, not_finite}
use token_throttle.Exceptions
use token_throttle.Action.{Action, ◌>>=◌, ◌>>◌, pure, lift, gets, modify, raise_when, when}
use token_throttle.Capacity.{
  PyValue, py_none, py_float, CalculatedCapacity, calculate_capacity, calculate_rate_per_sec,
  validate_max_capacity_finite_positive, validate_rate_per_sec_finite_positive, elapsed,
}

pub record MemoryBucket (F : Type 0) : Type 0 where
  pub capacity : Option F
  pub last_checked : Option F
  pub usage_metric : ℕ
  pub model_family : ℕ
  pub per_seconds : ℕ
  pub max_capacity : F
  pub rate_per_sec : F

abbrev pub max_per_seconds : ℕ
max_per_seconds = 2_147_483_647

abbrev pub of_option : {F : Type 0} → Option F → PyValue F
of_option none = py_none
of_option (some x) = py_float x

-- An int: one of 0 or less is 0 here, which the code refuses with the same error.
pub validate_per_seconds : ℕ → Result ℕ
validate_per_seconds n =
    if n == 0
    then err (value_error out_of_range)
    else if ltb max_per_seconds n
    then err (value_error out_of_range)
    else ok n

module _ {F : Type 0} ⦃fl : Float F⦄ where
  open fl use {add, sub, mul, eq, is_finite}

  -- The property setter `max_capacity`: the maximum is written before the rate is computed.
  unfoldable pub assign_max_capacity : PyValue F → Action (MemoryBucket F) (Unit {0})
  unfolding calculate_rate_per_sec validate_max_capacity_finite_positive
      validate_rate_per_sec_finite_positive
  assign_max_capacity value = do
    validated ← lift (validate_max_capacity_finite_positive value)
    modify (λ b. record b { max_capacity = validated })
    per_seconds ← gets (λ b. b.per_seconds)
    rate ← lift (calculate_rate_per_sec validated per_seconds)
    checked ← lift (validate_rate_per_sec_finite_positive (py_float rate))
    modify (λ b. record b { rate_per_sec = checked })

  -- `MemoryBucket(...)`; a constructor that raises leaves no bucket.
  unfoldable pub new_bucket : ℕ → ℕ → PyValue F → ℕ → Result (MemoryBucket F)
  unfolding validate_per_seconds calculate_rate_per_sec validate_max_capacity_finite_positive
      validate_rate_per_sec_finite_positive
  new_bucket metric per_seconds limit model_family =
      Exceptions.◌>>=◌ (validate_per_seconds per_seconds) λ seconds.
        Exceptions.◌>>=◌ (validate_max_capacity_finite_positive limit) λ validated.
          Exceptions.◌>>=◌ (calculate_rate_per_sec validated seconds) λ rate.
            Exceptions.◌>>=◌ (validate_rate_per_sec_finite_positive (py_float rate)) λ checked.
              ok (record {
                capacity = none;
                last_checked = none;
                usage_metric = metric;
                model_family = model_family;
                per_seconds = seconds;
                max_capacity = validated;
                rate_per_sec = checked;
              })

  unfoldable pub get_capacity : MemoryBucket F → F → Result (CalculatedCapacity F)
  get_capacity b current_time =
      calculate_capacity (of_option b.last_checked) (of_option b.capacity) (py_float current_time)
        (py_float b.max_capacity) (py_float b.rate_per_sec)

  -- `if value == 0.0: value = 0.0` turns a negative zero into zero.
  abbrev pub drop_sign_of_zero : F → F
  drop_sign_of_zero value = if eq value zero_f then zero_f else value

  unfoldable pub set_capacity : F → F → Bool → Action (MemoryBucket F) (Unit {0})
  set_capacity value current_time allow_negative = do
    raise_when (not (is_finite value)) (value_error not_finite)
    let v = drop_sign_of_zero value
    modify (λ b. record b {
      capacity = some (if allow_negative then v else max_f zero_f v);
      last_checked = some current_time;
    })

  -- The stored capacity at the old rate, not capped by the maximum.
  unfoldable pub anchored : MemoryBucket F → F → F → F → F
  unfolding elapsed
  anchored b capacity last_checked current_time =
      let new_capacity = add capacity (mul (elapsed current_time last_checked) b.rate_per_sec) in
      if is_finite new_capacity then new_capacity else b.max_capacity

  anchor_pair : F → Option F → Option F → MemoryBucket F → MemoryBucket F
  unfolding anchored
  anchor_pair current_time (some last) (some capacity) b = record b {
    capacity = some (anchored b capacity last current_time);
    last_checked = some current_time;
  }
  anchor_pair current_time _ _ b = b

  unfoldable pub set_max_capacity : PyValue F → F → Action (MemoryBucket F) (Unit {0})
  unfolding anchor_pair assign_max_capacity
  set_max_capacity value current_time = do
    v ← lift (validate_max_capacity_finite_positive value)
    modify (λ b. anchor_pair current_time b.last_checked b.capacity b)
    assign_max_capacity (py_float v)
