-- ===== src/Validation.antt =====
-- token_throttle/_validation.py and the number checks of _interfaces/_models.py, on usage that is
-- already frozen: a dict from metrics to floats. Metrics are names that only equality looks at.
pub mod Amounts
use token_throttle.Base.{
  ℕ, Bool, true, false, not, ◌&&◌, ◌||◌, Option, none, some, List, [], ◌∷◌, if◌then◌else◌, nat_eq,
  pair_eq, map,
}
use token_throttle.Base.Dict.{Dict, keys, same_set, is_subset}
use token_throttle.Float.{Float, zero_f}
use token_throttle.Capacity.{
  PyValue, py_none, py_bool, py_int, py_float, or_raise, validate_plain_number,
  validate_max_capacity_finite_positive,
}
use token_throttle.Exceptions.{
  Result, ok, err, value_error, ◌>>=◌, ◌>>◌, raise_if, is_boolean, not_a_number, too_large,
  not_finite, is_negative, keys_mismatch, empty_bucket_ids, unknown_bucket_ids, other_error,
}

abbrev pub BucketId : Type 0
BucketId = ℕ × ℕ

abbrev pub Usage : Type 0 → Type 0
Usage F = Dict ℕ F

abbrev pub is_empty {ℓ} : {A : Type ℓ} → List A → Bool
is_empty [] = true
is_empty (_ ∷ _) = false

module _ {F : Type 0} ⦃fl : Float F⦄ where
  open fl use {lt, le, is_finite, from_int}

  unfoldable pub coerce_usage_value : PyValue F → Result F
  coerce_usage_value (py_bool _) = err (value_error is_boolean)
  coerce_usage_value (py_int n) = do
    x ← or_raise (from_int n) (value_error too_large)
    raise_if (not (is_finite x)) (value_error not_finite)
    ok x
  coerce_usage_value (py_float x) = do raise_if (not (is_finite x)) (value_error not_finite); ok x
  coerce_usage_value _ = err (value_error not_a_number)

  -- The loop over the items.
  unfoldable pub check_values : Usage F → Result (Unit {0})
  unfolding coerce_usage_value
  check_values [] = ok tt
  check_values ((metric, amount) ∷ usage) = do
    x ← coerce_usage_value (py_float amount)
    raise_if (lt x zero_f) (value_error is_negative)
    check_values usage

  unfoldable pub validate_usage_mapping : Usage F → List ℕ → Result (Unit {0})
  validate_usage_mapping usage expected_keys = do
    raise_if (not (same_set (keys usage) expected_keys)) (value_error keys_mismatch)
    check_values usage

  unfoldable pub validate_backend_usage : Usage F → List ℕ → Result (Unit {0})
  validate_backend_usage = validate_usage_mapping

  unfoldable pub validate_refund_usage : Usage F → List ℕ → Result (Unit {0})
  validate_refund_usage = validate_usage_mapping

  unfoldable pub validate_backend_refund_usage_for_bucket_ids :
      Usage F → Usage F → List BucketId → List BucketId → Result (Unit {0})
  unfolding validate_refund_usage
  validate_backend_refund_usage_for_bucket_ids reserved actual bucket_ids backend_bucket_ids =
      if is_empty bucket_ids
      then raise_if (not (is_empty reserved) || not (is_empty actual))
          (value_error empty_bucket_ids)
      else (raise_if (not (is_subset bucket_ids backend_bucket_ids))
            (value_error unknown_bucket_ids)
          >> (validate_usage_mapping reserved (map (λ (b : BucketId). b.0) bucket_ids)
              >> validate_refund_usage actual (keys reserved)))

  -- `none` is no timeout. The OverflowError of a huge int is not caught.
  unfoldable pub validate_timeout : PyValue F → Result (Option F)
  validate_timeout py_none = ok none
  validate_timeout (py_bool _) = err (value_error is_boolean)
  validate_timeout (py_int n) = do
    x ← or_raise (from_int n) other_error
    raise_if (not (is_finite x)) (value_error not_finite)
    raise_if (lt x zero_f) (value_error is_negative)
    ok (some x)
  validate_timeout (py_float x) = do
    raise_if (not (is_finite x)) (value_error not_finite)
    raise_if (lt x zero_f) (value_error is_negative)
    ok (some x)
  validate_timeout _ = err (value_error not_a_number)
