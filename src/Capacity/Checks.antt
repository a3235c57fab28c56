-- ===== src/Capacity/Checks.antt =====
-- Which arguments calculate_capacity and the limit's validators accept.
use token_throttle.Capacity.Refill.{IsRate, IsTime, refilled_finite}
use token_throttle.Exceptions.{Result, err, ok, value_error}
use token_throttle.Float.{Float, IsIeee, zero_f}
use token_throttle.Base.{ℕ, Bool, true, false, ◌≡◌, ◌&&◌, not, arith, nat_eq, ◌<◌}
use token_throttle.Capacity.{
  py_float, calculate_capacity, calculate_rate_per_sec, validate_max_capacity_finite_positive,
}

module _ {F : Type 0} ⦃fl : Float F⦄ where
  open fl use {from_nat, div, nano, lt, le, is_finite}

  abbrev pub is_time : F → Bool
  is_time now = is_finite now && not (lt now zero_f)

  abbrev pub is_rate : F → F → Bool
  is_rate m r = (is_finite m && not (lt m nano)) && (is_finite r && not (le r zero_f))

  pub is_rate_sound : (m r : F) → is_rate m r ≡ true → IsRate m r
  is_rate_sound m r h = ground arith

  pub is_time_sound : (now : F) → is_time now ≡ true → IsTime now
  is_time_sound now h = ground arith

  -- The rate that a bucket's setter computes is positive and finite, or the setter raises.
  pub calculate_rate_per_sec-IsRate :
      (m : F) (per_seconds : ℕ) {x r : F}
      → validate_max_capacity_finite_positive (py_float m) ≡ ok x
      → calculate_rate_per_sec m per_seconds ≡ ok r
      → (x ≡ m) × IsRate m r × (r ≡ div m (from_nat per_seconds)) × (0 < per_seconds)
  unfolding validate_max_capacity_finite_positive calculate_rate_per_sec
  calculate_rate_per_sec-IsRate m per_seconds h k = ground arith

-- It returns where the test holds, and raises ValueError where it does not.
abbrev pub IsDecided {ℓ} : {V : Type ℓ} → Bool → Result V → Type 0
IsDecided accepted (ok v) = accepted ≡ true
IsDecided accepted (err (value_error reason)) = accepted ≡ false
IsDecided accepted (err _) = ⊥

module _ {F : Type 0} ⦃fl : Float F⦄ (laws : IsIeee fl) where
  open fl use {is_finite}

  -- On floats, calculate_capacity returns exactly where the time is finite and not negative, the
  -- maximum is finite and at least 1e-9, the rate is finite and positive, and the stored pair is
  -- finite. It raises ValueError everywhere else, and rounding or overflow adds no other failure.
  pub calculate_capacity-IsDecided :
      (last outdated now m r : F)
      → let accepted = (is_time now && is_rate m r) && (is_finite last && is_finite outdated) in
        IsDecided accepted (
          calculate_capacity
            (py_float last)
            (py_float outdated)
            (py_float now)
            (py_float m)
            (py_float r))
  unfolding calculate_capacity
  calculate_capacity-IsDecided last outdated now m r =
      ground
        (arith, is_time_sound now, is_rate_sound m r, refilled_finite laws last outdated now m r)
