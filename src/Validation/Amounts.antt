-- ===== src/Validation/Amounts.antt =====
-- What the usage checks promise of the amounts that pass.
use token_throttle.Base.Dict.{keys, lookup, same_set}
use token_throttle.Base.{
  pair_eq, ℕ, Bool, true, false, not, ◌||◌, all, ◌==◌, ◌≡◌, some, List, [], ◌∷◌, arith, nat_eq,
}
use token_throttle.Float.{Float, IsIeee, zero_f}
use token_throttle.Float.Order.{zero_num}
use token_throttle.Exceptions.{ok}
use token_throttle.Validation.{Usage, check_values, validate_usage_mapping}

module _ {F : Type 0} ⦃fl : Float F⦄ where
  open fl use {is_finite, lt, le}

  -- Every amount is finite and not negative.
  abbrev pub IsAmounts : Usage F → Type 0
  IsAmounts [] = Unit
  IsAmounts ((m, x) ∷ u) = (is_finite x ≡ true) × (lt x zero_f ≡ false) × IsAmounts u

  -- No entry of the usage for the metric asks for more than `x`.
  abbrev pub fits : Usage F → ℕ → F → Bool
  fits usage metric x = all (λ (u : ℕ × F). not (metric == u.0) || not (lt x u.1)) usage

  pub check_values-IsAmounts : (u : Usage F) → check_values u ≡ ok tt → IsAmounts u
  unfolding check_values
  check_values-IsAmounts [] h = tt
  check_values-IsAmounts ((m, x) ∷ u) h = ground (arith, check_values-IsAmounts u)

  pub validate_usage_mapping-IsAmounts :
      (u : Usage F) (expected : List ℕ)
      → validate_usage_mapping u expected ≡ ok tt
      → (same_set (keys u) expected ≡ true) × IsAmounts u
  unfolding validate_usage_mapping
  validate_usage_mapping-IsAmounts u expected h =
      let s : same_set (keys u) expected ≡ true = ground arith in
      (s, check_values-IsAmounts u (ground arith))

  pub IsAmounts-lookup :
      (u : Usage F) (m : ℕ) (x : F)
      → IsAmounts u
      → lookup u m ≡ some x
      → (is_finite x ≡ true) × (lt x zero_f ≡ false)
  IsAmounts-lookup [] m x h e = absurd (cc)
  IsAmounts-lookup ((j, y) ∷ u) m x h e = ground (arith, IsAmounts-lookup u m x h.2)

module _ {F : Type 0} ⦃fl : Float F⦄ (laws : IsIeee fl) where
  open fl use {is_finite, lt, le}

  pub amount_nonneg : (x : F) → is_finite x ≡ true → lt x zero_f ≡ false → le zero_f x ≡ true
  amount_nonneg x h k = laws.not_lt x zero_f (laws.finite_num x h) (zero_num laws) k
