-- ===== src/Sqlite/Ttl/Cover.antt =====
-- How long the rows are kept is long enough: for a debt to be repaid, for a reservation to be refunded.
use token_throttle.Base.{
  ℕ, ◌≤◌, ◌≡◌, true, false, not, ◌||◌, arith, if◌then◌else◌, Bool-cases, inl, inr,
}
use token_throttle.Base.Int.{pos}
use token_throttle.Float.{Float, IsIeee, min_f, zero_f}
use token_throttle.Float.Order.{zero_num}
use token_throttle.Exceptions.{ok}
use token_throttle.Capacity.{py_int, py_float}
use token_throttle.Sqlite.Ttl.{
  max_ℕ, debt_ttl_seconds, max_state_ttl_seconds, validate_sqlite_ttl_seconds,
  validate_max_reservation_lifetime_seconds, validate_safety_margin, check_lifetime, check_margin,
  check_ttls, check_ttls_if, validate_reservation_lifetime_ttl_invariant, resolve_limit,
  resolve_max_reservation_lifetime_seconds_from_ttls,
}

max_ℕ_bounds : (a b : ℕ) → (a ≤ max_ℕ a b) × (b ≤ max_ℕ a b)
max_ℕ_bounds a b = ground arith

module _ {F : Type 0} ⦃fl : Float F⦄ where
  open fl use {add, mul, div, neg, from_nat, lt}

  -- The seconds in which a debt is repaid where the smaller of two limits is refilled in one window,
  -- and that window once more.
  abbrev pub repaid_after : F → ℕ → F → F → F
  repaid_after capacity per_seconds maximum configured =
      let slower = if lt configured maximum then configured else maximum in
      mul (add (from_nat 1) (div (neg capacity) slower)) (from_nat per_seconds)

module _ {F : Type 0} ⦃fl : Float F⦄ (laws : IsIeee fl) where
  open fl use {mul, eq, from_nat, lt, le, is_finite, ceil}

  -- A row with debt is kept for at least the configured time, and at least for the seconds in which the
  -- debt is repaid at the slower of the two rates, with one more window.
  pub debt_ttl_seconds_covers :
      (capacity : F) (bucket_ttl per_seconds : ℕ) (max_capacity configured : F) (ttl : ℕ)
      → le zero_f capacity ≡ false
      → debt_ttl_seconds capacity bucket_ttl per_seconds max_capacity configured ≡ ok ttl
      → (bucket_ttl ≤ ttl)
        × (le (repaid_after capacity per_seconds max_capacity configured) (from_nat ttl) ≡ true)
  unfolding debt_ttl_seconds
  debt_ttl_seconds_covers capacity bucket_ttl per_seconds max_capacity configured ttl owed h =
      let required = repaid_after capacity per_seconds max_capacity configured in
      elim (Bool-cases (eq (min_f max_capacity configured) zero_f)) [
        | inl e ↦ absurd (ground (arith, owed, e, h))
        | inr e ↦
            elim (Bool-cases
              (not (is_finite required) || lt (from_nat max_state_ttl_seconds) required)) [
                | inl d ↦ absurd (ground (arith, owed, e, d, h))
                | inr d ↦
                    let finite : is_finite required ≡ true = ground (arith, d) in
                    let same : max_ℕ bucket_ttl (ceil required) ≡ ttl =
                      ground (arith, owed, e, d, h) in
                    let bounds = max_ℕ_bounds bucket_ttl (ceil required) in
                    rw (← same) (
                      bounds.0,
                      laws.le_trans required (from_nat (ceil required)) _
                          (laws.le-ceil required finite)
                          (laws.from_nat_mono (ceil required) (max_ℕ bucket_ttl (ceil required))
                            bounds.1),
                    )
              ]
      ]

  positive : (x : F) → is_finite x ≡ true → le x zero_f ≡ false → lt zero_f x ≡ true
  positive x finite h = laws.not_le x zero_f (laws.finite_num x finite) (zero_num laws) h

  margin_positive : (m : F) → is_finite m ≡ true → le m (from_nat 1) ≡ false → lt zero_f m ≡ true
  margin_positive m finite h = positive m finite (elim (Bool-cases (le m zero_f)) [
    | inr e ↦ e
    | inl e ↦
        let k = laws.le_trans m zero_f (from_nat 1) e (laws.from_nat_mono 0 1 (omega arith)) in
        ground (arith, k, h)
  ])

  -- A lifetime times a margin is a number.
  product_num :
      (x m : F)
      → is_finite x ≡ true
      → lt zero_f x ≡ true
      → is_finite m ≡ true
      → lt zero_f m ≡ true
      → le (mul x m) (mul x m) ≡ true
  product_num x m fx px fm pm =
      laws.le_right zero_f (mul x m) (laws.mul_nonneg x m (laws.lt_le zero_f x px) fm pm)

  -- A lifetime that is given and accepted is positive, and times its margin, which is above 1, it is
  -- strictly less than the lifetime of a bucket's row and than that of a tombstone.
  pub resolve_max_lifetime_covered :
      (x m l : F) (bucket_ttl refund_ttl : ℕ)
      → resolve_max_reservation_lifetime_seconds_from_ttls
          (py_float x)
          (py_int (pos bucket_ttl))
          (py_int (pos refund_ttl))
          (py_float m)
        ≡ ok l
      → (l ≡ x)
        × (lt zero_f x ≡ true)
        × (le m (from_nat 1) ≡ false)
        × (lt (mul x m) (from_nat bucket_ttl) ≡ true)
        × (lt (mul x m) (from_nat refund_ttl) ≡ true)
  unfolding resolve_max_reservation_lifetime_seconds_from_ttls resolve_limit
      validate_reservation_lifetime_ttl_invariant check_ttls_if check_ttls
      validate_max_reservation_lifetime_seconds validate_safety_margin validate_sqlite_ttl_seconds
      check_lifetime check_margin
  resolve_max_lifetime_covered x m l bucket_ttl refund_ttl h =
      let fx : is_finite x ≡ true = ground (arith, h) in
      let px : le x zero_f ≡ false = ground (arith, h) in
      let fm : is_finite m ≡ true = ground (arith, h) in
      let pm : le m (from_nat 1) ≡ false = ground (arith, h) in
      let same : l ≡ x = ground (arith, h) in
      let b : le (from_nat bucket_ttl) (mul x m) ≡ false = ground (arith, h) in
      let r : le (from_nat refund_ttl) (mul x m) ≡ false = ground (arith, h) in
      let num = product_num x m fx (positive x fx px) fm (margin_positive m fm pm) in
      (
        same,
        positive x fx px,
        pm,
        laws.not_le (from_nat bucket_ttl) (mul x m)
            (laws.from_nat_mono bucket_ttl bucket_ttl (omega arith)) num b,
        laws.not_le (from_nat refund_ttl) (mul x m)
            (laws.from_nat_mono refund_ttl refund_ttl (omega arith)) num r,
      )
