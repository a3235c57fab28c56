-- ===== src/Capacity/Refill.antt =====
-- calculate_capacity on valid arguments: what it returns, its bounds, and how it grows with time.
use token_throttle.Exceptions.{ok}
use token_throttle.Base.{true, false, ◌≡◌, refl, arith, Bool-cases, inl, inr}
use token_throttle.Float.{Float, IsIeee, min_f, zero_f}
use token_throttle.Float.Order.{min_f-le-left, min_f-le-right, le-min_f, zero_num}
use token_throttle.Capacity.{
  PyValue, py_none, py_float, CalculatedCapacity, calculate_capacity, elapsed,
  new_calculated_capacity,
}

module _ {F : Type 0} ⦃fl : Float F⦄ where
  open fl use {add, sub, mul, nano, lt, le, is_finite}

  -- A time and a bucket's limit and rate that the validators accept.
  pub record IsTime (now : F) : Type 0 where
    pub finite : is_finite now ≡ true
    pub nonneg : lt now zero_f ≡ false

  pub record IsRate (m r : F) : Type 0 where
    pub max_finite : is_finite m ≡ true
    pub max_large : lt m nano ≡ false
    pub rate_finite : is_finite r ≡ true
    pub rate_pos : le r zero_f ≡ false

  -- The refilled amount of a stored pair.
  abbrev pub refilled : F → F → F → F → F → F
  refilled last outdated now m r = min_f m (add outdated (mul (elapsed now last) r))

  -- What calculate_capacity computes, its tests resolved.
  pub calculate_capacity-stored :
      (last outdated now m r : F)
      → IsTime now
      → IsRate m r
      → is_finite last ≡ true
      → is_finite outdated ≡ true
      → is_finite (refilled last outdated now m r) ≡ true
      → calculate_capacity
          (py_float last)
          (py_float outdated)
          (py_float now)
          (py_float m)
          (py_float r)
        ≡ ok (record { amount = refilled last outdated now m r; is_fresh_start = false })
  unfolding calculate_capacity
  calculate_capacity-stored last outdated now m r t q hl ho hf =
      rw (t.finite, t.nonneg, q.max_finite, q.max_large, q.rate_finite, q.rate_pos, hl, ho, hf)

  pub calculate_capacity-fresh :
      (now m r : F) (v : PyValue F)
      → IsTime now
      → IsRate m r
      → calculate_capacity py_none v (py_float now) (py_float m) (py_float r)
        ≡ ok (record { amount = m; is_fresh_start = true })
  unfolding calculate_capacity new_calculated_capacity
  calculate_capacity-fresh now m r v t q =
      rw (t.finite, t.nonneg, q.max_finite, q.max_large, q.rate_finite, q.rate_pos)
        (rw q.max_finite)

module _ {F : Type 0} ⦃fl : Float F⦄ (laws : IsIeee fl) where
  open fl use {add, sub, mul, nano, lt, le, is_finite}

  pub rate_positive : (m r : F) → IsRate m r → lt zero_f r ≡ true
  rate_positive m r q = elim (Bool-cases (lt zero_f r)) [
    | inl h ↦ h
    | inr h ↦ ground (
      arith,
      q.rate_pos,
      laws.not_lt zero_f r (zero_num laws) (laws.finite_num r q.rate_finite) h,
    )
  ]

  pub elapsed_nonneg :
      (now last : F)
      → is_finite now ≡ true
      → is_finite last ≡ true
      → le zero_f (elapsed now last) ≡ true
  unfolding elapsed
  elapsed_nonneg now last h k = ground (
    arith,
    zero_num laws,
    laws.not_lt (sub now last) zero_f (laws.sub_num now last h k) (zero_num laws),
  )

  pub elapsed_self : (now : F) → is_finite now ≡ true → le (elapsed now now) zero_f ≡ true
  unfolding elapsed
  elapsed_self now h = ground (arith, zero_num laws, laws.sub_self now h)

  pub elapsed_mono :
      (now later last : F)
      → is_finite now ≡ true
      → is_finite later ≡ true
      → is_finite last ≡ true
      → le now later ≡ true
      → le (elapsed now last) (elapsed later last) ≡ true
  unfolding elapsed
  elapsed_mono now later last h k l o = ground (
    arith,
    zero_num laws,
    laws.sub_mono now later last h k l o,
    laws.not_lt (sub later last) zero_f (laws.sub_num later last k l) (zero_num laws),
    laws.lt_le (sub later last) zero_f,
    laws.le_trans (sub now last) (sub later last) zero_f,
  )

  module _ (last outdated now m r : F) (t : IsTime now) (q : IsRate m r)
      (hl : is_finite last ≡ true) (ho : is_finite outdated ≡ true) where
    m_num : le m m ≡ true
    m_num = laws.finite_num m q.max_finite

    accrued_grows : le outdated (add outdated (mul (elapsed now last) r)) ≡ true
    accrued_grows = laws.add_nonneg outdated _ ho (
        laws.mul_nonneg _ r (elapsed_nonneg now last t.finite hl) q.rate_finite
          (rate_positive m r q))

    accrued_num :
        le (add outdated (mul (elapsed now last) r)) (add outdated (mul (elapsed now last) r))
        ≡ true
    accrued_num = laws.le_right outdated _ accrued_grows

    pub refilled-le-max : le (refilled last outdated now m r) m ≡ true
    refilled-le-max = min_f-le-left laws m _ m_num

    pub le-refilled : le (min_f m outdated) (refilled last outdated now m r) ≡ true
    le-refilled = le-min_f laws (min_f m outdated) m _ (min_f-le-left laws m outdated m_num) (
        laws.le_trans (min_f m outdated) outdated _
          (min_f-le-right laws m outdated m_num (laws.finite_num outdated ho)) accrued_grows)

    min_f-finite : is_finite (min_f m outdated) ≡ true
    min_f-finite = ground (arith, q.max_finite, ho)

    pub refilled_finite : is_finite (refilled last outdated now m r) ≡ true
    refilled_finite =
        laws.finite_between (min_f m outdated) _ m min_f-finite q.max_finite le-refilled
          refilled-le-max

    -- On a stored pair and valid arguments the calculation raises nothing, reports no fresh start,
    -- and returns an amount of at most the bucket's maximum and at least what was stored, up to
    -- that maximum: neither a clock that runs backwards nor the refill loses stored capacity.
    pub calculate_capacity_bounds :
        (c : CalculatedCapacity F) × (calculate_capacity
            (py_float last)
            (py_float outdated)
            (py_float now)
            (py_float m)
            (py_float r)
          ≡ ok c)
        × (c.is_fresh_start ≡ false)
        × (le (min_f m outdated) c.amount ≡ true)
        × (le c.amount m ≡ true)
    calculate_capacity_bounds = (
      record { amount = refilled last outdated now m r; is_fresh_start = false },
      calculate_capacity-stored last outdated now m r t q hl ho refilled_finite,
      refl,
      le-refilled,
      refilled-le-max,
    )

  -- A reading at the time of the stored one adds nothing.
  pub refilled_at_once :
      (c now m r : F)
      → IsTime now
      → IsRate m r
      → is_finite c ≡ true
      → le (refilled now c now m r) c ≡ true
  refilled_at_once c now m r t q h =
      laws.le_trans (refilled now c now m r) (add c (mul (elapsed now now) r)) c
        (min_f-le-right laws m _ (m_num now c now m r t q t.finite h)
          (accrued_num now c now m r t q t.finite h))
        (laws.add_nonpos c _ h (
          laws.mul_nonpos (elapsed now now) r (elapsed_self now t.finite) q.rate_finite
            (rate_positive m r q)))

  refilled_mono :
      (last outdated now later m r : F)
      → IsTime now
      → IsTime later
      → IsRate m r
      → is_finite last ≡ true
      → is_finite outdated ≡ true
      → le now later ≡ true
      → le (refilled last outdated now m r) (refilled last outdated later m r) ≡ true
  refilled_mono last outdated now later m r t u q hl ho o =
      le-min_f laws (refilled last outdated now m r) m _
        (refilled-le-max last outdated now m r t q hl ho)
        (laws.le_trans _ _ _
          (min_f-le-right laws m _ (m_num last outdated now m r t q hl ho)
            (accrued_num last outdated now m r t q hl ho))
          (laws.add_mono outdated _ _ ho (
            laws.mul_mono _ _ r (elapsed_mono now later last t.finite u.finite hl o) q.rate_finite
              (rate_positive m r q))))

  -- Read later, a stored bucket holds no less: on a stored pair the amount grows with the time of
  -- the reading, whatever the rounding.
  pub calculate_capacity_mono :
      (last outdated now later m r : F) {c d : CalculatedCapacity F}
      → IsTime now
      → IsTime later
      → IsRate m r
      → is_finite last ≡ true
      → is_finite outdated ≡ true
      → le now later ≡ true
      → calculate_capacity
          (py_float last)
          (py_float outdated)
          (py_float now)
          (py_float m)
          (py_float r)
        ≡ ok c
      → calculate_capacity
          (py_float last)
          (py_float outdated)
          (py_float later)
          (py_float m)
          (py_float r)
        ≡ ok d
      → le c.amount d.amount ≡ true
  calculate_capacity_mono last outdated now later m r t u q hl ho o hc hd = ground (
    arith,
    calculate_capacity-stored last outdated now m r t q hl ho
        (refilled_finite last outdated now m r t q hl ho),
    calculate_capacity-stored last outdated later m r u q hl ho
        (refilled_finite last outdated later m r u q hl ho),
    refilled_mono last outdated now later m r t u q hl ho o,
  )
