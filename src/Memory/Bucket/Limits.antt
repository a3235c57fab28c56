-- ===== src/Memory/Bucket/Limits.antt =====
-- The bucket's invariant, and what a change of its limit does to the capacity that is read back.
use token_throttle.Float.{Float, IsIeee, min_f}
use token_throttle.Float.Order.{le-min_f, min_f-le-left, min_f-le-right}
use token_throttle.Base.{ℕ, Bool, true, false, ◌≡◌, ap, Option, some, none, arith, if◌then◌else◌}
use token_throttle.Exceptions.{ok, Result}
use token_throttle.Capacity.{PyValue, py_float, CalculatedCapacity, elapsed}
use token_throttle.Capacity.Refill.{
  IsTime, IsRate, refilled, rate_positive, elapsed_self, calculate_capacity-stored, refilled_finite,
  le-refilled,
}
use mathlib.Core.Path.{subst}
use token_throttle.Memory.Bucket.{
  MemoryBucket, assign_max_capacity, get_capacity, set_capacity, set_max_capacity, anchored,
  anchor_pair,
}

module _ {F : Type 0} ⦃fl : Float F⦄ where
  open fl use {add, mul, le, lt, is_finite}

  -- The stored pair is absent, or both parts are there and finite.
  abbrev pub IsStored : Option F → Option F → Type 0
  IsStored none none = Unit
  IsStored (some c) (some l) = (is_finite c ≡ true) × (is_finite l ≡ true)
  IsStored _ _ = ⊥

  -- What a bucket has accrued since its stored pair, at its rate, or its maximum where that overflows.
  abbrev pub accrued : MemoryBucket F → F → F → F → F
  accrued b c l now =
      let grown = add c (mul (elapsed now l) b.rate_per_sec) in
      if is_finite grown then grown else b.max_capacity

  pub record IsValid (b : MemoryBucket F) : Type 0 where
    pub rate : IsRate b.max_capacity b.rate_per_sec
    pub stored : IsStored b.capacity b.last_checked

  pub assign_max_capacity-IsValid :
      (value : PyValue F) (b : MemoryBucket F) → IsValid b → IsValid (assign_max_capacity value b).1
  unfolding assign_max_capacity
  assign_max_capacity-IsValid value b v = ground arith

  anchored_finite :
      (b : MemoryBucket F) (c l now : F) → IsValid b → is_finite (accrued b c l now) ≡ true
  anchored_finite b c l now v = ground (arith, v.rate.max_finite)

  pub set_max_capacity-IsValid :
      (value : PyValue F) (now : F) (b : MemoryBucket F)
      → is_finite now ≡ true
      → IsValid b
      → IsValid (set_max_capacity value now b).1
  unfolding set_max_capacity
  set_max_capacity-IsValid value now b h v = ground arith

  -- A change of the limit keeps the bucket's metric and window.
  pub set_max_capacity-id :
      (value : PyValue F) (now : F) (b : MemoryBucket F)
      → ◌≡◌ {A = ℕ × ℕ}
          (
            (set_max_capacity value now b).1.usage_metric,
            (set_max_capacity value now b).1.per_seconds,
          )
          (b.usage_metric, b.per_seconds)
  unfolding set_max_capacity anchor_pair assign_max_capacity
  set_max_capacity-id value now b = ground arith

  pub set_capacity-IsValid :
      (laws : IsIeee fl) (value now : F) (allow_negative : Bool) (b : MemoryBucket F)
      → is_finite now ≡ true
      → IsValid b
      → IsValid (set_capacity value now allow_negative b).1
  unfolding set_capacity
  set_capacity-IsValid laws value now allow b h v = ground (arith, laws.finite_zero)

  set_max_capacity-anchors :
      (v now c l : F) (b : MemoryBucket F) {b' : MemoryBucket F}
      → b.capacity ≡ some c
      → b.last_checked ≡ some l
      → set_max_capacity (py_float v) now b ≡ (ok tt, b')
      → (b'.capacity ≡ some (accrued b c l now))
        × (b'.last_checked ≡ some now)
        × (b'.max_capacity ≡ v)
  unfolding set_max_capacity anchored
  set_max_capacity-anchors v now c l b ec el e = ground arith

module _ {F : Type 0} ⦃fl : Float F⦄ (laws : IsIeee fl) where
  open fl use {add, mul, le, lt, is_finite}

  accrued_at_once :
      (now out m r : F)
      → is_finite now ≡ true
      → IsRate m r
      → is_finite out ≡ true
      → le (add out (mul (elapsed now now) r)) out ≡ true
  accrued_at_once now out m r t q h =
      laws.add_nonpos out _ h
        (laws.mul_nonpos _ r (elapsed_self laws now t) q.rate_finite (rate_positive laws m r q))

  -- A refill over no time adds nothing.
  refilled_at_once :
      (now out m r : F)
      → is_finite now ≡ true
      → IsRate m r
      → is_finite out ≡ true
      → le (refilled now out now m r) (min_f m out) ≡ true
  refilled_at_once now out m r t q h =
      let m_num = laws.finite_num m q.max_finite in
      let below = accrued_at_once now out m r t q h in
      let num = laws.le_left _ _ below in
      le-min_f laws _ m out (min_f-le-left laws m _ m_num)
        (laws.le_trans _ _ _ (min_f-le-right laws m _ m_num num) below)

  -- A change of the limit is not retroactive: read at the time of a change that succeeded, a valid
  -- bucket that has a stored pair holds what it had accrued at the old rate until then (the old
  -- maximum, where that overflows), capped by the new maximum only.
  pub set_max_capacity_not_retroactive :
      (v now c l : F) (b : MemoryBucket F) {b' : MemoryBucket F}
      → IsTime now
      → IsValid b
      → b.capacity ≡ some c
      → b.last_checked ≡ some l
      → set_max_capacity (py_float v) now b ≡ (ok tt, b')
      → (r : CalculatedCapacity F) × (get_capacity b' now ≡ ok r)
        × (le r.amount (min_f v (accrued b c l now)) ≡ true)
        × (le (min_f v (accrued b c l now)) r.amount ≡ true)
  unfolding get_capacity
  set_max_capacity_not_retroactive v now c l b {b'} t valid ec el e =
      let (cap, checked, max) = set_max_capacity-anchors v now c l b ec el e in
      let out = accrued b c l now in
      let fin = anchored_finite b c l now valid in
      let q = rate_after in
      (
        record { amount = refilled now out now v b'.rate_per_sec; is_fresh_start = false },
        rw (cap, checked, max)
            (calculate_capacity-stored now out now v b'.rate_per_sec t q t.finite fin
              (refilled_finite laws now out now v b'.rate_per_sec t q t.finite fin)),
        refilled_at_once now out v b'.rate_per_sec t.finite q fin,
        le-refilled laws now out now v b'.rate_per_sec t q t.finite fin,
      )
    where
      after_IsValid : IsValid b'
      after_IsValid =
          subst IsValid (ap (λ (p : Result (Unit {0}) × MemoryBucket F). p.1) e)
            (set_max_capacity-IsValid (py_float v) now b t.finite valid)

      rate_after : IsRate v b'.rate_per_sec
      rate_after =
          subst (λ m. IsRate m b'.rate_per_sec) (set_max_capacity-anchors v now c l b ec el e).2
            after_IsValid.rate
