-- ===== src/Memory/Wait/Admission.antt =====
-- One attempt of `wait_for_capacity` on a well-formed backend: it takes the usage from every bucket
-- or from none.
use token_throttle.Base.Dict.{lookup}
use token_throttle.Capacity.Refill.{IsTime}
use token_throttle.Exceptions.{err, exceeds_max_capacity, ok, value_error}
use token_throttle.Float.{Float, IsIeee, zero_f}
use token_throttle.Float.Order.{zero_num}
use token_throttle.Memory.Wait.{acquired, attempt, blocked}
use token_throttle.Base.{
  pair_eq, ℕ, true, false, ◌≡◌, refl, inl, inr, Option, some, none, List, [], ◌∷◌, arith, All, map,
  ◌==◌, nat_eq, Option-cases, Bool-cases,
}
use token_throttle.Validation.{BucketId, Usage, validate_backend_usage}
use token_throttle.Validation.Amounts.{IsAmounts, IsAmounts-lookup, amount_nonneg}
use token_throttle.Memory.Bucket.{MemoryBucket}
use token_throttle.Memory.Bucket.Limits.{IsValid}
use token_throttle.Memory.State.{Backend, Capacities, id_of, set_capacities}
use token_throttle.Memory.State.Pointwise.{amounts, written, set_capacities-amounts}
use token_throttle.Memory.State.Reads.{available, available_finite, available-le-max}
use token_throttle.Memory.Reservations.{is_replay, record_if_named}
use token_throttle.Memory.Invariant.{IsBackend, zero-le-max}
use token_throttle.Memory.Consume.{exceeds_some_bucket, is_short, consumed, subtract}
use token_throttle.Memory.Consume.Record.{usage_checked, reads, active}

module _ {F : Type 0} ⦃fl : Float F⦄ where
  open fl use {sub, le, lt, is_finite}

  -- A bucket holds the amount asked of it.
  abbrev pub HasEnough : F → Option F → Type 0
  HasEnough amount none = Unit
  HasEnough amount (some needed) = lt amount needed ≡ false

  -- An amount less what is used of it.
  abbrev pub left : F → Option F → F
  left amount none = amount
  left amount (some used) = sub amount used

  -- What an admission leaves in a bucket.
  abbrev pub taken : F → Usage F → MemoryBucket F → F
  taken now usage b = left (available now b) (lookup usage b.usage_metric)

  subtract_lem : (amount : F) (used : Option F) → subtract amount used ≡ left amount used
  subtract_lem amount none = refl
  subtract_lem amount (some used) = refl

  -- A stored capacity between zero and the maximum.
  abbrev IsPaidPair : F → Option F → Type 0
  IsPaidPair m none = ⊥
  IsPaidPair m (some c) = (le zero_f c ≡ true) × (le c m ≡ true)

  abbrev pub IsPaid : MemoryBucket F → Type 0
  IsPaid b = IsPaidPair b.max_capacity b.capacity

  pub consumed-amounts :
      (usage : Usage F) (f : MemoryBucket F → F) (bs : List (MemoryBucket F))
      → consumed usage (amounts f bs) ≡ amounts (λ b. left (f b) (lookup usage b.usage_metric)) bs
  consumed-amounts usage f [] = refl
  consumed-amounts usage f (b ∷ bs) =
      rw (subtract_lem (f b) (lookup usage b.usage_metric), consumed-amounts usage f bs) refl

  is_short-head :
      (usage : Usage F) (id : BucketId) (a : F) (cs : Capacities F)
      → is_short usage ((id, a) ∷ cs) ≡ false
      → HasEnough a (lookup usage id.0)
  is_short-head [] id a cs h = tt
  is_short-head ((m, u) ∷ usage) id a cs h = elim (Bool-cases (m == id.0)) [
    | inl e ↦ rw e (ground arith)
    | inr e ↦ rw e (is_short-head usage id a cs (ground arith))
  ]

  is_short-tail :
      (usage : Usage F) (c : BucketId × F) (cs : Capacities F)
      → is_short usage (c ∷ cs) ≡ false
      → is_short usage cs ≡ false
  is_short-tail [] c cs h = refl
  is_short-tail ((m, u) ∷ usage) c cs h = ground (arith, is_short-tail usage c cs)

  pub All-enough :
      (usage : Usage F) (f : MemoryBucket F → F) (bs : List (MemoryBucket F))
      → is_short usage (amounts f bs) ≡ false
      → All (λ b. HasEnough (f b) (lookup usage b.usage_metric)) bs
  All-enough usage f [] h = tt
  All-enough usage f (b ∷ bs) h = (
    is_short-head usage (id_of b) (f b) (amounts f bs) h,
    All-enough usage f bs (is_short-tail usage (id_of b, f b) (amounts f bs) h),
  )

  pub record_if_named-buckets :
      (rid : Option ℕ) (usage : Usage F) (b : Backend F)
      → (record_if_named rid usage b).buckets ≡ b.buckets
  unfolding record_if_named
  record_if_named-buckets none usage b = refl
  record_if_named-buckets (some rid) usage b = refl

module _ {F : Type 0} ⦃fl : Float F⦄ (laws : IsIeee fl) (now : F) (t : IsTime now) where
  open fl use {sub, le, lt, is_finite}

  taken_pair :
      (usage : Usage F) (b : MemoryBucket F)
      → IsAmounts usage
      → IsValid b
      → HasEnough (available now b) (lookup usage b.usage_metric)
      → (is_finite (taken now usage b) ≡ true) × (le (taken now usage b) b.max_capacity ≡ true)
  taken_pair usage b us v h = elim (Option-cases (lookup usage b.usage_metric)) [
    | inl e ↦ rw e (available_finite laws now t b v, available-le-max laws now t b v)
    | inr (u, e) ↦ rw e (
        let (fu, nu) = IsAmounts-lookup usage b.usage_metric u us e in
        let fa = available_finite laws now t b v in
        let le_u : le u (available now b) ≡ true =
          laws.not_lt (available now b) u (laws.finite_num _ fa) (laws.finite_num u fu)
            (rw e at h) in
        let below = laws.sub_le (available now b) u fa fu (amount_nonneg laws u fu nu) in
        (
          laws.finite_between zero_f _ (available now b) laws.finite_zero fa
              (laws.sub_nonneg (available now b) u fa fu le_u) below,
          laws.le_trans _ _ _ below (available-le-max laws now t b v),
        ))
  ]

  taken-IsPaid :
      (x : F) (b : MemoryBucket F)
      → IsValid b
      → is_finite x ≡ true
      → le x b.max_capacity ≡ true
      → IsPaid (written now false x b)
  taken-IsPaid x b v fx u = ground (
    arith,
    zero-le-max laws b.max_capacity b.rate_per_sec v.rate,
    zero_num laws,
    laws.lt_le zero_f x,
  )

  pub All-taken :
      (usage : Usage F) (bs : List (MemoryBucket F))
      → IsAmounts usage
      → All IsValid bs
      → All (λ b. HasEnough (available now b) (lookup usage b.usage_metric)) bs
      → All (λ b. is_finite (taken now usage b) ≡ true) bs
        × All IsPaid (map (λ b. written now false (taken now usage b) b) bs)
  All-taken usage [] us v h = (tt, tt)
  All-taken usage (b ∷ bs) us v h =
      let (f, u) = taken_pair usage b us v.0 h.0 in
      let (fs, ps) = All-taken usage bs us v.1 h.1 in
      ((f, fs), (taken-IsPaid (taken now usage b) b v.0 f u, ps))

  module _ (usage : Usage F) (rid : Option ℕ) (b : Backend F) (ib : IsBackend b)
      (checked : validate_backend_usage usage b.usage_metric_names ≡ ok tt)
      (new : is_replay rid usage b ≡ ok false) where
    -- The backend after an admission.
    abbrev pub admitted : Backend F
    admitted = record (record_if_named rid usage b) {
      buckets = map (λ k. written now false (taken now usage k) k) b.buckets;
    }

    pub attempt-exceeds :
        exceeds_some_bucket usage b.buckets ≡ true
        → attempt usage rid now b ≡ (err (value_error exceeds_max_capacity), b)
    unfolding attempt
    attempt-exceeds h =
        ground
          (arith, new, reads laws now t usage b ib checked, active laws now t usage b ib checked, h)

    pub attempt-short :
        exceeds_some_bucket usage b.buckets ≡ false
        → is_short usage (amounts (available now) b.buckets) ≡ true
        → attempt usage rid now b ≡ (ok (blocked (amounts (available now) b.buckets)), b)
    unfolding attempt
    attempt-short h k = ground (
      arith,
      new,
      reads laws now t usage b ib checked,
      active laws now t usage b ib checked,
      h,
      k,
    )

    module _ (h : is_short usage (amounts (available now) b.buckets) ≡ false) where
      pub enough : All (λ k. HasEnough (available now k) (lookup usage k.usage_metric)) b.buckets
      enough = All-enough usage (available now) b.buckets h

      taken_writes :
          set_capacities (amounts (taken now usage) b.buckets) now false b.buckets
          ≡ (ok tt, map (λ k. written now false (taken now usage k) k) b.buckets)
      taken_writes =
          set_capacities-amounts (taken now usage) now false b.buckets ib.distinct
            (All-taken usage b.buckets (usage_checked laws now t usage b ib checked).1 ib.valid
              enough).0

      pub paid : All IsPaid admitted.buckets
      paid =
          (All-taken usage b.buckets (usage_checked laws now t usage b ib checked).1 ib.valid
            enough).1

      pub attempt-granted :
          exceeds_some_bucket usage b.buckets ≡ false
          → attempt usage rid now b
            ≡ (ok (acquired (amounts (taken now usage) b.buckets)), admitted)
      unfolding attempt
      attempt-granted g = ground (
        arith,
        new,
        reads laws now t usage b ib checked,
        active laws now t usage b ib checked,
        g,
        h,
        consumed-amounts usage (available now) b.buckets,
        record_if_named-buckets rid usage b,
        taken_writes,
      )
