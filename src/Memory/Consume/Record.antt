-- ===== src/Memory/Consume/Record.antt =====
-- `consume_capacity` on a well-formed backend: what it does to each bucket, and that it does not
-- raise where the usage is valid and the reservation is new.
use token_throttle.Exceptions.{ok}
use token_throttle.Float.Order.{le-max_f-right, max_f-le}
use token_throttle.Memory.Consume.{consume_new, overdraw, overdrawn}
use token_throttle.Memory.Reservations.{record_if_named}
use token_throttle.Base.{
  ℕ, true, false, ◌≡◌, refl, Option, some, none, List, [], ◌∷◌, arith, All, map, nat_eq, pair_eq,
  inl, inr, Option-cases,
}
use token_throttle.Base.Members.{lookup-none}
use token_throttle.Base.Dict.{lookup, contains, is_subset, same_set, keys}
use token_throttle.Float.{Float, IsIeee, max_f, zero_f}
use token_throttle.Capacity.Refill.{IsTime, IsRate}
use token_throttle.Validation.{BucketId, Usage, validate_backend_usage}
use token_throttle.Validation.Amounts.{
  IsAmounts, IsAmounts-lookup, amount_nonneg, validate_usage_mapping-IsAmounts,
}
use token_throttle.Memory.Bucket.{MemoryBucket}
use token_throttle.Memory.Bucket.Limits.{IsValid}
use token_throttle.Memory.State.{
  Backend, Capacities, id_of, ids_of, metrics_of, max_capacities, active_metrics, get_capacities,
  set_capacities,
}
use token_throttle.Memory.State.Pointwise.{amounts, written, IsDistinct, set_capacities-amounts}
use token_throttle.Memory.State.Reads.{
  available, available_finite, available-le-max, get_capacities-valid, active_metrics-amounts,
}
use token_throttle.Memory.Invariant.{IsBackend, IsWithin, neg-le-max, written-IsWithin}

module _ {F : Type 0} ⦃fl : Float F⦄ where
  open fl use {sub, neg, le, is_finite}

  abbrev pub drawn_amount : F → Option F → F → F
  drawn_amount amount none maximum = amount
  drawn_amount amount (some used) maximum = max_f (sub amount used) (neg maximum)

  -- What `consume_capacity` leaves in a bucket.
  abbrev pub drawn : F → Usage F → MemoryBucket F → F
  drawn now usage b = drawn_amount (available now b) (lookup usage b.usage_metric) b.max_capacity

  -- Each bucket's maximum stands in the dict under its id.
  abbrev IsListed : Capacities F → MemoryBucket F → Type 0
  IsListed cs b = lookup cs (id_of b) ≡ some b.max_capacity

  IsListed-cons :
      (k : BucketId) (m : F) (cs : Capacities F) (bs : List (MemoryBucket F))
      → contains (ids_of bs) k ≡ false
      → All (IsListed cs) bs
      → All (IsListed ((k, m) ∷ cs)) bs
  IsListed-cons k m cs [] h a = tt
  IsListed-cons k m cs (b ∷ bs) h a = ground (arith, IsListed-cons k m cs bs)

  max_capacities-IsListed :
      (bs : List (MemoryBucket F)) → IsDistinct bs → All (IsListed (max_capacities bs)) bs
  max_capacities-IsListed [] d = tt
  max_capacities-IsListed (b ∷ bs) d = (
    ground arith,
    IsListed-cons (id_of b) b.max_capacity (max_capacities bs) bs d.0
        (max_capacities-IsListed bs d.1),
  )

  overdraw_lem : (a m : F) (o : Option F) → overdraw a o (some m) ≡ ok (drawn_amount a o m)
  overdraw_lem a m none = refl
  overdraw_lem a m (some u) = refl

  overdrawn-amounts :
      (usage : Usage F) (cs : Capacities F) (f : MemoryBucket F → F) (bs : List (MemoryBucket F))
      → All (IsListed cs) bs
      → overdrawn usage cs (amounts f bs)
        ≡ ok (amounts (λ b. drawn_amount (f b) (lookup usage b.usage_metric) b.max_capacity) bs)
  unfolding overdrawn
  overdrawn-amounts usage cs f [] h = refl
  overdrawn-amounts usage cs f (b ∷ bs) h = rw (
    h.0,
    overdraw_lem (f b) b.max_capacity (lookup usage b.usage_metric),
    overdrawn-amounts usage cs f bs h.1,
  )

module _ {F : Type 0} ⦃fl : Float F⦄ (laws : IsIeee fl) (now : F) (t : IsTime now) where
  open fl use {sub, neg, le, is_finite}

  drawn_within :
      (a m r u : F)
      → IsRate m r
      → is_finite a ≡ true
      → le a m ≡ true
      → is_finite u ≡ true
      → le zero_f u ≡ true
      → (le (neg m) (drawn_amount a (some u) m) ≡ true) × (le (drawn_amount a (some u) m) m ≡ true)
  drawn_within a m r u q fa am fu pu =
      let low = neg-le-max laws m r q in
      (
        le-max_f-right laws (sub a u) (neg m) (laws.sub_num a u fa fu) (laws.le_left (neg m) m low),
        max_f-le laws (sub a u) (neg m) m
            (laws.le_trans (sub a u) a m (laws.sub_le a u fa fu pu) am) low,
      )

  -- Overdrawing leaves a bucket between minus its maximum and its maximum.
  pub drawn_bounds :
      (usage : Usage F) (b : MemoryBucket F)
      → IsAmounts usage
      → IsValid b
      → contains (keys usage) b.usage_metric ≡ true
      → (le (neg b.max_capacity) (drawn now usage b) ≡ true)
        × (le (drawn now usage b) b.max_capacity ≡ true)
  drawn_bounds usage b us v k = elim (Option-cases (lookup usage b.usage_metric)) [
    | inl missing ↦ absurd (cc (lookup-none usage b.usage_metric missing))
    | inr (u, e) ↦ rw e (
        let (fu, nu) = IsAmounts-lookup usage b.usage_metric u us e in
        drawn_within (available now b) b.max_capacity b.rate_per_sec u v.rate
          (available_finite laws now t b v) (available-le-max laws now t b v) fu
          (amount_nonneg laws u fu nu))
  ]

  pub drawn_finite :
      (usage : Usage F) (b : MemoryBucket F)
      → IsAmounts usage
      → IsValid b
      → contains (keys usage) b.usage_metric ≡ true
      → is_finite (drawn now usage b) ≡ true
  drawn_finite usage b us v k =
      let (l, u) = drawn_bounds usage b us v k in
      laws.finite_between _ _ _ (laws.finite_neg b.max_capacity v.rate.max_finite) v.rate.max_finite
        l u

  pub covered :
      (usage : Usage F) (bs : List (MemoryBucket F))
      → is_subset (metrics_of bs) (keys usage) ≡ true
      → All (λ b. contains (keys usage) b.usage_metric ≡ true) bs
  covered usage [] h = tt
  covered usage (b ∷ bs) h = ground (arith, covered usage bs)

  pub All-drawn_finite :
      (usage : Usage F) (bs : List (MemoryBucket F))
      → IsAmounts usage
      → All IsValid bs
      → All (λ b. contains (keys usage) b.usage_metric ≡ true) bs
      → All (λ b. is_finite (drawn now usage b) ≡ true) bs
  All-drawn_finite usage [] us v c = tt
  All-drawn_finite usage (b ∷ bs) us v c =
      (drawn_finite usage b us v.0 c.0, All-drawn_finite usage bs us v.1 c.1)

  pub All-drawn-IsWithin :
      (usage : Usage F) (bs : List (MemoryBucket F))
      → IsAmounts usage
      → All IsValid bs
      → All (λ b. contains (keys usage) b.usage_metric ≡ true) bs
      → All IsWithin (map (λ b. written now true (drawn now usage b) b) bs)
  All-drawn-IsWithin usage [] us v c = tt
  All-drawn-IsWithin usage (b ∷ bs) us v c =
      let (l, u) = drawn_bounds usage b us v.0 c.0 in
      (
        written-IsWithin laws now (drawn now usage b) b v.0.rate l u,
        All-drawn-IsWithin usage bs us v.1 c.1,
      )

  module _ (usage : Usage F) (b : Backend F) (ib : IsBackend b)
      (checked : validate_backend_usage usage b.usage_metric_names ≡ ok tt) where
    pub usage_checked : (same_set (keys usage) (metrics_of b.buckets) ≡ true) × IsAmounts usage
    unfolding validate_backend_usage
    usage_checked =
        rw ib.names at (validate_usage_mapping-IsAmounts usage b.usage_metric_names checked)

    pub names_covered : All (λ k. contains (keys usage) k.usage_metric ≡ true) b.buckets
    names_covered = covered usage b.buckets (ground (arith, usage_checked.0))

    pub reads : get_capacities now b.buckets ≡ ok (amounts (available now) b.buckets)
    reads = get_capacities-valid laws now t b.buckets ib.valid

    pub active : is_subset (keys usage) (active_metrics (amounts (available now) b.buckets)) ≡ true
    active = rw (active_metrics-amounts (available now) b.buckets) (ground (arith, usage_checked.0))

    draws :
        overdrawn usage (max_capacities b.buckets) (amounts (available now) b.buckets)
        ≡ ok (amounts (drawn now usage) b.buckets)
    draws =
        overdrawn-amounts usage (max_capacities b.buckets) (available now) b.buckets
          (max_capacities-IsListed b.buckets ib.distinct)

    writes :
        set_capacities (amounts (drawn now usage) b.buckets) now true b.buckets
        ≡ (ok tt, map (λ k. written now true (drawn now usage k) k) b.buckets)
    writes =
        set_capacities-amounts (drawn now usage) now true b.buckets ib.distinct
          (All-drawn_finite usage b.buckets usage_checked.1 ib.valid names_covered)

    pub after_consumption :
        (rid : Option ℕ)
        → consume_new usage rid now b ≡ (
          ok now,
          record (record_if_named rid usage b) {
            buckets = map (λ k. written now true (drawn now usage k) k) b.buckets;
          },
        )
    unfolding consume_new
    after_consumption none = ground (arith, reads, active, draws, writes)
    after_consumption (some rid) = ground (arith, reads, active, draws, writes)
