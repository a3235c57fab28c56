-- ===== src/Memory/Consume/Effects.antt =====
-- What a call of `consume_capacity` promises: its effect on every bucket, the invariant, and that a
-- replay consumes nothing.
use token_throttle.Base.Dict.{contains, keys, lookup}
use token_throttle.Exceptions.{Result-cases, ok}
use token_throttle.Memory.Consume.{consume_capacity}
use token_throttle.Memory.State.{Backend, ids_of}
use token_throttle.Memory.State.Pointwise.{written}
use token_throttle.Base.{
  ℕ, true, false, ◌≡◌, refl, Option, some, none, List, [], ◌∷◌, arith, All, map, nat_eq, pair_eq,
  inl, inr, ◌⊎◌,
}
use token_throttle.Base.Members.{IsNodup, same_set_refl, lookup-insert}
use token_throttle.Float.{Float, IsIeee}
use token_throttle.Capacity.Refill.{IsTime}
use token_throttle.Validation.{Usage, validate_backend_usage}
use token_throttle.Validation.Amounts.{IsAmounts}
use token_throttle.Memory.Bucket.{MemoryBucket}
use token_throttle.Memory.Bucket.Limits.{IsValid}
use token_throttle.Memory.Reservations.{is_replay, record_if_named, same_usage, same_values}
use token_throttle.Memory.Reservations.Registry.{IsRegistry, record_acquired_reservation-IsRegistry}
use token_throttle.Memory.Invariant.{
  IsBackend, IsWithin, IsBackend-map, ids_of-map, written-IsValid,
}
use token_throttle.Memory.Consume.Record.{
  drawn, drawn_finite, usage_checked, names_covered, All-drawn-IsWithin, after_consumption,
}

module _ {F : Type 0} ⦃fl : Float F⦄ where
  open fl use {is_finite, eq}

  -- A reservation that is not a replay has not been refunded.
  pub record_if_named-IsRegistry :
      (rid : Option ℕ) (usage : Usage F) (b : Backend F)
      → is_replay rid usage b ≡ ok false
      → IsRegistry b
      → IsRegistry (record_if_named rid usage b)
  unfolding is_replay record_if_named
  record_if_named-IsRegistry none usage b h r = r
  record_if_named-IsRegistry (some rid) usage b h r =
      record_acquired_reservation-IsRegistry rid usage b (ground arith) r

  pub record_if_named-names :
      (rid : Option ℕ) (usage : Usage F) (b : Backend F)
      → (record_if_named rid usage b).usage_metric_names ≡ b.usage_metric_names
  unfolding record_if_named
  record_if_named-names none usage b = refl
  record_if_named-names (some rid) usage b = refl

  -- Every entry of a usage stands in a dict.
  abbrev IsWithinUsage : Usage F → Usage F → Type 0
  IsWithinUsage v [] = Unit
  IsWithinUsage v ((m, x) ∷ u) = (lookup v m ≡ some x) × IsWithinUsage v u

  IsWithinUsage-cons :
      (k : ℕ) (y : F) (v u : Usage F)
      → contains (keys u) k ≡ false
      → IsWithinUsage v u
      → IsWithinUsage ((k, y) ∷ v) u
  IsWithinUsage-cons k y v [] h w = tt
  IsWithinUsage-cons k y v ((m, x) ∷ u) h w = ground (arith, IsWithinUsage-cons k y v u)

  IsWithinUsage-refl : (u : Usage F) → IsNodup (keys u) → IsWithinUsage u u
  IsWithinUsage-refl [] d = tt
  IsWithinUsage-refl ((m, x) ∷ u) d =
      (ground arith, IsWithinUsage-cons m x u u d.0 (IsWithinUsage-refl u d.1))

  module _ (laws : IsIeee fl) where
    same_values-IsWithinUsage :
        (v u : Usage F) → IsAmounts u → IsWithinUsage v u → same_values u v ≡ true
    same_values-IsWithinUsage v [] a w = refl
    same_values-IsWithinUsage v ((m, x) ∷ u) a w =
        rw (w.0, laws.eq_refl x a.0) (same_values-IsWithinUsage v u a.2 w.1)

    pub same_usage_refl : (u : Usage F) → IsNodup (keys u) → IsAmounts u → same_usage u u ≡ true
    same_usage_refl u d a =
        rw (same_set_refl (keys u)) (same_values-IsWithinUsage u u a (IsWithinUsage-refl u d))

    -- A recorded reservation makes the same acquire a replay, while the bucket ids stay.
    pub recorded_replay :
        (usage : Usage F) (rid : ℕ) (b : Backend F) (bs : List (MemoryBucket F))
        → IsNodup (keys usage)
        → IsAmounts usage
        → ids_of bs ≡ ids_of b.buckets
        → is_replay (some rid) usage (record (record_if_named (some rid) usage b) { buckets = bs })
          ≡ ok true
    unfolding is_replay record_if_named
    recorded_replay usage rid b bs d a ids = ground (
      arith,
      lookup-insert b.acquired_values rid rid (ids_of b.buckets, usage),
      ids,
      same_set_refl (ids_of b.buckets),
      same_usage_refl usage d a,
    )

  replayed_lem :
      (usage : Usage F) (rid : ℕ) (later : F) (b : Backend F)
      → validate_backend_usage usage b.usage_metric_names ≡ ok tt
      → is_replay (some rid) usage b ≡ ok true
      → consume_capacity usage (some rid) later b ≡ (ok later, b)
  unfolding consume_capacity
  replayed_lem usage rid later b checked again = ground (arith, checked, again)

module _ {F : Type 0} ⦃fl : Float F⦄ (laws : IsIeee fl) where
  open fl use {is_finite, eq}

  -- Unconditional consumption of valid usage by a reservation that is no replay succeeds at the
  -- time of the call, records the reservation, and acts on each bucket by itself: the bucket is
  -- stamped with the time, and its capacity is what was available less the usage of its metric,
  -- but not below minus the bucket's maximum. Every bucket ends between minus its maximum and its
  -- maximum, so a finite overshoot makes a bounded debt.
  pub consume_capacity_buckets :
      (usage : Usage F) (rid : Option ℕ) (now : F) (b : Backend F)
      → IsTime now
      → IsBackend b
      → validate_backend_usage usage b.usage_metric_names ≡ ok tt
      → is_replay rid usage b ≡ ok false
      → (consume_capacity usage rid now b ≡ (
        ok now,
        record (record_if_named rid usage b) {
          buckets = map (λ k. written now true (drawn now usage k) k) b.buckets;
        },
      ))
        × All IsWithin (map (λ k. written now true (drawn now usage k) k) b.buckets)
  unfolding consume_capacity
  consume_capacity_buckets usage rid now b t ib checked new = (
    ground (arith, checked, new, after_consumption laws now t usage b ib checked rid),
    All-drawn-IsWithin laws now t usage b.buckets (usage_checked laws now t usage b ib checked).1
        ib.valid (names_covered laws now t usage b ib checked),
  )

  drawn-IsValid :
      (now : F) (t : IsTime now) (usage : Usage F) (bs : List (MemoryBucket F))
      → IsAmounts usage
      → All IsValid bs
      → All (λ k. contains (keys usage) k.usage_metric ≡ true) bs
      → All (λ k. IsValid (written now true (drawn now usage k) k)) bs
  drawn-IsValid now t usage [] us v c = tt
  drawn-IsValid now t usage (k ∷ bs) us v c = (
    written-IsValid laws now (drawn now usage k) true k t.finite
        (drawn_finite laws now t usage k us v.0 c.0) v.0,
    drawn-IsValid now t usage bs us v.1 c.1,
  )

  -- A call that is refused or is a replay leaves the backend alone.
  consume_capacity-cases :
      (usage : Usage F) (rid : Option ℕ) (now : F) (b : Backend F)
      → ((consume_capacity usage rid now b).1 ≡ b)
        ⊎ ((validate_backend_usage usage b.usage_metric_names ≡ ok tt)
            × (is_replay rid usage b ≡ ok false))
  unfolding consume_capacity
  consume_capacity-cases usage rid now b =
      elim (Result-cases (validate_backend_usage usage b.usage_metric_names)) [
        | inr (e, bad) ↦ inl (ground (arith, bad))
        | inl (_, checked) ↦ elim (Result-cases (is_replay rid usage b)) [
          | inr (e, bad) ↦ inl (ground (arith, checked, bad))
          | inl (true, again) ↦ inl (ground (arith, checked, again))
          | inl (false, new) ↦ inr (ground (arith, checked), new)
        ]
      ]

  -- The invariant of the backend outlasts every call of `consume_capacity`, also one that raises.
  pub consume_capacity-IsBackend :
      (usage : Usage F) (rid : Option ℕ) (now : F) (b : Backend F)
      → IsTime now
      → IsBackend b
      → IsBackend (consume_capacity usage rid now b).1
  consume_capacity-IsBackend usage rid now b t ib = elim (consume_capacity-cases usage rid now b) [
    | inl same ↦ rw same ib
    | inr (checked, new) ↦ rw (consume_capacity_buckets usage rid now b t ib checked new).0 (
        IsBackend-map (λ k. written now true (drawn now usage k) k) b (record_if_named rid usage b)
          (λ k. refl) ib (record_if_named-names rid usage b)
          (record_if_named-IsRegistry rid usage b new ib.registry)
          (drawn-IsValid now t usage b.buckets (usage_checked laws now t usage b ib checked).1
            ib.valid (names_covered laws now t usage b ib checked)))
  ]

  -- Consuming is idempotent in the reservation id: once a call with a new id has succeeded, the
  -- same call at any later time returns that time and changes nothing, so nothing is consumed twice.
  pub consume_capacity_replay :
      (usage : Usage F) (rid : ℕ) (now later : F) (b : Backend F)
      → IsTime now
      → IsBackend b
      → IsNodup (keys usage)
      → validate_backend_usage usage b.usage_metric_names ≡ ok tt
      → is_replay (some rid) usage b ≡ ok false
      → let after = (consume_capacity usage (some rid) now b).1 in
        consume_capacity usage (some rid) later after ≡ (ok later, after)
  consume_capacity_replay usage rid now later b t ib nodup checked new =
      rw (consume_capacity_buckets usage (some rid) now b t ib checked new).0 (
        replayed_lem usage rid later _ (rw (record_if_named-names (some rid) usage b) checked) (
          recorded_replay laws usage rid b
            (map (λ k. written now true (drawn now usage k) k) b.buckets) nodup
            (usage_checked laws now t usage b ib checked).1
            (ids_of-map (λ k. written now true (drawn now usage k) k) (λ k. refl) b.buckets)))
