-- ===== src/Memory/Wait/Keeps.antt =====
-- How one attempt of a wait keeps the backend's invariant.
use token_throttle.Base.{
  ◌⊎◌, ap, ℕ, true, false, ◌≡◌, refl, Option, some, none, List, arith, map, nat_eq, pair_eq, inl,
  inr,
}
use token_throttle.Float.{Float, IsIeee}
use token_throttle.Exceptions.{Result, ok, err, Error, Result-cases}
use token_throttle.Capacity.Refill.{IsTime}
use token_throttle.Validation.{Usage}
use token_throttle.Validation.Amounts.{IsAmounts}
use token_throttle.Memory.Bucket.{MemoryBucket}
use token_throttle.Memory.State.{Backend, Capacities, write_capacities}
use token_throttle.Memory.State.Pointwise.{amounts, written, set_capacities-amounts}
use token_throttle.Memory.State.Reads.{available, get_capacities-valid}
use token_throttle.Memory.Reservations.{is_replay, record_if_named}
use token_throttle.Memory.Invariant.{IsBackend, IsBackend-map}
use token_throttle.Memory.Consume.{try_consume_locked, is_short, consumed}
use token_throttle.Memory.Consume.Effects.{record_if_named-IsRegistry, record_if_named-names}
use token_throttle.Memory.Wait.{acquired, Attempt, attempt, attempt_new, settle}
use token_throttle.Memory.Wait.Admission.{
  taken, consumed-amounts, All-enough, All-taken, record_if_named-buckets,
}
use token_throttle.Memory.Wait.Cancelled.{All-written}

module _ {F : Type 0} ⦃fl : Float F⦄ where
  try_consume-some :
      (usage : Usage F) (pre post : Capacities F) (bs : List (MemoryBucket F))
      → try_consume_locked usage pre bs ≡ ok (some post)
      → (is_short usage pre ≡ false) × (post ≡ consumed usage pre)
  unfolding try_consume_locked
  try_consume-some usage pre post bs h = ground arith

module _ {F : Type 0} ⦃fl : Float F⦄ (laws : IsIeee fl) (now : F) (t : IsTime now) where
  -- How an attempt of new usage leaves the backend: as it was, or admitted.
  attempt_admits :
      (usage : Usage F) (rid : Option ℕ) (b : Backend F) (post : Capacities F)
      → IsAmounts usage
      → IsBackend b
      → is_replay rid usage b ≡ ok false
      → try_consume_locked usage (amounts (available now) b.buckets) b.buckets ≡ ok (some post)
      → attempt usage rid now b ≡ (
        ok (acquired post),
        record (record_if_named rid usage b) {
          buckets = map (λ k. written now false (taken now usage k) k) b.buckets;
        },
      )
  unfolding attempt attempt_new settle write_capacities
  attempt_admits usage rid b post a ib new e =
      let (enough, same) =
        try_consume-some usage (amounts (available now) b.buckets) post b.buckets e in
      ground (
        arith,
        new,
        get_capacities-valid laws now t b.buckets ib.valid,
        e,
        same,
        consumed-amounts usage (available now) b.buckets,
        record_if_named-buckets rid usage b,
        set_capacities-amounts (taken now usage) now false b.buckets ib.distinct
            (All-taken laws now t usage b.buckets a ib.valid
              (All-enough usage (available now) b.buckets enough)).0,
      )

  attempt_refuses :
      (usage : Usage F) (rid : Option ℕ) (b : Backend F) (e : Error)
      → IsBackend b
      → is_replay rid usage b ≡ ok false
      → try_consume_locked usage (amounts (available now) b.buckets) b.buckets ≡ err e
      → (attempt usage rid now b).1 ≡ b
  unfolding attempt attempt_new
  attempt_refuses usage rid b e ib new h =
      ground (arith, new, get_capacities-valid laws now t b.buckets ib.valid, h)

  attempt_blocks :
      (usage : Usage F) (rid : Option ℕ) (b : Backend F)
      → IsBackend b
      → is_replay rid usage b ≡ ok false
      → try_consume_locked usage (amounts (available now) b.buckets) b.buckets ≡ ok none
      → (attempt usage rid now b).1 ≡ b
  unfolding attempt attempt_new settle
  attempt_blocks usage rid b ib new h =
      ground (arith, new, get_capacities-valid laws now t b.buckets ib.valid, h)

  attempt_replays :
      (usage : Usage F) (rid : Option ℕ) (b : Backend F)
      → is_replay rid usage b ≡ ok true
      → (attempt usage rid now b).1 ≡ b
  unfolding attempt
  attempt_replays usage rid b again = ground (arith, again)

  attempt_raises :
      (usage : Usage F) (rid : Option ℕ) (b : Backend F) (e : Error)
      → is_replay rid usage b ≡ err e
      → (attempt usage rid now b).1 ≡ b
  unfolding attempt
  attempt_raises usage rid b e bad = ground (arith, bad)

  attempt_new-IsBackend :
      (usage : Usage F) (rid : Option ℕ) (b : Backend F)
      → IsAmounts usage
      → IsBackend b
      → is_replay rid usage b ≡ ok false
      → IsBackend (attempt usage rid now b).1
  attempt_new-IsBackend usage rid b a ib new =
      elim (Result-cases (try_consume_locked usage (amounts (available now) b.buckets) b.buckets)) [
        | inr (e, bad) ↦ rw (attempt_refuses usage rid b e ib new bad) ib
        | inl (none, short) ↦ rw (attempt_blocks usage rid b ib new short) ib
        | inl (some post, e) ↦
            let (enough, _) =
              try_consume-some usage (amounts (available now) b.buckets) post b.buckets e in
            let fin =
              (All-taken laws now t usage b.buckets a ib.valid
                (All-enough usage (available now) b.buckets enough)).0 in
            rw
              (ap (λ (p : Result (Attempt F) × Backend F). p.1)
                (attempt_admits usage rid b post a ib new e))
              (IsBackend-map (λ k. written now false (taken now usage k) k) b
                (record_if_named rid usage b) (λ k. refl) ib (record_if_named-names rid usage b)
                (record_if_named-IsRegistry rid usage b new ib.registry)
                (All-written laws now t (taken now usage) false b.buckets fin ib.valid))
      ]

  pub attempt-IsBackend :
      (usage : Usage F) (rid : Option ℕ) (b : Backend F)
      → IsAmounts usage
      → IsBackend b
      → IsBackend (attempt usage rid now b).1
  attempt-IsBackend usage rid b a ib = elim (Result-cases (is_replay rid usage b)) [
    | inr (e, bad) ↦ rw (attempt_raises usage rid b e bad) ib
    | inl (true, again) ↦ rw (attempt_replays usage rid b again) ib
    | inl (false, new) ↦ attempt_new-IsBackend usage rid b a ib new
  ]

  -- An attempt leaves the backend as it was, or admits the usage.
  attempt_new-keeps :
      (usage : Usage F) (rid : Option ℕ) (b : Backend F)
      → IsAmounts usage
      → IsBackend b
      → is_replay rid usage b ≡ ok false
      → ((attempt usage rid now b).1 ≡ b)
        ⊎ ((post : Capacities F) × ((attempt usage rid now b).0 ≡ ok (acquired post)))
  attempt_new-keeps usage rid b a ib new =
      elim (Result-cases (try_consume_locked usage (amounts (available now) b.buckets) b.buckets)) [
        | inr (e, bad) ↦ inl (attempt_refuses usage rid b e ib new bad)
        | inl (none, short) ↦ inl (attempt_blocks usage rid b ib new short)
        | inl (some post, e) ↦ inr (
          post,
          ap (λ (p : Result (Attempt F) × Backend F). p.0)
              (attempt_admits usage rid b post a ib new e),
        )
      ]

  pub attempt-keeps :
      (usage : Usage F) (rid : Option ℕ) (b : Backend F)
      → IsAmounts usage
      → IsBackend b
      → ((attempt usage rid now b).1 ≡ b)
        ⊎ ((post : Capacities F) × ((attempt usage rid now b).0 ≡ ok (acquired post)))
  attempt-keeps usage rid b a ib = elim (Result-cases (is_replay rid usage b)) [
    | inr (e, bad) ↦ inl (attempt_raises usage rid b e bad)
    | inl (true, again) ↦ inl (attempt_replays usage rid b again)
    | inl (false, new) ↦ attempt_new-keeps usage rid b a ib new
  ]
