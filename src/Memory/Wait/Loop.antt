-- ===== src/Memory/Wait/Loop.antt =====
-- What `wait_for_capacity` promises, attempt by attempt and over all its rounds.
use token_throttle.Base.Dict.{lookup}
use token_throttle.Memory.Invariant.{IsBackend}
use token_throttle.Memory.State.{Backend, Capacities}
use token_throttle.Base.{
  pair_eq, ℕ, Bool, true, false, ◌≡◌, refl, ◌⊎◌, inl, inr, Option, List, ◌∷◌, All, map, Bool-cases,
  nat_eq, arith, any, [], not,
}
use token_throttle.Float.{Float, IsIeee}
use token_throttle.Exceptions.{Result, ok, err, value_error, exceeds_max_capacity}
use token_throttle.Capacity.Refill.{IsTime}
use token_throttle.Validation.{Usage, validate_backend_usage}
use token_throttle.Memory.State.Pointwise.{amounts, written}
use token_throttle.Memory.State.Reads.{available}
use token_throttle.Memory.Reservations.{is_replay, record_if_named}
use token_throttle.Memory.Consume.{exceeds_some_bucket, is_short}
use token_throttle.Memory.Wait.{
  Attempt, replayed, acquired, blocked, attempt, Round, Call, Outcome, waiting, wait_loop,
  after_attempt, is_past, raised, returned, consumed_at, announce, sleep_then, add_waiter,
  compute_sleep,
}
use token_throttle.Memory.Wait.Fits.{all_fit, exceeds-all_fit, is_short-all_fit}
use token_throttle.Memory.Wait.Admission.{
  HasEnough, IsPaid, taken, enough, paid, attempt-exceeds, attempt-short, attempt-granted,
}

module _ {F : Type 0} ⦃fl : Float F⦄ (laws : IsIeee fl) where
  -- One attempt with valid usage and a reservation that is no replay has three ends, told apart by
  -- two tests. Where some amount exceeds the maximum of a bucket of its metric it raises and changes
  -- nothing; where each fits the maximum and some bucket has less than what is asked of its metric it
  -- is blocked and changes nothing; and otherwise every bucket has the usage of its metric, the
  -- reservation is recorded, and each bucket is stamped with the time and left with what was
  -- available less that usage, between zero and its maximum.
  pub attempt_decides :
      (usage : Usage F) (rid : Option ℕ) (now : F) (b : Backend F) (t : IsTime now)
      (ib : IsBackend b) (checked : validate_backend_usage usage b.usage_metric_names ≡ ok tt)
      (new : is_replay rid usage b ≡ ok false)
      → ((all_fit usage (λ k. k.max_capacity) b.buckets ≡ false)
          × (attempt usage rid now b ≡ (err (value_error exceeds_max_capacity), b)))
        ⊎ ((all_fit usage (λ k. k.max_capacity) b.buckets ≡ true)
            × (all_fit usage (available now) b.buckets ≡ false)
            × (attempt usage rid now b ≡ (ok (blocked (amounts (available now) b.buckets)), b)))
        ⊎ ((all_fit usage (λ k. k.max_capacity) b.buckets ≡ true)
            × (all_fit usage (available now) b.buckets ≡ true)
            × All (λ k. HasEnough (available now k) (lookup usage k.usage_metric)) b.buckets
            × (attempt usage rid now b ≡ (
              ok (acquired (amounts (taken now usage) b.buckets)),
              record (record_if_named rid usage b) {
                buckets = map (λ k. written now false (taken now usage k) k) b.buckets;
              },
            ))
            × All IsPaid (map (λ k. written now false (taken now usage k) k) b.buckets))
  attempt_decides usage rid now b t ib checked new =
      elim (Bool-cases (exceeds_some_bucket usage b.buckets)) [
        | inl e ↦ inl (over e, attempt-exceeds laws now t usage rid b ib checked new e)
        | inr e ↦ elim (Bool-cases (is_short usage (amounts (available now) b.buckets))) [
          | inl s ↦
              inr (inl (under e, short s, attempt-short laws now t usage rid b ib checked new e s))
          | inr s ↦ inr (
              inr (
                under e,
                plenty s,
                enough laws now t usage rid b ib checked new s,
                attempt-granted laws now t usage rid b ib checked new s e,
                paid laws now t usage rid b ib checked new s,
              ))
        ]
      ]
    where
      over :
          exceeds_some_bucket usage b.buckets ≡ true
          → all_fit usage (λ k. k.max_capacity) b.buckets ≡ false
      over h = ground (arith, h, exceeds-all_fit usage b.buckets)

      under :
          exceeds_some_bucket usage b.buckets ≡ false
          → all_fit usage (λ k. k.max_capacity) b.buckets ≡ true
      under h = ground (arith, h, exceeds-all_fit usage b.buckets)

      short :
          is_short usage (amounts (available now) b.buckets) ≡ true
          → all_fit usage (available now) b.buckets ≡ false
      short h = ground (arith, h, is_short-all_fit usage (available now) b.buckets)

      plenty :
          is_short usage (amounts (available now) b.buckets) ≡ false
          → all_fit usage (available now) b.buckets ≡ true
      plenty h = ground (arith, h, is_short-all_fit usage (available now) b.buckets)

module _ {F : Type 0} ⦃fl : Float F⦄ where
  -- How a call ends that ends: it raises, or it returns at the time of an attempt that found the
  -- reservation taken, or took the usage, and left the backend as the call leaves it.
  abbrev pub IsEnd : Call F → Outcome F × Backend F → Type 0
  IsEnd c (waiting, b) = ⊥
  IsEnd c (raised e, b) = Unit
  IsEnd c (returned now, b) =
      (m : Backend F) × (attempt c.usage c.reservation_id now m ≡ (ok replayed, b))
  IsEnd c (consumed_at now, b) =
      (m : Backend F) × (post : Capacities F) × (attempt c.usage c.reservation_id now m
        ≡ (ok (acquired post), b))

  abbrev finds_deadline : Call F → List (Round F) → Bool
  finds_deadline c = any (λ r. is_past c.deadline r.checked_at)

  announce-IsEnd :
      (c : Call F) (r : Round F) (b : Backend F) (next : Backend F → Outcome F × Backend F)
      → IsEnd c (next (r.others b))
      → IsEnd c (announce c r b next)
  announce-IsEnd c r b next h = elim (Bool-cases (not c.has_wait_start)) [
    | inl e ↦ rw e h
    | inr e ↦ elim (Bool-cases (is_past c.deadline r.callback_started)) [
      | inl f ↦ rw (e, f) tt
      | inr f ↦ elim (Bool-cases r.callback_raises) [
        | inl g ↦ rw (e, f, g) tt
        | inr g ↦ elim (Bool-cases (is_past c.deadline r.callback_ended)) [
          | inl k ↦ rw (e, f, g, k) tt
          | inr k ↦ rw (e, f, g, k) h
        ]
      ]
    ]
  ]

  sleep_then-IsEnd :
      (c : Call F) (r : Round F) (b : Backend F) (next : Backend F → Outcome F × Backend F)
      (q : Result F)
      → IsEnd c (next (r.others b))
      → IsEnd c (sleep_then r b next q)
  sleep_then-IsEnd c r b next (err e) h = tt
  sleep_then-IsEnd c r b next (ok x) h = h

  after_attempt-IsEnd :
      (c : Call F) (w : Bool) (r : Round F) (m : Backend F) (a : Result (Attempt F) × Backend F)
      (next : Backend F → Outcome F × Backend F)
      → attempt c.usage c.reservation_id r.now m ≡ a
      → (is_past c.deadline r.checked_at ≡ false → (d : Backend F) → IsEnd c (next d))
      → IsEnd c (after_attempt c w r a next)
  after_attempt-IsEnd c w r m (err e, b) next h rest = tt
  after_attempt-IsEnd c w r m (ok replayed, b) next h rest = (m, h)
  after_attempt-IsEnd c w r m (ok (acquired post), b) next h rest = (m, post, h)
  after_attempt-IsEnd c w r m (ok (blocked pre), b) next h rest =
      let waits = add_waiter c.waiter_key b in
      elim (Bool-cases (is_past c.deadline r.checked_at)) [
        | inl late ↦ rw late tt
        | inr early ↦ elim (Bool-cases w) [
          | inl e ↦
              rw (early, e)
                (sleep_then-IsEnd c r waits next
                  (compute_sleep c.usage b.buckets b.sleep_interval pre) (rest early _))
          | inr e ↦ rw (early, e) (announce-IsEnd c r waits next (rest early _))
        ]
      ]

  -- A call some round of which finds its deadline past does not wait on, whatever the backend holds and
  -- the other threads do: it raises, or it returns at the time of an attempt that took the usage, or
  -- found the reservation taken, and nothing has touched the backend since.
  pub wait_loop_ends :
      (c : Call F) (has_waited : Bool) (rs : List (Round F)) (b : Backend F)
      → finds_deadline c rs ≡ true
      → IsEnd c (wait_loop c has_waited rs b)
  unfolding wait_loop
  wait_loop_ends c w [] b late = absurd (ground (arith, late))
  wait_loop_ends c w (r ∷ rs) b late =
      after_attempt-IsEnd c w r b (attempt c.usage c.reservation_id r.now b) (wait_loop c true rs)
        refl (λ early. λ d. wait_loop_ends c true rs d (ground (arith, late, early)))
