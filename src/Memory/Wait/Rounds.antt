-- ===== src/Memory/Wait/Rounds.antt =====
-- A whole call of `wait_for_capacity`, over all its rounds.
use token_throttle.Base.{
  ℕ, Bool, true, false, ◌≡◌, Option, some, none, List, [], ◌∷◌, filter, arith, All, nat_eq,
  Bool-cases, inl, inr, not,
}
use token_throttle.Base.Dict.{discard, add_member}
use token_throttle.Float.{Float, IsIeee}
use token_throttle.Exceptions.{Result, ok, err, Result-cases}
use token_throttle.Capacity.{PyValue}
use token_throttle.Capacity.Refill.{IsTime}
use token_throttle.Validation.{Usage, validate_backend_usage}
use token_throttle.Validation.Amounts.{IsAmounts, validate_usage_mapping-IsAmounts}
use token_throttle.Memory.State.{Backend, ids_of}
use token_throttle.Memory.Invariant.{IsBackend}
use token_throttle.Memory.Wait.{
  Attempt, Interruption, replayed, acquired, blocked, attempt, Round, Call, Outcome, returned,
  consumed_at, raised, waiting, wait_loop, after_attempt, add_waiter, pop_waiter, announce,
  sleep_then, wait_checked, is_past, compute_sleep, finish, wait_for_capacity, checked_call,
  deadline_from,
}
use token_throttle.Memory.Wait.Keeps.{attempt-IsBackend}
use token_throttle.Memory.Wait.Cancelled.{IsBackend-waiters, refund_cancelled-IsBackend}

module _ {F : Type 0} ⦃fl : Float F⦄ where
  -- A round at a valid time, in which the other threads keep the invariant.
  pub record IsRound (r : Round F) : Type 0 where
    pub time : IsTime r.now
    pub others : (b : Backend F) → IsBackend b → IsBackend (r.others b)

  -- At a valid time, and the other threads before it keep the invariant.
  pub record IsInterruption (i : Interruption F) : Type 0 where
    pub time : IsTime i.at
    pub others : (b : Backend F) → IsBackend b → IsBackend (i.others b)

  abbrev pub IsInterruptionIf : Option (Interruption F) → Type 0
  IsInterruptionIf none = Unit
  IsInterruptionIf (some i) = IsInterruption i

  announce-IsBackend :
      (c : Call F) (r : Round F) (b : Backend F) (next : Backend F → Outcome F × Backend F)
      → IsBackend (r.others b)
      → IsBackend (next (r.others b)).1
      → IsBackend (announce c r b next).1
  announce-IsBackend c r b next ib h = elim (Bool-cases (not c.has_wait_start)) [
    | inl e ↦ rw e h
    | inr e ↦ elim (Bool-cases (is_past c.deadline r.callback_started)) [
      | inl f ↦ rw (e, f) ib
      | inr f ↦ elim (Bool-cases r.callback_raises) [
        | inl g ↦ rw (e, f, g) ib
        | inr g ↦ elim (Bool-cases (is_past c.deadline r.callback_ended)) [
          | inl k ↦ rw (e, f, g, k) ib
          | inr k ↦ rw (e, f, g, k) h
        ]
      ]
    ]
  ]

  sleep_then-IsBackend :
      (r : Round F) (b : Backend F) (next : Backend F → Outcome F × Backend F) (q : Result F)
      → IsBackend b
      → IsBackend (next (r.others b)).1
      → IsBackend (sleep_then r b next q).1
  sleep_then-IsBackend r b next (err e) ib h = ib
  sleep_then-IsBackend r b next (ok x) ib h = h

  after_attempt-IsBackend :
      (c : Call F) (w : Bool) (r : Round F) (a : Result (Attempt F) × Backend F)
      (next : Backend F → Outcome F × Backend F)
      → IsRound r
      → IsBackend a.1
      → ((b : Backend F) → IsBackend b → IsBackend (next b).1)
      → IsBackend (after_attempt c w r a next).1
  after_attempt-IsBackend c w r (err e, b) next ir ib h = ib
  after_attempt-IsBackend c w r (ok replayed, b) next ir ib h = ib
  after_attempt-IsBackend c w r (ok (acquired post), b) next ir ib h = ib
  after_attempt-IsBackend c w r (ok (blocked pre), b) next ir ib h =
      let waits = IsBackend-waiters (add_member b.waiters c.waiter_key) b ib in
      let free = ir.others (add_waiter c.waiter_key b) waits in
      elim (Bool-cases (is_past c.deadline r.checked_at)) [
        | inl late ↦ rw late waits
        | inr early ↦ elim (Bool-cases w) [
          | inl e ↦
              rw (early, e)
                (sleep_then-IsBackend r (add_waiter c.waiter_key b) next
                  (compute_sleep c.usage b.buckets b.sleep_interval pre) waits (h _ free))
          | inr e ↦
              rw (early, e)
                (announce-IsBackend c r (add_waiter c.waiter_key b) next free (h _ free))
        ]
      ]

module _ {F : Type 0} ⦃fl : Float F⦄ (laws : IsIeee fl) where
  wait_loop-IsBackend :
      (c : Call F) (w : Bool) (rs : List (Round F)) (b : Backend F)
      → IsAmounts c.usage
      → All IsRound rs
      → IsBackend b
      → IsBackend (wait_loop c w rs b).1
  unfolding wait_loop
  wait_loop-IsBackend c w [] b a h ib = ib
  wait_loop-IsBackend c w (r ∷ rs) b a h ib =
      after_attempt-IsBackend c w r (attempt c.usage c.reservation_id r.now b) (wait_loop c true rs)
        h.0 (attempt-IsBackend laws r.now h.0.time c.usage c.reservation_id b a ib)
        (λ m im. wait_loop-IsBackend c true rs m a h.1 im)

  finish-IsBackend :
      (c : Call F) (interrupted : Option (Interruption F)) (p : Outcome F × Backend F)
      → IsAmounts c.usage
      → IsInterruptionIf interrupted
      → IsBackend p.1
      → IsBackend (finish c interrupted p).1
  unfolding finish
  finish-IsBackend c i (waiting, b) a t ib = ib
  finish-IsBackend c i (raised e, b) a t ib =
      IsBackend-waiters (discard b.waiters c.waiter_key) b ib
  finish-IsBackend c i (returned x, b) a t ib =
      IsBackend-waiters (discard b.waiters c.waiter_key) b ib
  finish-IsBackend c none (consumed_at x, b) a t ib =
      IsBackend-waiters (discard b.waiters c.waiter_key) b ib
  finish-IsBackend c (some i) (consumed_at x, b) a t ib =
      refund_cancelled-IsBackend laws i.at t.time c.usage (filter i.kept (ids_of b.buckets))
        c.reservation_id (i.others (pop_waiter c.waiter_key b)) a
        (t.others _ (IsBackend-waiters (discard b.waiters c.waiter_key) b ib))

  pub checked-IsAmounts :
      (usage : Usage F) (timeout : PyValue F) (names : List ℕ) (limit : Option F)
      → checked_call usage timeout names ≡ ok limit
      → IsAmounts usage
  unfolding checked_call validate_backend_usage
  checked-IsAmounts usage timeout names limit h =
      elim (Result-cases (validate_backend_usage usage names)) [
        | inl (_, e) ↦ (validate_usage_mapping-IsAmounts usage names e).1
        | inr (x, bad) ↦ absurd (ground (arith, bad))
      ]

  wait_checked-IsBackend :
      (usage : Usage F) (rid : Option ℕ) (key : ℕ) (has_wait_start : Bool) (started : F)
      (rounds : List (Round F)) (interrupted : Option (Interruption F)) (b : Backend F)
      (limit : Option F)
      → IsAmounts usage
      → All IsRound rounds
      → IsInterruptionIf interrupted
      → IsBackend b
      → IsBackend
          (wait_checked usage rid key has_wait_start started rounds interrupted b (ok limit)).1
  unfolding wait_checked
  wait_checked-IsBackend usage rid key has_wait_start started rounds interrupted b limit a h t ib =
      let c : Call F = record {
        usage = usage;
        reservation_id = rid;
        waiter_key = key;
        deadline = deadline_from started limit;
        has_wait_start = has_wait_start;
      } in
      finish-IsBackend c interrupted (wait_loop c false rounds b) a t
        (wait_loop-IsBackend c false rounds b a h ib)

  -- Every call of wait_for_capacity keeps the invariant of the backend, however it ends: it returns, it is
  -- refused, it runs past its deadline, a callback raises, or it is interrupted after it has consumed
  -- and the consumption is refunded to those buckets of the backend that it was taken from. The clocks
  -- show valid times, and the other threads that run between its critical sections, the one of that
  -- refund included, keep the invariant themselves.
  pub wait_for_capacity-IsBackend :
      (usage : Usage F) (timeout : PyValue F) (rid : Option ℕ) (key : ℕ) (has_wait_start : Bool)
      (started : F) (rounds : List (Round F)) (interrupted : Option (Interruption F))
      (b : Backend F)
      → All IsRound rounds
      → IsInterruptionIf interrupted
      → IsBackend b
      → IsBackend
          (wait_for_capacity usage timeout rid key has_wait_start started rounds interrupted b).1
  unfolding wait_for_capacity
  wait_for_capacity-IsBackend usage timeout rid key has_wait_start started rounds interrupted b h t
        ib =
      elim (Result-cases (checked_call usage timeout b.usage_metric_names)) [
        | inr (e, bad) ↦ rw bad ib
        | inl (limit, good) ↦ rw good (
            wait_checked-IsBackend usage rid key has_wait_start started rounds interrupted b limit
              (checked-IsAmounts usage timeout b.usage_metric_names limit good) h t ib)
      ]
