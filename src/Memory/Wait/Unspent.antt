-- ===== src/Memory/Wait/Unspent.antt =====
-- A call of `wait_for_capacity` that raises has taken nothing.
use token_throttle.Base.{
  ℕ, Bool, true, false, ◌≡◌, Option, none, List, [], ◌∷◌, arith, All, nat_eq, Bool-cases, inl, inr,
  not, ◌⊎◌,
}
use token_throttle.Base.Dict.{discard, add_member}
use token_throttle.Float.{Float, IsIeee}
use token_throttle.Exceptions.{Result, ok, err, Error, Result-cases}
use token_throttle.Capacity.{PyValue}
use token_throttle.Validation.{Usage}
use token_throttle.Validation.Amounts.{IsAmounts}
use token_throttle.Memory.State.{Backend, Capacities}
use token_throttle.Memory.Invariant.{IsBackend}
use token_throttle.Memory.Wait.{
  Attempt, replayed, acquired, blocked, attempt, Round, Call, Outcome, returned, consumed_at,
  raised, waiting, wait_loop, after_attempt, add_waiter, announce, sleep_then, wait_checked,
  is_past, compute_sleep, finish, wait_for_capacity, checked_call, deadline_from,
}
use token_throttle.Memory.Wait.Keeps.{attempt-IsBackend, attempt-keeps}
use token_throttle.Memory.Wait.Cancelled.{IsBackend-waiters}
use token_throttle.Memory.Wait.Rounds.{IsRound, checked-IsAmounts}

module _ {F : Type 0} (R : Backend F → Backend F → Type 0) where
  -- A relation of backends before and after, which does not look at the waiters.
  pub record IsFrame : Type 0 where
    pub same : (b : Backend F) → R b b
    pub join : {b m d : Backend F} → R b m → R m d → R b d
    pub waiters : (ws : List ℕ) (b : Backend F) → R b (record b { waiters = ws })

module _ {F : Type 0} ⦃fl : Float F⦄ (R : Backend F → Backend F → Type 0) (fr : IsFrame R)
    (error : Error) where
  -- How an outcome that raises the error leaves the backend.
  abbrev IsLeft : Backend F → Outcome F × Backend F → Type 0
  IsLeft b p = p.0 ≡ raised error → R b p.1

  announce-IsLeft :
      (c : Call F) (r : Round F) (b : Backend F) (next : Backend F → Outcome F × Backend F)
      → R b (r.others b)
      → IsLeft (r.others b) (next (r.others b))
      → IsLeft b (announce c r b next)
  announce-IsLeft c r b next o h = elim (Bool-cases (not c.has_wait_start)) [
    | inl e ↦ rw e (λ x. fr.join o (h x))
    | inr e ↦ elim (Bool-cases (is_past c.deadline r.callback_started)) [
      | inl f ↦ rw (e, f) (λ x. o)
      | inr f ↦ elim (Bool-cases r.callback_raises) [
        | inl g ↦ rw (e, f, g) (λ x. o)
        | inr g ↦ elim (Bool-cases (is_past c.deadline r.callback_ended)) [
          | inl k ↦ rw (e, f, g, k) (λ x. o)
          | inr k ↦ rw (e, f, g, k) (λ x. fr.join o (h x))
        ]
      ]
    ]
  ]

  sleep_then-IsLeft :
      (r : Round F) (b : Backend F) (next : Backend F → Outcome F × Backend F) (q : Result F)
      → R b (r.others b)
      → IsLeft (r.others b) (next (r.others b))
      → IsLeft b (sleep_then r b next q)
  sleep_then-IsLeft r b next (err e) o h = λ x. fr.same b
  sleep_then-IsLeft r b next (ok x) o h = λ x. fr.join o (h x)

  blocked-IsLeft :
      (c : Call F) (w : Bool) (r : Round F) (pre : Capacities F) (b : Backend F)
      (next : Backend F → Outcome F × Backend F)
      → ((m : Backend F) → R m (r.others m))
      → IsLeft (r.others (add_waiter c.waiter_key b)) (next (r.others (add_waiter c.waiter_key b)))
      → IsLeft b (after_attempt c w r (ok (blocked pre), b) next)
  blocked-IsLeft c w r pre b next o h =
      let m = add_waiter c.waiter_key b in
      let waits = fr.waiters (add_member b.waiters c.waiter_key) b in
      elim (Bool-cases (is_past c.deadline r.checked_at)) [
        | inl late ↦ rw late (λ x. waits)
        | inr early ↦ elim (Bool-cases w) [
          | inl e ↦
              rw (early, e)
                (λ x. fr.join waits (
                  sleep_then-IsLeft r m next (compute_sleep c.usage b.buckets b.sleep_interval pre)
                    (o m) h x))
          | inr e ↦ rw (early, e) (λ x. fr.join waits (announce-IsLeft c r m next (o m) h x))
        ]
      ]

  -- An attempt that has left the backend as it was, or has been admitted.
  after_attempt-IsLeft :
      (c : Call F) (w : Bool) (r : Round F) (b : Backend F) (a : Result (Attempt F) × Backend F)
      (next : Backend F → Outcome F × Backend F)
      → ((a.1 ≡ b) ⊎ ((post : Capacities F) × (a.0 ≡ ok (acquired post))))
      → ((m : Backend F) → R m (r.others m))
      → IsLeft
          (r.others (add_waiter c.waiter_key a.1))
          (next (r.others (add_waiter c.waiter_key a.1)))
      → IsLeft b (after_attempt c w r a next)
  after_attempt-IsLeft c w r b (a, d) next (inr (post, e)) o h = λ x. absurd (ground (arith, e, x))
  after_attempt-IsLeft c w r b (err e, d) next (inl q) o h = λ x. rw q (fr.same b)
  after_attempt-IsLeft c w r b (ok replayed, d) next (inl q) o h = λ x. absurd (ground (arith, x))
  after_attempt-IsLeft c w r b (ok (acquired post), d) next (inl q) o h =
      λ x. absurd (ground (arith, x))
  after_attempt-IsLeft c w r b (ok (blocked pre), d) next (inl q) o h =
      λ x. rw (← q) (blocked-IsLeft c w r pre d next o h x)

  module _ (laws : IsIeee fl) where
    wait_loop-IsLeft :
        (c : Call F) (w : Bool) (rs : List (Round F)) (b : Backend F)
        → IsAmounts c.usage
        → All IsRound rs
        → All (λ r. (m : Backend F) → R m (r.others m)) rs
        → IsBackend b
        → IsLeft b (wait_loop c w rs b)
    unfolding wait_loop
    wait_loop-IsLeft c w [] b a h o ib = λ x. absurd (ground (arith, x))
    wait_loop-IsLeft c w (r ∷ rs) b a h o ib =
        let p = attempt c.usage c.reservation_id r.now b in
        let ip = attempt-IsBackend laws r.now h.0.time c.usage c.reservation_id b a ib in
        after_attempt-IsLeft c w r b p (wait_loop c true rs)
          (attempt-keeps laws r.now h.0.time c.usage c.reservation_id b a ib) o.0
          (wait_loop-IsLeft c true rs (r.others (add_waiter c.waiter_key p.1)) a h.1 o.1
            (h.0.others _ (IsBackend-waiters (add_member p.1.waiters c.waiter_key) p.1 ip)))

    finish-IsLeft :
        (c : Call F) (b : Backend F) (p : Outcome F × Backend F)
        → IsLeft b p
        → IsLeft b (finish c none p)
    unfolding finish
    finish-IsLeft c b (waiting, d) h = h
    finish-IsLeft c b (raised e, d) h =
        λ x. fr.join (h x) (fr.waiters (discard d.waiters c.waiter_key) d)
    finish-IsLeft c b (returned t, d) h = λ x. absurd (ground (arith, x))
    finish-IsLeft c b (consumed_at t, d) h = λ x. absurd (ground (arith, x))

    wait_checked-IsLeft :
        (usage : Usage F) (rid : Option ℕ) (key : ℕ) (has_wait_start : Bool) (started : F)
        (rounds : List (Round F)) (b : Backend F) (limit : Option F)
        → IsAmounts usage
        → All IsRound rounds
        → All (λ r. (m : Backend F) → R m (r.others m)) rounds
        → IsBackend b
        → IsLeft b (wait_checked usage rid key has_wait_start started rounds none b (ok limit))
    unfolding wait_checked
    wait_checked-IsLeft usage rid key has_wait_start started rounds b limit a h o ib =
        let c : Call F = record {
          usage = usage;
          reservation_id = rid;
          waiter_key = key;
          deadline = deadline_from started limit;
          has_wait_start = has_wait_start;
        } in
        finish-IsLeft c b (wait_loop c false rounds b) (wait_loop-IsLeft c false rounds b a h o ib)

    -- A call of wait_for_capacity that raises and is not interrupted has taken nothing: it relates
    -- the backend before to the backend after by any reflexive and transitive relation that does
    -- not look at the waiters and that every step of the other threads keeps. The refusals, a
    -- passed deadline and a callback that raises are all such ends.
    pub wait_for_capacity_unspent :
        (usage : Usage F) (timeout : PyValue F) (rid : Option ℕ) (key : ℕ) (has_wait_start : Bool)
        (started : F) (rounds : List (Round F)) (b : Backend F)
        → All IsRound rounds
        → All (λ r. (m : Backend F) → R m (r.others m)) rounds
        → IsBackend b
        → (wait_for_capacity usage timeout rid key has_wait_start started rounds none b).0
          ≡ raised error
        → R b (wait_for_capacity usage timeout rid key has_wait_start started rounds none b).1
    unfolding wait_for_capacity
    wait_for_capacity_unspent usage timeout rid key has_wait_start started rounds b h o ib =
        elim (Result-cases (checked_call usage timeout b.usage_metric_names)) [
          | inr (e, bad) ↦ rw bad (λ x. fr.same b)
          | inl (limit, good) ↦ rw good (
              wait_checked-IsLeft usage rid key has_wait_start started rounds b limit
                (checked-IsAmounts laws usage timeout b.usage_metric_names limit good) h o ib)
        ]
