-- ===== src/Memory/Wait.antt =====
-- _memory/_sync_backend.py, `wait_for_capacity`: attempts under the lock, with sleeps between them in
-- which other threads run. What the outside decides (the clocks, what the other threads do to the
-- backend while the lock is free, whether a callback raises) is listed round by round.
pub mod Admission
pub mod Fits
pub mod Loop
pub mod Cancelled
pub mod Keeps
pub mod Rounds
pub mod Unspent
use token_throttle.Base.{
  ℕ, Bool, true, false, not, ◌&&◌, ◌||◌, Option, none, some, List, [], ◌∷◌, filter, if◌then◌else◌,
  ◌==◌, nat_eq, pair_eq,
}
use token_throttle.Base.Dict.{contains, lookup, add_member, discard}
use token_throttle.Float.{Float, max_f, min_f, zero_f}
use token_throttle.Exceptions.{
  Result, ok, err, Error, value_error, bad_rate, bucket_not_found, timeout_error, other_error,
}
use token_throttle.Exceptions
use token_throttle.Action.{Action, ◌>>=◌, ◌>>◌, pure, lift, gets, modify, branch}
use token_throttle.Capacity.{PyValue}
use token_throttle.Validation.{BucketId, Usage, validate_backend_usage, validate_timeout}
use token_throttle.Memory.Bucket.{MemoryBucket}
use token_throttle.Memory.State.{
  Backend, Capacities, id_of, ids_of, get_capacities, write_capacities, registered,
}
use token_throttle.Memory.Reservations.{is_replay, record_if_named, forget_if_named}
use token_throttle.Memory.Consume.{try_consume_locked}

-- How one attempt under the lock ends.
pub data Attempt (F : Type 0) : Type 0 where
  replayed : Attempt F
  acquired : Capacities F → Attempt F
  blocked : Capacities F → Attempt F

pub record Round (F : Type 0) : Type 0 where
  -- `time.time()` of the attempt, and `time.monotonic()` after it failed
  pub now : F
  pub checked_at : F
  -- `time.monotonic()` before and after `on_wait_start`, and whether that raises
  pub callback_started : F
  pub callback_ended : F
  pub callback_raises : Bool
  pub others : Backend F → Backend F

pub record Call (F : Type 0) : Type 0 where
  pub usage : Usage F
  pub reservation_id : Option ℕ
  pub waiter_key : ℕ
  pub deadline : Option F
  pub has_wait_start : Bool

-- A critical exception of a callback after the consumption.
pub record Interruption (F : Type 0) : Type 0 where
  -- what other threads do from the consumption on until the lock is held again
  pub others : Backend F → Backend F
  -- whether the backend's bucket of an id is still the object that the consumption took from
  pub kept : BucketId → Bool
  -- `time.time()` under the lock
  pub at : F

-- `waiting`: the rounds are used up and the call still waits.
pub data Outcome (F : Type 0) : Type 0 where
  returned : F → Outcome F
  consumed_at : F → Outcome F
  raised : Error → Outcome F
  waiting : Outcome F

module _ {F : Type 0} ⦃fl : Float F⦄ where
  open fl use {add, sub, div, lt, le, is_finite, from_nat, milli}

  -- The wait for one bucket's deficit to refill.
  unfoldable pub bucket_wait : F → F → Option (MemoryBucket F) → Result F
  bucket_wait max_wait deficit none = err (value_error bucket_not_found)
  bucket_wait max_wait deficit (some b) =
      if not (is_finite b.rate_per_sec) || le b.rate_per_sec zero_f
      then err (value_error bad_rate)
      else ok (max_f max_wait (div deficit b.rate_per_sec))

  unfoldable pub longer_wait : List (MemoryBucket F) → F → BucketId → F → Option F → Result F
  unfolding bucket_wait
  longer_wait buckets max_wait id current_cap none = ok max_wait
  longer_wait buckets max_wait id current_cap (some needed) =
      let deficit = sub needed current_cap in
      if le deficit zero_f
      then ok max_wait
      else bucket_wait max_wait deficit (registered buckets id)

  unfoldable pub longest_wait : Usage F → List (MemoryBucket F) → F → Capacities F → Result F
  longest_wait usage buckets max_wait [] = ok max_wait
  longest_wait usage buckets max_wait ((id, current_cap) ∷ cs) =
      Exceptions.◌>>=◌ (longer_wait buckets max_wait id current_cap (lookup usage id.0))
        λ wait. longest_wait usage buckets wait cs

  -- `_compute_sleep`
  unfoldable pub compute_sleep : Usage F → List (MemoryBucket F) → F → Capacities F → Result F
  unfolding longest_wait longer_wait
  compute_sleep usage buckets sleep_interval preconsumption =
      Exceptions.◌>>=◌ (longest_wait usage buckets zero_f preconsumption)
        λ max_wait. ok (if lt zero_f max_wait then max_wait else sleep_interval)

  abbrev up_to_deadline : F → F → Option F → F
  up_to_deadline computed now none = computed
  up_to_deadline computed now (some deadline) = min_f computed (max_f zero_f (sub deadline now))

  -- The timeout given to `condition.wait`, from the computed sleep; the poll is 1 s.
  unfoldable pub sleep_time : F → F → Option F → F
  sleep_time computed now deadline =
      max_f milli (up_to_deadline (min_f computed (from_nat 1)) now deadline)

  abbrev pub is_past : Option F → F → Bool
  is_past none now = false
  is_past (some deadline) now = le deadline now

  settle :
      Usage F → Option ℕ → F → Capacities F → Option (Capacities F) → Action (Backend F) (Attempt F)
  settle usage rid now pre none = pure (blocked pre)
  settle usage rid now pre (some post) = do
    modify (record_if_named rid usage)
    write_capacities post now false
    pure (acquired post)

  unfoldable pub attempt_new : Usage F → Option ℕ → F → Action (Backend F) (Attempt F)
  unfolding settle get_capacities try_consume_locked record_if_named write_capacities
  attempt_new usage rid now = do
    buckets ← gets (λ b. b.buckets)
    pre ← lift (get_capacities now buckets)
    post ← lift (try_consume_locked usage pre buckets)
    settle usage rid now pre post

  unfoldable pub attempt : Usage F → Option ℕ → F → Action (Backend F) (Attempt F)
  unfolding attempt_new is_replay
  attempt usage rid now = do
    again ← (λ b. (is_replay rid usage b, b))
    branch again (pure replayed) (attempt_new usage rid now)

  abbrev pub add_waiter : ℕ → Backend F → Backend F
  add_waiter key b = record b { waiters = add_member b.waiters key }

  abbrev pub pop_waiter : ℕ → Backend F → Backend F
  pop_waiter key b = record b { waiters = discard b.waiters key }

  -- The first failed attempt announces the wait, outside the lock, and tries again at once.
  abbrev pub announce :
      Call F → Round F → Backend F → (Backend F → Outcome F × Backend F) → Outcome F × Backend F
  announce c r b next =
      if not c.has_wait_start
      then next (r.others b)
      else if is_past c.deadline r.callback_started
      then (raised timeout_error, r.others b)
      else if r.callback_raises
      then (raised other_error, r.others b)
      else if is_past c.deadline r.callback_ended
      then (raised timeout_error, r.others b)
      else next (r.others b)

  abbrev pub sleep_then :
      Round F → Backend F → (Backend F → Outcome F × Backend F) → Result F → Outcome F × Backend F
  sleep_then r b next (err e) = (raised e, b)
  sleep_then r b next (ok _) = next (r.others b)

  -- A later one sleeps.
  abbrev pub sleep :
      Call F
      → Round F
      → Capacities F
      → Backend F
      → (Backend F → Outcome F × Backend F)
      → Outcome F × Backend F
  sleep c r pre b next = sleep_then r b next (compute_sleep c.usage b.buckets b.sleep_interval pre)

  -- The rest of a round whose attempt has ended.
  abbrev pub after_attempt :
      Call F
      → Bool
      → Round F
      → Result (Attempt F) × Backend F
      → (Backend F → Outcome F × Backend F)
      → Outcome F × Backend F
  after_attempt c has_waited r (err e, b) next = (raised e, b)
  after_attempt c has_waited r (ok replayed, b) next = (returned r.now, b)
  after_attempt c has_waited r (ok (acquired post), b) next = (consumed_at r.now, b)
  after_attempt c has_waited r (ok (blocked pre), b) next =
      let waiting_b = add_waiter c.waiter_key b in
      if is_past c.deadline r.checked_at
      then (raised timeout_error, waiting_b)
      else if has_waited
      then sleep c r pre waiting_b next
      else announce c r waiting_b next

  unfoldable pub wait_loop : Call F → Bool → List (Round F) → Backend F → Outcome F × Backend F
  wait_loop c has_waited [] b = (waiting, b)
  wait_loop c has_waited (r ∷ rs) b =
      after_attempt c has_waited r (attempt c.usage c.reservation_id r.now b) (wait_loop c true rs)

  abbrev pub restored_amount : F → Option F → Option (MemoryBucket F) → F
  restored_amount amount none b = amount
  restored_amount amount (some u) none = amount
  restored_amount amount (some u) (some b) = min_f (add amount u) b.max_capacity

  abbrev pub restored : Usage F → List (MemoryBucket F) → Capacities F → Capacities F
  restored usage bs [] = []
  restored usage bs ((id, amount) ∷ cs) =
      (id, restored_amount amount (lookup usage id.0) (registered bs id)) ∷ restored usage bs cs

  -- `_refund_cancelled_consumption`, over the buckets of the snapshot. It is given by the ids of those
  -- that are still the backend's; one that a reconfiguration has taken out since is part of no state
  -- that another call reads, and what is written to it is left out.
  unfoldable pub refund_cancelled_consumption :
      Usage F → List BucketId → Option ℕ → F → Action (Backend F) (Unit {0})
  unfolding get_capacities write_capacities forget_if_named
  refund_cancelled_consumption usage snapshot rid now = do
    buckets ← gets (λ b. filter (λ k. contains snapshot (id_of k)) b.buckets)
    capacities ← lift (get_capacities now buckets)
    write_capacities (restored usage buckets capacities) now true
    modify (forget_if_named rid)

  -- The `finally` block, and the callbacks after a consumption, which run without the lock: where one
  -- raises a critical exception, the consumption is refunded to the buckets that it was taken from.
  unfoldable pub finish :
      Call F → Option (Interruption F) → Outcome F × Backend F → Outcome F × Backend F
  unfolding refund_cancelled_consumption
  finish c interrupted (waiting, b) = (waiting, b)
  finish c interrupted (raised e, b) = (raised e, pop_waiter c.waiter_key b)
  finish c interrupted (returned t, b) = (returned t, pop_waiter c.waiter_key b)
  finish c none (consumed_at t, b) = (returned t, pop_waiter c.waiter_key b)
  finish c (some i) (consumed_at t, b) =
      let snapshot = filter i.kept (ids_of b.buckets) in
      let (_, b') =
        refund_cancelled_consumption c.usage snapshot c.reservation_id i.at
          (i.others (pop_waiter c.waiter_key b)) in
      (raised other_error, b')

  abbrev deadline_from : F → Option F → Option F
  deadline_from started none = none
  deadline_from started (some timeout) = some (add started timeout)

  pub checked_call : Usage F → PyValue F → List ℕ → Result (Option F)
  unfolding validate_backend_usage validate_timeout
  checked_call usage timeout names =
      Exceptions.◌>>◌ (validate_backend_usage usage names) (validate_timeout timeout)

  -- The call after its arguments have been checked, with its timeout.
  wait_checked :
      Usage F
      → Option ℕ
      → ℕ
      → Bool
      → F
      → List (Round F)
      → Option (Interruption F)
      → Backend F
      → Result (Option F)
      → Outcome F × Backend F
  unfolding wait_loop finish
  wait_checked usage rid key has_wait_start started rounds interrupted b (err e) = (raised e, b)
  wait_checked usage rid key has_wait_start started rounds interrupted b (ok limit) =
      let c : Call F = record {
        usage = usage;
        reservation_id = rid;
        waiter_key = key;
        deadline = deadline_from started limit;
        has_wait_start = has_wait_start;
      } in
      finish c interrupted (wait_loop c false rounds b)

  -- `wait_for_capacity`, begun at the monotonic time `started`.
  unfoldable pub wait_for_capacity :
      Usage F
      → PyValue F
      → Option ℕ
      → ℕ
      → Bool
      → F
      → List (Round F)
      → Option (Interruption F)
      → Backend F
      → Outcome F × Backend F
  unfolding wait_checked checked_call
  wait_for_capacity usage timeout rid key has_wait_start started rounds interrupted b =
      wait_checked usage rid key has_wait_start started rounds interrupted b
        (checked_call usage timeout b.usage_metric_names)
