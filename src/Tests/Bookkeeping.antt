-- ===== src/Tests/Bookkeeping.antt =====
-- The bookkeeping of a limiter with room for two reservations.
use token_throttle.Exceptions.{already_refunded, duplicate_refund, err, ok, other_error}
use token_throttle.Base.{
  ◌≡◌, refl, ◌<◌, true, false, not, ◌&&◌, ◌||◌, some, none, [], ◌∷◌, arith, nat_eq, pair_eq,
}
use token_throttle.Base.Dict.{contains, lookup}
use token_throttle.Base.Int.{ℤ, pos}
use token_throttle.Float.Ints.{ints}
use token_throttle.Validation.{Usage}
use token_throttle.Limiter.{Reservation, Limiter, begin_pending_acquire, finalize_pending_acquire}
use token_throttle.Limiter.InFlight.{
  IsAccounted, stays, then_step, begins, finalizes, Steps-IsAccounted,
}
use token_throttle.Limiter.Families.{clear_unused_model_families, clear_unused_model_families_keeps}
use token_throttle.Limiter.Projection.{project_refund_scope}
use token_throttle.Limiter.Refund.{Surroundings, refund_started}
use token_throttle.Limiter.Refund.Once.{IsDone, refund_started_once, refund_started_idle}

abbrev pub empty_limiter : Limiter ℤ
empty_limiter = record {
  instance_id = 0;
  closing = false;
  closed = false;
  close_drained = false;
  pending_drained = true;
  pending_acquires = [];
  delivery_cleanups = [];
  in_flight_ids = [];
  in_flight_family = [];
  snapshots = [];
  refund_states = [];
  refund_in_progress = [];
  refunded_ids_cap = 10;
  max_in_flight = 2;
  max_aliases = 5;
  max_model_families = 4;
  max_lifetime = none;
  backends = 4 ∷ [];
  family_to_quotas = (4, ((1, 60), pos 600) ∷ []) ∷ [];
  family_to_model_name = [];
  name_to_family = [];
  last_touched = (4, pos 0) ∷ [];
  runtime_max_capacity = [];
  family_signatures = [];
  name_signatures = [];
  signature_counts = [];
  alias_counts = [];
}

abbrev pub reservation : Reservation ℤ
reservation = record {
  reservation_id = 9;
  model_family = 4;
  usage = (1, pos 90) ∷ [];
  bucket_ids = some ((1, 60) ∷ (1, 1) ∷ []);
  is_unlimited = false;
  limiter_instance_id = 0;
  created_at_seconds = none;
}

abbrev pending : Limiter ℤ
pending = (begin_pending_acquire reservation empty_limiter).1

abbrev busy : Limiter ℤ
busy = finalize_pending_acquire reservation 3 (pos 1) pending

is_pending_now : (contains pending.pending_acquires 9 || contains pending.in_flight_ids 9) ≡ true
unfolding begin_pending_acquire
is_pending_now = refl

Steps-IsAccounted_example : IsAccounted busy
Steps-IsAccounted_example =
    Steps-IsAccounted
      (then_step (then_step stays (begins {l = empty_limiter} reservation refl))
        (finalizes {l = pending} reservation 3 (pos 1) is_pending_now))
      (record { limit = omega arith; drained = refl })

-- A refresh that changes nothing, and a backend that refunds.
abbrev pub calm : Surroundings ℤ
calm = record {
  refresh = λ l. (ok tt, l);
  marker_authority = ok true;
  refund = λ p. λ l. (ok true, l);
  changed = true;
  now = pos 2;
}

abbrev used : Usage ℤ
used = (1, pos 60) ∷ []

busy_returns : (refund_started calm used reservation false busy).0 ≡ ok tt
unfolding refund_started begin_pending_acquire finalize_pending_acquire project_refund_scope
busy_returns = refl

cap_left : 0 < (refund_started calm used reservation false busy).1.refunded_ids_cap
unfolding refund_started begin_pending_acquire finalize_pending_acquire project_refund_scope
cap_left = omega arith

-- Another refund has begun since.
abbrev later_on : Limiter ℤ
later_on = record (refund_started calm used reservation false busy).1 {
  refund_in_progress = 5 ∷ [];
}

still_open : (not false && later_on.closed) ≡ false
unfolding refund_started begin_pending_acquire finalize_pending_acquire project_refund_scope
still_open = refl

refund_started_once_example :
    IsDone 9 (refund_started calm used reservation false busy).1
    × (refund_started calm used reservation false later_on
        ≡ (err (duplicate_refund already_refunded 9), later_on))
refund_started_once_example =
    refund_started_once calm calm used used reservation false false busy later_on busy_returns
      cap_left refl still_open

-- A backend whose call fails.
abbrev failing : Surroundings ℤ
failing = record calm { refund = λ p. λ l. (err other_error, l); changed = false }

refund_started_idle_example :
    contains (refund_started failing used reservation false empty_limiter).1.refund_in_progress 9
    ≡ false
refund_started_idle_example = refund_started_idle failing used reservation false empty_limiter refl

abbrev one_in_flight : Limiter ℤ
one_in_flight = record empty_limiter { in_flight_family = (9, 4) ∷ [] }

clear_unused_model_families_keeps_example :
    let after = (clear_unused_model_families 10 (pos 100) one_in_flight).1 in
    (contains after.backends 4 ≡ contains one_in_flight.backends 4)
    × (lookup after.family_to_quotas 4 ≡ lookup one_in_flight.family_to_quotas 4)
clear_unused_model_families_keeps_example =
    clear_unused_model_families_keeps 10 (pos 100) one_in_flight 4 refl
