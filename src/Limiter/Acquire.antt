-- ===== src/Limiter/Acquire.antt =====
-- _sync_rate_limiter.py, `_acquire_capacity` and what calls it: how a reservation is made, and how an
-- acquire that fails half way gives back its place. Log records are left out.
pub mod Settled
use token_throttle.Base.{
  ℕ, Bool, true, false, Option, none, some, List, [], ◌∷◌, map, if◌then◌else◌, nat_eq, pair_eq,
}
use token_throttle.Base.Dict.{keys}
use token_throttle.Float.{Float, zero_f}
use token_throttle.Exceptions.{
  Result, Error, ok, err, acquire_refund_failed, value_error, is_negative,
}
use token_throttle.Action.{Action, ◌>>=◌, ◌>>◌, pure, lift, gets, branch}
use token_throttle.Validation.{BucketId, Usage, validate_usage_mapping}
use token_throttle.Limiter.{
  Limiter, Reservation, raise_if_closed, raise_if_closed_or_closing, remember_in_flight_reservation,
  forget_in_flight_reservation, begin_pending_acquire, finalize_pending_acquire,
  rollback_pending_acquire, begin_acquire_delivery_cleanup, end_acquire_delivery_cleanup,
}
use token_throttle.Limiter.Aliases.{validated_model_family, validate_shared_model_family_config}
use token_throttle.Limiter.Refund.{Surroundings, refund_started, refund_capacity}

-- The configuration that `config_getter` gives for a model.
pub record Config : Type 0 where
  pub model_family : ℕ
  pub signature : ℕ
  pub is_unlimited : Bool
  pub metrics : List ℕ
  pub bucket_ids : List BucketId

-- `_UNLIMITED_FLAG`, the family of every unlimited reservation
abbrev pub unlimited_flag : ℕ
unlimited_flag = 0

-- How the backend's `wait_for_capacity` or `consume_capacity` ends: it returns an issue time, if that
-- is a number; it raises; or it raises after `_record_acquire_cleanup_failure`.
pub data BackendEnd (F : Type 0) : Type 0 where
  issued : Option F → BackendEnd F
  refused : Error → BackendEnd F
  unrefunded : F → Error → BackendEnd F

-- What an acquire meets outside of the limiter's bookkeeping.
pub record Acquisition (F : Type 0) : Type 0 where
  -- the family and the signature that `config_getter` gives for another model
  pub resolve : ℕ → Result (ℕ × ℕ)
  -- `_get_backend`, and the backend's call, with what other threads do to the limiter meanwhile
  pub get_backend : Action (Limiter F) (Unit {0})
  pub call_backend : Limiter F → BackendEnd F × Limiter F
  -- the lifecycle callback, and whether an exception counts as critical
  pub emit : Result (Unit {0})
  pub is_critical : Error → Bool
  -- the refund of a reservation that could not be delivered
  pub refund : Surroundings F
  -- `time.time()` and `time.monotonic()`
  pub time : F
  pub now : F

module _ {F : Type 0} where
  abbrev pub issued_at : F → Reservation F → Reservation F
  issued_at at r = record r { created_at_seconds = some at }

  -- Up to the end of the backend's call, in the `try` that rolls back.
  unfoldable pub attempt_acquire : Acquisition F → ℕ → Config → Action (Limiter F) (BackendEnd F)
  unfolding validate_shared_model_family_config
  attempt_acquire out model cfg = do
    validate_shared_model_family_config out.resolve model cfg.model_family cfg.signature out.now
        true
    out.get_backend
    λ l. (ok (out.call_backend l).0, (out.call_backend l).1)

  -- `_reservation_bucket_ids` and the new reservation
  abbrev pub metered_reservation : Config → Usage F → ℕ → ℕ → Reservation F
  metered_reservation cfg usage rid instance_id = record {
    reservation_id = rid;
    model_family = cfg.model_family;
    usage = usage;
    bucket_ids = some cfg.bucket_ids;
    is_unlimited = false;
    limiter_instance_id = instance_id;
    created_at_seconds = none;
  }

  abbrev pub new_unlimited : ℕ → ℕ → F → Reservation F
  new_unlimited rid instance_id time = record {
    reservation_id = rid;
    model_family = unlimited_flag;
    usage = [];
    bucket_ids = none;
    is_unlimited = true;
    limiter_instance_id = instance_id;
    created_at_seconds = some time;
  }

module _ {F : Type 0} ⦃fl : Float F⦄ where
  open fl use {lt, is_finite}

  -- On a frozen usage.
  unfoldable pub validate_usage_values_non_negative : Usage F → Result (Unit {0})
  validate_usage_values_non_negative [] = ok tt
  validate_usage_values_non_negative ((metric, amount) ∷ usage) =
      if lt amount zero_f
      then err (value_error is_negative)
      else validate_usage_values_non_negative usage

  -- `_issued_reservation`
  abbrev pub issued_reservation : Option F → F → Reservation F → Reservation F
  issued_reservation none time r = issued_at time r
  issued_reservation (some at) time r = issued_at (if is_finite at then at else time) r

  -- `_zero_actual_usage`
  abbrev pub zero_actual_usage : Reservation F → Usage F
  zero_actual_usage r = map (λ (metric : ℕ). (metric, zero_f)) (keys r.usage)

  -- The end of the refund of a reservation that was not delivered; the first error is raised again.
  abbrev pub undelivered :
      Acquisition F → ℕ → Error → Result (Unit {0}) × Limiter F → Result (Reservation F) × Limiter F
  undelivered out rid e (ok _, l) = (err e, l)
  undelivered out rid e (err e', l) =
      (err (if out.is_critical e' then e' else acquire_refund_failed rid), l)

  -- `_finalize_and_refund_undelivered_acquire`
  unfoldable pub finalize_and_refund_undelivered_acquire :
      Acquisition F → Reservation F → ℕ → Error → Limiter F → Result (Reservation F) × Limiter F
  unfolding finalize_pending_acquire refund_started refund_capacity
  finalize_and_refund_undelivered_acquire out r model e before =
      let l = finalize_pending_acquire r model out.now before in
      undelivered out r.reservation_id e (
        if l.closed
        then refund_started out.refund (zero_actual_usage r) r true l
        else refund_capacity out.refund (zero_actual_usage r) r out.time l)

  -- `_refund_or_forget_reservation_on_raise`, around the lifecycle callback
  abbrev pub refund_or_forget_on_raise :
      Acquisition F
      → Reservation F
      → ℕ
      → Bool
      → Result (Unit {0})
      → Limiter F
      → Result (Reservation F) × Limiter F
  refund_or_forget_on_raise out r model refund_undelivered (ok _) l = (ok r, l)
  refund_or_forget_on_raise out r model true (err e) l =
      finalize_and_refund_undelivered_acquire out r model e l
  refund_or_forget_on_raise out r model false (err e) l =
      (err e, forget_in_flight_reservation r.reservation_id l)

  -- The `finally`.
  abbrev pub end_delivery :
      ℕ → Result (Reservation F) × Limiter F → Result (Reservation F) × Limiter F
  end_delivery rid (result, l) = (result, end_acquire_delivery_cleanup rid l)

  unfoldable pub deliver :
      Acquisition F → Reservation F → ℕ → Bool → Limiter F → Result (Reservation F) × Limiter F
  unfolding begin_acquire_delivery_cleanup finalize_pending_acquire end_acquire_delivery_cleanup
      finalize_and_refund_undelivered_acquire
  deliver out r model block l = end_delivery r.reservation_id (
      refund_or_forget_on_raise out r model block out.emit (
        finalize_pending_acquire r model out.now
          (begin_acquire_delivery_cleanup r.reservation_id l)))

  -- The `except` around the attempt, and the delivery. Only a call that waits is told of a cleanup
  -- that failed.
  unfoldable pub settle_attempt :
      Acquisition F
      → Reservation F
      → ℕ
      → Bool
      → Result (BackendEnd F) × Limiter F
      → Result (Reservation F) × Limiter F
  unfolding rollback_pending_acquire finalize_pending_acquire deliver
  settle_attempt out r model block (err e, l) = (err e, rollback_pending_acquire r.reservation_id l)
  settle_attempt out r model block (ok (refused e), l) =
      (err e, rollback_pending_acquire r.reservation_id l)
  settle_attempt out r model true (ok (unrefunded at e), l) = (
    err (acquire_refund_failed r.reservation_id),
    finalize_pending_acquire (issued_at at r) model out.now l,
  )
  settle_attempt out r model false (ok (unrefunded at e), l) =
      (err e, rollback_pending_acquire r.reservation_id l)
  settle_attempt out r model block (ok (issued at), l) =
      deliver out (issued_reservation at out.time r) model block l

  -- `_acquire_capacity`, once the place is taken
  unfoldable pub run_acquire :
      Acquisition F → Reservation F → ℕ → Config → Bool → Action (Limiter F) (Reservation F)
  unfolding settle_attempt attempt_acquire
  run_acquire out r model cfg block l =
      settle_attempt out r model block (attempt_acquire out model cfg l)

  -- `_acquire_capacity`; `rid` is the new reservation's id.
  unfoldable pub acquire_metered :
      Acquisition F → Usage F → ℕ → Config → ℕ → Bool → Action (Limiter F) (Reservation F)
  unfolding run_acquire begin_pending_acquire validate_usage_mapping
  acquire_metered out usage model cfg rid block = do
    lift (validate_usage_mapping usage cfg.metrics)
    this ← gets (λ l. l.instance_id)
    begin_pending_acquire (metered_reservation cfg usage rid this)
    run_acquire out (metered_reservation cfg usage rid this) model cfg block

  abbrev pub forget_on_raise :
      Reservation F → Result (Unit {0}) × Limiter F → Result (Reservation F) × Limiter F
  forget_on_raise r (ok _, l) = (ok r, l)
  forget_on_raise r (err e, l) = (err e, forget_in_flight_reservation r.reservation_id l)

  -- `_unlimited_reservation`
  unfoldable pub unlimited_reservation :
      Acquisition F → ℕ → Config → ℕ → Action (Limiter F) (Reservation F)
  unfolding remember_in_flight_reservation validate_shared_model_family_config
  unlimited_reservation out model cfg rid = do
    raise_if_closed_or_closing
    this ← gets (λ l. l.instance_id)
    remember_in_flight_reservation (new_unlimited rid this out.time)
    λ l. forget_on_raise (new_unlimited rid this out.time) (
        (validate_shared_model_family_config out.resolve model cfg.model_family cfg.signature
              out.now true
            >> lift out.emit)
          l)

  -- `_acquire_or_record`, on a frozen usage and a configuration that has passed the checks of
  -- lengths
  unfoldable pub acquire_or_record :
      Acquisition F → Usage F → ℕ → Config → ℕ → Bool → Action (Limiter F) (Reservation F)
  unfolding unlimited_reservation acquire_metered validated_model_family
      validate_shared_model_family_config validate_usage_values_non_negative
  acquire_or_record out usage model cfg rid block = do
    validated_model_family model cfg.model_family
    branch cfg.is_unlimited
        (do
          lift (validate_usage_values_non_negative usage)
          unlimited_reservation out model cfg rid)
        (do
          validate_shared_model_family_config out.resolve model cfg.model_family cfg.signature
              out.now false
          acquire_metered out usage model cfg rid block)

  -- `acquire_capacity` on a valid timeout and, without waiting, `record_usage`
  unfoldable pub acquire_capacity :
      Acquisition F → Usage F → ℕ → Config → ℕ → Bool → Action (Limiter F) (Reservation F)
  unfolding acquire_or_record
  acquire_capacity out usage model cfg rid block = do
    raise_if_closed
    acquire_or_record out usage model cfg rid block
