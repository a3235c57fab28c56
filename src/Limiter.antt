-- ===== src/Limiter.antt =====
-- token_throttle/_sync_rate_limiter.py: the bookkeeping of `SyncRateLimiter`, each function under the
-- lock that the code holds for it. Names of models and families are only compared.
pub mod InFlight
pub mod Close
pub mod Families
pub mod Projection
pub mod Refund
pub mod Aliases
pub mod Acquire
use token_throttle.Base.{
  ℕ, ◌+◌, Bool, true, false, not, ◌&&◌, ◌||◌, Option, none, some, List, [], ◌∷◌, ◌++◌, length, leb,
  ltb, if◌then◌else◌, ◌==◌, nat_eq, pair_eq, filter,
}
use token_throttle.Base.Dict.{Dict, contains, discard, add_member, lookup, insert, pop_key, keys}
use token_throttle.Float.{Float, max_f}
use token_throttle.Exceptions.{
  Result, ok, err, cardinality_limit_exceeded, closed_error, unknown_reservation, value_error,
  missing_issue_time, lifetime_exceeded, timeout_error, other_error,
}
use token_throttle.Action.{Action, ◌>>=◌, ◌>>◌, pure, raise, gets, modify, raise_when, when}
use token_throttle.Validation.{BucketId, Usage, is_empty}

pub record Reservation (F : Type 0) : Type 0 where
  pub reservation_id : ℕ
  pub model_family : ℕ
  pub usage : Usage F
  pub bucket_ids : Option (List BucketId)
  pub is_unlimited : Bool
  pub limiter_instance_id : ℕ
  pub created_at_seconds : Option F

-- The values of `_refunded_reservation_ids`.
pub data RefundState : Type 0 where
  is_pending is_committed is_failed : RefundState

-- A snapshot of a reservation is the reservation: it has the same fields. The backends themselves
-- stand outside; `backends` has the families that have one.
pub record Limiter (F : Type 0) : Type 0 where
  pub instance_id : ℕ
  pub closing : Bool
  pub closed : Bool
  pub close_drained : Bool
  pub pending_drained : Bool
  pub pending_acquires : List ℕ
  pub delivery_cleanups : List ℕ
  pub in_flight_ids : List ℕ
  pub in_flight_family : Dict ℕ ℕ
  pub snapshots : Dict ℕ (Reservation F)
  pub refund_states : Dict ℕ RefundState
  pub refund_in_progress : List ℕ
  pub refunded_ids_cap : ℕ
  pub max_in_flight : ℕ
  pub max_aliases : ℕ
  pub max_model_families : ℕ
  pub max_lifetime : Option F
  pub backends : List ℕ
  pub family_to_quotas : Dict ℕ (Dict BucketId F)
  pub family_to_model_name : Dict ℕ ℕ
  pub name_to_family : Dict ℕ ℕ
  pub last_touched : Dict ℕ F
  -- the overrides of `set_max_capacity`, and the validated signatures, which are only compared
  pub runtime_max_capacity : Dict ℕ (Dict BucketId F)
  pub family_signatures : Dict ℕ ℕ
  pub name_signatures : Dict ℕ ℕ
  pub signature_counts : Dict ℕ (Dict ℕ ℕ)
  pub alias_counts : Dict ℕ ℕ

module _ {F : Type 0} where
  -- `_raise_if_closed`, `_raise_if_closed_or_closing`
  abbrev pub raise_if_closed : Action (Limiter F) (Unit {0})
  raise_if_closed = do closed ← gets (λ l. l.closed); raise_when closed closed_error

  abbrev pub raise_if_closed_or_closing : Action (Limiter F) (Unit {0})
  raise_if_closed_or_closing = do
    stopped ← gets (λ l. l.closed || l.closing)
    raise_when stopped closed_error

  -- `_touch_model_family`, at the monotonic time `now`
  abbrev pub touch_model_family : ℕ → F → Limiter F → Limiter F
  touch_model_family family now l = record l { last_touched = insert l.last_touched family now }

  -- `_refresh_pending_drained_locked`
  abbrev pub refresh_pending_drained : Limiter F → Limiter F
  refresh_pending_drained l = record l {
    pending_drained = is_empty l.pending_acquires && is_empty l.delivery_cleanups;
  }

  -- A new reservation while as many as allowed are in flight or pending.
  abbrev pub is_over_limit : ℕ → Limiter F → Bool
  is_over_limit rid l =
      (not (contains l.in_flight_ids rid) && not (contains l.pending_acquires rid))
      && leb l.max_in_flight (length l.in_flight_ids + length l.pending_acquires)

  abbrev put_in_flight : Reservation F → Limiter F → Limiter F
  put_in_flight r l = record l {
    in_flight_ids = add_member l.in_flight_ids r.reservation_id;
    in_flight_family = insert l.in_flight_family r.reservation_id r.model_family;
    snapshots = insert l.snapshots r.reservation_id r;
  }

  -- `_remember_in_flight_reservation`
  unfoldable pub remember_in_flight_reservation : Reservation F → Action (Limiter F) (Unit {0})
  remember_in_flight_reservation r = do
    over ← gets (is_over_limit r.reservation_id)
    raise_when over cardinality_limit_exceeded
    modify (put_in_flight r)

  -- `_forget_in_flight_reservation`
  abbrev pub forget_in_flight_reservation : ℕ → Limiter F → Limiter F
  forget_in_flight_reservation rid l = record l {
    in_flight_ids = discard l.in_flight_ids rid;
    pending_acquires = discard l.pending_acquires rid;
    delivery_cleanups = discard l.delivery_cleanups rid;
    in_flight_family = pop_key l.in_flight_family rid;
    snapshots = pop_key l.snapshots rid;
  }

  -- `_authoritative_reservation_for_refund`
  abbrev pub or_given : Option (Reservation F) → Reservation F → Reservation F
  or_given none r = r
  or_given (some snapshot) r = snapshot

  unfoldable pub authoritative_reservation_for_refund : Reservation F → Limiter F → Reservation F
  authoritative_reservation_for_refund r l = or_given (lookup l.snapshots r.reservation_id) r

  -- `_verify_reservation_bound_to_limiter`
  abbrev pub verify_reservation_bound_to_limiter : Reservation F → Action (Limiter F) (Unit {0})
  verify_reservation_bound_to_limiter r = do
    this ← gets (λ l. l.instance_id)
    raise_when (not (r.limiter_instance_id == this)) (unknown_reservation r.reservation_id false)

  -- `_begin_pending_acquire`
  unfoldable pub begin_pending_acquire : Reservation F → Action (Limiter F) (Unit {0})
  begin_pending_acquire r = do
    raise_if_closed_or_closing
    modify (λ l. record l { pending_drained = false })
    over ← gets (is_over_limit r.reservation_id)
    raise_when over cardinality_limit_exceeded
    modify (λ l. record l {
      pending_acquires = add_member l.pending_acquires r.reservation_id;
      in_flight_family = insert l.in_flight_family r.reservation_id r.model_family;
    })

  -- `_finalize_pending_acquire`
  unfoldable pub finalize_pending_acquire : Reservation F → ℕ → F → Limiter F → Limiter F
  finalize_pending_acquire r model now l =
      let named = record l {
        pending_acquires = discard l.pending_acquires r.reservation_id;
        family_to_model_name = insert l.family_to_model_name r.model_family model;
      } in
      refresh_pending_drained (touch_model_family r.model_family now (put_in_flight r named))

  -- `_rollback_pending_acquire`
  unfoldable pub rollback_pending_acquire : ℕ → Limiter F → Limiter F
  rollback_pending_acquire rid l = refresh_pending_drained (record l {
    pending_acquires = discard l.pending_acquires rid;
    in_flight_family = pop_key l.in_flight_family rid;
    snapshots = pop_key l.snapshots rid;
  })

  -- `_begin_acquire_delivery_cleanup`
  unfoldable pub begin_acquire_delivery_cleanup : ℕ → Limiter F → Limiter F
  begin_acquire_delivery_cleanup rid l = record l {
    delivery_cleanups = add_member l.delivery_cleanups rid;
    pending_drained = false;
  }

  -- `_end_acquire_delivery_cleanup`
  unfoldable pub end_acquire_delivery_cleanup : ℕ → Limiter F → Limiter F
  end_acquire_delivery_cleanup rid l =
      refresh_pending_drained (record l { delivery_cleanups = discard l.delivery_cleanups rid })

module _ {F : Type 0} ⦃fl : Float F⦄ where
  open fl use {sub, lt}

  -- The age check of `_raise_if_reservation_expired`; one that fails forgets the reservation.
  unfoldable pub check_age : ℕ → Option F → Option F → F → Action (Limiter F) (Unit {0})
  check_age rid none created now = pure tt
  check_age rid (some max_lifetime) none now = do
    modify (forget_in_flight_reservation rid)
    raise (value_error missing_issue_time)
  check_age rid (some max_lifetime) (some created) now =
      when (lt max_lifetime (sub now created))
        (do modify (forget_in_flight_reservation rid); raise (value_error lifetime_exceeded))

  -- `_raise_if_reservation_expired`
  unfoldable pub raise_if_reservation_expired : Reservation F → F → Action (Limiter F) (Unit {0})
  unfolding check_age
  raise_if_reservation_expired r now = do
    max_lifetime ← gets (λ l. l.max_lifetime)
    check_age r.reservation_id max_lifetime r.created_at_seconds now
