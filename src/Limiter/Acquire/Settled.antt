-- ===== src/Limiter/Acquire/Settled.antt =====
-- Where an acquire leaves its reservation, in every way that it can end.
use token_throttle.Base.{ℕ, ◌≡◌, refl, Bool, true, false, ◌&&◌, Option, none, some, arith, nat_eq}
use token_throttle.Base.Dict.{contains, lookup, add_member}
use token_throttle.Base.Members.{contains-discard, contains-add_member, lookup-insert}
use token_throttle.Float.{Float}
use token_throttle.Exceptions.{Result, Error, ok, err, is_ok}
use token_throttle.Validation.{is_empty}
use token_throttle.Limiter.{
  Limiter, Reservation, finalize_pending_acquire, begin_acquire_delivery_cleanup,
  end_acquire_delivery_cleanup,
}
use token_throttle.Limiter.Acquire.{
  Acquisition, BackendEnd, Config, issued, refused, unrefunded, run_acquire, attempt_acquire,
  settle_attempt, deliver, issued_reservation, undelivered, finalize_and_refund_undelivered_acquire,
  end_delivery, refund_or_forget_on_raise,
}

module _ {F : Type 0} where
  -- The reservation is in flight and authoritative as it is, and its acquire is over.
  pub record IsDelivered (r : Reservation F) (l : Limiter F) : Type 0 where
    pub in_flight : contains l.in_flight_ids r.reservation_id ≡ true
    pub snapshot : lookup l.snapshots r.reservation_id ≡ some r
    pub family : lookup l.in_flight_family r.reservation_id ≡ some r.model_family
    pub not_pending : contains l.pending_acquires r.reservation_id ≡ false
    pub not_cleaned : contains l.delivery_cleanups r.reservation_id ≡ false
    pub drained : l.pending_drained ≡ (is_empty l.pending_acquires && is_empty l.delivery_cleanups)

  -- Nothing is left of the reservation but a place in flight that others gave it.
  pub record IsRolledBack (rid : ℕ) (l : Limiter F) : Type 0 where
    pub snapshot : lookup l.snapshots rid ≡ none
    pub family : lookup l.in_flight_family rid ≡ none
    pub not_pending : contains l.pending_acquires rid ≡ false
    pub drained : l.pending_drained ≡ (is_empty l.pending_acquires && is_empty l.delivery_cleanups)

  delivered :
      (r : Reservation F) (model : ℕ) (now : F) (l : Limiter F)
      → IsDelivered r (
          end_acquire_delivery_cleanup r.reservation_id (
            finalize_pending_acquire r model now
              (begin_acquire_delivery_cleanup r.reservation_id l)))
  unfolding end_acquire_delivery_cleanup finalize_pending_acquire begin_acquire_delivery_cleanup
  delivered r model now l =
      let rid = r.reservation_id in
      record {
        in_flight = ground (arith, contains-add_member l.in_flight_ids rid rid);
        snapshot = ground (arith, lookup-insert l.snapshots rid rid r);
        family = ground (arith, lookup-insert l.in_flight_family rid rid r.model_family);
        not_pending = ground (arith, contains-discard l.pending_acquires rid rid);
        not_cleaned = ground (arith, contains-discard (add_member l.delivery_cleanups rid) rid rid);
        drained = refl;
      }

  -- Kept in flight, to be refunded later.
  pub record IsKept (rid : ℕ) (l : Limiter F) : Type 0 where
    pub in_flight : contains l.in_flight_ids rid ≡ true
    pub not_pending : contains l.pending_acquires rid ≡ false

module _ {F : Type 0} ⦃fl : Float F⦄ (out : Acquisition F) where
  undelivered_raises :
      (rid : ℕ) (e : Error) (p : Result (Unit {0}) × Limiter F)
      → is_ok (undelivered out rid e p).0 ≡ false
  undelivered_raises rid e (ok u, l) = refl
  undelivered_raises rid e (err x, l) = refl

  raises :
      (r : Reservation F) (model : ℕ) (e : Error) (l : Limiter F)
      → is_ok (finalize_and_refund_undelivered_acquire out r model e l).0 ≡ false
  unfolding finalize_and_refund_undelivered_acquire
  raises r model e l = undelivered_raises r.reservation_id e _

  called_ok :
      (r q : Reservation F) (model : ℕ) (block : Bool) (e : Result (Unit {0})) (l t : Limiter F)
      → end_delivery r.reservation_id (refund_or_forget_on_raise out r model block e l) ≡ (ok q, t)
      → (r ≡ q) × (end_acquire_delivery_cleanup r.reservation_id l ≡ t)
  called_ok r q model block (ok u) l t h = ground (arith, h)
  called_ok r q model true (err e) l t h = absurd (ground (arith, h, raises r model e l))
  called_ok r q model false (err e) l t h = absurd (ground (arith, h))

  deliver_ok :
      (r q : Reservation F) (model : ℕ) (block : Bool) (l t : Limiter F)
      → deliver out r model block l ≡ (ok q, t)
      → (r ≡ q) × IsDelivered q t
  unfolding deliver
  deliver_ok r q model block l t h =
      let (same, here) =
        called_ok r q model block out.emit
          (finalize_pending_acquire r model out.now
            (begin_acquire_delivery_cleanup r.reservation_id l))
          t h in
      (same, rw (← same, ← here) (delivered r model out.now l))

  settle_ok :
      (r q : Reservation F) (model : ℕ) (block : Bool) (p : Result (BackendEnd F) × Limiter F)
      (t : Limiter F)
      → settle_attempt out r model block p ≡ (ok q, t)
      → (at : Option F) × (issued_reservation at out.time r ≡ q)
        × (p.0 ≡ ok (issued at))
        × IsDelivered q t
  unfolding settle_attempt
  settle_ok r q model block (err e, l) t h = absurd (ground (arith, h))
  settle_ok r q model block (ok (refused e), l) t h = absurd (ground (arith, h))
  settle_ok r q model true (ok (unrefunded at e), l) t h = absurd (ground (arith, h))
  settle_ok r q model false (ok (unrefunded at e), l) t h = absurd (ground (arith, h))
  settle_ok r q model block (ok (issued at), l) t h =
      let (same, done) = deliver_ok (issued_reservation at out.time r) q model block l t h in
      (at, same, refl, done)

  -- An acquire that returns has got an issue time from the backend; the reservation that it returns
  -- is in flight and is the authoritative one, its acquire is neither pending nor being
  -- cleaned up, and the event that a close waits for is set if no other acquire is.
  pub run_acquire-IsDelivered :
      (r q : Reservation F) (model : ℕ) (cfg : Config) (block : Bool) (l t : Limiter F)
      → run_acquire out r model cfg block l ≡ (ok q, t)
      → (at : Option F) × (issued_reservation at out.time r ≡ q)
        × ((attempt_acquire out model cfg l).0 ≡ ok (issued at))
        × IsDelivered q t
  unfolding run_acquire
  run_acquire-IsDelivered r q model cfg block l t h =
      settle_ok r q model block (attempt_acquire out model cfg l) t h
