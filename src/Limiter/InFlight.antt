-- ===== src/Limiter/InFlight.antt =====
-- The count of reservations in flight or pending, over every sequence of the bookkeeping steps.
use token_throttle.Base.Dict.{add_member, contains, discard, insert}
use token_throttle.Exceptions.{cardinality_limit_exceeded, closed_error, err, ok}
use token_throttle.Base.{
  pair_eq, ℕ, suc, ◌+◌, ◌≤◌, ◌<◌, ◌≡◌, refl, true, false, not, ◌&&◌, ◌||◌, List, [], ◌∷◌, length,
  length-append, arith, leb, nat_eq, Bool-cases, inl, inr,
}
use token_throttle.Validation.{is_empty}
use token_throttle.Limiter.{
  Limiter, Reservation, is_over_limit, remember_in_flight_reservation, begin_pending_acquire,
  finalize_pending_acquire, rollback_pending_acquire, begin_acquire_delivery_cleanup,
  end_acquire_delivery_cleanup, forget_in_flight_reservation,
}

pub length-discard-le : (xs : List ℕ) (k : ℕ) → length (discard xs k) ≤ length xs
length-discard-le [] k = omega arith
length-discard-le (x ∷ xs) k = ground (arith, length-discard-le xs k)

length-discard-lt : (xs : List ℕ) (k : ℕ) → contains xs k ≡ true → length (discard xs k) < length xs
length-discard-lt [] k h = absurd (cc)
length-discard-lt (x ∷ xs) k h = ground (arith, length-discard-lt xs k, length-discard-le xs k)

length-add_member-le : (xs : List ℕ) (k : ℕ) → length (add_member xs k) ≤ suc (length xs)
length-add_member-le xs k = ground (arith, length-append xs (k ∷ []))

is_empty-discard : (xs : List ℕ) (k : ℕ) → is_empty xs ≡ true → is_empty (discard xs k) ≡ true
is_empty-discard [] k h = refl
is_empty-discard (x ∷ xs) k h = absurd (ground arith)

-- Adding to either set where the test of the limit passed and the other lacks the member.
room_for :
    (rid : ℕ) (xs ys : List ℕ) (limit : ℕ)
    → length xs + length ys ≤ limit
    → ((not (contains xs rid) && not (contains ys rid)) && leb limit (length xs + length ys))
      ≡ false
    → contains ys rid ≡ false
    → length (add_member xs rid) + length ys ≤ limit
room_for rid xs ys limit h room fresh = ground (arith, h, room, fresh, length-append xs (rid ∷ []))

-- A member moved from one set to the other, where it may be already.
moved_over :
    (rid : ℕ) (xs ys : List ℕ)
    → (contains ys rid || contains xs rid) ≡ true
    → length (add_member xs rid) + length (discard ys rid) ≤ length xs + length ys
moved_over rid xs ys p = elim (Bool-cases (contains ys rid)) [
  | inl e ↦ omega (arith, length-add_member-le xs rid, length-discard-lt ys rid e)
  | inr e ↦
      let same : length (add_member xs rid) ≡ length xs = ground (arith, p, e) in
      omega (arith, same, length-discard-le ys rid)
]

module _ {F : Type 0} where
  -- At most `max_in_flight` reservations are in flight or pending, and the event that a close waits
  -- for is set only where no acquire is pending and no delivery is cleaned up.
  pub record IsAccounted (l : Limiter F) : Type 0 where
    pub limit : length l.in_flight_ids + length l.pending_acquires ≤ l.max_in_flight
    pub drained :
        (not l.pending_drained || (is_empty l.pending_acquires && is_empty l.delivery_cleanups))
        ≡ true

  -- One call of the bookkeeping, which may raise. An acquire begins under an id that is not in flight;
  -- it is finalized while it is pending, and once more, in flight, where its delivery fails; and an
  -- unlimited reservation, which is remembered at once, is not pending.
  pub data Step : Limiter F → Limiter F → Type 0 where
    begins :
        {l : Limiter F} (r : Reservation F)
        → contains l.in_flight_ids r.reservation_id ≡ false
        → Step l (begin_pending_acquire r l).1
    finalizes :
        {l : Limiter F} (r : Reservation F) (model : ℕ) (now : F)
        → (contains l.pending_acquires r.reservation_id
            || contains l.in_flight_ids r.reservation_id)
          ≡ true
        → Step l (finalize_pending_acquire r model now l)
    rolls_back : {l : Limiter F} (rid : ℕ) → Step l (rollback_pending_acquire rid l)
    begins_cleanup : {l : Limiter F} (rid : ℕ) → Step l (begin_acquire_delivery_cleanup rid l)
    ends_cleanup : {l : Limiter F} (rid : ℕ) → Step l (end_acquire_delivery_cleanup rid l)
    remembers :
        {l : Limiter F} (r : Reservation F)
        → contains l.pending_acquires r.reservation_id ≡ false
        → Step l (remember_in_flight_reservation r l).1
    forgets : {l : Limiter F} (rid : ℕ) → Step l (forget_in_flight_reservation rid l)

  pub data Steps : Limiter F → Limiter F → Type 0 where
    stays : {l : Limiter F} → Steps l l
    then_step : {a b c : Limiter F} → Steps a b → Step b c → Steps a c

  begin_stopped :
      (r : Reservation F) (l : Limiter F)
      → (l.closed || l.closing) ≡ true
      → begin_pending_acquire r l ≡ (err closed_error, l)
  unfolding begin_pending_acquire
  begin_stopped r l h = ground (arith, h)

  begin_over :
      (r : Reservation F) (l : Limiter F)
      → (l.closed || l.closing) ≡ false
      → is_over_limit r.reservation_id l ≡ true
      → begin_pending_acquire r l
        ≡ (err cardinality_limit_exceeded, record l { pending_drained = false })
  unfolding begin_pending_acquire
  begin_over r l h k = ground (arith, h, k)

  begin_room :
      (r : Reservation F) (l : Limiter F)
      → (l.closed || l.closing) ≡ false
      → is_over_limit r.reservation_id l ≡ false
      → begin_pending_acquire r l ≡ (
        ok tt,
        record l {
          pending_drained = false;
          pending_acquires = add_member l.pending_acquires r.reservation_id;
          in_flight_family = insert l.in_flight_family r.reservation_id r.model_family;
        },
      )
  unfolding begin_pending_acquire
  begin_room r l h k = ground (arith, h, k)

  begin-IsAccounted :
      (r : Reservation F) (l : Limiter F)
      → contains l.in_flight_ids r.reservation_id ≡ false
      → IsAccounted l
      → IsAccounted (begin_pending_acquire r l).1
  begin-IsAccounted r l fresh h = elim (Bool-cases (l.closed || l.closing)) [
    | inl stopped ↦ rw (begin_stopped r l stopped) h
    | inr open_l ↦ elim (Bool-cases (is_over_limit r.reservation_id l)) [
      | inl over ↦ rw (begin_over r l open_l over) (record { limit = h.limit; drained = refl })
      | inr room ↦ rw (begin_room r l open_l room) (record {
        limit = omega (
          arith,
          room_for r.reservation_id l.pending_acquires l.in_flight_ids l.max_in_flight
              (omega (arith, h.limit)) (ground (arith, room)) fresh,
        );
        drained = refl;
      })
    ]
  ]

  remember-IsAccounted :
      (r : Reservation F) (l : Limiter F)
      → contains l.pending_acquires r.reservation_id ≡ false
      → IsAccounted l
      → IsAccounted (remember_in_flight_reservation r l).1
  unfolding remember_in_flight_reservation
  remember-IsAccounted r l fresh h = elim (Bool-cases (is_over_limit r.reservation_id l)) [
    | inl over ↦ rw over h
    | inr room ↦ rw room (record {
      limit =
          room_for r.reservation_id l.in_flight_ids l.pending_acquires l.max_in_flight h.limit room
            fresh;
      drained = h.drained;
    })
  ]

  finalize-IsAccounted :
      (r : Reservation F) (model : ℕ) (now : F) (l : Limiter F)
      → (contains l.pending_acquires r.reservation_id || contains l.in_flight_ids r.reservation_id)
        ≡ true
      → IsAccounted l
      → IsAccounted (finalize_pending_acquire r model now l)
  unfolding finalize_pending_acquire
  finalize-IsAccounted r model now l p h = record {
    limit =
        omega (arith, h.limit, moved_over r.reservation_id l.in_flight_ids l.pending_acquires p);
    drained = ground arith;
  }

  Step-IsAccounted : {l l' : Limiter F} → Step l l' → IsAccounted l → IsAccounted l'
  unfolding rollback_pending_acquire begin_acquire_delivery_cleanup end_acquire_delivery_cleanup
  Step-IsAccounted (begins {l} r fresh) h = begin-IsAccounted r l fresh h
  Step-IsAccounted (finalizes {l} r model now p) h = finalize-IsAccounted r model now l p h
  Step-IsAccounted (rolls_back {l} rid) h = record {
    limit = omega (arith, h.limit, length-discard-le l.pending_acquires rid);
    drained = ground arith;
  }
  Step-IsAccounted (begins_cleanup rid) h = record { limit = h.limit; drained = refl }
  Step-IsAccounted (ends_cleanup rid) h = record { limit = h.limit; drained = ground arith }
  Step-IsAccounted (remembers {l} r fresh) h = remember-IsAccounted r l fresh h
  Step-IsAccounted (forgets {l} rid) h = record {
    limit = omega (
      arith,
      h.limit,
      length-discard-le l.pending_acquires rid,
      length-discard-le l.in_flight_ids rid,
    );
    drained = ground (
      arith,
      h.drained,
      is_empty-discard l.pending_acquires rid,
      is_empty-discard l.delivery_cleanups rid,
    );
  }

  -- Over every sequence of calls of the bookkeeping in which a new acquire has an id that is not in
  -- flight, is finalized only while it is pending or in flight, and an unlimited reservation is not
  -- pending when it is remembered: no more reservations are in flight or pending than
  -- `max_in_flight`, and the event that a close waits for is set only where nothing is pending and no
  -- delivery is being cleaned up, if both hold at the start.
  pub Steps-IsAccounted : {l l' : Limiter F} → Steps l l' → IsAccounted l → IsAccounted l'
  Steps-IsAccounted stays h = h
  Steps-IsAccounted (then_step s last) h = Step-IsAccounted last (Steps-IsAccounted s h)
