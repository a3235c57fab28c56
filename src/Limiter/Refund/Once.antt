-- ===== src/Limiter/Refund/Once.antt =====
-- A refund through the limiter commits at most once, and never leaves its reservation in progress.
use token_throttle.Base.Dict.{Dict, add_member, contains, keys, lookup, pop_key}
use token_throttle.Base.Members.{contains-discard, keys-pop_key}
use token_throttle.Base.{
  pair_eq, ℕ, ◌<◌, ◌≡◌, refl, Bool, false, not, ◌&&◌, some, [], ◌∷◌, ◌++◌, arith, nat_eq,
  nat_beq_iff, Bool-cases, inl, inr, ◌⊎◌,
}
use token_throttle.Float.{Float}
use token_throttle.Exceptions.{
  Result, ok, err, Error, duplicate_refund, already_refunded, in_progress, closed_error,
}
use token_throttle.Validation.{Usage}
use token_throttle.Limiter.{Limiter, Reservation, RefundState, is_pending, is_committed}
use token_throttle.Limiter.Projection.{Projected}
use token_throttle.Limiter.Refund.{
  evict_oldest, remember_refund_state, commit_refund_state, start_refund, prepare_refund,
  settle_refund, settle_prepared, run_refund, refund_started, Surroundings, is_committed_state,
  end_refund,
}

lookup-append_last :
    (d : Dict ℕ RefundState) (rid : ℕ) (state : RefundState)
    → contains (keys d) rid ≡ false
    → lookup (d ++ (rid, state) ∷ []) rid ≡ some state
lookup-append_last [] rid state h = ground (arith, (nat_beq_iff rid rid).1 refl)
lookup-append_last ((j, w) ∷ d) rid state h = ground (arith, lookup-append_last d rid state)

-- The state that is remembered last is not evicted.
lookup-evict_last :
    (limit : ℕ) (d : Dict ℕ RefundState) (rid : ℕ) (state : RefundState)
    → 0 < limit
    → contains (keys d) rid ≡ false
    → lookup (evict_oldest limit (d ++ (rid, state) ∷ [])) rid ≡ some state
unfolding evict_oldest
lookup-evict_last limit [] rid state p h = ground (arith, (nat_beq_iff rid rid).1 refl)
lookup-evict_last limit ((j, w) ∷ d) rid state p h =
    ground (arith, lookup-evict_last limit d rid state p, lookup-append_last d rid state)

popped : (d : Dict ℕ RefundState) (rid : ℕ) → contains (keys (pop_key d rid)) rid ≡ false
popped d rid = ground (arith, keys-pop_key d rid, contains-discard (keys d) rid rid)

module _ {F : Type 0} where
  remembered_state :
      (rid : ℕ) (state : RefundState) (l : Limiter F)
      → 0 < l.refunded_ids_cap
      → lookup (remember_refund_state rid state l).refund_states rid ≡ some state
  unfolding remember_refund_state
  remembered_state rid state l p =
      lookup-evict_last l.refunded_ids_cap (pop_key l.refund_states rid) rid state p
        (popped l.refund_states rid)

  committed_state :
      (rid family : ℕ) (now : F) (l : Limiter F)
      → 0 < l.refunded_ids_cap
      → (lookup (commit_refund_state rid family now l).refund_states rid ≡ some is_committed)
        × (contains (commit_refund_state rid family now l).in_flight_ids rid ≡ false)
  unfolding commit_refund_state remember_refund_state
  committed_state rid family now l p = (
    remembered_state rid is_committed l p,
    ground (arith, contains-discard l.in_flight_ids rid rid),
  )

  start_refund-committed :
      (rid : ℕ) (allow_closed : Bool) (l : Limiter F)
      → (not allow_closed && l.closed) ≡ false
      → lookup l.refund_states rid ≡ some is_committed
      → start_refund rid allow_closed l ≡ (err (duplicate_refund already_refunded rid), l)
  unfolding start_refund
  start_refund-committed rid allow_closed l h c = ground (arith, h, c)

  -- A refund that is committed, under an id that is no more in flight.
  abbrev pub IsDone : ℕ → Limiter F → Type 0
  IsDone rid l =
      (lookup l.refund_states rid ≡ some is_committed) × (contains l.in_flight_ids rid ≡ false)

  settle_refund-IsDone :
      (rid family : ℕ) (now : F) (changed : Bool) (q : Result Bool) (m : Limiter F)
      → (settle_refund rid family now changed q m).0 ≡ ok tt
      → 0 < (settle_refund rid family now changed q m).1.refunded_ids_cap
      → IsDone rid (settle_refund rid family now changed q m).1
  unfolding settle_refund commit_refund_state remember_refund_state
  settle_refund-IsDone rid family now changed (ok b) m done p = committed_state rid family now m p
  settle_refund-IsDone rid family now changed (err e) m done p = absurd (cc)

module _ {F : Type 0} ⦃fl : Float F⦄ where
  end_refund-IsDone :
      (out : Surroundings F) (r : Reservation F) (q : Result (Projected F) × Limiter F)
      → (end_refund r.reservation_id (settle_prepared out r q)).0 ≡ ok tt
      → 0 < (end_refund r.reservation_id (settle_prepared out r q)).1.refunded_ids_cap
      → IsDone r.reservation_id (end_refund r.reservation_id (settle_prepared out r q)).1
  end_refund-IsDone out r (err e, m) done p = absurd (cc)
  end_refund-IsDone out r (ok x, m) done p =
      settle_refund-IsDone r.reservation_id r.model_family out.now out.changed (out.refund x m).0
        (out.refund x m).1 done p

  refund_started-cases :
      (out : Surroundings F) (actual : Usage F) (r : Reservation F) (allow_closed : Bool)
      (l : Limiter F)
      → ((e : Error) × (refund_started out actual r allow_closed l ≡ (err e, l)))
        ⊎ ((m : Limiter F) × (refund_started out actual r allow_closed l
              ≡ run_refund out actual r m))
  unfolding refund_started start_refund
  refund_started-cases out actual r allow_closed l =
      let rid = r.reservation_id in
      elim (Bool-cases (not allow_closed && l.closed)) [
        | inl stopped ↦ inl (closed_error, ground (arith, stopped))
        | inr runs ↦ elim (Bool-cases (is_committed_state (lookup l.refund_states rid))) [
          | inl committed ↦
              inl (duplicate_refund already_refunded rid, ground (arith, runs, committed))
          | inr new ↦ elim (Bool-cases (contains l.refund_in_progress rid)) [
            | inl running ↦
                inl (duplicate_refund in_progress rid, ground (arith, runs, new, running))
            | inr idle ↦
                let m = remember_refund_state rid is_pending l in
                inr (
                  record m { refund_in_progress = add_member m.refund_in_progress rid },
                  ground (arith, runs, new, idle),
                )
          ]
        ]
      ]

  run_refund-IsDone :
      (out : Surroundings F) (actual : Usage F) (r : Reservation F) (m : Limiter F)
      → (run_refund out actual r m).0 ≡ ok tt
      → 0 < (run_refund out actual r m).1.refunded_ids_cap
      → IsDone r.reservation_id (run_refund out actual r m).1
  unfolding run_refund
  run_refund-IsDone out actual r m done p =
      end_refund-IsDone out r (prepare_refund out actual r m) done p

  refund_started-IsDone :
      (out : Surroundings F) (actual : Usage F) (r : Reservation F) (allow_closed : Bool)
      (l : Limiter F)
      → (refund_started out actual r allow_closed l).0 ≡ ok tt
      → 0 < (refund_started out actual r allow_closed l).1.refunded_ids_cap
      → IsDone r.reservation_id (refund_started out actual r allow_closed l).1
  refund_started-IsDone out actual r allow_closed l done p =
      elim (refund_started-cases out actual r allow_closed l) [
        | inl (e, failed) ↦ absurd (ground (arith, failed, done))
        | inr (m, same) ↦
            rw same (run_refund-IsDone out actual r m (rw same at done) (rw same at p))
      ]

  refund_started-refused :
      (out : Surroundings F) (actual : Usage F) (r : Reservation F) (allow_closed : Bool)
      (l : Limiter F)
      → (not allow_closed && l.closed) ≡ false
      → lookup l.refund_states r.reservation_id ≡ some is_committed
      → refund_started out actual r allow_closed l
        ≡ (err (duplicate_refund already_refunded r.reservation_id), l)
  unfolding refund_started
  refund_started-refused out actual r allow_closed l h c =
      ground (arith, start_refund-committed r.reservation_id allow_closed l h c)

  -- After a refund has returned, on a limiter that remembers at least one refund, it is committed and
  -- its reservation is not in flight. A refund of the reservation in any state that remembers the same
  -- of it and still takes refunds raises DuplicateRefundError (already refunded) and leaves the
  -- limiter as it is, whatever the refresh and the backend would do to the limiter.
  pub refund_started_once :
      (out out' : Surroundings F) (actual actual' : Usage F) (r : Reservation F)
      (allow_closed allow_closed' : Bool) (l m : Limiter F)
      → let after = (refund_started out actual r allow_closed l).1 in
        (refund_started out actual r allow_closed l).0 ≡ ok tt
        → 0 < after.refunded_ids_cap
        → lookup m.refund_states r.reservation_id ≡ lookup after.refund_states r.reservation_id
        → (not allow_closed' && m.closed) ≡ false
        → IsDone r.reservation_id after
          × (refund_started out' actual' r allow_closed' m
              ≡ (err (duplicate_refund already_refunded r.reservation_id), m))
  refund_started_once out out' actual actual' r allow_closed allow_closed' l m done p same takes =
      let is_done = refund_started-IsDone out actual r allow_closed l done p in
      (is_done, refund_started-refused out' actual' r allow_closed' m takes (rw same is_done.0))

  end_refund-idle :
      (rid : ℕ) (p : Result (Unit {0}) × Limiter F)
      → contains (end_refund rid p).1.refund_in_progress rid ≡ false
  end_refund-idle rid (q, l) = ground (arith, contains-discard l.refund_in_progress rid rid)

  run_refund-idle :
      (out : Surroundings F) (actual : Usage F) (r : Reservation F) (m : Limiter F)
      → contains (run_refund out actual r m).1.refund_in_progress r.reservation_id ≡ false
  unfolding run_refund
  run_refund-idle out actual r m =
      end_refund-idle r.reservation_id (settle_prepared out r (prepare_refund out actual r m))

  -- A refund leaves no reservation in progress, whatever the refresh and the backend do and whether it
  -- returns or raises: if none was in progress under its id before, none is after it.
  pub refund_started_idle :
      (out : Surroundings F) (actual : Usage F) (r : Reservation F) (allow_closed : Bool)
      (l : Limiter F)
      → contains l.refund_in_progress r.reservation_id ≡ false
      → contains (refund_started out actual r allow_closed l).1.refund_in_progress r.reservation_id
        ≡ false
  refund_started_idle out actual r allow_closed l idle =
      elim (refund_started-cases out actual r allow_closed l) [
        | inl (e, failed) ↦ rw failed idle
        | inr (m, same) ↦ rw same (run_refund-idle out actual r m)
      ]
