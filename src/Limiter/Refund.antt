-- ===== src/Limiter/Refund.antt =====
-- _sync_rate_limiter.py, `_refund_capacity` and `refund_capacity`: how a refund goes through its states,
-- one refund of a reservation at a time (the code holds a lock for each reservation). The refresh of
-- the configuration and the backend are outside: what they do is an argument.
pub mod Once
use token_throttle.Base.{
  ℕ, ◌≡◌, refl, Bool, true, false, not, ◌&&◌, ◌||◌, Option, some, none, List, [], ◌∷◌, ◌++◌,
  if◌then◌else◌, ◌==◌, nat_eq, pair_eq, length, ltb,
}
use token_throttle.Base.Dict.{Dict, contains, discard, add_member, lookup, pop_key, keys}
use token_throttle.Float.{Float}
use token_throttle.Exceptions.{
  Result, ok, err, Error, value_error, backend_not_found, duplicate_refund, already_refunded,
  in_progress, unknown_reservation, closed_error,
}
use token_throttle.Action.{Action, ◌>>=◌, ◌>>◌, pure, raise, lift, gets, modify, raise_when, branch}
use token_throttle.Validation.{BucketId, Usage, validate_refund_usage}
use token_throttle.Limiter.{
  Limiter, Reservation, RefundState, is_pending, is_committed, is_failed, touch_model_family,
  forget_in_flight_reservation, raise_if_closed, authoritative_reservation_for_refund,
  verify_reservation_bound_to_limiter, raise_if_reservation_expired,
}
use token_throttle.Limiter.Projection.{Projected, project_refund_scope}

-- `popitem(last=False)` while there are too many
unfoldable pub evict_oldest : ℕ → Dict ℕ RefundState → Dict ℕ RefundState
evict_oldest limit [] = []
evict_oldest limit (x ∷ xs) = if ltb limit (length (x ∷ xs)) then evict_oldest limit xs else x ∷ xs

abbrev pub is_committed_state : Option RefundState → Bool
is_committed_state (some is_committed) = true
is_committed_state _ = false

abbrev pub is_pending_state : Option RefundState → Bool
is_pending_state (some is_pending) = true
is_pending_state _ = false

-- What a refund meets outside of the limiter.
pub record Surroundings (F : Type 0) : Type 0 where
  -- `_refresh_backend_for_reservation`, and `_backend_has_acquire_marker_authority`
  pub refresh : Limiter F → Result (Unit {0}) × Limiter F
  pub marker_authority : Result Bool
  -- the backend's `refund_capacity_for_buckets`, with what other threads do to the limiter until it
  -- ends, and whether its buckets' state differs afterwards
  pub refund : Projected F → Action (Limiter F) Bool
  pub changed : Bool
  -- `time.monotonic()`
  pub now : F

module _ {F : Type 0} where
  -- `_remember_refund_state`
  unfoldable pub remember_refund_state : ℕ → RefundState → Limiter F → Limiter F
  unfolding evict_oldest
  remember_refund_state rid state l = record l {
    refund_states =
        evict_oldest l.refunded_ids_cap (pop_key l.refund_states rid ++ (rid, state) ∷ []);
  }

  -- `_commit_refund_state`
  unfoldable pub commit_refund_state : ℕ → ℕ → F → Limiter F → Limiter F
  unfolding remember_refund_state
  commit_refund_state rid family now l =
      touch_model_family family now
        (forget_in_flight_reservation rid (remember_refund_state rid is_committed l))

  -- `_mark_refund_state_failed`
  unfoldable pub mark_refund_state_failed : ℕ → Limiter F → Limiter F
  unfolding remember_refund_state
  mark_refund_state_failed rid l =
      if is_pending_state (lookup l.refund_states rid)
      then remember_refund_state rid is_failed l
      else l

  -- `_clear_refund_state_if_pending`
  unfoldable pub clear_refund_state_if_pending : ℕ → Bool → Limiter F → Limiter F
  clear_refund_state_if_pending rid forget_in_flight l =
      let cleared =
        if is_pending_state (lookup l.refund_states rid)
        then record l { refund_states = pop_key l.refund_states rid }
        else l in
      if forget_in_flight then forget_in_flight_reservation rid cleared else cleared

  -- The tests before a refund starts, and its start.
  unfoldable pub start_refund : ℕ → Bool → Action (Limiter F) (Unit {0})
  unfolding remember_refund_state
  start_refund rid allow_closed = do
    closed ← gets (λ l. not allow_closed && l.closed)
    raise_when closed closed_error
    committed ← gets (λ l. is_committed_state (lookup l.refund_states rid))
    raise_when committed (duplicate_refund already_refunded rid)
    running ← gets (λ l. contains l.refund_in_progress rid)
    raise_when running (duplicate_refund in_progress rid)
    modify (remember_refund_state rid is_pending)
    modify (λ l. record l { refund_in_progress = add_member l.refund_in_progress rid })

  -- The `except` clauses around the backend's call.
  abbrev pub on_backend_error : ℕ → ℕ → F → Bool → Error → Limiter F → Limiter F
  on_backend_error rid family now changed (duplicate_refund _ _) l =
      commit_refund_state rid family now l
  on_backend_error rid family now changed (unknown_reservation _ forget) l =
      clear_refund_state_if_pending rid forget l
  on_backend_error rid family now changed _ l =
      if changed then commit_refund_state rid family now l else l

  -- The outer `except`, after the backend's call has started.
  abbrev pub on_started_error : ℕ → ℕ → F → Bool → Limiter F → Limiter F
  on_started_error rid family now changed l =
      if changed then commit_refund_state rid family now l else mark_refund_state_failed rid l

  -- The backend's call and what follows it. The exception of a Redis client is wrapped, and stays
  -- an error of another kind.
  unfoldable pub settle_refund : ℕ → ℕ → F → Bool → Result Bool → Action (Limiter F) (Unit {0})
  unfolding commit_refund_state
  settle_refund rid family now changed (ok _) l = (ok tt, commit_refund_state rid family now l)
  settle_refund rid family now changed (err e) l =
      (err e, on_started_error rid family now changed (on_backend_error rid family now changed e l))

module _ {F : Type 0} ⦃fl : Float F⦄ where
  abbrev pub active_ids : Option (Dict BucketId F) → Option (List BucketId)
  active_ids none = none
  active_ids (some quotas) = some (keys quotas)

  -- From the start up to the backend's call.
  unfoldable pub prepare_refund :
      Surroundings F → Usage F → Reservation F → Action (Limiter F) (Projected F)
  unfolding project_refund_scope
  prepare_refund out actual r = do
    out.refresh
    known ← gets (λ l. contains l.backends r.model_family)
    raise_when (not known) (value_error backend_not_found)
    in_flight ← gets (λ l. contains l.in_flight_ids r.reservation_id)
    authority ← lift out.marker_authority
    raise_when (not in_flight && not authority) (unknown_reservation r.reservation_id false)
    active ← gets (λ l. active_ids (lookup l.family_to_quotas r.model_family))
    pure (project_refund_scope r.usage actual r.bucket_ids active)

  -- The body of the inner `try`, with its `except BaseException`.
  abbrev pub settle_prepared :
      Surroundings F
      → Reservation F
      → Result (Projected F) × Limiter F
      → Result (Unit {0}) × Limiter F
  settle_prepared out r (err e, l) = (err e, clear_refund_state_if_pending r.reservation_id false l)
  settle_prepared out r (ok p, l) =
      let (result, after) = out.refund p l in
      settle_refund r.reservation_id r.model_family out.now out.changed result after

  -- The `finally`.
  abbrev pub end_refund : ℕ → Result (Unit {0}) × Limiter F → Result (Unit {0}) × Limiter F
  end_refund rid (result, l) =
      (result, record l { refund_in_progress = discard l.refund_in_progress rid })

  unfoldable pub run_refund :
      Surroundings F → Usage F → Reservation F → Action (Limiter F) (Unit {0})
  unfolding prepare_refund settle_refund
  run_refund out actual r l =
      end_refund r.reservation_id (settle_prepared out r (prepare_refund out actual r l))

  -- `_refund_capacity`, on a frozen usage
  unfoldable pub refund_started :
      Surroundings F → Usage F → Reservation F → Bool → Action (Limiter F) (Unit {0})
  unfolding start_refund run_refund
  refund_started out actual r allow_closed = do
    start_refund r.reservation_id allow_closed
    run_refund out actual r

  -- A metered reservation's refund; `time` is the wall clock of the age check.
  refund_metered : Surroundings F → Usage F → Reservation F → F → Action (Limiter F) (Unit {0})
  unfolding refund_started raise_if_reservation_expired validate_refund_usage
  refund_metered out actual r time = do
    raise_if_reservation_expired r time
    lift (validate_refund_usage actual (keys r.usage))
    refund_started out actual r false

  -- `refund_capacity`, on a valid reservation
  unfoldable pub refund_capacity :
      Surroundings F → Usage F → Reservation F → F → Action (Limiter F) (Unit {0})
  unfolding refund_metered authoritative_reservation_for_refund
  refund_capacity out actual given time = do
    raise_if_closed
    r ← gets (authoritative_reservation_for_refund given)
    verify_reservation_bound_to_limiter r
    branch r.is_unlimited (modify (forget_in_flight_reservation r.reservation_id))
        (refund_metered out actual r time)
