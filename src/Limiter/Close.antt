-- ===== src/Limiter/Close.antt =====
-- _sync_rate_limiter.py, `close` and `_clear_retained_state_after_close`. What other threads do while a
-- close waits, whether the running refunds end in time, and whether the builder's own `close` raises
-- are arguments.
use token_throttle.Exceptions.{other_error, timeout_error}
use token_throttle.Base.{Bool, true, false, not, ◌&&◌, ◌||◌, [], nat_eq}
use token_throttle.Action.{Action, ◌>>=◌, ◌>>◌, pure, raise, gets, modify, raise_when, branch}
use token_throttle.Limiter.{Limiter, refresh_pending_drained}

module _ {F : Type 0} where
  -- `_clear_retained_state_after_close`
  unfoldable pub clear_retained_state_after_close : Limiter F → Limiter F
  clear_retained_state_after_close l = record l {
    backends = [];
    family_to_model_name = [];
    family_to_quotas = [];
    name_to_family = [];
    refund_states = [];
    refund_in_progress = [];
    pending_acquires = [];
    delivery_cleanups = [];
    in_flight_ids = [];
    snapshots = [];
    in_flight_family = [];
    last_touched = [];
    runtime_max_capacity = [];
    family_signatures = [];
    name_signatures = [];
    signature_counts = [];
    alias_counts = [];
  }

  abbrev pub terminate : Limiter F → Limiter F
  terminate l = record l { closed = true; closing = false }

  -- After the refunds have drained, or not.
  release : Bool → Bool → Action (Limiter F) (Unit {0})
  release refunds_end builder_raises = do
    raise_when (not refunds_end) timeout_error
    modify (λ l. record l { close_drained = true })
    raise_when builder_raises other_error

  finish_close : Bool → Bool → Action (Limiter F) (Unit {0})
  unfolding release
  finish_close refunds_end builder_raises = do
    already_closed ← gets (λ l. l.close_drained)
    branch already_closed (pure tt) (do modify terminate; release refunds_end builder_raises)
    modify clear_retained_state_after_close

  wait_and_close : (Limiter F → Limiter F) → Bool → Bool → Action (Limiter F) (Unit {0})
  unfolding finish_close
  wait_and_close others refunds_end builder_raises = do
    modify (λ l. refresh_pending_drained (record l { closing = not l.closed }))
    modify others
    drained ← gets (λ l. l.pending_drained)
    branch drained (finish_close refunds_end builder_raises)
        (do modify terminate; raise timeout_error)

  unfoldable pub close : (Limiter F → Limiter F) → Bool → Bool → Action (Limiter F) (Unit {0})
  unfolding wait_and_close
  close others refunds_end builder_raises = do
    done ← gets (λ l. l.closed && l.close_drained)
    branch done (pure tt) (wait_and_close others refunds_end builder_raises)

  -- A limiter whose close has drained is closed.
  abbrev pub is_latched : Limiter F → Bool
  is_latched l = not l.close_drained || l.closed
