-- ===== src/Sqlite/Load.antt =====
-- _sqlite/_engine.py, `_load_states`: the state of each bucket at the time of a transaction, and what
-- reading it repairs in the table. Warnings are left out.
pub mod Frame
pub mod Specs
pub mod Prediction
pub mod Snapshot
pub mod Mirror
pub mod Drained
use token_throttle.Base.{
  ℕ, Bool, true, false, not, ◌&&◌, ◌||◌, Option, none, some, List, [], ◌∷◌, ◌++◌, if◌then◌else◌,
  is_none, ◌==◌, nat_eq, pair_eq,
}
use token_throttle.Float.{Float, max_f, zero_f}
use token_throttle.Exceptions.{Result, ok, err}
use token_throttle.Exceptions
use token_throttle.Action.{Action, ◌>>=◌, ◌>>◌, pure, lift, gets, modify, when, branch}
use token_throttle.Validation.{BucketId}
use token_throttle.Memory.Bucket.{of_option}
use token_throttle.Capacity.{
  PyValue, py_float, CalculatedCapacity, calculate_capacity, calculate_rate_per_sec,
  validate_max_capacity_finite_positive,
}
use token_throttle.Sqlite.Ttl.{debt_ttl_seconds}
use token_throttle.Sqlite.Tables.{BucketRow}
use token_throttle.Sqlite.Rows.{
  uncapped, uncapped_of, refill_capacity, override_anchor_matches, is_override_live, is_expired_row,
  insert_empty, load_missing, accrue_to_expiry, store_pair, without_override, remove_override,
  load_inactive, active_override, load_limited, load_present, load_selected, load_row, LoadedRow,
}
use token_throttle.Sqlite.Engine.{
  BucketSpec, SqliteEngine, Store, select_bucket, set_buckets, update_bucket, delete_bucket,
  confirm, after_seconds, empty_row, state_loss_suspected,
}

-- `_BucketState`; a missing field is what the event of a missing state lists.
pub record BucketState (F : Type 0) : Type 0 where
  pub spec : BucketSpec F
  pub capacity : F
  pub uncapped_capacity : F
  pub max_capacity : F
  pub override_active : Bool
  pub is_fresh_start : Bool
  pub lacks_last_checked : Bool
  pub lacks_capacity : Bool
  pub is_lost : Bool

-- A stored pair after a loss has been dealt with.
pub record StoredPair (F : Type 0) : Type 0 where
  pub capacity : Option F
  pub last_checked : Option F
  pub is_lost : Bool

module _ {F : Type 0} ⦃fl : Float F⦄ where
  open fl use {add, sub, mul, from_nat, lt, le, is_finite, is_close}

  -- One field is missing, or both are while the state was confirmed.
  abbrev pub is_state_lost : Bool → Option F → Option F → Bool
  is_state_lost suspected capacity last =
      if is_none capacity then not (is_none last) || suspected else is_none last

  -- Lost state counts as a bucket with nothing left.
  pub drain : F → BucketId → Store F → Store F
  unfolding update_bucket confirm
  drain now id s =
      confirm id now (update_bucket id (λ r. store_pair now (some zero_f) (some now) s.engine r) s)

  unfoldable pub drain_if_lost :
      F → Bool → BucketSpec F → Option F → Option F → Action (Store F) (StoredPair F)
  unfolding drain state_loss_suspected
  drain_if_lost now writable spec capacity last = do
    suspected ← gets (state_loss_suspected spec.bucket_id now)
    branch (is_state_lost suspected capacity last)
        (do
          when writable (modify (drain now spec.bucket_id))
          pure (record { capacity = some zero_f; last_checked = some now; is_lost = true }))
        (pure (record { capacity = capacity; last_checked = last; is_lost = false }))

  -- Later than the time by more than a second.
  abbrev is_far_future : F → Option F → Bool
  is_far_future now none = false
  is_far_future now (some last) = lt (add now (from_nat 1)) last

  pub repair_clock : F → BucketId → Store F → Store F
  unfolding update_bucket confirm
  repair_clock now id s = confirm id now (
      update_bucket id
        (λ r. record r {
          last_checked = some now;
          updated_at = now;
          expires_at = after_seconds now s.engine.bucket_ttl_seconds;
        })
        s)

  -- A row with debt is kept until the debt is repaid.
  pub keep_debt : F → BucketSpec F → F → F → Action (Store F) (Unit {0})
  unfolding update_bucket debt_ttl_seconds
  keep_debt now spec amount limit = do
    e ← gets (λ s. s.engine)
    ttl ← lift (
        debt_ttl_seconds amount e.bucket_ttl_seconds spec.bucket_id.1 limit
          spec.configured_max_capacity)
    modify (
        update_bucket spec.bucket_id
          λ r. record r { expires_at = max_f r.expires_at (after_seconds now ttl) })

  -- From the row, the state, with lost state drained and the row repaired.
  unfoldable pub state_of_row :
      F → Bool → BucketSpec F → LoadedRow F → Action (Store F) (BucketState F)
  unfolding drain_if_lost refill_capacity repair_clock keep_debt
  state_of_row now writable spec row = do
    pair ← drain_if_lost now writable spec row.capacity row.last_checked
    refilled ← lift (refill_capacity spec pair.capacity pair.last_checked now row.max_capacity)
    when (writable && is_far_future now pair.last_checked)
        (modify (repair_clock now spec.bucket_id))
    when (writable && lt refilled.0.amount zero_f)
        (keep_debt now spec refilled.0.amount row.max_capacity)
    pure (record {
      spec = spec;
      capacity = refilled.0.amount;
      uncapped_capacity = refilled.1;
      max_capacity = row.max_capacity;
      override_active = row.override_active;
      is_fresh_start = refilled.0.is_fresh_start;
      lacks_last_checked = is_none row.last_checked;
      lacks_capacity = is_none row.capacity;
      is_lost = pair.is_lost;
    })

  -- One round of the loop of `_load_states`.
  unfoldable pub load_state : F → Bool → BucketSpec F → Action (Store F) (BucketState F)
  unfolding load_row state_of_row
  load_state now writable spec = do
    row ← load_row now writable spec
    state_of_row now writable spec row

  load_each : F → Bool → List (BucketSpec F) → Action (Store F) (List (BucketState F))
  unfolding load_state
  load_each now writable [] = pure []
  load_each now writable (spec ∷ specs) = do
    state ← load_state now writable spec
    states ← load_each now writable specs
    pure (state ∷ states)

  -- `_load_states`
  unfoldable pub load_states : F → Bool → Action (Store F) (List (BucketState F))
  unfolding load_each
  load_states now writable = do specs ← gets (λ s. s.engine.specs); load_each now writable specs
