-- ===== src/Sqlite/Rows.antt =====
-- _sqlite/_engine.py, `_load_states`: the row of a bucket, created if there is none, and its override,
-- whose rate counts up to its expiry. Warnings are left out.
use token_throttle.Base.{
  Bool, true, false, not, ◌&&◌, ◌||◌, Option, none, some, [], ◌∷◌, ◌++◌, if◌then◌else◌, is_none,
  nat_eq, pair_eq,
}
use token_throttle.Float.{Float, max_f, zero_f}
use token_throttle.Exceptions.{Result, ok, err}
use token_throttle.Exceptions
use token_throttle.Action.{Action, ◌>>=◌, ◌>>◌, pure, lift, gets, modify, when, branch}
use token_throttle.Validation.{BucketId}
use token_throttle.Memory.Bucket.{of_option}
use token_throttle.Capacity.{
  py_float, CalculatedCapacity, calculate_capacity, calculate_rate_per_sec,
  validate_max_capacity_finite_positive,
}
use token_throttle.Sqlite.Tables.{BucketRow}
use token_throttle.Sqlite.Engine.{
  BucketSpec, SqliteEngine, Store, select_bucket, set_buckets, update_bucket, delete_bucket,
  confirm, after_seconds, empty_row,
}

-- What the row of a bucket gives, once its override has been looked at.
pub record LoadedRow (F : Type 0) : Type 0 where
  pub capacity : Option F
  pub last_checked : Option F
  pub max_capacity : F
  pub override_active : Bool

module _ {F : Type 0} ⦃fl : Float F⦄ where
  open fl use {add, sub, mul, from_nat, lt, le, is_finite, is_close}

  -- The stored amount at a rate, not capped.
  abbrev pub uncapped : F → F → F → F → F → F
  uncapped capacity last now max_capacity rate =
      let amount = add capacity (mul (max_f zero_f (sub now last)) rate) in
      if is_finite amount then amount else max_capacity

  abbrev pub uncapped_of : Option F → Option F → F → F → F → F
  uncapped_of (some capacity) (some last) now max_capacity rate =
      uncapped capacity last now max_capacity rate
  uncapped_of _ _ now max_capacity rate = max_capacity

  -- `_refill_capacity`
  unfoldable pub refill_capacity :
      BucketSpec F → Option F → Option F → F → F → Result (CalculatedCapacity F × F)
  refill_capacity spec capacity last_checked now max_capacity =
      Exceptions.◌>>=◌ (calculate_rate_per_sec max_capacity spec.bucket_id.1) λ rate.
        Exceptions.◌>>=◌
          (calculate_capacity (of_option last_checked) (of_option capacity) (py_float now)
            (py_float max_capacity) (py_float rate))
          λ calculated. ok (calculated, uncapped_of capacity last_checked now max_capacity rate)

  -- `_override_anchor_matches`
  abbrev pub override_anchor_matches : BucketSpec F → Option F → Bool
  override_anchor_matches spec none = false
  override_anchor_matches spec (some anchor) = is_close anchor spec.configured_max_capacity

  abbrev is_later : Option F → F → Bool
  is_later none now = false
  is_later (some at) now = lt now at

  abbrev pub is_override_live : F → BucketRow F → Bool
  is_override_live now r = not (is_none r.override_value) && is_later r.override_expires_at now

  abbrev pub is_expired_row : F → BucketRow F → Bool
  is_expired_row now r = le r.expires_at now

  -- `INSERT` of a bucket that has no row.
  abbrev pub insert_empty : F → BucketId → Store F → Store F
  insert_empty now id s = set_buckets (s.db.buckets ++ empty_row s.engine now id ∷ []) s

  unfoldable pub load_missing : F → Bool → BucketSpec F → Action (Store F) (LoadedRow F)
  load_missing now writable spec = do
    limit ← lift (validate_max_capacity_finite_positive (py_float spec.configured_max_capacity))
    when writable (modify (insert_empty now spec.bucket_id))
    pure (record {
      capacity = none;
      last_checked = none;
      max_capacity = limit;
      override_active = false;
    })

  -- The stored pair at the expiry of an override that has expired since it was stored.
  unfoldable pub accrue_to_expiry :
      F
      → BucketSpec F
      → Bool
      → Option F
      → Option F
      → Option F
      → Option F
      → Result (Option F × Option F)
  unfolding refill_capacity
  accrue_to_expiry now spec true (some value) (some until) (some capacity) (some last) =
      if lt last until && le until now
      then (Exceptions.◌>>=◌ (validate_max_capacity_finite_positive (py_float value)) λ limit.
          Exceptions.◌>>=◌ (refill_capacity spec (some capacity) (some last) until limit)
            λ at_expiry. ok (some at_expiry.1, some until))
      else ok (some capacity, some last)
  accrue_to_expiry now spec matches value until capacity last = ok (capacity, last)

  abbrev pub store_pair : F → Option F → Option F → SqliteEngine F → BucketRow F → BucketRow F
  store_pair now capacity last e r = record r {
    capacity = capacity;
    last_checked = last;
    updated_at = now;
    expires_at = after_seconds now e.bucket_ttl_seconds;
  }

  abbrev pub without_override : BucketRow F → BucketRow F
  without_override r = record r {
    override_value = none;
    override_expires_at = none;
    override_configured_max_capacity = none;
  }

  -- Removes an expired override, the pair stored at its expiry.
  unfoldable pub remove_override : F → BucketId → Option F → Option F → Store F → Store F
  unfolding update_bucket confirm
  remove_override now id capacity last s =
      let s' =
        update_bucket id (λ r. without_override (store_pair now capacity last s.engine r)) s in
      if is_none capacity || is_none last then s' else confirm id now s'

  unfoldable pub load_inactive :
      F → Bool → BucketSpec F → BucketRow F → Option F → Option F → Action (Store F) (LoadedRow F)
  unfolding accrue_to_expiry remove_override
  load_inactive now writable spec r capacity last = do
    limit ← lift (validate_max_capacity_finite_positive (py_float spec.configured_max_capacity))
    pair ← lift (
        accrue_to_expiry now spec (override_anchor_matches spec r.override_configured_max_capacity)
          r.override_value r.override_expires_at capacity last)
    when
        (writable
          && not (is_override_live now r)
          && (not (is_none r.override_value) || not (is_none r.override_expires_at)))
        (modify (remove_override now spec.bucket_id pair.0 pair.1))
    pure (record {
      capacity = pair.0;
      last_checked = pair.1;
      max_capacity = limit;
      override_active = false;
    })

  -- The value of a live override that was set under the configured limit.
  abbrev pub active_override : F → BucketSpec F → BucketRow F → Option F
  active_override now spec r =
      if is_override_live now r && override_anchor_matches spec r.override_configured_max_capacity
      then r.override_value
      else none

  unfoldable pub load_limited :
      F
      → Bool
      → BucketSpec F
      → BucketRow F
      → Option F
      → Option F
      → Option F
      → Action (Store F) (LoadedRow F)
  unfolding load_inactive
  load_limited now writable spec r capacity last none =
      load_inactive now writable spec r capacity last
  load_limited now writable spec r capacity last (some value) = do
    limit ← lift (validate_max_capacity_finite_positive (py_float value))
    pure (record {
      capacity = capacity;
      last_checked = last;
      max_capacity = limit;
      override_active = true;
    })

  abbrev unless_expired : Bool → Option F → Option F
  unless_expired expired value = if expired then none else value

  -- A row that is kept: one that is not expired, or whose override is live.
  unfoldable pub load_present :
      F → Bool → BucketSpec F → BucketRow F → Action (Store F) (LoadedRow F)
  unfolding load_limited update_bucket
  load_present now writable spec r = do
    let expired = is_expired_row now r
    when (expired && writable) (
        modify
          (update_bucket spec.bucket_id λ r. record r { capacity = none; last_checked = none }))
    load_limited now writable spec r (unless_expired expired r.capacity)
        (unless_expired expired r.last_checked) (active_override now spec r)

  unfoldable pub load_selected :
      F → Bool → BucketSpec F → Option (BucketRow F) → Action (Store F) (LoadedRow F)
  unfolding load_missing load_present delete_bucket
  load_selected now writable spec none = load_missing now writable spec
  load_selected now writable spec (some r) =
      branch (is_expired_row now r && not (is_override_live now r))
        (do when writable (modify (delete_bucket spec.bucket_id)); load_missing now writable spec)
        (load_present now writable spec r)

  unfoldable pub load_row : F → Bool → BucketSpec F → Action (Store F) (LoadedRow F)
  unfolding load_selected
  load_row now writable spec = do
    row ← gets (select_bucket spec.bucket_id)
    load_selected now writable spec row
