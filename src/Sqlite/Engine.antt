-- ===== src/Sqlite/Engine.antt =====
-- _sqlite/_engine.py, `SqliteEngine`: the state of an engine over its database, the transaction that
-- every operation runs in, and the pruning that every operation begins with.
pub mod Committed
use token_throttle.Base.{
  ℕ, Bool, true, false, not, ◌&&◌, ◌||◌, Option, none, some, List, [], ◌∷◌, ◌++◌, map,
  if◌then◌else◌, is_none, ◌==◌, nat_eq, pair_eq,
}
use token_throttle.Base.Dict.{Dict, lookup, insert, contains}
use token_throttle.Float.{Float}
use token_throttle.Exceptions.{Error, Result, ok, err, timeout_error, lock_contention, other_error}
use token_throttle.Action.{Action, ◌>>=◌, ◌>>◌, pure, lift, gets, modify, raise_when, raise}
use token_throttle.Validation.{BucketId}
use token_throttle.Capacity.{PyValue, py_float, validate_max_capacity_finite_positive}
use token_throttle.Sqlite.Tables.{
  Database, BucketRow, MarkerRow, TombstoneRow, select, update, delete, delete_limited, is_bucket,
  is_marker, is_tombstone,
}

pub record BucketSpec (F : Type 0) : Type 0 where
  pub bucket_id : BucketId
  pub configured_max_capacity : F

-- The fields that operations read. `_override_mismatch_warned` only silences warnings.
pub record SqliteEngine (F : Type 0) : Type 0 where
  pub key_prefix : ℕ
  pub model_family : ℕ
  pub specs : List (BucketSpec F)
  pub bucket_ttl_seconds : ℕ
  pub refund_dedup_ttl_seconds : ℕ
  pub override_ttl_seconds : ℕ
  pub max_reservation_lifetime_seconds : F
  pub prune_batch_size : ℕ
  pub state_confirmed_until : Dict BucketId F
  pub pending_state_confirmations : Dict BucketId F

-- One engine and the file that it shares with the engines of other processes.
pub record Store (F : Type 0) : Type 0 where
  pub db : Database F
  pub engine : SqliteEngine F

-- What the locks and the clock decide in one transaction: the deadline passes before the write
-- lock is held or the engine's lock is not obtained; the database is busy at `BEGIN IMMEDIATE`;
-- the time once it is held; the database is busy at `COMMIT`.
pub record Turn (F : Type 0) : Type 0 where
  pub times_out : Bool
  pub is_busy : Bool
  pub timeout_on_busy : Bool
  pub now : F
  pub commit_busy : Bool

module _ {F : Type 0} where
  abbrev pub bucket_ids_of : SqliteEngine F → List BucketId
  bucket_ids_of e = map (λ (spec : BucketSpec F). spec.bucket_id) e.specs

  abbrev pub spec_of : List (BucketSpec F) → BucketId → Option (BucketSpec F)
  spec_of [] id = none
  spec_of (spec ∷ specs) id = if spec.bucket_id == id then some spec else spec_of specs id

  -- The row of a bucket of the engine.
  abbrev pub own_bucket : SqliteEngine F → BucketId → BucketRow F → Bool
  own_bucket e id = is_bucket e.key_prefix e.model_family id

  abbrev pub select_bucket : BucketId → Store F → Option (BucketRow F)
  select_bucket id s = select (own_bucket s.engine id) s.db.buckets

  abbrev pub set_buckets : List (BucketRow F) → Store F → Store F
  set_buckets rows s = record s { db = record s.db { buckets = rows } }

  unfoldable pub update_bucket : BucketId → (BucketRow F → BucketRow F) → Store F → Store F
  update_bucket id f s = set_buckets (update (own_bucket s.engine id) f s.db.buckets) s

  unfoldable pub delete_bucket : BucketId → Store F → Store F
  delete_bucket id s = set_buckets (delete (own_bucket s.engine id) s.db.buckets) s

  abbrev pub select_marker : ℕ → Store F → Option (MarkerRow F)
  select_marker rid s = select (is_marker s.engine.key_prefix rid) s.db.acquire_markers

  abbrev pub select_tombstone : ℕ → Store F → Option (TombstoneRow F)
  select_tombstone rid s = select (is_tombstone s.engine.key_prefix rid) s.db.refund_tombstones

  unfoldable pub delete_marker : ℕ → Store F → Store F
  delete_marker rid s = record s {
    db = record s.db {
      acquire_markers = delete (is_marker s.engine.key_prefix rid) s.db.acquire_markers;
    };
  }

  unfoldable pub delete_tombstone : ℕ → Store F → Store F
  delete_tombstone rid s = record s {
    db = record s.db {
      refund_tombstones = delete (is_tombstone s.engine.key_prefix rid) s.db.refund_tombstones;
    };
  }

  -- A row with a primary key that is there raises IntegrityError.
  unfoldable pub add_marker : MarkerRow F → Action (Store F) (Unit {0})
  add_marker m = do
    old ← gets (λ s. select (is_marker m.key_prefix m.reservation_id) s.db.acquire_markers)
    raise_when (not (is_none old)) other_error
    modify (λ s. record s { db = record s.db { acquire_markers = s.db.acquire_markers ++ m ∷ [] } })

  unfoldable pub add_tombstone : TombstoneRow F → Action (Store F) (Unit {0})
  add_tombstone t = do
    old ← gets (λ s. select (is_tombstone t.key_prefix t.reservation_id) s.db.refund_tombstones)
    raise_when (not (is_none old)) other_error
    modify (λ s. record s {
      db = record s.db { refund_tombstones = s.db.refund_tombstones ++ t ∷ [] };
    })

  -- `_pending_state_confirmations[bucket_id] = current_time`
  unfoldable pub confirm : BucketId → F → Store F → Store F
  confirm id now s = record s {
    engine = record s.engine {
      pending_state_confirmations = insert s.engine.pending_state_confirmations id now;
    };
  }

  abbrev pub clear_pending : Store F → Store F
  clear_pending s = record s { engine = record s.engine { pending_state_confirmations = [] } }

module _ {F : Type 0} ⦃fl : Float F⦄ where
  open fl use {add, mul, from_nat, nine_tenths, le, lt}

  -- `current_time + ttl`
  abbrev pub after_seconds : F → ℕ → F
  after_seconds now ttl = add now (from_nat ttl)

  -- `_state_confirmed_until.update(…)`
  abbrev pub confirmed : ℕ → Dict BucketId F → Dict BucketId F → Dict BucketId F
  confirmed ttl known [] = known
  confirmed ttl known ((id, at) ∷ pending) =
      confirmed ttl (insert known id (add at (mul nine_tenths (from_nat ttl)))) pending

  unfoldable pub commit : Store F → Store F
  commit s = record s {
    engine = record s.engine {
      state_confirmed_until =
          confirmed s.engine.bucket_ttl_seconds s.engine.state_confirmed_until
            s.engine.pending_state_confirmations;
      pending_state_confirmations = [];
    };
  }

  busy_error : Turn F → Error
  busy_error turn = if turn.timeout_on_busy then timeout_error else lock_contention

  -- `COMMIT`, or `ROLLBACK` to the state before.
  unfoldable pub end_transaction :
      {A : Type 0} → Turn F → Store F → Result A × Store F → Result A × Store F
  unfolding commit busy_error
  end_transaction turn before (err e, s) = (err e, clear_pending before)
  end_transaction turn before (ok a, s) =
      if turn.commit_busy then (err (busy_error turn), clear_pending before) else (ok a, commit s)

  -- `_transaction`, around what the operation does at the time of the transaction.
  unfoldable pub transaction : {A : Type 0} → Turn F → (F → Action (Store F) A) → Action (Store F) A
  unfolding end_transaction busy_error
  transaction turn body s =
      if turn.times_out
      then (err timeout_error, s)
      else if turn.is_busy
      then (err (busy_error turn), clear_pending s)
      else end_transaction turn s (body turn.now s)

  abbrev is_expired_marker : F → MarkerRow F → Bool
  is_expired_marker now m = le m.expires_at now

  abbrev is_expired_tombstone : F → TombstoneRow F → Bool
  is_expired_tombstone now t = le t.expires_at now

  abbrev pub is_past_or_none : F → Option F → Bool
  is_past_or_none now none = true
  is_past_or_none now (some at) = le at now

  -- An idle row whose override, if any, has expired too.
  abbrev pub is_idle : F → BucketRow F → Bool
  is_idle now r =
      le r.expires_at now && (is_none r.override_value || is_past_or_none now r.override_expires_at)

  -- `_prune`; the first rows of those that the limit leaves to choose from.
  unfoldable pub prune : F → Store F → Store F
  prune now s = record s {
    db = record {
      buckets = delete_limited s.engine.prune_batch_size (is_idle now) s.db.buckets;
      acquire_markers =
          delete_limited s.engine.prune_batch_size (is_expired_marker now) s.db.acquire_markers;
      refund_tombstones =
          delete_limited s.engine.prune_batch_size (is_expired_tombstone now)
            s.db.refund_tombstones;
    };
  }

  -- A new row of a bucket, with no state.
  abbrev pub empty_row : SqliteEngine F → F → BucketId → BucketRow F
  empty_row e now id = record {
    key_prefix = e.key_prefix;
    model_family = e.model_family;
    bucket_id = id;
    capacity = none;
    last_checked = none;
    override_value = none;
    override_expires_at = none;
    override_configured_max_capacity = none;
    updated_at = now;
    expires_at = after_seconds now e.bucket_ttl_seconds;
  }

  -- `_state_loss_suspected`
  unfoldable pub state_loss_suspected : BucketId → F → Store F → Bool
  state_loss_suspected id now s = elim (lookup s.engine.state_confirmed_until id) [
    | none ↦ false
    | some until ↦ lt now until
  ]
