-- ===== src/Sqlite/Write.antt =====
-- _sqlite/_engine.py, `_write_capacities`: what an operation stores of the buckets that it changed.
pub mod Frame
pub mod Stored
use token_throttle.Base.{
  ℕ, Bool, true, false, not, ◌&&◌, Option, none, some, List, [], ◌∷◌, if◌then◌else◌, is_none, ◌==◌,
  nat_eq, pair_eq,
}
use token_throttle.Float.{Float}
use token_throttle.Exceptions.{ok, value_error, not_finite, other_error}
use token_throttle.Action.{Action, ◌>>=◌, ◌>>◌, pure, lift, gets, modify, raise_when}
use token_throttle.Validation.{BucketId}
use token_throttle.Memory.Bucket.{drop_sign_of_zero}
use token_throttle.Memory.State.{Capacities}
use token_throttle.Capacity.{or_raise}
use token_throttle.Sqlite.Ttl.{debt_ttl_seconds}
use token_throttle.Sqlite.Tables.{BucketRow}
use token_throttle.Sqlite.Engine.{
  BucketSpec, Store, select_bucket, spec_of, update_bucket, confirm, after_seconds,
}
use token_throttle.Sqlite.Rows.{active_override}

module _ {F : Type 0} ⦃fl : Float F⦄ where
  open fl use {is_finite}

  or_configured : BucketSpec F → Option F → F
  or_configured spec none = spec.configured_max_capacity
  or_configured spec (some value) = value

  -- The maximum that decides how long debt is kept.
  unfoldable pub maximum_of : F → BucketSpec F → Option (BucketRow F) → F
  unfolding or_configured
  maximum_of now spec none = spec.configured_max_capacity
  maximum_of now spec (some r) = or_configured spec (active_override now spec r)

  abbrev pub written_row : F → F → F → BucketRow F → BucketRow F
  written_row amount now expiry r = record r {
    capacity = some amount;
    last_checked = some now;
    updated_at = now;
    expires_at = expiry;
  }

  -- The update itself, which has to find the row.
  store_capacity : BucketId → F → F → ℕ → Action (Store F) (Unit {0})
  unfolding update_bucket confirm
  store_capacity id amount now ttl = do
    row ← gets (select_bucket id)
    modify (update_bucket id (written_row amount now (after_seconds now ttl)))
    raise_when (is_none row) other_error
    modify (confirm id now)

  -- One round of the loop; an id that is no bucket of the engine raises KeyError.
  unfoldable pub write_capacity : F → BucketId → F → Action (Store F) (Unit {0})
  unfolding maximum_of debt_ttl_seconds store_capacity
  write_capacity now id amount = do
    raise_when (not (is_finite amount)) (value_error not_finite)
    e ← gets (λ s. s.engine)
    spec ← lift (or_raise (spec_of e.specs id) other_error)
    row ← gets (select_bucket id)
    ttl ← lift (
        debt_ttl_seconds (drop_sign_of_zero amount) e.bucket_ttl_seconds id.1
          (maximum_of now spec row) spec.configured_max_capacity)
    store_capacity id (drop_sign_of_zero amount) now ttl

  -- `_write_capacities`
  unfoldable pub write_all : F → Capacities F → Action (Store F) (Unit {0})
  unfolding write_capacity
  write_all now [] = pure tt
  write_all now ((id, amount) ∷ capacities) = do
    write_capacity now id amount
    write_all now capacities
