-- ===== src/Sqlite/Operations.antt =====
-- _sqlite/_engine.py: the operations that take capacity and give it back, each in a transaction.
pub mod Amounts
pub mod Isolation
pub mod Remembered
pub mod Taken
use token_throttle.Base.{
  ℕ, Bool, true, false, not, ◌&&◌, Option, none, some, List, [], ◌∷◌, map, all, any, if◌then◌else◌,
  is_none, ◌==◌, nat_eq, pair_eq,
}
use token_throttle.Base.Dict.{lookup, insert}
use token_throttle.Float.{Float, min_f, max_f, zero_f}
use token_throttle.Exceptions.{
  Error, Result, ok, err, value_error, other_error, unknown_reservation, exceeds_max_capacity,
  missing_marker_metadata,
}
use token_throttle.Exceptions
use token_throttle.Action.{
  Action, ◌>>=◌, ◌>>◌, pure, lift, gets, modify, raise_when, raise, when, branch,
}
use token_throttle.Validation.{BucketId, Usage}
use token_throttle.Memory.State.{Capacities}
use token_throttle.Capacity.{or_raise}
use token_throttle.Sqlite.Tables.{TombstoneRow}
use token_throttle.Sqlite.Engine.{
  SqliteEngine, Store, Turn, transaction, prune, select_marker, delete_marker, add_tombstone,
  after_seconds,
}
use token_throttle.Sqlite.Load.{BucketState, load_states}
use token_throttle.Sqlite.Write.{write_all}
use token_throttle.Sqlite.Markers.{raise_if_duplicate_acquire, insert_marker, verify_marker}

-- `CapacityResult`, with `TryConsumeResult.available`
pub record CapacityResult (F : Type 0) : Type 0 where
  pub available : Bool
  pub current_time : F
  pub pre_capacities : Capacities F
  pub post_capacities : Capacities F
  pub states : List (BucketState F)
  pub replayed : Bool

module _ {F : Type 0} where
  -- `_capacities`
  abbrev pub capacities_of : List (BucketState F) → Capacities F
  capacities_of states = map (λ (k : BucketState F). (k.spec.bucket_id, k.capacity)) states

module _ {F : Type 0} ⦃fl : Float F⦄ where
  open fl use {add, sub, neg, lt, le}

  -- `usage.get(metric, 0.0)`
  abbrev pub usage_of : Usage F → BucketId → F
  usage_of usage id = elim (lookup usage id.0) [ none ↦ zero_f | some amount ↦ amount ]

  -- Some amount of the usage exceeds the maximum of a bucket of its metric.
  abbrev pub exceeds_some_state : Usage F → List (BucketState F) → Bool
  exceeds_some_state usage states =
      any (λ (u : ℕ × F). any (λ k. (k.spec.bucket_id.0 == u.0) && lt k.max_capacity u.1) states)
        usage

  abbrev pub is_available : Usage F → List (BucketState F) → Bool
  is_available usage states = all (λ k. le (usage_of usage k.spec.bucket_id) k.capacity) states

  abbrev pub taken_off : Usage F → List (BucketState F) → Capacities F
  taken_off usage states =
      map (λ k. (k.spec.bucket_id, sub k.capacity (usage_of usage k.spec.bucket_id))) states

  abbrev pub unchanged : Bool → F → List (BucketState F) → Capacities F → Bool → CapacityResult F
  unchanged available now states post replayed = record {
    available = available;
    current_time = now;
    pre_capacities = capacities_of states;
    post_capacities = post;
    states = states;
    replayed = replayed;
  }

  -- New capacities are stored with the marker of the reservation.
  unfoldable pub record_consumption :
      Usage F
      → Option ℕ
      → Option F
      → F
      → List (BucketState F)
      → Capacities F
      → Action (Store F) (CapacityResult F)
  unfolding write_all insert_marker
  record_consumption usage rid lifetime now states post = do
    write_all now post
    insert_marker rid usage lifetime now
    pure (unchanged true now states post false)

  unfoldable pub try_consume_new :
      Usage F → Option ℕ → Option F → F → List (BucketState F) → Action (Store F) (CapacityResult F)
  unfolding record_consumption
  try_consume_new usage rid lifetime now states = do
    raise_when (exceeds_some_state usage states) (value_error exceeds_max_capacity)
    branch (is_available usage states)
        (record_consumption usage rid lifetime now states (taken_off usage states))
        (pure (unchanged false now states [] false))

  -- Once the reservation id has been looked up.
  unfoldable pub try_consume_classified :
      Usage F → Option ℕ → Option F → F → Bool → Action (Store F) (CapacityResult F)
  unfolding try_consume_new load_states
  try_consume_classified usage rid lifetime now replayed = do
    states ← load_states now true
    branch replayed (pure (unchanged true now states (capacities_of states) true))
        (try_consume_new usage rid lifetime now states)

  unfoldable pub try_consume_at :
      Usage F → Option ℕ → Option F → F → Action (Store F) (CapacityResult F)
  unfolding try_consume_classified raise_if_duplicate_acquire prune
  try_consume_at usage rid lifetime now = do
    modify (prune now)
    replayed ← raise_if_duplicate_acquire rid now usage
    try_consume_classified usage rid lifetime now replayed

  -- `SqliteEngine.try_consume`
  unfoldable pub try_consume :
      Turn F → Usage F → Option ℕ → Option F → Action (Store F) (CapacityResult F)
  unfolding transaction try_consume_at
  try_consume turn usage rid lifetime =
      transaction turn λ now. try_consume_at usage rid lifetime now

  -- Down to minus the maximum.
  abbrev pub overdrawn_state : Usage F → BucketState F → F
  overdrawn_state usage k =
      max_f (neg k.max_capacity) (sub k.capacity (usage_of usage k.spec.bucket_id))

  abbrev pub overdrawn_states : Usage F → List (BucketState F) → Capacities F
  overdrawn_states usage states = map (λ k. (k.spec.bucket_id, overdrawn_state usage k)) states

  unfoldable pub consume_classified :
      Usage F → Option ℕ → Option F → F → Bool → Action (Store F) (CapacityResult F)
  unfolding record_consumption load_states
  consume_classified usage rid lifetime now replayed = do
    states ← load_states now true
    branch replayed (pure (unchanged true now states (capacities_of states) true))
        (record_consumption usage rid lifetime now states (overdrawn_states usage states))

  unfoldable pub consume_at :
      Usage F → Option ℕ → Option F → F → Action (Store F) (CapacityResult F)
  unfolding consume_classified raise_if_duplicate_acquire prune
  consume_at usage rid lifetime now = do
    modify (prune now)
    replayed ← raise_if_duplicate_acquire rid now usage
    consume_classified usage rid lifetime now replayed

  -- `SqliteEngine.consume`
  unfoldable pub consume :
      Turn F → Usage F → Option ℕ → Option F → Action (Store F) (CapacityResult F)
  unfolding transaction consume_at
  consume turn usage rid lifetime = transaction turn λ now. consume_at usage rid lifetime now
