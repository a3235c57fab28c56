-- ===== src/Sqlite/Overrides.antt =====
-- _sqlite/_engine.py: changes of a maximum at run time, and the snapshot of an engine.
pub mod Isolation
use token_throttle.Base.{
  ℕ, Bool, true, false, not, ◌&&◌, Option, none, some, List, [], ◌∷◌, map, if◌then◌else◌, is_none,
  ◌==◌, nat_eq, pair_eq,
}
use token_throttle.Base.Dict.{Dict, lookup, contains}
use token_throttle.Float.{Float}
use token_throttle.Exceptions.{Result, ok, err, value_error, bucket_not_found, other_error}
use token_throttle.Exceptions
use token_throttle.Action.{Action, ◌>>=◌, ◌>>◌, pure, lift, gets, modify, when}
use token_throttle.Validation.{BucketId, is_empty}
use token_throttle.Memory.State.{Capacities}
use token_throttle.Capacity.{PyValue, or_raise, validate_max_capacity_finite_positive}
use token_throttle.Sqlite.Ttl.{debt_ttl_seconds}
use token_throttle.Sqlite.Tables.{BucketRow, MarkerRow, TombstoneRow, count_rows}
use token_throttle.Sqlite.Engine.{
  BucketSpec, SqliteEngine, Store, Turn, transaction, prune, spec_of, bucket_ids_of, update_bucket,
  after_seconds,
}
use token_throttle.Sqlite.Load.{BucketState, load_states}
use token_throttle.Sqlite.Write.{write_all, write_capacity}
use token_throttle.Sqlite.Refunds.{state_of}

-- `bucket_ids.intersection(self.bucket_ids)`
abbrev pub common : List BucketId → List BucketId → List BucketId
common [] known = []
common (id ∷ ids) known = if contains known id then id ∷ common ids known else common ids known

module _ {F : Type 0} ⦃fl : Float F⦄ where
  -- Stores what a bucket has at the old maximum, not capped, unless it is fresh.
  unfoldable pub anchor_state : F → BucketState F → Action (Store F) (Unit {0})
  unfolding write_capacity
  anchor_state now k =
      when (not k.is_fresh_start) (write_capacity now k.spec.bucket_id k.uncapped_capacity)

  -- How long the row is kept under a new maximum.
  ttl_under : F → F → BucketState F → Action (Store F) ℕ
  unfolding debt_ttl_seconds
  ttl_under limit configured k = do
    e ← gets (λ s. s.engine)
    lift (
        debt_ttl_seconds k.uncapped_capacity e.bucket_ttl_seconds k.spec.bucket_id.1 limit
          configured)

  abbrev pub with_override : F → F → F → F → F → BucketRow F → BucketRow F
  with_override value until configured now expiry r = record r {
    override_value = some value;
    override_expires_at = some until;
    override_configured_max_capacity = some configured;
    updated_at = now;
    expires_at = expiry;
  }

  abbrev pub cleared_override : F → F → BucketRow F → BucketRow F
  cleared_override now expiry r = record r {
    override_value = none;
    override_expires_at = none;
    override_configured_max_capacity = none;
    updated_at = now;
    expires_at = expiry;
  }

  unfoldable pub set_max_capacity_at : BucketSpec F → F → F → Action (Store F) (Unit {0})
  unfolding anchor_state ttl_under load_states prune update_bucket
  set_max_capacity_at spec limit now = do
    modify (prune now)
    states ← load_states now true
    k ← lift (or_raise (state_of states spec.bucket_id) other_error)
    ttl ← ttl_under limit k.spec.configured_max_capacity k
    anchor_state now k
    modify (λ s.
        update_bucket spec.bucket_id
          (with_override limit (after_seconds now s.engine.override_ttl_seconds)
            spec.configured_max_capacity now (after_seconds now ttl))
          s)

  -- `SqliteEngine.set_max_capacity`
  unfoldable pub set_max_capacity : Turn F → BucketId → PyValue F → Action (Store F) (Unit {0})
  unfolding set_max_capacity_at transaction validate_max_capacity_finite_positive
  set_max_capacity turn id value = do
    limit ← lift (validate_max_capacity_finite_positive value)
    e ← gets (λ s. s.engine)
    spec ← lift (or_raise (spec_of e.specs id) (value_error bucket_not_found))
    transaction turn λ now. set_max_capacity_at spec limit now

  unfoldable pub apply_configured_at : BucketId → F → F → Action (Store F) (Unit {0})
  unfolding anchor_state ttl_under load_states prune update_bucket
  apply_configured_at id limit now = do
    modify (prune now)
    states ← load_states now true
    k ← lift (or_raise (state_of states id) other_error)
    ttl ← ttl_under limit limit k
    anchor_state now k
    modify (update_bucket id (cleared_override now (after_seconds now ttl)))

  abbrev pub replace_spec : BucketId → F → BucketSpec F → BucketSpec F
  replace_spec id limit spec =
      if spec.bucket_id == id
      then record { bucket_id = id; configured_max_capacity = limit }
      else spec

  -- The engine's own configuration, after the transaction has been committed.
  unfoldable pub configure : BucketId → F → Store F → Store F
  configure id limit s = record s {
    engine = record s.engine { specs = map (replace_spec id limit) s.engine.specs };
  }

  -- `SqliteEngine.apply_configured_max_capacity`
  unfoldable pub apply_configured_max_capacity :
      Turn F → BucketId → PyValue F → Action (Store F) (Unit {0})
  unfolding apply_configured_at configure transaction validate_max_capacity_finite_positive
  apply_configured_max_capacity turn id value = do
    limit ← lift (validate_max_capacity_finite_positive value)
    e ← gets (λ s. s.engine)
    spec ← lift (or_raise (spec_of e.specs id) (value_error bucket_not_found))
    transaction turn (λ now. apply_configured_at id limit now)
    modify (configure id limit)

  -- The anchors of the buckets that are not fresh.
  unfoldable pub anchors : List (BucketState F) → List BucketId → Result (Capacities F)
  anchors states [] = ok []
  anchors states (id ∷ ids) = Exceptions.◌>>=◌ (or_raise (state_of states id) other_error) λ k.
      Exceptions.◌>>=◌ (anchors states ids)
        λ rest. ok (if k.is_fresh_start then rest else (id, k.uncapped_capacity) ∷ rest)

  -- The maximum given for an id, or the configured one.
  abbrev maximum_for : Dict BucketId F → BucketId → F → F
  maximum_for limits id configured = elim (lookup limits id) [ none ↦ configured | some m ↦ m ]

  clear_each :
      F → Dict BucketId F → List (BucketState F) → List BucketId → Action (Store F) (Unit {0})
  unfolding ttl_under update_bucket
  clear_each now limits states [] = pure tt
  clear_each now limits states (id ∷ ids) = do
    k ← lift (or_raise (state_of states id) other_error)
    let limit = maximum_for limits id k.spec.configured_max_capacity
    ttl ← ttl_under limit limit k
    modify (update_bucket id (cleared_override now (after_seconds now ttl)))
    clear_each now limits states ids

  unfoldable pub clear_overrides_at :
      List BucketId → Dict BucketId F → F → Action (Store F) (Unit {0})
  unfolding anchors clear_each load_states write_all prune
  clear_overrides_at ids limits now = do
    modify (prune now)
    states ← load_states now true
    anchored ← lift (anchors states ids)
    write_all now anchored
    clear_each now limits states ids

  unfoldable pub clear_max_capacity_overrides :
      Turn F → List BucketId → Dict BucketId F → Action (Store F) (Unit {0})
  unfolding clear_overrides_at transaction
  clear_max_capacity_overrides turn ids limits s =
      let targets = common ids (bucket_ids_of s.engine) in
      if is_empty targets
      then (ok tt, s)
      else transaction turn (λ now. clear_overrides_at targets limits now) s

-- `inspect_counts`: the rows of a key prefix in the three tables.
pub record Counts : Type 0 where
  pub buckets : ℕ
  pub acquire_markers : ℕ
  pub refund_tombstones : ℕ

module _ {F : Type 0} where
  unfoldable pub inspect_counts : Store F → Counts
  inspect_counts s = record {
    buckets = count_rows (λ (r : BucketRow F). r.key_prefix == s.engine.key_prefix) s.db.buckets;
    acquire_markers =
        count_rows (λ (m : MarkerRow F). m.key_prefix == s.engine.key_prefix) s.db.acquire_markers;
    refund_tombstones =
        count_rows (λ (t : TombstoneRow F). t.key_prefix == s.engine.key_prefix)
          s.db.refund_tombstones;
  }

module _ {F : Type 0} ⦃fl : Float F⦄ where
  -- `inspect_snapshot`, in a read transaction: the states as a writer would load them.
  unfoldable pub inspect_snapshot : F → Action (Store F) (List (BucketState F) × Counts)
  unfolding load_states inspect_counts
  inspect_snapshot now = do
    states ← load_states now false
    counts ← gets (λ s. inspect_counts s)
    pure (states, counts)
