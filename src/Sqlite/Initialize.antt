-- ===== src/Sqlite/Initialize.antt =====
-- _sqlite/_engine.py, `initialize_buckets` and `inherit_state_confirmations`: how an engine begins.
pub mod Isolation
use token_throttle.Base.{
  ℕ, Bool, true, false, not, ◌&&◌, ◌||◌, Option, none, some, List, [], ◌∷◌, ◌++◌, map,
  if◌then◌else◌, is_none, ◌==◌, nat_eq, pair_eq,
}
use token_throttle.Base.Dict.{Dict, lookup, insert, contains}
use token_throttle.Float.{Float}
use token_throttle.Exceptions.{Error, Result, ok, err, timeout_error, lock_contention, other_error}
use token_throttle.Action.{Action, ◌>>=◌, ◌>>◌, pure, lift, gets, modify, raise_when, raise}
use token_throttle.Validation.{BucketId}
use token_throttle.Capacity.{PyValue, py_float, validate_max_capacity_finite_positive}
use token_throttle.Sqlite.Tables.{
  Database, BucketRow, MarkerRow, TombstoneRow, select, update, delete, delete_limited, is_bucket,
  is_marker, is_tombstone,
}
use token_throttle.Sqlite.Engine.{
  BucketSpec, SqliteEngine, Store, Turn, bucket_ids_of, select_bucket, set_buckets, empty_row,
  prune, transaction,
}

module _ {F : Type 0} ⦃fl : Float F⦄ where
  -- `INSERT OR IGNORE`
  unfoldable pub insert_or_ignore : F → BucketId → Store F → Store F
  insert_or_ignore now id s =
      if is_none (select_bucket id s)
      then set_buckets (s.db.buckets ++ empty_row s.engine now id ∷ []) s
      else s

  insert_all : F → List (BucketSpec F) → Action (Store F) (Unit {0})
  unfolding insert_or_ignore validate_max_capacity_finite_positive
  insert_all now [] = pure tt
  insert_all now (spec ∷ specs) = do
    limit ← lift (validate_max_capacity_finite_positive (py_float spec.configured_max_capacity))
    modify (insert_or_ignore now spec.bucket_id)
    insert_all now specs

  pub initialize_at : F → Action (Store F) (Unit {0})
  unfolding insert_all prune
  initialize_at now = do
    modify (prune now)
    specs ← gets (λ s. s.engine.specs)
    insert_all now specs

  unfoldable pub initialize_buckets : Turn F → Action (Store F) (Unit {0})
  unfolding transaction initialize_at
  initialize_buckets turn = transaction turn initialize_at

  inherit_each : List BucketId → List BucketId → Dict BucketId F → Dict BucketId F → Dict BucketId F
  inherit_each [] previous confirmations known = known
  inherit_each (id ∷ ids) previous confirmations known = elim (lookup confirmations id) [
    | none ↦ inherit_each ids previous confirmations known
    | some until ↦
        inherit_each ids previous confirmations
          (if contains previous id then insert known id until else known)
  ]

  -- `inherit_state_confirmations`, from an engine of the same file.
  unfoldable pub inherit_state_confirmations :
      SqliteEngine F → SqliteEngine F → Result (SqliteEngine F)
  unfolding inherit_each
  inherit_state_confirmations previous e =
      if (e.key_prefix == previous.key_prefix) && (e.model_family == previous.model_family)
      then ok (record e {
        state_confirmed_until =
            inherit_each (bucket_ids_of e) (bucket_ids_of previous) previous.state_confirmed_until
              e.state_confirmed_until;
      })
      else err other_error
