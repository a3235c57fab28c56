-- ===== src/Sqlite/Markers.antt =====
-- _sqlite/_engine.py: the rows that remember reservations, live ones in `acquire_markers` and
-- refunded ones in `refund_tombstones`.
pub mod Isolation
pub mod Unchanged
pub mod Lifecycle
pub mod Refunded
use token_throttle.Base.{
  ℕ, Bool, true, false, not, ◌&&◌, ◌||◌, Option, none, some, List, [], ◌∷◌, if◌then◌else◌, ltb,
  is_none, ◌==◌, nat_eq, pair_eq,
}
use token_throttle.Float.{Float, zero_f}
use token_throttle.Exceptions.{
  Error, Result, ok, err, value_error, duplicate_refund, unknown_reservation, duplicate_acquire,
  already_refunded, missing_marker_metadata, out_of_range, lifetime_exceeded, not_positive,
}
use token_throttle.Action.{Action, ◌>>=◌, ◌>>◌, pure, lift, gets, modify, raise_when, raise, when}
use token_throttle.Validation.{BucketId, Usage}
use token_throttle.Sqlite.Tables.{MarkerRow, TombstoneRow}
use token_throttle.Sqlite.Engine.{
  SqliteEngine, Store, bucket_ids_of, select_marker, select_tombstone, delete_marker,
  delete_tombstone, add_marker,
}

-- `sorted`, of pairs and of items by their metric.
abbrev id_leb : BucketId → BucketId → Bool
id_leb a b = ltb a.0 b.0 || ((a.0 == b.0) && not (ltb b.1 a.1))

insert_id : BucketId → List BucketId → List BucketId
insert_id a [] = a ∷ []
insert_id a (b ∷ ids) = if id_leb a b then a ∷ b ∷ ids else b ∷ insert_id a ids

-- `_bucket_ids_json`, before it is written as text
unfoldable pub bucket_ids_json : List BucketId → List BucketId
unfolding insert_id
bucket_ids_json [] = []
bucket_ids_json (a ∷ ids) = insert_id a (bucket_ids_json ids)

abbrev pub same_ids : List BucketId → List BucketId → Bool
same_ids [] [] = true
same_ids (a ∷ xs) (b ∷ ys) = (a == b) && same_ids xs ys
same_ids _ _ = false

module _ {F : Type 0} where
  insert_item : ℕ × F → Usage F → Usage F
  insert_item a [] = a ∷ []
  insert_item a (b ∷ items) = if ltb b.0 a.0 then b ∷ insert_item a items else a ∷ b ∷ items

  -- `_usage_json`, before it is written as text
  unfoldable pub usage_json : Usage F → Usage F
  unfolding insert_item
  usage_json [] = []
  usage_json (a ∷ items) = insert_item a (usage_json items)

module _ {F : Type 0} ⦃fl : Float F⦄ where
  open fl use {add, le, lt, is_finite, same_text}

  -- Whether two usages are written as the same text.
  abbrev pub same_items : Usage F → Usage F → Bool
  same_items [] [] = true
  same_items ((m, x) ∷ u) ((n, y) ∷ v) = (m == n) && same_text x y && same_items u v
  same_items _ _ = false

  -- The marker of a reservation, if it is live; one that has expired is deleted.
  take_marker : F → ℕ → Option (MarkerRow F) → Action (Store F) (Option (MarkerRow F))
  unfolding delete_marker
  take_marker now rid none = pure none
  take_marker now rid (some m) =
      if le m.expires_at now then (do modify (delete_marker rid); pure none) else pure (some m)

  unfoldable pub live_marker : F → ℕ → Action (Store F) (Option (MarkerRow F))
  unfolding take_marker
  live_marker now rid = do m ← gets (select_marker rid); take_marker now rid m

  take_tombstone : F → ℕ → Option (TombstoneRow F) → Action (Store F) Bool
  unfolding delete_tombstone
  take_tombstone now rid none = pure false
  take_tombstone now rid (some t) =
      if le t.expires_at now then (do modify (delete_tombstone rid); pure false) else pure true

  -- Whether a refund is remembered.
  unfoldable pub is_refunded : F → ℕ → Action (Store F) Bool
  unfolding take_tombstone
  is_refunded now rid = do t ← gets (select_tombstone rid); take_tombstone now rid t

  -- Whether a marker has the given family, bucket ids and usage.
  abbrev pub is_same_marker : ℕ → List BucketId → Usage F → MarkerRow F → Bool
  is_same_marker family ids usage m =
      (m.model_family == family)
      && same_ids m.bucket_ids (bucket_ids_json ids)
      && same_items m.reserved_usage (usage_json usage)

  -- `true` for a replay.
  classify_acquire : SqliteEngine F → ℕ → Usage F → Option (MarkerRow F) → Bool → Result Bool
  unfolding bucket_ids_json usage_json
  classify_acquire e rid usage none refunded =
      if refunded then err (duplicate_refund duplicate_acquire rid) else ok false
  classify_acquire e rid usage (some m) refunded =
      if is_same_marker e.model_family (bucket_ids_of e) usage m
      then ok true
      else err (duplicate_refund duplicate_acquire rid)

  -- `_raise_if_duplicate_acquire`
  unfoldable pub raise_if_duplicate_acquire : Option ℕ → F → Usage F → Action (Store F) Bool
  unfolding live_marker is_refunded classify_acquire
  raise_if_duplicate_acquire none now usage = pure false
  raise_if_duplicate_acquire (some rid) now usage = do
    m ← live_marker now rid
    refunded ← is_refunded now rid
    e ← gets (λ s. s.engine)
    lift (classify_acquire e rid usage m refunded)

  -- The row of a new reservation.
  abbrev pub new_marker : SqliteEngine F → ℕ → Usage F → F → F → MarkerRow F
  new_marker e rid usage now lifetime = record {
    key_prefix = e.key_prefix;
    reservation_id = rid;
    model_family = e.model_family;
    bucket_ids = bucket_ids_json (bucket_ids_of e);
    reserved_usage = usage_json usage;
    created_at = now;
    expires_at = add now lifetime;
  }

  check_lifetime : SqliteEngine F → Option F → Result F
  check_lifetime e none = err (value_error missing_marker_metadata)
  check_lifetime e (some lifetime) =
      if not (is_finite lifetime) || le lifetime zero_f
      then err (value_error not_positive)
      else if lt e.max_reservation_lifetime_seconds lifetime
      then err (value_error lifetime_exceeded)
      else ok lifetime

  -- `_insert_marker`
  unfoldable pub insert_marker : Option ℕ → Usage F → Option F → F → Action (Store F) (Unit {0})
  unfolding check_lifetime add_marker bucket_ids_json usage_json
  insert_marker none usage lifetime_seconds now = pure tt
  insert_marker (some rid) usage lifetime_seconds now = do
    e ← gets (λ s. s.engine)
    lifetime ← lift (check_lifetime e lifetime_seconds)
    add_marker (new_marker e rid usage now lifetime)

  -- The reservation that a refund names.
  classify_refund : ℕ → ℕ → List BucketId → Usage F → Option (MarkerRow F) → Result (Unit {0})
  unfolding bucket_ids_json usage_json
  classify_refund rid family ids reserved none = err (unknown_reservation rid true)
  classify_refund rid family ids reserved (some m) =
      if is_same_marker family ids reserved m then ok tt else err (unknown_reservation rid false)

  -- `_verify_marker`
  unfoldable pub verify_marker : ℕ → ℕ → List BucketId → Usage F → F → Action (Store F) (Unit {0})
  unfolding live_marker is_refunded classify_refund
  verify_marker rid family ids reserved now = do
    refunded ← is_refunded now rid
    raise_when refunded (duplicate_refund already_refunded rid)
    m ← live_marker now rid
    lift (classify_refund rid family ids reserved m)
