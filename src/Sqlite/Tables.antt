-- ===== src/Sqlite/Tables.antt =====
-- The tables of _sqlite/_engine.py, as lists of rows in the order of their row ids, and the
-- statements that the engine runs on one table.
pub mod Laws
use token_throttle.Base.{
  ℕ, zero, suc, Bool, true, false, not, ◌&&◌, Option, none, some, List, [], ◌∷◌, if◌then◌else◌,
  filter, ◌==◌, nat_eq, pair_eq,
}
use token_throttle.Validation.{BucketId, Usage}

module _ {ℓ} {R : Type ℓ} where
  -- `SELECT … WHERE`, for a condition that at most one row meets.
  abbrev pub select : (R → Bool) → List R → Option R
  select p [] = none
  select p (r ∷ rows) = if p r then some r else select p rows

  -- `UPDATE … SET … WHERE`
  abbrev pub update : (R → Bool) → (R → R) → List R → List R
  update p f [] = []
  update p f (r ∷ rows) = (if p r then f r else r) ∷ update p f rows

  -- `DELETE … WHERE`
  abbrev pub delete : (R → Bool) → List R → List R
  delete p rows = filter (λ r. not (p r)) rows

  -- `DELETE … WHERE rowid IN (SELECT rowid … WHERE … LIMIT n)`
  abbrev pub delete_limited : ℕ → (R → Bool) → List R → List R
  delete_limited zero p rows = rows
  delete_limited (suc n) p [] = []
  delete_limited (suc n) p (r ∷ rows) =
      if p r then delete_limited n p rows else r ∷ delete_limited (suc n) p rows

  -- `SELECT COUNT(*) … WHERE`
  abbrev pub count_rows : (R → Bool) → List R → ℕ
  count_rows p [] = 0
  count_rows p (r ∷ rows) = let n = count_rows p rows in if p r then suc n else n

-- `buckets`
pub record BucketRow (F : Type 0) : Type 0 where
  pub key_prefix : ℕ
  pub model_family : ℕ
  pub bucket_id : BucketId
  pub capacity : Option F
  pub last_checked : Option F
  pub override_value : Option F
  pub override_expires_at : Option F
  pub override_configured_max_capacity : Option F
  pub updated_at : F
  pub expires_at : F

-- `acquire_markers`; the two texts of JSON are the lists that they are written from.
pub record MarkerRow (F : Type 0) : Type 0 where
  pub key_prefix : ℕ
  pub reservation_id : ℕ
  pub model_family : ℕ
  pub bucket_ids : List BucketId
  pub reserved_usage : Usage F
  pub created_at : F
  pub expires_at : F

-- `refund_tombstones`
pub record TombstoneRow (F : Type 0) : Type 0 where
  pub key_prefix : ℕ
  pub reservation_id : ℕ
  pub refunded_at : F
  pub expires_at : F

pub record Database (F : Type 0) : Type 0 where
  pub buckets : List (BucketRow F)
  pub acquire_markers : List (MarkerRow F)
  pub refund_tombstones : List (TombstoneRow F)

module _ {F : Type 0} where
  -- The `WHERE` clauses by primary key.
  abbrev pub is_bucket : ℕ → ℕ → BucketId → BucketRow F → Bool
  is_bucket prefix family id r =
      (r.key_prefix == prefix) && (r.model_family == family) && (r.bucket_id == id)

  abbrev pub is_marker : ℕ → ℕ → MarkerRow F → Bool
  is_marker prefix rid m = (m.key_prefix == prefix) && (m.reservation_id == rid)

  abbrev pub is_tombstone : ℕ → ℕ → TombstoneRow F → Bool
  is_tombstone prefix rid t = (t.key_prefix == prefix) && (t.reservation_id == rid)
