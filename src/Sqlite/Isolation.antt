-- ===== src/Sqlite/Isolation.antt =====
-- What an engine leaves alone in a file that it shares: the rows of the others.
use token_throttle.Base.{
  ℕ, Bool, true, false, not, ◌&&◌, ◌≡◌, refl, [], ◌∷◌, ◌++◌, ◌∙◌, filter, arith, Bool-cases, inl,
  inr, ◌==◌, nat_eq, pair_eq,
}
use token_throttle.Float.{Float}
use token_throttle.Exceptions.{Result, ok, err}
use token_throttle.Action.{Action}
use token_throttle.Action.Rules.{Keeps, IsPreorder}
use token_throttle.Validation.{BucketId}
use token_throttle.Sqlite.Tables.{BucketRow, MarkerRow, TombstoneRow, is_marker, is_tombstone}
use token_throttle.Sqlite.Tables.Laws.{
  filter-delete, filter-delete_limited, filter-update, filter-append,
}
use token_throttle.Sqlite.Frame.{KeepsKey, IsRowFrame}
use token_throttle.Sqlite.Engine.{
  SqliteEngine, Store, update_bucket, delete_bucket, delete_marker, delete_tombstone, confirm,
  prune, is_idle, set_buckets, clear_pending, own_bucket, Turn, commit, end_transaction,
  transaction,
}

module _ {F : Type 0} ⦃fl : Float F⦄ (now : F) where
  open fl use {le}

  -- The rows of other engines that have not expired.
  abbrev pub is_foreign_bucket : SqliteEngine F → BucketRow F → Bool
  is_foreign_bucket e r =
      not ((r.key_prefix == e.key_prefix) && (r.model_family == e.model_family))
      && not (is_idle now r)

  abbrev pub is_foreign_marker : SqliteEngine F → MarkerRow F → Bool
  is_foreign_marker e m = not (m.key_prefix == e.key_prefix) && not (le m.expires_at now)

  abbrev pub is_foreign_tombstone : SqliteEngine F → TombstoneRow F → Bool
  is_foreign_tombstone e t = not (t.key_prefix == e.key_prefix) && not (le t.expires_at now)

  -- The engine is the same but for the confirmations, and what is foreign is in the tables as before.
  pub record LeavesOthers (s t : Store F) : Type 0 where
    pub key_prefix : t.engine.key_prefix ≡ s.engine.key_prefix
    pub model_family : t.engine.model_family ≡ s.engine.model_family
    pub buckets :
        filter (is_foreign_bucket s.engine) t.db.buckets
        ≡ filter (is_foreign_bucket s.engine) s.db.buckets
    pub markers :
        filter (is_foreign_marker s.engine) t.db.acquire_markers
        ≡ filter (is_foreign_marker s.engine) s.db.acquire_markers
    pub tombstones :
        filter (is_foreign_tombstone s.engine) t.db.refund_tombstones
        ≡ filter (is_foreign_tombstone s.engine) s.db.refund_tombstones

  LeavesOthers-trans : {s t u : Store F} → LeavesOthers s t → LeavesOthers t u → LeavesOthers s u
  LeavesOthers-trans h k = record {
    key_prefix = k.key_prefix ∙ h.key_prefix;
    model_family = k.model_family ∙ h.model_family;
    buckets = rw (h.key_prefix, h.model_family) at k.buckets ∙ h.buckets;
    markers = rw h.key_prefix at k.markers ∙ h.markers;
    tombstones = rw h.key_prefix at k.tombstones ∙ h.tombstones;
  }

  LeavesOthers-same : (s : Store F) → LeavesOthers s s
  LeavesOthers-same s = record {
    key_prefix = refl;
    model_family = refl;
    buckets = refl;
    markers = refl;
    tombstones = refl;
  }

  pub others : IsPreorder LeavesOthers
  others = record { same = LeavesOthers-same; trans = LeavesOthers-trans }

  own_bucket-foreign :
      (e : SqliteEngine F) (id : BucketId) (r : BucketRow F)
      → own_bucket e id r ≡ true
      → is_foreign_bucket e r ≡ false
  own_bucket-foreign e id r h = ground arith

  own_bucket-moved :
      (e : SqliteEngine F) (id : BucketId) (f : BucketRow F → BucketRow F) (r : BucketRow F)
      → KeepsKey f
      → own_bucket e id r ≡ true
      → is_foreign_bucket e (f r) ≡ false
  own_bucket-moved e id f r k h = ground (arith, k r)

  update_bucket-others :
      (id : BucketId) (f : BucketRow F → BucketRow F) (s : Store F)
      → KeepsKey f
      → LeavesOthers s (update_bucket id f s)
  unfolding update_bucket
  update_bucket-others id f s k = record {
    key_prefix = refl;
    model_family = refl;
    buckets =
        filter-update (own_bucket s.engine id) (is_foreign_bucket s.engine) f
          (own_bucket-foreign s.engine id) (λ r. own_bucket-moved s.engine id f r k) s.db.buckets;
    markers = refl;
    tombstones = refl;
  }

  delete_bucket-others : (id : BucketId) (s : Store F) → LeavesOthers s (delete_bucket id s)
  unfolding delete_bucket
  delete_bucket-others id s = record {
    key_prefix = refl;
    model_family = refl;
    buckets =
        filter-delete (own_bucket s.engine id) (is_foreign_bucket s.engine)
          (own_bucket-foreign s.engine id) s.db.buckets;
    markers = refl;
    tombstones = refl;
  }

  pub add_bucket-others :
      (r : BucketRow F) (s : Store F)
      → r.key_prefix ≡ s.engine.key_prefix
      → r.model_family ≡ s.engine.model_family
      → LeavesOthers s (set_buckets (s.db.buckets ++ r ∷ []) s)
  add_bucket-others r s p f = record {
    key_prefix = refl;
    model_family = refl;
    buckets = filter-append (is_foreign_bucket s.engine) r s.db.buckets (ground arith);
    markers = refl;
    tombstones = refl;
  }

  confirm-others : (id : BucketId) (at : F) (s : Store F) → LeavesOthers s (confirm id at s)
  unfolding confirm
  confirm-others id at s = record {
    key_prefix = refl;
    model_family = refl;
    buckets = refl;
    markers = refl;
    tombstones = refl;
  }

  pub frame : (id : BucketId) → IsRowFrame LeavesOthers id
  frame id = record {
    order = others;
    update = update_bucket-others id;
    delete = delete_bucket-others id;
    add = λ r s p f i. add_bucket-others r s p f;
    note = confirm-others id;
  }

  own_marker-foreign :
      (e : SqliteEngine F) (rid : ℕ) (m : MarkerRow F)
      → is_marker e.key_prefix rid m ≡ true
      → is_foreign_marker e m ≡ false
  own_marker-foreign e rid m h = ground arith

  pub delete_marker-others : (rid : ℕ) (s : Store F) → LeavesOthers s (delete_marker rid s)
  unfolding delete_marker
  delete_marker-others rid s = record {
    key_prefix = refl;
    model_family = refl;
    buckets = refl;
    markers =
        filter-delete (is_marker s.engine.key_prefix rid) (is_foreign_marker s.engine)
          (own_marker-foreign s.engine rid) s.db.acquire_markers;
    tombstones = refl;
  }

  own_tombstone-foreign :
      (e : SqliteEngine F) (rid : ℕ) (t : TombstoneRow F)
      → is_tombstone e.key_prefix rid t ≡ true
      → is_foreign_tombstone e t ≡ false
  own_tombstone-foreign e rid t h = ground arith

  pub delete_tombstone-others : (rid : ℕ) (s : Store F) → LeavesOthers s (delete_tombstone rid s)
  unfolding delete_tombstone
  delete_tombstone-others rid s = record {
    key_prefix = refl;
    model_family = refl;
    buckets = refl;
    markers = refl;
    tombstones =
        filter-delete (is_tombstone s.engine.key_prefix rid) (is_foreign_tombstone s.engine)
          (own_tombstone-foreign s.engine rid) s.db.refund_tombstones;
  }

  pub prune-others : (s : Store F) → LeavesOthers s (prune now s)
  unfolding prune
  prune-others s = record {
    key_prefix = refl;
    model_family = refl;
    buckets =
        filter-delete_limited (is_idle now) (is_foreign_bucket s.engine) (λ r h. ground arith)
          s.engine.prune_batch_size s.db.buckets;
    markers =
        filter-delete_limited (λ m. le m.expires_at now) (is_foreign_marker s.engine)
          (λ m h. ground arith) s.engine.prune_batch_size s.db.acquire_markers;
    tombstones =
        filter-delete_limited (λ t. le t.expires_at now) (is_foreign_tombstone s.engine)
          (λ t h. ground arith) s.engine.prune_batch_size s.db.refund_tombstones;
  }

module _ {F : Type 0} ⦃fl : Float F⦄ where
  clear_pending-others : (at : F) (s : Store F) → LeavesOthers at s (clear_pending s)
  clear_pending-others at s = record {
    key_prefix = refl;
    model_family = refl;
    buckets = refl;
    markers = refl;
    tombstones = refl;
  }

  commit-others : (at : F) (s : Store F) → LeavesOthers at s (commit s)
  unfolding commit
  commit-others at s = record {
    key_prefix = refl;
    model_family = refl;
    buckets = refl;
    markers = refl;
    tombstones = refl;
  }

  end_transaction-others :
      {A : Type 0} (turn : Turn F) (s : Store F) (p : Result A × Store F)
      → LeavesOthers turn.now s p.1
      → LeavesOthers turn.now s (end_transaction turn s p).1
  unfolding end_transaction
  end_transaction-others turn s (err e, t) h = clear_pending-others turn.now s
  end_transaction-others turn s (ok a, t) h = elim (Bool-cases turn.commit_busy) [
    | inl e ↦ rw e (clear_pending-others turn.now s)
    | inr e ↦ rw e ((others turn.now).trans h (commit-others turn.now t))
  ]

  transacted :
      {A : Type 0} (turn : Turn F) (body : F → Action (Store F) A)
      → Keeps (LeavesOthers turn.now) (body turn.now)
      → (s : Store F) → LeavesOthers turn.now s (transaction turn body s).1
  unfolding transaction
  transacted turn body h s = elim (Bool-cases turn.times_out) [
    | inl e ↦ rw e ((others turn.now).same s)
    | inr e ↦ elim (Bool-cases turn.is_busy) [
      | inl f ↦ rw (e, f) (clear_pending-others turn.now s)
      | inr f ↦ rw (e, f) (end_transaction-others turn s (body turn.now s) (h.after s))
    ]
  ]

  pub transaction-others :
      {A : Type 0} (turn : Turn F) (body : F → Action (Store F) A)
      → Keeps (LeavesOthers turn.now) (body turn.now)
      → Keeps (LeavesOthers turn.now) (transaction turn body)
  transaction-others turn body h = record { after = transacted turn body h }
