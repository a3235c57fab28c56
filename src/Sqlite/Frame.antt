-- ===== src/Sqlite/Frame.antt =====
-- What holds between the store before and after anything that touches only the rows of the engine's
-- own buckets and its notes.
use token_throttle.Base.{◌≡◌, ◌∙◌, refl, true, false, arith, ◌==◌, nat_eq, pair_eq, ◌++◌, ◌∷◌, []}
use token_throttle.Action.Rules.{IsPreorder}
use token_throttle.Validation.{BucketId}
use token_throttle.Sqlite.Tables.{BucketRow}
use token_throttle.Sqlite.Tables.Laws.{select-update, select-delete, select-append}
use token_throttle.Sqlite.Engine.{
  SqliteEngine, own_bucket, select_bucket, Store, update_bucket, delete_bucket, set_buckets,
  confirm,
}

module _ {F : Type 0} where
  -- An update of a bucket's row, which keeps the row's key.
  abbrev pub KeepsKey : (BucketRow F → BucketRow F) → Type 0
  KeepsKey f =
      (r : BucketRow F)
      → ((f r).key_prefix ≡ r.key_prefix)
        × ((f r).model_family ≡ r.model_family)
        × ((f r).bucket_id ≡ r.bucket_id)

  -- A relation that everything done to the row of one bucket keeps.
  pub record IsRowFrame (R : Store F → Store F → Type 0) (id : BucketId) : Type 0 where
    pub order : IsPreorder R
    pub update :
        (f : BucketRow F → BucketRow F) (s : Store F) → KeepsKey f → R s (update_bucket id f s)
    pub delete : (s : Store F) → R s (delete_bucket id s)
    pub add :
        (r : BucketRow F) (s : Store F)
        → r.key_prefix ≡ s.engine.key_prefix
        → r.model_family ≡ s.engine.model_family
        → r.bucket_id ≡ id
        → R s (set_buckets (s.db.buckets ++ r ∷ []) s)
    pub note : (at : F) (s : Store F) → R s (confirm id at s)

  -- The row of a bucket is as before.
  pub record KeepsRow (id : BucketId) (s t : Store F) : Type 0 where
    pub key_prefix : t.engine.key_prefix ≡ s.engine.key_prefix
    pub model_family : t.engine.model_family ≡ s.engine.model_family
    pub row : select_bucket id t ≡ select_bucket id s

  pub row_order : (id : BucketId) → IsPreorder (KeepsRow id)
  row_order id = record {
    same = λ s. record { key_prefix = refl; model_family = refl; row = refl };
    trans = λ h k. record {
      key_prefix = k.key_prefix ∙ h.key_prefix;
      model_family = k.model_family ∙ h.model_family;
      row = k.row ∙ h.row;
    };
  }

  -- What is done to the row of another bucket keeps it.
  module _ (id other : BucketId) (differ : (other == id) ≡ false) where
    not_own :
        (e : SqliteEngine F) (r : BucketRow F)
        → own_bucket e other r ≡ true
        → own_bucket e id r ≡ false
    not_own e r h = ground (arith, differ)

    row_update :
        (f : BucketRow F → BucketRow F) (s : Store F)
        → KeepsKey f
        → KeepsRow id s (update_bucket other f s)
    unfolding update_bucket
    row_update f s k = record {
      key_prefix = refl;
      model_family = refl;
      row =
          select-update (own_bucket s.engine other) (own_bucket s.engine id) f (not_own s.engine)
            (λ r h. ground (arith, k r, not_own s.engine r h)) s.db.buckets;
    }

    row_delete : (s : Store F) → KeepsRow id s (delete_bucket other s)
    unfolding delete_bucket
    row_delete s = record {
      key_prefix = refl;
      model_family = refl;
      row =
          select-delete (own_bucket s.engine other) (own_bucket s.engine id) (not_own s.engine)
            s.db.buckets;
    }

    row_add :
        (r : BucketRow F) (s : Store F)
        → r.bucket_id ≡ other
        → KeepsRow id s (set_buckets (s.db.buckets ++ r ∷ []) s)
    row_add r s h = record {
      key_prefix = refl;
      model_family = refl;
      row =
          select-append (own_bucket s.engine id) (own_bucket s.engine id) r s.db.buckets
            (ground (arith, differ));
    }

    row_note : (at : F) (s : Store F) → KeepsRow id s (confirm other at s)
    unfolding confirm
    row_note at s = record { key_prefix = refl; model_family = refl; row = refl }

    pub other_row : IsRowFrame (KeepsRow id) other
    other_row = record {
      order = row_order id;
      update = row_update;
      delete = row_delete;
      add = λ r s p f i. row_add r s i;
      note = row_note;
    }

  -- The markers, the tombstones and the configuration of the engine are as before.
  pub record OnlyBuckets (s t : Store F) : Type 0 where
    pub markers : t.db.acquire_markers ≡ s.db.acquire_markers
    pub tombstones : t.db.refund_tombstones ≡ s.db.refund_tombstones
    pub key_prefix : t.engine.key_prefix ≡ s.engine.key_prefix
    pub model_family : t.engine.model_family ≡ s.engine.model_family
    pub specs : t.engine.specs ≡ s.engine.specs
    pub dedup : t.engine.refund_dedup_ttl_seconds ≡ s.engine.refund_dedup_ttl_seconds

  pub OnlyBuckets-same : (s : Store F) → OnlyBuckets s s
  OnlyBuckets-same s = record {
    markers = refl;
    tombstones = refl;
    key_prefix = refl;
    model_family = refl;
    specs = refl;
    dedup = refl;
  }

  OnlyBuckets-trans : {s t u : Store F} → OnlyBuckets s t → OnlyBuckets t u → OnlyBuckets s u
  OnlyBuckets-trans h k = record {
    markers = k.markers ∙ h.markers;
    tombstones = k.tombstones ∙ h.tombstones;
    key_prefix = k.key_prefix ∙ h.key_prefix;
    model_family = k.model_family ∙ h.model_family;
    specs = k.specs ∙ h.specs;
    dedup = k.dedup ∙ h.dedup;
  }

  pub only_order : IsPreorder OnlyBuckets
  only_order = record { same = OnlyBuckets-same; trans = OnlyBuckets-trans }

  only_update :
      (id : BucketId) (f : BucketRow F → BucketRow F) (s : Store F)
      → KeepsKey f
      → OnlyBuckets s (update_bucket id f s)
  unfolding update_bucket
  only_update id f s k = record {
    markers = refl;
    tombstones = refl;
    key_prefix = refl;
    model_family = refl;
    specs = refl;
    dedup = refl;
  }

  only_delete : (id : BucketId) (s : Store F) → OnlyBuckets s (delete_bucket id s)
  unfolding delete_bucket
  only_delete id s = record {
    markers = refl;
    tombstones = refl;
    key_prefix = refl;
    model_family = refl;
    specs = refl;
    dedup = refl;
  }

  only_note : (id : BucketId) (at : F) (s : Store F) → OnlyBuckets s (confirm id at s)
  unfolding confirm
  only_note id at s = record {
    markers = refl;
    tombstones = refl;
    key_prefix = refl;
    model_family = refl;
    specs = refl;
    dedup = refl;
  }

  pub only_buckets : (id : BucketId) → IsRowFrame OnlyBuckets id
  only_buckets id = record {
    order = only_order;
    update = only_update id;
    delete = only_delete id;
    add = λ r s p f i. record {
      markers = refl;
      tombstones = refl;
      key_prefix = refl;
      model_family = refl;
      specs = refl;
      dedup = refl;
    };
    note = only_note id;
  }
