-- ===== src/Sqlite/Markers/Isolation.antt =====
-- The markers and tombstones of other engines' prefixes stay as they are.
use token_throttle.Base.{
  ℕ, ◌≡◌, refl, Option, none, some, List, [], ◌∷◌, ◌++◌, is_none, arith, Bool-cases, inl, inr,
  nat_eq,
}
use token_throttle.Float.{Float}
use token_throttle.Exceptions.{Result-cases}
use token_throttle.Action.{Action}
use token_throttle.Action.Rules.{
  Keeps, >>=-Keeps, lift-Keeps, pure-Keeps, gets-Keeps, raise_when-Keeps, modify-Keeps, if-Keeps,
}
use token_throttle.Validation.{BucketId, Usage}
use token_throttle.Sqlite.Tables.{MarkerRow, TombstoneRow, select, is_marker, is_tombstone}
use token_throttle.Sqlite.Tables.Laws.{filter-append}
use token_throttle.Sqlite.Engine.{Store, add_marker, add_tombstone}
use token_throttle.Sqlite.Isolation.{
  LeavesOthers, others, delete_marker-others, delete_tombstone-others, is_foreign_marker,
  is_foreign_tombstone,
}
use token_throttle.Sqlite.Markers.{
  take_marker, live_marker, take_tombstone, is_refunded, raise_if_duplicate_acquire, insert_marker,
  verify_marker, check_lifetime, new_marker,
}

module _ {F : Type 0} ⦃fl : Float F⦄ (at now : F) where
  open fl use {le}

  abbrev Leaves : {A : Type 0} → Action (Store F) A → Type 0
  Leaves m = Keeps (LeavesOthers at) m

  ruleset rules = (
    >>=-Keeps, lift-Keeps, pure-Keeps, gets-Keeps, raise_when-Keeps, if-Keeps, modify-Keeps, others,
  )

  take_marker-others : (rid : ℕ) (m : Option (MarkerRow F)) → Leaves (take_marker now rid m)
  unfolding take_marker
  take_marker-others rid none = search rules
  take_marker-others rid (some m) = search (rules, delete_marker-others)

  pub live_marker-others : (rid : ℕ) → Leaves (live_marker now rid)
  unfolding live_marker
  live_marker-others rid = search (rules, take_marker-others)

  take_tombstone-others :
      (rid : ℕ) (t : Option (TombstoneRow F)) → Leaves (take_tombstone now rid t)
  unfolding take_tombstone
  take_tombstone-others rid none = search rules
  take_tombstone-others rid (some t) = search (rules, delete_tombstone-others)

  pub is_refunded-others : (rid : ℕ) → Leaves (is_refunded now rid)
  unfolding is_refunded
  is_refunded-others rid = search (rules, take_tombstone-others)

  pub raise_if_duplicate_acquire-others :
      (rid : Option ℕ) (usage : Usage F) → Leaves (raise_if_duplicate_acquire rid now usage)
  unfolding raise_if_duplicate_acquire
  raise_if_duplicate_acquire-others none usage = search rules
  raise_if_duplicate_acquire-others (some rid) usage =
      search (rules, live_marker-others, is_refunded-others)

  pub verify_marker-others :
      (rid family : ℕ) (ids : List BucketId) (reserved : Usage F)
      → Leaves (verify_marker rid family ids reserved now)
  unfolding verify_marker
  verify_marker-others rid family ids reserved =
      search (rules, live_marker-others, is_refunded-others)

  append_marker-others :
      (m : MarkerRow F) (s : Store F)
      → m.key_prefix ≡ s.engine.key_prefix
      → LeavesOthers at s
          (record s { db = record s.db { acquire_markers = s.db.acquire_markers ++ m ∷ [] } })
  append_marker-others m s p = record {
    key_prefix = refl;
    model_family = refl;
    buckets = refl;
    markers = filter-append (is_foreign_marker at s.engine) m s.db.acquire_markers (ground arith);
    tombstones = refl;
  }

  add_marker-others :
      (m : MarkerRow F) (s : Store F)
      → m.key_prefix ≡ s.engine.key_prefix
      → LeavesOthers at s (add_marker m s).1
  unfolding add_marker
  add_marker-others m s p =
      let old = select (is_marker m.key_prefix m.reservation_id) s.db.acquire_markers in
      elim (Bool-cases (is_none old)) [
        | inl e ↦ rw e (append_marker-others m s p)
        | inr e ↦ rw e ((others at).same s)
      ]

  append_tombstone-others :
      (t : TombstoneRow F) (s : Store F)
      → t.key_prefix ≡ s.engine.key_prefix
      → LeavesOthers at s
          (record s { db = record s.db { refund_tombstones = s.db.refund_tombstones ++ t ∷ [] } })
  append_tombstone-others t s p = record {
    key_prefix = refl;
    model_family = refl;
    buckets = refl;
    markers = refl;
    tombstones =
        filter-append (is_foreign_tombstone at s.engine) t s.db.refund_tombstones (ground arith);
  }

  pub add_tombstone-others :
      (t : TombstoneRow F) (s : Store F)
      → t.key_prefix ≡ s.engine.key_prefix
      → LeavesOthers at s (add_tombstone t s).1
  unfolding add_tombstone
  add_tombstone-others t s p =
      let old = select (is_tombstone t.key_prefix t.reservation_id) s.db.refund_tombstones in
      elim (Bool-cases (is_none old)) [
        | inl e ↦ rw e (append_tombstone-others t s p)
        | inr e ↦ rw e ((others at).same s)
      ]

  insert_named-others :
      (rid : ℕ) (usage : Usage F) (lifetime : Option F) (s : Store F)
      → LeavesOthers at s (insert_marker (some rid) usage lifetime now s).1
  unfolding insert_marker
  insert_named-others rid usage lifetime s =
      elim (Result-cases (check_lifetime s.engine lifetime)) [
        | inl (x, e) ↦ rw e (add_marker-others (new_marker s.engine rid usage now x) s refl)
        | inr (x, e) ↦ rw e ((others at).same s)
      ]

  pub insert_marker-others :
      (rid : Option ℕ) (usage : Usage F) (lifetime : Option F)
      → Leaves (insert_marker rid usage lifetime now)
  unfolding insert_marker
  insert_marker-others none usage lifetime = search rules
  insert_marker-others (some rid) usage lifetime = record {
    after = insert_named-others rid usage lifetime;
  }
