-- ===== src/Sqlite/Markers/Unchanged.antt =====
-- Looking a reservation up changes nothing of the engine.
use token_throttle.Base.{ℕ, ◌≡◌, ◌∙◌, refl, arith, Option-cases, inl, inr, Option, none, some}
use token_throttle.Float.{Float}
use token_throttle.Exceptions.{ok, Result-cases}
use token_throttle.Action.Rules.{
  Keeps, IsPreorder, >>=-Keeps, lift-Keeps, pure-Keeps, gets-Keeps, modify-Keeps, if-Keeps,
}
use token_throttle.Validation.{Usage}
use token_throttle.Sqlite.Tables.{MarkerRow, TombstoneRow, select, is_marker}
use token_throttle.Sqlite.Engine.{Store, delete_marker, delete_tombstone, add_marker}
use token_throttle.Sqlite.Markers.{
  take_marker, live_marker, take_tombstone, is_refunded, raise_if_duplicate_acquire, insert_marker,
  check_lifetime,
}

module _ {F : Type 0} where
  pub record SameEngine (s t : Store F) : Type 0 where
    pub same : t.engine ≡ s.engine

  order : IsPreorder SameEngine
  order = record {
    same = λ s. record { same = refl };
    trans = λ h k. record { same = k.same ∙ h.same };
  }

  delete_marker-same : (rid : ℕ) (s : Store F) → SameEngine s (delete_marker rid s)
  unfolding delete_marker
  delete_marker-same rid s = record { same = refl }

  delete_tombstone-same : (rid : ℕ) (s : Store F) → SameEngine s (delete_tombstone rid s)
  unfolding delete_tombstone
  delete_tombstone-same rid s = record { same = refl }

module _ {F : Type 0} ⦃fl : Float F⦄ (now : F) where
  ruleset rules = (>>=-Keeps, lift-Keeps, pure-Keeps, gets-Keeps, if-Keeps, modify-Keeps, order)

  take_marker-same : (rid : ℕ) (m : Option (MarkerRow F)) → Keeps SameEngine (take_marker now rid m)
  unfolding take_marker
  take_marker-same rid none = search rules
  take_marker-same rid (some m) = search (rules, delete_marker-same)

  live_marker-same : (rid : ℕ) → Keeps SameEngine (live_marker now rid)
  unfolding live_marker
  live_marker-same rid = search (rules, take_marker-same)

  take_tombstone-same :
      (rid : ℕ) (t : Option (TombstoneRow F)) → Keeps SameEngine (take_tombstone now rid t)
  unfolding take_tombstone
  take_tombstone-same rid none = search rules
  take_tombstone-same rid (some t) = search (rules, delete_tombstone-same)

  is_refunded-same : (rid : ℕ) → Keeps SameEngine (is_refunded now rid)
  unfolding is_refunded
  is_refunded-same rid = search (rules, take_tombstone-same)

  pub raise_if_duplicate_acquire-same :
      (rid : Option ℕ) (usage : Usage F)
      → Keeps SameEngine (raise_if_duplicate_acquire rid now usage)
  unfolding raise_if_duplicate_acquire
  raise_if_duplicate_acquire-same none usage = search rules
  raise_if_duplicate_acquire-same (some rid) usage =
      search (rules, live_marker-same, is_refunded-same)

  -- Writing a marker changes no bucket.
  pub insert_marker_rows :
      (rid : Option ℕ) (usage : Usage F) (limit : Option F) (s t : Store F)
      → insert_marker rid usage limit now s ≡ (ok tt, t)
      → (t.db.buckets ≡ s.db.buckets) × (t.engine ≡ s.engine)
  unfolding insert_marker add_marker
  insert_marker_rows none usage limit s t h = ground (arith, h)
  insert_marker_rows (some rid) usage limit s t h =
      elim (Result-cases (check_lifetime s.engine limit)) [
        | inr (e, bad) ↦ absurd (ground (arith, bad, h))
        | inl (x, good) ↦
            let p = is_marker s.engine.key_prefix rid in
            elim (Option-cases (select p s.db.acquire_markers)) [
              | inr (old, e) ↦ absurd (ground (arith, good, e, h))
              | inl e ↦ ground (arith, good, e, h)
            ]
      ]
