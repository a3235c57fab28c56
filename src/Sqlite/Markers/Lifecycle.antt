-- ===== src/Sqlite/Markers/Lifecycle.antt =====
-- From the acquisition of a reservation to its refund: what the rows that remember it say.
use token_throttle.Base.{
  ℕ, Bool, true, false, ◌≡◌, refl, Option, none, some, List, [], ◌∷◌, arith, Bool-cases,
  Option-cases, inl, inr, nat_eq, pair_eq,
}
use token_throttle.Float.{Float, IsIeee}
use token_throttle.Exceptions.{ok, err, duplicate_refund, duplicate_acquire, Result-cases}
use token_throttle.Validation.{BucketId, Usage}
use token_throttle.Sqlite.Tables.{MarkerRow, TombstoneRow, select, is_marker}
use token_throttle.Sqlite.Tables.Laws.{select-append_self, select-delete_limited}
use token_throttle.Sqlite.Engine.{
  Store, select_marker, select_tombstone, add_marker, prune, delete_tombstone, bucket_ids_of,
}
use token_throttle.Sqlite.Markers.{
  same_ids, same_items, live_marker, take_marker, is_refunded, take_tombstone,
  raise_if_duplicate_acquire, insert_marker, check_lifetime, new_marker, verify_marker,
  bucket_ids_json, usage_json, classify_acquire, classify_refund,
}

same_ids_refl : (ids : List BucketId) → same_ids ids ids ≡ true
same_ids_refl [] = refl
same_ids_refl (a ∷ ids) = ground (arith, same_ids_refl ids)

module _ {F : Type 0} ⦃fl : Float F⦄ where
  open fl use {add, lt, le, same_text}

  -- The marker of a reservation that was made at the time given.
  abbrev pub HasMarker : ℕ → Usage F → F → F → Store F → Type 0
  HasMarker rid usage now lifetime s =
      select_marker rid s ≡ some (new_marker s.engine rid usage now lifetime)

  added :
      (m : MarkerRow F) (s t : Store F)
      → add_marker m s ≡ (ok tt, t)
      → (t.engine ≡ s.engine)
        × (select (is_marker m.key_prefix m.reservation_id) t.db.acquire_markers ≡ some m)
        × (t.db.refund_tombstones ≡ s.db.refund_tombstones)
  unfolding add_marker
  added m s t h =
      elim (Option-cases (select (is_marker m.key_prefix m.reservation_id) s.db.acquire_markers)) [
        | inr (old, e) ↦ absurd (ground (arith, e, h))
        | inl e ↦
            let found =
              select-append_self (is_marker m.key_prefix m.reservation_id) m s.db.acquire_markers e
                (ground arith) in
            ground (arith, e, h, found)
      ]

  -- What is true of the store after a marker has been written.
  pub insert_marker_lem :
      (rid : ℕ) (usage : Usage F) (limit : Option F) (now : F) (s t : Store F)
      → insert_marker (some rid) usage limit now s ≡ (ok tt, t)
      → (lifetime : F) × (limit ≡ some lifetime)
        × HasMarker rid usage now lifetime t
        × (t.engine ≡ s.engine)
        × (t.db.refund_tombstones ≡ s.db.refund_tombstones)
  unfolding insert_marker check_lifetime
  insert_marker_lem rid usage none now s t h = absurd (ground (arith, h))
  insert_marker_lem rid usage (some x) now s t h =
      elim (Result-cases (check_lifetime s.engine (some x))) [
        | inr (e, bad) ↦ absurd (ground (arith, bad, h))
        | inl (y, good) ↦
            let same : y ≡ x = ground (arith, good) in
            let r = added (new_marker s.engine rid usage now x) s t (ground (arith, good, h)) in
            (x, refl, rw r.0 r.1, r.0, r.2)
      ]

module _ {F : Type 0} ⦃fl : Float F⦄ (laws : IsIeee fl) where
  open fl use {add, lt, le, same_text}

  same_items_refl : (u : Usage F) → same_items u u ≡ true
  same_items_refl [] = refl
  same_items_refl ((m, x) ∷ u) = ground (arith, laws.same_text_refl x, same_items_refl u)

  -- Before its expiry a marker is found by a later operation, also once the tables have been pruned.
  module _ (rid : ℕ) (usage : Usage F) (now lifetime later : F) (s : Store F)
      (h : HasMarker rid usage now lifetime s) (live : lt later (add now lifetime) ≡ true) where
    not_expired : le (add now lifetime) later ≡ false
    not_expired = elim (Bool-cases (le (add now lifetime) later)) [
      | inl e ↦ ground (arith, laws.le_not_lt (add now lifetime) later e, live)
      | inr e ↦ e
    ]

    pub prune-HasMarker : HasMarker rid usage now lifetime (prune later s)
    unfolding prune
    prune-HasMarker =
        select-delete_limited (λ m. le m.expires_at later) (is_marker s.engine.key_prefix rid)
          s.engine.prune_batch_size s.db.acquire_markers _ h not_expired

    live_marker_lem :
        live_marker later rid s ≡ (ok (some (new_marker s.engine rid usage now lifetime)), s)
    unfolding live_marker take_marker
    live_marker_lem = rw (h, not_expired) refl

    -- Looking for a tombstone returns, and leaves the engine as it is.
    refunded_or_not :
        (t : Option (TombstoneRow F)) (u : Store F)
        → (b : Bool) × (v : Store F) × (take_tombstone later rid t u ≡ (ok b, v))
          × (v.engine ≡ u.engine)
    unfolding take_tombstone delete_tombstone
    refunded_or_not none u = (false, u, refl, refl)
    refunded_or_not (some t) u = elim (Bool-cases (le t.expires_at later)) [
      | inl e ↦ (false, delete_tombstone rid u, rw e refl, refl)
      | inr e ↦ (true, u, rw e refl, refl)
    ]

    -- The same call again is a replay.
    pub replay_lem : (raise_if_duplicate_acquire (some rid) later usage s).0 ≡ ok true
    unfolding raise_if_duplicate_acquire is_refunded classify_acquire
    replay_lem =
        let (b, v, e, same) = refunded_or_not (select_tombstone rid s) s in
        ground (
          arith,
          live_marker_lem,
          e,
          same,
          same_ids_refl (bucket_ids_json (bucket_ids_of s.engine)),
          same_items_refl (usage_json usage),
        )

    -- Another call under the same id is refused.
    pub differs_lem :
        (other : Usage F)
        → same_items (usage_json usage) (usage_json other) ≡ false
        → (raise_if_duplicate_acquire (some rid) later other s).0
          ≡ err (duplicate_refund duplicate_acquire rid)
    unfolding raise_if_duplicate_acquire is_refunded classify_acquire
    differs_lem other differ =
        let (b, v, e, same) = refunded_or_not (select_tombstone rid s) s in
        ground (arith, live_marker_lem, e, same, differ)

    -- A refund of the reservation is accepted.
    pub verify_lem :
        select_tombstone rid s ≡ none
        → (verify_marker rid s.engine.model_family (bucket_ids_of s.engine) usage later s).0 ≡ ok tt
    unfolding verify_marker is_refunded take_tombstone classify_refund
    verify_lem clear = ground (
      arith,
      live_marker_lem,
      clear,
      same_ids_refl (bucket_ids_json (bucket_ids_of s.engine)),
      same_items_refl (usage_json usage),
    )
