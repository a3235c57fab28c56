-- ===== src/Sqlite/Markers/Refunded.antt =====
-- The tombstone of a refunded reservation, and that a new reservation has none.
use token_throttle.Base.{
  ℕ, Bool, true, false, ◌≡◌, refl, Option, none, some, List, arith, Bool-cases, Option-cases, inl,
  inr, nat_eq,
}
use token_throttle.Float.{Float, IsIeee}
use token_throttle.Exceptions.{ok, err, duplicate_refund, duplicate_acquire, already_refunded}
use token_throttle.Action.{Action, ◌>>=◌, lift, gets}
use token_throttle.Action.Rules.{>>=-Returns}
use token_throttle.Validation.{BucketId, Usage}
use token_throttle.Sqlite.Tables.{MarkerRow, TombstoneRow, select, is_tombstone}
use token_throttle.Sqlite.Tables.Laws.{
  select-append_self, select-delete_limited, select-delete_self,
}
use token_throttle.Sqlite.Engine.{
  SqliteEngine, Store, select_marker, select_tombstone, add_tombstone, prune, delete_tombstone,
}
use token_throttle.Sqlite.Markers.{
  live_marker, take_marker, is_refunded, take_tombstone, raise_if_duplicate_acquire, verify_marker,
  classify_acquire,
}

module _ {F : Type 0} ⦃fl : Float F⦄ where
  open fl use {lt, le}

  -- Without a tombstone, none is found.
  taken_none :
      (now : F) (rid : ℕ) (t : Option (TombstoneRow F)) (s u : Store F)
      → select_tombstone rid s ≡ t
      → take_tombstone now rid t s ≡ (ok false, u)
      → select_tombstone rid u ≡ none
  unfolding take_tombstone delete_tombstone
  taken_none now rid none s u e = λ h. ground (arith, e, h)
  taken_none now rid (some t) s u e = elim (Bool-cases (le t.expires_at now)) [
    | inr f ↦ rw f (λ h. absurd (ground (arith, h)))
    | inl f ↦
        let gone =
          select-delete_self (is_tombstone s.engine.key_prefix rid) s.db.refund_tombstones in
        rw f (λ h. ground (arith, gone, h))
  ]

  not_refunded :
      (now : F) (rid : ℕ) (s u : Store F)
      → is_refunded now rid s ≡ (ok false, u)
      → select_tombstone rid u ≡ none
  unfolding is_refunded
  not_refunded now rid s u h = taken_none now rid (select_tombstone rid s) s u refl h

  -- What tells a new reservation: its id is not that of a refunded one.
  classify_new :
      (e : SqliteEngine F) (rid : ℕ) (usage : Usage F) (m : Option (MarkerRow F)) (refunded : Bool)
      → classify_acquire e rid usage m refunded ≡ ok false
      → refunded ≡ false
  unfolding classify_acquire
  classify_new e rid usage none true h = absurd (ground (arith, h))
  classify_new e rid usage none false h = refl
  classify_new e rid usage (some m) refunded h = absurd (ground (arith, h))

  -- The steps of `raise_if_duplicate_acquire` after its first, and after its second.
  abbrev classified : ℕ → Usage F → Option (MarkerRow F) → Bool → Action (Store F) Bool
  classified rid usage m refunded = do
    e ← gets (λ s. s.engine)
    lift (classify_acquire e rid usage m refunded)

  abbrev looked_up : F → ℕ → Usage F → Option (MarkerRow F) → Action (Store F) Bool
  looked_up now rid usage m = do refunded ← is_refunded now rid; classified rid usage m refunded

  pub acquire_new_lem :
      (now : F) (rid : ℕ) (usage : Usage F) (s u : Store F)
      → raise_if_duplicate_acquire (some rid) now usage s ≡ (ok false, u)
      → select_tombstone rid u ≡ none
  unfolding raise_if_duplicate_acquire
  acquire_new_lem now rid usage s u h =
      let a = >>=-Returns (live_marker now rid) (looked_up now rid usage) s false u h in
      let b =
        >>=-Returns (is_refunded now rid) (classified rid usage a.value) a.middle false u
          a.second in
      let last : classify_acquire b.middle.engine rid usage a.value b.value ≡ ok false =
        ground (arith, b.second) in
      let here : b.middle ≡ u = ground (arith, b.second) in
      let fresh = classify_new b.middle.engine rid usage a.value b.value last in
      rw (← here) (not_refunded now rid a.middle b.middle (ground (arith, b.first, fresh)))

  -- What is true of the store after a tombstone has been written.
  pub add_tombstone_lem :
      (t : TombstoneRow F) (s u : Store F)
      → add_tombstone t s ≡ (ok tt, u)
      → (u.engine ≡ s.engine)
        × (select (is_tombstone t.key_prefix t.reservation_id) u.db.refund_tombstones ≡ some t)
        × (u.db.acquire_markers ≡ s.db.acquire_markers)
  unfolding add_tombstone
  add_tombstone_lem t s u h =
      let p = is_tombstone t.key_prefix t.reservation_id in
      elim (Option-cases (select p s.db.refund_tombstones)) [
        | inr (old, e) ↦ absurd (ground (arith, e, h))
        | inl e ↦
            let found = select-append_self p t s.db.refund_tombstones e (ground arith) in
            ground (arith, e, h, found)
      ]

module _ {F : Type 0} ⦃fl : Float F⦄ (laws : IsIeee fl) (rid : ℕ) (later : F) (s : Store F)
    (t : TombstoneRow F) (there : select_tombstone rid s ≡ some t)
    (live : fl.lt later t.expires_at ≡ true) where
  open fl use {lt, le}

  not_expired : le t.expires_at later ≡ false
  not_expired = elim (Bool-cases (le t.expires_at later)) [
    | inl e ↦ ground (arith, laws.le_not_lt t.expires_at later e, live)
    | inr e ↦ e
  ]

  -- A live tombstone is found, by every refund and every acquisition under its id.
  pub prune-tombstone : select_tombstone rid (prune later s) ≡ some t
  unfolding prune
  prune-tombstone =
      select-delete_limited (λ t. le t.expires_at later) (is_tombstone s.engine.key_prefix rid)
        s.engine.prune_batch_size s.db.refund_tombstones t there not_expired

  is_refunded_lem : is_refunded later rid s ≡ (ok true, s)
  unfolding is_refunded take_tombstone
  is_refunded_lem = rw (there, not_expired) refl

  pub verify-refunded :
      (family : ℕ) (ids : List BucketId) (reserved : Usage F)
      → (verify_marker rid family ids reserved later s).0
        ≡ err (duplicate_refund already_refunded rid)
  unfolding verify_marker
  verify-refunded family ids reserved = ground (arith, is_refunded_lem)

  pub acquire-refunded :
      (usage : Usage F)
      → select_marker rid s ≡ none
      → (raise_if_duplicate_acquire (some rid) later usage s).0
        ≡ err (duplicate_refund duplicate_acquire rid)
  unfolding raise_if_duplicate_acquire live_marker take_marker classify_acquire
  acquire-refunded usage gone = ground (arith, gone, is_refunded_lem)
