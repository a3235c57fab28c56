-- ===== src/Sqlite/Operations/Remembered.antt =====
-- What a call that took capacity leaves for later calls under the same reservation id.
use token_throttle.Base.{
  ℕ, Bool, true, false, ◌≡◌, refl, none, some, List, arith, Bool-cases, inl, inr,
}
use token_throttle.Float.{Float, IsIeee}
use token_throttle.Exceptions.{ok, err, duplicate_refund, duplicate_acquire}
use token_throttle.Action.{Action, ◌>>◌, pure, branch}
use token_throttle.Action.Rules.{>>=-Returns}
use token_throttle.Validation.{Usage}
use token_throttle.Memory.State.{Capacities}
use token_throttle.Sqlite.Tables.{is_tombstone}
use token_throttle.Sqlite.Tables.Laws.{select-delete_limited-none}
use token_throttle.Sqlite.Engine.{Store, Turn, prune, commit, select_tombstone, bucket_ids_of}
use token_throttle.Sqlite.Engine.Committed.{transaction_ok}
use token_throttle.Sqlite.Frame.{OnlyBuckets, only_buckets, only_order}
use token_throttle.Sqlite.Load.{BucketState, load_states}
use token_throttle.Sqlite.Load.Frame.{load_states-Keeps}
use token_throttle.Sqlite.Write.{write_all}
use token_throttle.Sqlite.Write.Frame.{write_all-Keeps}
use token_throttle.Sqlite.Markers.{
  raise_if_duplicate_acquire, insert_marker, verify_marker, same_items, usage_json,
}
use token_throttle.Sqlite.Markers.Lifecycle.{
  HasMarker, insert_marker_lem, prune-HasMarker, replay_lem, differs_lem, verify_lem,
}
use token_throttle.Sqlite.Markers.Refunded.{acquire_new_lem}
use token_throttle.Sqlite.Operations.{
  CapacityResult, capacities_of, exceeds_some_state, is_available, taken_off, unchanged,
  record_consumption, try_consume_new, try_consume_classified, try_consume_at, try_consume,
}

module _ {F : Type 0} ⦃fl : Float F⦄ where
  open fl use {add, lt}

  -- Writing what is left touches no tombstone.
  write_keeps :
      (now : F) (post : Capacities F) (rid : ℕ) (s u : Store F)
      → write_all now post s ≡ (ok tt, u)
      → select_tombstone rid s ≡ none
      → select_tombstone rid u ≡ none
  write_keeps now post rid s u h clear =
      let k = (write_all-Keeps only_order now only_buckets post).after s in
      let here : (write_all now post s).1 ≡ u = ground (arith, h) in
      let kept : OnlyBuckets s u = rw (← here) k in rw (kept.tombstones, kept.key_prefix) clear

  load_keeps :
      (now : F) (rid : ℕ) (states : List (BucketState F)) (s u : Store F)
      → load_states now true s ≡ (ok states, u)
      → select_tombstone rid s ≡ none
      → select_tombstone rid u ≡ none
  load_keeps now rid states s u h clear =
      let k = (load_states-Keeps only_buckets only_order now true).after s in
      let here : (load_states now true s).1 ≡ u = ground (arith, h) in
      let kept : OnlyBuckets s u = rw (← here) k in rw (kept.tombstones, kept.key_prefix) clear

  module _ (usage : Usage F) (rid : ℕ) (x now : F) where
    -- The store after a reservation has been recorded.
    abbrev IsRecorded : Store F → Type 0
    IsRecorded u = HasMarker rid usage now x u × (select_tombstone rid u ≡ none)

    abbrev marked : List (BucketState F) → Capacities F → Action (Store F) (CapacityResult F)
    marked states post = do
      insert_marker (some rid) usage (some x) now
      pure (unchanged true now states post false)

    marked_lem :
        (states : List (BucketState F)) (post : Capacities F) (r : CapacityResult F) (s u : Store F)
        → marked states post s ≡ (ok r, u)
        → select_tombstone rid s ≡ none
        → IsRecorded u
    marked_lem states post r s u h clear =
        let b =
          >>=-Returns (insert_marker (some rid) usage (some x) now)
            (λ _. pure (unchanged true now states post false)) s r u h in
        let here : b.middle ≡ u = ground (arith, b.second) in
        let (y, given, m, engine, tombs) =
          insert_marker_lem rid usage (some x) now s b.middle (ground (arith, b.first)) in
        let same : y ≡ x = ground (arith, given) in
        rw (← here) (rw same at m, rw (tombs, engine) clear)

    record_consumption_lem :
        (states : List (BucketState F)) (post : Capacities F) (r : CapacityResult F) (s u : Store F)
        → record_consumption usage (some rid) (some x) now states post s ≡ (ok r, u)
        → select_tombstone rid s ≡ none
        → IsRecorded u
    unfolding record_consumption
    record_consumption_lem states post r s u h clear =
        let a = >>=-Returns (write_all now post) (λ _. marked states post) s r u h in
        marked_lem states post r a.middle u a.second
          (write_keeps now post rid s a.middle (ground (arith, a.first)) clear)

    -- What a call that took capacity has left: the branches that take nothing return something else.
    taken_lem :
        (states : List (BucketState F)) (replayed : Bool) (r : CapacityResult F) (s u : Store F)
        → branch replayed
            (pure (unchanged true now states (capacities_of states) true))
            (try_consume_new usage (some rid) (some x) now states)
            s
          ≡ (ok r, u)
        → r.available ≡ true
        → r.replayed ≡ false
        → (replayed ≡ false) × (select_tombstone rid s ≡ none → IsRecorded u)
    unfolding try_consume_new
    taken_lem states true r s u h avail new = absurd (ground (arith, h, new))
    taken_lem states false r s u h avail new = elim (Bool-cases (exceeds_some_state usage states)) [
      | inl e ↦ absurd (ground (arith, e, h))
      | inr e ↦ elim (Bool-cases (is_available usage states)) [
        | inr n ↦ absurd (ground (arith, e, n, h, avail))
        | inl n ↦ (
          refl,
          record_consumption_lem states (taken_off usage states) r s u (ground (arith, e, n, h)),
        )
      ]
    ]

    try_consume_classified_lem :
        (replayed : Bool) (r : CapacityResult F) (s u : Store F)
        → try_consume_classified usage (some rid) (some x) now replayed s ≡ (ok r, u)
        → r.available ≡ true
        → r.replayed ≡ false
        → (replayed ≡ false) × (select_tombstone rid s ≡ none → IsRecorded u)
    unfolding try_consume_classified
    try_consume_classified_lem replayed r s u h avail new =
        let c =
          >>=-Returns (load_states now true)
            (λ states.
              branch replayed (pure (unchanged true now states (capacities_of states) true))
                (try_consume_new usage (some rid) (some x) now states))
            s r u h in
        let d = taken_lem c.value replayed r c.middle u c.second avail new in
        (d.0, λ clear. d.1 (load_keeps now rid c.value s c.middle (ground (arith, c.first)) clear))

    try_consume_at_lem :
        (r : CapacityResult F) (s u : Store F)
        → try_consume_at usage (some rid) (some x) now s ≡ (ok r, u)
        → r.available ≡ true
        → r.replayed ≡ false
        → IsRecorded u
    unfolding try_consume_at
    try_consume_at_lem r s u h avail new =
        let f = try_consume_classified usage (some rid) (some x) now in
        let b =
          >>=-Returns (raise_if_duplicate_acquire (some rid) now usage) f (prune now s) r u h in
        let d = try_consume_classified_lem b.value r b.middle u b.second avail new in
        d.1 (acquire_new_lem now rid usage (prune now s) b.middle (ground (arith, b.first, d.0)))

module _ {F : Type 0} ⦃fl : Float F⦄ (laws : IsIeee fl) where
  open fl use {add, lt}

  -- A call of try_consume that took capacity under a reservation id is remembered until the lifetime
  -- of the reservation ends, also once a later operation has pruned the tables: the same usage under
  -- the same id counts as a replay, another usage is refused as a duplicate, and a refund that names
  -- the reservation as it was made is accepted.
  pub try_consume_remembered :
      (turn : Turn F) (usage other : Usage F) (rid : ℕ) (lifetime later : F) (r : CapacityResult F)
      (s t : Store F)
      → try_consume turn usage (some rid) (some lifetime) s ≡ (ok r, t)
      → r.available ≡ true
      → r.replayed ≡ false
      → lt later (add turn.now lifetime) ≡ true
      → same_items (usage_json usage) (usage_json other) ≡ false
      → ((raise_if_duplicate_acquire (some rid) later usage (prune later t)).0 ≡ ok true)
        × ((raise_if_duplicate_acquire (some rid) later other (prune later t)).0
            ≡ err (duplicate_refund duplicate_acquire rid))
        × ((verify_marker rid t.engine.model_family
              (bucket_ids_of t.engine)
              usage
              later
              (prune later t)).0
            ≡ ok tt)
  unfolding try_consume commit prune
  try_consume_remembered turn usage other rid lifetime later r s t h avail new live differ =
      let (u, body, committed) =
        transaction_ok turn (λ now. try_consume_at usage (some rid) (some lifetime) now) s r t h in
      let (m, clear) = try_consume_at_lem usage rid lifetime turn.now r s u body avail new in
      let marked : HasMarker rid usage turn.now lifetime t = rw (← committed) m in
      let kept : HasMarker rid usage turn.now lifetime (prune later t) =
        prune-HasMarker laws rid usage turn.now lifetime later t marked live in
      let untombed : select_tombstone rid (prune later t) ≡ none = rw (← committed) (
        select-delete_limited-none (λ t. fl.le t.expires_at later)
          (is_tombstone u.engine.key_prefix rid) u.engine.prune_batch_size u.db.refund_tombstones
          clear) in
      (
        replay_lem laws rid usage turn.now lifetime later (prune later t) kept live,
        differs_lem laws rid usage turn.now lifetime later (prune later t) kept live other differ,
        verify_lem laws rid usage turn.now lifetime later (prune later t) kept live untombed,
      )
