-- ===== src/Sqlite/Run/Failure.antt =====
-- A failed operation has written nothing.
use token_throttle.Base.{ℕ, false, ◌≡◌, refl, Option, List, arith, Bool-cases, inl, inr}
use token_throttle.Base.Dict.{Dict}
use token_throttle.Float.{Float}
use token_throttle.Exceptions.{Result, ok, err, is_ok, value_error, bucket_not_found}
use token_throttle.Action.{Action, ◌>>=◌, ◌>>◌, lift, gets, modify}
use token_throttle.Capacity.{PyValue, or_raise, validate_max_capacity_finite_positive}
use token_throttle.Validation.{BucketId, Usage, is_empty}
use token_throttle.Sqlite.Engine.{
  Store, Turn, transaction, end_transaction, clear_pending, BucketSpec, spec_of, bucket_ids_of,
}
use token_throttle.Sqlite.Initialize.{initialize_buckets, initialize_at}
use token_throttle.Sqlite.Operations.{try_consume, try_consume_at, consume, consume_at}
use token_throttle.Sqlite.Refunds.{
  Reservation, refund, refund_at, refund_usage_of, cleanup_consumption, cleanup_at,
}
use token_throttle.Sqlite.Overrides.{
  set_max_capacity, apply_configured_max_capacity, clear_max_capacity_overrides, common,
  set_max_capacity_at, apply_configured_at, configure, clear_overrides_at,
}
use token_throttle.Sqlite.Run.{
  Operation, initialize, try_consuming, consuming, refunding, cleaning_up, setting, configuring,
  clearing, ended, run,
}

module _ {F : Type 0} ⦃fl : Float F⦄ where
  -- A failed call leaves the file and the engine as they were, notes not yet confirmed dropped.
  pub record Fails {A : Type 0} (m : Action (Store F) A) : Type 0 where
    pub undone : (s : Store F) → is_ok (m s).0 ≡ false → clear_pending (m s).1 ≡ clear_pending s

  end_transaction-Fails :
      {A : Type 0} (turn : Turn F) (s : Store F) (p : Result A × Store F)
      → is_ok (end_transaction turn s p).0 ≡ false
      → clear_pending (end_transaction turn s p).1 ≡ clear_pending s
  unfolding end_transaction
  end_transaction-Fails turn s (err x, t) = λ h. refl
  end_transaction-Fails turn s (ok a, t) = elim (Bool-cases turn.commit_busy) [
    | inl c ↦ rw c (λ h. refl)
    | inr c ↦ rw c (λ h. absurd (ground (arith, h)))
  ]

  transacted :
      {A : Type 0} (turn : Turn F) (body : F → Action (Store F) A) (s : Store F)
      → is_ok (transaction turn body s).0 ≡ false
      → clear_pending (transaction turn body s).1 ≡ clear_pending s
  unfolding transaction
  transacted turn body s = elim (Bool-cases turn.times_out) [
    | inl c ↦ rw c (λ h. refl)
    | inr c ↦ elim (Bool-cases turn.is_busy) [
      | inl d ↦ rw (c, d) (λ h. refl)
      | inr d ↦ rw (c, d) (end_transaction-Fails turn s (body turn.now s))
    ]
  ]

  transaction-Fails :
      {A : Type 0} (turn : Turn F) (body : F → Action (Store F) A) → Fails (transaction turn body)
  transaction-Fails turn body = record { undone = transacted turn body }

  -- Steps that read only, before one that leaves a failure without a trace.
  lifted :
      {A B : Type 0} (r : Result A) (f : A → Action (Store F) B) (s : Store F)
      → ((a : A) → Fails (f a))
      → is_ok ((lift r >>= f) s).0 ≡ false
      → clear_pending ((lift r >>= f) s).1 ≡ clear_pending s
  lifted (err x) f s k h = refl
  lifted (ok a) f s k h = (k a).undone s h

  lift-Fails :
      {A B : Type 0} (r : Result A) (f : A → Action (Store F) B)
      → ((a : A) → Fails (f a))
      → Fails (lift r >>= f)
  lift-Fails r f k = record { undone = λ s. lifted r f s k }

  gets-Fails :
      {A B : Type 0} (g : Store F → A) (f : A → Action (Store F) B)
      → ((a : A) → Fails (f a))
      → Fails (gets g >>= f)
  gets-Fails g f k = record { undone = λ s. (k (g s)).undone s }

  -- A step that cannot fail, after one.
  then_modified :
      {A : Type 0} (p : Result A × Store F) (f : Store F → Store F) (s : Store F)
      → (is_ok p.0 ≡ false → clear_pending p.1 ≡ clear_pending s)
      → is_ok (((λ _. p) >>= λ _. modify f) s).0 ≡ false
      → clear_pending (((λ _. p) >>= λ _. modify f) s).1 ≡ clear_pending s
  then_modified (ok a, t) f s k h = absurd (ground (arith, h))
  then_modified (err x, t) f s k h = k refl

  modify-Fails :
      (m : Action (Store F) (Unit {0})) (f : Store F → Store F) → Fails m → Fails (m >> modify f)
  modify-Fails m f k = record { undone = λ s. then_modified (m s) f s (k.undone s) }

  ended-undone :
      {A : Type 0} (s : Store F) (p : Result A × Store F)
      → (is_ok p.0 ≡ false → clear_pending p.1 ≡ clear_pending s)
      → is_ok (ended p).0 ≡ false
      → clear_pending (ended p).1 ≡ clear_pending s
  ended-undone s (ok a, t) k h = absurd (ground (arith, h))
  ended-undone s (err x, t) k h = k refl

  module _ (turn : Turn F) where
    initialize_buckets-Fails : Fails (initialize_buckets turn)
    unfolding initialize_buckets
    initialize_buckets-Fails = transaction-Fails turn initialize_at

    try_consume-Fails :
        (usage : Usage F) (rid : Option ℕ) (lifetime : Option F)
        → Fails (try_consume turn usage rid lifetime)
    unfolding try_consume
    try_consume-Fails usage rid lifetime =
        transaction-Fails turn (λ now. try_consume_at usage rid lifetime now)

    consume-Fails :
        (usage : Usage F) (rid : Option ℕ) (lifetime : Option F)
        → Fails (consume turn usage rid lifetime)
    unfolding consume
    consume-Fails usage rid lifetime =
        transaction-Fails turn (λ now. consume_at usage rid lifetime now)

    refund-Fails :
        (reserved actual : Usage F) (ids : List BucketId) (q : Reservation F)
        → Fails (refund turn reserved actual ids q)
    unfolding refund
    refund-Fails reserved actual ids q =
        lift-Fails (refund_usage_of reserved actual)
          (λ amounts. transaction turn λ now. refund_at amounts ids q now)
          (λ amounts. transaction-Fails turn (λ now. refund_at amounts ids q now))

    cleanup_consumption-Fails :
        (usage : Usage F) (ids : List BucketId) (rid : Option ℕ)
        → Fails (cleanup_consumption turn usage ids rid)
    unfolding cleanup_consumption
    cleanup_consumption-Fails usage ids rid =
        transaction-Fails turn (λ now. cleanup_at usage ids rid now)

    -- The steps before a change of a bucket's maximum.
    abbrev checked :
        BucketId
        → PyValue F
        → (BucketSpec F → F → Action (Store F) (Unit {0}))
        → Action (Store F) (Unit {0})
    checked id value change = do
      limit ← lift (validate_max_capacity_finite_positive value)
      e ← gets (λ s. s.engine)
      spec ← lift (or_raise (spec_of e.specs id) (value_error bucket_not_found))
      change spec limit

    checked-Fails :
        (id : BucketId) (value : PyValue F)
        (change : BucketSpec F → F → Action (Store F) (Unit {0}))
        → ((spec : BucketSpec F) (limit : F) → Fails (change spec limit))
        → Fails (checked id value change)
    checked-Fails id value change k =
        lift-Fails (validate_max_capacity_finite_positive value) _ λ limit.
          gets-Fails (λ s. s.engine) _
            λ e.
              lift-Fails (or_raise (spec_of e.specs id) (value_error bucket_not_found)) _
                λ spec. k spec limit

    set_max_capacity-Fails :
        (id : BucketId) (value : PyValue F) → Fails (set_max_capacity turn id value)
    unfolding set_max_capacity
    set_max_capacity-Fails id value =
        checked-Fails id value
          (λ spec limit. transaction turn λ now. set_max_capacity_at spec limit now)
          (λ spec limit. transaction-Fails turn (λ now. set_max_capacity_at spec limit now))

    apply_configured_max_capacity-Fails :
        (id : BucketId) (value : PyValue F) → Fails (apply_configured_max_capacity turn id value)
    unfolding apply_configured_max_capacity
    apply_configured_max_capacity-Fails id value =
        checked-Fails id value
          (λ spec limit.
            transaction turn (λ now. apply_configured_at id limit now)
            >> modify (configure id limit))
          (λ spec limit.
            modify-Fails (transaction turn λ now. apply_configured_at id limit now)
              (configure id limit)
              (transaction-Fails turn (λ now. apply_configured_at id limit now)))

    cleared :
        (ids : List BucketId) (limits : Dict BucketId F) (s : Store F)
        → is_ok (clear_max_capacity_overrides turn ids limits s).0 ≡ false
        → clear_pending (clear_max_capacity_overrides turn ids limits s).1 ≡ clear_pending s
    unfolding clear_max_capacity_overrides
    cleared ids limits s =
        let targets = common ids (bucket_ids_of s.engine) in
        elim (Bool-cases (is_empty targets)) [
          | inl c ↦ rw c (λ h. absurd (ground (arith, h)))
          | inr c ↦ rw c (transacted turn (λ now. clear_overrides_at targets limits now) s)
        ]

    -- An operation that fails, be it refused, in error half way, out of time, or turned away by a
    -- busy database at its beginning or its commit, leaves the three tables and the engine as they
    -- were, but for the engine's notes of writes not yet committed.
    pub failed_run_unchanged :
        (o : Operation F) (s : Store F)
        → is_ok (run turn o s).0 ≡ false
        → clear_pending (run turn o s).1 ≡ clear_pending s
    unfolding run
    failed_run_unchanged initialize s = initialize_buckets-Fails.undone s
    failed_run_unchanged (try_consuming usage rid lifetime) s =
        ended-undone s (try_consume turn usage rid lifetime s)
          ((try_consume-Fails usage rid lifetime).undone s)
    failed_run_unchanged (consuming usage rid lifetime) s =
        ended-undone s (consume turn usage rid lifetime s)
          ((consume-Fails usage rid lifetime).undone s)
    failed_run_unchanged (refunding reserved actual ids q) s =
        ended-undone s (refund turn reserved actual ids q s)
          ((refund-Fails reserved actual ids q).undone s)
    failed_run_unchanged (cleaning_up usage ids rid) s =
        (cleanup_consumption-Fails usage ids rid).undone s
    failed_run_unchanged (setting id value) s = (set_max_capacity-Fails id value).undone s
    failed_run_unchanged (configuring id value) s =
        (apply_configured_max_capacity-Fails id value).undone s
    failed_run_unchanged (clearing ids limits) s = cleared ids limits s
