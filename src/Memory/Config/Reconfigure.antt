-- ===== src/Memory/Config/Reconfigure.antt =====
-- A reconfiguration: the buckets that survive it keep their state, and the invariant holds after it.
use token_throttle.Base.Dict.{contains, lookup}
use token_throttle.Capacity.{py_float}
use token_throttle.Float.{Float}
use token_throttle.Memory.Bucket.Limits.{IsValid}
use token_throttle.Memory.Invariant.{IsBackend}
use token_throttle.Memory.State.{Backend, id_of, ids_of, registered}
use token_throttle.Base.{
  true, ◌≡◌, refl, ap, sym, Option, none, some, Option-cases, List, [], ◌∷◌, arith, All, map,
  nat_eq, pair_eq, inl, inr,
}
use token_throttle.Exceptions.{Result, ok, err, Error, Result-cases}
use token_throttle.Validation.{BucketId}
use token_throttle.Memory.Bucket.{MemoryBucket, new_bucket}
use token_throttle.Memory.Bucket
use token_throttle.Memory.State.Pointwise.{IsDistinct}
use token_throttle.Memory.Refund.Scope.{IsRegistered, All-IsRegistered}
use token_throttle.Memory.Config.{
  Quota, PerModelConfig, quota_id, limits_of, collect, prepare_quotas, install_reconfigured_state,
  prepare_reconfigured_backend,
}
use token_throttle.Memory.Config.Limits.{IsNodupIds, IsDistinct-NodupIds, IsBackend-ids}
use token_throttle.Memory.Config.Prepare.{collect-ids, collect-All, registered-collect}
use token_throttle.Memory.Config.Loop.{
  prepare_quotas-covers, prepare_quotas-own, prepare_quotas-IsValid, prepare_quotas-survives,
}

module _ {F : Type 0} ⦃fl : Float F⦄ where
  open fl use {is_finite}

  -- How a reconfiguration ends.
  reconfigured-ok :
      (cfg : PerModelConfig F) (now : F) (b : Backend F)
      → (prepare_quotas cfg cfg.quotas now b.buckets).0 ≡ ok tt
      → prepare_reconfigured_backend cfg now b ≡ (
        ok tt,
        install_reconfigured_state
            (collect (prepare_quotas cfg cfg.quotas now b.buckets).1 (map quota_id cfg.quotas))
            cfg
            b,
      )
  unfolding prepare_reconfigured_backend
  reconfigured-ok cfg now b h = ground (arith, h)

  reconfigured-err :
      (cfg : PerModelConfig F) (now : F) (b : Backend F) (e : Error)
      → (prepare_quotas cfg cfg.quotas now b.buckets).0 ≡ err e
      → prepare_reconfigured_backend cfg now b ≡ (
        err e,
        record b {
          buckets = collect (prepare_quotas cfg cfg.quotas now b.buckets).1 (ids_of b.buckets);
        },
      )
  unfolding prepare_reconfigured_backend
  reconfigured-err cfg now b e h = ground (arith, h)

  installed-IsBackend :
      (bs : List (MemoryBucket F)) (cfg : PerModelConfig F) (b : Backend F)
      → All IsValid bs
      → IsDistinct bs
      → IsBackend b
      → IsBackend (install_reconfigured_state bs cfg b)
  unfolding install_reconfigured_state
  installed-IsBackend bs cfg b v d ib = record {
    valid = v;
    distinct = d;
    names = refl;
    registry = record {
      same_keys = ib.registry.same_keys;
      ordered = ib.registry.ordered;
      nodup = ib.registry.nodup;
      bounded = ib.registry.bounded;
      disjoint = ib.registry.disjoint;
    };
  }

  -- A reconfiguration to quotas with distinct ids keeps the invariant of the backend, whether it
  -- returns or raises.
  pub prepare_reconfigured_backend-IsBackend :
      (cfg : PerModelConfig F) (now : F) (b : Backend F)
      → is_finite now ≡ true
      → IsNodupIds (map quota_id cfg.quotas)
      → IsBackend b
      → IsBackend (prepare_reconfigured_backend cfg now b).1
  prepare_reconfigured_backend-IsBackend cfg now b t d ib =
      let existing = (prepare_quotas cfg cfg.quotas now b.buckets).1 in
      let ids = map quota_id cfg.quotas in
      let valid = prepare_quotas-IsValid cfg now cfg.quotas b.buckets t ib.valid in
      elim (Result-cases (prepare_quotas cfg cfg.quotas now b.buckets).0) [
        | inl (_, done) ↦ rw (reconfigured-ok cfg now b done) (
            installed-IsBackend (collect existing ids) cfg b
              (collect-All IsValid existing ids valid)
              (IsDistinct-NodupIds (collect existing ids) ids
                (collect-ids existing ids (prepare_quotas-covers cfg now cfg.quotas b.buckets done))
                d)
              ib)
        | inr (e, failed) ↦ rw (reconfigured-err cfg now b e failed) (
            IsBackend-ids (collect existing (ids_of b.buckets)) b
              (sym (
                collect-ids existing (ids_of b.buckets)
                  (prepare_quotas-own cfg now cfg.quotas b.buckets)))
              (collect-All IsValid existing (ids_of b.buckets) valid) ib)
      ]

  quota_there :
      (qs : List (Quota F)) (j : BucketId) (limit : F)
      → lookup (limits_of qs) j ≡ some limit
      → contains (map quota_id qs) j ≡ true
  quota_there [] j limit l = absurd (cc)
  quota_there (q ∷ qs) j limit l = ground (arith, quota_there qs j limit)

  survives :
      (cfg : PerModelConfig F) (now : F) (b : Backend F) (j : BucketId) (k : MemoryBucket F)
      (limit : F)
      → IsNodupIds (map quota_id cfg.quotas)
      → (prepare_reconfigured_backend cfg now b).0 ≡ ok tt
      → lookup (limits_of cfg.quotas) j ≡ some limit
      → registered b.buckets j ≡ some k
      → let after = (prepare_reconfigured_backend cfg now b).1 in
        registered after.buckets j ≡ some (Bucket.set_max_capacity (py_float limit) now k).1
  unfolding install_reconfigured_state
  survives cfg now b j k limit d done l h =
      let existing = (prepare_quotas cfg cfg.quotas now b.buckets).1 in
      let ids = map quota_id cfg.quotas in
      elim (Result-cases (prepare_quotas cfg cfg.quotas now b.buckets).0) [
        | inr (e, failed) ↦ absurd (
            ground (
              arith,
              ap (λ (p : Result (Unit {0}) × Backend F). p.0) (reconfigured-err cfg now b e failed),
              done,
            ))
        | inl (_, good) ↦ rw (reconfigured-ok cfg now b good) (
            registered-collect existing ids j _ (quota_there cfg.quotas j limit l)
              (prepare_quotas-survives cfg now cfg.quotas b.buckets j k limit d good l h))
      ]

  -- A bucket of before, by the limit that a quota names for it, in the buckets of after.
  abbrev pub IsCarried : F → Option F → MemoryBucket F → List (MemoryBucket F) → Type 0
  IsCarried now none k after = Unit
  IsCarried now (some limit) k after =
      registered after (id_of k) ≡ some (Bucket.set_max_capacity (py_float limit) now k).1

  All-IsCarried :
      (cfg : PerModelConfig F) (now : F) (b : Backend F) (bs : List (MemoryBucket F))
      → IsNodupIds (map quota_id cfg.quotas)
      → (prepare_reconfigured_backend cfg now b).0 ≡ ok tt
      → All (IsRegistered b.buckets) bs
      → All
          (λ k.
            IsCarried now
              (lookup (limits_of cfg.quotas) (id_of k))
              k
              (prepare_reconfigured_backend cfg now b).1.buckets)
          bs
  unfolding IsRegistered
  All-IsCarried cfg now b [] d done h = tt
  All-IsCarried cfg now b (k ∷ bs) d done h = (
    elim (Option-cases (lookup (limits_of cfg.quotas) (id_of k))) [
      | inl e ↦ rw e tt
      | inr (limit, e) ↦ rw e (survives cfg now b (id_of k) k limit d done e h.0)
    ],
    All-IsCarried cfg now b bs d done h.1,
  )

  reconfigured_rest :
      (cfg : PerModelConfig F) (now : F) (b : Backend F)
      → (prepare_reconfigured_backend cfg now b).0 ≡ ok tt
      → let after = (prepare_reconfigured_backend cfg now b).1 in
        (ids_of after.buckets ≡ map quota_id cfg.quotas)
        × (after.acquired_ids ≡ b.acquired_ids)
        × (after.refunded_ids ≡ b.refunded_ids)
  unfolding install_reconfigured_state
  reconfigured_rest cfg now b done =
      let existing = (prepare_quotas cfg cfg.quotas now b.buckets).1 in
      elim (Result-cases (prepare_quotas cfg cfg.quotas now b.buckets).0) [
        | inr (e, failed) ↦ absurd (
            ground (
              arith,
              ap (λ (p : Result (Unit {0}) × Backend F). p.0) (reconfigured-err cfg now b e failed),
              done,
            ))
        | inl (_, good) ↦ rw (reconfigured-ok cfg now b good) (
          collect-ids existing (map quota_id cfg.quotas)
              (prepare_quotas-covers cfg now cfg.quotas b.buckets good),
          refl,
          refl,
        )
      ]

  -- A reconfiguration of a well-formed backend, to quotas with distinct ids, that returns leaves a
  -- bucket for each quota and no other, and carries over every bucket that a quota names: the bucket
  -- is what its own `set_max_capacity` to the new limit makes of it; and the reservations stay
  -- acquired or refunded as they were.
  pub prepare_reconfigured_backend_survives :
      (cfg : PerModelConfig F) (now : F) (b : Backend F)
      → IsBackend b
      → IsNodupIds (map quota_id cfg.quotas)
      → (prepare_reconfigured_backend cfg now b).0 ≡ ok tt
      → let after = (prepare_reconfigured_backend cfg now b).1 in
        All (λ k. IsCarried now (lookup (limits_of cfg.quotas) (id_of k)) k after.buckets) b.buckets
        × (ids_of after.buckets ≡ map quota_id cfg.quotas)
        × (after.acquired_ids ≡ b.acquired_ids)
        × (after.refunded_ids ≡ b.refunded_ids)
  prepare_reconfigured_backend_survives cfg now b ib d done =
      let (ids, acquired, refunded) = reconfigured_rest cfg now b done in
      (
        All-IsCarried cfg now b b.buckets d done (All-IsRegistered b.buckets ib.distinct),
        ids,
        acquired,
        refunded,
      )
