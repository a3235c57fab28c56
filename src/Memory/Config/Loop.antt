-- ===== src/Memory/Config/Loop.antt =====
-- What the loop of a reconfiguration over the quotas does to the registry of buckets.
use token_throttle.Base.Dict.{contains, lookup}
use token_throttle.Capacity.{py_float}
use token_throttle.Float.{Float}
use token_throttle.Memory.Bucket.Limits.{IsValid}
use token_throttle.Memory.State.{id_of, ids_of, registered}
use token_throttle.Base.{
  true, false, ◌≡◌, refl, ap, sym, ◌∙◌, some, List, [], ◌∷◌, arith, All, map, ◌==◌, nat_eq, pair_eq,
  pair_beq_iff, Bool-cases, inl, inr,
}
use token_throttle.Exceptions.{Result, ok, err, Error, Result-cases}
use token_throttle.Validation.{BucketId}
use token_throttle.Memory.Bucket.{MemoryBucket, new_bucket}
use token_throttle.Memory.Bucket
use token_throttle.Memory.Config.{
  Quota, PerModelConfig, quota_id, limits_of, prepare_quota, prepare_quotas,
}
use token_throttle.Memory.Config.Limits.{IsNodupIds}
use token_throttle.Memory.Config.Prepare.{
  IsCovered, registered-member, prepare_quota-IsValid, prepare_quota-registered,
  prepare_quota-covers,
}
use mathlib.Core.Path.{subst}

module _ {F : Type 0} ⦃fl : Float F⦄ where
  open fl use {is_finite}

  prepare_quotas-ok :
      (cfg : PerModelConfig F) (q : Quota F) (qs : List (Quota F)) (now : F)
      (bs : List (MemoryBucket F))
      → (prepare_quota cfg q now bs).0 ≡ ok tt
      → prepare_quotas cfg (q ∷ qs) now bs
        ≡ prepare_quotas cfg qs now (prepare_quota cfg q now bs).1
  unfolding prepare_quotas
  prepare_quotas-ok cfg q qs now bs h = ground (arith, h)

  prepare_quotas-err :
      (cfg : PerModelConfig F) (q : Quota F) (qs : List (Quota F)) (now : F)
      (bs : List (MemoryBucket F)) (e : Error)
      → (prepare_quota cfg q now bs).0 ≡ err e
      → prepare_quotas cfg (q ∷ qs) now bs ≡ (err e, (prepare_quota cfg q now bs).1)
  unfolding prepare_quotas
  prepare_quotas-err cfg q qs now bs e h = ground (arith, h)

  prepare_quotas-nil :
      (cfg : PerModelConfig F) (now : F) (bs : List (MemoryBucket F))
      → prepare_quotas cfg [] now bs ≡ (ok tt, bs)
  unfolding prepare_quotas
  prepare_quotas-nil cfg now bs = refl

  -- A property of the registry that every turn keeps holds at the end of the loop.
  prepare_quotas-keeps {ℓ} :
      (P : List (MemoryBucket F) → Type ℓ) (cfg : PerModelConfig F) (now : F) (qs : List (Quota F))
      (bs : List (MemoryBucket F))
      → ((q : Quota F) (cs : List (MemoryBucket F)) → P cs → P (prepare_quota cfg q now cs).1)
      → P bs
      → P (prepare_quotas cfg qs now bs).1
  prepare_quotas-keeps P cfg now [] bs step h = rw (prepare_quotas-nil cfg now bs) h
  prepare_quotas-keeps P cfg now (q ∷ qs) bs step h =
      elim (Result-cases (prepare_quota cfg q now bs).0) [
        | inr (e, bad) ↦ rw (prepare_quotas-err cfg q qs now bs e bad) (step q bs h)
        | inl (_, good) ↦
            rw (prepare_quotas-ok cfg q qs now bs good)
              (prepare_quotas-keeps P cfg now qs (prepare_quota cfg q now bs).1 step (step q bs h))
      ]

  IsThere : BucketId → List (MemoryBucket F) → Type 0
  IsThere id bs = (k : MemoryBucket F) × (registered bs id ≡ some k)

  -- A bucket once registered stays registered.
  prepare_quotas-IsThere :
      (cfg : PerModelConfig F) (now : F) (qs : List (Quota F)) (bs : List (MemoryBucket F))
      (id : BucketId)
      → IsThere id bs
      → IsThere id (prepare_quotas cfg qs now bs).1
  unfolding IsThere
  prepare_quotas-IsThere cfg now qs bs id h =
      prepare_quotas-keeps (IsThere id) cfg now qs bs
        (λ q cs p. (_, prepare_quota-registered cfg q now cs id p.0 p.1)) h

  there-member :
      (bs : List (MemoryBucket F)) (id : BucketId) → IsThere id bs → contains (ids_of bs) id ≡ true
  unfolding IsThere
  there-member [] id h = absurd (cc)
  there-member (b ∷ bs) id (k, h) = elim (Bool-cases (id_of b == id)) [
    | inl e ↦ rw e refl
    | inr e ↦ ground (arith, e, there-member bs id (k, ground (arith, e)))
  ]

  -- After a loop that has not raised every quota has its bucket.
  pub prepare_quotas-covers :
      (cfg : PerModelConfig F) (now : F) (qs : List (Quota F)) (bs : List (MemoryBucket F))
      → (prepare_quotas cfg qs now bs).0 ≡ ok tt
      → IsCovered (prepare_quotas cfg qs now bs).1 (map quota_id qs)
  unfolding IsThere
  prepare_quotas-covers cfg now [] bs done = tt
  prepare_quotas-covers cfg now (q ∷ qs) bs done =
      elim (Result-cases (prepare_quota cfg q now bs).0) [
        | inr (e, bad) ↦ absurd (
            ground (
              arith,
              ap (λ (p : Result (Unit {0}) × List (MemoryBucket F)). p.0)
                  (prepare_quotas-err cfg q qs now bs e bad),
              done,
            ))
        | inl (_, good) ↦
            let step = prepare_quotas-ok cfg q qs now bs good in
            let cs = (prepare_quota cfg q now bs).1 in
            subst
              (λ (p : Result (Unit {0}) × List (MemoryBucket F)).
                IsCovered p.1 (map quota_id (q ∷ qs)))
              (sym step)
              (
                there-member (prepare_quotas cfg qs now cs).1 (quota_id q) (
                    prepare_quotas-IsThere cfg now qs cs (quota_id q)
                      (prepare_quota-covers cfg q now bs good)),
                prepare_quotas-covers cfg now qs cs (rw step at done),
              )
      ]

  IsCovered-there :
      (bs : List (MemoryBucket F)) (ids : List BucketId)
      → ((id : BucketId) → contains ids id ≡ true → contains (ids_of bs) id ≡ true)
      → IsCovered bs ids
  IsCovered-there bs [] h = tt
  IsCovered-there bs (id ∷ ids) h = (
    h id (ground (arith, (pair_beq_iff id id).1 refl)),
    IsCovered-there bs ids (λ j m. h j (ground (arith, m))),
  )

  -- The loop leaves the backend's own ids registered, whether it raises or not.
  pub prepare_quotas-own :
      (cfg : PerModelConfig F) (now : F) (qs : List (Quota F)) (bs : List (MemoryBucket F))
      → IsCovered (prepare_quotas cfg qs now bs).1 (ids_of bs)
  unfolding IsThere
  prepare_quotas-own cfg now qs bs =
      IsCovered-there (prepare_quotas cfg qs now bs).1 (ids_of bs) (λ id m.
        there-member (prepare_quotas cfg qs now bs).1 id
          (prepare_quotas-IsThere cfg now qs bs id (registered-member bs id m)))

  pub prepare_quotas-IsValid :
      (cfg : PerModelConfig F) (now : F) (qs : List (Quota F)) (bs : List (MemoryBucket F))
      → is_finite now ≡ true
      → All IsValid bs
      → All IsValid (prepare_quotas cfg qs now bs).1
  prepare_quotas-IsValid cfg now qs bs t v =
      prepare_quotas-keeps (All IsValid) cfg now qs bs
        (λ q cs. prepare_quota-IsValid cfg q now cs t) v

  -- The bucket of an id that no quota has is left as it was.
  prepare_quotas-others :
      (cfg : PerModelConfig F) (now : F) (qs : List (Quota F)) (bs : List (MemoryBucket F))
      (j : BucketId) (k : MemoryBucket F)
      → contains (map quota_id qs) j ≡ false
      → registered bs j ≡ some k
      → registered (prepare_quotas cfg qs now bs).1 j ≡ some k
  prepare_quotas-others cfg now [] bs j k n h = rw (prepare_quotas-nil cfg now bs) h
  prepare_quotas-others cfg now (q ∷ qs) bs j k n h =
      let other : (quota_id q == j) ≡ false = ground arith in
      let once : registered (prepare_quota cfg q now bs).1 j ≡ some k =
        rw other at (prepare_quota-registered cfg q now bs j k h) in
      elim (Result-cases (prepare_quota cfg q now bs).0) [
        | inr (e, bad) ↦ rw (prepare_quotas-err cfg q qs now bs e bad) once
        | inl (_, good) ↦ rw (prepare_quotas-ok cfg q qs now bs good) (
            prepare_quotas-others cfg now qs (prepare_quota cfg q now bs).1 j k (ground arith) once)
      ]

  -- The bucket of a quota that was there has had its limit changed once.
  pub prepare_quotas-survives :
      (cfg : PerModelConfig F) (now : F) (qs : List (Quota F)) (bs : List (MemoryBucket F))
      (j : BucketId) (k : MemoryBucket F) (limit : F)
      → IsNodupIds (map quota_id qs)
      → (prepare_quotas cfg qs now bs).0 ≡ ok tt
      → lookup (limits_of qs) j ≡ some limit
      → registered bs j ≡ some k
      → registered (prepare_quotas cfg qs now bs).1 j
        ≡ some (Bucket.set_max_capacity (py_float limit) now k).1
  prepare_quotas-survives cfg now [] bs j k limit d done l h = absurd (cc)
  prepare_quotas-survives cfg now (q ∷ qs) bs j k limit d done l h =
      let cs = (prepare_quota cfg q now bs).1 in
      elim (Result-cases (prepare_quota cfg q now bs).0) [
        | inr (e, bad) ↦ absurd (
            ground (
              arith,
              ap (λ (p : Result (Unit {0}) × List (MemoryBucket F)). p.0)
                  (prepare_quotas-err cfg q qs now bs e bad),
              done,
            ))
        | inl (_, good) ↦
            let step = prepare_quotas-ok cfg q qs now bs good in
            let rest = rw step at done in
            elim (Bool-cases (quota_id q == j)) [
              | inl e ↦
                  let same : quota_id q ≡ j = (pair_beq_iff (quota_id q) j).0 e in
                  let value : q.limit ≡ limit = ground (arith, e, l) in
                  let once : registered cs j
                      ≡ some (Bucket.set_max_capacity (py_float q.limit) now k).1 =
                    rw e at (prepare_quota-registered cfg q now bs j k h) in
                  rw step (
                    prepare_quotas-others cfg now qs cs j _ (rw same at d.0) once
                    ∙ ap (λ x. some (Bucket.set_max_capacity (py_float x) now k).1) value)
              | inr e ↦ rw step (
                  prepare_quotas-survives cfg now qs cs j k limit d.1 rest (ground (arith, e, l))
                    (rw e at (prepare_quota-registered cfg q now bs j k h)))
            ]
      ]
