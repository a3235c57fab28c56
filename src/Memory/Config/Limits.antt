-- ===== src/Memory/Config/Limits.antt =====
-- A change of one bucket's limit, and a new backend: the invariant, and what stays.
use token_throttle.Base.Dict.{contains}
use token_throttle.Exceptions.{Result-cases, ok}
use token_throttle.Float.{Float}
use token_throttle.Base.{
  ℕ, true, false, ◌≡◌, refl, sym, ◌∙◌, some, none, List, [], ◌∷◌, arith, All, map, ◌==◌, nat_eq,
  pair_eq, if◌then◌else◌, Bool-cases, inl, inr,
}
use token_throttle.Action.{Action}
use token_throttle.Capacity.{PyValue, py_float}
use token_throttle.Validation.{BucketId}
use token_throttle.Memory.Bucket.{MemoryBucket, new_bucket, assign_max_capacity}
use token_throttle.Memory.Bucket
use token_throttle.Memory.Bucket.Limits.{IsValid, set_max_capacity-IsValid, set_max_capacity-id}
use token_throttle.Memory.State.{Backend, id_of, ids_of, metrics_of, registered}
use token_throttle.Memory.State.Pointwise.{IsDistinct}
use token_throttle.Memory.Invariant.{IsBackend, IsRegistry-buckets}
use token_throttle.Memory.Config.{
  Quota, PerModelConfig, quota_id, new_backend, on_bucket, new_buckets, build, set_max_capacity,
}

-- No id twice; `UsageQuotas.add_metric` refuses a second quota for an id.
abbrev pub IsNodupIds : List BucketId → Type 0
IsNodupIds [] = Unit
IsNodupIds (id ∷ ids) = (contains ids id ≡ false) × IsNodupIds ids

module _ {F : Type 0} where
  pub metrics_of-ids :
      (bs cs : List (MemoryBucket F)) → ids_of bs ≡ ids_of cs → metrics_of bs ≡ metrics_of cs
  metrics_of-ids [] [] e = refl
  metrics_of-ids [] (c ∷ cs) e = absurd (cc)
  metrics_of-ids (b ∷ bs) [] e = absurd (cc)
  metrics_of-ids (b ∷ bs) (c ∷ cs) e =
      let head : b.usage_metric ≡ c.usage_metric = cc in rw (head, metrics_of-ids bs cs cc)

  pub IsDistinct-ids :
      (bs cs : List (MemoryBucket F)) → ids_of bs ≡ ids_of cs → IsDistinct bs → IsDistinct cs
  IsDistinct-ids bs [] e d = tt
  IsDistinct-ids [] (c ∷ cs) e d = absurd (cc)
  IsDistinct-ids (b ∷ bs) (c ∷ cs) e d =
      let head : id_of b ≡ id_of c = cc in
      let rest : ids_of bs ≡ ids_of cs = cc in
      (rw (head, rest) at d.0, IsDistinct-ids bs cs rest d.1)

  pub on_bucket-All {ℓ} :
      (P : MemoryBucket F → Type ℓ) (id : BucketId) (m : Action (MemoryBucket F) (Unit {0}))
      (bs : List (MemoryBucket F))
      → ((b : MemoryBucket F) → P b → P (m b).1)
      → All P bs
      → All P (on_bucket id m bs).1
  unfolding on_bucket
  on_bucket-All P id m [] step h = tt
  on_bucket-All P id m (b ∷ bs) step h = elim (Bool-cases (id_of b == id)) [
    | inl e ↦ rw e (step b h.0, h.1)
    | inr e ↦ rw e (h.0, on_bucket-All P id m bs step h.1)
  ]

  pub on_bucket-ids :
      (id : BucketId) (m : Action (MemoryBucket F) (Unit {0})) (bs : List (MemoryBucket F))
      → ((b : MemoryBucket F) → id_of (m b).1 ≡ id_of b)
      → ids_of (on_bucket id m bs).1 ≡ ids_of bs
  unfolding on_bucket
  on_bucket-ids id m [] same = refl
  on_bucket-ids id m (b ∷ bs) same = elim (Bool-cases (id_of b == id)) [
    | inl e ↦ rw (e, same b) refl
    | inr e ↦ rw (e, on_bucket-ids id m bs same) refl
  ]

  -- What a call on one bucket leaves under each id.
  pub registered-on_bucket :
      (id j : BucketId) (m : Action (MemoryBucket F) (Unit {0})) (bs : List (MemoryBucket F))
      (k : MemoryBucket F)
      → ((b : MemoryBucket F) → id_of (m b).1 ≡ id_of b)
      → registered bs j ≡ some k
      → registered (on_bucket id m bs).1 j ≡ some (if id == j then (m k).1 else k)
  unfolding on_bucket
  registered-on_bucket id j m [] k same h = absurd (cc)
  registered-on_bucket id j m (b ∷ bs) k same h =
      ground (arith, same b, registered-on_bucket id j m bs k same)

module _ {F : Type 0} ⦃fl : Float F⦄ where
  open fl use {is_finite}

  pub IsBackend-ids :
      (bs : List (MemoryBucket F)) (b : Backend F)
      → ids_of b.buckets ≡ ids_of bs
      → All IsValid bs
      → IsBackend b
      → IsBackend (record b { buckets = bs })
  IsBackend-ids bs b e v ib = record {
    valid = v;
    distinct = IsDistinct-ids b.buckets bs e ib.distinct;
    names = ib.names ∙ metrics_of-ids b.buckets bs e;
    registry = IsRegistry-buckets bs b ib.registry;
  }

  pub new_bucket-IsValid :
      (metric per_seconds : ℕ) (limit : PyValue F) (model_family : ℕ) {b : MemoryBucket F}
      → new_bucket metric per_seconds limit model_family ≡ ok b
      → IsValid b × (id_of b ≡ (metric, per_seconds)) × (b.capacity ≡ none)
  unfolding new_bucket
  new_bucket-IsValid metric per_seconds limit model_family e = ground arith

  set_max_capacity-IsBackend :
      (metric per_seconds : ℕ) (value : PyValue F) (now : F) (b : Backend F)
      → is_finite now ≡ true
      → IsBackend b
      → IsBackend (set_max_capacity metric per_seconds value now b).1
  unfolding set_max_capacity
  set_max_capacity-IsBackend metric per_seconds value now b t ib =
      let id : BucketId = (metric, per_seconds) in
      let m = Bucket.set_max_capacity value now in
      IsBackend-ids (on_bucket id m b.buckets).1 b
        (sym (on_bucket-ids id m b.buckets (set_max_capacity-id value now)))
        (on_bucket-All IsValid id m b.buckets (λ k. set_max_capacity-IsValid value now k t)
          ib.valid)
        ib

  -- A change of a limit, also one that raises, keeps the invariant of the backend, changes the bucket
  -- of that id as its own `set_max_capacity` at the time of the call does, and leaves the bucket under
  -- every other id as it was.
  pub set_max_capacity_buckets :
      (metric per_seconds : ℕ) (value : PyValue F) (now : F) (b : Backend F) (j : BucketId)
      (k : MemoryBucket F)
      → is_finite now ≡ true
      → IsBackend b
      → registered b.buckets j ≡ some k
      → let after = (set_max_capacity metric per_seconds value now b).1 in
        IsBackend after
        × (registered after.buckets j
            ≡ some
                (if (metric, per_seconds) == j then (Bucket.set_max_capacity value now k).1 else k))
  unfolding set_max_capacity
  set_max_capacity_buckets metric per_seconds value now b j k t ib h = (
    set_max_capacity-IsBackend metric per_seconds value now b t ib,
    registered-on_bucket (metric, per_seconds) j (Bucket.set_max_capacity value now) b.buckets k
        (set_max_capacity-id value now) h,
  )

  new_buckets-lem :
      (cfg : PerModelConfig F) (qs : List (Quota F)) (bs : List (MemoryBucket F))
      → new_buckets cfg qs ≡ ok bs
      → All IsValid bs × (ids_of bs ≡ map quota_id qs) × All (λ k. k.capacity ≡ none) bs
  unfolding new_buckets
  new_buckets-lem cfg [] bs e = let h : bs ≡ [] = cc in rw h (tt, refl, tt)
  new_buckets-lem cfg (q ∷ qs) bs e =
      elim (Result-cases (new_bucket q.metric q.per_seconds (py_float q.limit) cfg.model_family)) [
        | inr (x, bad) ↦ absurd (ground (arith, bad))
        | inl (k, good) ↦ elim (Result-cases (new_buckets cfg qs)) [
          | inr (x, bad) ↦ absurd (ground (arith, good, bad))
          | inl (ks, rest) ↦
              let (v, i, c) =
                new_bucket-IsValid q.metric q.per_seconds (py_float q.limit) cfg.model_family
                  good in
              let (vs, is, cs) = new_buckets-lem cfg qs ks rest in
              let h : bs ≡ k ∷ ks = ground (arith, good, rest) in
              rw h ((v, vs), rw (i, is) refl, (c, cs))
        ]
      ]

  pub IsDistinct-NodupIds :
      (bs : List (MemoryBucket F)) (ids : List BucketId)
      → ids_of bs ≡ ids
      → IsNodupIds ids
      → IsDistinct bs
  IsDistinct-NodupIds [] ids e d = tt
  IsDistinct-NodupIds (b ∷ bs) [] e d = absurd (cc)
  IsDistinct-NodupIds (b ∷ bs) (id ∷ ids) e d =
      let head : id_of b ≡ id = cc in
      let rest : ids_of bs ≡ ids = cc in (rw (head, rest) d.0, IsDistinct-NodupIds bs ids rest d.1)

  -- A backend that is built from quotas with distinct ids satisfies the invariant, has one bucket for
  -- each quota in their order, and every bucket starts fresh.
  pub build-IsBackend :
      (cfg : PerModelConfig F) (sleep_interval : F) {b : Backend F}
      → IsNodupIds (map quota_id cfg.quotas)
      → build cfg sleep_interval ≡ ok b
      → IsBackend b
        × (ids_of b.buckets ≡ map quota_id cfg.quotas)
        × All (λ k. k.capacity ≡ none) b.buckets
  unfolding build new_backend
  build-IsBackend cfg sleep_interval {b} d e = elim (Result-cases (new_buckets cfg cfg.quotas)) [
    | inr (x, bad) ↦ absurd (ground (arith, bad))
    | inl (ks, good) ↦
        let (v, i, c) = new_buckets-lem cfg cfg.quotas ks good in
        let h : b ≡ new_backend ks cfg sleep_interval = ground (arith, good) in
        rw h (
          record {
            valid = v;
            distinct = IsDistinct-NodupIds ks (map quota_id cfg.quotas) i d;
            names = refl;
            registry = record {
              same_keys = refl;
              ordered = refl;
              nodup = tt;
              bounded = omega arith;
              disjoint = λ k h. refl;
            };
          },
          i,
          c,
        )
  ]
