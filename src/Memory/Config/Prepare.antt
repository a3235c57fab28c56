-- ===== src/Memory/Config/Prepare.antt =====
-- What one turn of the loop of a reconfiguration does to the registry of buckets.
use token_throttle.Base.Dict.{contains}
use token_throttle.Capacity.{py_float}
use token_throttle.Exceptions.{Result-cases, ok}
use token_throttle.Float.{Float}
use token_throttle.Memory.State.{id_of, ids_of, registered}
use token_throttle.Base.{
  true, false, ◌≡◌, refl, some, none, List, [], ◌∷◌, ◌++◌, arith, All, ◌==◌, nat_eq, pair_eq,
  pair_beq_iff, if◌then◌else◌, Bool-cases, inl, inr, Option-cases,
}
use token_throttle.Validation.{BucketId}
use token_throttle.Memory.Bucket.{MemoryBucket, new_bucket}
use token_throttle.Memory.Bucket
use token_throttle.Memory.Bucket.Limits.{IsValid, set_max_capacity-IsValid, set_max_capacity-id}
use token_throttle.Memory.Config.{
  Quota, PerModelConfig, quota_id, collect, prepare_quota, prepare_found,
}
use token_throttle.Memory.Config.Limits.{on_bucket-All, registered-on_bucket, new_bucket-IsValid}

module _ {F : Type 0} where
  pub registered-id :
      (bs : List (MemoryBucket F)) (id : BucketId) (k : MemoryBucket F)
      → registered bs id ≡ some k
      → id_of k ≡ id
  registered-id [] id k h = absurd (cc)
  registered-id (b ∷ bs) id k h = ground (arith, registered-id bs id k)

  pub registered-member :
      (bs : List (MemoryBucket F)) (id : BucketId)
      → contains (ids_of bs) id ≡ true
      → (k : MemoryBucket F) × (registered bs id ≡ some k)
  registered-member [] id h = absurd (cc)
  registered-member (b ∷ bs) id h = elim (Bool-cases (id_of b == id)) [
    | inl e ↦ (b, rw e refl)
    | inr e ↦ let (k, r) = registered-member bs id (ground (arith, e)) in (k, rw (e, r) refl)
  ]

  registered-All {ℓ} :
      (P : MemoryBucket F → Type ℓ) (bs : List (MemoryBucket F)) (id : BucketId)
      (k : MemoryBucket F)
      → All P bs
      → registered bs id ≡ some k
      → P k
  registered-All P [] id k a h = absurd (cc)
  registered-All P (b ∷ bs) id k a h = elim (Bool-cases (id_of b == id)) [
    | inl e ↦ let same : b ≡ k = ground (arith, e) in rw same at a.0
    | inr e ↦ registered-All P bs id k a.1 (ground (arith, e))
  ]

  -- All the given ids are registered.
  abbrev pub IsCovered : List (MemoryBucket F) → List BucketId → Type 0
  IsCovered bs [] = Unit
  IsCovered bs (id ∷ ids) = (contains (ids_of bs) id ≡ true) × IsCovered bs ids

  pub collect-ids :
      (bs : List (MemoryBucket F)) (ids : List BucketId)
      → IsCovered bs ids
      → ids_of (collect bs ids) ≡ ids
  unfolding collect
  collect-ids bs [] h = refl
  collect-ids bs (id ∷ ids) h =
      let (k, e) = registered-member bs id h.0 in
      rw (e, registered-id bs id k e, collect-ids bs ids h.1) refl

  pub collect-All {ℓ} :
      (P : MemoryBucket F → Type ℓ) (bs : List (MemoryBucket F)) (ids : List BucketId)
      → All P bs
      → All P (collect bs ids)
  unfolding collect
  collect-All P bs [] a = tt
  collect-All P bs (id ∷ ids) a = elim (Option-cases (registered bs id)) [
    | inl e ↦ rw e (collect-All P bs ids a)
    | inr (k, e) ↦ rw e (registered-All P bs id k a e, collect-All P bs ids a)
  ]

  pub registered-collect :
      (bs : List (MemoryBucket F)) (ids : List BucketId) (id : BucketId) (k : MemoryBucket F)
      → contains ids id ≡ true
      → registered bs id ≡ some k
      → registered (collect bs ids) id ≡ some k
  unfolding collect
  registered-collect bs [] id k m h = absurd (cc)
  registered-collect bs (j ∷ ids) id k m h = elim (Bool-cases (j == id)) [
    | inl e ↦
        let same : j ≡ id = (pair_beq_iff j id).0 e in
        rw (same, h) (ground (arith, registered-id bs id k h))
    | inr e ↦ elim (Option-cases (registered bs j)) [
      | inl n ↦ rw n (registered-collect bs ids id k (ground (arith, e)) h)
      | inr (x, r) ↦
          let other : (id_of x == id) ≡ false = ground (arith, registered-id bs j x r, e) in
          rw (r, other) (registered-collect bs ids id k (ground (arith, e)) h)
    ]
  ]

module _ {F : Type 0} ⦃fl : Float F⦄ where
  open fl use {is_finite}

  ids_of-append :
      (bs : List (MemoryBucket F)) (b : MemoryBucket F)
      → ids_of (bs ++ b ∷ []) ≡ ids_of bs ++ id_of b ∷ []
  ids_of-append [] b = refl
  ids_of-append (c ∷ bs) b = rw (ids_of-append bs b) refl

  All-append {ℓ} :
      (P : MemoryBucket F → Type ℓ) (bs : List (MemoryBucket F)) (b : MemoryBucket F)
      → All P bs
      → P b
      → All P (bs ++ b ∷ [])
  All-append P [] b a p = (p, tt)
  All-append P (c ∷ bs) b a p = (a.0, All-append P bs b a.1 p)

  registered-append :
      (bs : List (MemoryBucket F)) (b : MemoryBucket F) (id : BucketId) (k : MemoryBucket F)
      → registered bs id ≡ some k
      → registered (bs ++ b ∷ []) id ≡ some k
  registered-append [] b id k h = absurd (cc)
  registered-append (c ∷ bs) b id k h = ground (arith, registered-append bs b id k)

  registered-last :
      (bs : List (MemoryBucket F)) (b : MemoryBucket F)
      → registered bs (id_of b) ≡ none
      → registered (bs ++ b ∷ []) (id_of b) ≡ some b
  registered-last [] b h = ground arith
  registered-last (c ∷ bs) b h = ground (arith, registered-last bs b)

  -- One quota: the registry stays valid; what it holds under another id stays; and, on success, the
  -- quota's id is registered.
  pub prepare_quota-IsValid :
      (cfg : PerModelConfig F) (q : Quota F) (now : F) (bs : List (MemoryBucket F))
      → is_finite now ≡ true
      → All IsValid bs
      → All IsValid (prepare_quota cfg q now bs).1
  unfolding prepare_quota prepare_found
  prepare_quota-IsValid cfg q now bs t v = elim (Option-cases (registered bs (quota_id q))) [
    | inr (k, e) ↦ rw e (
        on_bucket-All IsValid (quota_id q) (Bucket.set_max_capacity (py_float q.limit) now) bs
          (λ b. set_max_capacity-IsValid (py_float q.limit) now b t) v)
    | inl e ↦
        elim (Result-cases
          (new_bucket q.metric q.per_seconds (py_float q.limit) cfg.model_family)) [
            | inr (x, bad) ↦ rw (e, bad) v
            | inl (b, good) ↦
                rw (e, good)
                  (All-append IsValid bs b v
                    (new_bucket-IsValid q.metric q.per_seconds (py_float q.limit) cfg.model_family
                      good).0)
          ]
  ]

  -- The bucket under an id that is not the quota's is kept; the one under the quota's id has its
  -- limit changed.
  pub prepare_quota-registered :
      (cfg : PerModelConfig F) (q : Quota F) (now : F) (bs : List (MemoryBucket F)) (j : BucketId)
      (k : MemoryBucket F)
      → registered bs j ≡ some k
      → registered (prepare_quota cfg q now bs).1 j
        ≡ some (if quota_id q == j then (Bucket.set_max_capacity (py_float q.limit) now k).1 else k)
  unfolding prepare_quota prepare_found
  prepare_quota-registered cfg q now bs j k h = elim (Option-cases (registered bs (quota_id q))) [
    | inr (x, e) ↦ rw e (
        registered-on_bucket (quota_id q) j (Bucket.set_max_capacity (py_float q.limit) now) bs k
          (set_max_capacity-id (py_float q.limit) now) h)
    | inl e ↦
        let other : (quota_id q == j) ≡ false = ground (arith, e, h) in
        elim (Result-cases
          (new_bucket q.metric q.per_seconds (py_float q.limit) cfg.model_family)) [
            | inr (x, bad) ↦ rw (e, bad, other) h
            | inl (b, good) ↦ rw (e, good, other) (registered-append bs b j k h)
          ]
  ]

  pub prepare_quota-covers :
      (cfg : PerModelConfig F) (q : Quota F) (now : F) (bs : List (MemoryBucket F))
      → (prepare_quota cfg q now bs).0 ≡ ok tt
      → (k : MemoryBucket F) × (registered (prepare_quota cfg q now bs).1 (quota_id q) ≡ some k)
  unfolding prepare_quota prepare_found
  prepare_quota-covers cfg q now bs done = elim (Option-cases (registered bs (quota_id q))) [
    | inr (x, e) ↦ (_, prepare_quota-registered cfg q now bs (quota_id q) x e)
    | inl e ↦
        elim (Result-cases
          (new_bucket q.metric q.per_seconds (py_float q.limit) cfg.model_family)) [
            | inr (x, bad) ↦ absurd (ground (arith, e, bad))
            | inl (b, good) ↦
                let i =
                  (new_bucket-IsValid q.metric q.per_seconds (py_float q.limit) cfg.model_family
                    good).1 in
                (b, rw (e, good) (ground (arith, i, e, registered-last bs b)))
          ]
  ]
