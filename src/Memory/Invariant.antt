-- ===== src/Memory/Invariant.antt =====
-- The invariant of an in-memory backend, and what a bucket-wise write keeps of it.
use token_throttle.Float.{Float, IsIeee, zero_f}
use token_throttle.Memory.Bucket.{MemoryBucket}
use token_throttle.Base.{
  nat_eq, ◌≡◌, refl, sym, ap, ◌∙◌, Bool, true, Option, some, none, List, [], ◌∷◌, arith, All, map,
  pair_eq,
}
use token_throttle.Capacity.Refill.{IsRate}
use token_throttle.Validation.{BucketId}
use token_throttle.Memory.Bucket.Limits.{IsValid}
use token_throttle.Memory.State.{Backend, id_of, ids_of, metrics_of}
use token_throttle.Memory.State.Pointwise.{IsDistinct, written}
use token_throttle.Memory.Reservations.Registry.{IsRegistry}

module _ {F : Type 0} ⦃fl : Float F⦄ where
  open fl use {le, neg, nano, is_finite, lt}

  pub record IsBackend (b : Backend F) : Type 0 where
    pub valid : All IsValid b.buckets
    pub distinct : IsDistinct b.buckets
    pub names : b.usage_metric_names ≡ metrics_of b.buckets
    pub registry : IsRegistry b

  -- The bucket's stored capacity lies between minus its maximum and its maximum.
  abbrev pub IsBetween : F → Option F → Type 0
  IsBetween m none = ⊥
  IsBetween m (some c) = (le (neg m) c ≡ true) × (le c m ≡ true)

  abbrev pub IsWithin : MemoryBucket F → Type 0
  IsWithin b = IsBetween b.max_capacity b.capacity

module _ {F : Type 0} where
  module _ (g : MemoryBucket F → MemoryBucket F)
      (same : (b : MemoryBucket F) → id_of (g b) ≡ id_of b) where
    pub ids_of-map : (bs : List (MemoryBucket F)) → ids_of (map g bs) ≡ ids_of bs
    ids_of-map [] = refl
    ids_of-map (b ∷ bs) = rw (same b, ids_of-map bs)

    pub metrics_of-map : (bs : List (MemoryBucket F)) → metrics_of (map g bs) ≡ metrics_of bs
    metrics_of-map [] = refl
    metrics_of-map (b ∷ bs) = rw (ap (λ (i : BucketId). i.0) (same b), metrics_of-map bs)

    pub IsDistinct-map : (bs : List (MemoryBucket F)) → IsDistinct bs → IsDistinct (map g bs)
    IsDistinct-map [] d = tt
    IsDistinct-map (b ∷ bs) d = (rw (same b, ids_of-map bs) d.0, IsDistinct-map bs d.1)

  pub All-map {ℓ} :
      (P : MemoryBucket F → Type ℓ) (g : MemoryBucket F → MemoryBucket F)
      (bs : List (MemoryBucket F))
      → All (λ b. P (g b)) bs
      → All P (map g bs)
  All-map P g [] h = tt
  All-map P g (b ∷ bs) h = (h.0, All-map P g bs h.1)

  pub All-imp {ℓ κ} :
      (P : MemoryBucket F → Type ℓ) (Q : MemoryBucket F → Type κ)
      → ((b : MemoryBucket F) → P b → Q b)
      → (bs : List (MemoryBucket F)) → All P bs
      → All Q bs
  All-imp P Q imp [] h = tt
  All-imp P Q imp (b ∷ bs) h = (imp b h.0, All-imp P Q imp bs h.1)

  pub IsRegistry-buckets :
      (bs : List (MemoryBucket F)) (b : Backend F)
      → IsRegistry b
      → IsRegistry (record b { buckets = bs })
  IsRegistry-buckets bs b r = record {
    same_keys = r.same_keys;
    ordered = r.ordered;
    nodup = r.nodup;
    bounded = r.bounded;
    disjoint = r.disjoint;
  }

module _ {F : Type 0} ⦃fl : Float F⦄ where
  -- A change of the buckets one by one that keeps their ids, beside a change of the registry.
  pub IsBackend-map :
      (g : MemoryBucket F → MemoryBucket F) (b b' : Backend F)
      → ((k : MemoryBucket F) → id_of (g k) ≡ id_of k)
      → IsBackend b
      → b'.usage_metric_names ≡ b.usage_metric_names
      → IsRegistry b'
      → All (λ k. IsValid (g k)) b.buckets
      → IsBackend (record b' { buckets = map g b.buckets })
  IsBackend-map g b b' same ib names r v = record {
    valid = All-map IsValid g b.buckets v;
    distinct = IsDistinct-map g same b.buckets ib.distinct;
    names = names ∙ (ib.names ∙ sym (metrics_of-map g same b.buckets));
    registry = IsRegistry-buckets (map g b.buckets) b' r;
  }

module _ {F : Type 0} ⦃fl : Float F⦄ (laws : IsIeee fl) where
  open fl use {le, neg, nano, is_finite, lt}

  -- A limit is positive, so zero and minus the limit lie in the range of a bucket.
  pub zero-le-max : (m r : F) → IsRate m r → le zero_f m ≡ true
  zero-le-max m r q =
      let below = laws.lt_le zero_f nano laws.nano_pos in
      laws.le_trans zero_f nano m below (
        laws.not_lt m nano (laws.finite_num m q.max_finite) (laws.le_right zero_f nano below)
          q.max_large)

  pub neg-le-zero : (m r : F) → IsRate m r → le (neg m) zero_f ≡ true
  neg-le-zero m r q = laws.neg_le_zero m (zero-le-max m r q)

  pub neg-le-max : (m r : F) → IsRate m r → le (neg m) m ≡ true
  neg-le-max m r q = laws.le_trans (neg m) zero_f m (neg-le-zero m r q) (zero-le-max m r q)

  -- What a write of an amount in the range leaves, a negative one allowed.
  pub written-IsWithin :
      (now x : F) (b : MemoryBucket F)
      → IsRate b.max_capacity b.rate_per_sec
      → le (neg b.max_capacity) x ≡ true
      → le x b.max_capacity ≡ true
      → IsWithin (written now true x b)
  written-IsWithin now x b q l u = ground (
    arith,
    zero-le-max b.max_capacity b.rate_per_sec q,
    neg-le-zero b.max_capacity b.rate_per_sec q,
  )

  pub written-IsValid :
      (now x : F) (allow : Bool) (b : MemoryBucket F)
      → is_finite now ≡ true
      → is_finite x ≡ true
      → IsValid b
      → IsValid (written now allow x b)
  written-IsValid now x allow b h k v = ground (arith, laws.finite_zero)
