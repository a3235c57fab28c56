-- ===== src/Tests/Limits.antt =====
-- Changes of limits and of the set of buckets, on the shared data.
use token_throttle.Exceptions.{ok}
use token_throttle.Memory.State.{id_of, ids_of, registered}
use token_throttle.Base.Dict.{lookup}
use token_throttle.Base.{
  ◌≡◌, refl, true, some, none, List, [], ◌∷◌, All, map, nat_eq, pair_eq, ◌==◌, if◌then◌else◌,
}
use token_throttle.Base.Int.{ℤ, pos}
use token_throttle.Float.{min_f}
use token_throttle.Float.Ints.{ints, ints-IsIeee}
use token_throttle.Capacity.{py_float, CalculatedCapacity}
use token_throttle.Validation.{BucketId}
use token_throttle.Memory.Bucket.{MemoryBucket, get_capacity, assign_max_capacity, set_max_capacity}
use token_throttle.Memory.Bucket.Limits.{accrued, set_max_capacity_not_retroactive}
use token_throttle.Memory.Invariant.{IsBackend}
use token_throttle.Memory.Config
use token_throttle.Memory.Config.{
  PerModelConfig, Quota, quota_id, build, new_buckets, new_backend, prepare_reconfigured_backend,
  prepare_quotas, prepare_quota, on_bucket, limits_of,
}
use token_throttle.Memory.Config.Limits.{set_max_capacity_buckets, build-IsBackend}
use token_throttle.Memory.Config.Reconfigure.{
  IsCarried, prepare_reconfigured_backend-IsBackend, prepare_reconfigured_backend_survives,
}
use token_throttle.Tests.{used_bucket, backend, backend-IsBackend, ten, ten-IsTime, used-IsValid}

abbrev halved : MemoryBucket ℤ
halved = (set_max_capacity (py_float (pos 300)) ten used_bucket).1

halved_returns : set_max_capacity (py_float (pos 300)) ten used_bucket ≡ (ok tt, halved)
unfolding set_max_capacity assign_max_capacity
halved_returns = refl

set_max_capacity_not_retroactive_example :
    (r : CalculatedCapacity ℤ) × (get_capacity halved ten ≡ ok r)
    × (ints.le r.amount (min_f (pos 300) (accrued used_bucket (pos 100) (pos 0) ten)) ≡ true)
    × (ints.le (min_f (pos 300) (accrued used_bucket (pos 100) (pos 0) ten)) r.amount ≡ true)
set_max_capacity_not_retroactive_example =
    set_max_capacity_not_retroactive ints-IsIeee (pos 300) ten (pos 100) (pos 0) used_bucket
      {b' = halved} ten-IsTime used-IsValid refl refl halved_returns

set_max_capacity_buckets_example :
    let after = (Config.set_max_capacity 1 60 (py_float (pos 300)) ten backend).1 in
    IsBackend after
    × (registered after.buckets (1, 60)
        ≡ some (if ◌==◌ {K = BucketId} (1, 60) (1, 60) then halved else used_bucket))
set_max_capacity_buckets_example =
    set_max_capacity_buckets 1 60 (py_float (pos 300)) ten backend (1, 60) used_bucket refl
      backend-IsBackend refl

-- The first bucket survives with half its limit, the second goes, and a third comes.
abbrev cfg : PerModelConfig ℤ
cfg = record {
  quotas =
      record { metric = 1; per_seconds = 60; limit = pos 300 }
      ∷ record { metric = 3; per_seconds = 1; limit = pos 5 }
      ∷ [];
  model_family = 0;
}

abbrev built : List (MemoryBucket ℤ)
built =
    record {
      capacity = none;
      last_checked = none;
      usage_metric = 1;
      model_family = 0;
      per_seconds = 60;
      max_capacity = pos 300;
      rate_per_sec = pos 5;
    }
    ∷ record {
      capacity = none;
      last_checked = none;
      usage_metric = 3;
      model_family = 0;
      per_seconds = 1;
      max_capacity = pos 5;
      rate_per_sec = pos 5;
    }
    ∷ []

build_returns : build cfg (pos 1) ≡ ok (new_backend built cfg (pos 1))
unfolding build
build_returns = refl

build-IsBackend_example :
    IsBackend (new_backend built cfg (pos 1))
    × (ids_of (new_backend built cfg (pos 1)).buckets ≡ map quota_id cfg.quotas)
    × All (λ k. k.capacity ≡ none) (new_backend built cfg (pos 1)).buckets
build-IsBackend_example =
    build-IsBackend cfg (pos 1) {b = new_backend built cfg (pos 1)} (refl, (refl, tt)) build_returns

prepare_reconfigured_backend-IsBackend_example :
    IsBackend (prepare_reconfigured_backend cfg ten backend).1
prepare_reconfigured_backend-IsBackend_example =
    prepare_reconfigured_backend-IsBackend cfg ten backend refl (refl, (refl, tt)) backend-IsBackend

reconfigured_returns : (prepare_reconfigured_backend cfg ten backend).0 ≡ ok tt
unfolding prepare_reconfigured_backend
reconfigured_returns = refl

prepare_reconfigured_backend_survives_example :
    let after = (prepare_reconfigured_backend cfg ten backend).1 in
    All
      (λ k. IsCarried ten (lookup (limits_of cfg.quotas) (id_of k)) k after.buckets)
      backend.buckets
    × (ids_of after.buckets ≡ map quota_id cfg.quotas)
    × (after.acquired_ids ≡ 7 ∷ [])
    × (after.refunded_ids ≡ 8 ∷ [])
prepare_reconfigured_backend_survives_example =
    prepare_reconfigured_backend_survives cfg ten backend backend-IsBackend (refl, (refl, tt))
      reconfigured_returns
