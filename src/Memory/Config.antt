-- ===== src/Memory/Config.antt =====
-- _memory/_sync_backend.py: how a backend is built from a configuration, and how its limits and its
-- set of buckets change while it runs. A configuration is what the backend reads of it; the second
-- backend that a reconfiguration is given is only tested for its class.
pub mod Limits
pub mod Prepare
pub mod Loop
pub mod Reconfigure
use token_throttle.Base.{
  ℕ, ◌+◌, Bool, true, false, Option, none, some, List, [], ◌∷◌, ◌++◌, map, if◌then◌else◌, ◌==◌,
  nat_eq, pair_eq,
}
use token_throttle.Base.Dict.{Dict, insert}
use token_throttle.Float.{Float}
use token_throttle.Exceptions.{Result, ok, err, value_error, bucket_not_found}
use token_throttle.Exceptions
use token_throttle.Action.{Action, ◌>>=◌, ◌>>◌, pure, lift, gets, modify}
use token_throttle.Capacity.{PyValue, py_float}
use token_throttle.Validation.{BucketId}
use token_throttle.Memory.Bucket.{MemoryBucket, new_bucket}
use token_throttle.Memory.Bucket
use token_throttle.Memory.State.{Backend, id_of, ids_of, metrics_of, registered}

pub record Quota (F : Type 0) : Type 0 where
  pub metric : ℕ
  pub per_seconds : ℕ
  pub limit : F

pub record PerModelConfig (F : Type 0) : Type 0 where
  pub quotas : List (Quota F)
  pub model_family : ℕ

abbrev pub refunded_reservation_ids_cap : ℕ
refunded_reservation_ids_cap = 131_072

module _ {F : Type 0} where
  abbrev pub quota_id : Quota F → BucketId
  quota_id q = (q.metric, q.per_seconds)

  -- {(quota.metric, quota.per_seconds): quota.limit}
  abbrev pub limits_of : List (Quota F) → Dict BucketId F
  limits_of [] = []
  limits_of (q ∷ qs) = (quota_id q, q.limit) ∷ limits_of qs

  -- `SyncMemoryBackend(...)`
  unfoldable pub new_backend : List (MemoryBucket F) → PerModelConfig F → F → Backend F
  new_backend buckets cfg sleep_interval = record {
    buckets = buckets;
    configured_limits = limits_of cfg.quotas;
    usage_metric_names = metrics_of buckets;
    acquired_ids = [];
    acquired_values = [];
    refunded_ids = [];
    refunded_order = [];
    refunded_ids_cap = refunded_reservation_ids_cap;
    waiters = [];
    sleep_interval = sleep_interval;
  }

  -- A method call on the bucket that a scan finds first.
  unfoldable pub on_bucket :
      BucketId → Action (MemoryBucket F) (Unit {0}) → Action (List (MemoryBucket F)) (Unit {0})
  on_bucket id m [] = (err (value_error bucket_not_found), [])
  on_bucket id m (b ∷ bs) =
      if id_of b == id
      then (let (r, b') = m b in (r, b' ∷ bs))
      else (let (r, bs') = on_bucket id m bs in (r, b ∷ bs'))

  abbrev pub prepend : Option (MemoryBucket F) → List (MemoryBucket F) → List (MemoryBucket F)
  prepend none bs = bs
  prepend (some b) bs = b ∷ bs

  -- The objects of a registry under some ids.
  unfoldable pub collect : List (MemoryBucket F) → List BucketId → List (MemoryBucket F)
  collect existing [] = []
  collect existing (id ∷ ids) = prepend (registered existing id) (collect existing ids)

module _ {F : Type 0} ⦃fl : Float F⦄ where
  unfoldable pub new_buckets : PerModelConfig F → List (Quota F) → Result (List (MemoryBucket F))
  unfolding new_bucket
  new_buckets cfg [] = ok []
  new_buckets cfg (q ∷ qs) =
      Exceptions.◌>>=◌ (new_bucket q.metric q.per_seconds (py_float q.limit) cfg.model_family)
        λ b. Exceptions.◌>>=◌ (new_buckets cfg qs) λ bs. ok (b ∷ bs)

  -- `SyncMemoryBackendBuilder.build`, with the sleep interval that it checked when it was made.
  unfoldable pub build : PerModelConfig F → F → Result (Backend F)
  unfolding new_buckets new_backend
  build cfg sleep_interval =
      Exceptions.◌>>=◌ (new_buckets cfg cfg.quotas)
        λ buckets. ok (new_backend buckets cfg sleep_interval)

  -- The code looks the bucket up before it takes the lock; here both are one step.
  unfoldable pub set_max_capacity : ℕ → ℕ → PyValue F → F → Action (Backend F) (Unit {0})
  unfolding on_bucket Bucket.set_max_capacity
  set_max_capacity metric per_seconds value now b =
      let (r, bs) = on_bucket (metric, per_seconds) (Bucket.set_max_capacity value now) b.buckets in
      (r, record b { buckets = bs })

  -- With `value` a float.
  unfoldable pub apply_configured_max_capacity : ℕ → ℕ → F → F → Action (Backend F) (Unit {0})
  unfolding set_max_capacity
  apply_configured_max_capacity metric per_seconds value now = do
    set_max_capacity metric per_seconds (py_float value) now
    modify (λ b. record b {
      configured_limits = insert b.configured_limits (metric, per_seconds) value;
    })

  -- One turn of the loop over the quotas: the registry gains a bucket, or one of its buckets has its
  -- limit changed in place.
  prepare_found :
      PerModelConfig F
      → Quota F
      → F
      → Option (MemoryBucket F)
      → Action (List (MemoryBucket F)) (Unit {0})
  unfolding new_bucket on_bucket Bucket.set_max_capacity
  prepare_found cfg q now none = do
    b ← lift (new_bucket q.metric q.per_seconds (py_float q.limit) cfg.model_family)
    modify (λ existing. existing ++ b ∷ [])
  prepare_found cfg q now (some _) =
      on_bucket (quota_id q) (Bucket.set_max_capacity (py_float q.limit) now)

  unfoldable pub prepare_quota :
      PerModelConfig F → Quota F → F → Action (List (MemoryBucket F)) (Unit {0})
  unfolding prepare_found
  prepare_quota cfg q now existing =
      prepare_found cfg q now (registered existing (quota_id q)) existing

  unfoldable pub prepare_quotas :
      PerModelConfig F → List (Quota F) → F → Action (List (MemoryBucket F)) (Unit {0})
  unfolding prepare_quota
  prepare_quotas cfg [] now = pure tt
  prepare_quotas cfg (q ∷ qs) now = prepare_quota cfg q now >> prepare_quotas cfg qs now

  unfoldable pub install_reconfigured_state :
      List (MemoryBucket F) → PerModelConfig F → Backend F → Backend F
  install_reconfigured_state buckets cfg b = record b {
    buckets = buckets;
    usage_metric_names = metrics_of buckets;
    configured_limits = limits_of cfg.quotas;
  }

  -- `prepare_reconfigured_backend`; a raise leaves the backend its buckets, with the limits that
  -- were changed before it.
  unfoldable pub prepare_reconfigured_backend : PerModelConfig F → F → Action (Backend F) (Unit {0})
  unfolding prepare_quotas collect install_reconfigured_state
  prepare_reconfigured_backend cfg now b =
      let (r, existing) = prepare_quotas cfg cfg.quotas now b.buckets in
      elim r [
        | err e ↦ (err e, record b { buckets = collect existing (ids_of b.buckets) })
        | ok _ ↦
            (ok tt, install_reconfigured_state (collect existing (map quota_id cfg.quotas)) cfg b)
      ]
