-- ===== src/Memory/State.antt =====
-- _memory/_sync_backend.py: the state of a backend, and its reads and writes of capacities. Every
-- function here runs under the backend's lock. Reservation ids, like metrics, are only compared.
pub mod Pointwise
pub mod Reads
use token_throttle.Base.{
  ℕ, Bool, true, false, not, ◌&&◌, Option, none, some, List, [], ◌∷◌, map, if◌then◌else◌, ◌==◌,
  pair_eq, nat_eq,
}
use token_throttle.Base.Dict.{Dict, lookup, insert, is_subset, keys}
use token_throttle.Float.{Float}
use token_throttle.Exceptions.{
  Result, ok, err, value_error, ◌>>=◌, ◌>>◌, raise_if, inactive_metrics, bucket_not_found,
}
use token_throttle.Action.{Action}
use token_throttle.Action
use token_throttle.Capacity.{CalculatedCapacity}
use token_throttle.Validation.{BucketId, Usage}
use token_throttle.Memory.Bucket.{MemoryBucket, get_capacity, set_capacity}

abbrev pub Capacities : Type 0 → Type 0
Capacities F = Dict BucketId F

-- `_bucket_registry` holds the very objects of `_buckets` under their ids, so it is read off
-- `buckets` (`registered` below). `_diagnostic_waiters` is kept as the keys of its entries.
pub record Backend (F : Type 0) : Type 0 where
  pub buckets : List (MemoryBucket F)
  pub configured_limits : Dict BucketId F
  pub usage_metric_names : List ℕ
  pub acquired_ids : List ℕ
  pub acquired_values : Dict ℕ (List BucketId × Usage F)
  pub refunded_ids : List ℕ
  pub refunded_order : List ℕ
  pub refunded_ids_cap : ℕ
  pub waiters : List ℕ
  pub sleep_interval : F

module _ {F : Type 0} where
  abbrev pub id_of : MemoryBucket F → BucketId
  id_of b = (b.usage_metric, b.per_seconds)

  -- `_bucket_ids`
  abbrev pub ids_of : List (MemoryBucket F) → List BucketId
  ids_of [] = []
  ids_of (b ∷ bs) = id_of b ∷ ids_of bs

  -- {bucket.usage_metric for bucket in buckets}
  abbrev pub metrics_of : List (MemoryBucket F) → List ℕ
  metrics_of [] = []
  metrics_of (b ∷ bs) = b.usage_metric ∷ metrics_of bs

  -- `next((b for b in buckets if ...), None)`, and `_bucket_registry.get`
  abbrev pub registered : List (MemoryBucket F) → BucketId → Option (MemoryBucket F)
  registered [] id = none
  registered (b ∷ bs) id = if id_of b == id then some b else registered bs id

  abbrev pub max_capacities : List (MemoryBucket F) → Capacities F
  max_capacities [] = []
  max_capacities (b ∷ bs) = (id_of b, b.max_capacity) ∷ max_capacities bs

  -- {metric for metric, _ in capacities}
  abbrev pub active_metrics : Capacities F → List ℕ
  active_metrics [] = []
  active_metrics ((id, _) ∷ cs) = id.0 ∷ active_metrics cs

  abbrev pub ensure_usage_metrics_are_active : Usage F → List ℕ → Result (Unit {0})
  ensure_usage_metrics_are_active usage active =
      raise_if (not (is_subset (keys usage) active)) (value_error inactive_metrics)

module _ {F : Type 0} ⦃fl : Float F⦄ where
  -- The buckets have distinct ids (`UsageQuotas.add_metric` refuses a second quota for one), so the
  -- dict that the loop builds is a list with one entry for each bucket. The list of the buckets on
  -- a fresh start goes to a callback only, and is left out.
  unfoldable pub get_capacities : F → List (MemoryBucket F) → Result (Capacities F)
  get_capacities current_time [] = ok []
  get_capacities current_time (b ∷ bs) = do
    c ← get_capacity b current_time
    cs ← get_capacities current_time bs
    ok ((id_of b, c.amount) ∷ cs)

  -- One turn of the loop of `_set_capacities`: the first bucket of that id is written.
  unfoldable pub set_one : BucketId → F → F → Bool → Action (List (MemoryBucket F)) (Unit {0})
  set_one id amount current_time allow_negative [] = (err (value_error bucket_not_found), [])
  set_one id amount current_time allow_negative (b ∷ bs) =
      if id_of b == id
      then (let (r, b') = set_capacity amount current_time allow_negative b in (r, b' ∷ bs))
      else (let (r, bs') = set_one id amount current_time allow_negative bs in (r, b ∷ bs'))

  -- `_set_capacities`: what the earlier turns wrote stays written when a later one raises.
  unfoldable pub set_capacities :
      Capacities F → F → Bool → Action (List (MemoryBucket F)) (Unit {0})
  set_capacities [] current_time allow_negative = Action.pure tt
  set_capacities ((id, amount) ∷ cs) current_time allow_negative =
      Action.◌>>◌ (set_one id amount current_time allow_negative)
        (set_capacities cs current_time allow_negative)

  unfoldable pub write_capacities : Capacities F → F → Bool → Action (Backend F) (Unit {0})
  write_capacities capacities current_time allow_negative b =
      let (r, bs) = set_capacities capacities current_time allow_negative b.buckets in
      (r, record b { buckets = bs })
