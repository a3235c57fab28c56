-- ===== src/Memory/Consume.antt =====
-- _memory/_sync_backend.py, `_try_consume_locked` and `consume_capacity`: usage is taken from every
-- bucket of its metric, if each has enough, or unconditionally. The clock is read once and is an
-- argument; warnings and callbacks write nothing and are left out.
pub mod Record
pub mod Effects
use token_throttle.Base.{
  ℕ, Bool, true, false, not, ◌&&◌, Option, none, some, List, [], ◌∷◌, any, if◌then◌else◌, ◌==◌,
  nat_eq, pair_eq,
}
use token_throttle.Base.Dict.{Dict, lookup}
use token_throttle.Float.{Float, max_f}
use token_throttle.Exceptions.{
  Result, ok, err, Error, value_error, exceeds_max_capacity, other_error,
}
use token_throttle.Exceptions
use token_throttle.Action.{Action, ◌>>=◌, ◌>>◌, pure, lift, gets, modify, branch}
use token_throttle.Validation.{BucketId, Usage, validate_backend_usage}
use token_throttle.Memory.Bucket.{MemoryBucket}
use token_throttle.Memory.State.{
  Backend, Capacities, get_capacities, write_capacities, max_capacities, active_metrics,
  ensure_usage_metrics_are_active,
}
use token_throttle.Memory.Reservations.{is_replay, record_if_named}

module _ {F : Type 0} ⦃fl : Float F⦄ where
  open fl use {sub, neg, lt}

  -- `usage_amount > bucket.max_capacity` for a bucket of the metric
  abbrev pub exceeds_bucket : ℕ → F → List (MemoryBucket F) → Bool
  exceeds_bucket metric amount = any (λ b. (b.usage_metric == metric) && lt b.max_capacity amount)

  abbrev pub exceeds_some_bucket : Usage F → List (MemoryBucket F) → Bool
  exceeds_some_bucket [] bs = false
  exceeds_some_bucket ((metric, amount) ∷ usage) bs =
      if exceeds_bucket metric amount bs then true else exceeds_some_bucket usage bs

  -- `usage_amount > cap_amount` for an entry of the metric
  abbrev pub short_of : ℕ → F → Capacities F → Bool
  short_of metric amount = any (λ (c : BucketId × F). (c.0.0 == metric) && lt c.1 amount)

  abbrev pub is_short : Usage F → Capacities F → Bool
  is_short [] cs = false
  is_short ((metric, amount) ∷ usage) cs =
      if short_of metric amount cs then true else is_short usage cs

  abbrev pub subtract : F → Option F → F
  subtract amount none = amount
  subtract amount (some used) = sub amount used

  -- The entries with the usage of their metric taken off.
  abbrev pub consumed : Usage F → Capacities F → Capacities F
  consumed usage [] = []
  consumed usage ((id, amount) ∷ cs) = (id, subtract amount (lookup usage id.0)) ∷ consumed usage cs

  -- `some` of the new capacities, or `none` where a bucket has too little.
  unfoldable pub try_consume_locked :
      Usage F → Capacities F → List (MemoryBucket F) → Result (Option (Capacities F))
  try_consume_locked usage preconsumption buckets =
      Exceptions.◌>>◌ (ensure_usage_metrics_are_active usage (active_metrics preconsumption)) (
        if exceeds_some_bucket usage buckets
        then err (value_error exceeds_max_capacity)
        else if is_short usage preconsumption
        then ok none
        else ok (some (consumed usage preconsumption)))

  -- An entry with its usage taken off, down to minus the bucket's maximum.
  abbrev pub overdraw : F → Option F → Option F → Result F
  overdraw amount none maximum = ok amount
  overdraw amount (some used) none = err other_error
  overdraw amount (some used) (some maximum) = ok (max_f (sub amount used) (neg maximum))

  unfoldable pub overdrawn : Usage F → Capacities F → Capacities F → Result (Capacities F)
  overdrawn usage max_cap [] = ok []
  overdrawn usage max_cap ((id, amount) ∷ cs) =
      Exceptions.◌>>=◌ (overdraw amount (lookup usage id.0) (lookup max_cap id))
        λ left. Exceptions.◌>>=◌ (overdrawn usage max_cap cs) λ rest. ok ((id, left) ∷ rest)

  unfoldable pub consume_new : Usage F → Option ℕ → F → Action (Backend F) F
  unfolding overdrawn write_capacities get_capacities record_if_named
  consume_new usage reservation_id current_time = do
    buckets ← gets (λ b. b.buckets)
    pre ← lift (get_capacities current_time buckets)
    lift (ensure_usage_metrics_are_active usage (active_metrics pre))
    post ← lift (overdrawn usage (max_capacities buckets) pre)
    modify (record_if_named reservation_id usage)
    write_capacities post current_time true
    pure current_time

  -- `consume_capacity` (`record_usage` of the limiter); a replay returns the time it is seen.
  unfoldable pub consume_capacity : Usage F → Option ℕ → F → Action (Backend F) F
  unfolding consume_new is_replay validate_backend_usage
  consume_capacity usage reservation_id current_time = do
    names ← gets (λ b. b.usage_metric_names)
    lift (validate_backend_usage usage names)
    replayed ← (λ b. (is_replay reservation_id usage b, b))
    branch replayed (pure current_time) (consume_new usage reservation_id current_time)
