-- ===== src/Tests.antt =====
-- The data that the tests share, over whole numbers: a backend with a used and a fresh bucket.
pub mod Capacity
pub mod Calls
pub mod Limits
pub mod Bookkeeping
pub mod Sqlite
pub mod SqliteLoads
pub mod Acquire
use token_throttle.Base.{
  nat_eq, pair_eq, ℕ, ◌≡◌, refl, Bool, true, false, Option, some, none, List, [], ◌∷◌, arith,
}
use token_throttle.Base.Int.{ℤ, pos}
use token_throttle.Float.Ints.{ints}
use token_throttle.Capacity.Refill.{IsTime, IsRate}
use token_throttle.Validation.{Usage}
use token_throttle.Memory.Bucket.{MemoryBucket}
use token_throttle.Memory.Bucket.Limits.{IsValid}
use token_throttle.Memory.State.{Backend}
use token_throttle.Memory.Invariant.{IsBackend}

-- 600 a minute, of which 100 were left at time 0
abbrev pub used_bucket : MemoryBucket ℤ
used_bucket = record {
  capacity = some (pos 100);
  last_checked = some (pos 0);
  usage_metric = 1;
  model_family = 0;
  per_seconds = 60;
  max_capacity = pos 600;
  rate_per_sec = pos 10;
}

-- 50 a second
abbrev pub fresh_bucket : MemoryBucket ℤ
fresh_bucket = record {
  capacity = none;
  last_checked = none;
  usage_metric = 2;
  model_family = 0;
  per_seconds = 1;
  max_capacity = pos 50;
  rate_per_sec = pos 50;
}

-- Reservation 7 is live, and 8 is refunded.
abbrev pub backend : Backend ℤ
backend = record {
  buckets = used_bucket ∷ fresh_bucket ∷ [];
  configured_limits = [];
  usage_metric_names = 1 ∷ 2 ∷ [];
  acquired_ids = 7 ∷ [];
  acquired_values = (7, (((1, 60) ∷ (2, 1) ∷ [], (1, pos 90) ∷ (2, pos 5) ∷ []))) ∷ [];
  refunded_ids = 8 ∷ [];
  refunded_order = 8 ∷ [];
  refunded_ids_cap = 3;
  waiters = [];
  sleep_interval = pos 1;
}

abbrev pub usage : Usage ℤ
usage = (1, pos 120) ∷ (2, pos 5) ∷ []

abbrev pub ten : ℤ
ten = pos 10

pub ten-IsTime : IsTime ten
ten-IsTime = record { finite = refl; nonneg = refl }

pub used-IsRate : IsRate (pos 600) (pos 10)
used-IsRate = record { max_finite = refl; max_large = refl; rate_finite = refl; rate_pos = refl }

pub fresh-IsRate : IsRate (pos 50) (pos 50)
fresh-IsRate = record { max_finite = refl; max_large = refl; rate_finite = refl; rate_pos = refl }

pub used-IsValid : IsValid used_bucket
used-IsValid = record { rate = used-IsRate; stored = (refl, refl) }

pub backend-IsBackend : IsBackend backend
backend-IsBackend = record {
  valid = (used-IsValid, (record { rate = fresh-IsRate; stored = tt }, tt));
  distinct = (refl, (refl, tt));
  names = refl;
  registry = record {
    same_keys = refl;
    ordered = refl;
    nodup = (refl, tt);
    bounded = omega arith;
    disjoint = λ k h. ground arith;
  };
}
