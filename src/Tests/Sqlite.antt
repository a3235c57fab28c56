-- ===== src/Tests/Sqlite.antt =====
-- An SQLite engine on shared data: two buckets of one family, and a row of another deployment.
use token_throttle.Base.{◌≡◌, ◌≤◌, ◌∷◌, [], refl, true, false, some, none, ℕ, All, pair_eq, nat_eq}
use token_throttle.Base.Int.{ℤ, pos, negsuc}
use token_throttle.Float.{zero_f, max_f}
use token_throttle.Float.Ints.{ints, ints-IsIeee}
use token_throttle.Exceptions.{Result, ok, err, is_ok, duplicate_refund, duplicate_acquire}
use token_throttle.Validation.{Usage, BucketId}
use token_throttle.Validation.Amounts.{fits}
use token_throttle.Base.Dict.{lookup}
use token_throttle.Capacity.{
  calculate_capacity, calculate_rate_per_sec, elapsed, validate_max_capacity_finite_positive,
}
use token_throttle.Sqlite.Ttl.{debt_ttl_seconds, resolve_max_reservation_lifetime_seconds_from_ttls}
use token_throttle.Sqlite.Ttl.Cover.{
  repaid_after, debt_ttl_seconds_covers, resolve_max_lifetime_covered,
}
use token_throttle.Sqlite.Tables.{BucketRow}
use token_throttle.Sqlite.Engine.{SqliteEngine, Store, Turn, prune, bucket_ids_of, clear_pending}
use token_throttle.Sqlite.Isolation.{LeavesOthers}
use token_throttle.Sqlite.Write.Stored.{IsStored}
use token_throttle.Sqlite.Markers.{raise_if_duplicate_acquire, verify_marker}
use token_throttle.Sqlite.Operations.{CapacityResult, try_consume, consume}
use token_throttle.Sqlite.Operations.Remembered.{try_consume_remembered}
use token_throttle.Sqlite.Operations.Amounts.{Holds, left_by}
use token_throttle.Sqlite.Operations.Taken.{consume-IsStored, try_consume-IsStored}
use token_throttle.Sqlite.Refunds.{Reservation, RefundResult, refund}
use token_throttle.Sqlite.Refunds.Once.{refund_once}
use token_throttle.Sqlite.Run.{Operation, try_consuming, run}
use token_throttle.Sqlite.Run.Isolated.{run_isolated}
use token_throttle.Sqlite.Run.Failure.{failed_run_unchanged}
open ints use {le, lt, mul, neg, sub, from_nat}

abbrev pub engine : SqliteEngine ℤ
engine = record {
  key_prefix = 1;
  model_family = 2;
  specs =
      record { bucket_id = (1, 60); configured_max_capacity = pos 600 }
      ∷ record { bucket_id = (2, 1); configured_max_capacity = pos 50 }
      ∷ [];
  bucket_ttl_seconds = 1000;
  refund_dedup_ttl_seconds = 500;
  override_ttl_seconds = 300;
  max_reservation_lifetime_seconds = pos 200;
  prune_batch_size = 10;
  state_confirmed_until = [];
  pending_state_confirmations = [];
}

abbrev pub stored_row : ℕ → BucketId → ℤ → BucketRow ℤ
stored_row prefix id capacity = record {
  key_prefix = prefix;
  model_family = 2;
  bucket_id = id;
  capacity = some capacity;
  last_checked = some (pos 90);
  override_value = none;
  override_expires_at = none;
  override_configured_max_capacity = none;
  updated_at = pos 90;
  expires_at = pos 1090;
}

abbrev pub store : Store ℤ
store = record {
  db = record {
    buckets = stored_row 1 (1, 60) (pos 200) ∷ stored_row 5 (1, 60) (pos 7) ∷ [];
    acquire_markers = [];
    refund_tombstones = [];
  };
  engine = engine;
}

abbrev turn_at : ℕ → Turn ℤ
turn_at now = record {
  times_out = false;
  is_busy = false;
  timeout_on_busy = false;
  now = pos now;
  commit_busy = false;
}

abbrev usage : Usage ℤ
usage = (1, pos 120) ∷ (2, pos 5) ∷ []

abbrev other_usage : Usage ℤ
other_usage = (1, pos 121) ∷ (2, pos 5) ∷ []

abbrev nothing_taken : CapacityResult ℤ
nothing_taken = record {
  available = false;
  current_time = pos 0;
  pre_capacities = [];
  post_capacities = [];
  states = [];
  replayed = false;
}

abbrev result_of : Result (CapacityResult ℤ) → CapacityResult ℤ
result_of (ok r) = r
result_of (err e) = nothing_taken

abbrev tried : Result (CapacityResult ℤ) × Store ℤ
tried = try_consume (turn_at 100) usage (some 9) (some (pos 50)) store

tried_ok :
    try_consume (turn_at 100) usage (some 9) (some (pos 50)) store
    ≡ (ok (result_of tried.0), tried.1)
unfolding try_consume calculate_capacity calculate_rate_per_sec elapsed
tried_ok = refl

abbrev nothing_refunded : RefundResult ℤ
nothing_refunded = record {
  current_time = pos 0;
  pre_capacities = [];
  post_capacities = [];
  refunded_usage = [];
}

abbrev refund_of : Result (RefundResult ℤ) → RefundResult ℤ
refund_of (ok r) = r
refund_of (err e) = nothing_refunded

abbrev reservation : Reservation ℤ
reservation = record {
  reservation_id = some 9;
  model_family = some 2;
  bucket_ids = some ((1, 60) ∷ (2, 1) ∷ []);
  reserved_usage = some usage;
}

abbrev actual : Usage ℤ
actual = (1, pos 100) ∷ (2, pos 5) ∷ []

abbrev refunded : Result (RefundResult ℤ) × Store ℤ
refunded = refund (turn_at 110) usage actual ((1, 60) ∷ (2, 1) ∷ []) reservation tried.1

abbrev spent : Result (CapacityResult ℤ) × Store ℤ
spent = consume (turn_at 100) usage (some 9) (some (pos 50)) store

debt_ttl_seconds_covers_example :
    (10 ≤ 180) × (le (repaid_after (negsuc 599) 60 (pos 600) (pos 300)) (from_nat 180) ≡ true)
unfolding debt_ttl_seconds
debt_ttl_seconds_covers_example =
    debt_ttl_seconds_covers ints-IsIeee (negsuc 599) 10 60 (pos 600) (pos 300) 180 refl refl

resolve_max_lifetime_covered_example :
    (pos 200 ≡ pos 200)
    × (lt zero_f (pos 200) ≡ true)
    × (le (pos 2) (from_nat 1) ≡ false)
    × (lt (mul (pos 200) (pos 2)) (from_nat 1000) ≡ true)
    × (lt (mul (pos 200) (pos 2)) (from_nat 500) ≡ true)
unfolding resolve_max_reservation_lifetime_seconds_from_ttls
resolve_max_lifetime_covered_example =
    resolve_max_lifetime_covered ints-IsIeee (pos 200) (pos 2) (pos 200) 1000 500 refl

try_consume_remembered_example :
    ((raise_if_duplicate_acquire (some 9) (pos 140) usage (prune (pos 140) tried.1)).0 ≡ ok true)
    × ((raise_if_duplicate_acquire (some 9) (pos 140) other_usage (prune (pos 140) tried.1)).0
        ≡ err (duplicate_refund duplicate_acquire 9))
    × ((verify_marker 9 2 (bucket_ids_of engine) usage (pos 140) (prune (pos 140) tried.1)).0
        ≡ ok tt)
unfolding try_consume validate_max_capacity_finite_positive calculate_rate_per_sec
    calculate_capacity
try_consume_remembered_example =
    try_consume_remembered ints-IsIeee (turn_at 100) usage other_usage 9 (pos 50) (pos 140)
      (result_of tried.0) store tried.1 tried_ok refl refl refl refl

spent_ok :
    consume (turn_at 100) usage (some 9) (some (pos 50)) store ≡ (ok (result_of spent.0), spent.1)
unfolding consume calculate_capacity calculate_rate_per_sec elapsed
spent_ok = refl

consume-IsStored_example :
    ((result_of spent.0).post_capacities
      ≡ left_by usage (λ m. λ x. max_f (neg m) x) (result_of spent.0).states)
    × All (λ c. IsStored (pos 100) c.0 c.1 spent.1) (result_of spent.0).post_capacities
unfolding consume validate_max_capacity_finite_positive calculate_rate_per_sec calculate_capacity
consume-IsStored_example =
    consume-IsStored (turn_at 100) usage (some 9) (some (pos 50)) (result_of spent.0) store spent.1
      ((refl, tt), (tt, tt)) spent_ok refl

try_consume-IsStored_example :
    (((result_of tried.0).post_capacities ≡ left_by usage (λ m. λ x. x) (result_of tried.0).states)
      × All (λ c. IsStored (pos 100) c.0 c.1 tried.1) (result_of tried.0).post_capacities)
    × All (λ k. Holds k.capacity (lookup usage k.spec.bucket_id.0)) (result_of tried.0).states
    × All (λ k. fits usage k.spec.bucket_id.0 k.max_capacity ≡ true) (result_of tried.0).states
unfolding try_consume validate_max_capacity_finite_positive calculate_rate_per_sec
    calculate_capacity
try_consume-IsStored_example =
    try_consume-IsStored (turn_at 100) usage (some 9) (some (pos 50)) (result_of tried.0) store
      tried.1 ((refl, tt), (tt, tt)) tried_ok refl refl

refunded_ok :
    refund (turn_at 110) usage actual ((1, 60) ∷ (2, 1) ∷ []) reservation tried.1
    ≡ (ok (refund_of refunded.0), refunded.1)
unfolding try_consume validate_max_capacity_finite_positive calculate_rate_per_sec
    calculate_capacity refund
refunded_ok = refl

refund_once_example :
    (is_ok (refund (turn_at 120) usage usage [] reservation refunded.1).0 ≡ false)
    × (is_ok (try_consume (turn_at 120) other_usage (some 9) (some (pos 50)) refunded.1).0 ≡ false)
    × (is_ok (consume (turn_at 120) other_usage (some 9) (some (pos 50)) refunded.1).0 ≡ false)
unfolding try_consume validate_max_capacity_finite_positive calculate_rate_per_sec
    calculate_capacity refund
refund_once_example =
    refund_once ints-IsIeee (turn_at 110) (turn_at 120) usage actual ((1, 60) ∷ (2, 1) ∷ [])
      reservation 9 (refund_of refunded.0) tried.1 refunded.1 usage usage [] reservation other_usage
      (some (pos 50)) refl refl refunded_ok refl

abbrev operation : Operation ℤ
operation = try_consuming usage (some 9) (some (pos 50))

run_isolated_example : LeavesOthers (pos 100) store (run (turn_at 100) operation store).1
run_isolated_example = run_isolated (turn_at 100) operation store

abbrev busy_at_commit : Turn ℤ
busy_at_commit = record (turn_at 100) { commit_busy = true }

failed_run_unchanged_example :
    clear_pending (run busy_at_commit operation store).1 ≡ clear_pending store
unfolding try_consume validate_max_capacity_finite_positive calculate_rate_per_sec
    calculate_capacity run
failed_run_unchanged_example = failed_run_unchanged busy_at_commit operation store refl
