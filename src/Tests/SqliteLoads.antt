-- ===== src/Tests/SqliteLoads.antt =====
-- Loading the states of buckets from the shared store, and from one that has lost its rows.
use token_throttle.Base.{◌≡◌, ◌∷◌, [], refl, true, false, some, List, pair_eq, nat_eq}
use token_throttle.Base.Int.{ℤ, pos}
use token_throttle.Float.{zero_f}
use token_throttle.Float.Ints.{ints, ints-IsIeee}
use token_throttle.Exceptions.{Result, ok, err}
use token_throttle.Capacity.{calculate_capacity, calculate_rate_per_sec, elapsed}
use token_throttle.Sqlite.Engine.{Store, BucketSpec, state_loss_suspected}
use token_throttle.Sqlite.Load.{BucketState, load_state, load_states}
use token_throttle.Sqlite.Load.Drained.{missing_state_drained}
use token_throttle.Sqlite.Load.Mirror.{IsMirror, load_state_mirrors}
use token_throttle.Memory.Bucket.{MemoryBucket, get_capacity}
use token_throttle.Sqlite.Load.Snapshot.Predicted.{inspect_snapshot_predicts}
use token_throttle.Sqlite.Overrides.{inspect_snapshot, inspect_counts}
use token_throttle.Tests.Sqlite.{engine, stored_row, store}
open ints use {le}

abbrev loaded : Result (List (BucketState ℤ)) × Store ℤ
loaded = load_states (pos 100) true store

abbrev states_of : Result (List (BucketState ℤ)) → List (BucketState ℤ)
states_of (ok states) = states
states_of (err e) = []

loaded_ok : load_states (pos 100) true store ≡ (ok (states_of loaded.0), loaded.1)
unfolding load_states calculate_capacity calculate_rate_per_sec elapsed
loaded_ok = refl

inspect_snapshot_predicts_example :
    inspect_snapshot (pos 100) store ≡ (ok (states_of loaded.0, inspect_counts store), store)
inspect_snapshot_predicts_example =
    inspect_snapshot_predicts (pos 100) (states_of loaded.0) store loaded.1 ((refl, tt), (tt, tt))
      loaded_ok

abbrev spec : BucketSpec ℤ
spec = record { bucket_id = (1, 60); configured_max_capacity = pos 600 }

-- The first row of the store in memory.
abbrev mirror : MemoryBucket ℤ
mirror = record {
  capacity = some (pos 200);
  last_checked = some (pos 90);
  usage_metric = 1;
  model_family = 2;
  per_seconds = 60;
  max_capacity = pos 600;
  rate_per_sec = pos 10;
}

mirror-IsMirror : IsMirror spec (stored_row 1 (1, 60) (pos 200)) mirror
unfolding calculate_rate_per_sec
mirror-IsMirror = record { capacity = refl; last_checked = refl; maximum = refl; rate = refl }

abbrev measured : BucketState ℤ
measured = record {
  spec = spec;
  capacity = pos 300;
  uncapped_capacity = pos 300;
  max_capacity = pos 600;
  override_active = false;
  is_fresh_start = false;
  lacks_last_checked = false;
  lacks_capacity = false;
  is_lost = false;
}

load_state_mirrors_example :
    get_capacity mirror (pos 100) ≡ ok (record { amount = pos 300; is_fresh_start = false })
unfolding load_state calculate_capacity calculate_rate_per_sec elapsed
load_state_mirrors_example =
    load_state_mirrors (pos 100) spec (stored_row 1 (1, 60) (pos 200)) mirror measured store store
      refl refl refl mirror-IsMirror refl refl

-- The rows are gone, and the engine has confirmed one of them until time 1000.
abbrev lost_store : Store ℤ
lost_store = record {
  db = record { buckets = []; acquire_markers = []; refund_tombstones = [] };
  engine = record engine { state_confirmed_until = ((1, 60), pos 1000) ∷ [] };
}

abbrev drained : BucketState ℤ
drained = record measured {
  capacity = pos 0;
  uncapped_capacity = pos 0;
  lacks_last_checked = true;
  lacks_capacity = true;
  is_lost = true;
}

missing_state_drained_example : (true ≡ true) × (false ≡ false) × (le (pos 0) zero_f ≡ true)
unfolding load_state state_loss_suspected calculate_capacity calculate_rate_per_sec elapsed
missing_state_drained_example =
    missing_state_drained ints-IsIeee (pos 100) spec drained lost_store
      (load_state (pos 100) true spec lost_store).1 refl refl refl
