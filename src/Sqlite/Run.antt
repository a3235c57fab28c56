-- ===== src/Sqlite/Run.antt =====
-- _sqlite/_engine.py: every operation of an engine that writes, and histories of them on one file.
pub mod Failure
pub mod Isolated
use token_throttle.Base.{ℕ, Option, List}
use token_throttle.Base.Dict.{Dict}
use token_throttle.Float.{Float}
use token_throttle.Exceptions.{Result, ok, err}
use token_throttle.Validation.{BucketId, Usage}
use token_throttle.Capacity.{PyValue}
use token_throttle.Sqlite.Engine.{Store, Turn}
use token_throttle.Sqlite.Initialize.{initialize_buckets}
use token_throttle.Sqlite.Operations.{try_consume, consume}
use token_throttle.Sqlite.Refunds.{Reservation, refund, cleanup_consumption}
use token_throttle.Sqlite.Overrides.{
  set_max_capacity, apply_configured_max_capacity, clear_max_capacity_overrides,
}

pub data Operation (F : Type 0) : Type 0 where
  initialize : Operation F
  try_consuming : Usage F → Option ℕ → Option F → Operation F
  consuming : Usage F → Option ℕ → Option F → Operation F
  refunding : Usage F → Usage F → List BucketId → Reservation F → Operation F
  cleaning_up : Usage F → List BucketId → Option ℕ → Operation F
  setting : BucketId → PyValue F → Operation F
  configuring : BucketId → PyValue F → Operation F
  clearing : List BucketId → Dict BucketId F → Operation F

-- The end of a call without the value that it returns.
abbrev pub ended : {A S : Type 0} → Result A × S → Result (Unit {0}) × S
ended (ok _, s) = (ok tt, s)
ended (err e, s) = (err e, s)

module _ {F : Type 0} ⦃fl : Float F⦄ where
  unfoldable pub run : Turn F → Operation F → Store F → Result (Unit {0}) × Store F
  run turn initialize s = initialize_buckets turn s
  run turn (try_consuming usage rid lifetime) s = ended (try_consume turn usage rid lifetime s)
  run turn (consuming usage rid lifetime) s = ended (consume turn usage rid lifetime s)
  run turn (refunding reserved actual ids q) s = ended (refund turn reserved actual ids q s)
  run turn (cleaning_up usage ids rid) s = cleanup_consumption turn usage ids rid s
  run turn (setting id value) s = set_max_capacity turn id value s
  run turn (configuring id value) s = apply_configured_max_capacity turn id value s
  run turn (clearing ids limits) s = clear_max_capacity_overrides turn ids limits s
