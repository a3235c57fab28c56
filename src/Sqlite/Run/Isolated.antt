-- ===== src/Sqlite/Run/Isolated.antt =====
-- Engines that share a file do not touch each other's live rows.
use token_throttle.Float.{Float}
use token_throttle.Exceptions.{Result, ok, err}
use token_throttle.Sqlite.Engine.{Store, Turn}
use token_throttle.Sqlite.Initialize.Isolation.{initialize_buckets-others}
use token_throttle.Sqlite.Isolation.{LeavesOthers}
use token_throttle.Sqlite.Operations.{try_consume, consume}
use token_throttle.Sqlite.Operations.Isolation.{try_consume-others, consume-others}
use token_throttle.Sqlite.Refunds.{refund}
use token_throttle.Sqlite.Refunds.Isolation.{refund-others, cleanup_consumption-others}
use token_throttle.Sqlite.Overrides.Isolation.{
  set_max_capacity-others, apply_configured_max_capacity-others,
  clear_max_capacity_overrides-others,
}
use token_throttle.Sqlite.Run.{
  Operation, initialize, try_consuming, consuming, refunding, cleaning_up, setting, configuring,
  clearing, ended, run,
}

module _ {F : Type 0} ⦃fl : Float F⦄ where
  ended-others :
      {A : Type 0} (at : F) (s : Store F) (p : Result A × Store F)
      → LeavesOthers at s p.1
      → LeavesOthers at s (ended p).1
  ended-others at s (ok a, t) h = h
  ended-others at s (err e, t) h = h

  -- However an operation of an engine ends, the rows of other engines are in the three tables as
  -- before, in the same order and as often: the buckets of another key prefix or model family, and
  -- the markers and tombstones of another key prefix, unless they had expired when it ran.
  pub run_isolated :
      (turn : Turn F) (o : Operation F) (s : Store F) → LeavesOthers turn.now s (run turn o s).1
  unfolding run
  run_isolated turn initialize s = (initialize_buckets-others turn).after s
  run_isolated turn (try_consuming usage rid lifetime) s =
      ended-others turn.now s (try_consume turn usage rid lifetime s)
        ((try_consume-others turn usage rid lifetime).after s)
  run_isolated turn (consuming usage rid lifetime) s =
      ended-others turn.now s (consume turn usage rid lifetime s)
        ((consume-others turn usage rid lifetime).after s)
  run_isolated turn (refunding reserved actual ids q) s =
      ended-others turn.now s (refund turn reserved actual ids q s)
        ((refund-others turn reserved actual ids q).after s)
  run_isolated turn (cleaning_up usage ids rid) s =
      (cleanup_consumption-others turn usage ids rid).after s
  run_isolated turn (setting id value) s = (set_max_capacity-others turn id value).after s
  run_isolated turn (configuring id value) s =
      (apply_configured_max_capacity-others turn id value).after s
  run_isolated turn (clearing ids limits) s =
      (clear_max_capacity_overrides-others turn ids limits).after s
