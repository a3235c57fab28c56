-- ===== src/Sqlite/Operations/Isolation.antt =====
-- Taking capacity touches no row of another engine.
use token_throttle.Base.{ℕ, Bool, Option, List}
use token_throttle.Float.{Float}
use token_throttle.Action.Rules.{
  Keeps, >>=-Keeps, lift-Keeps, pure-Keeps, gets-Keeps, raise_when-Keeps, branch-Keeps,
  modify-Keeps,
}
use token_throttle.Validation.{Usage}
use token_throttle.Memory.State.{Capacities}
use token_throttle.Sqlite.Engine.{Turn}
use token_throttle.Sqlite.Load.{BucketState}
use token_throttle.Sqlite.Load.Frame.{load_states-Keeps}
use token_throttle.Sqlite.Write.Frame.{write_all-Keeps}
use token_throttle.Sqlite.Markers.Isolation.{
  raise_if_duplicate_acquire-others, insert_marker-others,
}
use token_throttle.Sqlite.Operations.{
  record_consumption, try_consume_new, try_consume_classified, consume_classified, try_consume_at,
  try_consume, consume_at, consume,
}
use token_throttle.Sqlite.Isolation.{frame, LeavesOthers, others, prune-others, transaction-others}

module _ {F : Type 0} ⦃fl : Float F⦄ (now : F) where
  ruleset rules = (
    >>=-Keeps, lift-Keeps, pure-Keeps, gets-Keeps, raise_when-Keeps, branch-Keeps, modify-Keeps,
    prune-others, others, frame,
  )

  record_consumption-others :
      (usage : Usage F) (rid : Option ℕ) (lifetime : Option F) (states : List (BucketState F))
      (post : Capacities F)
      → Keeps (LeavesOthers now) (record_consumption usage rid lifetime now states post)
  unfolding record_consumption
  record_consumption-others usage rid lifetime states post =
      search (rules, write_all-Keeps, insert_marker-others)

  try_consume_new-others :
      (usage : Usage F) (rid : Option ℕ) (lifetime : Option F) (states : List (BucketState F))
      → Keeps (LeavesOthers now) (try_consume_new usage rid lifetime now states)
  unfolding try_consume_new
  try_consume_new-others usage rid lifetime states = search (rules, record_consumption-others)

  try_consume_classified-others :
      (usage : Usage F) (rid : Option ℕ) (lifetime : Option F) (replayed : Bool)
      → Keeps (LeavesOthers now) (try_consume_classified usage rid lifetime now replayed)
  unfolding try_consume_classified
  try_consume_classified-others usage rid lifetime replayed =
      search (rules, load_states-Keeps, try_consume_new-others) depth 12

  try_consume_at-others :
      (usage : Usage F) (rid : Option ℕ) (lifetime : Option F)
      → Keeps (LeavesOthers now) (try_consume_at usage rid lifetime now)
  unfolding try_consume_at
  try_consume_at-others usage rid lifetime =
      search (rules, raise_if_duplicate_acquire-others, try_consume_classified-others) depth 12

  consume_classified-others :
      (usage : Usage F) (rid : Option ℕ) (lifetime : Option F) (replayed : Bool)
      → Keeps (LeavesOthers now) (consume_classified usage rid lifetime now replayed)
  unfolding consume_classified
  consume_classified-others usage rid lifetime replayed =
      search (rules, load_states-Keeps, record_consumption-others) depth 12

  consume_at-others :
      (usage : Usage F) (rid : Option ℕ) (lifetime : Option F)
      → Keeps (LeavesOthers now) (consume_at usage rid lifetime now)
  unfolding consume_at
  consume_at-others usage rid lifetime =
      search (rules, raise_if_duplicate_acquire-others, consume_classified-others) depth 12

module _ {F : Type 0} ⦃fl : Float F⦄ (turn : Turn F) where
  pub try_consume-others :
      (usage : Usage F) (rid : Option ℕ) (lifetime : Option F)
      → Keeps (LeavesOthers turn.now) (try_consume turn usage rid lifetime)
  unfolding try_consume
  try_consume-others usage rid lifetime =
      transaction-others turn (λ now. try_consume_at usage rid lifetime now)
        (try_consume_at-others turn.now usage rid lifetime)

  pub consume-others :
      (usage : Usage F) (rid : Option ℕ) (lifetime : Option F)
      → Keeps (LeavesOthers turn.now) (consume turn usage rid lifetime)
  unfolding consume
  consume-others usage rid lifetime =
      transaction-others turn (λ now. consume_at usage rid lifetime now)
        (consume_at-others turn.now usage rid lifetime)
