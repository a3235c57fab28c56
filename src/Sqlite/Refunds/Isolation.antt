-- ===== src/Sqlite/Refunds/Isolation.antt =====
-- Giving capacity back touches no row of another engine.
use token_throttle.Base.{ℕ, refl, Option, none, some, List}
use token_throttle.Float.{Float}
use token_throttle.Action.{◌>>=◌, gets}
use token_throttle.Action.Rules.{
  Keeps, >>=-Keeps, lift-Keeps, pure-Keeps, raise-Keeps, gets-Keeps, raise_when-Keeps, modify-Keeps,
  reads-Keeps,
}
use token_throttle.Validation.{BucketId, Usage}
use token_throttle.Memory.State.{Capacities}
use token_throttle.Sqlite.Engine.{Store, Turn, add_tombstone}
use token_throttle.Sqlite.Load.{BucketState}
use token_throttle.Sqlite.Load.Frame.{load_states-Keeps}
use token_throttle.Sqlite.Write.Frame.{write_all-Keeps}
use token_throttle.Sqlite.Markers.Isolation.{verify_marker-others, add_tombstone-others}
use token_throttle.Sqlite.Refunds.{
  Reservation, authorise_with, authorise, new_tombstone, bury, refund_written, refund_authorised,
  refund_at, refund, refund_usage_of, require_marker, forget_marker, cleanup_at,
  cleanup_consumption,
}
use token_throttle.Sqlite.Isolation.{
  frame, LeavesOthers, others, prune-others, transaction-others, delete_marker-others,
}

module _ {F : Type 0} ⦃fl : Float F⦄ (now : F) where
  ruleset rules = (
    >>=-Keeps, lift-Keeps, pure-Keeps, raise-Keeps, gets-Keeps, raise_when-Keeps, modify-Keeps,
    prune-others, others, frame,
  )

  authorise_with-others :
      (rid : ℕ) (family : Option ℕ) (ids : Option (List BucketId)) (reserved : Option (Usage F))
      → Keeps (LeavesOthers now) (authorise_with rid family ids reserved now)
  unfolding authorise_with
  authorise_with-others rid (some family) (some ids) (some reserved) =
      verify_marker-others now now rid family ids reserved
  authorise_with-others rid (some family) (some ids) none = search rules
  authorise_with-others rid (some family) none reserved = search rules
  authorise_with-others rid none ids reserved = search rules

  authorise-others :
      (q : Reservation F) (rid : Option ℕ) → Keeps (LeavesOthers now) (authorise q now rid)
  unfolding authorise
  authorise-others q none = search rules
  authorise-others q (some rid) =
      authorise_with-others rid q.model_family q.bucket_ids q.reserved_usage

  add_own_tombstone-others :
      (rid : ℕ)
      → Keeps
          (LeavesOthers now)
          (gets (λ (s : Store F). s.engine) >>= λ e. add_tombstone (new_tombstone e rid now))
  add_own_tombstone-others rid =
      reads-Keeps (others now) (λ s. s.engine) (λ e. add_tombstone (new_tombstone e rid now))
        λ s. add_tombstone-others now now (new_tombstone s.engine rid now) s refl

  bury-others : (rid : Option ℕ) → Keeps (LeavesOthers now) (bury now rid)
  unfolding bury
  bury-others none = search rules
  bury-others (some rid) = search (add_own_tombstone-others, rules, delete_marker-others) depth 10

  refund_written-others :
      (amounts : Usage F) (rid : Option ℕ) (states : List (BucketState F)) (written : Capacities F)
      → Keeps (LeavesOthers now) (refund_written amounts now rid states written)
  unfolding refund_written
  refund_written-others amounts rid states written =
      search (rules, write_all-Keeps, bury-others) depth 10

  refund_authorised-others :
      (amounts : Usage F) (ids : List BucketId) (rid : Option ℕ)
      → Keeps (LeavesOthers now) (refund_authorised amounts ids rid now)
  unfolding refund_authorised
  refund_authorised-others amounts ids rid =
      search (rules, load_states-Keeps, refund_written-others) depth 10

  refund_at-others :
      (amounts : Usage F) (ids : List BucketId) (q : Reservation F)
      → Keeps (LeavesOthers now) (refund_at amounts ids q now)
  unfolding refund_at
  refund_at-others amounts ids q =
      search (rules, authorise-others, refund_authorised-others) depth 14

  require_marker-others : (rid : Option ℕ) → Keeps (LeavesOthers now) (require_marker {F = F} rid)
  unfolding require_marker
  require_marker-others none = search rules
  require_marker-others (some rid) = search rules

  forget_marker-others : (rid : Option ℕ) (s : Store F) → LeavesOthers now s (forget_marker rid s)
  unfolding forget_marker
  forget_marker-others none s = (others now).same s
  forget_marker-others (some rid) s = delete_marker-others now rid s

  cleanup_at-others :
      (usage : Usage F) (ids : List BucketId) (rid : Option ℕ)
      → Keeps (LeavesOthers now) (cleanup_at usage ids rid now)
  unfolding cleanup_at
  cleanup_at-others usage ids rid =
      search
        (rules, require_marker-others, load_states-Keeps, write_all-Keeps, forget_marker-others)
        depth 14

module _ {F : Type 0} ⦃fl : Float F⦄ (turn : Turn F) where
  pub refund-others :
      (reserved actual : Usage F) (ids : List BucketId) (q : Reservation F)
      → Keeps (LeavesOthers turn.now) (refund turn reserved actual ids q)
  unfolding refund
  refund-others reserved actual ids q =
      >>=-Keeps (others turn.now) (lift-Keeps (others turn.now) (refund_usage_of reserved actual))
        λ amounts.
          transaction-others turn (λ now. refund_at amounts ids q now)
            (refund_at-others turn.now amounts ids q)

  pub cleanup_consumption-others :
      (usage : Usage F) (ids : List BucketId) (rid : Option ℕ)
      → Keeps (LeavesOthers turn.now) (cleanup_consumption turn usage ids rid)
  unfolding cleanup_consumption
  cleanup_consumption-others usage ids rid =
      transaction-others turn (λ now. cleanup_at usage ids rid now)
        (cleanup_at-others turn.now usage ids rid)
