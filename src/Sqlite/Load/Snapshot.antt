-- ===== src/Sqlite/Load/Snapshot.antt =====
-- Loading the state of a bucket without writing finds what loading it with writes finds.
pub mod Predicted
use token_throttle.Base.{
  ◌≡◌, ◌∙◌, sym, refl, ap, Bool, true, false, ◌&&◌, Option, some, none, List, [], ◌∷◌, map, All,
  arith, ◌==◌, nat_eq, pair_eq,
}
use token_throttle.Float.{Float}
use token_throttle.Exceptions.{Result, ok, err}
use token_throttle.Action.{Action, ◌>>=◌, pure, lift, gets, modify, when, branch}
use token_throttle.Action.Rules.{Keeps, IsPreorder, >>=-Returns, modify-Keeps}
use token_throttle.Validation.{BucketId}
use token_throttle.Sqlite.Tables.{BucketRow}
use token_throttle.Sqlite.Engine.{
  BucketSpec, Store, select_bucket, update_bucket, delete_bucket, confirm, state_loss_suspected,
  bucket_ids_of,
}
use token_throttle.Sqlite.Frame.{IsRowFrame, KeepsRow, other_row}
use token_throttle.Sqlite.Load.{
  BucketState, drain_if_lost, state_of_row, load_state, load_each, load_states,
}
use token_throttle.Sqlite.Rows.{
  load_missing, load_inactive, load_limited, load_present, load_selected, load_row, remove_override,
  LoadedRow,
}
use token_throttle.Sqlite.Load.Frame.{
  insert_empty-Keeps, remove_override-Keeps, clear_pair-Keeps, drain-Keeps, repair_clock-Keeps,
  keep_debt-Keeps, load_state-Keeps,
}
use token_throttle.Sqlite.Write.Stored.{IsOnce}
use token_throttle.Sqlite.Load.Prediction.{
  SameEvidence, evidence_order, evidence_delete, evidence_frame, PredictsAt, Predicts, then_result,
  bind_at, >>=-Predicts, lift-Predicts, pure-Predicts, gets-Predicts, when-Predicts, skip-Predicts,
  branch-Predicts,
}

and_false : (b : Bool) → (b && false) ≡ false
and_false true = refl
and_false false = refl

module _ {F : Type 0} ⦃fl : Float F⦄ (spec : BucketSpec F) (now : F) where
  frame : IsRowFrame {F = F} SameEvidence spec.bucket_id
  frame = evidence_frame spec.bucket_id

  ruleset rules = (
    >>=-Predicts, lift-Predicts, pure-Predicts, branch-Predicts, skip-Predicts, when-Predicts, refl,
  )

  load_missing-Predicts : Predicts (load_missing now true spec) (load_missing now false spec)
  unfolding load_missing
  load_missing-Predicts = search (rules, insert_empty-Keeps, frame)

  removed-Keeps :
      (capacity last : Option F)
      → Keeps SameEvidence (modify (remove_override now spec.bucket_id capacity last))
  removed-Keeps capacity last =
      modify-Keeps evidence_order (remove_override-Keeps spec frame now capacity last)

  load_inactive-Predicts :
      (r : BucketRow F) (capacity last : Option F)
      → Predicts
          (load_inactive now true spec r capacity last)
          (load_inactive now false spec r capacity last)
  unfolding load_inactive
  load_inactive-Predicts r capacity last = search (rules, removed-Keeps) depth 12

  load_limited-Predicts :
      (r : BucketRow F) (capacity last value : Option F)
      → Predicts
          (load_limited now true spec r capacity last value)
          (load_limited now false spec r capacity last value)
  unfolding load_limited
  load_limited-Predicts r capacity last none = load_inactive-Predicts r capacity last
  load_limited-Predicts r capacity last (some value) = search rules

  load_present-Predicts :
      (r : BucketRow F) → Predicts (load_present now true spec r) (load_present now false spec r)
  unfolding load_present
  load_present-Predicts r =
      search (rules, and_false, clear_pair-Keeps, frame, load_limited-Predicts)

  load_selected-Predicts :
      (row : Option (BucketRow F))
      → Predicts (load_selected now true spec row) (load_selected now false spec row)
  unfolding load_selected
  load_selected-Predicts none = load_missing-Predicts
  load_selected-Predicts (some r) = search (
    rules, modify-Keeps, evidence_delete, evidence_order, load_missing-Predicts,
    load_present-Predicts,
  )

  suspected_alike :
      (s s' : Store F)
      → SameEvidence s s'
      → state_loss_suspected spec.bucket_id now s' ≡ state_loss_suspected spec.bucket_id now s
  unfolding state_loss_suspected
  suspected_alike s s' k = rw k.until refl

  drain_if_lost-Predicts :
      (capacity last : Option F)
      → Predicts
          (drain_if_lost now true spec capacity last)
          (drain_if_lost now false spec capacity last)
  unfolding drain_if_lost
  drain_if_lost-Predicts capacity last =
      search (rules, gets-Predicts, suspected_alike, modify-Keeps, evidence_order) depth 14

  -- The writer's store and the reader's have the same row of the bucket.
  load_row_predicts :
      (s s' : Store F)
      → SameEvidence s s'
      → select_bucket spec.bucket_id s' ≡ select_bucket spec.bucket_id s
      → PredictsAt s s' (load_row now true spec) (load_row now false spec)
  unfolding load_row
  load_row_predicts s s' k same =
      let p = (load_selected-Predicts (select_bucket spec.bucket_id s)).at s s' k in
      record { result = λ a t h. rw same (p.result a t h); evidence = λ a t h. p.evidence a t h }

  state_of_row-Predicts :
      (row : LoadedRow F)
      → Predicts (state_of_row now true spec row) (state_of_row now false spec row)
  unfolding state_of_row
  state_of_row-Predicts row =
      search (rules, drain_if_lost-Predicts, modify-Keeps, keep_debt-Keeps, frame, evidence_order)
        depth 16

  pub load_state_predicts :
      (s s' : Store F)
      → SameEvidence s s'
      → select_bucket spec.bucket_id s' ≡ select_bucket spec.bucket_id s
      → PredictsAt s s' (load_state now true spec) (load_state now false spec)
  unfolding load_state
  load_state_predicts s s' k same = bind_at (load_row_predicts s s' k same) state_of_row-Predicts
