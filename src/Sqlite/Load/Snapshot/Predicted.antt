-- ===== src/Sqlite/Load/Snapshot/Predicted.antt =====
-- A snapshot reports what the next operation would find, over all the buckets of an engine.
use token_throttle.Base.{
  ◌≡◌, ◌∙◌, sym, refl, true, false, List, [], ◌∷◌, map, All, arith, ◌==◌, nat_eq, pair_eq,
}
use token_throttle.Float.{Float}
use token_throttle.Exceptions.{ok}
use token_throttle.Action.{◌>>=◌, pure, gets}
use token_throttle.Action.Rules.{>>=-Returns}
use token_throttle.Sqlite.Engine.{BucketSpec, Store, select_bucket, bucket_ids_of}
use token_throttle.Sqlite.Frame.{other_row}
use token_throttle.Sqlite.Load.{BucketState, load_state, load_each, load_states}
use token_throttle.Sqlite.Load.Frame.{load_state-Keeps}
use token_throttle.Sqlite.Load.Prediction.{SameEvidence, then_result}
use token_throttle.Sqlite.Load.Snapshot.{load_state_predicts}
use token_throttle.Sqlite.Overrides.{inspect_snapshot, inspect_counts}
use token_throttle.Sqlite.Write.Stored.{IsOnce}

module _ {F : Type 0} ⦃fl : Float F⦄ (now : F) where
  -- The rows of the buckets are the same in both stores.
  abbrev SameRows : List (BucketSpec F) → Store F → Store F → Type 0
  SameRows specs s s' =
      All (λ (k : BucketSpec F). select_bucket k.bucket_id s' ≡ select_bucket k.bucket_id s) specs

  -- Loading the state of a bucket leaves the rows of the others.
  rows_after :
      (spec : BucketSpec F) (specs : List (BucketSpec F)) (k : BucketState F) (s s' t : Store F)
      → load_state now true spec s ≡ (ok k, t)
      → All (λ j. (j == spec.bucket_id) ≡ false) (map (λ (k : BucketSpec F). k.bucket_id) specs)
      → SameRows specs s s'
      → SameRows specs t s'
  rows_after spec [] k s s' t h once same = tt
  rows_after spec (a ∷ specs) k s s' t h once same =
      let differ : (spec.bucket_id == a.bucket_id) ≡ false = ground (arith, once.0) in
      let kept =
        (load_state-Keeps spec (other_row a.bucket_id spec.bucket_id differ) now true).after s in
      let here : (load_state now true spec s).1 ≡ t = ground (arith, h) in
      (rw (← here) (same.0 ∙ sym kept.row), rows_after spec specs k s s' t h once.1 same.1)

  load_each_predicts :
      (specs : List (BucketSpec F)) (states : List (BucketState F)) (s s' t : Store F)
      → IsOnce (map (λ (k : BucketSpec F). k.bucket_id) specs)
      → SameEvidence s s'
      → SameRows specs s s'
      → load_each now true specs s ≡ (ok states, t)
      → load_each now false specs s' ≡ (ok states, s')
  unfolding load_each
  load_each_predicts [] states s s' t once k same h = ground (arith, h)
  load_each_predicts (spec ∷ specs) states s s' t once k same h =
      let f = λ (k : BucketState F). load_each now true specs >>= λ ks. pure (k ∷ ks) in
      let a = >>=-Returns (load_state now true spec) f s states t h in
      let b =
        >>=-Returns (load_each now true specs) (λ ks. pure (a.value ∷ ks)) a.middle states t
          a.second in
      let here : a.value ∷ b.value ≡ states = ground (arith, b.second) in
      let p = load_state_predicts spec now s s' k same.0 in
      let first = p.result a.value a.middle a.first in
      let rest =
        load_each_predicts specs b.value a.middle s' b.middle once.1
          (p.evidence a.value a.middle a.first)
          (rows_after spec specs a.value s s' a.middle a.first once.0 same.1) b.first in
      rw (← here) (
        then_result (load_state now false spec s')
          (λ k. load_each now false specs >>= λ ks. pure (k ∷ ks)) a.value s'
          (ok (a.value ∷ b.value), s') first
          (then_result (load_each now false specs s') (λ ks. pure (a.value ∷ ks)) b.value s'
            (ok (a.value ∷ b.value), s') rest refl))

  all_rows : (specs : List (BucketSpec F)) (s : Store F) → SameRows specs s s
  all_rows [] s = tt
  all_rows (k ∷ specs) s = (refl, all_rows specs s)

  -- Whenever an operation can load the states of its buckets, which it repairs in the table as it
  -- goes, a snapshot taken instead at that time reports exactly these states, with the counts of the
  -- rows, and it changes nothing.
  pub inspect_snapshot_predicts :
      (states : List (BucketState F)) (s t : Store F)
      → IsOnce (bucket_ids_of s.engine)
      → load_states now true s ≡ (ok states, t)
      → inspect_snapshot now s ≡ (ok (states, inspect_counts s), s)
  unfolding load_states inspect_snapshot
  inspect_snapshot_predicts states s t once h =
      then_result (load_states now false s)
        (λ states. gets (λ s. inspect_counts s) >>= λ counts. pure (states, counts)) states s
        (ok (states, inspect_counts s), s)
        (load_each_predicts s.engine.specs states s s t once (record { until = refl })
          (all_rows s.engine.specs s) h)
        refl
