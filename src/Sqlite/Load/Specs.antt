-- ===== src/Sqlite/Load/Specs.antt =====
-- The states that are loaded are those of the engine's buckets, one for each.
use token_throttle.Base.{Bool, ◌≡◌, refl, List, [], ◌∷◌, map, arith}
use token_throttle.Float.{Float}
use token_throttle.Exceptions.{ok}
use token_throttle.Action.{◌>>=◌, pure}
use token_throttle.Action.Rules.{Ends, >>=-Ends, pure-Ends, >>=-Returns}
use token_throttle.Sqlite.Engine.{BucketSpec, Store}
use token_throttle.Sqlite.Load.{BucketState, state_of_row, load_state, load_each, load_states}
use token_throttle.Sqlite.Rows.{LoadedRow}

module _ {F : Type 0} ⦃fl : Float F⦄ (now : F) (writable : Bool) where
  state_of_row-spec :
      (spec : BucketSpec F) (row : LoadedRow F)
      → Ends (state_of_row now writable spec row) (λ k _. k.spec ≡ spec)
  unfolding state_of_row
  state_of_row-spec spec row = search (>>=-Ends, pure-Ends) depth 14

  load_state-spec :
      (spec : BucketSpec F) → Ends (load_state now writable spec) (λ k _. k.spec ≡ spec)
  unfolding load_state
  load_state-spec spec = search (>>=-Ends, state_of_row-spec)

  abbrev pub specs_of : List (BucketState F) → List (BucketSpec F)
  specs_of states = map (λ (k : BucketState F). k.spec) states

  load_each-specs :
      (specs : List (BucketSpec F)) (states : List (BucketState F)) (s t : Store F)
      → load_each now writable specs s ≡ (ok states, t)
      → map (λ (k : BucketState F). k.spec) states ≡ specs
  unfolding load_each
  load_each-specs [] states s t h = ground (arith, h)
  load_each-specs (spec ∷ specs) states s t h =
      let f = λ (k : BucketState F). load_each now writable specs >>= λ ks. pure (k ∷ ks) in
      let a = >>=-Returns (load_state now writable spec) f s states t h in
      let b =
        >>=-Returns (load_each now writable specs) (λ ks. pure (a.value ∷ ks)) a.middle states t
          a.second in
      let here : a.value ∷ b.value ≡ states = ground (arith, b.second) in
      let first = (load_state-spec spec).after s a.value a.middle a.first in
      let rest = load_each-specs specs b.value a.middle b.middle b.first in
      rw (← here, first, rest) refl

  pub load_states-specs :
      (states : List (BucketState F)) (s t : Store F)
      → load_states now writable s ≡ (ok states, t)
      → map (λ (k : BucketState F). k.spec) states ≡ s.engine.specs
  unfolding load_states
  load_states-specs states s t h = load_each-specs s.engine.specs states s t h
