-- ===== src/Sqlite/Operations/Taken.antt =====
-- What a call takes: the result says what has been stored, and the formula from what was loaded.
use token_throttle.Base.{
  ℕ, Bool, true, false, ◌≡◌, refl, Option, nat_eq, List, [], ◌∷◌, All, map, arith, Bool-cases, inl,
  inr, pair_eq,
}
use token_throttle.Base.Dict.{keys, lookup}
use token_throttle.Float.{Float, max_f}
use token_throttle.Exceptions.{ok}
use token_throttle.Action.{Action, ◌>>◌, pure, branch}
use token_throttle.Action.Rules.{>>=-Returns}
use token_throttle.Validation.{BucketId, Usage}
use token_throttle.Validation.Amounts.{fits}
use token_throttle.Memory.State.{Capacities}
use token_throttle.Sqlite.Engine.{BucketSpec, Store, Turn, prune, commit, bucket_ids_of}
use token_throttle.Sqlite.Engine.Committed.{transaction_ok}
use token_throttle.Sqlite.Load.{BucketState, load_states}
use token_throttle.Sqlite.Load.Specs.{load_states-specs}
use token_throttle.Sqlite.Write.{write_all}
use token_throttle.Sqlite.Write.Stored.{IsOnce, IsStored, write_all-IsStored}
use token_throttle.Sqlite.Markers.{raise_if_duplicate_acquire, insert_marker}
use token_throttle.Sqlite.Markers.Unchanged.{raise_if_duplicate_acquire-same, insert_marker_rows}
use token_throttle.Sqlite.Operations.Amounts.{
  Holds, left_by, taken_off_lem, overdrawn_lem, holds_lem, fits_lem,
}
use token_throttle.Sqlite.Operations.{
  CapacityResult, capacities_of, exceeds_some_state, is_available, taken_off, overdrawn_states,
  unchanged, record_consumption, try_consume_new, try_consume_classified, try_consume_at,
  try_consume, consume_classified, consume_at, consume,
}

module _ {F : Type 0} ⦃fl : Float F⦄ where
  open fl use {neg}

  abbrev ids : List (BucketState F) → List BucketId
  ids states = map (λ (k : BucketState F). k.spec.bucket_id) states

  ids-specs :
      (states : List (BucketState F)) (specs : List (BucketSpec F))
      → map (λ (k : BucketState F). k.spec) states ≡ specs
      → ids states ≡ map (λ (spec : BucketSpec F). spec.bucket_id) specs
  ids-specs [] [] h = refl
  ids-specs [] (spec ∷ specs) h = absurd (ground (arith, h))
  ids-specs (k ∷ states) [] h = absurd (ground (arith, h))
  ids-specs (k ∷ states) (spec ∷ specs) h =
      let first : k.spec ≡ spec = ground (arith, h) in
      let rest : map (λ (k : BucketState F). k.spec) states ≡ specs = ground (arith, h) in
      rw (first, ids-specs states specs rest) refl

  keys-taken_off :
      (usage : Usage F) (states : List (BucketState F)) → keys (taken_off usage states) ≡ ids states
  keys-taken_off usage [] = refl
  keys-taken_off usage (k ∷ states) = rw (keys-taken_off usage states) refl

  keys-overdrawn :
      (usage : Usage F) (states : List (BucketState F))
      → keys (overdrawn_states usage states) ≡ ids states
  keys-overdrawn usage [] = refl
  keys-overdrawn usage (k ∷ states) = rw (keys-overdrawn usage states) refl

  -- What is reported after a call that took capacity is in the rows, stamped with the time.
  abbrev AllStored : F → Capacities F → Store F → Type 0
  AllStored now post t = All (λ c. IsStored now c.0 c.1 t) post

  moved :
      (now : F) (post : Capacities F) (s t : Store F)
      → (t.db.buckets ≡ s.db.buckets) × (t.engine ≡ s.engine)
      → AllStored now post s
      → AllStored now post t
  moved now [] s t same h = tt
  moved now ((id, amount) ∷ post) s t same ((r, found, capacity, last), h) =
      ((r, rw (same.0, same.1) found, capacity, last), moved now post s t same h)

  abbrev marked_then :
      Usage F
      → Option ℕ
      → Option F
      → F
      → List (BucketState F)
      → Capacities F
      → Action (Store F) (CapacityResult F)
  marked_then usage rid lifetime now states post = do
    insert_marker rid usage lifetime now
    pure (unchanged true now states post false)

  recorded :
      (usage : Usage F) (rid : Option ℕ) (lifetime : Option F) (now : F)
      (states : List (BucketState F)) (post : Capacities F) (r : CapacityResult F) (s u : Store F)
      → IsOnce (keys post)
      → record_consumption usage rid lifetime now states post s ≡ (ok r, u)
      → (unchanged true now states post false ≡ r) × AllStored now post u
  unfolding record_consumption
  recorded usage rid lifetime now states post r s u once h =
      let a =
        >>=-Returns (write_all now post) (λ _. marked_then usage rid lifetime now states post) s r u
          h in
      let b =
        >>=-Returns (insert_marker rid usage lifetime now)
          (λ _. pure (unchanged true now states post false)) a.middle r u a.second in
      let here : b.middle ≡ u = ground (arith, b.second) in
      let rows = insert_marker_rows now rid usage lifetime a.middle b.middle b.first in
      let stored = write_all-IsStored now post s a.middle once a.first in
      (ground (arith, b.second), rw (← here) (moved now post a.middle b.middle rows stored))

  -- The report of a call: what it took is in the rows.
  abbrev IsReported :
      F → (List (BucketState F) → Capacities F) → CapacityResult F → Store F → Type 0
  IsReported now formula r t =
      (r.post_capacities ≡ formula r.states) × AllStored now r.post_capacities t

  reported :
      (usage : Usage F) (rid : Option ℕ) (lifetime : Option F) (now : F)
      (formula : List (BucketState F) → Capacities F) (states : List (BucketState F))
      (r : CapacityResult F) (s u : Store F)
      → IsOnce (keys (formula states))
      → record_consumption usage rid lifetime now states (formula states) s ≡ (ok r, u)
      → IsReported now formula r u
  reported usage rid lifetime now formula states r s u once h =
      let (same, stored) = recorded usage rid lifetime now states (formula states) r s u once h in
      rw (← same) (refl, stored)

  -- The states that are loaded in an operation are those of the engine's buckets.
  loaded-IsOnce :
      (rid : Option ℕ) (usage : Usage F) (now : F) (replayed : Bool) (states : List (BucketState F))
      (s m v : Store F)
      → IsOnce (bucket_ids_of s.engine)
      → raise_if_duplicate_acquire rid now usage (prune now s) ≡ (ok replayed, m)
      → load_states now true m ≡ (ok states, v)
      → IsOnce (ids states)
  unfolding prune
  loaded-IsOnce rid usage now replayed states s m v once h k =
      let e = ((raise_if_duplicate_acquire-same now rid usage).after (prune now s)).same in
      let here : (raise_if_duplicate_acquire rid now usage (prune now s)).1 ≡ m =
        ground (arith, h) in
      let engine : m.engine ≡ s.engine = rw (← here) e in
      let specs = load_states-specs now true states m v k in
      rw (ids-specs states m.engine.specs specs, engine) once

  branch_consumed :
      (usage : Usage F) (rid : Option ℕ) (lifetime : Option F) (now : F) (replayed : Bool)
      (states : List (BucketState F)) (r : CapacityResult F) (s u : Store F)
      → IsOnce (ids states)
      → r.replayed ≡ false
      → branch replayed
          (pure (unchanged true now states (capacities_of states) true))
          (record_consumption usage rid lifetime now states (overdrawn_states usage states))
          s
        ≡ (ok r, u)
      → IsReported now (left_by usage (λ m. λ x. max_f (neg m) x)) r u
  branch_consumed usage rid lifetime now true states r s u once new h =
      absurd (ground (arith, h, new))
  branch_consumed usage rid lifetime now false states r s u once new h =
      let (same, stored) =
        reported usage rid lifetime now (overdrawn_states usage) states r s u
          (rw (keys-overdrawn usage states) once) h in
      (rw (← overdrawn_lem usage r.states) same, stored)

  tried :
      (usage : Usage F) (rid : Option ℕ) (lifetime : Option F) (now : F) (replayed : Bool)
      (states : List (BucketState F)) (r : CapacityResult F) (s u : Store F)
      → IsOnce (ids states)
      → r.replayed ≡ false
      → r.available ≡ true
      → branch replayed
          (pure (unchanged true now states (capacities_of states) true))
          (try_consume_new usage rid lifetime now states)
          s
        ≡ (ok r, u)
      → IsReported now (left_by usage (λ m. λ x. x)) r u
        × All (λ k. Holds k.capacity (lookup usage k.spec.bucket_id.0)) r.states
        × All (λ k. fits usage k.spec.bucket_id.0 k.max_capacity ≡ true) r.states
  unfolding try_consume_new
  tried usage rid lifetime now true states r s u once new avail h = absurd (ground (arith, h, new))
  tried usage rid lifetime now false states r s u once new avail h =
      elim (Bool-cases (exceeds_some_state usage states)) [
        | inl e ↦ absurd (ground (arith, e, h))
        | inr e ↦ elim (Bool-cases (is_available usage states)) [
          | inr n ↦ absurd (ground (arith, e, n, h, avail))
          | inl n ↦
              let k : record_consumption usage rid lifetime now states (taken_off usage states) s
                  ≡ (ok r, u) =
                ground (arith, e, n, h) in
              let once' : IsOnce (keys (taken_off usage states)) =
                rw (keys-taken_off usage states) once in
              let (same, stored) =
                recorded usage rid lifetime now states (taken_off usage states) r s u once' k in
              rw (← same) (
                (taken_off_lem usage states, stored),
                holds_lem usage states n,
                fits_lem usage states e,
              )
        ]
      ]

  -- A call of consume that returns and is no replay has taken the usage of its metric from what each
  -- bucket was loaded with, down to minus the bucket's maximum; and what it reports is in the row of
  -- each bucket, stamped with the time of the transaction.
  pub consume-IsStored :
      (turn : Turn F) (usage : Usage F) (rid : Option ℕ) (lifetime : Option F)
      (r : CapacityResult F) (s t : Store F)
      → IsOnce (bucket_ids_of s.engine)
      → consume turn usage rid lifetime s ≡ (ok r, t)
      → r.replayed ≡ false
      → (r.post_capacities ≡ left_by usage (λ m. λ x. max_f (neg m) x) r.states)
        × All (λ c. IsStored turn.now c.0 c.1 t) r.post_capacities
  unfolding consume consume_at consume_classified commit
  consume-IsStored turn usage rid lifetime r s t once h new =
      let now = turn.now in
      let (u, body, committed) =
        transaction_ok turn (λ now. consume_at usage rid lifetime now) s r t h in
      let f = consume_classified usage rid lifetime now in
      let a = >>=-Returns (raise_if_duplicate_acquire rid now usage) f (prune now s) r u body in
      let b =
        >>=-Returns (load_states now true)
          (λ states.
            branch a.value (pure (unchanged true now states (capacities_of states) true))
              (record_consumption usage rid lifetime now states (overdrawn_states usage states)))
          a.middle r u a.second in
      let distinct =
        loaded-IsOnce rid usage now a.value b.value s a.middle b.middle once a.first b.first in
      rw (← committed)
        (branch_consumed usage rid lifetime now a.value b.value r b.middle u distinct new b.second)

  -- A call of try_consume that reports capacity as available and is no replay has found no amount
  -- above a maximum and enough in every bucket; it has taken the usage of its metric from what each
  -- bucket was loaded with; and what it reports is in the row of each bucket, stamped with the time.
  pub try_consume-IsStored :
      (turn : Turn F) (usage : Usage F) (rid : Option ℕ) (lifetime : Option F)
      (r : CapacityResult F) (s t : Store F)
      → IsOnce (bucket_ids_of s.engine)
      → try_consume turn usage rid lifetime s ≡ (ok r, t)
      → r.replayed ≡ false
      → r.available ≡ true
      → ((r.post_capacities ≡ left_by usage (λ m. λ x. x) r.states)
          × All (λ c. IsStored turn.now c.0 c.1 t) r.post_capacities)
        × All (λ k. Holds k.capacity (lookup usage k.spec.bucket_id.0)) r.states
        × All (λ k. fits usage k.spec.bucket_id.0 k.max_capacity ≡ true) r.states
  unfolding try_consume try_consume_at try_consume_classified commit
  try_consume-IsStored turn usage rid lifetime r s t once h new avail =
      let now = turn.now in
      let (u, body, committed) =
        transaction_ok turn (λ now. try_consume_at usage rid lifetime now) s r t h in
      let f = try_consume_classified usage rid lifetime now in
      let a = >>=-Returns (raise_if_duplicate_acquire rid now usage) f (prune now s) r u body in
      let b =
        >>=-Returns (load_states now true)
          (λ states.
            branch a.value (pure (unchanged true now states (capacities_of states) true))
              (try_consume_new usage rid lifetime now states))
          a.middle r u a.second in
      let distinct =
        loaded-IsOnce rid usage now a.value b.value s a.middle b.middle once a.first b.first in
      rw (← committed)
        (tried usage rid lifetime now a.value b.value r b.middle u distinct new avail b.second)
