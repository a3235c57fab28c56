-- ===== src/Sqlite/Refunds/Once.antt =====
-- A reservation is refunded once, and its id is not taken again while the refund is remembered.
use token_throttle.Base.{
  ℕ, true, false, ◌≡◌, refl, Option, none, some, List, arith, Option-cases, inl, inr, ap,
}
use token_throttle.Float.{Float, IsIeee}
use token_throttle.Exceptions.{Result, ok, err, is_ok}
use token_throttle.Action.{◌>>=◌, ◌>>◌, pure, lift, modify}
use token_throttle.Action.Rules.{>>=-Returns, Ends, >>=-Ends, >>=-refused}
use token_throttle.Validation.{BucketId, Usage}
use token_throttle.Memory.State.{Capacities}
use token_throttle.Sqlite.Tables.{is_marker}
use token_throttle.Sqlite.Tables.Laws.{select-delete_self, select-delete_limited-none}
use token_throttle.Sqlite.Engine.{
  Store, Turn, transaction, prune, commit, select_marker, select_tombstone, delete_marker,
  after_seconds,
}
use token_throttle.Sqlite.Engine.Committed.{transaction_ok, transaction_refused}
use token_throttle.Sqlite.Load.{BucketState, load_states}
use token_throttle.Sqlite.Write.{write_all}
use token_throttle.Sqlite.Markers.{raise_if_duplicate_acquire}
use token_throttle.Sqlite.Markers.Refunded.{
  add_tombstone_lem, prune-tombstone, verify-refunded, acquire-refunded,
}
use token_throttle.Sqlite.Operations.{
  try_consume_classified, try_consume_at, try_consume, consume_classified, consume_at, consume,
}
use token_throttle.Sqlite.Refunds.{
  RefundResult, Reservation, refund_usage_of, refunded_capacities, authorise_with, authorise,
  new_tombstone, bury, refund_result, refund_written, refund_authorised, refund_at, refund,
}

module _ {F : Type 0} ⦃fl : Float F⦄ where
  open fl use {lt, le}

  -- The store after a refund that was made at the time given.
  abbrev pub IsBuried : ℕ → F → Store F → Type 0
  IsBuried rid now u =
      (select_tombstone rid u ≡ some (new_tombstone u.engine rid now))
      × (select_marker rid u ≡ none)

  bury_lem :
      (now : F) (rid : ℕ) (s u : Store F) → bury now (some rid) s ≡ (ok tt, u) → IsBuried rid now u
  unfolding bury delete_marker
  bury_lem now rid s u h = elim (Option-cases (select_marker rid s)) [
    | inl e ↦ absurd (ground (arith, e, h))
    | inr (m, e) ↦
        let r =
          add_tombstone_lem (new_tombstone s.engine rid now) (delete_marker rid s) u
            (ground (arith, e, h)) in
        let gone = select-delete_self (is_marker s.engine.key_prefix rid) s.db.acquire_markers in
        (rw r.0 r.1, rw (r.0, r.2) gone)
  ]

  IsBuried-then :
      {A : Type 0} (now : F) (rid : ℕ) (a : A)
      → Ends (bury now (some rid) >>= λ _. pure a) (λ _ u. IsBuried rid now u)
  IsBuried-then now rid a = record {
    after = λ s b u h.
        let r = >>=-Returns (bury now (some rid)) (λ _. pure a) s b u h in
        let here : r.middle ≡ u = ground (arith, r.second) in
        rw (← here) (bury_lem now rid s r.middle (ground (arith, r.first)));
  }

  refund_written-Ends :
      (amounts : Usage F) (now : F) (rid : ℕ) (states : List (BucketState F))
      (written : Capacities F)
      → Ends (refund_written amounts now (some rid) states written) (λ _ u. IsBuried rid now u)
  unfolding refund_written
  refund_written-Ends amounts now rid states written =
      let r = refund_result amounts now states written in
      >>=-Ends (write_all now written) (λ _. bury now (some rid) >>= λ _. pure r)
        λ _. IsBuried-then now rid r

  refund_authorised-Ends :
      (amounts : Usage F) (ids : List BucketId) (now : F) (rid : ℕ)
      → Ends (refund_authorised amounts ids (some rid) now) (λ _ u. IsBuried rid now u)
  unfolding refund_authorised
  refund_authorised-Ends amounts ids now rid =
      let g = λ (states : List (BucketState F)). refund_written amounts now (some rid) states in
      >>=-Ends (load_states now true)
        (λ states. lift (refunded_capacities amounts states ids) >>= g states)
        λ states.
          >>=-Ends (lift (refunded_capacities amounts states ids)) (g states)
            λ written. refund_written-Ends amounts now rid states written

  refund_at-Ends :
      (amounts : Usage F) (ids : List BucketId) (q : Reservation F) (now : F) (rid : ℕ)
      → q.reservation_id ≡ some rid
      → Ends (refund_at amounts ids q now) (λ _ u. IsBuried rid now u)
  unfolding refund_at
  refund_at-Ends amounts ids q now rid named =
      let rest = refund_authorised amounts ids q.reservation_id now in
      >>=-Ends (modify (prune now)) (λ _. authorise q now q.reservation_id >> rest)
        λ _.
          >>=-Ends (authorise q now q.reservation_id) (λ _. rest)
            λ _. rw named (refund_authorised-Ends amounts ids now rid)

module _ {F : Type 0} ⦃fl : Float F⦄ (laws : IsIeee fl) (rid : ℕ) (now later : F) (t : Store F)
    (buried : IsBuried rid now t)
    (live : fl.lt later (after_seconds now t.engine.refund_dedup_ttl_seconds) ≡ true) where
  there : select_tombstone rid (prune later t) ≡ some (new_tombstone t.engine rid now)
  there = prune-tombstone laws rid later t (new_tombstone t.engine rid now) buried.0 live

  gone : select_marker rid (prune later t) ≡ none
  unfolding prune
  gone =
      select-delete_limited-none (λ m. fl.le m.expires_at later) (is_marker t.engine.key_prefix rid)
        t.engine.prune_batch_size t.db.acquire_markers buried.1

  authorise_with_refused :
      (family : Option ℕ) (ids : Option (List BucketId)) (reserved : Option (Usage F))
      → is_ok (authorise_with rid family ids reserved later (prune later t)).0 ≡ false
  unfolding authorise_with
  authorise_with_refused (some family) (some ids) (some reserved) = ap is_ok (
      verify-refunded laws rid later (prune later t) (new_tombstone t.engine rid now) there live
        family ids reserved)
  authorise_with_refused (some family) (some ids) none = refl
  authorise_with_refused (some family) none reserved = refl
  authorise_with_refused none ids reserved = refl

  authorise_refused :
      (q : Reservation F) (named : Option ℕ)
      → named ≡ some rid
      → is_ok (authorise q later named (prune later t)).0 ≡ false
  unfolding authorise
  authorise_refused q none e = absurd (ground (arith, e))
  authorise_refused q (some id) e =
      let same : id ≡ rid = ground (arith, e) in
      rw same (authorise_with_refused q.model_family q.bucket_ids q.reserved_usage)

  pub refund_at_refused :
      (amounts : Usage F) (ids : List BucketId) (q : Reservation F)
      → q.reservation_id ≡ some rid
      → is_ok (refund_at amounts ids q later t).0 ≡ false
  unfolding refund_at
  refund_at_refused amounts ids q named =
      >>=-refused (authorise q later q.reservation_id)
        (λ _. refund_authorised amounts ids q.reservation_id later) (prune later t)
        (authorise_refused q q.reservation_id named)

  acquire_refused :
      (usage : Usage F)
      → is_ok (raise_if_duplicate_acquire (some rid) later usage (prune later t)).0 ≡ false
  acquire_refused usage = ap is_ok (
      acquire-refunded laws rid later (prune later t) (new_tombstone t.engine rid now) there live
        usage gone)

  try_consume_at_refused :
      (usage : Usage F) (lifetime : Option F)
      → is_ok (try_consume_at usage (some rid) lifetime later t).0 ≡ false
  unfolding try_consume_at
  try_consume_at_refused usage lifetime =
      >>=-refused (raise_if_duplicate_acquire (some rid) later usage)
        (try_consume_classified usage (some rid) lifetime later) (prune later t)
        (acquire_refused usage)

  consume_at_refused :
      (usage : Usage F) (lifetime : Option F)
      → is_ok (consume_at usage (some rid) lifetime later t).0 ≡ false
  unfolding consume_at
  consume_at_refused usage lifetime =
      >>=-refused (raise_if_duplicate_acquire (some rid) later usage)
        (consume_classified usage (some rid) lifetime later) (prune later t) (acquire_refused usage)

module _ {F : Type 0} ⦃fl : Float F⦄ where
  refund-Ends :
      (turn : Turn F) (reserved actual : Usage F) (ids : List BucketId) (q : Reservation F)
      (rid : ℕ)
      → q.reservation_id ≡ some rid
      → Ends (refund turn reserved actual ids q) (λ _ t. IsBuried rid turn.now t)
  unfolding refund commit
  refund-Ends turn reserved actual ids q rid named =
      >>=-Ends (lift (refund_usage_of reserved actual))
        (λ amounts. transaction turn λ now. refund_at amounts ids q now)
        λ amounts. record {
          after = λ s r t h.
              let (u, body, committed) =
                transaction_ok turn (λ now. refund_at amounts ids q now) s r t h in
              rw (← committed) ((refund_at-Ends amounts ids q turn.now rid named).after s r u body);
        }

module _ {F : Type 0} ⦃fl : Float F⦄ (laws : IsIeee fl) where
  open fl use {lt}

  lifted_refused :
      (turn : Turn F) (p : Result (Usage F)) (ids : List BucketId) (q : Reservation F) (rid : ℕ)
      (now : F) (t : Store F)
      → IsBuried rid now t
      → lt turn.now (after_seconds now t.engine.refund_dedup_ttl_seconds) ≡ true
      → q.reservation_id ≡ some rid
      → is_ok ((lift p >>= λ amounts. transaction turn λ now. refund_at amounts ids q now) t).0
        ≡ false
  lifted_refused turn (err e) ids q rid now t buried live named = refl
  lifted_refused turn (ok amounts) ids q rid now t buried live named =
      transaction_refused turn (λ now. refund_at amounts ids q now) t
        (refund_at_refused laws rid now turn.now t buried live amounts ids q named)

  -- After a refund of a reservation that returned, and while the refund is remembered, every call
  -- under the same reservation id is refused: another refund, whatever it gives back and whichever
  -- reservation it describes, and an acquisition by try_consume or by consume.
  pub refund_once :
      (first second : Turn F) (reserved actual : Usage F) (ids : List BucketId) (q : Reservation F)
      (rid : ℕ) (r : RefundResult F) (s t : Store F) (reserved' actual' : Usage F)
      (ids' : List BucketId) (q' : Reservation F) (usage : Usage F) (lifetime : Option F)
      → q.reservation_id ≡ some rid
      → q'.reservation_id ≡ some rid
      → refund first reserved actual ids q s ≡ (ok r, t)
      → lt second.now (after_seconds first.now t.engine.refund_dedup_ttl_seconds) ≡ true
      → (is_ok (refund second reserved' actual' ids' q' t).0 ≡ false)
        × (is_ok (try_consume second usage (some rid) lifetime t).0 ≡ false)
        × (is_ok (consume second usage (some rid) lifetime t).0 ≡ false)
  unfolding refund try_consume consume
  refund_once first second reserved actual ids q rid r s t reserved' actual' ids' q' usage lifetime
        named named' h live =
      let buried = (refund-Ends first reserved actual ids q rid named).after s r t h in
      (
        lifted_refused second (refund_usage_of reserved' actual') ids' q' rid first.now t buried
            live named',
        transaction_refused second (λ now. try_consume_at usage (some rid) lifetime now) t
            (try_consume_at_refused laws rid first.now second.now t buried live usage lifetime),
        transaction_refused second (λ now. consume_at usage (some rid) lifetime now) t
            (consume_at_refused laws rid first.now second.now t buried live usage lifetime),
      )
