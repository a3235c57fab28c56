-- ===== src/Sqlite/Refunds.antt =====
-- _sqlite/_engine.py: the operations that give capacity back.
pub mod Isolation
pub mod Once
use token_throttle.Base.{
  ℕ, Bool, true, false, not, ◌&&◌, Option, none, some, List, [], ◌∷◌, map, all, any, if◌then◌else◌,
  is_none, ◌==◌, nat_eq, pair_eq,
}
use token_throttle.Base.Dict.{lookup, insert}
use token_throttle.Float.{Float, min_f, max_f, zero_f}
use token_throttle.Exceptions.{
  Error, Result, ok, err, value_error, other_error, unknown_reservation, exceeds_max_capacity,
  missing_marker_metadata,
}
use token_throttle.Exceptions
use token_throttle.Action.{
  Action, ◌>>=◌, ◌>>◌, pure, lift, gets, modify, raise_when, raise, when, branch,
}
use token_throttle.Validation.{BucketId, Usage}
use token_throttle.Memory.State.{Capacities}
use token_throttle.Capacity.{or_raise}
use token_throttle.Sqlite.Tables.{TombstoneRow}
use token_throttle.Sqlite.Engine.{
  SqliteEngine, Store, Turn, transaction, prune, select_marker, delete_marker, add_tombstone,
  after_seconds,
}
use token_throttle.Sqlite.Load.{BucketState, load_states}
use token_throttle.Sqlite.Write.{write_all}
use token_throttle.Sqlite.Markers.{raise_if_duplicate_acquire, insert_marker, verify_marker}
use token_throttle.Sqlite.Operations.{capacities_of, usage_of}

pub record RefundResult (F : Type 0) : Type 0 where
  pub current_time : F
  pub pre_capacities : Capacities F
  pub post_capacities : Capacities F
  pub refunded_usage : Usage F

-- The marker that authorises a refund.
pub record Reservation (F : Type 0) : Type 0 where
  pub reservation_id : Option ℕ
  pub model_family : Option ℕ
  pub bucket_ids : Option (List BucketId)
  pub reserved_usage : Option (Usage F)

module _ {F : Type 0} where
  -- `states[bucket_id]`
  abbrev pub state_of : List (BucketState F) → BucketId → Option (BucketState F)
  state_of [] id = none
  state_of (k ∷ states) id = if k.spec.bucket_id == id then some k else state_of states id

module _ {F : Type 0} ⦃fl : Float F⦄ where
  open fl use {add, sub, neg}

  -- What is left of each reserved amount; a metric that was not used raises KeyError.
  unfoldable pub refund_usage_of : Usage F → Usage F → Result (Usage F)
  refund_usage_of [] actual = ok []
  refund_usage_of ((metric, amount) ∷ reserved) actual =
      Exceptions.◌>>=◌ (or_raise (lookup actual metric) other_error) λ used.
        Exceptions.◌>>=◌ (refund_usage_of reserved actual)
          λ rest. ok ((metric, sub amount used) ∷ rest)

  -- Between minus the maximum and the maximum.
  abbrev pub refunded_amount : F → BucketState F → F
  refunded_amount amount k =
      max_f (neg k.max_capacity)
        (min_f (add k.capacity (max_f amount (neg k.max_capacity))) k.max_capacity)

  -- The new capacities of the buckets in the scope of the refund.
  unfoldable pub refunded_capacities :
      Usage F → List (BucketState F) → List BucketId → Result (Capacities F)
  refunded_capacities refund states [] = ok []
  refunded_capacities refund states (id ∷ ids) =
      Exceptions.◌>>=◌ (or_raise (state_of states id) other_error) λ k.
        Exceptions.◌>>=◌ (or_raise (lookup refund k.spec.bucket_id.0) other_error) λ amount.
          Exceptions.◌>>=◌ (refunded_capacities refund states ids)
            λ rest. ok ((id, refunded_amount amount k) ∷ rest)

  -- `dict(pre)` with the new capacities put in
  abbrev pub with_capacities : Capacities F → Capacities F → Capacities F
  with_capacities pre [] = pre
  with_capacities pre ((id, amount) ∷ cs) = with_capacities (insert pre id amount) cs

  authorise_with :
      ℕ → Option ℕ → Option (List BucketId) → Option (Usage F) → F → Action (Store F) (Unit {0})
  unfolding verify_marker
  authorise_with rid (some family) (some ids) (some reserved) now =
      verify_marker rid family ids reserved now
  authorise_with rid family ids reserved now = raise (value_error missing_marker_metadata)

  authorise : Reservation F → F → Option ℕ → Action (Store F) (Unit {0})
  unfolding authorise_with
  authorise q now none = pure tt
  authorise q now (some rid) = authorise_with rid q.model_family q.bucket_ids q.reserved_usage now

  abbrev pub new_tombstone : SqliteEngine F → ℕ → F → TombstoneRow F
  new_tombstone e rid now = record {
    key_prefix = e.key_prefix;
    reservation_id = rid;
    refunded_at = now;
    expires_at = after_seconds now e.refund_dedup_ttl_seconds;
  }

  -- The marker gives way to a tombstone; it has to be there.
  unfoldable pub bury : F → Option ℕ → Action (Store F) (Unit {0})
  unfolding delete_marker add_tombstone
  bury now none = pure tt
  bury now (some rid) = do
    m ← gets (select_marker rid)
    modify (delete_marker rid)
    raise_when (is_none m) other_error
    e ← gets (λ s. s.engine)
    add_tombstone (new_tombstone e rid now)

  abbrev pub refund_result : Usage F → F → List (BucketState F) → Capacities F → RefundResult F
  refund_result amounts now states written = record {
    current_time = now;
    pre_capacities = capacities_of states;
    post_capacities = with_capacities (capacities_of states) written;
    refunded_usage = amounts;
  }

  -- Once the new capacities are known.
  unfoldable pub refund_written :
      Usage F
      → F
      → Option ℕ
      → List (BucketState F)
      → Capacities F
      → Action (Store F) (RefundResult F)
  unfolding write_all bury
  refund_written amounts now rid states written = do
    write_all now written
    bury now rid
    pure (refund_result amounts now states written)

  -- Once the refund is authorised.
  unfoldable pub refund_authorised :
      Usage F → List BucketId → Option ℕ → F → Action (Store F) (RefundResult F)
  unfolding load_states refunded_capacities refund_written
  refund_authorised amounts ids rid now = do
    states ← load_states now true
    written ← lift (refunded_capacities amounts states ids)
    refund_written amounts now rid states written

  unfoldable pub refund_at :
      Usage F → List BucketId → Reservation F → F → Action (Store F) (RefundResult F)
  unfolding authorise refund_authorised prune
  refund_at amounts ids q now = do
    modify (prune now)
    authorise q now q.reservation_id
    refund_authorised amounts ids q.reservation_id now

  -- `SqliteEngine.refund`
  unfoldable pub refund :
      Turn F → Usage F → Usage F → List BucketId → Reservation F → Action (Store F) (RefundResult F)
  unfolding transaction refund_at refund_usage_of
  refund turn reserved actual ids q = do
    amounts ← lift (refund_usage_of reserved actual)
    transaction turn λ now. refund_at amounts ids q now

  -- The capacities of the buckets that are still there, with the usage put back.
  abbrev pub put_back : Usage F → List (BucketState F) → List BucketId → Capacities F
  put_back usage states [] = []
  put_back usage states (id ∷ ids) = elim (state_of states id) [
    | none ↦ put_back usage states ids
    | some k ↦
        (id, min_f (add k.capacity (usage_of usage k.spec.bucket_id)) k.max_capacity)
        ∷ put_back usage states ids
  ]

  require_marker : Option ℕ → Action (Store F) (Unit {0})
  require_marker none = pure tt
  require_marker (some rid) = do
    m ← gets (select_marker rid)
    raise_when (is_none m) (unknown_reservation rid false)

  forget_marker : Option ℕ → Store F → Store F
  unfolding delete_marker
  forget_marker none s = s
  forget_marker (some rid) s = delete_marker rid s

  unfoldable pub cleanup_at : Usage F → List BucketId → Option ℕ → F → Action (Store F) (Unit {0})
  unfolding require_marker load_states write_all forget_marker prune
  cleanup_at usage ids rid now = do
    modify (prune now)
    require_marker rid
    states ← load_states now true
    write_all now (put_back usage states ids)
    modify (forget_marker rid)

  -- `SqliteEngine.cleanup_consumption`
  unfoldable pub cleanup_consumption :
      Turn F → Usage F → List BucketId → Option ℕ → Action (Store F) (Unit {0})
  unfolding transaction cleanup_at
  cleanup_consumption turn usage ids rid = transaction turn λ now. cleanup_at usage ids rid now
