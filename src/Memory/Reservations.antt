-- ===== src/Memory/Reservations.antt =====
-- _memory/_sync_backend.py: the registry of reservations, acquired and refunded. A backend remembers
-- a bounded number of refunds, the oldest of which it forgets first.
pub mod Registry
use token_throttle.Base.{
  ℕ, Bool, true, false, ◌&&◌, Option, none, some, List, [], ◌∷◌, ◌++◌, if◌then◌else◌, ltb, length,
  ◌==◌, nat_eq, pair_eq,
}
use token_throttle.Base.Dict.{
  Dict, lookup, insert, pop_key, contains, discard, add_member, same_set, keys,
}
use token_throttle.Float.{Float}
use token_throttle.Exceptions.{Result, ok, err, duplicate_refund, duplicate_acquire}
use token_throttle.Validation.{BucketId, Usage}
use token_throttle.Memory.State.{Backend, ids_of}

-- `while len(ids) > cap: ids.discard(order.popleft())`
unfoldable pub evict : ℕ → List ℕ → List ℕ → List ℕ × List ℕ
evict limit ids [] = (ids, [])
evict limit ids (oldest ∷ order) =
    if ltb limit (length ids) then evict limit (discard ids oldest) order else (ids, oldest ∷ order)

module _ {F : Type 0} where
  unfoldable pub remember_new : ℕ → Backend F → Backend F
  unfolding evict
  remember_new rid b =
      let (ids, order) =
        evict b.refunded_ids_cap (b.refunded_ids ++ rid ∷ []) (b.refunded_order ++ rid ∷ []) in
      record b { refunded_ids = ids; refunded_order = order }

  unfoldable pub remember_refunded_reservation_id : ℕ → Backend F → Backend F
  unfolding remember_new
  remember_refunded_reservation_id rid b =
      if contains b.refunded_ids rid then b else remember_new rid b

  unfoldable pub record_acquired_reservation : ℕ → Usage F → Backend F → Backend F
  record_acquired_reservation rid usage b = record b {
    acquired_ids = add_member b.acquired_ids rid;
    acquired_values = insert b.acquired_values rid (ids_of b.buckets, usage);
  }

  unfoldable pub forget_acquired_reservation : ℕ → Backend F → Backend F
  forget_acquired_reservation rid b = record b {
    acquired_ids = discard b.acquired_ids rid;
    acquired_values = pop_key b.acquired_values rid;
  }

module _ {F : Type 0} ⦃fl : Float F⦄ where
  open fl use {eq}

  abbrev pub same_value : F → Option F → Bool
  same_value x none = false
  same_value x (some y) = eq x y

  abbrev pub same_values : Usage F → Usage F → Bool
  same_values [] v = true
  same_values ((metric, x) ∷ u) v = same_value x (lookup v metric) && same_values u v

  -- `==` of two frozen dicts
  abbrev pub same_usage : Usage F → Usage F → Bool
  same_usage u v = same_set (keys u) (keys v) && same_values u v

  classify : Option (List BucketId × Usage F) → List BucketId → Usage F → ℕ → Bool → Result Bool
  classify (some (ids, reserved)) bucket_ids usage rid refunded =
      if same_set ids bucket_ids && same_usage reserved usage
      then ok true
      else err (duplicate_refund duplicate_acquire rid)
  classify none bucket_ids usage rid refunded =
      if refunded then err (duplicate_refund duplicate_acquire rid) else ok false

  unfoldable pub is_replayed_acquire : ℕ → Usage F → Backend F → Result Bool
  unfolding classify
  is_replayed_acquire rid usage b =
      classify (lookup b.acquired_values rid) (ids_of b.buckets) usage rid
        (contains b.refunded_ids rid)

  -- Without a reservation id nothing is a replay.
  unfoldable pub is_replay : Option ℕ → Usage F → Backend F → Result Bool
  unfolding is_replayed_acquire
  is_replay none usage b = ok false
  is_replay (some rid) usage b = is_replayed_acquire rid usage b

  unfoldable pub record_if_named : Option ℕ → Usage F → Backend F → Backend F
  unfolding record_acquired_reservation
  record_if_named none usage b = b
  record_if_named (some rid) usage b = record_acquired_reservation rid usage b

  unfoldable pub forget_if_named : Option ℕ → Backend F → Backend F
  unfolding forget_acquired_reservation
  forget_if_named none b = b
  forget_if_named (some rid) b = forget_acquired_reservation rid b
