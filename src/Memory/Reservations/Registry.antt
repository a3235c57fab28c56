-- ===== src/Memory/Reservations/Registry.antt =====
-- The invariant of the registry, kept by each of its updates.
use token_throttle.Base.Dict.{contains, keys}
use token_throttle.Base.{
  pair_eq, ℕ, ◌≤◌, ◌<◌, ◌≡◌, refl, ap, ◌∙◌, true, false, List, [], ◌∷◌, ◌++◌, arith, length, nat_eq,
  inl, inr, Bool-cases,
}
use token_throttle.Base.Members.{
  IsNodup, contains-append, contains-discard, contains-add_member, discard-fresh, IsNodup-append,
  keys-insert, keys-pop_key, trim, length-trim-le, IsNodup-trim, contains-trim, contains-trim_last,
}
use token_throttle.Validation.{Usage}
use token_throttle.Memory.State.{Backend, ids_of}
use token_throttle.Memory.Reservations.{
  evict, remember_refunded_reservation_id, record_acquired_reservation, forget_acquired_reservation,
  remember_new,
}

pub evict-trim :
    (limit : ℕ) (xs : List ℕ) → IsNodup xs → evict limit xs xs ≡ (trim limit xs, trim limit xs)
unfolding evict
evict-trim limit [] d = refl
evict-trim limit (x ∷ xs) d = ground (arith, discard-fresh xs x d.0, evict-trim limit xs d.1)

module _ {F : Type 0} where
  -- The live reservations have a value each; the refunded ids stand in the deque in the order of
  -- the set, at most `refunded_ids_cap` of them; and no reservation is both live and refunded.
  pub record IsRegistry (b : Backend F) : Type 0 where
    pub same_keys : keys b.acquired_values ≡ b.acquired_ids
    pub ordered : b.refunded_order ≡ b.refunded_ids
    pub nodup : IsNodup b.refunded_ids
    pub bounded : length b.refunded_ids ≤ b.refunded_ids_cap
    pub disjoint : (k : ℕ) → contains b.acquired_ids k ≡ true → contains b.refunded_ids k ≡ false

  remember_new_lem :
      (rid : ℕ) (b : Backend F)
      → IsRegistry b
      → contains b.refunded_ids rid ≡ false
      → remember_new rid b ≡ record b {
        refunded_ids = trim b.refunded_ids_cap (b.refunded_ids ++ rid ∷ []);
        refunded_order = trim b.refunded_ids_cap (b.refunded_ids ++ rid ∷ []);
      }
  unfolding remember_new
  remember_new_lem rid b r h = ground (
    arith,
    r.ordered,
    evict-trim b.refunded_ids_cap (b.refunded_ids ++ rid ∷ [])
        (IsNodup-append b.refunded_ids rid r.nodup h),
  )

  pub record_acquired_reservation-IsRegistry :
      (rid : ℕ) (usage : Usage F) (b : Backend F)
      → contains b.refunded_ids rid ≡ false
      → IsRegistry b
      → IsRegistry (record_acquired_reservation rid usage b)
  unfolding record_acquired_reservation
  record_acquired_reservation-IsRegistry rid usage b h r = record {
    same_keys =
        ground (arith, keys-insert b.acquired_values rid (ids_of b.buckets, usage), r.same_keys);
    ordered = r.ordered;
    nodup = r.nodup;
    bounded = r.bounded;
    disjoint = λ k e. ground (arith, contains-add_member b.acquired_ids rid k, r.disjoint k, h);
  }

  pub forget_acquired_reservation-IsRegistry :
      (rid : ℕ) (b : Backend F) → IsRegistry b → IsRegistry (forget_acquired_reservation rid b)
  unfolding forget_acquired_reservation
  forget_acquired_reservation-IsRegistry rid b r = record {
    same_keys = ground (arith, keys-pop_key b.acquired_values rid, r.same_keys);
    ordered = r.ordered;
    nodup = r.nodup;
    bounded = r.bounded;
    disjoint = λ k e. ground (arith, contains-discard b.acquired_ids rid k, r.disjoint k);
  }

  remember_trimmed-IsRegistry :
      (rid : ℕ) (b : Backend F)
      → contains b.acquired_ids rid ≡ false
      → contains b.refunded_ids rid ≡ false
      → IsRegistry b
      → IsRegistry (record b {
        refunded_ids = trim b.refunded_ids_cap (b.refunded_ids ++ rid ∷ []);
        refunded_order = trim b.refunded_ids_cap (b.refunded_ids ++ rid ∷ []);
      })
  remember_trimmed-IsRegistry rid b fresh new r = record {
    same_keys = r.same_keys;
    ordered = refl;
    nodup = IsNodup-trim b.refunded_ids_cap _ (IsNodup-append b.refunded_ids rid r.nodup new);
    bounded = length-trim-le b.refunded_ids_cap (b.refunded_ids ++ rid ∷ []);
    disjoint = λ k e.
        contains-trim b.refunded_ids_cap (b.refunded_ids ++ rid ∷ []) k
          (ground (arith, contains-append b.refunded_ids rid k, r.disjoint k e, fresh));
  }

  pub remember_refunded_reservation_id-IsRegistry :
      (rid : ℕ) (b : Backend F)
      → contains b.acquired_ids rid ≡ false
      → IsRegistry b
      → IsRegistry (remember_refunded_reservation_id rid b)
  unfolding remember_refunded_reservation_id
  remember_refunded_reservation_id-IsRegistry rid b fresh r =
      elim (Bool-cases (contains b.refunded_ids rid)) [
        | inl old ↦ rw old r
        | inr new ↦
            rw new
              (rw (remember_new_lem rid b r new) (remember_trimmed-IsRegistry rid b fresh new r))
      ]

  -- A refund is remembered, where the backend may remember any.
  pub remembered :
      (rid : ℕ) (b : Backend F)
      → 0 < b.refunded_ids_cap
      → IsRegistry b
      → contains (remember_refunded_reservation_id rid b).refunded_ids rid ≡ true
  unfolding remember_refunded_reservation_id
  remembered rid b p r = elim (Bool-cases (contains b.refunded_ids rid)) [
    | inl old ↦ rw old old
    | inr new ↦ rw new (
        ap (λ (c : Backend F). contains c.refunded_ids rid) (remember_new_lem rid b r new)
        ∙ contains-trim_last b.refunded_ids_cap b.refunded_ids rid p)
  ]
