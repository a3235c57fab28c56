-- ===== src/Sqlite/Load/Drained.antt =====
-- A bucket whose row is gone while its state was confirmed is drained: it does not count as fresh.
use mathlib.Core.Path.{subst}
use token_throttle.Base.{◌≡◌, refl, true, false, none, some, arith, inl, inr, nat_eq, pair_eq}
use token_throttle.Float.{Float, IsIeee, zero_f}
use token_throttle.Exceptions.{ok, is_ok, Result-cases}
use token_throttle.Action.Rules.{>>=-Returns}
use token_throttle.Capacity.{
  py_float, validate_max_capacity_finite_positive, calculate_rate_per_sec, calculate_capacity,
  CalculatedCapacity,
}
use token_throttle.Capacity.Refill.{
  IsTime, IsRate, refilled, refilled_finite, refilled_at_once, calculate_capacity-stored,
}
use token_throttle.Capacity.Checks.{calculate_capacity-IsDecided, is_time_sound, is_rate_sound}
use token_throttle.Sqlite.Engine.{BucketSpec, Store, select_bucket, state_loss_suspected}
use token_throttle.Sqlite.Rows.{LoadedRow, load_missing, load_selected, load_row, refill_capacity}
use token_throttle.Sqlite.Load.Snapshot.{load_state_predicts}
use token_throttle.Sqlite.Load.{BucketState, drain_if_lost, state_of_row, load_state, is_state_lost}

module _ {F : Type 0} ⦃fl : Float F⦄ where
  missing_row :
      (now : F) (spec : BucketSpec F) (row : LoadedRow F) (s t : Store F)
      → select_bucket spec.bucket_id s ≡ none
      → load_row now false spec s ≡ (ok row, t)
      → (row.capacity ≡ none) × (row.last_checked ≡ none) × (s ≡ t)
  unfolding load_row load_selected load_missing
  missing_row now spec row s t gone h =
      let missing : load_missing now false spec s ≡ (ok row, t) =
        subst (λ x. load_selected now false spec x s ≡ (ok row, t)) gone h in
      elim (Result-cases
        (validate_max_capacity_finite_positive (py_float spec.configured_max_capacity))) [
          | inr (e, k) ↦ absurd (ground (arith, missing, k))
          | inl (limit, k) ↦ ground (arith, missing, k)
        ]

  drained_state :
      (now : F) (spec : BucketSpec F) (row : LoadedRow F) (k : BucketState F) (s t : Store F)
      → is_state_lost (state_loss_suspected spec.bucket_id now s) row.capacity row.last_checked
        ≡ true
      → state_of_row now false spec row s ≡ (ok k, t)
      → (k.is_lost ≡ true)
        × ((x : F) × (refill_capacity spec (some zero_f) (some now) now row.max_capacity
              ≡ ok (record { amount = k.capacity; is_fresh_start = k.is_fresh_start }, x)))
  unfolding state_of_row drain_if_lost
  drained_state now spec row k s t lost h =
      elim (Result-cases (refill_capacity spec (some zero_f) (some now) now row.max_capacity)) [
        | inr (e, g) ↦ absurd (ground (arith, h, lost, g))
        | inl (v, g) ↦ (ground (arith, h, lost, g), (v.1, ground (arith, h, lost, g)))
      ]

module _ {F : Type 0} ⦃fl : Float F⦄ (laws : IsIeee fl) where
  open fl use {le, is_finite}

  -- A stored zero at the time of the reading.
  zero_now :
      (now m r : F) (c : CalculatedCapacity F)
      → calculate_capacity (py_float now) (py_float zero_f) (py_float now) (py_float m) (py_float r)
        ≡ ok c
      → (c.is_fresh_start ≡ false) × (le c.amount zero_f ≡ true)
  zero_now now m r c h =
      let valid = calculate_capacity-IsDecided laws now zero_f now m r in
      let accepted : is_ok (
            calculate_capacity (py_float now) (py_float zero_f) (py_float now) (py_float m)
              (py_float r))
          ≡ true =
        rw h refl in
      let t : IsTime now = is_time_sound now (ground (arith, valid, accepted)) in
      let q : IsRate m r = is_rate_sound m r (ground (arith, valid, accepted)) in
      let value =
        calculate_capacity-stored now zero_f now m r t q t.finite laws.finite_zero
          (refilled_finite laws now zero_f now m r t q t.finite laws.finite_zero) in
      let bound = refilled_at_once laws zero_f now m r t q laws.finite_zero in
      let same : record { amount = refilled now zero_f now m r; is_fresh_start = false } ≡ c =
        ground (arith, value, h) in
      rw (← same) (refl, bound)

  drained_capacity :
      (spec : BucketSpec F) (now m : F) (p : CalculatedCapacity F × F)
      → refill_capacity spec (some zero_f) (some now) now m ≡ ok p
      → (p.0.is_fresh_start ≡ false) × (le p.0.amount zero_f ≡ true)
  unfolding refill_capacity
  drained_capacity spec now m p h =
      elim (Result-cases (calculate_rate_per_sec m spec.bucket_id.1)) [
        | inr (e, k) ↦ absurd (ground (arith, h, k))
        | inl (r, k) ↦
            elim (Result-cases (
              calculate_capacity (py_float now) (py_float zero_f) (py_float now) (py_float m)
                (py_float r))) [
                  | inr (e, g) ↦ absurd (ground (arith, h, k, g))
                  | inl (c, g) ↦
                      let same : c ≡ p.0 = ground (arith, h, k, g) in
                      rw (← same) (zero_now now m r c g)
                ]
      ]

  -- A bucket whose row is gone, while a committed write had confirmed its state and the row should
  -- not have expired yet, is loaded as drained: it counts as lost and not as fresh, and it has
  -- nothing to give.
  pub missing_state_drained :
      (now : F) (spec : BucketSpec F) (k : BucketState F) (s t : Store F)
      → select_bucket spec.bucket_id s ≡ none
      → state_loss_suspected spec.bucket_id now s ≡ true
      → load_state now true spec s ≡ (ok k, t)
      → (k.is_lost ≡ true) × (k.is_fresh_start ≡ false) × (le k.capacity zero_f ≡ true)
  unfolding load_state
  missing_state_drained now spec k s t gone suspected h =
      let read = (load_state_predicts spec now s s (record { until = refl }) refl).result k t h in
      let a = >>=-Returns (load_row now false spec) (state_of_row now false spec) s k s read in
      let (capacity, last, same) = missing_row now spec a.value s a.middle gone a.first in
      let evidence : state_loss_suspected spec.bucket_id now a.middle ≡ true =
        rw (← same) suspected in
      let lost : is_state_lost (state_loss_suspected spec.bucket_id now a.middle) a.value.capacity
            a.value.last_checked
          ≡ true =
        rw (capacity, last, evidence) refl in
      let (is_lost, (x, e)) = drained_state now spec a.value k a.middle s lost a.second in
      let (fresh, amount) = drained_capacity spec now a.value.max_capacity _ e in
      (is_lost, fresh, amount)
