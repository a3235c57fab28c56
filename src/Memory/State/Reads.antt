-- ===== src/Memory/State/Reads.antt =====
-- What a read of the capacities returns on valid buckets.
use token_throttle.Exceptions.{ok}
use token_throttle.Float.{Float, IsIeee}
use token_throttle.Base.{true, false, ◌≡◌, refl, List, [], ◌∷◌, arith, All, Option, some, none, ap}
use token_throttle.Capacity.{CalculatedCapacity, calculate_capacity, py_none, py_float}
use token_throttle.Capacity.Refill.{
  IsTime, IsRate, refilled, refilled_finite, refilled-le-max, calculate_capacity-stored,
  calculate_capacity-fresh,
}
use token_throttle.Memory.Bucket.{MemoryBucket, get_capacity, of_option}
use token_throttle.Memory.Bucket.Limits.{IsValid, IsStored}
use token_throttle.Memory.State.{metrics_of, get_capacities, active_metrics}
use token_throttle.Memory.State.Pointwise.{amounts}

module _ {F : Type 0} ⦃fl : Float F⦄ where
  open fl use {le, is_finite}

  abbrev available_pair : F → F → F → Option F → Option F → F
  available_pair now m r (some c) (some l) = refilled l c now m r
  available_pair now m r _ _ = m

  -- The capacity that a read at `now` reports.
  abbrev pub available : F → MemoryBucket F → F
  available now b = available_pair now b.max_capacity b.rate_per_sec b.capacity b.last_checked

  pub active_metrics-amounts :
      (f : MemoryBucket F → F) (bs : List (MemoryBucket F))
      → active_metrics (amounts f bs) ≡ metrics_of bs
  active_metrics-amounts f [] = refl
  active_metrics-amounts f (b ∷ bs) = ap (λ ms. b.usage_metric ∷ ms) (active_metrics-amounts f bs)

module _ {F : Type 0} ⦃fl : Float F⦄ (laws : IsIeee fl) (now : F) (t : IsTime now) where
  open fl use {le, is_finite}

  read_pair :
      (m r : F) (c l : Option F)
      → IsRate m r
      → IsStored c l
      → (k : CalculatedCapacity F) × (calculate_capacity
            (of_option l)
            (of_option c)
            (py_float now)
            (py_float m)
            (py_float r)
          ≡ ok k)
        × (k.amount ≡ available_pair now m r c l)
        × (is_finite k.amount ≡ true)
        × (le k.amount m ≡ true)
  read_pair m r none none q s = (
    record { amount = m; is_fresh_start = true },
    calculate_capacity-fresh now m r py_none t q,
    refl,
    q.max_finite,
    laws.finite_num m q.max_finite,
  )
  read_pair m r none (some l) q s = elim s [ ]
  read_pair m r (some c) none q s = elim s [ ]
  read_pair m r (some c) (some l) q s =
      let fin = refilled_finite laws l c now m r t q s.1 s.0 in
      (
        record { amount = refilled l c now m r; is_fresh_start = false },
        calculate_capacity-stored l c now m r t q s.1 s.0 fin,
        refl,
        fin,
        refilled-le-max laws l c now m r t q s.1 s.0,
      )

  pub available_finite : (b : MemoryBucket F) → IsValid b → is_finite (available now b) ≡ true
  available_finite b v =
      ground
        (arith, read_pair b.max_capacity b.rate_per_sec b.capacity b.last_checked v.rate v.stored)

  pub available-le-max :
      (b : MemoryBucket F) → IsValid b → le (available now b) b.max_capacity ≡ true
  available-le-max b v =
      ground
        (arith, read_pair b.max_capacity b.rate_per_sec b.capacity b.last_checked v.rate v.stored)

  -- Reading valid buckets raises nothing, and returns what is available in each.
  pub get_capacities-valid :
      (bs : List (MemoryBucket F))
      → All IsValid bs
      → get_capacities now bs ≡ ok (amounts (available now) bs)
  unfolding get_capacities get_capacity
  get_capacities-valid [] h = refl
  get_capacities-valid (b ∷ bs) h =
      let (k, e, a, _, _) =
        read_pair b.max_capacity b.rate_per_sec b.capacity b.last_checked h.0.rate h.0.stored in
      rw (e, a, get_capacities-valid bs h.1)
