-- ===== src/Sqlite/Load/Mirror.antt =====
-- The SQLite engine and the memory backend measure a bucket alike.
use mathlib.Core.Path.{subst}
use token_throttle.Base.{
  ◌≡◌, refl, Bool, true, false, Option, none, some, arith, Bool-cases, inl, inr, nat_eq, pair_eq,
}
use token_throttle.Float.{Float, zero_f}
use token_throttle.Exceptions.{ok, Result-cases}
use token_throttle.Action.Rules.{>>=-Returns}
use token_throttle.Capacity.{
  py_float, validate_max_capacity_finite_positive, calculate_rate_per_sec, calculate_capacity,
  CalculatedCapacity,
}
use token_throttle.Memory.Bucket.{MemoryBucket, get_capacity, of_option}
use token_throttle.Sqlite.Tables.{BucketRow}
use token_throttle.Sqlite.Engine.{BucketSpec, Store, select_bucket, state_loss_suspected}
use token_throttle.Sqlite.Rows.{
  LoadedRow, load_inactive, load_limited, load_present, load_selected, load_row, accrue_to_expiry,
  override_anchor_matches, is_expired_row, refill_capacity,
}
use token_throttle.Sqlite.Load.Snapshot.{load_state_predicts}
use token_throttle.Sqlite.Load.{BucketState, is_state_lost, drain_if_lost, state_of_row, load_state}

module _ {F : Type 0} ⦃fl : Float F⦄ where
  -- The memory bucket holds what the row does, under the engine's limit and the rate of that limit.
  pub record IsMirror (spec : BucketSpec F) (r : BucketRow F) (b : MemoryBucket F) : Type 0 where
    pub capacity : b.capacity ≡ r.capacity
    pub last_checked : b.last_checked ≡ r.last_checked
    pub maximum : b.max_capacity ≡ spec.configured_max_capacity
    pub rate :
        calculate_rate_per_sec spec.configured_max_capacity spec.bucket_id.1 ≡ ok b.rate_per_sec

  accrue_plain :
      (now : F) (spec : BucketSpec F) (matches : Bool) (until capacity last : Option F)
      → accrue_to_expiry now spec matches none until capacity last ≡ ok (capacity, last)
  unfolding accrue_to_expiry
  accrue_plain now spec true until capacity last = refl
  accrue_plain now spec false until capacity last = refl

  -- What is loaded of a row without an override.
  abbrev IsPlain : BucketSpec F → Option F → Option F → LoadedRow F → Type 0
  IsPlain spec capacity last row =
      (row.capacity ≡ capacity)
      × (row.last_checked ≡ last)
      × (row.max_capacity ≡ spec.configured_max_capacity)

  same_limit :
      (x limit : F) → validate_max_capacity_finite_positive (py_float x) ≡ ok limit → limit ≡ x
  unfolding validate_max_capacity_finite_positive
  same_limit x limit h = ground (arith, h)

  load_inactive-IsPlain :
      (now : F) (spec : BucketSpec F) (r : BucketRow F) (capacity last : Option F)
      (row : LoadedRow F) (s t : Store F)
      → r.override_value ≡ none
      → load_inactive now false spec r capacity last s ≡ (ok row, t)
      → IsPlain spec capacity last row
  unfolding load_inactive
  load_inactive-IsPlain now spec r capacity last row s t bare h =
      elim (Result-cases
        (validate_max_capacity_finite_positive (py_float spec.configured_max_capacity))) [
          | inr (e, k) ↦ absurd (ground (arith, h, k))
          | inl (limit, k) ↦
              let a =
                accrue_plain now spec
                  (override_anchor_matches spec r.override_configured_max_capacity)
                  r.override_expires_at capacity last in
              let same = same_limit spec.configured_max_capacity limit k in
              ground (arith, h, k, a, bare, same)
        ]

  load_row-IsPlain :
      (now : F) (spec : BucketSpec F) (r : BucketRow F) (row : LoadedRow F) (s t : Store F)
      → select_bucket spec.bucket_id s ≡ some r
      → is_expired_row now r ≡ false
      → r.override_value ≡ none
      → load_row now false spec s ≡ (ok row, t)
      → IsPlain spec r.capacity r.last_checked row
  unfolding load_row load_selected load_present load_limited
  load_row-IsPlain now spec r row s t found fresh bare h =
      let selected : load_selected now false spec (some r) s ≡ (ok row, t) =
        subst (λ x. load_selected now false spec x s ≡ (ok row, t)) found h in
      let present : load_inactive now false spec r r.capacity r.last_checked s ≡ (ok row, t) =
        ground (arith, selected, fresh, bare) in
      load_inactive-IsPlain now spec r r.capacity r.last_checked row s t bare present

  refill_mirrors :
      (now : F) (spec : BucketSpec F) (b : MemoryBucket F) (p : CalculatedCapacity F × F)
      → calculate_rate_per_sec spec.configured_max_capacity spec.bucket_id.1 ≡ ok b.rate_per_sec
      → b.max_capacity ≡ spec.configured_max_capacity
      → refill_capacity spec b.capacity b.last_checked now spec.configured_max_capacity ≡ ok p
      → get_capacity b now ≡ ok p.0
  unfolding refill_capacity get_capacity
  refill_mirrors now spec b p rate same h =
      let q =
        calculate_capacity (of_option b.last_checked) (of_option b.capacity) (py_float now)
          (py_float spec.configured_max_capacity) (py_float b.rate_per_sec) in
      let here : q ≡ ok p.0 = elim (Result-cases q) [
        | inr (e, k) ↦ absurd (ground (arith, h, rate, k))
        | inl (c, k) ↦ ground (arith, h, rate, k)
      ] in
      rw same here

  state_plain :
      (now : F) (spec : BucketSpec F) (row : LoadedRow F) (k : BucketState F) (s t : Store F)
      → state_of_row now false spec row s ≡ (ok k, t)
      → k.is_lost ≡ false
      → (x : F) × (refill_capacity spec row.capacity row.last_checked now row.max_capacity
          ≡ ok (record { amount = k.capacity; is_fresh_start = k.is_fresh_start }, x))
  unfolding state_of_row drain_if_lost
  state_plain now spec row k s t h found =
      let q = refill_capacity spec row.capacity row.last_checked now row.max_capacity in
      let lost =
        is_state_lost (state_loss_suspected spec.bucket_id now s) row.capacity row.last_checked in
      elim (Bool-cases lost) [
        | inl c ↦
            let z = refill_capacity spec (some zero_f) (some now) now row.max_capacity in
            elim (Result-cases z) [
              | inr (e, g) ↦ absurd (ground (arith, h, c, g))
              | inl (v, g) ↦ absurd (ground (arith, h, c, g, found))
            ]
        | inr c ↦ elim (Result-cases q) [
          | inr (e, g) ↦ absurd (ground (arith, h, c, g))
          | inl (v, g) ↦ (v.1, ground (arith, h, c, g))
        ]
      ]

  -- A bucket of an SQLite engine whose row has not expired and has no override, and whose state does
  -- not count as lost, is measured as the memory backend measures a bucket with the stored state of
  -- the row, the limit of the engine and the rate of that limit: the same amount, and
  -- fresh in the same cases.
  pub load_state_mirrors :
      (now : F) (spec : BucketSpec F) (r : BucketRow F) (b : MemoryBucket F) (k : BucketState F)
      (s t : Store F)
      → select_bucket spec.bucket_id s ≡ some r
      → is_expired_row now r ≡ false
      → r.override_value ≡ none
      → IsMirror spec r b
      → load_state now true spec s ≡ (ok k, t)
      → k.is_lost ≡ false
      → get_capacity b now ≡ ok (record { amount = k.capacity; is_fresh_start = k.is_fresh_start })
  unfolding load_state
  load_state_mirrors now spec r b k s t found fresh bare m h kept =
      let read = (load_state_predicts spec now s s (record { until = refl }) refl).result k t h in
      let a = >>=-Returns (load_row now false spec) (state_of_row now false spec) s k s read in
      let (capacity, last, limit) =
        load_row-IsPlain now spec r a.value s a.middle found fresh bare a.first in
      let (x, e) = state_plain now spec a.value k a.middle s a.second kept in
      refill_mirrors now spec b
        (record { amount = k.capacity; is_fresh_start = k.is_fresh_start }, x) m.rate m.maximum
        (rw (m.capacity, m.last_checked, ← capacity, ← last, ← limit) e)
