-- ===== src/Sqlite/Operations/Amounts.antt =====
-- The amounts of an acquisition on the engine, state by state, and that the engine computes them.
use token_throttle.Base.{
  true, false, not, ◌||◌, ◌≡◌, refl, Option, some, none, Option-cases, nat_eq, List, [], ◌∷◌, All,
  map, arith, inl, inr, pair_eq,
}
use token_throttle.Base.Dict.{lookup}
use token_throttle.Float.{Float, max_f, zero_f}
use token_throttle.Validation.{BucketId, Usage}
use token_throttle.Validation.Amounts.{fits}
use token_throttle.Memory.State.{Capacities}
use token_throttle.Sqlite.Load.{BucketState}
use token_throttle.Sqlite.Operations.{
  exceeds_some_state, is_available, taken_off, overdrawn_states, usage_of,
}

module _ {F : Type 0} ⦃fl : Float F⦄ where
  open fl use {sub, neg, le, lt}

  -- What a bucket holds less the usage of its metric, none where it is not named.
  abbrev pub less_used : F → Option F → F
  less_used amount none = sub amount zero_f
  less_used amount (some used) = sub amount used

  -- A bucket holds the amount asked of it.
  abbrev pub Holds : F → Option F → Type 0
  Holds amount none = le zero_f amount ≡ true
  Holds amount (some needed) = le needed amount ≡ true

  -- What is left of each state, by the formula.
  abbrev pub left_by : Usage F → (F → F → F) → List (BucketState F) → Capacities F
  left_by usage f states =
      map
        (λ k. (
          k.spec.bucket_id,
          f k.max_capacity (less_used k.capacity (lookup usage k.spec.bucket_id.0)),
        ))
        states

  sub-usage_of :
      (usage : Usage F) (id : BucketId) (a : F)
      → sub a (usage_of usage id) ≡ less_used a (lookup usage id.0)
  sub-usage_of usage id a = elim (Option-cases (lookup usage id.0)) [
    | inl e ↦ ground (arith, e)
    | inr (u, e) ↦ ground (arith, e)
  ]

  pub taken_off_lem :
      (usage : Usage F) (states : List (BucketState F))
      → taken_off usage states ≡ left_by usage (λ m. λ x. x) states
  taken_off_lem usage [] = refl
  taken_off_lem usage (k ∷ states) =
      rw (sub-usage_of usage k.spec.bucket_id k.capacity, taken_off_lem usage states) refl

  pub overdrawn_lem :
      (usage : Usage F) (states : List (BucketState F))
      → overdrawn_states usage states ≡ left_by usage (λ m. λ x. max_f (neg m) x) states
  overdrawn_lem usage [] = refl
  overdrawn_lem usage (k ∷ states) =
      rw (sub-usage_of usage k.spec.bucket_id k.capacity, overdrawn_lem usage states) refl

  pub holds_lem :
      (usage : Usage F) (states : List (BucketState F))
      → is_available usage states ≡ true
      → All (λ k. Holds k.capacity (lookup usage k.spec.bucket_id.0)) states
  holds_lem usage [] h = tt
  holds_lem usage (k ∷ states) h = elim (Option-cases (lookup usage k.spec.bucket_id.0)) [
    | inl e ↦ rw e (ground (arith, h, e), holds_lem usage states (ground (arith, h)))
    | inr (u, e) ↦ rw e (ground (arith, h, e), holds_lem usage states (ground (arith, h)))
  ]

  exceeds-cons :
      (usage : Usage F) (k : BucketState F) (states : List (BucketState F))
      → exceeds_some_state usage (k ∷ states)
        ≡ (not (fits usage k.spec.bucket_id.0 k.max_capacity) || exceeds_some_state usage states)
  exceeds-cons [] k states = refl
  exceeds-cons ((m, u) ∷ usage) k states = ground (arith, exceeds-cons usage k states)

  pub fits_lem :
      (usage : Usage F) (states : List (BucketState F))
      → exceeds_some_state usage states ≡ false
      → All (λ k. fits usage k.spec.bucket_id.0 k.max_capacity ≡ true) states
  fits_lem usage [] h = tt
  fits_lem usage (k ∷ states) h = (
    ground (arith, h, exceeds-cons usage k states),
    fits_lem usage states (ground (arith, h, exceeds-cons usage k states)),
  )
