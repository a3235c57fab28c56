-- ===== src/Memory/Wait/Fits.antt =====
-- Whether usage fits, bucket by bucket, and that the code's two tests decide it.
use token_throttle.Base.{
  Bool, false, not, ◌||◌, all, ◌≡◌, refl, nat_eq, List, [], ◌∷◌, arith, pair_eq,
}
use token_throttle.Float.{Float}
use token_throttle.Validation.{BucketId, Usage}
use token_throttle.Validation.Amounts.{fits}
use token_throttle.Memory.Bucket.{MemoryBucket}
use token_throttle.Memory.State.{Capacities, id_of}
use token_throttle.Memory.State.Pointwise.{amounts}
use token_throttle.Memory.Consume.{exceeds_some_bucket, is_short}

module _ {F : Type 0} ⦃fl : Float F⦄ where
  open fl use {lt}

  -- Every bucket of the list can give what the usage asks of its metric, out of `f` of it.
  abbrev pub all_fit : Usage F → (MemoryBucket F → F) → List (MemoryBucket F) → Bool
  all_fit usage f = all (λ b. fits usage b.usage_metric (f b))

  exceeds-cons :
      (usage : Usage F) (b : MemoryBucket F) (bs : List (MemoryBucket F))
      → exceeds_some_bucket usage (b ∷ bs)
        ≡ (not (fits usage b.usage_metric b.max_capacity) || exceeds_some_bucket usage bs)
  exceeds-cons [] b bs = refl
  exceeds-cons ((m, u) ∷ usage) b bs = ground (arith, exceeds-cons usage b bs)

  exceeds-nil : (usage : Usage F) → exceeds_some_bucket usage [] ≡ false
  exceeds-nil [] = refl
  exceeds-nil ((m, u) ∷ usage) = exceeds-nil usage

  pub exceeds-all_fit :
      (usage : Usage F) (bs : List (MemoryBucket F))
      → exceeds_some_bucket usage bs ≡ not (all_fit usage (λ b. b.max_capacity) bs)
  exceeds-all_fit usage [] = exceeds-nil usage
  exceeds-all_fit usage (b ∷ bs) = ground (arith, exceeds-cons usage b bs, exceeds-all_fit usage bs)

  is_short-cons :
      (usage : Usage F) (c : BucketId × F) (cs : Capacities F)
      → is_short usage (c ∷ cs) ≡ (not (fits usage c.0.0 c.1) || is_short usage cs)
  is_short-cons [] c cs = refl
  is_short-cons ((m, u) ∷ usage) c cs = ground (arith, is_short-cons usage c cs)

  is_short-nil : (usage : Usage F) → is_short usage [] ≡ false
  is_short-nil [] = refl
  is_short-nil ((m, u) ∷ usage) = is_short-nil usage

  pub is_short-all_fit :
      (usage : Usage F) (f : MemoryBucket F → F) (bs : List (MemoryBucket F))
      → is_short usage (amounts f bs) ≡ not (all_fit usage f bs)
  is_short-all_fit usage f [] = is_short-nil usage
  is_short-all_fit usage f (b ∷ bs) =
      ground (arith, is_short-cons usage (id_of b, f b) (amounts f bs), is_short-all_fit usage f bs)
