-- ===== src/Limiter/Projection/Valid.antt =====
-- A projected refund passes the backend's checks.
use token_throttle.Exceptions.{ok}
use token_throttle.Base.{ℕ, ◌≡◌, List, nat_eq, pair_eq, map}
use token_throttle.Float.{Float}
use token_throttle.Validation.{BucketId, validate_backend_refund_usage_for_bucket_ids}
use token_throttle.Limiter.Projection.{Projected}

firsts : List BucketId → List ℕ
firsts ids = map (λ (b : BucketId). b.0) ids

module _ {F : Type 0} ⦃fl : Float F⦄ where
  open fl use {is_finite, lt}

  -- The backend's check of a projected refund.
  abbrev pub IsAccepted : Projected F → List BucketId → List BucketId → Type 0
  IsAccepted p ids active =
      validate_backend_refund_usage_for_bucket_ids p.reserved p.actual ids active ≡ ok tt
