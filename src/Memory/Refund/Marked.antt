-- ===== src/Memory/Refund/Marked.antt =====
-- The mark that a refund leaves in the registry.
use token_throttle.Base.Dict.{contains}
use token_throttle.Float.{Float}
use token_throttle.Memory.State.{Backend, metrics_of}
use token_throttle.Base.{
  ℕ, ◌<◌, true, false, ◌≡◌, refl, ap, sym, ◌∙◌, Option, some, none, arith, nat_eq, pair_eq,
}
use token_throttle.Base.Members.{contains-discard}
use token_throttle.Memory.Invariant.{IsBackend}
use token_throttle.Memory.Reservations.{
  forget_acquired_reservation, remember_refunded_reservation_id, remember_new,
}
use token_throttle.Memory.Reservations.Registry.{
  IsRegistry, forget_acquired_reservation-IsRegistry, remember_refunded_reservation_id-IsRegistry,
  remembered,
}
use token_throttle.Memory.Refund.{mark_refunded}

module _ {F : Type 0} where
  remember-acquired :
      (rid : ℕ) (b : Backend F)
      → (remember_refunded_reservation_id rid b).acquired_ids ≡ b.acquired_ids
  unfolding remember_refunded_reservation_id remember_new
  remember-acquired rid b = ground arith

  remember-buckets :
      (rid : ℕ) (b : Backend F) → (remember_refunded_reservation_id rid b).buckets ≡ b.buckets
  unfolding remember_refunded_reservation_id remember_new
  remember-buckets rid b = ground arith

  remember-names :
      (rid : ℕ) (b : Backend F)
      → (remember_refunded_reservation_id rid b).usage_metric_names ≡ b.usage_metric_names
  unfolding remember_refunded_reservation_id remember_new
  remember-names rid b = ground arith

  forgotten :
      (rid : ℕ) (b : Backend F)
      → contains (forget_acquired_reservation rid b).acquired_ids rid ≡ false
  unfolding forget_acquired_reservation
  forgotten rid b = ground (arith, contains-discard b.acquired_ids rid rid)

  mark_refunded-buckets :
      (rid : Option ℕ) (b : Backend F) → (mark_refunded rid b).buckets ≡ b.buckets
  unfolding mark_refunded forget_acquired_reservation
  mark_refunded-buckets none b = refl
  mark_refunded-buckets (some rid) b = remember-buckets rid (forget_acquired_reservation rid b)

  mark_refunded-names :
      (rid : Option ℕ) (b : Backend F)
      → (mark_refunded rid b).usage_metric_names ≡ b.usage_metric_names
  unfolding mark_refunded forget_acquired_reservation
  mark_refunded-names none b = refl
  mark_refunded-names (some rid) b = remember-names rid (forget_acquired_reservation rid b)

  mark_refunded-IsRegistry :
      (rid : Option ℕ) (b : Backend F) → IsRegistry b → IsRegistry (mark_refunded rid b)
  unfolding mark_refunded
  mark_refunded-IsRegistry none b r = r
  mark_refunded-IsRegistry (some rid) b r =
      remember_refunded_reservation_id-IsRegistry rid (forget_acquired_reservation rid b)
        (forgotten rid b) (forget_acquired_reservation-IsRegistry rid b r)

  -- A marked reservation is refunded, and no more live.
  pub mark_refunded-check :
      (rid : ℕ) (b : Backend F)
      → 0 < b.refunded_ids_cap
      → IsRegistry b
      → (contains (mark_refunded (some rid) b).acquired_ids rid ≡ false)
        × (contains (mark_refunded (some rid) b).refunded_ids rid ≡ true)
  unfolding mark_refunded forget_acquired_reservation
  mark_refunded-check rid b p r = (
    ap (λ ids. contains ids rid) (remember-acquired rid (forget_acquired_reservation rid b))
        ∙ forgotten rid b,
    remembered rid (forget_acquired_reservation rid b) p
        (forget_acquired_reservation-IsRegistry rid b r),
  )

module _ {F : Type 0} ⦃fl : Float F⦄ where
  pub mark_refunded-IsBackend :
      (rid : Option ℕ) (b : Backend F) → IsBackend b → IsBackend (mark_refunded rid b)
  mark_refunded-IsBackend rid b ib = record {
    valid = rw (mark_refunded-buckets rid b) ib.valid;
    distinct = rw (mark_refunded-buckets rid b) ib.distinct;
    names =
        mark_refunded-names rid b ∙ (ib.names ∙ ap metrics_of (sym (mark_refunded-buckets rid b)));
    registry = mark_refunded-IsRegistry rid b ib.registry;
  }
