-- ===== src/Tests/Acquire.antt =====
-- Acquiring through a limiter whose backend is ready, one whose backend refuses, and one that is
-- configured differently for two models of a family.
use token_throttle.Base.{◌≡◌, refl, true, false, some, Option, [], ◌∷◌, ℕ, arith, nat_eq, pair_eq}
use token_throttle.Base.Int.{ℤ, pos}
use token_throttle.Float.Ints.{ints}
use token_throttle.Exceptions.{Result, ok, err, timeout_error}
use token_throttle.Limiter.{Limiter, Reservation}
use token_throttle.Limiter.Aliases.{validate_shared_model_family_config}
use token_throttle.Limiter.Aliases.Caps.{
  IsCapped, refused_alias_unchanged, validate_shared_model_family_config-IsCapped,
}
use token_throttle.Limiter.Acquire.{
  Acquisition, BackendEnd, Config, issued, refused, run_acquire, attempt_acquire,
  issued_reservation,
}
use token_throttle.Limiter.Acquire.Settled.{IsDelivered, run_acquire-IsDelivered}
use token_throttle.Tests.Bookkeeping.{empty_limiter, reservation, calm}

abbrev cfg : Config
cfg = record {
  model_family = 4;
  signature = 20;
  is_unlimited = false;
  metrics = 1 ∷ [];
  bucket_ids = (1, 60) ∷ (1, 1) ∷ [];
}

abbrev resolve : ℕ → Result (ℕ × ℕ)
resolve name = ok (4, 21)

abbrev ends_with : BackendEnd ℤ → Acquisition ℤ
ends_with end = record {
  resolve = resolve;
  get_backend = λ l. (ok tt, l);
  call_backend = λ l. (end, l);
  emit = ok tt;
  is_critical = λ e. false;
  refund = calm;
  time = pos 7;
  now = pos 3;
}

abbrev value_of : Result (Reservation ℤ) → Reservation ℤ
value_of (ok r) = r
value_of (err e) = reservation

abbrev acquired : Result (Reservation ℤ) × Limiter ℤ
acquired = run_acquire (ends_with (issued (some (pos 6)))) reservation 3 cfg true empty_limiter

run_acquire-IsDelivered_example :
    (at : Option ℤ) × (issued_reservation at (pos 7) reservation ≡ value_of acquired.0)
    × ((attempt_acquire (ends_with (issued (some (pos 6)))) 3 cfg empty_limiter).0 ≡ ok (issued at))
    × IsDelivered (value_of acquired.0) acquired.1
unfolding run_acquire
run_acquire-IsDelivered_example =
    run_acquire-IsDelivered (ends_with (issued (some (pos 6)))) reservation (value_of acquired.0) 3
      cfg true empty_limiter acquired.1 refl

abbrev timed_out : Result (Reservation ℤ) × Limiter ℤ
timed_out = run_acquire (ends_with (refused timeout_error)) reservation 3 cfg true empty_limiter

-- The family is registered by another model, with another signature.
abbrev shared_family : Limiter ℤ
shared_family = record empty_limiter {
  family_to_model_name = (4, 2) ∷ [];
  name_to_family = (2, 4) ∷ [];
  name_signatures = (2, 21) ∷ [];
  family_signatures = (4, 21) ∷ [];
  signature_counts = (4, (21, 1) ∷ []) ∷ [];
  alias_counts = (4, 1) ∷ [];
}

refused_alias_unchanged_example :
    (validate_shared_model_family_config resolve 3 4 20 (pos 1) true shared_family).1
    ≡ shared_family
unfolding validate_shared_model_family_config
refused_alias_unchanged_example =
    refused_alias_unchanged resolve 3 4 20 (pos 1) true shared_family refl

validate_shared_model_family_config-IsCapped_example :
    IsCapped (validate_shared_model_family_config resolve 3 4 21 (pos 1) true shared_family).1
validate_shared_model_family_config-IsCapped_example =
    validate_shared_model_family_config-IsCapped resolve 3 4 21 (pos 1) true shared_family
      (record { aliases = omega arith; families = omega arith })
