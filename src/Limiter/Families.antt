-- ===== src/Limiter/Families.antt =====
-- _sync_rate_limiter.py, `clear_unused_model_families`: idle model families leave the limiter's maps.
use token_throttle.Base.Dict.{Dict, contains, discard, lookup, pop_key}
use token_throttle.Base.{
  pair_eq, ℕ, ◌≡◌, refl, true, false, not, ◌&&◌, List, [], ◌∷◌, arith, if◌then◌else◌, ◌==◌, nat_eq,
  length,
}
use token_throttle.Base.Members.{lookup-pop_key, contains-discard}
use token_throttle.Float.{Float}
use token_throttle.Exceptions.{ok}
use token_throttle.Action.{Action}
use token_throttle.Limiter.{Limiter}

-- `set(d.values())`
abbrev pub values_of : Dict ℕ ℕ → List ℕ
values_of [] = []
values_of ((k, v) ∷ d) = v ∷ values_of d

-- The names with that value.
abbrev pub names_with : ℕ → Dict ℕ ℕ → List ℕ
names_with family [] = []
names_with family ((k, v) ∷ d) =
    if v == family then k ∷ names_with family d else names_with family d

abbrev pub pop_keys : {V : Type 0} → Dict ℕ V → List ℕ → Dict ℕ V
pop_keys d [] = d
pop_keys d (k ∷ ks) = pop_keys (pop_key d k) ks

module _ {F : Type 0} ⦃fl : Float F⦄ where
  open fl use {le, sub}

  -- The families without a reservation in flight that were last touched at `cutoff` or before.
  abbrev pub expired_families : List ℕ → F → Dict ℕ F → List ℕ
  expired_families busy cutoff [] = []
  expired_families busy cutoff ((family, touched) ∷ d) =
      if not (contains busy family) && le touched cutoff
      then family ∷ expired_families busy cutoff d
      else expired_families busy cutoff d

module _ {F : Type 0} where
  unfoldable pub evict_family : ℕ → Limiter F → Limiter F
  evict_family family l = record l {
    backends = discard l.backends family;
    family_to_model_name = pop_key l.family_to_model_name family;
    family_to_quotas = pop_key l.family_to_quotas family;
    last_touched = pop_key l.last_touched family;
    runtime_max_capacity = pop_key l.runtime_max_capacity family;
    family_signatures = pop_key l.family_signatures family;
    name_to_family = pop_keys l.name_to_family (names_with family l.name_to_family);
    name_signatures = pop_keys l.name_signatures (names_with family l.name_to_family);
    signature_counts = pop_key l.signature_counts family;
    alias_counts = pop_key l.alias_counts family;
  }

  unfoldable pub evict_families : List ℕ → Limiter F → Limiter F
  unfolding evict_family
  evict_families [] l = l
  evict_families (family ∷ families) l = evict_families families (evict_family family l)

module _ {F : Type 0} ⦃fl : Float F⦄ where
  open fl use {le, sub, from_nat}

  -- On a valid argument; `now` is the monotonic clock. Returns the number of evicted families.
  unfoldable pub clear_unused_model_families : ℕ → F → Action (Limiter F) ℕ
  unfolding evict_families
  clear_unused_model_families unused_for_seconds now l =
      let expired =
        expired_families (values_of l.in_flight_family) (sub now (from_nat unused_for_seconds))
          l.last_touched in
      (ok (length expired), evict_families expired l)

  expired-idle :
      (busy : List ℕ) (cutoff : F) (d : Dict ℕ F) (family : ℕ)
      → contains busy family ≡ true
      → contains (expired_families busy cutoff d) family ≡ false
  expired-idle busy cutoff [] family h = refl
  expired-idle busy cutoff ((f, t) ∷ d) family h = ground (arith, expired-idle busy cutoff d family)

  evict_families-keeps :
      (families : List ℕ) (family : ℕ) (l : Limiter F)
      → contains families family ≡ false
      → (contains (evict_families families l).backends family ≡ contains l.backends family)
        × (lookup (evict_families families l).family_to_quotas family
            ≡ lookup l.family_to_quotas family)
  unfolding evict_families evict_family
  evict_families-keeps [] family l h = (refl, refl)
  evict_families-keeps (f ∷ fs) family l h = ground (
    arith,
    h,
    evict_families-keeps fs family (evict_family f l),
    contains-discard l.backends f family,
    lookup-pop_key l.family_to_quotas f family,
  )

  -- A family with a reservation in flight is never evicted: its backend and its quotas stay, so that
  -- its refunds still find them.
  pub clear_unused_model_families_keeps :
      (unused_for_seconds : ℕ) (now : F) (l : Limiter F) (family : ℕ)
      → contains (values_of l.in_flight_family) family ≡ true
      → let after = (clear_unused_model_families unused_for_seconds now l).1 in
        (contains after.backends family ≡ contains l.backends family)
        × (lookup after.family_to_quotas family ≡ lookup l.family_to_quotas family)
  unfolding clear_unused_model_families
  clear_unused_model_families_keeps unused_for_seconds now l family h =
      evict_families-keeps _ family l (expired-idle _ _ l.last_touched family h)
