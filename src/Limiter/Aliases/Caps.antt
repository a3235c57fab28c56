-- ===== src/Limiter/Aliases/Caps.antt =====
-- What the registration of a name keeps: the caps on names and families, and all else when it refuses.
use token_throttle.Base.{
  ℕ, suc, ◌≤◌, ◌≡◌, refl, Bool, true, false, not, ◌&&◌, Option, none, some, ◌∷◌, [], length, leb,
  nat_eq, arith, Bool-cases, inl, inr,
}
use token_throttle.Base.Dict.{Dict, lookup, insert, has_key}
use token_throttle.Exceptions.{Result, Error, is_ok, cardinality_limit_exceeded}
use token_throttle.Action.{Action, ◌>>◌, modify, when, raise_when}
use token_throttle.Action.Rules.{
  Keeps, >>=-Keeps, lift-Keeps, pure-Keeps, gets-Keeps, raise_when-Keeps, raise-Keeps, branch-Keeps,
  modify-Keeps, unwritten_order, IsPreorder, Refuses, >>=-Refuses, when-modify-Refuses,
  modify-Refuses, branch-Refuses,
}
use token_throttle.Limiter.{Limiter, touch_model_family}
use token_throttle.Limiter.Aliases.{
  Recount, validated_model_family, settle_representative, recount, enforce_new_model_family_cap,
  enforce_new_alias_cap, register_alias, register_within_caps, validate_new,
  validate_shared_model_family_config, is_signature, counts_without, or_no_counts,
}

module _ {F : Type 0} where
  abbrev Same : Limiter F → Limiter F → Type 0
  Same l t = t ≡ l

  ruleset rules = (
    >>=-Keeps, lift-Keeps, pure-Keeps, gets-Keeps, raise_when-Keeps, raise-Keeps, branch-Keeps,
    unwritten_order,
  )

  validated_model_family-Keeps :
      (model family : ℕ) → Keeps Same (validated_model_family model family)
  unfolding validated_model_family
  validated_model_family-Keeps model family = search rules

  module _ (resolve : ℕ → Result (ℕ × ℕ)) (model family signature : ℕ) where
    settle_representative-Keeps :
        (name : Option ℕ) → Keeps Same (settle_representative resolve model family signature name)
    unfolding settle_representative
    settle_representative-Keeps none = search rules
    settle_representative-Keeps (some name) = search (rules, validated_model_family-Keeps) depth 12

    recount-Keeps : (counts : Dict ℕ ℕ) → Keeps Same (recount resolve model family signature counts)
    unfolding recount
    recount-Keeps counts = search (rules, settle_representative-Keeps)

    family_cap-Keeps : Keeps Same (enforce_new_model_family_cap family)
    family_cap-Keeps = search rules

    alias_cap-Keeps : Keeps Same (enforce_new_alias_cap model)
    alias_cap-Keeps = search rules

    register_within_caps-Refuses :
        (now : F) (register : Bool) (previous : Option ℕ) (before : Dict ℕ ℕ) (r : Recount)
        → Refuses (register_within_caps model family signature now register previous before r)
    unfolding register_within_caps
    register_within_caps-Refuses now register previous before r =
        >>=-Refuses family_cap-Keeps
          λ _. >>=-Refuses alias_cap-Keeps λ _. when-modify-Refuses register _

    validate_new-Refuses :
        (now : F) (register : Bool) (previous : Option ℕ) (before : Dict ℕ ℕ)
        → Refuses (validate_new resolve model family signature now register previous before)
    unfolding validate_new
    validate_new-Refuses now register previous before =
        >>=-Refuses (recount-Keeps (counts_without previous before))
          λ r. register_within_caps-Refuses now register previous before r

    -- A registration that is refused changes nothing in the limiter: neither the maps of names and
    -- families nor the time at which the family was last used.
    pub refused_alias_unchanged :
        (now : F) (register : Bool) (l : Limiter F)
        → is_ok
            (validate_shared_model_family_config resolve model family signature now register l).0
          ≡ false
        → (validate_shared_model_family_config resolve model family signature now register l).1 ≡ l
    unfolding validate_shared_model_family_config
    refused_alias_unchanged now register l =
        (branch-Refuses (is_signature (lookup l.name_signatures model) signature)
            (modify-Refuses (touch_model_family family now))
            (validate_new-Refuses now register (lookup l.name_signatures model)
              (or_no_counts (lookup l.signature_counts family)))).unwritten
          l

module _ {V : Type 0} where
  length-insert_le : (d : Dict ℕ V) (k : ℕ) (v : V) → length (insert d k v) ≤ suc (length d)
  length-insert_le [] k v = omega arith
  length-insert_le ((j, w) ∷ d) k v = ground (arith, length-insert_le d k v)

  length-insert_known :
      (d : Dict ℕ V) (k : ℕ) (v : V) → has_key d k ≡ true → length (insert d k v) ≡ length d
  length-insert_known [] k v h = absurd (ground (arith, h))
  length-insert_known ((j, w) ∷ d) k v h = ground (arith, length-insert_known d k v, h)

  length-insert_room :
      (d : Dict ℕ V) (k : ℕ) (v : V) (limit : ℕ)
      → length d ≤ limit
      → (not (has_key d k) && leb limit (length d)) ≡ false
      → length (insert d k v) ≤ limit
  length-insert_room d k v limit h room = elim (Bool-cases (has_key d k)) [
    | inl e ↦ rw (length-insert_known d k v e) h
    | inr e ↦ ground (arith, length-insert_le d k v, h, room, e)
  ]

module _ {F : Type 0} where
  -- At most as many names and families are registered as the limiter allows.
  pub record IsCapped (l : Limiter F) : Type 0 where
    pub aliases : length l.name_to_family ≤ l.max_aliases
    pub families : length l.family_signatures ≤ l.max_model_families

  abbrev KeepsCaps : Limiter F → Limiter F → Type 0
  KeepsCaps l t = IsCapped l → IsCapped t

  caps_order : IsPreorder KeepsCaps
  caps_order = record { same = λ l h. h; trans = λ h k x. k (h x) }

  Same-KeepsCaps : {A : Type 0} {m : Action (Limiter F) A} → Keeps Same m → Keeps KeepsCaps m
  Same-KeepsCaps h = record { after = λ l k. rw (h.after l) k }

  module _ (resolve : ℕ → Result (ℕ × ℕ)) (model family signature : ℕ) (now : F) where
    written_caps :
        (register : Bool) (previous : Option ℕ) (before : Dict ℕ ℕ) (r : Recount) (l : Limiter F)
        → IsCapped l
        → (not (has_key l.family_signatures family)
            && leb l.max_model_families (length l.family_signatures))
          ≡ false
        → (not (has_key l.name_to_family model) && leb l.max_aliases (length l.name_to_family))
          ≡ false
        → IsCapped
            (when register
              (modify (register_alias model family signature now previous before r))
              l).1
    written_caps false previous before r l h e f = h
    written_caps true previous before r l h e f = record {
      aliases = length-insert_room l.name_to_family model family l.max_aliases h.aliases f;
      families =
          length-insert_room l.family_signatures family signature l.max_model_families h.families e;
    }

    guarded :
        (b : Bool) (e : Error) (m : Action (Limiter F) (Unit {0})) (l : Limiter F)
        → IsCapped l
        → (b ≡ false → IsCapped (m l).1)
        → IsCapped ((raise_when b e >> m) l).1
    guarded true e m l h k = h
    guarded false e m l h k = k refl

    register_within_caps-KeepsCaps :
        (register : Bool) (previous : Option ℕ) (before : Dict ℕ ℕ) (r : Recount)
        → Keeps KeepsCaps
            (register_within_caps model family signature now register previous before r)
    unfolding register_within_caps
    register_within_caps-KeepsCaps register previous before r = record {
      after = λ l h.
          let write : Action (Limiter F) (Unit {0}) =
            when register (modify (register_alias model family signature now previous before r)) in
          guarded _ cardinality_limit_exceeded (enforce_new_alias_cap model >> write) l h λ e.
            guarded _ cardinality_limit_exceeded write l h
              λ f. written_caps register previous before r l h e f;
    }

    validate_new-KeepsCaps :
        (register : Bool) (previous : Option ℕ) (before : Dict ℕ ℕ)
        → Keeps KeepsCaps (validate_new resolve model family signature now register previous before)
    unfolding validate_new
    validate_new-KeepsCaps register previous before =
        >>=-Keeps caps_order
          (Same-KeepsCaps
            (recount-Keeps resolve model family signature (counts_without previous before)))
          λ r. register_within_caps-KeepsCaps register previous before r

    -- No registration takes the limiter over its caps on names and on families, however it ends.
    pub validate_shared_model_family_config-IsCapped :
        (register : Bool) (l : Limiter F)
        → IsCapped l
        → IsCapped
            (validate_shared_model_family_config resolve model family signature now register l).1
    unfolding validate_shared_model_family_config
    validate_shared_model_family_config-IsCapped register l h =
        (branch-Keeps caps_order (is_signature (lookup l.name_signatures model) signature)
            (modify-Keeps caps_order (λ t k. record { aliases = k.aliases; families = k.families }))
            (validate_new-KeepsCaps register (lookup l.name_signatures model)
              (or_no_counts (lookup l.signature_counts family)))).after
          l h
