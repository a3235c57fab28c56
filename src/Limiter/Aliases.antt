-- ===== src/Limiter/Aliases.antt =====
-- _sync_rate_limiter.py, `_validate_shared_model_family_config`: the names that share a model family
-- agree on its configuration, and how many names and families there can be. A configuration is known
-- by its signature, which is only compared.
pub mod Caps
use token_throttle.Base.{
  ℕ, suc, ◌+◌, ◌-◌, ◌≤◌, ◌≡◌, refl, Bool, true, false, not, ◌&&◌, ◌||◌, Option, none, some, is_none,
  List, [], ◌∷◌, length, any, leb, ltb, if◌then◌else◌, ◌==◌, nat_eq, arith, Bool-cases, inl, inr,
}
use token_throttle.Base.Dict.{Dict, lookup, insert, has_key, pop_key}
use token_throttle.Float.{Float}
use token_throttle.Exceptions.{
  Result, ok, err, cardinality_limit_exceeded, value_error, changed_model_family,
  inconsistent_family,
}
use token_throttle.Action.{
  Action, ◌>>=◌, ◌>>◌, pure, raise, lift, gets, modify, raise_when, when, branch,
}
use token_throttle.Limiter.{Limiter, touch_model_family}

-- `d.get(k, 0)` and `d.get(k, {})`
abbrev pub or_zero_count : Option ℕ → ℕ
or_zero_count none = 0
or_zero_count (some n) = n

abbrev pub or_no_counts : Option (Dict ℕ ℕ) → Dict ℕ ℕ
or_no_counts none = []
or_no_counts (some d) = d

abbrev pub is_signature : Option ℕ → ℕ → Bool
is_signature none signature = false
is_signature (some s) signature = s == signature

-- The counts of a family without the name's earlier signature.
abbrev pub counts_without : Option ℕ → Dict ℕ ℕ → Dict ℕ ℕ
counts_without none counts = counts
counts_without (some previous) counts =
    let n = or_zero_count (lookup counts previous) in
    if leb n 1 then pop_key counts previous else insert counts previous (n - 1)

-- A name of the family still stands for another signature.
abbrev pub has_conflict : ℕ → Dict ℕ ℕ → Bool
has_conflict signature counts = any (λ (c : ℕ × ℕ). ltb 0 c.1 && not (c.0 == signature)) counts

abbrev pub is_other_family : Option ℕ → ℕ → Bool
is_other_family none family = false
is_other_family (some previous) family = not (previous == family)

-- The counts of the signatures of a family, and whether the counts have been reset to it.
pub record Recount : Type 0 where
  pub counts : Dict ℕ ℕ
  pub is_reset : Bool

abbrev pub is_counted : Option ℕ → Dict ℕ ℕ → Bool → Bool
is_counted none before is_reset = false
is_counted (some previous) before is_reset = is_reset || not (has_key before previous)

-- The counts with the name under its signature, unless it is counted there already.
abbrev pub counted : Option ℕ → Dict ℕ ℕ → Bool → ℕ → Recount → Dict ℕ ℕ
counted previous before is_new signature r =
    if is_new || not (is_counted previous before r.is_reset)
    then insert r.counts signature (or_zero_count (lookup r.counts signature) + 1)
    else r.counts

module _ {F : Type 0} where
  -- `_enforce_new_model_family_cap`
  abbrev pub enforce_new_model_family_cap : ℕ → Action (Limiter F) (Unit {0})
  enforce_new_model_family_cap family = do
    over ← gets (λ l.
        not (has_key l.family_signatures family)
        && leb l.max_model_families (length l.family_signatures))
    raise_when over cardinality_limit_exceeded

  -- `_enforce_new_alias_cap`
  abbrev pub enforce_new_alias_cap : ℕ → Action (Limiter F) (Unit {0})
  enforce_new_alias_cap model = do
    over ←
        gets
          (λ l. not (has_key l.name_to_family model) && leb l.max_aliases (length l.name_to_family))
    raise_when over cardinality_limit_exceeded

  -- `_validated_model_family`, on a configuration that has passed the checks of lengths.
  unfoldable pub validated_model_family : ℕ → ℕ → Action (Limiter F) (Unit {0})
  validated_model_family model family = do
    other ← gets (λ l. is_other_family (lookup l.name_to_family model) family)
    raise_when other (value_error changed_model_family)

  -- The counts reset to the signature, where the name that represents the family has it too.
  -- `resolve` is the configuration of a name, its family and its signature.
  settle_representative : (ℕ → Result (ℕ × ℕ)) → ℕ → ℕ → ℕ → Option ℕ → Action (Limiter F) Recount
  unfolding validated_model_family
  settle_representative resolve model family signature none =
      raise (value_error inconsistent_family)
  settle_representative resolve model family signature (some name) =
      branch (name == model) (raise (value_error inconsistent_family)) (do
        cfg ← lift (resolve name)
        validated_model_family name cfg.0
        raise_when (not ((cfg.0 == family) && (cfg.1 == signature)))
            (value_error inconsistent_family)
        aliases ← gets (λ l. or_zero_count (lookup l.alias_counts family))
        pure (record { counts = (signature, aliases) ∷ []; is_reset = true }))

  recount : (ℕ → Result (ℕ × ℕ)) → ℕ → ℕ → ℕ → Dict ℕ ℕ → Action (Limiter F) Recount
  unfolding settle_representative
  recount resolve model family signature counts =
      branch (has_conflict signature counts)
        (do
          name ← gets (λ l. lookup l.family_to_model_name family)
          settle_representative resolve model family signature name)
        (pure (record { counts = counts; is_reset = false }))

  abbrev pub register_alias : ℕ → ℕ → ℕ → F → Option ℕ → Dict ℕ ℕ → Recount → Limiter F → Limiter F
  register_alias model family signature now previous before r l =
      let is_new = not (has_key l.name_to_family model) in
      touch_model_family family now (record l {
        name_to_family = insert l.name_to_family model family;
        name_signatures = insert l.name_signatures model signature;
        signature_counts =
            insert l.signature_counts family (counted previous before is_new signature r);
        alias_counts =
            if is_new
            then insert l.alias_counts family (or_zero_count (lookup l.alias_counts family) + 1)
            else l.alias_counts;
        family_signatures = insert l.family_signatures family signature;
      })

  -- From the caps on.
  register_within_caps :
      ℕ → ℕ → ℕ → F → Bool → Option ℕ → Dict ℕ ℕ → Recount → Action (Limiter F) (Unit {0})
  register_within_caps model family signature now register previous before r = do
    enforce_new_model_family_cap family
    enforce_new_alias_cap model
    when register (modify (register_alias model family signature now previous before r))

  validate_new :
      (ℕ → Result (ℕ × ℕ))
      → ℕ
      → ℕ
      → ℕ
      → F
      → Bool
      → Option ℕ
      → Dict ℕ ℕ
      → Action (Limiter F) (Unit {0})
  unfolding recount register_within_caps
  validate_new resolve model family signature now register previous before = do
    r ← recount resolve model family signature (counts_without previous before)
    register_within_caps model family signature now register previous before r

  -- `_validate_shared_model_family_config`, under its lock
  unfoldable pub validate_shared_model_family_config :
      (ℕ → Result (ℕ × ℕ)) → ℕ → ℕ → ℕ → F → Bool → Action (Limiter F) (Unit {0})
  unfolding validate_new
  validate_shared_model_family_config resolve model family signature now register = do
    previous ← gets (λ l. lookup l.name_signatures model)
    before ← gets (λ l. or_no_counts (lookup l.signature_counts family))
    branch (is_signature previous signature) (modify (touch_model_family family now))
        (validate_new resolve model family signature now register previous before)
