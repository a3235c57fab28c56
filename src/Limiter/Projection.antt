-- ===== src/Limiter/Projection.antt =====
-- _sync_rate_limiter.py, `_project_refund_scope` and `_cfg_with_preserved_runtime_max_capacity`: what of
-- a refund, and what of the runtime limits, outlasts a change of the configuration. Log records are
-- left out.
pub mod Valid
use token_throttle.Base.{
  ℕ, ◌≡◌, refl, Bool, true, false, not, ◌&&◌, ◌||◌, Option, some, none, List, [], ◌∷◌, arith,
  if◌then◌else◌, ◌==◌, nat_eq, pair_eq, Bool-cases, inl, inr, filter, map, Option-cases,
}
use token_throttle.Base.Dict.{Dict, contains, lookup, keys, same_set, is_subset, add_member}
use token_throttle.Float.{Float, zero_f}
use token_throttle.Validation.{BucketId, Usage, is_empty}
use token_throttle.Memory.Config.{Quota, PerModelConfig, quota_id}

-- The reserved and the actual usage, the ids of the buckets in scope, and whether nothing is left.
pub record Projected (F : Type 0) : Type 0 where
  pub reserved : Usage F
  pub actual : Usage F
  pub scope : Option (List BucketId)
  pub dropped : Bool

-- `frozenset(metric for metric, _ in ids)`
abbrev pub metrics_among : List BucketId → List ℕ
metrics_among [] = []
metrics_among (id ∷ ids) =
    let rest = metrics_among ids in if contains rest id.0 then rest else id.0 ∷ rest

abbrev pub surviving : List BucketId → List BucketId → List BucketId
surviving ids active = filter (contains active) ids

module _ {F : Type 0} ⦃fl : Float F⦄ where
  abbrev pub or_zero : Option F → F
  or_zero none = zero_f
  or_zero (some x) = x

  -- {metric: usage.get(metric, 0.0) for metric in metrics}
  abbrev pub restricted : Usage F → List ℕ → Usage F
  restricted usage [] = []
  restricted usage (m ∷ ms) = (m, or_zero (lookup usage m)) ∷ restricted usage ms

  -- The usages over the metrics of some buckets.
  unfoldable pub project_onto : Usage F → Usage F → List BucketId → Projected F
  project_onto reserved actual ids =
      let metrics = metrics_among ids in
      if same_set (keys reserved) metrics
      then record { reserved = reserved; actual = actual; scope = some ids; dropped = false }
      else record {
        reserved = restricted reserved metrics;
        actual = restricted actual metrics;
        scope = some ids;
        dropped = false;
      }

  unfoldable pub project_surviving : Usage F → Usage F → List BucketId → Projected F
  unfolding project_onto
  project_surviving reserved actual ids =
      if is_empty ids
      then record { reserved = []; actual = []; scope = some []; dropped = true }
      else project_onto reserved actual ids

  unfoldable pub project_refund_scope :
      Usage F → Usage F → Option (List BucketId) → Option (List BucketId) → Projected F
  unfolding project_onto project_surviving
  project_refund_scope reserved actual ids none = record {
    reserved = reserved;
    actual = actual;
    scope = ids;
    dropped = false;
  }
  project_refund_scope reserved actual none (some active) = project_onto reserved actual active
  project_refund_scope reserved actual (some ids) (some active) =
      project_surviving reserved actual (surviving ids active)

  open fl use {eq}

  -- The limit of a quota: its own, or the override, where the quota still has the limit that the
  -- snapshot was taken with.
  abbrev pub preserved_limit : F → Option F → Option F → F
  preserved_limit limit none old = limit
  preserved_limit limit (some override) none = limit
  preserved_limit limit (some override) (some old) =
      if eq old limit then (if eq limit override then limit else override) else limit

  unfoldable pub cfg_with_preserved_runtime_max_capacity :
      PerModelConfig F → Dict BucketId F → Dict BucketId F → PerModelConfig F
  cfg_with_preserved_runtime_max_capacity cfg old overrides = record cfg {
    quotas =
        map
          (λ (q : Quota F). record q {
            limit =
                preserved_limit q.limit (lookup overrides (quota_id q)) (lookup old (quota_id q));
          })
          cfg.quotas;
  }
