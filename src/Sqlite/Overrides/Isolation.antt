-- ===== src/Sqlite/Overrides/Isolation.antt =====
-- Changes of a maximum touch no row of another engine.
use token_throttle.Base.{not, refl, List, [], ◌∷◌, Bool-cases, inl, inr}
use token_throttle.Base.Dict.{Dict}
use token_throttle.Float.{Float}
use token_throttle.Action.Rules.{
  Keeps, >>=-Keeps, lift-Keeps, pure-Keeps, gets-Keeps, raise_when-Keeps, when-Keeps, modify-Keeps,
}
use token_throttle.Validation.{BucketId, is_empty}
use token_throttle.Capacity.{PyValue}
use token_throttle.Sqlite.Engine.{
  BucketSpec, Store, Turn, transaction, update_bucket, after_seconds, bucket_ids_of,
}
use token_throttle.Sqlite.Load.{BucketState}
use token_throttle.Sqlite.Load.Frame.{load_states-Keeps}
use token_throttle.Sqlite.Write.Frame.{write_all-Keeps, write_capacity-Keeps}
use token_throttle.Sqlite.Overrides.{
  anchor_state, ttl_under, with_override, cleared_override, set_max_capacity_at, set_max_capacity,
  apply_configured_at, configure, apply_configured_max_capacity, common, clear_each,
  clear_overrides_at, clear_max_capacity_overrides,
}
use token_throttle.Sqlite.Isolation.{frame, LeavesOthers, others, prune-others, transaction-others}

module _ {F : Type 0} ⦃fl : Float F⦄ (now : F) where
  ruleset rules = (
    >>=-Keeps, lift-Keeps, pure-Keeps, gets-Keeps, raise_when-Keeps, when-Keeps, modify-Keeps,
    prune-others, load_states-Keeps, others, frame,
  )

  anchor_state-others : (k : BucketState F) → Keeps (LeavesOthers now) (anchor_state now k)
  unfolding anchor_state
  anchor_state-others k =
      when-Keeps (others now) (not k.is_fresh_start)
        (write_capacity-Keeps k.spec.bucket_id (frame now k.spec.bucket_id) now k.uncapped_capacity)

  ttl_under-others :
      (limit configured : F) (k : BucketState F)
      → Keeps (LeavesOthers now) (ttl_under limit configured k)
  unfolding ttl_under
  ttl_under-others limit configured k = search rules

  overridden-others :
      (id : BucketId) (value configured expiry : F) (s : Store F)
      → LeavesOthers now s (
          update_bucket id
            (with_override value
              (after_seconds now s.engine.override_ttl_seconds)
              configured
              now
              expiry)
            s)
  overridden-others id value configured expiry s =
      (frame now id).update _ s (λ r. (refl, refl, refl))

  cleared-others :
      (id : BucketId) (expiry : F) (s : Store F)
      → LeavesOthers now s (update_bucket id (cleared_override now expiry) s)
  cleared-others id expiry s = (frame now id).update _ s (λ r. (refl, refl, refl))

  set_max_capacity_at-others :
      (spec : BucketSpec F) (limit : F)
      → Keeps (LeavesOthers now) (set_max_capacity_at spec limit now)
  unfolding set_max_capacity_at
  set_max_capacity_at-others spec limit =
      search (rules, ttl_under-others, anchor_state-others, overridden-others) depth 14

  apply_configured_at-others :
      (id : BucketId) (limit : F) → Keeps (LeavesOthers now) (apply_configured_at id limit now)
  unfolding apply_configured_at
  apply_configured_at-others id limit =
      search (rules, ttl_under-others, anchor_state-others, cleared-others) depth 14

  configure-others :
      (id : BucketId) (limit : F) (s : Store F) → LeavesOthers now s (configure id limit s)
  unfolding configure
  configure-others id limit s = record {
    key_prefix = refl;
    model_family = refl;
    buckets = refl;
    markers = refl;
    tombstones = refl;
  }

  clear_each-others :
      (limits : Dict BucketId F) (states : List (BucketState F)) (ids : List BucketId)
      → Keeps (LeavesOthers now) (clear_each now limits states ids)
  unfolding clear_each
  clear_each-others limits states [] = search rules
  clear_each-others limits states (id ∷ ids) =
      >>=-Keeps (others now) (lift-Keeps (others now) _) λ k.
        >>=-Keeps (others now) (ttl_under-others _ _ k) λ ttl.
          >>=-Keeps (others now) (modify-Keeps (others now) (cleared-others id _))
            λ _. clear_each-others limits states ids

  clear_overrides_at-others :
      (ids : List BucketId) (limits : Dict BucketId F)
      → Keeps (LeavesOthers now) (clear_overrides_at ids limits now)
  unfolding clear_overrides_at
  clear_overrides_at-others ids limits = search (rules, write_all-Keeps, clear_each-others) depth 12

module _ {F : Type 0} ⦃fl : Float F⦄ (turn : Turn F) where
  transacted_set-others :
      (spec : BucketSpec F) (limit : F)
      → Keeps (LeavesOthers turn.now) (transaction turn λ now. set_max_capacity_at spec limit now)
  transacted_set-others spec limit =
      transaction-others turn (λ now. set_max_capacity_at spec limit now)
        (set_max_capacity_at-others turn.now spec limit)

  transacted_apply-others :
      (id : BucketId) (limit : F)
      → Keeps (LeavesOthers turn.now) (transaction turn λ now. apply_configured_at id limit now)
  transacted_apply-others id limit =
      transaction-others turn (λ now. apply_configured_at id limit now)
        (apply_configured_at-others turn.now id limit)

  pub set_max_capacity-others :
      (id : BucketId) (value : PyValue F)
      → Keeps (LeavesOthers turn.now) (set_max_capacity turn id value)
  unfolding set_max_capacity
  set_max_capacity-others id value = search (rules, transacted_set-others) depth 10

  pub apply_configured_max_capacity-others :
      (id : BucketId) (value : PyValue F)
      → Keeps (LeavesOthers turn.now) (apply_configured_max_capacity turn id value)
  unfolding apply_configured_max_capacity
  apply_configured_max_capacity-others id value =
      search (rules, transacted_apply-others, configure-others) depth 12

  cleared_all-others :
      (ids : List BucketId) (limits : Dict BucketId F) (s : Store F)
      → LeavesOthers turn.now s (clear_max_capacity_overrides turn ids limits s).1
  unfolding clear_max_capacity_overrides
  cleared_all-others ids limits s =
      let targets = common ids (bucket_ids_of s.engine) in
      elim (Bool-cases (is_empty targets)) [
        | inl e ↦ rw e ((others turn.now).same s)
        | inr e ↦ rw e (
            (transaction-others turn (λ now. clear_overrides_at targets limits now)
                (clear_overrides_at-others turn.now targets limits)).after
              s)
      ]

  pub clear_max_capacity_overrides-others :
      (ids : List BucketId) (limits : Dict BucketId F)
      → Keeps (LeavesOthers turn.now) (clear_max_capacity_overrides turn ids limits)
  clear_max_capacity_overrides-others ids limits = record { after = cleared_all-others ids limits }
