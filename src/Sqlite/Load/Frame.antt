-- ===== src/Sqlite/Load/Frame.antt =====
-- Loading and writing the states of buckets keep whatever changes of the engine's own rows keep.
use token_throttle.Base.{
  Bool, ◌||◌, refl, Option, none, some, List, [], ◌∷◌, is_none, Bool-cases, inl, inr,
}
use token_throttle.Float.{Float, max_f, zero_f}
use token_throttle.Action.{modify}
use token_throttle.Action.Rules.{
  IsPreorder, Keeps, >>=-Keeps, lift-Keeps, pure-Keeps, gets-Keeps, raise_when-Keeps, when-Keeps,
  branch-Keeps, modify-Keeps,
}
use token_throttle.Validation.{BucketId}
use token_throttle.Sqlite.Tables.{BucketRow}
use token_throttle.Sqlite.Engine.{BucketSpec, Store, update_bucket}
use token_throttle.Sqlite.Load.{
  drain_if_lost, state_of_row, load_state, load_each, load_states, keep_debt, drain, repair_clock,
}
use token_throttle.Sqlite.Rows.{
  insert_empty, load_missing, load_inactive, load_limited, load_present, load_selected, load_row,
  LoadedRow, without_override, store_pair, remove_override,
}
use token_throttle.Sqlite.Frame.{IsRowFrame}

module _ {F : Type 0} ⦃fl : Float F⦄ {R : Store F → Store F → Type 0} (spec : BucketSpec F)
    (fr : IsRowFrame R spec.bucket_id) (now : F) where
  ruleset rules =
      (>>=-Keeps, lift-Keeps, pure-Keeps, gets-Keeps, raise_when-Keeps, when-Keeps, branch-Keeps)

  pub insert_empty-Keeps : Keeps R (modify (insert_empty now spec.bucket_id))
  insert_empty-Keeps = modify-Keeps fr.order λ s. fr.add _ s refl refl refl

  load_missing-Keeps : (writable : Bool) → Keeps R (load_missing now writable spec)
  unfolding load_missing
  load_missing-Keeps writable = search (rules, fr.order, insert_empty-Keeps)

  pub remove_override-Keeps :
      (capacity last : Option F) (s : Store F)
      → R s (remove_override now spec.bucket_id capacity last s)
  unfolding remove_override
  remove_override-Keeps capacity last s =
      let e = s.engine in
      let h =
        fr.update (λ r. without_override (store_pair now capacity last e r)) s
          (λ r. (refl, refl, refl)) in
      elim (Bool-cases (is_none capacity || is_none last)) [
        | inl e ↦ rw e h
        | inr e ↦ rw e (fr.order.trans h (fr.note now _))
      ]

  load_inactive-Keeps :
      (writable : Bool) (r : BucketRow F) (capacity last : Option F)
      → Keeps R (load_inactive now writable spec r capacity last)
  unfolding load_inactive
  load_inactive-Keeps writable r capacity last =
      search (rules, fr.order, modify-Keeps, remove_override-Keeps) depth 12

  load_limited-Keeps :
      (writable : Bool) (r : BucketRow F) (capacity last value : Option F)
      → Keeps R (load_limited now writable spec r capacity last value)
  unfolding load_limited
  load_limited-Keeps writable r capacity last none = load_inactive-Keeps writable r capacity last
  load_limited-Keeps writable r capacity last (some value) = search (rules, fr.order)

  pub clear_pair-Keeps :
      Keeps R (
        modify
          (update_bucket spec.bucket_id λ r. record r { capacity = none; last_checked = none }))
  clear_pair-Keeps = modify-Keeps fr.order λ s. fr.update _ s (λ r. (refl, refl, refl))

  load_present-Keeps :
      (writable : Bool) (r : BucketRow F) → Keeps R (load_present now writable spec r)
  unfolding load_present
  load_present-Keeps writable r = search (rules, fr.order, clear_pair-Keeps, load_limited-Keeps)

  load_selected-Keeps :
      (writable : Bool) (row : Option (BucketRow F)) → Keeps R (load_selected now writable spec row)
  unfolding load_selected
  load_selected-Keeps writable none = load_missing-Keeps writable
  load_selected-Keeps writable (some r) =
      search (rules, fr.order, modify-Keeps, fr.delete, load_missing-Keeps, load_present-Keeps)

  load_row-Keeps : (writable : Bool) → Keeps R (load_row now writable spec)
  unfolding load_row
  load_row-Keeps writable = search (rules, fr.order, load_selected-Keeps)

  pub drain-Keeps : (s : Store F) → R s (drain now spec.bucket_id s)
  unfolding drain
  drain-Keeps s =
      fr.order.trans
        (fr.update (λ r. store_pair now (some zero_f) (some now) s.engine r) s
          (λ r. (refl, refl, refl)))
        (fr.note now _)

  drain_if_lost-Keeps :
      (writable : Bool) (capacity last : Option F)
      → Keeps R (drain_if_lost now writable spec capacity last)
  unfolding drain_if_lost
  drain_if_lost-Keeps writable capacity last =
      search (rules, fr.order, modify-Keeps, drain-Keeps) depth 12

  pub repair_clock-Keeps : (s : Store F) → R s (repair_clock now spec.bucket_id s)
  unfolding repair_clock
  repair_clock-Keeps s = fr.order.trans (fr.update _ s (λ r. (refl, refl, refl))) (fr.note now _)

  keep_until-Keeps :
      (expiry : F)
      → Keeps R (
          modify
            (update_bucket spec.bucket_id λ r. record r { expires_at = max_f r.expires_at expiry }))
  keep_until-Keeps expiry = modify-Keeps fr.order λ s. fr.update _ s (λ r. (refl, refl, refl))

  pub keep_debt-Keeps : (amount limit : F) → Keeps R (keep_debt now spec amount limit)
  unfolding keep_debt
  keep_debt-Keeps amount limit = search (rules, fr.order, keep_until-Keeps)

  state_of_row-Keeps :
      (writable : Bool) (row : LoadedRow F) → Keeps R (state_of_row now writable spec row)
  unfolding state_of_row
  state_of_row-Keeps writable row =
      search (rules, modify-Keeps, drain_if_lost-Keeps, repair_clock-Keeps, keep_debt-Keeps) depth
        14

  pub load_state-Keeps : (writable : Bool) → Keeps R (load_state now writable spec)
  unfolding load_state
  load_state-Keeps writable = search (rules, load_row-Keeps, state_of_row-Keeps)

module _ {F : Type 0} ⦃fl : Float F⦄ {R : Store F → Store F → Type 0}
    (fr : (id : BucketId) → IsRowFrame R id) (order : IsPreorder R) (now : F) where
  load_each-Keeps :
      (writable : Bool) (specs : List (BucketSpec F)) → Keeps R (load_each now writable specs)
  unfolding load_each
  load_each-Keeps writable [] = pure-Keeps order []
  load_each-Keeps writable (spec ∷ specs) =
      >>=-Keeps order (load_state-Keeps spec (fr spec.bucket_id) now writable)
        λ k. >>=-Keeps order (load_each-Keeps writable specs) λ ks. pure-Keeps order _

  pub load_states-Keeps : (writable : Bool) → Keeps R (load_states now writable)
  unfolding load_states
  load_states-Keeps writable =
      >>=-Keeps order (gets-Keeps order _) λ specs. load_each-Keeps writable specs
