-- ===== src/Sqlite/Write/Frame.antt =====
-- Writing capacities keeps whatever changes of the engine's own rows keep.
use token_throttle.Base.{ℕ, refl, [], ◌∷◌, All}
use token_throttle.Float.{Float}
use token_throttle.Action.{modify}
use token_throttle.Action.Rules.{
  IsPreorder, Keeps, >>=-Keeps, lift-Keeps, pure-Keeps, gets-Keeps, raise_when-Keeps, modify-Keeps,
}
use token_throttle.Validation.{BucketId}
use token_throttle.Memory.State.{Capacities}
use token_throttle.Sqlite.Engine.{Store, update_bucket}
use token_throttle.Sqlite.Write.{written_row, store_capacity, write_capacity, write_all}
use token_throttle.Sqlite.Frame.{IsRowFrame}

module _ {F : Type 0} ⦃fl : Float F⦄ {R : Store F → Store F → Type 0} (id : BucketId)
    (fr : IsRowFrame R id) (now : F) where
  ruleset rules = (>>=-Keeps, lift-Keeps, pure-Keeps, gets-Keeps, raise_when-Keeps)

  written-Keeps :
      (amount expiry : F) → Keeps R (modify (update_bucket id (written_row amount now expiry)))
  written-Keeps amount expiry = modify-Keeps fr.order λ s. fr.update _ s (λ r. (refl, refl, refl))

  store_capacity-Keeps : (amount : F) (ttl : ℕ) → Keeps R (store_capacity id amount now ttl)
  unfolding store_capacity
  store_capacity-Keeps amount ttl = search (rules, fr.order, modify-Keeps, written-Keeps, fr.note)

  pub write_capacity-Keeps : (amount : F) → Keeps R (write_capacity now id amount)
  unfolding write_capacity
  write_capacity-Keeps amount = search (rules, fr.order, store_capacity-Keeps) depth 12

module _ {F : Type 0} ⦃fl : Float F⦄ {R : Store F → Store F → Type 0} (order : IsPreorder R)
    (now : F) where
  pub write_each-Keeps :
      (cs : Capacities F) → All (λ c. IsRowFrame R c.0) cs → Keeps R (write_all now cs)
  unfolding write_all
  write_each-Keeps [] fr = pure-Keeps order tt
  write_each-Keeps ((id, amount) ∷ cs) fr =
      >>=-Keeps order (write_capacity-Keeps id fr.0 now amount) λ _. write_each-Keeps cs fr.1

  All-frames :
      ((id : BucketId) → IsRowFrame R id) → (cs : Capacities F) → All (λ c. IsRowFrame R c.0) cs
  All-frames fr [] = tt
  All-frames fr ((id, amount) ∷ cs) = (fr id, All-frames fr cs)

  pub write_all-Keeps :
      ((id : BucketId) → IsRowFrame R id) → (cs : Capacities F) → Keeps R (write_all now cs)
  write_all-Keeps fr cs = write_each-Keeps cs (All-frames fr cs)
