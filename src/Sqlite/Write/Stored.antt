-- ===== src/Sqlite/Write/Stored.antt =====
-- What has been written is what is there: each capacity in its row, stamped with the time.
use token_throttle.Base.{
  ℕ, false, ◌≡◌, refl, some, List, [], ◌∷◌, All, arith, Option-cases, inl, inr, ◌==◌, nat_eq,
  pair_eq,
}
use token_throttle.Base.Dict.{keys}
use token_throttle.Float.{Float}
use token_throttle.Exceptions.{ok}
use token_throttle.Action.Rules.{>>=-Returns, Ends, >>=-Ends}
use token_throttle.Validation.{BucketId}
use token_throttle.Memory.Bucket.{drop_sign_of_zero}
use token_throttle.Memory.State.{Capacities}
use token_throttle.Sqlite.Tables.{BucketRow}
use token_throttle.Sqlite.Tables.Laws.{select-update_self}
use token_throttle.Sqlite.Engine.{
  Store, select_bucket, own_bucket, update_bucket, confirm, after_seconds,
}
use token_throttle.Sqlite.Frame.{IsRowFrame, KeepsRow, row_order, other_row}
use token_throttle.Sqlite.Write.{written_row, store_capacity, write_capacity, write_all}
use token_throttle.Sqlite.Write.Frame.{write_each-Keeps}

-- No id stands twice.
abbrev pub IsOnce : List BucketId → Type 0
IsOnce [] = Unit
IsOnce (id ∷ ids) = All (λ j. (j == id) ≡ false) ids × IsOnce ids

module _ {F : Type 0} ⦃fl : Float F⦄ (now : F) where
  -- The row of the bucket holds the amount and the time.
  abbrev pub IsStored : BucketId → F → Store F → Type 0
  IsStored id amount s =
      (r : BucketRow F) × (select_bucket id s ≡ some r)
      × (r.capacity ≡ some (drop_sign_of_zero amount))
      × (r.last_checked ≡ some now)

  store_capacity_lem :
      (id : BucketId) (amount : F) (ttl : ℕ) (s t : Store F)
      → store_capacity id amount now ttl s ≡ (ok tt, t)
      → (r : BucketRow F) × (select_bucket id t ≡ some r)
        × (r.capacity ≡ some amount)
        × (r.last_checked ≡ some now)
  unfolding store_capacity update_bucket confirm
  store_capacity_lem id amount ttl s t h = elim (Option-cases (select_bucket id s)) [
    | inl e ↦ absurd (ground (arith, e, h))
    | inr (r, e) ↦
        let f = written_row amount now (after_seconds now ttl) in
        let found = select-update_self (own_bucket s.engine id) f s.db.buckets r (λ x k. k) e in
        (f r, ground (arith, e, h, found), refl, refl)
  ]

  store_capacity-Ends :
      (id : BucketId) (amount : F) (ttl : ℕ)
      → Ends (store_capacity id (drop_sign_of_zero amount) now ttl) (λ _ t. IsStored id amount t)
  store_capacity-Ends id amount ttl = record {
    after = λ s a t h. store_capacity_lem id (drop_sign_of_zero amount) ttl s t h;
  }

  write_capacity-Ends :
      (id : BucketId) (amount : F)
      → Ends (write_capacity now id amount) (λ _ t. IsStored id amount t)
  unfolding write_capacity
  write_capacity-Ends id amount = search (>>=-Ends, store_capacity-Ends) depth 12

  frames :
      (id : BucketId) (cs : Capacities F)
      → All (λ j. (j == id) ≡ false) (keys cs)
      → All (λ c. IsRowFrame (KeepsRow {F = F} id) c.0) cs
  frames id [] h = tt
  frames id ((j, amount) ∷ cs) h = (other_row id j h.0, frames id cs h.1)

  -- Writing other buckets keeps what was stored.
  still-IsStored :
      (id : BucketId) (amount : F) (cs : Capacities F) (s t : Store F)
      → All (λ j. (j == id) ≡ false) (keys cs)
      → write_all now cs s ≡ (ok tt, t)
      → IsStored id amount s
      → IsStored id amount t
  still-IsStored id amount cs s t others h (r, found, capacity, last) =
      let k = (write_each-Keeps (row_order id) now cs (frames id cs others)).after s in
      let here : (write_all now cs s).1 ≡ t = ground (arith, h) in
      let kept : KeepsRow id s t = rw (← here) k in (r, rw kept.row found, capacity, last)

  pub write_all-IsStored :
      (cs : Capacities F) (s t : Store F)
      → IsOnce (keys cs)
      → write_all now cs s ≡ (ok tt, t)
      → All (λ c. IsStored c.0 c.1 t) cs
  unfolding write_all
  write_all-IsStored [] s t once h = tt
  write_all-IsStored ((id, amount) ∷ cs) s t once h =
      let a = >>=-Returns (write_capacity now id amount) (λ _. write_all now cs) s tt t h in
      (
        still-IsStored id amount cs a.middle t once.0 a.second
            ((write_capacity-Ends id amount).after s a.value a.middle a.first),
        write_all-IsStored cs a.middle t once.1 a.second,
      )
