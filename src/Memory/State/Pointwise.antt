-- ===== src/Memory/State/Pointwise.antt =====
-- The dict-based reads and writes act on each bucket by itself.
use token_throttle.Exceptions.{ok}
use token_throttle.Memory.Bucket.{MemoryBucket, drop_sign_of_zero, set_capacity}
use token_throttle.Validation.{BucketId}
use token_throttle.Base.{
  nat_eq, Bool, true, false, ◌≡◌, refl, List, [], ◌∷◌, arith, if◌then◌else◌, ◌==◌, pair_eq,
  pair_beq_iff, All, some, map, ap, Bool-cases, inl, inr,
}
use token_throttle.Base.Dict.{contains, lookup, keys}
use token_throttle.Float.{Float, max_f, zero_f}
use token_throttle.Memory.State.{Capacities, id_of, ids_of, max_capacities, set_one, set_capacities}

module _ {F : Type 0} where
  -- No two buckets have one id.
  abbrev pub IsDistinct : List (MemoryBucket F) → Type 0
  IsDistinct [] = Unit
  IsDistinct (b ∷ bs) = (contains (ids_of bs) (id_of b) ≡ false) × IsDistinct bs

  -- The dict with the entry `f b` for each bucket `b` that passes `p`.
  abbrev pub scoped :
      (MemoryBucket F → Bool) → (MemoryBucket F → F) → List (MemoryBucket F) → Capacities F
  scoped p f [] = []
  scoped p f (b ∷ bs) = if p b then (id_of b, f b) ∷ scoped p f bs else scoped p f bs

  -- The dict with an entry for each bucket.
  abbrev pub amounts : (MemoryBucket F → F) → List (MemoryBucket F) → Capacities F
  amounts f [] = []
  amounts f (b ∷ bs) = (id_of b, f b) ∷ amounts f bs

  pub scoped-all :
      (f : MemoryBucket F → F) (bs : List (MemoryBucket F)) → scoped (λ _. true) f bs ≡ amounts f bs
  scoped-all f [] = refl
  scoped-all f (b ∷ bs) = ap (λ cs. (id_of b, f b) ∷ cs) (scoped-all f bs)

  scoped-keys :
      (p : MemoryBucket F → Bool) (f : MemoryBucket F → F) (k : BucketId)
      (bs : List (MemoryBucket F))
      → contains (ids_of bs) k ≡ false
      → contains (keys (scoped p f bs)) k ≡ false
  scoped-keys p f k [] h = refl
  scoped-keys p f k (b ∷ bs) h = ground (arith, scoped-keys p f k bs)

  -- Each bucket's maximum is found under its id.
  pub lookup-max_capacities :
      (b : MemoryBucket F) (bs : List (MemoryBucket F))
      → lookup (max_capacities (b ∷ bs)) (id_of b) ≡ some b.max_capacity
  lookup-max_capacities b bs = ground arith

module _ {F : Type 0} ⦃fl : Float F⦄ where
  open fl use {is_finite}

  -- The bucket with a new capacity, as a successful `set_capacity` leaves it.
  abbrev pub written : F → Bool → F → MemoryBucket F → MemoryBucket F
  written now allow_negative x b = record b {
    capacity =
        some (if allow_negative then drop_sign_of_zero x else max_f zero_f (drop_sign_of_zero x));
    last_checked = some now;
  }

  pub set_capacity-written :
      (x now : F) (allow : Bool) (b : MemoryBucket F)
      → is_finite x ≡ true
      → set_capacity x now allow b ≡ (ok tt, written now allow x b)
  unfolding set_capacity
  set_capacity-written x now allow b h = rw h

  -- Entries of other ids leave the first bucket alone.
  set_one-skip :
      (id : BucketId) (x now : F) (allow : Bool) (b : MemoryBucket F) (bs : List (MemoryBucket F))
      → (id_of b == id) ≡ false
      → set_one id x now allow (b ∷ bs)
        ≡ ((set_one id x now allow bs).0, b ∷ (set_one id x now allow bs).1)
  unfolding set_one
  set_one-skip id x now allow b bs h = rw h

  set_one-head :
      (x now : F) (allow : Bool) (b : MemoryBucket F) (bs : List (MemoryBucket F))
      → is_finite x ≡ true
      → set_one (id_of b) x now allow (b ∷ bs) ≡ (ok tt, written now allow x b ∷ bs)
  unfolding set_one
  set_one-head x now allow b bs h =
      rw ((pair_beq_iff (id_of b) (id_of b)).1 refl, set_capacity-written x now allow b h)

  set_capacities-skip :
      (cs : Capacities F) (now : F) (allow : Bool) (b : MemoryBucket F) (bs : List (MemoryBucket F))
      → contains (keys cs) (id_of b) ≡ false
      → set_capacities cs now allow (b ∷ bs)
        ≡ ((set_capacities cs now allow bs).0, b ∷ (set_capacities cs now allow bs).1)
  unfolding set_capacities
  set_capacities-skip [] now allow b bs h = refl
  set_capacities-skip ((id, x) ∷ cs) now allow b bs h = ground (
    arith,
    set_one-skip id x now allow b bs,
    set_capacities-skip cs now allow b (set_one id x now allow bs).1,
  )

  set_capacities-hit :
      (cs : Capacities F) (x now : F) (allow : Bool) (b : MemoryBucket F)
      (bs : List (MemoryBucket F))
      → is_finite x ≡ true
      → contains (keys cs) (id_of b) ≡ false
      → set_capacities ((id_of b, x) ∷ cs) now allow (b ∷ bs) ≡ (
        (set_capacities cs now allow bs).0,
        written now allow x b ∷ (set_capacities cs now allow bs).1,
      )
  unfolding set_capacities
  set_capacities-hit cs x now allow b bs h fresh = ground (
    arith,
    set_one-head x now allow b bs h,
    set_capacities-skip cs now allow (written now allow x b) bs fresh,
  )

  set_capacities-nil : (now : F) (allow : Bool) → set_capacities [] now allow [] ≡ (ok tt, [])
  unfolding set_capacities
  set_capacities-nil now allow = refl

  -- Writing a dict of finite amounts, one for each bucket in scope, writes each of those buckets
  -- with its own amount and no other bucket.
  pub set_capacities-scoped :
      (p : MemoryBucket F → Bool) (f : MemoryBucket F → F) (now : F) (allow : Bool)
      (bs : List (MemoryBucket F))
      → IsDistinct bs
      → All (λ b. is_finite (f b) ≡ true) bs
      → set_capacities (scoped p f bs) now allow bs
        ≡ (ok tt, map (λ b. if p b then written now allow (f b) b else b) bs)
  set_capacities-scoped p f now allow [] d h = set_capacities-nil now allow
  set_capacities-scoped p f now allow (b ∷ bs) d h =
      let fresh = scoped-keys p f (id_of b) bs d.0 in
      elim (Bool-cases (p b)) [
        | inl e ↦ rw (
          e,
          set_capacities-hit (scoped p f bs) (f b) now allow b bs h.0 fresh,
          set_capacities-scoped p f now allow bs d.1 h.1,
        )
        | inr e ↦ rw (
          e,
          set_capacities-skip (scoped p f bs) now allow b bs fresh,
          set_capacities-scoped p f now allow bs d.1 h.1,
        )
      ]

  pub set_capacities-amounts :
      (f : MemoryBucket F → F) (now : F) (allow : Bool) (bs : List (MemoryBucket F))
      → IsDistinct bs
      → All (λ b. is_finite (f b) ≡ true) bs
      → set_capacities (amounts f bs) now allow bs
        ≡ (ok tt, map (λ b. written now allow (f b) b) bs)
  set_capacities-amounts f now allow bs d h =
      rw (← scoped-all f bs) (set_capacities-scoped (λ _. true) f now allow bs d h)
