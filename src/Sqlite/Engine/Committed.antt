-- ===== src/Sqlite/Engine/Committed.antt =====
-- A transaction that returns has run its body and committed what it left.
use token_throttle.Base.{false, ◌≡◌, refl, arith, Bool-cases, inl, inr}
use token_throttle.Float.{Float}
use token_throttle.Exceptions.{Result, ok, err, is_ok}
use token_throttle.Action.{Action}
use token_throttle.Sqlite.Engine.{Store, Turn, transaction, end_transaction, commit}

module _ {F : Type 0} ⦃fl : Float F⦄ {A : Type 0} where
  ended_ok :
      (turn : Turn F) (s : Store F) (p : Result A × Store F) (a : A) (t : Store F)
      → end_transaction turn s p ≡ (ok a, t)
      → (p.0 ≡ ok a) × (commit p.1 ≡ t)
  unfolding end_transaction
  ended_ok turn s (err e, u) a t h = absurd (ground (arith, h))
  ended_ok turn s (ok b, u) a t h = elim (Bool-cases turn.commit_busy) [
    | inl c ↦ absurd (ground (arith, c, h))
    | inr c ↦ ground (arith, c, h)
  ]

  pub transaction_ok :
      (turn : Turn F) (body : F → Action (Store F) A) (s : Store F) (a : A) (t : Store F)
      → transaction turn body s ≡ (ok a, t)
      → (u : Store F) × (body turn.now s ≡ (ok a, u)) × (commit u ≡ t)
  unfolding transaction
  transaction_ok turn body s a t h = elim (Bool-cases turn.times_out) [
    | inl c ↦ absurd (ground (arith, c, h))
    | inr c ↦ elim (Bool-cases turn.is_busy) [
      | inl d ↦ absurd (ground (arith, c, d, h))
      | inr d ↦
          let r = ended_ok turn s (body turn.now s) a t (ground (arith, c, d, h)) in
          ((body turn.now s).1, ground (arith, r.0), r.1)
    ]
  ]

  end_refused :
      (turn : Turn F) (s : Store F) (p : Result A × Store F)
      → is_ok p.0 ≡ false
      → is_ok (end_transaction turn s p).0 ≡ false
  unfolding end_transaction
  end_refused turn s (ok a, u) h = absurd (ground (arith, h))
  end_refused turn s (err e, u) h = refl

  -- One whose body refuses is refused.
  pub transaction_refused :
      (turn : Turn F) (body : F → Action (Store F) A) (s : Store F)
      → is_ok (body turn.now s).0 ≡ false
      → is_ok (transaction turn body s).0 ≡ false
  unfolding transaction
  transaction_refused turn body s h = elim (Bool-cases turn.times_out) [
    | inl c ↦ rw c refl
    | inr c ↦ elim (Bool-cases turn.is_busy) [
      | inl d ↦ rw (c, d) refl
      | inr d ↦ rw (c, d) (end_refused turn s (body turn.now s) h)
    ]
  ]
