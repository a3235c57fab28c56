-- ===== src/Action.antt =====
-- A method call: it ends in a value or an exception, and what it wrote before a raise stays written.
pub mod Rules
use token_throttle.Base.{Bool, true, false}
use token_throttle.Exceptions.{Error, Result, ok, err}

abbrev pub Action : Type 0 → Type 0 → Type 0
Action S A = S → Result A × S

module _ {S : Type 0} where
  infixl 5 ◌>>=◌ ◌>>◌
  abbrev pub ◌>>=◌ : {A B : Type 0} → Action S A → (A → Action S B) → Action S B
  ◌>>=◌ m f s = let (r, s') = m s in elim r [ ok a ↦ f a s' | err e ↦ (err e, s') ]

  abbrev pub ◌>>◌ : {B : Type 0} → Action S (Unit {0}) → Action S B → Action S B
  m >> k = m >>= λ _. k

  abbrev pub pure : {A : Type 0} → A → Action S A
  pure a s = (ok a, s)

  abbrev pub raise : {A : Type 0} → Error → Action S A
  raise e s = (err e, s)

  -- A function that raises or returns, and writes nothing.
  abbrev pub lift : {A : Type 0} → Result A → Action S A
  lift r s = (r, s)

  abbrev pub gets : {A : Type 0} → (S → A) → Action S A
  gets f s = (ok (f s), s)

  abbrev pub modify : (S → S) → Action S (Unit {0})
  modify f s = (ok tt, f s)

  abbrev pub raise_when : Bool → Error → Action S (Unit {0})
  raise_when true e s = (err e, s)
  raise_when false e s = (ok tt, s)

  -- `if test: do it`
  abbrev pub when : Bool → Action S (Unit {0}) → Action S (Unit {0})
  when true m s = m s
  when false m s = (ok tt, s)

  -- `if test: m else: k`
  abbrev pub branch : {A : Type 0} → Bool → Action S A → Action S A → Action S A
  branch true m k s = m s
  branch false m k s = k s
