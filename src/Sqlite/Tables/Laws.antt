-- ===== src/Sqlite/Tables/Laws.antt =====
-- What the statements on one table leave alone, and what they find after one another.
use token_throttle.Base.{
  ℕ, zero, suc, ◌≡◌, refl, Bool, true, false, none, some, List, [], ◌∷◌, ◌++◌, filter, arith,
  Bool-cases, inl, inr,
}
use token_throttle.Sqlite.Tables.{select, update, delete, delete_limited}

module _ {ℓ} {R : Type ℓ} (p q : R → Bool) where
  -- Rows that a statement cannot touch.
  pub filter-delete :
      ((r : R) → p r ≡ true → q r ≡ false)
      → (rows : List R) → filter q (delete p rows) ≡ filter q rows
  filter-delete h [] = refl
  filter-delete h (r ∷ rows) = elim (Bool-cases (p r)) [
    | inl e ↦ rw (e, h r e) (filter-delete h rows)
    | inr e ↦ rw (e, filter-delete h rows) refl
  ]

  pub filter-delete_limited :
      ((r : R) → p r ≡ true → q r ≡ false)
      → (n : ℕ) (rows : List R) → filter q (delete_limited n p rows) ≡ filter q rows
  filter-delete_limited h zero rows = refl
  filter-delete_limited h (suc n) [] = refl
  filter-delete_limited h (suc n) (r ∷ rows) = elim (Bool-cases (p r)) [
    | inl e ↦ rw (e, h r e) (filter-delete_limited h n rows)
    | inr e ↦ rw (e, filter-delete_limited h (suc n) rows) refl
  ]

  pub filter-update :
      (f : R → R)
      → ((r : R) → p r ≡ true → q r ≡ false)
      → ((r : R) → p r ≡ true → q (f r) ≡ false)
      → (rows : List R) → filter q (update p f rows) ≡ filter q rows
  filter-update f h k [] = refl
  filter-update f h k (r ∷ rows) = elim (Bool-cases (p r)) [
    | inl e ↦ rw (e, h r e, k r e) (filter-update f h k rows)
    | inr e ↦ rw (e, filter-update f h k rows) refl
  ]

  -- A row is found as before by a condition that the touched rows do not meet.
  pub select-delete :
      ((r : R) → p r ≡ true → q r ≡ false)
      → (rows : List R) → select q (delete p rows) ≡ select q rows
  select-delete h [] = refl
  select-delete h (r ∷ rows) = elim (Bool-cases (p r)) [
    | inl e ↦ rw (e, h r e) (select-delete h rows)
    | inr e ↦ rw (e, select-delete h rows) refl
  ]

  pub select-update :
      (f : R → R)
      → ((r : R) → p r ≡ true → q r ≡ false)
      → ((r : R) → p r ≡ true → q (f r) ≡ false)
      → (rows : List R) → select q (update p f rows) ≡ select q rows
  select-update f h k [] = refl
  select-update f h k (r ∷ rows) = elim (Bool-cases (p r)) [
    | inl e ↦ rw (e, h r e, k r e) (select-update f h k rows)
    | inr e ↦ rw (e, select-update f h k rows) refl
  ]

  -- Pruning keeps the row that is found, if it is not one to prune.
  pub select-delete_limited :
      (n : ℕ) (rows : List R) (r : R)
      → select q rows ≡ some r
      → p r ≡ false
      → select q (delete_limited n p rows) ≡ some r
  select-delete_limited zero rows r h k = h
  select-delete_limited (suc n) [] r h k = h
  select-delete_limited (suc n) (x ∷ rows) r h k = elim (Bool-cases (q x)) [
    | inl e ↦
        let same : x ≡ r = ground (arith, h, e) in
        let kept : p x ≡ false = rw same k in rw (kept, e) (ground (arith, same))
    | inr e ↦
        let later : select q rows ≡ some r = ground (arith, h, e) in
        elim (Bool-cases (p x)) [
          | inl d ↦ rw d (select-delete_limited n rows r later k)
          | inr d ↦ rw (d, e) (select-delete_limited (suc n) rows r later k)
        ]
  ]

  pub select-delete_limited-none :
      (n : ℕ) (rows : List R) → select q rows ≡ none → select q (delete_limited n p rows) ≡ none
  select-delete_limited-none zero rows h = h
  select-delete_limited-none (suc n) [] h = h
  select-delete_limited-none (suc n) (x ∷ rows) h = elim (Bool-cases (q x)) [
    | inl e ↦ absurd (ground (arith, h, e))
    | inr e ↦
        let later : select q rows ≡ none = ground (arith, h, e) in
        elim (Bool-cases (p x)) [
          | inl d ↦ rw d (select-delete_limited-none n rows later)
          | inr d ↦ rw (d, e) (select-delete_limited-none (suc n) rows later)
        ]
  ]

  pub select-append :
      (x : R) (rows : List R) → q x ≡ false → select q (rows ++ x ∷ []) ≡ select q rows
  select-append x [] h = rw h refl
  select-append x (r ∷ rows) h = rw (select-append x rows h) refl

module _ {ℓ} {R : Type ℓ} (q : R → Bool) where
  pub filter-append :
      (x : R) (rows : List R) → q x ≡ false → filter q (rows ++ x ∷ []) ≡ filter q rows
  filter-append x [] h = rw h refl
  filter-append x (r ∷ rows) h = rw (filter-append x rows h) refl

  -- The row that was just added, or updated, is found.
  pub select-append_self :
      (x : R) (rows : List R)
      → select q rows ≡ none
      → q x ≡ true
      → select q (rows ++ x ∷ []) ≡ some x
  select-append_self x [] h k = rw k refl
  select-append_self x (r ∷ rows) h k = elim (Bool-cases (q r)) [
    | inl e ↦ absurd (ground (arith, h, e))
    | inr e ↦
        let later : select q rows ≡ none = ground (arith, h, e) in
        rw e (select-append_self x rows later k)
  ]

  pub select-update_self :
      (f : R → R) (rows : List R) (r : R)
      → ((x : R) → q x ≡ true → q (f x) ≡ true)
      → select q rows ≡ some r
      → select q (update q f rows) ≡ some (f r)
  select-update_self f [] r k h = absurd (ground (arith, h))
  select-update_self f (x ∷ rows) r k h = elim (Bool-cases (q x)) [
    | inl e ↦ let same : x ≡ r = ground (arith, h, e) in rw (e, k x e) (ground (arith, same))
    | inr e ↦
        let later : select q rows ≡ some r = ground (arith, h, e) in
        rw (e, e) (select-update_self f rows r k later)
  ]

  pub select-delete_self : (rows : List R) → select q (delete q rows) ≡ none
  select-delete_self [] = refl
  select-delete_self (r ∷ rows) = elim (Bool-cases (q r)) [
    | inl e ↦ rw e (select-delete_self rows)
    | inr e ↦ rw (e, e) (select-delete_self rows)
  ]
