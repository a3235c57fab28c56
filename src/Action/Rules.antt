-- ===== src/Action/Rules.antt =====
-- How an action of several steps is taken apart: what a returning one has passed through, and what
-- every step keeps.
use token_throttle.Base.{◌≡◌, ◌∙◌, refl, Bool, true, false, arith, if◌then◌else◌}
use token_throttle.Exceptions.{Error, Result, ok, err, is_ok}
use token_throttle.Action.{Action, ◌>>=◌, pure, raise, lift, gets, modify, raise_when, when, branch}

module _ {S : Type 0} {A B : Type 0} where
  -- The middle state and value of a pair of steps that returns.
  pub record Returns (m : Action S A) (f : A → Action S B) (s : S) (b : B) (s' : S) : Type 0 where
    pub value : A
    pub middle : S
    pub first : m s ≡ (ok value, middle)
    pub second : f value middle ≡ (ok b, s')

  bind-of :
      (p : Result A × S) (f : A → Action S B) (s : S) (b : B) (s' : S)
      → ((λ _. p) >>= f) s ≡ (ok b, s')
      → Returns (λ _. p) f s b s'
  bind-of (ok a, m) f s b s' h = record { value = a; middle = m; first = refl; second = h }
  bind-of (err e, m) f s b s' h = absurd (ground (arith, h))

  pub >>=-Returns :
      (m : Action S A) (f : A → Action S B) (s : S) (b : B) (s' : S)
      → (m >>= f) s ≡ (ok b, s')
      → Returns m f s b s'
  >>=-Returns m f s b s' h =
      let r = bind-of (m s) f s b s' h in
      record { value = r.value; middle = r.middle; first = r.first; second = r.second }

module _ {S : Type 0} (R : S → S → Type 0) where
  -- An action relates the state before to the state after, however it ends.
  pub record Keeps {A : Type 0} (m : Action S A) : Type 0 where
    pub after : (s : S) → R s (m s).1

  pub record IsPreorder : Type 0 where
    pub same : (s : S) → R s s
    pub trans : {s t u : S} → R s t → R t u → R s u

module _ {S : Type 0} {R : S → S → Type 0} (pre : IsPreorder R) where
  module _ {A B : Type 0} where
    bind-Keeps :
        (s : S) (p : Result A × S) (f : A → Action S B)
        → R s p.1
        → ((a : A) → Keeps R (f a))
        → R s (((λ _. p) >>= f) s).1
    bind-Keeps s (ok a, m) f h k = pre.trans h ((k a).after m)
    bind-Keeps s (err e, m) f h k = h

    pub >>=-Keeps :
        {m : Action S A} {f : A → Action S B}
        → Keeps R m
        → ((a : A) → Keeps R (f a))
        → Keeps R (m >>= f)
    >>=-Keeps {m} {f} h k = record { after = λ s. bind-Keeps s (m s) f (h.after s) k }

  pub lift-Keeps : {A : Type 0} (r : Result A) → Keeps R (lift r)
  lift-Keeps r = record { after = λ s. pre.same s }

  pub pure-Keeps : {A : Type 0} (a : A) → Keeps R (pure a)
  pure-Keeps a = record { after = λ s. pre.same s }

  pub raise-Keeps : {A : Type 0} (e : Error) → Keeps R (raise {A = A} e)
  raise-Keeps e = record { after = λ s. pre.same s }

  pub gets-Keeps : {A : Type 0} (f : S → A) → Keeps R (gets f)
  gets-Keeps f = record { after = λ s. pre.same s }

  pub modify-Keeps : {f : S → S} → ((s : S) → R s (f s)) → Keeps R (modify f)
  modify-Keeps h = record { after = h }

  -- An action that depends on what it reads first.
  pub reads-Keeps :
      {A B : Type 0} (g : S → A) (f : A → Action S B)
      → ((s : S) → R s (f (g s) s).1)
      → Keeps R (gets g >>= f)
  reads-Keeps g f h = record { after = h }

  raised : (b : Bool) (e : Error) (s : S) → R s (raise_when b e s).1
  raised true e s = pre.same s
  raised false e s = pre.same s

  pub raise_when-Keeps : (b : Bool) (e : Error) → Keeps R (raise_when b e)
  raise_when-Keeps b e = record { after = raised b e }

  done_when : (b : Bool) {m : Action S (Unit {0})} → Keeps R m → (s : S) → R s (when b m s).1
  done_when true h s = h.after s
  done_when false h s = pre.same s

  pub when-Keeps : (b : Bool) {m : Action S (Unit {0})} → Keeps R m → Keeps R (when b m)
  when-Keeps b h = record { after = done_when b h }

  branched :
      {A : Type 0} (b : Bool) {m k : Action S A}
      → Keeps R m
      → Keeps R k
      → (s : S) → R s (branch b m k s).1
  branched true h k s = h.after s
  branched false h k s = k.after s

  pub branch-Keeps :
      {A : Type 0} (b : Bool) {m k : Action S A} → Keeps R m → Keeps R k → Keeps R (branch b m k)
  branch-Keeps b h k = record { after = branched b h k }

  pub if-Keeps :
      {A : Type 0} (b : Bool) {m k : Action S A}
      → Keeps R m
      → Keeps R k
      → Keeps R (if b then m else k)
  if-Keeps true h k = h
  if-Keeps false h k = k

module _ {S : Type 0} where
  -- What holds of the value and the state of an action that returns.
  pub record Ends {A : Type 0} (m : Action S A) (Q : A → S → Type 0) : Type 0 where
    pub after : (s : S) (a : A) (t : S) → m s ≡ (ok a, t) → Q a t

  pub >>=-Ends :
      {A B : Type 0} (m : Action S A) (f : A → Action S B) {Q : B → S → Type 0}
      → ((a : A) → Ends (f a) Q)
      → Ends (m >>= f) Q
  >>=-Ends m f k = record {
    after = λ s b t h. let r = >>=-Returns m f s b t h in (k r.value).after r.middle b t r.second;
  }

  pure_after :
      {A : Type 0} {a : A} (Q : A → S → Type 0)
      → ((s : S) → Q a s)
      → (s : S) (b : A) (t : S) → pure a s ≡ (ok b, t)
      → Q b t
  pure_after {A} {a} Q k s b t h =
      let same : a ≡ b = ground (arith, h) in
      let here : s ≡ t = ground (arith, h) in rw (← same, ← here) (k s)

  pub pure-Ends : {A : Type 0} {a : A} {Q : A → S → Type 0} → ((s : S) → Q a s) → Ends (pure a) Q
  pure-Ends {A} {a} {Q} k = record { after = pure_after Q k }

  pub branch-Ends :
      {A : Type 0} (b : Bool) {m k : Action S A} {Q : A → S → Type 0}
      → Ends m Q
      → Ends k Q
      → Ends (branch b m k) Q
  branch-Ends true h k = record { after = h.after }
  branch-Ends false h k = record { after = k.after }

  -- A refusal of the first step is a refusal.
  refused_at :
      {A B : Type 0} (p : Result A × S) (f : A → Action S B) (s : S)
      → is_ok p.0 ≡ false
      → is_ok (((λ _. p) >>= f) s).0 ≡ false
  refused_at (ok a, t) f s h = absurd (ground (arith, h))
  refused_at (err e, t) f s h = refl

  pub >>=-refused :
      {A B : Type 0} (m : Action S A) (f : A → Action S B) (s : S)
      → is_ok (m s).0 ≡ false
      → is_ok ((m >>= f) s).0 ≡ false
  >>=-refused m f s h = refused_at (m s) f s h

-- An action that raises has written nothing.
module _ {S : Type 0} where
  pub record Refuses {A : Type 0} (m : Action S A) : Type 0 where
    pub unwritten : (s : S) → is_ok (m s).0 ≡ false → (m s).1 ≡ s

  bound :
      {A B : Type 0} (s : S) (p : Result A × S) (f : A → Action S B)
      → p.1 ≡ s
      → ((a : A) → Refuses (f a))
      → is_ok (((λ _. p) >>= f) s).0 ≡ false
      → (((λ _. p) >>= f) s).1 ≡ s
  bound s (ok a, t) f same k h = rw (← same) ((k a).unwritten t h)
  bound s (err e, t) f same k h = same

  -- A reading first, and a refusal or a write after it.
  pub >>=-Refuses :
      {A B : Type 0} {m : Action S A} {f : A → Action S B}
      → Keeps (λ s t. t ≡ s) m
      → ((a : A) → Refuses (f a))
      → Refuses (m >>= f)
  >>=-Refuses {m} {f} h k = record { unwritten = λ s e. bound s (m s) f (h.after s) k e }

  written :
      (b : Bool) (f : S → S) (s : S)
      → is_ok (when b (modify f) s).0 ≡ false
      → (when b (modify f) s).1 ≡ s
  written true f s h = absurd (ground (arith, h))
  written false f s h = refl

  pub when-modify-Refuses : (b : Bool) (f : S → S) → Refuses (when b (modify f))
  when-modify-Refuses b f = record { unwritten = written b f }

  pub modify-Refuses : (f : S → S) → Refuses (modify f)
  modify-Refuses f = record { unwritten = λ s h. absurd (ground (arith, h)) }

  branched_refusal :
      {A : Type 0} (b : Bool) {m k : Action S A}
      → Refuses m
      → Refuses k
      → (s : S) → is_ok (branch b m k s).0 ≡ false
      → (branch b m k s).1 ≡ s
  branched_refusal true m k s h = m.unwritten s h
  branched_refusal false m k s h = k.unwritten s h

  pub branch-Refuses :
      {A : Type 0} (b : Bool) {m k : Action S A} → Refuses m → Refuses k → Refuses (branch b m k)
  branch-Refuses b m k = record { unwritten = branched_refusal b m k }

  pub unwritten_order : IsPreorder (λ (s t : S). t ≡ s)
  unwritten_order = record { same = λ s. refl; trans = λ h k. k ∙ h }
