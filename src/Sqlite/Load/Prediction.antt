-- ===== src/Sqlite/Load/Prediction.antt =====
-- An action that only reads, next to one that also writes: when it returns the same from a store that
-- has the same evidence of stored state.
use token_throttle.Base.{◌≡◌, ◌∙◌, sym, refl, ap, Bool, true, false, arith, nat_eq, pair_eq}
use token_throttle.Exceptions.{Result, ok, err}
use token_throttle.Action.{Action, ◌>>=◌, pure, lift, gets, when, branch}
use token_throttle.Action.Rules.{Keeps, IsPreorder, >>=-Returns}
use token_throttle.Validation.{BucketId}
use token_throttle.Sqlite.Tables.{BucketRow}
use token_throttle.Sqlite.Engine.{Store, update_bucket, delete_bucket, confirm}
use token_throttle.Sqlite.Frame.{IsRowFrame}

module _ {F : Type 0} where
  -- The same evidence that state was stored.
  pub record SameEvidence (s t : Store F) : Type 0 where
    pub until : t.engine.state_confirmed_until ≡ s.engine.state_confirmed_until

  pub evidence_order : IsPreorder SameEvidence
  evidence_order = record {
    same = λ s. record { until = refl };
    trans = λ h k. record { until = k.until ∙ h.until };
  }

  evidence_update :
      (id : BucketId) (f : BucketRow F → BucketRow F) (s : Store F)
      → SameEvidence s (update_bucket id f s)
  unfolding update_bucket
  evidence_update id f s = record { until = refl }

  pub evidence_delete : (id : BucketId) (s : Store F) → SameEvidence s (delete_bucket id s)
  unfolding delete_bucket
  evidence_delete id s = record { until = refl }

  evidence_note : (id : BucketId) (at : F) (s : Store F) → SameEvidence s (confirm id at s)
  unfolding confirm
  evidence_note id at s = record { until = refl }

  pub evidence_frame : (id : BucketId) → IsRowFrame SameEvidence id
  evidence_frame id = record {
    order = evidence_order;
    update = λ f s k. evidence_update id f s;
    delete = evidence_delete id;
    add = λ r s p f i. record { until = refl };
    note = evidence_note id;
  }

  -- From two stores, the one that the reader has seen and the one that the writer works on: when the
  -- writer returns, the reader returns the same and leaves its store alone.
  pub record PredictsAt {A : Type 0} (s s' : Store F) (w r : Action (Store F) A) : Type 0 where
    pub result : (a : A) (t : Store F) → w s ≡ (ok a, t) → r s' ≡ (ok a, s')
    pub evidence : (a : A) (t : Store F) → w s ≡ (ok a, t) → SameEvidence t s'

  pub record Predicts {A : Type 0} (w r : Action (Store F) A) : Type 0 where
    pub at : (s s' : Store F) → SameEvidence s s' → PredictsAt s s' w r

  pub then_result :
      {A B : Type 0} (p : Result A × Store F) (f : A → Action (Store F) B) (a : A) (s' : Store F)
      (x : Result B × Store F)
      → p ≡ (ok a, s')
      → f a s' ≡ x
      → ((λ _. p) >>= f) s' ≡ x
  then_result (ok b, t) f a s' x h k =
      let value : a ≡ b = ground (arith, h) in
      let store : s' ≡ t = ground (arith, h) in rw (← value, ← store) k
  then_result (err e, t) f a s' x h k = absurd (ground (arith, h))

  pub bind_at :
      {A B : Type 0} {s s' : Store F} {w r : Action (Store F) A} {f g : A → Action (Store F) B}
      → PredictsAt s s' w r
      → ((a : A) → Predicts (f a) (g a))
      → PredictsAt s s' (w >>= f) (r >>= g)
  bind_at {s} {s'} {w} {r} {f} {g} p k = record {
    result = λ b t h.
        let m = >>=-Returns w f s b t h in
        let q = (k m.value).at m.middle s' (p.evidence m.value m.middle m.first) in
        then_result (r s') g m.value s' (ok b, s') (p.result m.value m.middle m.first)
          (q.result b t m.second);
    evidence = λ b t h.
        let m = >>=-Returns w f s b t h in
        let q = (k m.value).at m.middle s' (p.evidence m.value m.middle m.first) in
        q.evidence b t m.second;
  }

  pub >>=-Predicts :
      {A B : Type 0} {w r : Action (Store F) A} {f g : A → Action (Store F) B}
      → Predicts w r
      → ((a : A) → Predicts (f a) (g a))
      → Predicts (w >>= f) (r >>= g)
  >>=-Predicts p k = record { at = λ s s' h. bind_at (p.at s s' h) k }

  pub lift-Predicts : {A : Type 0} (x : Result A) → Predicts (lift x) (lift x)
  lift-Predicts x = record {
    at = λ s s' k. record {
      result = λ a t h. ap (λ p. (p.0, s')) h;
      evidence = λ a t h. let here : s ≡ t = ap (λ p. p.1) h in rw (← here) k;
    };
  }

  pub pure-Predicts : {A : Type 0} (a : A) → Predicts (pure a) (pure a)
  pure-Predicts a = lift-Predicts (ok a)

  -- What is read depends on the evidence only.
  pub gets-Predicts :
      {A : Type 0} (g : Store F → A)
      → ((s s' : Store F) → SameEvidence s s' → g s' ≡ g s)
      → Predicts (gets g) (gets g)
  gets-Predicts g same = record {
    at = λ s s' k. record {
      result = λ a t h. rw (same s s' k) (ap (λ p. (p.0, s')) h);
      evidence = λ a t h. let here : s ≡ t = ap (λ p. p.1) h in rw (← here) k;
    };
  }

  written_evidence :
      (b : Bool) {m : Action (Store F) (Unit {0})}
      → Keeps SameEvidence m
      → (s : Store F) → SameEvidence s (when b m s).1
  written_evidence true h s = h.after s
  written_evidence false h s = record { until = refl }

  -- A write of the writer, which the reader does not make.
  pub when-Predicts :
      (b c : Bool) {m : Action (Store F) (Unit {0})} (n : Action (Store F) (Unit {0}))
      → c ≡ false
      → Keeps SameEvidence m
      → Predicts (when b m) (when c n)
  when-Predicts b c {m} n e keeps = record {
    at = λ s s' k. record {
      result = λ a t h. rw e refl;
      evidence = λ a t h.
          let here : (when b m s).1 ≡ t = ap (λ p. p.1) h in
          let kept : SameEvidence s t = rw (← here) (written_evidence b keeps s) in
          record { until = k.until ∙ sym kept.until };
    };
  }

  pub skip-Predicts :
      (b : Bool) {m : Action (Store F) (Unit {0})}
      → Keeps SameEvidence m
      → Predicts (when b m) (pure tt)
  skip-Predicts b keeps = when-Predicts b false (pure tt) refl keeps

  pub branch-Predicts :
      {A : Type 0} (b : Bool) {w w' r r' : Action (Store F) A}
      → Predicts w r
      → Predicts w' r'
      → Predicts (branch b w w') (branch b r r')
  branch-Predicts true p q = record { at = p.at }
  branch-Predicts false p q = record { at = q.at }
