-- ===== src/Sqlite/Initialize/Isolation.antt =====
-- Creating the rows of an engine's buckets touches no row of another engine.
use token_throttle.Base.{refl, List, [], ◌∷◌, is_none, Bool-cases, inl, inr}
use token_throttle.Float.{Float}
use token_throttle.Action.Rules.{Keeps, >>=-Keeps, lift-Keeps, pure-Keeps, gets-Keeps, modify-Keeps}
use token_throttle.Validation.{BucketId}
use token_throttle.Sqlite.Engine.{BucketSpec, Store, Turn, select_bucket}
use token_throttle.Sqlite.Initialize.{
  insert_or_ignore, insert_all, initialize_at, initialize_buckets,
}
use token_throttle.Sqlite.Isolation.{
  LeavesOthers, others, prune-others, transaction-others, add_bucket-others,
}

module _ {F : Type 0} ⦃fl : Float F⦄ (now : F) where
  insert_or_ignore-others :
      (id : BucketId) (s : Store F) → LeavesOthers now s (insert_or_ignore now id s)
  unfolding insert_or_ignore
  insert_or_ignore-others id s = elim (Bool-cases (is_none (select_bucket id s))) [
    | inl e ↦ rw e (add_bucket-others now _ s refl refl)
    | inr e ↦ rw e ((others now).same s)
  ]

  insert_all-others :
      (specs : List (BucketSpec F)) → Keeps (LeavesOthers now) (insert_all now specs)
  unfolding insert_all
  insert_all-others [] = pure-Keeps (others now) tt
  insert_all-others (spec ∷ specs) = >>=-Keeps (others now) (lift-Keeps (others now) _) λ limit.
      >>=-Keeps (others now) (modify-Keeps (others now) (insert_or_ignore-others spec.bucket_id))
        λ _. insert_all-others specs

  initialize_at-others : Keeps (LeavesOthers now) (initialize_at now)
  unfolding initialize_at
  initialize_at-others =
      search (>>=-Keeps, modify-Keeps, prune-others, gets-Keeps, insert_all-others, others)

module _ {F : Type 0} ⦃fl : Float F⦄ (turn : Turn F) where
  pub initialize_buckets-others : Keeps (LeavesOthers turn.now) (initialize_buckets turn)
  unfolding initialize_buckets
  initialize_buckets-others = transaction-others turn initialize_at (initialize_at-others turn.now)
