-- ===== src/Float/Order.antt =====
-- The order of floats under Python's `min` and `max`.
use token_throttle.Base.{arith, true, ◌≡◌}
use token_throttle.Float.{Float, IsIeee, min_f, max_f, zero_f}

module _ {F : Type 0} ⦃fl : Float F⦄ (laws : IsIeee fl) where
  open fl use {le, lt, is_finite}

  pub min_f-le-left : (a b : F) → le a a ≡ true → le (min_f a b) a ≡ true
  min_f-le-left a b h = ground (arith, laws.lt_le b a)

  pub min_f-le-right : (a b : F) → le a a ≡ true → le b b ≡ true → le (min_f a b) b ≡ true
  min_f-le-right a b h k = ground (arith, laws.not_lt b a)

  pub le-min_f : (x a b : F) → le x a ≡ true → le x b ≡ true → le x (min_f a b) ≡ true
  le-min_f x a b h k = ground arith

  pub le-max_f-left : (a b : F) → le a a ≡ true → le a (max_f a b) ≡ true
  le-max_f-left a b h = ground (arith, laws.lt_le a b)

  pub le-max_f-right : (a b : F) → le a a ≡ true → le b b ≡ true → le b (max_f a b) ≡ true
  le-max_f-right a b h k = ground (arith, laws.not_lt a b)

  pub max_f-le : (a b x : F) → le a x ≡ true → le b x ≡ true → le (max_f a b) x ≡ true
  max_f-le a b x h k = ground arith

  pub zero_num : le zero_f zero_f ≡ true
  zero_num = laws.finite_num zero_f laws.finite_zero
