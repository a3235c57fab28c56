-- ===== src/Float/Ints.antt =====
-- Whole numbers as an instance of the float interface: the tests run on it, and it meets the laws.
use token_throttle.Base.{
  pair_eq, ℕ, ◌+◌, ◌-◌, ◌*◌, none, some, ltb, ◌==◌, ◌≡◌, true, arith, nat_eq, ◌≤◌, suc,
}
use Prim.Native.Nat.{◌/◌}
use token_throttle.Base.Int.{ℤ, pos, negsuc, pos_part, neg_part, sub_ℕ, ltb_ℤ, leb_ℤ}
use token_throttle.Float.{Float, IsIeee}

abbrev pub mul_ℤ : ℤ → ℤ → ℤ
mul_ℤ a b =
    sub_ℕ (pos_part a * pos_part b + neg_part a * neg_part b)
      (pos_part a * neg_part b + neg_part a * pos_part b)

abbrev pub div_ℤ : ℤ → ℤ → ℤ
div_ℤ a b = sub_ℕ (pos_part a / pos_part b) (neg_part a / pos_part b)

-- A magnitude of 10^9 or more stands for an infinity.
instance abbrev pub ints : Float ℤ
ints = record {
  add = λ a b. sub_ℕ (pos_part a + pos_part b) (neg_part a + neg_part b);
  sub = λ a b. sub_ℕ (pos_part a + neg_part b) (neg_part a + pos_part b);
  mul = mul_ℤ;
  div = div_ℤ;
  neg = λ a. sub_ℕ (neg_part a) (pos_part a);
  from_nat = pos;
  from_int = some;
  from_text = λ s. none;
  nano = pos 1;
  milli = pos 0;
  nine_tenths = pos 1;
  lt = ltb_ℤ;
  le = leb_ℤ;
  eq = λ a b. pos_part a + neg_part b == pos_part b + neg_part a;
  is_finite = λ a. ltb (pos_part a + neg_part a) 1_000_000_000;
  is_close = λ a b. pos_part a + neg_part b == pos_part b + neg_part a;
  same_text = λ a b. pos_part a + neg_part b == pos_part b + neg_part a;
  ceil = pos_part;
  next_to_zero = λ a. pos (pos_part a - 1);
}

mul_nonneg_ℤ :
    (t r : ℤ) → leb_ℤ (pos 0) t ≡ true → ltb_ℤ (pos 0) r ≡ true → leb_ℤ (pos 0) (mul_ℤ t r) ≡ true
mul_nonneg_ℤ (pos t) (pos r) h k = ground arith
mul_nonneg_ℤ (pos t) (negsuc r) h k = ground arith
mul_nonneg_ℤ (negsuc t) r h k = ground arith

mul_mono_ℕ : (s t r : ℕ) → s ≤ t → s * r ≤ t * r
mul_mono_ℕ s t r h = grind arith

mul_mono_ℤ :
    (s t r : ℤ) → leb_ℤ s t ≡ true → ltb_ℤ (pos 0) r ≡ true → leb_ℤ (mul_ℤ s r) (mul_ℤ t r) ≡ true
mul_mono_ℤ (pos s) (pos t) (pos r) h k = ground (arith, mul_mono_ℕ s t r)
mul_mono_ℤ (pos s) (negsuc t) (pos r) h k = ground arith
mul_mono_ℤ (negsuc s) (pos t) (pos r) h k = ground arith
mul_mono_ℤ (negsuc s) (negsuc t) (pos r) h k = ground (arith, mul_mono_ℕ (suc t) (suc s) r)
mul_mono_ℤ s t (negsuc r) h k = ground arith

mul_nonpos_ℤ :
    (t r : ℤ) → leb_ℤ t (pos 0) ≡ true → ltb_ℤ (pos 0) r ≡ true → leb_ℤ (mul_ℤ t r) (pos 0) ≡ true
mul_nonpos_ℤ (pos t) (pos r) h k = ground (arith, mul_mono_ℕ t 0 r)
mul_nonpos_ℤ (pos t) (negsuc r) h k = ground arith
mul_nonpos_ℤ (negsuc t) (pos r) h k = ground arith
mul_nonpos_ℤ (negsuc t) (negsuc r) h k = ground arith

div_pos_ℤ :
    (a b : ℤ) → ltb_ℤ (pos 0) a ≡ true → ltb_ℤ (pos 0) b ≡ true → leb_ℤ (pos 0) (div_ℤ a b) ≡ true
div_pos_ℤ (pos a) (pos b) h k = ground arith
div_pos_ℤ (pos a) (negsuc b) h k = ground arith
div_pos_ℤ (negsuc a) b h k = ground arith

pub ints-IsIeee : IsIeee ints
ints-IsIeee = record {
  finite_num = λ x h. ground arith;
  le_left = λ x y h. ground arith;
  le_right = λ x y h. ground arith;
  le_trans = λ x y z h k. ground arith;
  lt_le = λ x y h. ground arith;
  le_not_lt = λ x y h. ground arith;
  not_lt = λ x y h k l. ground arith;
  finite_between = λ a x b h k l m. ground arith;
  eq_refl = λ x h. ground arith;
  finite_zero = ground arith;
  nano_pos = ground arith;
  finite_neg = λ x h. ground arith;
  neg_mono = λ x y h. ground arith;
  neg_le_zero = λ x h. ground arith;
  add_nonneg = λ c d h k. ground arith;
  add_nonpos = λ c d h k. ground arith;
  sub_self = λ x h. ground arith;
  mul_nonpos = λ t r h _ l. mul_nonpos_ℤ t r h l;
  add_mono = λ c d e h k. ground arith;
  sub_nonneg = λ x y h k l. ground arith;
  sub_num = λ x y h k. ground arith;
  sub_le = λ c u h k l. ground arith;
  sub_mono = λ s t x h k l m. ground arith;
  mul_nonneg = λ t r h _ l. mul_nonneg_ℤ t r h l;
  mul_mono = λ s t r h _ l. mul_mono_ℤ s t r h l;
  div_pos = λ a b h k _. div_pos_ℤ a b h k;
  not_le = λ x y h k l. ground arith;
  from_nat_mono = λ m n h. ground arith;
  le-ceil = λ x h. ground arith;
  is_close_refl = λ x h. ground arith;
  same_text_refl = λ x. ground arith;
}
