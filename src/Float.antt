-- ===== src/Float.antt =====
-- Python's float as the code uses it: an interface of operations, with the laws of IEEE 754 double
-- arithmetic that theorems may assume. Nothing is assumed exact: sums and products may round, and
-- may overflow to an infinity. A value `x` is no NaN where `le x x ≡ true`.
pub mod Order
pub mod Ints
use token_throttle.Base.{ℕ, ◌≤◌, ◌≡◌, Bool, true, false, Option, if◌then◌else◌}
use token_throttle.Base.Int.{ℤ}
use Prim.Native.String.{String}

pub record Float (F : Type 0) : Type 0 where
  pub add : F → F → F
  pub sub : F → F → F
  pub mul : F → F → F
  pub div : F → F → F
  pub neg : F → F
  -- `float(n)` of a small number; `float(n)` of an int, `none` where it raises OverflowError;
  -- `float(s)` of a text, `none` where it raises ValueError
  pub from_nat : ℕ → F
  pub from_int : ℤ → Option F
  pub from_text : String → Option F
  -- 1e-9, 0.001, 0.9
  pub nano : F
  pub milli : F
  pub nine_tenths : F
  pub lt : F → F → Bool
  pub le : F → F → Bool
  pub eq : F → F → Bool
  -- `math.isfinite`
  pub is_finite : F → Bool
  -- `math.isclose` with a relative tolerance of 1e-12; whether `repr` writes two numbers alike
  pub is_close : F → F → Bool
  pub same_text : F → F → Bool
  -- `math.ceil` of a finite number that is not negative; `math.nextafter(x, 0.0)`
  pub ceil : F → ℕ
  pub next_to_zero : F → F

module _ {F : Type 0} ⦃fl : Float F⦄ where
  open fl use {lt, from_nat}

  abbrev pub zero_f : F
  zero_f = from_nat 0

  -- Python's `min` and `max` keep the first argument unless the second is strictly better.
  abbrev pub min_f : F → F → F
  min_f a b = if lt b a then b else a

  abbrev pub max_f : F → F → F
  max_f a b = if lt a b then b else a

-- What IEEE 754 promises of the comparisons, and of rounding: every operation is monotone, and
-- none but an overflow leaves the finite numbers.
pub record IsIeee {F : Type 0} (fl : Float F) : Type 0 where
  pub finite_num : (x : F) → fl.is_finite x ≡ true → fl.le x x ≡ true
  pub le_left : (x y : F) → fl.le x y ≡ true → fl.le x x ≡ true
  pub le_right : (x y : F) → fl.le x y ≡ true → fl.le y y ≡ true
  pub le_trans : (x y z : F) → fl.le x y ≡ true → fl.le y z ≡ true → fl.le x z ≡ true
  pub lt_le : (x y : F) → fl.lt x y ≡ true → fl.le x y ≡ true
  pub le_not_lt : (x y : F) → fl.le x y ≡ true → fl.lt y x ≡ false
  pub not_lt :
      (x y : F) → fl.le x x ≡ true → fl.le y y ≡ true → fl.lt x y ≡ false → fl.le y x ≡ true
  pub finite_between :
      (a x b : F)
      → fl.is_finite a ≡ true
      → fl.is_finite b ≡ true
      → fl.le a x ≡ true
      → fl.le x b ≡ true
      → fl.is_finite x ≡ true
  pub eq_refl : (x : F) → fl.is_finite x ≡ true → fl.eq x x ≡ true
  pub finite_zero : fl.is_finite (fl.from_nat 0) ≡ true
  pub nano_pos : fl.lt (fl.from_nat 0) fl.nano ≡ true
  pub finite_neg : (x : F) → fl.is_finite x ≡ true → fl.is_finite (fl.neg x) ≡ true
  pub neg_mono : (x y : F) → fl.le x y ≡ true → fl.le (fl.neg y) (fl.neg x) ≡ true
  pub neg_le_zero :
      (x : F) → fl.le (fl.from_nat 0) x ≡ true → fl.le (fl.neg x) (fl.from_nat 0) ≡ true
  pub add_nonneg :
      (c d : F)
      → fl.is_finite c ≡ true
      → fl.le (fl.from_nat 0) d ≡ true
      → fl.le c (fl.add c d) ≡ true
  pub add_nonpos :
      (c d : F)
      → fl.is_finite c ≡ true
      → fl.le d (fl.from_nat 0) ≡ true
      → fl.le (fl.add c d) c ≡ true
  pub sub_self : (x : F) → fl.is_finite x ≡ true → fl.le (fl.sub x x) (fl.from_nat 0) ≡ true
  pub mul_nonpos :
      (t r : F)
      → fl.le t (fl.from_nat 0) ≡ true
      → fl.is_finite r ≡ true
      → fl.lt (fl.from_nat 0) r ≡ true
      → fl.le (fl.mul t r) (fl.from_nat 0) ≡ true
  pub add_mono :
      (c d e : F)
      → fl.is_finite c ≡ true
      → fl.le d e ≡ true
      → fl.le (fl.add c d) (fl.add c e) ≡ true
  pub sub_nonneg :
      (x y : F)
      → fl.is_finite x ≡ true
      → fl.is_finite y ≡ true
      → fl.le y x ≡ true
      → fl.le (fl.from_nat 0) (fl.sub x y) ≡ true
  pub sub_num :
      (x y : F)
      → fl.is_finite x ≡ true
      → fl.is_finite y ≡ true
      → fl.le (fl.sub x y) (fl.sub x y) ≡ true
  pub sub_le :
      (c u : F)
      → fl.is_finite c ≡ true
      → fl.is_finite u ≡ true
      → fl.le (fl.from_nat 0) u ≡ true
      → fl.le (fl.sub c u) c ≡ true
  pub sub_mono :
      (s t x : F)
      → fl.is_finite s ≡ true
      → fl.is_finite t ≡ true
      → fl.is_finite x ≡ true
      → fl.le s t ≡ true
      → fl.le (fl.sub s x) (fl.sub t x) ≡ true
  pub mul_nonneg :
      (t r : F)
      → fl.le (fl.from_nat 0) t ≡ true
      → fl.is_finite r ≡ true
      → fl.lt (fl.from_nat 0) r ≡ true
      → fl.le (fl.from_nat 0) (fl.mul t r) ≡ true
  pub mul_mono :
      (s t r : F)
      → fl.le s t ≡ true
      → fl.is_finite r ≡ true
      → fl.lt (fl.from_nat 0) r ≡ true
      → fl.le (fl.mul s r) (fl.mul t r) ≡ true
  pub div_pos :
      (a b : F)
      → fl.lt (fl.from_nat 0) a ≡ true
      → fl.lt (fl.from_nat 0) b ≡ true
      → fl.is_finite b ≡ true
      → fl.le (fl.from_nat 0) (fl.div a b) ≡ true
  pub not_le :
      (x y : F) → fl.le x x ≡ true → fl.le y y ≡ true → fl.le x y ≡ false → fl.lt y x ≡ true
  pub from_nat_mono : (m n : ℕ) → m ≤ n → fl.le (fl.from_nat m) (fl.from_nat n) ≡ true
  pub le-ceil : (x : F) → fl.is_finite x ≡ true → fl.le x (fl.from_nat (fl.ceil x)) ≡ true
  pub is_close_refl : (x : F) → fl.is_finite x ≡ true → fl.is_close x x ≡ true
  pub same_text_refl : (x : F) → fl.same_text x x ≡ true
