-- ===== src/Tests/Capacity.antt =====
-- The capacity calculation on whole numbers.
use token_throttle.Base.{false, refl, true, ◌&&◌, ◌≡◌}
use token_throttle.Exceptions.{ok}
use token_throttle.Base.Int.{ℤ, pos}
use token_throttle.Float.{min_f}
use token_throttle.Float.Ints.{ints, ints-IsIeee}
use token_throttle.Capacity.{py_float, CalculatedCapacity, calculate_capacity, elapsed}
use token_throttle.Capacity.Refill.{
  IsTime, refilled, calculate_capacity_bounds, calculate_capacity_mono, calculate_capacity-stored,
}
use token_throttle.Capacity.Checks.{IsDecided, is_time, is_rate, calculate_capacity-IsDecided}
use token_throttle.Tests.{ten, ten-IsTime, used-IsRate}

calculate_capacity_bounds_example :
    (c : CalculatedCapacity ℤ) × (calculate_capacity
        (py_float (pos 0))
        (py_float (pos 100))
        (py_float ten)
        (py_float (pos 600))
        (py_float (pos 10))
      ≡ ok c)
    × (c.is_fresh_start ≡ false)
    × (ints.le (min_f (pos 600) (pos 100)) c.amount ≡ true)
    × (ints.le c.amount (pos 600) ≡ true)
calculate_capacity_bounds_example =
    calculate_capacity_bounds ints-IsIeee (pos 0) (pos 100) ten (pos 600) (pos 10) ten-IsTime
      used-IsRate refl refl

abbrev twenty : ℤ
twenty = pos 20

abbrev at_ten : CalculatedCapacity ℤ
at_ten = record {
  amount = refilled (pos 0) (pos 100) ten (pos 600) (pos 10);
  is_fresh_start = false;
}

abbrev at_twenty : CalculatedCapacity ℤ
at_twenty = record {
  amount = refilled (pos 0) (pos 100) twenty (pos 600) (pos 10);
  is_fresh_start = false;
}

twenty-IsTime : IsTime twenty
twenty-IsTime = record { finite = refl; nonneg = refl }

read_at_ten :
    calculate_capacity
      (py_float (pos 0))
      (py_float (pos 100))
      (py_float ten)
      (py_float (pos 600))
      (py_float (pos 10))
    ≡ ok at_ten
unfolding elapsed
read_at_ten =
    calculate_capacity-stored (pos 0) (pos 100) ten (pos 600) (pos 10) ten-IsTime used-IsRate refl
      refl refl

read_at_twenty :
    calculate_capacity
      (py_float (pos 0))
      (py_float (pos 100))
      (py_float twenty)
      (py_float (pos 600))
      (py_float (pos 10))
    ≡ ok at_twenty
unfolding elapsed
read_at_twenty =
    calculate_capacity-stored (pos 0) (pos 100) twenty (pos 600) (pos 10) twenty-IsTime used-IsRate
      refl refl refl

calculate_capacity_mono_example : ints.le at_ten.amount at_twenty.amount ≡ true
calculate_capacity_mono_example =
    calculate_capacity_mono ints-IsIeee (pos 0) (pos 100) ten twenty (pos 600) (pos 10) {c = at_ten}
      {d = at_twenty} ten-IsTime twenty-IsTime used-IsRate refl refl refl read_at_ten read_at_twenty

-- 100 left at time 0 and 10 a second make 200 at time 10.
amount_test : at_ten.amount ≡ pos 200
unfolding elapsed
amount_test = refl

calculate_capacity-IsDecided_example :
    IsDecided ((is_time ten && is_rate (pos 600) (pos 0)) && true) (
      calculate_capacity
        (py_float (pos 0))
        (py_float (pos 100))
        (py_float ten)
        (py_float (pos 600))
        (py_float (pos 0)))
calculate_capacity-IsDecided_example =
    calculate_capacity-IsDecided ints-IsIeee (pos 0) (pos 100) ten (pos 600) (pos 0)
