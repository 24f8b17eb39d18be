-- ===== src/Prelude/Whole.antt =====
-- Whole numbers as the floats of tests: every operation rounds toward zero, there is no NaN, and a
-- square root is the number itself.
use torvix.Prelude.{ℕ, zero, suc, ◌*◌, ◌/◌, String, arith}
use Prim.Native.String.{◌++◌}
use torvix.Prelude.Int.{ℤ, pos, negsuc, ◌-ℤ◌, neg, ltb_ℤ, leb_ℤ}
use torvix.Prelude.Text.{itoa}
use torvix.Prelude.Float64.{Float64, IsOrdered}

power_of_10 : ℕ → ℕ
power_of_10 zero = 1
power_of_10 (suc k) = 10 * power_of_10 k

abbrev size : ℤ → ℕ
size (pos n) = n
size (negsuc n) = suc n

abbrev print : ℤ → String
print (pos n) = itoa n
print (negsuc n) = "-" ++ itoa (suc n)

abbrev scale : ℤ → ℕ → ℤ
scale (pos a) n = pos (a * n)
scale (negsuc a) n = neg (pos (suc a * n))

abbrev times : ℤ → ℤ → ℤ
times a (pos n) = scale a n
times a (negsuc n) = neg (scale a (suc n))

abbrev over : ℤ → ℕ → ℤ
over (pos a) n = pos (a / n)
over (negsuc a) n = neg (pos (suc a / n))

abbrev quotient : ℤ → ℤ → ℤ
quotient a (pos n) = over a n
quotient a (negsuc n) = neg (over a (suc n))

instance unfoldable pub whole_floats : Float64 ℤ
unfolding ◌-ℤ◌ neg power_of_10
whole_floats = record {
  decimal = λ m k. pos (m / power_of_10 k);
  add = λ a b. a -ℤ neg b;
  sub = λ a b. a -ℤ b;
  mul = times;
  div = quotient;
  sqrt = λ a. a;
  neg = neg;
  abs = λ a. pos (size a);
  lt = ltb_ℤ;
  le = leb_ℤ;
  fixed = λ n a. print a;
}

pub whole-IsOrdered : IsOrdered ℤ
unfolding whole_floats
whole-IsOrdered = record {
  lt_asymm = λ x y h. ground arith;
  lt_numbers = λ x y h. (ground arith, ground arith);
  not_lt_trans = λ x y z n h k. ground arith;
  abs_number = λ x h. ground arith;
}
