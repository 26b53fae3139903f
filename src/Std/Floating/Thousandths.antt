-- ===== src/Std/Floating/Thousandths.antt =====
-- Numbers in thousandths, a concrete stand-in for floating point in the examples. The functions
-- that no example needs are constant.
use laser_control.Common.{ℕ, ◌*◌, ◌/◌, ◌%◌, ◌^◌, ◌++◌, codes}
use laser_control.Common.Int.{ℤ, pos, pos_part, ltb_ℤ}
use laser_control.Effects.{ok}
use laser_control.Std.Numbers.{show}
use laser_control.Std.Floating.{Floating}

abbrev scaled : ℤ → ℕ → ℤ
scaled m k = pos (pos_part m * 1000 / 10 ^ k)

instance abbrev pub thousandths : Floating
thousandths = record {
  Float = ℤ;
  Double = ℤ;
  literal = scaled;
  to_double = λ x. x;
  to_float = λ x. x;
  lt = ltb_ℤ;
  show_fixed = λ k x. show (pos_part x / 1000) ++ (codes "." ++ show (pos_part x % 1000 / 10));
  stod = λ s. ok (pos 0);
  stof = λ s. ok (pos 1100);
  of_int = λ a. pos (pos_part a * 1000);
  to_int = λ x. pos (pos_part x / 1000);
  mul = λ x y. pos (pos_part x * pos_part y / 1000);
  div = λ x y. pos (pos_part x * 1000 / pos_part y);
  pi = pos 3142;
  acos = λ x. pos 0;
  cos = λ x. pos 1000;
  sqrt = λ x. x;
  pow = λ x y. x;
}
