-- ===== src/Manager/Arguments.antt =====
-- The numbers in a command: `std::strtol(text, NULL, 0)`, converted to the type of the variable.
use laser_control.Common.{ℕ, Bytes, ◌^◌}
use laser_control.Common.Int.{ℤ, to_unsigned, wrap_i16, wrap_i32}
use laser_control.Std.Numbers.Auto.{strtol}

unfoldable pub u32_of : Bytes → ℕ
unfolding strtol to_unsigned
u32_of text = to_unsigned (2 ^ 32) (strtol text)

unfoldable pub u16_of : Bytes → ℕ
unfolding strtol to_unsigned
u16_of text = to_unsigned (2 ^ 16) (strtol text)

unfoldable pub i32_of : Bytes → ℤ
unfolding strtol wrap_i32
i32_of text = wrap_i32 (strtol text)

unfoldable pub i16_of : Bytes → ℤ
unfolding strtol wrap_i16
i16_of text = wrap_i16 (strtol text)
