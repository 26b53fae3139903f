-- ===== src/Manager/Typed/Numbers.antt =====
-- The numbers of a command, where they were typed in decimal.
use laser_control.Common.{◌^◌, ◌≡◌, refl}
use laser_control.Common.Int.{ℤ, to_unsigned, wrap_i32}
use laser_control.Std.Numbers.{show_ℤ}
use laser_control.Std.Numbers.Auto.RoundTrip.{IsI64, strtol-show_ℤ}
use laser_control.Manager.Arguments.{u16_of, u32_of, i32_of}

pub u16_of-show_ℤ : (z : ℤ) → IsI64 z → u16_of (show_ℤ z) ≡ to_unsigned (2 ^ 16) z
unfolding u16_of
u16_of-show_ℤ z h = rw (strtol-show_ℤ z h) refl

pub u32_of-show_ℤ : (z : ℤ) → IsI64 z → u32_of (show_ℤ z) ≡ to_unsigned (2 ^ 32) z
unfolding u32_of
u32_of-show_ℤ z h = rw (strtol-show_ℤ z h) refl

pub i32_of-show_ℤ : (z : ℤ) → IsI64 z → i32_of (show_ℤ z) ≡ wrap_i32 z
unfolding i32_of
i32_of-show_ℤ z h = rw (strtol-show_ℤ z h) refl
