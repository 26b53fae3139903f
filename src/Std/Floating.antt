-- ===== src/Std/Floating.antt =====
-- Floating point as the devices use it. The numbers, their arithmetic and their text are a
-- parameter, since the language of the model has none.
pub mod Thousandths
use laser_control.Common.{ℕ, Bool, Bytes}
use laser_control.Common.Int.{ℤ}
use laser_control.Effects.{Result}

pub record Floating : Type 1 where
  pub Float : Type 0
  pub Double : Type 0
  -- the literal `m / 10 ^ k`
  pub literal : ℤ → ℕ → Double
  pub to_double : Float → Double
  pub to_float : Double → Float
  pub lt : Double → Double → Bool
  -- `os << std::fixed << std::setprecision(k) << x`
  pub show_fixed : ℕ → Float → Bytes
  pub stod : Bytes → Result Double
  pub stof : Bytes → Result Float
  pub of_int : ℤ → Double
  -- `static_cast<int32_t>`
  pub to_int : Double → ℤ
  pub mul : Double → Double → Double
  pub div : Double → Double → Double
  pub pi : Double
  pub acos : Double → Double
  pub cos : Double → Double
  pub sqrt : Double → Double
  pub pow : Double → Double → Double
