-- ===== src/PowerMeterSim.antt =====
-- include/PowerMeterSim.hh and src/PowerMeterSim.cpp: the power meter without a device. The record
-- has the fields that the class itself declares. An enumeration is its number. A result of an
-- operation is what the code stores in its reference arguments. The lines that the source has
-- commented out are not modelled.
pub mod Measurements
pub mod Replays
pub mod Ops
pub mod Known
pub mod Tests
use laser_control.Common.{
  ℕ, ⊤, Bool, true, not, ◌%◌, ◌^◌, ◌==◌, Bytes, codes, List, [], ◌∷◌, drop, length, ltb,
  if◌then◌else◌,
}
use laser_control.Common.Int.{ℤ, pos, wrap_i16}
use laser_control.Effects.{
  Action, ◌>>=◌, ◌>>◌, pure, gets, lift, modify, throw, when, runtime_error,
}
use laser_control.Std.Strings.{at, substr, substr_count}
use laser_control.Std.Numbers.{stoul, stol}
use laser_control.Std.Maps.{insert, number_u16, number_i16}
use laser_control.Util.Tokens.{tokenize_string}
use laser_control.Util.Trim.{trim}
use laser_control.PowerMeter.{units_table}

pub record PowerMeterSim : Type 0 where
  pub mmode : ℕ
  pub range : ℤ
  pub wavelength : ℕ
  pub e_threshold : ℕ
  pub ave_query_state : ℕ
  pub pulse_length : ℕ
  pub ranges : List (ℤ × Bytes)
  pub pulse_lengths : List (ℕ × Bytes)
  pub ave_windows : List (ℕ × Bytes)
  pub measurement_units : List (ℕ × Bytes)
  pub threshold_ranges : ℕ × ℕ

abbrev pub SimAct : Type 0 → Type 0
SimAct A = Action PowerMeterSim A

-- `PowerMeterSim::PowerMeterSim`, which inserts the same units as `PowerMeter::PowerMeter`.
abbrev pub new_sim : PowerMeterSim
new_sim = record {
  mmode = 3;
  range = pos 2;
  wavelength = 266;
  e_threshold = 1;
  ave_query_state = 1;
  pulse_length = 0;
  ranges = [];
  pulse_lengths = [];
  ave_windows = [];
  measurement_units = units_table;
  threshold_ranges = (0, 0);
}

unfoldable pub get_range_fast : SimAct ℤ
get_range_fast = gets (λ m. m.range)

-- `wavelength` stores and always succeeds.
unfoldable pub wavelength : ℕ → SimAct Bool
wavelength wl = do modify (λ m. record m { wavelength = wl }); pure true

-- The `uint32_t` is converted to `uint16_t` for the call and for the field.
unfoldable pub set_wavelength : ℕ → SimAct ⊤
set_wavelength wl = do
  r ← wavelength (wl % 2 ^ 16)
  when r (modify (λ m. record m { wavelength = wl % 2 ^ 16 }))

unfoldable pub get_wavelength : SimAct ℕ
get_wavelength = gets (λ m. m.wavelength)

unfoldable pub write_range : ℤ → SimAct Bool
write_range range = do modify (λ m. record m { range = range }); pure true

-- An insertion leaves an entry alone that is there.
unfoldable pub average_query : ℕ → SimAct ℕ
average_query q = do
  modify (λ m. record m {
    ave_windows = insert ltb 5 (codes "30sec") (
        insert ltb 4 (codes "10sec") (
          insert ltb 3 (codes "3sec") (
            insert ltb 2 (codes "1sec")
              (insert ltb 1 (codes "0.5sec") (insert ltb 0 (codes "NONE") m.ave_windows)))));
  })
  pure 1

-- The answer that the operation parses.
abbrev pub ranges_line : Bytes
ranges_line = codes "*4 10.0J 2.00J 200mJ 20.0mJ 2.00mJ \r\n"

unfoldable pub get_all_ranges : SimAct ℤ
get_all_ranges = do
  rest ← lift (substr ranges_line 1)
  let tokens = tokenize_string (trim rest) (codes " ")
  first ← lift (at tokens 0)
  current ← lift (stol first)
  modify (λ m. record m { ranges = number_i16 0 (drop 1 tokens) [] })
  pure (wrap_i16 current)

-- `get_all_wavelengths(uint16_t &)`.
unfoldable pub get_all_wavelengths_u16 : SimAct ⊤
get_all_wavelengths_u16 = throw (runtime_error "Not implemented")

-- `get_all_wavelengths(std::string &)`.
unfoldable pub get_all_wavelengths : SimAct Bytes
get_all_wavelengths =
    lift (substr (codes "*CONTINUOUS 190 3000 1 266 355 532 1064 2100 2940 \r\n") 1)

-- The answer that the operation parses.
abbrev pub lengths_line : Bytes
lengths_line = codes "*1 1.0ms 2.0ms 5.0ms 10ms 20ms \r\n"

unfoldable pub pulse_length : ℕ → SimAct ℕ
pulse_length value = do
  if value == 0
      then (do
        text ← lift (substr_count lengths_line 1 1)
        answer ← lift (stoul text)
        lengths ← gets (λ m. m.pulse_lengths)
        when (length lengths == 0) do
          rest ← lift (substr lengths_line 2)
          let tokens = tokenize_string (trim rest) (codes " ")
          modify (λ m. record m { pulse_lengths = number_u16 1 tokens m.pulse_lengths })
        pure (answer % 2 ^ 16))
      else (do
        c ← lift (at lengths_line 0)
        if c == b'*' then pure value else (do
          text ← lift (substr_count lengths_line 1 1)
          answer ← lift (stoul text)
          pure (answer % 2 ^ 16)))

unfoldable pub get_e_threshold : SimAct ℕ
get_e_threshold = gets (λ m. m.e_threshold)

unfoldable pub energy_threshold : ℕ → SimAct ℕ
energy_threshold et = do modify (λ m. record m { e_threshold = 0 }); pure 0

unfoldable pub user_threshold : ℕ → SimAct ℕ
user_threshold value = do modify (λ m. record m { e_threshold = 1 }); pure 1

-- The three reference arguments keep what they hold before.
unfoldable pub query_user_threshold : ℕ × ℕ × ℕ → SimAct (ℕ × ℕ × ℕ)
query_user_threshold before = do
  modify (λ m. record m { e_threshold = 100 })
  modify (λ m. record m { threshold_ranges = (1, m.threshold_ranges.1) })
  modify (λ m. record m { threshold_ranges = (m.threshold_ranges.0, 1000) })
  pure before
