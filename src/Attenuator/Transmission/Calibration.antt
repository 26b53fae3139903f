-- ===== src/Attenuator/Transmission/Calibration.antt =====
-- The two conversions between transmission and steps.
use laser_control.Common.{◌≡◌}
use laser_control.Common.Int.{IsI32, wrap_i32_cancel}
use laser_control.Std.Floating.{Floating}
use laser_control.Serial.{Serial}
use laser_control.Attenuator.{Attenuator}
use laser_control.Attenuator.Transmission.{
  raw_steps, raw_transmission, trans_to_steps, steps_to_trans,
}

module _ ⦃sp : Serial⦄ ⦃fl : Floating⦄ where
  -- If the steps of the formula are an `int32_t`, the offsets cancel: the way to steps and back is
  -- the formula and its inverse on those steps, whatever the two offsets are, also where a sum
  -- leaves the range and wraps around.
  pub steps_to_trans-trans_to_steps :
      (trans : fl.Double) (a : Attenuator sp.Port fl.Double)
      → IsI32 (raw_steps a.cal_scale trans)
      → steps_to_trans (trans_to_steps trans a) a
        ≡ raw_transmission a.cal_scale (raw_steps a.cal_scale trans)
  unfolding steps_to_trans trans_to_steps
  steps_to_trans-trans_to_steps trans a h =
      rw (wrap_i32_cancel (raw_steps a.cal_scale trans) a.offset a.cal_offset h)
