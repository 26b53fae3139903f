-- ===== src/PowerMeter/Keeps.antt =====
-- What every exchange with the power meter keeps: the framing of the messages and the caches.
use laser_control.Common.{Bool, ◌≡◌, refl, ◌<◌, ◌^◌, String, Bytes, codes}
use laser_control.Effects.{Action, modify}
use laser_control.Effects.Hoare.{Keeps, keeps_rules, Keeps-on_part, Keeps-modify}
use laser_control.Std.Maps.Sorted.{IsSorted, IsOrdered}
use laser_control.Serial.{Serial}
use laser_control.Serial.Logged.{LoggedPort, logged}
use laser_control.Device.{Device}
use laser_control.Device.Keeps.{
  IsClean, write_cmd-IsClean, reset_connection-IsClean, read_cmd-IsClean,
}
use laser_control.PowerMeter
use laser_control.PowerMeter.Frames.{IsFrame, IsCommand}
use laser_control.PowerMeter.{PowerMeter, on_device, units_table}

module _ (sp : Serial) where
  abbrev Meter : Type 0
  Meter = PowerMeter (LoggedPort sp)

  pub record IsValid (m : Meter) : Type 0 where
    pub clean : IsClean sp IsFrame (codes "$") (codes "\r\n") m.device
    pub wavelength_fits : m.wavelength < 2 ^ 16
    pub threshold_fits : m.e_threshold < 2 ^ 16
    pub low_fits : m.threshold_ranges.0 < 2 ^ 16
    pub high_fits : m.threshold_ranges.1 < 2 ^ 16
    pub lengths_sorted : IsSorted m.pulse_lengths
    pub windows_sorted : IsSorted m.ave_windows
    pub ranges_sorted : IsOrdered m.ranges
    pub units_kept : m.measurement_units ≡ units_table

  pub device-IsValid :
      {A : Type 0} (m : Action (Device (LoggedPort sp)) A)
      → Keeps (IsClean sp IsFrame (codes "$") (codes "\r\n")) m
      → Keeps IsValid (on_device m)
  unfolding on_device
  device-IsValid m h = Keeps-on_part _ _ m λ l held. record {
    clean = h.after l.device held.clean;
    wavelength_fits = held.wavelength_fits;
    threshold_fits = held.threshold_fits;
    low_fits = held.low_fits;
    high_fits = held.high_fits;
    lengths_sorted = held.lengths_sorted;
    windows_sorted = held.windows_sorted;
    ranges_sorted = held.ranges_sorted;
    units_kept = held.units_kept;
  }

  write_cmd-IsValid :
      (cmd : Bytes) → IsCommand cmd → Keeps IsValid (PowerMeter.write_cmd ⦃sp = logged sp⦄ cmd)
  unfolding PowerMeter.write_cmd
  write_cmd-IsValid cmd h =
      device-IsValid _
        (write_cmd-IsClean sp IsFrame (codes "$") (codes "\r\n") cmd (IsFrame.command cmd h refl))

  reset_connection-IsValid : Keeps IsValid (PowerMeter.reset_connection ⦃sp = logged sp⦄)
  unfolding PowerMeter.reset_connection
  reset_connection-IsValid =
      device-IsValid _ (reset_connection-IsClean sp IsFrame (codes "$") (codes "\r\n"))

  read_cmd-IsValid : (resp : Bytes) → Keeps IsValid (PowerMeter.read_cmd ⦃sp = logged sp⦄ resp)
  unfolding PowerMeter.read_cmd
  read_cmd-IsValid resp =
      device-IsValid _ (read_cmd-IsClean sp IsFrame (codes "$") (codes "\r\n") resp)

  module _ (cmd : Bytes) (h : IsCommand cmd) where
    send_twice-IsValid :
        (repeat : Bool) → Keeps IsValid (PowerMeter.send_twice ⦃sp = logged sp⦄ cmd repeat)
    unfolding PowerMeter.send_twice
    send_twice-IsValid repeat =
        search (keeps_rules, write_cmd-IsValid, reset_connection-IsValid) depth 12

  read_twice-IsValid :
      (resp : Bytes) (repeat : Bool)
      → Keeps IsValid (PowerMeter.read_twice ⦃sp = logged sp⦄ resp repeat)
  unfolding PowerMeter.read_twice
  read_twice-IsValid resp repeat =
      search (keeps_rules, read_cmd-IsValid, reset_connection-IsValid) depth 12

  pub send_cmd-IsValid :
      (cmd resp : Bytes) (repeat : Bool)
      → IsCommand cmd
      → Keeps IsValid (PowerMeter.send_cmd ⦃sp = logged sp⦄ cmd resp repeat)
  unfolding PowerMeter.send_cmd
  send_cmd-IsValid cmd resp repeat h =
      search (keeps_rules, send_twice-IsValid, read_twice-IsValid) depth 12

  pub ask-IsValid :
      (cmd : Bytes) (message : String)
      → IsCommand cmd
      → Keeps IsValid (PowerMeter.ask ⦃sp = logged sp⦄ cmd message)
  unfolding PowerMeter.ask
  ask-IsValid cmd message h = search (keeps_rules, send_cmd-IsValid) depth 12

  -- A change of the fields other than `device` that keeps what is said of them.
  pub modify-IsValid :
      (f : Meter → Meter)
      → ((m : Meter) → (f m).device ≡ m.device)
      → ((m : Meter) → (f m).measurement_units ≡ m.measurement_units)
      → ((m : Meter)
          → IsValid m
          → ((f m).wavelength < 2 ^ 16)
            × ((f m).e_threshold < 2 ^ 16)
            × ((f m).threshold_ranges.0 < 2 ^ 16)
            × ((f m).threshold_ranges.1 < 2 ^ 16))
      → ((m : Meter)
          → IsValid m
          → IsSorted (f m).pulse_lengths × IsSorted (f m).ave_windows × IsOrdered (f m).ranges)
      → Keeps IsValid (modify f)
  modify-IsValid f same units fits sorted = Keeps-modify f λ m held. record {
    clean = rw (same m) held.clean;
    wavelength_fits = (fits m held).0;
    threshold_fits = (fits m held).1;
    low_fits = (fits m held).2;
    high_fits = (fits m held).3;
    lengths_sorted = (sorted m held).0;
    windows_sorted = (sorted m held).1;
    ranges_sorted = (sorted m held).2;
    units_kept = rw (units m) held.units_kept;
  }
