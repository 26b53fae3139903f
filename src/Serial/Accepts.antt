-- ===== src/Serial/Accepts.antt =====
-- Ports that work: they open when they are closed, and flush and write when they are open.
use laser_control.Common.{true, false, ◌≡◌, Bytes, length}
use laser_control.Effects.{ok}
use laser_control.Serial.{Serial}

-- A closed port can be opened and an open one flushed, and neither closes it; an open port writes
-- every message in full; closing returns, and leaves the port closed. Nothing is said of the calls
-- for which the library throws: opening an open port, and flushing or writing to a closed one.
-- Nothing is said of what is read either.
pub record Accepts (sp : Serial) : Type 0 where
  pub opens :
      (p : sp.Port)
      → sp.is_open p ≡ false
      → ((sp.open_port p).0 ≡ ok tt) × (sp.is_open (sp.open_port p).1 ≡ true)
  pub closes :
      (p : sp.Port) → ((sp.close_port p).0 ≡ ok tt) × (sp.is_open (sp.close_port p).1 ≡ false)
  pub flushes_input :
      (p : sp.Port)
      → sp.is_open p ≡ true
      → ((sp.flush_input p).0 ≡ ok tt) × (sp.is_open (sp.flush_input p).1 ≡ true)
  pub flushes_output :
      (p : sp.Port)
      → sp.is_open p ≡ true
      → ((sp.flush_output p).0 ≡ ok tt) × (sp.is_open (sp.flush_output p).1 ≡ true)
  pub writes :
      (message : Bytes) (p : sp.Port)
      → sp.is_open p ≡ true
      → (sp.write message p).0 ≡ ok (length message)
