-- ===== src/Device/Tests.antt =====
-- Examples of the theorems about the base class, on a scripted port.
use laser_control.Common.{◌≡◌, refl, true, List, [], ◌∷◌, ◌++◌, arith, Bytes, codes}
use laser_control.Effects.{ok}
use laser_control.Serial.Script.{ScriptPort, script}
use laser_control.Device.{Device, new_device, read_cmd}
use laser_control.Device.Reads.{read_cmd_line}

abbrev port : List Bytes → ScriptPort
port lines = record { opened = true; accepts = []; answers = lines; batches = []; received = [] }

abbrev device : Device ScriptPort
device = record (new_device (codes "/dev/ttyUSB0") 9600 (port (codes "*1\r\n" ∷ []))) {
  read_sfx = codes "\r\n";
}

read_cmd_line_example :
    read_cmd ⦃sp = script⦄ (codes "?") device
    ≡ (ok (true, codes "?" ++ codes "*1"), record device { serial = port [] })
read_cmd_line_example =
    read_cmd_line ⦃sp = script⦄ (codes "?") (codes "*1") device (port []) refl (ground arith)
