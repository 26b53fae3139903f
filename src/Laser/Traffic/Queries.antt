-- ===== src/Laser/Traffic/Queries.antt =====
-- The queries of the laser change neither what the messages say nor what is cached.
use laser_control.Common.{List, ◌∷◌, Bytes, codes}
use laser_control.Effects.{Action}
use laser_control.Effects.Hoare.{Keeps, keeps_rules}
use laser_control.Std.Floating.{Floating}
use laser_control.Serial.{Serial}
use laser_control.Serial.Logged.{LoggedPort, logged}
use laser_control.Laser.{Laser}
use laser_control.Laser.Settings.{Settings}
use laser_control.Laser.Security
use laser_control.Laser.Shots
use laser_control.Laser.Sending.{
  IsReady, reset_connection-IsReady, read_lines-IsReady, write_cmd-IsReady, send_or_throw-IsReady,
}
use laser_control.Laser.Traffic.{told}
use laser_control.Laser.Traffic.Orders.{tell-quiet}
use laser_control.Laser.Traffic.Calls.{Spells, Is}

module _ (sp : Serial) ⦃fl : Floating⦄ (c : Settings fl.Float) where
  abbrev Holds : {A : Type 0} → Action (Laser (LoggedPort sp) fl.Float) A → Type 0
  Holds m = Keeps (IsReady sp (Spells sp c) (Is sp c)) m

  asks_count : (ws : List Bytes) → Spells sp c ws → Spells sp c (codes "SC\r" ∷ ws)
  unfolding told
  asks_count ws h = rw ((tell-quiet (told ws)).2) h

  asks_security : (ws : List Bytes) → Spells sp c ws → Spells sp c (codes "SE\r" ∷ ws)
  unfolding told
  asks_security ws h = rw ((tell-quiet (told ws)).1) h

  sends_security :
      Holds (
        laser_control.Laser.send_or_throw ⦃sp = logged sp⦄ (codes "SE") "Failed to send SE command")
  sends_security = send_or_throw-IsReady sp (Spells sp c) (Is sp c) (codes "SE") _ asks_security

  sends_count : Holds (laser_control.Laser.write_cmd ⦃sp = logged sp⦄ (codes "SC"))
  sends_count = write_cmd-IsReady sp (Spells sp c) (Is sp c) (codes "SC") asks_count

  pub security-keeps : Holds (Security.security ⦃sp = logged sp⦄)
  unfolding Security.security Security.security_code Security.security_lines
  security-keeps =
      search (keeps_rules, reset_connection-IsReady, read_lines-IsReady, sends_security) depth 20

  pub shot_count-keeps : Holds (Shots.get_shot_count ⦃sp = logged sp⦄)
  unfolding Shots.get_shot_count Shots.shot_count_text
  shot_count-keeps =
      search (keeps_rules, reset_connection-IsReady, read_lines-IsReady, sends_count) depth 20

  pub u16-keeps : Holds (Security.security_u16 ⦃sp = logged sp⦄)
  unfolding Security.security_u16
  u16-keeps = search (keeps_rules, security-keeps)

  pub enum-keeps : Holds (Security.security_enum ⦃sp = logged sp⦄)
  unfolding Security.security_enum
  enum-keeps = search (keeps_rules, security-keeps)
