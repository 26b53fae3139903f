-- ===== src/PowerMeter/Info.antt =====
-- What the power meter says of itself and of its sensor.
use laser_control.Common.{ℕ, ⊤, Bool, true, not, ◌/◌, ◌%◌, ◌^◌, ◌==◌, Bytes, codes, [], drop}
use laser_control.Effects.{◌>>=◌, ◌>>◌, pure, lift, throw_if, io_exception}
use laser_control.Std.Strings.{at, substr}
use laser_control.Std.Numbers.{stoul_base}
use laser_control.Serial.{Serial}
use laser_control.Util.Tokens.{tokenize_string}
use laser_control.Util.Trim.{trim}
use laser_control.PowerMeter.{Act, ask, send_cmd}

-- `word & (1 << i)` as a Boolean, for a `uint32_t`.
unfoldable pub bit : ℕ → ℕ → Bool
bit word i = (word / 2 ^ i) % 2 == 1

-- What `head_info` stores.
pub record HeadInfo : Type 0 where
  pub type_name : Bytes
  pub sn : Bytes
  pub name : Bytes
  pub power : Bool
  pub energy : Bool
  pub freq : Bool

module _ ⦃sp : Serial⦄ where
  unfoldable pub head_info_raw : Bytes → Act Bytes
  head_info_raw answer = do
    got ← send_cmd (codes "HI") answer true
    throw_if (not got.0) (io_exception "Failed to query head info")
    pure got.1

  unfoldable pub head_info : Act HeadInfo
  head_info = do
    rr ← head_info_raw []
    let tokens = drop 1 (tokenize_string (trim rr) (codes " "))
    type_name ← lift (at tokens 0)
    sn ← lift (at tokens 1)
    name ← lift (at tokens 2)
    t3 ← lift (at tokens 3)
    value ← lift (stoul_base 16 t3)
    let word = value % 2 ^ 32
    pure (record {
      type_name = type_name;
      sn = sn;
      name = name;
      power = bit word 0;
      energy = bit word 0;
      freq = bit word 31;
    })

  unfoldable pub head_type : Act Bytes
  head_type = do resp ← ask (codes "HT") "Failed to query head type"; lift (substr resp 1)

  unfoldable pub inst_config : Act Bool
  inst_config = do
    rr ← ask (codes "IC") "Failed to query instrument config"
    c ← lift (at rr 0)
    pure (not (c == b'?'))

  -- Identifier, serial number and name.
  unfoldable pub inst_info : Act (Bytes × Bytes × Bytes)
  inst_info = do
    rr ← ask (codes "II") "Failed to query instrument info"
    let tokens = drop 1 (tokenize_string (trim rr) (codes " "))
    id ← lift (at tokens 0)
    sn ← lift (at tokens 1)
    name ← lift (at tokens 2)
    pure (id, sn, name)

  unfoldable pub version : Act Bytes
  version = do rr ← ask (codes "VE") "Failed to query version"; lift (substr rr 1)

  unfoldable pub reset : Act ⊤
  reset = do rr ← ask (codes "RE") "Failed to send reset"; pure tt
