-- ===== src/Device.antt =====
-- include/Device.hh and src/Device.cpp: the base class of the instruments. The calls of
-- `std::this_thread::sleep_for` and the output under DEBUG are left out.
pub mod Reads
pub mod Answers
pub mod Keeps
pub mod Sending
pub mod Tests
use laser_control.Common.{
  ℕ, ⊤, Bool, true, false, not, Bytes, codes, List, [], ◌++◌, ◌-◌, ltb, ◌==◌, if◌then◌else◌, length,
}
use laser_control.Effects.{
  Action, ◌>>=◌, ◌>>◌, pure, gets, lift, modify, when, on_part, Result, ok, err,
}
use laser_control.Std.Strings.{erase_from}
use laser_control.Util.Trim.{rtrim}
use laser_control.Serial.{Serial}

-- `P` is the type of `m_serial`.
pub record Device (P : Type 0) : Type 0 where
  pub comport : Bytes
  pub baud : ℕ
  pub com_pre : Bytes
  pub com_sfx : Bytes
  pub read_sfx : Bytes
  pub timeout_ms : ℕ
  pub serial : P

-- A call on `m_serial`.
unfoldable pub on_serial : {P A : Type 0} → Action P A → Action (Device P) A
unfolding on_part
on_serial = on_part (λ d. d.serial) (λ p d. record d { serial = p })

-- `Device::Device`.
abbrev pub new_device : {P : Type 0} → Bytes → ℕ → P → Device P
new_device port baud_rate p = record {
  comport = port;
  baud = baud_rate;
  com_pre = [];
  com_sfx = codes "\r";
  read_sfx = [];
  timeout_ms = 500;
  serial = p;
}

-- What `read_cmd` makes of the bytes that `readline` appended to `answer`: whether it succeeds,
-- and the new content of `answer`.
unfoldable pub strip_suffix : Bytes → Bytes → Bytes → Result (Bool × Bytes)
strip_suffix sfx answer line =
    let nbytes = length line in
    let whole = answer ++ line in
    if nbytes == 0
    then ok (false, whole)
    else if ltb nbytes (length sfx)
    then ok (false, whole)
    else if ltb (length whole) (length sfx)
    then ok (true, rtrim whole)
    else elim (erase_from whole (length whole - length sfx)) [
      | ok trimmed ↦ ok (true, trimmed)
      | err e ↦ err e
    ]

module _ ⦃sp : Serial⦄ where
  unfoldable pub is_open : Action (Device sp.Port) Bool
  is_open = gets (λ d. sp.is_open d.serial)

  unfoldable pub close : Action (Device sp.Port) ⊤
  close = on_serial sp.close_port

  -- `Device::~Device`.
  unfoldable pub destroy : Action (Device sp.Port) ⊤
  destroy = do opened ← is_open; when opened close

  unfoldable pub write_cmd : Bytes → Action (Device sp.Port) Bool
  write_cmd cmd = do
    opened ← is_open
    when (not opened) (on_serial sp.open_port)
    on_serial sp.flush_input
    on_serial sp.flush_output
    msg ← gets (λ d. d.com_pre ++ (cmd ++ d.com_sfx))
    written_bytes ← on_serial (sp.write msg)
    pure (written_bytes == length msg)

  unfoldable pub set_timeout_ms : ℕ → Action (Device sp.Port) ⊤
  set_timeout_ms t = on_serial (sp.set_timeout t)

  unfoldable pub read_cmd : Bytes → Action (Device sp.Port) (Bool × Bytes)
  read_cmd answer = do
    sfx ← gets (λ d. d.read_sfx)
    line ← on_serial (sp.readline 0xffff sfx)
    lift (strip_suffix sfx answer line)

  unfoldable pub read_lines : Action (Device sp.Port) (List Bytes)
  read_lines = do sfx ← gets (λ d. d.read_sfx); on_serial (sp.readlines 0xffff sfx)

  unfoldable pub reset_connection : Action (Device sp.Port) ⊤
  reset_connection = do on_serial sp.close_port; on_serial sp.open_port

module _ {P : Type 0} where
  unfoldable pub set_timeout : ℕ → Action (Device P) ⊤
  set_timeout ms = modify (λ d. record d { timeout_ms = ms })

  unfoldable pub get_timeout : Action (Device P) ℕ
  get_timeout = gets (λ d. d.timeout_ms)

  unfoldable pub set_com_prefix : Bytes → Action (Device P) ⊤
  set_com_prefix pre = modify (λ d. record d { com_pre = pre })

  unfoldable pub set_com_suffix : Bytes → Action (Device P) ⊤
  set_com_suffix suf = modify (λ d. record d { com_sfx = suf })

  unfoldable pub set_read_suffix : Bytes → Action (Device P) ⊤
  set_read_suffix suf = modify (λ d. record d { read_sfx = suf })

  unfoldable pub get_port : Action (Device P) Bytes
  get_port = gets (λ d. d.comport)

  unfoldable pub get_baud : Action (Device P) ℕ
  get_baud = gets (λ d. d.baud)
