-- ===== src/Util/Ports.antt =====
-- `find_port`. The ports that `serial::list_ports` reports are an argument.
use laser_control.Common.{
  ℕ, ◌≡◌, refl, Bool, true, false, inl, inr, Option, none, some, List, [], ◌∷◌, ◌++◌, Bytes,
  if◌then◌else◌, Bool-cases,
}
use laser_control.Std.Strings.{find}

-- `serial::PortInfo`.
pub record PortInfo : Type 0 where
  pub port : Bytes
  pub description : Bytes
  pub hardware_id : Bytes

abbrev found : Option ℕ → Bool
found none = false
found (some p) = true

-- The chain of tests in the loop: description, port, hardware id.
pub matches : Bytes → PortInfo → Bool
matches param d =
    if found (find param d.description)
    then true
    else if found (find param d.port)
    then true
    else if found (find param d.hardware_id)
    then true
    else false

collect : Bytes → List PortInfo → List PortInfo → List PortInfo
collect param [] devices_match = devices_match
collect param (d ∷ devices) devices_match =
    collect param devices (if matches param d then devices_match ++ d ∷ [] else devices_match)

-- The first match, whether there is one or more; the empty text if there is none.
abbrev first_port : List PortInfo → Bytes
first_port [] = []
first_port (d ∷ ds) = d.port

unfoldable pub find_port : List PortInfo → Bytes → Bytes
unfolding collect matches
find_port devices_found param = first_port (collect param devices_found [])

-- What the caller may rely on: no device matches and the answer is empty, or it is the port of
-- the first device that matches.
abbrev FirstMatch : Bytes → List PortInfo → Bytes → Type 0
FirstMatch param [] answer = answer ≡ []
FirstMatch param (d ∷ ds) answer =
    if matches param d then answer ≡ d.port else FirstMatch param ds answer

collect_first :
    (param : Bytes) (ds : List PortInfo) (m : PortInfo) (ms : List PortInfo)
    → first_port (collect param ds (m ∷ ms)) ≡ m.port
unfolding collect
collect_first param [] m ms = refl
collect_first param (d ∷ ds) m ms = elim (Bool-cases (matches param d)) [
  | inl e ↦ rw e (collect_first param ds m (ms ++ d ∷ []))
  | inr e ↦ rw e (collect_first param ds m ms)
]

-- `find_port` answers with the port of the first device, in the order of the list, in which the
-- text occurs in the description, the port or the hardware id, and with no text if there is none.
find_port_first : (param : Bytes) (ds : List PortInfo) → FirstMatch param ds (find_port ds param)
unfolding find_port collect
find_port_first param [] = refl
find_port_first param (d ∷ ds) = elim (Bool-cases (matches param d)) [
  | inl e ↦ rw e (collect_first param ds d [])
  | inr e ↦ rw e (find_port_first param ds)
]
