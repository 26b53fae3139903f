-- ===== src/Std/Numbers.antt =====
-- Numbers in text: the decimal output of a stream, and `stoul`, `stol` and `stoi`. `unsigned long`
-- has 64 bits.
pub mod RoundTrip
pub mod Width
pub mod Auto
use laser_control.Common.{
  ℕ, zero, suc, ◌+◌, ◌-◌, ◌*◌, ◌/◌, ◌%◌, ◌^◌, Bool, true, false, ◌&&◌, ◌||◌, Option, none, some, [],
  ◌∷◌, ◌++◌, Bytes, ltb, leb, ◌==◌, if◌then◌else◌, length, replicate,
}
use laser_control.Common.Int.{ℤ, pos, negsuc}
use laser_control.Effects.{Result, ok, err, invalid_argument, out_of_range}

-- The digits of `n` before `out`; the fuel bounds their number.
unfoldable pub digits : ℕ → ℕ → Bytes → Bytes
digits zero n out = out
digits (suc f) n out =
    let longer = digits f (n / 10) ((b'0' + n % 10) ∷ out) in
    if ltb n 10 then (b'0' + n) ∷ out else longer

-- `os << n` for an unsigned and for a signed number.
unfoldable pub show : ℕ → Bytes
unfolding digits
show n = digits (suc n) n []

unfoldable pub show_ℤ : ℤ → Bytes
unfolding show
show_ℤ (pos n) = show n
show_ℤ (negsuc n) = b'-' ∷ show (suc n)

-- `os << std::setfill('0') << std::setw(3) << n`.
unfoldable pub show_width3 : ℕ → Bytes
unfolding show
show_width3 n = replicate (3 - length (show n)) b'0' ++ show n

-- `isspace` in the C locale.
abbrev pub is_space : ℕ → Bool
is_space c = c == b' ' || (leb 9 c && leb c 13)

-- The value of a digit or letter in base 36, and whether it counts in the base at hand.
abbrev pub digit_value : ℕ → Option ℕ
digit_value c =
    if leb b'0' c && leb c b'9'
    then some (c - b'0')
    else if leb b'a' c && leb c b'z'
    then some (c - b'a' + 10)
    else if leb b'A' c && leb c b'Z'
    then some (c - b'A' + 10)
    else none

pub digit : ℕ → ℕ → Option ℕ
digit base c = elim (digit_value c) [ some d ↦ if ltb d base then some d else none | none ↦ none ]

-- The number that the leading digits spell behind `acc`.
accumulate : ℕ → ℕ → Bytes → ℕ
accumulate base acc [] = acc
accumulate base acc (c ∷ s) = elim (digit base c) [
  | some d ↦ accumulate base (acc * base + d) s
  | none ↦ acc
]

skip_space : Bytes → Bytes
skip_space [] = []
skip_space (c ∷ s) = if is_space c then skip_space s else c ∷ s

-- The magnitude, `none` if there is no digit.
pub magnitude : ℕ → Bytes → Option ℕ
magnitude base [] = none
magnitude base (c ∷ s) = elim (digit base c) [ some d ↦ some (accumulate base d s) | none ↦ none ]

-- In base 16 a prefix `0x` is passed over if a digit follows it.
pub skip_prefix : ℕ → Bytes → Bytes
skip_prefix base (z ∷ x ∷ s) = elim (magnitude base s) [
  | some _ ↦ if base == 16 && (z == b'0' && (x == b'x' || x == b'X')) then s else z ∷ x ∷ s
  | none ↦ z ∷ x ∷ s
]
skip_prefix base s = s

-- The conversion that the three share: whether there is a minus sign, and the magnitude.
signed_part : ℕ → Bytes → Bool × Option ℕ
signed_part base [] = (false, none)
signed_part base (c ∷ s) =
    if c == b'-'
    then (true, magnitude base (skip_prefix base s))
    else if c == b'+'
    then (false, magnitude base (skip_prefix base s))
    else (false, magnitude base (skip_prefix base (c ∷ s)))

strto : ℕ → Bytes → Bool × Option ℕ
strto base s = signed_part base (skip_space s)

-- A minus sign negates in `unsigned long`.
abbrev as_unsigned : Bool × Option ℕ → Result ℕ
as_unsigned (minus, none) = err invalid_argument
as_unsigned (minus, some v) =
    if ltb (2 ^ 64 - 1) v then err out_of_range else ok (if minus then (2 ^ 64 - v) % 2 ^ 64 else v)

-- `half` is half the number of values of the type.
abbrev as_signed : ℕ → Bool × Option ℕ → Result ℤ
as_signed half (minus, none) = err invalid_argument
as_signed half (true, some zero) = ok (pos 0)
as_signed half (true, some (suc v)) = if ltb v half then ok (negsuc v) else err out_of_range
as_signed half (false, some v) = if ltb v half then ok (pos v) else err out_of_range

unfoldable pub stoul_base : ℕ → Bytes → Result ℕ
unfolding digit accumulate skip_space magnitude skip_prefix signed_part strto
stoul_base base s = as_unsigned (strto base s)

unfoldable pub stoul : Bytes → Result ℕ
unfolding stoul_base
stoul s = stoul_base 10 s

unfoldable pub stol : Bytes → Result ℤ
unfolding digit accumulate skip_space magnitude skip_prefix signed_part strto
stol s = as_signed (2 ^ 63) (strto 10 s)

unfoldable pub stoi : Bytes → Result ℤ
unfolding digit accumulate skip_space magnitude skip_prefix signed_part strto
stoi s = as_signed (2 ^ 31) (strto 10 s)
