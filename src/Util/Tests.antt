-- ===== src/Util/Tests.antt =====
-- Examples of the theorems about the text helpers.
use laser_control.Common.{
  ◌≡◌, refl, ◌≢◌, some, suc, false, [], ◌∷◌, ◌++◌, arith, Bytes, codes, length, All,
}
use laser_control.Std.Strings
use laser_control.Std.Numbers.{show}
use laser_control.Util.Tokens.{
  tokenize_loop, tokenize_string, joined, AllLack, tokenize_string_total,
}
use laser_control.Util.Tokens.RoundTrip.{line_of, tokenize_string-line_of}
use laser_control.Util.Trim.{trim, trim_lem, IsWhite, HeadClean, LastClean}
use laser_control.Util.Escape.{escape, unescape, escape_lem}
use laser_control.Util.MapText.{serial_map, commas, serial_map_lem}

tokenize_string_total_example :
    (tokenize_loop (suc (length (codes "a  b "))) (codes " ") (codes "a  b ") []
      ≡ some (tokenize_string (codes "a  b ") (codes " ")))
    × (joined (codes " ") (tokenize_string (codes "a  b ") (codes " "))
        ≡ codes "a  b " ++ codes " ")
    × AllLack (codes " ") (tokenize_string (codes "a  b ") (codes " "))
tokenize_string_total_example = tokenize_string_total b' ' [] (codes "a  b ")

tokenize_string-line_of_example :
    tokenize_string (line_of b';' (codes "0" ∷ codes "-12" ∷ [])) (codes ";")
    ≡ codes "0" ∷ codes "-12" ∷ []
unfolding laser_control.Std.Strings.find
tokenize_string-line_of_example =
    tokenize_string-line_of b';' (codes "0") (codes "-12" ∷ []) (refl, (refl, tt))

trim_lem_example :
    (pre : Bytes) × (post : Bytes) × (codes " a b\r\n" ≡ pre ++ (trim (codes " a b\r\n") ++ post))
    × All IsWhite pre
    × All IsWhite post
    × HeadClean (trim (codes " a b\r\n"))
    × LastClean (trim (codes " a b\r\n"))
trim_lem_example = trim_lem (codes " a b\r\n")

-- The commands that the devices send have neither zero bytes nor backslashes.
escape_lem_example :
    (unescape false (escape (codes "a\n")) ≡ codes "a\n")
    × All (λ c. (c ≢ 10) × (c ≢ 13) × (c ≢ 9)) (escape (codes "a\n"))
escape_lem_example =
    escape_lem (codes "a\n") ((ground arith, ground arith), ((ground arith, ground arith), tt))

serial_map_lem_example :
    (serial_map show ((1, codes "a") ∷ [])
      ≡ codes "{\""
        ++ (show 1
            ++ (codes "\":\"" ++ (codes "a" ++ (codes "\"" ++ (commas show [] ++ codes "}"))))))
    × (serial_map show [] ≡ codes "}")
serial_map_lem_example = serial_map_lem show 1 (codes "a") []
