-- ===== src/Util/MapText.antt =====
-- `serial_map` and the two `serialize_map`. A `std::map` is its entries in the order of the keys.
use laser_control.Common.{
  ℕ, ◌-◌, ◌≡◌, refl, List, [], ◌∷◌, ◌++◌, append_assoc, arith, Bytes, codes, length, take, ◌∙◌,
  length-append, take_prefix,
}
use laser_control.Common.Int.{ℤ}
use laser_control.Std.Numbers.{show, show_ℤ}

module _ {T : Type 0} (show_key : T → Bytes) where
  -- `"key":"value",`
  entry : T × Bytes → Bytes
  entry (k, v) = codes "\"" ++ (show_key k ++ (codes "\":\"" ++ (v ++ codes "\",")))

  write_entries : List (T × Bytes) → Bytes → Bytes
  write_entries [] os = os
  write_entries (e ∷ m) os = write_entries m (os ++ entry e)

  -- The stream goes back by one byte, and the brace is written over the last one.
  overwrite_last : Bytes → Bytes → Bytes
  overwrite_last os text = take (length os - 1) os ++ text

  pub serial_map : List (T × Bytes) → Bytes
  serial_map m = overwrite_last (write_entries m (codes "{")) (codes "}")

-- The entries with a comma before each.
abbrev pub commas : {T : Type 0} → (T → Bytes) → List (T × Bytes) → Bytes
commas show_key [] = []
commas show_key ((k, v) ∷ m) =
    codes ",\"" ++ (show_key k ++ (codes "\":\"" ++ (v ++ (codes "\"" ++ commas show_key m))))

unfoldable pub serialize_map_u16 : List (ℕ × Bytes) → Bytes
unfolding serial_map overwrite_last write_entries entry
serialize_map_u16 = serial_map show

unfoldable pub serialize_map_i16 : List (ℤ × Bytes) → Bytes
unfolding serial_map overwrite_last write_entries entry
serialize_map_i16 = serial_map show_ℤ

module _ {T : Type 0} (show_key : T → Bytes) where
  entries_commas :
      (m : List (T × Bytes)) (os : Bytes)
      → write_entries show_key m (os ++ codes ",") ≡ os ++ (commas show_key m ++ codes ",")
  unfolding write_entries entry
  entries_commas [] os = refl
  entries_commas ((k, v) ∷ m) os =
      let first : Bytes = codes ",\"" ++ (show_key k ++ (codes "\":\"" ++ (v ++ codes "\""))) in
      let regroup : (os ++ codes ",") ++ entry show_key (k, v) ≡ (os ++ first) ++ codes "," =
        simp append_assoc in
      rw regroup (entries_commas m (os ++ first) ∙ simp append_assoc)

  take_but_last : (os : Bytes) (c : ℕ) → take (length (os ++ c ∷ []) - 1) (os ++ c ∷ []) ≡ os
  take_but_last os c =
      let n : length (os ++ c ∷ []) - 1 ≡ length os = omega (arith, length-append os (c ∷ [])) in
      rw n (take_prefix (length os) os (c ∷ []) refl)

  -- The text of a map with an entry is an opening brace, the entries, each with key and value in
  -- quotes as they are, with commas between them, and a closing brace; the text of the empty map
  -- lacks the opening brace, which the closing one overwrites.
  pub serial_map_lem :
      (k : T) (v : Bytes) (m : List (T × Bytes))
      → (serial_map show_key ((k, v) ∷ m)
          ≡ codes "{\""
            ++ (show_key k
                ++ (codes "\":\"" ++ (v ++ (codes "\"" ++ (commas show_key m ++ codes "}"))))))
        × (serial_map show_key [] ≡ codes "}")
  unfolding serial_map overwrite_last write_entries entry
  serial_map_lem k v m =
      let first : Bytes = codes "{\"" ++ (show_key k ++ (codes "\":\"" ++ (v ++ codes "\""))) in
      let start : codes "{" ++ entry show_key (k, v) ≡ first ++ codes "," = simp append_assoc in
      let all : write_entries show_key m (codes "{" ++ entry show_key (k, v))
          ≡ (first ++ commas show_key m) ++ codes "," =
        rw start (entries_commas m first ∙ simp append_assoc) in
      (rw (all, take_but_last (first ++ commas show_key m) b',') (simp append_assoc), refl)
