-- ===== src/Attenuator/Registers.antt =====
-- What `refresh_status` stores for a line of registers.
use laser_control.Common.{
  ℕ, ⊤, not, ◌%◌, ◌^◌, ◌<◌, ◌≡◌, ◌∙◌, refl, inr, List, [], ◌∷◌, ◌++◌, map, arith, Bytes, codes, All,
}
use laser_control.Common.Int.{ℤ, pos, is_zero, to_unsigned}
use laser_control.Effects.{ok, ◌>>=◌}
use laser_control.Std.Strings.{at, substr}
use laser_control.Std.Numbers.{show}
use laser_control.Std.Numbers.RoundTrip.{stoul-show_all, stol-show_all}
use laser_control.Std.Floating.{Floating}
use laser_control.Serial.{Serial}
use laser_control.Util.Tokens.{AllLack, tokenize_string}
use laser_control.Util.Tokens.RoundTrip.{line_of, tokenize_string-line_of}
use laser_control.Util.Tokens.Numbers.{find-show}
use laser_control.Attenuator.{Attenuator, Act}
use laser_control.Attenuator.Port.{ask}
use laser_control.Attenuator.Status.{refresh_status, store_status, signed_field, unsigned_field}

-- The registers in the order of the line; `r7` and `r10` are not read.
abbrev pub register_line : ℕ → ℕ → ℕ → ℕ → ℕ → ℕ → ℕ → ℕ → ℕ → ℕ → ℕ → ℕ → ℕ → List ℕ → List ℕ
register_line r0 r1 r2 r3 r4 r5 r6 r7 r8 r9 r10 r11 r12 more =
    r0 ∷ r1 ∷ r2 ∷ r3 ∷ r4 ∷ r5 ∷ r6 ∷ r7 ∷ r8 ∷ r9 ∷ r10 ∷ r11 ∷ r12 ∷ more

numbers_lack : (ns : List ℕ) → AllLack (codes ";") (map show ns)
numbers_lack [] = tt
numbers_lack (n ∷ ns) = (find-show b';' n (inr (omega arith)), numbers_lack ns)

number_tokens :
    (n : ℕ) (ns : List ℕ)
    → tokenize_string (line_of b';' (map show (n ∷ ns))) (codes ";") ≡ map show (n ∷ ns)
number_tokens n ns = tokenize_string-line_of b';' (show n) (map show ns) (numbers_lack (n ∷ ns))

module _ ⦃sp : Serial⦄ ⦃fl : Floating⦄ where
  abbrev Motor : Type 0
  Motor = Attenuator sp.Port fl.Double

  signed_end :
      (tokens : List Bytes) (i n : ℕ) (store : ℤ → Motor → Motor) (a : Motor)
      → at tokens i ≡ ok (show n)
      → n < 2 ^ 63
      → signed_field tokens i store a ≡ (ok tt, store (pos n) a)
  unfolding signed_field ◌>>=◌
  signed_end tokens i n store a e h = rw (e, stol-show_all n h)

  -- A register is stored before the next one is read.
  signed_next :
      (k : ⊤ → Act ⊤) (tokens : List Bytes) (i n : ℕ) (store : ℤ → Motor → Motor) (a : Motor)
      → at tokens i ≡ ok (show n)
      → n < 2 ^ 63
      → (signed_field tokens i store >>= k) a ≡ k tt (store (pos n) a)
  unfolding ◌>>=◌
  signed_next k tokens i n store a e h = rw (signed_end tokens i n store a e h)

  unsigned_next :
      (k : ⊤ → Act ⊤) (tokens : List Bytes) (i n : ℕ) (store : ℕ → Motor → Motor) (a : Motor)
      → at tokens i ≡ ok (show n)
      → n < 2 ^ 63
      → (unsigned_field tokens i store >>= k) a ≡ k tt (store n a)
  unfolding unsigned_field ◌>>=◌
  unsigned_next k tokens i n store a e h = rw (e, stoul-show_all n (omega arith))

  store_status_lem :
      (r0 r1 r2 r3 r4 r5 r6 r7 r8 r9 r10 r11 r12 : ℕ) (more : List ℕ) (b : Motor)
      → All (λ r. r < 2 ^ 63) (register_line r0 r1 r2 r3 r4 r5 r6 r7 r8 r9 r10 r11 r12 more)
      → store_status (map show (register_line r0 r1 r2 r3 r4 r5 r6 r7 r8 r9 r10 r11 r12 more)) b ≡ (
        ok tt,
        record b {
          op_mode = pos (r0 % 2 ^ 32);
          motor_state = pos (r1 % 2 ^ 32);
          acceleration = r2 % 2 ^ 8;
          deceleration = r3 % 2 ^ 8;
          max_speed = r4 % 2 ^ 32;
          current_move = r5 % 2 ^ 8;
          current_idle = r6 % 2 ^ 8;
          resolution = r8 % 2 ^ 32;
          motor_enabled = not (is_zero (pos r9));
          reset_on_zero = not (is_zero (pos r11));
          report_on_zero = not (is_zero (pos r12));
        },
      )
  unfolding store_status at to_unsigned
  store_status_lem r0 r1 r2 r3 r4 r5 r6 r7 r8 r9 r10 r11 r12 more b h =
      let ts = map show (register_line r0 r1 r2 r3 r4 r5 r6 r7 r8 r9 r10 r11 r12 more) in
      signed_next _ ts 0 r0 _ _ refl (omega arith)
      ∙ signed_next _ ts 1 r1 _ _ refl (omega arith)
      ∙ unsigned_next _ ts 2 r2 _ _ refl (omega arith)
      ∙ unsigned_next _ ts 3 r3 _ _ refl (omega arith)
      ∙ unsigned_next _ ts 4 r4 _ _ refl (omega arith)
      ∙ unsigned_next _ ts 5 r5 _ _ refl (omega arith)
      ∙ unsigned_next _ ts 6 r6 _ _ refl (omega arith)
      ∙ unsigned_next _ ts 8 r8 _ _ refl (omega arith)
      ∙ signed_next _ ts 9 r9 _ _ refl (omega arith)
      ∙ signed_next _ ts 11 r11 _ _ refl (omega arith)
      ∙ signed_end ts 12 r12 _ _ refl (omega arith)

  -- The echo `pc` and a line of registers below 2 ^ 63: the two accelerations and currents are
  -- stored cut to 8 bits, the speed and the three enumerations to 32 bits, and the three flags as
  -- whether they are not 0; two registers are not read.
  pub refresh_status_reply :
      (r0 r1 r2 r3 r4 r5 r6 r7 r8 r9 r10 r11 r12 : ℕ) (more : List ℕ)
      (a b : Attenuator sp.Port fl.Double)
      → ask (codes "pc") "Failed to send get status command" "Failed to read status" a ≡ (
        ok (
            codes "pc"
            ++ line_of b';'
                (map show (register_line r0 r1 r2 r3 r4 r5 r6 r7 r8 r9 r10 r11 r12 more))),
        b,
      )
      → All (λ r. r < 2 ^ 63) (register_line r0 r1 r2 r3 r4 r5 r6 r7 r8 r9 r10 r11 r12 more)
      → refresh_status a ≡ (
        ok tt,
        record b {
          op_mode = pos (r0 % 2 ^ 32);
          motor_state = pos (r1 % 2 ^ 32);
          acceleration = r2 % 2 ^ 8;
          deceleration = r3 % 2 ^ 8;
          max_speed = r4 % 2 ^ 32;
          current_move = r5 % 2 ^ 8;
          current_idle = r6 % 2 ^ 8;
          resolution = r8 % 2 ^ 32;
          motor_enabled = not (is_zero (pos r9));
          reset_on_zero = not (is_zero (pos r11));
          report_on_zero = not (is_zero (pos r12));
        },
      )
  unfolding refresh_status substr ◌>>=◌
  refresh_status_reply r0 r1 r2 r3 r4 r5 r6 r7 r8 r9 r10 r11 r12 more a b e h = ground (
    arith,
    e,
    number_tokens r0 (r1 ∷ r2 ∷ r3 ∷ r4 ∷ r5 ∷ r6 ∷ r7 ∷ r8 ∷ r9 ∷ r10 ∷ r11 ∷ r12 ∷ more),
    store_status_lem r0 r1 r2 r3 r4 r5 r6 r7 r8 r9 r10 r11 r12 more b h,
  )
