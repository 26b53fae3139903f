-- ===== src/Std/Numbers/Width.antt =====
-- The print of a number below 1000 on three places.
use laser_control.Common.{ℕ, zero, suc, ◌+◌, ◌/◌, ◌%◌, ◌<◌, ◌≡◌, [], ◌∷◌, arith}
use laser_control.Std.Numbers.{digits, show, show_width3}

three_digits : (f n : ℕ) → n < suc f → n < 1000 → digits (suc f) n [] ≡ digits 3 n []
unfolding digits
three_digits zero n h k = ground arith
three_digits (suc zero) n h k = ground arith
three_digits (suc (suc f)) n h k = ground arith

-- Below 1000 the padded print is the three decimal digits.
pub show_width3_lem :
    (n : ℕ)
    → n < 1000
    → show_width3 n ≡ (b'0' + n / 100) ∷ (b'0' + n / 10 % 10) ∷ (b'0' + n % 10) ∷ []
unfolding show_width3 show
show_width3_lem n h = rw (three_digits n n (omega arith) h) (unfold digits in ground arith)

pub show_digit : (b : ℕ) → b < 10 → show b ≡ (b'0' + b) ∷ []
unfolding show digits
show_digit b h = ground arith
