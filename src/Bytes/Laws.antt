-- ===== src/Bytes/Laws.antt =====
-- Laws of the byte encodings.
use tr_infer.Prelude.{ℕ, zero, suc, ◌*◌, ◌/◌, ◌%◌, ◌<◌, ◌≡◌, refl, ap, some, arith, length, All}
use tr_infer.Bytes.{to_le, from_le, hex_digit, digit_value, from_hex_pair}

-- The number of values of a `w`-byte integer.
abbrev pub capacity : ℕ → ℕ
capacity zero = 1
capacity (suc w) = 256 * capacity w

pub length-to_le : (w n : ℕ) → length (to_le w n) ≡ w
unfolding to_le
length-to_le zero n = refl
length-to_le (suc w) n = ap suc (length-to_le w (n / 256))

pub to_le-All : (w n : ℕ) → All (λ b. b < 256) (to_le w n)
unfolding to_le
to_le-All zero n = tt
to_le-All (suc w) n = (omega arith, to_le-All w (n / 256))

pub from_le-to_le : (w n : ℕ) → n < capacity w → from_le (to_le w n) ≡ n
unfolding to_le from_le
from_le-to_le zero n h = omega arith
from_le-to_le (suc w) n h = omega (arith, from_le-to_le w (n / 256) (omega arith))

pub from_hex_pair-hex_digit :
    (b : ℕ) → b < 256 → from_hex_pair (hex_digit (b / 16)) (hex_digit (b % 16)) ≡ some b
unfolding from_hex_pair hex_digit digit_value
from_hex_pair-hex_digit b h = ground arith
