-- ===== src/Bytes.antt =====
-- Byte strings: little-endian integers and the hexadecimal digits of the standard library.
pub mod Laws
use tr_infer.Prelude.{
  ℕ_discrete, ◌||◌, ℕ, zero, suc, ◌+◌, ◌-◌, ◌*◌, ◌/◌, ◌%◌, Bool, ◌&&◌, Option, none, some, List, [],
  ◌∷◌, leb, ltb, ◌==◌, if◌then◌else◌,
}

-- `to_le_bytes` of a `w`-byte integer.
unfoldable pub to_le : ℕ → ℕ → List ℕ
to_le zero n = []
to_le (suc w) n = (n % 256) ∷ to_le w (n / 256)

-- `from_le_bytes`.
unfoldable pub from_le : List ℕ → ℕ
from_le [] = 0
from_le (b ∷ bs) = b + 256 * from_le bs

-- A digit of `{:02x}`.
unfoldable pub hex_digit : ℕ → ℕ
hex_digit d = if ltb d 10 then 48 + d else 87 + d

-- `char::to_digit(16)` on a byte.
unfoldable pub digit_value : ℕ → Option ℕ
digit_value c =
    if leb 48 c && leb c 57
    then some (c - 48)
    else if leb 97 c && leb c 102
    then some (c - 87)
    else if leb 65 c && leb c 70
    then some (c - 55)
    else none

-- The value of two digits, if both are digits.
unfoldable pub two_digits : Option ℕ → Option ℕ → Option ℕ
two_digits none e = none
two_digits (some d) none = none
two_digits (some d) (some e) = some (16 * d + e)

-- `u8::from_str_radix(s, 16)` on a string of the two bytes `a`, `b`: a leading `+` is accepted.
unfoldable pub from_hex_pair : ℕ → ℕ → Option ℕ
unfolding digit_value two_digits
from_hex_pair a b = if a == b'+' then digit_value b else two_digits (digit_value a) (digit_value b)

unfoldable pub bytes-discrete : Discrete (List ℕ)
bytes-discrete = hlevel ℕ_discrete

-- The order of byte strings, and of `String`.
unfoldable pub bytes_less : List ℕ → List ℕ → Bool
bytes_less xs [] = Bool.false
bytes_less [] (y ∷ ys) = Bool.true
bytes_less (x ∷ xs) (y ∷ ys) = let rest = bytes_less xs ys in ltb x y || (x == y && rest)
