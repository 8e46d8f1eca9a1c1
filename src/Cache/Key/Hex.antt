-- ===== src/Cache/Key/Hex.antt =====
-- The text form of a key.
use tr_infer.Prelude.{ℕ, ◌*◌, ◌/◌, ◌<◌, ◌≡◌, refl, List, [], ◌∷◌, arith, length, All, false}
use tr_infer.Bytes.{hex_digit}
use tr_infer.Bytes.Laws.{from_hex_pair-hex_digit}
use tr_infer.Cache.Key.{
  PrefixKey, parsed, hex_bytes, hex, is_continuation, starts_inside, parse_pairs, parse,
}

-- Sixteen bytes.
pub record IsKey (k : PrefixKey) : Type 0 where
  pub sixteen : length k.bytes ≡ 16
  pub in_range : All (λ b. b < 256) k.bytes

length-hex_bytes : (bs : List ℕ) → length (hex_bytes bs) ≡ 2 * length bs
unfolding hex_bytes
length-hex_bytes [] = refl
length-hex_bytes (b ∷ bs) = omega (arith, length-hex_bytes bs)

hex_digit_ascii : (d : ℕ) → d < 16 → is_continuation (hex_digit d) ≡ false
unfolding is_continuation hex_digit
hex_digit_ascii d h = ground arith

hex_bytes_ascii : (bs : List ℕ) → All (λ b. b < 256) bs → starts_inside (hex_bytes bs) ≡ false
unfolding starts_inside hex_bytes
hex_bytes_ascii [] h = refl
hex_bytes_ascii (b ∷ bs) h = hex_digit_ascii (b / 16) (omega arith)

parse_pairs-hex_bytes :
    (bs : List ℕ)
    → All (λ b. b < 256) bs
    → parse_pairs (hex_bytes bs) ≡ parsed (record { bytes = bs })
unfolding parse_pairs hex_bytes
parse_pairs-hex_bytes [] h = refl
parse_pairs-hex_bytes (b ∷ bs) h = rw (
  hex_digit_ascii (b / 16) (omega arith),
  hex_bytes_ascii bs h.1,
  from_hex_pair-hex_digit b h.0,
  parse_pairs-hex_bytes bs h.1,
)

-- `parse` reads back what `hex` writes, for every key of sixteen bytes.
pub parse-hex : (k : PrefixKey) → IsKey k → parse (hex k) ≡ parsed k
unfolding parse hex
parse-hex k h =
    let e : length (hex_bytes k.bytes) ≡ 32 = omega (arith, length-hex_bytes k.bytes, h.sixteen) in
    rw (e, parse_pairs-hex_bytes k.bytes h.in_range)
