-- ===== src/Format/Sha256.antt =====
-- crates/tr-format/src/manifest.rs: `sha256`. A word is a number below 2^32; the array `w` is a
-- list of 64 words, the arrays `h` and `a` are records.
pub mod Padding
use Prim.Native.Nat.{bit_and, bit_xor}
use mathlib.Core.List.{reverse}
use tr_infer.Prelude.{
  ℕ, zero, suc, ◌+◌, ◌-◌, ◌*◌, ◌/◌, ◌%◌, ◌^◌, Option, none, some, List, [], ◌∷◌, ◌++◌, length, take,
  drop, set, get_elem?, replicate, ◌==◌, if◌then◌else◌, mul64,
}
use tr_infer.Bytes.{to_le}

abbrev add32 : ℕ → ℕ → ℕ
add32 a b = (a + b) % 4294967296

-- `rotate_right(n)`: what is shifted out comes back at the top.
abbrev rotate_right : ℕ → ℕ → ℕ
rotate_right x n = x / 2 ^ n + x % 2 ^ n * 2 ^ (32 - n)

abbrev shr : ℕ → ℕ → ℕ
shr x n = x / 2 ^ n

abbrev not32 : ℕ → ℕ
not32 x = 4294967295 - x

abbrev xor3 : ℕ → ℕ → ℕ → ℕ
xor3 a b c = bit_xor (bit_xor a b) c

-- `to_be_bytes`
abbrev pub to_be : ℕ → ℕ → List ℕ
to_be w n = reverse (to_le w n)

-- `K`
abbrev round_constants : List ℕ
round_constants =
    0x428a2f98 ∷ 0x71374491 ∷ 0xb5c0fbcf ∷ 0xe9b5dba5 ∷ 0x3956c25b ∷ 0x59f111f1 ∷ 0x923f82a4
    ∷ 0xab1c5ed5 ∷ 0xd807aa98 ∷ 0x12835b01 ∷ 0x243185be ∷ 0x550c7dc3 ∷ 0x72be5d74 ∷ 0x80deb1fe
    ∷ 0x9bdc06a7 ∷ 0xc19bf174 ∷ 0xe49b69c1 ∷ 0xefbe4786 ∷ 0x0fc19dc6 ∷ 0x240ca1cc ∷ 0x2de92c6f
    ∷ 0x4a7484aa ∷ 0x5cb0a9dc ∷ 0x76f988da ∷ 0x983e5152 ∷ 0xa831c66d ∷ 0xb00327c8 ∷ 0xbf597fc7
    ∷ 0xc6e00bf3 ∷ 0xd5a79147 ∷ 0x06ca6351 ∷ 0x14292967 ∷ 0x27b70a85 ∷ 0x2e1b2138 ∷ 0x4d2c6dfc
    ∷ 0x53380d13 ∷ 0x650a7354 ∷ 0x766a0abb ∷ 0x81c2c92e ∷ 0x92722c85 ∷ 0xa2bfe8a1 ∷ 0xa81a664b
    ∷ 0xc24b8b70 ∷ 0xc76c51a3 ∷ 0xd192e819 ∷ 0xd6990624 ∷ 0xf40e3585 ∷ 0x106aa070 ∷ 0x19a4c116
    ∷ 0x1e376c08 ∷ 0x2748774c ∷ 0x34b0bcb5 ∷ 0x391c0cb3 ∷ 0x4ed8aa4a ∷ 0x5b9cca4f ∷ 0x682e6ff3
    ∷ 0x748f82ee ∷ 0x78a5636f ∷ 0x84c87814 ∷ 0x8cc70208 ∷ 0x90befffa ∷ 0xa4506ceb ∷ 0xbef9a3f7
    ∷ 0xc67178f2 ∷ []

-- The eight words of `h` and `a`.
pub record Words : Type 0 where
  pub w0 : ℕ
  pub w1 : ℕ
  pub w2 : ℕ
  pub w3 : ℕ
  pub w4 : ℕ
  pub w5 : ℕ
  pub w6 : ℕ
  pub w7 : ℕ

abbrev initial : Words
initial = record {
  w0 = 0x6a09e667;
  w1 = 0xbb67ae85;
  w2 = 0x3c6ef372;
  w3 = 0xa54ff53a;
  w4 = 0x510e527f;
  w5 = 0x9b05688c;
  w6 = 0x1f83d9ab;
  w7 = 0x5be0cd19;
}

-- `while msg.len() % 64 != 56 { msg.push(0) }`, with fuel; `none` says that the fuel ran out.
unfoldable pub push_zeros : ℕ → List ℕ → Option (List ℕ)
push_zeros zero msg = none
push_zeros (suc f) msg =
    let rest = push_zeros f (msg ++ (0 ∷ [])) in if length msg % 64 == 56 then some msg else rest

-- The number of bits behind the padding.
abbrev with_length : ℕ → Option (List ℕ) → Option (List ℕ)
with_length bitlen none = none
with_length bitlen (some msg) = some (msg ++ to_be 8 bitlen)

-- `msg` before the loop over its chunks; 64 rounds are enough.
unfoldable pub padded : List ℕ → Option (List ℕ)
unfolding push_zeros
padded input = with_length (mul64 (length input) 8) (push_zeros 64 (input ++ (0x80 ∷ [])))

abbrev get_or_zero : Option ℕ → ℕ
get_or_zero none = 0
get_or_zero (some x) = x

-- An index in range.
abbrev word : List ℕ → ℕ → ℕ
word l i = get_or_zero (get_elem? l i)

-- `u32::from_be_bytes` of the four bytes from `4 * i` on.
abbrev chunk_word : List ℕ → ℕ → ℕ
chunk_word chunk i =
    ((word chunk (4 * i) * 256 + word chunk (4 * i + 1)) * 256 + word chunk (4 * i + 2)) * 256
    + word chunk (4 * i + 3)

-- `for i in 0..16`, with the rounds that are left.
load : ℕ → ℕ → List ℕ → List ℕ → List ℕ
load zero i chunk w = w
load (suc n) i chunk w = load n (i + 1) chunk (set w i (chunk_word chunk i))

-- `w[i]` for `i` from 16 on.
abbrev next_word : List ℕ → ℕ → ℕ
next_word w i =
    let x = word w (i - 15) in
    let y = word w (i - 2) in
    let s0 = xor3 (rotate_right x 7) (rotate_right x 18) (shr x 3) in
    let s1 = xor3 (rotate_right y 17) (rotate_right y 19) (shr y 10) in
    add32 (add32 (add32 (word w (i - 16)) s0) (word w (i - 7))) s1

-- `for i in 16..64`
extend : ℕ → ℕ → List ℕ → List ℕ
extend zero i w = w
extend (suc n) i w = extend n (i + 1) (set w i (next_word w i))

schedule : List ℕ → List ℕ
unfolding load extend
schedule chunk = extend 48 16 (load 16 0 chunk (replicate 64 0))

-- One round of `for i in 0..64`, with `K[i]` and `w[i]`.
abbrev round : ℕ → ℕ → Words → Words
round k w a =
    let s1 = xor3 (rotate_right a.w4 6) (rotate_right a.w4 11) (rotate_right a.w4 25) in
    let ch = bit_xor (bit_and a.w4 a.w5) (bit_and (not32 a.w4) a.w6) in
    let t1 = add32 (add32 (add32 (add32 a.w7 s1) ch) k) w in
    let s0 = xor3 (rotate_right a.w0 2) (rotate_right a.w0 13) (rotate_right a.w0 22) in
    let maj = xor3 (bit_and a.w0 a.w1) (bit_and a.w0 a.w2) (bit_and a.w1 a.w2) in
    let t2 = add32 s0 maj in
    record {
      w0 = add32 t1 t2;
      w1 = a.w0;
      w2 = a.w1;
      w3 = a.w2;
      w4 = add32 a.w3 t1;
      w5 = a.w4;
      w6 = a.w5;
      w7 = a.w6;
    }

rounds : List ℕ → List ℕ → Words → Words
rounds [] ws a = a
rounds (k ∷ ks) [] a = a
rounds (k ∷ ks) (w ∷ ws) a = rounds ks ws (round k w a)

abbrev add_words : Words → Words → Words
add_words h a = record {
  w0 = add32 h.w0 a.w0;
  w1 = add32 h.w1 a.w1;
  w2 = add32 h.w2 a.w2;
  w3 = add32 h.w3 a.w3;
  w4 = add32 h.w4 a.w4;
  w5 = add32 h.w5 a.w5;
  w6 = add32 h.w6 a.w6;
  w7 = add32 h.w7 a.w7;
}

compress : List ℕ → Words → Words
unfolding schedule rounds
compress chunk h = add_words h (rounds round_constants (schedule chunk) h)

-- `for chunk in msg.chunks(64)`, with the number of chunks that are left.
digest_chunks : ℕ → List ℕ → Words → Words
unfolding compress
digest_chunks zero msg h = h
digest_chunks (suc n) msg h = digest_chunks n (drop 64 msg) (compress (take 64 msg) h)

abbrev output : Words → List ℕ
output h =
    to_be 4 h.w0
    ++ (to_be 4 h.w1
        ++ (to_be 4 h.w2
            ++ (to_be 4 h.w3
                ++ (to_be 4 h.w4 ++ (to_be 4 h.w5 ++ (to_be 4 h.w6 ++ to_be 4 h.w7))))))

abbrev digest_of : Option (List ℕ) → List ℕ
digest_of none = []
digest_of (some msg) = output (digest_chunks ((length msg + 63) / 64) msg initial)

-- `sha256`; `padded` always gives a message.
unfoldable pub sha256 : List ℕ → List ℕ
unfolding padded digest_chunks
sha256 input = digest_of (padded input)
