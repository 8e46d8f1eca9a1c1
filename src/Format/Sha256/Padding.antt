-- ===== src/Format/Sha256/Padding.antt =====
-- The padding of a message, and the size of a digest.
use mathlib.Core.List.{reverse, reverse-reverse}
use tr_infer.Prelude.{
  ℕ, zero, suc, ◌+◌, ◌-◌, ◌%◌, ◌<◌, ◌≡◌, refl, sym, ap, ◌∙◌, some, some_injective, List, [], ◌∷◌,
  ◌++◌, append_assoc, append-nil, length, take, drop, replicate, length-append, length-replicate,
  length-reverse, take-append, drop-append, arith, ◌==◌, mul64, inl, inr, Bool-cases, ==_iff,
}
use tr_infer.Bytes.{to_le, from_le}
use tr_infer.Bytes.Laws.{length-to_le, from_le-to_le}
use tr_infer.Format.Sha256.{to_be, push_zeros, padded, sha256, Words, output}

length-to_be : (w n : ℕ) → length (to_be w n) ≡ w
length-to_be w n = length-reverse (to_le w n) ∙ length-to_le w n

-- The number of zeros that are missing.
abbrev missing : ℕ → ℕ
missing n = (120 - n % 64) % 64

push_zeros_lem :
    (f : ℕ) (msg : List ℕ)
    → missing (length msg) < f
    → push_zeros f msg ≡ some (msg ++ replicate (missing (length msg)) 0)
unfolding push_zeros
push_zeros_lem zero msg h = elim h [ ]
push_zeros_lem (suc f) msg h = elim (Bool-cases (length msg % 64 == 56)) [
  | inl done ↦
      let none_left : missing (length msg) ≡ 0 =
        omega (arith, (==_iff (length msg % 64) 56).0 done) in
      rw (done, none_left, append-nil msg)
  | inr more ↦
      let longer : length (msg ++ (0 ∷ [])) ≡ length msg + 1 = length-append msg (0 ∷ []) in
      let one_more : missing (length msg) ≡ suc (missing (length (msg ++ (0 ∷ [])))) =
        ground (arith, longer) in
      rw (more, one_more)
        (push_zeros_lem f (msg ++ (0 ∷ [])) (omega arith) ∙ ap some (append_assoc msg (0 ∷ []) _))
]

abbrev zeros : List ℕ → List ℕ
zeros input = replicate (missing (length input + 1)) 0

padded_lem :
    (input : List ℕ)
    → padded input ≡ some (input ++ (0x80 ∷ zeros input ++ to_be 8 (mul64 (length input) 8)))
unfolding padded
padded_lem input =
    let longer : length (input ++ (0x80 ∷ [])) ≡ length input + 1 =
      length-append input (0x80 ∷ []) in
    rw (push_zeros_lem 64 (input ++ (0x80 ∷ [])) (omega arith), longer)
      (ap some
        (append_assoc (input ++ (0x80 ∷ [])) (zeros input) _ ∙ append_assoc input (0x80 ∷ []) _))

front_size : (input : List ℕ) → length (input ++ (0x80 ∷ zeros input)) % 64 ≡ 56
front_size input = omega (
  arith,
  length-append {0} input (0x80 ∷ zeros input),
  length-replicate {A = ℕ} (missing (length input + 1)) 0,
)

-- The message before the loop over its chunks is made of whole chunks and begins with the input,
-- and the padding is less than 73 bytes.
pub padded_size :
    (input : List ℕ)
    → (msg : List ℕ) × (padded input ≡ some msg)
      × (length msg % 64 ≡ 0)
      × (take (length input) msg ≡ input)
      × (length msg < length input + 73)
padded_size input = (
  input ++ (0x80 ∷ zeros input ++ to_be 8 (mul64 (length input) 8)),
  padded_lem input,
  size_lem.0,
  take-append input _ (length input) refl,
  size_lem.1,
)
  where
    size_lem :
        (length (input ++ (0x80 ∷ zeros input ++ to_be 8 (mul64 (length input) 8))) % 64 ≡ 0)
        × (length (input ++ (0x80 ∷ zeros input ++ to_be 8 (mul64 (length input) 8)))
            < length input + 73)
    size_lem = omega (
      arith,
      length-append {0} input (0x80 ∷ zeros input ++ to_be 8 (mul64 (length input) 8)),
      length-append {0} (0x80 ∷ zeros input) (to_be 8 (mul64 (length input) 8)),
      length-replicate {A = ℕ} (missing (length input + 1)) 0,
      length-to_be 8 (mul64 (length input) 8),
    )

from_le-to_be : (n : ℕ) → n < 18446744073709551616 → from_le (reverse (to_be 8 n)) ≡ n
from_le-to_be n h = ap from_le (reverse-reverse (to_le 8 n)) ∙ from_le-to_le 8 n h

abbrev front : List ℕ → List ℕ
front input = input ++ (0x80 ∷ zeros input)

abbrev bits : List ℕ → List ℕ
bits input = to_be 8 (mul64 (length input) 8)

padded-front : (input : List ℕ) → padded input ≡ some (front input ++ bits input)
padded-front input =
    padded_lem input ∙ ap some (sym (append_assoc input (0x80 ∷ zeros input) (bits input)))

length_of_bits :
    (x y : List ℕ)
    → length x < 2305843009213693952
    → length y < 2305843009213693952
    → bits x ≡ bits y
    → length x ≡ length y
length_of_bits x y hx hy e = omega (
  arith,
  ap (λ b. from_le (reverse b)) e,
  from_le-to_be (mul64 (length x) 8) (omega arith),
  from_le-to_be (mul64 (length y) 8) (omega arith),
)

bits_of_message : (x y : List ℕ) → front x ++ bits x ≡ front y ++ bits y → bits x ≡ bits y
bits_of_message x y e =
    let fronts : length (front x) ≡ length (front y) = omega (
      arith,
      ap length e,
      length-append {0} (front x) (bits x),
      length-append {0} (front y) (bits y),
      length-to_be 8 (mul64 (length x) 8),
      length-to_be 8 (mul64 (length y) 8),
    ) in
    sym (drop-append (front x) (bits x) _ refl)
    ∙ ap (drop (length (front x))) e
    ∙ drop-append (front y) (bits y) _ fronts

-- Where the number of bits is below 2^64, no two inputs are padded to one message.
pub padded_injective :
    (x y : List ℕ)
    → length x < 2305843009213693952
    → length y < 2305843009213693952
    → padded x ≡ padded y
    → x ≡ y
padded_injective x y hx hy e =
    let same : front x ++ bits x ≡ front y ++ bits y =
      some_injective (sym (padded-front x) ∙ e ∙ padded-front y) in
    let sizes = length_of_bits x y hx hy (bits_of_message x y same) in
    let messages : x ++ (0x80 ∷ zeros x ++ bits x) ≡ y ++ (0x80 ∷ zeros y ++ bits y) =
      sym (append_assoc x (0x80 ∷ zeros x) (bits x))
      ∙ same
      ∙ append_assoc y (0x80 ∷ zeros y) (bits y) in
    sym (take-append x _ (length x) refl)
    ∙ ap (take (length x)) messages
    ∙ take-append y _ (length x) sizes

length-output : (h : Words) → length (output h) ≡ 32
length-output h = omega (
  arith,
  length-append {0} (to_be 4 h.w0) _,
  length-append {0} (to_be 4 h.w1) _,
  length-append {0} (to_be 4 h.w2) _,
  length-append {0} (to_be 4 h.w3) _,
  length-append {0} (to_be 4 h.w4) _,
  length-append {0} (to_be 4 h.w5) _,
  length-append {0} (to_be 4 h.w6) (to_be 4 h.w7),
  length-to_be 4 h.w0,
  length-to_be 4 h.w1,
  length-to_be 4 h.w2,
  length-to_be 4 h.w3,
  length-to_be 4 h.w4,
  length-to_be 4 h.w5,
  length-to_be 4 h.w6,
  length-to_be 4 h.w7,
)

-- A digest has 32 bytes.
pub length-sha256 : (input : List ℕ) → length (sha256 input) ≡ 32
unfolding sha256
length-sha256 input = rw (padded_lem input) (length-output _)
