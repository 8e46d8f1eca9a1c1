-- ===== src/Format/Tests.antt =====
-- Runs of the pack format.
use tr_infer.Prelude.{ℕ, ◌≡◌, ◌<◌, ◌+◌, ◌%◌, refl, List, [], ◌∷◌, some, length, take, arith}
use tr_infer.Bytes.{to_le}
use tr_infer.Format.Sha256.{padded, sha256}
use tr_infer.Format.Sha256.Padding.{padded_size, padded_injective}

-- The digest of "abc".
sha256_test :
    sha256 (97 ∷ 98 ∷ 99 ∷ [])
    ≡ 0xba ∷ 0x78 ∷ 0x16 ∷ 0xbf ∷ 0x8f ∷ 0x01 ∷ 0xcf ∷ 0xea ∷ 0x41 ∷ 0x41 ∷ 0x40 ∷ 0xde ∷ 0x5d
      ∷ 0xae ∷ 0x22 ∷ 0x23 ∷ 0xb0 ∷ 0x03 ∷ 0x61 ∷ 0xa3 ∷ 0x96 ∷ 0x17 ∷ 0x7a ∷ 0x9c ∷ 0xb4 ∷ 0x10
      ∷ 0xff ∷ 0x61 ∷ 0xf2 ∷ 0x00 ∷ 0x15 ∷ 0xad ∷ []
unfolding sha256 to_le
sha256_test = refl

padded_size_example :
    (msg : List ℕ) × (padded (97 ∷ []) ≡ some msg)
    × (length msg % 64 ≡ 0)
    × (take 1 msg ≡ 97 ∷ [])
    × (length msg < 1 + 73)
padded_size_example = padded_size (97 ∷ [])

padded_injective_example : ◌≡◌ {A = List ℕ} (97 ∷ []) (97 ∷ [])
padded_injective_example = padded_injective (97 ∷ []) (97 ∷ []) (omega arith) (omega arith) refl
