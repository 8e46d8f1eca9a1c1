-- ===== src/Cache/Key/Root.antt =====
-- Equal root keys mean equal engine identities, up to a collision of the hash.
use tr_infer.Prelude.{
  ℕ, ◌%◌, ◌<◌, ◌≡◌, ◌≢◌, refl, ap, ◌⊎◌, inl, inr, List, [], ◌∷◌, ◌++◌, length, length-append, All,
  arith,
}
use tr_infer.Bytes.{to_le}
use tr_infer.Bytes.Laws.{length-to_le}
use tr_infer.Cache.Key.{of, root_bytes, root_key}
use tr_infer.Cache.Key.Collision.{append_injective, token_injective, bytes-discrete}

-- The parts of an identity are shorter than 4 GiB.
abbrev pub Short : List (List ℕ) → Type 0
Short = All (λ m. length m < 4294967296)

root_bytes_injective :
    (xs ys : List (List ℕ)) → Short xs → Short ys → root_bytes xs ≡ root_bytes ys → xs ≡ ys
unfolding root_bytes
root_bytes_injective [] [] h k e = refl
root_bytes_injective [] (y ∷ ys) h k e = absurd (
    omega (
      arith,
      ap length e,
      length-append {0} (to_le 4 (length y % 4294967296)) (y ++ root_bytes ys),
      length-to_le 4 (length y % 4294967296),
    ))
root_bytes_injective (x ∷ xs) [] h k e = absurd (
    omega (
      arith,
      ap length e,
      length-append {0} (to_le 4 (length x % 4294967296)) (x ++ root_bytes xs),
      length-to_le 4 (length x % 4294967296),
    ))
root_bytes_injective (x ∷ xs) (y ∷ ys) h k e =
    let (sizes, rests) =
      token_injective (length x % 4294967296) (length y % 4294967296) _ _ (omega arith)
        (omega arith) e in
    let (parts, tails) = append_injective x (root_bytes xs) y (root_bytes ys) (omega arith) rests in
    λ i. parts i ∷ root_bytes_injective xs ys h.1 k.1 tails i

-- Two identities with one root key are equal, or else the bytes hashed for them differ and have one
-- truncated digest. Each part of an identity is shorter than 2^32 bytes.
pub root_key_injective :
    (xs ys : List (List ℕ))
    → Short xs
    → Short ys
    → root_key xs ≡ root_key ys
    → (xs ≡ ys) ⊎ ((root_bytes xs ≢ root_bytes ys) × (of (root_bytes xs) ≡ of (root_bytes ys)))
unfolding root_key
root_key_injective xs ys h k e = elim (bytes-discrete (root_bytes xs) (root_bytes ys)) [
  | yes same ↦ inl (root_bytes_injective xs ys h k same)
  | no differ ↦ inr (differ, e)
]
