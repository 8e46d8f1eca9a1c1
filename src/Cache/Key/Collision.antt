-- ===== src/Cache/Key/Collision.antt =====
-- Equal keys mean equal prompts, up to a collision of the hash.
use tr_infer.Prelude.{
  ℕ, suc, ◌≡◌, ◌≢◌, ◌<◌, refl, ap, ◌∙◌, sym, ◌⊎◌, inl, inr, Option, some, none, List, [], ◌∷◌, ◌++◌,
  length, take, drop, arith, get_elem?, take-append, drop-append, length-append, length-take, All,
  ℕ_discrete,
}
use tr_infer.Bytes.{to_le, from_le}
use tr_infer.Bytes.Laws.{length-to_le, from_le-to_le, capacity}
use tr_infer.Format.Sha256.{sha256}
use tr_infer.Format.Sha256.Padding.{length-sha256}
use tr_infer.Cache.Key.{PrefixKey, Image, image_at, message, of, chain, prefix_keys}

-- What the chain folds in at each row: the token, and the content of an image that starts there.
unfoldable pub rows : ℕ → List ℕ → List Image → List (ℕ × Option ℕ)
rows p [] img = []
rows p (t ∷ toks) img = (t, (image_at p img).0) ∷ rows (suc p) toks (image_at p img).1

-- A token is a `u32`, a content hash a `u64`.
abbrev pub InRange : ℕ × Option ℕ → Type 0
InRange (t, none) = t < 4294967296
InRange (t, some c) = (t < 4294967296) × (c < 18446744073709551616)

pub bytes-discrete : Discrete (List ℕ)
bytes-discrete = hlevel ℕ_discrete

pub to_le_injective : (w a b : ℕ) → a < capacity w → b < capacity w → to_le w a ≡ to_le w b → a ≡ b
to_le_injective w a b ha hb e = sym (from_le-to_le w a ha) ∙ ap from_le e ∙ from_le-to_le w b hb

pub append_injective :
    (xs ys us vs : List ℕ) → length xs ≡ length us → xs ++ ys ≡ us ++ vs → (xs ≡ us) × (ys ≡ vs)
append_injective xs ys us vs h e = (
  sym (take-append xs ys _ refl) ∙ ap (take (length xs)) e ∙ take-append us vs _ h,
  sym (drop-append xs ys _ refl) ∙ ap (drop (length xs)) e ∙ drop-append us vs _ h,
)

pub token_injective :
    (t u : ℕ) (xs ys : List ℕ)
    → t < 4294967296
    → u < 4294967296
    → to_le 4 t ++ xs ≡ to_le 4 u ++ ys
    → (t ≡ u) × (xs ≡ ys)
token_injective t u xs ys h k e =
    let (tokens, rests) =
      append_injective (to_le 4 t) xs (to_le 4 u) ys (length-to_le 4 t ∙ sym (length-to_le 4 u))
        e in
    (to_le_injective 4 t u h k tokens, rests)

-- The bytes after the previous key.
abbrev tail : ℕ → Option ℕ → List ℕ
tail t none = to_le 4 t
tail t (some c) = to_le 4 t ++ to_le 8 c

tail_injective :
    (t u : ℕ) (o q : Option ℕ)
    → InRange (t, o)
    → InRange (u, q)
    → tail t o ≡ tail u q
    → (t ≡ u) × (o ≡ q)
tail_injective t u none none r s e = (to_le_injective 4 t u r s e, refl)
tail_injective t u none (some d) r s e = absurd (
    omega (
      arith,
      ap length e,
      length-append {0} (to_le 4 u) (to_le 8 d),
      length-to_le 4 t,
      length-to_le 4 u,
      length-to_le 8 d,
    ))
tail_injective t u (some c) none r s e = absurd (
    omega (
      arith,
      ap length e,
      length-append {0} (to_le 4 t) (to_le 8 c),
      length-to_le 4 t,
      length-to_le 4 u,
      length-to_le 8 c,
    ))
tail_injective t u (some c) (some d) r s e =
    let (tokens, contents) = token_injective t u (to_le 8 c) (to_le 8 d) r.0 s.0 e in
    (tokens, ap some (to_le_injective 8 c d r.1 s.1 contents))

message-tail : (k : PrefixKey) (t : ℕ) (o : Option ℕ) → message k t o ≡ k.bytes ++ tail t o
unfolding message
message-tail k t none = refl
message-tail k t (some c) = refl

-- Two rows that hash the same bytes are the same row after the same key.
message_injective :
    (k l : PrefixKey) (t u : ℕ) (o q : Option ℕ)
    → length k.bytes ≡ length l.bytes
    → InRange (t, o)
    → InRange (u, q)
    → message k t o ≡ message l u q
    → (k ≡ l) × (t ≡ u) × (o ≡ q)
message_injective k l t u o q h r s e =
    let (keys, tails) =
      append_injective k.bytes (tail t o) l.bytes (tail u q) h
        (sym (message-tail k t o) ∙ e ∙ message-tail l u q) in
    let (tokens, contents) = tail_injective t u o q r s tails in
    (ap (λ b. record { bytes = b }) keys, tokens, contents)

-- At some row of two chains, the bytes that are hashed differ and have one key.
unfoldable pub Collides :
    ℕ → PrefixKey → PrefixKey → List ℕ → List ℕ → List Image → List Image → Type 0
Collides p k l (t ∷ ts) (u ∷ us) img img' =
    let m = message k t (image_at p img).0 in
    let m' = message l u (image_at p img').0 in
    ((m ≢ m') × (of m ≡ of m'))
    ⊎ Collides (suc p) (of m) (of m') ts us (image_at p img).1 (image_at p img').1
Collides p k l [] us img img' = ⊥
Collides p k l (t ∷ ts) [] img img' = ⊥

-- The last key of the chain.
final : ℕ → PrefixKey → List ℕ → List Image → PrefixKey
final p prev [] img = prev
final p prev (t ∷ toks) img =
    final (suc p) (of (message prev t (image_at p img).0)) toks (image_at p img).1

get_elem?-chain :
    (p : ℕ) (prev : PrefixKey) (toks : List ℕ) (img : List Image)
    → get_elem? (prev ∷ chain p prev toks img) (length toks) ≡ some (final p prev toks img)
unfolding chain final
get_elem?-chain p prev [] img = refl
get_elem?-chain p prev (t ∷ toks) img =
    get_elem?-chain (suc p) (of (message prev t (image_at p img).0)) toks (image_at p img).1

length-of : (x : List ℕ) → length (of x).bytes ≡ 16
unfolding of
length-of x = omega (arith, length-take 16 (sha256 x), length-sha256 x)

final_injective :
    (p : ℕ) (k l : PrefixKey) (toks toks' : List ℕ) (img img' : List Image)
    → length k.bytes ≡ 16
    → length l.bytes ≡ 16
    → length toks ≡ length toks'
    → All InRange (rows p toks img)
    → All InRange (rows p toks' img')
    → final p k toks img ≡ final p l toks' img'
    → ((k ≡ l) × (rows p toks img ≡ rows p toks' img')) ⊎ Collides p k l toks toks' img img'
unfolding final rows Collides
final_injective p k l [] [] img img' hk hl n r s e = inl (e, refl)
final_injective p k l [] (u ∷ us) img img' hk hl n r s e = absurd (omega arith)
final_injective p k l (t ∷ ts) [] img img' hk hl n r s e = absurd (omega arith)
final_injective p k l (t ∷ ts) (u ∷ us) img img' hk hl n r s e =
    let m = message k t (image_at p img).0 in
    let m' = message l u (image_at p img').0 in
    elim (final_injective (suc p) (of m) (of m') ts us (image_at p img).1 (image_at p img').1
      (length-of m) (length-of m') (omega arith) r.1 s.1 e) [
        | inr c ↦ inr (inr c)
        | inl same ↦ elim (bytes-discrete m m') [
          | no differ ↦ inr (inl (differ, same.0))
          | yes q ↦
              let (keys, tokens, contents) =
                message_injective k l t u (image_at p img).0 (image_at p img').0 (hk ∙ sym hl) r.0
                  s.0 q in
              inl (keys, λ i. (tokens i, contents i) ∷ same.1 i)
        ]
      ]

-- Two prompts of one length, under roots of sixteen bytes, with the same last key have the
-- same root and fold in the same tokens and image contents at the same rows; or else at some row
-- the bytes that the two chains hash differ and have one truncated digest. Tokens are below 2^32
-- and content hashes below 2^64.
pub prefix_keys_injective :
    (root root' : PrefixKey) (toks toks' : List ℕ) (img img' : List Image)
    → length root.bytes ≡ 16
    → length root'.bytes ≡ 16
    → length toks ≡ length toks'
    → All InRange (rows 0 toks img)
    → All InRange (rows 0 toks' img')
    → get_elem? (prefix_keys root toks img) (length toks)
      ≡ get_elem? (prefix_keys root' toks' img') (length toks')
    → ((root ≡ root') × (rows 0 toks img ≡ rows 0 toks' img'))
      ⊎ Collides 0 root root' toks toks' img img'
unfolding prefix_keys
prefix_keys_injective root root' toks toks' img img' h h' n r s e =
    final_injective 0 root root' toks toks' img img' h h' n r s
      (cc (get_elem?-chain 0 root toks img, get_elem?-chain 0 root' toks' img'))
