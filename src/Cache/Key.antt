-- ===== src/Cache/Key.antt =====
-- crates/tr-cache/src/key.rs: prefix keys, their text form, and the hash chain over a prompt.
pub mod Hex
pub mod Chain
pub mod Collision
pub mod Root
use tr_infer.Prelude.{
  ℕ, zero, suc, ◌+◌, ◌*◌, ◌/◌, ◌%◌, Bool, ◌&&◌, ◌||◌, not, Option, none, some, List, [], ◌∷◌, ◌++◌,
  length, take, leb, ltb, ◌==◌, if◌then◌else◌, ℕ_discrete,
}
use tr_infer.Format.Sha256.{sha256}
use tr_infer.Bytes.{to_le, hex_digit, from_hex_pair}

-- `PrefixKey([u8; 16])`: sixteen bytes.
pub record PrefixKey : Type 0 where
  pub bytes : List ℕ

unfoldable pub PrefixKey-discrete : Discrete PrefixKey
PrefixKey-discrete = hlevel ℕ_discrete

unfoldable pub hex_bytes : List ℕ → List ℕ
unfolding hex_digit
hex_bytes [] = []
hex_bytes (b ∷ bs) = hex_digit (b / 16) ∷ hex_digit (b % 16) ∷ hex_bytes bs

-- `PrefixKey::hex`, as ASCII bytes.
unfoldable pub hex : PrefixKey → List ℕ
unfolding hex_bytes
hex k = hex_bytes k.bytes

-- The outcome of `PrefixKey::parse`: `Some`, `None`, or a panic, when `&s[2 * i..2 * i + 2]` cuts
-- through a character.
pub data Parsed : Type 0 where
  parsed : PrefixKey → Parsed
  refused : Parsed
  panicked : Parsed

-- A byte 10xxxxxx continues a character, so no slice of the text starts or ends before it.
unfoldable pub is_continuation : ℕ → Bool
is_continuation b = leb 128 b && ltb b 192

unfoldable pub starts_inside : List ℕ → Bool
unfolding is_continuation
starts_inside [] = Bool.false
starts_inside (b ∷ bs) = is_continuation b

-- `k[i] = …?` before the rounds that follow.
abbrev pub push : Option ℕ → Parsed → Parsed
push none rest = refused
push (some b) refused = refused
push (some b) panicked = panicked
push (some b) (parsed k) = parsed (record { bytes = b ∷ k.bytes })

-- The loop of `parse` from an even position on, over the UTF-8 bytes of the text.
unfoldable pub parse_pairs : List ℕ → Parsed
unfolding from_hex_pair starts_inside
parse_pairs [] = parsed (record { bytes = [] })
parse_pairs (a ∷ []) = panicked
parse_pairs (a ∷ b ∷ rest) =
    let more = parse_pairs rest in
    if is_continuation a || starts_inside rest then panicked else push (from_hex_pair a b) more

unfoldable pub parse : List ℕ → Parsed
unfolding parse_pairs
parse s = if length s == 32 then parse_pairs s else refused

-- `(first row, content hash, rows)` of an image; the third component is not read.
pub record Image : Type 0 where
  pub first : ℕ
  pub content : ℕ
  pub rows : ℕ

-- The inner `while let Some(im) = img.peek()` at row `p`: the content hash to fold in, and the
-- images that are left.
unfoldable pub image_at : ℕ → List Image → Option ℕ × List Image
image_at p [] = (none, [])
image_at p (im ∷ img) =
    let skipped = image_at p img in
    if ltb im.first p
    then skipped
    else if im.first == p
    then (some im.content, img)
    else (none, im ∷ img)

-- The bytes that are hashed for one row: `buf[..n]`.
unfoldable pub message : PrefixKey → ℕ → Option ℕ → List ℕ
message prev t none = prev.bytes ++ to_le 4 t
message prev t (some content) = prev.bytes ++ (to_le 4 t ++ to_le 8 content)

unfoldable pub root_bytes : List (List ℕ) → List ℕ
root_bytes [] = []
root_bytes (m ∷ material) = to_le 4 (length m % 4294967296) ++ (m ++ root_bytes material)

unfoldable pub of : List ℕ → PrefixKey
of bytes = record { bytes = take 16 (sha256 bytes) }

unfoldable pub root_key : List (List ℕ) → PrefixKey
unfolding of root_bytes
root_key material = of (root_bytes material)

-- The rounds of the loop of `prefix_keys` from row `p` on; `prev` is `keys[p]`.
unfoldable pub chain : ℕ → PrefixKey → List ℕ → List Image → List PrefixKey
unfolding of message image_at
chain p prev [] img = []
chain p prev (t ∷ toks) img =
    let key = of (message prev t (image_at p img).0) in
    key ∷ chain (suc p) key toks (image_at p img).1

unfoldable pub prefix_keys : PrefixKey → List ℕ → List Image → List PrefixKey
unfolding chain
prefix_keys root toks images = root ∷ chain 0 root toks images
