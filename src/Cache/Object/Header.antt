-- ===== src/Cache/Object/Header.antt =====
-- Headers: `decode_header` reads what `encode_header` writes.
use tr_infer.Prelude.{
  ℕ, ◌+◌, ◌<◌, ◌≤◌, ◌≡◌, refl, ap, sym, ◌∙◌, false, List, ◌++◌, length, take, drop, arith, u64_mod,
  ◌%◌, ◌-◌, take-append, take-append_le, drop-append, length-append, length-take, length-drop, ltb,
  add64,
}
use tr_infer.Cache.Result.{Result, ok}
use tr_infer.Bytes.{to_le, from_le}
use tr_infer.Bytes.Laws.{length-to_le, from_le-to_le}
use tr_infer.Cache.Buf.{AlignedBuf, align, new, visible, write, new_lem}
use tr_infer.Cache.Object.{
  ObjectMeta, padded, validate, header_json_len, max_json, encode_header, decode_header,
}

-- The visible bytes after both writes: the length, the text, and padding.
header_bytes : (p : ℕ) (json : List ℕ) → AlignedBuf
header_bytes p json = write (write (new p) 0 (to_le 8 (length json))) 8 json

visible-header_bytes :
    (p : ℕ) (json : List ℕ)
    → 8 + length json ≤ p
    → p + 4096 ≤ u64_mod
    → (pad : List ℕ) × (visible (header_bytes p json) ≡ to_le 8 (length json) ++ (json ++ pad))
      × (length pad ≡ p - 8 - length json)
unfolding header_bytes visible write new
visible-header_bytes p json h room =
    let n = length json in
    let le = to_le 8 n in
    let size : length le ≡ 8 = length-to_le 8 n in
    let zeros = drop (0 + length le) (new p).memory in
    let rest = drop (8 + n) (le ++ zeros) in
    (
      take (p - 8 - n) rest,
      ap (λ front. take p (front ++ (json ++ rest))) (take-append le zeros 8 (sym size))
          ∙ take-append_le le (json ++ rest) p (omega arith)
          ∙ ap (λ back. le ++ back)
              (take-append_le json rest (p - length le) (omega arith)
                ∙ ap (λ k. json ++ take k rest) (omega arith)),
      omega (
        arith,
        length-take (p - 8 - n) rest,
        length-drop (8 + n) (le ++ zeros),
        length-append {0} le zeros,
        length-drop (0 + length le) (new p).memory,
        (new_lem p room).0,
      ),
    )

padded_bounds :
    (n : ℕ) → n + 4096 ≤ u64_mod → (n ≤ padded n) × (padded n % align ≡ 0) × (padded n ≤ n + 4095)
unfolding padded
padded_bounds n h = omega arith

module _ (to_json : ObjectMeta → Result (List ℕ)) (from_json : List ℕ → Result ObjectMeta) where
  header_json_len_lem :
      (n : ℕ) (rest : List ℕ) → 0 < n → n ≤ max_json → header_json_len (to_le 8 n ++ rest) ≡ ok n
  unfolding header_json_len
  header_json_len_lem n rest pos small =
      let size : length (to_le 8 n) ≡ 8 = length-to_le 8 n in
      let short : 8 ≤ length (to_le 8 n ++ rest) =
        omega (arith, length-append {0} (to_le 8 n) rest) in
      let value : from_le (to_le 8 n) ≡ n = from_le-to_le 8 n (omega arith) in
      rw (take-append (to_le 8 n) rest 8 (sym size), value) (ground arith)

  decode_header_lem :
      (m : ObjectMeta) (json pad : List ℕ)
      → from_json json ≡ ok m
      → 0 < length json
      → length json ≤ max_json
      → validate m ≡ ok tt
      → decode_header to_json from_json (to_le 8 (length json) ++ (json ++ pad))
        ≡ ok (m, padded (8 + length json))
  unfolding decode_header
  decode_header_lem m json pad reads pos small valid =
      let n = length json in
      let size : length (to_le 8 n) ≡ 8 = length-to_le 8 n in
      let whole : ltb (length (to_le 8 n ++ (json ++ pad))) (8 + n) ≡ false =
        ground (arith, length-append (to_le 8 n) (json ++ pad), length-append json pad) in
      rw (
        header_json_len_lem n (json ++ pad) pos small,
        whole,
        drop-append (to_le 8 n) (json ++ pad) 8 (sym size),
        take-append json pad n refl,
        reads,
        valid,
      )

  -- The header of a valid object is whole pages; decoding it gives back the metadata, and its
  -- length as the place of the body. Asked of `serde_json`: it reads back what it wrote of this
  -- object, a text that is not empty and of at most 64 MiB.
  pub decode_header-encode_header :
      (m : ObjectMeta) (json : List ℕ)
      → to_json m ≡ ok json
      → from_json json ≡ ok m
      → 0 < length json
      → length json ≤ max_json
      → validate m ≡ ok tt
      → (buf : AlignedBuf) × (encode_header to_json from_json m ≡ ok buf)
        × (decode_header to_json from_json (visible buf) ≡ ok (m, buf.len))
        × (buf.len % align ≡ 0)
        × (length (visible buf) ≡ buf.len)
  unfolding encode_header header_bytes
  decode_header-encode_header m json written reads pos small valid =
      let n = length json in
      let p = padded (8 + n) in
      let total : add64 8 n ≡ 8 + n = omega arith in
      let bounds = padded_bounds (8 + n) (omega arith) in
      let (pad, shown, rest) = visible-header_bytes p json bounds.0 (omega arith) in
      (
        header_bytes p json,
        rw (written, total),
        rw shown (decode_header_lem m json pad reads pos small valid),
        bounds.1,
        omega (
          arith,
          ap length shown,
          length-append {0} (to_le 8 n) (json ++ pad),
          length-append {0} json pad,
          length-to_le 8 n,
          rest,
        ),
      )
