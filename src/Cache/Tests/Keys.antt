-- ===== src/Cache/Tests/Keys.antt =====
-- Instances on keys, names, headers, chunks and buffers.
use tr_infer.Prelude.{
  ℕ, ◌<◌, ◌≡◌, ◌≢◌, ◌⊎◌, refl, some, List, [], ◌∷◌, ◌++◌, arith, replicate, length, select, leb,
  All, ◌%◌,
}
use tr_infer.Cache.Result.{Result, ok}
use tr_infer.Cache.Role.{system, user, Span, cut, chunk_span, chunk_loop, chunk_spans}
use tr_infer.Cache.Role.Chunks.{IsChunk, positions, chunk_spans-positions}
use tr_infer.Cache.Key.{PrefixKey, Image, image_at, of, root_bytes, parsed, panicked, hex, parse}
use tr_infer.Cache.Key.Root.{root_key_injective}
use tr_infer.Cache.Key.Hex.{IsKey, parse-hex}
use tr_infer.Cache.Buf.{AlignedBuf, align, visible}
use tr_infer.Cache.Object.{
  ext, name_panicked, Kind, snap, ObjectMeta, validate, object_name, named, parse_name,
  encode_header, decode_header,
}
use tr_infer.Cache.Object.Name.{parse_name-object_name, parse_name-panicked}
use tr_infer.Cache.Object.Header.{decode_header-encode_header}
use tr_infer.Cache.Key.Collision.{rows, Collides, prefix_keys_injective}

abbrev spans : List Span
spans =
    record { start = 0; stop = 5; role = system }
    ∷ record { start = 5; stop = 12; role = user }
    ∷ []

chunk_spans_test :
    chunk_spans spans 3 4
    ≡ some (
        record { start = 3; stop = 5; role = system }
        ∷ record { start = 5; stop = 9; role = user }
        ∷ record { start = 9; stop = 12; role = user }
        ∷ [])
unfolding chunk_spans chunk_loop chunk_span cut
chunk_spans_test = refl

chunk_spans-positions_example :
    (out : List Span) × (chunk_spans spans 3 4 ≡ some out)
    × (positions out ≡ select (λ e. leb 3 e.0) (positions spans))
    × All (IsChunk 4) out
chunk_spans-positions_example = chunk_spans-positions spans 3 4 (omega arith, (omega arith, tt))

abbrev pub key : ℕ → PrefixKey
key n = record { bytes = n ∷ replicate 15 0 }

key-IsKey : (n : ℕ) → n < 256 → IsKey (key n)
key-IsKey n h = record { sixteen = refl; in_range = ground arith }

parse-hex_example : parse (hex (key 171)) ≡ parsed (key 171)
parse-hex_example = parse-hex (key 171) (key-IsKey 171 (omega arith))

abbrev images : List Image
images = record { first = 1; content = 99; rows = 4 } ∷ []

prefix_keys_injective_example :
    ((key 1 ≡ key 1) × (rows 0 (7 ∷ 8 ∷ []) images ≡ rows 0 (7 ∷ 8 ∷ []) images))
    ⊎ Collides 0 (key 1) (key 1) (7 ∷ 8 ∷ []) (7 ∷ 8 ∷ []) images images
unfolding rows image_at
prefix_keys_injective_example =
    prefix_keys_injective (key 1) (key 1) (7 ∷ 8 ∷ []) (7 ∷ 8 ∷ []) images images refl refl refl
      (omega arith, ((omega arith, omega arith), tt))
      (omega arith, ((omega arith, omega arith), tt)) refl

parse_name-object_name_example : parse_name (object_name (key 171) snap) ≡ named (key 171) snap
parse_name-object_name_example = parse_name-object_name (key 171) snap (key-IsKey 171 (omega arith))

-- The rows of two tokens, and the state behind them.
abbrev pub rows_2 : ObjectMeta
rows_2 = record {
  format = 1;
  root = key 1;
  kind = Kind.rows;
  key = key 2;
  parent = key 1;
  start = 0;
  stop = 2;
  role = some user;
  tokens = 7 ∷ 8 ∷ [];
  bytes = 100;
  last_used = 50;
}

abbrev pub snap_2 : ObjectMeta
snap_2 = record rows_2 { kind = snap; parent = key 2; start = 2; tokens = [] }

-- A codec of one object.
abbrev to_json : ObjectMeta → Result (List ℕ)
to_json m = ok (123 ∷ 125 ∷ [])

abbrev from_json : List ℕ → Result ObjectMeta
from_json b = ok rows_2

decode_header-encode_header_example :
    (buf : AlignedBuf) × (encode_header to_json from_json rows_2 ≡ ok buf)
    × (decode_header to_json from_json (visible buf) ≡ ok (rows_2, buf.len))
    × (buf.len % align ≡ 0)
    × (length (visible buf) ≡ buf.len)
unfolding validate
decode_header-encode_header_example =
    decode_header-encode_header to_json from_json rows_2 (123 ∷ 125 ∷ []) refl refl (omega arith)
      (omega arith) refl

abbrev small : AlignedBuf
small = record { memory = 1 ∷ 2 ∷ 3 ∷ 4 ∷ []; len = 4 }

-- A stray file whose name begins with `aé`.
parse_name-panicked_example :
    (parse (97 ∷ 195 ∷ 169 ∷ replicate 29 97) ≡ panicked)
    × (parse_name ((97 ∷ 195 ∷ 169 ∷ replicate 29 97) ++ (b'.' ∷ ext snap)) ≡ name_panicked)
parse_name-panicked_example =
    parse_name-panicked 97 195 169 (replicate 29 97) snap refl (omega arith) (omega arith)

-- The identity of a model of two parts.
abbrev identity : List (List ℕ)
identity = (1 ∷ 2 ∷ []) ∷ (3 ∷ []) ∷ []

root_key_injective_example :
    (identity ≡ identity)
    ⊎ ((root_bytes identity ≢ root_bytes identity)
        × (of (root_bytes identity) ≡ of (root_bytes identity)))
root_key_injective_example =
    root_key_injective identity identity (omega arith, (omega arith, tt))
      (omega arith, (omega arith, tt)) refl
