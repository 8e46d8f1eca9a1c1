-- ===== src/Cache/Object.antt =====
-- crates/tr-cache/src/object.rs: the metadata of stored objects, their names and their headers.
pub mod Name
pub mod Header
use tr_infer.Prelude.{
  ℕ, suc, ◌+◌, ◌-◌, ◌*◌, Bool, not, true, false, Option, none, some, List, [], ◌∷◌, ◌++◌, length,
  take, drop, ltb, leb, ◌==◌, ◌||◌, if◌then◌else◌, ite, ℕ_discrete, add64, sub64, mul64,
}
use tr_infer.Cache.Result.{
  Result, ok, err, Error, bad_format, inverted_range, token_count, no_role, snapshot_span,
  short_header, implausible_length, truncated_header, bad_json, ◌>>=◌, ◌>>◌, bail_if,
}
use tr_infer.Bytes.{to_le, from_le}
use tr_infer.Cache.Role.{Role}
use tr_infer.Cache.Key.{PrefixKey, Parsed, parsed, refused, panicked, hex, parse}
use tr_infer.Cache.Buf.{AlignedBuf, align, pages, new, visible, write}

-- `FORMAT`
abbrev pub format_version : ℕ
format_version = 1

pub data Kind : Type 0 where
  rows : Kind
  snap : Kind

unfoldable pub Kind-discrete : Discrete Kind
Kind-discrete = hlevel

-- `Kind::ext`: "rows" and "snap".
unfoldable pub ext : Kind → List ℕ
ext rows = b'r' ∷ b'o' ∷ b'w' ∷ b's' ∷ []
ext snap = b's' ∷ b'n' ∷ b'a' ∷ b'p' ∷ []

bytes-discrete : Discrete (List ℕ)
bytes-discrete = hlevel ℕ_discrete

unfoldable pub from_ext : List ℕ → Option Kind
unfolding ext bytes-discrete
from_ext e =
    ite (bytes-discrete e (ext rows)) (some rows)
      (ite (bytes-discrete e (ext snap)) (some snap) none)

-- `stop` is the field `end`.
pub record ObjectMeta : Type 0 where
  pub format : ℕ
  pub root : PrefixKey
  pub kind : Kind
  pub key : PrefixKey
  pub parent : PrefixKey
  pub start : ℕ
  pub stop : ℕ
  pub role : Option Role
  pub tokens : List ℕ
  pub bytes : ℕ
  pub last_used : ℕ

-- `ObjectMeta::rows`; `none` is the failed assertion. `now` is the clock's reading.
unfoldable pub rows_meta :
    ℕ → PrefixKey → PrefixKey → PrefixKey → ℕ → ℕ → Role → List ℕ → ℕ → Option ObjectMeta
rows_meta now root key parent start stop role tokens bytes =
    if length tokens == sub64 stop start
    then some (record {
      format = format_version;
      root = root;
      kind = rows;
      key = key;
      parent = parent;
      start = start;
      stop = stop;
      role = some role;
      tokens = tokens;
      bytes = bytes;
      last_used = now;
    })
    else none

-- `ObjectMeta::snapshot`
unfoldable pub snapshot_meta : ℕ → PrefixKey → PrefixKey → ℕ → Option Role → ℕ → ObjectMeta
snapshot_meta now root key pos role bytes = record {
  format = format_version;
  root = root;
  kind = snap;
  key = key;
  parent = key;
  start = pos;
  stop = pos;
  role = role;
  tokens = [];
  bytes = bytes;
  last_used = now;
}

unfoldable pub padded : ℕ → ℕ
padded n = mul64 (pages n) align

unfoldable pub header_len_hint : ObjectMeta → ℕ
header_len_hint m = add64 256 (mul64 12 (length m.tokens))

-- `ObjectMeta::footprint`
unfoldable pub footprint : ObjectMeta → ℕ
unfolding padded header_len_hint
footprint m = add64 (padded (header_len_hint m)) (padded m.bytes)

is_none : Option Role → Bool
is_none none = true
is_none (some r) = false

validate_kind : Kind → ObjectMeta → Result (Unit {0})
unfolding is_none
validate_kind rows m = do
  bail_if (not (length m.tokens == m.stop - m.start)) token_count
  bail_if (is_none m.role) no_role
validate_kind snap m = bail_if (not (m.start == m.stop)) snapshot_span

-- `ObjectMeta::validate`
unfoldable pub validate : ObjectMeta → Result (Unit {0})
unfolding validate_kind
validate m = do
  bail_if (not (m.format == format_version)) bad_format
  bail_if (ltb m.stop m.start) inverted_range
  validate_kind m.kind m

unfoldable pub object_name : PrefixKey → Kind → List ℕ
unfolding hex ext
object_name key kind = hex key ++ (b'.' ∷ ext kind)

-- `ObjectMeta::name`
abbrev pub name : ObjectMeta → List ℕ
name m = object_name m.key m.kind

-- `str::rsplit_once('.')`
unfoldable pub rsplit_dot : List ℕ → Option (List ℕ × List ℕ)
rsplit_dot [] = none
rsplit_dot (b ∷ bs) = elim (rsplit_dot bs) [
  | some (l, r) ↦ some (b ∷ l, r)
  | none ↦ if b == b'.' then some ([], bs) else none
]

-- The outcome of `parse_name`: `Some`, `None`, or the panic of `PrefixKey::parse`.
pub data Named : Type 0 where
  named : PrefixKey → Kind → Named
  unnamed : Named
  name_panicked : Named

with_kind : Parsed → Option Kind → Named
with_kind (parsed k) (some kind) = named k kind
with_kind (parsed k) none = unnamed
with_kind refused e = unnamed
with_kind panicked e = name_panicked

name_parts : Option (List ℕ × List ℕ) → Named
unfolding with_kind parse from_ext
name_parts none = unnamed
name_parts (some (k, e)) = with_kind (parse k) (from_ext e)

unfoldable pub parse_name : List ℕ → Named
unfolding name_parts rsplit_dot
parse_name s = name_parts (rsplit_dot s)

-- The longest JSON text of a header that is believed: `64 << 20`.
abbrev pub max_json : ℕ
max_json = 67108864

unfoldable pub header_json_len : List ℕ → Result ℕ
header_json_len first8 = do
  bail_if (ltb (length first8) 8) short_header
  let n = from_le (take 8 first8)
  bail_if (n == 0 || ltb max_json n) implausible_length
  ok n

-- `serde_json` writes and reads the metadata.
module _ (to_json : ObjectMeta → Result (List ℕ)) (from_json : List ℕ → Result ObjectMeta) where
  unfoldable pub encode_header : ObjectMeta → Result AlignedBuf
  unfolding padded new write
  encode_header m = do
    json ← to_json m
    let buf = write (new (padded (add64 8 (length json)))) 0 (to_le 8 (length json))
    ok (write buf 8 json)

  unfoldable pub decode_header : List ℕ → Result (ObjectMeta × ℕ)
  unfolding header_json_len validate padded
  decode_header bytes = do
    n ← header_json_len bytes
    bail_if (ltb (length bytes) (8 + n)) truncated_header
    m ← from_json (take n (drop 8 bytes))
    validate m
    ok (m, padded (8 + n))
