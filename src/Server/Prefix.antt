-- ===== src/Server/Prefix.antt =====
-- crates/tr-infer/src/server/prefix_cache.rs: what of a prompt is stored, and where prefill stops
-- for a snapshot.
pub mod Cut
pub mod Points
pub mod Keys
use tr_infer.Prelude.{
  ℕ, suc, ◌+◌, Bool, true, false, ◌&&◌, Option, none, some, List, [], ◌∷◌, ◌++◌, length, map, min,
  leb, ltb, ◌==◌, if◌then◌else◌, drop, select, u64_max,
}
use tr_infer.Prelude.Sort.{sort}
use tr_infer.Cache.Role.{Role, Span, len}
use tr_infer.Cache.Key.{PrefixKey, prefix_keys}
use tr_infer.Cache.Policy.{Policies, get}
use text.Mathlib.Text.{◌==◌ as ◌same_text◌}
use Prim.Native.String.{String}

pub data SnapshotPolicy : Type 0 where
  message request : SnapshotPolicy

-- `SnapshotPolicy::parse`
unfoldable pub parse_policy : String → Option SnapshotPolicy
parse_policy s =
    if s same_text "message"
    then some message
    else if s same_text "request"
    then some request
    else none

-- The fields of `PrefixCache` that these functions read.
pub record Settings : Type 0 where
  pub root : PrefixKey
  pub chunk_len : ℕ
  pub policy : SnapshotPolicy
  pub min_tokens : ℕ
  pub roles : Policies

-- `persist_cut`
unfoldable pub persist_cut : Settings → List Span → ℕ
unfolding get
persist_cut o [] = u64_max
persist_cut o (s ∷ spans) =
    let rest = persist_cut o spans in
    if (get o.roles s.role).persist then rest else min s.start rest

-- `keys.last()`
unfoldable pub last_key : List PrefixKey → Option PrefixKey
last_key [] = none
last_key (k ∷ []) = some k
last_key (k ∷ l ∷ keys) = last_key (l ∷ keys)

-- `extend_keys`; `none` is a panic.
unfoldable pub extend_keys : List PrefixKey → List ℕ → Option (List PrefixKey)
unfolding last_key prefix_keys
extend_keys keys toks = elim (last_key keys) [
  | none ↦ none
  | some k ↦ some (keys ++ drop 1 (prefix_keys k toks []))
]

-- The filter of `snapshot_points`.
unfoldable pub is_point : Settings → ℕ → ℕ → ℕ → Span → Bool
unfolding get
is_point o cut from n s =
    leb o.min_tokens (len s)
    && (ltb from s.stop && (leb s.stop n && (leb s.stop cut && (get o.roles s.role).snapshot)))

abbrev pub point_of : Span → ℕ × Role
point_of s = (s.stop, s.role)

abbrev pub before_point : ℕ × Role → ℕ × Role → Bool
before_point a b = ltb a.0 b.0

-- `dedup_by_key`: of neighbours at one position, the first stays. `last` is the one before.
unfoldable pub dedup_after : ℕ → List (ℕ × Role) → List (ℕ × Role)
dedup_after last [] = []
dedup_after last (p ∷ points) =
    let same = dedup_after last points in
    let next = dedup_after p.0 points in if p.0 == last then same else p ∷ next

unfoldable pub dedup : List (ℕ × Role) → List (ℕ × Role)
unfolding dedup_after
dedup [] = []
dedup (p ∷ points) = p ∷ dedup_after p.0 points

abbrev pub under : SnapshotPolicy → List (ℕ × Role) → List (ℕ × Role)
under message points = points
under request points = []

-- `snapshot_points`. The source's sort leaves it open which one of two points at one position comes
-- first; here they stay in their order.
unfoldable pub snapshot_points : Settings → List Span → ℕ → ℕ → List (ℕ × Role)
unfolding is_point dedup persist_cut
snapshot_points o spans from n = under o.policy (
    dedup
      (sort before_point (map point_of (select (is_point o (persist_cut o spans) from n) spans))))
