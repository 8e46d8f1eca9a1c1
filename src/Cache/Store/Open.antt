-- ===== src/Cache/Store/Open.antt =====
-- crates/tr-cache/src/cache.rs: `open_with`. The index file is read by `serde_json`.
pub mod Valid
use tr_infer.Prelude.{
  ℕ, Bool, true, false, ◌&&◌, ◌||◌, Option, none, some, List, [], ◌∷◌, ◌++◌, length, map, ltb, ◌==◌,
  if◌then◌else◌, ite,
}
use tr_infer.Prelude.Assoc.{lookup, insert as update}
use tr_infer.Prelude.Sort.{sort}
use tr_infer.Bytes.{bytes-discrete, bytes_less}
use tr_infer.Cache.Result.{Result, ok, err, Error}
use tr_infer.Cache.Key.{PrefixKey, PrefixKey-discrete}
use tr_infer.Cache.Policy.{Policies, default_policies}
use tr_infer.Cache.Object.{ObjectMeta, name, format_version}
use tr_infer.Cache.Backend.{Backend}
use tr_infer.Cache.Index.{Cache, OpenReport, insert_entry, expire_idle, evict_to_budget}
use tr_infer.Cache.Store.Backed.{delete_all}
use tr_infer.Cache.Store.Flush.{Row, IndexFile}

-- `(last_used, seq)` by name.
abbrev pub Order : Type 0
Order = List (List ℕ × (ℕ × ℕ))

-- `collect` into the map: a later row of a name replaces an earlier one.
unfoldable pub collect : List Row → Order → Order
collect [] order = order
collect (r ∷ rows) order = collect rows (update bytes-discrete r.object (r.last_used, r.seq) order)

abbrev pub order_of : Option IndexFile → Order
order_of none = []
order_of (some f) = collect f.objects []

-- The filter on the stored index.
abbrev usable : PrefixKey → Option IndexFile → Option IndexFile
usable root none = none
usable root (some f) =
    if f.format == format_version then ite (PrefixKey-discrete f.root root) (some f) none else none

abbrev is_loaded : Option IndexFile → Bool
is_loaded none = false
is_loaded (some f) = true

-- `metas.retain`: the objects of this root, and the names of the others.
unfoldable pub own : PrefixKey → List ObjectMeta → List ObjectMeta
own root [] = []
own root (m ∷ metas) =
    let rest = own root metas in ite (PrefixKey-discrete m.root root) (m ∷ rest) rest

unfoldable pub foreign : PrefixKey → List ObjectMeta → List (List ℕ)
foreign root [] = []
foreign root (m ∷ metas) =
    let rest = foreign root metas in ite (PrefixKey-discrete m.root root) rest (name m ∷ rest)

-- The stored `seq`, or 0.
abbrev seq_of : Option (ℕ × ℕ) → ℕ
seq_of none = 0
seq_of (some (l, s)) = s

abbrev rank : Order → ObjectMeta → ℕ
rank order m = seq_of (lookup bytes-discrete (name m) order)

-- `cmp` of `(rank, last_used, name)`.
abbrev before : Order → ObjectMeta → ObjectMeta → Bool
before order a b =
    ltb (rank order a) (rank order b)
    || (rank order a == rank order b
        && (ltb a.last_used b.last_used
            || (a.last_used == b.last_used && bytes_less (name a) (name b))))

abbrev used_at : Option (ℕ × ℕ) → ObjectMeta → ObjectMeta
used_at none m = m
used_at (some (l, s)) m = record m { last_used = l }

-- The loop that fills the index.
unfoldable pub fill : Order → List ObjectMeta → Cache → Cache
unfolding insert_entry
fill order [] c = c
fill order (m ∷ metas) c =
    fill order metas (insert_entry (used_at (lookup bytes-discrete (name m) order) m) c)

abbrev pub empty : PrefixKey → ℕ → Policies → Cache
empty root budget policies = record {
  root = root;
  index = [];
  lru = [];
  policies = policies;
  seq = 0;
  used = 0;
  budget = budget;
  dirty = false;
  pending_delete = [];
  report = record { objects = 0; bytes = 0; dropped_foreign = 0; index_loaded = false };
  hits = 0;
  misses = 0;
  evicted = 0;
  expired = 0;
}

abbrev not_loaded : Bool → Bool
not_loaded true = false
not_loaded false = true

-- The report, and `dirty`.
abbrev pub reported : ℕ → Bool → Cache → Cache
reported dropped loaded c = record c {
  report = record {
    objects = length c.index;
    bytes = c.used;
    dropped_foreign = dropped;
    index_loaded = loaded;
  };
  dirty = not_loaded loaded;
}

-- The index that `open_with` builds, before anything is dropped from it.
unfoldable pub build : PrefixKey → ℕ → Policies → Option IndexFile → List ObjectMeta → Cache
unfolding fill own collect
build root budget policies stored metas =
    reported (length (foreign root metas)) (is_loaded stored) (
      fill (order_of stored) (sort (before (order_of stored)) (own root metas))
        (empty root budget policies))

module _ (be : Backend) (from_json : List ℕ → Option IndexFile) where
  abbrev parsed : Option (List ℕ) → Option IndexFile
  parsed none = none
  parsed (some b) = from_json b

  -- `be.get_index().unwrap_or(None).and_then(…).filter(…)`
  abbrev pub stored_index : PrefixKey → Result (Option (List ℕ)) → Option IndexFile
  stored_index root (err e) = none
  stored_index root (ok b) = usable root (parsed b)

  finished : Cache → be.State × Result (Unit {0}) → be.State × Result Cache
  finished c (s, err e) = (s, err e)
  finished c (s, ok u) = (s, ok c)

  -- What expires and what does not fit is deleted; `none` is a loop that does not end.
  trimmed :
      be.State → List (List ℕ) → Option (List (List ℕ) × Cache) → Option (be.State × Result Cache)
  unfolding finished delete_all
  trimmed s gone none = none
  trimmed s gone (some (out, c)) = some (finished c (delete_all be s (gone ++ out)))

  trim : ℕ → Cache → be.State → Option (be.State × Result Cache)
  unfolding trimmed expire_idle
  trim now c s = let (gone, c') = expire_idle now c in trimmed s gone (evict_to_budget c')

  opened :
      ℕ
      → PrefixKey
      → ℕ
      → Policies
      → Option IndexFile
      → List ObjectMeta
      → be.State × Result (Unit {0})
      → Option (be.State × Result Cache)
  unfolding trim
  opened now root budget policies stored metas (s, err e) = some (s, err e)
  opened now root budget policies stored metas (s, ok u) =
      trim now (build root budget policies stored metas) s

  listed :
      ℕ
      → PrefixKey
      → ℕ
      → Policies
      → Option IndexFile
      → be.State × Result (List ObjectMeta)
      → Option (be.State × Result Cache)
  unfolding opened
  listed now root budget policies stored (s, err e) = some (s, err e)
  listed now root budget policies stored (s, ok metas) =
      opened now root budget policies stored metas (delete_all be s (foreign root metas))

  -- `open_with`; `now` is the clock's reading.
  unfoldable pub open_with :
      ℕ → PrefixKey → ℕ → Policies → be.State → Option (be.State × Result Cache)
  unfolding listed
  open_with now root budget policies s =
      let (s', b) = be.get_index s in
      listed now root budget policies (stored_index root b) (be.list s')

  -- `open`
  unfoldable pub open_default : ℕ → PrefixKey → ℕ → be.State → Option (be.State × Result Cache)
  unfolding open_with
  open_default now root budget s = open_with now root budget default_policies s
