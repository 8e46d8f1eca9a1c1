-- ===== src/Cache/Restore.antt =====
-- crates/tr-cache/src/cache.rs: `best_restore`, the search for the deepest point of a prompt from
-- which its state can be restored.
pub mod Search
pub mod Deepest
pub mod Valid
pub mod Contiguous
use tr_infer.Prelude.{
  ℕ, zero, suc, ◌+◌, ◌-◌, Bool, true, false, ◌&&◌, Option, none, some, List, [], ◌∷◌, ◌++◌, length,
  ltb, ◌==◌, if◌then◌else◌, ite, ℕ_discrete, add64, get_elem?,
}
use mathlib.Core.List.{reverse}
use tr_infer.Prelude.Assoc.{lookup}
use tr_infer.Cache.Key.{PrefixKey, PrefixKey-discrete}
use tr_infer.Cache.Object.{Kind, rows, snap, ObjectMeta}
use tr_infer.Cache.Index.{ObjectId, ObjectId-discrete, Entry, Cache, find, touch, expire_idle}

-- `RestorePlan`; `rows` of the source is `chunks` here.
pub record RestorePlan : Type 0 where
  pub pos : ℕ
  pub snapshot : ObjectMeta
  pub chunks : List ObjectMeta

-- What the `match` of the inner loop sees at position `cur`: the rows chunk that ends there and
-- continues the chain, `_`, or an index out of bounds of `keys`.
pub data Link : Type 0 where
  linked : ObjectMeta → Link
  unlinked : Link
  out_of_range : Link

-- `keys[e.meta.start] == e.meta.parent`
abbrev pub parent_link : Option PrefixKey → ObjectMeta → Link
parent_link none m = out_of_range
parent_link (some k) m = ite (PrefixKey-discrete k m.parent) (linked m) unlinked

abbrev pub entry_link : List PrefixKey → ℕ → Option Entry → Link
entry_link keys cur none = unlinked
entry_link keys cur (some e) =
    if e.meta.stop == cur && ltb e.meta.start cur
    then parent_link (get_elem? keys e.meta.start) e.meta
    else unlinked

abbrev pub key_link : List PrefixKey → Cache → ℕ → Option PrefixKey → Link
key_link keys c cur none = out_of_range
key_link keys c cur (some k) = entry_link keys cur (find c (record { key = k; kind = rows }))

unfoldable pub link : List PrefixKey → Cache → ℕ → Link
link keys c cur = key_link keys c cur (get_elem? keys cur)

-- The outcome of the inner loop: the chunks in the order of the pushes, a broken chain, or a
-- panic. (The fuel is the position, which every round lowers: its end is a panic too.)
pub data Walk : Type 0 where
  complete : List ObjectMeta → Walk
  broken : Walk
  panic : Walk

abbrev pub push : ObjectMeta → Walk → Walk
push m (complete l) = complete (m ∷ l)
push m broken = broken
push m panic = panic

-- `while cur > 0`
unfoldable pub walk : ℕ → List PrefixKey → Cache → ℕ → Walk
unfolding link
walk f keys c zero = complete []
walk zero keys c (suc cur) = panic
walk (suc f) keys c (suc cur) = elim (link keys c (suc cur)) [
  | linked m ↦ push m (walk f keys c m.start)
  | unlinked ↦ broken
  | out_of_range ↦ panic
]

-- One round of the outer loop: a plan, `continue`, or a panic.
pub data Found : Type 0 where
  found : RestorePlan → Found
  absent : Found
  crashed : Found

abbrev pub plan_of : ℕ → ObjectMeta → Walk → Found
plan_of p m (complete l) = found (record { pos = p; snapshot = m; chunks = reverse l })
plan_of p m broken = absent
plan_of p m panic = crashed

abbrev pub snapshot_round : List PrefixKey → Cache → ℕ → Option Entry → Found
snapshot_round keys c p none = absent
snapshot_round keys c p (some e) =
    if e.meta.stop == p then plan_of p e.meta (walk p keys c p) else absent

abbrev pub key_round : List PrefixKey → Cache → ℕ → Option PrefixKey → Found
key_round keys c p none = crashed
key_round keys c p (some k) = snapshot_round keys c p (find c (record { key = k; kind = snap }))

unfoldable pub round : List PrefixKey → Cache → ℕ → Found
unfolding walk
round keys c p = key_round keys c p (get_elem? keys p)

-- `for p in (1..keys.len()).rev()`, from `p` down.
unfoldable pub search : List PrefixKey → Cache → ℕ → Found
unfolding round
search keys c zero = absent
search keys c (suc p) = elim (round keys c (suc p)) [
  | found plan ↦ found plan
  | absent ↦ search keys c p
  | crashed ↦ crashed
]

-- The touches of a hit: the chunks, in order, then the snapshot. The clock is read at each.
unfoldable pub touch_all : (ℕ → ℕ) → List ObjectMeta → Cache → Cache
unfolding touch
touch_all clock [] c = c
touch_all clock (m ∷ ms) c =
    touch_all (λ i. clock (suc i)) ms (touch (clock 0) (record { key = m.key; kind = rows }) c)

unfoldable pub touch_plan : (ℕ → ℕ) → RestorePlan → Cache → Cache
unfolding touch_all
touch_plan clock plan c =
    let c' = touch_all clock plan.chunks c in
    touch (clock (length plan.chunks)) (record { key = plan.snapshot.key; kind = snap }) c'

-- The state after `expire_idle` at the head of `best_restore`.
unfoldable pub after_expiry : ℕ → Cache → Cache
unfolding expire_idle
after_expiry now c =
    let (gone, c') = expire_idle now c in record c' { pending_delete = c'.pending_delete ++ gone }

finish : (ℕ → ℕ) → Found → Cache → Option (Option RestorePlan × Cache)
unfolding touch_plan
finish clock (found plan) c =
    let c' = touch_plan clock plan c in some (some plan, record c' { hits = add64 c'.hits 1 })
finish clock absent c = some (none, record c { misses = add64 c.misses 1 })
finish clock crashed c = none

-- `best_restore`; `none` is a panic. The clock's readings are numbered in the order of the calls.
unfoldable pub best_restore : (ℕ → ℕ) → List PrefixKey → Cache → Option (Option RestorePlan × Cache)
unfolding after_expiry search finish
best_restore clock keys c =
    let c' = after_expiry (clock 0) c in
    finish (λ i. clock (suc i)) (search keys c' (length keys - 1)) c'
