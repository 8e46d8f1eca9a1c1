-- ===== src/Cache/Index/Stats.antt =====
-- crates/tr-cache/src/cache.rs: `stats`.
use tr_infer.Prelude.{
  ℕ, ◌+◌, ◌≤◌, ◌<◌, ◌≡◌, refl, inl, inr, subst, dec_lt, Listed, Option, none, some, List, [], ◌∷◌,
  length, min, max, All, arith, u64_mod, add64,
}
use tr_infer.Cache.Object.{Kind, rows, snap}
use tr_infer.Cache.Index.{ObjectId, Entry, Cache}

pub record Stats : Type 0 where
  pub objects : ℕ
  pub row_count : ℕ
  pub snapshots : ℕ
  pub bytes : ℕ
  pub budget : ℕ
  pub oldest : Option ℕ
  pub newest : Option ℕ
  pub hits : ℕ
  pub misses : ℕ
  pub evicted : ℕ
  pub expired : ℕ

-- `map_or(u, |o| o.min(u))`
abbrev lower : ℕ → Option ℕ → ℕ
lower u none = u
lower u (some o) = min o u

abbrev upper : ℕ → Option ℕ → ℕ
upper u none = u
upper u (some o) = max o u

abbrev count : Kind → Stats → Stats
count rows s = record s { row_count = add64 s.row_count 1 }
count snap s = record s { snapshots = add64 s.snapshots 1 }

-- One round of the loop.
abbrev tally : Entry → Stats → Stats
tally e s = record (count e.meta.kind s) {
  oldest = some (lower e.meta.last_used s.oldest);
  newest = some (upper e.meta.last_used s.newest);
}

unfoldable pub stats_loop : List (ObjectId × Entry) → Stats → Stats
stats_loop [] s = s
stats_loop ((id, e) ∷ index) s = stats_loop index (tally e s)

-- The statistics before the loop.
abbrev before : Cache → Stats
before c = record {
  objects = length c.index;
  row_count = 0;
  snapshots = 0;
  bytes = c.used;
  budget = c.budget;
  oldest = none;
  newest = none;
  hits = c.hits;
  misses = c.misses;
  evicted = c.evicted;
  expired = c.expired;
}

-- `stats`; the field `rows` of the source is `row_count` here.
unfoldable pub stats : Cache → Stats
unfolding stats_loop
stats c = stats_loop c.index (before c)

-- The time lies between the oldest and the newest.
abbrev pub Within : ℕ → Option ℕ → Option ℕ → Type 0
Within u none n = ⊥
Within u (some o) none = ⊥
Within u (some o) (some n) = (o ≤ u) × (u ≤ n)

Within-wider :
    (u v : ℕ) (o n : Option ℕ) → Within u o n → Within u (some (lower v o)) (some (upper v n))
Within-wider u v none n h = absurd h
Within-wider u v (some o) none h = absurd h
Within-wider u v (some o) (some n) h = omega arith

Within-here : (u : ℕ) (o n : Option ℕ) → Within u (some (lower u o)) (some (upper u n))
Within-here u none none = omega arith
Within-here u none (some n) = omega arith
Within-here u (some o) none = omega arith
Within-here u (some o) (some n) = omega arith

stats_loop-Within :
    (index : List (ObjectId × Entry)) (s : Stats) (u : ℕ)
    → Within u s.oldest s.newest
    → Within u (stats_loop index s).oldest (stats_loop index s).newest
unfolding stats_loop
stats_loop-Within [] s u h = h
stats_loop-Within ((id, e) ∷ index) s u h =
    stats_loop-Within index (tally e s) u (Within-wider u e.meta.last_used s.oldest s.newest h)

stats_loop-All :
    (index : List (ObjectId × Entry)) (s : Stats)
    → All
        (λ x. Within x.1.meta.last_used (stats_loop index s).oldest (stats_loop index s).newest)
        index
unfolding stats_loop
stats_loop-All [] s = tt
stats_loop-All ((id, e) ∷ index) s = (
  stats_loop-Within index (tally e s) e.meta.last_used
      (Within-here e.meta.last_used s.oldest s.newest),
  stats_loop-All index (tally e s),
)

-- Whether the object is of rows, and whether it is a snapshot.
abbrev pub is_rows : Kind → ℕ
is_rows rows = 1
is_rows snap = 0

abbrev pub is_snap : Kind → ℕ
is_snap rows = 0
is_snap snap = 1

-- How many objects of a kind an index has.
unfoldable pub number : (Kind → ℕ) → List (ObjectId × Entry) → ℕ
number f [] = 0
number f ((id, e) ∷ index) = f e.meta.kind + number f index

count_rows_lem :
    (k : Kind) (s : Stats) (n : ℕ)
    → s.row_count + 1 + n < u64_mod
    → (count k s).row_count ≡ s.row_count + is_rows k
count_rows_lem rows s n h = omega arith
count_rows_lem snap s n h = omega arith

count_snap_lem :
    (k : Kind) (s : Stats) (n : ℕ)
    → s.snapshots + 1 + n < u64_mod
    → (count k s).snapshots ≡ s.snapshots + is_snap k
count_snap_lem rows s n h = omega arith
count_snap_lem snap s n h = omega arith

is_rows-le : (k : Kind) → is_rows k ≤ 1
is_rows-le rows = omega arith
is_rows-le snap = omega arith

is_snap-le : (k : Kind) → is_snap k ≤ 1
is_snap-le rows = omega arith
is_snap-le snap = omega arith

-- A time, where there is one, is one of those.
abbrev pub Known : (ℕ → Type 0) → Option ℕ → Type 0
Known P none = Unit
Known P (some u) = P u

-- An object of the index was last used then.
abbrev pub Used : List (ObjectId × Entry) → ℕ → Type 0
Used index u = (x : ObjectId × Entry) × Listed x index × (x.1.meta.last_used ≡ u)

module _ (P : ℕ → Type 0) where
  lower-Known : (u : ℕ) (o : Option ℕ) → P u → Known P o → P (lower u o)
  lower-Known u none h k = h
  lower-Known u (some o) h k = elim (dec_lt o u) [
    | yes l ↦ subst P (let e : o ≡ min o u = omega arith in e) k
    | no l ↦ subst P (let e : u ≡ min o u = omega arith in e) h
  ]

  upper-Known : (u : ℕ) (o : Option ℕ) → P u → Known P o → P (upper u o)
  upper-Known u none h k = h
  upper-Known u (some o) h k = elim (dec_lt o u) [
    | yes l ↦ subst P (let e : u ≡ max o u = omega arith in e) h
    | no l ↦ subst P (let e : o ≡ max o u = omega arith in e) k
  ]

  stats_loop-Known :
      (index : List (ObjectId × Entry)) (s : Stats)
      → All (λ x. P x.1.meta.last_used) index
      → Known P s.oldest
      → Known P s.newest
      → Known P (stats_loop index s).oldest × Known P (stats_loop index s).newest
  unfolding stats_loop
  stats_loop-Known [] s h a b = (a, b)
  stats_loop-Known ((id, e) ∷ index) s h a b =
      stats_loop-Known index (tally e s) h.1 (lower-Known e.meta.last_used s.oldest h.0 a)
        (upper-Known e.meta.last_used s.newest h.0 b)

used :
    (whole index : List (ObjectId × Entry))
    → ((x : ObjectId × Entry) → Listed x index → Listed x whole)
    → All (λ x. Used whole x.1.meta.last_used) index
used whole [] h = tt
used whole (x ∷ index) h = ((x, h x (inl refl), refl), used whole index (λ y l. h y (inr l)))

stats_loop_rows :
    (index : List (ObjectId × Entry)) (s : Stats)
    → s.row_count + length index < u64_mod
    → (stats_loop index s).row_count ≡ s.row_count + number is_rows index
unfolding stats_loop number
stats_loop_rows [] s h = omega arith
stats_loop_rows ((id, e) ∷ index) s h =
    let step = count_rows_lem e.meta.kind s (length index) (omega arith) in
    let le = is_rows-le e.meta.kind in
    omega (arith, stats_loop_rows index (tally e s) (omega (arith, step, le)), step)

stats_loop_snaps :
    (index : List (ObjectId × Entry)) (s : Stats)
    → s.snapshots + length index < u64_mod
    → (stats_loop index s).snapshots ≡ s.snapshots + number is_snap index
unfolding stats_loop number
stats_loop_snaps [] s h = omega arith
stats_loop_snaps ((id, e) ∷ index) s h =
    let step = count_snap_lem e.meta.kind s (length index) (omega arith) in
    let le = is_snap-le e.meta.kind in
    omega (arith, stats_loop_snaps index (tally e s) (omega (arith, step, le)), step)

-- `stats` counts the objects of rows and the snapshots of the index, every indexed object was last
-- used between the times that it gives as the oldest and the newest, and these are times at which
-- some indexed object was last used; it gives none only for an empty index. The index has fewer
-- than 2^64 objects.
pub stats_lem :
    (c : Cache)
    → length c.index < u64_mod
    → ((stats c).row_count ≡ number is_rows c.index)
      × ((stats c).snapshots ≡ number is_snap c.index)
      × All (λ x. Within x.1.meta.last_used (stats c).oldest (stats c).newest) c.index
      × Known (Used c.index) (stats c).oldest
      × Known (Used c.index) (stats c).newest
unfolding stats
stats_lem c h =
    let known =
      stats_loop-Known (Used c.index) c.index (before c) (used c.index c.index (λ x l. l)) tt tt in
    (
      omega (arith, stats_loop_rows c.index (before c) (omega arith)),
      omega (arith, stats_loop_snaps c.index (before c) (omega arith)),
      stats_loop-All c.index (before c),
      known.0,
      known.1,
    )
