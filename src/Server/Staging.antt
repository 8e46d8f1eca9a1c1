-- ===== src/Server/Staging.antt =====
-- crates/tr-infer/src/server/prefix_cache.rs: `Staging`, the host buffers of objects in flight.
pub mod Buffers
pub mod Budget
pub mod Progress
use tr_infer.Prelude.{
  ℕ, zero, suc, ◌+◌, ◌*◌, Bool, true, false, ◌&&◌, Option, none, some, List, [], ◌∷◌, ◌++◌, length,
  set, get_elem?, max, leb, ltb, if◌then◌else◌, add64, sub64, mul64,
}
use tr_infer.Cache.Buf.{AlignedBuf, capacity, new, pages, set_len}

-- `Staging` with the fields of `StagingInner`.
pub record Staging : Type 0 where
  pub budget : ℕ
  pub allocated : ℕ
  pub free : List AlignedBuf

-- `Staging::new`
unfoldable pub new_staging : ℕ → Staging
new_staging budget = record { budget = max budget 1; allocated = 0; free = [] }

-- The filter of `take`.
abbrev pub suits : ℕ → AlignedBuf → Bool
suits len b = leb len (capacity b) && leb (capacity b) (mul64 2 (max len 1048576))

-- The smaller one of a buffer and the best of those behind it; the first one of equals.
abbrev pub better : ℕ → Option (ℕ × ℕ) → ℕ × ℕ
better c none = (0, c)
better c (some (i, d)) = if leb c d then (0, c) else (suc i, d)

abbrev pub behind : Option (ℕ × ℕ) → Option (ℕ × ℕ)
behind none = none
behind (some (i, d)) = some (suc i, d)

-- `min_by_key`: the place and the capacity of the smallest free buffer that suits.
unfoldable pub smallest : ℕ → List AlignedBuf → Option (ℕ × ℕ)
smallest len [] = none
smallest len (b ∷ free) =
    let rest = smallest len free in
    if suits len b then some (better (capacity b) rest) else behind rest

-- The last element, and what is in front of it.
abbrev pub pop {ℓ} : {A : Type ℓ} → A → List A → A × List A
pop x [] = (x, [])
pop x (y ∷ ys) = let (l, rest) = pop y ys in (l, x ∷ rest)

-- `swap_remove`: the last element takes the place of the one that is removed.
unfoldable pub swap_remove {ℓ} : {A : Type ℓ} → ℕ → List A → Option (A × List A)
swap_remove i [] = none
swap_remove zero (x ∷ []) = some (x, [])
swap_remove zero (x ∷ y ∷ ys) = let (l, rest) = pop y ys in some (x, l ∷ rest)
swap_remove (suc i) (x ∷ xs) = elim (swap_remove i xs) [
  | none ↦ none
  | some (a, rest) ↦ some (a, x ∷ rest)
]

-- The loop that drops free buffers, the last one first.
unfoldable pub make_room : ℕ → ℕ → ℕ → ℕ → List AlignedBuf → ℕ × List AlignedBuf
make_room zero budget need allocated free = (allocated, free)
make_room (suc f) budget need allocated [] = (allocated, [])
make_room (suc f) budget need allocated (b ∷ free) =
    let (l, rest) = pop b free in
    let dropped = make_room f budget need (sub64 allocated (capacity l)) rest in
    if ltb budget (add64 allocated need) then dropped else (allocated, b ∷ free)

-- The bytes that a new buffer takes.
abbrev pub needed : ℕ → ℕ
needed len = max (capacity (new 0)) (mul64 (pages len) 4096)

abbrev pub leased : Staging → Option AlignedBuf → Option (Staging × Option AlignedBuf)
leased s none = none
leased s (some b) = some (s, some b)

-- Without a free buffer that suits: a new one, if there is room.
unfoldable pub take_new : ℕ → Staging → Staging × Option AlignedBuf
unfolding make_room
take_new len s =
    let (allocated, free) = make_room (length s.free) s.budget (needed len) s.allocated s.free in
    if leb (add64 allocated (needed len)) s.budget
    then (record s { allocated = add64 allocated (needed len); free = free }, some (new len))
    else (record s { allocated = allocated; free = free }, none)

-- One round of the loop of `take`; no buffer says that a blocking call waits for a `give`, and that
-- another one returns without. `none` is a panic.
unfoldable pub take_round : ℕ → Staging → Option (Staging × Option AlignedBuf)
unfolding smallest swap_remove set_len take_new
take_round len s = elim (smallest len s.free) [
  | none ↦ some (take_new len s)
  | some (i, c) ↦ elim (swap_remove i s.free) [
    | none ↦ none
    | some (b, rest) ↦ leased (record s { free = rest }) (set_len b len)
  ]
]

-- `give`
unfoldable pub give : AlignedBuf → Staging → Staging
give b s = record s { free = s.free ++ b ∷ [] }

-- A sequence of `give`, by other threads.
unfoldable pub give_all : List AlignedBuf → Staging → Staging
unfolding give
give_all [] s = s
give_all (b ∷ bufs) s = give_all bufs (give b s)
