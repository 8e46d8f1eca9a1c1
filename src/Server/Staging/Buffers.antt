-- ===== src/Server/Staging/Buffers.antt =====
-- crates/tr-infer/src/server/prefix_cache.rs: lists of staging buffers, and the bytes of a state.
use tr_infer.Prelude.{
  ℕ, zero, suc, ◌+◌, ◌%◌, ◌≤◌, ◌<◌, ◌≡◌, ◌⊎◌, inl, inr, refl, sym, ap, some, List, [], ◌∷◌, ◌++◌,
  length, ltb, add64, sub64, arith, u64_mod, Bool-cases, ltb_false→le, All, dec_le, get_elem?,
}
use tr_infer.Cache.Buf.{AlignedBuf, capacity}
use tr_infer.Server.Staging.{Staging, pop, swap_remove, make_room}

-- The bytes of the free buffers.
abbrev pub bytes : List AlignedBuf → ℕ
bytes [] = 0
bytes (b ∷ free) = capacity b + bytes free

-- A buffer of whole pages.
abbrev pub IsWhole : AlignedBuf → Type 0
IsWhole b = (capacity b % 4096 ≡ 0) × (4096 ≤ capacity b)

-- The bytes of the buffers that exist are accounted for, and within the budget; `out` are those of
-- the buffers that are lent.
pub record Accounted (out : ℕ) (s : Staging) : Type 0 where
  pub sum : s.allocated ≡ out + bytes s.free
  pub bounded : s.allocated ≤ s.budget
  pub whole : All IsWhole s.free

pub bytes-append : (xs ys : List AlignedBuf) → bytes (xs ++ ys) ≡ bytes xs + bytes ys
bytes-append [] ys = omega arith
bytes-append (x ∷ xs) ys = omega (arith, bytes-append xs ys)

bytes-pop :
    (x : AlignedBuf) (xs : List AlignedBuf)
    → capacity (pop x xs).0 + bytes (pop x xs).1 ≡ bytes (x ∷ xs)
bytes-pop x [] = omega arith
bytes-pop x (y ∷ ys) = omega (arith, bytes-pop y ys)

length-pop : {A : Type 0} (x : A) (xs : List A) → length (pop x xs).1 ≡ length xs
length-pop x [] = refl
length-pop x (y ∷ ys) = ap suc (length-pop y ys)

pop-All :
    (x : AlignedBuf) (xs : List AlignedBuf)
    → All IsWhole (x ∷ xs)
    → IsWhole (pop x xs).0 × All IsWhole (pop x xs).1
pop-All x [] h = (h.0, tt)
pop-All x (y ∷ ys) h = let r = pop-All y ys h.1 in (r.0, (h.0, r.1))

-- The buffer that is removed, and what is left.
pub swap_remove_lem :
    (i : ℕ) (xs : List AlignedBuf) (a : AlignedBuf)
    → get_elem? xs i ≡ some a
    → All IsWhole xs
    → (b : AlignedBuf) × (rest : List AlignedBuf) × (swap_remove i xs ≡ some (b, rest))
      × (a ≡ b)
      × (capacity b + bytes rest ≡ bytes xs)
      × IsWhole b
      × All IsWhole rest
unfolding swap_remove
swap_remove_lem i [] a h w = cc
swap_remove_lem zero (x ∷ []) a h w = let e : x ≡ a = cc in (x, [], refl, sym e, refl, w.0, tt)
swap_remove_lem zero (x ∷ y ∷ ys) a h w =
    let p = pop-All y ys w.1 in
    let e : x ≡ a = cc in
    (x, (pop y ys).0 ∷ (pop y ys).1, refl, sym e, omega (arith, bytes-pop y ys), w.0, p)
swap_remove_lem (suc i) (x ∷ xs) a h w =
    let (b, rest, e, is, sum, wb, wr) = swap_remove_lem i xs a h w.1 in
    (b, x ∷ rest, rw e, is, omega arith, wb, (w.0, wr))

-- What the loop that drops buffers leaves.
abbrev Room : (out budget need : ℕ) → ℕ × List AlignedBuf → Type 0
Room out budget need r =
    (r.0 ≡ out + bytes r.1)
    × (r.0 ≤ budget)
    × All IsWhole r.1
    × ((r.0 + need ≤ budget) ⊎ ((r.1 ≡ []) × (budget < r.0 + need)))

pub make_room_lem :
    (f out budget need allocated : ℕ) (free : List AlignedBuf)
    → f ≡ length free
    → allocated ≡ out + bytes free
    → allocated ≤ budget
    → All IsWhole free
    → budget + need < u64_mod
    → Room out budget need (make_room f budget need allocated free)
unfolding make_room
make_room_lem zero out budget need allocated [] e sum bounded w b = (
  sum,
  bounded,
  tt,
  elim (dec_le (allocated + need) budget) [ yes l ↦ inl l | no n ↦ inr (refl, omega arith) ],
)
make_room_lem zero out budget need allocated (x ∷ free) e sum bounded w b = absurd (omega arith)
make_room_lem (suc f) out budget need allocated [] e sum bounded w b = absurd (omega arith)
make_room_lem (suc f) out budget need allocated (x ∷ free) e sum bounded w b =
    elim (Bool-cases (ltb budget (add64 allocated need))) [
      | inl over ↦
          let p = pop-All x free w in
          let total = bytes-pop x free in
          rw over (
            make_room_lem f out budget need (sub64 allocated (capacity (pop x free).0))
              (pop x free).1 (omega (arith, length-pop x free)) (omega arith) (omega arith) p.1 b)
      | inr fits ↦
          let l = ltb_false→le budget (add64 allocated need) fits in
          rw fits (sum, bounded, w, inl (omega arith))
    ]
