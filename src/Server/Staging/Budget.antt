-- ===== src/Server/Staging/Budget.antt =====
-- crates/tr-infer/src/server/prefix_cache.rs: the bytes that `Staging` accounts for.
use tr_infer.Prelude.{
  ℕ, ◌+◌, ◌≤◌, ◌<◌, ◌≡◌, ◌⊎◌, inl, inr, refl, ap, Bool, true, false, ◌&&◌, Option, none, some, List,
  [], ◌∷◌, length, max, leb, add64, mul64, arith, u64_mod, Bool-cases, Option-cases, leb→le,
  length-replicate, subst, get_elem?,
}
use tr_infer.Cache.Buf.{AlignedBuf, align, capacity, new, pages, set_len}
use tr_infer.Server.Staging.{
  Staging, suits, better, behind, smallest, make_room, needed, take_new, take_round,
}
use tr_infer.Server.Staging.Buffers.{bytes, IsWhole, Accounted, swap_remove_lem, make_room_lem}

both : (a b : Bool) → (a && b) ≡ true → (a ≡ true) × (b ≡ true)
both true b h = (refl, h)
both false b h = cc

-- The place of a free buffer that is large enough.
IsPlace : ℕ → List AlignedBuf → Option (ℕ × ℕ) → Type 0
IsPlace len free none = Unit
IsPlace len free (some (i, c)) = (b : AlignedBuf) × (get_elem? free i ≡ some b) × (len ≤ capacity b)

better-IsPlace :
    (len : ℕ) (b : AlignedBuf) (free : List AlignedBuf) (o : Option (ℕ × ℕ))
    → len ≤ capacity b
    → IsPlace len free o
    → IsPlace len (b ∷ free) (some (better (capacity b) o))
unfolding IsPlace
better-IsPlace len b free none h p = (b, refl, h)
better-IsPlace len b free (some (j, d)) h p = elim (Bool-cases (leb (capacity b) d)) [
  | inl l ↦ rw l (b, refl, h)
  | inr m ↦ rw m p
]

behind-IsPlace :
    (len : ℕ) (b : AlignedBuf) (free : List AlignedBuf) (o : Option (ℕ × ℕ))
    → IsPlace len free o
    → IsPlace len (b ∷ free) (behind o)
unfolding IsPlace
behind-IsPlace len b free none p = tt
behind-IsPlace len b free (some (j, d)) p = p

smallest-IsPlace : (len : ℕ) (free : List AlignedBuf) → IsPlace len free (smallest len free)
unfolding smallest IsPlace
smallest-IsPlace len [] = tt
smallest-IsPlace len (b ∷ free) = elim (Bool-cases (suits len b)) [
  | inl good ↦
      let (large, _) =
        both (leb len (capacity b)) (leb (capacity b) (mul64 2 (max len 1048576))) good in
      rw good (
        better-IsPlace len b free (smallest len free) (leb→le len (capacity b) large)
          (smallest-IsPlace len free))
  | inr bad ↦ rw bad (behind-IsPlace len b free (smallest len free) (smallest-IsPlace len free))
]

-- Every outcome of a round of `take`.
abbrev pub TakeOutcome : ℕ → ℕ → Staging → Option (Staging × Option AlignedBuf) → Type 0
TakeOutcome len out s r =
    ((s' : Staging) × (b : AlignedBuf) × (r ≡ some (s', some b))
      × (b.len ≡ len)
      × (len ≤ capacity b)
      × IsWhole b
      × (s'.budget ≡ s.budget)
      × Accounted (out + capacity b) s')
    ⊎ ((s' : Staging) × (r ≡ some (s', none))
        × (s'.free ≡ [])
        × (s'.budget ≡ s.budget)
        × Accounted out s'
        × (s.budget < out + needed len))

needed-capacity : (len : ℕ) → len + 4096 < u64_mod → capacity (new len) ≡ needed len
unfolding new
needed-capacity len h = omega (
  arith,
  length-replicate {A = ℕ} (mul64 (max (pages len) 1) align) 0,
  length-replicate {A = ℕ} (mul64 (max (pages 0) 1) align) 0,
)

new-IsWhole : (len : ℕ) → len + 4096 < u64_mod → (len ≤ capacity (new len)) × IsWhole (new len)
unfolding new
new-IsWhole len h =
    let size = length-replicate {A = ℕ} (mul64 (max (pages len) 1) align) 0 in
    (omega (arith, size), (omega (arith, size), omega (arith, size)))

take_new-lem :
    (len out : ℕ) (s : Staging)
    → Accounted out s
    → len + 4096 < u64_mod
    → s.budget + needed len < u64_mod
    → TakeOutcome len out s (some (take_new len s))
unfolding take_new new
take_new-lem len out s a h b =
    let r = make_room (length s.free) s.budget (needed len) s.allocated s.free in
    let (sum, bounded, w, room) =
      make_room_lem (length s.free) out s.budget (needed len) s.allocated s.free refl a.sum
        a.bounded a.whole b in
    let size = needed-capacity len h in
    let fresh = new-IsWhole len h in
    elim room [
      | inl fits ↦
          let t : leb (add64 r.0 (needed len)) s.budget ≡ true =
            let k : add64 r.0 (needed len) ≤ s.budget = omega arith in ground arith in
          inl (
            record s { allocated = add64 r.0 (needed len); free = r.1 },
            new len,
            rw t,
            refl,
            fresh.0,
            fresh.1,
            refl,
            record { sum = omega arith; bounded = omega arith; whole = w },
          )
      | inr (none_left, over) ↦
          let f : leb (add64 r.0 (needed len)) s.budget ≡ false =
            let k : s.budget < add64 r.0 (needed len) = omega arith in ground arith in
          inr (
            record s { allocated = r.0; free = r.1 },
            rw f,
            none_left,
            refl,
            record { sum = sum; bounded = bounded; whole = w },
            omega (arith, ap bytes none_left),
          )
    ]

-- A round of `take` never panics and keeps the bytes accounted for and within the budget. It gives
-- a buffer of the length, from the free ones or a new one, unless the buffers that are lent leave
-- no room for a new one; then all free buffers are dropped.
pub take_round_lem :
    (len out : ℕ) (s : Staging)
    → Accounted out s
    → len + 4096 < u64_mod
    → s.budget + needed len < u64_mod
    → TakeOutcome len out s (take_round len s)
unfolding take_round set_len IsPlace
take_round_lem len out s a h b = elim (Option-cases (smallest len s.free)) [
  | inl e ↦ rw (e, take_round) (take_new-lem len out s a h b)
  | inr ((i, c), e) ↦
      let (x, there, large) = subst (IsPlace len s.free) e (smallest-IsPlace len s.free) in
      let (x', rest, removed, is, sum, wb, wr) = swap_remove_lem i s.free x there a.whole in
      let same = ap capacity is in
      let fits : leb len (capacity x') ≡ true =
        let k : len ≤ capacity x' = omega arith in ground arith in
      inl (
        record s { free = rest },
        record x' { len = len },
        rw (e, take_round, removed, fits),
        refl,
        omega arith,
        wb,
        refl,
        record { sum = omega (arith, a.sum); bounded = a.bounded; whole = wr },
      )
]
