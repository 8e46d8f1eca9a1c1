-- ===== src/Cache/Buf.antt =====
-- crates/tr-cache/src/buf.rs: an aligned host buffer. The memory is the list of the bytes of the
-- whole allocation; the visible part is its first `len` bytes.
use tr_infer.Prelude.{
  ℕ, ◌+◌, ◌/◌, ◌%◌, ◌≤◌, ◌<◌, ◌≡◌, refl, ◌∙◌, Option, none, some, List, ◌++◌, length, take, drop,
  replicate, max, leb, u64_mod, mul64, if◌then◌else◌, arith, length-replicate, length-append,
  length-take, length-drop, ap, sym, take-append, drop-append, append_assoc,
}

-- `ALIGN` of object.rs
abbrev pub align : ℕ
align = 4096

-- `usize::div_ceil(ALIGN)`
abbrev pub pages : ℕ → ℕ
pages n = (n + 4095) / 4096

pub record AlignedBuf : Type 0 where
  pub memory : List ℕ
  pub len : ℕ

abbrev pub capacity : AlignedBuf → ℕ
capacity b = length b.memory

-- `AlignedBuf::new`: zeroed, of at least one page.
unfoldable pub new : ℕ → AlignedBuf
new len = record { memory = replicate (mul64 (max (pages len) 1) align) 0; len = len }

-- `set_len`; `none` is the failed assertion.
unfoldable pub set_len : AlignedBuf → ℕ → Option AlignedBuf
set_len b len = if leb len (capacity b) then some (record b { len = len }) else none

-- The bytes that `deref` shows.
unfoldable pub visible : AlignedBuf → List ℕ
visible b = take b.len b.memory

-- `buf[at..at + data.len()].copy_from_slice(data)`
unfoldable pub write : AlignedBuf → ℕ → List ℕ → AlignedBuf
write b at data' = record b {
  memory = take at b.memory ++ (data' ++ drop (at + length data') b.memory);
}

pub new_lem :
    (n : ℕ)
    → n + 4096 ≤ u64_mod
    → (n ≤ capacity (new n))
      × (capacity (new n) % align ≡ 0)
      × (capacity (new n) < n + align + 1)
      × (length (visible (new n)) ≡ n)
unfolding new visible
new_lem n h =
    let c = mul64 (max (pages n) 1) align in
    let size = length-replicate {A = ℕ} c 0 in
    (
      omega (arith, size),
      omega (arith, size),
      omega (arith, size),
      omega (arith, size, length-take {A = ℕ} n (replicate c 0)),
    )

-- What a write leaves of the visible bytes before, at and behind its place.
pub visible-write :
    (b : AlignedBuf) (at : ℕ) (data' : List ℕ)
    → at + length data' ≤ capacity b
    → (take at (write b at data').memory ≡ take at b.memory)
      × (take (length data') (drop at (write b at data').memory) ≡ data')
      × (drop (at + length data') (write b at data').memory ≡ drop (at + length data') b.memory)
      × (capacity (write b at data') ≡ capacity b)
unfolding write
visible-write b at data' h =
    let front = take at b.memory in
    let back = drop (at + length data') b.memory in
    let size : length front ≡ at = omega (arith, length-take at b.memory) in
    (
      take-append front (data' ++ back) at (sym size),
      ap (take (length data')) (drop-append front (data' ++ back) at (sym size))
          ∙ take-append data' back (length data') refl,
      rw (← append_assoc front data' back) (
          drop-append (front ++ data') back (at + length data')
            (omega (arith, size, length-append {0} front data'))),
      omega (
        arith,
        size,
        length-append {0} front (data' ++ back),
        length-append {0} data' back,
        length-drop (at + length data') b.memory,
      ),
    )
