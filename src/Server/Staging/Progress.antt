-- ===== src/Server/Staging/Progress.antt =====
-- crates/tr-infer/src/server/prefix_cache.rs: when a blocking `take` of `Staging` ends.
use tr_infer.Prelude.{
  ℕ, ◌+◌, ◌≤◌, ◌<◌, ◌≡◌, refl, inl, inr, none, some, List, [], ◌∷◌, max, mul64, arith, u64_mod, All,
  All-append, length-replicate,
}
use tr_infer.Cache.Buf.{AlignedBuf, align, capacity, new, pages}
use tr_infer.Server.Staging.{Staging, new_staging, needed, take_round, give, give_all}
use tr_infer.Server.Staging.Buffers.{bytes, bytes-append, IsWhole, Accounted}
use tr_infer.Server.Staging.Budget.{take_round_lem}

-- A new staging area lends nothing.
pub new_staging-Accounted : (budget : ℕ) → Accounted 0 (new_staging budget)
unfolding new_staging
new_staging-Accounted budget = record { sum = omega arith; bounded = omega arith; whole = tt }

pub give-Accounted :
    (out : ℕ) (b : AlignedBuf) (s : Staging)
    → Accounted (out + capacity b) s
    → IsWhole b
    → Accounted out (give b s)
unfolding give
give-Accounted out b s a w = record {
  sum = omega (arith, a.sum, bytes-append s.free (b ∷ []));
  bounded = a.bounded;
  whole = All-append IsWhole s.free (b ∷ []) a.whole (w, tt);
}

give_all-Accounted :
    (out : ℕ) (bufs : List AlignedBuf) (s : Staging)
    → Accounted (out + bytes bufs) s
    → All IsWhole bufs
    → Accounted out (give_all bufs s) × ((give_all bufs s).budget ≡ s.budget)
unfolding give_all give
give_all-Accounted out [] s a w =
    (record { sum = omega (arith, a.sum); bounded = a.bounded; whole = a.whole }, refl)
give_all-Accounted out (b ∷ bufs) s a w =
    let a' : Accounted (out + bytes bufs + capacity b) s = record {
      sum = omega (arith, a.sum);
      bounded = a.bounded;
      whole = a.whole;
    } in
    let (r, same) =
      give_all-Accounted out bufs (give b s) (give-Accounted (out + bytes bufs) b s a' w.0) w.1 in
    (r, same)

-- A buffer of whole pages that is long enough is as long as a new one.
needed-le :
    (len : ℕ) (b : AlignedBuf)
    → len + 4096 < u64_mod
    → IsWhole b
    → len ≤ capacity b
    → needed len ≤ capacity b
unfolding new
needed-le len b h w large =
    omega (arith, w.0, w.1, length-replicate {A = ℕ} (mul64 (max (pages 0) 1) align) 0)

-- When all buffers that are lent have been given back, a round of `take` gets its buffer if the
-- pages of the buffer are within the budget; but if they are not, it gets none, so that a call that
-- blocks waits for ever.
pub take_round-give_all :
    (len : ℕ) (bufs : List AlignedBuf) (s : Staging)
    → Accounted (bytes bufs) s
    → All IsWhole bufs
    → len + 4096 < u64_mod
    → s.budget + needed len < u64_mod
    → (needed len ≤ s.budget
        → (s' : Staging) × (b : AlignedBuf) × (take_round len (give_all bufs s) ≡ some (s', some b))
          × (b.len ≡ len))
      × (s.budget < needed len
          → (s' : Staging) × (take_round len (give_all bufs s) ≡ some (s', none)))
take_round-give_all len bufs s a w h bound =
    let a' : Accounted (0 + bytes bufs) s = record {
      sum = omega (arith, a.sum);
      bounded = a.bounded;
      whole = a.whole;
    } in
    let (r, same) = give_all-Accounted 0 bufs s a' w in
    elim (take_round_lem len 0 (give_all bufs s) r h (omega (arith, same))) [
      | inl (s', b, e, is, large, wb, kept, acc) ↦ (
        (λ fits. (s', b, e, is)),
        (λ over.
            absurd (omega (arith, needed-le len b h wb large, acc.sum, acc.bounded, kept, same))),
      )
      | inr (s', e, none_left, kept, acc, over) ↦
          ((λ fits. absurd (omega (arith, same))), (λ too_long. (s', e)))
    ]
