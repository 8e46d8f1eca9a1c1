-- ===== src/Cache/Restore/Valid.antt =====
-- `best_restore` keeps the invariant of the index, and marks what it returns as used.

use tr_infer.Prelude.{
  length-reverse, ℕ, suc, ◌+◌, ◌-◌, ◌≤◌, ◌≡◌, ap, Option, some, List, [], ◌∷◌, length, inl, inr,
  Option-cases, arith, some_injective, subst,
}
use tr_infer.Cache.Key.{PrefixKey}
use tr_infer.Cache.Object.{rows, ObjectMeta}
use tr_infer.Cache.Index.{ObjectId, Cache, find, touch}
use tr_infer.Cache.Index.Valid.{IsValid}
use tr_infer.Cache.Index.Valid.Steps.{HasRoom, touch-IsValid}
use tr_infer.Cache.Index.Valid.Expire.{expire_idle_exact}
use tr_infer.Cache.Restore.{
  RestorePlan, touch_all, touch_plan, after_expiry, finish, Found, found, absent, crashed, search,
  best_restore,
}
use tr_infer.Cache.Restore.Search.{Chain, nil, cons}
use tr_infer.Cache.Restore.Deepest.{Restorable, Deepest, search-Deepest}

seq-touch-le :
    (now : ℕ) (id : ObjectId) (c : Cache) → HasRoom c 1 → (touch now id c).seq ≤ c.seq + 1
unfolding touch
seq-touch-le now id c room = elim (Option-cases (find c id)) [
  | inl e ↦ rw (e, touch) (omega arith)
  | inr (x, e) ↦ rw (e, touch) (omega arith)
]

touch_all-IsValid :
    (clock : ℕ → ℕ) (ms : List ObjectMeta) (c : Cache)
    → IsValid c
    → HasRoom c (length ms + 1)
    → IsValid (touch_all clock ms c) × ((touch_all clock ms c).seq ≤ c.seq + length ms)
unfolding touch_all
touch_all-IsValid clock [] c v room = (v, omega arith)
touch_all-IsValid clock (m ∷ ms) c v room =
    let id : ObjectId = record { key = m.key; kind = rows } in
    let (valid, steps) =
      touch_all-IsValid (λ i. clock (suc i)) ms (touch (clock 0) id c)
        (touch-IsValid (clock 0) id c v (omega arith))
        (omega (arith, seq-touch-le (clock 0) id c (omega arith))) in
    (valid, omega (arith, seq-touch-le (clock 0) id c (omega arith)))

touch_plan-IsValid :
    (clock : ℕ → ℕ) (plan : RestorePlan) (c : Cache)
    → IsValid c
    → HasRoom c (length plan.chunks + 1)
    → IsValid (touch_plan clock plan c)
unfolding touch_plan
touch_plan-IsValid clock plan c v room =
    let (valid, steps) = touch_all-IsValid clock plan.chunks c v room in
    touch-IsValid _ _ _ valid (omega arith)

length-Chain-le :
    (keys : List PrefixKey) (c : Cache) {cur : ℕ} {l : List ObjectMeta}
    → Chain keys c cur l
    → length l ≤ cur
length-Chain-le keys c nil = omega arith
length-Chain-le keys c (cons j r) = omega (arith, j.start, length-Chain-le keys c r)

length-chunks-le :
    (keys : List PrefixKey) (c : Cache) (plan : RestorePlan)
    → Restorable keys c plan
    → length plan.chunks ≤ plan.pos
length-chunks-le keys c plan r =
    omega (arith, length-Chain-le keys c r.chain, ap length r.in_order, length-reverse r.back)

after_expiry-IsValid : (now : ℕ) (c : Cache) → IsValid c → IsValid (after_expiry now c)
unfolding after_expiry
after_expiry-IsValid now c v = (expire_idle_exact now c v).0

seq-after_expiry : (now : ℕ) (c : Cache) → IsValid c → (after_expiry now c).seq ≡ c.seq
unfolding after_expiry
seq-after_expiry now c v = (expire_idle_exact now c v).2.seq

finish-IsValid :
    (clock : ℕ → ℕ) (keys : List PrefixKey) (o : Found) (c c' : Cache) (plan : Option RestorePlan)
    → IsValid c
    → HasRoom c (length keys + 1)
    → Deepest keys c (length keys - 1) o
    → finish clock o c ≡ some (plan, c')
    → IsValid c'
unfolding finish
finish-IsValid clock keys (found plan) c c' plan' v room d runs =
    subst IsValid (ap (λ (x : Option RestorePlan × Cache). x.1) (some_injective runs)) (
      touch_plan-IsValid clock plan c v
        (omega (arith, length-chunks-le keys c plan d.0, d.1, d.0.positive)))
finish-IsValid clock keys absent c c' plan' v room d runs =
    subst IsValid (ap (λ (x : Option RestorePlan × Cache). x.1) (some_injective runs)) v
finish-IsValid clock keys crashed c c' plan' v room d runs = absurd d

-- `best_restore` keeps the invariant, when the clock of uses has room for as many touches as the
-- prompt has keys, and one more.
pub best_restore-IsValid :
    (clock : ℕ → ℕ) (keys : List PrefixKey) (c c' : Cache) (plan : Option RestorePlan)
    → IsValid c
    → HasRoom c (length keys + 1)
    → best_restore clock keys c ≡ some (plan, c')
    → IsValid c'
unfolding best_restore
best_restore-IsValid clock keys c c' plan v room runs =
    finish-IsValid (λ i. clock (suc i)) keys
      (search keys (after_expiry (clock 0) c) (length keys - 1)) (after_expiry (clock 0) c) c' plan
      (after_expiry-IsValid (clock 0) c v) (omega (arith, seq-after_expiry (clock 0) c v))
      (search-Deepest keys (after_expiry (clock 0) c)) runs
