-- ===== src/Cache/Restore/Contiguous.antt =====
-- A plan restores every position once, in order.
use mathlib.Core.List.{reverse_aux}
use tr_infer.Prelude.{
  ℕ, ◌<◌, ◌≡◌, refl, sym, ◌∙◌, List, [], ◌∷◌, subst, Option, some, some_injective, length,
}
use tr_infer.Cache.Key.{PrefixKey}
use tr_infer.Cache.Object.{ObjectMeta}
use tr_infer.Cache.Index.{Cache}
use tr_infer.Cache.Restore.{RestorePlan, best_restore, after_expiry}
use tr_infer.Cache.Restore.Search.{Chain, nil, cons}
use tr_infer.Cache.Restore.Deepest.{Restorable, Outcome, best_restore-Deepest}

-- Each chunk begins where the one before it ends, the first at `a`, and the last ends at `b`.
abbrev pub Covers : ℕ → ℕ → List ObjectMeta → Type 0
Covers a b [] = a ≡ b
Covers a b (m ∷ ms) = (m.start ≡ a) × (m.start < m.stop) × Covers m.stop b ms

module _ (keys : List PrefixKey) (c : Cache) where
  chain-Covers :
      (p : ℕ) (acc : List ObjectMeta) {cur : ℕ} {l : List ObjectMeta}
      → Chain keys c cur l
      → Covers cur p acc
      → Covers 0 p (reverse_aux l acc)
  chain-Covers p acc nil h = h
  chain-Covers p acc (cons {cur} {m} {l} j r) h = chain-Covers p (m ∷ acc) r (
    refl,
    subst (λ x. m.start < x) (sym j.stop) j.start,
    subst (λ x. Covers x p acc) (sym j.stop) h,
  )

  pub Restorable-Covers :
      (plan : RestorePlan) → Restorable keys c plan → Covers 0 plan.pos plan.chunks
  Restorable-Covers plan r =
      subst (Covers 0 plan.pos) (sym r.in_order) (chain-Covers plan.pos [] r.chain refl)

-- The chunks of a hit cover the positions from 0 to the hit's without a gap and without an
-- overlap, none of them is empty, and the hit is a position of the prompt.
pub best_restore-Covers :
    (clock : ℕ → ℕ) (keys : List PrefixKey) (c c' : Cache) (plan : RestorePlan)
    → best_restore clock keys c ≡ some (some plan, c')
    → Covers 0 plan.pos plan.chunks × (plan.pos < length keys)
best_restore-Covers clock keys c c' plan runs =
    let (o, d, runs', outcome) = best_restore-Deepest clock keys c in
    let same : (o, d) ≡ (some plan, c') = some_injective (sym runs' ∙ runs) in
    let at_plan =
      subst (λ (x : Option RestorePlan × Cache). Outcome clock keys c x.1 x.0) same outcome in
    (Restorable-Covers keys (after_expiry (clock 0) c) plan at_plan.0, at_plan.1)
