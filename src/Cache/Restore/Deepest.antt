-- ===== src/Cache/Restore/Deepest.antt =====
-- `best_restore` finds the deepest restorable position, and a miss means that there is none.
use mathlib.Core.List.{reverse}
use tr_infer.Prelude.{
  ℕ, zero, suc, ◌-◌, ◌≤◌, ◌<◌, ◌≡◌, ◌≢◌, refl, sym, ap, ◌∙◌, true, Option, none, some, List, length,
  ◌==◌, inl, inr, ◌⊎◌, Option-cases, Bool-cases, get_elem?, get_elem?-lt, arith, subst, add64,
  ==_iff, ℕ_discrete, dec_lt,
}
use tr_infer.Cache.Key.{PrefixKey}
use tr_infer.Cache.Object.{snap, ObjectMeta}
use tr_infer.Cache.Index.{Entry, Cache, find}
use tr_infer.Cache.Restore.{
  RestorePlan, Walk, complete, broken, panic, walk, Found, found, absent, crashed, plan_of,
  snapshot_round, key_round, round, search, after_expiry, finish, best_restore,
}
use tr_infer.Cache.Restore.Search.{Chain, walk-Chain, Chain-walk, walk-ne-panic}

-- A plan that the cache can serve: the snapshot at the position, and the chunks that lead to it
-- from position 0.
pub record Restorable (keys : List PrefixKey) (c : Cache) (plan : RestorePlan) : Type 0 where
  pub key : PrefixKey
  pub entry : Entry
  pub positive : 0 < plan.pos
  pub at_pos : get_elem? keys plan.pos ≡ some key
  pub stored : find c (record { key = key; kind = snap }) ≡ some entry
  pub same : entry.meta ≡ plan.snapshot
  pub stop : plan.snapshot.stop ≡ plan.pos
  pub back : List ObjectMeta
  pub chain : Chain keys c plan.pos back
  pub in_order : plan.chunks ≡ reverse back

Found-cases :
    (o : Found) → ((plan : RestorePlan) × (o ≡ found plan)) ⊎ ((o ≡ absent) ⊎ (o ≡ crashed))
Found-cases (found plan) = inl (plan, refl)
Found-cases absent = inr (inl refl)
Found-cases crashed = inr (inr refl)

module _ (keys : List PrefixKey) (c : Cache) where
  plan_found :
      (p : ℕ) (k : PrefixKey) (e : Entry) (plan : RestorePlan) (w : Walk)
      → 0 < p
      → get_elem? keys p ≡ some k
      → find c (record { key = k; kind = snap }) ≡ some e
      → e.meta.stop ≡ p
      → walk p keys c p ≡ w
      → plan_of p e.meta w ≡ found plan
      → Restorable keys c plan × (plan.pos ≡ p)
  plan_found p k e plan (complete l) pos a b t w h =
      let same : record { pos = p; snapshot = e.meta; chunks = reverse l } ≡ plan = cc in
      let at_p : Restorable keys c (record { pos = p; snapshot = e.meta; chunks = reverse l }) =
        record {
          key = k;
          entry = e;
          positive = pos;
          at_pos = a;
          stored = b;
          same = refl;
          stop = t;
          back = l;
          chain = walk-Chain keys c p p l w;
          in_order = refl;
        } in
      (subst (Restorable keys c) same at_p, ap (λ (x : RestorePlan). x.pos) (sym same))
  plan_found p k e plan broken pos a b t w h = cc
  plan_found p k e plan panic pos a b t w h = cc

  snapshot_found :
      (p : ℕ) (k : PrefixKey) (o : Option Entry) (plan : RestorePlan)
      → 0 < p
      → get_elem? keys p ≡ some k
      → find c (record { key = k; kind = snap }) ≡ o
      → snapshot_round keys c p o ≡ found plan
      → Restorable keys c plan × (plan.pos ≡ p)
  snapshot_found p k none plan pos a b h = cc
  snapshot_found p k (some e) plan pos a b h = elim (Bool-cases (e.meta.stop == p)) [
    | inr t ↦ cc (rw t at h)
    | inl t ↦ plan_found p k e plan (walk p keys c p) pos a b ((==_iff _ _).0 t) refl (rw t at h)
  ]

  key_found :
      (p : ℕ) (o : Option PrefixKey) (plan : RestorePlan)
      → 0 < p
      → get_elem? keys p ≡ o
      → key_round keys c p o ≡ found plan
      → Restorable keys c plan × (plan.pos ≡ p)
  key_found p none plan pos a h = cc
  key_found p (some k) plan pos a h =
      snapshot_found p k (find c (record { key = k; kind = snap })) plan pos a refl h

  round-Restorable :
      (p : ℕ) (plan : RestorePlan)
      → 0 < p
      → round keys c p ≡ found plan
      → Restorable keys c plan × (plan.pos ≡ p)
  unfolding round
  round-Restorable p plan pos h = key_found p (get_elem? keys p) plan pos refl h

  Restorable-round : (plan : RestorePlan) → Restorable keys c plan → round keys c plan.pos ≢ absent
  unfolding round
  Restorable-round plan r h =
      let e = r.entry in
      let stops : (e.meta.stop == plan.pos) ≡ true =
        (==_iff _ _).1 (ap (λ (m : ObjectMeta). m.stop) r.same ∙ r.stop) in
      let walks = Chain-walk keys c plan.pos (omega arith) r.chain in
      cc (rw (r.at_pos, r.stored, stops, walks) at h)

  plan_of-ne-crashed : (p : ℕ) (m : ObjectMeta) (w : Walk) → w ≢ panic → plan_of p m w ≢ crashed
  plan_of-ne-crashed p m (complete l) n h = cc
  plan_of-ne-crashed p m broken n h = cc
  plan_of-ne-crashed p m panic n h = n refl

  round-ne-crashed : (p : ℕ) → p < length keys → round keys c p ≢ crashed
  unfolding round
  round-ne-crashed p h out =
      let (k, a) = get_elem?-lt keys p h in
      elim (Option-cases (find c (record { key = k; kind = snap }))) [
        | inl e ↦ cc (rw (a, e) at out)
        | inr (e, b) ↦ elim (Bool-cases (e.meta.stop == p)) [
          | inr t ↦ cc (rw (a, b, t) at out)
          | inl t ↦
              plan_of-ne-crashed p e.meta (walk p keys c p)
                (walk-ne-panic keys c p p (omega arith) h) (rw (a, b, t) at out)
        ]
      ]

  -- The deepest restorable position up to `p`.
  abbrev pub Deepest : ℕ → Found → Type 0
  Deepest p (found plan) =
      Restorable keys c plan
      × (plan.pos ≤ p)
      × ((other : RestorePlan) → Restorable keys c other → other.pos ≤ p → other.pos ≤ plan.pos)
  Deepest p absent = (other : RestorePlan) → Restorable keys c other → other.pos ≤ p → ⊥
  Deepest p crashed = ⊥

  below :
      (p : ℕ) (other : RestorePlan)
      → round keys c (suc p) ≡ absent
      → Restorable keys c other
      → other.pos ≤ suc p
      → other.pos ≤ p
  below p other e o k = elim (ℕ_discrete other.pos (suc p)) [
    | yes q ↦ absurd (Restorable-round other o (ap (round keys c) q ∙ e))
    | no q ↦ omega arith
  ]

  deeper : (p : ℕ) (o : Found) → round keys c (suc p) ≡ absent → Deepest p o → Deepest (suc p) o
  deeper p (found plan) e d =
      (d.0, omega (arith, d.1), λ other r k. d.2 other r (below p other e r k))
  deeper p absent e d = λ other r k. d other r (below p other e r k)
  deeper p crashed e d = d

  search-Deepest_from : (p : ℕ) → (p < length keys) ⊎ (p ≡ 0) → Deepest p (search keys c p)
  unfolding search
  search-Deepest_from zero h = λ other r k. omega (arith, r.positive)
  search-Deepest_from (suc p) h =
      let inside : suc p < length keys = elim h [ inl k ↦ k | inr k ↦ absurd (omega arith) ] in
      elim (Found-cases (round keys c (suc p))) [
        | inl (plan, e) ↦
            let (r, at) = round-Restorable (suc p) plan (omega arith) e in
            rw (e, search) (r, omega arith, λ other o k. omega arith)
        | inr (inl e) ↦
            rw (e, search)
              (deeper p (search keys c p) e (search-Deepest_from p (inl (omega arith))))
        | inr (inr e) ↦ absurd (round-ne-crashed (suc p) inside e)
      ]

  -- The search of a call.
  pub search-Deepest : Deepest (length keys - 1) (search keys c (length keys - 1))
  search-Deepest =
      search-Deepest_from (length keys - 1)
        (elim (dec_lt 0 (length keys)) [ yes p ↦ inl (omega arith) | no p ↦ inr (omega arith) ])

-- The outcome of a call.
abbrev pub Outcome : (ℕ → ℕ) → List PrefixKey → Cache → Cache → Option RestorePlan → Type 0
Outcome clock keys c c' none =
    ((other : RestorePlan)
      → Restorable keys (after_expiry (clock 0) c) other
      → other.pos < length keys
      → ⊥)
    × (c'
        ≡ record (after_expiry (clock 0) c) { misses = add64 (after_expiry (clock 0) c).misses 1 })
Outcome clock keys c c' (some plan) =
    Restorable keys (after_expiry (clock 0) c) plan
    × (plan.pos < length keys)
    × ((other : RestorePlan)
        → Restorable keys (after_expiry (clock 0) c) other
        → other.pos < length keys
        → other.pos ≤ plan.pos)

-- `best_restore` does not panic. After the idle objects are dropped, a hit is a plan that the
-- cache can serve (a snapshot at its position, and rows chunks that lead back to position 0
-- without a gap, both under the prompt's own keys), and no position of the prompt behind it has
-- one; a miss says that no position has one, and only counts.
pub best_restore-Deepest :
    (clock : ℕ → ℕ) (keys : List PrefixKey) (c : Cache)
    → (plan : Option RestorePlan) × (c' : Cache) × (best_restore clock keys c ≡ some (plan, c'))
      × Outcome clock keys c c' plan
unfolding best_restore finish
best_restore-Deepest clock keys c =
    let c1 = after_expiry (clock 0) c in
    go (search keys c1 (length keys - 1)) (search-Deepest keys c1)
  where
    go :
        (o : Found)
        → Deepest keys (after_expiry (clock 0) c) (length keys - 1) o
        → (plan : Option RestorePlan) × (c' : Cache) × (finish
              (λ i. clock (suc i))
              o
              (after_expiry (clock 0) c)
            ≡ some (plan, c'))
          × Outcome clock keys c c' plan
    go (found plan) d = (
      some plan,
      _,
      refl,
      (d.0, omega (arith, d.1, d.0.positive), λ other r k. d.2 other r (omega arith)),
    )
    go absent d = (none, _, refl, (λ other r k. d other r (omega arith), refl))
    go crashed d = absurd d
