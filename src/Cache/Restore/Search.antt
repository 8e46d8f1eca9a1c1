-- ===== src/Cache/Restore/Search.antt =====
-- The inner loop follows the chain of rows chunks back to position 0.
use tr_infer.Prelude.{
  ℕ, zero, suc, ◌≤◌, ◌<◌, ◌≡◌, ◌≢◌, refl, sym, ap, ◌∙◌, true, ◌&&◌, Option, none, some, List, [],
  ◌∷◌, length, ltb, ◌==◌, inl, inr, ◌⊎◌, Option-cases, Bool-cases, get_elem?, get_elem?-lt, arith,
  subst, if_pos,
}
use tr_infer.Cache.Key.{PrefixKey, PrefixKey-discrete}
use tr_infer.Cache.Object.{rows, ObjectMeta}
use tr_infer.Cache.Index.{Entry, Cache, find}
use tr_infer.Cache.Restore.{
  Link, linked, unlinked, out_of_range, parent_link, entry_link, key_link, link, Walk, complete,
  broken, panic, push, walk,
}

-- The rows chunk of `m` ends at `cur` and begins at an earlier position of the prompt; both keys of
-- it are the prompt's.
pub record Joins (keys : List PrefixKey) (c : Cache) (cur : ℕ) (m : ObjectMeta) : Type 0 where
  pub key : PrefixKey
  pub entry : Entry
  pub at_end : get_elem? keys cur ≡ some key
  pub stored : find c (record { key = key; kind = rows }) ≡ some entry
  pub same : entry.meta ≡ m
  pub stop : m.stop ≡ cur
  pub start : m.start < cur
  pub at_start : get_elem? keys m.start ≡ some m.parent

-- The rows chunks that lead from `cur` back to 0, the last one first.
pub data Chain (keys : List PrefixKey) (c : Cache) : ℕ → List ObjectMeta → Type 0 where
  nil : Chain keys c zero []
  cons :
      {cur : ℕ} {m : ObjectMeta} {l : List ObjectMeta}
      → Joins keys c cur m
      → Chain keys c m.start l
      → Chain keys c cur (m ∷ l)

complete_injective : {l r : List ObjectMeta} → complete l ≡ complete r → l ≡ r
complete_injective e = cc

parent_in_range : (q : PrefixKey) (m : ObjectMeta) → parent_link (some q) m ≢ out_of_range
parent_in_range q m h = elim (PrefixKey-discrete q m.parent) [
  | yes p ↦ ground arith
  | no p ↦ ground arith
]

module _ (keys : List PrefixKey) (c : Cache) (cur : ℕ) where
  parent-Joins :
      (k : PrefixKey) (e : Entry) (o : Option PrefixKey) (m : ObjectMeta)
      → get_elem? keys cur ≡ some k
      → find c (record { key = k; kind = rows }) ≡ some e
      → (e.meta.stop == cur && ltb e.meta.start cur) ≡ true
      → get_elem? keys e.meta.start ≡ o
      → parent_link o e.meta ≡ linked m
      → Joins keys c cur m
  parent-Joins k e none m a b t o h = cc
  parent-Joins k e (some q) m a b t o h = elim (PrefixKey-discrete q e.meta.parent) [
    | yes p ↦
        let same : e.meta ≡ m = ground arith in
        record {
          key = k;
          entry = e;
          at_end = a;
          stored = b;
          same = same;
          stop = ground arith;
          start = ground arith;
          at_start =
              subst (λ (x : ObjectMeta). get_elem? keys x.start ≡ some x.parent) same
                (o ∙ ap some p);
        }
    | no p ↦ absurd (ground arith)
  ]

  entry-Joins :
      (k : PrefixKey) (o : Option Entry) (m : ObjectMeta)
      → get_elem? keys cur ≡ some k
      → find c (record { key = k; kind = rows }) ≡ o
      → entry_link keys cur o ≡ linked m
      → Joins keys c cur m
  entry-Joins k none m a b h = cc
  entry-Joins k (some e) m a b h = elim (Bool-cases (e.meta.stop == cur && ltb e.meta.start cur)) [
    | inl t ↦ parent-Joins k e (get_elem? keys e.meta.start) m a b t refl (rw t at h)
    | inr t ↦ absurd (ground arith)
  ]

  key-Joins :
      (o : Option PrefixKey) (m : ObjectMeta)
      → get_elem? keys cur ≡ o
      → key_link keys c cur o ≡ linked m
      → Joins keys c cur m
  key-Joins none m a h = cc
  key-Joins (some k) m a h = entry-Joins k (find c (record { key = k; kind = rows })) m a refl h

  link-Joins : (m : ObjectMeta) → link keys c cur ≡ linked m → Joins keys c cur m
  unfolding link
  link-Joins m h = key-Joins (get_elem? keys cur) m refl h

  Joins-link : (m : ObjectMeta) → Joins keys c cur m → link keys c cur ≡ linked m
  unfolding link
  Joins-link m j =
      let e = j.entry in
      let ends : e.meta.stop ≡ cur = ap (λ (x : ObjectMeta). x.stop) j.same ∙ j.stop in
      let starts : e.meta.start < cur =
        subst (λ (x : ObjectMeta). x.start < cur) (sym j.same) j.start in
      let parent =
        subst (λ (x : ObjectMeta). get_elem? keys x.start ≡ some x.parent) (sym j.same)
          j.at_start in
      let test : (e.meta.stop == cur && ltb e.meta.start cur) ≡ true = ground arith in
      rw (j.at_end, j.stored, test, parent)
        (if_pos (PrefixKey-discrete e.meta.parent e.meta.parent) refl _ _ ∙ ap linked j.same)

  -- Inside the prompt no index is out of bounds.
  link_in_range : cur < length keys → link keys c cur ≢ out_of_range
  unfolding link
  link_in_range h out =
      let (k, a) = get_elem?-lt keys cur h in
      elim (Option-cases (find c (record { key = k; kind = rows }))) [
        | inl e ↦ cc (rw (a, e) at out)
        | inr (e, b) ↦ elim (Bool-cases (e.meta.stop == cur && ltb e.meta.start cur)) [
          | inr t ↦ cc (rw (a, b, t) at out)
          | inl t ↦
              let (q, d) = get_elem?-lt keys e.meta.start (ground arith) in
              parent_in_range q e.meta (rw (a, b, t, d) at out)
        ]
      ]

Link-cases :
    (o : Link) → ((m : ObjectMeta) × (o ≡ linked m)) ⊎ ((o ≡ unlinked) ⊎ (o ≡ out_of_range))
Link-cases (linked m) = inl (m, refl)
Link-cases unlinked = inr (inl refl)
Link-cases out_of_range = inr (inr refl)

module _ (keys : List PrefixKey) (c : Cache) where
  push-eq-complete :
      (m : ObjectMeta) (w : Walk) (l : List ObjectMeta)
      → push m w ≡ complete l
      → (r : List ObjectMeta) × (w ≡ complete r) × (l ≡ m ∷ r)
  push-eq-complete m (complete r) l h = (r, refl, cc)
  push-eq-complete m broken l h = cc
  push-eq-complete m panic l h = cc

  push-eq-panic : (m : ObjectMeta) (w : Walk) → push m w ≡ panic → w ≡ panic
  push-eq-panic m (complete r) h = cc
  push-eq-panic m broken h = cc
  push-eq-panic m panic h = refl

  -- What the loop collects is a chain back to position 0.
  pub walk-Chain :
      (f cur : ℕ) (l : List ObjectMeta) → walk f keys c cur ≡ complete l → Chain keys c cur l
  unfolding walk
  walk-Chain zero zero l h = subst (Chain keys c zero) (complete_injective h) nil
  walk-Chain (suc f) zero l h = subst (Chain keys c zero) (complete_injective h) nil
  walk-Chain zero (suc cur) l h = cc
  walk-Chain (suc f) (suc cur) l h = elim (Link-cases (link keys c (suc cur))) [
    | inl (m, e) ↦
        let (r, rest, same) = push-eq-complete m (walk f keys c m.start) l (rw (e, walk) at h) in
        subst (Chain keys c (suc cur)) (sym same)
          (cons (link-Joins keys c (suc cur) m e) (walk-Chain f m.start r rest))
    | inr (inl e) ↦ cc (rw (e, walk) at h)
    | inr (inr e) ↦ cc (rw (e, walk) at h)
  ]

  walk-zero : (f : ℕ) → walk f keys c zero ≡ complete []
  unfolding walk
  walk-zero zero = refl
  walk-zero (suc f) = refl

  chain_step :
      (f cur : ℕ) (m : ObjectMeta) (l : List ObjectMeta)
      → cur ≤ f
      → Joins keys c cur m
      → ((g : ℕ) → m.start ≤ g → walk g keys c m.start ≡ complete l)
      → walk f keys c cur ≡ complete (m ∷ l)
  unfolding walk
  chain_step f zero m l h j rec = absurd (omega (arith, j.start))
  chain_step zero (suc cur) m l h j rec = absurd (omega arith)
  chain_step (suc f) (suc cur) m l h j rec =
      rw (Joins-link keys c (suc cur) m j, walk) (ap (push m) (rec f (omega (arith, j.start))))

  -- Every chain back to position 0 is collected.
  pub Chain-walk :
      (f : ℕ) {cur : ℕ} {l : List ObjectMeta}
      → cur ≤ f
      → Chain keys c cur l
      → walk f keys c cur ≡ complete l
  Chain-walk f h nil = walk-zero f
  Chain-walk f h (cons {cur} {m} {l} j r) = chain_step f cur m l h j (λ g k. Chain-walk g k r)

  -- The loop ends within its fuel, and indexes no key out of bounds.
  pub walk-ne-panic : (f cur : ℕ) → cur ≤ f → cur < length keys → walk f keys c cur ≢ panic
  unfolding walk
  walk-ne-panic zero zero h k p = cc
  walk-ne-panic (suc f) zero h k p = cc
  walk-ne-panic zero (suc cur) h k p = omega arith
  walk-ne-panic (suc f) (suc cur) h k p = elim (Link-cases (link keys c (suc cur))) [
    | inl (m, e) ↦
        let starts = (link-Joins keys c (suc cur) m e).start in
        walk-ne-panic f m.start (omega arith) (omega arith)
          (push-eq-panic m (walk f keys c m.start) (rw (e, walk) at p))
    | inr (inl e) ↦ cc (rw (e, walk) at p)
    | inr (inr e) ↦ link_in_range keys c (suc cur) k e
  ]
