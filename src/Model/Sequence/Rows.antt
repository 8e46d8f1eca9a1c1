-- ===== src/Model/Sequence/Rows.antt =====
-- crates/tr-model/src/sequence.rs and state.rs: the first state, and where the rows stand.
use tr_infer.Prelude.{
  ℕ, zero, suc, ◌+◌, ◌*◌, ◌/◌, ◌%◌, ◌≤◌, ◌<◌, ◌≡◌, ◌≢◌, inl, inr, refl, sym, ap, ◌∙◌, false, some,
  List, [], ◌∷◌, length, get_elem?, replicate, arith, u64_mod, All, All-get_elem?, Option-cases,
  length-replicate, none-ne-some, subst, dec_lt,
}
use tr_infer.Model.Sequence.PagePool.{
  upto, new_pages, Balanced, count, vacant, ref_of, hit, hit_self, hit_ne,
}
use tr_infer.Model.Sequence.Balance.{Balanced-ext}
use tr_infer.Model.Sequence.{
  AttnState, TileState, Sequence, Sequences, SequenceId, default_host, physical_row,
  allocate_sequence,
}
use tr_infer.Model.Sequence.Valid.{HasPages, HasTable, HoldsSlot, owners, IsValid, Found}
use tr_infer.Model.Sequence.Lifecycle.{allocate_sequence_lem}
use tr_infer.Model.Sequence.Extend.{count-get_elem?}

ref_of-replicate : (n p : ℕ) → ref_of (replicate n 0) p ≡ 0
ref_of-replicate zero p = refl
ref_of-replicate (suc n) zero = refl
ref_of-replicate (suc n) (suc p) = ref_of-replicate n p

count_below : (n k q : ℕ) → q < k → count q (upto k n) ≡ 0
count_below zero k q h = refl
count_below (suc n) k q h =
    let apart : k ≢ q = λ e. absurd (omega arith) in
    omega (arith, hit_ne k q apart, count_below n (suc k) q (omega arith))

count-upto : (n k p : ℕ) → count (p + k) (upto k n) ≡ vacant (replicate n 0) p
count-upto zero k p = refl
count-upto (suc n) k zero =
    let here : 0 + k ≡ k = omega arith in
    ap (λ q. count q (upto k (suc n))) here
    ∙ omega (arith, hit_self k, count_below n (suc k) k (omega arith))
count-upto (suc n) k (suc p) =
    let there : suc p + k ≡ p + suc k = omega arith in
    let apart : k ≢ p + suc k = λ e. absurd (omega arith) in
    ap (λ q. count q (upto k (suc n))) there
    ∙ omega (arith, hit_ne k (p + suc k) apart, count-upto n (suc k) p)

-- At first all pages are free.
pub new_pages-Balanced : (n : ℕ) → Balanced (λ p. 0) (new_pages n)
unfolding new_pages
new_pages-Balanced n = record {
  counted = ref_of-replicate n;
  freed = λ p. ap (λ q. count q (upto 0 n)) (omega arith) ∙ count-upto n 0 p;
}

module _ {F : Type 0} where
  abbrev unused : List (TileState F) → Sequence F
  unused tiles = record {
    generation = 0;
    live = false;
    tiles = tiles;
    host = default_host;
    pages = [];
  }

  -- The slots at the end of `enable_sequences`.
  unfoldable pub first_slots : List (List (TileState F)) → List (Sequence F)
  first_slots [] = []
  first_slots (tiles ∷ slots) = unused tiles ∷ first_slots slots

  unused-HoldsSlot : (tiles : List (TileState F)) → HoldsSlot (unused tiles)
  unused-HoldsSlot tiles = record {
    once = λ p. omega arith;
    dead = λ h. refl;
    covered = λ h. cc;
    tables = λ h. cc;
  }

  first_slots-HoldsSlot : (slots : List (List (TileState F))) → All HoldsSlot (first_slots slots)
  unfolding first_slots
  first_slots-HoldsSlot [] = tt
  first_slots-HoldsSlot (tiles ∷ slots) = (unused-HoldsSlot tiles, first_slots-HoldsSlot slots)

  owners-first_slots :
      (slots : List (List (TileState F))) (p : ℕ) → 0 ≡ owners (first_slots slots) p
  unfolding first_slots
  owners-first_slots [] p = refl
  owners-first_slots (tiles ∷ slots) p = omega (arith, owners-first_slots slots p)

module _ {F C : Type 0} where
  -- The state that `enable_sequences` builds: `kv` is the contents of its pages.
  unfoldable pub enabled : List (List (TileState F)) → List C → ℕ → Sequences F C
  unfolding first_slots
  enabled slots kv ctx = record {
    slots = first_slots slots;
    pages = new_pages (length kv);
    kv = kv;
    ctx = ctx;
  }

  -- The first state satisfies the invariant.
  pub enabled-IsValid :
      (slots : List (List (TileState F))) (kv : List C) (ctx : ℕ)
      → length (first_slots slots) < u64_mod
      → IsValid (enabled slots kv ctx)
  unfolding enabled new_pages
  enabled-IsValid slots kv ctx bound = record {
    balanced =
        Balanced-ext (λ p. 0) (owners (first_slots slots)) (new_pages (length kv))
          (owners-first_slots slots) (new_pages-Balanced (length kv));
    slots = first_slots-HoldsSlot slots;
    bounded = bound;
    sized = sym (length-replicate {A = ℕ} (length kv) 0);
  }

  pub allocate_sequence-IsValid :
      (z : F) (ss : Sequences F C) → IsValid ss → IsValid (allocate_sequence z ss).0
  allocate_sequence-IsValid z ss v = elim (allocate_sequence_lem z ss v) [
    | inl (e, _) ↦ subst (λ r. IsValid r.0) (sym e) v
    | inr (inl (e, _)) ↦ subst (λ r. IsValid r.0) (sym e) v
    | inr (inr (_, _, _, _, _, _, _, _, _, v', _, _)) ↦ v'
  ]

-- A page that stands at two places is counted twice.
twice_counted :
    (table : List ℕ) (i j p : ℕ)
    → get_elem? table i ≡ some p
    → get_elem? table j ≡ some p
    → i < j
    → 1 < count p table
twice_counted [] i j p h k l = cc
twice_counted (x ∷ table) i zero p h k l = absurd (omega arith)
twice_counted (x ∷ table) zero (suc j) p h k l =
    let e : x ≡ p = cc in
    omega (arith, ap (λ q. hit q p) e, hit_self p, count-get_elem? table j p k)
twice_counted (x ∷ table) (suc i) (suc j) p h k l =
    omega (arith, twice_counted table i j p h k (omega arith))

same_place :
    (table : List ℕ) (i j p : ℕ)
    → count p table ≤ 1
    → get_elem? table i ≡ some p
    → get_elem? table j ≡ some p
    → i ≡ j
same_place table i j p once h k = elim (dec_lt i j) [
  | yes l ↦ absurd (omega (arith, twice_counted table i j p h k l))
  | no m ↦ elim (dec_lt j i) [
    | yes l ↦ absurd (omega (arith, twice_counted table j i p k h l))
    | no n ↦ omega arith
  ]
]

module _ {F : Type 0} where
  -- The page of a row that has a place.
  physical_row-page :
      (a : AttnState F) (row x : ℕ)
      → physical_row a row ≡ some x
      → (p : ℕ) × (get_elem? a.pages (row / 64) ≡ some p) × (x ≡ p * 64 + row % 64)
  unfolding physical_row
  physical_row-page a row x h = elim (Option-cases (get_elem? a.pages (row / 64))) [
    | inl e ↦ absurd (none-ne-some (rw (e, physical_row) at h))
    | inr (p, e) ↦
        let k : some (p * 64 + row % 64) ≡ some x = rw (e, physical_row) at h in
        let is : p * 64 + row % 64 ≡ x = cc in (p, e, sym is)
  ]

  table_rows :
      (a : AttnState F) (r1 r2 x : ℕ)
      → ((p : ℕ) → count p a.pages ≤ 1)
      → physical_row a r1 ≡ some x
      → physical_row a r2 ≡ some x
      → r1 ≡ r2
  table_rows a r1 r2 x once h1 h2 =
      let (p1, e1, is1) = physical_row-page a r1 x h1 in
      let (p2, e2, is2) = physical_row-page a r2 x h2 in
      let same : p2 ≡ p1 = omega arith in
      let place = same_place a.pages (r1 / 64) (r2 / 64) p1 (once p1) e1 (e2 ∙ ap some same) in
      omega arith

module _ {F C : Type 0} where
  -- Two rows of one live sequence never have the same physical row, in any attention layer of any
  -- tile: what is written to one does not change the other.
  pub physical_row_injective :
      (ss : Sequences F C) (id : SequenceId) (s : Sequence F) (tile layer : ℕ) (st : TileState F)
      (a : AttnState F) (r1 r2 x : ℕ)
      → IsValid ss
      → Found ss id s
      → get_elem? s.tiles tile ≡ some st
      → get_elem? st.attn layer ≡ some (some a)
      → physical_row a r1 ≡ some x
      → physical_row a r2 ≡ some x
      → r1 ≡ r2
  physical_row_injective ss id s tile layer st a r1 r2 x v f ht hl h1 h2 =
      let h = All-get_elem? HoldsSlot ss.slots id.slot s v.slots f.there in
      let t = All-get_elem? (HasTable s.pages) s.tiles tile st (h.tables f.live) ht in
      let same = All-get_elem? (HasPages s.pages) st.attn layer (some a) t hl in
      table_rows a r1 r2 x (subst (λ xs. (p : ℕ) → count p xs ≤ 1) (sym same) h.once) h1 h2
