-- ===== src/Model/Sequence/Valid.antt =====
-- crates/tr-model/src/sequence.rs: the invariant of the resident sequences.
use tr_infer.Prelude.{
  ℕ, zero, suc, ◌+◌, ◌*◌, ◌≤◌, ◌<◌, ◌≡◌, ◌⊎◌, inl, inr, refl, sym, ap, ◌∙◌, Bool, true, false,
  Option, none, some, List, [], ◌∷◌, length, set, get_elem?, take, arith, u64_mod, All,
  if◌then◌else◌, ◌==◌, length-set, subst, All-set, Bool-cases, Option-cases, ==_iff, ◌&&◌,
}
use tr_infer.Model.Sequence.{
  SequenceId, AttnState, TileState, Sequence, Sequences, owns, release_all, retain_all,
  validate_sequence,
}
use tr_infer.Model.Sequence.PagePool.{done, fail, stale, Pages, hit_self, count, Balanced}
use tr_infer.Model.Sequence.Balance.{Balanced-ext, with_ref, Changed, retain_lem, release_lem}

module _ {F : Type 0} where
  abbrev pub HasPages : List ℕ → Option (AttnState F) → Type 0
  HasPages table none = Unit
  HasPages table (some a) = a.pages ≡ table

  -- Every attention layer of the tile uses the page table.
  abbrev pub HasTable : List ℕ → TileState F → Type 0
  HasTable table st = All (HasPages table) st.attn

  pub record HoldsSlot (s : Sequence F) : Type 0 where
    -- no page stands twice
    pub once : (p : ℕ) → count p s.pages ≤ 1
    -- a slot that is not live has no page
    pub dead : s.live ≡ false → s.pages ≡ []
    -- the pages hold all rows
    pub covered : s.live ≡ true → s.host.n_past ≤ 64 * length s.pages
    pub tables : s.live ≡ true → All (HasTable s.pages) s.tiles

  -- How many slots refer to a page.
  abbrev pub owners : List (Sequence F) → ℕ → ℕ
  owners [] p = 0
  owners (s ∷ slots) p = count p s.pages + owners slots p

  pub owners-set :
      (slots : List (Sequence F)) (i : ℕ) (s s' : Sequence F) (p : ℕ)
      → get_elem? slots i ≡ some s
      → owners (set slots i s') p + count p s.pages ≡ owners slots p + count p s'.pages
  owners-set [] i s s' p h = cc
  owners-set (t ∷ slots) zero s s' p h =
      let e : t ≡ s = cc in omega (arith, ap (λ (x : Sequence F). count p x.pages) e)
  owners-set (t ∷ slots) (suc i) s s' p h = omega (arith, owners-set slots i s s' p h)

  pub owners-le :
      (slots : List (Sequence F)) (p : ℕ) → All HoldsSlot slots → owners slots p ≤ length slots
  owners-le [] p h = omega arith
  owners-le (s ∷ slots) p h = omega (arith, owners-le slots p h.1, h.0.once p)

  pub owners-ge :
      (slots : List (Sequence F)) (i : ℕ) (s : Sequence F) (p : ℕ)
      → get_elem? slots i ≡ some s
      → count p s.pages ≤ owners slots p
  owners-ge [] i s p h = cc
  owners-ge (t ∷ slots) zero s p h =
      let e : t ≡ s = cc in omega (arith, ap (λ (x : Sequence F). count p x.pages) e)
  owners-ge (t ∷ slots) (suc i) s p h = omega (arith, owners-ge slots i s p h)

-- The invariant.
pub record IsValid {F C : Type 0} (ss : Sequences F C) : Type 0 where
  -- the counts are those of the page tables, and the free pages those of no table
  pub balanced : Balanced (owners ss.slots) ss.pages
  pub slots : All HoldsSlot ss.slots
  pub bounded : length ss.slots < u64_mod
  -- each page has contents
  pub sized : length ss.kv ≡ length ss.pages.refs

pub release_all_lem :
    (own : ℕ → ℕ) (table : List ℕ) (ps : Pages)
    → Balanced (λ p. count p table + own p) ps
    → (ps' : Pages) × (release_all table ps ≡ some ps') × Changed ps ps' own
unfolding release_all
release_all_lem own [] ps b = (
  ps,
  refl,
  record { sized = refl; balanced = Balanced-ext (λ p. 0 + own p) own ps (λ p. omega arith) b },
)
release_all_lem own (p ∷ table) ps b =
    let rest : ℕ → ℕ = λ q. count q table + own q in
    let (ps1, e, _, c) =
      release_lem rest ps p (
        Balanced-ext (λ q. count q (p ∷ table) + own q) (with_ref rest p) ps (λ q. omega arith)
          b) in
    let (ps2, e', c') = release_all_lem own table ps1 c.balanced in
    (ps2, rw (e, release_all, e'), record { sized = c'.sized ∙ c.sized; balanced = c'.balanced })

pub retain_all_lem :
    (own : ℕ → ℕ) (table : List ℕ) (ps : Pages)
    → Balanced own ps
    → ((p : ℕ) → count p table ≤ own p)
    → ((p : ℕ) → own p + count p table < u64_mod)
    → (ps' : Pages) × (retain_all table ps ≡ some ps') × Changed ps ps' (λ p. count p table + own p)
unfolding retain_all
retain_all_lem own [] ps b pos bound = (
  ps,
  refl,
  record { sized = refl; balanced = Balanced-ext own (λ p. 0 + own p) ps (λ p. omega arith) b },
)
retain_all_lem own (p ∷ table) ps b pos bound =
    let here = hit_self p in
    let (ps1, e, _, c) = retain_lem own ps p b (omega (arith, pos p)) (omega (arith, bound p)) in
    let (ps2, e', c') =
      retain_all_lem (with_ref own p) table ps1 c.balanced (λ q. omega (arith, pos q))
        (λ q. omega (arith, bound q)) in
    (
      ps2,
      rw (e, retain_all, e'),
      record {
        sized = c'.sized ∙ c.sized;
        balanced =
            Balanced-ext (λ q. count q table + with_ref own p q) (λ q. count q (p ∷ table) + own q)
              ps2 (λ q. omega arith) c'.balanced;
      },
    )

pub both : (a b : Bool) → (a && b) ≡ true → (a ≡ true) × (b ≡ true)
both true b h = (refl, h)
both false b h = cc

pub count-take : (n : ℕ) (xs : List ℕ) (p : ℕ) → count p (take n xs) ≤ count p xs
count-take zero xs p = omega arith
count-take (suc n) [] p = omega arith
count-take (suc n) (x ∷ xs) p = omega (arith, count-take n xs p)

-- A slot is replaced, and the pool follows.
pub set-IsValid :
    {F C : Type 0} (ss : Sequences F C) (i : ℕ) (s s' : Sequence F) (ps : Pages) (kv : List C)
    (own : ℕ → ℕ)
    → IsValid ss
    → get_elem? ss.slots i ≡ some s
    → HoldsSlot s'
    → Balanced own ps
    → ((p : ℕ) → own p + count p s.pages ≡ owners ss.slots p + count p s'.pages)
    → length kv ≡ length ps.refs
    → IsValid (record ss { slots = set ss.slots i s'; pages = ps; kv = kv })
set-IsValid ss i s s' ps kv own v found holds b same sized = record {
  balanced =
      Balanced-ext own (owners (set ss.slots i s')) ps
        (λ p. omega (arith, same p, owners-set ss.slots i s s' p found)) b;
  slots = All-set HoldsSlot ss.slots i s' v.slots holds;
  bounded = omega (arith, length-set ss.slots i s', v.bounded);
  sized = sized;
}

module _ {F C : Type 0} (ss : Sequences F C) (id : SequenceId) where
  pub record Found (s : Sequence F) : Type 0 where
    pub there : get_elem? ss.slots id.slot ≡ some s
    pub live : s.live ≡ true
    pub current : s.generation ≡ id.generation

  owned :
      (s t : Sequence F)
      → get_elem? ss.slots id.slot ≡ some t
      → (if owns id t then done t else fail stale) ≡ done s
      → Found s
  owned s t there h = elim (Bool-cases (owns id t)) [
    | inr f ↦ let k = sym (ap (λ b. if b then done t else fail stale) f) ∙ h in cc
    | inl y ↦
        let k : done t ≡ done s = sym (ap (λ b. if b then done t else fail stale) y) ∙ h in
        let same : t ≡ s = cc in
        let (live, current) = both t.live (t.generation == id.generation) y in
        subst Found same (record {
          there = there;
          live = live;
          current = (==_iff t.generation id.generation).0 current;
        })
  ]

  -- A handle that is valid names a live slot of its generation.
  pub validate_sequence-Found : (s : Sequence F) → validate_sequence ss id ≡ done s → Found s
  unfolding validate_sequence
  validate_sequence-Found s h = elim (Option-cases (get_elem? ss.slots id.slot)) [
    | inl e ↦ let k = rw (e, validate_sequence) at h in cc
    | inr (t, e) ↦ owned s t e (rw (e, validate_sequence) at h)
  ]

  pub Found-validate_sequence : (s : Sequence F) → Found s → validate_sequence ss id ≡ done s
  unfolding validate_sequence
  Found-validate_sequence s f =
      rw (f.there, validate_sequence, f.live, (==_iff s.generation id.generation).1 f.current)

  stale_cases :
      (b : Bool) (t : Sequence F)
      → ((if b then done t else fail stale) ≡ fail stale)
        ⊎ ((s : Sequence F) × ((if b then done t else fail stale) ≡ done s))
  stale_cases true t = inr (t, refl)
  stale_cases false t = inl refl

  pub validated :
      (validate_sequence ss id ≡ fail stale)
      ⊎ ((s : Sequence F) × (validate_sequence ss id ≡ done s))
  unfolding validate_sequence
  validated = elim (Option-cases (get_elem? ss.slots id.slot)) [
    | inl e ↦ inl (rw (e, validate_sequence))
    | inr (t, e) ↦ rw (e, validate_sequence) (stale_cases (owns id t) t)
  ]
