-- ===== src/Model/Sequence/Prepared.antt =====
-- crates/tr-model/src/sequence.rs: `prepare_sequence` on one page table, as a whole.
use tr_infer.Prelude.{
  ℕ, ◌+◌, ◌-◌, ◌≤◌, ◌<◌, ◌≡◌, ◌⊎◌, inl, inr, refl, sym, ap, ◌∙◌, Bool, true, false, some, length,
  get_elem?, arith, get_elem?-bound,
}
use tr_infer.Model.Sequence.PagePool.{done, hit, hit_cases, count, Balanced}
use tr_infer.Model.Sequence.Prepare.{Work, then_grow, extend, bit}
use tr_infer.Model.Sequence.Extend.{uses, Grown, grow_lem, count-get_elem?}
use tr_infer.Model.Sequence.CopyOnWrite.{Unshared, unshare-Unshared}

module _ {C : Type 0} (rest : ℕ → ℕ) (tail n : ℕ) where
  pub record Extended (cow : Bool) (w w' : Work C) : Type 0 where
    pub balanced : Balanced (uses rest w'.table) w'.pages
    pub sized : length w'.pages.refs ≡ length w.pages.refs
    pub kv_sized : length w'.kv ≡ length w.kv
    pub longer : length w'.table ≡ length w.table + (n - length w.table)
    pub taken : length w'.pages.free + (n - length w.table + bit cow) ≡ length w.pages.free
    pub once : (q : ℕ) → (count q w'.table ≤ count q w.table) ⊎ (count q w'.table ≡ 1)
    -- no page that is used changes its contents
    pub kept : (p : ℕ) → 0 < uses rest w.table p → get_elem? w'.kv p ≡ get_elem? w.kv p
    -- each place of the table has the contents that it had
    pub rows :
        (i p p' : ℕ)
        → get_elem? w.table i ≡ some p
        → get_elem? w'.table i ≡ some p'
        → get_elem? w'.kv p' ≡ get_elem? w.kv p
    -- the new pages are private
    pub fresh :
        (i p : ℕ) → length w.table ≤ i → get_elem? w'.table i ≡ some p → uses rest w'.table p ≡ 1
    -- so is the copy
    pub own : cow ≡ true → (p : ℕ) → get_elem? w'.table tail ≡ some p → uses rest w'.table p ≡ 1
    -- the page that was copied has one reference less, and all others in use have what they had
    pub left :
        cow ≡ true
        → (old q : ℕ) → get_elem? w.table tail ≡ some old
        → 0 < uses rest w.table q
        → uses rest w'.table q + hit old q ≡ uses rest w.table q
    pub stays :
        cow ≡ false → (q : ℕ) → 0 < uses rest w.table q → uses rest w'.table q ≡ uses rest w.table q
    -- without a copy all places keep their page
    pub same :
        cow ≡ false
        → (i p : ℕ) → get_elem? w.table i ≡ some p
        → (get_elem? w'.table i ≡ some p) × (uses rest w'.table p ≡ uses rest w.table p)

  -- A page that is used keeps its count when the table grows.
  Grown-uses :
      (k : ℕ) (w w' : Work C) (p : ℕ)
      → Grown rest k w w'
      → 0 < uses rest w.table p
      → uses rest w'.table p ≡ uses rest w.table p
  Grown-uses k w w' p r h = elim (r.only p) [
    | inl e ↦ omega arith
    | inr (e, _) ↦ absurd (omega arith)
  ]

  plain : (w w' : Work C) → Grown rest (n - length w.table) w w' → Extended false w w'
  plain w w' r = record {
    balanced = r.balanced;
    sized = r.sized;
    kv_sized = ap length r.contents;
    longer = r.longer;
    taken = omega (arith, r.taken);
    once = λ q. elim (r.only q) [ inl e ↦ inl (omega arith) | inr (_, e) ↦ inr e ];
    kept = λ p h. ap (λ kv. get_elem? kv p) r.contents;
    rows = λ i p p' h h'.
        let stays = r.prefix i (get_elem?-bound w.table i p h) in
        let is : some p' ≡ some p = sym h' ∙ stays ∙ h in
        let same : p' ≡ p = cc in ap (λ kv. get_elem? kv p') r.contents ∙ ap (get_elem? w.kv) same;
    fresh = r.fresh;
    own = λ k. cc;
    left = λ k. cc;
    stays = λ _ q h. Grown-uses (n - length w.table) w w' q r h;
    same = λ _ i p h. (
      r.prefix i (get_elem?-bound w.table i p h) ∙ h,
      Grown-uses (n - length w.table) w w' p r (omega (arith, count-get_elem? w.table i p h)),
    );
  }

  copying :
      (w w1 w' : Work C) (old : ℕ)
      → get_elem? w.table tail ≡ some old
      → 0 < rest old
      → Unshared rest tail w w1
      → Grown rest (n - length w1.table) w1 w'
      → Extended true w w'
  copying w w1 w' old at_tail shared u r =
      let bound = get_elem?-bound w.table tail old at_tail in
      record {
        balanced = r.balanced;
        sized = r.sized ∙ u.sized;
        kv_sized = ap length r.contents ∙ u.kv_sized;
        longer = omega (arith, r.longer, u.same_length);
        taken = omega (arith, r.taken, u.taken, u.same_length);
        once = λ q. elim (r.only q) [
          | inl e ↦ elim (u.only q) [ inl f ↦ inl (omega arith) | inr (_, f) ↦ inr (omega arith) ]
          | inr (_, e) ↦ inr e
        ];
        kept = λ p h. ap (λ kv. get_elem? kv p) r.contents ∙ u.kept p h;
        rows = λ i p p' h h'.
            let stays : get_elem? w'.table i ≡ get_elem? w1.table i =
              r.prefix i (omega (arith, get_elem?-bound w.table i p h, u.same_length)) in
            elim (hit_cases tail i) [
              | inl (same, _) ↦
                  ap (λ kv. get_elem? kv p') r.contents
                  ∙ u.copied p p' (ap (get_elem? w.table) same ∙ h)
                      (ap (get_elem? w1.table) same ∙ sym stays ∙ h')
              | inr (apart, _) ↦
                  let is : some p' ≡ some p = sym h' ∙ stays ∙ u.elsewhere i apart ∙ h in
                  let same : p' ≡ p = cc in
                  ap (λ kv. get_elem? kv p') r.contents
                  ∙ ap (get_elem? w1.kv) same
                  ∙ u.kept p (omega (arith, count-get_elem? w.table i p h))
            ];
        fresh = λ i p h e. r.fresh i p (omega (arith, u.same_length)) e;
        own = λ _ p h.
            let h1 = sym (r.prefix tail (omega (arith, u.same_length))) ∙ h in
            let one = u.own p h1 in Grown-uses (n - length w1.table) w1 w' p r (omega arith) ∙ one;
        left = λ _ o q h pos.
            let was : some old ≡ some o = sym at_tail ∙ h in
            let same : old ≡ o = cc in
            let less = u.left old q at_tail pos in
            let more = ap (λ i. hit i q) same in
            elim (r.only q) [
              | inl e ↦ omega arith
              | inr (e, g) ↦ elim (hit_cases old q) [
                | inl (k, _) ↦ absurd (omega (arith, ap rest k))
                | inr (_, z) ↦ absurd (omega arith)
              ]
            ];
        stays = λ k. cc;
        same = λ k. cc;
      }

  -- The table is extended when enough pages are free.
  pub extend_lem :
      (cow : Bool) (w : Work C)
      → Balanced (uses rest w.table) w.pages
      → length w.kv ≡ length w.pages.refs
      → (cow ≡ true → (old : ℕ) × (get_elem? w.table tail ≡ some old) × (0 < rest old))
      → n - length w.table + bit cow ≤ length w.pages.free
      → (w' : Work C) × (extend cow tail n w ≡ some (w', done tt)) × Extended cow w w'
  unfolding extend then_grow
  extend_lem false w b sized shared room =
      let (w', e, r) = grow_lem rest (n - length w.table) w b (omega arith) in (w', e, plain w w' r)
  extend_lem true w b sized shared room =
      let (old, at_tail, pos) = shared refl in
      let (w1, e1, u) = unshare-Unshared rest tail old w b sized at_tail pos (omega arith) in
      let (w', e, r) =
        grow_lem rest (n - length w1.table) w1 u.balanced (omega (arith, u.taken, u.same_length)) in
      (w', rw (e1, then_grow) e, copying w w1 w' old at_tail pos u r)
