-- ===== src/Model/Sequence/CopyOnWrite.antt =====
-- crates/tr-model/src/sequence.rs: copy on write of one page of a table.
use tr_infer.Prelude.{
  ℕ, ◌+◌, ◌≤◌, ◌<◌, ◌≡◌, ◌≢◌, ◌⊎◌, inl, inr, sym, ap, ◌∙◌, false, some, ◌∷◌, length, set, get_elem?,
  arith, if◌then◌else◌, length-set, get_elem?-bound, get_elem?-set_self, get_elem?-set_ne,
  get_elem?-lt, ◌==◌,
}
use tr_infer.Model.Sequence.PagePool.{
  done, Pages, release, hit, hit_self, hit_cases, count, Balanced, ref_of-lt,
}
use tr_infer.Model.Sequence.Balance.{
  Balanced-ext, with_ref, Changed, Taken, take_page_lem, release_lem,
}
use tr_infer.Model.Sequence.Prepare.{Work, copy_page, unshare}
use tr_infer.Model.Sequence.Extend.{uses, count-set, front}

module _ {C : Type 0} (rest : ℕ → ℕ) where
  -- What copy on write of the page at `tail` has done, when another table has the page, too.
  pub record Unshared (tail : ℕ) (w w' : Work C) : Type 0 where
    pub balanced : Balanced (uses rest w'.table) w'.pages
    pub sized : length w'.pages.refs ≡ length w.pages.refs
    pub kv_sized : length w'.kv ≡ length w.kv
    pub same_length : length w'.table ≡ length w.table
    pub taken : length w'.pages.free + 1 ≡ length w.pages.free
    pub only :
        (q : ℕ)
        → (count q w'.table ≤ count q w.table)
          ⊎ ((uses rest w.table q ≡ 0) × (count q w'.table ≡ 1))
    pub own : (p : ℕ) → get_elem? w'.table tail ≡ some p → uses rest w'.table p ≡ 1
    -- the table has one reference less to the page that it had there
    pub left :
        (old q : ℕ)
        → get_elem? w.table tail ≡ some old
        → 0 < uses rest w.table q
        → count q w'.table + hit old q ≡ count q w.table
    pub elsewhere : (i : ℕ) → tail ≢ i → get_elem? w'.table i ≡ get_elem? w.table i
    pub copied :
        (p p' : ℕ)
        → get_elem? w.table tail ≡ some p
        → get_elem? w'.table tail ≡ some p'
        → get_elem? w'.kv p' ≡ get_elem? w.kv p
    -- what is used keeps its contents
    pub kept : (p : ℕ) → 0 < uses rest w.table p → get_elem? w'.kv p ≡ get_elem? w.kv p

  unshare_lem :
      (tail old new : ℕ) (c : C) (w : Work C) (ps ps' : Pages)
      → get_elem? w.table tail ≡ some old
      → get_elem? w.kv old ≡ some c
      → length w.kv ≡ length w.pages.refs
      → 0 < rest old
      → Taken (uses rest w.table) w.pages new ps
      → release old ps ≡ some ps'
      → ps'.free ≡ (if uses rest (set w.table tail new) old == 0 then old ∷ ps.free else ps.free)
      → Changed ps ps' (uses rest (set w.table tail new))
      → (w' : Work C) × (unshare tail w ≡ some (w', done tt)) × Unshared tail w w'
  unfolding unshare copy_page
  unshare_lem tail old new c w ps ps' at_tail has sized shared t e free ch =
      let table = set w.table tail new in
      let w' : Work C = record { pages = ps'; kv = set w.kv new c; table = table } in
      let there = get_elem?-bound w.table tail old at_tail in
      let here = get_elem?-set_self w.table tail new there in
      let counts : (q : ℕ) → count q table + hit old q ≡ count q w.table + hit new q =
        λ q. count-set w.table tail old new q at_tail in
      let still : (uses rest table old == 0) ≡ false = ground arith in
      let kept_free : ps'.free ≡ ps.free =
        free ∙ ap (λ b. if b then old ∷ ps.free else ps.free) still in
      let fresh = t.fresh in
      (
        w',
        rw (at_tail, unshare, t.taken, e, copy_page, has),
        record {
          balanced = ch.balanced;
          sized = ch.sized ∙ t.sized;
          kv_sized = length-set w.kv new c;
          same_length = length-set w.table tail new;
          taken = omega (arith, ap length kept_free, ap length t.shorter);
          only = λ q. elim (hit_cases new q) [
            | inl (same, h) ↦
                let zero_uses : uses rest w.table q ≡ 0 =
                  ap (uses rest w.table) (sym same) ∙ fresh in
                let apart : hit old q ≡ 0 = elim (hit_cases old q) [
                  | inl (s, _) ↦ absurd (omega (arith, ap rest s))
                  | inr (_, z) ↦ z
                ] in
                inr (zero_uses, omega (arith, counts q))
            | inr (apart, h) ↦ inl (omega (arith, counts q))
          ];
          own = λ p h.
              let is : some new ≡ some p = sym here ∙ h in
              let same : new ≡ p = cc in
              let apart : hit old new ≡ 0 = elim (hit_cases old new) [
                | inl (s, _) ↦ absurd (omega (arith, ap rest s))
                | inr (_, z) ↦ z
              ] in
              let k : uses rest table new ≡ 1 = omega (arith, counts new, hit_self new) in
              ap (uses rest table) (sym same) ∙ k;
          left = λ o q h pos.
              let was : some old ≡ some o = sym at_tail ∙ h in
              let same : old ≡ o = cc in
              let other : hit new q ≡ 0 = elim (hit_cases new q) [
                | inl (k, _) ↦ absurd (omega (arith, ap (uses rest w.table) k))
                | inr (_, z) ↦ z
              ] in
              omega (arith, counts q, ap (λ i. hit i q) same);
          elsewhere = λ i apart. get_elem?-set_ne w.table tail i new apart;
          copied = λ p p' h h'.
              let is : some new ≡ some p' = sym here ∙ h' in
              let same : new ≡ p' = cc in
              let was : some old ≡ some p = sym at_tail ∙ h in
              let before : old ≡ p = cc in
              ap (get_elem? (set w.kv new c)) (sym same)
              ∙ get_elem?-set_self w.kv new c (omega (arith, t.there))
              ∙ sym has
              ∙ ap (get_elem? w.kv) before;
          kept = λ p h.
              get_elem?-set_ne w.kv new p c
                (λ same. absurd (omega (arith, ap (uses rest w.table) same)));
        },
      )

  -- Copy on write succeeds when a page is free.
  pub unshare-Unshared :
      (tail old : ℕ) (w : Work C)
      → Balanced (uses rest w.table) w.pages
      → length w.kv ≡ length w.pages.refs
      → get_elem? w.table tail ≡ some old
      → 0 < rest old
      → 0 < length w.pages.free
      → (w' : Work C) × (unshare tail w ≡ some (w', done tt)) × Unshared tail w w'
  unshare-Unshared tail old w b sized at_tail shared h =
      let (new, first) = get_elem?-lt w.pages.free 0 h in
      let (ps, t) =
        take_page_lem (uses rest w.table) w.pages new _ b (front w.pages.free new first) in
      let table = set w.table tail new in
      let (ps', e, free, ch) = release_lem (uses rest table) ps old (
        Balanced-ext (with_ref (uses rest w.table) new) (with_ref (uses rest table) old) ps
          (λ q. omega (arith, count-set w.table tail old new q at_tail)) t.balanced) in
      let (c, has) =
        get_elem?-lt w.kv old
          (omega (arith, ref_of-lt w.pages.refs old (omega (arith, b.counted old)))) in
      unshare_lem tail old new c w ps ps' at_tail has sized shared t e free ch
