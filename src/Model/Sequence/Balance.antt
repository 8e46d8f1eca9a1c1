-- ===== src/Model/Sequence/Balance.antt =====
-- crates/tr-model/src/sequence.rs: what the operations of `Pages` do to the counts.
use tr_infer.Prelude.{
  ℕ, zero, suc, ◌+◌, ◌-◌, ◌<◌, ◌≡◌, ◌≢◌, inl, inr, refl, sym, ap, ◌∙◌, some, List, [], ◌∷◌, length,
  set, ◌==◌, if◌then◌else◌, arith, add64, u64_mod, Bool-cases, true, false, length-set, lt→ltb,
}
use tr_infer.Model.Sequence.PagePool.{
  done, fail, no_page, Pages, take_page, retain, release, ref_of, vacant, hit, count, Balanced,
  hit_self, hit_ne, hit_cases, ref_of-set_self, ref_of-set_ne, vacant-set_ne, vacant_lem, vacant-lt,
  ref_of-lt, get_elem?-ref_of,
}

pub Balanced-ext :
    (own own' : ℕ → ℕ) (ps : Pages)
    → ((p : ℕ) → own p ≡ own' p)
    → Balanced own ps
    → Balanced own' ps
Balanced-ext own own' ps e b = record { counted = λ p. b.counted p ∙ e p; freed = b.freed }

-- A changed count at one page.
set-counted :
    (own own' : ℕ → ℕ) (refs : List ℕ) (p v : ℕ)
    → p < length refs
    → v ≡ own' p
    → ((q : ℕ) → p ≢ q → own q ≡ own' q)
    → ((q : ℕ) → ref_of refs q ≡ own q)
    → (q : ℕ) → ref_of (set refs p v) q ≡ own' q
set-counted own own' refs p v h e same counted q = elim (hit_cases p q) [
  | inl (s, _) ↦ ap (ref_of (set refs p v)) (sym s) ∙ ref_of-set_self refs p v h ∙ e ∙ ap own' s
  | inr (apart, _) ↦ ref_of-set_ne refs p q v apart ∙ counted q ∙ same q apart
]

-- A changed count at one page, and what it does to the free pages.
set-freed :
    (refs free : List ℕ) (p v : ℕ)
    → count p free ≡ vacant (set refs p v) p
    → ((q : ℕ) → p ≢ q → count q free ≡ vacant refs q)
    → (q : ℕ) → count q free ≡ vacant (set refs p v) q
set-freed refs free p v here other q = elim (hit_cases p q) [
  | inl (s, _) ↦ ap (λ i. count i free) (sym s) ∙ here ∙ ap (vacant (set refs p v)) s
  | inr (apart, _) ↦ other q apart ∙ sym (vacant-set_ne refs p q v apart)
]

vacant-set_self :
    (refs : List ℕ) (p v : ℕ)
    → p < length refs
    → vacant (set refs p v) p ≡ (if v == 0 then 1 else 0)
vacant-set_self [] p v h = absurd (omega arith)
vacant-set_self (r ∷ refs) zero v h = refl
vacant-set_self (r ∷ refs) (suc p) v h = vacant-set_self refs p v (omega arith)

-- The pool after an operation, with the counts of `own`.
pub record Changed (ps ps' : Pages) (own : ℕ → ℕ) : Type 0 where
  pub sized : length ps'.refs ≡ length ps.refs
  pub balanced : Balanced own ps'

module _ (own : ℕ → ℕ) where
  -- With a further reference to `p`.
  abbrev pub with_ref : ℕ → ℕ → ℕ
  with_ref p q = hit p q + own q

  pub take_page-empty : (ps : Pages) → ps.free ≡ [] → take_page ps ≡ some (ps, fail no_page)
  unfolding take_page
  take_page-empty ps h = rw h

  pub record Taken (ps : Pages) (p : ℕ) (ps' : Pages) : Type 0 where
    pub taken : take_page ps ≡ some (ps', done p)
    pub fresh : own p ≡ 0
    pub shorter : ps.free ≡ p ∷ ps'.free
    pub sized : length ps'.refs ≡ length ps.refs
    pub there : p < length ps.refs
    pub balanced : Balanced (with_ref p) ps'

  pub take_page_lem :
      (ps : Pages) (p : ℕ) (rest : List ℕ)
      → Balanced own ps
      → ps.free ≡ p ∷ rest
      → (ps' : Pages) × Taken ps p ps'
  unfolding take_page
  take_page_lem ps p rest b h =
      let once = b.freed p in
      let here : count p ps.free ≡ suc (count p rest) =
        ap (count p) h ∙ omega (arith, hit_self p) in
      let there = vacant-lt ps.refs p (omega arith) in
      elim (vacant_lem ps.refs p there) [
        | inr (_, v) ↦ absurd (omega arith)
        | inl (zero_ref, v) ↦
            let ps' : Pages = record { refs = set ps.refs p 1; free = rest } in
            (
              ps',
              record {
                taken = rw (h, lt→ltb p (length ps.refs) there);
                fresh = sym (b.counted p) ∙ zero_ref;
                shorter = h;
                sized = length-set ps.refs p 1;
                there = there;
                balanced = record {
                  counted =
                      set-counted own (with_ref p) ps.refs p 1 there
                        (omega (arith, hit_self p, b.counted p))
                        (λ q apart. omega (arith, hit_ne p q apart)) b.counted;
                  freed =
                      set-freed ps.refs rest p 1 (omega (arith, vacant-set_self ps.refs p 1 there))
                        (λ q apart. omega (arith, ap (count q) h, hit_ne p q apart, b.freed q));
                };
              },
            )
      ]

  pub retain_lem :
      (ps : Pages) (p : ℕ)
      → Balanced own ps
      → 0 < own p
      → own p + 1 < u64_mod
      → (ps' : Pages) × (retain p ps ≡ some ps')
        × (ps'.free ≡ ps.free)
        × Changed ps ps' (with_ref p)
  unfolding retain
  retain_lem ps p b pos bound =
      let r = ref_of ps.refs p in
      let there = ref_of-lt ps.refs p (omega (arith, b.counted p)) in
      let ps' : Pages = record ps { refs = set ps.refs p (add64 r 1) } in
      let not_zero : (r == 0) ≡ false =
        let k : 0 < r = omega (arith, b.counted p) in ground arith in
      (
        ps',
        rw (get_elem?-ref_of ps.refs p there, retain, not_zero),
        refl,
        record {
          sized = length-set ps.refs p (add64 r 1);
          balanced = record {
            counted =
                set-counted own (with_ref p) ps.refs p (add64 r 1) there
                  (omega (arith, hit_self p, b.counted p))
                  (λ q apart. omega (arith, hit_ne p q apart)) b.counted;
            freed =
                set-freed ps.refs ps.free p (add64 r 1)
                  (let k : 0 < add64 r 1 = omega (arith, b.counted p) in
                    let z : (add64 r 1 == 0) ≡ false = ground arith in
                    elim (vacant_lem ps.refs p there) [
                      | inl (e, _) ↦ absurd (omega (arith, b.counted p))
                      | inr (_, e) ↦
                          b.freed p
                          ∙ e
                          ∙ sym (
                              vacant-set_self ps.refs p (add64 r 1) there
                              ∙ ap (λ x. if x then 1 else 0) z)
                    ])
                  (λ q apart. b.freed q);
          };
        },
      )

  pub release_lem :
      (ps : Pages) (p : ℕ)
      → Balanced (with_ref p) ps
      → (ps' : Pages) × (release p ps ≡ some ps')
        × (ps'.free ≡ (if own p == 0 then p ∷ ps.free else ps.free))
        × Changed ps ps' own
  unfolding release
  release_lem ps p b =
      let r = ref_of ps.refs p in
      let count_p : r ≡ suc (own p) = omega (arith, b.counted p, hit_self p) in
      let there = ref_of-lt ps.refs p (omega arith) in
      let not_zero : (r == 0) ≡ false = ground arith in
      elim (Bool-cases (own p == 0)) [
        | inl t ↦
            let last : (r == 1) ≡ true = ground arith in
            let ps' : Pages = record { refs = set ps.refs p 0; free = p ∷ ps.free } in
            (
              ps',
              rw (get_elem?-ref_of ps.refs p there, release, not_zero, last),
              rw t,
              record {
                sized = length-set ps.refs p 0;
                balanced = record {
                  counted =
                      set-counted (with_ref p) own ps.refs p 0 there (ground arith)
                        (λ q apart. omega (arith, hit_ne p q apart)) b.counted;
                  freed =
                      set-freed ps.refs (p ∷ ps.free) p 0
                        (elim (vacant_lem ps.refs p there) [
                          | inl (e, _) ↦ absurd (omega arith)
                          | inr (_, e) ↦
                              omega
                                (arith, hit_self p, b.freed p, vacant-set_self ps.refs p 0 there)
                        ])
                        (λ q apart. omega (arith, hit_ne p q apart, b.freed q));
                };
              },
            )
        | inr f ↦
            let more : (r == 1) ≡ false = ground arith in
            let ps' : Pages = record ps { refs = set ps.refs p (r - 1) } in
            let left : 0 < r - 1 = ground arith in
            let kept : (r - 1 == 0) ≡ false = ground arith in
            (
              ps',
              rw (get_elem?-ref_of ps.refs p there, release, not_zero, more),
              rw f,
              record {
                sized = length-set ps.refs p (r - 1);
                balanced = record {
                  counted =
                      set-counted (with_ref p) own ps.refs p (r - 1) there (omega arith)
                        (λ q apart. omega (arith, hit_ne p q apart)) b.counted;
                  freed =
                      set-freed ps.refs ps.free p (r - 1)
                        (elim (vacant_lem ps.refs p there) [
                          | inl (e, _) ↦ absurd (omega arith)
                          | inr (_, e) ↦
                              b.freed p
                              ∙ e
                              ∙ sym (
                                  vacant-set_self ps.refs p (r - 1) there
                                  ∙ ap (λ x. if x then 1 else 0) kept)
                        ])
                        (λ q apart. b.freed q);
                };
              },
            )
      ]
