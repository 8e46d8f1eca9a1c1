-- ===== src/Model/Sequence/Extend.antt =====
-- crates/tr-model/src/sequence.rs: the two steps of `prepare_sequence`, on one page table.
use tr_infer.Prelude.{
  ℕ, zero, suc, ◌+◌, ◌≤◌, ◌<◌, ◌≡◌, ◌≢◌, ◌⊎◌, inl, inr, refl, sym, ap, ◌∙◌, some, List, [], ◌∷◌,
  ◌++◌, length, set, get_elem?, arith, length-append, get_elem?-bound, get_elem?-lt,
}
use tr_infer.Model.Sequence.PagePool.{done, hit, hit_self, hit_cases, count, Balanced}
use tr_infer.Model.Sequence.Balance.{Balanced-ext, with_ref, take_page_lem}
use tr_infer.Model.Sequence.Prepare.{Work, grow}

pub count-append : (xs ys : List ℕ) (p : ℕ) → count p (xs ++ ys) ≡ count p xs + count p ys
count-append [] ys p = omega arith
count-append (x ∷ xs) ys p = omega (arith, count-append xs ys p)

pub count-set :
    (xs : List ℕ) (k p new q : ℕ)
    → get_elem? xs k ≡ some p
    → count q (set xs k new) + hit p q ≡ count q xs + hit new q
count-set [] k p new q h = cc
count-set (x ∷ xs) zero p new q h = let e : x ≡ p = cc in omega (arith, ap (λ i. hit i q) e)
count-set (x ∷ xs) (suc k) p new q h = omega (arith, count-set xs k p new q h)

pub count-get_elem? : (xs : List ℕ) (k p : ℕ) → get_elem? xs k ≡ some p → 0 < count p xs
count-get_elem? [] k p h = cc
count-get_elem? (x ∷ xs) zero p h =
    let e : x ≡ p = cc in omega (arith, ap (λ i. hit i p) e, hit_self p)
count-get_elem? (x ∷ xs) (suc k) p h = omega (arith, count-get_elem? xs k p h)

pub get_elem?-append_lt :
    {A : Type 0} (xs ys : List A) (k : ℕ) → k < length xs → get_elem? (xs ++ ys) k ≡ get_elem? xs k
get_elem?-append_lt [] ys k h = absurd (omega arith)
get_elem?-append_lt (x ∷ xs) ys zero h = refl
get_elem?-append_lt (x ∷ xs) ys (suc k) h = get_elem?-append_lt xs ys k (omega arith)

get_elem?-append_length :
    {A : Type 0} (xs : List A) (y : A) → get_elem? (xs ++ y ∷ []) (length xs) ≡ some y
get_elem?-append_length [] y = refl
get_elem?-append_length (x ∷ xs) y = get_elem?-append_length xs y

abbrev pub tail_of : List ℕ → List ℕ
tail_of [] = []
tail_of (x ∷ xs) = xs

pub front : (xs : List ℕ) (p : ℕ) → get_elem? xs 0 ≡ some p → xs ≡ p ∷ tail_of xs
front [] p h = cc
front (x ∷ xs) p h = let e : x ≡ p = cc in ap (λ i. i ∷ xs) e

-- The references of a table, beside those of the other tables.
abbrev pub uses : (ℕ → ℕ) → List ℕ → ℕ → ℕ
uses rest table p = count p table + rest p

module _ {C : Type 0} (rest : ℕ → ℕ) where
  -- What the loop that pushes `k` pages has done.
  pub record Grown (k : ℕ) (w w' : Work C) : Type 0 where
    pub balanced : Balanced (uses rest w'.table) w'.pages
    pub sized : length w'.pages.refs ≡ length w.pages.refs
    pub contents : w'.kv ≡ w.kv
    pub longer : length w'.table ≡ length w.table + k
    pub taken : length w'.pages.free + k ≡ length w.pages.free
    pub prefix : (i : ℕ) → i < length w.table → get_elem? w'.table i ≡ get_elem? w.table i
    -- a page is new, or stands where it stood
    pub only :
        (q : ℕ)
        → (count q w'.table ≡ count q w.table)
          ⊎ ((uses rest w.table q ≡ 0) × (count q w'.table ≡ 1))
    -- the new pages are used once
    pub fresh :
        (i p : ℕ) → length w.table ≤ i → get_elem? w'.table i ≡ some p → uses rest w'.table p ≡ 1

  grow_done : (w : Work C) → Balanced (uses rest w.table) w.pages → Grown 0 w w
  grow_done w b = record {
    balanced = b;
    sized = refl;
    contents = refl;
    longer = omega arith;
    taken = omega arith;
    prefix = λ i h. refl;
    only = λ q. inl refl;
    fresh = λ i p h e. absurd (omega (arith, get_elem?-bound w.table i p e));
  }

  -- One page more.
  module _ (k p : ℕ) (w w1 w' : Work C) (uncounted : uses rest w.table p ≡ 0)
      (pushed : w1.table ≡ w.table ++ p ∷ []) (r : Grown k w1 w') where
    counts1 : (q : ℕ) → count q w1.table ≡ count q w.table + hit p q
    counts1 q = ap (count q) pushed ∙ omega (arith, count-append w.table (p ∷ []) q)

    length1 : length w1.table ≡ suc (length w.table)
    length1 = ap length pushed ∙ omega (arith, length-append {0} w.table (p ∷ []))

    only1 :
        (q : ℕ)
        → (count q w'.table ≡ count q w.table)
          ⊎ ((uses rest w.table q ≡ 0) × (count q w'.table ≡ 1))
    only1 q = elim (hit_cases p q) [
      | inl (same, h) ↦
          let zero_uses : uses rest w.table q ≡ 0 = ap (uses rest w.table) (sym same) ∙ uncounted in
          elim (r.only q) [
            | inl e ↦ inr (zero_uses, omega (arith, counts1 q))
            | inr (e, f) ↦ absurd (omega (arith, counts1 q))
          ]
      | inr (apart, h) ↦ elim (r.only q) [
        | inl e ↦ inl (omega (arith, counts1 q))
        | inr (e, f) ↦ inr (omega (arith, counts1 q), f)
      ]
    ]

    at_end : get_elem? w'.table (length w.table) ≡ some p
    at_end =
        r.prefix (length w.table) (omega (arith, length1))
        ∙ ap (λ t. get_elem? t (length w.table)) pushed
        ∙ get_elem?-append_length w.table p

    fresh1 :
        (i q : ℕ) → length w.table ≤ i → get_elem? w'.table i ≡ some q → uses rest w'.table q ≡ 1
    fresh1 i q h e = elim (hit_cases i (length w.table)) [
      | inl (same, _) ↦
          let is_p : some q ≡ some p = sym e ∙ ap (get_elem? w'.table) same ∙ at_end in
          let is_q : p ≡ q = cc in
          let none_q : uses rest w.table q ≡ 0 = ap (uses rest w.table) (sym is_q) ∙ uncounted in
          elim (only1 q) [
            | inl c ↦ absurd (omega (arith, count-get_elem? w'.table i q e))
            | inr (_, c) ↦ omega arith
          ]
      | inr (apart, _) ↦
          r.fresh i q (let n : length w.table ≢ i = λ a. apart (sym a) in omega (arith, length1)) e
    ]

    prefix1 : (i : ℕ) → i < length w.table → get_elem? w'.table i ≡ get_elem? w.table i
    prefix1 i h =
        r.prefix i (omega (arith, length1))
        ∙ ap (λ t. get_elem? t i) pushed
        ∙ get_elem?-append_lt w.table (p ∷ []) i h

  -- The loop pushes all pages when enough are free.
  pub grow_lem :
      (k : ℕ) (w : Work C)
      → Balanced (uses rest w.table) w.pages
      → k ≤ length w.pages.free
      → (w' : Work C) × (grow k w ≡ some (w', done tt)) × Grown k w w'
  unfolding grow
  grow_lem zero w b h = (w, refl, grow_done w b)
  grow_lem (suc k) w b h =
      let (p, first) = get_elem?-lt w.pages.free 0 (omega arith) in
      let (ps, t) = take_page_lem (uses rest w.table) w.pages p _ b (front w.pages.free p first) in
      let w1 : Work C = record w { pages = ps; table = w.table ++ p ∷ [] } in
      let b1 =
        Balanced-ext (with_ref (uses rest w.table) p) (uses rest w1.table) ps
          (λ q. omega (arith, count-append w.table (p ∷ []) q)) t.balanced in
      let shorter = ap length t.shorter in
      let (w', e, r) = grow_lem k w1 b1 (omega arith) in
      (
        w',
        rw (t.taken, grow) e,
        record {
          balanced = r.balanced;
          sized = r.sized ∙ t.sized;
          contents = r.contents;
          longer = omega (arith, r.longer, length-append {0} w.table (p ∷ []));
          taken = omega (arith, r.taken);
          prefix = prefix1 k p w w1 w' t.fresh refl r;
          only = only1 k p w w1 w' t.fresh refl r;
          fresh = fresh1 k p w w1 w' t.fresh refl r;
        },
      )
