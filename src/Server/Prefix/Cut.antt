-- ===== src/Server/Prefix/Cut.antt =====
-- crates/tr-infer/src/server/prefix_cache.rs: the cut at spans that are not stored, and the order
-- of snapshot points.
use tr_infer.Prelude.{
  ℕ, u64_max, false, Listed, dec_lt, ◌≤◌, ◌<◌, ◌≡◌, ◌⊎◌, inl, inr, refl, sym, ◌∙◌, true, List, [],
  ◌∷◌, ◌==◌, All, All-map, Bool-cases, arith, ltb→lt, ltb_false→le, subst, ==_iff,
}
use tr_infer.Prelude.Sort.{place, sort}
use tr_infer.Cache.Role.{Role, Span}
use tr_infer.Cache.Policy.{get}
use tr_infer.Server.Prefix.{Settings, persist_cut, before_point, dedup, dedup_after}

persist_cut-cons :
    (o : Settings) (s : Span) (spans : List Span)
    → (persist_cut o (s ∷ spans) ≤ persist_cut o spans)
      × (((get o.roles s.role).persist ≡ true) ⊎ (persist_cut o (s ∷ spans) ≤ s.start))
unfolding persist_cut
persist_cut-cons o s spans = elim (Bool-cases (get o.roles s.role).persist) [
  | inl p ↦ rw p (omega arith, inl refl)
  | inr n ↦ rw n (omega arith, inr (omega arith))
]

-- Every span that starts before the cut is of a role that is stored.
pub persist_cut-le :
    (o : Settings) (spans : List Span)
    → All
        (λ (s : Span). ((get o.roles s.role).persist ≡ true) ⊎ (persist_cut o spans ≤ s.start))
        spans
persist_cut-le o [] = tt
persist_cut-le o (s ∷ spans) =
    let (less, here) = persist_cut-cons o s spans in
    (
      here,
      All-map
          (λ (t : Span). ((get o.roles t.role).persist ≡ true) ⊎ (persist_cut o spans ≤ t.start))
          (λ t. ((get o.roles t.role).persist ≡ true) ⊎ (persist_cut o (s ∷ spans) ≤ t.start)) spans
          (λ t h. elim h [ inl p ↦ inl p | inr l ↦ inr (omega arith) ]) (persist_cut-le o spans),
    )

-- The cut is the start of a span that is not stored, or there is none.
pub persist_cut-reached :
    (o : Settings) (spans : List Span)
    → (persist_cut o spans ≡ u64_max)
      ⊎ ((s : Span) × Listed s spans
          × ((get o.roles s.role).persist ≡ false)
          × (persist_cut o spans ≡ s.start))
unfolding persist_cut
persist_cut-reached o [] = inl refl
persist_cut-reached o (s ∷ spans) = elim (Bool-cases (get o.roles s.role).persist) [
  | inl t ↦ elim (persist_cut-reached o spans) [
    | inl e ↦ rw t (inl e)
    | inr (x, l, p, e) ↦ rw t (inr (x, inr l, p, e))
  ]
  | inr f ↦ elim (dec_lt (persist_cut o spans) s.start) [
    | no k ↦ rw f (inr (s, inl refl, f, omega arith))
    | yes k ↦ elim (persist_cut-reached o spans) [
      | inl e ↦ rw f (inl (omega (arith, e)))
      | inr (x, l, p, e) ↦ rw f (inr (x, inr l, p, omega (arith, e)))
    ]
  ]
]

-- Positions that do not go down, from `last` on.
abbrev pub IsAscending : ℕ → List (ℕ × Role) → Type 0
IsAscending last [] = Unit
IsAscending last (p ∷ points) = (last ≤ p.0) × IsAscending p.0 points

-- Positions that go up, behind `last`.
abbrev pub IsIncreasing : ℕ → List (ℕ × Role) → Type 0
IsIncreasing last [] = Unit
IsIncreasing last (p ∷ points) = (last < p.0) × IsIncreasing p.0 points

-- There is a point at the position.
abbrev pub At : ℕ → List (ℕ × Role) → Type 0
At q [] = ⊥
At q (p ∷ points) = (p.0 ≡ q) ⊎ At q points

place-IsAscending :
    (last : ℕ) (x : ℕ × Role) (ys : List (ℕ × Role))
    → last ≤ x.0
    → IsAscending last ys
    → IsAscending last (place before_point x ys)
unfolding place
place-IsAscending last x [] h a = (h, tt)
place-IsAscending last x (y ∷ ys) h a = elim (Bool-cases (before_point y x)) [
  | inl t ↦ let l = ltb→lt y.0 x.0 t in rw t (a.0, place-IsAscending y.0 x ys (omega arith) a.1)
  | inr f ↦ rw f (h, (ltb_false→le y.0 x.0 f, a.1))
]

pub sort-IsAscending : (xs : List (ℕ × Role)) → IsAscending 0 (sort before_point xs)
unfolding sort
sort-IsAscending [] = tt
sort-IsAscending (x ∷ xs) =
    place-IsAscending 0 x (sort before_point xs) (omega arith) (sort-IsAscending xs)

place-At :
    (q : ℕ) (x : ℕ × Role) (ys : List (ℕ × Role))
    → (x.0 ≡ q) ⊎ At q ys
    → At q (place before_point x ys)
unfolding place
place-At q x [] h = h
place-At q x (y ∷ ys) h = elim (Bool-cases (before_point y x)) [
  | inl t ↦ rw t (elim h [
    | inl e ↦ inr (place-At q x ys (inl e))
    | inr (inl e) ↦ inl e
    | inr (inr r) ↦ inr (place-At q x ys (inr r))
  ])
  | inr f ↦ rw f h
]

pub sort-At : (q : ℕ) (xs : List (ℕ × Role)) → At q xs → At q (sort before_point xs)
unfolding sort
sort-At q [] h = absurd h
sort-At q (x ∷ xs) (inl e) = place-At q x (sort before_point xs) (inl e)
sort-At q (x ∷ xs) (inr r) = place-At q x (sort before_point xs) (inr (sort-At q xs r))

dedup_after-IsIncreasing :
    (last : ℕ) (points : List (ℕ × Role))
    → IsAscending last points
    → IsIncreasing last (dedup_after last points)
unfolding dedup_after
dedup_after-IsIncreasing last [] a = tt
dedup_after-IsIncreasing last (p ∷ points) a = elim (Bool-cases (p.0 == last)) [
  | inl t ↦
      let e : p.0 ≡ last = (==_iff p.0 last).0 t in
      rw t (dedup_after-IsIncreasing last points (subst (λ k. IsAscending k points) e a.1))
  | inr f ↦
      let n : last < p.0 = let l = a.0 in ground arith in
      rw f (n, dedup_after-IsIncreasing p.0 points a.1)
]

dedup_after-At :
    (q last : ℕ) (points : List (ℕ × Role))
    → At q points
    → (last ≡ q) ⊎ At q (dedup_after last points)
unfolding dedup_after
dedup_after-At q last [] h = absurd h
dedup_after-At q last (p ∷ points) h = elim (Bool-cases (p.0 == last)) [
  | inl t ↦
      let e : p.0 ≡ last = (==_iff p.0 last).0 t in
      rw t (elim h [ inl k ↦ inl (sym e ∙ k) | inr r ↦ dedup_after-At q last points r ])
  | inr f ↦ rw f (inr (elim h [ inl k ↦ inl k | inr r ↦ dedup_after-At q p.0 points r ]))
]

dedup_after-All :
    (P : ℕ × Role → Type 0) (last : ℕ) (points : List (ℕ × Role))
    → All P points
    → All P (dedup_after last points)
unfolding dedup_after
dedup_after-All P last [] h = tt
dedup_after-All P last (p ∷ points) h = elim (Bool-cases (p.0 == last)) [
  | inl t ↦ rw t (dedup_after-All P last points h.1)
  | inr f ↦ rw f (h.0, dedup_after-All P p.0 points h.1)
]

-- What `dedup` makes of sorted points.
pub dedup_lem :
    (P : ℕ × Role → Type 0) (points : List (ℕ × Role))
    → ((p : ℕ × Role) → P p → 0 < p.0)
    → All P points
    → IsAscending 0 points
    → All P (dedup points)
      × IsIncreasing 0 (dedup points)
      × ((q : ℕ) → At q points → At q (dedup points))
unfolding dedup
dedup_lem P [] pos h a = (tt, tt, λ q k. absurd k)
dedup_lem P (p ∷ points) pos h a = (
  (h.0, dedup_after-All P p.0 points h.1),
  (pos p h.0, dedup_after-IsIncreasing p.0 points a.1),
  λ q k. elim k [ inl e ↦ inl e | inr r ↦ dedup_after-At q p.0 points r ],
)
