-- ===== src/Model/Sequence/PagePool.antt =====
-- crates/tr-model/src/sequence.rs: `Pages`, the reference counts of the KV pages.
use tr_infer.Prelude.{
  ℕ, zero, suc, ◌+◌, ◌-◌, ◌<◌, ◌≡◌, ◌≢◌, ◌⊎◌, inl, inr, refl, ap, Option, none, some, List, [], ◌∷◌,
  length, set, get_elem?, replicate, ltb, ◌==◌, if◌then◌else◌, arith, add64, Bool-cases,
}

-- The errors of the operations on sequences.
pub data Failure : Type 0 where
  stale : Failure
  no_slot : Failure
  generation_overflow : Failure
  context_overflow : Failure
  no_page : Failure
  empty_batch : Failure
  bad_segment : Failure
  twice : Failure
  size_overflow : Failure
  too_large : Failure

pub data Outcome (A : Type 0) : Type 0 where
  done : A → Outcome A
  fail : Failure → Outcome A

-- `free` has the page that `pop` returns in front.
pub record Pages : Type 0 where
  pub refs : List ℕ
  pub free : List ℕ

-- `n`, …, `n + k - 1`
abbrev pub upto : ℕ → ℕ → List ℕ
upto n zero = []
upto n (suc k) = n ∷ upto (suc n) k

-- `Pages::new`
unfoldable pub new_pages : ℕ → Pages
new_pages n = record { refs = replicate n 0; free = upto 0 n }

-- `take`; `none` is a panic, here and below.
unfoldable pub take_page : Pages → Option (Pages × Outcome ℕ)
take_page ps = elim ps.free [
  | [] ↦ some (ps, fail no_page)
  | p ∷ rest ↦
      if ltb p (length ps.refs)
      then some (record { refs = set ps.refs p 1; free = rest }, done p)
      else none
]

-- `retain`
unfoldable pub retain : ℕ → Pages → Option Pages
retain p ps = elim (get_elem? ps.refs p) [
  | none ↦ none
  | some r ↦ if r == 0 then none else some (record ps { refs = set ps.refs p (add64 r 1) })
]

-- `release`
unfoldable pub release : ℕ → Pages → Option Pages
release p ps = elim (get_elem? ps.refs p) [
  | none ↦ none
  | some r ↦
      if r == 0
      then none
      else if r == 1
      then some (record { refs = set ps.refs p 0; free = p ∷ ps.free })
      else some (record ps { refs = set ps.refs p (r - 1) })
]

-- The number of references to a page; a page that is not there has none.
abbrev pub ref_of : List ℕ → ℕ → ℕ
ref_of [] p = 0
ref_of (r ∷ rs) zero = r
ref_of (r ∷ rs) (suc p) = ref_of rs p

-- 1 if the page is there and nothing refers to it, else 0.
abbrev pub vacant : List ℕ → ℕ → ℕ
vacant [] p = 0
vacant (r ∷ rs) zero = if r == 0 then 1 else 0
vacant (r ∷ rs) (suc p) = vacant rs p

abbrev pub hit : ℕ → ℕ → ℕ
hit q p = if q == p then 1 else 0

-- How often a page stands in a list.
abbrev pub count : ℕ → List ℕ → ℕ
count p [] = 0
count p (q ∷ qs) = hit q p + count p qs

-- The counts are those of `own`, and the free pages are those without one, each once.
pub record Balanced (own : ℕ → ℕ) (ps : Pages) : Type 0 where
  pub counted : (p : ℕ) → ref_of ps.refs p ≡ own p
  pub freed : (p : ℕ) → count p ps.free ≡ vacant ps.refs p

pub hit_self : (p : ℕ) → hit p p ≡ 1
hit_self p = ground arith

pub hit_ne : (q p : ℕ) → q ≢ p → hit q p ≡ 0
hit_ne q p h = ground arith

pub hit_cases : (q p : ℕ) → ((q ≡ p) × (hit q p ≡ 1)) ⊎ ((q ≢ p) × (hit q p ≡ 0))
hit_cases q p = elim (Bool-cases (q == p)) [
  | inl t ↦ let e : q ≡ p = ground arith in inl (e, ground arith)
  | inr f ↦ let e : q ≢ p = λ e. ground arith in inr (e, ground arith)
]

pub ref_of-set_self : (refs : List ℕ) (p v : ℕ) → p < length refs → ref_of (set refs p v) p ≡ v
ref_of-set_self [] p v h = absurd (omega arith)
ref_of-set_self (r ∷ refs) zero v h = refl
ref_of-set_self (r ∷ refs) (suc p) v h = ref_of-set_self refs p v (omega arith)

pub ref_of-set_ne : (refs : List ℕ) (p q v : ℕ) → p ≢ q → ref_of (set refs p v) q ≡ ref_of refs q
ref_of-set_ne [] p q v h = refl
ref_of-set_ne (r ∷ refs) zero zero v h = absurd (h refl)
ref_of-set_ne (r ∷ refs) zero (suc q) v h = refl
ref_of-set_ne (r ∷ refs) (suc p) zero v h = refl
ref_of-set_ne (r ∷ refs) (suc p) (suc q) v h = ref_of-set_ne refs p q v (λ e. h (ap suc e))

pub vacant-set_ne : (refs : List ℕ) (p q v : ℕ) → p ≢ q → vacant (set refs p v) q ≡ vacant refs q
vacant-set_ne [] p q v h = refl
vacant-set_ne (r ∷ refs) zero zero v h = absurd (h refl)
vacant-set_ne (r ∷ refs) zero (suc q) v h = refl
vacant-set_ne (r ∷ refs) (suc p) zero v h = refl
vacant-set_ne (r ∷ refs) (suc p) (suc q) v h = vacant-set_ne refs p q v (λ e. h (ap suc e))

-- A page that is there is vacant when nothing refers to it.
pub vacant_lem :
    (refs : List ℕ) (p : ℕ)
    → p < length refs
    → ((ref_of refs p ≡ 0) × (vacant refs p ≡ 1)) ⊎ ((0 < ref_of refs p) × (vacant refs p ≡ 0))
vacant_lem [] p h = absurd (omega arith)
vacant_lem (zero ∷ refs) zero h = inl (refl, refl)
vacant_lem (suc r ∷ refs) zero h = inr (omega arith, ground arith)
vacant_lem (r ∷ refs) (suc p) h = vacant_lem refs p (omega arith)

-- What is vacant or referred to is there.
pub vacant-lt : (refs : List ℕ) (p : ℕ) → 0 < vacant refs p → p < length refs
vacant-lt [] p h = absurd (omega arith)
vacant-lt (r ∷ refs) zero h = omega arith
vacant-lt (r ∷ refs) (suc p) h = omega (arith, vacant-lt refs p h)

pub ref_of-lt : (refs : List ℕ) (p : ℕ) → 0 < ref_of refs p → p < length refs
ref_of-lt [] p h = absurd (omega arith)
ref_of-lt (r ∷ refs) zero h = omega arith
ref_of-lt (r ∷ refs) (suc p) h = omega (arith, ref_of-lt refs p h)

pub get_elem?-ref_of :
    (refs : List ℕ) (p : ℕ) → p < length refs → get_elem? refs p ≡ some (ref_of refs p)
get_elem?-ref_of [] p h = absurd (omega arith)
get_elem?-ref_of (r ∷ refs) zero h = refl
get_elem?-ref_of (r ∷ refs) (suc p) h = get_elem?-ref_of refs p (omega arith)
