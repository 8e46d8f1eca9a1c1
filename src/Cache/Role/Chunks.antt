-- ===== src/Cache/Role/Chunks.antt =====
-- What `chunk_spans` cuts: the positions of the spans, in order, in pieces of bounded length.

use tr_infer.Prelude.{
  ℕ, zero, suc, ◌+◌, ◌-◌, ◌≤◌, ◌<◌, ◌≡◌, refl, ap, sym, ◌∙◌, inl, inr, some, List, [], ◌∷◌, ◌++◌,
  Bool, arith, max, min, leb, ltb, u64_mod, All, All-append, select, Bool-cases, append_assoc,
  add64,
}
use tr_infer.Cache.Role.{Role, Span, cut, chunk_span, chunk_loop, chunk_spans}

-- The `n` positions from `p` on, each with the role.
unfoldable pub run : ℕ → ℕ → Role → List (ℕ × Role)
run p zero role = []
run p (suc n) role = (p, role) ∷ run (suc p) n role

-- The positions that spans hold, in the order of the spans.
unfoldable pub positions : List Span → List (ℕ × Role)
positions [] = []
positions (s ∷ spans) = run s.start (s.stop - s.start) s.role ++ positions spans

-- Not empty, and of at most `n` positions.
abbrev pub IsChunk : ℕ → Span → Type 0
IsChunk n c = (c.start < c.stop) × (c.stop ≤ c.start + n)

-- No end of a piece wraps.
abbrev pub Fits : ℕ → List Span → Type 0
Fits n spans = All (λ s. s.stop + max n 1 < u64_mod) spans

run-append :
    (p q m n : ℕ) (role : Role) → q ≡ p + m → run p m role ++ run q n role ≡ run p (m + n) role
unfolding run
run-append p q zero n role e =
    let z : 0 + n ≡ n = omega arith in let w : q ≡ p = omega arith in rw (z, w)
run-append p q (suc m) n role e =
    let z : suc m + n ≡ suc (m + n) = omega arith in
    rw (z, run) (ap (◌∷◌ (p, role)) (run-append (suc p) q m n role (omega arith)))

run_cong : (p q m n : ℕ) (role : Role) → p ≡ q → m ≡ n → run p m role ≡ run q n role
run_cong p q m n role e d = cc

run_none : (p n : ℕ) (role : Role) → n ≡ 0 → run p n role ≡ []
unfolding run
run_none p n role e = rw e

positions-append : (xs ys : List Span) → positions (xs ++ ys) ≡ positions xs ++ positions ys
unfolding positions
positions-append [] ys = refl
positions-append (s ∷ xs) ys =
    rw (positions-append xs ys)
      (sym (append_assoc (run s.start (s.stop - s.start) s.role) (positions xs) (positions ys)))

-- What one `while` does: it ends within the fuel, and covers `[p, stop)`.
cut_lem :
    (f : ℕ) (role : Role) (stop n p : ℕ)
    → stop - p < f
    → 0 < n
    → stop + n < u64_mod
    → (out : List Span) × (cut f role stop n p ≡ some out)
      × (positions out ≡ run p (stop - p) role)
      × All (IsChunk n) out
unfolding cut positions
cut_lem zero role stop n p h k b = elim h [ ]
cut_lem (suc f) role stop n p h k b = elim (Bool-cases (ltb p stop)) [
  | inl more ↦
      let e = min (add64 p n) stop in
      let (out, found, covers, chunks) = cut_lem f role stop n e (ground arith) k b in
      (
        record { start = p; stop = e; role = role } ∷ out,
        ground arith,
        rw covers (
            run-append p e (e - p) (stop - e) role (ground arith)
            ∙ run_cong p p (e - p + (stop - e)) (stop - p) role refl (ground arith)),
        ((ground arith, ground arith), chunks),
      )
  | inr done ↦ ([], ground arith, sym (run_none p (stop - p) role (ground arith)), tt)
]

select-run :
    (from p n : ℕ) (role : Role)
    → select (λ e. leb from e.0) (run p n role) ≡ run (max p from) (p + n - max p from) role
unfolding run
select-run from p zero role = sym (run_none _ _ role (ground arith))
select-run from p (suc n) role = elim (Bool-cases (leb from p)) [
  | inl e ↦
      rw (e, select)
        (ap (◌∷◌ (p, role)) (
            select-run from (suc p) n role
            ∙ run_cong _ (suc p) _ n role (ground arith) (ground arith))
          ∙ run_cong p (max p from) (suc n) (p + suc n - max p from) role (ground arith)
              (ground arith))
  | inr e ↦
      rw (e, select)
        (select-run from (suc p) n role ∙ run_cong _ _ _ _ role (ground arith) (ground arith))
]

select-append {ℓ} :
    {A : Type ℓ} (p : A → Bool) (xs ys : List A) → select p (xs ++ ys) ≡ select p xs ++ select p ys
select-append p [] ys = refl
select-append p (x ∷ xs) ys = elim (Bool-cases (p x)) [
  | inl e ↦ rw (e, select) (ap (◌∷◌ x) (select-append p xs ys))
  | inr e ↦ rw (e, select) (select-append p xs ys)
]

chunk_span_lem :
    (s : Span) (from n : ℕ)
    → 0 < n
    → s.stop + n < u64_mod
    → (out : List Span) × (chunk_span s from n ≡ some out)
      × (positions out ≡ select (λ e. leb from e.0) (run s.start (s.stop - s.start) s.role))
      × All (IsChunk n) out
unfolding chunk_span positions
chunk_span_lem s from n k b = elim (Bool-cases (leb s.stop (max s.start from))) [
  | inl skip ↦ (
    [],
    ground arith,
    sym (run_none _ _ s.role (ground arith))
        ∙ sym (select-run from s.start (s.stop - s.start) s.role),
    tt,
  )
  | inr cuts ↦
      let a = max s.start from in
      let (out, found, covers, chunks) =
        cut_lem (suc (s.stop - a)) s.role s.stop n a (omega arith) k b in
      (
        out,
        ground arith,
        covers
            ∙ run_cong a a _ _ s.role refl (ground arith)
            ∙ sym (select-run from s.start (s.stop - s.start) s.role),
        chunks,
      )
]

chunk_loop_lem :
    (spans : List Span) (from n : ℕ)
    → 0 < n
    → All (λ s. s.stop + n < u64_mod) spans
    → (out : List Span) × (chunk_loop spans from n ≡ some out)
      × (positions out ≡ select (λ e. leb from e.0) (positions spans))
      × All (IsChunk n) out
unfolding chunk_loop positions
chunk_loop_lem [] from n k b = ([], refl, refl, tt)
chunk_loop_lem (s ∷ spans) from n k b =
    let (l, found, covers, chunks) = chunk_span_lem s from n k b.0 in
    let (r, found', covers', chunks') = chunk_loop_lem spans from n k b.1 in
    (
      l ++ r,
      rw (found, found'),
      positions-append l r
          ∙ rw (covers, covers')
              (sym (
                select-append (λ e. leb from e.0) (run s.start (s.stop - s.start) s.role)
                  (positions spans))),
      All-append (IsChunk n) l r chunks chunks',
    )

-- Cutting ends; the chunks hold exactly the positions of the spans from `from` on, with their
-- roles and in their order; and a chunk is not empty and holds at most `max(chunk_len, 1)`
-- positions. The condition is that no chunk end passes 2^64.
pub chunk_spans-positions :
    (spans : List Span) (from chunk_len : ℕ)
    → Fits chunk_len spans
    → (out : List Span) × (chunk_spans spans from chunk_len ≡ some out)
      × (positions out ≡ select (λ e. leb from e.0) (positions spans))
      × All (IsChunk (max chunk_len 1)) out
unfolding chunk_spans
chunk_spans-positions spans from chunk_len h =
    chunk_loop_lem spans from (max chunk_len 1) (omega arith) h
