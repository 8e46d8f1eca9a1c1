-- ===== src/Server/Restore/Rows.antt =====
-- crates/tr-infer/src/server/prefix_cache.rs: the loop of `restore_plan` over the rows.
use tr_infer.Prelude.{
  ℕ, suc, ◌+◌, ◌-◌, ◌≤◌, ◌≡◌, ◌≢◌, ◌⊎◌, inl, inr, refl, sym, ap, ◌∙◌, true, false, Option, some,
  List, [], ◌∷◌, length, take, drop, leb, ◌==◌, All, arith, Bool-cases, if_pos, if_neg, ==_iff,
  subst,
}
use tr_infer.Bytes.{bytes-discrete}
use tr_infer.Cache.Object.{rows, ObjectMeta}
use tr_infer.Cache.Backend.{Backend}
use tr_infer.Cache.Restore.Contiguous.{Covers}
use tr_infer.Server.Restore.{
  RestoreError, Attempt, success, failure, other_tokens, other_size, Engine, slice, Store, read,
  counting, restore_rows,
}

-- The rows of the chunk are positions of the prompt.
abbrev pub Inside : List ℕ → ObjectMeta → Type 0
Inside ids m = (m.start ≤ m.stop) × (m.stop ≤ length ids)

-- The chunk has the tokens of the prompt.
abbrev pub Matches : List ℕ → ObjectMeta → Type 0
Matches ids m = slice ids m.start m.stop ≡ some m.tokens

Covers-le : (a b : ℕ) (chunks : List ObjectMeta) → Covers a b chunks → a ≤ b
Covers-le a b [] h = omega arith
Covers-le a b (m ∷ chunks) h = omega (arith, h.0, h.1, Covers-le m.stop b chunks h.2)

pub Covers-Inside :
    (a b : ℕ) (ids : List ℕ) (chunks : List ObjectMeta)
    → Covers a b chunks
    → b ≤ length ids
    → All (Inside ids) chunks
Covers-Inside a b ids [] h l = tt
Covers-Inside a b ids (m ∷ chunks) h l = (
  (omega (arith, h.1), omega (arith, Covers-le m.stop b chunks h.2)),
  Covers-Inside m.stop b ids chunks h.2 l,
)

slice-Inside :
    (ids : List ℕ) (m : ObjectMeta)
    → Inside ids m
    → (want : List ℕ) × (slice ids m.start m.stop ≡ some want)
unfolding slice
slice-Inside ids m h =
    let a : leb m.start m.stop ≡ true = let k = h.0 in ground arith in
    let b : leb m.stop (length ids) ≡ true = let k = h.1 in ground arith in
    (take (m.stop - m.start) (drop m.start ids), rw (a, b))

pub Attempt-cases :
    {A : Type 0} (a : Attempt A)
    → ((e : RestoreError) × (a ≡ failure e)) ⊎ ((x : A) × (a ≡ success x))
Attempt-cases (failure e) = inl (e, refl)
Attempt-cases (success x) = inr (x, refl)

-- The bytes of the chunks.
abbrev pub total : List ObjectMeta → ℕ
total [] = 0
total (r ∷ chunks) = r.bytes + total chunks

module _ (be : Backend) {F : Type 0} (en : Engine F) where
  -- The bodies of the chunks are read one after the other, each of the size that its rows take, and
  -- their rows are imported.
  unfoldable pub Reads :
      (ℕ → ℕ) → List ObjectMeta → List (List ℕ) → en.State → Store be → en.State → Store be → Type 0
  Reads clock [] [] m w m' w' = (m' ≡ m) × (w' ≡ w)
  Reads clock [] (body ∷ bodies) m w m' w' = ⊥
  Reads clock (r ∷ chunks) [] m w m' w' = ⊥
  Reads clock (r ∷ chunks) (body ∷ bodies) m w m' w' =
      (en.rows_bytes m r.start r.stop ≡ r.bytes)
      × ((read be (clock 0) r.key rows r.bytes w).1 ≡ success body)
      × Reads (λ i. clock (suc i)) chunks bodies (en.import_rows r.start r.stop body m)
          (read be (clock 0) r.key rows r.bytes w).0 m' w'

  -- Why one of the chunks is not imported: other tokens, another size, or a body that is not read.
  unfoldable pub Breaks :
      (ℕ → ℕ) → List ℕ → List ObjectMeta → en.State → Store be → RestoreError → Type 0
  Breaks clock ids [] m w e = ⊥
  Breaks clock ids (r ∷ chunks) m w e =
      ((e ≡ other_tokens) × ¬ Matches ids r)
      ⊎ (((e ≡ other_size) × (en.rows_bytes m r.start r.stop ≢ r.bytes))
          ⊎ (((read be (clock 0) r.key rows r.bytes w).1 ≡ failure e)
              ⊎ ((body : List ℕ) × ((read be (clock 0) r.key rows r.bytes w).1 ≡ success body)
                  × Breaks (λ i. clock (suc i)) ids chunks (en.import_rows r.start r.stop body m)
                      (read be (clock 0) r.key rows r.bytes w).0 e)))

  -- What the loop has done when it succeeds.
  pub record Imported (clock : ℕ → ℕ) (ids : List ℕ) (chunks : List ObjectMeta) (m : en.State)
      (w : Store be) (m' : en.State) (w' : Store be) (k b : ℕ) : Type 0 where
    pub counted : k ≡ length chunks
    pub summed : b ≡ total chunks
    pub matches : All (Matches ids) chunks
    pub bodies : List (List ℕ)
    pub reads : Reads clock chunks bodies m w m' w'

  abbrev pub RowsOutcome :
      (ℕ → ℕ)
      → List ℕ
      → List ObjectMeta
      → en.State
      → Store be
      → Option ((en.State × Store be) × Attempt (ℕ × ℕ))
      → Type 0
  RowsOutcome clock ids chunks m w r =
      ((out : en.State × Store be) × (e : RestoreError) × (r ≡ some (out, failure e))
        × Breaks clock ids chunks m w e)
      ⊎ ((m' : en.State) × (w' : Store be) × (k b : ℕ) × (r ≡ some ((m', w'), success (k, b)))
          × Imported clock ids chunks m w m' w' k b)

  counting_lem :
      (clock : ℕ → ℕ) (ids : List ℕ) (r : ObjectMeta) (chunks : List ObjectMeta) (m : en.State)
      (w : Store be) (body : List ℕ) (o : Option ((en.State × Store be) × Attempt (ℕ × ℕ)))
      → Matches ids r
      → en.rows_bytes m r.start r.stop ≡ r.bytes
      → (read be (clock 0) r.key rows r.bytes w).1 ≡ success body
      → RowsOutcome
          (λ i. clock (suc i))
          ids
          chunks
          (en.import_rows r.start r.stop body m)
          (read be (clock 0) r.key rows r.bytes w).0
          o
      → RowsOutcome clock ids (r ∷ chunks) m w (counting be en r.bytes o)
  unfolding Reads Breaks
  counting_lem clock ids r chunks m w body o h size got (inl (out, e, same, why)) =
      inl (out, e, ap (counting be en r.bytes) same, inr (inr (inr (body, got, why))))
  counting_lem clock ids r chunks m w body o h size got (inr (m', w', k, b, same, i)) = inr (
    m',
    w',
    suc k,
    r.bytes + b,
    ap (counting be en r.bytes) same,
    record {
      counted = ap suc i.counted;
      summed = ap (λ n. r.bytes + n) i.summed;
      matches = (h, i.matches);
      bodies = body ∷ i.bodies;
      reads = (size, got, i.reads);
    },
  )

  pub restore_rows_lem :
      (clock : ℕ → ℕ) (ids : List ℕ) (chunks : List ObjectMeta) (m : en.State) (w : Store be)
      → All (Inside ids) chunks
      → RowsOutcome clock ids chunks m w (restore_rows be en clock ids chunks m w)
  unfolding restore_rows Reads Breaks
  restore_rows_lem clock ids [] m w h = inr (
    m,
    w,
    0,
    0,
    refl,
    record { counted = refl; summed = refl; matches = tt; bodies = []; reads = (refl, refl) },
  )
  restore_rows_lem clock ids (r ∷ chunks) m w h =
      let (want, e) = slice-Inside ids r h.0 in
      elim (bytes-discrete r.tokens want) [
        | no differ ↦ inl (
          (m, w),
          other_tokens,
          rw (e, restore_rows, if_neg (bytes-discrete r.tokens want) differ),
          inl (
            refl,
            (λ k.
                let same : ◌≡◌ {A = Option (List ℕ)} (some r.tokens) (some want) = sym k ∙ e in
                differ (let q : r.tokens ≡ want = cc in q)),
          ),
        )
        | yes same ↦
            let read_one = read be (clock 0) r.key rows r.bytes w in
            elim (Bool-cases (en.rows_bytes m r.start r.stop == r.bytes)) [
              | inr f ↦ inl (
                (m, w),
                other_size,
                rw (e, restore_rows, if_pos (bytes-discrete r.tokens want) same, f),
                inr (
                    inl (
                      refl,
                      (λ k.
                          let t = (==_iff (en.rows_bytes m r.start r.stop) r.bytes).1 k in
                          let no : true ≡ false = sym t ∙ f in cc),
                    )),
              )
              | inl t ↦ elim (Attempt-cases read_one.1) [
                | inl (x, failed) ↦ inl (
                  (m, read_one.0),
                  x,
                  rw (e, restore_rows, if_pos (bytes-discrete r.tokens want) same, t, failed),
                  inr (inr (inl failed)),
                )
                | inr (body, got) ↦
                    let rest =
                      restore_rows_lem (λ i. clock (suc i)) ids chunks
                        (en.import_rows r.start r.stop body m) read_one.0 h.1 in
                    let runs : restore_rows be en clock ids (r ∷ chunks) m w
                        ≡ counting be en r.bytes (
                            restore_rows be en (λ i. clock (suc i)) ids chunks
                              (en.import_rows r.start r.stop body m) read_one.0) =
                      rw (e, restore_rows, if_pos (bytes-discrete r.tokens want) same, t, got) in
                    subst (RowsOutcome clock ids (r ∷ chunks) m w) (sym runs) (
                      counting_lem clock ids r chunks m w body _ (e ∙ ap some (sym same))
                        ((==_iff (en.rows_bytes m r.start r.stop) r.bytes).0 t) got rest)
              ]
            ]
      ]
