-- ===== src/Model/Sequence/Admit.antt =====
-- crates/tr-model/src/sequence.rs: `forward_batch` up to the run, as a whole.
use tr_infer.Prelude.{
  ℕ, ◌+◌, ◌-◌, ◌≤◌, ◌<◌, ◌≡◌, ◌⊎◌, inl, inr, refl, ap, ◌∙◌, Option, some, List, [], ◌∷◌, length,
  get_elem?, arith, if◌then◌else◌, ltb, add64, ℕ_discrete, ◌/◌, ltb_false→le, Option-cases,
  Bool-cases, All, u64_mod,
}
use tr_infer.Prelude.Assoc.{lookup, insert}
use tr_infer.Model.Sequence.{pages_for, SequenceId, Sequence, Sequences, validate_sequence}
use tr_infer.Model.Sequence.PagePool.{
  Outcome, done, fail, Failure, empty_batch, too_large, no_page, ref_of, ref_of-lt,
  get_elem?-ref_of,
}
use tr_infer.Model.Sequence.Valid.{owners, owners-ge, IsValid, validate_sequence-Found}
use tr_infer.Model.Sequence.Extend.{count-get_elem?}
use tr_infer.Model.Sequence.Batch.{
  BatchInput, is_empty, check_inputs, remaining, need_pages, after, preflight, admit_batch,
}
use tr_infer.Model.Sequence.Preflight.{Tracks}
use tr_infer.Model.Sequence.Admission.{Run, Pending, Distinct, prepare_all_lem}
use tr_infer.Model.Sequence.Checks.{Checked, check_inputs_lem}

module _ {F C : Type 0} (ss : Sequences F C) where
  -- Every handle is of a sequence within the context.
  abbrev pub InContext : Type 0
  InContext =
      (id : SequenceId) (s : Sequence F) → validate_sequence ss id ≡ done s → s.host.n_past ≤ ss.ctx

module _ {F C : Type 0} (n_vocab batch_max : ℕ) (ss : Sequences F C) (v : IsValid ss) where
  pending :
      (inputs : List BatchInput)
      → ss.ctx < u64_mod
      → InContext ss
      → All (Checked n_vocab ss) inputs
      → All (Pending ss ss) inputs
  pending [] bound within h = tt
  pending (b ∷ inputs) bound within h =
      let (s, valid, some_token, fits) = h.0 in
      let n = within b.sequence s valid in
      (
        (s, (validate_sequence-Found ss b.sequence s valid).there, valid, some_token, omega arith),
        pending inputs bound within h.1,
      )

  tracks : Tracks ss [] ss
  unfolding remaining
  tracks q pos =
      let there = ref_of-lt ss.pages.refs q (omega (arith, v.balanced.counted q)) in
      (get_elem?-ref_of ss.pages.refs q there ∙ ap some (v.balanced.counted q), pos)

  after_total : (n : ℕ) (o : Option ℕ) → (m : ℕ) × (o ≡ some m) → (m : ℕ) × (after n o ≡ some m)
  after_total n o (m, e) = (n + m, ap (after n) e)

  remaining_total :
      (references : List (ℕ × ℕ)) (p : ℕ)
      → 0 < owners ss.slots p
      → (r : ℕ) × (remaining ss references p ≡ some r)
  unfolding remaining
  remaining_total references p pos = elim (Option-cases (lookup ℕ_discrete p references)) [
    | inl e ↦
        let there = ref_of-lt ss.pages.refs p (omega (arith, v.balanced.counted p)) in
        (ref_of ss.pages.refs p, rw (remaining, e) (get_elem?-ref_of ss.pages.refs p there))
    | inr (r, e) ↦ (r, rw (remaining, e))
  ]

  -- The preflight itself does not panic.
  need_pages_total :
      (references : List (ℕ × ℕ)) (inputs : List BatchInput)
      → All (Pending ss ss) inputs
      → (need : ℕ) × (need_pages ss references inputs ≡ some need)
  unfolding need_pages
  need_pages_total references [] h = (0, refl)
  need_pages_total references (b ∷ inputs) h =
      let (s, found, _, _, _) = h.0 in
      elim (Option-cases (get_elem? s.pages (s.host.n_past / 64))) [
        | inl e ↦
            let (m, k) =
              after_total (pages_for (add64 s.host.n_past (length b.tokens)) - length s.pages) _
                (need_pages_total references inputs h.1) in
            (m, rw (found, need_pages, e) k)
        | inr (p, e) ↦
            let pos : 0 < owners ss.slots p = omega (
              arith,
              count-get_elem? s.pages (s.host.n_past / 64) p e,
              owners-ge ss.slots b.sequence.slot s p found,
            ) in
            let (r, k) = remaining_total references p pos in
            elim (Bool-cases (ltb 1 r)) [
              | inl t ↦
                  let (m, l) =
                    after_total
                      (pages_for (add64 s.host.n_past (length b.tokens)) - length s.pages + 1) _
                      (need_pages_total (insert ℕ_discrete p (r - 1) references) inputs h.1) in
                  (m, rw (found, need_pages, e, k, t) l)
              | inr f ↦
                  let (m, l) =
                    after_total (pages_for (add64 s.host.n_past (length b.tokens)) - length s.pages)
                      _ (need_pages_total (insert ℕ_discrete p r references) inputs h.1) in
                  (m, rw (found, need_pages, e, k, f) l)
            ]
      ]

  -- Every outcome of `forward_batch` before the workers run.
  abbrev pub AdmitOutcome : List BatchInput → Option (Sequences F C × Outcome (Unit {0})) → Type 0
  AdmitOutcome inputs r =
      ((e : Failure) × (r ≡ some (ss, fail e)))
      ⊎ ((ss' : Sequences F C) × (r ≡ some (ss', done tt)) × Run ss ss' inputs)

  preflight_lem :
      (inputs : List BatchInput) (need : ℕ)
      → ss.ctx < u64_mod
      → All (Pending ss ss) inputs
      → Distinct inputs
      → need_pages ss [] inputs ≡ some need
      → AdmitOutcome inputs (preflight ss inputs (some need))
  unfolding preflight
  preflight_lem inputs need bound h distinct n =
      elim (Bool-cases (ltb (length ss.pages.free) need)) [
        | inl short ↦ rw short (inl (no_page, refl))
        | inr room ↦
            let (ss', e, r) =
              prepare_all_lem ss ss [] inputs need v bound tracks h distinct n
                (ltb_false→le (length ss.pages.free) need room) in
            rw room (inr (ss', e, r))
      ]

  checked_batch :
      (inputs : List BatchInput) (o : Outcome ℕ)
      → check_inputs n_vocab ss [] 0 inputs ≡ o
      → ss.ctx < u64_mod
      → InContext ss
      → AdmitOutcome inputs (elim o as (λ _. Option (Sequences F C × Outcome (Unit {0}))) [
        | fail e ↦ some (ss, fail e)
        | done total ↦
            if ltb batch_max total
            then some (ss, fail too_large)
            else preflight ss inputs (need_pages ss [] inputs)
      ])
  checked_batch inputs (fail e) c bound within = inl (e, refl)
  checked_batch inputs (done total) c bound within =
      let (h, distinct, _) = check_inputs_lem n_vocab ss [] inputs 0 total tt c in
      let p = pending inputs bound within h in
      let (need, n) = need_pages_total [] inputs p in
      elim (Bool-cases (ltb batch_max total)) [
        | inl large ↦ rw large (inl (too_large, refl))
        | inr fits ↦ rw (fits, n) (preflight_lem inputs need bound p distinct n)
      ]

  -- When all sequences are within the context, `forward_batch` either rejects the batch and changes
  -- nothing at all, or gives every input its pages: it never fails between two inputs, and it never
  -- panics. Then the invariant holds, each input has pages for its rows, the page that it appends
  -- to is its own alone, and the rows of all sequences have the contents that they had.
  pub admit_batch_lem :
      (inputs : List BatchInput)
      → ss.ctx < u64_mod
      → InContext ss
      → AdmitOutcome inputs (admit_batch n_vocab batch_max ss inputs)
  unfolding admit_batch
  admit_batch_lem inputs bound within = elim (Bool-cases (is_empty inputs)) [
    | inl t ↦ rw t (inl (empty_batch, refl))
    | inr f ↦ rw f (checked_batch inputs _ refl bound within)
  ]
