-- ===== src/Model/Sequence/Admission.antt =====
-- crates/tr-model/src/sequence.rs: a batch that passes the preflight gets all its pages.
use tr_infer.Prelude.{
  ℕ, ◌+◌, ◌*◌, ◌/◌, ◌≤◌, ◌<◌, ◌≡◌, ◌≢◌, inl, inr, refl, sym, ap, ◌∙◌, Bool, true, Option, none,
  some, List, [], ◌∷◌, length, get_elem?, arith, subst, All, add64, u64_mod,
}
use tr_infer.Model.Sequence.{SequenceId, Sequence, Sequences, validate_sequence, sequence_position}
use tr_infer.Model.Sequence.PagePool.{done, hit_cases, ref_of}
use tr_infer.Model.Sequence.Valid.{owners, IsValid, validate_sequence-Found}
use tr_infer.Model.Sequence.Prepare.{prepare_sequence}
use tr_infer.Model.Sequence.Resident.{
  TailCase, shared, no_row, no_tail, private, copies, own_pos, Prepared,
}
use tr_infer.Model.Sequence.Preparation.{prepare_valid}
use tr_infer.Model.Sequence.Batch.{BatchInput, after, need_pages, prepare_all}
use tr_infer.Model.Sequence.Preflight.{Tracks, Counted, counted_lem}

-- None of the inputs is of the slot.
abbrev pub Misses : ℕ → List BatchInput → Type 0
Misses i inputs = All (λ (b : BatchInput). b.sequence.slot ≢ i) inputs

abbrev pub Distinct : List BatchInput → Type 0
Distinct [] = Unit
Distinct (b ∷ inputs) = Misses b.sequence.slot inputs × Distinct inputs

after-some :
    (n : ℕ) (o : Option ℕ) (m : ℕ) → after n o ≡ some m → (k : ℕ) × (o ≡ some k) × (m ≡ n + k)
after-some n none m h = cc
after-some n (some k) m h = let e : n + k ≡ m = cc in (k, refl, sym e)

module _ {F C : Type 0} where
  -- What an input has after the pages are given out.
  abbrev pub Ready : Sequences F C → Sequences F C → BatchInput → Type 0
  Ready ss ss' b =
      (s s' : Sequence F) × (validate_sequence ss b.sequence ≡ done s)
      × (validate_sequence ss' b.sequence ≡ done s')
      × (s'.host ≡ s.host)
      × (s.host.n_past + length b.tokens ≤ 64 * length s'.pages)
      × ((p : ℕ) → get_elem? s'.pages (s.host.n_past / 64) ≡ some p → ref_of ss'.pages.refs p ≡ 1)
      × ((i p p' : ℕ)
          → get_elem? s.pages i ≡ some p
          → get_elem? s'.pages i ≡ some p'
          → get_elem? ss'.kv p' ≡ get_elem? ss.kv p)

  -- An input that has passed the checks on `ss0`, and that is as it was there.
  abbrev pub Pending : Sequences F C → Sequences F C → BatchInput → Type 0
  Pending ss0 ss b =
      (s : Sequence F) × (get_elem? ss0.slots b.sequence.slot ≡ some s)
      × (validate_sequence ss b.sequence ≡ done s)
      × (0 < length b.tokens)
      × (s.host.n_past + length b.tokens ≤ ss.ctx)

  -- The run of `prepare_sequence` over the inputs.
  pub record Run (ss ss' : Sequences F C) (inputs : List BatchInput) : Type 0 where
    pub valid : IsValid ss'
    pub same_ctx : ss'.ctx ≡ ss.ctx
    pub ready : All (Ready ss ss') inputs
    pub apart :
        (id : SequenceId)
        → Misses id.slot inputs
        → validate_sequence ss' id ≡ validate_sequence ss id
    pub ones : (q : ℕ) → owners ss.slots q ≡ 1 → owners ss'.slots q ≡ 1
    pub used : (q : ℕ) → 0 < owners ss.slots q → 0 < owners ss'.slots q
    pub kept : (q : ℕ) → 0 < owners ss.slots q → get_elem? ss'.kv q ≡ get_elem? ss.kv q

  Run-nothing : (ss : Sequences F C) → IsValid ss → Run ss ss []
  Run-nothing ss v = record {
    valid = v;
    same_ctx = refl;
    ready = tt;
    apart = λ id h. refl;
    ones = λ q h. h;
    used = λ q h. h;
    kept = λ q h. refl;
  }

  -- A page with one reference is not the one that is copied.
  copies_le :
      (ss : Sequences F C) (s : Sequence F) (stop : ℕ) (cow : Bool) (q : ℕ)
      → TailCase (owners ss.slots) s.pages s.host.n_past stop cow
      → 0 < owners ss.slots q
      → copies cow (get_elem? s.pages (s.host.n_past / 64)) q < owners ss.slots q
  copies_le ss s stop cow q (shared p more at_tail many) pos = elim (hit_cases p q) [
    | inl (same, h) ↦ omega (arith, ap (λ o. copies true o q) at_tail, ap (owners ss.slots) same)
    | inr (apart, h) ↦ omega (arith, ap (λ o. copies true o q) at_tail)
  ]
  copies_le ss s stop cow q (no_row e) pos = pos
  copies_le ss s stop cow q (no_tail e) pos = pos
  copies_le ss s stop cow q (private p e one) pos = pos

  -- One input, and then the others.
  module _ (ss ss1 ss' : Sequences F C) (b : BatchInput) (inputs : List BatchInput)
      (s s1 : Sequence F) (cow : Bool) (h : validate_sequence ss b.sequence ≡ done s)
      (v : IsValid ss) (some_token : 0 < length b.tokens)
      (t : TailCase (owners ss.slots) s.pages s.host.n_past (s.host.n_past + length b.tokens) cow)
      (p : Prepared ss b.sequence s (s.host.n_past + length b.tokens) cow ss1 s1)
      (r : Run ss1 ss' inputs) (distinct : Distinct (b ∷ inputs)) where
    step_used : (q : ℕ) → 0 < owners ss.slots q → 0 < owners ss1.slots q
    step_used q pos =
        omega (arith, p.counts q pos, copies_le ss s (s.host.n_past + length b.tokens) cow q t pos)

    step_ones : (q : ℕ) → owners ss.slots q ≡ 1 → owners ss1.slots q ≡ 1
    step_ones q one =
        let pos : 0 < owners ss.slots q = omega arith in
        omega (arith, p.counts q pos, copies_le ss s (s.host.n_past + length b.tokens) cow q t pos)

    page_used : (i q : ℕ) → get_elem? s1.pages i ≡ some q → 0 < owners ss1.slots q
    page_used i q e =
        own_pos ss1 b.sequence s1 p.valid (validate_sequence-Found ss1 b.sequence s1 p.found) i q e

    step-Ready : Ready ss ss' b
    step-Ready = (
      s,
      s1,
      h,
      r.apart b.sequence distinct.0 ∙ p.found,
      p.host,
      p.enough,
      (λ q e.
          let one = p.private (omega arith) (s.host.n_past / 64) q (inl refl) e in
          r.valid.balanced.counted q ∙ r.ones q (sym (p.valid.balanced.counted q) ∙ one)),
      (λ i q q' e e'. r.kept q' (page_used i q' e') ∙ p.rows i q q' e e'),
    )

    later-Ready :
        (a : BatchInput) → a.sequence.slot ≢ b.sequence.slot → Ready ss1 ss' a → Ready ss ss' a
    later-Ready a differ (s2, s3, h2, h3, host, enough, one, rows) =
        let h0 = sym (p.others a.sequence (λ e. differ (sym e))) ∙ h2 in
        let f0 = validate_sequence-Found ss a.sequence s2 h0 in
        (
          s2,
          s3,
          h0,
          h3,
          host,
          enough,
          one,
          (λ i q q' e e'. rows i q q' e e' ∙ p.kept q (own_pos ss a.sequence s2 v f0 i q e)),
        )

    all-Ready :
        (others : List BatchInput)
        → Misses b.sequence.slot others
        → All (Ready ss1 ss') others
        → All (Ready ss ss') others
    all-Ready [] m a = tt
    all-Ready (x ∷ others) m a = (later-Ready x m.0 a.0, all-Ready others m.1 a.1)

    step-Run : Run ss ss' (b ∷ inputs)
    step-Run = record {
      valid = r.valid;
      same_ctx = r.same_ctx ∙ ap (λ (x : Sequences F C). x.ctx) p.state;
      ready = (step-Ready, all-Ready inputs distinct.0 r.ready);
      apart = λ id m. r.apart id m.1 ∙ p.others id m.0;
      ones = λ q e. r.ones q (step_ones q e);
      used = λ q e. r.used q (step_used q e);
      kept = λ q e. r.kept q (step_used q e) ∙ p.kept q e;
    }

  still-Pending :
      (ss0 ss ss1 : Sequences F C) (i : ℕ) (inputs : List BatchInput)
      → ((id : SequenceId) → i ≢ id.slot → validate_sequence ss1 id ≡ validate_sequence ss id)
      → ss1.ctx ≡ ss.ctx
      → Misses i inputs
      → All (Pending ss0 ss) inputs
      → All (Pending ss0 ss1) inputs
  still-Pending ss0 ss ss1 i [] others c m h = tt
  still-Pending ss0 ss ss1 i (b ∷ inputs) others c m h =
      let (s, found, valid, some_token, fits) = h.0 in
      (
        (s, found, others b.sequence (λ e. m.0 (sym e)) ∙ valid, some_token, omega (arith, c)),
        still-Pending ss0 ss ss1 i inputs others c m.1 h.1,
      )

  prepare_all-cons :
      (ss ss1 ss' : Sequences F C) (b : BatchInput) (inputs : List BatchInput) (s : Sequence F)
      → validate_sequence ss b.sequence ≡ done s
      → prepare_sequence ss b.sequence (add64 s.host.n_past (length b.tokens)) ≡ some (ss1, done tt)
      → prepare_all ss1 inputs ≡ some (ss', done tt)
      → prepare_all ss (b ∷ inputs) ≡ some (ss', done tt)
  unfolding prepare_all sequence_position
  prepare_all-cons ss ss1 ss' b inputs s h e e' = rw (h, prepare_all, e) e'

  -- When the preflight finds enough free pages, every sequence of the batch is prepared.
  pub prepare_all_lem :
      (ss0 ss : Sequences F C) (references : List (ℕ × ℕ)) (inputs : List BatchInput) (need : ℕ)
      → IsValid ss
      → ss.ctx < u64_mod
      → Tracks ss0 references ss
      → All (Pending ss0 ss) inputs
      → Distinct inputs
      → need_pages ss0 references inputs ≡ some need
      → need ≤ length ss.pages.free
      → (ss' : Sequences F C) × (prepare_all ss inputs ≡ some (ss', done tt)) × Run ss ss' inputs
  unfolding prepare_all
  prepare_all_lem ss0 ss references [] need v ctx tracks pending distinct n room =
      (ss, refl, Run-nothing ss v)
  prepare_all_lem ss0 ss references (b ∷ inputs) need v ctx tracks pending distinct n room =
      let (s, found, h, some_token, fits) = pending.0 in
      let stop = s.host.n_past + length b.tokens in
      let plain : add64 s.host.n_past (length b.tokens) ≡ stop = omega arith in
      elim (prepare_valid ss b.sequence s stop v h) [
        | inl (e, over) ↦ absurd (omega arith)
        | inr (cow, t, o) ↦
            let (next, needs, counts) =
              subst (λ k. Counted ss0 ss references inputs b s k cow) plain
                (counted_lem ss0 ss references inputs b s cow tracks found some_token (omega arith)
                  (subst (λ k. TailCase (owners ss.slots) s.pages s.host.n_past k cow) (sym plain)
                    t)) in
            let (m, n', total) = after-some _ _ need (sym needs ∙ n) in
            elim o [
              | inl (e, short) ↦ absurd (omega arith)
              | inr (ss1, s1, e, p) ↦
                  let c1 = ap (λ (x : Sequences F C). x.ctx) p.state in
                  let (ss', e', r) =
                    prepare_all_lem ss0 ss1 next inputs m p.valid (omega (arith, c1))
                      (λ q pos.
                        let was = (tracks q pos).1 in
                        (
                          counts q pos ∙ ap some (omega (arith, p.counts q was)),
                          omega (arith, p.counts q was, copies_le ss s stop cow q t was),
                        ))
                      (still-Pending ss0 ss ss1 b.sequence.slot inputs p.others c1 distinct.0
                        pending.1)
                      distinct.1 n' (omega (arith, p.taken)) in
                  (
                    ss',
                    prepare_all-cons ss ss1 ss' b inputs s h
                        (ap (prepare_sequence ss b.sequence) plain ∙ e) e',
                    step-Run ss ss1 ss' b inputs s s1 cow h v some_token t p r distinct,
                  )
            ]
      ]
