-- ===== src/Server/Generate/Ends.antt =====
-- crates/tr-infer/src/server/engine.rs: the generation ends within its limit.
use tr_infer.Prelude.{
  ℕ, zero, suc, ◌+◌, ◌-◌, ◌≤◌, ◌<◌, ◌≡◌, ◌⊎◌, inl, inr, refl, sym, ap, ◌∙◌, Bool, true, false,
  Option, none, some, List, [], ◌∷◌, ◌++◌, leb, length, length-append, Bool-cases, arith,
}
use tr_infer.Model.Spec.{Sampling, Runs, Speculator}
use tr_infer.Model.Spec.Rounds.{KeepsPosition, round_lem}
use tr_infer.Server.Generate.{
  Emitter, Gen, Reason, by_stop, by_length, by_cancel, contains, think_close, emit, emit_accepted,
  pending, after_round, plain_step, advance, generate,
}

module _ {E S D R L T M : Type 0} (em : Emitter E S) (sm : Sampling S D R L T) (rn : Runs M D R L T)
    (step : ℕ → M → M × L) (stop_ids : List ℕ) (max_tokens : ℕ) where
  -- What `Emitter::push` and `Model::step` promise: a token more, a position more.
  pub record Advances : Type 0 where
    pub counts : (t : ℕ) (e : E) (s : S) → em.n_gen (em.push t e s).0 ≡ em.n_gen e + 1
    pub steps : (t : ℕ) (m : M) → rn.n_past (step t m).0 ≡ rn.n_past m + 1
    pub runs : KeepsPosition rn

  -- What the drafts leave: `left` of them are read by the model, but not in `stepped`.
  abbrev pub Emitted : List ℕ → Gen E S L M → Gen E S L M × Bool → Type 0
  Emitted accepted g r =
      (left : ℕ) × (length r.0.stepped + left ≡ length g.stepped + length accepted)
      × (r.0.model ≡ g.model)
      × (r.0.spec ≡ g.spec)
      × (em.n_gen g.emitter ≤ em.n_gen r.0.emitter)
      × (em.n_gen r.0.emitter ≤ em.n_gen g.emitter + length accepted)
      × ((r.1 ≡ true) ⊎ (left ≡ 0))

  emit_accepted_lem :
      Advances
      → (accepted : List ℕ) (g : Gen E S L M)
      → Emitted accepted g (emit_accepted em sm rn step stop_ids max_tokens accepted g)
  unfolding emit_accepted emit
  emit_accepted_lem a [] g = (0, omega arith, refl, refl, omega arith, omega arith, inr refl)
  emit_accepted_lem a (d ∷ accepted) g =
      let grown = length-append g.stepped (d ∷ []) in
      let g1 = record g { stepped = g.stepped ++ d ∷ [] } in
      let r = emit em sm rn step stop_ids max_tokens d g1 in
      let one = a.counts d g.emitter g.sampler in
      elim (Bool-cases (contains stop_ids d)) [
        | inl t ↦
            rw t (
              length accepted,
              omega (arith, grown),
              refl,
              refl,
              omega arith,
              omega arith,
              inl refl,
            )
        | inr f ↦ elim (Bool-cases r.1) [
          | inl t ↦
              rw (f, t)
                (
                  length accepted,
                  omega (arith, grown),
                  refl,
                  refl,
                  omega (arith, one),
                  omega (arith, one),
                  inl refl,
                )
          | inr f' ↦
              let (left, n, m, sp, low, high, over) = emit_accepted_lem a accepted r.0 in
              rw (f, f')
                (
                  left,
                  omega (arith, grown, n),
                  m,
                  sp,
                  omega (arith, one, low),
                  omega (arith, one, high),
                  over,
                )
        ]
      ]

  abbrev pub speculates : Option Speculator → Bool
  speculates none = false
  speculates (some sp) = true

  -- How many tokens may stand in the output when a token is sampled.
  abbrev pub allowed : Option Speculator → ℕ
  allowed none = max_tokens - 1
  allowed (some sp) = max_tokens

  -- Behind the pending token and what the drafts leave.
  abbrev Advanced : Option Speculator → Gen E S L M → Option (Gen E S L M × Bool) → Type 0
  Advanced spec g r =
      (g' : Gen E S L M) × (b : Bool) × (r ≡ some (g', b))
      × (left : ℕ) × (rn.n_past g'.model + length g.stepped
          ≡ rn.n_past g.model + length g'.stepped + left)
      × (em.n_gen g.emitter ≤ em.n_gen g'.emitter)
      × (em.n_gen g.emitter < max_tokens → em.n_gen g'.emitter ≤ allowed spec)
      × (allowed g'.spec ≡ allowed spec)
      × (speculates g'.spec ≡ speculates spec)
      × ((left ≡ 0) ⊎ ((b ≡ true) × (speculates spec ≡ true)))

  advance_lem :
      Advances
      → (spec : Option Speculator) (g : Gen E S L M) → g.spec ≡ spec
      → Advanced spec g (advance em sm rn step stop_ids max_tokens spec g)
  unfolding advance plain_step after_round pending
  advance_lem a none g on =
      let grown = length-append g.stepped (g.next ∷ []) in
      (
        _,
        false,
        refl,
        0,
        omega (arith, grown, a.steps g.next g.model),
        omega arith,
        (λ h. omega arith),
        ap allowed on,
        ap speculates on,
        inl refl,
      )
  advance_lem a (some sp) g on =
      let grown = length-append g.stepped (g.next ∷ []) in
      let (sp', m, s, rd, e, is) =
        round_lem sm rn a.runs sp g.model g.next (max_tokens - em.n_gen g.emitter) g.sampler
          (stop_ids ++ think_close ∷ []) in
      let g1 = record g {
        spec = some sp';
        model = m;
        sampler = s;
        stepped = g.stepped ++ g.next ∷ [];
      } in
      let (left, n, same, kept, low, high, over) = emit_accepted_lem a rd.accepted g1 in
      let r = emit_accepted em sm rn step stop_ids max_tokens rd.accepted g1 in
      (
        record r.0 { logits = rd.next_logits; next = rd.next },
        r.1,
        rw (e, after_round),
        left,
        omega (arith, n, grown, ap rn.n_past same, is.position),
        low,
        (λ h. omega (arith, high, is.limit, is.count, is.judged.within)),
        ap allowed kept,
        ap speculates kept,
        elim over [ inl t ↦ inr (t, refl) | inr z ↦ inl z ],
      )

  allowed-le : (spec : Option Speculator) → allowed spec ≤ max_tokens
  allowed-le none = omega arith
  allowed-le (some sp) = omega arith

  -- How the loop ends. The model has read `left` tokens more than `stepped` says.
  abbrev pub Generated : Gen E S L M → Option (Reason × Gen E S L M) → Type 0
  Generated g r =
      (reason : Reason) × (g' : Gen E S L M) × (left : ℕ) × (r ≡ some (reason, g'))
      × (rn.n_past g'.model + length g.stepped ≡ rn.n_past g.model + length g'.stepped + left)
      × ((left ≡ 0) ⊎ ((reason ≡ by_stop) × (speculates g.spec ≡ true)))
      × (em.n_gen g'.emitter ≤ suc (allowed g.spec))
      × (reason ≡ by_length → max_tokens ≤ em.n_gen g'.emitter)

  -- The generation never panics and ends, within one round for each token of the limit and one
  -- more. The output holds at most the limit without speculation (one token if the limit is 0), and
  -- with it at most one token more; it is not shorter than the limit when the reason is `length`. The
  -- model then stands at the end of the tokens that are noted as read, except when a stop ended the
  -- output of a speculative round.
  pub generate_lem :
      Advances
      → (f : ℕ) (cancel : ℕ → Bool) (g : Gen E S L M) → max_tokens < f + em.n_gen g.emitter
      → em.n_gen g.emitter ≤ allowed g.spec
      → Generated g (generate em sm rn step stop_ids max_tokens f cancel g)
  unfolding generate emit
  generate_lem a zero cancel g fuel room = absurd (omega (arith, allowed-le g.spec))
  generate_lem a (suc f) cancel g fuel room =
      let r = emit em sm rn step stop_ids max_tokens g.next g in
      let one = a.counts g.next g.emitter g.sampler in
      elim (Bool-cases (cancel 0)) [
        | inl t ↦
            rw t (by_cancel, g, 0, refl, omega arith, inl refl, omega arith, λ e. let no = e in cc)
        | inr c ↦ elim (Bool-cases (contains stop_ids g.next)) [
          | inl t ↦
              rw (c, t)
                (by_stop, g, 0, refl, omega arith, inl refl, omega arith, λ e. let no = e in cc)
          | inr n ↦ elim (Bool-cases r.1) [
            | inl t ↦
                rw (c, n, t)
                  (
                    by_stop,
                    r.0,
                    0,
                    refl,
                    omega arith,
                    inl refl,
                    omega (arith, one),
                    λ e. let no = e in cc,
                  )
            | inr k ↦ elim (Bool-cases (leb max_tokens (em.n_gen r.0.emitter))) [
              | inl t ↦
                  rw (c, n, k, t)
                    (
                      by_length,
                      r.0,
                      0,
                      refl,
                      omega arith,
                      inl refl,
                      omega (arith, one),
                      λ e. ground arith,
                    )
              | inr l ↦
                  let (g1, b, e, left, at, low, high, al, sp, over) =
                    advance_lem a g.spec r.0 refl in
                  let lt : em.n_gen r.0.emitter < max_tokens = ground arith in
                  elim (Bool-cases b) [
                    | inl t ↦
                        let e' = e ∙ ap (λ b. some (g1, b)) t in
                        rw (c, n, k, l, e')
                          (
                            by_stop,
                            g1,
                            left,
                            refl,
                            at,
                            elim over [ inl z ↦ inl z | inr (_, y) ↦ inr (refl, y) ],
                            omega (arith, high lt),
                            λ e. let no = e in cc,
                          )
                    | inr f' ↦
                        let e' = e ∙ ap (λ b. some (g1, b)) f' in
                        let (why, g2, left2, e2, at2, over2, high2, long) =
                          generate_lem a f (λ i. cancel (suc i)) g1 (omega (arith, low, one))
                            (omega (arith, al, high lt)) in
                        let z : left ≡ 0 = elim over [
                          | inl z ↦ z
                          | inr (t, _) ↦ let no : true ≡ false = sym t ∙ f' in cc
                        ] in
                        rw (c, n, k, l, e', e2)
                          (
                            why,
                            g2,
                            left2,
                            refl,
                            omega (arith, at, at2, z),
                            elim over2 [ inl z ↦ inl z | inr (w, y) ↦ inr (w, sym sp ∙ y) ],
                            omega (arith, high2, al),
                            long,
                          )
                  ]
            ]
          ]
        ]
      ]
