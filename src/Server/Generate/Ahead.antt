-- ===== src/Server/Generate/Ahead.antt =====
-- crates/tr-infer/src/server/engine.rs: what a speculative round leaves when the output ends in it,
-- and when it fills the limit.
use tr_infer.Prelude.{
  ℕ, suc, ◌+◌, ◌-◌, ◌≡◌, inl, inr, refl, sym, ap, ◌∙◌, Bool, true, false, Option, some, List, [],
  ◌∷◌, ◌++◌, leb, length, length-append, Bool-cases, arith,
}
use tr_infer.Model.Spec.{Sampling, Runs, Round, Speculator, round}
use tr_infer.Model.Spec.Rounds.{round_lem}
use tr_infer.Server.Generate.{
  Emitter, Gen, Reason, by_stop, by_length, contains, think_close, emit, emit_accepted, pending,
  after_round, advance, generate,
}
use tr_infer.Server.Generate.Ends.{Advances}

module _ {E S D R L T M : Type 0} (em : Emitter E S) (sm : Sampling S D R L T) (rn : Runs M D R L T)
    (step : ℕ → M → M × L) (stop_ids : List ℕ) (max_tokens : ℕ) where
  abbrev pub emitted : ℕ → Gen E S L M → Gen E S L M × Bool
  emitted t g = emit em sm rn step stop_ids max_tokens t g

  -- The state in which the accepted drafts are read.
  abbrev pub read_by : Speculator → M → S → Gen E S L M → Gen E S L M
  read_by sp m s g = record g {
    spec = some sp;
    model = m;
    sampler = s;
    stepped = g.stepped ++ g.next ∷ [];
  }

  -- A turn of the loop that gets to a speculative round, with its result.
  pub record Speculates (cancel : ℕ → Bool) (g : Gen E S L M) (sp sp' : Speculator) (m : M) (s : S)
      (rd : Round L) : Type 0 where
    pub goes_on : cancel 0 ≡ false
    pub no_stop : contains stop_ids g.next ≡ false
    pub pushed : (emitted g.next g).1 ≡ false
    pub room : leb max_tokens (em.n_gen (emitted g.next g).0.emitter) ≡ false
    pub on : g.spec ≡ some sp
    pub runs :
        round sm rn sp g.model g.next
          (max_tokens - em.n_gen (emitted g.next g).0.emitter)
          (emitted g.next g).0.sampler
          (stop_ids ++ think_close ∷ [])
        ≡ some (sp', m, s, rd)

  emit_accepted_all :
      Advances em sm rn step stop_ids max_tokens
      → (accepted : List ℕ) (g : Gen E S L M)
      → (emit_accepted em sm rn step stop_ids max_tokens accepted g).1 ≡ false
      → em.n_gen (emit_accepted em sm rn step stop_ids max_tokens accepted g).0.emitter
        ≡ em.n_gen g.emitter + length accepted
  unfolding emit_accepted emit
  emit_accepted_all a [] g h = omega arith
  emit_accepted_all a (d ∷ accepted) g h =
      let g1 = record g { stepped = g.stepped ++ d ∷ [] } in
      let r = emitted d g1 in
      let one = a.counts d g.emitter g.sampler in
      elim (Bool-cases (contains stop_ids d)) [
        | inl t ↦ let no : true ≡ false = rw t at h in cc
        | inr f ↦ elim (Bool-cases r.1) [
          | inl t ↦ let no : true ≡ false = rw (f, t) at h in cc
          | inr f' ↦
              let ih = emit_accepted_all a accepted r.0 (rw (f, f') at h) in
              rw (f, f') (omega (arith, one, ih))
        ]
      ]

  -- Drafts that do not end the output, and the drafts behind them.
  emit_accepted-append :
      (before rest : List ℕ) (g : Gen E S L M)
      → (emit_accepted em sm rn step stop_ids max_tokens before g).1 ≡ false
      → (emit_accepted em sm rn step stop_ids max_tokens (before ++ rest) g
          ≡ emit_accepted em sm rn step stop_ids max_tokens rest
              (emit_accepted em sm rn step stop_ids max_tokens before g).0)
        × ((emit_accepted em sm rn step stop_ids max_tokens before g).0.model ≡ g.model)
        × (length (emit_accepted em sm rn step stop_ids max_tokens before g).0.stepped
            ≡ length g.stepped + length before)
  unfolding emit_accepted emit
  emit_accepted-append [] rest g h = (refl, refl, omega arith)
  emit_accepted-append (d ∷ before) rest g h =
      let g1 = record g { stepped = g.stepped ++ d ∷ [] } in
      let r = emitted d g1 in
      let grown = length-append g.stepped (d ∷ []) in
      elim (Bool-cases (contains stop_ids d)) [
        | inl t ↦ let no : true ≡ false = rw t at h in cc
        | inr f ↦ elim (Bool-cases r.1) [
          | inl t ↦ let no : true ≡ false = rw (f, t) at h in cc
          | inr f' ↦
              let (e, m, n) = emit_accepted-append before rest r.0 (rw (f, f') at h) in
              rw (f, f') (e, m, omega (arith, n, grown))
        ]
      ]

  -- If an accepted draft ends the output by a stop string, and the drafts before it do not end it,
  -- the model has also read the drafts behind it, but they are not noted in `stepped`: the model is
  -- ahead of the tokens by their number.
  pub generate-ahead :
      Advances em sm rn step stop_ids max_tokens
      → (f : ℕ) (cancel : ℕ → Bool) (g : Gen E S L M) (sp sp' : Speculator) (m : M) (s : S)
        (rd : Round L) (before : List ℕ) (d : ℕ) (rest : List ℕ)
      → Speculates cancel g sp sp' m s rd
      → rn.n_past g.model ≡ length g.stepped
      → rd.accepted ≡ before ++ d ∷ rest
      → (emit_accepted em sm rn step stop_ids max_tokens before
          (read_by sp' m s (emitted g.next g).0)).1
        ≡ false
      → contains stop_ids d ≡ false
      → (emitted d
          (emit_accepted em sm rn step stop_ids max_tokens before
            (read_by sp' m s (emitted g.next g).0)).0).1
        ≡ true
      → (g' : Gen E S L M) × (generate em sm rn step stop_ids max_tokens (suc f) cancel g
          ≡ some (by_stop, g'))
        × (rn.n_past g'.model ≡ length g'.stepped + length rest)
  unfolding generate advance after_round pending emit_accepted emit
  generate-ahead a f cancel g sp sp' m s rd before d rest h sync is go_on nd stops =
      let g0 = (emitted g.next g).0 in
      let (sp2, m2, s2, rd2, e2, is2) =
        round_lem sm rn a.runs sp g0.model g0.next (max_tokens - em.n_gen g0.emitter) g0.sampler
          (stop_ids ++ think_close ∷ []) in
      let same : ◌≡◌ {A = Option (Speculator × M × S × Round L)} (some (sp', m, s, rd))
          (some (sp2, m2, s2, rd2)) =
        sym h.runs ∙ e2 in
      let same_m : m ≡ m2 = cc in
      let same_rd : rd ≡ rd2 = cc in
      let grown = length-append g.stepped (g.next ∷ []) in
      let (apart, kept, passed) =
        emit_accepted-append before (d ∷ rest) (read_by sp' m s g0) go_on in
      let r = (emit_accepted em sm rn step stop_ids max_tokens before (read_by sp' m s g0)).0 in
      let grown2 = length-append r.stepped (d ∷ []) in
      let grown3 = length-append before (d ∷ rest) in
      let n = ap (λ (l : List ℕ). length l) is in
      let n2 = ap (λ (r : Round L). length r.accepted) same_rd in
      let (e, s3, b) = em.push d r.emitter r.sampler in
      let stopped : Gen E S L M = record r {
        stepped = r.stepped ++ d ∷ [];
        emitter = e;
        sampler = s3;
      } in
      let ends : emit_accepted em sm rn step stop_ids max_tokens rd.accepted (read_by sp' m s g0)
          ≡ (stopped, true) =
        ap (λ (l : List ℕ). emit_accepted em sm rn step stop_ids max_tokens l (read_by sp' m s g0))
          is
        ∙ apart
        ∙ rw (nd, stops) in
      let g' : Gen E S L M = record stopped { logits = rd.next_logits; next = rd.next } in
      (
        g',
        rw
            (
              h.goes_on,
              h.no_stop,
              h.pushed,
              h.room,
              h.on,
              h.runs,
              ap (λ (x : Gen E S L M × Bool). x.1) ends,
            )
            (ap
              (λ (x : Gen E S L M × Bool).
                some (by_stop, (pending em sm rn step stop_ids max_tokens rd x).0))
              ends),
        omega (
          arith,
          is2.position,
          ap rn.n_past same_m,
          ap rn.n_past kept,
          grown,
          grown2,
          grown3,
          passed,
          n,
          n2,
        ),
      )

  at_limit :
      Advances em sm rn step stop_ids max_tokens
      → (f : ℕ) (cancel : ℕ → Bool) (g : Gen E S L M) → cancel 0 ≡ false
      → contains stop_ids g.next ≡ false
      → em.n_gen g.emitter ≡ max_tokens
      → (reason : Reason) × (g' : Gen E S L M) × (generate em sm rn step stop_ids max_tokens
            (suc f)
            cancel
            g
          ≡ some (reason, g'))
        × (em.n_gen g'.emitter ≡ max_tokens + 1)
  unfolding generate emit
  at_limit a f cancel g c n full =
      let one = a.counts g.next g.emitter g.sampler in
      let r = emitted g.next g in
      let long : leb max_tokens (em.n_gen r.0.emitter) ≡ true = ground arith in
      elim (Bool-cases r.1) [
        | inl t ↦ (by_stop, r.0, rw (c, n, t), omega (arith, one))
        | inr k ↦ (by_length, r.0, rw (c, n, k, long), omega (arith, one))
      ]

  -- If a speculative round fills the limit, because all drafts that it may make are accepted and none
  -- ends the output, and the next token is no stop token, then the loop takes that token too: the
  -- output is one token longer than the limit.
  pub generate-overrun :
      Advances em sm rn step stop_ids max_tokens
      → (f : ℕ) (cancel : ℕ → Bool) (g : Gen E S L M) (sp sp' : Speculator) (m : M) (s : S)
        (rd : Round L)
      → Speculates cancel g sp sp' m s rd
      → cancel 1 ≡ false
      → em.n_gen (emitted g.next g).0.emitter + length rd.accepted ≡ max_tokens
      → (emit_accepted em sm rn step stop_ids max_tokens rd.accepted
          (read_by sp' m s (emitted g.next g).0)).1
        ≡ false
      → contains stop_ids rd.next ≡ false
      → (reason : Reason) × (g' : Gen E S L M) × (generate em sm rn step stop_ids max_tokens
            (suc (suc f))
            cancel
            g
          ≡ some (reason, g'))
        × (em.n_gen g'.emitter ≡ max_tokens + 1)
  unfolding generate advance after_round pending emit
  generate-overrun a f cancel g sp sp' m s rd h c1 fills none_ends next_ok =
      let r =
        emit_accepted em sm rn step stop_ids max_tokens rd.accepted
          (read_by sp' m s (emitted g.next g).0) in
      let g1 = record r.0 { logits = rd.next_logits; next = rd.next } in
      let n = emit_accepted_all a rd.accepted (read_by sp' m s (emitted g.next g).0) none_ends in
      let (why, g', e, long) =
        at_limit a f (λ i. cancel (suc i)) g1 c1 next_ok (omega (arith, n, fills)) in
      (why, g', rw (h.goes_on, h.no_stop, h.pushed, h.room, h.on, h.runs, none_ends) e, long)
