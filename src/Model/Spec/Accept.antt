-- ===== src/Model/Spec/Accept.antt =====
-- crates/tr-model/src/spec.rs: which drafts are accepted.
use tr_infer.Prelude.{
  ℕ, zero, suc, ◌≤◌, ◌≡◌, ◌⊎◌, inl, inr, refl, Bool, true, false, some, List, [], ◌∷◌, length,
  get_elem?, Bool-cases, arith,
}
use tr_infer.Model.Spec.{Sampling, Accepted, verdict, accept}

module _ {S D R L T : Type 0} (sm : Sampling S D R L T) where
  abbrev pub judged : S → ℕ × D → L → S × Bool
  judged s d l = verdict sm (sm.prob (sm.dist s l) d.0) (sm.prob d.1 d.0) s

  -- The first `j` drafts are accepted, one after the other, from the sampler `s` to `s'`.
  abbrev pub AllAccepted : ℕ → S → List (ℕ × D) → List L → S → Type 0
  AllAccepted zero s drafts rows s' = s' ≡ s
  AllAccepted (suc j) s [] rows s' = ⊥
  AllAccepted (suc j) s (d ∷ drafts) [] s' = ⊥
  AllAccepted (suc j) s (d ∷ drafts) (l ∷ rows) s' =
      ((judged s d l).1 ≡ true) × AllAccepted j (judged s d l).0 drafts rows s'

  -- How the loop ends: behind all drafts the next token is sampled from the last row; else a draft
  -- is rejected, and the next token is from the rest of its row's distribution.
  abbrev pub Ends : List (ℕ × D) → S → S → Accepted L → Type 0
  Ends drafts s1 s' a =
      ((a.count ≡ length drafts) × ((s', a.next) ≡ sm.sample s1 a.row))
      ⊎ ((d : ℕ × D) × (get_elem? drafts a.count ≡ some d)
          × ((judged s1 d a.row).1 ≡ false)
          × ((s', a.next) ≡ sm.residual_sample (judged s1 d a.row).0 (sm.dist s1 a.row) d.1))

  pub record IsAccepted (s : S) (drafts : List (ℕ × D)) (rows : List L) (s' : S) (a : Accepted L)
      : Type 0 where
    pub within : a.count ≤ length drafts
    pub row : get_elem? rows a.count ≡ some a.row
    pub before : S
    pub accepted : AllAccepted a.count s drafts rows before
    pub ends : Ends drafts before s' a

  -- With a row for each draft and one more, the loop never panics; it accepts the drafts in order up
  -- to the first that is rejected.
  pub accept_lem :
      (s : S) (drafts : List (ℕ × D)) (rows : List L)
      → length rows ≡ suc (length drafts)
      → (s' : S) × (a : Accepted L) × (accept sm s drafts rows ≡ some (s', a))
        × IsAccepted s drafts rows s' a
  unfolding accept
  accept_lem s [] [] h = absurd (omega arith)
  accept_lem s [] (l ∷ rows) h = (
    (sm.sample s l).0,
    record { count = 0; next = (sm.sample s l).1; row = l },
    refl,
    record {
      within = omega arith;
      row = refl;
      before = s;
      accepted = refl;
      ends = inl (refl, refl);
    },
  )
  accept_lem s (d ∷ drafts) [] h = absurd (omega arith)
  accept_lem s (d ∷ drafts) (l ∷ rows) h = elim (Bool-cases (judged s d l).1) [
    | inr f ↦
        let r = sm.residual_sample (judged s d l).0 (sm.dist s l) d.1 in
        (
          r.0,
          record { count = 0; next = r.1; row = l },
          rw f,
          record {
            within = omega arith;
            row = refl;
            before = s;
            accepted = refl;
            ends = inr (d, refl, f, refl);
          },
        )
    | inl t ↦
        let (s', a, e, is) = accept_lem (judged s d l).0 drafts rows (omega arith) in
        (
          s',
          record a { count = suc a.count },
          rw (t, e),
          record {
            within = omega (arith, is.within);
            row = is.row;
            before = is.before;
            accepted = (t, is.accepted);
            ends = elim is.ends [ inl (n, e) ↦ inl (omega arith, e) | inr x ↦ inr x ];
          },
        )
  ]
