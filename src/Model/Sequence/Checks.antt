-- ===== src/Model/Sequence/Checks.antt =====
-- crates/tr-model/src/sequence.rs: what the checks of `forward_batch` tell of the inputs.
use tr_infer.Prelude.{
  ℕ, ◌≤◌, ◌<◌, ◌≡◌, ◌≢◌, inl, inr, refl, sym, ap, ◌∙◌, Bool, true, false, ◌||◌, some, List, [], ◌∷◌,
  ◌++◌, length, get_elem?, arith, if◌then◌else◌, ◌==◌, ltb_false→le, Bool-cases, All, All-append,
  All-append_left, All-append_right, sub64, any, ==_iff,
}
use tr_infer.Model.Sequence.{Sequence, Sequences, validate_sequence}
use tr_infer.Model.Sequence.PagePool.{
  Outcome, done, fail, Failure, stale, bad_segment, twice, size_overflow, context_overflow,
}
use tr_infer.Model.Sequence.Valid.{validate_sequence-Found, validated}
use tr_infer.Model.Sequence.Batch.{
  BatchInput, same_sequence, has_invalid, is_empty, check_input, check_inputs,
}
use tr_infer.Model.Sequence.Admission.{Misses, Distinct}

-- A test that has not failed.
passed :
    {A : Type 0} (b : Bool) (e : Failure) (x : Outcome A) (a : A)
    → (if b then fail e else x) ≡ done a
    → (b ≡ false) × (x ≡ done a)
passed true e x a h = cc
passed false e x a h = (refl, h)

neither : (a b : Bool) → (a || b) ≡ false → a ≡ false
neither true b h = cc
neither false b h = refl

non_empty : {A : Type 0} (xs : List A) → is_empty xs ≡ false → 0 < length xs
non_empty [] h = cc
non_empty (x ∷ xs) h = omega arith

any-false : {A : Type 0} (p : A → Bool) (xs : List A) → any p xs ≡ false → All (λ x. p x ≡ false) xs
any-false p [] h = tt
any-false p (x ∷ xs) h = elim (Bool-cases (p x)) [
  | inl t ↦ let k : true ≡ false = sym (rw (any, t)) ∙ h in cc
  | inr f ↦ (f, any-false p xs (sym (rw (any, f)) ∙ h))
]

module _ {F C : Type 0} (n_vocab : ℕ) (ss : Sequences F C) where
  -- An input that has passed the checks.
  abbrev pub Checked : BatchInput → Type 0
  Checked b =
      (s : Sequence F) × (validate_sequence ss b.sequence ≡ done s)
      × (0 < length b.tokens)
      × (length b.tokens ≤ sub64 ss.ctx s.host.n_past)

  checked :
      (seen : List BatchInput) (total : ℕ) (b : BatchInput) (s : Sequence F) (sum : ℕ)
      → validate_sequence ss b.sequence ≡ done s
      → check_input n_vocab ss seen total b ≡ done sum
      → Checked b × (any (λ (a : BatchInput). same_sequence a.sequence b.sequence) seen ≡ false)
  unfolding check_input
  checked seen total b s sum h e =
      let (full, e1) = passed _ bad_segment _ sum (rw (h, check_input) at e) in
      let (once, e2) = passed _ twice _ sum e1 in
      let (small, e3) = passed _ size_overflow _ sum e2 in
      let (fits, e4) = passed _ context_overflow _ sum e3 in
      (
        (
          s,
          h,
          non_empty b.tokens (neither (is_empty b.tokens) (has_invalid n_vocab b.tokens) full),
          ltb_false→le (sub64 ss.ctx s.host.n_past) (length b.tokens) fits,
        ),
        once,
      )

  checked_stale :
      (seen : List BatchInput) (total : ℕ) (b : BatchInput)
      → validate_sequence ss b.sequence ≡ fail stale
      → check_input n_vocab ss seen total b ≡ fail stale
  unfolding check_input
  checked_stale seen total b h = rw (h, check_input)

  check_input-Checked :
      (seen : List BatchInput) (total : ℕ) (b : BatchInput) (sum : ℕ)
      → check_input n_vocab ss seen total b ≡ done sum
      → Checked b × (any (λ (a : BatchInput). same_sequence a.sequence b.sequence) seen ≡ false)
  check_input-Checked seen total b sum e = elim (validated ss b.sequence) [
    | inl h ↦ let k = sym (checked_stale seen total b h) ∙ e in cc
    | inr (s, h) ↦ checked seen total b s sum h e
  ]

  -- Valid handles of one slot are the same.
  same_slot :
      (a b : BatchInput)
      → Checked a
      → Checked b
      → same_sequence a.sequence b.sequence ≡ false
      → a.sequence.slot ≢ b.sequence.slot
  same_slot a b (s, ha, _, _) (t, hb, _, _) differ e =
      let fa = validate_sequence-Found ss a.sequence s ha in
      let fb = validate_sequence-Found ss b.sequence t hb in
      let k : some s ≡ some t = sym fa.there ∙ ap (get_elem? ss.slots) e ∙ fb.there in
      let same : s ≡ t = cc in
      let g : a.sequence.generation ≡ b.sequence.generation =
        sym fa.current ∙ ap (λ (x : Sequence F). x.generation) same ∙ fb.current in
      let l : (a.sequence.slot == b.sequence.slot) ≡ true =
        (==_iff a.sequence.slot b.sequence.slot).1 e in
      let r : (a.sequence.generation == b.sequence.generation) ≡ true =
        (==_iff a.sequence.generation b.sequence.generation).1 g in
      let t : same_sequence a.sequence b.sequence ≡ true = rw (l, r) in
      let bad : true ≡ false = sym t ∙ differ in cc

  all_differ :
      (b : BatchInput) (seen : List BatchInput)
      → Checked b
      → All Checked seen
      → All (λ (a : BatchInput). same_sequence a.sequence b.sequence ≡ false) seen
      → All (λ (a : BatchInput). b.sequence.slot ≢ a.sequence.slot) seen
  all_differ b [] c h d = tt
  all_differ b (a ∷ seen) c h d =
      ((λ e. same_slot a b h.0 c d.0 (sym e)), all_differ b seen c h.1 d.1)

  both_miss :
      (b : BatchInput) (inputs seen : List BatchInput)
      → All (λ (a : BatchInput). b.sequence.slot ≢ a.sequence.slot) seen
      → All (λ (a : BatchInput). Misses a.sequence.slot inputs) seen
      → All (λ (a : BatchInput). Misses a.sequence.slot (b ∷ inputs)) seen
  both_miss b inputs [] h m = tt
  both_miss b inputs (a ∷ seen) h m = ((h.0, m.0), both_miss b inputs seen h.1 m.1)

  nothing : (seen : List BatchInput) → All (λ (a : BatchInput). Misses a.sequence.slot []) seen
  nothing [] = tt
  nothing (a ∷ seen) = (tt, nothing seen)

  first_of :
      (o : Outcome ℕ) (f : ℕ → Outcome ℕ) (sum : ℕ)
      → elim o as (λ _. Outcome ℕ) [ fail e ↦ fail e | done n ↦ f n ] ≡ done sum
      → (n : ℕ) × (o ≡ done n) × (f n ≡ done sum)
  first_of (fail e) f sum h = cc
  first_of (done n) f sum h = (n, refl, h)

  first_input :
      (seen inputs : List BatchInput) (total sum : ℕ) (b : BatchInput)
      → check_inputs n_vocab ss seen total (b ∷ inputs) ≡ done sum
      → (n : ℕ) × (check_input n_vocab ss seen total b ≡ done n)
        × (check_inputs n_vocab ss (seen ++ b ∷ []) n inputs ≡ done sum)
  unfolding check_inputs
  first_input seen inputs total sum b h =
      first_of (check_input n_vocab ss seen total b)
        (λ n. check_inputs n_vocab ss (seen ++ b ∷ []) n inputs) sum h

  pub check_inputs_lem :
      (seen inputs : List BatchInput) (total sum : ℕ)
      → All Checked seen
      → check_inputs n_vocab ss seen total inputs ≡ done sum
      → All Checked inputs
        × Distinct inputs
        × All (λ (a : BatchInput). Misses a.sequence.slot inputs) seen
  unfolding check_inputs
  check_inputs_lem seen [] total sum h e = (tt, tt, nothing seen)
  check_inputs_lem seen (b ∷ inputs) total sum h e =
      let (next, e1, e2) = first_input seen inputs total sum b e in
      let (c, once) = check_input-Checked seen total b next e1 in
      let (cs, distinct, misses) =
        check_inputs_lem (seen ++ b ∷ []) inputs next sum
          (All-append Checked seen (b ∷ []) h (c, tt)) e2 in
      let P : BatchInput → Type 0 = λ a. Misses a.sequence.slot inputs in
      (
        (c, cs),
        ((All-append_right P seen (b ∷ []) misses).0, distinct),
        both_miss b inputs seen
            (all_differ b seen c h
              (any-false (λ (a : BatchInput). same_sequence a.sequence b.sequence) seen once))
            (All-append_left P seen (b ∷ []) misses),
      )
