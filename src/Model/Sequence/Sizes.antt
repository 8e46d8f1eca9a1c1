-- ===== src/Model/Sequence/Sizes.antt =====
-- crates/tr-model/src/sequence.rs: the numbers of slots and pages, which no operation changes.
use tr_infer.Prelude.{
  ℕ, ◌≡◌, inl, inr, refl, sym, ap, ◌∙◌, ◌-◌, false, Option, some, List, [], ◌∷◌, length, set,
  get_elem?, length-set, ◌==◌, Bool-cases, Option-cases, subst,
}
use tr_infer.Model.Sequence.{
  SequenceId, Sequences, release_all, allocate_sequence, release_sequence, started,
}
use tr_infer.Model.Sequence.PagePool.{Outcome, done, fail, stale, Pages, release}
use tr_infer.Model.Sequence.Valid.{IsValid, validated}
use tr_infer.Model.Sequence.Lifecycle.{allocate_sequence_lem}

released_refs :
    (p : ℕ) (ps ps' : Pages) → release p ps ≡ some ps' → length ps'.refs ≡ length ps.refs
unfolding release
released_refs p ps ps' h = elim (Option-cases (get_elem? ps.refs p)) [
  | inl e ↦ let no = rw (e, release) at h in cc
  | inr (r, e) ↦ elim (Bool-cases (r == 0)) [
    | inl t ↦ let no = rw (e, release, t) at h in cc
    | inr f ↦ elim (Bool-cases (r == 1)) [
      | inl t ↦
          let k : ◌≡◌ {A = Option Pages}
              (some (record { refs = set ps.refs p 0; free = p ∷ ps.free })) (some ps') =
            rw (e, release, f, t) at h in
          let same : record { refs = set ps.refs p 0; free = p ∷ ps.free } ≡ ps' = cc in
          sym (ap (λ (x : Pages). length x.refs) same) ∙ length-set ps.refs p 0
      | inr g ↦
          let k : ◌≡◌ {A = Option Pages} (some (record ps { refs = set ps.refs p (r - 1) }))
              (some ps') =
            rw (e, release, f, g) at h in
          let same : record ps { refs = set ps.refs p (r - 1) } ≡ ps' = cc in
          sym (ap (λ (x : Pages). length x.refs) same) ∙ length-set ps.refs p (r - 1)
    ]
  ]
]

released_all_refs :
    (table : List ℕ) (ps ps' : Pages)
    → release_all table ps ≡ some ps'
    → length ps'.refs ≡ length ps.refs
unfolding release_all
released_all_refs [] ps ps' h =
    let same : ps ≡ ps' = cc in sym (ap (λ (x : Pages). length x.refs) same)
released_all_refs (p ∷ table) ps ps' h = elim (Option-cases (release p ps)) [
  | inl e ↦ let no = rw (e, release_all) at h in cc
  | inr (ps1, e) ↦
      released_all_refs table ps1 ps' (rw (e, release_all) at h) ∙ released_refs p ps ps1 e
]

module _ {F C : Type 0} where
  -- As many slots and pages.
  abbrev pub SameSizes : Sequences F C → Sequences F C → Type 0
  SameSizes ss ss' =
      (length ss'.slots ≡ length ss.slots) × (length ss'.pages.refs ≡ length ss.pages.refs)

  pub release_sequence-SameSizes :
      (ss ss' : Sequences F C) (id : SequenceId) (o : Outcome (Unit {0}))
      → release_sequence ss id ≡ some (ss', o)
      → SameSizes ss ss'
  unfolding release_sequence
  release_sequence-SameSizes ss ss' id o h = elim (validated ss id) [
    | inl e ↦
        let k : ◌≡◌ {A = Option (Sequences F C × Outcome (Unit {0}))} (some (ss, fail stale))
            (some (ss', o)) =
          rw (e, release_sequence) at h in
        let same : ss ≡ ss' = cc in subst (SameSizes ss) same (refl, refl)
    | inr (s, e) ↦ elim (Option-cases (release_all s.pages ss.pages)) [
      | inl n ↦ let no = rw (e, release_sequence, n) at h in cc
      | inr (ps, r) ↦
          let gone : Sequences F C = record ss {
            slots = set ss.slots id.slot (record s { live = false; pages = [] });
            pages = ps;
          } in
          let k : ◌≡◌ {A = Option (Sequences F C × Outcome (Unit {0}))} (some (gone, done tt))
              (some (ss', o)) =
            rw (e, release_sequence, r) at h in
          let same : gone ≡ ss' = cc in
          subst (SameSizes ss) same (
            length-set ss.slots id.slot (record s { live = false; pages = [] }),
            released_all_refs s.pages ss.pages ps r,
          )
    ]
  ]

  pub allocate_sequence-SameSizes :
      (z : F) (ss : Sequences F C) → IsValid ss → SameSizes ss (allocate_sequence z ss).0
  allocate_sequence-SameSizes z ss v = elim (allocate_sequence_lem z ss v) [
    | inl (e, _) ↦ subst (λ r. SameSizes ss r.0) (sym e) (refl, refl)
    | inr (inl (e, _)) ↦ subst (λ r. SameSizes ss r.0) (sym e) (refl, refl)
    | inr (inr (id, s, _, _, _, _, _, e, _, _, _, _)) ↦
        subst (SameSizes ss) (sym e) (length-set ss.slots id.slot (started z s), refl)
  ]
