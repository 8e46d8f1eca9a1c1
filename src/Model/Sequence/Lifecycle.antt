-- ===== src/Model/Sequence/Lifecycle.antt =====
-- crates/tr-model/src/sequence.rs: allocation, release and forks keep the invariant.
use tr_infer.Prelude.{
  ℕ, ◌+◌, ◌≡◌, ◌≢◌, ◌⊎◌, inl, inr, refl, sym, ap, ◌∙◌, true, false, Option, none, some, List, [],
  ◌∷◌, map, set, get_elem?, arith, u64_max, All, if◌then◌else◌, ◌==◌, ==_iff, subst, All-get_elem?,
  get_elem?-bound, get_elem?-set_self, get_elem?-set_ne, Option-cases, Bool-cases,
}
use tr_infer.Model.Sequence.{
  SequenceId, AttnState, TileState, Sequence, Sequences, owns, map_some, free_slot, after_first,
  free_sequence_count, started, cleared, reset, clear_attn, validate_sequence, allocate_sequence,
  release_sequence,
}
use tr_infer.Model.Sequence.PagePool.{
  Outcome, done, fail, stale, no_slot, generation_overflow, Pages, count,
}
use tr_infer.Model.Sequence.Balance.{Balanced-ext}
use tr_infer.Model.Sequence.Valid.{
  HasPages, HasTable, HoldsSlot, owners, owners-set, IsValid, release_all_lem, set-IsValid, Found,
  validate_sequence-Found, Found-validate_sequence, validated,
}

module _ {F : Type 0} where
  free_slot-live :
      (t : Sequence F) (slots : List (Sequence F))
      → t.live ≡ true
      → free_slot (t ∷ slots) ≡ after_first (free_slot slots)
  unfolding free_slot
  free_slot-live t slots l = ap (λ b. if b then after_first (free_slot slots) else some (0, t)) l

  free_slot-dead :
      (t : Sequence F) (slots : List (Sequence F))
      → t.live ≡ false
      → free_slot (t ∷ slots) ≡ some (0, t)
  unfolding free_slot
  free_slot-dead t slots d = ap (λ b. if b then after_first (free_slot slots) else some (0, t)) d

  IsFree : List (Sequence F) → Option (ℕ × Sequence F) → Type 0
  IsFree slots none = Unit
  IsFree slots (some (i, s)) = (get_elem? slots i ≡ some s) × (s.live ≡ false)

  after_first-IsFree :
      (t : Sequence F) (slots : List (Sequence F)) (o : Option (ℕ × Sequence F))
      → IsFree slots o
      → IsFree (t ∷ slots) (after_first o)
  unfolding IsFree
  after_first-IsFree t slots none h = tt
  after_first-IsFree t slots (some (i, s)) h = h

  free_slot-IsFree : (slots : List (Sequence F)) → IsFree slots (free_slot slots)
  unfolding IsFree free_slot
  free_slot-IsFree [] = tt
  free_slot-IsFree (t ∷ slots) = elim (Bool-cases t.live) [
    | inl l ↦
        subst (IsFree (t ∷ slots)) (sym (free_slot-live t slots l))
          (after_first-IsFree t slots (free_slot slots) (free_slot-IsFree slots))
    | inr d ↦ subst (IsFree (t ∷ slots)) (sym (free_slot-dead t slots d)) (refl, d)
  ]

  -- The first slot that is not live, with its place.
  pub free_slot_lem :
      (slots : List (Sequence F)) (i : ℕ) (s : Sequence F)
      → free_slot slots ≡ some (i, s)
      → (get_elem? slots i ≡ some s) × (s.live ≡ false)
  unfolding IsFree
  free_slot_lem slots i s h = subst (IsFree slots) h (free_slot-IsFree slots)

  after_first-none : (o : Option (ℕ × Sequence F)) → after_first o ≡ none → o ≡ none
  after_first-none none h = refl
  after_first-none (some x) h = cc

  -- None is found only when all are live.
  pub free_slot-none :
      (slots : List (Sequence F)) → free_slot slots ≡ none → free_sequence_count slots ≡ 0
  unfolding free_slot free_sequence_count
  free_slot-none [] h = refl
  free_slot-none (t ∷ slots) h = elim (Bool-cases t.live) [
    | inl l ↦
        rw (l, free_sequence_count)
          (free_slot-none slots
            (after_first-none (free_slot slots) (sym (free_slot-live t slots l) ∙ h)))
    | inr d ↦ let k = sym (free_slot-dead t slots d) ∙ h in cc
  ]

  clear_attn-HasPages :
      (z : F) (xs : List (Option (AttnState F)))
      → All (HasPages []) (map (map_some (clear_attn z)) xs)
  clear_attn-HasPages z [] = tt
  clear_attn-HasPages z (none ∷ xs) = (tt, clear_attn-HasPages z xs)
  clear_attn-HasPages z (some a ∷ xs) = (refl, clear_attn-HasPages z xs)

  cleared-HasTable :
      (z : F) (tiles : List (TileState F)) → All (HasTable []) (map (cleared z) tiles)
  unfolding cleared
  cleared-HasTable z [] = tt
  cleared-HasTable z (st ∷ tiles) =
      (clear_attn-HasPages z (reset z st).attn, cleared-HasTable z tiles)

  pub started-HoldsSlot :
      (z : F) (s : Sequence F) → HoldsSlot s → s.live ≡ false → HoldsSlot (started z s)
  started-HoldsSlot z s h d = record {
    once = h.once;
    dead = λ e. cc;
    covered = λ e. omega arith;
    tables = λ e.
        subst (λ t. All (HasTable t) (map (cleared z) s.tiles)) (sym (h.dead d))
          (cleared-HasTable z s.tiles);
  }

module _ {F C : Type 0} where
  -- Handles of other slots are not affected when a slot is replaced.
  pub validate-set_ne :
      (ss : Sequences F C) (i : ℕ) (s : Sequence F) (ps : Pages) (kv : List C) (id : SequenceId)
      → i ≢ id.slot
      → validate_sequence (record ss { slots = set ss.slots i s; pages = ps; kv = kv }) id
        ≡ validate_sequence ss id
  unfolding validate_sequence
  validate-set_ne ss i s ps kv id h =
      ap
        (λ (o : Option (Sequence F)). elim o as (λ _. Outcome (Sequence F)) [
          | none ↦ fail stale
          | some t ↦ if owns id t then done t else fail stale
        ])
        (get_elem?-set_ne ss.slots i id.slot s h)

  -- No handle of a slot that is not live is valid.
  validate-dead :
      (ss : Sequences F C) (id : SequenceId) (s : Sequence F)
      → get_elem? ss.slots id.slot ≡ some s
      → s.live ≡ false
      → validate_sequence ss id ≡ fail stale
  unfolding validate_sequence
  validate-dead ss id s h d = rw (h, validate_sequence, d)

  -- What a handle is, after an operation on another slot.
  abbrev pub Apart : ℕ → Sequences F C → Sequences F C → Type 0
  Apart i ss ss' =
      (id : SequenceId) → i ≢ id.slot → validate_sequence ss' id ≡ validate_sequence ss id

  -- No handle of the slot is valid.
  abbrev pub AllStale : ℕ → Sequences F C → Type 0
  AllStale i ss = (id : SequenceId) → i ≡ id.slot → validate_sequence ss id ≡ fail stale

  validate-AllStale :
      (ss : Sequences F C) (i : ℕ) (s : Sequence F)
      → get_elem? ss.slots i ≡ some s
      → s.live ≡ false
      → AllStale i ss
  validate-AllStale ss i s h d id e = validate-dead ss id s (ap (get_elem? ss.slots) (sym e) ∙ h) d

  -- The first slot that is free has had its last generation.
  abbrev pub UsedUp : Sequences F C → Type 0
  UsedUp ss =
      (i : ℕ) × (s : Sequence F) × (free_slot ss.slots ≡ some (i, s)) × (s.generation ≡ u64_max)

  -- Every outcome of `allocate_sequence`.
  abbrev pub AllocateOutcome : F → Sequences F C → Sequences F C × Outcome SequenceId → Type 0
  AllocateOutcome z ss r =
      ((r ≡ (ss, fail no_slot)) × (free_sequence_count ss.slots ≡ 0))
      ⊎ (((r ≡ (ss, fail generation_overflow)) × UsedUp ss)
          ⊎ ((id : SequenceId) × (s : Sequence F) × (r.1 ≡ done id)
              × (get_elem? ss.slots id.slot ≡ some s)
              × (s.live ≡ false)
              × AllStale id.slot ss
              × Apart id.slot ss r.0
              × (r.0 ≡ record ss { slots = set ss.slots id.slot (started z s) })
              × (validate_sequence r.0 id ≡ done (started z s))
              × IsValid r.0
              × (free_slot ss.slots ≡ some (id.slot, s))
              × (s.generation ≢ u64_max)))

  allocated :
      (z : F) (ss : Sequences F C) (i : ℕ) (s : Sequence F)
      → IsValid ss
      → free_slot ss.slots ≡ some (i, s)
      → AllocateOutcome z ss (allocate_sequence z ss)
  unfolding allocate_sequence
  allocated z ss i s v h =
      let (there, dead) = free_slot_lem ss.slots i s h in
      let id : SequenceId = record { slot = i; generation = s.generation + 1 } in
      let ss' : Sequences F C = record ss { slots = set ss.slots i (started z s) } in
      let holds = started-HoldsSlot z s (All-get_elem? HoldsSlot ss.slots i s v.slots there) dead in
      elim (Bool-cases (s.generation == u64_max)) [
        | inl t ↦
            rw (h, allocate_sequence, t)
              (inr (inl (refl, (i, s, refl, (==_iff s.generation u64_max).0 t))))
        | inr f ↦
            let runs : allocate_sequence z ss ≡ (ss', done id) = rw (h, allocate_sequence, f) in
            subst (AllocateOutcome z ss) (sym runs) (
              inr (
                inr (
                  id,
                  s,
                  refl,
                  there,
                  dead,
                  validate-AllStale ss i s there dead,
                  (λ j apart. validate-set_ne ss i (started z s) ss.pages ss.kv j apart),
                  refl,
                  Found-validate_sequence ss' id (started z s) (record {
                    there =
                        get_elem?-set_self ss.slots i (started z s)
                          (get_elem?-bound ss.slots i s there);
                    live = refl;
                    current = refl;
                  }),
                  set-IsValid ss i s (started z s) ss.pages ss.kv (owners ss.slots) v there holds
                      v.balanced (λ p. refl) v.sized,
                  h,
                  (λ e. let k : true ≡ false = sym ((==_iff s.generation u64_max).1 e) ∙ f in cc),
                )))
      ]

  pub allocate_sequence_lem :
      (z : F) (ss : Sequences F C) → IsValid ss → AllocateOutcome z ss (allocate_sequence z ss)
  unfolding allocate_sequence
  allocate_sequence_lem z ss v = elim (Option-cases (free_slot ss.slots)) [
    | inl h ↦ rw (h, allocate_sequence) (inl (refl, free_slot-none ss.slots h))
    | inr ((i, s), h) ↦ allocated z ss i s v h
  ]

  -- Every outcome of `release_sequence`.
  abbrev pub ReleaseOutcome :
      Sequences F C → SequenceId → Option (Sequences F C × Outcome (Unit {0})) → Type 0
  ReleaseOutcome ss id r =
      ((r ≡ some (ss, fail stale)) × (validate_sequence ss id ≡ fail stale))
      ⊎ ((ss' : Sequences F C) × (r ≡ some (ss', done tt))
          × IsValid ss'
          × AllStale id.slot ss'
          × Apart id.slot ss ss')

  released :
      (ss : Sequences F C) (id : SequenceId) (s : Sequence F)
      → IsValid ss
      → Found ss id s
      → validate_sequence ss id ≡ done s
      → ReleaseOutcome ss id (release_sequence ss id)
  unfolding release_sequence
  released ss id s v f h =
      let gone : Sequence F = record s { live = false; pages = [] } in
      let own : ℕ → ℕ = owners (set ss.slots id.slot gone) in
      let (ps, e, c) = release_all_lem own s.pages ss.pages (
        Balanced-ext (owners ss.slots) (λ p. count p s.pages + own p) ss.pages
          (λ p. omega (arith, owners-set ss.slots id.slot s gone p f.there)) v.balanced) in
      let ss' : Sequences F C = record ss { slots = set ss.slots id.slot gone; pages = ps } in
      let holds : HoldsSlot gone = record {
        once = λ p. omega arith;
        dead = λ k. refl;
        covered = λ k. cc;
        tables = λ k. cc;
      } in
      let there =
        get_elem?-set_self ss.slots id.slot gone (get_elem?-bound ss.slots id.slot s f.there) in
      inr (
        ss',
        rw (h, release_sequence, e),
        set-IsValid ss id.slot s gone ps ss.kv own v f.there holds c.balanced
            (λ p. omega (arith, owners-set ss.slots id.slot s gone p f.there))
            (v.sized ∙ sym c.sized),
        validate-AllStale ss' id.slot gone there refl,
        (λ j apart. validate-set_ne ss id.slot gone ps ss.kv j apart),
      )

  -- `release_sequence` never panics. A stale handle is an error and changes nothing; else the
  -- invariant is kept, so that the pages which no other sequence uses are free again, no handle of
  -- the slot is valid any more, and the handles of other slots are what they were.
  pub release_sequence_lem :
      (ss : Sequences F C) (id : SequenceId)
      → IsValid ss
      → ReleaseOutcome ss id (release_sequence ss id)
  unfolding release_sequence
  release_sequence_lem ss id v = elim (validated ss id) [
    | inl h ↦ inl (rw (h, release_sequence), h)
    | inr (s, h) ↦ released ss id s v (validate_sequence-Found ss id s h) h
  ]
