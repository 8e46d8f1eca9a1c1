-- ===== src/Model/Sequence/Fork.antt =====
-- crates/tr-model/src/sequence.rs: a fork shares the pages of its parent.
use tr_infer.Prelude.{
  ℕ, ◌+◌, ◌≤◌, ◌≡◌, ◌≢◌, ◌⊎◌, inl, inr, refl, sym, ap, ◌∙◌, true, false, Option, none, some, List,
  [], ◌∷◌, map, length, set, get_elem?, take, arith, All, ltb, subst, All-get_elem?, All-set,
  get_elem?-bound, get_elem?-set_self, length-set, length-take,
}
use tr_infer.Model.Sequence.{
  SequenceId, AttnState, TileState, Sequence, Sequences, map_some, zip, with_table, copy_attn,
  copied, free_sequence_count, started, validate_sequence, allocate_sequence, forked, fork_into,
  fork_allocated, fork_sequence, pages_for,
}
use tr_infer.Model.Sequence.PagePool.{
  Outcome, done, fail, stale, no_slot, generation_overflow, count,
}
use tr_infer.Model.Sequence.Valid.{
  HasPages, HasTable, HoldsSlot, owners, owners-set, owners-le, owners-ge, IsValid, retain_all_lem,
  count-take, set-IsValid, Found, validate_sequence-Found, Found-validate_sequence, validated,
}
use tr_infer.Model.Sequence.Lifecycle.{
  Apart, AllStale, UsedUp, allocate_sequence_lem, validate-set_ne,
}
use tr_infer.Model.Sequence.Copies.{
  Shape, shape, recurrent, copied_lem, with_table-shape, cleared-shape,
}

module _ {F : Type 0} where
  copy_attn-HasPages :
      (table : List ℕ) (s d : Option (AttnState F))
      → HasPages table d
      → HasPages table (copy_attn s d)
  copy_attn-HasPages table (some s) (some d) h = h
  copy_attn-HasPages table (some s) none h = tt
  copy_attn-HasPages table none d h = h

  copy_attns-HasPages :
      (table : List ℕ) (src dst : List (Option (AttnState F)))
      → All (HasPages table) dst
      → All (HasPages table) (zip copy_attn src dst)
  copy_attns-HasPages table (s ∷ src) (d ∷ dst) h =
      (copy_attn-HasPages table s d h.0, copy_attns-HasPages table src dst h.1)
  copy_attns-HasPages table src [] h = elim src [ [] ↦ tt | s ∷ src' ↦ tt ]
  copy_attns-HasPages table [] (d ∷ dst) h = h

  copied-HasTable :
      (table : List ℕ) (src dst : List (TileState F))
      → All (HasTable table) dst
      → All (HasTable table) (zip copied src dst)
  unfolding copied
  copied-HasTable table (s ∷ src) (d ∷ dst) h =
      (copy_attns-HasPages table s.attn d.attn h.0, copied-HasTable table src dst h.1)
  copied-HasTable table src [] h = elim src [ [] ↦ tt | s ∷ src' ↦ tt ]
  copied-HasTable table [] (d ∷ dst) h = h

  map-HasPages :
      (table : List ℕ) (xs : List (Option (AttnState F)))
      → All (HasPages table) (map (map_some (λ a. record a { pages = table })) xs)
  map-HasPages table [] = tt
  map-HasPages table (none ∷ xs) = (tt, map-HasPages table xs)
  map-HasPages table (some a ∷ xs) = (refl, map-HasPages table xs)

  pub with_table-HasTable :
      (table : List ℕ) (tiles : List (TileState F))
      → All (HasTable table) (map (with_table table) tiles)
  unfolding with_table
  with_table-HasTable table [] = tt
  with_table-HasTable table (st ∷ tiles) =
      (map-HasPages table st.attn, with_table-HasTable table tiles)

  forked-HoldsSlot :
      (s c : Sequence F)
      → HoldsSlot s
      → s.live ≡ true
      → c.live ≡ true
      → HoldsSlot (forked (take (pages_for s.host.n_past) s.pages) s c)
  forked-HoldsSlot s c h live alive =
      let n = pages_for s.host.n_past in
      let table = take n s.pages in
      record {
        once = λ p. omega (arith, count-take n s.pages p, h.once p);
        dead = λ k. cc;
        covered = λ k. omega (arith, length-take n s.pages, h.covered live);
        tables = λ k.
            copied-HasTable table s.tiles (map (with_table table) c.tiles)
              (with_table-HasTable table c.tiles);
      }

module _ {F C : Type 0} where
  -- The child of a fork: the parent is what it was, and the child has its position and the rest of
  -- the host's state, the pages of its rows, and the state of its recurrent layers.
  pub record IsFork (ss ss' : Sequences F C) (id child : SequenceId) (s c : Sequence F)
      : Type 0 where
    pub valid : IsValid ss'
    pub parent : validate_sequence ss' id ≡ done s
    pub forked : validate_sequence ss' child ≡ done c
    pub host : c.host ≡ s.host
    pub pages : c.pages ≡ take (pages_for s.host.n_past) s.pages
    pub tiles : map recurrent c.tiles ≡ map recurrent s.tiles
    pub contents : ss'.kv ≡ ss.kv
    pub fresh : AllStale child.slot ss
    pub others : Apart child.slot ss ss'

  -- Every outcome of `fork_sequence`.
  abbrev pub ForkOutcome :
      Sequences F C → SequenceId → Option (Sequences F C × Outcome SequenceId) → Type 0
  ForkOutcome ss id r =
      ((r ≡ some (ss, fail stale)) × (validate_sequence ss id ≡ fail stale))
      ⊎ (((r ≡ some (ss, fail no_slot)) × (free_sequence_count ss.slots ≡ 0))
          ⊎ (((r ≡ some (ss, fail generation_overflow)) × UsedUp ss)
              ⊎ ((ss' : Sequences F C) × (child : SequenceId) × (s c : Sequence F) × (r
                    ≡ some (ss', done child))
                  × IsFork ss ss' id child s c)))

  -- The rest of a fork, on a state with a child that has no page yet.
  fork_into_lem :
      (ss : Sequences F C) (id child : SequenceId) (s c : Sequence F)
      → IsValid ss
      → Found ss id s
      → Found ss child c
      → c.pages ≡ []
      → child.slot ≢ id.slot
      → (ss' : Sequences F C) × (c' : Sequence F) × (fork_into child s c ss
          ≡ some (ss', done child))
        × IsValid ss'
        × (validate_sequence ss' id ≡ done s)
        × (validate_sequence ss' child ≡ done c')
        × (c'.host ≡ s.host)
        × (c'.pages ≡ take (pages_for s.host.n_past) s.pages)
        × (ss'.kv ≡ ss.kv)
        × Apart child.slot ss ss'
        × (c' ≡ forked (take (pages_for s.host.n_past) s.pages) s c)
  unfolding fork_into
  fork_into_lem ss id child s c v f g no_pages apart =
      let n = pages_for s.host.n_past in
      let table = take n s.pages in
      let c' = forked table s c in
      let h = All-get_elem? HoldsSlot ss.slots id.slot s v.slots f.there in
      let holds = forked-HoldsSlot s c h f.live g.live in
      let slots = set ss.slots child.slot c' in
      let counts : (p : ℕ) → owners slots p ≡ owners ss.slots p + count p table =
        λ p. omega (arith, owners-set ss.slots child.slot c c' p g.there, ap (count p) no_pages) in
      let all = All-set HoldsSlot ss.slots child.slot c' v.slots holds in
      let (ps, e, changed) =
        retain_all_lem (owners ss.slots) table ss.pages v.balanced
          (λ p. omega (arith, count-take n s.pages p, owners-ge ss.slots id.slot s p f.there))
          (λ p. omega (
            arith,
            counts p,
            owners-le slots p all,
            length-set ss.slots child.slot c',
            v.bounded,
          )) in
      let enough : ltb (length s.pages) n ≡ false =
        let k : n ≤ length s.pages = omega (arith, h.covered f.live) in ground arith in
      let ss' : Sequences F C = record ss { slots = slots; pages = ps } in
      (
        ss',
        c',
        rw (enough, e),
        set-IsValid ss child.slot c c' ps ss.kv (λ p. count p table + owners ss.slots p) v g.there
            holds changed.balanced (λ p. omega (arith, ap (count p) no_pages))
            (v.sized ∙ sym changed.sized),
        validate-set_ne ss child.slot c' ps ss.kv id apart ∙ Found-validate_sequence ss id s f,
        Found-validate_sequence ss' child c' (record {
          there =
              get_elem?-set_self ss.slots child.slot c'
                (get_elem?-bound ss.slots child.slot c g.there);
          live = g.live;
          current = g.current;
        }),
        refl,
        refl,
        refl,
        (λ j a. validate-set_ne ss child.slot c' ps ss.kv j a),
        refl,
      )

  fork_allocated_found :
      (ss : Sequences F C) (id child : SequenceId) (s c : Sequence F)
      → get_elem? ss.slots id.slot ≡ some s
      → get_elem? ss.slots child.slot ≡ some c
      → fork_allocated id (ss, done child) ≡ fork_into child s c ss
  unfolding fork_allocated
  fork_allocated_found ss id child s c f g = rw (f, fork_allocated, g)

  fork_allocated_lem :
      (z : F) (ss : Sequences F C) (id : SequenceId) (s : Sequence F) (shapes : List Shape)
      → IsValid ss
      → All (λ (t : Sequence F). map shape t.tiles ≡ shapes) ss.slots
      → Found ss id s
      → ForkOutcome ss id (fork_allocated id (allocate_sequence z ss))
  unfolding fork_allocated
  fork_allocated_lem z ss id s shapes v alike f = elim (allocate_sequence_lem z ss v) [
    | inl (e, full) ↦ rw e (inr (inl (refl, full)))
    | inr (inl (e, up)) ↦ rw e (inr (inr (inl (refl, up))))
    | inr (inr (child, c0, outcome, there, dead, fresh, apart, state, valid, v1, _, _)) ↦
        let h = Found-validate_sequence ss id s f in
        let differ : child.slot ≢ id.slot = λ same. let k = sym (fresh id same) ∙ h in cc in
        let ss1 = (allocate_sequence z ss).0 in
        let no_pages = (All-get_elem? HoldsSlot ss.slots child.slot c0 v.slots there).dead dead in
        let f1 = validate_sequence-Found ss1 id s (apart id differ ∙ h) in
        let g1 = validate_sequence-Found ss1 child (started z c0) valid in
        let (ss', c', e, v', p, q, host, pages, kv, others, made) =
          fork_into_lem ss1 id child s (started z c0) v1 f1 g1 no_pages differ in
        let table = take (pages_for s.host.n_past) s.pages in
        let empty = (started z c0).tiles in
        let of_slot = All-get_elem? (λ (t : Sequence F). map shape t.tiles ≡ shapes) ss.slots in
        let agree : map shape s.tiles ≡ map shape (map (with_table table) empty) =
          of_slot id.slot s alike f.there
          ∙ sym (
              with_table-shape table empty
              ∙ cleared-shape z c0.tiles
              ∙ of_slot child.slot c0 alike there) in
        let tiles : map recurrent c'.tiles ≡ map recurrent s.tiles =
          ap (λ (t : Sequence F). map recurrent t.tiles) made
          ∙ copied_lem s.tiles (map (with_table table) empty) agree in
        let runs : allocate_sequence z ss ≡ (ss1, done child) = λ i. (ss1, outcome i) in
        inr (
          inr (
            inr (
              ss',
              child,
              s,
              c',
              ap (fork_allocated id) runs
                  ∙ fork_allocated_found ss1 id child s (started z c0) f1.there g1.there
                  ∙ e,
              record {
                valid = v';
                parent = p;
                forked = q;
                host = host;
                pages = pages;
                tiles = tiles;
                contents = kv ∙ ap (λ (x : Sequences F C). x.kv) state;
                fresh = fresh;
                others = λ j a. others j a ∙ apart j a;
              },
            )))
  ]

  -- `fork_sequence` never panics, and it fails only on a stale handle, when all slots are live, or
  -- when the generations of the first free slot are used up, which changes nothing. Else it keeps the
  -- invariant, the parent and the contents of all pages are what they were, and the child is a new
  -- sequence that shares the pages of the parent's rows and has the parent's position, recurrent
  -- states, keys that are not pooled yet and history. The condition is that all slots have states for
  -- the same layers.
  pub fork_sequence_lem :
      (z : F) (ss : Sequences F C) (id : SequenceId) (shapes : List Shape)
      → IsValid ss
      → All (λ (t : Sequence F). map shape t.tiles ≡ shapes) ss.slots
      → ForkOutcome ss id (fork_sequence z ss id)
  unfolding fork_sequence
  fork_sequence_lem z ss id shapes v alike = elim (validated ss id) [
    | inl h ↦ inl (rw (h, fork_sequence), h)
    | inr (s, h) ↦
        subst (ForkOutcome ss id)
          (let e : fork_sequence z ss id ≡ fork_allocated id (allocate_sequence z ss) =
              rw (h, fork_sequence) in
            sym e)
          (fork_allocated_lem z ss id s shapes v alike (validate_sequence-Found ss id s h))
  ]
