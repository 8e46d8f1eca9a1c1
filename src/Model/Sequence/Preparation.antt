-- ===== src/Model/Sequence/Preparation.antt =====
-- crates/tr-model/src/sequence.rs: every outcome of `prepare_sequence`.
use tr_infer.Prelude.{
  ℕ, ◌+◌, ◌-◌, ◌/◌, ◌<◌, ◌≡◌, ◌⊎◌, inl, inr, refl, sym, ◌∙◌, Bool, Option, some, map, length, set,
  arith, ltb, subst, ltb→lt, ltb_false→le, get_elem?-bound, get_elem?-set_self, Bool-cases,
  All-get_elem?,
}
use tr_infer.Model.Sequence.{
  pages_for, SequenceId, Sequence, Sequences, with_table, validate_sequence,
}
use tr_infer.Model.Sequence.PagePool.{Outcome, done, fail, stale, context_overflow, no_page}
use tr_infer.Model.Sequence.Balance.{Balanced-ext}
use tr_infer.Model.Sequence.Valid.{
  HoldsSlot, owners, owners-set, owners-ge, IsValid, set-IsValid, Found, validate_sequence-Found,
  Found-validate_sequence, validated,
}
use tr_infer.Model.Sequence.Lifecycle.{validate-set_ne}
use tr_infer.Model.Sequence.Fork.{with_table-HasTable}
use tr_infer.Model.Sequence.Prepare.{Work, work_of, prepared, prepare_sequence, bit}
use tr_infer.Model.Sequence.Extend.{uses}
use tr_infer.Model.Sequence.Prepared.{Extended, extend_lem}
use tr_infer.Model.Sequence.Resident.{
  TailCase, rest_of, uses-owners, must_copy_lem, Prepared, shared_tail, resident_counts,
  resident_private,
}

result_valid :
    {F C : Type 0} (ss : Sequences F C) (o : Outcome (Unit {0})) (ss' : Sequences F C)
    (o' : Outcome (Unit {0}))
    → ◌≡◌ {A = Option (Sequences F C × Outcome (Unit {0}))} (some (ss, o)) (some (ss', o'))
    → IsValid ss
    → IsValid ss'
result_valid ss o ss' o' e v = let same : ss ≡ ss' = cc in subst (λ x. IsValid x) same v

module _ {F C : Type 0} (ss : Sequences F C) (id : SequenceId) where
  -- Every outcome of `prepare_sequence` on a handle that is valid.
  abbrev pub FoundOutcome : Sequence F → ℕ → Option (Sequences F C × Outcome (Unit {0})) → Type 0
  FoundOutcome s stop r =
      ((r ≡ some (ss, fail context_overflow)) × (ss.ctx < stop))
      ⊎ ((cow : Bool) × TailCase (owners ss.slots) s.pages s.host.n_past stop cow
          × (((r ≡ some (ss, fail no_page))
                × (length ss.pages.free < pages_for stop - length s.pages + bit cow))
              ⊎ ((ss' : Sequences F C) × (s' : Sequence F) × (r ≡ some (ss', done tt))
                  × Prepared ss id s stop cow ss' s')))

  -- Every outcome of `prepare_sequence`.
  abbrev pub PrepareOutcome : ℕ → Option (Sequences F C × Outcome (Unit {0})) → Type 0
  PrepareOutcome stop r =
      ((r ≡ some (ss, fail stale)) × (validate_sequence ss id ≡ fail stale))
      ⊎ ((s : Sequence F) × (validate_sequence ss id ≡ done s) × FoundOutcome s stop r)

  module _ (s : Sequence F) (v : IsValid ss) (f : Found ss id s) (stop : ℕ) (cow : Bool)
      (w' : Work C) (t : TailCase (owners ss.slots) s.pages s.host.n_past stop cow)
      (r : Extended
        (rest_of ss id s)
        (s.host.n_past / 64)
        (pages_for stop)
        cow
        (work_of ss s)
        w') where
    abbrev next : Sequence F
    next = record s { pages = w'.table; tiles = map (with_table w'.table) s.tiles }

    abbrev state : Sequences F C
    state = record ss { slots = set ss.slots id.slot next; pages = w'.pages; kv = w'.kv }

    holds : HoldsSlot s
    holds = All-get_elem? HoldsSlot ss.slots id.slot s v.slots f.there

    next-HoldsSlot : HoldsSlot next
    next-HoldsSlot = record {
      once = λ q. elim (r.once q) [ inl e ↦ omega (arith, holds.once q) | inr e ↦ omega arith ];
      dead = λ k. let l = f.live in cc;
      covered = λ l. omega (arith, holds.covered l, r.longer);
      tables = λ _. with_table-HasTable w'.table s.tiles;
    }

    owners-state : (q : ℕ) → owners state.slots q ≡ uses (rest_of ss id s) w'.table q
    owners-state q = omega (
      arith,
      owners-set ss.slots id.slot s next q f.there,
      owners-ge ss.slots id.slot s q f.there,
    )

    Prepared-next : Prepared ss id s stop cow state next
    Prepared-next = record {
      valid =
          set-IsValid ss id.slot s next w'.pages w'.kv (uses (rest_of ss id s) w'.table) v f.there
            next-HoldsSlot r.balanced (λ q. omega (arith, owners-ge ss.slots id.slot s q f.there))
            (r.kv_sized ∙ v.sized ∙ sym r.sized);
      found = Found-validate_sequence state id next (record {
        there =
            get_elem?-set_self ss.slots id.slot next (get_elem?-bound ss.slots id.slot s f.there);
        live = f.live;
        current = f.current;
      });
      host = refl;
      enough = omega (arith, r.longer);
      longer = r.longer;
      private = λ k i p here e.
          r.balanced.counted p ∙ resident_private ss id s v f stop cow w' t r k i p here e;
      rows = r.rows;
      kept = λ p h. r.kept p (omega (arith, uses-owners ss id s v f p));
      counts =
          λ q h. omega (arith, owners-state q, resident_counts ss id s v f stop cow w' t r q h);
      taken = r.taken;
      others = λ j apart. validate-set_ne ss id.slot next w'.pages w'.kv j apart;
      state = refl;
    }

  prepared_lem :
      (s : Sequence F) (v : IsValid ss) (f : Found ss id s) (stop : ℕ) (cow : Bool)
      → TailCase (owners ss.slots) s.pages s.host.n_past stop cow
      → ((prepared ss id s stop cow ≡ some (ss, fail no_page))
          × (length ss.pages.free < pages_for stop - length s.pages + bit cow))
        ⊎ ((ss' : Sequences F C) × (s' : Sequence F) × (prepared ss id s stop cow
              ≡ some (ss', done tt))
            × Prepared ss id s stop cow ss' s')
  unfolding prepared
  prepared_lem s v f stop cow t =
      let needed = pages_for stop - length s.pages + bit cow in
      let h = All-get_elem? HoldsSlot ss.slots id.slot s v.slots f.there in
      elim (Bool-cases (ltb (length ss.pages.free) needed)) [
        | inl short ↦ inl (rw short, ltb→lt (length ss.pages.free) needed short)
        | inr room ↦
            let (w', e, r) =
              extend_lem (rest_of ss id s) (s.host.n_past / 64) (pages_for stop) cow (work_of ss s)
                (Balanced-ext (owners ss.slots) (uses (rest_of ss id s) s.pages) ss.pages
                  (λ p. sym (uses-owners ss id s v f p)) v.balanced)
                v.sized (shared_tail ss id s stop cow t v f h)
                (ltb_false→le (length ss.pages.free) needed room) in
            inr (
              state s v f stop cow w' t r,
              next s v f stop cow w' t r,
              rw (room, e),
              Prepared-next s v f stop cow w' t r,
            )
      ]

  pub prepare_valid :
      (s : Sequence F) (stop : ℕ)
      → IsValid ss
      → validate_sequence ss id ≡ done s
      → FoundOutcome s stop (prepare_sequence ss id stop)
  unfolding prepare_sequence
  prepare_valid s stop v h =
      let f = validate_sequence-Found ss id s h in
      elim (Bool-cases (ltb ss.ctx stop)) [
        | inl over ↦ inl (rw (h, prepare_sequence, over), ltb→lt ss.ctx stop over)
        | inr fits ↦
            let (cow, m, t) = must_copy_lem ss id s v f stop in
            let runs : prepare_sequence ss id stop ≡ prepared ss id s stop cow =
              rw (h, prepare_sequence, fits, m) in
            elim (prepared_lem s v f stop cow t) [
              | inl (e, short) ↦ inr (cow, t, inl (runs ∙ e, short))
              | inr (ss', s', e, p) ↦ inr (cow, t, inr (ss', s', runs ∙ e, p))
            ]
      ]

  -- `prepare_sequence` never panics. It fails on a stale handle, beyond the context, or when fewer
  -- pages are free than the new rows and the copy of a shared tail need, and a failure changes
  -- nothing. Else it keeps the invariant and takes just these pages: the sequence has pages for all
  -- rows, the page that it appends to and the new pages are its own alone, its rows have the
  -- contents that they had, so have all pages in use, and no other sequence changes.
  pub prepare_sequence_lem :
      (stop : ℕ) → IsValid ss → PrepareOutcome stop (prepare_sequence ss id stop)
  unfolding prepare_sequence
  prepare_sequence_lem stop v = elim (validated ss id) [
    | inl h ↦ inl (rw (h, prepare_sequence), h)
    | inr (s, h) ↦ inr (s, h, prepare_valid s stop v h)
  ]

  -- Whatever it returns, `prepare_sequence` keeps the invariant.
  pub prepare_sequence-IsValid :
      (stop : ℕ) (ss' : Sequences F C) (o : Outcome (Unit {0}))
      → IsValid ss
      → prepare_sequence ss id stop ≡ some (ss', o)
      → IsValid ss'
  prepare_sequence-IsValid stop ss' o v e = elim (prepare_sequence_lem stop v) [
    | inl (k, _) ↦ result_valid ss (fail stale) ss' o (sym k ∙ e) v
    | inr (_, _, inl (k, _)) ↦ result_valid ss (fail context_overflow) ss' o (sym k ∙ e) v
    | inr (_, _, inr (_, _, inl (k, _))) ↦ result_valid ss (fail no_page) ss' o (sym k ∙ e) v
    | inr (_, _, inr (_, _, inr (ss1, _, k, p))) ↦
        result_valid ss1 (done tt) ss' o (sym k ∙ e) p.valid
  ]
