-- ===== src/Model/Sequence/Preflight.antt =====
-- crates/tr-model/src/sequence.rs: the preflight of `forward_batch` is exact.
use tr_infer.Prelude.{
  ℕ, ◌+◌, ◌-◌, ◌/◌, ◌<◌, ◌≡◌, ◌≢◌, inl, inr, refl, sym, ap, ◌∙◌, Bool, true, false, some, List, ◌∷◌,
  length, get_elem?, arith, ltb, subst, lt→ltb, add64, u64_mod, ℕ_discrete,
}
use tr_infer.Prelude.Assoc.{insert, lookup-insert_self, lookup-insert_ne}
use tr_infer.Model.Sequence.{pages_for, Sequence, Sequences}
use tr_infer.Model.Sequence.PagePool.{hit, hit_cases}
use tr_infer.Model.Sequence.Valid.{owners, owners-ge}
use tr_infer.Model.Sequence.Prepare.{bit}
use tr_infer.Model.Sequence.Extend.{count-get_elem?}
use tr_infer.Model.Sequence.Resident.{TailCase, shared, no_row, no_tail, private, copies}
use tr_infer.Model.Sequence.Batch.{BatchInput, remaining, after, need_pages}

module _ {F C : Type 0} (ss0 : Sequences F C) where
  -- The counts of the preflight are those of the state that the loop has reached.
  abbrev pub Tracks : List (ℕ × ℕ) → Sequences F C → Type 0
  Tracks references ss =
      (q : ℕ)
      → 0 < owners ss0.slots q
      → (remaining ss0 references q ≡ some (owners ss.slots q)) × (0 < owners ss.slots q)

  remaining-insert_self :
      (references : List (ℕ × ℕ)) (p r : ℕ)
      → remaining ss0 (insert ℕ_discrete p r references) p ≡ some r
  unfolding remaining
  remaining-insert_self references p r =
      rw (remaining, lookup-insert_self ℕ_discrete p r references)

  remaining-insert_ne :
      (references : List (ℕ × ℕ)) (p r q : ℕ)
      → p ≢ q
      → remaining ss0 (insert ℕ_discrete p r references) q ≡ remaining ss0 references q
  unfolding remaining
  remaining-insert_ne references p r q apart =
      rw (remaining, lookup-insert_ne ℕ_discrete p q r references apart)

  -- After one input: what the preflight has counted, and the counts that it goes on with.
  abbrev pub Counted :
      Sequences F C → List (ℕ × ℕ) → List BatchInput → BatchInput → Sequence F → ℕ → Bool → Type 0
  Counted ss references inputs b s stop cow =
      (next : List (ℕ × ℕ)) × (need_pages ss0 references (b ∷ inputs)
        ≡ after (pages_for stop - length s.pages + bit cow) (need_pages ss0 next inputs))
      × ((q : ℕ)
          → 0 < owners ss0.slots q
          → remaining ss0 next q
            ≡ some (owners ss.slots q - copies cow (get_elem? s.pages (s.host.n_past / 64)) q))

  -- The page at the tail has its count lowered when it is copied.
  insert_counts :
      (ss : Sequences F C) (references : List (ℕ × ℕ)) (p r : ℕ)
      → Tracks references ss
      → owners ss.slots p - 1 ≡ r
      → (q : ℕ) → 0 < owners ss0.slots q
      → remaining ss0 (insert ℕ_discrete p r references) q ≡ some (owners ss.slots q - hit p q)
  insert_counts ss references p r tracks e q pos = elim (hit_cases p q) [
    | inl (same, h) ↦
        subst
          (λ i.
            remaining ss0 (insert ℕ_discrete p r references) i ≡ some (owners ss.slots q - hit p q))
          same
          (remaining-insert_self references p r
            ∙ ap some (omega (arith, ap (owners ss.slots) same)))
    | inr (apart, h) ↦
        remaining-insert_ne references p r q apart ∙ (tracks q pos).0 ∙ ap some (omega arith)
  ]

  keep_counts :
      (ss : Sequences F C) (references : List (ℕ × ℕ)) (p r : ℕ)
      → Tracks references ss
      → owners ss.slots p ≡ r
      → (q : ℕ) → 0 < owners ss0.slots q
      → remaining ss0 (insert ℕ_discrete p r references) q ≡ some (owners ss.slots q)
  keep_counts ss references p r tracks e q pos = elim (hit_cases p q) [
    | inl (same, h) ↦
        subst (λ i. remaining ss0 (insert ℕ_discrete p r references) i ≡ some (owners ss.slots q))
          same
          (remaining-insert_self references p r
            ∙ ap some (omega (arith, ap (owners ss.slots) same)))
    | inr (apart, h) ↦ remaining-insert_ne references p r q apart ∙ (tracks q pos).0
  ]

  pub counted_lem :
      (ss : Sequences F C) (references : List (ℕ × ℕ)) (inputs : List BatchInput) (b : BatchInput)
      (s : Sequence F) (cow : Bool)
      → Tracks references ss
      → get_elem? ss0.slots b.sequence.slot ≡ some s
      → 0 < length b.tokens
      → s.host.n_past + length b.tokens < u64_mod
      → TailCase (owners ss.slots) s.pages s.host.n_past (add64 s.host.n_past (length b.tokens)) cow
      → Counted ss references inputs b s (add64 s.host.n_past (length b.tokens)) cow
  unfolding need_pages
  counted_lem ss references inputs b s cow tracks found some_token bound
        (shared p more at_tail many) =
      let pos : 0 < owners ss0.slots p = omega (
        arith,
        count-get_elem? s.pages (s.host.n_past / 64) p at_tail,
        owners-ge ss0.slots b.sequence.slot s p found,
      ) in
      let r = owners ss.slots p in
      let many' = lt→ltb 1 r many in
      (
        insert ℕ_discrete p (r - 1) references,
        rw (found, need_pages, at_tail, (tracks p pos).0, many'),
        λ q h.
            insert_counts ss references p (r - 1) tracks refl q h
            ∙ ap (λ o. some (owners ss.slots q - copies true o q)) (sym at_tail),
      )
  counted_lem ss references inputs b s cow tracks found some_token bound (no_row e) =
      absurd (omega arith)
  counted_lem ss references inputs b s cow tracks found some_token bound (no_tail at_tail) = (
    references,
    rw (found, need_pages, at_tail)
        (ap (λ n. after n (need_pages ss0 references inputs)) (omega arith)),
    λ q h. (tracks q h).0 ∙ ap some (omega arith),
  )
  counted_lem ss references inputs b s cow tracks found some_token bound (private p at_tail one) =
      let pos : 0 < owners ss0.slots p = omega (
        arith,
        count-get_elem? s.pages (s.host.n_past / 64) p at_tail,
        owners-ge ss0.slots b.sequence.slot s p found,
      ) in
      let r = owners ss.slots p in
      let alone : ltb 1 r ≡ false = ground arith in
      (
        insert ℕ_discrete p r references,
        rw (found, need_pages, at_tail, (tracks p pos).0, alone)
            (ap (λ n. after n (need_pages ss0 (insert ℕ_discrete p r references) inputs))
              (omega arith)),
        λ q h. keep_counts ss references p r tracks refl q h ∙ ap some (omega arith),
      )
