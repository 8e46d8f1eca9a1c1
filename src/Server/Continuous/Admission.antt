-- ===== src/Server/Continuous/Admission.antt =====
-- crates/tr-infer/src/server/continuous.rs: requests are admitted in order and within the capacity.
use tr_infer.Prelude.{
  ℕ, ◌+◌, ◌≤◌, ◌<◌, ◌≡◌, ◌⊎◌, inl, inr, refl, sym, ap, ◌∙◌, subst, Bool, true, false, ◌||◌, Option,
  none, some, List, [], ◌∷◌, ◌++◌, length, ltb, append_assoc, append-nil, if◌then◌else◌, sub64,
  sub64_lem, u64_mod, ltb→lt, ltb_false→le, Bool-cases, All, arith,
}
use tr_infer.Model.Sequence.{SequenceId, Sequences, allocate_sequence}
use tr_infer.Model.Sequence.PagePool.{Outcome, done, fail}
use tr_infer.Model.Sequence.Valid.{IsValid}
use tr_infer.Model.Sequence.Lifecycle.{allocate_sequence_lem, release_sequence_lem}
use tr_infer.Model.Sequence.Sizes.{
  SameSizes, allocate_sequence-SameSizes, release_sequence-SameSizes,
}
use tr_infer.Server.Continuous.{
  Job, Message, failed, exceeds_capacity, Sent, Idle, Group, seats, credits_for,
}
use tr_infer.Server.Continuous.Admit.{
  Admitting, Start, is_hot, new_group, refusal, fresh, released, root_for, started_with, refused,
  too_large, no_room, admit,
}

or_false : (a b : Bool) → (a || b) ≡ false → (a ≡ false) × (b ≡ false)
or_false true b h = cc
or_false false b h = (refl, h)

or_true : (a b : Bool) → (a || b) ≡ true → (a ≡ true) ⊎ (b ≡ true)
or_true true b h = inl refl
or_true false b h = inr h

room :
    (cap used n : ℕ)
    → used ≤ cap
    → cap < u64_mod
    → ((ltb (sub64 cap used) n ≡ false) → used + n ≤ cap)
      × ((ltb (sub64 cap used) n ≡ true) → cap < used + n)
room cap used n h b =
    let e = sub64_lem cap used h b in
    (
      (λ f. let k = ltb_false→le (sub64 cap used) n f in omega (arith, e)),
      (λ t. let k = ltb→lt (sub64 cap used) n t in omega (arith, e)),
    )

module _ {F C : Type 0} (z : F) where
  allocated-IsValid : (ss : Sequences F C) → IsValid ss → IsValid (allocate_sequence z ss).0
  allocated-IsValid ss v = elim (allocate_sequence_lem z ss v) [
    | inl (e, _) ↦ subst (λ r. IsValid r.0) (sym e) v
    | inr (inl (e, _)) ↦ subst (λ r. IsValid r.0) (sym e) v
    | inr (inr (id, s, _, _, _, _, _, _, _, valid, _, _)) ↦ valid
  ]

module _ {F C L : Type 0} (z : F) where
  abbrev Rooted : Sequences F C → Option (Sequences F C × Outcome (Start L)) → Type 0
  Rooted ss r =
      (ss' : Sequences F C) × (o : Outcome (Start L)) × (r ≡ some (ss', o))
      × IsValid ss'
      × SameSizes ss ss'

  fresh-same :
      (r : Sequences F C × Outcome SequenceId)
      → (o : Outcome (Start L)) × (fresh {L = L} z r ≡ (r.0, o))
  unfolding fresh
  fresh-same (ss, fail e) = (fail e, refl)
  fresh-same (ss, done s) = (done (record { root = s; reused = 0; logits = [] }), refl)

  fresh_lem :
      (ss0 ss : Sequences F C)
      → SameSizes ss0 ss
      → IsValid ss
      → Rooted ss0 (some (fresh z (allocate_sequence z ss)))
  fresh_lem ss0 ss sizes v =
      let (o, e) = fresh-same (allocate_sequence z ss) in
      let (a, b) = allocate_sequence-SameSizes z ss v in
      (
        (allocate_sequence z ss).0,
        o,
        ap (λ (x : Sequences F C × Outcome (Start L)). some x) e,
        allocated-IsValid z ss v,
        (a ∙ sizes.0, b ∙ sizes.1),
      )

  root_for_lem :
      (job : Job) (ss : Sequences F C) (idle : Option (Idle L))
      → IsValid ss
      → Rooted ss (root_for z job ss idle)
  unfolding root_for released
  root_for_lem job ss none v = fresh_lem ss ss (refl, refl) v
  root_for_lem job ss (some hot) v = elim (Bool-cases (is_hot job hot)) [
    | inl t ↦ rw t (ss, _, refl, v, (refl, refl))
    | inr f ↦ elim (release_sequence_lem ss hot.seq v) [
      | inl (e, _) ↦ rw (f, root_for, e) (fresh_lem ss ss (refl, refl) v)
      | inr (ss', e, v', _, _) ↦
          rw (f, root_for, e)
            (fresh_lem ss ss' (release_sequence-SameSizes ss ss' hot.seq (done tt) e) v')
    ]
  ]

-- What became of a request that was in front.
pub data Verdict (L : Type 0) : Type 0 where
  admitted : Group L → Verdict L
  rejected : Job → Message → Verdict L

module _ {L : Type 0} where
  abbrev pub passed : List (Verdict L) → List Job
  passed [] = []
  passed (admitted g ∷ vs) = g.job ∷ passed vs
  passed (rejected job m ∷ vs) = job ∷ passed vs

  abbrev pub groups_of : List (Verdict L) → List (Group L)
  groups_of [] = []
  groups_of (admitted g ∷ vs) = g ∷ groups_of vs
  groups_of (rejected job m ∷ vs) = groups_of vs

  abbrev pub events_of : List (Verdict L) → List Sent
  events_of [] = []
  events_of (admitted g ∷ vs) = events_of vs
  events_of (rejected job m ∷ vs) = refusal job m ∷ events_of vs

  abbrev pub sum_credits : List (Group L) → ℕ
  sum_credits [] = 0
  sum_credits (g ∷ groups) = g.credits + sum_credits groups

  abbrev pub sum_seats : List (Group L) → ℕ
  sum_seats [] = 0
  sum_seats (g ∷ groups) = seats g + sum_seats groups

  -- A group that has been admitted just now.
  abbrev pub IsNew : Group L → Type 0
  IsNew g =
      (g.credits ≡ credits_for g.job)
      × ((root : SequenceId) × (g.root ≡ some root))
      × (g.choices ≡ [])

  sum_credits-append :
      (xs ys : List (Group L)) → sum_credits (xs ++ ys) ≡ sum_credits xs + sum_credits ys
  sum_credits-append [] ys = omega arith
  sum_credits-append (x ∷ xs) ys = omega (arith, sum_credits-append xs ys)

  sum_seats-append : (xs ys : List (Group L)) → sum_seats (xs ++ ys) ≡ sum_seats xs + sum_seats ys
  sum_seats-append [] ys = omega arith
  sum_seats-append (x ∷ xs) ys = omega (arith, sum_seats-append xs ys)

module _ {F C L : Type 0} (z : F) (has_prefix : Bool) where
  -- The reservations are those of the groups, and within the capacity.
  pub record Reserved (st : Admitting F C L) : Type 0 where
    pub valid : IsValid st.ss
    pub pages : st.pages ≡ sum_credits st.groups
    pub pages_fit : st.pages ≤ length st.ss.pages.refs
    pub seats : st.seats ≡ sum_seats st.groups
    pub seats_fit : st.seats ≤ length st.ss.slots
    pub bounded : length st.ss.pages.refs < u64_mod

  -- The request in front fits the capacity, but not beside what is reserved.
  abbrev pub Waits : List Job → Admitting F C L → Type 0
  Waits [] st = Unit
  Waits (job ∷ waiting) st =
      (credits_for job ≤ length st.ss.pages.refs)
      × (job.n ≤ length st.ss.slots)
      × ((length st.ss.pages.refs < st.pages + credits_for job)
          ⊎ (length st.ss.slots < st.seats + job.n))

  abbrev pub AdmitOutcome :
      List Job → Admitting F C L → Option (List Job × Admitting F C L) → Type 0
  AdmitOutcome waiting st r =
      (vs : List (Verdict L)) × (waiting' : List Job) × (st' : Admitting F C L) × (r
        ≡ some (waiting', st'))
      × (waiting ≡ passed vs ++ waiting')
      × (st'.groups ≡ st.groups ++ groups_of vs)
      × (st'.sent ≡ st.sent ++ events_of vs)
      × All IsNew (groups_of vs)
      × SameSizes st.ss st'.ss
      × Reserved st'
      × Waits waiting' st'

  -- Behind the request in front, which has got the verdict.
  then_admit :
      (v : Verdict L) (job : Job) (waiting : List Job) (st st1 : Admitting F C L)
      (r : Option (List Job × Admitting F C L))
      → passed (v ∷ []) ≡ job ∷ []
      → st1.groups ≡ st.groups ++ groups_of (v ∷ [])
      → st1.sent ≡ st.sent ++ events_of (v ∷ [])
      → All IsNew (groups_of (v ∷ []))
      → SameSizes st.ss st1.ss
      → AdmitOutcome waiting st1 r
      → AdmitOutcome (job ∷ waiting) st r
  then_admit (admitted g) job waiting st st1 r is groups sent new sizes
        (vs, w, st', e, order, gs, es, news, sizes', holds, waits) =
      let same : g.job ≡ job = cc in
      (
        admitted g ∷ vs,
        w,
        st',
        e,
        ap (λ l. job ∷ l) order ∙ ap (λ (j : Job). j ∷ (passed vs ++ w)) (sym same),
        gs ∙ ap (λ l. l ++ groups_of vs) groups ∙ append_assoc st.groups (g ∷ []) (groups_of vs),
        es ∙ ap (λ l. l ++ events_of vs) (sent ∙ append-nil st.sent),
        (new.0, news),
        (sizes'.0 ∙ sizes.0, sizes'.1 ∙ sizes.1),
        holds,
        waits,
      )
  then_admit (rejected j m) job waiting st st1 r is groups sent new sizes
        (vs, w, st', e, order, gs, es, news, sizes', holds, waits) =
      let same : j ≡ job = cc in
      (
        rejected j m ∷ vs,
        w,
        st',
        e,
        ap (λ l. job ∷ l) order ∙ ap (λ (j : Job). j ∷ (passed vs ++ w)) (sym same),
        gs ∙ ap (λ l. l ++ groups_of vs) (groups ∙ append-nil st.groups),
        es
            ∙ ap (λ l. l ++ events_of vs) sent
            ∙ append_assoc st.sent (refusal j m ∷ []) (events_of vs),
        news,
        (sizes'.0 ∙ sizes.0, sizes'.1 ∙ sizes.1),
        holds,
        waits,
      )

  abbrev Step : Job → Admitting F C L → Admitting F C L → Type 0
  Step job st st1 =
      (v : Verdict L) × (passed (v ∷ []) ≡ job ∷ [])
      × (st1.groups ≡ st.groups ++ groups_of (v ∷ []))
      × (st1.sent ≡ st.sent ++ events_of (v ∷ []))
      × All IsNew (groups_of (v ∷ []))
      × SameSizes st.ss st1.ss
      × Reserved st1

  started_with_lem :
      (job : Job) (st : Admitting F C L) (ss : Sequences F C) (o : Outcome (Start L))
      → Reserved st
      → st.pages + credits_for job ≤ length st.ss.pages.refs
      → st.seats + job.n ≤ length st.ss.slots
      → IsValid ss
      → SameSizes st.ss ss
      → Step job st (started_with z has_prefix job st (ss, o))
  unfolding started_with
  started_with_lem job st ss (fail e) h fits sits v sizes = (
    rejected job (failed e),
    refl,
    sym (append-nil st.groups),
    refl,
    tt,
    sizes,
    record {
      valid = v;
      pages = h.pages;
      pages_fit = omega (arith, h.pages_fit, sizes.1);
      seats = h.seats;
      seats_fit = omega (arith, h.seats_fit, sizes.0);
      bounded = omega (arith, h.bounded, sizes.1);
    },
  )
  started_with_lem job st ss (done s) h fits sits v sizes =
      let g = new_group job (if ltb 0 s.reused then false else has_prefix) (credits_for job) s in
      (
        admitted g,
        refl,
        refl,
        sym (append-nil st.sent),
        ((refl, (s.root, refl), refl), tt),
        sizes,
        record {
          valid = v;
          pages = omega (arith, h.pages, h.bounded, sum_credits-append st.groups (g ∷ []));
          pages_fit = omega (arith, sizes.1, h.bounded);
          seats = omega (arith, h.seats, h.valid.bounded, sum_seats-append st.groups (g ∷ []));
          seats_fit = omega (arith, sizes.0, h.valid.bounded);
          bounded = omega (arith, h.bounded, sizes.1);
        },
      )

  -- Admission never panics, and the reservations stay within the capacity, in pages and in
  -- sequences. The requests are taken in order: each one that is passed is admitted as the next group
  -- or gets an error, and when one is left in front, it fits the capacity but not beside what is
  -- reserved, so that no later request overtakes it.
  pub admit_lem :
      (waiting : List Job) (st : Admitting F C L)
      → Reserved st
      → AdmitOutcome waiting st (admit z has_prefix waiting st)
  unfolding admit
  admit_lem [] st h = (
    [],
    [],
    st,
    refl,
    refl,
    sym (append-nil st.groups),
    sym (append-nil st.sent),
    tt,
    (refl, refl),
    h,
    tt,
  )
  admit_lem (job ∷ waiting) st h =
      let cap = length st.ss.pages.refs in
      let slots = length st.ss.slots in
      let credits = credits_for job in
      let pages_room = room cap st.pages credits h.pages_fit h.bounded in
      let seats_room = room slots st.seats job.n h.seats_fit h.valid.bounded in
      elim (Bool-cases (too_large z has_prefix job st)) [
        | inl t ↦
            let st1 = refused z has_prefix job st in
            rw t (
              then_admit (rejected job exceeds_capacity) job waiting st st1
                (admit z has_prefix waiting st1) refl (sym (append-nil st.groups)) refl tt
                (refl, refl)
                (admit_lem waiting st1 (record {
                  valid = h.valid;
                  pages = h.pages;
                  pages_fit = h.pages_fit;
                  seats = h.seats;
                  seats_fit = h.seats_fit;
                  bounded = h.bounded;
                })))
        | inr f ↦ elim (Bool-cases (no_room z has_prefix job st)) [
          | inl t ↦
              rw (f, t)
                (
                  [],
                  job ∷ waiting,
                  st,
                  refl,
                  refl,
                  sym (append-nil st.groups),
                  sym (append-nil st.sent),
                  tt,
                  (refl, refl),
                  h,
                  (
                    ltb_false→le cap credits (or_false (ltb cap credits) (ltb slots job.n) f).0,
                    ltb_false→le slots job.n (or_false (ltb cap credits) (ltb slots job.n) f).1,
                    elim (or_true (ltb (sub64 cap st.pages) credits)
                        (ltb (sub64 slots st.seats) job.n) t) [
                          | inl k ↦ inl (pages_room.1 k)
                          | inr k ↦ inr (seats_room.1 k)
                        ],
                  ),
                )
          | inr r ↦
              let fit =
                or_false (ltb (sub64 cap st.pages) credits) (ltb (sub64 slots st.seats) job.n) r in
              let (ss, o, e, v, sizes) = root_for_lem z job st.ss st.idle h.valid in
              let st1 = started_with z has_prefix job st (ss, o) in
              let (verdict, is, gs, es, new, same, holds) =
                started_with_lem job st ss o h (pages_room.0 fit.0) (seats_room.0 fit.1) v sizes in
              rw (f, r, e)
                (then_admit verdict job waiting st st1 (admit z has_prefix waiting st1) is gs es new
                  same (admit_lem waiting st1 holds))
        ]
      ]
