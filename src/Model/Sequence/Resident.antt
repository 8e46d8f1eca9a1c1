-- ===== src/Model/Sequence/Resident.antt =====
-- crates/tr-model/src/sequence.rs: `prepare_sequence` on the resident sequences.
use tr_infer.Prelude.{
  ℕ, ◌+◌, ◌-◌, ◌*◌, ◌/◌, ◌≤◌, ◌<◌, ◌≡◌, ◌⊎◌, inl, inr, refl, sym, ap, ◌∙◌, Bool, true, false,
  Option, none, some, List, length, set, get_elem?, arith, ltb, ltb→lt, ltb_false→le,
  get_elem?-none, Option-cases, Bool-cases,
}
use tr_infer.Model.Sequence.{pages_for, SequenceId, Sequence, Sequences, validate_sequence}
use tr_infer.Model.Sequence.PagePool.{done, hit, count, ref_of, ref_of-lt, get_elem?-ref_of}
use tr_infer.Model.Sequence.Valid.{HoldsSlot, owners, owners-ge, IsValid, Found}
use tr_infer.Model.Sequence.Lifecycle.{Apart}
use tr_infer.Model.Sequence.Prepare.{Work, work_of, is_shared, must_copy, bit}
use tr_infer.Model.Sequence.Extend.{uses, count-get_elem?}
use tr_infer.Model.Sequence.Prepared.{Extended}

-- What must be known of the page at the tail, for each answer of `cow`.
pub data TailCase (owned : ℕ → ℕ) (table : List ℕ) (n_past stop : ℕ) : Bool → Type 0 where
  shared :
      (p : ℕ)
      → n_past < stop
      → get_elem? table (n_past / 64) ≡ some p
      → 1 < owned p
      → TailCase owned table n_past stop true
  no_row : stop ≤ n_past → TailCase owned table n_past stop false
  no_tail : get_elem? table (n_past / 64) ≡ none → TailCase owned table n_past stop false
  private :
      (p : ℕ)
      → get_elem? table (n_past / 64) ≡ some p
      → owned p ≡ 1
      → TailCase owned table n_past stop false

-- The references to `q` that a copy of the page takes away.
abbrev pub copies : Bool → Option ℕ → ℕ → ℕ
copies true (some p) q = hit p q
copies true none q = 0
copies false o q = 0

module _ {F C : Type 0} (ss : Sequences F C) (id : SequenceId) (s : Sequence F) where
  -- The references of the other slots.
  abbrev pub rest_of : ℕ → ℕ
  rest_of p = owners ss.slots p - count p s.pages

  module _ (v : IsValid ss) (f : Found ss id s) where
    pub uses-owners : (p : ℕ) → uses rest_of s.pages p ≡ owners ss.slots p
    uses-owners p = omega (arith, owners-ge ss.slots id.slot s p f.there)

    pub own_pos : (i p : ℕ) → get_elem? s.pages i ≡ some p → 0 < owners ss.slots p
    own_pos i p h =
        omega (arith, count-get_elem? s.pages i p h, owners-ge ss.slots id.slot s p f.there)

    is_shared_at :
        (p : ℕ)
        → get_elem? s.pages (s.host.n_past / 64) ≡ some p
        → is_shared ss.pages s.pages (s.host.n_past / 64) ≡ some (ltb 1 (owners ss.slots p))
    unfolding is_shared
    is_shared_at p h =
        let b = v.balanced.counted p in
        let there = ref_of-lt ss.pages.refs p (omega (arith, own_pos (s.host.n_past / 64) p h)) in
        rw (h, is_shared, get_elem?-ref_of ss.pages.refs p there, b)

    -- The test for a copy ends, and says whether the tail is shared.
    pub must_copy_lem :
        (stop : ℕ)
        → (cow : Bool) × (must_copy ss s stop ≡ some cow)
          × TailCase (owners ss.slots) s.pages s.host.n_past stop cow
    unfolding is_shared
    must_copy_lem stop = elim (Bool-cases (ltb s.host.n_past stop)) [
      | inr n ↦ (false, rw n, no_row (ltb_false→le s.host.n_past stop n))
      | inl y ↦ elim (Option-cases (get_elem? s.pages (s.host.n_past / 64))) [
        | inl e ↦ (false, rw (y, e, is_shared), no_tail e)
        | inr (p, e) ↦ elim (Bool-cases (ltb 1 (owners ss.slots p))) [
          | inl more ↦ (
            true,
            rw y (is_shared_at p e ∙ ap some more),
            shared p (ltb→lt s.host.n_past stop y) e (ltb→lt 1 (owners ss.slots p) more),
          )
          | inr one ↦
              let pos = own_pos (s.host.n_past / 64) p e in
              let most = ltb_false→le 1 (owners ss.slots p) one in
              (false, rw y (is_shared_at p e ∙ ap some one), private p e (omega arith))
        ]
      ]
    ]

  -- What `prepare_sequence` has done when it succeeds.
  pub record Prepared (stop : ℕ) (cow : Bool) (ss' : Sequences F C) (s' : Sequence F) : Type 0 where
    pub valid : IsValid ss'
    pub found : validate_sequence ss' id ≡ done s'
    pub host : s'.host ≡ s.host
    -- the pages hold all rows up to the end
    pub enough : stop ≤ 64 * length s'.pages
    pub longer : length s'.pages ≡ length s.pages + (pages_for stop - length s.pages)
    -- the tail that is appended to, and the new pages, belong to this sequence alone
    pub private :
        s.host.n_past < stop
        → (i p : ℕ) → (i ≡ s.host.n_past / 64) ⊎ (length s.pages ≤ i)
        → get_elem? s'.pages i ≡ some p
        → ref_of ss'.pages.refs p ≡ 1
    -- the rows of the sequence are what they were
    pub rows :
        (i p p' : ℕ)
        → get_elem? s.pages i ≡ some p
        → get_elem? s'.pages i ≡ some p'
        → get_elem? ss'.kv p' ≡ get_elem? ss.kv p
    -- so are the contents of every page that any sequence uses
    pub kept : (p : ℕ) → 0 < owners ss.slots p → get_elem? ss'.kv p ≡ get_elem? ss.kv p
    -- a page in use keeps its count, but for the page that was copied
    pub counts :
        (q : ℕ)
        → 0 < owners ss.slots q
        → owners ss'.slots q + copies cow (get_elem? s.pages (s.host.n_past / 64)) q
          ≡ owners ss.slots q
    pub taken :
        length ss'.pages.free + (pages_for stop - length s.pages + bit cow) ≡ length ss.pages.free
    pub others : Apart id.slot ss ss'
    pub state : ss' ≡ record ss { slots = set ss.slots id.slot s'; pages = ss'.pages; kv = ss'.kv }

  pub shared_tail :
      (stop : ℕ) (cow : Bool)
      → TailCase (owners ss.slots) s.pages s.host.n_past stop cow
      → IsValid ss
      → Found ss id s
      → HoldsSlot s
      → cow ≡ true
      → (old : ℕ) × (get_elem? s.pages (s.host.n_past / 64) ≡ some old) × (0 < rest_of old)
  shared_tail stop cow (shared p more at_tail many) v f h t = (p, at_tail, omega (arith, h.once p))
  shared_tail stop cow (no_row e) v f h t = cc
  shared_tail stop cow (no_tail e) v f h t = cc
  shared_tail stop cow (private p e one) v f h t = cc

  module _ (v : IsValid ss) (f : Found ss id s) (stop : ℕ) where
    pub resident_counts :
        (cow : Bool) (w' : Work C)
        → TailCase (owners ss.slots) s.pages s.host.n_past stop cow
        → Extended rest_of (s.host.n_past / 64) (pages_for stop) cow (work_of ss s) w'
        → (q : ℕ) → 0 < owners ss.slots q
        → uses rest_of w'.table q + copies cow (get_elem? s.pages (s.host.n_past / 64)) q
          ≡ owners ss.slots q
    resident_counts cow w' (shared p more at_tail many) r q pos =
        let less = r.left refl p q at_tail (omega (arith, uses-owners v f q)) in
        omega (arith, uses-owners v f q, ap (λ o. copies true o q) at_tail)
    resident_counts cow w' (no_row e) r q pos =
        let less = r.stays refl q (omega (arith, uses-owners v f q)) in
        omega (arith, uses-owners v f q)
    resident_counts cow w' (no_tail e) r q pos =
        let less = r.stays refl q (omega (arith, uses-owners v f q)) in
        omega (arith, uses-owners v f q)
    resident_counts cow w' (private p e one) r q pos =
        let less = r.stays refl q (omega (arith, uses-owners v f q)) in
        omega (arith, uses-owners v f q)

    pub resident_private :
        (cow : Bool) (w' : Work C)
        → TailCase (owners ss.slots) s.pages s.host.n_past stop cow
        → Extended rest_of (s.host.n_past / 64) (pages_for stop) cow (work_of ss s) w'
        → s.host.n_past < stop
        → (i p : ℕ) → (i ≡ s.host.n_past / 64) ⊎ (length s.pages ≤ i)
        → get_elem? w'.table i ≡ some p
        → uses rest_of w'.table p ≡ 1
    resident_private cow w' t r some_row i p (inr far) e = r.fresh i p far e
    resident_private cow w' (shared old more at_tail many) r some_row i p (inl here) e =
        r.own refl p (ap (get_elem? w'.table) (sym here) ∙ e)
    resident_private cow w' (no_row h) r some_row i p (inl here) e = absurd (omega arith)
    resident_private cow w' (no_tail h) r some_row i p (inl here) e =
        elim (Option-cases (get_elem? s.pages i)) [
          | inl absent ↦ r.fresh i p (get_elem?-none s.pages i absent) e
          | inr (x, there) ↦
              let k : none ≡ some x = sym h ∙ ap (get_elem? s.pages) (sym here) ∙ there in cc
        ]
    resident_private cow w' (private old at_tail one) r some_row i p (inl here) e =
        let (stays, same) = r.same refl (s.host.n_past / 64) old at_tail in
        let is : some old ≡ some p = sym stays ∙ ap (get_elem? w'.table) (sym here) ∙ e in
        let k : old ≡ p = cc in
        let u : uses rest_of w'.table old ≡ 1 = same ∙ uses-owners v f old ∙ one in
        ap (uses rest_of w'.table) (sym k) ∙ u
