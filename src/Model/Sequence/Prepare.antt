-- ===== src/Model/Sequence/Prepare.antt =====
-- crates/tr-model/src/sequence.rs: `prepare_sequence`, which gives a sequence the pages of its next
-- rows and makes the page that it appends to its own.
use tr_infer.Prelude.{
  ℕ, zero, suc, ◌+◌, ◌-◌, ◌/◌, Bool, true, false, Option, none, some, List, [], ◌∷◌, ◌++◌, map,
  length, set, get_elem?, ltb, if◌then◌else◌,
}
use tr_infer.Model.Sequence.PagePool.{
  Outcome, done, fail, context_overflow, no_page, Pages, take_page, release,
}
use tr_infer.Model.Sequence.{
  pages_for, SequenceId, Sequence, Sequences, with_table, validate_sequence,
}

-- The pool, the contents of the pages and the table of one sequence, as the loop changes them.
pub record Work (C : Type 0) : Type 0 where
  pub pages : Pages
  pub kv : List C
  pub table : List ℕ

-- Another sequence refers to the page at `tail`, too.
unfoldable pub is_shared : Pages → List ℕ → ℕ → Option Bool
is_shared ps table tail = elim (get_elem? table tail) [
  | none ↦ some false
  | some p ↦ elim (get_elem? ps.refs p) [ none ↦ none | some r ↦ some (ltb 1 r) ]
]

abbrev pub bit : Bool → ℕ
bit true = 1
bit false = 0

module _ {C : Type 0} where
  -- The copies of a page that the workers make.
  unfoldable pub copy_page : List C → ℕ → ℕ → List C
  copy_page kv old new = elim (get_elem? kv old) [ none ↦ kv | some c ↦ set kv new c ]

  -- Copy on write of the page at `tail`; `none` is a panic, here and below.
  unfoldable pub unshare : ℕ → Work C → Option (Work C × Outcome (Unit {0}))
  unfolding copy_page take_page release
  unshare tail w = elim (get_elem? w.table tail) [
    | none ↦ none
    | some old ↦ elim (take_page w.pages) [
      | none ↦ none
      | some (ps, fail e) ↦ some (record w { pages = ps }, fail e)
      | some (ps, done new) ↦ elim (release old ps) [
        | none ↦ none
        | some ps' ↦ some (
          record { pages = ps'; kv = copy_page w.kv old new; table = set w.table tail new },
          done tt,
        )
      ]
    ]
  ]

  -- The loop that pushes pages, `k` times.
  unfoldable pub grow : ℕ → Work C → Option (Work C × Outcome (Unit {0}))
  unfolding take_page
  grow zero w = some (w, done tt)
  grow (suc k) w = elim (take_page w.pages) [
    | none ↦ none
    | some (ps, fail e) ↦ some (record w { pages = ps }, fail e)
    | some (ps, done p) ↦ grow k (record w { pages = ps; table = w.table ++ p ∷ [] })
  ]

  unfoldable pub then_grow :
      ℕ → Option (Work C × Outcome (Unit {0})) → Option (Work C × Outcome (Unit {0}))
  unfolding grow
  then_grow n none = none
  then_grow n (some (w, fail e)) = some (w, fail e)
  then_grow n (some (w, done u)) = grow (n - length w.table) w

  unfoldable pub extend : Bool → ℕ → ℕ → Work C → Option (Work C × Outcome (Unit {0}))
  unfolding then_grow unshare
  extend cow tail n w = then_grow n (if cow then unshare tail w else some (w, done tt))

module _ {F C : Type 0} where
  -- The tables of the layers are written when all has gone well.
  abbrev pub put_back :
      Sequences F C
      → SequenceId
      → Sequence F
      → Work C × Outcome (Unit {0})
      → Sequences F C × Outcome (Unit {0})
  put_back ss id s (w, fail e) = (
    record ss {
      slots = set ss.slots id.slot (record s { pages = w.table });
      pages = w.pages;
      kv = w.kv;
    },
    fail e,
  )
  put_back ss id s (w, done u) = (
    record ss {
      slots =
          set ss.slots id.slot
            (record s { pages = w.table; tiles = map (with_table w.table) s.tiles });
      pages = w.pages;
      kv = w.kv;
    },
    done u,
  )

  abbrev pub work_of : Sequences F C → Sequence F → Work C
  work_of ss s = record { pages = ss.pages; kv = ss.kv; table = s.pages }

  unfoldable pub prepared :
      Sequences F C
      → SequenceId
      → Sequence F
      → ℕ
      → Bool
      → Option (Sequences F C × Outcome (Unit {0}))
  unfolding extend
  prepared ss id s stop cow =
      let n = pages_for stop in
      if ltb (length ss.pages.free) (n - length s.pages + bit cow)
      then some (ss, fail no_page)
      else elim (extend cow (s.host.n_past / 64) n (work_of ss s)) [
        | none ↦ none
        | some r ↦ some (put_back ss id s r)
      ]

  -- `cow`
  abbrev pub must_copy : Sequences F C → Sequence F → ℕ → Option Bool
  unfolding is_shared
  must_copy ss s stop =
      if ltb s.host.n_past stop then is_shared ss.pages s.pages (s.host.n_past / 64) else some false

  -- `prepare_sequence`
  unfoldable pub prepare_sequence :
      Sequences F C → SequenceId → ℕ → Option (Sequences F C × Outcome (Unit {0}))
  unfolding prepared validate_sequence
  prepare_sequence ss id stop = elim (validate_sequence ss id) [
    | fail e ↦ some (ss, fail e)
    | done s ↦
        if ltb ss.ctx stop
        then some (ss, fail context_overflow)
        else elim (must_copy ss s stop) [ none ↦ none | some cow ↦ prepared ss id s stop cow ]
  ]
