-- ===== src/Model/Sequence.antt =====
-- crates/tr-model/src/sequence.rs and state.rs: the resident sequences and their slots, for a model
-- on which `enable_sequences` has succeeded. The numbers of the tiles' states are of a type `F`;
-- what a physical page holds, in all layers of all tiles, is of a type `C`.
pub mod PagePool
pub mod Balance
pub mod Prepare
pub mod Valid
pub mod Lifecycle
pub mod Copies
pub mod Sizes
pub mod Fork
pub mod Extend
pub mod CopyOnWrite
pub mod Prepared
pub mod Resident
pub mod Preparation
pub mod Batch
pub mod Preflight
pub mod Admission
pub mod Rows
pub mod Checks
pub mod Admit
use tr_infer.Prelude.{
  ℕ, zero, suc, ◌+◌, ◌*◌, ◌/◌, ◌%◌, ◌≤◌, ◌<◌, Bool, true, false, ◌&&◌, Option, none, some, List, [],
  ◌∷◌, map, length, set, take, get_elem?, ltb, leb, ◌==◌, if◌then◌else◌, add64, u64_max, not,
}
use tr_infer.Model.Sequence.PagePool.{
  Outcome, done, fail, Failure, stale, no_slot, generation_overflow, Pages, retain, release,
}

abbrev pub page_tokens : ℕ
page_tokens = 64

-- `div_ceil(PAGE_TOKENS)`
abbrev pub pages_for : ℕ → ℕ
pages_for n = (n + 63) / 64

pub record SequenceId : Type 0 where
  pub slot : ℕ
  pub generation : ℕ

pub record GdnState (F : Type 0) : Type 0 where
  pub conv : List F
  pub ssm : List F

-- The K/V rows of a resident sequence are in the pages; `pages` is its page table.
pub record AttnState (F : Type 0) : Type 0 where
  pub pages : List ℕ
  pub ik_pooled : List F
  pub ik_raw : List F

pub record TileState (F : Type 0) : Type 0 where
  pub gdn : List (Option (GdnState F))
  pub attn : List (Option (AttnState F))
  pub ple_hist : List F

-- `rope_delta` is the word of an `i64`.
pub record HostState (F : Type 0) : Type 0 where
  pub n_past : ℕ
  pub prev_tokens : List ℕ
  pub rope_delta : ℕ
  pub extra : List F

pub record Sequence (F : Type 0) : Type 0 where
  pub generation : ℕ
  pub live : Bool
  pub tiles : List (TileState F)
  pub host : HostState F
  pub pages : List ℕ

pub record Sequences (F C : Type 0) : Type 0 where
  pub slots : List (Sequence F)
  pub pages : Pages
  pub kv : List C
  pub ctx : ℕ

-- `physical_row`; `none` is a panic.
unfoldable pub physical_row : {F : Type 0} → AttnState F → ℕ → Option ℕ
physical_row a row = elim (get_elem? a.pages (row / 64)) [
  | none ↦ none
  | some p ↦ some (p * 64 + row % 64)
]

module _ {A : Type 0} where
  abbrev pub map_some : (A → A) → Option A → Option A
  map_some f none = none
  map_some f (some a) = some (f a)

  -- An index that both lists have.
  abbrev pub zip : (A → A → A) → List A → List A → List A
  zip f (a ∷ xs) (b ∷ ys) = f a b ∷ zip f xs ys
  zip f xs [] = []
  zip f [] (b ∷ ys) = b ∷ ys

module _ {F : Type 0} where
  -- `fill(0.0)`
  abbrev pub filled : F → List F → List F
  filled z xs = map (λ _. z) xs

  -- `reset`
  unfoldable pub reset : F → TileState F → TileState F
  reset z st = record st {
    gdn = map (map_some (λ g. record { conv = filled z g.conv; ssm = filled z g.ssm })) st.gdn;
    ple_hist = filled z st.ple_hist;
  }

  abbrev pub clear_attn : F → AttnState F → AttnState F
  clear_attn z a = record {
    pages = [];
    ik_pooled = filled z a.ik_pooled;
    ik_raw = filled z a.ik_raw;
  }

  -- The loop of `allocate_sequence` over the tiles.
  unfoldable pub cleared : F → TileState F → TileState F
  unfolding reset
  cleared z st =
      let st' = reset z st in record st' { attn = map (map_some (clear_attn z)) st'.attn }

  abbrev pub default_host : HostState F
  default_host = record { n_past = 0; prev_tokens = []; rope_delta = 0; extra = [] }

  -- The table that every attention layer of a tile holds.
  unfoldable pub with_table : List ℕ → TileState F → TileState F
  with_table table st = record st {
    attn = map (map_some (λ a. record a { pages = table })) st.attn;
  }

  abbrev pub copy_gdn : Option (GdnState F) → Option (GdnState F) → Option (GdnState F)
  copy_gdn (some s) (some d) = some s
  copy_gdn (some s) none = none
  copy_gdn none d = d

  abbrev pub copy_attn : Option (AttnState F) → Option (AttnState F) → Option (AttnState F)
  copy_attn (some s) (some d) = some (record d { ik_raw = s.ik_raw })
  copy_attn (some s) none = none
  copy_attn none d = d

  -- What the workers of `fork_sequence` copy, from the first tile state to the second.
  unfoldable pub copied : TileState F → TileState F → TileState F
  copied src dst = record {
    gdn = zip copy_gdn src.gdn dst.gdn;
    attn = zip copy_attn src.attn dst.attn;
    ple_hist = src.ple_hist;
  }

  abbrev pub after_first : Option (ℕ × Sequence F) → Option (ℕ × Sequence F)
  after_first none = none
  after_first (some (i, s)) = some (suc i, s)

  -- The first slot that is not live.
  unfoldable pub free_slot : List (Sequence F) → Option (ℕ × Sequence F)
  free_slot [] = none
  free_slot (s ∷ slots) =
      let rest = free_slot slots in if s.live then after_first rest else some (0, s)

  -- `free_sequence_count`
  unfoldable pub free_sequence_count : List (Sequence F) → ℕ
  free_sequence_count [] = 0
  free_sequence_count (s ∷ slots) =
      let rest = free_sequence_count slots in if s.live then rest else suc rest

  abbrev pub started : F → Sequence F → Sequence F
  started z s = record s {
    generation = s.generation + 1;
    live = true;
    host = default_host;
    tiles = map (cleared z) s.tiles;
  }

  abbrev pub owns : SequenceId → Sequence F → Bool
  owns id s = s.live && s.generation == id.generation

  -- The child of a fork: the pages that hold the parent's rows, and its state.
  abbrev pub forked : List ℕ → Sequence F → Sequence F → Sequence F
  forked table parent child = record child {
    pages = table;
    host = parent.host;
    tiles = zip copied parent.tiles (map (with_table table) child.tiles);
  }

-- The pages of a slot that is let go.
unfoldable pub release_all : List ℕ → Pages → Option Pages
release_all [] ps = some ps
release_all (p ∷ table) ps = elim (release p ps) [ none ↦ none | some ps' ↦ release_all table ps' ]

unfoldable pub retain_all : List ℕ → Pages → Option Pages
retain_all [] ps = some ps
retain_all (p ∷ table) ps = elim (retain p ps) [ none ↦ none | some ps' ↦ retain_all table ps' ]

module _ {F C : Type 0} where
  -- `validate_sequence`, with the slot that it has found.
  unfoldable pub validate_sequence : Sequences F C → SequenceId → Outcome (Sequence F)
  validate_sequence ss id = elim (get_elem? ss.slots id.slot) [
    | none ↦ fail stale
    | some s ↦ if owns id s then done s else fail stale
  ]

  -- `sequence_position`
  unfoldable pub sequence_position : Sequences F C → SequenceId → Outcome ℕ
  unfolding validate_sequence
  sequence_position ss id = elim (validate_sequence ss id) [
    | fail e ↦ fail e
    | done s ↦ done s.host.n_past
  ]

  -- `allocate_sequence`
  unfoldable pub allocate_sequence : F → Sequences F C → Sequences F C × Outcome SequenceId
  unfolding free_slot
  allocate_sequence z ss = elim (free_slot ss.slots) [
    | none ↦ (ss, fail no_slot)
    | some (i, s) ↦ if s.generation == u64_max then (ss, fail generation_overflow) else (
      record ss { slots = set ss.slots i (started z s) },
      done (record { slot = i; generation = s.generation + 1 }),
    )
  ]

  -- `release_sequence`; `none` is a panic, here and below.
  unfoldable pub release_sequence :
      Sequences F C → SequenceId → Option (Sequences F C × Outcome (Unit {0}))
  unfolding validate_sequence release_all
  release_sequence ss id = elim (validate_sequence ss id) [
    | fail e ↦ some (ss, fail e)
    | done s ↦ elim (release_all s.pages ss.pages) [
      | none ↦ none
      | some ps ↦ some (
        record ss {
          slots = set ss.slots id.slot (record s { live = false; pages = [] });
          pages = ps;
        },
        done tt,
      )
    ]
  ]

  unfoldable pub fork_into :
      SequenceId
      → Sequence F
      → Sequence F
      → Sequences F C
      → Option (Sequences F C × Outcome SequenceId)
  unfolding retain_all
  fork_into child_id parent child ss =
      let n = pages_for parent.host.n_past in
      let table = take n parent.pages in
      if ltb (length parent.pages) n then none else elim (retain_all table ss.pages) [
        | none ↦ none
        | some ps ↦ some (
          record ss { slots = set ss.slots child_id.slot (forked table parent child); pages = ps },
          done child_id,
        )
      ]

  unfoldable pub fork_allocated :
      SequenceId → Sequences F C × Outcome SequenceId → Option (Sequences F C × Outcome SequenceId)
  unfolding fork_into
  fork_allocated id (ss, fail e) = some (ss, fail e)
  fork_allocated id (ss, done child) = elim (get_elem? ss.slots id.slot) [
    | none ↦ none
    | some p ↦ elim (get_elem? ss.slots child.slot) [
      | none ↦ none
      | some c ↦ fork_into child p c ss
    ]
  ]

  -- `fork_sequence`
  unfoldable pub fork_sequence :
      F → Sequences F C → SequenceId → Option (Sequences F C × Outcome SequenceId)
  unfolding fork_allocated validate_sequence allocate_sequence
  fork_sequence z ss id = elim (validate_sequence ss id) [
    | fail e ↦ some (ss, fail e)
    | done s ↦ fork_allocated id (allocate_sequence z ss)
  ]
