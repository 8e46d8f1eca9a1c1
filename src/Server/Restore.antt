-- ===== src/Server/Restore.antt =====
-- crates/tr-infer/src/server/prefix_cache.rs: `restore` brings the deepest cached prefix of a prompt
-- into the model.
pub mod Rows
pub mod Choice
pub mod Plan
use tr_infer.Prelude.{
  ℕ, suc, ◌+◌, ◌-◌, Bool, true, false, ◌&&◌, Option, none, some, List, [], ◌∷◌, length, take, drop,
  leb, ltb, ◌==◌, if◌then◌else◌, ite, not,
}
use tr_infer.Bytes.{bytes-discrete}
use tr_infer.Cache.Result.{Result, ok, err, Error}
use tr_infer.Cache.Key.{PrefixKey}
use tr_infer.Cache.Object.{Kind, rows, snap, ObjectMeta, object_name}
use tr_infer.Cache.Backend.{Backend}
use tr_infer.Cache.Index.{Cache, touch, forget}
use tr_infer.Cache.Restore.{RestorePlan, best_restore}
use tr_infer.Model.Sequence.{HostState}

pub data RestoreError : Type 0 where
  other_tokens : RestoreError
  other_size : RestoreError
  unreadable : Error → RestoreError
  bad_snapshot : RestoreError
  other_position : RestoreError

pub data Attempt (A : Type 0) : Type 0 where
  success : A → Attempt A
  failure : RestoreError → Attempt A

-- The operations of `Model` that a restore uses. A snapshot that cannot be read is `none`.
pub record Engine (F : Type 0) : Type 1 where
  pub State : Type 0
  pub rows_bytes : State → ℕ → ℕ → ℕ
  pub snapshot_bytes : State → ℕ → ℕ
  pub import_rows : ℕ → ℕ → List ℕ → State → State
  pub import_snapshot : List ℕ → State → State × Option (HostState F)
  pub reset : State → State

-- `Restored`, without the time.
pub record Restored (F : Type 0) : Type 0 where
  pub pos : ℕ
  pub rows : ℕ
  pub bytes : ℕ
  pub last_logits : Option (List F)

-- `ids[a..b]`; `none` is a panic.
unfoldable pub slice : List ℕ → ℕ → ℕ → Option (List ℕ)
slice ids a b = if leb a b && leb b (length ids) then some (take (b - a) (drop a ids)) else none

abbrev pub logits_of : {F : Type 0} → List F → Option (List F)
logits_of [] = none
logits_of (x ∷ xs) = some (x ∷ xs)

module _ (be : Backend) where
  -- The index and the backend.
  abbrev pub Store : Type 0
  Store = Cache × be.State

  drop_unreadable : Error → be.State → Option (List ℕ) × Cache → Store × Attempt (List ℕ)
  drop_unreadable e s (none, c) = ((c, s), failure (unreadable e))
  drop_unreadable e s (some n, c) = ((c, (be.delete s n).0), failure (unreadable e))

  answered :
      ℕ
      → PrefixKey
      → Kind
      → Cache
      → be.State × Result (ObjectMeta × List ℕ)
      → Store × Attempt (List ℕ)
  unfolding drop_unreadable
  answered now key kind c (s, ok (m, body)) =
      ((touch now (record { key = key; kind = kind }) c, s), success body)
  answered now key kind c (s, err e) = drop_unreadable e s (forget key kind c)

  -- `read`, into a buffer of `n` bytes.
  unfoldable pub read : ℕ → PrefixKey → Kind → ℕ → Store → Store × Attempt (List ℕ)
  unfolding answered
  read now key kind n (c, s) = answered now key kind c (be.get s (object_name key kind) n)

  -- The names that wait for deletion; failures are ignored.
  unfoldable pub delete_each : List (List ℕ) → be.State → be.State
  delete_each [] s = s
  delete_each (n ∷ names) s = delete_each names (be.delete s n).0

  module _ {F : Type 0} (en : Engine F) where
    -- The rounds that follow one.
    abbrev pub counting :
        ℕ
        → Option ((en.State × Store) × Attempt (ℕ × ℕ))
        → Option ((en.State × Store) × Attempt (ℕ × ℕ))
    counting n none = none
    counting n (some (out, failure e)) = some (out, failure e)
    counting n (some (out, success (k, b))) = some (out, success (suc k, n + b))

    -- The loop over the rows of the plan. The clock's readings are numbered.
    unfoldable pub restore_rows :
        (ℕ → ℕ)
        → List ℕ
        → List ObjectMeta
        → en.State
        → Store
        → Option ((en.State × Store) × Attempt (ℕ × ℕ))
    unfolding slice read
    restore_rows clock ids [] m w = some ((m, w), success (0, 0))
    restore_rows clock ids (r ∷ chunks) m w = elim (slice ids r.start r.stop) [
      | none ↦ none
      | some want ↦
          if ite (bytes-discrete r.tokens want) true false
          then if en.rows_bytes m r.start r.stop == r.bytes
            then elim (read (clock 0) r.key rows r.bytes w).1 [
              | failure e ↦ some ((m, (read (clock 0) r.key rows r.bytes w).0), failure e)
              | success body ↦ counting r.bytes (
                  restore_rows (λ i. clock (suc i)) ids chunks
                    (en.import_rows r.start r.stop body m) (read (clock 0) r.key rows r.bytes w).0)
            ]
            else some ((m, w), failure other_size)
          else some ((m, w), failure other_tokens)
    ]

    imported :
        ℕ
        → ℕ
        → ℕ
        → ℕ
        → Store
        → en.State × Option (HostState F)
        → (en.State × Store) × Attempt (Restored F)
    imported pos k b size w (m, none) = ((m, w), failure bad_snapshot)
    imported pos k b size w (m, some host) =
        if host.n_past == pos
        then (
          (m, w),
          success (record {
            pos = pos;
            rows = k;
            bytes = b + size;
            last_logits = logits_of host.extra;
          }),
        )
        else ((m, w), failure other_position)

    restore_snapshot :
        ℕ
        → RestorePlan
        → ℕ
        → ℕ
        → en.State
        → Store × Attempt (List ℕ)
        → (en.State × Store) × Attempt (Restored F)
    unfolding imported
    restore_snapshot now plan k b m (w, failure e) = ((m, w), failure e)
    restore_snapshot now plan k b m (w, success body) =
        imported plan.pos k b plan.snapshot.bytes w (en.import_snapshot body m)

    after_rows :
        (ℕ → ℕ)
        → RestorePlan
        → Option ((en.State × Store) × Attempt (ℕ × ℕ))
        → Option ((en.State × Store) × Attempt (Restored F))
    unfolding restore_snapshot read
    after_rows clock plan none = none
    after_rows clock plan (some (out, failure e)) = some (out, failure e)
    after_rows clock plan (some ((m, w), success (k, b))) = some (
        restore_snapshot (clock (length plan.chunks)) plan k b m
          (read (clock (length plan.chunks)) plan.snapshot.key snap plan.snapshot.bytes w))

    -- `restore_plan`
    unfoldable pub restore_plan :
        (ℕ → ℕ)
        → List ℕ
        → RestorePlan
        → en.State
        → Store
        → Option ((en.State × Store) × Attempt (Restored F))
    unfolding after_rows restore_rows
    restore_plan clock ids plan m w = after_rows clock plan (restore_rows clock ids plan.chunks m w)

    -- The whole prompt is stored, but no logits with it.
    abbrev pub lacks_logits : List ℕ → en.State → RestorePlan → Bool
    lacks_logits ids m p = p.pos == length ids && leb p.snapshot.bytes (en.snapshot_bytes m 0)

    second_choice :
        (ℕ → ℕ)
        → List ℕ
        → List PrefixKey
        → en.State
        → Option RestorePlan × Cache
        → Option (Option RestorePlan × Cache)
    second_choice clock ids keys m (none, c) = some (none, c)
    second_choice clock ids keys m (some p, c) =
        let next = best_restore clock (take (length ids) keys) c in
        if lacks_logits ids m p
        then (if ltb (length keys) (length ids) then none else next)
        else some (some p, c)

    -- The choice of the plan; the second search reads the clock anew.
    unfoldable pub choose :
        (ℕ → ℕ)
        → (ℕ → ℕ)
        → List ℕ
        → List PrefixKey
        → en.State
        → Cache
        → Option (Option RestorePlan × Cache)
    unfolding second_choice best_restore
    choose clock clock' ids keys m c = elim (best_restore clock keys c) [
      | none ↦ none
      | some r ↦ second_choice clock' ids keys m r
    ]

    settled :
        Option ((en.State × Store) × Attempt (Restored F))
        → Option ((en.State × Store) × Option (Restored F))
    settled none = none
    settled (some (out, success r)) = some (out, some r)
    settled (some ((m, w), failure e)) = some ((en.reset m, w), none)

    follow :
        (ℕ → ℕ)
        → List ℕ
        → en.State
        → be.State
        → Option (Option RestorePlan × Cache)
        → Option ((en.State × Store) × Option (Restored F))
    unfolding settled restore_plan delete_each
    follow clock ids m s none = none
    follow clock ids m s (some (none, c)) =
        some ((m, (record c { pending_delete = [] }, delete_each c.pending_delete s)), none)
    follow clock ids m s (some (some plan, c)) = settled (
        restore_plan clock ids plan m
          (record c { pending_delete = [] }, delete_each c.pending_delete s))

    -- `restore`; `none` is a panic.
    unfoldable pub restore :
        (clock clock' clock'' : ℕ → ℕ)
        → List ℕ
        → List PrefixKey
        → en.State
        → Store
        → Option ((en.State × Store) × Option (Restored F))
    unfolding follow choose
    restore clock clock' clock'' ids keys m (c, s) =
        follow clock'' ids m s (choose clock clock' ids keys m c)
