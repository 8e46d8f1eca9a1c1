-- ===== src/Server/Continuous/Scheduled.antt =====
-- crates/tr-infer/src/server/continuous.rs: the batch is within its limit, and its rows are the next
-- tokens of their sequences.
use tr_infer.Prelude.{
  ℕ, ◌+◌, ◌≤◌, ◌<◌, ◌≡◌, ◌⊎◌, false, Option, none, some, List, [], ◌∷◌, ◌++◌, length, get_elem?,
  All,
}
use tr_infer.Model.Sequence.{SequenceId, Sequences, sequence_position}
use tr_infer.Model.Sequence.PagePool.{done}
use tr_infer.Server.Prefix.{Settings}
use tr_infer.Server.Continuous.{Choice, Group}
use tr_infer.Server.Continuous.Schedule.{
  Scheduled, snapshot_at, decode_row, decode_rows, prefill_row,
}

-- The tokens of a batch.
abbrev pub total : List Scheduled → ℕ
total [] = 0
total (r ∷ rows) = length r.tokens + total rows

abbrev pub NotBehind : ℕ → Option ℕ → Type 0
NotBehind stop none = Unit
NotBehind stop (some p) = stop ≤ p

module _ {F C L : Type 0} (ss : Sequences F C) (prefix : Option Settings)
    (groups : List (Group L)) where
  -- The row is the next part of the prompt of a group that is not being restored: it starts at the
  -- position of the sequence, is not empty, and does not go behind the prompt or a snapshot point.
  pub record IsPrefill (row : Scheduled) : Type 0 where
    pub g : Group L
    pub root : SequenceId
    pub pos : ℕ
    pub stop : ℕ
    pub found : get_elem? groups row.group ≡ some g
    pub idle : g.restore ≡ false
    pub rooted : g.root ≡ some root
    pub position : sequence_position ss root ≡ done pos
    pub is : row ≡ prefill_row prefix row.group g root pos stop
    pub some_tokens : pos < stop
    pub within : stop ≤ length g.job.ids
    pub at_point : NotBehind stop (snapshot_at prefix g.job pos)

  -- The row is the pending token of a choice that is not finished.
  pub record IsDecode (row : Scheduled) : Type 0 where
    pub g : Group L
    pub ci : ℕ
    pub c : Choice L
    pub t : ℕ
    pub found : get_elem? groups row.group ≡ some g
    pub chosen : get_elem? g.choices ci ≡ some c
    pub unfinished : c.finished ≡ false
    pub pending : c.pending ≡ some t
    pub is : row ≡ decode_row row.group ci c t

  -- The root of each group has a position.
  abbrev pub Placed : Group L → Type 0
  Placed g =
      (root : SequenceId) → g.root ≡ some root → (pos : ℕ) × (sequence_position ss root ≡ done pos)

module _ {F C L : Type 0} (ss : Sequences F C) (prefix : Option Settings) (groups : List (Group L))
    (cursor : ℕ) where
  abbrev PrefillOutcome : ℕ → Option (List Scheduled) → Type 0
  PrefillOutcome budget r =
      (rows : List Scheduled) × (r ≡ some rows)
      × (total rows ≤ budget)
      × All (IsPrefill ss prefix groups) rows

  abbrev pub ScheduleOutcome : (batch_max prefill_chunk : ℕ) → Option (List Scheduled × ℕ) → Type 0
  ScheduleOutcome batch_max prefill_chunk r =
      (decode : List Scheduled) × (prefill : List Scheduled) × (cursor' : ℕ) × (r
        ≡ some (decode ++ prefill, cursor'))
      × (decode ≡ decode_rows 0 groups)
      × All (IsDecode ss prefix groups) decode
      × All (IsPrefill ss prefix groups) prefill
      × (total (decode ++ prefill) ≤ batch_max)
      × ((decode ≡ []) ⊎ (total prefill ≤ prefill_chunk))
      × ((groups ≡ []) ⊎ (cursor' < length groups))
