-- ===== src/Server/Continuous/Schedule.antt =====
-- crates/tr-infer/src/server/continuous.rs: which tokens of which sequences the next batch gets.
use tr_infer.Prelude.{
  ℕ, zero, suc, ◌+◌, ◌-◌, ◌%◌, Bool, true, false, ◌||◌, Option, none, some, List, [], ◌∷◌, ◌++◌,
  length, take, drop, get_elem?, min, ltb, ◌==◌, if◌then◌else◌, add64, sub64,
}
use tr_infer.Cache.Role.{Role}
use tr_infer.Model.Sequence.{SequenceId, Sequences, sequence_position}
use tr_infer.Model.Sequence.PagePool.{done, fail}
use tr_infer.Model.Sequence.Batch.{is_empty}
use tr_infer.Server.Prefix.{Settings, snapshot_points}
use tr_infer.Server.Continuous.{Job, Choice, Group}

-- A row of the batch: the number of its group, and of its choice when it decodes.
pub record Scheduled : Type 0 where
  pub group : ℕ
  pub choice : Option ℕ
  pub sequence : SequenceId
  pub tokens : List ℕ
  pub logits : Bool

abbrev pub first_point : List (ℕ × Role) → Option ℕ
first_point [] = none
first_point (p ∷ points) = some p.0

-- The first snapshot point behind `pos`.
unfoldable pub snapshot_at : Option Settings → Job → ℕ → Option ℕ
unfolding snapshot_points
snapshot_at none job pos = none
snapshot_at (some o) job pos = first_point (snapshot_points o job.spans pos (length job.ids))

abbrev pub cut_at : ℕ → Option ℕ → ℕ
cut_at stop none = stop
cut_at stop (some p) = min stop p

abbrev pub is_at : ℕ → Option ℕ → Bool
is_at stop none = false
is_at stop (some p) = p == stop

module _ {L : Type 0} where
  abbrev pub decode_row : ℕ → ℕ → Choice L → ℕ → Scheduled
  decode_row gi ci c t = record {
    group = gi;
    choice = some ci;
    sequence = c.seq;
    tokens = t ∷ [];
    logits = true;
  }

  -- The pending tokens of the choices from number `ci` on.
  unfoldable pub decode_choices : ℕ → ℕ → List (Choice L) → List Scheduled
  decode_choices gi ci [] = []
  decode_choices gi ci (c ∷ choices) =
      let rest = decode_choices gi (suc ci) choices in
      if c.finished
      then rest
      else elim c.pending [ none ↦ rest | some t ↦ decode_row gi ci c t ∷ rest ]

  unfoldable pub decode_rows : ℕ → List (Group L) → List Scheduled
  unfolding decode_choices
  decode_rows gi [] = []
  decode_rows gi (g ∷ groups) = decode_choices gi 0 g.choices ++ decode_rows (suc gi) groups

  -- Where the next part of the prompt ends.
  unfoldable pub prefill_end : Option Settings → Group L → (pos budget : ℕ) → ℕ
  unfolding snapshot_at
  prefill_end prefix g pos budget =
      cut_at (min (add64 pos budget) (length g.job.ids)) (snapshot_at prefix g.job pos)

  abbrev pub prefill_row : Option Settings → ℕ → Group L → SequenceId → (pos stop : ℕ) → Scheduled
  prefill_row prefix gi g root pos stop = record {
    group = gi;
    choice = none;
    sequence = root;
    tokens = take (stop - pos) (drop pos g.job.ids);
    logits = stop == length g.job.ids || is_at stop (snapshot_at prefix g.job pos);
  }

abbrev pub and_row : Scheduled → Option (List Scheduled) → Option (List Scheduled)
and_row row none = none
and_row row (some rows) = some (row ∷ rows)

module _ {F C L : Type 0} (ss : Sequences F C) (prefix : Option Settings) (groups : List (Group L))
    (cursor : ℕ) where
  -- The loop over the groups, `k` of them from `off` on; `none` is a panic, here and below.
  unfoldable pub prefill_rows : (k off budget : ℕ) → Option (List Scheduled)
  unfolding prefill_end sequence_position
  prefill_rows zero off budget = some []
  prefill_rows (suc k) off budget =
      let gi = (cursor + off) % length groups in
      elim (get_elem? groups gi) as (λ _. Option (List Scheduled)) [
        | none ↦ none
        | some g ↦
            let skipped = prefill_rows k (suc off) budget in
            if g.restore then skipped else elim g.root as (λ _. Option (List Scheduled)) [
              | none ↦ skipped
              | some root ↦ elim (sequence_position ss root) as (λ _. Option (List Scheduled)) [
                | fail e ↦ none
                | done pos ↦
                    let stop = prefill_end prefix g pos budget in
                    let left = budget - (stop - pos) in
                    let more = prefill_rows k (suc off) left in
                    let same = if budget == 0 then some [] else skipped in
                    let next = if left == 0 then some [] else more in
                    if ltb pos stop
                    then and_row (prefill_row prefix gi g root pos stop) next
                    else same
              ]
            ]
      ]

  abbrev pub before_prefill : List Scheduled → Option (List Scheduled) → Option (List Scheduled)
  before_prefill rows none = none
  before_prefill rows (some more) = some (rows ++ more)

  -- The rows of the batch, and the cursor.
  unfoldable pub schedule : (batch_max prefill_chunk : ℕ) → Option (List Scheduled × ℕ)
  unfolding decode_rows prefill_rows
  schedule batch_max prefill_chunk =
      let rows = decode_rows 0 groups in
      let room = sub64 batch_max (length rows) in
      let budget = if is_empty rows then room else min room prefill_chunk in
      if is_empty groups
      then some (rows, cursor)
      else elim (before_prefill rows (prefill_rows (length groups) 0 budget)) [
        | none ↦ none
        | some all ↦ some (all, (cursor + 1) % length groups)
      ]
