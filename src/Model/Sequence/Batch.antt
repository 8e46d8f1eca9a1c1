-- ===== src/Model/Sequence/Batch.antt =====
-- crates/tr-model/src/sequence.rs: `forward_batch` before and after the workers run. What the
-- workers compute (exec_batch.rs) is not modelled.
use tr_infer.Prelude.{
  ℕ, ◌+◌, ◌-◌, ◌/◌, Bool, true, false, ◌&&◌, ◌||◌, Option, none, some, List, [], ◌∷◌, ◌++◌, length,
  set, drop, get_elem?, ltb, leb, ◌==◌, if◌then◌else◌, sub64, add64, u64_max, ℕ_discrete, any,
}
use tr_infer.Prelude.Assoc.{lookup, insert}
use tr_infer.Model.Sequence.PagePool.{
  Outcome, done, fail, empty_batch, bad_segment, twice, size_overflow, context_overflow, too_large,
  no_page,
}
use tr_infer.Model.Sequence.{
  pages_for, SequenceId, HostState, Sequences, validate_sequence, sequence_position,
}
use tr_infer.Model.Sequence.Prepare.{prepare_sequence}

pub record BatchInput : Type 0 where
  pub sequence : SequenceId
  pub tokens : List ℕ
  pub logits : Bool

pub record Segment : Type 0 where
  pub slot : ℕ
  pub start : ℕ
  pub len : ℕ
  pub pos : ℕ
  pub prev : List ℕ

abbrev pub same_sequence : SequenceId → SequenceId → Bool
same_sequence a b = a.slot == b.slot && a.generation == b.generation

-- Some token is not of the vocabulary.
abbrev pub has_invalid : ℕ → List ℕ → Bool
has_invalid n_vocab tokens = any (λ t. leb n_vocab t) tokens

abbrev pub is_empty : {A : Type 0} → List A → Bool
is_empty [] = true
is_empty (x ∷ xs) = false

module _ {F C : Type 0} (n_vocab : ℕ) (ss : Sequences F C) where
  -- One round of the loop that checks the inputs, after `seen`; the sum of the lengths.
  unfoldable pub check_input : List BatchInput → ℕ → BatchInput → Outcome ℕ
  unfolding validate_sequence
  check_input seen total b = elim (validate_sequence ss b.sequence) [
    | fail e ↦ fail e
    | done s ↦
        let sum = total + length b.tokens in
        if is_empty b.tokens || has_invalid n_vocab b.tokens
        then fail bad_segment
        else if any (λ a. same_sequence a.sequence b.sequence) seen
        then fail twice
        else if ltb u64_max sum
        then fail size_overflow
        else if ltb (sub64 ss.ctx s.host.n_past) (length b.tokens)
        then fail context_overflow
        else done sum
  ]

  unfoldable pub check_inputs : List BatchInput → ℕ → List BatchInput → Outcome ℕ
  unfolding check_input
  check_inputs seen total [] = done total
  check_inputs seen total (b ∷ inputs) = elim (check_input seen total b) [
    | fail e ↦ fail e
    | done sum ↦ check_inputs (seen ++ b ∷ []) sum inputs
  ]

abbrev pub after : ℕ → Option ℕ → Option ℕ
after n none = none
after n (some m) = some (n + m)

module _ {F C : Type 0} (ss : Sequences F C) where
  -- `references.entry(p).or_insert(refs[p])`
  unfoldable pub remaining : List (ℕ × ℕ) → ℕ → Option ℕ
  unfolding lookup
  remaining references p = elim (lookup ℕ_discrete p references) [
    | some r ↦ some r
    | none ↦ get_elem? ss.pages.refs p
  ]

  -- The pages that the batch needs, one input after the other; `none` is a panic, here and below.
  unfoldable pub need_pages : List (ℕ × ℕ) → List BatchInput → Option ℕ
  unfolding remaining insert
  need_pages references [] = some 0
  need_pages references (b ∷ inputs) = elim (get_elem? ss.slots b.sequence.slot) [
    | none ↦ none
    | some s ↦
        let grow = pages_for (add64 s.host.n_past (length b.tokens)) - length s.pages in
        elim (get_elem? s.pages (s.host.n_past / 64)) [
          | none ↦ after grow (need_pages references inputs)
          | some p ↦ elim (remaining references p) [
            | none ↦ none
            | some r ↦
                let shared = need_pages (insert ℕ_discrete p (r - 1) references) inputs in
                let alone = need_pages (insert ℕ_discrete p r references) inputs in
                if ltb 1 r then after (grow + 1) shared else after grow alone
          ]
        ]
  ]

module _ {F : Type 0} where
  -- What the run leaves in the host's state: the position, and the last tokens.
  unfoldable pub advanced : ℕ → List ℕ → HostState F → HostState F
  advanced ple_ngram tokens host =
      let all = host.prev_tokens ++ tokens in
      record host {
        n_past = add64 host.n_past (length tokens);
        prev_tokens = drop (length all - (ple_ngram - 1)) all;
      }

module _ {F C : Type 0} where
  -- The loop that prepares the sequences.
  unfoldable pub prepare_all :
      Sequences F C → List BatchInput → Option (Sequences F C × Outcome (Unit {0}))
  unfolding prepare_sequence sequence_position
  prepare_all ss [] = some (ss, done tt)
  prepare_all ss (b ∷ inputs) = elim (sequence_position ss b.sequence) [
    | fail e ↦ some (ss, fail e)
    | done pos ↦ elim (prepare_sequence ss b.sequence (add64 pos (length b.tokens))) [
      | none ↦ none
      | some (ss', fail e) ↦ some (ss', fail e)
      | some (ss', done u) ↦ prepare_all ss' inputs
    ]
  ]

  unfoldable pub preflight :
      Sequences F C → List BatchInput → Option ℕ → Option (Sequences F C × Outcome (Unit {0}))
  unfolding prepare_all
  preflight ss inputs none = none
  preflight ss inputs (some need) =
      let run = prepare_all ss inputs in
      if ltb (length ss.pages.free) need then some (ss, fail no_page) else run

  -- `forward_batch` up to the run: the checks, and the pages.
  unfoldable pub admit_batch :
      (n_vocab batch_max : ℕ)
      → Sequences F C
      → List BatchInput
      → Option (Sequences F C × Outcome (Unit {0}))
  unfolding check_inputs need_pages preflight
  admit_batch n_vocab batch_max ss inputs =
      if is_empty inputs
      then some (ss, fail empty_batch)
      else elim (check_inputs n_vocab ss [] 0 inputs) [
        | fail e ↦ some (ss, fail e)
        | done total ↦
            if ltb batch_max total
            then some (ss, fail too_large)
            else preflight ss inputs (need_pages ss [] inputs)
      ]

  -- The segments of the batch, the tokens and the rows whose logits are wanted; `start` counts the
  -- tokens before.
  unfoldable pub lay_out :
      Sequences F C → ℕ → List BatchInput → Option (List Segment × (List ℕ × List ℕ))
  lay_out ss start [] = some ([], ([], []))
  lay_out ss start (b ∷ inputs) = elim (get_elem? ss.slots b.sequence.slot) [
    | none ↦ none
    | some s ↦ elim (lay_out ss (start + length b.tokens) inputs) [
      | none ↦ none
      | some (segments, (tokens, rows)) ↦
          let segment : Segment = record {
            slot = b.sequence.slot;
            start = start;
            len = length b.tokens;
            pos = s.host.n_past;
            prev = s.host.prev_tokens;
          } in
          some (
            segment ∷ segments,
            (b.tokens ++ tokens, (if b.logits then (start + length b.tokens - 1) ∷ rows else rows)),
          )
    ]
  ]

  unfoldable pub advance_all : ℕ → Sequences F C → List BatchInput → Option (Sequences F C)
  unfolding advanced
  advance_all ple_ngram ss [] = some ss
  advance_all ple_ngram ss (b ∷ inputs) = elim (get_elem? ss.slots b.sequence.slot) [
    | none ↦ none
    | some s ↦
        advance_all ple_ngram
          (record ss {
            slots =
                set ss.slots b.sequence.slot
                  (record s { host = advanced ple_ngram b.tokens s.host });
          })
          inputs
  ]

-- `row_segment`
unfoldable pub row_segment : List Segment → ℕ → Option Segment
row_segment [] row = none
row_segment (s ∷ segments) row =
    let rest = row_segment segments row in
    if leb s.start row && ltb row (s.start + s.len) then some s else rest

-- `row_position`
unfoldable pub row_position : List Segment → ℕ → ℕ → ℕ
unfolding row_segment
row_position segments row pos0 = elim (row_segment segments row) [
  | none ↦ pos0 + row
  | some s ↦ s.pos + row - s.start
]

abbrev ranges : List Segment → List (ℕ × ℕ)
ranges [] = []
ranges (s ∷ segments) = (s.start, s.len) ∷ ranges segments

-- `segment_ranges`
unfoldable pub segment_ranges : List Segment → ℕ → List (ℕ × ℕ)
segment_ranges [] m = (0, m) ∷ []
segment_ranges (s ∷ segments) m = ranges (s ∷ segments)
