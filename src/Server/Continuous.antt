-- ===== src/Server/Continuous.antt =====
-- crates/tr-infer/src/server/continuous.rs: the scheduler of requests that run at the same time.
-- Requests, their groups of choices, and the admission of the waiting ones. Timers and statistics
-- are left out; a reader of the prefix cache is only there or not.
pub mod Admit
pub mod Admission
pub mod Schedule
pub mod Scheduled
use tr_infer.Prelude.{
  ℕ, zero, suc, ◌+◌, Bool, true, false, ◌&&◌, ◌||◌, Option, none, some, List, [], ◌∷◌, ◌++◌, length,
  map, select, ltb, ◌==◌, if◌then◌else◌, not, add64, sub64, u64_max,
}
use tr_infer.Cache.Role.{Span}
use tr_infer.Model.Sequence.{SequenceId}
use tr_infer.Model.Sequence.PagePool.{Failure}
use tr_infer.Server.Generate.{Reason, by_cancel}
use tr_infer.Server.Reserve.{continuous_pages}

-- `Job` and what is used of its parameters; `cancel` is the flag as it is read.
pub record Job : Type 0 where
  pub n : ℕ
  pub id : List ℕ
  pub ids : List ℕ
  pub spans : List Span
  pub max_tokens : ℕ
  pub thinking_open : Bool
  pub cancel : Bool

pub data Message : Type 0 where
  exceeds_capacity : Message
  failed : Failure → Message
  no_logits : Message

-- `Finish`, without the times and the statistics.
pub record Finish : Type 0 where
  pub reason : Reason
  pub completion_tokens : ℕ
  pub reasoning_tokens : ℕ

pub data Event : Type 0 where
  error : Message → Event
  finished : Finish → Event

-- An event for a choice of a job.
pub record Sent : Type 0 where
  pub job : Job
  pub index : ℕ
  pub event : Event

pub record Idle (L : Type 0) : Type 0 where
  pub seq : SequenceId
  pub ids : List ℕ
  pub logits : List L

-- `n_gen` and `n_reason` are those of the emitter.
pub record Choice (L : Type 0) : Type 0 where
  pub seq : SequenceId
  pub index : ℕ
  pub n_gen : ℕ
  pub n_reason : ℕ
  pub pending : Option ℕ
  pub stepped : List ℕ
  pub logits : List L
  pub finished : Bool

pub record Group (L : Type 0) : Type 0 where
  pub job : Job
  pub root : Option SequenceId
  pub choices : List (Choice L)
  pub credits : ℕ
  pub restore : Bool
  pub imported : ℕ
  pub restored : ℕ
  pub reused : ℕ
  pub logits : List L

-- `send_cancelled`: choices `i`, `i + 1`, …, `i + n - 1`.
unfoldable pub cancelled_from : Job → ℕ → ℕ → List Sent
cancelled_from job i zero = []
cancelled_from job i (suc n) =
    record {
      job = job;
      index = i;
      event = finished (record { reason = by_cancel; completion_tokens = 0; reasoning_tokens = 0 });
    }
    ∷ cancelled_from job (suc i) n

unfoldable pub send_cancelled : Job → List Sent
unfolding cancelled_from
send_cancelled job = cancelled_from job 0 job.n

-- The loop that drops waiting requests whose flag is set.
unfoldable pub drop_cancelled : List Job → List Job × List Sent
unfolding send_cancelled
drop_cancelled [] = ([], [])
drop_cancelled (job ∷ waiting) =
    let (kept, sent) = drop_cancelled waiting in
    if job.cancel then (kept, send_cancelled job ++ sent) else (job ∷ kept, sent)

abbrev pub prefix_of : List ℕ → List ℕ → Bool
prefix_of [] ids = true
prefix_of (x ∷ xs) [] = false
prefix_of (x ∷ xs) (y ∷ ids) = x == y && prefix_of xs ids

-- `continuous_pages(…).unwrap_or(usize::MAX)`
abbrev pub or_max : Option ℕ → ℕ
or_max none = u64_max
or_max (some n) = n

unfoldable pub credits_for : Job → ℕ
credits_for job = or_max (continuous_pages (length job.ids) job.max_tokens job.n)

module _ {L : Type 0} where
  abbrev pub live : List (Choice L) → ℕ
  live choices = length (select (λ (c : Choice L). not c.finished) choices)

  abbrev pub with_credits : Group L → Option ℕ → Option (Group L)
  with_credits g none = none
  with_credits g (some n) = some (record g { credits = n })

  -- The reservation of a group whose choices run is for those that are not finished; `none` is a
  -- panic.
  unfoldable pub recredit : Group L → Option (Group L)
  unfolding continuous_pages
  recredit g = elim g.root [
    | some root ↦ some g
    | none ↦ with_credits g (continuous_pages (length g.job.ids) g.job.max_tokens (live g.choices))
  ]

  -- The sequences of a group, reserved or live.
  abbrev pub seats : Group L → ℕ
  seats g = elim g.root [ some root ↦ g.job.n | none ↦ live g.choices ]

  unfoldable pub used_pages : List (Group L) → ℕ
  used_pages [] = 0
  used_pages (g ∷ groups) = add64 g.credits (used_pages groups)

  unfoldable pub used_sequences : List (Group L) → ℕ
  used_sequences [] = 0
  used_sequences (g ∷ groups) = add64 (seats g) (used_sequences groups)
