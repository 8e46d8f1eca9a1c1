-- ===== src/Server/Continuous/Admit.antt =====
-- crates/tr-infer/src/server/continuous.rs: the loop of `run_continuous` that admits waiting requests.
use tr_infer.Prelude.{
  ℕ, Bool, false, ◌&&◌, ◌||◌, Option, none, some, List, [], ◌∷◌, ◌++◌, length, ltb, if◌then◌else◌,
  not, add64, sub64,
}
use tr_infer.Model.Sequence.{SequenceId, Sequences, allocate_sequence, release_sequence}
use tr_infer.Model.Sequence.PagePool.{Outcome, done, fail}
use tr_infer.Model.Sequence.Batch.{is_empty}
use tr_infer.Server.Continuous.{
  Job, Message, exceeds_capacity, failed, error, Sent, Idle, Group, prefix_of, credits_for,
}

-- The variables of the loop.
pub record Admitting (F C L : Type 0) : Type 0 where
  pub ss : Sequences F C
  pub idle : Option (Idle L)
  pub groups : List (Group L)
  pub pages : ℕ
  pub seats : ℕ
  pub sent : List Sent

-- The sequence that a request starts with, how many of its tokens are in it, and the last logits.
pub record Start (L : Type 0) : Type 0 where
  pub root : SequenceId
  pub reused : ℕ
  pub logits : List L

module _ {L : Type 0} where
  -- The prompt continues the idle sequence.
  unfoldable pub is_hot : Job → Idle L → Bool
  is_hot job hot = prefix_of hot.ids job.ids && not (is_empty hot.logits)

  abbrev pub new_group : Job → Bool → ℕ → Start L → Group L
  new_group job restore credits st = record {
    job = job;
    root = some st.root;
    choices = [];
    credits = credits;
    restore = restore;
    imported = 0;
    restored = 0;
    reused = st.reused;
    logits = st.logits;
  }

abbrev pub refusal : Job → Message → Sent
refusal job m = record { job = job; index = 0; event = error m }

module _ {F C L : Type 0} (z : F) where
  unfoldable pub fresh : Sequences F C × Outcome SequenceId → Sequences F C × Outcome (Start L)
  fresh (ss, fail e) = (ss, fail e)
  fresh (ss, done s) = (ss, done (record { root = s; reused = 0; logits = [] }))

  unfoldable pub released :
      Option (Sequences F C × Outcome (Unit {0})) → Option (Sequences F C × Outcome (Start L))
  unfolding fresh allocate_sequence
  released none = none
  released (some (ss, r)) = some (fresh (allocate_sequence z ss))

  -- The root of a new group; `none` is a panic, here and below.
  unfoldable pub root_for :
      Job → Sequences F C → Option (Idle L) → Option (Sequences F C × Outcome (Start L))
  unfolding fresh released is_hot allocate_sequence release_sequence
  root_for job ss none = some (fresh (allocate_sequence z ss))
  root_for job ss (some hot) =
      if is_hot job hot
      then some (ss, done (record { root = hot.seq; reused = length hot.ids; logits = hot.logits }))
      else released (release_sequence ss hot.seq)

module _ {F C L : Type 0} (z : F) (has_prefix : Bool) where
  abbrev pub page_capacity : Admitting F C L → ℕ
  page_capacity st = length st.ss.pages.refs

  abbrev pub sequence_capacity : Admitting F C L → ℕ
  sequence_capacity st = length st.ss.slots

  -- The request that is in front gets a sequence, or an error.
  unfoldable pub started_with :
      Job → Admitting F C L → Sequences F C × Outcome (Start L) → Admitting F C L
  started_with job st (ss, fail e) = record st {
    ss = ss;
    idle = none;
    sent = st.sent ++ refusal job (failed e) ∷ [];
  }
  started_with job st (ss, done s) = record st {
    ss = ss;
    idle = none;
    groups =
        st.groups
        ++ new_group job (if ltb 0 s.reused then false else has_prefix) (credits_for job) s ∷ [];
    pages = add64 st.pages (credits_for job);
    seats = add64 st.seats job.n;
  }

  abbrev pub refused : Job → Admitting F C L → Admitting F C L
  refused job st = record st { sent = st.sent ++ refusal job exceeds_capacity ∷ [] }

  -- The request never fits.
  abbrev pub too_large : Job → Admitting F C L → Bool
  too_large job st = ltb (page_capacity st) (credits_for job) || ltb (sequence_capacity st) job.n

  -- The request has to wait.
  abbrev pub no_room : Job → Admitting F C L → Bool
  no_room job st =
      ltb (sub64 (page_capacity st) st.pages) (credits_for job)
      || ltb (sub64 (sequence_capacity st) st.seats) job.n

  -- The loop; the requests that stay.
  unfoldable pub admit : List Job → Admitting F C L → Option (List Job × Admitting F C L)
  unfolding started_with root_for credits_for
  admit [] st = some ([], st)
  admit (job ∷ waiting) st =
      let without = admit waiting (refused job st) in
      let next = elim (root_for z job st.ss st.idle) as (λ _. Option (List Job × Admitting F C L)) [
        | none ↦ none
        | some r ↦ admit waiting (started_with job st r)
      ] in
      if too_large job st
      then without
      else if no_room job st
      then some (job ∷ waiting, st)
      else next
