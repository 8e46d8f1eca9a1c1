-- ===== src/Server/Tests/Scheduling.antt =====
-- Instances of the theorems on admission and scheduling, over two sequences and four pages.
use tr_infer.Prelude.{
  ℕ, ◌+◌, ◌≡◌, ◌≤◌, ◌<◌, refl, true, false, none, some, List, [], ◌∷◌, arith, ◌⊎◌, u64_mod, ◌%◌,
}
use tr_infer.Model.Sequence.Rows.{first_slots, enabled}
use tr_infer.Model.Sequence.PagePool.{new_pages}
use tr_infer.Model.Tests.{none_live, none_live-IsValid, first}
use tr_infer.Server.Reserve.{continuous_pages, shared_and_private, continuous_pages_lem}
use tr_infer.Server.Continuous.{Job, Choice, Group}
use tr_infer.Server.Continuous.Admit.{Admitting, admit}
use tr_infer.Server.Continuous.Admission.{AdmitOutcome, admit_lem}

continuous_pages_lem_example :
    ((continuous_pages 129 64 3 ≡ some (shared_and_private 129 64 3))
      × (shared_and_private 129 64 3 < u64_mod)
      × (129 % 64 + 64 + 63 < u64_mod))
    ⊎ ((continuous_pages 129 64 3 ≡ none)
        × ((u64_mod ≤ shared_and_private 129 64 3) ⊎ (u64_mod ≤ 129 % 64 + 64 + 63)))
continuous_pages_lem_example = continuous_pages_lem 129 64 3

abbrev job : ℕ → List ℕ → Job
job n ids = record {
  n = n;
  id = [];
  ids = ids;
  spans = [];
  max_tokens = 64;
  thinking_open = false;
  cancel = false;
}

abbrev start : Admitting ℕ ℕ ℕ
start = record { ss = none_live; idle = none; groups = []; pages = 0; seats = 0; sent = [] }

-- The second request never fits, the third has to wait for the first.
abbrev requests : List Job
requests = job 1 (1 ∷ 2 ∷ []) ∷ job 3 (3 ∷ []) ∷ job 2 (4 ∷ []) ∷ []

admit_lem_example : AdmitOutcome 0 true requests start (admit 0 true requests start)
unfolding enabled first_slots new_pages
admit_lem_example = admit_lem 0 true requests start (record {
  valid = none_live-IsValid;
  pages = refl;
  pages_fit = omega arith;
  seats = refl;
  seats_fit = omega arith;
  bounded = omega arith;
})

abbrev choosing : Choice ℕ
choosing = record {
  seq = record { slot = 1; generation = 1 };
  index = 0;
  n_gen = 1;
  n_reason = 0;
  pending = some 9;
  stepped = [];
  logits = [];
  finished = false;
}

abbrev running : List (Group ℕ)
running =
    record {
      job = job 1 (1 ∷ 2 ∷ 3 ∷ []);
      root = some first;
      choices = [];
      credits = 2;
      restore = false;
      imported = 0;
      restored = 0;
      reused = 0;
      logits = [];
    }
    ∷ record {
      job = job 1 (5 ∷ []);
      root = none;
      choices = choosing ∷ [];
      credits = 2;
      restore = false;
      imported = 0;
      restored = 0;
      reused = 0;
      logits = [];
    }
    ∷ []
