-- ===== src/Server/Tests.antt =====
-- Instances on a small staging area, a prompt of two tokens, and a toy model.
mod Generation
mod Scheduling
use tr_infer.Prelude.{
  ltb, ℕ, ◌-◌, ◌*◌, take, ◌+◌, ◌≡◌, ◌≤◌, ◌<◌, refl, true, false, none, some, Option, List, [], ◌∷◌,
  ◌++◌, length, arith, replicate, length-replicate, ℕ_discrete, replicate, length-replicate,
  ℕ_discrete,
}
use tr_infer.Cache.Buf.{AlignedBuf, new}
use tr_infer.Cache.Role.{system, user, Span}
use tr_infer.Cache.Key.{Image, PrefixKey-discrete, prefix_keys}
use tr_infer.Cache.Policy.{default_policies}
use tr_infer.Prelude.Assoc
use tr_infer.Prelude.Assoc.{lookup, remove as erase}
use tr_infer.Bytes.{bytes-discrete}
use tr_infer.Cache.Object.{name, object_name}
use tr_infer.Cache.Result.{ok}
use tr_infer.Cache.Index.{Cache, ObjectId-discrete, insert_entry}
use tr_infer.Cache.Index.Valid.{IsValid}
use tr_infer.Server.Writer.{StagedJob, write_round, write_round_lem}
use tr_infer.Cache.Backend.Memory
use tr_infer.Cache.Backend.Memory.{MemBackend, memory}
use tr_infer.Server.Staging.{Staging, new_staging, needed, take_round, give_all}
use tr_infer.Server.Staging.Buffers.{Accounted}
use tr_infer.Server.Staging.Budget.{TakeOutcome, take_round_lem}
use tr_infer.Server.Staging.Progress.{new_staging-Accounted, take_round-give_all}
use tr_infer.Server.Prefix.{Settings, message, snapshot_points, extend_keys}
use tr_infer.Server.Prefix.Keys.{extend_keys-prefix_keys}
use tr_infer.Server.Prefix.Points.{Stops, snapshot_points_lem}
use tr_infer.Cache.Restore.{best_restore}
use tr_infer.Server.Restore.{
  Engine, Restored, choose, read, slice, delete_each, restore_rows, restore_plan, restore,
}
use tr_infer.Server.Restore.Plan.{RestoreOutcome, restore_lem}
use tr_infer.Server.Save.{Exports}
use tr_infer.Server.Ready.{Conditions}
use tr_infer.Cache.Tests.Keys.{key, rows_2, snap_2}
use tr_infer.Cache.Tests.Stores.{stocked, stocked-IsValid}
use tr_infer.Cache.Tests.Backends.{nothing}

take_round_lem_example :
    TakeOutcome 5000 0 (new_staging 16384) (take_round 5000 (new_staging 16384))
unfolding new_staging new
take_round_lem_example =
    take_round_lem 5000 0 (new_staging 16384) (new_staging-Accounted 16384) (omega arith)
      (omega arith)

take_round-give_all_example :
    (needed 9000 ≤ 8192
      → (s' : Staging) × (b : AlignedBuf) × (take_round 9000 (give_all [] (new_staging 8192))
          ≡ some (s', some b))
        × (b.len ≡ 9000))
    × (8192 < needed 9000
        → (s' : Staging) × (take_round 9000 (give_all [] (new_staging 8192)) ≡ some (s', none)))
unfolding new_staging new
take_round-give_all_example =
    take_round-give_all 9000 [] (new_staging 8192) (new_staging-Accounted 8192) tt (omega arith)
      (omega arith)

-- A prompt of two tokens with an image at its first row.
abbrev ids : List ℕ
ids = 7 ∷ 8 ∷ []

abbrev image : List Image
image = record { first = 0; content = 99; rows = 1 } ∷ []

extend_keys-prefix_keys_example :
    extend_keys (prefix_keys (key 1) ids image) (9 ∷ [])
    ≡ some (prefix_keys (key 1) (ids ++ 9 ∷ []) image)
extend_keys-prefix_keys_example =
    extend_keys-prefix_keys (key 1) ids (9 ∷ []) image (omega arith, tt)

abbrev settings : Settings
settings = record {
  root = key 1;
  chunk_len = 4;
  policy = message;
  min_tokens = 1;
  roles = default_policies;
}

abbrev spans : List Span
spans =
    record { start = 0; stop = 1; role = system } ∷ record { start = 1; stop = 2; role = user } ∷ []

snapshot_points_lem_example : Stops settings spans 0 2 (snapshot_points settings spans 0 2)
snapshot_points_lem_example = snapshot_points_lem settings spans 0 2

-- A model whose state is a number for each row that it has imported.
abbrev toy : Engine ℕ
toy = record {
  State = List ℕ;
  rows_bytes = λ m a b. 50 * (b - a);
  snapshot_bytes = λ m n. n + 3;
  import_rows = λ a b body m. m ++ take (b - a) body;
  import_snapshot = λ body m.
      (m, some (record { n_past = length m; prev_tokens = []; rope_delta = 0; extra = [] }));
  reset = λ m. [];
}

-- The rows and the snapshot of the prompt.
abbrev stored : MemBackend
stored = record nothing {
  objects =
      (name rows_2, (rows_2, replicate 100 1)) ∷ (name snap_2, (snap_2, replicate 100 2)) ∷ [];
}

-- The position that a restore returns.
abbrev returned : {A : Type 0} → Option (A × Option (Restored ℕ)) → ℕ
returned none = 0
returned (some (w, none)) = 0
returned (some (w, some r)) = r.pos

restore_test :
    returned (
      restore memory toy
        (λ i. 60)
        (λ i. 60)
        (λ i. 60)
        ids
        (key 1 ∷ key 3 ∷ key 2 ∷ [])
        []
        (stocked, stored))
    ≡ 2
unfolding restore choose best_restore restore_plan restore_rows read slice delete_each insert_entry
    Assoc.insert lookup erase ObjectId-discrete ℕ_discrete PrefixKey-discrete bytes-discrete
    Memory.get object_name
restore_test = refl

restore_lem_example :
    RestoreOutcome memory toy
      (λ i. 60)
      (λ i. 60)
      (λ i. 60)
      ids
      (key 1 ∷ key 3 ∷ key 2 ∷ [])
      []
      stocked
      stored
      (restore memory toy
        (λ i. 60)
        (λ i. 60)
        (λ i. 60)
        ids
        (key 1 ∷ key 3 ∷ key 2 ∷ [])
        []
        (stocked, stored))
restore_lem_example =
    restore_lem memory toy (λ i. 60) (λ i. 60) (λ i. 60) ids (key 1 ∷ key 3 ∷ key 2 ∷ []) [] stocked
      stored refl

abbrev exports : Exports ℕ
exports = record {
  rows_bytes = λ a b. b;
  snapshot_bytes = λ n. n + 3;
  export_rows = λ a b. a ∷ b ∷ [];
  export_snapshot = λ l. l;
}

-- A job for a snapshot, with a buffer of one page that is lent.
abbrev page : AlignedBuf
page = record { memory = replicate 4096 1; len = 3 }

abbrev job : StagedJob
job = record { meta = record snap_2 { bytes = 3 }; body = page; flush = true }

abbrev lending : Staging
lending = record { budget = 16384; allocated = 4096; free = [] }

write_round_lem_example :
    (c' : Cache) × (s' : MemBackend) × (st' : Staging) × (write_round memory
        (λ f. ok [])
        60
        job
        stocked
        nothing
        lending
      ≡ some ((c', s'), st'))
    × IsValid c'
    × Accounted 0 st'
unfolding insert_entry lookup Assoc.insert ObjectId-discrete ℕ_discrete erase
write_round_lem_example =
    write_round_lem memory (λ f. ok []) 60 0 job stocked nothing lending stocked-IsValid
      (omega arith)
      (record {
        sum = omega (arith, length-replicate {A = ℕ} 4096 1);
        bounded = omega arith;
        whole = tt;
      })
      (
        omega (arith, length-replicate {A = ℕ} 4096 1),
        omega (arith, length-replicate {A = ℕ} 4096 1),
      )

-- The writer takes two more jobs.
abbrev busy : Conditions
busy = record {
  unlocked = λ i. true;
  has = λ i k kind. false;
  buffered = λ i. true;
  accepted = λ i. ltb i 2;
  clock = λ i. 60;
}
