-- ===== src/Server/Ready/Reachable.antt =====
-- crates/tr-infer/src/server/prefix_cache.rs: `save_ready` sends no snapshot that is unreachable.
use tr_infer.Prelude.{
  ℕ, suc, ◌<◌, ◌≡◌, ◌⊎◌, Bool, true, Option, some, List, [], ◌∷◌, ◌++◌, length, All, select,
  u64_mod,
}
use tr_infer.Cache.Role.{Span, chunk_spans}
use tr_infer.Cache.Key.{PrefixKey}
use tr_infer.Server.Prefix.{Settings, persist_cut}
use tr_infer.Server.Save.{WriteJob, Exports, is_saved}
use tr_infer.Server.Save.Jobs.{IsRowsJob, Answered}
use tr_infer.Server.Save.Complete.{IsEndJob}
use tr_infer.Server.Ready.{Conditions, Sent}

module _ {F : Type 0} (ex : Exports F) (o : Settings) (w : Conditions) (keys : List PrefixKey)
    (toks : List ℕ) (sized : length keys ≡ suc (length toks))
    (bounded : length toks < u64_mod) where
  -- The jobs are good, and if the function goes on, all chunks are stored or among them.
  abbrev ChunksOutcome : ℕ → List Span → Sent → Type 0
  ChunksOutcome i chunks r =
      (jobs : List WriteJob) × (go : Bool) × (r ≡ some (jobs, go))
      × All (IsRowsJob o.root keys toks) jobs
      × (go ≡ true → Answered ex o keys toks sized bounded w.has i chunks jobs)

  abbrev EndOutcome : Sent → Type 0
  EndOutcome r =
      (jobs : List WriteJob) × (go : Bool) × (r ≡ some (jobs, go))
      × ((jobs ≡ []) ⊎ ((j : WriteJob) × (jobs ≡ j ∷ []) × IsEndJob o.root keys (length toks) j))

  -- The jobs that were sent: those of chunks, and perhaps one of the snapshot.
  abbrev pub ReadyOutcome : List Span → Option (List WriteJob) → Type 0
  ReadyOutcome spans r =
      (chunks : List Span) × (chunk_jobs : List WriteJob) × (end_jobs : List WriteJob)
      × (chunk_spans spans 0 o.chunk_len ≡ some chunks)
      × (r ≡ some (chunk_jobs ++ end_jobs))
      × All (IsRowsJob o.root keys toks) chunk_jobs
      × ((end_jobs ≡ [])
          ⊎ ((j : WriteJob) × (end_jobs ≡ j ∷ [])
              × IsEndJob o.root keys (length toks) j
              × Answered ex o keys toks sized bounded w.has 0
                  (select (is_saved (length toks) (persist_cut o spans)) chunks) chunk_jobs))
