-- ===== src/Server/Ready.antt =====
-- crates/tr-infer/src/server/prefix_cache.rs: `save_ready`, which never waits: it gives up when the
-- index is held, when no buffer is free, or when the writer takes no more jobs. What it meets at
-- each step is an argument.
pub mod Reachable
use tr_infer.Prelude.{
  ℕ, suc, ◌+◌, ◌<◌, Bool, true, false, ◌||◌, Option, none, some, List, [], ◌∷◌, ◌++◌, length,
  get_elem?, select, ltb, ◌==◌, if◌then◌else◌,
}
use tr_infer.Cache.Role.{Span, chunk_spans}
use tr_infer.Cache.Key.{PrefixKey}
use tr_infer.Cache.Object.{Kind, rows, snap}
use tr_infer.Server.Prefix.{Settings, persist_cut}
use tr_infer.Server.Save.{WriteJob, Exports, rows_job, is_saved, end_role, snapshot_job}

-- What the steps, which are numbered, meet: whether the lock of the index is free, the answer of the
-- index, whether there is a buffer, whether the channel takes the job, and the time.
pub record Conditions : Type 0 where
  pub unlocked : ℕ → Bool
  pub has : ℕ → PrefixKey → Kind → Bool
  pub buffered : ℕ → Bool
  pub accepted : ℕ → Bool
  pub clock : ℕ → ℕ

-- The jobs that were sent, and whether the function goes on.
abbrev pub Sent : Type 0
Sent = Option (List WriteJob × Bool)

abbrev pub sent_before : WriteJob → Sent → Sent
sent_before j none = none
sent_before j (some (jobs, go)) = some (j ∷ jobs, go)

module _ {F : Type 0} (ex : Exports F) (o : Settings) (w : Conditions) where
  -- `try_send`, which gives the buffer back when it fails.
  abbrev pub try_send : ℕ → WriteJob → Sent → Sent
  try_send i j rest = if w.accepted i then sent_before j rest else some ([], false)

  -- The loop over the chunks; `none` is a panic, here and below.
  unfoldable pub ready_chunks : List PrefixKey → List ℕ → ℕ → List Span → Sent
  unfolding rows_job
  ready_chunks keys toks i [] = some ([], true)
  ready_chunks keys toks i (ch ∷ chunks) =
      let rest = ready_chunks keys toks (suc i) chunks in
      if w.unlocked i
      then elim (get_elem? keys ch.stop) [
        | none ↦ none
        | some key ↦
            if w.has i key rows
            then rest
            else if w.buffered i
            then elim (rows_job ex o (w.clock i) true keys toks ch) [
              | none ↦ none
              | some j ↦ try_send i j rest
            ]
            else some ([], false)
      ]
      else some ([], false)

  -- The snapshot.
  unfoldable pub ready_snapshot : List PrefixKey → ℕ → List Span → List F → (cut i : ℕ) → Sent
  unfolding end_role
  ready_snapshot keys n spans logits cut i =
      if (n == 0) || ltb cut n
      then some ([], false)
      else if w.unlocked i
      then elim (get_elem? keys n) [
        | none ↦ none
        | some key ↦
            if w.has i key snap
            then some ([], false)
            else if w.buffered i
            then try_send i (snapshot_job ex o (w.clock i) key n (end_role n none spans) logits)
                (some ([], true))
            else some ([], false)
      ]
      else some ([], false)

  abbrev and_then : Sent → Sent → Option (List WriteJob)
  and_then none next = none
  and_then (some (jobs, false)) next = some jobs
  and_then (some (jobs, true)) none = none
  and_then (some (jobs, true)) (some (more, go)) = some (jobs ++ more)

  ready_parts : List ℕ → List PrefixKey → List Span → List F → List Span → Option (List WriteJob)
  unfolding ready_chunks ready_snapshot persist_cut
  ready_parts toks keys spans logits chunks =
      let n = length toks in
      let cut = persist_cut o spans in
      let kept = select (is_saved n cut) chunks in
      and_then (ready_chunks keys toks 0 kept)
        (ready_snapshot keys n spans logits cut (length kept))

  -- `save_ready`, for a model at the position behind the tokens.
  unfoldable pub save_ready : List ℕ → List PrefixKey → List Span → List F → Option (List WriteJob)
  unfolding ready_parts chunk_spans
  save_ready toks keys spans logits = elim (chunk_spans spans 0 o.chunk_len) [
    | none ↦ none
    | some chunks ↦ ready_parts toks keys spans logits chunks
  ]
