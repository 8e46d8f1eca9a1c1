-- ===== src/Server/Save.antt =====
-- crates/tr-infer/src/server/prefix_cache.rs: `save` and `snapshot_now`, what is handed to the writer
-- at the end of a request and at a snapshot point. The jobs go into a channel, in this order.
pub mod Jobs
pub mod Complete
use tr_infer.Prelude.{
  ℕ, zero, suc, ◌+◌, ◌-◌, Bool, true, false, ◌&&◌, ◌||◌, Option, none, some, List, [], ◌∷◌, ◌++◌,
  length, get_elem?, select, leb, ltb, ◌==◌, if◌then◌else◌, u64_max,
}
use tr_infer.Cache.Role.{Role, Span, chunk_spans}
use tr_infer.Cache.Key.{PrefixKey}
use tr_infer.Cache.Object.{Kind, rows, snap, ObjectMeta, rows_meta, snapshot_meta}
use tr_infer.Server.Prefix.{Settings, persist_cut}
use tr_infer.Server.Restore.{slice}

pub record WriteJob : Type 0 where
  pub meta : ObjectMeta
  pub body : List ℕ
  pub flush : Bool

-- What `Model` exports, which does not change it.
pub record Exports (F : Type 0) : Type 0 where
  pub rows_bytes : ℕ → ℕ → ℕ
  pub snapshot_bytes : ℕ → ℕ
  pub export_rows : ℕ → ℕ → List ℕ
  pub export_snapshot : List F → List ℕ

-- The role of the last span that starts before `n`.
unfoldable pub end_role : ℕ → Option Role → List Span → Option Role
end_role n r [] = r
end_role n r (s ∷ spans) =
    let here = end_role n (some s.role) spans in
    let there = end_role n r spans in if ltb s.start n then here else there

-- The filter of the chunks.
abbrev pub is_saved : ℕ → ℕ → Span → Bool
is_saved n cut s = leb s.stop n && leb s.stop cut

abbrev pub push_job : WriteJob → Option (List WriteJob) → Option (List WriteJob)
push_job j none = none
push_job j (some jobs) = some (j ∷ jobs)

module _ {F : Type 0} (ex : Exports F) (o : Settings) where
  -- The job of one chunk; `none` is a panic, here and below.
  unfoldable pub rows_job : ℕ → Bool → List PrefixKey → List ℕ → Span → Option WriteJob
  unfolding rows_meta slice
  rows_job now flush keys toks ch = elim (get_elem? keys ch.stop) [
    | none ↦ none
    | some key ↦ elim (get_elem? keys ch.start) [
      | none ↦ none
      | some parent ↦ elim (slice toks ch.start ch.stop) [
        | none ↦ none
        | some tokens ↦
            elim (rows_meta now o.root key parent ch.start ch.stop ch.role tokens
              (ex.rows_bytes ch.start ch.stop)) [
                | none ↦ none
                | some meta ↦
                    some (record {
                      meta = meta;
                      body = ex.export_rows ch.start ch.stop;
                      flush = flush;
                    })
              ]
      ]
    ]
  ]

  -- The loop over the chunks from number `i` on. The answers of the index, which the writer changes
  -- meanwhile, and the readings of the clock are numbered.
  unfoldable pub save_chunks :
      (ℕ → PrefixKey → Kind → Bool)
      → (ℕ → ℕ)
      → List PrefixKey
      → List ℕ
      → (last i : ℕ) → List Span
      → Option (List WriteJob)
  unfolding rows_job
  save_chunks has clock keys toks last i [] = some []
  save_chunks has clock keys toks last i (ch ∷ chunks) = elim (get_elem? keys ch.stop) [
    | none ↦ none
    | some key ↦
        let rest = save_chunks has clock keys toks last (suc i) chunks in
        if has i key rows then rest else elim (rows_job (clock i) (i == last) keys toks ch) [
          | none ↦ none
          | some j ↦ push_job j rest
        ]
  ]

  abbrev pub snapshot_job : ℕ → PrefixKey → ℕ → Option Role → List F → WriteJob
  snapshot_job now key pos role logits =
      let n = ex.snapshot_bytes (length logits) in
      record {
        meta = snapshot_meta now o.root key pos role n;
        body = ex.export_snapshot logits;
        flush = true;
      }

  save_snapshot :
      (ℕ → PrefixKey → Kind → Bool)
      → (ℕ → ℕ)
      → List PrefixKey
      → ℕ
      → List Span
      → List F
      → ℕ
      → ℕ
      → Option (List WriteJob)
  unfolding end_role
  save_snapshot has clock keys n spans logits cut i =
      if ltb 0 n && leb n cut
      then elim (get_elem? keys n) [
        | none ↦ none
        | some key ↦
            if has i key snap
            then some []
            else some (snapshot_job (clock i) key n (end_role n none spans) logits ∷ [])
      ]
      else some []

  abbrev pub both_jobs : Option (List WriteJob) → Option (List WriteJob) → Option (List WriteJob)
  both_jobs none m = none
  both_jobs (some l) none = none
  both_jobs (some l) (some r) = some (l ++ r)

  save_parts :
      (ℕ → PrefixKey → Kind → Bool)
      → (ℕ → ℕ)
      → ℕ
      → List ℕ
      → List PrefixKey
      → List Span
      → List F
      → List Span
      → Option (List WriteJob)
  unfolding save_chunks save_snapshot persist_cut
  save_parts has clock n toks keys spans logits chunks =
      let cut = persist_cut o spans in
      let kept = select (is_saved n cut) chunks in
      both_jobs (save_chunks has clock keys toks (length kept - 1) 0 kept)
        (save_snapshot has clock keys n spans logits cut (length kept))

  -- `save`, for a model at the position `n`, as a release build runs it: without the assertions on
  -- the lengths of the tokens and the keys.
  unfoldable pub save :
      (ℕ → PrefixKey → Kind → Bool)
      → (ℕ → ℕ)
      → ℕ
      → List ℕ
      → List PrefixKey
      → List Span
      → List F
      → Option (List WriteJob)
  unfolding save_parts chunk_spans
  save has clock n toks keys spans logits = elim (chunk_spans spans 0 o.chunk_len) [
    | none ↦ none
    | some chunks ↦ save_parts has clock n toks keys spans logits chunks
  ]

  -- `snapshot_now`: nothing when it is stored already, no job when there is no buffer.
  unfoldable pub snapshot_now :
      (has staged : Bool) → ℕ → PrefixKey → ℕ → Role → List F → Option Bool × List WriteJob
  snapshot_now true staged now key pos role logits = (none, [])
  snapshot_now false false now key pos role logits = (some false, [])
  snapshot_now false true now key pos role logits =
      let j = snapshot_job now key pos (some role) logits in
      (some true, record j { flush = false } ∷ [])
