-- ===== src/Server/Save/Complete.antt =====
-- crates/tr-infer/src/server/prefix_cache.rs: `save` as a whole, the chunks and the snapshot.
use tr_infer.Prelude.{
  ℕ, suc, none, ◌≤◌, ◌<◌, ◌≡◌, ◌⊎◌, inl, inr, refl, ap, Bool, true, Option, some, List, [], ◌∷◌,
  ◌++◌, length, get_elem?, All, select, Bool-cases, arith, u64_mod,
}
use tr_infer.Cache.Result.{ok}
use tr_infer.Cache.Role.{Span, chunk_spans}
use tr_infer.Cache.Role.Chunks.{positions, IsChunk}
use tr_infer.Cache.Key.{PrefixKey}
use tr_infer.Cache.Object.{Kind, snap, validate}
use tr_infer.Server.Prefix.{Settings, persist_cut}
use tr_infer.Server.Save.{WriteJob, Exports, is_saved}
use tr_infer.Server.Save.Jobs.{Within, IsRowsJob, Answered}

-- The job of the snapshot at the position, after which the index is flushed.
pub record IsEndJob (root : PrefixKey) (keys : List PrefixKey) (n : ℕ) (j : WriteJob) : Type 0 where
  pub valid : validate j.meta ≡ ok tt
  pub rooted : j.meta.root ≡ root
  pub kind : j.meta.kind ≡ snap
  pub start : j.meta.start ≡ n
  pub stop : j.meta.stop ≡ n
  pub keyed : get_elem? keys n ≡ some j.meta.key
  pub flushes : j.flush ≡ true

pub select_all :
    {A : Type 0} (p : A → Bool) (xs : List A) → ((x : A) → p x ≡ true) → select p xs ≡ xs
select_all p [] h = refl
select_all p (x ∷ xs) h = rw (select, h x) (ap (◌∷◌ x) (select_all p xs h))

pub select-Within :
    (toks : List ℕ) (n cut m : ℕ) (chunks : List Span)
    → n ≤ length toks
    → All (IsChunk m) chunks
    → All (Within toks) (select (is_saved n cut) chunks)
select-Within toks n cut m [] inside h = tt
select-Within toks n cut m (c ∷ chunks) inside h =
    let rest = select-Within toks n cut m chunks inside h.1 in
    elim (Bool-cases (is_saved n cut c)) [
      | inl t ↦
          let stop : c.stop ≤ n = (let k = t in ground arith) in
          rw (select, t) ((h.0.0, omega arith), rest)
      | inr f ↦ rw (select, f) rest
    ]

module _ {F : Type 0} (ex : Exports F) (o : Settings) (keys : List PrefixKey) (toks : List ℕ)
    (sized : length keys ≡ suc (length toks)) (bounded : length toks < u64_mod) (n : ℕ)
    (inside : n ≤ length toks) where
  -- The snapshot at the position, or the reason why there is none.
  abbrev pub EndOutcome : (ℕ → PrefixKey → Kind → Bool) → ℕ → List Span → List WriteJob → Type 0
  EndOutcome has i spans jobs =
      ((jobs ≡ [])
        × ((n ≡ 0)
            ⊎ ((persist_cut o spans < n)
                ⊎ ((key : PrefixKey) × (get_elem? keys n ≡ some key) × (has i key snap ≡ true)))))
      ⊎ ((j : WriteJob) × (jobs ≡ j ∷ [])
          × (0 < n)
          × (n ≤ persist_cut o spans)
          × IsEndJob o.root keys n j)

  -- The jobs of the chunks, then that of the end.
  abbrev pub SaveOutcome :
      (ℕ → PrefixKey → Kind → Bool) → List Span → Option (List WriteJob) → Type 0
  SaveOutcome has spans r =
      (chunks : List Span) × (chunk_jobs : List WriteJob) × (end_jobs : List WriteJob)
      × (chunk_spans spans 0 o.chunk_len ≡ some chunks)
      × (positions chunks ≡ positions spans)
      × (r ≡ some (chunk_jobs ++ end_jobs))
      × All (IsRowsJob o.root keys toks) chunk_jobs
      × Answered ex o keys toks sized bounded has 0
          (select (is_saved n (persist_cut o spans)) chunks) chunk_jobs
      × EndOutcome has (length (select (is_saved n (persist_cut o spans)) chunks)) spans end_jobs

module _ {F : Type 0} (ex : Exports F) (o : Settings) (keys : List PrefixKey) (toks : List ℕ)
    (sized : length keys ≡ suc (length toks)) (bounded : length toks < u64_mod) (n : ℕ) where
  -- The model is within the text; or it is behind it, and the cut is before it or `save` panics.
  abbrev pub Saved : (ℕ → PrefixKey → Kind → Bool) → List Span → Option (List WriteJob) → Type 0
  Saved has spans r =
      ((inside : n ≤ length toks) × SaveOutcome ex o keys toks sized bounded n inside has spans r)
      ⊎ ((length toks < n) × ((persist_cut o spans < n) ⊎ (r ≡ none)))
