-- ===== src/Server/Save/Jobs.antt =====
-- crates/tr-infer/src/server/prefix_cache.rs: what `save` hands to the writer can be restored.
use tr_infer.Prelude.{
  ℕ, suc, ◌-◌, ◌≤◌, ◌<◌, ◌≡◌, ◌⊎◌, inl, inr, refl, Bool, true, false, Option, some, List, [], ◌∷◌,
  length, take, drop, get_elem?, get_elem?-lt, leb, ltb, ◌==◌, if_pos, All, Listed, Bool-cases,
  arith, u64_mod, sub64, length-take, length-drop,
}
use tr_infer.Cache.Result.{ok}
use tr_infer.Cache.Role.{Span}
use tr_infer.Cache.Key.{PrefixKey, PrefixKey-discrete}
use tr_infer.Cache.Object.{Kind, rows, format_version, ObjectMeta, rows_meta, validate}
use tr_infer.Cache.Restore.{linked, entry_link}
use tr_infer.Server.Prefix.{Settings}
use tr_infer.Server.Restore.{slice}
use tr_infer.Server.Save.{WriteJob, Exports, rows_job, save_chunks}

-- A chunk of the text.
abbrev pub Within : List ℕ → Span → Type 0
Within toks ch = (ch.start < ch.stop) × (ch.stop ≤ length toks)

-- A job with an object that the writer accepts, and that a later restore of the text follows.
pub record IsRowsJob (root : PrefixKey) (keys : List PrefixKey) (toks : List ℕ) (j : WriteJob)
    : Type 0 where
  pub valid : validate j.meta ≡ ok tt
  pub rooted : j.meta.root ≡ root
  pub kind : j.meta.kind ≡ rows
  pub keyed : get_elem? keys j.meta.stop ≡ some j.meta.key
  pub tokens : slice toks j.meta.start j.meta.stop ≡ some j.meta.tokens
  pub links :
      (seq tier : ℕ)
      → entry_link keys j.meta.stop (some (record { meta = j.meta; seq = seq; tier = tier }))
        ≡ linked j.meta

module _ {F : Type 0} (ex : Exports F) (o : Settings) (keys : List PrefixKey) (toks : List ℕ)
    (sized : length keys ≡ suc (length toks)) (bounded : length toks < u64_mod) where
  -- The job of a chunk.
  abbrev JobOf : Span → Option WriteJob → Type 0
  JobOf ch r =
      (j : WriteJob) × (r ≡ some j)
      × (j.meta.start ≡ ch.start)
      × (j.meta.stop ≡ ch.stop)
      × IsRowsJob o.root keys toks j

  pub rows_job_lem :
      (now : ℕ) (flush : Bool) (ch : Span)
      → Within toks ch
      → JobOf ch (rows_job ex o now flush keys toks ch)
  unfolding rows_job rows_meta slice validate
  rows_job_lem now flush ch h =
      let (key, at_stop) = get_elem?-lt keys ch.stop (omega (arith, h.1)) in
      let (parent, at_start) = get_elem?-lt keys ch.start (omega (arith, h.0, h.1)) in
      let a : leb ch.start ch.stop ≡ true = let k = h.0 in ground arith in
      let b : leb ch.stop (length toks) ≡ true = let k = h.1 in ground arith in
      let tokens = take (ch.stop - ch.start) (drop ch.start toks) in
      let size : length tokens ≡ ch.stop - ch.start = omega (
        arith,
        h.0,
        h.1,
        length-take {A = ℕ} (ch.stop - ch.start) (drop ch.start toks),
        length-drop {A = ℕ} ch.start toks,
      ) in
      let whole : (length tokens == sub64 ch.stop ch.start) ≡ true =
        let k : length tokens ≡ sub64 ch.stop ch.start = omega (arith, h.0, h.1) in ground arith in
      let inverted : ltb ch.stop ch.start ≡ false = let k = h.0 in ground arith in
      let count : (length tokens == ch.stop - ch.start) ≡ true = ground arith in
      let self : (ch.stop == ch.stop) ≡ true = ground arith in
      let before : ltb ch.start ch.stop ≡ true = let k = h.0 in ground arith in
      let meta : ObjectMeta = record {
        format = format_version;
        root = o.root;
        kind = rows;
        key = key;
        parent = parent;
        start = ch.start;
        stop = ch.stop;
        role = some ch.role;
        tokens = tokens;
        bytes = ex.rows_bytes ch.start ch.stop;
        last_used = now;
      } in
      (
        record { meta = meta; body = ex.export_rows ch.start ch.stop; flush = flush },
        rw (at_stop, rows_job, at_start, a, b, whole),
        refl,
        refl,
        record {
          valid = rw (inverted, count);
          rooted = refl;
          kind = refl;
          keyed = at_stop;
          tokens = rw (slice, a, b);
          links = λ seq tier.
              rw (self, before, at_start, if_pos (PrefixKey-discrete parent parent) refl);
        },
      )

  -- The chunk is stored already, or is among the jobs.
  abbrev pub Answered : (ℕ → PrefixKey → Kind → Bool) → ℕ → List Span → List WriteJob → Type 0
  Answered has i [] jobs = Unit
  Answered has i (ch ∷ chunks) jobs =
      (((key : PrefixKey) × (get_elem? keys ch.stop ≡ some key) × (has i key rows ≡ true))
        ⊎ ((j : WriteJob) × Listed j jobs × (j.meta.start ≡ ch.start) × (j.meta.stop ≡ ch.stop)))
      × Answered has (suc i) chunks jobs

  pub Answered-cons :
      (has : ℕ → PrefixKey → Kind → Bool) (i : ℕ) (chunks : List Span) (j : WriteJob)
      (jobs : List WriteJob)
      → Answered has i chunks jobs
      → Answered has i chunks (j ∷ jobs)
  Answered-cons has i [] j jobs h = tt
  Answered-cons has i (ch ∷ chunks) j jobs h = (
    elim h.0 [ inl stored ↦ inl stored | inr (x, l, a, b) ↦ inr (x, inr l, a, b) ],
    Answered-cons has (suc i) chunks j jobs h.1,
  )

  -- The loop of `save` over chunks of the text never panics. Each chunk is stored already when the
  -- loop asks for it, or gets a job; and the object of a job is one that the writer accepts, holds
  -- the tokens of the text under the keys of the text, and is a link of the chain that a restore
  -- follows.
  pub save_chunks_lem :
      (has : ℕ → PrefixKey → Kind → Bool) (clock : ℕ → ℕ) (last i : ℕ) (chunks : List Span)
      → All (Within toks) chunks
      → (jobs : List WriteJob) × (save_chunks ex o has clock keys toks last i chunks ≡ some jobs)
        × All (IsRowsJob o.root keys toks) jobs
        × Answered has i chunks jobs
  unfolding save_chunks
  save_chunks_lem has clock last i [] h = ([], refl, tt, tt)
  save_chunks_lem has clock last i (ch ∷ chunks) h =
      let (key, at_stop) = get_elem?-lt keys ch.stop (let k = h.0.1 in omega arith) in
      let (jobs, e, good, answered) = save_chunks_lem has clock last (suc i) chunks h.1 in
      elim (Bool-cases (has i key rows)) [
        | inl t ↦ (jobs, rw (at_stop, save_chunks, t) e, good, (inl (key, at_stop, t), answered))
        | inr f ↦
            let (j, made, start, stop, job) = rows_job_lem (clock i) (i == last) ch h.0 in
            (
              j ∷ jobs,
              rw (at_stop, save_chunks, f, made, e),
              (job, good),
              (inr (j, inl refl, start, stop), Answered-cons has (suc i) chunks j jobs answered),
            )
      ]
