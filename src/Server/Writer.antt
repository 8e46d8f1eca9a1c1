-- ===== src/Server/Writer.antt =====
-- crates/tr-infer/src/server/prefix_cache.rs: one round of `writer_loop`. No other thread uses the
-- index between its steps.
use tr_infer.Prelude.{ℕ, ◌+◌, ◌≡◌, refl, Bool, true, false, Option, none, some, List}
use tr_infer.Cache.Result.{Result, ok, err}
use tr_infer.Cache.Buf.{AlignedBuf, capacity, visible}
use tr_infer.Cache.Object.{ObjectMeta}
use tr_infer.Cache.Backend.{Backend}
use tr_infer.Cache.Index.{Cache, check}
use tr_infer.Cache.Index.Valid.{IsValid}
use tr_infer.Cache.Index.Valid.Steps.{HasRoom}
use tr_infer.Cache.Store.{insert}
use tr_infer.Cache.Store.Insert.{insert_lem}
use tr_infer.Cache.Store.Backed.{delete_all}
use tr_infer.Cache.Store.Flush.{IndexFile, flush, flush-IsValid}
use tr_infer.Server.Staging.{Staging, give}
use tr_infer.Server.Staging.Buffers.{IsWhole, Accounted}
use tr_infer.Server.Staging.Progress.{give-Accounted}

-- `WriteJob` with its buffer.
pub record StagedJob : Type 0 where
  pub meta : ObjectMeta
  pub body : AlignedBuf
  pub flush : Bool

module _ (be : Backend) (to_json : IndexFile → Result (List ℕ)) where
  -- The index and the backend after the write, and its result.
  abbrev Written : Type 0
  Written = Cache × be.State × Result (Unit {0})

  with_index : Cache → be.State × Result (Unit {0}) → Written
  with_index c (s, r) = (c, s, r)

  delete_evicted : be.State → Option (Cache × Result (List (List ℕ))) → Option Written
  unfolding with_index delete_all
  delete_evicted s none = none
  delete_evicted s (some (c, err e)) = some (c, s, err e)
  delete_evicted s (some (c, ok names)) = some (with_index c (delete_all be s names))

  after_put : ℕ → ObjectMeta → Cache → be.State × Result (Unit {0}) → Option Written
  unfolding delete_evicted insert
  after_put now m c (s, err e) = some (c, s, err e)
  after_put now m c (s, ok u) = delete_evicted s (insert now m c)

  -- The closure of the round.
  unfoldable pub write : ℕ → StagedJob → Cache → be.State → Option Written
  unfolding after_put check visible
  write now j c s = elim (check c j.meta) [
    | err e ↦ some (c, s, err e)
    | ok u ↦ after_put now j.meta c (be.put s j.meta (visible j.body))
  ]

  without_result : Cache × be.State × Result (Unit {0}) → Cache × be.State
  without_result (c, s, r) = (c, s)

  flushed : Bool → Written → Cache × be.State
  unfolding flush without_result
  flushed false (c, s, r) = (c, s)
  flushed true (c, s, r) = without_result (flush be to_json c s)

  -- One round: the write, the flush, and the buffer goes back, whatever has failed. `none` is a loop
  -- that does not end.
  unfoldable pub write_round :
      ℕ → StagedJob → Cache → be.State → Staging → Option ((Cache × be.State) × Staging)
  unfolding write flushed give
  write_round now j c s st = elim (write now j c s) [
    | none ↦ none
    | some w ↦ some (flushed j.flush w, give j.body st)
  ]

  with_index-IsValid :
      (c : Cache) (x : be.State × Result (Unit {0})) → IsValid c → IsValid (with_index c x).0
  unfolding with_index
  with_index-IsValid c (s, r) v = v

  deleted-IsValid :
      (s : be.State) (c : Cache) (r : Result (List (List ℕ)))
      → IsValid c
      → (w : Written) × (delete_evicted s (some (c, r)) ≡ some w) × IsValid w.0
  unfolding delete_evicted
  deleted-IsValid s c (err e) v = ((c, s, err e), refl, v)
  deleted-IsValid s c (ok names) v =
      (with_index c (delete_all be s names), refl, with_index-IsValid c (delete_all be s names) v)

  after_put-IsValid :
      (now : ℕ) (m : ObjectMeta) (c : Cache) (x : be.State × Result (Unit {0}))
      → IsValid c
      → HasRoom c 1
      → (w : Written) × (after_put now m c x ≡ some w) × IsValid w.0
  unfolding after_put delete_evicted
  after_put-IsValid now m c (s, err e) v room = ((c, s, err e), refl, v)
  after_put-IsValid now m c (s, ok u) v room =
      let (c', r, runs, v', _) = insert_lem now m c v room in
      let (w, e, valid) = deleted-IsValid s c' r v' in (w, rw runs e, valid)

  write-IsValid :
      (now : ℕ) (j : StagedJob) (c : Cache) (s : be.State)
      → IsValid c
      → HasRoom c 1
      → (w : Written) × (write now j c s ≡ some w) × IsValid w.0
  unfolding write
  write-IsValid now j c s v room =
      elim (check c j.meta)
        as (λ r.
          (w : Written) × (elim r as (λ _. Option Written) [
            | err e ↦ some (c, s, err e)
            | ok u ↦ after_put now j.meta c (be.put s j.meta (visible j.body))
          ]
            ≡ some w)
          × IsValid w.0) [
            | err e ↦ ((c, s, err e), refl, v)
            | ok u ↦ after_put-IsValid now j.meta c (be.put s j.meta (visible j.body)) v room
          ]

  without_result-IsValid :
      (x : Cache × be.State × Result (Unit {0})) → IsValid x.0 → IsValid (without_result x).0
  unfolding without_result
  without_result-IsValid (c, s, r) v = v

  flushed-IsValid : (b : Bool) (w : Written) → IsValid w.0 → IsValid (flushed b w).0
  unfolding flushed
  flushed-IsValid false (c, s, r) v = v
  flushed-IsValid true (c, s, r) v =
      without_result-IsValid (flush be to_json c s) (flush-IsValid be to_json c s v)

  -- Whatever fails, a round of the writer ends, keeps the invariant of the index, and gives the
  -- buffer of the job back, so that its bytes are no longer lent.
  pub write_round_lem :
      (now out : ℕ) (j : StagedJob) (c : Cache) (s : be.State) (st : Staging)
      → IsValid c
      → HasRoom c 1
      → Accounted (out + capacity j.body) st
      → IsWhole j.body
      → (c' : Cache) × (s' : be.State) × (st' : Staging) × (write_round now j c s st
          ≡ some ((c', s'), st'))
        × IsValid c'
        × Accounted out st'
  unfolding write_round
  write_round_lem now out j c s st v room a whole =
      let (w, e, valid) = write-IsValid now j c s v room in
      let r = flushed j.flush w in
      (
        r.0,
        r.1,
        give j.body st,
        rw (e, write_round),
        flushed-IsValid j.flush w valid,
        give-Accounted out j.body st a whole,
      )
