-- ===== src/Cache/Store.antt =====
-- crates/tr-cache/src/cache.rs: the operations of `Cache` that use the backend, and `insert`.
-- The backend and the JSON of the index file are parameters.
pub mod Insert
pub mod Backed
pub mod Open
pub mod Flush
use tr_infer.Prelude.{
  ℕ, zero, suc, ◌+◌, Bool, true, false, ◌&&◌, ◌||◌, Option, none, some, List, [], ◌∷◌, ◌++◌, length,
  ltb, ◌==◌, min, max, if◌then◌else◌, ite, ℕ_discrete, map, any,
}
use tr_infer.Prelude.Assoc.{lookup, insert as update}
use tr_infer.Prelude.Sort.{sort}
use tr_infer.Cache.Result.{Result, ok, err, Error, not_indexed, ◌>>=◌, ◌>>◌}
use tr_infer.Cache.Key.{PrefixKey, PrefixKey-discrete}
use tr_infer.Cache.Policy.{Policies, default_policies}
use tr_infer.Cache.Object.{Kind, rows, snap, ObjectMeta, name, object_name, format_version}
use tr_infer.Cache.Backend.{Backend}
use tr_infer.Cache.Index.{
  ObjectId, ObjectId-discrete, Entry, Cache, OpenReport, id_of, find, is_some, has, insert_entry,
  touch, take_out, remove, forget, expire_idle, evict_to_budget, check,
}

-- The end of `insert`: what waits for deletion, what has expired, what does not fit.
gather :
    List (List ℕ)
    → List (List ℕ)
    → Option (List (List ℕ) × Cache)
    → Option (Cache × Result (List (List ℕ)))
gather pending expired none = none
gather pending expired (some (out, c)) = some (c, ok (pending ++ (expired ++ out)))

unfoldable pub insert_new : ℕ → ObjectMeta → Cache → Option (Cache × Result (List (List ℕ)))
unfolding gather
insert_new now m c =
    let c1 = record (insert_entry m c) { dirty = true; pending_delete = [] } in
    let (expired, c2) = expire_idle now c1 in gather c.pending_delete expired (evict_to_budget c2)

checked_insert :
    ℕ → ObjectMeta → Cache → Result (Unit {0}) → Option (Cache × Result (List (List ℕ)))
unfolding insert_new
checked_insert now m c (err e) = some (c, err e)
checked_insert now m c (ok u) = insert_new now m c

-- `insert`; `none` is a loop that does not end.
unfoldable pub insert : ℕ → ObjectMeta → Cache → Option (Cache × Result (List (List ℕ)))
unfolding checked_insert
insert now m c =
    if is_some (find c (id_of m))
    then some (record (touch now (id_of m) c) { pending_delete = [] }, ok c.pending_delete)
    else checked_insert now m c (check c m)
