-- ===== src/Cache/Tests/Backends.antt =====
-- A small store over the backend in memory.
use tr_infer.Prelude.{ℕ, ℕ_discrete, ◌≡◌, ◌≢◌, refl, false, none, List, [], ◌∷◌, arith}
use tr_infer.Prelude.Assoc
use tr_infer.Prelude.Assoc.{lookup, remove as erase}
use tr_infer.Cache.Result.{ok}
use tr_infer.Cache.Object.{snap, name}
use tr_infer.Cache.Index.{ObjectId-discrete, insert_entry}
use tr_infer.Cache.Index.Valid.{IsValid}
use tr_infer.Cache.Backend.Memory
use tr_infer.Cache.Backend.Memory.{MemBackend, memory, get-put, get-delete}
use tr_infer.Cache.Store.Backed
use tr_infer.Cache.Store.Backed.{GetOutcome, get_lem}
use tr_infer.Cache.Tests.Keys.{key, snap_2}
use tr_infer.Cache.Tests.Stores.{stocked, stocked-IsValid}

abbrev pub nothing : MemBackend
nothing = record { objects = []; index = none; fail_next_put = false }

-- Three bytes to store.
abbrev body : List ℕ
body = 1 ∷ 2 ∷ 3 ∷ []

get-put_example :
    ((Memory.put nothing (record snap_2 { bytes = 3 }) body).1 ≡ ok tt)
    × ((Memory.get (Memory.put nothing (record snap_2 { bytes = 3 }) body).0 (name snap_2) 3).1
        ≡ ok (record snap_2 { bytes = 3 }, body))
    × ((other : List ℕ) (n : ℕ)
        → name snap_2 ≢ other
        → (Memory.get (Memory.put nothing (record snap_2 { bytes = 3 }) body).0 other n).1
          ≡ (Memory.get nothing other n).1)
get-put_example = get-put nothing (record snap_2 { bytes = 3 }) body refl refl

-- The backend has lost the object.
get_lem_example :
    IsValid (Backed.get memory 60 (key 2) snap 100 stocked nothing).0
    × GetOutcome memory 60
        (key 2)
        snap
        100
        stocked
        nothing
        (Backed.get memory 60 (key 2) snap 100 stocked nothing)
unfolding insert_entry lookup Assoc.insert ObjectId-discrete ℕ_discrete erase
get_lem_example = get_lem memory 60 (key 2) snap 100 stocked nothing stocked-IsValid (omega arith)

-- A backend with one object, and no index file.
abbrev one_object : MemBackend
one_object = record nothing { objects = (name snap_2, (record snap_2 { bytes = 3 }, body)) ∷ [] }
