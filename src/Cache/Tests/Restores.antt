-- ===== src/Cache/Tests/Restores.antt =====
-- A hit on a small store.
use tr_infer.Prelude.{ℕ, ◌+◌, ◌≡◌, refl, ℕ_discrete, Option, some, List, [], ◌∷◌, arith}
use tr_infer.Prelude.Assoc
use tr_infer.Prelude.Assoc.{lookup, remove as erase}
use tr_infer.Prelude.BTree
use tr_infer.Cache.Policy.{policy_of}
use tr_infer.Cache.Key.{PrefixKey, PrefixKey-discrete}
use tr_infer.Cache.Object.{snap, Kind-discrete, footprint}
use tr_infer.Cache.Index.{
  ObjectId-discrete, Slot-discrete, Cache, less, touch, take_out, insert_entry, expire_idle,
}
use tr_infer.Cache.Index.Valid.{IsValid}
use tr_infer.Cache.Restore.{RestorePlan, best_restore}
use tr_infer.Cache.Restore.Deepest.{Outcome, best_restore-Deepest}
use tr_infer.Cache.Restore.Valid.{best_restore-IsValid}
use tr_infer.Cache.Tests.Keys.{key, rows_2, snap_2}
use tr_infer.Cache.Tests.Stores.{stocked, stocked-IsValid, rows_id}

-- The keys of a prompt of two tokens.
abbrev prompt : List PrefixKey
prompt = key 1 ∷ key 3 ∷ key 2 ∷ []

abbrev tick : ℕ → ℕ
tick i = 60 + i

best_restore-Deepest_example :
    (plan : Option RestorePlan) × (c' : Cache) × (best_restore tick prompt stocked
      ≡ some (plan, c'))
    × Outcome tick prompt stocked c' plan
best_restore-Deepest_example = best_restore-Deepest tick prompt stocked

-- The store after the hit.
abbrev used_stock : Cache
used_stock = record (touch 62 (record { key = key 2; kind = snap }) (touch 61 rows_id stocked)) {
  hits = 1;
}

best_restore_test :
    best_restore tick prompt stocked
    ≡ some (some (record { pos = 2; snapshot = snap_2; chunks = rows_2 ∷ [] }), used_stock)
unfolding best_restore touch expire_idle take_out lookup insert_entry Assoc.insert erase
    BTree.insert less ObjectId-discrete Slot-discrete PrefixKey-discrete Kind-discrete ℕ_discrete
    footprint policy_of
best_restore_test = refl

best_restore-IsValid_example : IsValid used_stock
unfolding insert_entry lookup Assoc.insert ObjectId-discrete ℕ_discrete erase
best_restore-IsValid_example =
    best_restore-IsValid tick prompt stocked used_stock
      (some (record { pos = 2; snapshot = snap_2; chunks = rows_2 ∷ [] })) stocked-IsValid
      (omega arith) best_restore_test
