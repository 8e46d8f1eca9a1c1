-- ===== src/Cache/Tests/Stores.antt =====
-- A small store, and the operations on it.
use tr_infer.Prelude.{
  ℕ, ℕ_discrete, ◌≡◌, refl, if◌then◌else◌, true, false, Option, none, some, List, [], ◌∷◌, arith,
  All,
}
use tr_infer.Prelude.Assoc
use tr_infer.Prelude.Assoc.{lookup, remove as erase}
use tr_infer.Prelude.BTree
use tr_infer.Cache.Policy.{policy_of, default_policy, default_policies}
use tr_infer.Cache.Key.{PrefixKey-discrete}
use tr_infer.Cache.Object.{rows, snap, Kind-discrete, footprint, name}
use tr_infer.Cache.Index.{
  ObjectId, ObjectId-discrete, Slot, Slot-discrete, Cache, less, find, take_out, evict_to_budget,
  insert_entry, expire_idle,
}
use tr_infer.Cache.Index.Stats.{Within, Known, Used, is_rows, is_snap, number, stats, stats_lem}
use tr_infer.Cache.Index.Valid.{IsValid}
use tr_infer.Cache.Index.Valid.Steps.{insert_entry-IsValid}
use tr_infer.Cache.Index.Valid.Expire.{SameFrame, idle_at, expire_idle_exact}
use tr_infer.Cache.Index.Valid.Evict.{Evicted, evict_to_budget_lem}
use tr_infer.Cache.Result.{Result}
use tr_infer.Cache.Store.{insert}
use tr_infer.Cache.Store.Insert.{InsertOutcome, insert_lem}
use tr_infer.Cache.Tests.Keys.{key, rows_2, snap_2}

abbrev pub empty : Cache
empty = record {
  root = key 1;
  index = [];
  lru = [];
  policies = default_policies;
  seq = 0;
  used = 0;
  budget = 10000;
  dirty = false;
  pending_delete = [];
  report = record { objects = 0; bytes = 0; dropped_foreign = 0; index_loaded = false };
  hits = 0;
  misses = 0;
  evicted = 0;
  expired = 0;
}

empty-IsValid : IsValid empty
unfolding lookup
empty-IsValid = record {
  mirror = record { unique = tt; sorted = tt; listed = λ id e h. cc; indexed = λ s id h. cc };
  entries = λ id e h. cc;
  counted = refl;
}

abbrev pub stocked : Cache
stocked = insert_entry snap_2 (insert_entry rows_2 empty)

pub stocked-IsValid : IsValid stocked
unfolding insert_entry lookup
stocked-IsValid =
    insert_entry-IsValid snap_2 (insert_entry rows_2 empty)
      (insert_entry-IsValid rows_2 empty empty-IsValid (omega arith) refl) (omega arith) refl

evict_to_budget_example :
    (out : List (List ℕ)) × (c' : Cache) × (evict_to_budget stocked ≡ some (out, c'))
    × (gone : List (Slot × ObjectId)) × Evicted stocked gone out c'
evict_to_budget_example = evict_to_budget_lem stocked stocked-IsValid

abbrev pub crowded : Cache
crowded = record stocked { budget = 9000 }

crowded-IsValid : IsValid crowded
crowded-IsValid = stocked-IsValid

abbrev left : Cache
left = record crowded {
  index = (record { key = key 2; kind = snap }, record { meta = snap_2; seq = 2; tier = 5 }) ∷ [];
  lru = (record { tier = 5; seq = 2 }, record { key = key 2; kind = snap }) ∷ [];
  used = 8192;
  dirty = true;
  evicted = 1;
}

-- The names that a call returns.
abbrev names : Option (List (List ℕ) × Cache) → Option (List (List ℕ))
names none = none
names (some (out, c)) = some out

-- Only the older of the two objects has to go.
evict_to_budget_test : names (evict_to_budget crowded) ≡ some (name rows_2 ∷ [])
unfolding evict_to_budget take_out lookup insert_entry Assoc.insert erase BTree.insert less
    ObjectId-discrete Slot-discrete PrefixKey-discrete Kind-discrete ℕ_discrete footprint policy_of
evict_to_budget_test = refl

-- A store whose user objects expire after 100 seconds.
abbrev timed : Cache
timed = record empty {
  policies = record default_policies { for_user = record default_policy { ttl = some 100 } };
}

abbrev timed_stock : Cache
timed_stock = insert_entry snap_2 (insert_entry rows_2 timed)

timed_stock-IsValid : IsValid timed_stock
unfolding insert_entry lookup
timed_stock-IsValid =
    insert_entry-IsValid snap_2 (insert_entry rows_2 timed)
      (insert_entry-IsValid rows_2 timed
        (record {
          mirror = record {
            unique = tt;
            sorted = tt;
            listed = λ id e h. cc;
            indexed = λ s id h. cc;
          };
          entries = λ id e h. cc;
          counted = refl;
        })
        (omega arith) refl)
      (omega arith) refl

expire_idle_exact_example :
    IsValid (expire_idle 160 timed_stock).1
    × ((id : ObjectId)
        → find (expire_idle 160 timed_stock).1 id ≡ (
            if idle_at 160 timed_stock.policies (find timed_stock id)
            then none
            else find timed_stock id))
    × SameFrame timed_stock (expire_idle 160 timed_stock).1
expire_idle_exact_example = expire_idle_exact 160 timed_stock timed_stock-IsValid

abbrev pub rows_id : ObjectId
rows_id = record { key = key 2; kind = rows }

insert_lem_example :
    (c' : Cache) × (r : Result (List (List ℕ))) × (insert 60 snap_2 crowded ≡ some (c', r))
    × IsValid c'
    × InsertOutcome 60 snap_2 crowded c' r
unfolding insert_entry lookup Assoc.insert ObjectId-discrete ℕ_discrete erase
insert_lem_example = insert_lem 60 snap_2 crowded crowded-IsValid (omega arith)

stats_lem_example :
    ((stats stocked).row_count ≡ number is_rows stocked.index)
    × ((stats stocked).snapshots ≡ number is_snap stocked.index)
    × All
        (λ x. Within x.1.meta.last_used (stats stocked).oldest (stats stocked).newest)
        stocked.index
    × Known (Used stocked.index) (stats stocked).oldest
    × Known (Used stocked.index) (stats stocked).newest
unfolding insert_entry Assoc.insert erase lookup ObjectId-discrete ℕ_discrete
stats_lem_example = stats_lem stocked (omega arith)
