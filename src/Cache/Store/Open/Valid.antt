-- ===== src/Cache/Store/Open/Valid.antt =====
-- What `open_with` of crates/tr-cache/src/cache.rs leaves in the index.
use tr_infer.Prelude.{ℕ, ◌≤◌, ◌≡◌, ◌⊎◌, Option, some, List, map, Listed, add64}
use tr_infer.Prelude.Assoc.{insert}
use tr_infer.Cache.Result.{Result, ok, err, Error}
use tr_infer.Cache.Key.{PrefixKey}
use tr_infer.Cache.Policy.{Policies}
use tr_infer.Cache.Object.{ObjectMeta, name}
use tr_infer.Cache.Backend.{Backend}
use tr_infer.Cache.Index.{ObjectId, ObjectId-discrete, Entry, tier_of, Cache, id_of, find}
use tr_infer.Cache.Index.Valid.{IsValid}
use tr_infer.Cache.Store.Flush.{IndexFile}

-- Every object of the index has one of the names.
abbrev pub IsKnown : List (List ℕ) → Cache → Type 0
IsKnown names c = (id : ObjectId) (e : Entry) → find c id ≡ some e → Listed (name e.meta) names

-- An object to be filled in: of the root, and of one of the names.
abbrev Fits : PrefixKey → List (List ℕ) → ObjectMeta → Type 0
Fits root names m = (m.root ≡ root) × Listed (name m) names

-- The entry of an insertion.
abbrev fresh : ObjectMeta → Cache → Entry
fresh m c = record { meta = m; seq = add64 c.seq 1; tier = tier_of c.policies m }

-- What an insertion changes, and what it keeps.
record Inserted (m : ObjectMeta) (c c' : Cache) : Type 0 where
  pub root : c'.root ≡ c.root
  pub policies : c'.policies ≡ c.policies
  pub budget : c'.budget ≡ c.budget
  pub seq : c'.seq ≡ add64 c.seq 1
  pub index : c'.index ≡ insert ObjectId-discrete (id_of m) (fresh m c) c.index

-- What the loop that fills the index has done.
record Filled (names : List (List ℕ)) (c c' : Cache) : Type 0 where
  pub valid : IsValid c'
  pub known : IsKnown names c'
  pub root : c'.root ≡ c.root
  pub policies : c'.policies ≡ c.policies
  pub budget : c'.budget ≡ c.budget

-- The open cache: a valid index that fits the budget, of objects that the backend listed.
pub record Opened (root : PrefixKey) (budget : ℕ) (policies : Policies) (metas : List ObjectMeta)
    (c : Cache) : Type 0 where
  pub valid : IsValid c
  pub fits : c.used ≤ c.budget
  pub rooted : c.root ≡ root
  pub policed : c.policies ≡ policies
  pub bounded : c.budget ≡ budget
  pub known : IsKnown (map name metas) c

module _ (be : Backend) (from_json : List ℕ → Option IndexFile) where
  -- Every outcome of `open_with`: an error, or a cache of what the backend has listed.
  abbrev pub OpenOutcome :
      PrefixKey → ℕ → Policies → be.State → Option (be.State × Result Cache) → Type 0
  OpenOutcome root budget policies s r =
      (s' : be.State) × (((e : Error) × (r ≡ some (s', err e)))
        ⊎ ((c : Cache) × (metas : List ObjectMeta) × (r ≡ some (s', ok c))
            × ((be.list (be.get_index s).0).1 ≡ ok metas)
            × Opened root budget policies metas c))
