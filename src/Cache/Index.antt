-- ===== src/Cache/Index.antt =====
-- crates/tr-cache/src/cache.rs: the in-memory index of every object, its eviction order, and the
-- operations that work on them alone. What also uses the backend is in Store.
pub mod Mirror
pub mod Valid
pub mod Stats
use tr_infer.Prelude.{
  ℕ, zero, suc, ◌+◌, ◌-◌, Bool, true, false, ◌&&◌, ◌||◌, not, Option, none, some, List, [], ◌∷◌,
  ◌++◌, length, ltb, leb, ◌==◌, if◌then◌else◌, ite, ℕ_discrete, add64, sub64, min,
}
use tr_infer.Prelude.Assoc.{lookup, remove as erase, insert}
use tr_infer.Prelude.BTree
use tr_infer.Cache.Result.{Result, ok, err, wrong_root, ◌>>=◌, ◌>>◌, bail_if}
use tr_infer.Cache.Key.{PrefixKey, PrefixKey-discrete}
use tr_infer.Cache.Policy.{Policies, priority_max, policy_of, any_ttl}
use tr_infer.Cache.Object.{Kind, rows, snap, ObjectMeta, name, footprint, validate}

-- The key of the index: `(PrefixKey, Kind)`.
pub record ObjectId : Type 0 where
  pub key : PrefixKey
  pub kind : Kind

unfoldable pub ObjectId-discrete : Discrete ObjectId
ObjectId-discrete = hlevel ℕ_discrete

-- The key of the eviction order: `(tier, seq)`.
pub record Slot : Type 0 where
  pub tier : ℕ
  pub seq : ℕ

unfoldable pub Slot-discrete : Discrete Slot
Slot-discrete = hlevel ℕ_discrete

-- Pairs are ordered by the first component, then by the second.
unfoldable pub less : Slot → Slot → Bool
less s t = ltb s.tier t.tier || (s.tier == t.tier && ltb s.seq t.seq)

pub record Entry : Type 0 where
  pub meta : ObjectMeta
  pub seq : ℕ
  pub tier : ℕ

pub record OpenReport : Type 0 where
  pub objects : ℕ
  pub bytes : ℕ
  pub dropped_foreign : ℕ
  pub index_loaded : Bool

-- `Cache`, without its backend.
pub record Cache : Type 0 where
  pub root : PrefixKey
  pub index : List (ObjectId × Entry)
  pub lru : List (Slot × ObjectId)
  pub policies : Policies
  pub seq : ℕ
  pub used : ℕ
  pub budget : ℕ
  pub dirty : Bool
  pub pending_delete : List (List ℕ)
  pub report : OpenReport
  pub hits : ℕ
  pub misses : ℕ
  pub evicted : ℕ
  pub expired : ℕ

abbrev pub slot : Entry → Slot
slot e = record { tier = e.tier; seq = e.seq }

abbrev pub id_of : ObjectMeta → ObjectId
id_of m = record { key = m.key; kind = m.kind }

unfoldable pub find : Cache → ObjectId → Option Entry
find c id = lookup ObjectId-discrete id c.index

abbrev pub is_some : Option Entry → Bool
is_some none = false
is_some (some e) = true

-- `Cache::has`
unfoldable pub has : Cache → PrefixKey → Kind → Bool
unfolding find
has c key kind = is_some (find c (record { key = key; kind = kind }))

unfoldable pub tier_of : Policies → ObjectMeta → ℕ
tier_of p m = min (policy_of p m.role).priority priority_max

-- What `insert_entry` does about an old entry of the id.
unfoldable pub replace_old : Option Entry → Cache → Cache
replace_old none c = c
replace_old (some old) c = record c {
  used = sub64 c.used (footprint old.meta);
  lru = erase Slot-discrete (slot old) c.lru;
}

-- `insert_entry`
unfoldable pub insert_entry : ObjectMeta → Cache → Cache
unfolding replace_old find tier_of
insert_entry m c =
    let id = id_of m in
    let e : Entry = record { meta = m; seq = add64 c.seq 1; tier = tier_of c.policies m } in
    let c' = replace_old (find c id) (record c {
      seq = e.seq;
      used = add64 c.used (footprint m);
      index = insert ObjectId-discrete id e c.index;
    }) in
    record c' { lru = BTree.insert Slot-discrete less (slot e) id c'.lru }

touch_entry : ℕ → ObjectId → Option Entry → Cache → Cache
touch_entry now id none c = c
touch_entry now id (some e) c =
    let e' : Entry = record e { seq = add64 c.seq 1; meta = record (e.meta) { last_used = now } } in
    record c {
      seq = e'.seq;
      index = insert ObjectId-discrete id e' c.index;
      lru = BTree.insert Slot-discrete less (slot e') id (erase Slot-discrete (slot e) c.lru);
      dirty = true;
    }

-- `touch`, `touch_object`; `now` is the clock's reading.
unfoldable pub touch : ℕ → ObjectId → Cache → Cache
unfolding touch_entry find
touch now id c = touch_entry now id (find c id) c

-- The state after `remove` found an entry.
unfoldable pub take_out : ObjectId → Entry → Cache → Cache
take_out id e c = record c {
  index = erase ObjectId-discrete id c.index;
  lru = erase Slot-discrete (slot e) c.lru;
  used = sub64 c.used (footprint e.meta);
  dirty = true;
}

remove_entry : ObjectId → Option Entry → Cache → Option ObjectMeta × Cache
unfolding take_out
remove_entry id none c = (none, c)
remove_entry id (some e) c = (some e.meta, take_out id e c)

-- `remove`
unfoldable pub remove : ObjectId → Cache → Option ObjectMeta × Cache
unfolding remove_entry find
remove id c = remove_entry id (find c id) c

with_name : Option ObjectMeta × Cache → Option (List ℕ) × Cache
with_name (none, c) = (none, c)
with_name (some m, c) = (some (name m), c)

-- `forget`
unfoldable pub forget : PrefixKey → Kind → Cache → Option (List ℕ) × Cache
unfolding remove with_name
forget key kind c = with_name (remove (record { key = key; kind = kind }) c)

-- The filter of `expire_idle`.
unfoldable pub is_idle : ℕ → Option ℕ → ℕ → Bool
is_idle now none last_used = false
is_idle now (some ttl) last_used = ltb ttl (now - last_used)

unfoldable pub dead : ℕ → Policies → List (ObjectId × Entry) → List ObjectId
unfolding is_idle
dead now p [] = []
dead now p ((id, e) ∷ index) =
    let rest = dead now p index in
    if is_idle now (policy_of p e.meta.role).ttl e.meta.last_used then id_of e.meta ∷ rest else rest

-- One round of the loop of `expire_idle`.
expire_one : Option ObjectMeta × Cache → List (List ℕ) × Cache
expire_one (none, c) = ([], c)
expire_one (some m, c) = (name m ∷ [], record c { expired = add64 c.expired 1 })

unfoldable pub expire_step : ObjectId → Cache → List (List ℕ) × Cache
unfolding expire_one remove
expire_step id c = expire_one (remove id c)

unfoldable pub expire_all : List ObjectId → Cache → List (List ℕ) × Cache
unfolding expire_step
expire_all [] c = ([], c)
expire_all (id ∷ ids) c =
    let (out, c') = expire_step id c in let (rest, c'') = expire_all ids c' in (out ++ rest, c'')

-- `expire_idle`
unfoldable pub expire_idle : ℕ → Cache → List (List ℕ) × Cache
unfolding expire_all dead any_ttl
expire_idle now c =
    if any_ttl c.policies then expire_all (dead now c.policies c.index) c else ([], c)

-- `out.push(m.name())` before the rounds that follow.
abbrev pub push_name : List ℕ → Option (List (List ℕ) × Cache) → Option (List (List ℕ) × Cache)
push_name n none = none
push_name n (some (out, c)) = some (n ∷ out, c)

count_evicted : Cache → Cache
count_evicted c = record c { evicted = add64 c.evicted 1 }

-- The loop of `evict_to_budget`, with fuel; `none` says that the fuel ran out. A round that removes
-- nothing leaves the state as it is.
unfoldable pub evict : ℕ → Cache → Option (List (List ℕ) × Cache)
unfolding remove count_evicted
evict zero c = none
evict (suc f) c =
    if ltb c.budget c.used
    then elim c.lru [
      | [] ↦ some ([], c)
      | (s, id) ∷ rest ↦ elim (find c id) [
        | none ↦ evict f c
        | some e ↦ push_name (name e.meta) (evict f (count_evicted (take_out id e c)))
      ]
    ]
    else some ([], c)

-- `evict_to_budget`: every round takes an entry out of the order, so the fuel is enough.
unfoldable pub evict_to_budget : Cache → Option (List (List ℕ) × Cache)
unfolding evict
evict_to_budget c = evict (suc (length c.lru)) c

-- `check`
unfoldable pub check : Cache → ObjectMeta → Result (Unit {0})
check c m = ite (PrefixKey-discrete m.root c.root) (validate m) (err wrong_root)
