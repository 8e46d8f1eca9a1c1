-- ===== src/Cache/Store/Flush.antt =====
-- crates/tr-cache/src/cache.rs: the index file, `flush` and `clear`. `serde_json` writes the file.
use tr_infer.Prelude.{
  ℕ, Bool, false, Option, none, some, List, [], ◌∷◌, ltb, map, if◌then◌else◌, Bool-cases, inl, inr,
  subst, sym, ap,
}
use tr_infer.Prelude.Sort.{sort}
use tr_infer.Cache.Result.{Result, ok, err}
use tr_infer.Cache.Key.{PrefixKey}
use tr_infer.Cache.Object.{ObjectMeta, name, format_version}
use tr_infer.Cache.Backend.{Backend}
use tr_infer.Cache.Index.{ObjectId, Entry, Cache, remove}
use tr_infer.Cache.Index.Valid.{IsValid}
use tr_infer.Cache.Store.Backed.{delete_all}

-- `(name, last_used, seq)`
pub record Row : Type 0 where
  pub object : List ℕ
  pub last_used : ℕ
  pub seq : ℕ

pub record IndexFile : Type 0 where
  pub format : ℕ
  pub root : PrefixKey
  pub objects : List Row

abbrev row_of : ObjectId × Entry → Row
row_of (id, e) = record { object = name e.meta; last_used = e.meta.last_used; seq = e.seq }

-- `sort_by_key(|o| o.2)`
abbrev by_seq : Row → Row → Bool
by_seq a b = ltb a.seq b.seq

unfoldable pub index_file : Cache → IndexFile
index_file c = record {
  format = format_version;
  root = c.root;
  objects = sort by_seq (map row_of c.index);
}

abbrev with_name : Option ObjectMeta → List (List ℕ) → List (List ℕ)
with_name none names = names
with_name (some m) names = name m ∷ names

-- The removals of `clear`, in the order of the keys: the names of what was removed.
unfoldable pub remove_all : List ObjectId → Cache → List (List ℕ) × Cache
unfolding remove
remove_all [] c = ([], c)
remove_all (id ∷ ids) c =
    let (m, c') = remove id c in let (names, c'') = remove_all ids c' in (with_name m names, c'')

module _ (be : Backend) (to_json : IndexFile → Result (List ℕ)) where
  written : Cache → be.State × Result (Unit {0}) → Cache × be.State × Result (Unit {0})
  written c (s, err e) = (c, s, err e)
  written c (s, ok u) = (record c { dirty = false }, s, ok tt)

  encoded : Cache → be.State → Result (List ℕ) → Cache × be.State × Result (Unit {0})
  unfolding written
  encoded c s (err e) = (c, s, err e)
  encoded c s (ok json) = written c (be.put_index s json)

  unfoldable pub flush : Cache → be.State → Cache × be.State × Result (Unit {0})
  unfolding encoded
  flush c s = if c.dirty then encoded c s (to_json (index_file c)) else (c, s, ok tt)

  flush_after : Cache → be.State × Result (Unit {0}) → Cache × be.State × Result (Unit {0})
  unfolding flush
  flush_after c (s, err e) = (c, s, err e)
  flush_after c (s, ok u) = flush c s

  unfoldable pub clear : Cache → be.State → Cache × be.State × Result (Unit {0})
  unfolding flush_after remove_all delete_all
  clear c s =
      let (names, c') = remove_all (map (λ x. x.0) c.index) c in
      flush_after c' (delete_all be s names)

  written-IsValid :
      (c : Cache) (x : be.State × Result (Unit {0})) → IsValid c → IsValid (written c x).0
  unfolding written
  written-IsValid c (s, err e) v = v
  written-IsValid c (s, ok u) v = v

  encoded-IsValid :
      (c : Cache) (s : be.State) (r : Result (List ℕ)) → IsValid c → IsValid (encoded c s r).0
  unfolding encoded
  encoded-IsValid c s (err e) v = v
  encoded-IsValid c s (ok json) v = written-IsValid c (be.put_index s json) v

  -- A flush does not change the index.
  pub flush-IsValid : (c : Cache) (s : be.State) → IsValid c → IsValid (flush c s).0
  unfolding flush
  flush-IsValid c s v = elim (Bool-cases c.dirty) [
    | inl t ↦
        subst (λ r. IsValid r.0)
          (sym (ap (λ b. if b then encoded c s (to_json (index_file c)) else (c, s, ok tt)) t))
          (encoded-IsValid c s (to_json (index_file c)) v)
    | inr f ↦
        subst (λ r. IsValid r.0)
          (sym (ap (λ b. if b then encoded c s (to_json (index_file c)) else (c, s, ok tt)) f)) v
  ]
