-- ===== src/Cache/Store/Backed.antt =====
-- crates/tr-cache/src/cache.rs: the operations of `Cache` that go to the backend.
use tr_infer.Prelude.{
  ℕ, ◌≡◌, ◌≢◌, ◌⊎◌, inl, inr, refl, sym, ap, ◌∙◌, Option, none, some, List, [], ◌∷◌, if◌then◌else◌,
  if_pos, if_neg, Option-cases, subst,
}
use tr_infer.Cache.Result.{Result, ok, err, Error, not_indexed}
use tr_infer.Cache.Key.{PrefixKey}
use tr_infer.Cache.Object.{Kind, ObjectMeta, name, object_name}
use tr_infer.Cache.Backend.{Backend}
use tr_infer.Cache.Index.{
  ObjectId, ObjectId-discrete, Entry, Cache, id_of, find, is_some, has, touch, take_out, forget,
  check,
}
use tr_infer.Cache.Index.Valid.{IsValid, take_out-Holds}
use tr_infer.Cache.Index.Valid.Steps.{HasRoom, touch-IsValid}
use tr_infer.Cache.Index.Valid.Evict.{find-take_out}
use tr_infer.Cache.Store.{insert}

module _ (be : Backend) where
  -- `delete_all`: the first failure ends it.
  unfoldable pub delete_all : be.State → List (List ℕ) → be.State × Result (Unit {0})
  delete_all s [] = (s, ok tt)
  delete_all s (n ∷ names) = elim (be.delete s n).1 [
    | err e ↦ ((be.delete s n).0, err e)
    | ok u ↦ delete_all (be.delete s n).0 names
  ]

  with_backend :
      Cache → be.State × Result (Unit {0}) → Option (Cache × be.State × Result (Unit {0}))
  with_backend c (s, r) = some (c, s, r)

  delete_gone :
      be.State
      → Option (Cache × Result (List (List ℕ)))
      → Option (Cache × be.State × Result (Unit {0}))
  unfolding with_backend delete_all
  delete_gone s none = none
  delete_gone s (some (c, err e)) = some (c, s, err e)
  delete_gone s (some (c, ok names)) = with_backend c (delete_all s names)

  stored :
      ℕ
      → ObjectMeta
      → Cache
      → be.State × Result (Unit {0})
      → Option (Cache × be.State × Result (Unit {0}))
  unfolding delete_gone
  stored now m c (s, err e) = some (c, s, err e)
  stored now m c (s, ok u) = delete_gone s (insert now m c)

  checked_put :
      ℕ
      → ObjectMeta
      → List ℕ
      → Cache
      → be.State
      → Result (Unit {0})
      → Option (Cache × be.State × Result (Unit {0}))
  unfolding stored
  checked_put now m body c s (err e) = some (c, s, err e)
  checked_put now m body c s (ok u) = stored now m c (be.put s m body)

  -- `put`; `none` is a loop that does not end.
  unfoldable pub put :
      ℕ → ObjectMeta → List ℕ → Cache → be.State → Option (Cache × be.State × Result (Unit {0}))
  unfolding checked_put
  put now m body c s =
      if is_some (find c (id_of m))
      then some (touch now (id_of m) c, s, ok tt)
      else checked_put now m body c s (check c m)

  drop_object :
      Error → be.State → Option (List ℕ) × Cache → Cache × be.State × Result (ObjectMeta × List ℕ)
  drop_object e s (none, c) = (c, s, err e)
  drop_object e s (some n, c) = (c, (be.delete s n).0, err e)

  got :
      ℕ
      → PrefixKey
      → Kind
      → Cache
      → be.State × Result (ObjectMeta × List ℕ)
      → Cache × be.State × Result (ObjectMeta × List ℕ)
  unfolding drop_object
  got now key kind c (s, ok r) = (touch now (record { key = key; kind = kind }) c, s, ok r)
  got now key kind c (s, err e) = drop_object e s (forget key kind c)

  -- `get`; the body is a buffer of `n` bytes.
  unfoldable pub get :
      ℕ → PrefixKey → Kind → ℕ → Cache → be.State → Cache × be.State × Result (ObjectMeta × List ℕ)
  unfolding got
  get now key kind n c s =
      if has c key kind
      then got now key kind c (be.get s (object_name key kind) n)
      else (c, s, err not_indexed)

  -- Every outcome of `get`.
  abbrev pub GetOutcome :
      ℕ
      → PrefixKey
      → Kind
      → ℕ
      → Cache
      → be.State
      → Cache × be.State × Result (ObjectMeta × List ℕ)
      → Type 0
  GetOutcome now key kind n c s r =
      let id : ObjectId = record { key = key; kind = kind } in
      let answer = be.get s (object_name key kind) n in
      ((find c id ≡ none) × (r ≡ (c, s, err not_indexed)))
      ⊎ (((x : ObjectMeta × List ℕ) × (answer.1 ≡ ok x) × (r ≡ (touch now id c, answer.0, ok x)))
          ⊎ ((e : Error) × (c' : Cache) × (answer.1 ≡ err e)
              × (r ≡ (c', (be.delete answer.0 (object_name key kind)).0, err e))
              × (find c' id ≡ none)
              × ((j : ObjectId) → id ≢ j → find c' j ≡ find c j)))

  forget_found :
      (key : PrefixKey) (kind : Kind) (c : Cache) (e : Entry)
      → find c (record { key = key; kind = kind }) ≡ some e
      → forget key kind c ≡ (some (name e.meta), take_out (record { key = key; kind = kind }) e c)
  unfolding forget
  forget_found key kind c e h = rw h

  get_found :
      (now : ℕ) (key : PrefixKey) (kind : Kind) (n : ℕ) (c : Cache) (s : be.State) (e : Entry)
      (s' : be.State) (r : Result (ObjectMeta × List ℕ))
      → IsValid c
      → HasRoom c 1
      → find c (record { key = key; kind = kind }) ≡ some e
      → be.get s (object_name key kind) n ≡ (s', r)
      → IsValid (got now key kind c (s', r)).0
        × GetOutcome now key kind n c s (got now key kind c (s', r))
  unfolding got drop_object take_out find
  get_found now key kind n c s e s' (ok x) v room h q =
      let id : ObjectId = record { key = key; kind = kind } in
      (
        touch-IsValid now id c v room,
        inr (inl (x, ap (λ a. a.1) q, λ i. (touch now id c, (sym q i).0, ok x))),
      )
  get_found now key kind n c s e s' (err x) v room h q =
      let id : ObjectId = record { key = key; kind = kind } in
      let c' = take_out id e c in
      let keyed = (v.entries id e h).keyed in
      let named : name e.meta ≡ object_name key kind =
        ap (λ (i : ObjectId). object_name i.key i.kind) keyed in
      rw (forget_found key kind c e h) (
        take_out-Holds v id e h,
        inr (
            inr (
              x,
              c',
              ap (λ a. a.1) q,
              λ i. (c', (be.delete ((sym q i).0) (named i)).0, err x),
              find-take_out id id e c ∙ if_pos (ObjectId-discrete id id) refl none (find c id),
              λ j apart.
                  find-take_out id j e c ∙ if_neg (ObjectId-discrete id j) apart none (find c j),
            )),
      )

  get-got :
      (now : ℕ) (key : PrefixKey) (kind : Kind) (n : ℕ) (c : Cache) (s : be.State) (e : Entry)
      → find c (record { key = key; kind = kind }) ≡ some e
      → get now key kind n c s ≡ got now key kind c (be.get s (object_name key kind) n)
  unfolding get has
  get-got now key kind n c s e h = rw h

  get-absent :
      (now : ℕ) (key : PrefixKey) (kind : Kind) (n : ℕ) (c : Cache) (s : be.State)
      → find c (record { key = key; kind = kind }) ≡ none
      → get now key kind n c s ≡ (c, s, err not_indexed)
  unfolding get has
  get-absent now key kind n c s h = rw h

  -- On a valid cache with room for one more use `get` keeps the invariant. An object that is not
  -- indexed is an error and changes nothing; one that the backend reads is marked as used; one
  -- that it cannot read is dropped from the index, which else stays as it is, and deleted from the
  -- backend by its name, and the error is passed on.
  pub get_lem :
      (now : ℕ) (key : PrefixKey) (kind : Kind) (n : ℕ) (c : Cache) (s : be.State)
      → IsValid c
      → HasRoom c 1
      → IsValid (get now key kind n c s).0 × GetOutcome now key kind n c s (get now key kind n c s)
  get_lem now key kind n c s v room =
      elim (Option-cases (find c (record { key = key; kind = kind }))) [
        | inl h ↦
            let misses = get-absent now key kind n c s h in
            (subst (λ r. IsValid r.0) (sym misses) v, inl (h, misses))
        | inr (e, h) ↦
            subst (λ r. IsValid r.0 × GetOutcome now key kind n c s r)
              (sym (get-got now key kind n c s e h))
              (get_found now key kind n c s e _ _ v room h refl)
      ]
