-- ===== src/Cache/Store/Insert.antt =====
-- `insert` ends, keeps the invariant, and keeps the store within its budget.
use tr_infer.Prelude.{
  ℕ, ◌≤◌, ◌≡◌, refl, sym, ap, ◌∙◌, Bool, true, false, none, some, List, [], ◌++◌, none-ne-some, inl,
  inr, ◌⊎◌, Option-cases, Bool-cases, arith, if◌then◌else◌, Listed, Listed-append_left,
  Listed-append_right, subst,
}
use tr_infer.Cache.Result.{Result, ok, err, Error, Result-cases}
use tr_infer.Cache.Key.{PrefixKey-discrete}
use tr_infer.Cache.Object.{ObjectMeta, object_name}
use tr_infer.Cache.Index.{
  ObjectId, Slot, Entry, Cache, id_of, find, insert_entry, touch, expire_idle, check,
}
use tr_infer.Cache.Index.Valid.{IsValid}
use tr_infer.Cache.Index.Valid.Steps.{HasRoom, insert_entry-IsValid, touch-IsValid}
use tr_infer.Cache.Index.Valid.Expire.{expire_idle_exact, expire_idle-Listed, idle_at}
use tr_infer.Cache.Index.Valid.Evict.{Evicted, evict_to_budget_lem, is_gone, gone-Listed}
use tr_infer.Cache.Store.{insert, insert_new, checked_insert, gather}

check-root : (c : Cache) (m : ObjectMeta) → check c m ≡ ok tt → m.root ≡ c.root
unfolding check
check-root c m h = elim (PrefixKey-discrete m.root c.root) [
  | yes p ↦ p
  | no p ↦ absurd (ground arith)
]

-- An object either stays as the step made it, or is gone and named for deletion.
abbrev Accounted : Cache → Cache → List (List ℕ) → ObjectId → Type 0
Accounted c c' out id =
    (find c' id ≡ find c id)
    ⊎ ((find c' id ≡ none) × ((find c id ≡ none) ⊎ Listed (object_name id.key id.kind) out))

Accounted-drop :
    (c c' : Cache) (test : Bool) (out : List (List ℕ)) (id : ObjectId)
    → find c' id ≡ (if test then none else find c id)
    → ((e : Entry)
        → find c id ≡ some e
        → find c' id ≡ none
        → Listed (object_name id.key id.kind) out)
    → Accounted c c' out id
Accounted-drop c c' true out id h named = elim (Option-cases (find c id)) [
  | inl e ↦ inr (h, inl e)
  | inr (x, e) ↦ inr (h, inr (named x e h))
]
Accounted-drop c c' false out id h named = inl h

Accounted-trans :
    (a b c : Cache) (xs ys : List (List ℕ)) (id : ObjectId)
    → Accounted a b xs id
    → Accounted b c ys id
    → Accounted a c (xs ++ ys) id
Accounted-trans a b c xs ys id (inl p) (inl q) = inl (q ∙ p)
Accounted-trans a b c xs ys id (inl p) (inr (q, inl r)) = inr (q, inl (sym p ∙ r))
Accounted-trans a b c xs ys id (inl p) (inr (q, inr r)) =
    inr (q, inr (Listed-append_right _ xs ys r))
Accounted-trans a b c xs ys id (inr (p, inl r)) (inl q) = inr (q ∙ p, inl r)
Accounted-trans a b c xs ys id (inr (p, inl r)) (inr (q, s)) = inr (q, inl r)
Accounted-trans a b c xs ys id (inr (p, inr r)) (inl q) =
    inr (q ∙ p, inr (Listed-append_left _ xs ys r))
Accounted-trans a b c xs ys id (inr (p, inr r)) (inr (q, s)) =
    inr (q, inr (Listed-append_left _ xs ys r))

Accounted-more :
    (a b : Cache) (xs ys : List (List ℕ)) (id : ObjectId)
    → Accounted a b ys id
    → Accounted a b (xs ++ ys) id
Accounted-more a b xs ys id (inl p) = inl p
Accounted-more a b xs ys id (inr (p, inl q)) = inr (p, inl q)
Accounted-more a b xs ys id (inr (p, inr q)) = inr (p, inr (Listed-append_right _ xs ys q))

dropped-Listed :
    (c c' : Cache) (id : ObjectId) (e : Entry) (gone : List (Slot × ObjectId)) (out : List (List ℕ))
    → Evicted c gone out c'
    → find c id ≡ some e
    → find c' id ≡ none
    → Listed (object_name id.key id.kind) out
dropped-Listed c c' id e gone out r h g = elim (Bool-cases (is_gone id gone)) [
  | inl t ↦ subst (Listed (object_name id.key id.kind)) (sym r.names) (gone-Listed id gone t)
  | inr t ↦
      absurd
        (none-ne-some (sym g ∙ r.kept id ∙ ap (λ (b : Bool). if b then none else find c id) t ∙ h))
]

-- A new object is in: the call returns the names of everything that is no longer indexed.
pub record Inserted (now : ℕ) (m : ObjectMeta) (c c' : Cache) (out : List (List ℕ)) : Type 0 where
  pub valid : IsValid c'
  pub fits : c'.used ≤ c'.budget
  pub cleared : c'.pending_delete ≡ []
  pub waiting : (n : List ℕ) → Listed n c.pending_delete → Listed n out
  pub accounted : (id : ObjectId) → Accounted (insert_entry m c) c' out id

insert_new-Inserted :
    (now : ℕ) (m : ObjectMeta) (c : Cache)
    → IsValid c
    → HasRoom c 1
    → m.root ≡ c.root
    → (out : List (List ℕ)) × (c' : Cache) × (insert_new now m c ≡ some (c', ok out))
      × Inserted now m c c' out
unfolding insert_new gather find
insert_new-Inserted now m c v room root =
    let c1 : Cache = record (insert_entry m c) { dirty = true; pending_delete = [] } in
    let v1 : IsValid c1 = insert_entry-IsValid m c v room root in
    let c2 = (expire_idle now c1).1 in
    let (v2, exact, frame) = expire_idle_exact now c1 v1 in
    let (dropped, c3, runs, gone, r) = evict_to_budget_lem c2 v2 in
    let expired = (expire_idle now c1).0 in
    (
      c.pending_delete ++ (expired ++ dropped),
      c3,
      ap (gather c.pending_delete expired) runs,
      record {
        valid = r.valid;
        fits = r.fits;
        cleared = r.frame.pending ∙ frame.pending;
        waiting = λ n h. Listed-append_left n c.pending_delete (expired ++ dropped) h;
        accounted = λ id. Accounted-more c1 c3 c.pending_delete (expired ++ dropped) id (
            Accounted-trans c1 c2 c3 expired dropped id
              (Accounted-drop c1 c2 (idle_at now c1.policies (find c1 id)) expired id (exact id)
                (λ e h g. expire_idle-Listed now c1 id e v1 h g))
              (Accounted-drop c2 c3 (is_gone id gone) dropped id (r.kept id)
                (λ e h g. dropped-Listed c2 c3 id e gone dropped r h g)));
      },
    )

-- Every outcome of `insert`.
abbrev pub InsertOutcome : ℕ → ObjectMeta → Cache → Cache → Result (List (List ℕ)) → Type 0
InsertOutcome now m c c' r =
    -- the id is known: it is marked as used
    ((e : Entry) × (find c (id_of m) ≡ some e)
      × (r ≡ ok c.pending_delete)
      × (c' ≡ record (touch now (id_of m) c) { pending_delete = [] }))
    -- the object is refused: nothing changes
    ⊎ (((e : Error) × (check c m ≡ err e) × (r ≡ err e) × (c' ≡ c))
        -- the object is new
        ⊎ ((out : List (List ℕ)) × (find c (id_of m) ≡ none)
            × (r ≡ ok out)
            × Inserted now m c c' out))

-- On a valid cache with room for one more use `insert` ends, and keeps the invariant. An object
-- that is indexed already is marked as used; one of another root, or with broken metadata, is
-- refused and changes nothing; a new one is indexed, and afterwards the store fits its budget, and
-- the returned names hold every name that waited for deletion and that of every object that is
-- no longer indexed, while all other entries are as they were.
pub insert_lem :
    (now : ℕ) (m : ObjectMeta) (c : Cache)
    → IsValid c
    → HasRoom c 1
    → (c' : Cache) × (r : Result (List (List ℕ))) × (insert now m c ≡ some (c', r))
      × IsValid c'
      × InsertOutcome now m c c' r
unfolding insert checked_insert
insert_lem now m c v room = elim (Option-cases (find c (id_of m))) [
  | inr (e, h) ↦ (
    record (touch now (id_of m) c) { pending_delete = [] },
    ok c.pending_delete,
    rw h,
    touch-IsValid now (id_of m) c v room,
    inl (e, h, refl, refl),
  )
  | inl h ↦ elim (Result-cases (check c m)) [
    | inr (e, k) ↦ (c, err e, rw (h, k), v, inr (inl (e, k, refl, refl)))
    | inl (u, k) ↦
        let (out, c', runs, r) = insert_new-Inserted now m c v room (check-root c m k) in
        (c', ok out, rw (h, k) runs, r.valid, inr (inr (out, h, refl, r)))
  ]
]
