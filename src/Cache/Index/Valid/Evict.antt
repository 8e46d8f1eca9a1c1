-- ===== src/Cache/Index/Valid/Evict.antt =====
-- `evict_to_budget` ends, and drops the least important objects first, and no more than it must.
use tr_infer.Prelude.{
  ℕ, suc, zero, ◌≤◌, ◌<◌, ◌%◌, ◌≡◌, refl, sym, ap, ◌∙◌, Bool, true, false, none, some, List, [],
  ◌∷◌, ◌++◌, arith, u64_mod, Bool-cases, inl, inr, ◌⊎◌, ite, if◌then◌else◌, none-ne-some,
  some_injective, if_pos, if_neg, subst, All, length, ltb, ltb→lt, lt→ltb, ltb_false→le, map,
  Listed, add64,
}
use tr_infer.Prelude.Assoc.{
  lookup, remove as erase, total, lookup-remove_self, lookup-remove_ne, lookup-cons_self,
  remove-cons_self,
}
use tr_infer.Prelude.BTree
use tr_infer.Cache.Object.{name, object_name}
use tr_infer.Cache.Index.{
  ObjectId, ObjectId-discrete, Slot, Slot-discrete, less, Entry, Cache, slot, find, take_out, evict,
  count_evicted, push_name, evict_to_budget,
}
use tr_infer.Cache.Index.Mirror.{less-IsOrder}
use tr_infer.Cache.Index.Valid.{
  IsValid, weight, take_out-Holds, footprint-lt, used-lt, sub-add_same,
}
use tr_infer.Cache.Index.Valid.Expire.{SameFrame}

abbrev pub is_gone : ObjectId → List (Slot × ObjectId) → Bool
is_gone j [] = false
is_gone j (g ∷ gone) = let rest = is_gone j gone in ite (ObjectId-discrete g.1 j) true rest

abbrev pub name_of : Slot × ObjectId → List ℕ
name_of g = object_name g.1.key g.1.kind

pub record Evicted (c : Cache) (gone : List (Slot × ObjectId)) (out : List (List ℕ)) (c' : Cache)
    : Type 0 where
  pub valid : IsValid c'
  -- what is left fits
  pub fits : c'.used ≤ c'.budget
  -- what is gone stood in front of what is left
  pub order : c.lru ≡ gone ++ c'.lru
  pub names : out ≡ map name_of gone
  pub kept : (id : ObjectId) → find c' id ≡ (if is_gone id gone then none else find c id)
  -- without the last step it would not have fit
  pub needed :
      (c' ≡ c)
      ⊎ ((id : ObjectId) × (e : Entry) × (find c id ≡ some e)
          × (find c' id ≡ none)
          × (c.budget < add64 c'.used (weight e)))
  pub frame : SameFrame c c'

pub find-take_out :
    (id j : ObjectId) (e : Entry) (c : Cache)
    → find (take_out id e c) j ≡ ite (ObjectId-discrete id j) none (find c j)
unfolding find take_out
find-take_out id j e c = elim (ObjectId-discrete id j) [
  | yes p ↦ rw (if_pos _ p) (
      subst (λ k. lookup ObjectId-discrete k (erase ObjectId-discrete id c.index) ≡ none) p
        (lookup-remove_self ObjectId-discrete id c.index))
  | no p ↦ rw (if_neg _ p) (lookup-remove_ne ObjectId-discrete id j c.index p)
]

find_of_take_out :
    (id j : ObjectId) (e x : Entry) (c : Cache)
    → find (take_out id e c) j ≡ some x
    → find c j ≡ some x
find_of_take_out id j e x c h = elim (ObjectId-discrete id j) [
  | yes p ↦ absurd (
      none-ne-some
        (sym (find-take_out id j e c ∙ if_pos (ObjectId-discrete id j) p none (find c j)) ∙ h))
  | no p ↦ sym (find-take_out id j e c ∙ if_neg (ObjectId-discrete id j) p none (find c j)) ∙ h
]

-- An empty order has an empty index, which weighs nothing.
used_of_empty : (c : Cache) → IsValid c → c.lru ≡ [] → c.used ≡ 0
unfolding lookup
used_of_empty c v e = go c.index v.mirror.listed v.counted
  where
    go :
        (index : List (ObjectId × Entry))
        → ((id : ObjectId) (x : Entry)
            → lookup ObjectId-discrete id index ≡ some x
            → lookup Slot-discrete (slot x) c.lru ≡ some id)
        → c.used ≡ total weight index % u64_mod
        → c.used ≡ 0
    go [] listed counted = omega (arith, counted)
    go ((id, x) ∷ index) listed counted = absurd (
        none-ne-some (
          ap (λ l. lookup Slot-discrete (slot x) l) (sym e)
          ∙ listed id x (lookup-cons_self ObjectId-discrete id x index)))

-- The head of the order is an entry of the index, and the state without it.
head_entry :
    (c : Cache) (s : Slot) (id : ObjectId) (rest : List (Slot × ObjectId))
    → IsValid c
    → c.lru ≡ (s, id) ∷ rest
    → (e : Entry) × (find c id ≡ some e)
      × (slot e ≡ s)
      × (erase Slot-discrete (slot e) c.lru ≡ rest)
unfolding find
head_entry c s id rest v order =
    let at_head = ap (lookup Slot-discrete s) order ∙ lookup-cons_self Slot-discrete s id rest in
    let (e, found, same) = v.mirror.indexed s id at_head in
    let sorted = subst (BTree.IsSorted Slot-discrete less) order v.mirror.sorted in
    (
      e,
      found,
      same,
      ap (λ k. erase Slot-discrete k c.lru) same
          ∙ ap (erase Slot-discrete s) order
          ∙ remove-cons_self Slot-discrete s id rest
              (BTree.lookup_below Slot-discrete less less-IsOrder s rest sorted.0),
    )

-- One round, then the rounds that follow.
Evicted-cons :
    (c : Cache) (s : Slot) (id : ObjectId) (e : Entry) (rest gone : List (Slot × ObjectId))
    (out : List (List ℕ)) (c' : Cache)
    → IsValid c
    → c.budget < c.used
    → c.lru ≡ (s, id) ∷ rest
    → find c id ≡ some e
    → erase Slot-discrete (slot e) c.lru ≡ rest
    → Evicted (count_evicted (take_out id e c)) gone out c'
    → Evicted c ((s, id) ∷ gone) (name e.meta ∷ out) c'
unfolding count_evicted take_out find
Evicted-cons c s id e rest gone out c' v over order found left r = record {
  valid = r.valid;
  fits = r.fits;
  order = order ∙ ap (◌∷◌ (s, id)) (sym left ∙ r.order);
  names = λ i.
      object_name (((v.entries id e found).keyed) i).key (((v.entries id e found).keyed) i).kind
      ∷ r.names i;
  kept = λ j.
      r.kept j
      ∙ rw (find-take_out id j e c) (elim (ObjectId-discrete id j) [
        | yes p ↦
            rw (if_pos _ p, if_pos _ p)
              (elim (Bool-cases (is_gone j gone)) [ inl g ↦ rw g | inr g ↦ rw g ])
        | no p ↦ rw (if_neg _ p, if_neg _ p)
      ]);
  needed = elim r.needed [
    | inl same ↦ inr (
      id,
      e,
      found,
      ap (λ (x : Cache). find x id) same
          ∙ find-take_out id id e c
          ∙ if_pos (ObjectId-discrete id id) refl _ _,
      omega (
        arith,
        ap (λ (x : Cache). x.used) same,
        sub-add_same c.used (weight e) (footprint-lt e.meta) (used-lt c v),
      ),
    )
    | inr (j, x, there, dropped, needs) ↦
        inr (j, x, find_of_take_out id j e x c there, dropped, needs)
  ];
  frame = record {
    root = r.frame.root;
    policies = r.frame.policies;
    seq = r.frame.seq;
    budget = r.frame.budget;
    pending = r.frame.pending;
  };
}

evict-step :
    (f : ℕ) (c : Cache) (s : Slot) (id : ObjectId) (rest : List (Slot × ObjectId)) (e : Entry)
    → ltb c.budget c.used ≡ true
    → c.lru ≡ (s, id) ∷ rest
    → find c id ≡ some e
    → evict (suc f) c ≡ push_name (name e.meta) (evict f (count_evicted (take_out id e c)))
unfolding evict
evict-step f c s id rest e over order found = ground arith

abbrev Ends : ℕ → Cache → Type 0
Ends f c =
    (out : List (List ℕ)) × (c' : Cache) × (evict f c ≡ some (out, c'))
    × (gone : List (Slot × ObjectId)) × Evicted c gone out c'

-- A round that finds the store over its budget.
evict_round :
    (f : ℕ) (c : Cache) (lru : List (Slot × ObjectId))
    → ((c' : Cache) → IsValid c' → length c'.lru < f → Ends f c')
    → IsValid c
    → length c.lru < suc f
    → c.budget < c.used
    → c.lru ≡ lru
    → Ends (suc f) c
unfolding take_out count_evicted find
evict_round f c [] rec v h over order = absurd (omega (arith, used_of_empty c v order))
evict_round f c ((s, id) ∷ rest) rec v h over order =
    let (e, found, same, left) = head_entry c s id rest v order in
    let (out, c', runs, gone, r) =
      rec (count_evicted (take_out id e c)) (take_out-Holds v id e found)
        (omega (arith, ap length left, ap length order)) in
    (
      name e.meta ∷ out,
      c',
      evict-step f c s id rest e (lt→ltb _ _ over) order found ∙ ap (push_name (name e.meta)) runs,
      (s, id) ∷ gone,
      Evicted-cons c s id e rest gone out c' v over order found left r,
    )

evict_lem : (f : ℕ) (c : Cache) → IsValid c → length c.lru < f → Ends f c
unfolding evict
evict_lem zero c v h = elim h [ ]
evict_lem (suc f) c v h = elim (Bool-cases (ltb c.budget c.used)) [
  | inl over ↦ evict_round f c c.lru (evict_lem f) v h (ltb→lt _ _ over) refl
  | inr fits ↦ (
    [],
    c,
    rw fits,
    [],
    record {
      valid = v;
      fits = ltb_false→le _ _ fits;
      order = refl;
      names = refl;
      kept = λ id. refl;
      needed = inl refl;
      frame = record { root = refl; policies = refl; seq = refl; budget = refl; pending = refl };
    },
  )
]

-- On a valid cache the loop ends. What is left is valid and fits the budget. The objects that are
-- gone stood in front of all others in the order by tier and last use, their names are returned in
-- that order, and every other entry is unchanged. If any is gone, then some dropped object would
-- not have fit beside what is left.
pub evict_to_budget_lem :
    (c : Cache)
    → IsValid c
    → (out : List (List ℕ)) × (c' : Cache) × (evict_to_budget c ≡ some (out, c'))
      × (gone : List (Slot × ObjectId)) × Evicted c gone out c'
unfolding evict_to_budget
evict_to_budget_lem c v = evict_lem (suc (length c.lru)) c v (omega arith)

IsAbove-append :
    (xs ys : List (Slot × ObjectId)) (s : Slot)
    → BTree.IsAbove Slot-discrete less s (xs ++ ys)
    → BTree.IsAbove Slot-discrete less s ys
IsAbove-append [] ys s h = h
IsAbove-append (x ∷ xs) ys s h = IsAbove-append xs ys s h.1

sorted-append :
    (xs ys : List (Slot × ObjectId))
    → BTree.IsSorted Slot-discrete less (xs ++ ys)
    → All (λ x. All (λ y. less x.0 y.0 ≡ true) ys) xs
sorted-append [] ys h = tt
sorted-append (x ∷ xs) ys h = (IsAbove-append xs ys x.0 h.0, sorted-append xs ys h.1)

-- Whatever is evicted has a lower tier than everything that is kept, or the same tier and an
-- earlier last use.
pub evict_to_budget-less :
    (c c' : Cache) (out : List (List ℕ))
    → IsValid c
    → evict_to_budget c ≡ some (out, c')
    → (gone : List (Slot × ObjectId)) × (out ≡ map name_of gone)
      × (c.lru ≡ gone ++ c'.lru)
      × All (λ x. All (λ y. less x.0 y.0 ≡ true) c'.lru) gone
evict_to_budget-less c c' out v runs =
    let (out', d, runs', gone, r) = evict_to_budget_lem c v in
    let same : (out', d) ≡ (out, c') = some_injective (sym runs' ∙ runs) in
    let order = r.order ∙ ap (λ (x : List (List ℕ) × Cache). gone ++ x.1.lru) same in
    (
      gone,
      ap (λ (x : List (List ℕ) × Cache). x.0) (sym same) ∙ r.names,
      order,
      sorted-append gone c'.lru (subst (BTree.IsSorted Slot-discrete less) order v.mirror.sorted),
    )

-- What is gone is named.
pub gone-Listed :
    (j : ObjectId) (gone : List (Slot × ObjectId))
    → is_gone j gone ≡ true
    → Listed (object_name j.key j.kind) (map name_of gone)
gone-Listed j [] h = cc
gone-Listed j (g ∷ gone) h = elim (ObjectId-discrete g.1 j) [
  | yes p ↦ inl (ap (λ (i : ObjectId). object_name i.key i.kind) (sym p))
  | no p ↦
      inr (gone-Listed j gone (sym (if_neg (ObjectId-discrete g.1 j) p true (is_gone j gone)) ∙ h))
]
