-- ===== src/Cache/Index/Valid/Expire.antt =====
-- `expire_idle` drops exactly the idle objects.
use tr_infer.Prelude.{
  ◌+◌, ltb, arith, ℕ, ◌≡◌, refl, sym, ap, ◌∙◌, Bool, true, false, Option, none, some, List, [], ◌∷◌,
  Option-cases, Bool-cases, inl, inr, ite, if◌then◌else◌, none-ne-some, if_pos, if_neg, subst,
  Listed, Listed-append_left, Listed-append_right,
}
use tr_infer.Prelude.Assoc.{lookup, remove as erase, IsUnique, lookup-remove_self, lookup-remove_ne}
use tr_infer.Cache.Policy.{Policies, policy_of, any_ttl, ttl_of_no_ttl}
use tr_infer.Cache.Object.{name, object_name}
use tr_infer.Cache.Index.{
  ObjectId, ObjectId-discrete, Entry, Cache, id_of, find, is_idle, dead, expire_step, expire_all,
  expire_idle,
}
use tr_infer.Cache.Index.Valid.{IsValid, take_out-Holds}

-- Whether a time to live, if there is one, ended before now.
abbrev has_passed : ℕ → ℕ → Option ℕ → Bool
has_passed now last_used none = false
has_passed now last_used (some ttl) = ltb (last_used + ttl) now

-- Whether an entry, if there is one, has been idle for longer than its role allows.
unfoldable pub idle_at : ℕ → Policies → Option Entry → Bool
idle_at now p none = false
idle_at now p (some e) = has_passed now e.meta.last_used (policy_of p e.meta.role).ttl

is_dead : ℕ → Policies → Option Entry → Bool
is_dead now p none = false
is_dead now p (some e) = is_idle now (policy_of p e.meta.role).ttl e.meta.last_used

is_idle-has_passed :
    (now last_used : ℕ) (ttl : Option ℕ) → is_idle now ttl last_used ≡ has_passed now last_used ttl
unfolding is_idle
is_idle-has_passed now last_used none = refl
is_idle-has_passed now last_used (some ttl) = ground arith

is_dead-idle_at : (now : ℕ) (p : Policies) (o : Option Entry) → is_dead now p o ≡ idle_at now p o
unfolding is_dead idle_at
is_dead-idle_at now p none = refl
is_dead-idle_at now p (some e) =
    is_idle-has_passed now e.meta.last_used (policy_of p e.meta.role).ttl

contains : ObjectId → List ObjectId → Bool
contains j [] = false
contains j (id ∷ ids) = let rest = contains j ids in ite (ObjectId-discrete id j) true rest

-- What one round leaves: the id is gone, and every other entry stays.
find-expire_step :
    (id j : ObjectId) (c : Cache)
    → find (expire_step id c).1 j ≡ ite (ObjectId-discrete id j) none (find c j)
unfolding find expire_step
find-expire_step id j c = elim (Option-cases (find c id)) [
  | inl absent ↦
      rw (absent, expire_step)
        (elim (ObjectId-discrete id j) [
          | yes p ↦ rw (if_pos _ p) (rw p at absent)
          | no p ↦ rw (if_neg _ p)
        ])
  | inr (e, present) ↦
      rw (present, expire_step)
        (elim (ObjectId-discrete id j) [
          | yes p ↦ rw (if_pos _ p) (
              subst (λ k. lookup ObjectId-discrete k (erase ObjectId-discrete id c.index) ≡ none) p
                (lookup-remove_self ObjectId-discrete id c.index))
          | no p ↦ rw (if_neg _ p) (lookup-remove_ne ObjectId-discrete id j c.index p)
        ])
]

expire_step-IsValid : (id : ObjectId) (c : Cache) → IsValid c → IsValid (expire_step id c).1
unfolding expire_step
expire_step-IsValid id c v = elim (Option-cases (find c id)) [
  | inl absent ↦ rw (absent, expire_step) v
  | inr (e, present) ↦ rw (present, expire_step) (take_out-Holds v id e present)
]

-- What the loop does not touch.
pub record SameFrame (c c' : Cache) : Type 0 where
  pub root : c'.root ≡ c.root
  pub policies : c'.policies ≡ c.policies
  pub seq : c'.seq ≡ c.seq
  pub budget : c'.budget ≡ c.budget
  pub pending : c'.pending_delete ≡ c.pending_delete

expire_step-SameFrame : (id : ObjectId) (c : Cache) → SameFrame c (expire_step id c).1
unfolding expire_step
expire_step-SameFrame id c = elim (Option-cases (find c id)) [
  | inl absent ↦
      rw (absent, expire_step)
        (record { root = refl; policies = refl; seq = refl; budget = refl; pending = refl })
  | inr (e, present) ↦
      rw (present, expire_step)
        (record { root = refl; policies = refl; seq = refl; budget = refl; pending = refl })
]

expire_all-SameFrame : (ids : List ObjectId) (c : Cache) → SameFrame c (expire_all ids c).1
unfolding expire_all
expire_all-SameFrame [] c = record {
  root = refl;
  policies = refl;
  seq = refl;
  budget = refl;
  pending = refl;
}
expire_all-SameFrame (id ∷ ids) c =
    let s = expire_step-SameFrame id c in
    let r = expire_all-SameFrame ids (expire_step id c).1 in
    record {
      root = r.root ∙ s.root;
      policies = r.policies ∙ s.policies;
      seq = r.seq ∙ s.seq;
      budget = r.budget ∙ s.budget;
      pending = r.pending ∙ s.pending;
    }

expire_all-IsValid : (ids : List ObjectId) (c : Cache) → IsValid c → IsValid (expire_all ids c).1
unfolding expire_all
expire_all-IsValid [] c v = v
expire_all-IsValid (id ∷ ids) c v =
    expire_all-IsValid ids (expire_step id c).1 (expire_step-IsValid id c v)

find-expire_all :
    (ids : List ObjectId) (j : ObjectId) (c : Cache)
    → find (expire_all ids c).1 j ≡ (if contains j ids then none else find c j)
unfolding expire_all contains
find-expire_all [] j c = refl
find-expire_all (id ∷ ids) j c =
    find-expire_all ids j (expire_step id c).1
    ∙ rw (find-expire_step id j c) (elim (ObjectId-discrete id j) [
      | yes p ↦
          rw (if_pos _ p, if_pos _ p)
            (elim (Bool-cases (contains j ids)) [ inl e ↦ rw e | inr e ↦ rw e ])
      | no p ↦ rw (if_neg _ p, if_neg _ p)
    ])

-- The filter picks the ids of the idle entries.
contains-dead :
    (now : ℕ) (p : Policies) (index : List (ObjectId × Entry)) (j : ObjectId)
    → IsUnique ObjectId-discrete index
    → ((id : ObjectId) (e : Entry) → lookup ObjectId-discrete id index ≡ some e → id_of e.meta ≡ id)
    → contains j (dead now p index) ≡ is_dead now p (lookup ObjectId-discrete j index)
unfolding contains dead is_dead lookup
contains-dead now p [] j u keyed = refl
contains-dead now p ((id, e) ∷ index) j u keyed =
    let here : id_of e.meta ≡ id = keyed id e (if_pos (ObjectId-discrete id id) refl _ _) in
    let rest = contains-dead now p index j u.1 (λ i x h. keyed i x (
      if_neg (ObjectId-discrete id i)
        (λ same. none-ne-some (sym u.0 ∙ ap (λ k. lookup ObjectId-discrete k index) same ∙ h)) _ _
      ∙ h)) in
    rw here (elim (ObjectId-discrete id j) [
      | yes q ↦
          rw (if_pos _ q)
            (elim (Bool-cases (is_idle now (policy_of p e.meta.role).ttl e.meta.last_used)) [
              | inl idle ↦ rw (idle, if_pos _ q)
              | inr busy ↦ rw (busy, rest, ← q, u.0)
            ])
      | no q ↦
          rw (if_neg _ q)
            (elim (Bool-cases (is_idle now (policy_of p e.meta.role).ttl e.meta.last_used)) [
              | inl idle ↦ rw (idle, if_neg _ q) rest
              | inr busy ↦ rw busy rest
            ])
    ])

never_idle :
    (now : ℕ) (p : Policies) (o : Option Entry) → any_ttl p ≡ false → idle_at now p o ≡ false
unfolding idle_at
never_idle now p none h = refl
never_idle now p (some e) h = rw (ttl_of_no_ttl p e.meta.role h)

-- `expire_idle` keeps the invariant; it drops every object that has been idle for longer than its
-- role's time to live, and no other; what it keeps is unchanged, and so are the root, the
-- policies, the clock of uses, the budget and the names that wait for deletion.
pub expire_idle_exact :
    (now : ℕ) (c : Cache)
    → IsValid c
    → IsValid (expire_idle now c).1
      × ((id : ObjectId)
          → find (expire_idle now c).1 id
            ≡ (if idle_at now c.policies (find c id) then none else find c id))
      × SameFrame c (expire_idle now c).1
unfolding expire_idle find
expire_idle_exact now c v = elim (Bool-cases (any_ttl c.policies)) [
  | inl some_ttl ↦
      rw (some_ttl, expire_idle)
        (
          expire_all-IsValid (dead now c.policies c.index) c v,
          λ id.
              find-expire_all (dead now c.policies c.index) id c
              ∙ rw (
                contains-dead now c.policies c.index id v.mirror.unique
                    (λ i e h. (v.entries i e h).keyed),
                is_dead-idle_at now c.policies (find c id),
              ),
          expire_all-SameFrame (dead now c.policies c.index) c,
        )
  | inr no_ttl ↦
      rw (no_ttl, expire_idle)
        (
          v,
          λ id. rw (never_idle now c.policies (find c id) no_ttl),
          record { root = refl; policies = refl; seq = refl; budget = refl; pending = refl },
        )
]

names-expire_step :
    (id : ObjectId) (e : Entry) (c : Cache)
    → find c id ≡ some e
    → (expire_step id c).0 ≡ name e.meta ∷ []
unfolding expire_step
names-expire_step id e c h = rw (h, expire_step)

expire_step-Listed :
    (id j : ObjectId) (c : Cache) (e : Entry)
    → IsValid c
    → find c j ≡ some e
    → find (expire_step id c).1 j ≡ none
    → Listed (object_name j.key j.kind) (expire_step id c).0
unfolding find
expire_step-Listed id j c e v present gone = elim (ObjectId-discrete id j) [
  | no p ↦ absurd (
      none-ne-some (
        sym
          (sym (find-expire_step id j c ∙ if_neg (ObjectId-discrete id j) p none (find c j)) ∙ gone)
        ∙ present))
  | yes p ↦
      let here : find c id ≡ some e = ap (find c) p ∙ present in
      subst (λ out. Listed (object_name j.key j.kind) out) (sym (names-expire_step id e c here))
        (inl (ap (λ (i : ObjectId). object_name i.key i.kind) (sym (v.entries j e present).keyed)))
]

expire_all-Listed :
    (ids : List ObjectId) (j : ObjectId) (c : Cache) (e : Entry)
    → IsValid c
    → find c j ≡ some e
    → find (expire_all ids c).1 j ≡ none
    → Listed (object_name j.key j.kind) (expire_all ids c).0
unfolding expire_all
expire_all-Listed [] j c e v present gone = absurd (none-ne-some (sym gone ∙ present))
expire_all-Listed (id ∷ ids) j c e v present gone =
    let c' = (expire_step id c).1 in
    elim (Option-cases (find c' j)) [
      | inl q ↦
          Listed-append_left _ (expire_step id c).0 (expire_all ids c').0
            (expire_step-Listed id j c e v present q)
      | inr (x, q) ↦
          Listed-append_right _ (expire_step id c).0 (expire_all ids c').0
            (expire_all-Listed ids j c' x (expire_step-IsValid id c v) q gone)
    ]

-- Every object that an expiry drops is named for deletion.
pub expire_idle-Listed :
    (now : ℕ) (c : Cache) (j : ObjectId) (e : Entry)
    → IsValid c
    → find c j ≡ some e
    → find (expire_idle now c).1 j ≡ none
    → Listed (object_name j.key j.kind) (expire_idle now c).0
unfolding expire_idle
expire_idle-Listed now c j e v present gone = elim (Bool-cases (any_ttl c.policies)) [
  | inl t ↦
      rw (t, expire_idle)
        (expire_all-Listed (dead now c.policies c.index) j c e v present
          (rw (t, expire_idle) at gone))
  | inr t ↦ absurd (none-ne-some (sym (rw (t, expire_idle) at gone) ∙ present))
]
