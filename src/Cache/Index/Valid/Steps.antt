-- ===== src/Cache/Index/Valid/Steps.antt =====
-- The single steps keep the invariant: `insert_entry`, `touch`, `remove`, `insert`'s bookkeeping.
use tr_infer.Prelude.{ℕ, ◌+◌, ◌<◌, ◌≡◌, ◌≢◌, refl, arith, u64_mod, Option-cases, inl, inr, add64}
use tr_infer.Prelude.Assoc.{lookup-insert_ne}
use tr_infer.Cache.Object.{ObjectMeta, footprint}
use tr_infer.Cache.Index.{
  ObjectId, ObjectId-discrete, Entry, Cache, id_of, find, tier_of, insert_entry, touch, remove,
}
use tr_infer.Cache.Index.Valid.{
  IsValid, weight, footprint-lt, take_out-Holds, put_in-Holds, replace-Holds, add-sub_swap,
  sub-add_same, used-lt,
}

-- A valid cache with room for one more use.
abbrev pub HasRoom : Cache → ℕ → Type 0
HasRoom c n = c.seq + n < u64_mod

pub insert_entry-IsValid :
    (m : ObjectMeta) (c : Cache)
    → IsValid c
    → HasRoom c 1
    → m.root ≡ c.root
    → IsValid (insert_entry m c)
unfolding insert_entry
insert_entry-IsValid m c v room at_root =
    let e : Entry = record { meta = m; seq = add64 c.seq 1; tier = tier_of c.policies m } in
    elim (Option-cases (find c (id_of m))) [
      | inl absent ↦
          rw (absent, insert_entry)
            (put_in-Holds v (id_of m) e absent refl (omega arith) refl at_root)
      | inr (old, present) ↦
          rw
            (
              present,
              insert_entry,
              add-sub_swap c.used (footprint m) (footprint old.meta) (footprint-lt old.meta),
            )
            (replace-Holds v (id_of m) old e present refl (omega arith) refl at_root)
    ]

pub touch-IsValid :
    (now : ℕ) (id : ObjectId) (c : Cache) → IsValid c → HasRoom c 1 → IsValid (touch now id c)
unfolding touch footprint tier_of
touch-IsValid now id c v room = elim (Option-cases (find c id)) [
  | inl absent ↦ rw (absent, touch) v
  | inr (e, present) ↦
      let e' : Entry = record e {
        seq = add64 c.seq 1;
        meta = record (e.meta) { last_used = now };
      } in
      let old = v.entries id e present in
      rw (present, touch)
        (rw (sub-add_same c.used (weight e) (footprint-lt e.meta) (used-lt c v)) at
          (replace-Holds v id e e' present old.keyed (omega arith) old.tiered old.rooted))
]

pub remove-IsValid : (id : ObjectId) (c : Cache) → IsValid c → IsValid (remove id c).1
unfolding remove
remove-IsValid id c v = elim (Option-cases (find c id)) [
  | inl absent ↦ rw (absent, remove) v
  | inr (e, present) ↦ rw (present, remove) (take_out-Holds v id e present)
]

-- What a touch changes: the object of the id is marked as used, at a new time; all others stay.
pub find-touch_ne :
    (now : ℕ) (id j : ObjectId) (c : Cache) → id ≢ j → find (touch now id c) j ≡ find c j
unfolding find touch
find-touch_ne now id j c apart = elim (Option-cases (find c id)) [
  | inl absent ↦ rw (absent, touch)
  | inr (e, present) ↦ rw (present, touch) (lookup-insert_ne ObjectId-discrete id j _ c.index apart)
]
