-- ===== src/Cache/Index/Valid.antt =====
-- The invariant of the index, and the two steps that every operation is made of.
pub mod Steps
pub mod Expire
pub mod Evict
use tr_infer.Prelude.{
  ℕ, suc, ◌+◌, ◌≤◌, ◌<◌, ◌%◌, ◌≡◌, ◌≢◌, refl, sym, ap, ◌∙◌, Option, none, some, List, arith,
  u64_mod, Option-cases, inl, inr, some_injective, none-ne-some, add64, sub64, subst,
}
use tr_infer.Prelude.Assoc.{
  lookup, remove as erase, insert, total, total-remove, total-insert, insert-remove,
  lookup-remove_self, remove_absent, lookup-remove_ne, lookup-insert_self, lookup-insert_ne,
}
use tr_infer.Prelude.BTree
use tr_infer.Cache.Key.{PrefixKey}
use tr_infer.Cache.Policy.{Policies}
use tr_infer.Cache.Object.{ObjectMeta, footprint}
use tr_infer.Cache.Index.{
  ObjectId, ObjectId-discrete, Slot, Slot-discrete, less, Entry, Cache, slot, id_of, tier_of,
}
use tr_infer.Cache.Index.Mirror.{Mirrors, erase-Mirrors, insert-Mirrors}

pub record HoldsEntry (root : PrefixKey) (p : Policies) (seq : ℕ) (id : ObjectId) (e : Entry)
    : Type 0 where
  -- an entry stands under the key and the kind of its object
  pub keyed : id_of e.meta ≡ id
  -- it was used in the past
  pub past : e.seq ≤ seq
  -- its tier is that of its role
  pub tiered : e.tier ≡ tier_of p e.meta
  -- it belongs to this store
  pub rooted : e.meta.root ≡ root

abbrev pub weight : Entry → ℕ
weight e = footprint e.meta

pub record Holds (root : PrefixKey) (p : Policies) (seq used : ℕ) (index : List (ObjectId × Entry))
    (lru : List (Slot × ObjectId)) : Type 0 where
  pub mirror : Mirrors index lru
  pub entries :
      (id : ObjectId) (e : Entry)
      → lookup ObjectId-discrete id index ≡ some e
      → HoldsEntry root p seq id e
  -- `used` is the sum of the footprints, in 64 bits
  pub counted : used ≡ total weight index % u64_mod

-- The invariant of a cache.
abbrev pub IsValid : Cache → Type 0
IsValid c = Holds c.root c.policies c.seq c.used c.index c.lru

pub footprint-lt : (m : ObjectMeta) → footprint m < u64_mod
unfolding footprint
footprint-lt m = omega arith

module _ {root : PrefixKey} {p : Policies} {seq used : ℕ} {index : List (ObjectId × Entry)}
    {lru : List (Slot × ObjectId)} (valid : Holds root p seq used index lru) where
  -- Nothing stands at a slot of the future.
  free_slot : (s : Slot) → seq < s.seq → lookup Slot-discrete s lru ≡ none
  free_slot s h = elim (Option-cases (lookup Slot-discrete s lru)) [
    | inl e ↦ e
    | inr (i, e) ↦
        let (x, found, same) = valid.mirror.indexed s i e in
        let old = (valid.entries i x found).past in
        absurd (omega (arith, ap (λ (t : Slot). t.seq) same))
  ]

  pub take_out-Holds :
      (id : ObjectId) (e : Entry)
      → lookup ObjectId-discrete id index ≡ some e
      → Holds root p seq
          (sub64 used (weight e))
          (erase ObjectId-discrete id index)
          (erase Slot-discrete (slot e) lru)
  take_out-Holds id e found = record {
    mirror = erase-Mirrors valid.mirror id e found;
    entries = λ id' e' h.
        let apart : id ≢ id' = λ same. none-ne-some (
          sym (lookup-remove_self ObjectId-discrete id index)
          ∙ ap (λ i. lookup ObjectId-discrete i (erase ObjectId-discrete id index)) same
          ∙ h) in
        valid.entries id' e' (sym (lookup-remove_ne ObjectId-discrete id id' index apart) ∙ h);
    counted = omega (
      arith,
      total-remove ObjectId-discrete weight id index e valid.mirror.unique found,
      valid.counted,
      footprint-lt e.meta,
    );
  }

  -- A new entry at the next slot, when its id is free.
  pub put_in-Holds :
      (id : ObjectId) (e : Entry)
      → lookup ObjectId-discrete id index ≡ none
      → id_of e.meta ≡ id
      → e.seq ≡ suc seq
      → e.tier ≡ tier_of p e.meta
      → e.meta.root ≡ root
      → Holds root p e.seq
          (add64 used (weight e))
          (insert ObjectId-discrete id e index)
          (BTree.insert Slot-discrete less (slot e) id lru)
  put_in-Holds id e fresh keyed next tier at_root = record {
    mirror = insert-Mirrors valid.mirror id e fresh (free_slot (slot e) (omega arith));
    entries = λ id' e' h. elim (ObjectId-discrete id id') [
      | yes same ↦
          let here : e ≡ e' = cc (lookup-insert_self ObjectId-discrete id e index) in
          subst (λ x. HoldsEntry root p e.seq id' x) here
            (record { keyed = keyed ∙ same; past = omega arith; tiered = tier; rooted = at_root })
      | no apart ↦
          let old =
            valid.entries id' e'
              (sym (lookup-insert_ne ObjectId-discrete id id' e index apart) ∙ h) in
          record { keyed = old.keyed; past = omega arith; tiered = old.tiered; rooted = old.rooted }
    ];
    counted = omega (
      arith,
      total-insert ObjectId-discrete weight id e index,
      ap (total weight) (remove_absent ObjectId-discrete id index fresh),
      valid.counted,
    );
  }

-- An entry that replaces one of its id.
pub replace-Holds :
    {root : PrefixKey} {p : Policies} {seq used : ℕ} {index : List (ObjectId × Entry)}
    {lru : List (Slot × ObjectId)} (valid : Holds root p seq used index lru) (id : ObjectId)
    (e e' : Entry)
    → lookup ObjectId-discrete id index ≡ some e
    → id_of e'.meta ≡ id
    → e'.seq ≡ suc seq
    → e'.tier ≡ tier_of p e'.meta
    → e'.meta.root ≡ root
    → Holds root p e'.seq
        (add64 (sub64 used (weight e)) (weight e'))
        (insert ObjectId-discrete id e' index)
        (BTree.insert Slot-discrete less (slot e') id (erase Slot-discrete (slot e) lru))
replace-Holds {index} valid id e e' found keyed next tier at_root =
    rw (← insert-remove ObjectId-discrete id e' index) (
      put_in-Holds (take_out-Holds valid id e found) id e'
        (lookup-remove_self ObjectId-discrete id index) keyed next tier at_root)

-- The two orders in which the sizes of the old and the new entry are accounted for.
pub add-sub_swap : (u a b : ℕ) → b < u64_mod → sub64 (add64 u a) b ≡ add64 (sub64 u b) a
add-sub_swap u a b h = omega arith

pub sub-add_same : (u b : ℕ) → b < u64_mod → u < u64_mod → add64 (sub64 u b) b ≡ u
sub-add_same u b h k = omega arith

pub used-lt : (c : Cache) → IsValid c → c.used < u64_mod
used-lt c v = omega (arith, v.counted)
