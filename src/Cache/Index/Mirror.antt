-- ===== src/Cache/Index/Mirror.antt =====
-- The index and the eviction order hold the same objects.
use tr_infer.Prelude.{◌≡◌, ◌≢◌, sym, ap, ◌∙◌, none, some, List, arith, some_injective, none-ne-some}
use tr_infer.Prelude.Assoc.{
  lookup, remove as erase, insert, IsUnique, lookup-remove_self, lookup-remove_ne,
  lookup-insert_self, lookup-insert_ne, remove-IsUnique, insert-IsUnique,
}
use tr_infer.Prelude.BTree
use tr_infer.Prelude.BTree.{IsOrder}
use tr_infer.Cache.Index.{ObjectId, ObjectId-discrete, Slot, Slot-discrete, less, Entry, slot}

pub less-IsOrder : IsOrder less
unfolding less
less-IsOrder = record {
  irrefl = λ k. ground arith;
  trans = λ i j k h g. ground arith;
  total = λ i j d h. ground arith;
}

pub record Mirrors (index : List (ObjectId × Entry)) (lru : List (Slot × ObjectId)) : Type 0 where
  -- no id stands twice
  pub unique : IsUnique ObjectId-discrete index
  -- the order is by tier, then by time of the last use
  pub sorted : BTree.IsSorted Slot-discrete less lru
  -- each entry stands in the order at its slot, and nothing else does
  pub listed :
      (id : ObjectId) (e : Entry)
      → lookup ObjectId-discrete id index ≡ some e
      → lookup Slot-discrete (slot e) lru ≡ some id
  pub indexed :
      (s : Slot) (id : ObjectId)
      → lookup Slot-discrete s lru ≡ some id
      → (e : Entry) × (lookup ObjectId-discrete id index ≡ some e) × (slot e ≡ s)

module _ {index : List (ObjectId × Entry)} {lru : List (Slot × ObjectId)}
    (mirrors : Mirrors index lru) where
  -- Two entries at one slot have one id.
  slot_injective :
      (id id' : ObjectId) (e e' : Entry)
      → lookup ObjectId-discrete id index ≡ some e
      → lookup ObjectId-discrete id' index ≡ some e'
      → slot e ≡ slot e'
      → id ≡ id'
  slot_injective id id' e e' h h' same = some_injective (
      sym (mirrors.listed id e h)
      ∙ ap (λ s. lookup Slot-discrete s lru) same
      ∙ mirrors.listed id' e' h')

  module _ (id : ObjectId) (e : Entry) (found : lookup ObjectId-discrete id index ≡ some e) where
    ne_of_erase :
        (id' : ObjectId) {e' : Entry}
        → lookup ObjectId-discrete id' (erase ObjectId-discrete id index) ≡ some e'
        → id ≢ id'
    ne_of_erase id' h same = none-ne-some (
        sym (lookup-remove_self ObjectId-discrete id index)
        ∙ ap (λ i. lookup ObjectId-discrete i (erase ObjectId-discrete id index)) same
        ∙ h)

    ne_of_erase-slot :
        (s : Slot) {i : ObjectId}
        → lookup Slot-discrete s (erase Slot-discrete (slot e) lru) ≡ some i
        → slot e ≢ s
    ne_of_erase-slot s h same = none-ne-some (
        sym (lookup-remove_self Slot-discrete (slot e) lru)
        ∙ ap (λ i. lookup Slot-discrete i (erase Slot-discrete (slot e) lru)) same
        ∙ h)

    pub erase-Mirrors :
        Mirrors (erase ObjectId-discrete id index) (erase Slot-discrete (slot e) lru)
    erase-Mirrors = record {
      unique = remove-IsUnique ObjectId-discrete id index mirrors.unique;
      sorted = BTree.remove-IsSorted Slot-discrete less (slot e) lru mirrors.sorted;
      listed = λ id' e' h.
          let apart = ne_of_erase id' h in
          let h' : lookup ObjectId-discrete id' index ≡ some e' =
            sym (lookup-remove_ne ObjectId-discrete id id' index apart) ∙ h in
          lookup-remove_ne Slot-discrete (slot e) (slot e') lru
            (λ same. apart (slot_injective id id' e e' found h' same))
          ∙ mirrors.listed id' e' h';
      indexed = λ s i h.
          let apart = ne_of_erase-slot s h in
          let (e', h', same) =
            mirrors.indexed s i (sym (lookup-remove_ne Slot-discrete (slot e) s lru apart) ∙ h) in
          (
            e',
            lookup-remove_ne ObjectId-discrete id i index (λ q. apart (
                  ap slot
                    (some_injective (sym found ∙ ap (λ j. lookup ObjectId-discrete j index) q ∙ h'))
                  ∙ same))
                ∙ h',
            same,
          );
    }

  -- A new id at a slot that is free.
  pub insert-Mirrors :
      (id : ObjectId) (e : Entry)
      → lookup ObjectId-discrete id index ≡ none
      → lookup Slot-discrete (slot e) lru ≡ none
      → Mirrors
          (insert ObjectId-discrete id e index)
          (BTree.insert Slot-discrete less (slot e) id lru)
  insert-Mirrors id e fresh free = record {
    unique = insert-IsUnique ObjectId-discrete id e index mirrors.unique;
    sorted = BTree.insert-IsSorted Slot-discrete less less-IsOrder (slot e) id lru mirrors.sorted;
    listed = λ id' e' h. elim (ObjectId-discrete id id') [
      | yes p ↦ cc (
        lookup-insert_self ObjectId-discrete id e index,
        BTree.lookup-insert_self Slot-discrete less (slot e) id lru,
      )
      | no p ↦
          let h' = sym (lookup-insert_ne ObjectId-discrete id id' e index p) ∙ h in
          BTree.lookup-insert_ne Slot-discrete less (slot e) (slot e') id lru (λ same.
            none-ne-some
              (sym free ∙ ap (λ s. lookup Slot-discrete s lru) same ∙ mirrors.listed id' e' h'))
          ∙ mirrors.listed id' e' h'
    ];
    indexed = λ s i h. elim (Slot-discrete (slot e) s) [
      | yes p ↦ (
        e,
        cc (
          lookup-insert_self ObjectId-discrete id e index,
          BTree.lookup-insert_self Slot-discrete less (slot e) id lru,
        ),
        p,
      )
      | no p ↦
          let (e', h', same) =
            mirrors.indexed s i
              (sym (BTree.lookup-insert_ne Slot-discrete less (slot e) s id lru p) ∙ h) in
          (
            e',
            lookup-insert_ne ObjectId-discrete id i e index (λ q.
                  none-ne-some (sym fresh ∙ ap (λ j. lookup ObjectId-discrete j index) q ∙ h'))
                ∙ h',
            same,
          )
    ];
  }
