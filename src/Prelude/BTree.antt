-- ===== src/Prelude/BTree.antt =====
-- Maps in the order of their keys, as sorted association lists (Rust's `BTreeMap`). `lookup` and
-- `remove` are those of Assoc.
use mathlib.Core.Path.{◌≡◌, refl}
use mathlib.Core.Logic.{◌≢◌, inl, inr, ite, if_pos, if_neg}
use mathlib.Core.Bool.{Bool, true, false}
use mathlib.Core.List.{List, [], ◌∷◌}
use mathlib.Core.Option.{none, some}
use native.Mathlib.Omega.{arith}
use tr_infer.Prelude.Compare.{if◌then◌else◌, Bool-cases}
use tr_infer.Prelude.Lists.{All, All-map}
use tr_infer.Prelude.Assoc.{lookup, remove}

-- What the order of a key type satisfies.
pub record IsOrder {ℓ} {K : Type ℓ} (less : K → K → Bool) : Type ℓ where
  pub irrefl : (k : K) → less k k ≡ false
  pub trans : (i j k : K) → less i j ≡ true → less j k ≡ true → less i k ≡ true
  pub total : (i j : K) → i ≢ j → less i j ≡ false → less j i ≡ true

module _ {ℓ} {K V : Type ℓ} (dec : Discrete K) (less : K → K → Bool) where
  -- `BTreeMap::insert`: in the place that the order gives; an old value of the key is replaced.
  unfoldable pub insert : K → V → List (K × V) → List (K × V)
  insert k v [] = (k, v) ∷ []
  insert k v ((j, w) ∷ m) =
      let rest = insert k v m in
      ite (dec j k) ((k, v) ∷ m) (if less k j then (k, v) ∷ (j, w) ∷ m else (j, w) ∷ rest)

  abbrev pub IsAbove : K → List (K × V) → Type 0
  IsAbove k m = All (λ e. less k e.0 ≡ true) m

  -- Every key is less than each key behind it.
  abbrev pub IsSorted : List (K × V) → Type 0
  IsSorted [] = Unit
  IsSorted ((k, v) ∷ m) = IsAbove k m × IsSorted m

  pub lookup-insert_self : (k : K) (v : V) (m : List (K × V)) → lookup dec k (insert k v m) ≡ some v
  unfolding lookup insert
  lookup-insert_self k v [] = if_pos (dec k k) refl _ _
  lookup-insert_self k v ((i, w) ∷ m) = ground (arith, lookup-insert_self k v m)

  pub lookup-insert_ne :
      (k j : K) (v : V) (m : List (K × V)) → k ≢ j → lookup dec j (insert k v m) ≡ lookup dec j m
  unfolding lookup insert
  lookup-insert_ne k j v [] h = if_neg (dec k j) h _ _
  lookup-insert_ne k j v ((i, w) ∷ m) h = ground (arith, lookup-insert_ne k j v m)

  remove-IsAbove : (i k : K) (m : List (K × V)) → IsAbove i m → IsAbove i (remove dec k m)
  unfolding remove
  remove-IsAbove i k [] h = tt
  remove-IsAbove i k ((j, w) ∷ m) h =
      elim (dec j k) as (λ d. IsAbove i (ite d (remove dec k m) ((j, w) ∷ remove dec k m))) [
        | yes p ↦ remove-IsAbove i k m h.1
        | no p ↦ (h.0, remove-IsAbove i k m h.1)
      ]

  pub remove-IsSorted : (k : K) (m : List (K × V)) → IsSorted m → IsSorted (remove dec k m)
  unfolding remove
  remove-IsSorted k [] h = tt
  remove-IsSorted k ((j, w) ∷ m) h =
      elim (dec j k) as (λ d. IsSorted (ite d (remove dec k m) ((j, w) ∷ remove dec k m))) [
        | yes p ↦ remove-IsSorted k m h.1
        | no p ↦ (remove-IsAbove j k m h.0, remove-IsSorted k m h.1)
      ]

  insert-IsAbove :
      (i k : K) (v : V) (m : List (K × V))
      → less i k ≡ true
      → IsAbove i m
      → IsAbove i (insert k v m)
  unfolding insert
  insert-IsAbove i k v [] a h = (a, tt)
  insert-IsAbove i k v ((j, w) ∷ m) a h =
      elim (dec j k)
        as (λ d.
          IsAbove i (
            ite d ((k, v) ∷ m) (if less k j then (k, v) ∷ (j, w) ∷ m else (j, w) ∷ insert k v m))) [
              | yes p ↦ (a, h.1)
              | no p ↦
                  elim (less k j)
                    as (λ b. IsAbove i (if b then (k, v) ∷ (j, w) ∷ m else (j, w) ∷ insert k v m)) [
                      | true ↦ (a, h)
                      | false ↦ (h.0, insert-IsAbove i k v m a h.1)
                    ]
            ]

  module _ (order : IsOrder less) where
    IsAbove-trans : (i j : K) (m : List (K × V)) → less i j ≡ true → IsAbove j m → IsAbove i m
    IsAbove-trans i j m h =
        All-map (λ e. less j e.0 ≡ true) (λ e. less i e.0 ≡ true) m (λ e. order.trans i j e.0 h)

    pub insert-IsSorted : (k : K) (v : V) (m : List (K × V)) → IsSorted m → IsSorted (insert k v m)
    unfolding insert
    insert-IsSorted k v [] h = (tt, tt)
    insert-IsSorted k v ((j, w) ∷ m) h = elim (dec j k) [
      | yes p ↦ rw (if_pos _ p) (rw p at h)
      | no p ↦ rw (if_neg _ p) (elim (Bool-cases (less k j)) [
        | inl e ↦ rw e ((e, IsAbove-trans k j m e h.0), h)
        | inr e ↦ rw e (
          insert-IsAbove j k v m (order.total k j (λ q. p (ground arith)) e) h.0,
          insert-IsSorted k v m h.1,
        )
      ])
    ]

    -- In a sorted map a key below the first key is absent, so `remove` of the first key is the tail.
    pub lookup_below : (k : K) (m : List (K × V)) → IsAbove k m → lookup dec k m ≡ none
    unfolding lookup
    lookup_below k [] h = refl
    lookup_below k ((j, w) ∷ m) h = ground (arith, lookup_below k m h.1, order.irrefl k)
