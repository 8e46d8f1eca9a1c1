-- ===== src/Prelude/Assoc.antt =====
-- Maps as association lists over keys with decidable equality (Rust's `HashMap`).
use Prim.Native.Nat.{ℕ, ◌+◌}
use mathlib.Core.Path.{◌≡◌, refl, ap, ◌∙◌}
use mathlib.Core.Logic.{◌≢◌, ite, if_pos, if_neg}
use mathlib.Core.List.{List, [], ◌∷◌}
use mathlib.Core.Option.{Option, none, some}
use native.Mathlib.Omega.{arith}

module _ {ℓ} {K V : Type ℓ} where
  -- The sum of a measure of the values.
  abbrev pub total : (V → ℕ) → List (K × V) → ℕ
  total f [] = 0
  total f ((k, v) ∷ m) = f v + total f m

module _ {ℓ} {K V : Type ℓ} (dec : Discrete K) where
  unfoldable pub lookup : K → List (K × V) → Option V
  lookup k [] = none
  lookup k ((j, v) ∷ m) = ite (dec j k) (some v) (lookup k m)

  unfoldable pub remove : K → List (K × V) → List (K × V)
  remove k [] = []
  remove k ((j, v) ∷ m) = let rest = remove k m in ite (dec j k) rest ((j, v) ∷ rest)

  unfoldable pub insert : K → V → List (K × V) → List (K × V)
  insert k v m = (k, v) ∷ remove k m

  -- No key stands twice.
  abbrev pub IsUnique : List (K × V) → Type ℓ
  IsUnique [] = Unit
  IsUnique ((k, v) ∷ m) = (lookup k m ≡ none) × IsUnique m

  pub lookup-remove_self : (k : K) (m : List (K × V)) → lookup k (remove k m) ≡ none
  unfolding lookup remove
  lookup-remove_self k [] = refl
  lookup-remove_self k ((i, v) ∷ m) = ground (arith, lookup-remove_self k m)

  pub lookup-remove_ne : (k j : K) (m : List (K × V)) → k ≢ j → lookup j (remove k m) ≡ lookup j m
  unfolding lookup remove
  lookup-remove_ne k j [] h = refl
  lookup-remove_ne k j ((i, v) ∷ m) h = ground (arith, lookup-remove_ne k j m)

  pub lookup-insert_self : (k : K) (v : V) (m : List (K × V)) → lookup k (insert k v m) ≡ some v
  unfolding lookup insert
  lookup-insert_self k v m = if_pos (dec k k) refl _ _

  pub lookup-insert_ne :
      (k j : K) (v : V) (m : List (K × V)) → k ≢ j → lookup j (insert k v m) ≡ lookup j m
  unfolding lookup insert
  lookup-insert_ne k j v m h = ground (arith, lookup-remove_ne k j m)

  pub remove_absent : (k : K) (m : List (K × V)) → lookup k m ≡ none → remove k m ≡ m
  unfolding lookup remove
  remove_absent k [] _ = refl
  remove_absent k ((i, v) ∷ m) h = ground (arith, remove_absent k m)

  pub lookup-remove-none :
      (k j : K) (m : List (K × V)) → lookup j m ≡ none → lookup j (remove k m) ≡ none
  unfolding lookup remove
  lookup-remove-none k j [] h = refl
  lookup-remove-none k j ((i, v) ∷ m) h = ground (arith, lookup-remove-none k j m)

  pub remove-IsUnique : (k : K) (m : List (K × V)) → IsUnique m → IsUnique (remove k m)
  unfolding remove
  remove-IsUnique k [] h = tt
  remove-IsUnique k ((i, v) ∷ m) h =
      elim (dec i k) as (λ d. IsUnique (ite d (remove k m) ((i, v) ∷ remove k m))) [
        | yes p ↦ remove-IsUnique k m h.1
        | no p ↦ (lookup-remove-none k i m h.0, remove-IsUnique k m h.1)
      ]

  pub insert-IsUnique : (k : K) (v : V) (m : List (K × V)) → IsUnique m → IsUnique (insert k v m)
  unfolding insert
  insert-IsUnique k v m h = (lookup-remove_self k m, remove-IsUnique k m h)

  pub total-remove :
      (f : V → ℕ) (k : K) (m : List (K × V)) (v : V)
      → IsUnique m
      → lookup k m ≡ some v
      → total f (remove k m) + f v ≡ total f m
  unfolding lookup remove
  total-remove f k [] v u h = cc
  total-remove f k ((i, w) ∷ m) v u h = elim (dec i k) [
    | yes p ↦ ground (arith, remove_absent k m)
    | no p ↦ ground (arith, total-remove f k m v u.1)
  ]

  pub insert-remove : (k : K) (v : V) (m : List (K × V)) → insert k v (remove k m) ≡ insert k v m
  unfolding insert
  insert-remove k v m = ap (◌∷◌ (k, v)) (remove_absent k (remove k m) (lookup-remove_self k m))

  pub total-insert :
      (f : V → ℕ) (k : K) (v : V) (m : List (K × V))
      → total f (insert k v m) ≡ f v + total f (remove k m)
  unfolding insert
  total-insert f k v m = refl

  pub lookup-cons_self : (k : K) (v : V) (m : List (K × V)) → lookup k ((k, v) ∷ m) ≡ some v
  unfolding lookup
  lookup-cons_self k v m = if_pos (dec k k) refl _ _

  pub lookup-cons_ne :
      (k j : K) (v : V) (m : List (K × V)) → k ≢ j → lookup j ((k, v) ∷ m) ≡ lookup j m
  unfolding lookup
  lookup-cons_ne k j v m h = if_neg (dec k j) h _ _

  pub remove-cons_self :
      (k : K) (v : V) (m : List (K × V)) → lookup k m ≡ none → remove k ((k, v) ∷ m) ≡ m
  unfolding remove
  remove-cons_self k v m h = if_pos (dec k k) refl _ _ ∙ remove_absent k m h
