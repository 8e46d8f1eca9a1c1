-- ===== src/Cache/Object/Name.antt =====
-- Object names: `parse_name` reads what `name` writes.
use tr_infer.Prelude.{
  length, arith, ◌≤◌, ◌<◌, ℕ, ◌≡◌, refl, ap, sym, ◌∙◌, some, List, [], ◌∷◌, ◌++◌, ℕ_discrete,
}
use tr_infer.Cache.Key.{
  PrefixKey, panicked, is_continuation, starts_inside, parse_pairs, parse, hex,
}
use tr_infer.Cache.Key.Hex.{IsKey, parse-hex}
use tr_infer.Cache.Object.{
  Kind, rows, snap, ext, from_ext, object_name, rsplit_dot, named, name_panicked, parse_name,
}

rsplit_dot-ext : (xs : List ℕ) (k : Kind) → rsplit_dot (xs ++ (b'.' ∷ ext k)) ≡ some (xs, ext k)
unfolding rsplit_dot ext
rsplit_dot-ext [] rows = refl
rsplit_dot-ext [] snap = refl
rsplit_dot-ext (x ∷ xs) k = rw (rsplit_dot-ext xs k, rsplit_dot)

from_ext-ext : (k : Kind) → from_ext (ext k) ≡ some k
unfolding from_ext ℕ_discrete
from_ext-ext rows = refl
from_ext-ext snap = refl

-- `parse_name` reads back the key and the kind of every object name.
pub parse_name-object_name :
    (key : PrefixKey) (kind : Kind) → IsKey key → parse_name (object_name key kind) ≡ named key kind
unfolding parse_name object_name
parse_name-object_name key kind h =
    rw (rsplit_dot-ext (hex key) kind) (rw (parse-hex key h, from_ext-ext kind))

-- Two objects of one name have one key and one kind.
pub object_name_injective :
    (k l : PrefixKey) (a b : Kind)
    → IsKey k
    → IsKey l
    → object_name k a ≡ object_name l b
    → (k ≡ l) × (a ≡ b)
object_name_injective k l a b hk hl e =
    let same : named k a ≡ named l b =
      sym (parse_name-object_name k a hk) ∙ ap parse_name e ∙ parse_name-object_name l b hl in
    (cc, cc)

-- On a text of 32 bytes whose third byte continues a character, `parse` panics, and so does
-- `parse_name` on the text with the ending of a kind.
pub parse_name-panicked :
    (a b c : ℕ) (rest : List ℕ) (kind : Kind)
    → length (a ∷ b ∷ c ∷ rest) ≡ 32
    → 128 ≤ c
    → c < 192
    → (parse (a ∷ b ∷ c ∷ rest) ≡ panicked)
      × (parse_name ((a ∷ b ∷ c ∷ rest) ++ (b'.' ∷ ext kind)) ≡ name_panicked)
unfolding parse parse_pairs starts_inside is_continuation parse_name
parse_name-panicked a b c rest kind size low high =
    let panics : parse (a ∷ b ∷ c ∷ rest) ≡ panicked = ground arith in
    (panics, rw (rsplit_dot-ext (a ∷ b ∷ c ∷ rest) kind, panics))
