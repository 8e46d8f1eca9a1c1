-- ===== src/Model/Sequence/Copies.antt =====
-- crates/tr-model/src/sequence.rs: the state that the workers of a fork copy.
use tr_infer.Prelude.{ℕ, ◌≡◌, refl, ap, Bool, true, false, Option, none, some, List, [], ◌∷◌, map}
use tr_infer.Model.Sequence.{
  GdnState, AttnState, TileState, map_some, zip, filled, reset, clear_attn, cleared, with_table,
  copy_gdn, copy_attn, copied,
}

abbrev pub has : {A : Type 0} → Option A → Bool
has none = false
has (some a) = true

-- Which layers have a state.
abbrev pub Shape : Type 0
Shape = List Bool × List Bool

module _ {F : Type 0} where
  abbrev pub shape : TileState F → Shape
  shape st = (map has st.gdn, map has st.attn)

  abbrev raw : Option (AttnState F) → Option (List F)
  raw none = none
  raw (some a) = some a.ik_raw

  -- The state of a tile that is not in the pages: of the recurrent layers, the keys that are not
  -- pooled yet, and the last tokens' embeddings.
  abbrev pub recurrent : TileState F → List (Option (GdnState F)) × List (Option (List F)) × List F
  recurrent st = (st.gdn, map raw st.attn, st.ple_hist)

  copy_gdn_lem :
      (src dst : List (Option (GdnState F)))
      → map has src ≡ map has dst
      → zip copy_gdn src dst ≡ src
  copy_gdn_lem [] [] h = refl
  copy_gdn_lem [] (d ∷ dst) h = cc
  copy_gdn_lem (s ∷ src) [] h = cc
  copy_gdn_lem (none ∷ src) (none ∷ dst) h = ap (◌∷◌ none) (copy_gdn_lem src dst cc)
  copy_gdn_lem (none ∷ src) (some d ∷ dst) h = let no : false ≡ true = cc in cc
  copy_gdn_lem (some s ∷ src) (none ∷ dst) h = let no : true ≡ false = cc in cc
  copy_gdn_lem (some s ∷ src) (some d ∷ dst) h = ap (◌∷◌ (some s)) (copy_gdn_lem src dst cc)

  copy_attn_lem :
      (src dst : List (Option (AttnState F)))
      → map has src ≡ map has dst
      → map raw (zip copy_attn src dst) ≡ map raw src
  copy_attn_lem [] [] h = refl
  copy_attn_lem [] (d ∷ dst) h = cc
  copy_attn_lem (s ∷ src) [] h = cc
  copy_attn_lem (none ∷ src) (none ∷ dst) h = ap (◌∷◌ none) (copy_attn_lem src dst cc)
  copy_attn_lem (none ∷ src) (some d ∷ dst) h = let no : false ≡ true = cc in cc
  copy_attn_lem (some s ∷ src) (none ∷ dst) h = let no : true ≡ false = cc in cc
  copy_attn_lem (some s ∷ src) (some d ∷ dst) h =
      ap (◌∷◌ (some s.ik_raw)) (copy_attn_lem src dst cc)

  -- Tiles of one shape have the same state after a copy.
  pub copied_lem :
      (src dst : List (TileState F))
      → map shape src ≡ map shape dst
      → map recurrent (zip copied src dst) ≡ map recurrent src
  unfolding copied
  copied_lem [] [] h = refl
  copied_lem [] (d ∷ dst) h = cc
  copied_lem (s ∷ src) [] h = cc
  copied_lem (s ∷ src) (d ∷ dst) h =
      let e : shape s ≡ shape d = cc in
      let g = copy_gdn_lem s.gdn d.gdn (ap (λ (x : Shape). x.0) e) in
      let a = copy_attn_lem s.attn d.attn (ap (λ (x : Shape). x.1) e) in
      let rest = copied_lem src dst cc in λ i. (g i, a i, s.ple_hist) ∷ rest i

map-has :
    {A : Type 0} (f : A → A) (xs : List (Option A)) → map has (map (map_some f) xs) ≡ map has xs
map-has f [] = refl
map-has f (none ∷ xs) = ap (◌∷◌ false) (map-has f xs)
map-has f (some a ∷ xs) = ap (◌∷◌ true) (map-has f xs)

module _ {F : Type 0} where
  pub with_table-shape :
      (table : List ℕ) (tiles : List (TileState F))
      → map shape (map (with_table table) tiles) ≡ map shape tiles
  unfolding with_table
  with_table-shape table [] = refl
  with_table-shape table (st ∷ tiles) =
      let a = map-has (λ (x : AttnState F). record x { pages = table }) st.attn in
      let rest = with_table-shape table tiles in λ i. (map has st.gdn, a i) ∷ rest i

  pub cleared-shape :
      (z : F) (tiles : List (TileState F)) → map shape (map (cleared z) tiles) ≡ map shape tiles
  unfolding cleared reset
  cleared-shape z [] = refl
  cleared-shape z (st ∷ tiles) =
      let g =
        map-has (λ (x : GdnState F). record { conv = filled z x.conv; ssm = filled z x.ssm })
          st.gdn in
      let a = map-has (clear_attn z) st.attn in
      let rest = cleared-shape z tiles in λ i. (g i, a i) ∷ rest i
