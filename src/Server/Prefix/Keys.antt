-- ===== src/Server/Prefix/Keys.antt =====
-- crates/tr-infer/src/server/prefix_cache.rs: `extend_keys` continues the chain of a prompt.
use tr_infer.Prelude.{
  ℕ, suc, ◌+◌, ◌<◌, ◌≡◌, refl, sym, ap, none, some, List, [], ◌∷◌, ◌++◌, length, All, arith, true,
  ltb, ◌==◌, All-map, Bool-cases, inl, inr,
}
use tr_infer.Cache.Key.{PrefixKey, Image, image_at, of, message, chain, prefix_keys}
use tr_infer.Server.Prefix.{last_key, extend_keys}

-- The key behind the last token of a chain.
end_key : ℕ → PrefixKey → List ℕ → List Image → PrefixKey
end_key p prev [] img = prev
end_key p prev (t ∷ toks) img =
    end_key (suc p) (of (message prev t (image_at p img).0)) toks (image_at p img).1

last_key-chain :
    (p : ℕ) (prev : PrefixKey) (toks : List ℕ) (img : List Image)
    → last_key (prev ∷ chain p prev toks img) ≡ some (end_key p prev toks img)
unfolding last_key chain end_key
last_key-chain p prev [] img = refl
last_key-chain p prev (t ∷ toks) img =
    last_key-chain (suc p) (of (message prev t (image_at p img).0)) toks (image_at p img).1

-- The images that start before row `p`.
abbrev pub AllBefore : ℕ → List Image → Type 0
AllBefore p img = All (λ (im : Image). im.first < p) img

image_at-AllBefore : (p : ℕ) (img : List Image) → AllBefore p img → image_at p img ≡ (none, [])
unfolding image_at
image_at-AllBefore p [] h = refl
image_at-AllBefore p (im ∷ img) h =
    let t : ltb im.first p ≡ true = let k = h.0 in ground arith in
    rw t (image_at-AllBefore p img h.1)

-- Without images a chain does not depend on where it begins.
chain_plain :
    (p q : ℕ) (prev : PrefixKey) (toks : List ℕ) → chain p prev toks [] ≡ chain q prev toks []
unfolding chain image_at
chain_plain p q prev [] = refl
chain_plain p q prev (t ∷ toks) =
    ap (◌∷◌ (of (message prev t none)))
      (chain_plain (suc p) (suc q) (of (message prev t none)) toks)

chain_late :
    (p : ℕ) (prev : PrefixKey) (toks : List ℕ) (img : List Image)
    → AllBefore p img
    → chain p prev toks img ≡ chain 0 prev toks []
unfolding chain image_at
chain_late p prev [] img h = refl
chain_late p prev (t ∷ toks) img h =
    let e = image_at-AllBefore p img h in
    rw e
      (ap (◌∷◌ (of (message prev t none))) (chain_plain (suc p) 1 (of (message prev t none)) toks))

image_at-All :
    (P : Image → Type 0) (p : ℕ) (img : List Image) → All P img → All P (image_at p img).1
unfolding image_at
image_at-All P p [] h = tt
image_at-All P p (im ∷ img) h = elim (Bool-cases (ltb im.first p)) [
  | inl t ↦ rw t (image_at-All P p img h.1)
  | inr f ↦ elim (Bool-cases (im.first == p)) [ inl t ↦ rw (f, t) h.1 | inr g ↦ rw (f, g) h ]
]

chain-append :
    (p : ℕ) (prev : PrefixKey) (a b : List ℕ) (img : List Image)
    → AllBefore (p + length a) img
    → chain p prev (a ++ b) img ≡ chain p prev a img ++ chain 0 (end_key p prev a img) b []
unfolding chain end_key
chain-append p prev [] b img h =
    chain_late p prev b img
      (All-map (λ (im : Image). im.first < p + 0) (λ im. im.first < p) img (λ im k. omega arith) h)
chain-append p prev (t ∷ a) b img h =
    let key = of (message prev t (image_at p img).0) in
    let rest = (image_at p img).1 in
    let later =
      All-map (λ (im : Image). im.first < p + suc (length a)) (λ im. im.first < suc p + length a)
        rest (λ im k. omega arith) (image_at-All (λ im. im.first < p + suc (length a)) p img h) in
    ap (◌∷◌ key) (chain-append (suc p) key a b rest later)

-- Continuing the keys of a prompt over generated tokens gives the keys that the whole text has,
-- when the images of the prompt start within it.
pub extend_keys-prefix_keys :
    (root : PrefixKey) (ids toks : List ℕ) (img : List Image)
    → AllBefore (length ids) img
    → extend_keys (prefix_keys root ids img) toks ≡ some (prefix_keys root (ids ++ toks) img)
unfolding extend_keys prefix_keys
extend_keys-prefix_keys root ids toks img h =
    let later =
      All-map (λ (im : Image). im.first < length ids) (λ im. im.first < 0 + length ids) img
        (λ im k. omega arith) h in
    rw (extend_keys, last_key-chain 0 root ids img)
      (ap (λ keys. some (root ∷ keys)) (sym (chain-append 0 root ids toks img later)))
