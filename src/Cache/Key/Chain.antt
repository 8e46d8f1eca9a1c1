-- ===== src/Cache/Key/Chain.antt =====
-- The keys of a prompt: one for each prefix, and a prefix has the keys of its own.
use tr_infer.Prelude.{ℕ, suc, ◌≡◌, refl, ap, List, [], ◌∷◌, ◌++◌, length, take, some, get_elem?}
use tr_infer.Cache.Key.{PrefixKey, Image, image_at, message, of, chain, prefix_keys}

length-chain :
    (p : ℕ) (prev : PrefixKey) (toks : List ℕ) (img : List Image)
    → length (chain p prev toks img) ≡ length toks
unfolding chain
length-chain p prev [] img = refl
length-chain p prev (t ∷ toks) img = ap suc (length-chain (suc p) _ toks _)

take-chain :
    (p : ℕ) (prev : PrefixKey) (a b : List ℕ) (img : List Image)
    → take (length a) (chain p prev (a ++ b) img) ≡ chain p prev a img
unfolding chain
take-chain p prev [] b img = refl
take-chain p prev (t ∷ a) b img =
    let key = of (message prev t (image_at p img).0) in
    ap (◌∷◌ key) (take-chain (suc p) key a b (image_at p img).1)

-- A prompt of n tokens has n + 1 keys, the first of them the root; and the keys of a prompt that
-- begins with `a` begin with the keys of `a`, whatever follows and wherever the images stand.
pub prefix_keys-append :
    (root : PrefixKey) (a b : List ℕ) (img : List Image)
    → (length (prefix_keys root a img) ≡ suc (length a))
      × (get_elem? (prefix_keys root a img) 0 ≡ some root)
      × (take (suc (length a)) (prefix_keys root (a ++ b) img) ≡ prefix_keys root a img)
unfolding prefix_keys
prefix_keys-append root a b img =
    (ap suc (length-chain 0 root a img), refl, ap (◌∷◌ root) (take-chain 0 root a b img))
