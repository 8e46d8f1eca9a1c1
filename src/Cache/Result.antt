-- ===== src/Cache/Result.antt =====
-- `anyhow::Result` in crates/tr-cache: a value, or the reason of the failure.
use tr_infer.Prelude.{Bool, true, false, ◌≡◌, refl, ◌⊎◌, inl, inr}

pub data Error : Type 0 where
  -- `ObjectMeta::validate` and `Cache::check`
  bad_format inverted_range token_count no_role snapshot_span wrong_root : Error
  -- headers
  short_header implausible_length truncated_header bad_json : Error
  -- backends
  put_failed body_size no_object io : Error
  -- `Cache::get`
  not_indexed : Error

pub data Result {ℓ} (A : Type ℓ) : Type ℓ where
  ok : A → Result A
  err : Error → Result A

infixl 5 ◌>>=◌ ◌>>◌
abbrev pub ◌>>=◌ {ℓ κ} : {A : Type ℓ} {B : Type κ} → Result A → (A → Result B) → Result B
err e >>= next = err e
ok a >>= next = next a

abbrev pub ◌>>◌ {ℓ} : {B : Type ℓ} → Result (Unit {0}) → Result B → Result B
first >> next = first >>= λ done. next

-- `bail!` under a test, `ensure!` under its negation.
abbrev pub bail_if : Bool → Error → Result (Unit {0})
bail_if true e = err e
bail_if false e = ok tt

pub Result-cases {ℓ} :
    {A : Type ℓ} (r : Result A) → ((a : A) × (r ≡ ok a)) ⊎ ((e : Error) × (r ≡ err e))
Result-cases (ok a) = inl (a, refl)
Result-cases (err e) = inr (e, refl)
