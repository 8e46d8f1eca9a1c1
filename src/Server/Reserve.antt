-- ===== src/Server/Reserve.antt =====
-- crates/tr-infer/src/server/engine.rs: `continuous_pages`, the pages that are reserved for a request.
use tr_infer.Prelude.{
  ℕ, ◌+◌, ◌-◌, ◌*◌, ◌/◌, ◌%◌, ◌≤◌, ◌<◌, ◌≡◌, ◌⊎◌, inl, inr, ap, Option, none, some, ltb,
  if◌then◌else◌, arith, u64_mod, Bool-cases,
}
use tr_infer.Model.Sequence.{pages_for}

-- `checked_add` and `checked_mul`: nothing for a result that does not fit.
abbrev pub checked : ℕ → Option ℕ
checked n = if ltb n u64_mod then some n else none

infixl 5 ◌>>=◌
abbrev ◌>>=◌ : {A B : Type 0} → Option A → (A → Option B) → Option B
none >>= f = none
some a >>= f = f a

-- `continuous_pages`
unfoldable pub continuous_pages : (prompt output choices : ℕ) → Option ℕ
continuous_pages prompt output choices = do
  grown ← checked (prompt % 64 + output)
  rounded ← checked (grown + 63)
  private ← checked (rounded / 64 * choices)
  checked (prompt / 64 + private)

-- The full pages of the prompt, which the choices share, and those that each choice has alone when
-- its output is as long as it may be.
abbrev pub shared_and_private : ℕ → ℕ → ℕ → ℕ
shared_and_private prompt output choices =
    prompt / 64 + (pages_for (prompt + output) - prompt / 64) * choices

checked_cases :
    (n : ℕ) → ((n < u64_mod) × (checked n ≡ some n)) ⊎ ((u64_mod ≤ n) × (checked n ≡ none))
checked_cases n = elim (Bool-cases (ltb n u64_mod)) [
  | inl t ↦ inl (ground arith, rw t)
  | inr f ↦ inr (ground arith, rw f)
]

-- `continuous_pages` is the number of the shared pages and the private ones, and nothing exactly when
-- this number or the length of a choice behind the shared pages, rounded up, needs more than 64 bits.
pub continuous_pages_lem :
    (prompt output choices : ℕ)
    → ((continuous_pages prompt output choices ≡ some (shared_and_private prompt output choices))
        × (shared_and_private prompt output choices < u64_mod)
        × (prompt % 64 + output + 63 < u64_mod))
      ⊎ ((continuous_pages prompt output choices ≡ none)
          × ((u64_mod ≤ shared_and_private prompt output choices)
              ⊎ (u64_mod ≤ prompt % 64 + output + 63)))
unfolding continuous_pages
continuous_pages_lem prompt output choices =
    let tail : (prompt % 64 + output + 63) / 64 ≡ pages_for (prompt + output) - prompt / 64 =
      omega arith in
    let product = ap (λ (t : ℕ). t * choices) tail in
    elim (checked_cases (prompt % 64 + output)) [
      | inr (big, e) ↦ inr (rw e, inr (omega arith))
      | inl (_, e) ↦ elim (checked_cases (prompt % 64 + output + 63)) [
        | inr (big, e2) ↦ inr (rw (e, e2), inr big)
        | inl (small, e2) ↦ elim (checked_cases ((prompt % 64 + output + 63) / 64 * choices)) [
          | inr (big, e3) ↦ inr (rw (e, e2, e3), inl (omega (arith, product)))
          | inl (_, e3) ↦
              elim (checked_cases (prompt / 64 + (prompt % 64 + output + 63) / 64 * choices)) [
                | inr (big, e4) ↦ inr (rw (e, e2, e3, e4), inl (omega (arith, product)))
                | inl (fits, e4) ↦ inl (
                  rw (e, e2, e3, e4) (ap (λ (n : ℕ). some n) (omega (arith, product))),
                  omega (arith, product),
                  small,
                )
              ]
        ]
      ]
    ]
