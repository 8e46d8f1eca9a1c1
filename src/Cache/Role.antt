-- ===== src/Cache/Role.antt =====
-- crates/tr-cache/src/role.rs: roles, spans, and the chunking of a token sequence.
pub mod Chunks
use tr_infer.Prelude.{
  ℕ, zero, suc, Bool, Option, none, some, List, [], ◌∷◌, ◌++◌, min, max, ltb, leb, add64, sub64,
  ◌-◌, if◌then◌else◌,
}
use text.Mathlib.Text.{◌==◌}
use Prim.Native.String.{String}

pub data Role : Type 0 where
  system user reasoning tool assistant : Role

abbrev pub all : List Role
all = system ∷ user ∷ reasoning ∷ tool ∷ assistant ∷ []

unfoldable pub name : Role → String
name system = "system"
name user = "user"
name reasoning = "reasoning"
name tool = "tool"
name assistant = "assistant"

unfoldable pub parse : String → Option Role
parse s =
    if s == "system"
    then some system
    else if s == "user"
    then some user
    else if s == "reasoning"
    then some reasoning
    else if s == "tool"
    then some tool
    else if s == "assistant"
    then some assistant
    else none

-- A run of token positions `[start, stop)` with one role; `stop` is the field `end`.
pub record Span : Type 0 where
  pub start : ℕ
  pub stop : ℕ
  pub role : Role

-- `Span::len`: wraps below zero, as `usize` does in the release profile.
unfoldable pub len : Span → ℕ
len s = sub64 s.stop s.start

unfoldable pub is_empty : Span → Bool
is_empty s = leb s.stop s.start

-- `out.push(c)` before the rounds that follow.
abbrev pub put : Span → Option (List Span) → Option (List Span)
put s none = none
put s (some l) = some (s ∷ l)

-- The inner `while p < s.end`, with fuel; `none` says that the fuel ran out.
unfoldable pub cut : ℕ → Role → ℕ → ℕ → ℕ → Option (List Span)
cut zero role stop chunk_len p = none
cut (suc f) role stop chunk_len p =
    let e = min (add64 p chunk_len) stop in
    let rest = cut f role stop chunk_len e in
    if ltb p stop then put (record { start = p; stop = e; role = role }) rest else some []

-- The body of `for s in spans`. A round takes at least one position, so the fuel is enough.
unfoldable pub chunk_span : Span → ℕ → ℕ → Option (List Span)
chunk_span s from chunk_len =
    let a = max s.start from in
    if leb s.stop a then some [] else cut (suc (s.stop - a)) s.role s.stop chunk_len a

abbrev pub join : Option (List Span) → Option (List Span) → Option (List Span)
join none m = none
join (some l) none = none
join (some l) (some r) = some (l ++ r)

unfoldable pub chunk_loop : List Span → ℕ → ℕ → Option (List Span)
chunk_loop [] from chunk_len = some []
chunk_loop (s ∷ spans) from chunk_len =
    join (chunk_span s from chunk_len) (chunk_loop spans from chunk_len)

unfoldable pub chunk_spans : List Span → ℕ → ℕ → Option (List Span)
chunk_spans spans from chunk_len = chunk_loop spans from (max chunk_len 1)
