-- ===== src/Server/Generate.antt =====
-- crates/tr-infer/src/server/engine.rs: the loop of `run_job` that generates tokens, plain and with
-- speculative rounds. The output (`Emitter`) and the decode step of the model are interfaces.
pub mod Ends
pub mod Ahead
use tr_infer.Prelude.{
  ℕ, zero, suc, ◌+◌, ◌-◌, Bool, true, false, Option, none, some, List, [], ◌∷◌, ◌++◌, any, leb,
  ◌==◌, if◌then◌else◌,
}
use tr_infer.Model.Spec.{Sampling, Runs, Round, Speculator, round}

-- `THINK_CLOSE`
abbrev pub think_close : ℕ
think_close = 248069

-- `Emitter`: `push` takes the sampler, whose settings it may switch, and says whether a stop string
-- ended the output.
pub record Emitter (E S : Type 0) : Type 0 where
  pub push : ℕ → E → S → E × S × Bool
  pub n_gen : E → ℕ

-- The variables of the loop. `model` has read the tokens of `stepped`; `next` is pending.
pub record Gen (E S L M : Type 0) : Type 0 where
  pub model : M
  pub stepped : List ℕ
  pub sampler : S
  pub emitter : E
  pub logits : L
  pub next : ℕ
  pub spec : Option Speculator

pub data Reason : Type 0 where
  by_stop by_length by_cancel : Reason

abbrev pub contains : List ℕ → ℕ → Bool
contains ids t = any (λ i. i == t) ids

module _ {E S D R L T M : Type 0} (em : Emitter E S) (sm : Sampling S D R L T) (rn : Runs M D R L T)
    (step : ℕ → M → M × L) (stop_ids : List ℕ) (max_tokens : ℕ) where
  -- A token for the output; whether it ends it.
  unfoldable pub emit : ℕ → Gen E S L M → Gen E S L M × Bool
  emit t g =
      let (e, s, b) = em.push t g.emitter g.sampler in (record g { emitter = e; sampler = s }, b)

  -- The loop over the accepted drafts.
  unfoldable pub emit_accepted : List ℕ → Gen E S L M → Gen E S L M × Bool
  unfolding emit
  emit_accepted [] g = (g, false)
  emit_accepted (d ∷ accepted) g =
      let g' = record g { stepped = g.stepped ++ d ∷ [] } in
      let r = emit d g' in
      let rest = emit_accepted accepted r.0 in
      if contains stop_ids d then (g', true) else if r.1 then (r.0, true) else rest

  pending : Round L → Gen E S L M × Bool → Gen E S L M × Bool
  pending rd (g, b) = (record g { logits = rd.next_logits; next = rd.next }, b)

  after_round : Gen E S L M → Option (Speculator × M × S × Round L) → Option (Gen E S L M × Bool)
  unfolding emit_accepted pending
  after_round g none = none
  after_round g (some (sp, m, s, rd)) = some (
      pending rd (
        emit_accepted rd.accepted (record g {
          spec = some sp;
          model = m;
          sampler = s;
          stepped = g.stepped ++ g.next ∷ [];
        })))

  plain_step : Gen E S L M → Gen E S L M
  plain_step g =
      let (m, l) = step g.next g.model in
      let (s, t) = sm.sample g.sampler l in
      record g { model = m; logits = l; stepped = g.stepped ++ g.next ∷ []; sampler = s; next = t }

  -- The `match` on the speculator: whether the output ends. `none` is a panic.
  unfoldable pub advance : Option Speculator → Gen E S L M → Option (Gen E S L M × Bool)
  unfolding after_round plain_step round
  advance none g = some (plain_step g, false)
  advance (some sp) g = after_round g (
      round sm rn sp g.model g.next (max_tokens - em.n_gen g.emitter) g.sampler
        (stop_ids ++ think_close ∷ []))

  -- The loop. The readings of `cancel` are numbered. `none` is a panic, or that the fuel ran out.
  unfoldable pub generate : ℕ → (ℕ → Bool) → Gen E S L M → Option (Reason × Gen E S L M)
  unfolding emit advance
  generate zero cancel g = none
  generate (suc f) cancel g =
      let r = emit g.next g in
      let more = elim (advance r.0.spec r.0) as (λ _. Option (Reason × Gen E S L M)) [
        | none ↦ none
        | some (g', true) ↦ some (by_stop, g')
        | some (g', false) ↦ generate f (λ i. cancel (suc i)) g'
      ] in
      if cancel 0
      then some (by_cancel, g)
      else if contains stop_ids g.next
      then some (by_stop, g)
      else if r.1
      then some (by_stop, r.0)
      else if leb max_tokens (em.n_gen r.0.emitter)
      then some (by_length, r.0)
      else more
