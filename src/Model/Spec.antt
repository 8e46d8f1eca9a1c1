-- ===== src/Model/Spec.antt =====
-- crates/tr-model/src/spec.rs: a round of speculative decoding. The sampler, whose probabilities are
-- floating-point numbers, and the runs of the model are interfaces.
pub mod Accept
pub mod Rounds
use tr_infer.Prelude.{
  ℕ, zero, suc, ◌+◌, ◌-◌, Bool, true, false, Option, none, some, List, [], ◌∷◌, map, length, min,
  max, take, if◌then◌else◌, add64,
}

-- `Sampler` (sampler.rs) with state `S`, and the arithmetic of its probabilities `R`. `D` is `Dist`,
-- `L` a row of logits, `T` the settings.
pub record Sampling (S D R L T : Type 0) : Type 0 where
  pub settings : S → T
  pub uniform : S → S × R
  pub dist : S → L → D
  pub prob : D → ℕ → R
  pub sample : S → L → S × ℕ
  pub residual_sample : S → D → D → S × ℕ
  -- `p > 0`, `p >= q`, `p < q` and `p / q`
  pub positive : R → Bool
  pub at_least : R → R → Bool
  pub below : R → R → Bool
  pub ratio : R → R → R

pub record DraftPlan (R T : Type 0) : Type 0 where
  pub settings : T
  pub uniforms : List R
  pub stop_at : List ℕ

-- What a round uses of `Model` (exec_mtp.rs, exec_batch.rs), with state `M`.
pub record Runs (M D R L T : Type 0) : Type 0 where
  pub n_past : M → ℕ
  pub n_ckpt : M → ℕ
  pub batch_max : M → ℕ
  pub mtp_draft : ℕ → ℕ → DraftPlan R T → M → M × List (ℕ × D)
  pub verify : List ℕ → M → M × List L
  pub commit : ℕ → M → M

pub record SpecStats : Type 0 where
  pub rounds : ℕ
  pub drafted : ℕ
  pub accepted : ℕ

pub record Round (L : Type 0) : Type 0 where
  pub accepted : List ℕ
  pub next : ℕ
  pub next_logits : L

pub record Speculator : Type 0 where
  pub k : ℕ
  pub stats : SpecStats

-- `Speculator::new`
unfoldable pub new_speculator : ℕ → Speculator
new_speculator k = record { k = k; stats = record { rounds = 0; drafted = 0; accepted = 0 } }

-- The number of drafts of a round.
unfoldable pub draft_limit : (k budget n_ckpt batch_max : ℕ) → ℕ
draft_limit k budget n_ckpt batch_max =
    max (min (min (min k budget) (n_ckpt - 1)) (batch_max - 1)) 1

-- What the loop over the drafts leaves: how many are accepted, the next token, the row it is from.
pub record Accepted (L : Type 0) : Type 0 where
  pub count : ℕ
  pub next : ℕ
  pub row : L

abbrev pub counted : ℕ → ℕ → SpecStats → SpecStats
counted kd j st = record {
  rounds = add64 st.rounds 1;
  drafted = add64 st.drafted kd;
  accepted = add64 st.accepted j;
}

abbrev pub drafted_tokens : {D : Type 0} → List (ℕ × D) → List ℕ
drafted_tokens drafts = map (λ d. d.0) drafts

module _ {S D R L T : Type 0} (sm : Sampling S D R L T) where
  -- `(0..k).map(|_| sampler.uniform())`
  unfoldable pub draw : ℕ → S → S × List R
  draw zero s = (s, [])
  draw (suc k) s = let (s', u) = sm.uniform s in let (s'', us) = draw k s' in (s'', u ∷ us)

  abbrev pub below_ratio : R → R → S × R → S × Bool
  below_ratio pd qd (s, u) = (s, sm.below u (sm.ratio pd qd))

  -- `accept`: the uniform is drawn only when it is needed.
  unfoldable pub verdict : R → R → S → S × Bool
  verdict pd qd s =
      if sm.positive pd
      then if sm.at_least pd qd then (s, true) else below_ratio pd qd (sm.uniform s)
      else (s, false)

  abbrev pub with_row : L → S × ℕ → S × Accepted L
  with_row l (s, t) = (s, record { count = 0; next = t; row = l })

  abbrev pub one_more : Option (S × Accepted L) → Option (S × Accepted L)
  one_more none = none
  one_more (some (s, a)) = some (s, record a { count = suc a.count })

  -- The loop over the drafts with their rows; `none` is a panic, here and below.
  unfoldable pub accept : S → List (ℕ × D) → List L → Option (S × Accepted L)
  unfolding verdict
  accept s [] [] = none
  accept s [] (l ∷ rows) = some (with_row l (sm.sample s l))
  accept s (d ∷ drafts) [] = none
  accept s (d ∷ drafts) (l ∷ rows) =
      let p = sm.dist s l in
      let v = verdict (sm.prob p d.0) (sm.prob d.1 d.0) s in
      let more = one_more (accept v.0 drafts rows) in
      if v.1 then more else some (with_row l (sm.residual_sample v.0 p d.1))

  module _ {M : Type 0} (rn : Runs M D R L T) where
    finish :
        Speculator
        → List (ℕ × D)
        → M
        → Option (S × Accepted L)
        → Option (Speculator × M × S × Round L)
    finish sp drafts m none = none
    finish sp drafts m (some (s, a)) = some (
      record sp { stats = counted (length drafts) a.count sp.stats },
      rn.commit a.count m,
      s,
      record {
        accepted = take a.count (drafted_tokens drafts);
        next = a.next;
        next_logits = a.row;
      },
    )

    verified : Speculator → ℕ → S → M × List (ℕ × D) → Option (Speculator × M × S × Round L)
    unfolding finish accept
    verified sp t0 s (m, drafts) =
        let (m', rows) = rn.verify (t0 ∷ drafted_tokens drafts) m in
        finish sp drafts m' (accept s drafts rows)

    -- `round`
    unfoldable pub round :
        Speculator → M → ℕ → ℕ → S → List ℕ → Option (Speculator × M × S × Round L)
    unfolding verified draw draft_limit
    round sp m t0 budget s stop_at =
        let k = draft_limit sp.k budget (rn.n_ckpt m) (rn.batch_max m) in
        let (s', us) = draw k s in
        let plan : DraftPlan R T = record {
          settings = sm.settings s;
          uniforms = us;
          stop_at = stop_at;
        } in
        verified sp t0 s' (rn.mtp_draft t0 (rn.n_past m) plan m)
