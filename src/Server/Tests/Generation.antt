-- ===== src/Server/Tests/Generation.antt =====
-- Instances of the theorems on generation, for a model that counts: after `t` comes `t + 1`.
use tr_infer.Prelude.{
  ℕ, suc, ◌+◌, ◌≡◌, refl, ap, false, some, List, [], ◌∷◌, map, length, leb, ltb, ◌==◌,
  if◌then◌else◌, arith,
}
use tr_infer.Model.Spec.{Sampling, Runs, Speculator, round, draw, draft_limit, accept, verdict}
use tr_infer.Model.Spec.Rounds.{KeepsPosition, RoundOutcome, round_lem}
use tr_infer.Server.Generate.{Emitter, Gen, Reason, by_stop, emit, emit_accepted, generate}
use tr_infer.Server.Generate.Ends.{Advances, Generated, generate_lem}
use tr_infer.Server.Generate.Ahead.{Speculates, generate-ahead, generate-overrun}

abbrev sampling : Sampling ℕ ℕ ℕ ℕ ℕ
sampling = record {
  settings = λ s. s;
  uniform = λ s. (s + 1, 0);
  dist = λ s l. l;
  prob = λ d t. if d == t then 1 else 0;
  sample = λ s l. (s, l);
  residual_sample = λ s p q. (s, p);
  positive = λ r. ltb 0 r;
  at_least = λ p q. leb q p;
  below = λ p q. ltb p q;
  ratio = λ p q. p;
}

abbrev drafts_from : ℕ → List ℕ → List (ℕ × ℕ)
drafts_from t [] = []
drafts_from t (u ∷ us) = (t + 1, t + 1) ∷ drafts_from (t + 1) us

abbrev runs : Runs ℕ ℕ ℕ ℕ ℕ
runs = record {
  n_past = λ m. m;
  n_ckpt = λ m. 8;
  batch_max = λ m. 8;
  mtp_draft = λ t p plan m. (m, drafts_from t plan.uniforms);
  verify = λ toks m. (m, map (λ t. t + 1) toks);
  commit = λ j m. m + 1 + j;
}

length-drafts_from : (t : ℕ) (us : List ℕ) → length (drafts_from t us) ≡ length us
length-drafts_from t [] = refl
length-drafts_from t (u ∷ us) = ap suc (length-drafts_from (t + 1) us)

length-map : (f : ℕ → ℕ) (xs : List ℕ) → length (map f xs) ≡ length xs
length-map f [] = refl
length-map f (x ∷ xs) = ap suc (length-map f xs)

runs-KeepsPosition : KeepsPosition runs
runs-KeepsPosition = record {
  draft_at = λ t p plan m. refl;
  drafts = λ t p plan m. omega (arith, length-drafts_from t plan.uniforms);
  rows = λ toks m. length-map (λ t. t + 1) toks;
  commit_at = λ toks m j h. refl;
}

abbrev three : Speculator
three = record { k = 3; stats = record { rounds = 0; drafted = 0; accepted = 0 } }

round_lem_example :
    RoundOutcome sampling runs three 7 4 5 0 [] (round sampling runs three 7 4 5 0 [])
round_lem_example = round_lem sampling runs runs-KeepsPosition three 7 4 5 0 []

-- The output stops at the token 5.
abbrev emitter : Emitter ℕ ℕ
emitter = record { push = λ t e s. (e + 1, s, t == 5); n_gen = λ e. e }

abbrev step : ℕ → ℕ → ℕ × ℕ
step t m = (m + 1, t + 1)

advances : (max_tokens : ℕ) → Advances emitter sampling runs step (99 ∷ []) max_tokens
advances max_tokens = record {
  counts = λ t e s. refl;
  steps = λ t m. refl;
  runs = runs-KeepsPosition;
}

abbrev begun : ℕ → Gen ℕ ℕ ℕ ℕ
begun t = record {
  model = 2;
  stepped = 2 ∷ 3 ∷ [];
  sampler = 0;
  emitter = 0;
  logits = 0;
  next = t;
  spec = some three;
}

generate_lem_example :
    Generated emitter sampling runs step
      (99 ∷ [])
      6
      (begun 10)
      (generate emitter sampling runs step (99 ∷ []) 6 8 (λ i. false) (begun 10))
generate_lem_example =
    generate_lem emitter sampling runs step (99 ∷ []) 6 (advances 6) 8 (λ i. false) (begun 10)
      (omega arith) (omega arith)

begun-Speculates :
    Speculates emitter sampling runs step
      (99 ∷ [])
      10
      (λ i. false)
      (begun 3)
      three
      (record { k = 3; stats = record { rounds = 1; drafted = 3; accepted = 3 } })
      6
      3
      (record { accepted = 4 ∷ 5 ∷ 6 ∷ []; next = 7; next_logits = 7 })
unfolding round draw draft_limit accept verdict emit
begun-Speculates = record {
  goes_on = refl;
  no_stop = refl;
  pushed = refl;
  room = refl;
  on = refl;
  runs = refl;
}

generate-ahead_example :
    (g' : Gen ℕ ℕ ℕ ℕ) × (generate emitter sampling runs step (99 ∷ []) 10 4 (λ i. false) (begun 3)
      ≡ some (by_stop, g'))
    × (g'.model ≡ length g'.stepped + 1)
unfolding emit emit_accepted
generate-ahead_example =
    generate-ahead emitter sampling runs step (99 ∷ []) 10 (advances 10) 3 (λ i. false) (begun 3)
      three (record { k = 3; stats = record { rounds = 1; drafted = 3; accepted = 3 } }) 6 3
      (record { accepted = 4 ∷ 5 ∷ 6 ∷ []; next = 7; next_logits = 7 }) (4 ∷ []) 5 (6 ∷ [])
      begun-Speculates refl refl refl refl refl

filling-Speculates :
    Speculates emitter sampling runs step
      (99 ∷ [])
      3
      (λ i. false)
      (begun 10)
      three
      (record { k = 3; stats = record { rounds = 1; drafted = 2; accepted = 2 } })
      5
      2
      (record { accepted = 11 ∷ 12 ∷ []; next = 13; next_logits = 13 })
unfolding round draw draft_limit accept verdict emit
filling-Speculates = record {
  goes_on = refl;
  no_stop = refl;
  pushed = refl;
  room = refl;
  on = refl;
  runs = refl;
}

generate-overrun_example :
    (reason : Reason) × (g' : Gen ℕ ℕ ℕ ℕ) × (generate emitter sampling runs step
        (99 ∷ [])
        3
        5
        (λ i. false)
        (begun 10)
      ≡ some (reason, g'))
    × (g'.emitter ≡ 4)
unfolding emit emit_accepted
generate-overrun_example =
    generate-overrun emitter sampling runs step (99 ∷ []) 3 (advances 3) 3 (λ i. false) (begun 10)
      three (record { k = 3; stats = record { rounds = 1; drafted = 2; accepted = 2 } }) 5 2
      (record { accepted = 11 ∷ 12 ∷ []; next = 13; next_logits = 13 }) filling-Speculates refl refl
      refl refl
