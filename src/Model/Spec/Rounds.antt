-- ===== src/Model/Spec/Rounds.antt =====
-- crates/tr-model/src/spec.rs: what a round does to the model and to the statistics.
use tr_infer.Prelude.{
  ℕ, zero, suc, ◌+◌, ◌≤◌, ◌<◌, ◌≡◌, refl, ap, Option, some, List, [], ◌∷◌, length, max, take,
  length-take, arith,
}
use tr_infer.Model.Spec.{
  Sampling, DraftPlan, Runs, Round, Speculator, Accepted, draft_limit, draw, drafted_tokens, finish,
  verified, round, counted,
}
use tr_infer.Model.Spec.Accept.{IsAccepted, accept_lem}

-- What the runs of the model promise (the comments of `mtp_draft`, `verify` and `commit`).
pub record KeepsPosition {M D R L T : Type 0} (rn : Runs M D R L T) : Type 0 where
  pub draft_at :
      (t p : ℕ) (plan : DraftPlan R T) (m : M) → rn.n_past (rn.mtp_draft t p plan m).0 ≡ rn.n_past m
  pub drafts :
      (t p : ℕ) (plan : DraftPlan R T) (m : M)
      → length (rn.mtp_draft t p plan m).1 ≤ length plan.uniforms
  pub rows : (toks : List ℕ) (m : M) → length (rn.verify toks m).1 ≡ length toks
  pub commit_at :
      (toks : List ℕ) (m : M) (j : ℕ)
      → j < length toks
      → rn.n_past (rn.commit j (rn.verify toks m).0) ≡ rn.n_past m + 1 + j

length-drafted :
    {D : Type 0} (drafts : List (ℕ × D)) → length (drafted_tokens drafts) ≡ length drafts
length-drafted [] = refl
length-drafted (d ∷ drafts) = ap suc (length-drafted drafts)

length-draw :
    {S D R L T : Type 0} (sm : Sampling S D R L T) (k : ℕ) (s : S) → length (draw sm k s).1 ≡ k
unfolding draw
length-draw sm zero s = refl
length-draw sm (suc k) s = ap suc (length-draw sm k (sm.uniform s).0)

pub draft_limit-le : (k budget c b : ℕ) → draft_limit k budget c b ≤ max budget 1
unfolding draft_limit
draft_limit-le k budget c b = omega arith

module _ {S D R L T M : Type 0} (sm : Sampling S D R L T) (rn : Runs M D R L T) where
  -- A round from the model `m` with the sampler `s` to the model `m'` with the sampler `s'`: what is
  -- drawn, the drafts with the model behind them, the rows with the model behind those, and what is
  -- accepted.
  pub record IsRound (sp : Speculator) (m : M) (t0 budget : ℕ) (s : S) (stop_at : List ℕ)
      (sp' : Speculator) (m' : M) (s' : S) (rd : Round L) : Type 0 where
    pub drawn : S × List R
    pub drafted : M × List (ℕ × D)
    pub checked : M × List L
    pub outcome : Accepted L
    pub draws : drawn ≡ draw sm (draft_limit sp.k budget (rn.n_ckpt m) (rn.batch_max m)) s
    pub drafts :
        drafted
        ≡ rn.mtp_draft t0
            (rn.n_past m)
            (record { settings = sm.settings s; uniforms = drawn.1; stop_at = stop_at })
            m
    pub checks : checked ≡ rn.verify (t0 ∷ drafted_tokens drafted.1) drafted.0
    pub judged : IsAccepted sm drawn.0 drafted.1 checked.1 s' outcome
    pub commits : m' ≡ rn.commit outcome.count checked.0
    pub limit : length drafted.1 ≤ max budget 1
    pub accepted : rd.accepted ≡ take outcome.count (drafted_tokens drafted.1)
    pub count : length rd.accepted ≡ outcome.count
    pub next : rd.next ≡ outcome.next
    pub logits : rd.next_logits ≡ outcome.row
    pub position : rn.n_past m' ≡ rn.n_past m + 1 + length rd.accepted
    pub stats : sp'.stats ≡ counted (length drafted.1) outcome.count sp.stats

  abbrev pub RoundOutcome :
      Speculator → M → ℕ → ℕ → S → List ℕ → Option (Speculator × M × S × Round L) → Type 0
  RoundOutcome sp m t0 budget s stop_at r =
      (sp' : Speculator) × (m' : M) × (s' : S) × (rd : Round L) × (r ≡ some (sp', m', s', rd))
      × IsRound sp m t0 budget s stop_at sp' m' s' rd

  verified_lem :
      KeepsPosition rn
      → (sp : Speculator) (m m1 : M) (t0 budget : ℕ) (s s1 : S) (us : List R) (stop_at : List ℕ)
        (drafts : List (ℕ × D))
      → (s1, us) ≡ draw sm (draft_limit sp.k budget (rn.n_ckpt m) (rn.batch_max m)) s
      → (m1, drafts)
        ≡ rn.mtp_draft t0
            (rn.n_past m)
            (record { settings = sm.settings s; uniforms = us; stop_at = stop_at })
            m
      → rn.n_past m1 ≡ rn.n_past m
      → length drafts ≤ max budget 1
      → RoundOutcome sp m t0 budget s stop_at (verified sm rn sp t0 s1 (m1, drafts))
  unfolding verified finish
  verified_lem k sp m m1 t0 budget s s1 us stop_at drafts draws drafted at limit =
      let toks = t0 ∷ drafted_tokens drafts in
      let n = length-drafted drafts in
      let (s', a, e, is) =
        accept_lem sm s1 drafts (rn.verify toks m1).1 (omega (arith, k.rows toks m1, n)) in
      let counts : length (take a.count (drafted_tokens drafts)) ≡ a.count =
        omega (arith, length-take a.count (drafted_tokens drafts), n, is.within) in
      (
        record sp { stats = counted (length drafts) a.count sp.stats },
        rn.commit a.count (rn.verify toks m1).0,
        s',
        record {
          accepted = take a.count (drafted_tokens drafts);
          next = a.next;
          next_logits = a.row;
        },
        rw e,
        record {
          drawn = (s1, us);
          drafted = (m1, drafts);
          checked = rn.verify toks m1;
          outcome = a;
          draws = draws;
          drafts = drafted;
          checks = refl;
          judged = is;
          commits = refl;
          limit = limit;
          accepted = refl;
          count = counts;
          next = refl;
          logits = refl;
          position =
              omega (arith, k.commit_at toks m1 a.count (omega (arith, n, is.within)), at, counts);
          stats = refl;
        },
      )

  -- A round never panics. It draws one number for each draft that it may make, has the model draft
  -- from the pending token at the model's position with them, and verifies the pending token and the
  -- drafts. It accepts the drafts in order up to the first that is rejected, at most `budget` of them
  -- (or one, without budget); the next token is from the row behind them; it commits the accepted
  -- drafts, so that the model stands behind the pending token and them, and the statistics count
  -- them. The runs of the model keep their promises on positions and lengths.
  pub round_lem :
      KeepsPosition rn
      → (sp : Speculator) (m : M) (t0 budget : ℕ) (s : S) (stop_at : List ℕ)
      → RoundOutcome sp m t0 budget s stop_at (round sm rn sp m t0 budget s stop_at)
  unfolding round
  round_lem k sp m t0 budget s stop_at =
      let n = draft_limit sp.k budget (rn.n_ckpt m) (rn.batch_max m) in
      let us = draw sm n s in
      let plan : DraftPlan R T = record {
        settings = sm.settings s;
        uniforms = us.1;
        stop_at = stop_at;
      } in
      let at = rn.n_past m in
      let dr = rn.mtp_draft t0 at plan m in
      verified_lem k sp m dr.0 t0 budget s us.0 us.1 stop_at dr.1 refl refl
        (k.draft_at t0 at plan m)
        (omega (
          arith,
          k.drafts t0 at plan m,
          length-draw sm n s,
          draft_limit-le sp.k budget (rn.n_ckpt m) (rn.batch_max m),
        ))
