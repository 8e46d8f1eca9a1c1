-- ===== src/Server/Restore/Choice.antt =====
-- crates/tr-infer/src/server/prefix_cache.rs: the plan that `restore` chooses.
use tr_infer.Prelude.{
  ℕ, suc, ◌≤◌, ◌<◌, ◌≡◌, ◌≢◌, Bool, ◌&&◌, true, leb, ◌⊎◌, inl, inr, refl, sym, ap, ◌∙◌, false,
  Option, none, some, List, length, take, ltb, ◌==◌, dec_lt, arith, Bool-cases, subst, length-take,
  ==_iff,
}
use tr_infer.Cache.Key.{PrefixKey}
use tr_infer.Cache.Backend.{Backend}
use tr_infer.Cache.Index.{Cache}
use tr_infer.Cache.Restore.{RestorePlan, best_restore}
use tr_infer.Cache.Restore.Deepest.{best_restore-Deepest}
use tr_infer.Cache.Restore.Contiguous.{Covers, best_restore-Covers}
use tr_infer.Server.Restore.{Engine, lacks_logits, second_choice, choose}

both_true : (a b : Bool) → (a && b) ≡ true → (a ≡ true) × (b ≡ true)
both_true true b h = (refl, h)
both_true false b h = cc

module _ (be : Backend) {F : Type 0} (en : Engine F) where
  -- Less than the whole prompt, or a snapshot that is longer than one without logits.
  abbrev pub Suffices : List ℕ → en.State → Option RestorePlan → Type 0
  Suffices ids m none = Unit
  Suffices ids m (some p) = (p.pos ≢ length ids) ⊎ (en.snapshot_bytes m 0 < p.snapshot.bytes)

  -- The plan is the deepest of the cache; or that is the whole prompt without logits, and the plan is
  -- the deepest under the keys of a shorter prompt.
  abbrev pub Choice :
      (clock clock' : ℕ → ℕ)
      → List ℕ
      → List PrefixKey
      → en.State
      → Cache
      → Option RestorePlan
      → Cache
      → Type 0
  Choice clock clock' ids keys m c o c' =
      ((best_restore clock keys c ≡ some (o, c')) × Suffices ids m o)
      ⊎ ((first : RestorePlan) × (c1 : Cache) × (best_restore clock keys c ≡ some (some first, c1))
          × (first.pos ≡ length ids)
          × (first.snapshot.bytes ≤ en.snapshot_bytes m 0)
          × (best_restore clock' (take (length ids) keys) c1 ≡ some (o, c')))

  -- A plan that `restore` follows.
  pub record Usable (ids : List ℕ) (m : en.State) (plan : RestorePlan) : Type 0 where
    pub covers : Covers 0 plan.pos plan.chunks
    pub within : plan.pos ≤ length ids
    -- the whole prompt only with the logits behind it
    pub logits : (plan.pos < length ids) ⊎ (en.snapshot_bytes m 0 < plan.snapshot.bytes)

  first_plan :
      (clock : ℕ → ℕ) (keys : List PrefixKey) (c : Cache)
      → (o : Option RestorePlan) × (c' : Cache) × (best_restore clock keys c ≡ some (o, c'))
  first_plan clock keys c = let (o, c', e, _) = best_restore-Deepest clock keys c in (o, c', e)

  lacks_true :
      (ids : List ℕ) (m : en.State) (p : RestorePlan)
      → lacks_logits be en ids m p ≡ true
      → (p.pos ≡ length ids) × (p.snapshot.bytes ≤ en.snapshot_bytes m 0)
  lacks_true ids m p h =
      let (whole, short) =
        both_true (p.pos == length ids) (leb p.snapshot.bytes (en.snapshot_bytes m 0)) h in
      ((==_iff p.pos (length ids)).0 whole, let k = short in ground arith)

  lacks_false :
      (ids : List ℕ) (m : en.State) (p : RestorePlan)
      → lacks_logits be en ids m p ≡ false
      → (p.pos ≢ length ids) ⊎ (en.snapshot_bytes m 0 < p.snapshot.bytes)
  lacks_false ids m p h = elim (Bool-cases (p.pos == length ids)) [
    | inr f ↦
        inl
          (λ e. let t = (==_iff p.pos (length ids)).1 e in let no : true ≡ false = sym t ∙ f in cc)
    | inl t ↦
        let f : leb p.snapshot.bytes (en.snapshot_bytes m 0) ≡ false = rw t at h in
        inr (ground arith)
  ]

  shorter : (a b : ℕ) (P : Type 0) → a ≤ b → (a ≢ b) ⊎ P → (a < b) ⊎ P
  shorter a b P l (inl differ) =
      inl (elim (dec_lt a b) [ yes k ↦ k | no k ↦ absurd (differ (omega arith)) ])
  shorter a b P l (inr p) = inr p

  second_plan :
      (clock : ℕ → ℕ) (ids : List ℕ) (keys : List PrefixKey) (m : en.State) (c : Cache)
      → length keys ≡ suc (length ids)
      → (o : Option RestorePlan) × (c' : Cache) × (best_restore clock (take (length ids) keys) c
          ≡ some (o, c'))
        × ((p : RestorePlan) → o ≡ some p → Usable ids m p)
  second_plan clock ids keys m c h =
      let (o, c', e) = first_plan clock (take (length ids) keys) c in
      (
        o,
        c',
        e,
        (λ p is.
            let hit = e ∙ ap (λ x. some (x, c')) is in
            let (covers, bound) = best_restore-Covers clock (take (length ids) keys) c c' p hit in
            let inside : p.pos < length ids = omega (arith, length-take (length ids) keys) in
            record { covers = covers; within = omega arith; logits = inl inside }),
      )

  -- A choice that is made, with a plan that can be followed.
  abbrev pub Chosen :
      (clock clock' : ℕ → ℕ)
      → List ℕ
      → List PrefixKey
      → en.State
      → Cache
      → Option (Option RestorePlan × Cache)
      → Type 0
  Chosen clock clock' ids keys m c r =
      (o : Option RestorePlan) × (c' : Cache) × (r ≡ some (o, c'))
      × Choice clock clock' ids keys m c o c'
      × ((p : RestorePlan) → o ≡ some p → Usable ids m p)

  second_choice_lem :
      (clock clock' : ℕ → ℕ) (ids : List ℕ) (keys : List PrefixKey) (m : en.State) (c c' : Cache)
      (o : Option RestorePlan)
      → length keys ≡ suc (length ids)
      → best_restore clock keys c ≡ some (o, c')
      → Chosen clock clock' ids keys m c (second_choice be en clock' ids keys m (o, c'))
  unfolding second_choice
  second_choice_lem clock clock' ids keys m c c' none h e = (none, c', refl, inl (e, tt), λ p k. cc)
  second_choice_lem clock clock' ids keys m c c' (some p) h e =
      elim (Bool-cases (lacks_logits be en ids m p)) [
        | inl t ↦
            let (o', c2, e', u) = second_plan clock' ids keys m c' h in
            let (whole, short) = lacks_true ids m p t in
            let long : ltb (length keys) (length ids) ≡ false = ground arith in
            (o', c2, rw (t, long) e', inr (p, c', e, whole, short, e'), u)
        | inr f ↦
            let (covers, bound) = best_restore-Covers clock keys c c' p e in
            let why = lacks_false ids m p f in
            (
              some p,
              c',
              rw f,
              inl (e, why),
              (λ q is.
                  let same : p ≡ q = cc in
                  subst (Usable ids m) same (record {
                    covers = covers;
                    within = omega arith;
                    logits = shorter p.pos (length ids) _ (omega arith) why;
                  })),
            )
      ]

  pub choose_lem :
      (clock clock' : ℕ → ℕ) (ids : List ℕ) (keys : List PrefixKey) (m : en.State) (c : Cache)
      → length keys ≡ suc (length ids)
      → Chosen clock clock' ids keys m c (choose be en clock clock' ids keys m c)
  unfolding choose
  choose_lem clock clock' ids keys m c h =
      let (o, c', e) = first_plan clock keys c in
      let runs : choose be en clock clock' ids keys m c
          ≡ second_choice be en clock' ids keys m (o, c') =
        rw (e, choose) in
      subst (Chosen clock clock' ids keys m c) (sym runs)
        (second_choice_lem clock clock' ids keys m c c' o h e)
