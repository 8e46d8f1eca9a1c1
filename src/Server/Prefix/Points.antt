-- ===== src/Server/Prefix/Points.antt =====
-- crates/tr-infer/src/server/prefix_cache.rs: the snapshot points of a prompt.
use tr_infer.Prelude.{
  ℕ, ◌≤◌, ◌<◌, ◌≡◌, ◌⊎◌, inl, inr, refl, sym, ap, ◌∙◌, Bool, true, false, ◌&&◌, List, [], ◌∷◌, map,
  leb, ltb, u64_max, select, All, Listed, Bool-cases, arith, leb→le, ltb→lt, subst,
}
use tr_infer.Prelude.Sort.{sort, sort-All}
use tr_infer.Cache.Role.{Role, Span, len}
use tr_infer.Cache.Policy.{get}
use tr_infer.Server.Prefix.{
  SnapshotPolicy, Settings, message, request, persist_cut, is_point, point_of, before_point, under,
  dedup, snapshot_points,
}
use tr_infer.Server.Prefix.Cut.{
  persist_cut-le, persist_cut-reached, IsIncreasing, At, sort-IsAscending, sort-At, dedup_lem,
}

policy_cases : (p : SnapshotPolicy) → (p ≡ message) ⊎ (p ≡ request)
policy_cases message = inl refl
policy_cases request = inr refl

differ : request ≡ message → ⊥
differ e = cc

module _ (o : Settings) (spans : List Span) (from n : ℕ) where
  -- A span to stop at the end of: the end is within the prompt that is to be computed and before
  -- the first span that is not stored, the span is long enough, and its role takes snapshots.
  pub record IsWanted (s : Span) : Type 0 where
    pub long : o.min_tokens ≤ len s
    pub after : from < s.stop
    pub within : s.stop ≤ n
    pub stored : s.stop ≤ persist_cut o spans
    pub taken : (get o.roles s.role).snapshot ≡ true

  -- The place and the role of such a span.
  abbrev pub IsStop : ℕ × Role → Type 0
  IsStop p = (s : Span) × Listed s spans × (point_of s ≡ p) × IsWanted s

  both : (a b : Bool) → (a && b) ≡ true → (a ≡ true) × (b ≡ true)
  both true b h = (refl, h)
  both false b h = cc

  is_point-IsWanted : (s : Span) → is_point o (persist_cut o spans) from n s ≡ true → IsWanted s
  unfolding is_point
  is_point-IsWanted s h =
      let (long, h1) = both (leb o.min_tokens (len s)) _ h in
      let (later, h2) = both (ltb from s.stop) _ h1 in
      let (within, h3) = both (leb s.stop n) _ h2 in
      let (stored, wanted) = both (leb s.stop (persist_cut o spans)) _ h3 in
      record {
        long = leb→le o.min_tokens (len s) long;
        after = ltb→lt from s.stop later;
        within = leb→le s.stop n within;
        stored = leb→le s.stop (persist_cut o spans) stored;
        taken = wanted;
      }

  IsWanted-is_point : (s : Span) → IsWanted s → is_point o (persist_cut o spans) from n s ≡ true
  unfolding is_point
  IsWanted-is_point s h =
      let long : leb o.min_tokens (len s) ≡ true = let k = h.long in ground arith in
      let later : ltb from s.stop ≡ true = let k = h.after in ground arith in
      let within : leb s.stop n ≡ true = let k = h.within in ground arith in
      let stored : leb s.stop (persist_cut o spans) ≡ true = let k = h.stored in ground arith in
      rw (long, later, within, stored) h.taken

  select-IsStop :
      (xs : List Span)
      → ((s : Span) → Listed s xs → Listed s spans)
      → All IsStop (map point_of (select (is_point o (persist_cut o spans) from n) xs))
  select-IsStop [] h = tt
  select-IsStop (s ∷ xs) h = elim (Bool-cases (is_point o (persist_cut o spans) from n s)) [
    | inl t ↦
        rw (select, t)
          ((s, h s (inl refl), refl, is_point-IsWanted s t), select-IsStop xs (λ y l. h y (inr l)))
    | inr f ↦ rw (select, f) (select-IsStop xs (λ y l. h y (inr l)))
  ]

  select-At :
      (xs : List Span) (s : Span)
      → Listed s xs
      → is_point o (persist_cut o spans) from n s ≡ true
      → At s.stop (map point_of (select (is_point o (persist_cut o spans) from n) xs))
  select-At [] s l h = absurd l
  select-At (x ∷ xs) s l h = elim (Bool-cases (is_point o (persist_cut o spans) from n x)) [
    | inl t ↦
        rw (select, t)
          (elim l [
            | inl e ↦ inl (ap (λ (y : Span). y.stop) (sym e))
            | inr r ↦ inr (select-At xs s r h)
          ])
    | inr f ↦
        rw (select, f)
          (elim l [
            | inl e ↦
                let k : true ≡ false = sym h ∙ ap (is_point o (persist_cut o spans) from n) e ∙ f in
                cc
            | inr r ↦ select-At xs s r h
          ])
  ]

  IsStop-after : (p : ℕ × Role) → IsStop p → 0 < p.0
  IsStop-after p (s, listed, e, h) = omega (arith, h.after, ap (λ (q : ℕ × Role). q.0) e)

  -- What is known of the points.
  abbrev pub Stops : List (ℕ × Role) → Type 0
  Stops points =
      All IsStop points
      × IsIncreasing 0 points
      × (o.policy ≡ message → (s : Span) → Listed s spans → IsWanted s → At s.stop points)
      × (o.policy ≡ request → points ≡ [])
      × All (λ (s : Span). ((get o.roles s.role).persist ≡ true) ⊎ (persist_cut o spans ≤ s.start))
          spans
      × ((persist_cut o spans ≡ u64_max)
          ⊎ ((s : Span) × Listed s spans
              × ((get o.roles s.role).persist ≡ false)
              × (persist_cut o spans ≡ s.start)))

  -- Prefill stops for a snapshot only at the end of a span of the prompt, one of at least
  -- `min_tokens` tokens whose role takes snapshots, within the part that is to be computed and not
  -- behind the cut; the stops go up; under the `message` policy it stops at the end of every such
  -- span, under `request` nowhere. The cut is the start of the first span by position whose role is not
  -- stored, or the last `usize` when all are stored.
  pub snapshot_points_lem : Stops (snapshot_points o spans from n)
  unfolding snapshot_points
  snapshot_points_lem =
      let found = map point_of (select (is_point o (persist_cut o spans) from n) spans) in
      let (good, up, all) =
        dedup_lem IsStop (sort before_point found) (λ p (h : IsStop p). IsStop-after p h)
          (sort-All before_point IsStop found (select-IsStop spans (λ s l. l)))
          (sort-IsAscending found) in
      let stops = dedup (sort before_point found) in
      elim (policy_cases o.policy) [
        | inl m ↦ subst Stops (sym (ap (λ p. under p stops) m)) (
          good,
          up,
          (λ e s l h.
              all s.stop (sort-At s.stop found (select-At spans s l (IsWanted-is_point s h)))),
          (λ e. absurd (differ (sym e ∙ m))),
          persist_cut-le o spans,
          persist_cut-reached o spans,
        )
        | inr r ↦ subst Stops (sym (ap (λ p. under p stops) r)) (
          tt,
          tt,
          (λ e s l h. absurd (differ (sym r ∙ e))),
          (λ e. refl),
          persist_cut-le o spans,
          persist_cut-reached o spans,
        )
      ]
