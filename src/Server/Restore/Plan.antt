-- ===== src/Server/Restore/Plan.antt =====
-- crates/tr-infer/src/server/prefix_cache.rs: what `restore` does to the model.
use tr_infer.Prelude.{
  ℕ, suc, ◌≡◌, ◌≢◌, ◌+◌, true, ◌⊎◌, inl, inr, refl, sym, ap, ◌∙◌, false, Option, none, some, List,
  [], length, ◌==◌, Bool-cases, subst, ==_iff,
}
use tr_infer.Cache.Key.{PrefixKey}
use tr_infer.Cache.Object.{snap}
use tr_infer.Cache.Backend.{Backend}
use tr_infer.Cache.Index.{Cache}
use tr_infer.Cache.Restore.{RestorePlan}
use tr_infer.Model.Sequence.{HostState}
use tr_infer.Server.Restore.{
  RestoreError, Attempt, success, failure, bad_snapshot, other_position, Engine, Restored, Store,
  read, delete_each, imported, restore_snapshot, after_rows, restore_plan, settled, follow, restore,
  logits_of,
}
use tr_infer.Server.Restore.Choice.{Choice, Usable, choose_lem}
use tr_infer.Server.Restore.Rows.{Covers-Inside, total, Breaks, Imported, restore_rows_lem}

module _ (be : Backend) {F : Type 0} (en : Engine F) where
  -- What a successful run of a plan has done, from the model `m` and the store `w`.
  pub record IsRestored (clock : ℕ → ℕ) (ids : List ℕ) (plan : RestorePlan) (m : en.State)
      (w : Store be) (m' : en.State) (w' : Store be) (r : Restored F) : Type 0 where
    pub pos : r.pos ≡ plan.pos
    pub rows : r.rows ≡ length plan.chunks
    pub bytes : r.bytes ≡ total plan.chunks + plan.snapshot.bytes
    pub m1 : en.State
    pub w1 : Store be
    pub imported : Imported be en clock ids plan.chunks m w m1 w1 r.rows (total plan.chunks)
    pub body : List ℕ
    pub host : HostState F
    -- the body of the snapshot is read and imported, and is at the position
    pub reads :
        read be (clock (length plan.chunks)) plan.snapshot.key snap plan.snapshot.bytes w1
        ≡ (w', success body)
    pub state : en.import_snapshot body m1 ≡ (m', some host)
    pub at_pos : host.n_past ≡ plan.pos
    pub logits : r.last_logits ≡ logits_of host.extra

  -- Why the snapshot is not imported: it is not read, it is no snapshot, or one of another position.
  abbrev pub SnapshotFails : ℕ → RestorePlan → en.State → Store be → RestoreError → Type 0
  SnapshotFails now plan m w e =
      ((read be now plan.snapshot.key snap plan.snapshot.bytes w).1 ≡ failure e)
      ⊎ ((body : List ℕ) × ((read be now plan.snapshot.key snap plan.snapshot.bytes w).1
            ≡ success body)
          × (((e ≡ bad_snapshot) × ((en.import_snapshot body m).1 ≡ none))
              ⊎ ((e ≡ other_position)
                  × (host : HostState F) × ((en.import_snapshot body m).1 ≡ some host)
                  × (host.n_past ≢ plan.pos))))

  -- Why a plan fails.
  abbrev pub PlanFails :
      (ℕ → ℕ) → List ℕ → RestorePlan → en.State → Store be → RestoreError → Type 0
  PlanFails clock ids plan m w e =
      Breaks be en clock ids plan.chunks m w e
      ⊎ ((m1 : en.State) × (w1 : Store be) × (k b : ℕ) × Imported be en clock ids plan.chunks m w m1
            w1 k b
          × SnapshotFails (clock (length plan.chunks)) plan m1 w1 e)

  abbrev pub PlanOutcome :
      (ℕ → ℕ)
      → List ℕ
      → RestorePlan
      → en.State
      → Store be
      → Option ((en.State × Store be) × Attempt (Restored F))
      → Type 0
  PlanOutcome clock ids plan m w r =
      ((out : en.State × Store be) × (e : RestoreError) × (r ≡ some (out, failure e))
        × PlanFails clock ids plan m w e)
      ⊎ ((m' : en.State) × (w' : Store be) × (x : Restored F) × (r ≡ some ((m', w'), success x))
          × IsRestored clock ids plan m w m' w' x)

  imported_lem :
      (clock : ℕ → ℕ) (ids : List ℕ) (plan : RestorePlan) (m m1 : en.State) (w w1 w2 : Store be)
      (k b : ℕ) (body : List ℕ) (o : en.State × Option (HostState F))
      → Imported be en clock ids plan.chunks m w m1 w1 k b
      → read be (clock (length plan.chunks)) plan.snapshot.key snap plan.snapshot.bytes w1
        ≡ (w2, success body)
      → en.import_snapshot body m1 ≡ o
      → PlanOutcome clock ids plan m w (some (imported be en plan.pos k b plan.snapshot.bytes w2 o))
  unfolding imported
  imported_lem clock ids plan m m1 w w1 w2 k b body (m2, none) i got e = inl (
    (m2, w2),
    bad_snapshot,
    refl,
    inr (m1, w1, k, b, i, inr (body, ap (λ x. x.1) got, inl (refl, ap (λ x. x.1) e))),
  )
  imported_lem clock ids plan m m1 w w1 w2 k b body (m2, some host) i got e =
      elim (Bool-cases (host.n_past == plan.pos)) [
        | inr f ↦ rw f (
            inl (
              (m2, w2),
              other_position,
              refl,
              inr (
                m1,
                w1,
                k,
                b,
                i,
                inr (
                  body,
                  ap (λ x. x.1) got,
                  inr (
                    refl,
                    host,
                    ap (λ x. x.1) e,
                    (λ q.
                        let t = (==_iff host.n_past plan.pos).1 q in
                        let no : true ≡ false = sym t ∙ f in cc),
                  ),
                ),
              ),
            ))
        | inl t ↦ rw t (
            inr (
              m2,
              w2,
              _,
              refl,
              record {
                pos = refl;
                rows = i.counted;
                bytes = ap (λ n. n + plan.snapshot.bytes) i.summed;
                m1 = m1;
                w1 = w1;
                imported =
                    subst (λ n. Imported be en clock ids plan.chunks m w m1 w1 k n) i.summed i;
                body = body;
                host = host;
                reads = got;
                state = e;
                at_pos = (==_iff host.n_past plan.pos).0 t;
                logits = refl;
              },
            ))
      ]

  restore_snapshot_lem :
      (clock : ℕ → ℕ) (ids : List ℕ) (plan : RestorePlan) (m m1 : en.State) (w w1 : Store be)
      (k b : ℕ) (x : Store be × Attempt (List ℕ))
      → Imported be en clock ids plan.chunks m w m1 w1 k b
      → read be (clock (length plan.chunks)) plan.snapshot.key snap plan.snapshot.bytes w1 ≡ x
      → PlanOutcome clock ids plan m w
          (some (restore_snapshot be en (clock (length plan.chunks)) plan k b m1 x))
  unfolding restore_snapshot
  restore_snapshot_lem clock ids plan m m1 w w1 k b (w2, failure e) i got =
      inl ((m1, w2), e, refl, inr (m1, w1, k, b, i, inl (ap (λ x. x.1) got)))
  restore_snapshot_lem clock ids plan m m1 w w1 k b (w2, success body) i got =
      imported_lem clock ids plan m m1 w w1 w2 k b body (en.import_snapshot body m1) i got refl

  restore_plan_lem :
      (clock : ℕ → ℕ) (ids : List ℕ) (plan : RestorePlan) (m : en.State) (w : Store be)
      → Usable be en ids m plan
      → PlanOutcome clock ids plan m w (restore_plan be en clock ids plan m w)
  unfolding restore_plan after_rows restore_snapshot
  restore_plan_lem clock ids plan m w u =
      elim (restore_rows_lem be en clock ids plan.chunks m w
        (Covers-Inside 0 plan.pos ids plan.chunks u.covers u.within)) [
          | inl (out, e, failed, why) ↦ rw failed (inl (out, e, refl, inl why))
          | inr (m1, w1, k, b, done_rows, i) ↦
              let now = clock (length plan.chunks) in
              let r = read be now plan.snapshot.key snap plan.snapshot.bytes w1 in
              let runs : restore_plan be en clock ids plan m w
                  ≡ some (restore_snapshot be en now plan k b m1 r) =
                rw done_rows in
              subst (PlanOutcome clock ids plan m w) (sym runs)
                (restore_snapshot_lem clock ids plan m m1 w w1 k b r i refl)
        ]

  -- The store in which a plan is followed: the names that wait are deleted.
  abbrev pub swept : Cache → be.State → Store be
  swept c s = (record c { pending_delete = [] }, delete_each be c.pending_delete s)

  -- Every outcome of `restore`: no plan; a plan that fails; a plan that is followed.
  abbrev pub RestoreOutcome :
      (clock clock' clock'' : ℕ → ℕ)
      → List ℕ
      → List PrefixKey
      → en.State
      → Cache
      → be.State
      → Option ((en.State × Store be) × Option (Restored F))
      → Type 0
  RestoreOutcome clock clock' clock'' ids keys m c s r =
      ((c' : Cache) × (r ≡ some ((m, swept c' s), none))
        × Choice be en clock clock' ids keys m c none c')
      ⊎ (((c' : Cache) × (plan : RestorePlan) × (m1 : en.State) × (w' : Store be)
            × (e : RestoreError) × (r ≡ some ((en.reset m1, w'), none))
            × Choice be en clock clock' ids keys m c (some plan) c'
            × PlanFails clock'' ids plan m (swept c' s) e)
          ⊎ ((c' : Cache) × (plan : RestorePlan) × (m' : en.State) × (w' : Store be) × (x : Restored
                F)
              × (r ≡ some ((m', w'), some x))
              × Choice be en clock clock' ids keys m c (some plan) c'
              × Usable be en ids m plan
              × IsRestored clock'' ids plan m (swept c' s) m' w' x))

  follow_lem :
      (clock clock' clock'' : ℕ → ℕ) (ids : List ℕ) (keys : List PrefixKey) (m : en.State)
      (c : Cache) (s : be.State) (o : Option RestorePlan) (c' : Cache)
      → Choice be en clock clock' ids keys m c o c'
      → ((p : RestorePlan) → o ≡ some p → Usable be en ids m p)
      → RestoreOutcome clock clock' clock'' ids keys m c s
          (follow be en clock'' ids m s (some (o, c')))
  unfolding follow settled
  follow_lem clock clock' clock'' ids keys m c s none c' from u = inl (c', refl, from)
  follow_lem clock clock' clock'' ids keys m c s (some plan) c' from u =
      elim (restore_plan_lem clock'' ids plan m (swept c' s) (u plan refl)) [
        | inl (out, e, failed, why) ↦
            inr (inl (c', plan, out.0, out.1, e, ap (settled be en) failed, from, why))
        | inr (m', w', x, e, good) ↦
            inr (inr (c', plan, m', w', x, ap (settled be en) e, from, u plan refl, good))
      ]

  -- On a prompt with its keys `restore` never panics. Its plan is the one that `best_restore` finds,
  -- or, when that is the whole prompt and its snapshot is not longer than one without logits, the one
  -- that it finds for the keys without the last. Without a plan the model is as it was. The model is reset when a
  -- chunk has other tokens or another size than the prompt asks for, when a body is not read, or when
  -- the snapshot is bad or of another position. Else the bodies of all chunks are read one after the
  -- other from the store and imported, and cover each position up to the returned one, without a gap
  -- and in order; then the snapshot of just that position is, and the logits stored in it and the sum
  -- of the bytes are returned; and the whole prompt is returned only when its snapshot is longer than
  -- one without logits.
  pub restore_lem :
      (clock clock' clock'' : ℕ → ℕ) (ids : List ℕ) (keys : List PrefixKey) (m : en.State)
      (c : Cache) (s : be.State)
      → length keys ≡ suc (length ids)
      → RestoreOutcome clock clock' clock'' ids keys m c s
          (restore be en clock clock' clock'' ids keys m (c, s))
  unfolding restore
  restore_lem clock clock' clock'' ids keys m c s h =
      let (o, c', e, from, u) = choose_lem be en clock clock' ids keys m c h in
      subst (RestoreOutcome clock clock' clock'' ids keys m c s)
        (sym (ap (follow be en clock'' ids m s) e))
        (follow_lem clock clock' clock'' ids keys m c s o c' from u)
