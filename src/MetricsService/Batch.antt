-- ===== src/MetricsService/Batch.antt =====
-- UpsertBatch of the metrics service, over any repository that meets the contract.
use golectra.Base.{Bool, if◌then◌else◌, subst, sym}
use golectra.Base.Maps
use golectra.MetricsService.Effects.{notify_audit_keeps, SameEffects}
use golectra.Ports.Batch.{counted, writes, last_or, deltas}
use golectra.Base.{
  ap, false, subst, sym, ◌∙◌, inl, inr, Bool-cases, map, ◌++◌, refl, true, ◌⊎◌, ◌<◌, ◌≡◌, [], ◌∷◌,
  ℕ, arith, ◌≤◌,
}
use golectra.Ports.{SameAt, Contract, MetricsRepo}
use golectra.MetricsService.{
  upsert_batch, report, Result, notify_audit, on_repo, Snapshot, ok, err, Service, Error, String,
  Context, call_on_changed, length, upsert_valid, Metrics, List, valid_items,
}

module _ {F : Type 0} where
  length-valid_items-le : (items : List (Metrics F)) → length (valid_items items) ≤ length items
  unfolding valid_items
  length-valid_items-le [] = omega arith
  length-valid_items-le (it ∷ items) = ground (arith, length-valid_items-le items)

module _ {F : Type 0} {repo : MetricsRepo F} (c : Contract repo) where
  open c use {view}

  upsert_valid-ok :
      (ctx : Context) (valid : List (Metrics F)) (k : String) (n : ℕ) (s : Service repo.State F)
      → (upsert_valid repo ctx valid s).0 ≡ ok n
      → let after = (upsert_valid repo ctx valid s).1 in
        (n ≡ length valid)
        × (0 < n)
        × (deltas k valid ≡ []
            → (view after.repo).gauge_at k ≡ last_or ((view s.repo).gauge_at k) (writes k valid))
        × (writes k valid ≡ []
            → (view after.repo).counter_at k
              ≡ counted ((view s.repo).counter_at k) (deltas k valid))
  unfolding upsert_valid call_on_changed
  upsert_valid-ok ctx [] k n s h = cc
  upsert_valid-ok ctx (it ∷ items) k n s h =
      let valid : List (Metrics F) = it ∷ items in
      let s1 = (on_repo (repo.update_many valid) s).1 in
      let s2 = notify_audit ctx (map (λ m. m.id) valid) s1 in
      let told = notify_audit_keeps ctx (map (λ m. m.id) valid) s1 in
      let kept = c.snapshot_keeps k s2.repo in
      (
        ground arith,
        ground arith,
        λ p. ground (arith, told, kept, c.update_many-gauges valid k s.repo, p),
        λ p. ground (arith, told, kept, c.update_many-counters valid k s.repo, p),
      )

  upsert_valid-err :
      (ctx : Context) (valid : List (Metrics F)) (k : String) (e : Error) (s : Service repo.State F)
      → (upsert_valid repo ctx valid s).0 ≡ err e
      → let after = (upsert_valid repo ctx valid s).1 in
        SameAt k (view s.repo) (view after.repo) × SameEffects s after
  unfolding upsert_valid
  upsert_valid-err ctx [] k e s h =
      (record { gauge_same = refl; counter_same = refl }, ground arith)
  upsert_valid-err ctx (it ∷ items) k e s h =
      let valid : List (Metrics F) = it ∷ items in
      (ground (arith, c.update_many-err valid k s.repo), ground arith)

  -- One report: a snapshot that has under `k` what the repository `st` holds there.
  abbrev pub Reported : String → repo.State → List (Snapshot F) → List (Snapshot F) → Type 0
  Reported k st before after =
      (snap : Snapshot F) × (after ≡ before ++ snap ∷ [])
      × (Maps.get snap.gauges k ≡ (view st).gauge_at k)
      × (Maps.get snap.counters k ≡ (view st).counter_at k)

  -- The hook calls that were made, after the calls `before`: none, or one report if it is set.
  abbrev pub Outcome : String → List (Snapshot F) → Bool → Service repo.State F → Type 0
  Outcome k before hook after =
      (after.changed ≡ before) ⊎ ((hook ≡ true) × Reported k after.repo before after.changed)

  report_lem :
      (k : String) (s : Service repo.State F) (r : Result (Snapshot F))
      → c.Valid s.repo
      → (repo.snapshot s.repo).0 ≡ r
      → let after = report repo r (record s { repo = (repo.snapshot s.repo).1 }) in
        (after.changed ≡ s.changed) ⊎ Reported k after.repo s.changed after.changed
  report_lem k s (ok snap) v e =
      let (g, n) = c.snapshot-ok k s.repo snap v e in
      let kept = c.snapshot_keeps k s.repo in
      inr (snap, refl, g ∙ sym kept.gauge_same, n ∙ sym kept.counter_same)
  report_lem k s (err e') v e = inl refl

  call_on_changed-unset :
      (s : Service repo.State F) → s.on_changed ≡ false → call_on_changed repo s ≡ s
  unfolding call_on_changed
  call_on_changed-unset s off =
      ap (λ b. if b then (let (r, s') = on_repo repo.snapshot s in report repo r s') else s) off

  call_on_changed-set :
      (s : Service repo.State F)
      → s.on_changed ≡ true
      → call_on_changed repo s
        ≡ report repo (repo.snapshot s.repo).0 (record s { repo = (repo.snapshot s.repo).1 })
  unfolding call_on_changed
  call_on_changed-set s on =
      ap (λ b. if b then (let (r, s') = on_repo repo.snapshot s in report repo r s') else s) on

  call_on_changed_lem :
      (k : String) (s : Service repo.State F)
      → c.Valid s.repo
      → Outcome k s.changed s.on_changed (call_on_changed repo s)
  call_on_changed_lem k s v = elim (Bool-cases s.on_changed) [
    | inr off ↦ inl (ap (λ (t : Service repo.State F). t.changed) (call_on_changed-unset s off))
    | inl on ↦ elim (report_lem k s (repo.snapshot s.repo).0 v refl) [
      | inl same ↦
          inl (ap (λ (t : Service repo.State F). t.changed) (call_on_changed-set s on) ∙ same)
      | inr new ↦ inr (
        on,
        subst (λ (t : Service repo.State F). Reported k t.repo s.changed t.changed)
            (sym (call_on_changed-set s on)) new,
      )
    ]
  ]

  -- what UpsertBatch hands to the hook after the repository took the batch
  told_state : Context → List (Metrics F) → Service repo.State F → Service repo.State F
  told_state ctx valid s =
      notify_audit ctx (map (λ m. m.id) valid) (on_repo (repo.update_many valid) s).1

  upsert_valid-ran :
      (ctx : Context) (it : Metrics F) (items : List (Metrics F)) (n : ℕ) (s : Service repo.State F)
      → (upsert_valid repo ctx (it ∷ items) s).0 ≡ ok n
      → (upsert_valid repo ctx (it ∷ items) s).1
        ≡ call_on_changed repo (told_state ctx (it ∷ items) s)
  unfolding upsert_valid told_state
  upsert_valid-ran ctx it items n s h = ground arith

  told_state_keeps :
      (ctx : Context) (valid : List (Metrics F)) (s : Service repo.State F)
      → ((told_state ctx valid s).changed ≡ s.changed)
        × ((told_state ctx valid s).on_changed ≡ s.on_changed)
        × ((told_state ctx valid s).repo ≡ (repo.update_many valid s.repo).1)
  unfolding told_state
  told_state_keeps ctx valid s =
      let keeps =
        notify_audit_keeps ctx (map (λ m. m.id) valid) (on_repo (repo.update_many valid) s).1 in
      (keeps.0, keeps.2, keeps.1)

  upsert_valid_reports :
      (ctx : Context) (valid : List (Metrics F)) (k : String) (n : ℕ) (s : Service repo.State F)
      → c.Valid s.repo
      → (upsert_valid repo ctx valid s).0 ≡ ok n
      → Outcome k s.changed s.on_changed (upsert_valid repo ctx valid s).1
  upsert_valid_reports ctx [] k n s v h = unfold upsert_valid in cc h
  upsert_valid_reports ctx (it ∷ items) k n s v h =
      let (changed, hook, repo_kept) = told_state_keeps ctx (it ∷ items) s in
      let s2 = told_state ctx (it ∷ items) s in
      let valid : c.Valid s2.repo =
        subst c.Valid (sym repo_kept) (c.update_many-Valid (it ∷ items) s.repo v) in
      rw (upsert_valid-ran ctx it items n s h) (
        subst (λ xs. Outcome k xs s.on_changed (call_on_changed repo s2)) changed
          (subst (λ b. Outcome k s2.changed b (call_on_changed repo s2)) hook
            (call_on_changed_lem k s2 valid)))

  -- UpsertBatch that returns a count has dropped the invalid metrics, counted the others, at least
  -- one, and written these: a gauge key that no kept counter shares has the last value written to
  -- it, and a counter key that no kept gauge shares has all its deltas added.
  pub upsert_batch-ok :
      (ctx : Context) (items : List (Metrics F)) (k : String) (n : ℕ) (s : Service repo.State F)
      → (upsert_batch repo ctx items s).0 ≡ ok n
      → let after = (upsert_batch repo ctx items s).1 in
        let valid = valid_items items in
        (n ≡ length valid)
        × (0 < n)
        × (n ≤ length items)
        × (deltas k valid ≡ []
            → (view after.repo).gauge_at k ≡ last_or ((view s.repo).gauge_at k) (writes k valid))
        × (writes k valid ≡ []
            → (view after.repo).counter_at k
              ≡ counted ((view s.repo).counter_at k) (deltas k valid))
  unfolding upsert_batch
  upsert_batch-ok ctx items k n s h =
      let (count, some_valid, g, cs) = upsert_valid-ok ctx (valid_items items) k n s h in
      (count, some_valid, omega (arith, count, length-valid_items-le items), g, cs)

  -- UpsertBatch that returns an error has changed no key, sent no audit message and called no hook.
  pub upsert_batch-err :
      (ctx : Context) (items : List (Metrics F)) (k : String) (e : Error) (s : Service repo.State F)
      → (upsert_batch repo ctx items s).0 ≡ err e
      → let after = (upsert_batch repo ctx items s).1 in
        SameAt k (view s.repo) (view after.repo) × SameEffects s after
  unfolding upsert_batch
  upsert_batch-err ctx items k e s h = upsert_valid-err ctx (valid_items items) k e s h

  -- After a batch that returned a count the hook has been called at most once, and only if it is set,
  -- with a snapshot that has under every key what the repository then holds.
  pub upsert_batch_reports :
      (ctx : Context) (items : List (Metrics F)) (k : String) (n : ℕ) (s : Service repo.State F)
      → c.Valid s.repo
      → (upsert_batch repo ctx items s).0 ≡ ok n
      → Outcome k s.changed s.on_changed (upsert_batch repo ctx items s).1
  unfolding upsert_batch
  upsert_batch_reports ctx items k n s v h = upsert_valid_reports ctx (valid_items items) k n s v h
