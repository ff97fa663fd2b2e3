-- ===== src/MetricsService/Upsert.antt =====
-- Upsert and Get of the metrics service, over any repository that meets the contract.
use golectra.Ports.Batch.{count_or_zero}
use golectra.Base.{
  false, ap, ◌∙◌, ◌==◌, inr, inl, add_int64, refl, Option-cases, ℕ, Option, trim_space_idem, eq_iff,
  arith, ◌⊎◌, none, ◌≢◌, some, trim_space, ◌≡◌,
}
use golectra.MetricsService.{
  notify_audit, counter_metric, upsert_counter, upsert_gauge, counter, gauge_metric, ok, gauge,
  Metrics, Service, Context, String, upsert, get,
}
use golectra.Ports.{SameAt, Contract, MetricsRepo}

module _ {F : Type 0} {repo : MetricsRepo F} (c : Contract repo) where
  open c use {view}

  -- A metric that Get returns has the trimmed id, which is not empty, and the asked type, which is
  -- gauge or counter; its value or delta is what the repository holds, and the other is nil.
  pub get-ok :
      (mtype id : String) (s : Service repo.State F) (m : Metrics F)
      → (get repo mtype id s).0 ≡ ok m
      → let k = trim_space id in
        (k ≢ "")
        × (m.id ≡ k)
        × (m.mtype ≡ mtype)
        × (((mtype ≡ gauge) × ((view s.repo).gauge_at k ≡ m.value) × (m.delta ≡ none))
            ⊎ ((mtype ≡ counter) × ((view s.repo).counter_at k ≡ m.delta) × (m.value ≡ none)))
  unfolding get
  get-ok mtype id s m h = ground (
    arith,
    eq_iff (trim_space id) "",
    eq_iff mtype gauge,
    eq_iff mtype counter,
    c.get_gauge-Reads (trim_space id) s.repo,
    c.get_counter-Reads (trim_space id) s.repo,
  )

  stored_gauge :
      (ctx : Context) (k : String) (v : F) (res : Metrics F) (s : Service repo.State F)
      → trim_space k ≡ k
      → (upsert_gauge repo ctx k (some v) s).0 ≡ ok res
      → let after = (upsert_gauge repo ctx k (some v) s).1 in
        (res ≡ gauge_metric k v) × ((view after.repo).gauge_at k ≡ some v)
  unfolding upsert_gauge get notify_audit
  stored_gauge ctx k v res s t h =
      let st = (repo.set_gauge k v s.repo).1 in
      let reads = c.get_gauge-Reads k st in
      let keeps = c.get_gauge_keeps k k st in
      let wrote = c.set_gauge-ok k v s.repo in
      (
        ground (arith, t, eq_iff k "", reads, wrote),
        ground (arith, t, eq_iff k "", reads, wrote, keeps),
      )

  stored_counter :
      (ctx : Context) (k : String) (d : ℕ) (res : Metrics F) (s : Service repo.State F)
      → trim_space k ≡ k
      → (upsert_counter repo ctx k (some d) s).0 ≡ ok res
      → let after = (upsert_counter repo ctx k (some d) s).1 in
        let n = add_int64 (count_or_zero ((view s.repo).counter_at k)) d in
        (res ≡ counter_metric k n) × ((view after.repo).counter_at k ≡ some n)
  unfolding upsert_counter get notify_audit
  stored_counter ctx k d res s t h =
      let st = (repo.add_counter k d s.repo).1 in
      let reads = c.get_counter-Reads k st in
      let keeps = c.get_counter_keeps k k st in
      let wrote = c.add_counter-ok k d s.repo in
      (
        ground (arith, t, eq_iff k "", reads, wrote),
        ground (arith, t, eq_iff k "", reads, wrote, keeps),
      )

  gauge_others :
      (ctx : Context) (k j : String) (o : Option F) (s : Service repo.State F)
      → trim_space k ≡ k
      → k ≢ j
      → SameAt j (view s.repo) (view (upsert_gauge repo ctx k o s).1.repo)
  unfolding upsert_gauge get notify_audit
  gauge_others ctx k j none s t ne = record { gauge_same = refl; counter_same = refl }
  gauge_others ctx k j (some v) s t ne =
      let st = (repo.set_gauge k v s.repo).1 in
      ground (arith, t, c.set_gauge_ne k j v s.repo ne, c.get_gauge_keeps k j st)

  counter_others :
      (ctx : Context) (k j : String) (o : Option ℕ) (s : Service repo.State F)
      → trim_space k ≡ k
      → k ≢ j
      → SameAt j (view s.repo) (view (upsert_counter repo ctx k o s).1.repo)
  unfolding upsert_counter get notify_audit
  counter_others ctx k j none s t ne = record { gauge_same = refl; counter_same = refl }
  counter_others ctx k j (some d) s t ne =
      let st = (repo.add_counter k d s.repo).1 in
      ground (arith, t, c.add_counter_ne k j d s.repo ne, c.get_counter_keeps k j st)

  -- Upsert changes nothing under other keys than the trimmed id, whatever it returns.
  pub upsert_others :
      (ctx : Context) (m : Metrics F) (j : String) (s : Service repo.State F)
      → trim_space m.id ≢ j
      → SameAt j (view s.repo) (view (upsert repo ctx m s).1.repo)
  unfolding upsert
  upsert_others ctx m j s ne =
      let t = trim_space_idem m.id in
      ground (
        arith,
        gauge_others ctx (trim_space m.id) j m.value s t ne,
        counter_others ctx (trim_space m.id) j m.delta s t ne,
      )

  -- A metric with a blank id, or without the value of its type, is refused.
  refused_gauge :
      (ctx : Context) (m res : Metrics F) (s : Service repo.State F)
      → m.mtype ≡ gauge
      → (upsert repo ctx m s).0 ≡ ok res
      → ((trim_space m.id == "") ≡ false) × (v : F) × (m.value ≡ some v)
  unfolding upsert
  refused_gauge ctx m res s t h = elim (Option-cases m.value) [
    | inl e ↦ ground (arith, e, eq_iff m.mtype gauge)
    | inr (v, e) ↦ (ground arith, v, e)
  ]

  runs_gauge :
      (ctx : Context) (m : Metrics F) (s : Service repo.State F)
      → (trim_space m.id == "") ≡ false
      → m.mtype ≡ gauge
      → upsert repo ctx m s ≡ upsert_gauge repo ctx (trim_space m.id) m.value s
  unfolding upsert
  runs_gauge ctx m s ne t = rw (ne, (eq_iff m.mtype gauge).1 t)

  -- A gauge that Upsert accepts is stored under the trimmed id, and the answer is the stored value.
  pub upsert-gauge :
      (ctx : Context) (m res : Metrics F) (s : Service repo.State F)
      → m.mtype ≡ gauge
      → (upsert repo ctx m s).0 ≡ ok res
      → let k = trim_space m.id in
        let after = (upsert repo ctx m s).1 in
        (v : F) × (m.value ≡ some v)
        × (res ≡ gauge_metric k v)
        × ((view after.repo).gauge_at k ≡ some v)
  upsert-gauge ctx m res s t h =
      let (ne, v, e) = refused_gauge ctx m res s t h in
      let ran = runs_gauge ctx m s ne t ∙ ap (λ o. upsert_gauge repo ctx (trim_space m.id) o s) e in
      let done = stored_gauge ctx (trim_space m.id) v res s (trim_space_idem m.id) (rw ran at h) in
      (v, e, done.0, rw ran done.1)

  refused_counter :
      (ctx : Context) (m res : Metrics F) (s : Service repo.State F)
      → m.mtype ≡ counter
      → (upsert repo ctx m s).0 ≡ ok res
      → ((trim_space m.id == "") ≡ false) × (d : ℕ) × (m.delta ≡ some d)
  unfolding upsert
  refused_counter ctx m res s t h = elim (Option-cases m.delta) [
    | inl e ↦
        let other : (m.mtype == gauge) ≡ false = rw t refl in
        let bad : ⊥ = ground (arith, e, other, eq_iff m.mtype counter) in absurd bad
    | inr (d, e) ↦ (ground arith, d, e)
  ]

  runs_counter :
      (ctx : Context) (m : Metrics F) (s : Service repo.State F)
      → (trim_space m.id == "") ≡ false
      → m.mtype ≡ counter
      → upsert repo ctx m s ≡ upsert_counter repo ctx (trim_space m.id) m.delta s
  unfolding upsert
  runs_counter ctx m s ne t =
      let other : (m.mtype == gauge) ≡ false = rw t refl in
      rw (ne, other, (eq_iff m.mtype counter).1 t)

  -- A counter that Upsert accepts has grown by the delta, wrapping at 64 bits, from the count under
  -- the trimmed id or from 0, and the answer is the new count.
  pub upsert-counter :
      (ctx : Context) (m res : Metrics F) (s : Service repo.State F)
      → m.mtype ≡ counter
      → (upsert repo ctx m s).0 ≡ ok res
      → let k = trim_space m.id in
        let after = (upsert repo ctx m s).1 in
        (d : ℕ) × (m.delta ≡ some d)
        × (res ≡ counter_metric k (add_int64 (count_or_zero ((view s.repo).counter_at k)) d))
        × ((view after.repo).counter_at k
            ≡ some (add_int64 (count_or_zero ((view s.repo).counter_at k)) d))
  upsert-counter ctx m res s t h =
      let (ne, d, e) = refused_counter ctx m res s t h in
      let ran =
        runs_counter ctx m s ne t ∙ ap (λ o. upsert_counter repo ctx (trim_space m.id) o s) e in
      let done =
        stored_counter ctx (trim_space m.id) d res s (trim_space_idem m.id) (rw ran at h) in
      (d, e, done.0, rw ran done.1)
