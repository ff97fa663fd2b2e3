-- ===== src/Server/Saving/Restart.antt =====
-- A restart of the server after a batch.
use golectra.Base.{
  refl, inr, inl, Bool, some, List, [], ◌∷◌, Option, String, ℕ, ◌≡◌, sym, ◌∙◌, int64_mod, ◌<◌, true,
  ap,
}
use golectra.Base.Maps
use golectra.Base.Maps.{GoMap, Visits}
use golectra.Domain.{Snapshot, Metrics, ok}
use golectra.Memory
use golectra.Memory.Port.{memory_repo}
use golectra.MetricsService.{Service, Context, upsert_batch}
use golectra.MetricsService.Batch.{upsert_batch_reports, Outcome}
use golectra.Persistence.{FileSystem, IsFileSystem, Codec, save, restore, flatten_snapshot}
use golectra.Persistence.Restored.{restore-save}
use golectra.Ports.{MetricsRepo, Contract}
use golectra.Server.Saving.{upsert_saved, run_hooks, on_changed}

module _ {W J F : Type 0} (fs : FileSystem W J) (codec : Codec J F) (path : String)
    (rely : IsFileSystem fs path) (gauges_of : GoMap F → List (String × F))
    (counters_of : GoMap ℕ → List (String × ℕ)) {repo : MetricsRepo F} (c : Contract repo) where
  -- the snapshot that the hook got has what the repository holds
  reported_same :
      (k : String) (s : Service repo.State F) (before : List (Snapshot F)) (hook : Bool)
      (sn : Snapshot F)
      → before ≡ []
      → s.changed ≡ sn ∷ []
      → Outcome c k before hook s
      → (Maps.get sn.gauges k ≡ (c.view s.repo).gauge_at k)
        × (Maps.get sn.counters k ≡ (c.view s.repo).counter_at k)
  reported_same k s before hook sn none_before one (inl same) = absurd (cc (same, none_before, one))
  reported_same k s before hook sn none_before one (inr (on, (snap, new, g, n))) =
      let is_sn : snap ≡ sn = cc (rw none_before at new, one) in
      (
        ap (λ t. Maps.get t.gauges k) (sym is_sn) ∙ g,
        ap (λ t. Maps.get t.counters k) (sym is_sn) ∙ n,
      )

  -- An accepted batch survives a restart: if the Save of the hook succeeds, a new server that
  -- restores the file into an empty in-memory repository has under every key what the repository
  -- held after the batch. One request runs at a time, the file can be opened, the JSON of the metrics
  -- decodes to them, and the counts are int64 values.
  pub batch_survives_restart :
      (ctx : Context) (items : List (Metrics F)) (n : ℕ) (w : W) (s : Service repo.State F)
      (sn : Snapshot F) (o : Option J) (k : String)
      → c.Valid s.repo
      → s.changed ≡ []
      → (upsert_batch repo ctx items s).0 ≡ ok n
      → (upsert_batch repo ctx items s).1.changed ≡ sn ∷ []
      → Visits (gauges_of sn.gauges) sn.gauges
      → Visits (counters_of sn.counters) sn.counters
      → ((j : String) (d : ℕ) → Maps.get sn.counters j ≡ some d → d < int64_mod)
      → ((j : J)
          → codec.encode (flatten_snapshot (gauges_of sn.gauges) (counters_of sn.counters)) ≡ ok j
          → codec.decode j ≡ ok (flatten_snapshot (gauges_of sn.gauges) (counters_of sn.counters)))
      → (save fs codec path (gauges_of sn.gauges) (counters_of sn.counters) w).0 ≡ ok tt
      → let (w', s') =
          (upsert_saved fs codec path gauges_of counters_of repo true ctx items (w, s)).1 in
        (fs.open_file path w').0 ≡ ok o
        → let r = (restore fs codec path (memory_repo F) (w', Memory.new)).1.1 in
          (Maps.get r.gauges k ≡ (c.view s'.repo).gauge_at k)
          × (Maps.get r.counters k ≡ (c.view s'.repo).counter_at k)
  unfolding upsert_saved run_hooks on_changed
  batch_survives_restart ctx items n w s sn o k valid none_before accepted one vg vc small codes
        saved =
      let after = (upsert_batch repo ctx items s).1 in
      let gs = gauges_of sn.gauges in
      let cs = counters_of sn.counters in
      let (g, d) =
        reported_same k after s.changed s.on_changed sn none_before one
          (upsert_batch_reports c ctx items k n s valid accepted) in
      let hooked : run_hooks fs codec path gauges_of counters_of true after.changed w
          ≡ (save fs codec path gs cs w).1 =
        rw one refl in
      rw hooked (λ opened.
        let (rg, rd) =
          restore-save fs codec path rely sn gs cs w vg vc small codes saved o opened k in
        (rg ∙ g, rd ∙ d))
