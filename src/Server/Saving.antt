-- ===== src/Server/Saving.antt =====
-- run of cmd/server/main.go: the hook that saves a snapshot after each batch, and the goroutine that
-- saves one at each tick. The snapshot's maps are visited in the orders that `gauges_of` and
-- `counters_of` give.
pub mod Restart
pub mod Races
mod Tests
use golectra.Base.{
  List, [], ◌∷◌, Option, none, some, String, ℕ, Bool, true, false, ◌==◌, ◌&&◌, if◌then◌else◌,
}
use golectra.Base.Maps.{GoMap}
use golectra.Config.{ServerConfig}
use golectra.Config.Values.{int64_leb}
use golectra.Domain.{Snapshot, Metrics, Result, ok, err}
use golectra.MetricsService.{Service, Context, upsert_batch}
use golectra.Persistence.{FileSystem, Codec, save}
use golectra.Ports.{MetricsRepo}

-- the condition under which the ticker is started
unfoldable pub has_ticker : ServerConfig → Bool
has_ticker cfg = cfg.dsn == "" && int64_leb 1 cfg.interval

module _ {W J F : Type 0} (fs : FileSystem W J) (codec : Codec J F) (path : String)
    (gauges_of : GoMap F → List (String × F)) (counters_of : GoMap ℕ → List (String × ℕ)) where
  -- Save, whose error is only logged
  abbrev pub save_logged : Snapshot F → W → W
  save_logged sn w = (save fs codec path (gauges_of sn.gauges) (counters_of sn.counters) w).1

  -- onChanged; `has_persister` is false with Postgres
  unfoldable pub on_changed : Bool → Snapshot F → W → W
  on_changed true sn w = save_logged sn w
  on_changed false sn w = w

  -- the calls of the hook, one after the other
  unfoldable pub run_hooks : Bool → List (Snapshot F) → W → W
  unfolding on_changed
  run_hooks has_persister [] w = w
  run_hooks has_persister (sn ∷ sns) w = run_hooks has_persister sns (on_changed has_persister sn w)

  module _ (repo : MetricsRepo F) where
    -- UpsertBatch of the service that run makes, with the hook's calls carried out
    unfoldable pub upsert_saved :
        Bool
        → Context
        → List (Metrics F)
        → W × Service repo.State F
        → Result ℕ × (W × Service repo.State F)
    unfolding run_hooks
    upsert_saved has_persister ctx items (w, s) =
        let (r, s') = upsert_batch repo ctx items s in
        (r, (run_hooks has_persister s'.changed w, record s' { changed = [] }))

    abbrev pub saved_snapshot : Bool → Result (Snapshot F) → W → W
    saved_snapshot true (ok sn) w = save_logged sn w
    saved_snapshot has_persister r w = w

    -- one tick
    unfoldable pub periodic_save : Bool → W × repo.State → W × repo.State
    periodic_save has_persister (w, s) =
        let (r, s') = repo.snapshot s in (saved_snapshot has_persister r w, s')
