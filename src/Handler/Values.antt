-- ===== src/Handler/Values.antt =====
-- What a client reads back.
use golectra.Handler.Numbers.{format_int64}
use golectra.MetricsService.{get}
use golectra.Domain.{counter, gauge}
use golectra.Base.{ℕ, some, ◌≡◌, arith, trim_space, ◌≢◌, String}
use golectra.Ports.{Contract, MetricsRepo}
use golectra.Handler.{text, http_error, panicked, get_metric, FloatText}
use golectra.MetricsService.{Service, get}

module _ {F : Type 0} (floats : FloatText F) (repo : MetricsRepo F) where
  -- GetMetric never dereferences a nil pointer, whatever the repository answers.
  pub get_metric_never_panics :
      (mtype name : String) (s : Service repo.State F)
      → (get_metric floats repo mtype name s).0.body ≢ panicked
  unfolding get_metric get http_error
  get_metric_never_panics mtype name s h = ground (arith, h)

module _ {F : Type 0} (floats : FloatText F) {repo : MetricsRepo F} (c : Contract repo) where
  pub shown_gauge :
      (name : String) (v : F) (s : Service repo.State F)
      → (c.view s.repo).gauge_at (trim_space name) ≡ some v
      → (get_metric floats repo gauge name s).0.status ≡ 200
      → (get_metric floats repo gauge name s).0.body ≡ text (floats.format_float v)
  unfolding get_metric get http_error
  shown_gauge name v s h ok' = ground (arith, h, ok', c.get_gauge-Reads (trim_space name) s.repo)

  pub shown_counter :
      (name : String) (d : ℕ) (s : Service repo.State F)
      → (c.view s.repo).counter_at (trim_space name) ≡ some d
      → (get_metric floats repo counter name s).0.status ≡ 200
      → (get_metric floats repo counter name s).0.body ≡ text (format_int64 d)
  unfolding get_metric get http_error
  shown_counter name d s h ok' =
      ground (arith, h, ok', c.get_counter-Reads (trim_space name) s.repo)
