-- ===== src/Handler.antt =====
-- internal/adapters/http/ginserver/handler.go: each handler as a function of what gin hands it (the
-- path parameters, the decoded body or a decoding error) to its response and the service after it.
pub mod Numbers
pub mod Page
pub mod BatchPool
pub mod Dashboard
pub mod Status
pub mod Values
pub mod ReadBack
mod Tests
use golectra.Base.Maps.{GoMap}
use golectra.Handler.Page.{index_page}
use golectra.Handler.Numbers.{parse_int64, format_int64}
use golectra.MetricsService.{Context, Service}
use golectra.Ports.{MetricsRepo}
use golectra.Base.{none, trim_space, ◌==◌, List, if◌then◌else◌, some, Option, ℕ, String}
use golectra.MetricsService
use golectra.Domain.{
  counter, invalid_type, gauge, not_found, gauge_metric, counter_metric, Snapshot, Metrics, other,
  Error, Result, ok, err,
}

-- What a handler writes: plain text, JSON, or nothing because it panicked.
pub data Body (F : Type 0) : Type 0 where
  text : String → Body F
  metric_json : Metrics F → Body F
  updated_json : ℕ → Body F
  snapshot_json_body : Snapshot F → Body F
  html : String → Body F
  panicked : Body F

pub record Response (F : Type 0) : Type 0 where
  pub status : ℕ
  pub body : Body F

-- strconv.ParseFloat and strconv.FormatFloat with 'f', -1, 64, at the type of floats
pub record FloatText (F : Type 0) : Type 0 where
  pub parse_float : String → Option F
  pub format_float : F → String

module _ {F : Type 0} where
  abbrev pub reply : ℕ → String → Response F
  reply status t = record { status = status; body = text t }

  abbrev pub bad_request : Response F
  bad_request = reply 400 "bad request"

  -- httpError, on an error that is not nil
  unfoldable pub http_error : Error → Response F
  http_error not_found = reply 404 "not found"
  http_error invalid_type = bad_request
  http_error (other t) = reply 500 "internal error"

  -- `*p` in a response: a nil pointer panics, and gin.Recovery answers 500
  abbrev pub deref : {A : Type 0} → (A → String) → Option A → Response F
  deref format none = record { status = 500; body = panicked }
  deref format (some v) = reply 200 (format v)

  abbrev pub answer : {S A : Type 0} → (A → Response F) → Result A × S → Response F × S
  answer f (ok a, s) = (f a, s)
  answer f (err e, s) = (http_error e, s)

module _ {F : Type 0} (floats : FloatText F) (repo : MetricsRepo F) where
  open floats use {parse_float, format_float}

  abbrev pub Handles : Type 0
  Handles = Service repo.State F → Response F × Service repo.State F

  -- the end of UpdateMetric: Upsert, and "ok"
  abbrev store : Context → Metrics F → Handles
  store ctx m s = answer (λ _. reply 200 "ok") (MetricsService.upsert repo ctx m s)

  abbrev store_gauge : Context → String → Option F → Handles
  store_gauge ctx name none = λ s. (bad_request, s)
  store_gauge ctx name (some v) = store ctx (gauge_metric name v)

  abbrev store_counter : Context → String → Option ℕ → Handles
  store_counter ctx name none = λ s. (bad_request, s)
  store_counter ctx name (some d) = store ctx (counter_metric name d)

  -- POST /update/:type/:name/:value
  unfoldable pub update_metric : Context → String → String → String → Handles
  update_metric ctx mtype name value =
      if trim_space name == ""
      then (λ s. (reply 404 "not found", s))
      else if mtype == gauge
      then store_gauge ctx name (parse_float value)
      else if mtype == counter
      then store_counter ctx name (parse_int64 value)
      else (λ s. (bad_request, s))

  -- the switch of GetMetric on the type asked for
  abbrev show_value : String → Metrics F → Response F
  show_value mtype res =
      if mtype == gauge
      then deref format_float res.value
      else if mtype == counter
      then deref format_int64 res.delta
      else bad_request

  -- GET /value/:type/:name
  unfoldable pub get_metric : String → String → Handles
  get_metric mtype name s = answer (show_value mtype) (MetricsService.get repo mtype name s)

  abbrev answer_json : Result (Metrics F) × Service repo.State F → Response F × Service repo.State F
  answer_json = answer (λ m. record { status = 200; body = metric_json m })

  -- POST /update: `none` is a body that ShouldBindJSON refuses
  unfoldable pub update_metric_json : Context → Option (Metrics F) → Handles
  update_metric_json ctx none s = (bad_request, s)
  update_metric_json ctx (some m) s =
      if trim_space m.id == ""
      then (bad_request, s)
      else answer_json (MetricsService.upsert repo ctx m s)

  -- POST /value
  unfoldable pub get_metric_json : Option (Metrics F) → Handles
  get_metric_json none s = (bad_request, s)
  get_metric_json (some q) s =
      if trim_space q.id == ""
      then (bad_request, s)
      else answer_json (MetricsService.get repo q.mtype q.id s)

  -- POST /updates: `none` is a body that decodeMetricsBatch refuses. Handler/BatchPool adds the
  -- pooled slice that it decodes into.
  unfoldable pub update_metrics_batch_json : Context → Option (List (Metrics F)) → Handles
  update_metrics_batch_json ctx none s = (bad_request, s)
  update_metrics_batch_json ctx (some items) s =
      answer (λ n. record { status = 200; body = updated_json n })
        (MetricsService.upsert_batch repo ctx items s)

  -- GET /ping; the text of the error is appended by fmt, and left out here
  abbrev pinged : Result (Unit {0}) × Service repo.State F → Response F × Service repo.State F
  pinged (ok u, s) = (reply 200 "ok", s)
  pinged (err e, s) = (reply 500 "db ping error", s)

  unfoldable pub ping : Handles
  ping s = pinged (MetricsService.ping repo s)

  -- GET /api/v1/snapshot
  unfoldable pub snapshot_json : Handles
  snapshot_json s =
      answer (λ snap. record { status = 200; body = snapshot_json_body snap })
        (MetricsService.snapshot repo s)

  -- GET /, where the loops visit the maps of the snapshot in the orders that `gauges_of` and
  -- `counters_of` give
  unfoldable pub index : (GoMap F → List (String × F)) → (GoMap ℕ → List (String × ℕ)) → Handles
  unfolding index_page
  index gauges_of counters_of s =
      answer
        (λ snap. record {
          status = 200;
          body =
              html (
                index_page floats.format_float (gauges_of snap.gauges) (counters_of snap.counters));
        })
        (MetricsService.snapshot repo s)
