-- ===== src/HttpClient/Tests.antt =====
-- The client with a server that is always overloaded; the world counts the requests.
use golectra.Memory.{Repo}
use golectra.MetricsService.{Context, Service}
use golectra.Handler.{FloatText}
use golectra.Middlewares.{Gzip, Digest}
use golectra.Base.{List, [], ◌∷◌, true, Option, ◌==◌, String, false, refl, suc, none, ◌≡◌, ℕ, some}
use golectra.HttpClient.{
  all_metrics, Payload, Http, ErrorClass, Request, normalize_base, trim_slashes,
}
use golectra.Domain.{counter_metric, Metrics, other, err, Result, Error, ok}
use golectra.Retry.{Timer}

abbrev overloaded : Http ℕ
overloaded = record {
  new_request = ok;
  send = λ req w. (ok 503, suc w);
  drain = λ w. (ok tt, w);
  close_body = λ w. (ok tt, w);
}

abbrev patient : Timer ℕ
patient = record { ctx_err = λ w. none; select = λ d w. (none, w) }

abbrev classify : Error → ErrorClass
classify e = record {
  status_code = some 503;
  net_op = false;
  url_timeout = false;
  connection = false;
}

abbrev request : Request
request = record { path = "/updates"; body = "[]"; hash_header = "" }

normalize_base_run : normalize_base "localhost:8080//" ≡ "http://localhost:8080"
unfolding normalize_base trim_slashes
normalize_base_run = refl

-- a digest that all texts share, and compression that puts a mark in front
abbrev digest : Digest
digest = record { sha_hex = λ x. "c0ffee"; equal_fold = λ a b. a == b }

abbrev unmark : String → Result String
unmark (String.◌∷◌ a rest) = ok rest
unmark s = err (other "gzip")

abbrev gz : Gzip
gz = record { has_header = λ s. true; decompress = unmark; compress = λ s. String.◌∷◌ "z" s }

abbrev service : Service (Repo ℕ) ℕ
service = record {
  repo = record { gauges = record { entries = [] }; counters = record { entries = [] } };
  auditor = false;
  on_changed = false;
  clock = true;
  queue = none;
  published = [];
  dropped = 0;
  changed = [];
}

abbrev ctx : Context
ctx = record { client_ip = "10.0.0.7"; unix_time = 1700000000 }

abbrev waiting : Timer (Service (Repo ℕ) ℕ)
waiting = record { ctx_err = λ w. none; select = λ d w. (none, w) }

-- the JSON of one metric
abbrev marshal : Payload ℕ → Result String
marshal (all_metrics (m ∷ metrics)) = ok m.id
marshal p = ok "null"

abbrev decode : Result String → Option (List (Metrics ℕ))
decode (ok id) = some (counter_metric id 5 ∷ [])
decode (err e) = none

abbrev floats : FloatText ℕ
floats = record { parse_float = λ t. none; format_float = λ n. "0" }
