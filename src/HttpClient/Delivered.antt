-- ===== src/HttpClient/Delivered.antt =====
-- From the client through the middlewares to a handler, over a connection that delivers.
use golectra.MetricsService.{Service, Context}
use golectra.Ports.{MetricsRepo}
use golectra.Handler.{update_metrics_batch_json, Response, FloatText}
use golectra.Retry.{Timer}
use golectra.Domain.{other, err, Exec, Metrics, Error, Result, ok}
use golectra.HttpClient.{check_http_status, Http, ErrorClass, Request, Payload, send_batch}
use golectra.Middlewares.{
  sent, Digest, Gzip, Chain, BodyBuffer, Sent, gzip_request, hash_sha256, sum_sha256,
}
use golectra.Base.{
  Option, List, nat_eqb, true, ◌==◌, trim_space, if◌then◌else◌, none, ◌≡◌, Bool, ℕ, String,
}

-- What the theorem relies on: gzip and hex text are read back, and a text equals itself without case.
pub record IsCodec (gz : Gzip) (d : Digest) (contains_gzip : String → Bool) : Type 0 where
  pub named : contains_gzip "gzip" ≡ true
  pub headed : (x : String) → gz.has_header (gz.compress x) ≡ true
  pub unzipped : (x : String) → gz.decompress (gz.compress x) ≡ ok x
  pub hex : (x : String) → trim_space (d.sha_hex x) ≡ d.sha_hex x
  pub fold : (x : String) → d.equal_fold x x ≡ true

-- the status that the middleware sends, and what SendBatch makes of it
abbrev pub status_of : BodyBuffer → ℕ
status_of w = if nat_eqb w.status 0 then 200 else w.status

abbrev pub outcome : {S : Type 0} → BodyBuffer × S → Result (Unit {0}) × S
outcome (w, s) = (check_http_status (status_of w), s)

module _ {S : Type 0} (gz : Gzip) (d : Digest) (contains_gzip : String → Bool) (key : String)
    (next : Chain S) where
  -- GzipRequest and HashSHA256 before the handlers; the client sends `Content-Encoding: gzip`
  abbrev pub serve : Request → S → Sent × S
  serve req =
      gzip_request gz contains_gzip "gzip" req.body
        (λ s. (record { status = 400; hash = none; body = "" }, s))
        (λ body s. hash_sha256 d key req.hash_header body next s)

  abbrev pub answered : Sent × S → Result ℕ × S
  answered (sent, s) = (ok sent.status, s)

  -- a connection that delivers every request and every answer
  abbrev pub connection : Http S
  connection = record {
    new_request = ok;
    send = λ req s. answered (serve req s);
    drain = λ s. (ok tt, s);
    close_body = λ s. (ok tt, s);
  }

  -- the request that the client makes of some JSON
  abbrev pub request_for : String → String → Request
  request_for path plain =
      let k = trim_space key in
      record {
        path = path;
        body = gz.compress plain;
        hash_header = if k == "" then "" else sum_sha256 d plain k;
      }

  module _ {F : Type 0} (timer : Timer S) (classify : Error → ErrorClass)
      (marshal : Payload F → Result String) where
    -- the client with the server's key
    abbrev pub deliver : List (Metrics F) → Exec S (Unit {0})
    deliver =
        send_batch connection timer classify marshal (sum_sha256 d)
          (λ plain. ok (gz.compress plain)) key

-- What the client is told of a batch: no error, or the status that is not 200.
abbrev pub delivered : Result ℕ → Result (Unit {0})
delivered (ok n) = ok tt
delivered (err e) = err (other "server status")

module _ {F : Type 0} (floats : FloatText F) (repo : MetricsRepo F) (ctx : Context)
    (decode : Result String → Option (List (Metrics F))) (render : Response F → String) where
  abbrev written : Response F × Service repo.State F → BodyBuffer × Service repo.State F
  written (r, s) = (record { status = r.status; body = render r }, s)

  -- POST /updates, on a body that decodeMetricsBatch reads
  abbrev pub updates : Chain (Service repo.State F)
  updates body s = written (update_metrics_batch_json floats repo ctx (decode body) s)

  abbrev told : Result ℕ × Service repo.State F → Result (Unit {0}) × Service repo.State F
  told (r, s) = (delivered r, s)
