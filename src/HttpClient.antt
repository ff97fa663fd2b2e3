-- ===== src/HttpClient.antt =====
-- internal/adapters/publisher/httpjson/client.go: metrics sent as gzipped JSON. Encoding, compression,
-- the signature and net/http are parameters on a world `W`.
mod Tests
pub mod Answers
pub mod Delivered
pub mod Pools
pub mod Requests
use golectra.Base.{
  [], ◌∷◌, List, trim_space, none, true, ◌==◌, ◌||◌, if◌then◌else◌, some, nat_eqb, Bool, ℕ, Option,
  String,
}
use text.Mathlib.Text.{starts_with}
use Prim.Native.Char.{Char, code}
use Prim.Native.String.{◌++◌ as text_append}
use golectra.Domain.{Metrics, Error, Result, ok, err, other, Exec, pure, raise, ◌>>=◌, ◌>>◌}
use golectra.Persistence.{wrapped, first_error}
use golectra.Retry.{Timer, retry, default_backoff}

-- What errors.As and errors.Is find in an error: a status of httpStatusError, a *net.OpError, a
-- *url.Error that timed out, and one of ECONNREFUSED, ECONNRESET, EPIPE.
pub record ErrorClass : Type 0 where
  pub status_code : Option ℕ
  pub net_op : Bool
  pub url_timeout : Bool
  pub connection : Bool

pub record Request : Type 0 where
  pub path : String
  pub body : String
  pub hash_header : String

-- net/http, with the body of the response drained through gzip if it is encoded so
pub record Http (W : Type 0) : Type 0 where
  pub new_request : Request → Result Request
  pub send : Request → Exec W ℕ
  pub drain : Exec W (Unit {0})
  pub close_body : Exec W (Unit {0})

-- `strings.TrimRight(s, "/")`
abbrev pub cons_unless_slash : Char → String → String
cons_unless_slash c s =
    if s == "" then (if nat_eqb (code c) b'/' then "" else String.◌∷◌ c s) else String.◌∷◌ c s

unfoldable pub trim_slashes : String → String
trim_slashes String.[] = ""
trim_slashes (String.◌∷◌ c s) = cons_unless_slash c (trim_slashes s)

-- normalizeBase
unfoldable pub normalize_base : String → String
unfolding trim_slashes
normalize_base s =
    if starts_with s "http://" || starts_with s "https://"
    then trim_slashes s
    else text_append "http://" (trim_slashes s)

abbrev pub is_retryable_status : ℕ → Bool
is_retryable_status n = nat_eqb n 502 || nat_eqb n 503 || nat_eqb n 504 || nat_eqb n 429

-- isRetryableHTTP, on an error that is not nil
unfoldable pub is_retryable_http : (Error → ErrorClass) → Error → Bool
is_retryable_http classify e = elim (classify e).status_code [
  | some n ↦ is_retryable_status n
  | none ↦
      if (classify e).net_op
      then true
      else if (classify e).url_timeout
      then true
      else (classify e).connection
]

-- checkHTTPStatus; the text of the status is left out
unfoldable pub check_http_status : ℕ → Result (Unit {0})
check_http_status status = if nat_eqb status 200 then ok tt else err (other "server status")

module _ {W : Type 0} (http : Http W) (timer : Timer W) (classify : Error → ErrorClass) where
  abbrev pub send_request : Result Request → Exec W ℕ
  send_request (err e) = raise e
  send_request (ok r) = http.send r

  abbrev pub http_do : {A : Type 0} → Result A × W → Result A × W
  http_do (r, w) = (wrapped "http do" r, w)

  -- sendWithRetry, with the request that newGzJSONRequest makes anew for each attempt
  unfoldable pub send_with_retry : Request → Exec W ℕ
  send_with_retry req w = http_do (
      retry timer (is_retryable_http classify)
        (send_request (wrapped "new request" (http.new_request req))) default_backoff w)

  -- the deferred close of the body
  abbrev pub closing_body : Exec W (Unit {0}) → Exec W (Unit {0})
  closing_body m w =
      let (r, w1) = m w in
      let (c, w2) = http.close_body w1 in (first_error r (wrapped "close response body" c), w2)

  -- what doGzJSON does with a response
  unfoldable pub finish : ℕ → Exec W (Unit {0})
  finish status = closing_body (http.drain >> λ w. (check_http_status status, w))

  module _ {P : Type 0} (marshal : P → Result String) (sum : String → String)
      (gzip : String → Result String) where
    abbrev pub publish_gzipped : String → String → Result String → Exec W (Unit {0})
    publish_gzipped path header (err e) = raise e
    publish_gzipped path header (ok body) =
        send_with_retry (record { path = path; body = body; hash_header = header }) >>= finish

    -- the header is empty without a key; the signature is that of the plain JSON
    abbrev pub publish_plain : String → String → Result String → Exec W (Unit {0})
    publish_plain key path (err e) = raise e
    publish_plain key path (ok plain) =
        publish_gzipped path (if key == "" then "" else sum plain) (gzip plain)

    -- doGzJSON
    unfoldable pub do_gz_json : String → String → P → Exec W (Unit {0})
    unfolding send_with_retry finish
    do_gz_json key path payload = publish_plain key path (wrapped "marshal" (marshal payload))

-- what json.Marshal is asked to encode
pub data Payload (F : Type 0) : Type 0 where
  one_metric : Metrics F → Payload F
  all_metrics : List (Metrics F) → Payload F

-- the key that New keeps
unfoldable pub client_key : String → String
client_key key = trim_space key

module _ {W F : Type 0} (http : Http W) (timer : Timer W) (classify : Error → ErrorClass)
    (marshal : Payload F → Result String) (sum : String → String → String)
    (gzip : String → Result String) (key : String) where
  abbrev pub post_json : String → Payload F → Exec W (Unit {0})
  post_json path payload =
      let k = client_key key in
      do_gz_json http timer classify marshal (λ plain. sum plain k) gzip k path payload

  -- SendOne
  unfoldable pub send_one : Metrics F → Exec W (Unit {0})
  unfolding do_gz_json client_key
  send_one m = post_json "/update" (one_metric m)

  -- SendBatch
  unfoldable pub send_batch : List (Metrics F) → Exec W (Unit {0})
  unfolding do_gz_json client_key
  send_batch [] = pure tt
  send_batch (m ∷ metrics) = post_json "/updates" (all_metrics (m ∷ metrics))
