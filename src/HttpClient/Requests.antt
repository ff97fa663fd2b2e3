-- ===== src/HttpClient/Requests.antt =====
-- endpoint, newGzJSONRequest and drainAndDiscard of internal/adapters/publisher/httpjson/client.go.
-- net/url, net/http and compress/gzip are parameters.
mod Tests
use golectra.Base.{List, [], ◌∷◌, ◌++◌, String, ◌==◌, if◌then◌else◌, Bool}
use golectra.Domain.{Result, ok, err, Exec, raise, ◌>>=◌}
use golectra.HttpClient.{trim_slashes}
use golectra.Persistence.{wrapped}
use Prim.Native.String.{◌++◌ as text_append}

-- url.URL: its path, and all else
pub record Url : Type 0 where
  pub origin : String
  pub path : String

-- endpoint: the base itself is not changed
unfoldable pub endpoint : (Url → String) → Url → String → String
unfolding trim_slashes
endpoint to_text base path =
    to_text (record base { path = text_append (trim_slashes base.path) path })

-- http.Request
pub record HttpRequest : Type 0 where
  pub url : String
  pub headers : List (String × String)
  pub body : String

abbrev pub hash_headers : String → List (String × String)
hash_headers hash = if hash == "" then [] else ("HashSHA256", hash) ∷ []

-- newGzJSONRequest; `new_request` is whether http.NewRequestWithContext takes the URL
unfoldable pub new_gz_json_request :
    (String → Result (Unit {0}))
    → (Url → String)
    → Url
    → String
    → String
    → String
    → Result HttpRequest
unfolding endpoint
new_gz_json_request new_request to_text base path body hash =
    elim (wrapped "new request" (new_request (endpoint to_text base path))) [
      | err e ↦ err e
      | ok u ↦ ok (record {
        url = endpoint to_text base path;
        headers =
            ("Content-Type", "application/json")
            ∷ ("Content-Encoding", "gzip")
            ∷ ("Accept", "application/json")
            ∷ ("Accept-Encoding", "gzip")
            ∷ hash_headers hash;
        body = body;
      })
    ]

-- What drainAndDiscard reads: the body as it is, or through a gzip.Reader if one can be made of it.
pub record ResponseBody (W : Type 0) : Type 0 where
  pub content_encoding : String
  pub new_reader : Exec W (Unit {0})
  pub copy_plain : Exec W (Unit {0})
  pub copy_gunzipped : Exec W (Unit {0})
  pub close_reader : W → W

module _ {W : Type 0} where
  abbrev pub named : String → Exec W (Unit {0}) → Exec W (Unit {0})
  named what m w = let (r, w') = m w in (wrapped what r, w')

  -- the deferred close of the gzip.Reader, whose error is dropped
  abbrev pub closing_reader : (W → W) → Exec W (Unit {0}) → Exec W (Unit {0})
  closing_reader close m w = let (r, w') = m w in (r, close w')

  -- drainAndDiscard; `contains_gzip` is the test on the lowered header
  unfoldable pub drain_and_discard : (String → Bool) → ResponseBody W → Exec W (Unit {0})
  drain_and_discard contains_gzip body =
      if contains_gzip body.content_encoding
      then named "bad gzip" body.new_reader
        >>= (λ u. closing_reader body.close_reader (named "drain body" body.copy_gunzipped))
      else named "drain body" body.copy_plain
