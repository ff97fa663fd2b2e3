-- ===== src/HttpClient/Requests/Tests.antt =====
-- A signed request to a base address with a trailing slash.
use golectra.Base.{[], ◌∷◌, String, ◌≡◌, refl}
use golectra.Domain.{ok}
use golectra.HttpClient.Requests.{Url, new_gz_json_request}
use Prim.Native.String.{◌++◌ as text_append}

abbrev to_text : Url → String
to_text u = text_append u.origin u.path

new_gz_json_request_run :
    new_gz_json_request
      (λ u. ok tt)
      to_text
      (record { origin = "http://localhost"; path = "/api/" })
      "/updates"
      "zipped"
      "c0ffee"
    ≡ ok (record {
      url = "http://localhost/api/updates";
      headers =
          ("Content-Type", "application/json")
          ∷ ("Content-Encoding", "gzip")
          ∷ ("Accept", "application/json")
          ∷ ("Accept-Encoding", "gzip")
          ∷ ("HashSHA256", "c0ffee")
          ∷ [];
      body = "zipped";
    })
unfolding new_gz_json_request
new_gz_json_request_run = refl
