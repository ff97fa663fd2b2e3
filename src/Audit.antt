-- ===== src/Audit.antt =====
-- internal/adapters/audit: the observers that append an audit event to a file and that post it to an
-- endpoint. json.Marshal, the file system and the HTTP client are parameters on a world `W`.
mod Tests
pub mod Delivery
pub mod Lines
use golectra.Base.{trim_space, leb, ltb, ◌==◌, ℕ, if◌then◌else◌, String}
use golectra.Domain.{Error, Result, ok, err, other, Exec, pure, raise, ◌>>=◌, ◌>>◌}
use golectra.Persistence.{wrapped, first_error}
use golectra.MetricsService.{Event}

-- What Writer calls: `open_append` creates or opens the file, `append` writes a payload and a newline.
pub record Log (W : Type 0) : Type 0 where
  pub open_append : String → Exec W (Unit {0})
  pub append : String → String → Exec W (Unit {0})
  pub close : String → Exec W (Unit {0})

-- What Client calls: a POST answers a status; its body is drained and closed.
pub record Poster (W : Type 0) : Type 0 where
  pub new_request : String → String → Result (Unit {0})
  pub post : String → String → Exec W ℕ
  pub drain : Exec W (Unit {0})
  pub close_body : Exec W (Unit {0})

module _ {W : Type 0} where
  abbrev pub labelled : {A : Type 0} → String → Exec W A → Exec W A
  labelled what m w = let (r, w') = m w in (wrapped what r, w')

  -- the deferred close: its error counts if the body had none
  abbrev pub closing : String → Exec W (Unit {0}) → Exec W (Unit {0}) → Exec W (Unit {0})
  closing what close body w =
      let (r, w1) = body w in let (c, w2) = close w1 in (first_error r (wrapped what c), w2)

  -- a status from 200 to 299
  unfoldable pub check_status : ℕ → Exec W (Unit {0})
  check_status status =
      if ltb status 200
      then raise (other "audit post status")
      else if leb 300 status
      then raise (other "audit post status")
      else pure tt

abbrev endpoint_of : String → Result (Unit {0}) → Result String
endpoint_of raw_url (ok u) = ok raw_url
endpoint_of raw_url (err e) = err e

-- New of the remote client, which keeps the endpoint; `parse` is url.ParseRequestURI
unfoldable pub new_client : (String → Result (Unit {0})) → String → Result String
new_client parse raw_url =
    if trim_space raw_url == ""
    then err (other "audit url is empty")
    else endpoint_of raw_url (wrapped "invalid audit url" (parse raw_url))

module _ {W : Type 0} (marshal : Event → Result String) where
  module _ (log : Log W) (path : String) where
    -- from the marshalled payload on, under the lock
    abbrev pub write_line : Result String → Exec W (Unit {0})
    write_line (err e) = raise e
    write_line (ok payload) =
        labelled "open audit file" (log.open_append path)
        >> closing "close audit file" (log.close path)
            (labelled "write audit file" (log.append path payload))

    -- Writer.Notify
    unfoldable pub write_event : Event → Exec W (Unit {0})
    write_event evt =
        if path == "" then pure tt else write_line (wrapped "marshal audit event" (marshal evt))

  module _ (http : Poster W) (endpoint : String) where
    -- from the marshalled payload on
    abbrev pub post_payload : String → Result (Unit {0}) → Exec W (Unit {0})
    post_payload payload (err e) = raise e
    post_payload payload (ok u) = labelled "audit post" (http.post endpoint payload) >>= λ status.
        closing "close audit response" http.close_body
          (labelled "drain audit response" http.drain >> check_status status)

    abbrev pub send : Result String → Exec W (Unit {0})
    send (err e) = raise e
    send (ok payload) =
        post_payload payload (wrapped "new request" (http.new_request endpoint payload))

    -- Client.Notify
    unfoldable pub post_event : Event → Exec W (Unit {0})
    unfolding check_status
    post_event evt = send (wrapped "marshal audit event" (marshal evt))
