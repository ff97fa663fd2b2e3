-- ===== src/HttpClient/Answers.antt =====
-- Which answers of the server the client tries again.
use golectra.Base.{refl, ◌≡◌, ℕ}
use golectra.HttpClient.{Http, ErrorClass, Request, send_with_retry}
use golectra.Domain.{Error, ok}
use golectra.Retry.{Timer, retry, attempt}

module _ {W : Type 0} (http : Http W) (timer : Timer W) (classify : Error → ErrorClass) where
  -- An answer of the server ends the retry loop whatever its status, also one that isRetryableHTTP
  -- calls retryable: the request is sent once, and the status is only looked at afterwards.
  pub send_with_retry_answered :
      (req : Request) (w : W) (status : ℕ)
      → http.new_request req ≡ ok req
      → (http.send req w).0 ≡ ok status
      → send_with_retry http timer classify req w ≡ (ok status, (http.send req w).1)
  unfolding send_with_retry retry attempt
  send_with_retry_answered req w status made answered = rw (made, answered) refl
