-- ===== src/Audit/Tests.antt =====
-- The remote observer with an endpoint that answers 204.
use golectra.Base.{trim_space, trim_right, trim_left, is_space, suc, refl, [], String, ◌≡◌, ℕ, ◌∷◌}
use golectra.Audit.{new_client, Poster, post_event, check_status}
use golectra.MetricsService.{Event}
use golectra.Domain.{other, err, Result, ok}

abbrev no_content : Poster ℕ
no_content = record {
  new_request = λ endpoint payload. ok tt;
  post = λ endpoint payload w. (ok 204, suc w);
  drain = λ w. (ok tt, w);
  close_body = λ w. (ok tt, w);
}

abbrev event : Event
event = record { timestamp = 1700000000; metrics = "HeapAlloc" ∷ []; ip_address = "10.0.0.7" }

abbrev marshal : Event → Result String
marshal e = ok e.ip_address

post_run : (post_event marshal no_content "http://audit" event 0).0 ≡ ok tt
unfolding post_event check_status
post_run = refl

-- a blank address is refused before it is parsed
blank_address : new_client (λ url. ok tt) " " ≡ err (other "audit url is empty")
unfolding new_client trim_space trim_right trim_left is_space
blank_address = refl

-- the address is kept as it was given
kept_address : new_client (λ url. ok tt) "http://audit/ " ≡ ok "http://audit/ "
unfolding new_client trim_space trim_right trim_left is_space
kept_address = refl
