-- ===== src/Audit/Delivery.antt =====
-- What an observer that reports no error has done with its event.
use golectra.Base.{inl, inr, arith, ◌<◌, ◌≤◌, ℕ, refl, String, ◌≡◌}
use golectra.Audit.{Poster, post_event, check_status, post_payload, send, labelled}
use golectra.MetricsService.{Event}
use golectra.Domain.{◌>>◌, Result, ok, err, Result-cases}
use golectra.Persistence.{wrapped, first_error}

wrapped-ok : {A : Type 0} (what : String) (r : Result A) (a : A) → wrapped what r ≡ ok a → r ≡ ok a
wrapped-ok what (ok b) a h = h
wrapped-ok what (err e) a h = absurd (cc h)

first_error-ok : (r c : Result (Unit {0})) → first_error r c ≡ ok tt → r ≡ ok tt
first_error-ok (ok u) c h = refl
first_error-ok (err e) c h = absurd (cc h)

check_status-ok :
    {W : Type 0} (status : ℕ) (w : W)
    → (check_status status w).0 ≡ ok tt
    → (200 ≤ status) × (status < 300)
unfolding check_status
check_status-ok status w h = ground arith

module _ {W : Type 0} (marshal : Event → Result String) where
  module _ (http : Poster W) (endpoint : String) where
    drained-ok :
        (status : ℕ) (w : W)
        → ((labelled "drain audit response" http.drain >> check_status status) w).0 ≡ ok tt
        → (200 ≤ status) × (status < 300)
    drained-ok status w h = elim (Result-cases (http.drain w).0) [
      | inl (u, e) ↦ check_status-ok status (http.drain w).1 (rw e at h)
      | inr (x, e) ↦ absurd (cc (rw e at h))
    ]

    posted-ok :
        (payload : String) (r : Result (Unit {0})) (w : W)
        → (post_payload marshal http endpoint payload r w).0 ≡ ok tt
        → (status : ℕ) × ((http.post endpoint payload w).0 ≡ ok status)
          × (200 ≤ status)
          × (status < 300)
    posted-ok payload (err e) w h = absurd (cc h)
    posted-ok payload (ok u) w h = elim (Result-cases (http.post endpoint payload w).0) [
      | inr (x, e) ↦ absurd (cc (rw e at h))
      | inl (status, e) ↦
          let (lo, hi) =
            drained-ok status (http.post endpoint payload w).1 (first_error-ok _ _ (rw e at h)) in
          (status, e, lo, hi)
    ]

    sent-ok :
        (r : Result String) (w : W)
        → (send marshal http endpoint r w).0 ≡ ok tt
        → (payload : String) × (status : ℕ) × (r ≡ ok payload)
          × ((http.post endpoint payload w).0 ≡ ok status)
          × (200 ≤ status)
          × (status < 300)
    sent-ok (err e) w h = absurd (cc h)
    sent-ok (ok payload) w h =
        let (status, e, lo, hi) =
          posted-ok payload (wrapped "new request" (http.new_request endpoint payload)) w h in
        (payload, status, refl, e, lo, hi)

    -- If the remote observer returns no error, then the endpoint was sent the event's JSON and
    -- answered it with a status from 200 to 299.
    pub post_event-ok :
        (evt : Event) (w : W)
        → (post_event marshal http endpoint evt w).0 ≡ ok tt
        → (payload : String) × (status : ℕ) × (marshal evt ≡ ok payload)
          × ((http.post endpoint payload w).0 ≡ ok status)
          × (200 ≤ status)
          × (status < 300)
    unfolding post_event
    post_event-ok evt w h =
        let (payload, status, m, p, lo, hi) =
          sent-ok (wrapped "marshal audit event" (marshal evt)) w h in
        (payload, status, wrapped-ok "marshal audit event" (marshal evt) payload m, p, lo, hi)
