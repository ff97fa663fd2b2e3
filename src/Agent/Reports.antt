-- ===== src/Agent/Reports.antt =====
-- Which metrics reach the server when a batch cannot be sent.
use golectra.Agent.Accounting.{append_cons, append_nil}
use golectra.Base.{arith, ap, ◌∙◌, refl, ◌≢◌, sym, [], ℕ, ◌∷◌, String, ◌++◌, ◌≡◌, List}
use golectra.Ports.Flatten.{counter_items, gauge_items}
use golectra.Agent.{Publisher, send_each, work_off, report_once, build_batch}
use golectra.Domain.{Error, err, Metrics}

module _ {W F : Type 0} (publisher : Publisher W F) (sent : W → List (Metrics F))
    (records : (m : Metrics F) (w : W) → sent (publisher.send_one m w).1 ≡ sent w ++ m ∷ []) where
  sent-send_each :
      (batch : List (Metrics F)) (w : W) → sent (send_each publisher batch w) ≡ sent w ++ batch
  unfolding send_each
  sent-send_each [] w = sym (append_nil (sent w))
  sent-send_each (m ∷ batch) w =
      sent-send_each batch (publisher.send_one m w).1
      ∙ ap (λ xs. xs ++ batch) (records m w)
      ∙ sym (append_cons (sent w) batch m)

  -- If the batch cannot be sent, a worker tries to send every one of its metrics alone, once and in
  -- the order of the batch, however many of those attempts fail too.
  pub sent-work_off :
      (batch : List (Metrics F)) (w : W) (e : Error)
      → (publisher.send_batch batch w).0 ≡ err e
      → batch ≢ []
      → sent (work_off publisher batch w) ≡ sent (publisher.send_batch batch w).1 ++ batch
  unfolding work_off
  sent-work_off [] w e h n = absurd (n refl)
  sent-work_off (m ∷ batch) w e h n =
      rw h (sent-send_each (m ∷ batch) (publisher.send_batch (m ∷ batch) w).1)

-- The one-shot report and a worker do the same with a snapshot.
pub report_once-eq-work_off :
    {W F : Type 0} (publisher : Publisher W F) (gs : List (String × F)) (cs : List (String × ℕ))
    (w : W)
    → report_once publisher gs cs w ≡ work_off publisher (build_batch gs cs) w
unfolding report_once work_off build_batch gauge_items counter_items
report_once-eq-work_off publisher [] [] w = refl
report_once-eq-work_off publisher ((k, v) ∷ gs) cs w = ground arith
report_once-eq-work_off publisher [] ((k, d) ∷ cs) w = ground arith
