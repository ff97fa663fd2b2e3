-- ===== src/Agent/Fleet/Overtaken.antt =====
-- Two workers, and a report that overtakes the one before it.
use golectra.MetricsService.{valid_items}
use golectra.Domain.{Metrics}
use golectra.Config.Values.{int64_leb}
use golectra.Base.{◌++◌, refl, some, ◌∷◌, arith, ℕ, true, List, ◌≢◌, [], ◌≡◌}
use golectra.Agent.Fleet.{sending, Fleet, Reach, start, elsewhere, take, store, finish}
use golectra.Agent
use golectra.Agent.{build_batch, BatchPublisher}
use golectra.Memory.{Repo, update_all}
use golectra.Memory.Batch.{update_all_lem}
use golectra.Base.Maps

some_entry : ◌≢◌ {A = ℕ} 2 0
some_entry = λ e. omega (arith, e)

module _ {F : Type 0} where
  abbrev pub report : F → ℕ → List (Metrics F)
  report v n = build_batch (("Alloc", v) ∷ []) (("PollCount", n) ∷ [])

  abbrev pub reports : F → F → List (List (Metrics F))
  reports old new = report old 1 ∷ report new 2 ∷ []

  -- both reports wait in the channel
  abbrev reported : Repo F → F → F → Fleet F
  reported r old new = record (start 2 r) {
    sender = record (Agent.start 2) { queue = reports old new; submitted = reports old new };
  }

  -- each worker has taken one
  abbrev taken : Repo F → F → F → Fleet F
  taken r old new = record (reported r old new) {
    sender = record (reported r old new).sender { queue = []; busy = 2; taken = reports old new };
    in_hand = sending (report new 2) ∷ sending (report old 1) ∷ [];
  }

  -- the server has stored the later one first
  abbrev stored : Repo F → F → F → Fleet F
  stored r old new = record (taken r old new) {
    in_hand = [];
    stored = valid_items (report new 2) ++ valid_items (report old 1);
    repo = update_all (valid_items (report old 1)) (update_all (valid_items (report new 2)) r);
  }

  abbrev pub ended : Repo F → F → F → Fleet F
  ended r old new = record (stored r old new) {
    sender = record (taken r old new).sender { closed = true; live = 0; busy = 0; finished = 2 };
  }

  taken_run : (r : Repo F) (old new : F) → Reach (start 2 r) (taken r old new)
  unfolding Agent.start Agent.worker_count int64_leb
  taken_run r old new =
      Reach.next
        (Reach.next
          (Reach.next
            (Reach.next Reach.here (
              elsewhere _
                (Agent.submit (Agent.start 2) (("Alloc", old) ∷ []) (("PollCount", 1) ∷ []) refl
                  some_entry (omega arith))
                refl refl refl))
            (elsewhere (reported r old new).sender
              (Agent.submit _ (("Alloc", new) ∷ []) (("PollCount", 2) ∷ []) refl some_entry
                (omega arith))
              refl refl refl))
          (take (report old 1) (report new 2 ∷ []) (omega arith) refl refl))
        (take (report new 2) [] (omega arith) refl refl)

  stored_run : (r : Repo F) (old new : F) → Reach (start 2 r) (stored r old new)
  stored_run r old new =
      Reach.next
        (Reach.next (taken_run r old new)
          (store [] (sending (report old 1) ∷ []) (report new 2) refl refl))
        (store [] [] (report old 1) refl refl)

  pub ended_run : (r : Repo F) (old new : F) → Reach (start 2 r) (ended r old new)
  unfolding Agent.start Agent.worker_count int64_leb
  ended_run r old new =
      let s = (stored r old new).sender in
      let p = record s { busy = 0; finished = 2 } in
      let q = record p { closed = true } in
      Reach.next
        (Reach.next
          (Reach.next
            (Reach.next (Reach.next (stored_run r old new) (finish 1 refl (omega arith) refl))
              (finish 0 refl (omega arith) refl))
            (elsewhere q (Agent.close p refl) refl refl refl))
          (elsewhere (record q { live = 1 }) (Agent.leave q 1 refl refl (omega arith) refl) refl
            refl refl))
        (elsewhere (ended r old new).sender
          (Agent.leave (record q { live = 1 }) 0 refl refl (omega arith) refl) refl refl refl)

  old_gauge : (r : Repo F) (old new : F) → Maps.get (ended r old new).repo.gauges "Alloc" ≡ some old
  unfolding update_all golectra.Ports.Batch.writes valid_items build_batch
      golectra.Ports.Flatten.gauge_items golectra.Base.trim_space golectra.Base.trim_right
      golectra.Base.trim_left golectra.Base.is_space golectra.Ports.Flatten.counter_items
  old_gauge r old new =
      (update_all_lem "Alloc" (valid_items (report old 1))
        (update_all (valid_items (report new 2)) r)).0

  -- With a rate limit of two the server can end with the older of two reports: for any values there is
  -- a run in which both are reported and stored, none is lost and none stored twice, all workers return, and the gauge of the
  -- server has the value of the first report.
  pub stale_gauge :
      (r : Repo F) (old new : F)
      → (s : Fleet F) × Reach (start 2 r) s
        × (s.sender.live ≡ 0)
        × (s.sender.submitted ≡ reports old new)
        × (s.sender.finished ≡ 2)
        × (s.lost ≡ [])
        × (s.repeated ≡ [])
        × (Maps.get s.repo.gauges "Alloc" ≡ some old)
  stale_gauge r old new =
      (ended r old new, ended_run r old new, refl, refl, refl, refl, refl, old_gauge r old new)
