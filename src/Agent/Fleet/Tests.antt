-- ===== src/Agent/Fleet/Tests.antt =====
-- Two reports, the later one stored first, into a repository that has a count already.
use golectra.Config.Values.{int64_leb}
use golectra.Agent
use golectra.Domain.{gauge_metric, Metrics, counter_metric}
use golectra.MetricsService.{valid_items}
use golectra.Agent.{build_batch}
use golectra.Agent.Fleet.Settled.{counters_settled}
use golectra.Agent.Fleet.Overtaken.{stale_gauge, reports}
use golectra.Agent.Fleet.{
  finish, take, elsewhere, sending, end_singly, store_one, lose_one, go_singly, store_again, Fleet,
  Reach, start, all_items,
}
use golectra.Memory.{Repo, update_all}
use golectra.Base.Maps
use golectra.Base.{arith, List, ◌≢◌, true, ◌++◌, ℕ, ◌≡◌, refl, some, [], ◌∷◌}

abbrev filled : Repo ℕ
filled = record {
  gauges = record { entries = ("Alloc", 5) ∷ [] };
  counters = record { entries = ("PollCount", 4) ∷ [] };
}

abbrev sent : List (Metrics ℕ)
sent = build_batch (("Alloc", 7) ∷ []) (("PollCount", 3) ∷ [])

some_entry : ◌≢◌ {A = ℕ} 2 0
some_entry = λ e. omega (arith, e)

-- one worker has the batch
abbrev taken : Fleet ℕ
taken = record (start 1 filled) {
  sender = record (Agent.start 1) { busy = 1; submitted = sent ∷ []; taken = sent ∷ [] };
  in_hand = sending sent ∷ [];
}

taken_run : Reach (start 1 filled) taken
unfolding Agent.start Agent.worker_count int64_leb
taken_run =
    Reach.next
      (Reach.next Reach.here (
        elsewhere (record (Agent.start 1) { queue = sent ∷ []; submitted = sent ∷ [] })
          (Agent.submit (Agent.start 1) (("Alloc", 7) ∷ []) (("PollCount", 3) ∷ []) refl some_entry
            (omega arith))
          refl refl refl))
      (take sent [] (omega arith) refl refl)

-- the server has stored the batch without an answer, and then the counter alone; the gauge is lost
abbrev sent_singly : Fleet ℕ
sent_singly = record taken {
  in_hand = [];
  stored = valid_items sent ++ valid_items (counter_metric "PollCount" 3 ∷ []);
  repeated = valid_items sent;
  lost = valid_items (gauge_metric "Alloc" 7 ∷ []);
  repo =
      update_all (valid_items (counter_metric "PollCount" 3 ∷ []))
        (update_all (valid_items sent) filled);
}

sent_run : Reach (start 1 filled) sent_singly
unfolding build_batch golectra.Ports.Flatten.gauge_items golectra.Ports.Flatten.counter_items
sent_run =
    Reach.next
      (Reach.next
        (Reach.next
          (Reach.next (Reach.next taken_run (store_again [] [] sent refl refl))
            (go_singly [] [] sent refl refl))
          (lose_one [] [] (gauge_metric "Alloc" 7) (counter_metric "PollCount" 3 ∷ []) refl refl))
        (store_one [] [] (counter_metric "PollCount" 3) [] refl refl))
      (end_singly [] [] refl refl)

abbrev stopped : Fleet ℕ
stopped = record sent_singly {
  sender = record taken.sender { closed = true; live = 0; busy = 0; finished = 1 };
}

stopped_run : Reach (start 1 filled) stopped
unfolding Agent.start Agent.worker_count int64_leb
stopped_run =
    let p = record taken.sender { busy = 0; finished = 1 } in
    let q = record p { closed = true } in
    Reach.next
      (Reach.next (Reach.next sent_run (finish 0 refl (omega arith) refl))
        (elsewhere q (Agent.close p refl) refl refl refl))
      (elsewhere stopped.sender (Agent.leave q 0 refl refl (omega arith) refl) refl refl refl)

counters_settled_example :
    Maps.get (update_all stopped.lost stopped.repo).counters "PollCount"
    ≡ Maps.get (update_all (all_items (sent ∷ []) ++ stopped.repeated) filled).counters "PollCount"
counters_settled_example = counters_settled 1 filled stopped "PollCount" stopped_run refl

stale_gauge_example :
    (s : Fleet ℕ) × Reach (start 2 filled) s
    × (s.sender.live ≡ 0)
    × (s.sender.submitted ≡ reports 10 20)
    × (s.sender.finished ≡ 2)
    × (s.lost ≡ [])
    × (s.repeated ≡ [])
    × (Maps.get s.repo.gauges "Alloc" ≡ some 10)
stale_gauge_example = stale_gauge filled 10 20
