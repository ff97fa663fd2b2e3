-- ===== src/Agent/Tests.antt =====
-- The agent with a publisher that refuses batches and logs single metrics, and with one worker.
use golectra.Base.{
  ◌≡◌, ◌+◌, ◌≤◌, nat_eqb, if◌then◌else◌, Bool, ◌++◌, refl, arith, true, ℕ, ◌∷◌, ◌≢◌, false, [],
  List,
}
use golectra.Agent.{
  length, Publisher, BatchPublisher, submit, receive, finish, close, leave, Reach, here, next,
  start, build_batch, worker_count,
}
use golectra.Agent.Accounting.{start-Reach-limited}
use golectra.Domain.{err, other, Metrics, gauge_metric, counter_metric}
use golectra.Config.Values.{int64_leb}
use golectra.Ports.Flatten.{gauge_items, counter_items}

abbrev refusing : Publisher (List (Metrics ℕ)) ℕ
refusing = record {
  send_batch = λ batch w. (err (other "server status: 503"), w);
  send_one = λ m w. (err (other "server status: 503"), w ++ m ∷ []);
}

abbrev batch : List (Metrics ℕ)
batch = gauge_metric "HeapAlloc" 42 ∷ counter_metric "PollCount" 3 ∷ []

batch_filled : batch ≢ []
batch_filled = λ e. cc e

abbrev reports : List (List (Metrics ℕ))
reports = batch ∷ []

abbrev publisher_after : List (List (Metrics ℕ)) → Bool → ℕ → ℕ → ℕ → BatchPublisher ℕ
publisher_after queue closed live busy finished = record {
  workers = 1;
  capacity = 2;
  queue = queue;
  closed = closed;
  live = live;
  busy = busy;
  submitted = reports;
  taken = if nat_eqb (length queue) 0 then reports else [];
  finished = finished;
}

one_not_zero : ◌≢◌ {A = ℕ} 2 0
one_not_zero = λ e. omega (arith, e)

submitted_run : Reach (start 1) (publisher_after reports false 1 0 0)
unfolding start worker_count int64_leb build_batch gauge_items counter_items
submitted_run = next here (
    submit (start 1) (("HeapAlloc", 42) ∷ []) (("PollCount", 3) ∷ []) refl one_not_zero
      (omega arith))

stopped_run : Reach (start 1) (publisher_after [] true 0 0 1)
stopped_run =
    next
      (next
        (next
          (next submitted_run
            (receive (publisher_after reports false 1 0 0) batch [] (omega arith) refl))
          (close (publisher_after [] false 1 1 0) refl))
        (finish (publisher_after [] true 1 1 0) 0 refl))
      (leave (publisher_after [] true 1 0 1) 0 refl refl (omega arith) refl)

start-Reach-limited_example :
    (0 ≤ 1) × (length reports ≤ 2) × (length reports ≤ 0 + 3) × (reports ≡ [] ++ reports)
start-Reach-limited_example =
    start-Reach-limited 1 (publisher_after reports false 1 0 0) (omega arith) (omega arith)
      submitted_run
