-- ===== src/MetricsService/Tests.antt =====
-- The theorems on the metrics service at concrete calls over the in-memory repository, whose gauge
-- values are numbers here.
use golectra.Ports.Batch.{counted, writes, last_or, deltas}
use golectra.MetricsService.Dispatcher.Order.{start-Reach-IsOrdered, IsOrdered}
use golectra.MetricsService.Names.Order.{dedup_names_lem, contains, IsStrictlySorted}
use golectra.MetricsService.Dispatcher.{notify, here, next, enqueue, start, System}
use golectra.MetricsService.Effects.{upsert_silent}
use golectra.MetricsService.Batch.{upsert_batch-ok, upsert_batch_reports, Outcome}
use golectra.MetricsService.OnMemory.{
  upsert_batch-refused, IsAcceptable, upsert_batch-eq-upsert_each, upsert_each,
}
use golectra.MetricsService.Names.{dedup_names}
use golectra.MetricsService.Upsert.{upsert-counter, upsert-gauge}
use golectra.Memory.Port.{memory_contract, memory_repo}
use golectra.Base.{
  All, ◌&&◌, eq_iff, ◌==◌, arith, not, ◌≤◌, String, ◌<◌, length, str_ltb, add_int64, trim_right,
  trim_left, is_space, ◌≢◌, refl, [], some, trim_space, ◌∷◌, true, ℕ, ◌≡◌,
}
use golectra.Memory.{
  update_one, update_all, update_many, add_counter, set_gauge, get_counter, get_gauge, Repo,
}
use golectra.Domain.{
  Error, invalid_type, not_found, err, Result, gauge_metric, counter_metric, ok, Metrics,
}
use golectra.Memory.Valid.{IsValid}
use golectra.Base.Maps
use golectra.MetricsService.{
  AuditMessage, notify_audit, call_on_changed, valid_items, upsert_valid, upsert_batch,
  upsert_counter, upsert_gauge, upsert, MetricsRepo, Service, Context, get, snapshot,
}

abbrev ctx : Context
ctx = record { client_ip = "10.0.0.7"; unix_time = 1700000000 }

abbrev stored : Repo ℕ
stored = record {
  gauges = record { entries = ("HeapAlloc", 7) ∷ [] };
  counters = record { entries = ("PollCount", 2) ∷ [] };
}

stored-IsValid : IsValid stored
unfolding Maps.lookup
stored-IsValid = record { gauges_once = (refl, tt); counters_once = (refl, tt) }

-- A service with an auditor and the snapshot hook.
abbrev service : Service (Repo ℕ) ℕ
service = record {
  repo = stored;
  auditor = true;
  on_changed = true;
  clock = true;
  queue = some [];
  published = [];
  dropped = 0;
  changed = [];
}

abbrev mem : MetricsRepo ℕ
mem = memory_repo ℕ

abbrev heap : Metrics ℕ
heap = gauge_metric " HeapAlloc" 42

abbrev polls : Metrics ℕ
polls = counter_metric "PollCount " 5

abbrev nameless : Metrics ℕ
nameless = gauge_metric " " 1

-- what a run of the service on concrete data computes with
runs : Unit {0}
unfolding upsert upsert_gauge upsert_counter upsert_batch upsert_valid valid_items call_on_changed
    get notify_audit dedup_names trim_space is_space trim_left trim_right get_gauge get_counter
    set_gauge add_counter update_many update_all update_one snapshot Maps.get Maps.put Maps.lookup
    Maps.store Maps.copy_entries Maps.empty add_int64 str_ltb
runs = tt

got : (get mem "gauge" "HeapAlloc " service).0 ≡ ok (gauge_metric "HeapAlloc" 7)
unfolding runs
got = refl

-- what UpsertBatch does with one valid and one nameless metric
abbrev batched : Result ℕ × Service (Repo ℕ) ℕ
batched = upsert_batch mem ctx (polls ∷ nameless ∷ []) service

heap_stored : (upsert mem ctx heap service).0 ≡ ok (gauge_metric "HeapAlloc" 42)
unfolding runs
heap_stored = refl

polls_counted : (upsert mem ctx polls service).0 ≡ ok (counter_metric "PollCount" 7)
unfolding runs
polls_counted = refl

nameless_refused : (upsert mem ctx nameless service).0 ≡ err not_found
unfolding runs
nameless_refused = refl

batch_counted : batched.0 ≡ ok 1
unfolding runs
batch_counted = refl

batch_refused : (upsert_batch mem ctx (nameless ∷ []) service).0 ≡ err invalid_type
unfolding runs
batch_refused = refl

upsert-gauge_example :
    (v : ℕ) × (heap.value ≡ some v)
    × (gauge_metric "HeapAlloc" 42 ≡ gauge_metric "HeapAlloc" v)
    × (Maps.get (upsert mem ctx heap service).1.repo.gauges "HeapAlloc" ≡ some v)
unfolding runs
upsert-gauge_example =
    upsert-gauge (memory_contract ℕ) ctx heap (gauge_metric "HeapAlloc" 42) service refl heap_stored

upsert-counter_example :
    (d : ℕ) × (polls.delta ≡ some d)
    × (counter_metric {F = ℕ} "PollCount" 7 ≡ counter_metric "PollCount" (add_int64 2 d))
    × (Maps.get (upsert mem ctx polls service).1.repo.counters "PollCount" ≡ some (add_int64 2 d))
unfolding runs
upsert-counter_example =
    upsert-counter (memory_contract ℕ) ctx polls (counter_metric "PollCount" 7) service refl
      polls_counted

trimmed-ne : trim_space heap.id ≢ "PollCount"
unfolding runs
trimmed-ne e = ground (arith, eq_iff "HeapAlloc" "PollCount")

upsert_silent_example : (upsert mem ctx heap service).1.changed ≡ []
upsert_silent_example = upsert_silent mem ctx heap service

upsert_batch-ok_example :
    let valid = valid_items (polls ∷ nameless ∷ []) in
    (1 ≡ length valid)
    × (0 < 1)
    × (1 ≤ 2)
    × (deltas "PollCount" valid ≡ []
        → Maps.get batched.1.repo.gauges "PollCount"
          ≡ last_or (Maps.get stored.gauges "PollCount") (writes "PollCount" valid))
    × (writes "PollCount" valid ≡ []
        → Maps.get batched.1.repo.counters "PollCount"
          ≡ counted (Maps.get stored.counters "PollCount") (deltas "PollCount" valid))
upsert_batch-ok_example =
    upsert_batch-ok (memory_contract ℕ) ctx (polls ∷ nameless ∷ []) "PollCount" 1 service
      batch_counted

upsert_batch-refused_example :
    All (λ m. ¬ IsAcceptable m) (nameless ∷ [])
    × (◌≡◌ {A = Error} invalid_type invalid_type)
    × ((upsert_batch mem ctx (nameless ∷ []) service).1 ≡ service)
upsert_batch-refused_example =
    upsert_batch-refused ctx (nameless ∷ []) invalid_type service batch_refused

upsert_batch_reports_example : Outcome (memory_contract ℕ) "PollCount" [] true batched.1
upsert_batch_reports_example =
    upsert_batch_reports (memory_contract ℕ) ctx (polls ∷ nameless ∷ []) "PollCount" 1 service
      stored-IsValid batch_counted

upsert_batch-eq-upsert_each_example :
    batched.1.repo ≡ (upsert_each ctx (polls ∷ nameless ∷ []) service).repo
upsert_batch-eq-upsert_each_example =
    upsert_batch-eq-upsert_each ctx (polls ∷ nameless ∷ []) service

dedup_names_lem_example :
    IsStrictlySorted (dedup_names ("b" ∷ "" ∷ "a" ∷ "b" ∷ []))
    × ((k : String)
        → contains k (dedup_names ("b" ∷ "" ∷ "a" ∷ "b" ∷ []))
          ≡ (not (k == "") && contains k ("b" ∷ "" ∷ "a" ∷ "b" ∷ [])))
dedup_names_lem_example = dedup_names_lem ("b" ∷ "" ∷ "a" ∷ "b" ∷ [])

dedup_names_run : dedup_names ("b" ∷ "" ∷ "a" ∷ "b" ∷ []) ≡ "a" ∷ "b" ∷ []
unfolding runs
dedup_names_run = refl

abbrev message : AuditMessage
message = record {
  ctx = ctx;
  evt = record { timestamp = 1; metrics = "a" ∷ []; ip_address = "10.0.0.7" };
}

abbrev begun : System (Repo ℕ) ℕ
begun = start stored true true

start-Reach-IsOrdered_example : IsOrdered (enqueue message (enqueue message begun))
start-Reach-IsOrdered_example =
    start-Reach-IsOrdered stored true true (enqueue message (enqueue message begun))
      (next (next here (notify begun message)) (notify (enqueue message begun) message))
