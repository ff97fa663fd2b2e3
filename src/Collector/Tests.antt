-- ===== src/Collector/Tests.antt =====
-- A collector after one whole round of its first goroutine.
use golectra.Agent.Totals.{report_adds_total}
use golectra.Agent.{build_batch}
use golectra.Memory.{Repo}
use golectra.Domain.{ok, Metrics}
use golectra.Base.Maps.{entries-Visits, put-IsMap, IsMap}
use golectra.MetricsService.{valid_items, Context, Service, upsert_batch}
use golectra.Memory.Port.{memory_repo, memory_contract}
use golectra.Base.{
  arith, int64_mod, add_int64, ◌<◌, none, ◌≢◌, String, ◌^◌, ◌%◌, false, refl, ◌⊎◌, true, [], ◌∷◌,
  ◌≡◌, List, ℕ,
}
use golectra.Collector.{
  counter_write, gauge_write, Collector, Stats, Write, apply, start, new_stats, poll_writes,
  poll_count, poll, poll_write, Reach, here, next,
}
use golectra.Base.Maps
use golectra.Ports.Batch.{count_or_zero}

abbrev apply_all : List (Write ℕ) → Stats ℕ → Stats ℕ
apply_all [] s = s
apply_all (wr ∷ rest) s = apply_all rest (apply wr s)

abbrev pending : List (Write ℕ) → Stats ℕ → Collector ℕ
pending writes s = record {
  stats = s;
  polling = writes;
  sampling = [];
  poll_live = true;
  sample_live = true;
  stopped = false;
  rounds = 1;
}

finish_round :
    (writes : List (Write ℕ)) (s : Stats ℕ)
    → Reach start (pending writes s)
    → Reach start (pending [] (apply_all writes s))
finish_round [] s r = r
finish_round (wr ∷ rest) s r =
    finish_round rest (apply wr s) (next r (poll_write (pending (wr ∷ rest) s) wr rest refl))

abbrev round : List (Write ℕ)
round = poll_writes (λ k. 7) 3

abbrev polled : Collector ℕ
polled = pending [] (apply_all round new_stats)

polled_run : Reach start polled
unfolding start
polled_run = finish_round round new_stats (next here (poll start (λ k. 7) 3 refl refl))

abbrev IsKept : Stats ℕ → Type 0
IsKept s = IsMap s.gauges.entries × IsMap s.counters.entries

apply-IsKept : (wr : Write ℕ) (s : Stats ℕ) → IsKept s → IsKept (apply wr s)
unfolding apply
apply-IsKept (gauge_write name v) s h = (put-IsMap s.gauges name v h.0, h.1)
apply-IsKept (counter_write name d) s h = (h.0, put-IsMap s.counters name _ h.1)

apply_all-IsKept : (writes : List (Write ℕ)) (s : Stats ℕ) → IsKept s → IsKept (apply_all writes s)
apply_all-IsKept [] s h = h
apply_all-IsKept (wr ∷ rest) s h = apply_all-IsKept rest (apply wr s) (apply-IsKept wr s h)

polled-IsKept : IsKept polled.stats
unfolding new_stats Maps.empty
polled-IsKept = apply_all-IsKept round new_stats (tt, tt)

abbrev service : Service (Repo ℕ) ℕ
service = record {
  repo = record {
    gauges = record { entries = [] };
    counters = record { entries = (poll_count, 2) ∷ [] };
  };
  auditor = false;
  on_changed = false;
  clock = true;
  queue = none;
  published = [];
  dropped = 0;
  changed = [];
}

abbrev ctx : Context
ctx = record { client_ip = "10.0.0.7"; unix_time = 1700000000 }

abbrev report : List (Metrics ℕ)
report = build_batch polled.stats.gauges.entries polled.stats.counters.entries

no_gauge : Maps.get polled.stats.gauges poll_count ≡ none
unfolding new_stats Maps.get Maps.lookup poll_writes apply Maps.put Maps.store Maps.empty
no_gauge = refl

trimmed : valid_items report ≡ report
unfolding new_stats build_batch valid_items golectra.Ports.Flatten.gauge_items poll_writes apply
    Maps.put Maps.store Maps.empty golectra.Base.trim_space golectra.Base.trim_right
    golectra.Base.trim_left golectra.Base.is_space golectra.Ports.Flatten.counter_items
trimmed = refl

accepted : (upsert_batch (memory_repo ℕ) ctx report service).0 ≡ ok 29
unfolding upsert_batch valid_items build_batch golectra.Ports.Flatten.gauge_items
    golectra.Ports.Flatten.counter_items poll_writes apply Maps.put Maps.store Maps.get Maps.lookup
    new_stats Maps.empty golectra.Base.trim_space golectra.Base.trim_right golectra.Base.trim_left
    golectra.Base.is_space golectra.Memory.update_many
accepted = refl

known : count_or_zero (((memory_contract ℕ).view service.repo).counter_at poll_count) < int64_mod
unfolding Maps.get Maps.lookup
known = omega arith

report_adds_total_example :
    count_or_zero (
      ((memory_contract ℕ).view (upsert_batch (memory_repo ℕ) ctx report service).1.repo).counter_at
        poll_count)
    ≡ add_int64
        (count_or_zero (((memory_contract ℕ).view service.repo).counter_at poll_count))
        (1 % 2 ^ 64)
report_adds_total_example =
    report_adds_total (memory_contract ℕ) ctx polled polled.stats.gauges.entries
      polled.stats.counters.entries 29 service polled_run refl
      (entries-Visits polled.stats.gauges polled-IsKept.0)
      (entries-Visits polled.stats.counters polled-IsKept.1) no_gauge trimmed known accepted
