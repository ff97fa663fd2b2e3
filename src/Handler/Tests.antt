-- ===== src/Handler/Tests.antt =====
-- The handlers on a service with one gauge and one counter; gauge values are numbers here.
use golectra.Domain.{Snapshot, ok}
use golectra.Base.Maps.{entries-Visits, Visits}
use golectra.Handler.Page.{table_row}
use golectra.Handler.Dashboard.{index_shows, Within}
use golectra.Memory.Valid.{IsValid}
use golectra.Base.Maps
use golectra.Ports.Batch.{count_or_zero}
use golectra.Handler.ReadBack.{counter_read_back}
use golectra.Base.{
  subst, String, add_int64, arith, is_space, true, trim_right, [], refl, ◌≢◌, trim_left, ◌∷◌, some,
  ℕ, trim_space, ◌≡◌,
}
use golectra.Handler.{html, index, text, FloatText, update_metric, get_metric}
use golectra.Handler.Numbers.{
  parse_int64, parse_uint, parse_digits, format_int64, print_digits, digit,
}
use golectra.MetricsService.{Service, Context}
use golectra.Memory.{Repo}
use golectra.Memory.Port.{memory_contract, memory_repo}

abbrev floats : FloatText ℕ
floats = record { parse_float = parse_int64; format_float = format_int64 }

abbrev ctx : Context
ctx = record { client_ip = "10.0.0.7"; unix_time = 1700000000 }

abbrev service : Service (Repo ℕ) ℕ
service = record {
  repo = record {
    gauges = record { entries = ("HeapAlloc", 7) ∷ [] };
    counters = record { entries = ("PollCount", 2) ∷ [] };
  };
  auditor = true;
  on_changed = true;
  clock = true;
  queue = some [];
  published = [];
  dropped = 0;
  changed = [];
}

parse_run : parse_int64 "-12" ≡ some 18446744073709551604
unfolding parse_int64 parse_uint parse_digits
parse_run = refl

format_run : format_int64 18446744073709551604 ≡ "-12"
unfolding format_int64 print_digits digit
format_run = refl

abbrev counted : Service (Repo ℕ) ℕ
counted = (update_metric floats (memory_repo ℕ) ctx "counter" "PollCount" "5" service).1

counter_posted :
    (update_metric floats (memory_repo ℕ) ctx "counter" "PollCount" "5" service).0.status ≡ 200
unfolding update_metric trim_space trim_right trim_left is_space parse_int64
    golectra.MetricsService.upsert golectra.Memory.add_counter golectra.MetricsService.get
    golectra.Memory.get_counter golectra.Base.Maps.get golectra.Base.Maps.lookup
    golectra.Base.Maps.put golectra.Base.Maps.store
counter_posted = refl

counter_shown : (get_metric floats (memory_repo ℕ) "counter" "PollCount" counted).0.status ≡ 200
unfolding update_metric get_metric golectra.MetricsService.get trim_space trim_right trim_left
    is_space golectra.Memory.get_counter golectra.Base.Maps.get golectra.Base.Maps.lookup
    parse_int64 golectra.MetricsService.upsert golectra.Memory.add_counter golectra.Base.Maps.put
    golectra.Base.Maps.store golectra.MetricsService.notify_audit
    golectra.MetricsService.Names.dedup_names
counter_shown = refl

counter_read_back_example :
    (d : ℕ) × (parse_int64 "5" ≡ some d)
    × ((get_metric floats (memory_repo ℕ) "counter" "PollCount" counted).0.body
        ≡ text (
            format_int64 (
              add_int64
                (count_or_zero
                  (((memory_contract ℕ).view service.repo).counter_at (trim_space "PollCount")))
                d)))
counter_read_back_example =
    counter_read_back floats (memory_contract ℕ) ctx "PollCount" "5" service counter_posted
      counter_shown

refused :
    (update_metric floats (memory_repo ℕ) ctx "counter" "PollCount" "many" service).0.status ≢ 200
unfolding update_metric parse_int64 parse_uint parse_digits trim_space trim_left trim_right is_space
refused = λ e. omega (arith, e)

service-IsValid : IsValid service.repo
unfolding Maps.lookup
service-IsValid = record { gauges_once = (refl, tt); counters_once = (refl, tt) }

abbrev copied : Snapshot ℕ
copied = record { gauges = service.repo.gauges; counters = service.repo.counters }

snapshot_run : ((memory_repo ℕ).snapshot service.repo).0 ≡ ok copied
unfolding golectra.Memory.snapshot Maps.copy_entries Maps.store Maps.empty
snapshot_run = refl

copied-Visits :
    Visits copied.gauges.entries copied.gauges × Visits copied.counters.entries copied.counters
unfolding Maps.lookup
copied-Visits = (entries-Visits copied.gauges (refl, tt), entries-Visits copied.counters (refl, tt))

visited :
    (sn : Snapshot ℕ)
    → ((memory_repo ℕ).snapshot service.repo).0 ≡ ok sn
    → Visits sn.gauges.entries sn.gauges × Visits sn.counters.entries sn.counters
visited sn h =
    let same : copied ≡ sn = cc (snapshot_run, h) in
    subst (λ t. Visits t.gauges.entries t.gauges × Visits t.counters.entries t.counters) same
      copied-Visits

index_status :
    (index floats (memory_repo ℕ) (λ m. m.entries) (λ m. m.entries) service).0.status ≡ 200
unfolding index golectra.MetricsService.snapshot golectra.Memory.snapshot
index_status = refl

index_shows_example :
    (page : String) × ((index floats
        (memory_repo ℕ)
        (λ m. m.entries)
        (λ m. m.entries)
        service).0.body
      ≡ html page)
    × ((v : ℕ)
        → ((memory_contract ℕ).view service.repo).gauge_at "HeapAlloc" ≡ some v
        → Within (table_row "HeapAlloc" (format_int64 v)) page)
    × ((n : ℕ)
        → ((memory_contract ℕ).view service.repo).counter_at "HeapAlloc" ≡ some n
        → Within (table_row "HeapAlloc" (format_int64 n)) page)
index_shows_example =
    index_shows floats (memory_contract ℕ) (λ m. m.entries) (λ m. m.entries) "HeapAlloc" service
      service-IsValid visited index_status
