-- ===== src/Handler/BatchPool/Tests.antt =====
-- Two requests that decode into one pooled slice; gauge values are numbers here.
use golectra.Base.{
  is_space, trim_right, trim_left, eq_iff, arith, map, ◌≢◌, List, [], ◌∷◌, none, some, ℕ, ◌≡◌, refl,
  trim_space, true, false,
}
use golectra.Base.Maps
use golectra.Domain.{Metrics, gauge_metric, counter_metric}
use golectra.Handler.{FloatText, update_metrics_batch_json}
use golectra.Handler.BatchPool.{elements, update_metrics_batch}
use golectra.Handler.BatchPool.Fresh.{IsStated, element_of, update_batch_fresh}
use golectra.Handler.BatchPool.Stale.{gauge_without_value, stale_value_stored}
use golectra.Handler.Numbers.{parse_int64, format_int64}
use golectra.Memory.{Repo}
use golectra.Memory.Port.{memory_repo}
use golectra.MetricsService.{Service, Context}

abbrev floats : FloatText ℕ
floats = record { parse_float = parse_int64; format_float = format_int64 }

abbrev ctx : Context
ctx = record { client_ip = "10.0.0.7"; unix_time = 1700000000 }

abbrev service : Service (Repo ℕ) ℕ
service = record {
  repo = record { gauges = record { entries = [] }; counters = record { entries = [] } };
  auditor = false;
  on_changed = false;
  clock = true;
  queue = none;
  published = [];
  dropped = 0;
  changed = [];
}

abbrev batch : List (Metrics ℕ)
batch = gauge_metric "HeapAlloc" 42 ∷ counter_metric "PollCount" 5 ∷ []

-- what an earlier request has left
abbrev left_over : Metrics ℕ
left_over = gauge_metric "Secret" 7

gauge-IsStated : IsStated {F = ℕ} (gauge_metric "HeapAlloc" 42)
gauge-IsStated = ((λ g. (42, refl)), λ c. absurd (ground (arith, c, eq_iff "gauge" "counter")))

counter-IsStated : IsStated (counter_metric {F = ℕ} "PollCount" 5)
counter-IsStated = ((λ g. absurd (ground (arith, g, eq_iff "counter" "gauge"))), λ c. (5, refl))

update_batch_fresh_example :
    let (r, w) =
      update_metrics_batch floats
        (memory_repo ℕ)
        ctx
        (elements (map element_of batch))
        (left_over ∷ [], service) in
    (r, w.1) ≡ update_metrics_batch_json floats (memory_repo ℕ) ctx (some batch) service
update_batch_fresh_example =
    update_batch_fresh floats ctx batch (left_over ∷ []) service
      (gauge-IsStated, (counter-IsStated, tt))

named : trim_space " Alloc" ≢ ""
unfolding trim_space trim_left trim_right is_space
named e = ground (arith, eq_iff "Alloc" "")

stale_value_stored_example :
    let body = elements (gauge_without_value " Alloc" ∷ []) in
    let (fresh, w0) = update_metrics_batch floats (memory_repo ℕ) ctx body ([], service) in
    let (reused, w1) =
      update_metrics_batch floats
        (memory_repo ℕ)
        ctx
        body
        (record left_over { value = some 7 } ∷ [], service) in
    (fresh.status ≡ 400)
    × (reused.status ≡ 200)
    × (Maps.get w1.1.repo.gauges (trim_space " Alloc") ≡ some 7)
stale_value_stored_example = stale_value_stored floats ctx " Alloc" 7 left_over [] service named
