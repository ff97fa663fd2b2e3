-- ===== src/Memory/Tests.antt =====
-- The theorems on the in-memory repository at concrete updates, and runs of its methods. Gauge values
-- are numbers here.

use golectra.Memory.Calls.{run_calls-perm, many, add, run_calls, all_updates}
use golectra.Base.Maps.{entries-Visits}
use golectra.Memory.Batch.{update_all_lem}
use golectra.Memory.Port.{memory_meets_contract, memory_view, memory_repo}
use golectra.Ports.{Contract}
use golectra.Memory.{new, update_one, Repo, get_counter, update_all}
use golectra.Base.{String, some, refl, none, ◌≡◌, add_int64, sum_int64, [], ◌∷◌, List, ℕ}
use golectra.Memory.Valid.{IsValid}
use golectra.Ports.Batch.{deltas, writes}
use golectra.Domain.{ok, counter_metric, gauge_metric, Metrics}
use mathlib.Core.List.Perm
use golectra.Base.Maps

abbrev heap : Metrics ℕ
heap = gauge_metric "HeapAlloc" 42

abbrev poll : ℕ → Metrics ℕ
poll = counter_metric "PollCount"

abbrev updates : List (Metrics ℕ)
updates = poll 3 ∷ heap ∷ poll 4 ∷ record heap { value = none } ∷ []

abbrev stored : Repo ℕ
stored = record {
  gauges = record { entries = ("HeapAlloc", 7) ∷ [] };
  counters = record { entries = ("PollCount", 18446744073709551615) ∷ [] };
}

stored-IsValid : IsValid stored
unfolding Maps.lookup
stored-IsValid = record { gauges_once = (refl, tt); counters_once = (refl, tt) }

update_all_run : (get_counter "PollCount" (update_all updates stored)).0 ≡ ok 6
unfolding get_counter update_all update_one Maps.put Maps.get Maps.store Maps.lookup add_int64
update_all_run = refl

update_all_lem_example :
    (Maps.get (update_all updates stored).gauges "PollCount" ≡ none)
    × (Maps.get (update_all updates stored).counters "PollCount" ≡ some 6)
unfolding writes deltas sum_int64 add_int64 Maps.get Maps.lookup
update_all_lem_example = update_all_lem "PollCount" updates stored

memory_meets_contract_example :
    (c : Contract (memory_repo ℕ)) × (c.view ≡ memory_view)
    × c.Valid new
    × ((k : String) → ((c.view new).gauge_at k ≡ none) × ((c.view new).counter_at k ≡ none))
memory_meets_contract_example = memory_meets_contract ℕ

-- two single calls, and one batch the other way around
run_calls-perm_example :
    Maps.get (run_calls (add "PollCount" 3 ∷ add "PollCount" 4 ∷ []) stored).counters "PollCount"
    ≡ Maps.get (run_calls (many (poll 4 ∷ poll 3 ∷ []) ∷ []) stored).counters "PollCount"
unfolding all_updates
run_calls-perm_example =
    run_calls-perm "PollCount" (add "PollCount" 3 ∷ add "PollCount" 4 ∷ [])
      (many (poll 4 ∷ poll 3 ∷ []) ∷ []) stored (Perm.swap (poll 4) (poll 3) [])
