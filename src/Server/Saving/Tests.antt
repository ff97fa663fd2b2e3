-- ===== src/Server/Saving/Tests.antt =====
-- Two batches on an empty repository whose snapshots are saved in the other order.
use golectra.Base.{
  is_space, trim_right, trim_left, trim_space, List, [], ◌∷◌, none, some, ℕ, ◌≡◌, ◌≢◌,
}
use golectra.Domain.{Metrics, Snapshot, gauge_metric, ok}
use golectra.Memory.{Repo, update_all, snapshot}
use golectra.MetricsService.{valid_items}
use golectra.Server.Saving.Races.{Reach, start, stale_file}

abbrev empty_repo : Repo ℕ
empty_repo = record { gauges = record { entries = [] }; counters = record { entries = [] } }

abbrev one : List (Metrics ℕ)
one = gauge_metric "HeapAlloc" 1 ∷ []

abbrev two : List (Metrics ℕ)
two = gauge_metric "HeapAlloc" 2 ∷ []

some_one : valid_items one ≢ []
unfolding valid_items trim_space trim_left trim_right is_space
some_one = λ e. cc e

some_two : valid_items two ≢ []
unfolding valid_items trim_space trim_left trim_right is_space
some_two = λ e. cc e

stale_file_example :
    (sn : Snapshot ℕ) × ((snapshot (update_all (valid_items one) empty_repo)).0 ≡ ok sn)
    × Reach (start empty_repo none) (record {
      repo = update_all (valid_items two) (update_all (valid_items one) empty_repo);
      file = some sn;
      requests = [];
      answered = one ∷ two ∷ [];
    })
stale_file_example = stale_file empty_repo none one two some_one some_two
