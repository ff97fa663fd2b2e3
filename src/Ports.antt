-- ===== src/Ports.antt =====
-- internal/ports: the repository that the services use, as a record of its methods, and what a
-- client may rely on. A method may fail at any call; the contract says what it did when it did not.
pub mod Batch
pub mod Flatten
use golectra.Base.{ℕ, String, ◌≡◌, ◌≢◌, Option, none, some, List, [], add_int64}
use golectra.Base.Maps
use golectra.Domain.{Error, not_found, Result, ok, err, Exec, Metrics, Snapshot}
use Batch.{count_or_zero, last_or, counted, writes, deltas}

-- ports.MetricsRepo
pub record MetricsRepo (F : Type 0) : Type 1 where
  pub State : Type 0
  pub get_gauge : String → Exec State F
  pub get_counter : String → Exec State ℕ
  pub set_gauge : String → F → Exec State (Unit {0})
  pub add_counter : String → ℕ → Exec State (Unit {0})
  pub update_many : List (Metrics F) → Exec State (Unit {0})
  pub snapshot : Exec State (Snapshot F)
  pub ping : Exec State (Unit {0})

-- What a repository holds under each key.
pub record View (F : Type 0) : Type 0 where
  pub gauge_at : String → Option F
  pub counter_at : String → Option ℕ

-- The two views agree at a key.
pub record SameAt {F : Type 0} (k : String) (a b : View F) : Type 0 where
  pub gauge_same : b.gauge_at k ≡ a.gauge_at k
  pub counter_same : b.counter_at k ≡ a.counter_at k

-- What a read may answer where the view holds `o`: the value, that there is none, or a failure.
abbrev pub Reads : {A : Type 0} → Result A → Option A → Type 0
Reads (ok a) o = o ≡ some a
Reads (err not_found) o = o ≡ none
Reads (err _) o = Unit

-- `P` holds if the call returned an error.
abbrev pub IfErr : {A : Type 0} → Result A → Type 0 → Type 0
IfErr (ok a) P = Unit
IfErr (err e) P = P

-- The contract. It leaves open whether a key may hold a gauge and a counter at once.
pub record Contract {F : Type 0} (repo : MetricsRepo F) : Type 1 where
  pub view : repo.State → View F
  -- what the methods keep of the state, and the snapshot relies on
  pub Valid : repo.State → Type 0
  pub get_gauge-Valid : (k : String) (s : repo.State) → Valid s → Valid (repo.get_gauge k s).1
  pub get_counter-Valid : (k : String) (s : repo.State) → Valid s → Valid (repo.get_counter k s).1
  pub set_gauge-Valid :
      (k : String) (v : F) (s : repo.State) → Valid s → Valid (repo.set_gauge k v s).1
  pub add_counter-Valid :
      (k : String) (d : ℕ) (s : repo.State) → Valid s → Valid (repo.add_counter k d s).1
  pub update_many-Valid :
      (items : List (Metrics F)) (s : repo.State) → Valid s → Valid (repo.update_many items s).1
  pub snapshot-Valid : (s : repo.State) → Valid s → Valid (repo.snapshot s).1
  pub get_gauge-Reads :
      (k : String) (s : repo.State) → Reads (repo.get_gauge k s).0 ((view s).gauge_at k)
  pub get_gauge_keeps :
      (k j : String) (s : repo.State) → SameAt j (view s) (view (repo.get_gauge k s).1)
  pub get_counter-Reads :
      (k : String) (s : repo.State) → Reads (repo.get_counter k s).0 ((view s).counter_at k)
  pub get_counter_keeps :
      (k j : String) (s : repo.State) → SameAt j (view s) (view (repo.get_counter k s).1)
  pub set_gauge-ok :
      (k : String) (v : F) (s : repo.State)
      → (repo.set_gauge k v s).0 ≡ ok tt
      → (view (repo.set_gauge k v s).1).gauge_at k ≡ some v
  pub set_gauge_ne :
      (k j : String) (v : F) (s : repo.State)
      → k ≢ j
      → SameAt j (view s) (view (repo.set_gauge k v s).1)
  pub set_gauge-err :
      (k j : String) (v : F) (s : repo.State)
      → IfErr (repo.set_gauge k v s).0 (SameAt j (view s) (view (repo.set_gauge k v s).1))
  pub add_counter-ok :
      (k : String) (d : ℕ) (s : repo.State)
      → (repo.add_counter k d s).0 ≡ ok tt
      → (view (repo.add_counter k d s).1).counter_at k
        ≡ some (add_int64 (count_or_zero ((view s).counter_at k)) d)
  pub add_counter_ne :
      (k j : String) (d : ℕ) (s : repo.State)
      → k ≢ j
      → SameAt j (view s) (view (repo.add_counter k d s).1)
  pub add_counter-err :
      (k j : String) (d : ℕ) (s : repo.State)
      → IfErr (repo.add_counter k d s).0 (SameAt j (view s) (view (repo.add_counter k d s).1))
  pub update_many-gauges :
      (items : List (Metrics F)) (k : String) (s : repo.State)
      → (repo.update_many items s).0 ≡ ok tt
      → deltas k items ≡ []
      → (view (repo.update_many items s).1).gauge_at k
        ≡ last_or ((view s).gauge_at k) (writes k items)
  pub update_many-counters :
      (items : List (Metrics F)) (k : String) (s : repo.State)
      → (repo.update_many items s).0 ≡ ok tt
      → writes k items ≡ []
      → (view (repo.update_many items s).1).counter_at k
        ≡ counted ((view s).counter_at k) (deltas k items)
  pub update_many-err :
      (items : List (Metrics F)) (k : String) (s : repo.State)
      → IfErr (repo.update_many items s).0 (SameAt k (view s) (view (repo.update_many items s).1))
  pub snapshot-ok :
      (k : String) (s : repo.State) (sn : Snapshot F)
      → Valid s
      → (repo.snapshot s).0 ≡ ok sn
      → (Maps.get sn.gauges k ≡ (view s).gauge_at k)
        × (Maps.get sn.counters k ≡ (view s).counter_at k)
  pub snapshot_keeps : (j : String) (s : repo.State) → SameAt j (view s) (view (repo.snapshot s).1)
