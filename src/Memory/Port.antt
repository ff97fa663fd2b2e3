-- ===== src/Memory/Port.antt =====
-- The in-memory repository as an implementation of ports.MetricsRepo.
use golectra.Ports.Batch.{writes, deltas, last_or, counted}
use golectra.Memory.Valid.{
  new-IsValid, update_many-IsValid, add_counter-IsValid, set_gauge-IsValid, get_counter-IsValid,
  get_gauge-IsValid, IsValid,
}
use golectra.Base.{none, add_int64, ℕ, String, ◌≡◌, refl, ◌≢◌, List, some, arith, eq_iff, eq_refl}
use golectra.Base.Maps
use golectra.Base.Maps.{
  entries-Visits, copy_entries, get-put, get-empty, get-copy_entries, IsMap, Visits,
}
use golectra.Domain.{ok, Metrics, Snapshot}
use golectra.Ports.{IfErr, Reads, Contract, MetricsRepo, View, SameAt}
use golectra.Memory.{
  new, count_or_zero, Repo, get_gauge, get_counter, set_gauge, add_counter, update_many,
  snapshot_in, snapshot, ping,
}
use golectra.Memory.Batch.{update_all_lem}

abbrev pub memory_repo : (F : Type 0) → MetricsRepo F
memory_repo F = record {
  State = Repo F;
  get_gauge = get_gauge;
  get_counter = get_counter;
  set_gauge = set_gauge;
  add_counter = add_counter;
  update_many = update_many;
  snapshot = snapshot;
  ping = ping;
}

abbrev pub memory_view : {F : Type 0} → Repo F → View F
memory_view r = record { gauge_at = Maps.get r.gauges; counter_at = Maps.get r.counters }

module _ {F : Type 0} where
  pub get_gauge-Reads : (k : String) (r : Repo F) → Reads (get_gauge k r).0 (Maps.get r.gauges k)
  unfolding get_gauge
  get_gauge-Reads k r = ground arith

  pub get_counter-Reads :
      (k : String) (r : Repo F) → Reads (get_counter k r).0 (Maps.get r.counters k)
  unfolding get_counter
  get_counter-Reads k r = ground arith

  pub set_gauge_ne :
      (k j : String) (v : F) (r : Repo F)
      → k ≢ j
      → SameAt j (memory_view r) (memory_view (set_gauge k v r).1)
  unfolding set_gauge
  set_gauge_ne k j v r h = record {
    gauge_same = ground (arith, get-put r.gauges k j v, eq_iff k j);
    counter_same = refl;
  }

  pub add_counter_ne :
      (k j : String) (d : ℕ) (r : Repo F)
      → k ≢ j
      → SameAt j (memory_view r) (memory_view (add_counter k d r).1)
  unfolding add_counter
  add_counter_ne k j d r h = record {
    gauge_same = refl;
    counter_same = grind (arith, get-put, eq_iff);
  }

  pub get_counter_keeps :
      (k j : String) (r : Repo F) → SameAt j (memory_view r) (memory_view (get_counter k r).1)
  unfolding get_counter
  get_counter_keeps k j r = record { gauge_same = refl; counter_same = refl }

  pub get_gauge_keeps :
      (k j : String) (r : Repo F) → SameAt j (memory_view r) (memory_view (get_gauge k r).1)
  unfolding get_gauge
  get_gauge_keeps k j r = record { gauge_same = refl; counter_same = refl }

  pub set_gauge-ok :
      (k : String) (v : F) (r : Repo F) → Maps.get (set_gauge k v r).1.gauges k ≡ some v
  unfolding set_gauge
  set_gauge-ok k v r = ground (arith, get-put r.gauges k k v, eq_refl k)

  -- A snapshot holds under every key what the repository holds there, in whatever orders the two
  -- maps are visited, and the repository is left as it was.
  pub snapshot_in_lem :
      (r : Repo F) (gs : List (String × F)) (cs : List (String × ℕ))
      → Visits gs r.gauges
      → Visits cs r.counters
      → (sn : Snapshot F) × (snapshot_in gs cs r ≡ (ok sn, r))
        × ((k : String) → Maps.get sn.gauges k ≡ Maps.get r.gauges k)
        × ((k : String) → Maps.get sn.counters k ≡ Maps.get r.counters k)
  unfolding snapshot_in
  snapshot_in_lem r gs cs vg vc = (
    record { gauges = copy_entries Maps.empty gs; counters = copy_entries Maps.empty cs },
    refl,
    λ k. ground (arith, get-copy_entries Maps.empty gs k vg.once, vg.same k, get-empty {V = F} k),
    λ k. ground (arith, get-copy_entries Maps.empty cs k vc.once, vc.same k, get-empty {V = ℕ} k),
  )

  pub add_counter-ok :
      (k : String) (d : ℕ) (r : Repo F)
      → Maps.get (add_counter k d r).1.counters k
        ≡ some (add_int64 (count_or_zero (Maps.get r.counters k)) d)
  unfolding add_counter
  add_counter-ok k d r = simp (get-put, eq_refl)

  pub update_many-gauges :
      (items : List (Metrics F)) (k : String) (r : Repo F)
      → Maps.get (update_many items r).1.gauges k ≡ last_or (Maps.get r.gauges k) (writes k items)
  unfolding update_many
  update_many-gauges items k r = (update_all_lem k items r).0

  pub update_many-counters :
      (items : List (Metrics F)) (k : String) (r : Repo F)
      → Maps.get (update_many items r).1.counters k
        ≡ counted (Maps.get r.counters k) (deltas k items)
  unfolding update_many
  update_many-counters items k r = (update_all_lem k items r).1

  pub snapshot-ok :
      (k : String) (r : Repo F) (sn : Snapshot F)
      → IsValid r
      → (snapshot r).0 ≡ ok sn
      → (Maps.get sn.gauges k ≡ Maps.get r.gauges k)
        × (Maps.get sn.counters k ≡ Maps.get r.counters k)
  unfolding snapshot
  snapshot-ok k r sn v h =
      let (sn', e, g, c) =
        snapshot_in_lem r r.gauges.entries r.counters.entries
          (entries-Visits r.gauges v.gauges_once) (entries-Visits r.counters v.counters_once) in
      (cc (g k, h, e), cc (c k, h, e))

  pub snapshot-IsValid : (r : Repo F) → IsValid r → IsValid (snapshot r).1
  unfolding snapshot
  snapshot-IsValid r v = v

  pub snapshot_keeps :
      (j : String) (r : Repo F) → SameAt j (memory_view r) (memory_view (snapshot r).1)
  unfolding snapshot
  snapshot_keeps j r = record { gauge_same = refl; counter_same = refl }

  pub set_gauge-err :
      (k j : String) (v : F) (r : Repo F)
      → IfErr (set_gauge k v r).0 (SameAt j (memory_view r) (memory_view (set_gauge k v r).1))
  unfolding set_gauge
  set_gauge-err k j v r = tt

  pub add_counter-err :
      (k j : String) (d : ℕ) (r : Repo F)
      → IfErr (add_counter k d r).0 (SameAt j (memory_view r) (memory_view (add_counter k d r).1))
  unfolding add_counter
  add_counter-err k j d r = tt

  pub update_many-err :
      (items : List (Metrics F)) (k : String) (r : Repo F)
      → IfErr
          (update_many items r).0
          (SameAt k (memory_view r) (memory_view (update_many items r).1))
  unfolding update_many
  update_many-err items k r = tt

abbrev pub memory_contract : (F : Type 0) → Contract (memory_repo F)
memory_contract F = record {
  view = memory_view;
  Valid = IsValid;
  get_gauge-Valid = get_gauge-IsValid;
  get_counter-Valid = get_counter-IsValid;
  set_gauge-Valid = set_gauge-IsValid;
  add_counter-Valid = add_counter-IsValid;
  update_many-Valid = update_many-IsValid;
  snapshot-Valid = snapshot-IsValid;
  get_gauge-Reads = get_gauge-Reads;
  get_gauge_keeps = get_gauge_keeps;
  get_counter-Reads = get_counter-Reads;
  get_counter_keeps = get_counter_keeps;
  set_gauge-ok = λ k v r _. set_gauge-ok k v r;
  set_gauge_ne = set_gauge_ne;
  set_gauge-err = set_gauge-err;
  add_counter-ok = λ k d r _. add_counter-ok k d r;
  add_counter_ne = add_counter_ne;
  add_counter-err = add_counter-err;
  update_many-gauges = λ items k r _ _. update_many-gauges items k r;
  update_many-counters = λ items k r _ _. update_many-counters items k r;
  update_many-err = update_many-err;
  snapshot-ok = snapshot-ok;
  snapshot_keeps = snapshot_keeps;
}

-- The in-memory repository meets the contract of ports.MetricsRepo with the lookups of its two maps
-- as the view, and the repository that New returns is valid for it and holds nothing.
pub memory_meets_contract :
    (F : Type 0)
    → (c : Contract (memory_repo F)) × (c.view ≡ memory_view)
      × c.Valid new
      × ((k : String) → ((c.view new).gauge_at k ≡ none) × ((c.view new).counter_at k ≡ none))
unfolding new
memory_meets_contract F =
    (memory_contract F, refl, new-IsValid, λ k. (get-empty {V = F} k, get-empty {V = ℕ} k))
