-- ===== src/Memory.antt =====
-- internal/adapters/repository/memory/memory.go: the in-memory repository. Each method holds the
-- lock for its whole body, so each is one step on the two maps.
pub mod Batch
pub mod Valid
pub mod Merge
pub mod Calls
mod Tests
pub mod Port
use golectra.Base.{ℕ, String, Option, none, some, List, [], ◌∷◌, ◌==◌, if◌then◌else◌, add_int64}
use golectra.Base.Maps
use golectra.Base.Maps.{GoMap, copy_entries}
use golectra.Domain.{
  Error, other, Result, ok, err, Exec, or_not_found, gauge, counter, Metrics, Snapshot,
}
use golectra.Ports.Batch.{count_or_zero}

pub record Repo (F : Type 0) : Type 0 where
  pub gauges : GoMap F
  pub counters : GoMap ℕ

module _ {F : Type 0} where
  -- New
  unfoldable pub new : Repo F
  new = record { gauges = Maps.empty; counters = Maps.empty }

  unfoldable pub get_gauge : String → Exec (Repo F) F
  get_gauge name r = (or_not_found (Maps.get r.gauges name), r)

  unfoldable pub get_counter : String → Exec (Repo F) ℕ
  get_counter name r = (or_not_found (Maps.get r.counters name), r)

  unfoldable pub set_gauge : String → F → Exec (Repo F) (Unit {0})
  set_gauge name v r = (ok tt, record r { gauges = Maps.put r.gauges name v })

  -- `r.counters[name] += delta`
  unfoldable pub bump : Repo F → String → ℕ → Repo F
  bump r name d = record r {
    counters = Maps.put r.counters name (add_int64 (count_or_zero (Maps.get r.counters name)) d);
  }

  unfoldable pub add_counter : String → ℕ → Exec (Repo F) (Unit {0})
  unfolding bump
  add_counter name d r = (ok tt, bump r name d)

  -- One round of the loop of UpdateMany.
  unfoldable pub update_one : Repo F → Metrics F → Repo F
  unfolding bump
  update_one r it =
      if it.mtype == gauge
      then elim it.value [ none ↦ r | some v ↦ record r { gauges = Maps.put r.gauges it.id v } ]
      else if it.mtype == counter
      then elim it.delta [ none ↦ r | some d ↦ bump r it.id d ]
      else r

  unfoldable pub update_all : List (Metrics F) → Repo F → Repo F
  update_all [] r = r
  update_all (it ∷ items) r = update_all items (update_one r it)

  unfoldable pub update_many : List (Metrics F) → Exec (Repo F) (Unit {0})
  update_many items r = (ok tt, update_all items r)

  -- `gs` and `cs` are the entries of the two maps in the orders in which maps.Copy visits them.
  unfoldable pub snapshot_in : List (String × F) → List (String × ℕ) → Exec (Repo F) (Snapshot F)
  snapshot_in gs cs r = (
    ok (record { gauges = copy_entries Maps.empty gs; counters = copy_entries Maps.empty cs }),
    r,
  )

  unfoldable pub snapshot : Exec (Repo F) (Snapshot F)
  unfolding snapshot_in
  snapshot r = snapshot_in r.gauges.entries r.counters.entries r

  unfoldable pub ping : Exec (Repo F) (Unit {0})
  ping r = (err (other "db not configured"), r)
