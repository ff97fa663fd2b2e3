-- ===== src/Persistence/Restored.antt =====
-- What Restore brings back of a snapshot that Save wrote.
use golectra.Persistence.Atomic.{save_atomic}
use golectra.Ports.Batch.{counted, last_or, deltas-append, writes-append, deltas, prepend, writes}
use golectra.Base.Maps.{get-empty, Visits, IsMap}
use golectra.Base.{
  sym, add_int64_zero, ap, int64_mod, none, refl, ◌<◌, ◌++◌, some, Option, sum_int64, ◌∙◌, [], ◌≡◌,
  ℕ, String, List,
}
use golectra.Persistence.{save, restore, opened, flatten_snapshot, FileSystem, IsFileSystem, Codec}
use golectra.Domain.{ok, Metrics, Snapshot}
use golectra.Memory.Batch.{update_all_lem}
use golectra.Memory
use golectra.Base.Maps
use golectra.Memory.Port.{memory_repo}
use golectra.Ports.Flatten.{
  counter_items, gauge_items, writes-gauge_items, writes-counter_items, deltas-gauge_items,
  deltas-counter_items,
}

prepend_nil : {A : Type 0} → (o : Option A) → prepend o [] ++ [] ≡ prepend o []
prepend_nil none = refl
prepend_nil (some a) = refl

last_lem : {A : Type 0} → (o : Option A) → last_or none (prepend o []) ≡ o
last_lem none = refl
last_lem (some a) = refl

only_count :
    (o : Option ℕ) → ((d : ℕ) → o ≡ some d → d < int64_mod) → counted none (prepend o []) ≡ o
unfolding sum_int64
only_count none h = refl
only_count (some d) h = ap some (add_int64_zero d (h d refl))

new_lem :
    (F : Type 0) (k : String)
    → (Maps.get (Memory.new {F = F}).gauges k ≡ none)
      × (Maps.get (Memory.new {F = F}).counters k ≡ none)
unfolding Memory.new
new_lem F k = (get-empty k, get-empty k)

module _ {F : Type 0} where
  flatten_lem :
      (gs : List (String × F)) (cs : List (String × ℕ)) (k : String)
      → IsMap gs
      → IsMap cs
      → (writes k (flatten_snapshot gs cs) ≡ prepend (Maps.lookup k gs) [])
        × (deltas k (flatten_snapshot gs cs) ≡ prepend (Maps.lookup k cs) [])
  unfolding flatten_snapshot
  flatten_lem gs cs k g c = (
    writes-append k (gauge_items gs) (counter_items cs)
        ∙ rw (writes-gauge_items k gs g, writes-counter_items F k cs)
            (prepend_nil (Maps.lookup k gs)),
    deltas-append k (gauge_items gs) (counter_items cs)
        ∙ rw (deltas-gauge_items k gs, deltas-counter_items F k cs c) refl,
  )

  module _ {W J : Type 0} (fs : FileSystem W J) (codec : Codec J F) (path : String)
      (rely : IsFileSystem fs path) where
    opened_lem :
        (items : List (Metrics F)) (o : Option J) (j : J) (w : W)
        → o ≡ some j
        → codec.decode j ≡ ok items
        → (opened fs codec path (memory_repo F) (ok o) (w, Memory.new)).1.1
          ≡ Memory.update_all items Memory.new
    unfolding Memory.update_many
    opened_lem items o j w e d = rw (e, d) refl

    -- A snapshot that Save wrote comes back: if Restore into an empty in-memory repository can open
    -- the file, and the JSON of the metrics decodes to them, then every key has the gauge and the
    -- count of the snapshot, and none besides. The counts are int64 values.
    pub restore-save :
        (sn : Snapshot F) (gs : List (String × F)) (cs : List (String × ℕ)) (w : W)
        → Visits gs sn.gauges
        → Visits cs sn.counters
        → ((k : String) (d : ℕ) → Maps.get sn.counters k ≡ some d → d < int64_mod)
        → ((j : J)
            → codec.encode (flatten_snapshot gs cs) ≡ ok j
            → codec.decode j ≡ ok (flatten_snapshot gs cs))
        → (save fs codec path gs cs w).0 ≡ ok tt
        → (o : Option J) → (fs.open_file path (save fs codec path gs cs w).1).0 ≡ ok o
        → (k : String)
        → let r =
            (restore fs codec path
              (memory_repo F)
              ((save fs codec path gs cs w).1, Memory.new)).1.1 in
          (Maps.get r.gauges k ≡ Maps.get sn.gauges k)
          × (Maps.get r.counters k ≡ Maps.get sn.counters k)
    unfolding restore
    restore-save sn gs cs w vg vc small codes saved o can k =
        let w1 = (save fs codec path gs cs w).1 in
        let items = flatten_snapshot gs cs in
        let (j, e, held) = (save_atomic fs codec path rely gs cs w).0 saved in
        let same =
          opened_lem items o j (fs.open_file path w1).1 (rely.open_file-ok o w1 can ∙ held)
            (codes j e) in
        let (g, c) = update_all_lem k items Memory.new in
        let (gw, cd) = flatten_lem gs cs k vg.once vc.once in
        let (ng, nc) = new_lem F k in
        let sg = vg.same k in
        let sc = vc.same k in
        rw (can, same, g, c, gw, cd, ng, nc)
          (
            last_lem (Maps.lookup k gs) ∙ sg,
            only_count (Maps.lookup k cs) (λ d h. small k d (sym sc ∙ h)) ∙ sc,
          )
