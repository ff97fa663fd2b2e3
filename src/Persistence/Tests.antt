-- ===== src/Persistence/Tests.antt =====
-- The persister on a file system that holds files by name, where every call succeeds; a file's
-- contents are the metrics themselves.
use golectra.Server.Saving.Restart.{batch_survives_restart}
use golectra.Server.Saving.{upsert_saved}
use golectra.Memory.Valid.{IsValid}
use golectra.MetricsService.{Context, upsert_batch, Service}
use golectra.Base.{
  true, false, eq_iff, int64_mod, eq_refl, ◌<◌, arith, none, ◌≢◌, ◌∷◌, refl, some, ◌≡◌, ℕ, Option,
  List, [], String,
}
use golectra.Persistence.{
  FileSystem, IsFileSystem, Codec, save, restore, write_json_atomic, flatten_snapshot, fill,
  make_dir,
}
use golectra.Persistence.Atomic.{Replaced, save_atomic}
use golectra.Persistence.Restored.{restore-save}
use golectra.Memory.Port.{memory_contract, memory_repo}
use golectra.Memory
use golectra.Domain.{
  counter_metric, gauge_metric, Error, Result, ok, err, other, Exec, Metrics, Snapshot,
}
use golectra.Base.Maps
use golectra.Base.Maps.{GoMap, IsMap, get-put, entries-Visits}

abbrev Json : Type 0
Json = List (Metrics ℕ)

abbrev Files : Type 0
Files = GoMap Json

abbrev db : String
db = "metrics-db.json"

abbrev tmp : String
tmp = ".metrics-1"

abbrev moved : String → Option Json → Exec Files (Unit {0})
moved p none files = (err (other "rename"), files)
moved p (some j) files = (ok tt, Maps.put files p j)

abbrev fs : FileSystem Files Json
fs = record {
  contents = Maps.get;
  dir = λ p. ".";
  mkdir_all = λ d files. (ok tt, files);
  create_temp = λ d files. (ok tmp, Maps.put files tmp []);
  write = λ t j files. (ok tt, Maps.put files t j);
  close = λ t files. (ok tt, files);
  rename = λ t p files. moved p (Maps.get files t) files;
  remove = λ t files. (ok tt, files);
  open_file = λ p files. (ok (Maps.get files p), files);
}

abbrev codec : Codec Json ℕ
codec = record { encode = ok; decode = ok }

tmp-ne : (t : String) → ◌≡◌ {A = Result String} (ok tmp) (ok t) → t ≢ db
tmp-ne t h e = ground (arith, h, e, eq_iff tmp db)

put_same : (files : Files) (p : String) (j : Json) → Maps.get (Maps.put files p j) p ≡ some j
put_same files p j = ground (arith, get-put files p p j, eq_refl p)

put_ne :
    (files : Files) (t : String) (j : Json)
    → t ≢ db
    → Maps.get (Maps.put files t j) db ≡ Maps.get files db
put_ne files t j n = ground (arith, get-put files t db j, eq_iff t db)

moved-ok :
    (o : Option Json) (files : Files)
    → (moved db o files).0 ≡ ok tt
    → Maps.get (moved db o files).1 db ≡ o
moved-ok none files h = absurd (cc h)
moved-ok (some j) files h = put_same files db j

moved-err :
    (o : Option Json) (files : Files) (e : Error)
    → (moved db o files).0 ≡ err e
    → Maps.get (moved db o files).1 db ≡ Maps.get files db
moved-err none files e h = refl
moved-err (some j) files e h = absurd (cc h)

fs-IsFileSystem : IsFileSystem fs db
fs-IsFileSystem = record {
  contents-mkdir_all = λ d w. refl;
  contents-create_temp = λ d w. put_ne w tmp [] (tmp-ne tmp refl);
  create_temp_ne = λ d t w h. tmp-ne t h;
  write-ok = λ t j w h. put_same w t j;
  write_ne = λ t j w n. put_ne w t j n;
  contents-close = λ t p w. refl;
  rename-ok = λ t w h. moved-ok (Maps.get w t) w h;
  rename-err = λ t w e h. moved-err (Maps.get w t) w e h;
  remove_ne = λ t w n. refl;
  contents-open_file = λ p w. refl;
  open_file-ok = λ o w h. cc h;
}

abbrev stored : Snapshot ℕ
stored = record {
  gauges = record { entries = ("HeapAlloc", 7) ∷ [] };
  counters = record { entries = ("PollCount", 2) ∷ [] };
}

abbrev gs : List (String × ℕ)
gs = ("HeapAlloc", 7) ∷ []

abbrev cs : List (String × ℕ)
cs = ("PollCount", 2) ∷ []

abbrev files : Files
files = record { entries = (db, []) ∷ [] }

saved_run : (save fs codec db gs cs files).0 ≡ ok tt
unfolding save write_json_atomic make_dir fill Maps.get Maps.put Maps.store Maps.lookup
saved_run = refl

save_atomic_example :
    Replaced fs codec db fs-IsFileSystem
      (flatten_snapshot gs cs)
      files
      (save fs codec db gs cs files)
save_atomic_example = save_atomic fs codec db fs-IsFileSystem gs cs files

gs_once : IsMap gs
unfolding Maps.lookup
gs_once = (refl, tt)

cs_once : IsMap cs
unfolding Maps.lookup
cs_once = (refl, tt)

small_counts : (k : String) (d : ℕ) → Maps.get stored.counters k ≡ some d → d < int64_mod
unfolding Maps.get Maps.lookup
small_counts k d h = ground (arith, h)

restore-save_example :
    (Maps.get
        (restore fs codec db
          (memory_repo ℕ)
          ((save fs codec db gs cs files).1, Memory.new)).1.1.gauges
        "HeapAlloc"
      ≡ Maps.get stored.gauges "HeapAlloc")
    × (Maps.get
          (restore fs codec db
            (memory_repo ℕ)
            ((save fs codec db gs cs files).1, Memory.new)).1.1.counters
          "HeapAlloc"
        ≡ Maps.get stored.counters "HeapAlloc")
restore-save_example =
    restore-save fs codec db fs-IsFileSystem stored gs cs files
      (entries-Visits stored.gauges gs_once) (entries-Visits stored.counters cs_once) small_counts
      (λ j h. cc h) saved_run (Maps.get (save fs codec db gs cs files).1 db) refl "HeapAlloc"

abbrev service : Service (Memory.Repo ℕ) ℕ
service = record {
  repo = record { gauges = record { entries = [] }; counters = record { entries = [] } };
  auditor = false;
  on_changed = true;
  clock = true;
  queue = none;
  published = [];
  dropped = 0;
  changed = [];
}

abbrev ctx : Context
ctx = record { client_ip = "10.0.0.7"; unix_time = 1700000000 }

abbrev batch : List (Metrics ℕ)
batch = gauge_metric "HeapAlloc" 42 ∷ counter_metric "PollCount" 2 ∷ []

abbrev reported : Snapshot ℕ
reported = record {
  gauges = record { entries = ("HeapAlloc", 42) ∷ [] };
  counters = record { entries = ("PollCount", 2) ∷ [] };
}

service-IsValid : IsValid service.repo
service-IsValid = record { gauges_once = tt; counters_once = tt }

accepted : (upsert_batch (memory_repo ℕ) ctx batch service).0 ≡ ok 2
unfolding upsert_batch golectra.MetricsService.valid_items golectra.Base.trim_space
    golectra.Base.trim_right golectra.Base.trim_left golectra.Base.is_space Memory.update_many
accepted = refl

hooked : (upsert_batch (memory_repo ℕ) ctx batch service).1.changed ≡ reported ∷ []
unfolding upsert_batch golectra.MetricsService.valid_items golectra.Base.trim_space
    golectra.Base.trim_right golectra.Base.trim_left golectra.Base.is_space Memory.update_many
    golectra.MetricsService.call_on_changed golectra.MetricsService.notify_audit Memory.snapshot
    Maps.copy_entries Memory.update_all Memory.update_one Maps.store Maps.empty
    golectra.Base.add_int64 Maps.get Maps.lookup
hooked = refl

reported_once : IsMap reported.gauges.entries × IsMap reported.counters.entries
unfolding Maps.lookup
reported_once = ((refl, tt), (refl, tt))

reported_counts : (k : String) (d : ℕ) → Maps.get reported.counters k ≡ some d → d < int64_mod
unfolding Maps.get Maps.lookup
reported_counts k d h = ground (arith, h)

reported_saved :
    (save fs codec db reported.gauges.entries reported.counters.entries files).0 ≡ ok tt
unfolding save write_json_atomic make_dir fill Maps.get Maps.put Maps.store Maps.lookup
reported_saved = refl

abbrev restarted : Files × Service (Memory.Repo ℕ) ℕ
restarted =
    (upsert_saved fs codec db (λ m. m.entries) (λ m. m.entries) (memory_repo ℕ) true ctx batch
      (files, service)).1

batch_survives_restart_example :
    let r = (restore fs codec db (memory_repo ℕ) (restarted.0, Memory.new)).1.1 in
    (Maps.get r.gauges "HeapAlloc"
      ≡ ((memory_contract ℕ).view restarted.1.repo).gauge_at "HeapAlloc")
    × (Maps.get r.counters "HeapAlloc"
        ≡ ((memory_contract ℕ).view restarted.1.repo).counter_at "HeapAlloc")
batch_survives_restart_example =
    batch_survives_restart fs codec db fs-IsFileSystem (λ m. m.entries) (λ m. m.entries)
      (memory_contract ℕ) ctx batch 2 files service reported (Maps.get restarted.0 db) "HeapAlloc"
      service-IsValid refl accepted hooked (entries-Visits reported.gauges reported_once.0)
      (entries-Visits reported.counters reported_once.1) reported_counts (λ j h. cc h)
      reported_saved refl
