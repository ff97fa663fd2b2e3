-- ===== src/Collector.antt =====
-- internal/adapters/collector/runtime: the collector's readings. The Go runtime, the random source and
-- gopsutil are outside: what they answer is part of a step. A float64 is a type parameter.
pub mod Polls
mod Tests
use golectra.Ports.Batch.{count_or_zero}
use golectra.Base.Maps.{copy_entries, GoMap}
use golectra.Base.{
  false, none, suc, map, true, ◌∷◌, Bool, add_int64, ◌++◌, some, ◌≡◌, String, [], Option, ℕ, List,
}
use golectra.Base.Maps
use golectra.Handler.Numbers.{format_int64}
use Prim.Native.String.{◌++◌ as text_append}

-- stats
pub record Stats (F : Type 0) : Type 0 where
  pub gauges : GoMap F
  pub counters : GoMap ℕ

-- the keys under which runtime.MemStats is stored, in the order of the calls
abbrev pub mem_keys : List String
mem_keys =
    "Alloc" ∷ "BuckHashSys" ∷ "Frees" ∷ "GCCPUFraction" ∷ "GCSys" ∷ "HeapAlloc" ∷ "HeapIdle"
    ∷ "HeapInuse" ∷ "HeapObjects" ∷ "HeapReleased" ∷ "HeapSys" ∷ "LastGC" ∷ "Lookups"
    ∷ "MCacheInuse" ∷ "MCacheSys" ∷ "MSpanInuse" ∷ "MSpanSys" ∷ "Mallocs" ∷ "NextGC" ∷ "NumForcedGC"
    ∷ "NumGC" ∷ "OtherSys" ∷ "PauseTotalNs" ∷ "StackInuse" ∷ "StackSys" ∷ "Sys" ∷ "TotalAlloc" ∷ []

abbrev pub random_value : String
random_value = "RandomValue"

abbrev pub poll_count : String
poll_count = "PollCount"

module _ {F : Type 0} where
  -- newStats
  unfoldable pub new_stats : Stats F
  new_stats = record { gauges = Maps.empty; counters = Maps.empty }

  -- SetGauge
  unfoldable pub set_gauge : String → F → Stats F → Stats F
  set_gauge name v s = record s { gauges = Maps.put s.gauges name v }

  -- AddCounter
  unfoldable pub add_counter : String → ℕ → Stats F → Stats F
  add_counter name d s = record s {
    counters = Maps.put s.counters name (add_int64 (count_or_zero (Maps.get s.counters name)) d);
  }

  -- Snapshot, over the entries of the two maps in the orders in which maps.Copy visits them
  unfoldable pub snapshot_in : List (String × F) → List (String × ℕ) → GoMap F × GoMap ℕ
  snapshot_in gs cs = (copy_entries Maps.empty gs, copy_entries Maps.empty cs)

-- `fmt.Sprintf("%s%d", CPUutilization, i+1)` for each processor
abbrev pub cpu_key : ℕ → String
cpu_key i = text_append "CPUutilization" (format_int64 i)

-- A call of SetGauge or AddCounter that a goroutine is about to make.
pub data Write (F : Type 0) : Type 0 where
  gauge_write : String → F → Write F
  counter_write : String → ℕ → Write F

module _ {F : Type 0} where
  unfoldable pub apply : Write F → Stats F → Stats F
  unfolding set_gauge add_counter
  apply (gauge_write name v) s = set_gauge name v s
  apply (counter_write name d) s = add_counter name d s

  -- one tick of the first goroutine: `reading` is what ReadMemStats found for each key
  unfoldable pub poll_writes : (String → F) → F → List (Write F)
  poll_writes reading rnd =
      map (λ k. gauge_write k (reading k)) mem_keys
      ++ gauge_write random_value rnd ∷ counter_write poll_count 1 ∷ []

  -- mem.VirtualMemory, if it gave no error
  abbrev pub memory_writes : Option (F × F) → List (Write F)
  memory_writes none = []
  memory_writes (some (total, free)) =
      gauge_write "TotalMemory" total ∷ gauge_write "FreeMemory" free ∷ []

  unfoldable pub cpu_writes : ℕ → List F → List (Write F)
  cpu_writes i [] = []
  cpu_writes i (p ∷ pct) = gauge_write (cpu_key i) p ∷ cpu_writes (suc i) pct

  -- one tick of the second goroutine; an error of cpu.Percent counts as no processor
  unfoldable pub system_writes : Option (F × F) → List F → List (Write F)
  unfolding cpu_writes
  system_writes vm pct = memory_writes vm ++ cpu_writes 1 pct

-- Collector after Start: the calls that each goroutine still has to make in its round, whether it has
-- not returned, and whether `stop` is closed or the context done. `rounds` counts the rounds of the
-- first goroutine.
pub record Collector (F : Type 0) : Type 0 where
  pub stats : Stats F
  pub polling : List (Write F)
  pub sampling : List (Write F)
  pub poll_live : Bool
  pub sample_live : Bool
  pub stopped : Bool
  pub rounds : ℕ

module _ {F : Type 0} where
  -- New and Start
  unfoldable pub start : Collector F
  unfolding new_stats
  start = record {
    stats = new_stats;
    polling = [];
    sampling = [];
    poll_live = true;
    sample_live = true;
    stopped = false;
    rounds = 0;
  }

  pub data Step : Collector F → Collector F → Type 0 where
    -- `case <-t.C`
    poll :
        (c : Collector F) (reading : String → F) (rnd : F)
        → c.poll_live ≡ true
        → c.polling ≡ []
        → Step c (record c { polling = poll_writes reading rnd; rounds = suc c.rounds })
    poll_write :
        (c : Collector F) (wr : Write F) (rest : List (Write F))
        → c.polling ≡ wr ∷ rest
        → Step c (record c { stats = apply wr c.stats; polling = rest })
    -- `case <-tSys.C`
    sample :
        (c : Collector F) (vm : Option (F × F)) (pct : List F)
        → c.sample_live ≡ true
        → c.sampling ≡ []
        → Step c (record c { sampling = system_writes vm pct })
    sample_write :
        (c : Collector F) (wr : Write F) (rest : List (Write F))
        → c.sampling ≡ wr ∷ rest
        → Step c (record c { stats = apply wr c.stats; sampling = rest })
    -- Stop, or the end of the context
    stop : (c : Collector F) → Step c (record c { stopped = true })
    -- `case <-c.stop` of each goroutine
    poll_return :
        (c : Collector F)
        → c.stopped ≡ true
        → c.polling ≡ []
        → Step c (record c { poll_live = false })
    sample_return :
        (c : Collector F)
        → c.stopped ≡ true
        → c.sampling ≡ []
        → Step c (record c { sample_live = false })

  pub data Reach (s : Collector F) : Collector F → Type 0 where
    here : Reach s s
    next : {t u : Collector F} → Reach s t → Step t u → Reach s u
