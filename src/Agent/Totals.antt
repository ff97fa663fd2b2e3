-- ===== src/Agent/Totals.antt =====
-- A report of the agent at the server: what the collector has counted, once the service has stored it.
use golectra.Domain.{ok}
use golectra.Base.{
  arith, ap, inl, ◌^◌, ◌%◌, some, refl, int64_mod, ◌∙◌, ◌<◌, [], sum_int64, none, add_int64, ◌≡◌,
  String, ℕ, List, Option,
}
use golectra.Base.Maps
use golectra.Base.Maps.{Visits, IsMap}
use golectra.Agent.{build_batch}
use golectra.Collector.{Collector, start, Reach, poll_count}
use golectra.Collector.Polls.{start-Reach-polls}
use golectra.MetricsService.{Service, Context, upsert_batch, valid_items}
use golectra.MetricsService.Batch.{upsert_batch-ok}
use golectra.Ports.{MetricsRepo, Contract}
use golectra.Ports.Batch.{
  count_or_zero, counted, prepend, writes, deltas, writes-append, deltas-append,
}
use golectra.Ports.Flatten.{
  counter_items, gauge_items, writes-gauge_items, writes-counter_items, deltas-gauge_items,
  deltas-counter_items,
}

module _ {F : Type 0} where
  -- a batch writes one value to a gauge at most, and adds one delta to a counter
  build_batch_lem :
      (gs : List (String × F)) (cs : List (String × ℕ)) (k : String)
      → IsMap gs
      → IsMap cs
      → Maps.lookup k gs ≡ none
      → (writes k (build_batch gs cs) ≡ [])
        × (deltas k (build_batch gs cs) ≡ prepend (Maps.lookup k cs) [])
  unfolding build_batch
  build_batch_lem gs cs k g c absent = (
    writes-append k (gauge_items gs) (counter_items cs)
        ∙ rw (writes-gauge_items k gs g, writes-counter_items F k cs, absent) refl,
    deltas-append k (gauge_items gs) (counter_items cs)
        ∙ rw (deltas-gauge_items k gs, deltas-counter_items F k cs c) refl,
  )

count_added :
    (old o : Option ℕ)
    → count_or_zero old < int64_mod
    → count_or_zero (counted old (prepend o [])) ≡ add_int64 (count_or_zero old) (count_or_zero o)
unfolding add_int64 sum_int64
count_added old none small = omega (arith, small)
count_added old (some d) small = refl

module _ {F : Type 0} {repo : MetricsRepo F} (c : Contract repo) where
  -- A report that the server accepts adds to its PollCount the number of all rounds that the
  -- collector has made since it was started, wrapping at 64 bits. The report is taken between two
  -- rounds of the polling goroutine, its names are trimmed, no gauge has the name PollCount, and the
  -- server's count was an int64.
  pub report_adds_total :
      (ctx : Context) (col : Collector F) (gs : List (String × F)) (cs : List (String × ℕ)) (n : ℕ)
      (s : Service repo.State F)
      → Reach start col
      → col.polling ≡ []
      → Visits gs col.stats.gauges
      → Visits cs col.stats.counters
      → Maps.get col.stats.gauges poll_count ≡ none
      → valid_items (build_batch gs cs) ≡ build_batch gs cs
      → count_or_zero ((c.view s.repo).counter_at poll_count) < int64_mod
      → (upsert_batch repo ctx (build_batch gs cs) s).0 ≡ ok n
      → let s' = (upsert_batch repo ctx (build_batch gs cs) s).1 in
        count_or_zero ((c.view s'.repo).counter_at poll_count)
        ≡ add_int64 (count_or_zero ((c.view s.repo).counter_at poll_count)) (col.rounds % 2 ^ 64)
  report_adds_total ctx col gs cs n s r idle vg vc no_gauge trimmed small h =
      let old = (c.view s.repo).counter_at poll_count in
      let (ws, ds) =
        build_batch_lem gs cs poll_count vg.once vc.once (vg.same poll_count ∙ no_gauge) in
      let (k, pos, le, g, counters) = upsert_batch-ok c ctx (build_batch gs cs) poll_count n s h in
      ap count_or_zero (counters (ap (writes poll_count) trimmed ∙ ws))
      ∙ ap (λ xs. count_or_zero (counted old xs)) (ap (deltas poll_count) trimmed ∙ ds)
      ∙ count_added old (Maps.lookup poll_count cs) small
      ∙ ap (λ o. add_int64 (count_or_zero old) (count_or_zero o)) (vc.same poll_count)
      ∙ ap (add_int64 (count_or_zero old)) ((start-Reach-polls col r).0 (inl idle))
