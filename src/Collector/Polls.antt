-- ===== src/Collector/Polls.antt =====
-- What the counter of polls says, under every interleaving of the two goroutines, readers and Stop.
use golectra.Base.{
  inr, sym, eq_iff, inl, ◌∙◌, ap, ◌==◌, ◌⊎◌, refl, false, ◌≢◌, ◌^◌, ◌%◌, [], ◌+◌, suc, int64_mod,
  none, ◌∷◌, arith, ◌<◌, some, add_int64, All, List, ◌≡◌, ℕ, String, Option,
}
use golectra.Collector.{
  Collector, Stats, Write, gauge_write, counter_write, apply, new_stats, start, poll_writes,
  system_writes, cpu_writes, poll_count, Step, poll, poll_write, sample, sample_write, stop,
  poll_return, sample_return, Reach, here, next,
}
use golectra.Base.Maps
use golectra.Base.Maps.{get-put, get-empty}
use golectra.Ports.Batch.{count_or_zero}

ne_test : (k j : String) → k ≢ j → (k == j) ≡ false
ne_test k j n = ground (arith, eq_iff k j)

module _ {F : Type 0} where
  -- what a pending call adds to a counter
  abbrev owed_by : Write F → ℕ
  owed_by (gauge_write k v) = 0
  owed_by (counter_write k d) = d

  owed : List (Write F) → ℕ
  owed [] = 0
  owed (wr ∷ rest) = owed_by wr + owed rest

  abbrev IsPollWrite : Write F → Type 0
  IsPollWrite (gauge_write k v) = Unit
  IsPollWrite (counter_write k d) = k ≡ poll_count

  abbrev IsGaugeWrite : Write F → Type 0
  IsGaugeWrite (gauge_write k v) = Unit
  IsGaugeWrite (counter_write k d) = ⊥

  abbrev polls : Stats F → ℕ
  polls s = count_or_zero (Maps.get s.counters poll_count)

  -- The rounds begun are the polls counted and those that a round still owes.
  record IsCounted (c : Collector F) : Type 0 where
    poll_only : All IsPollWrite c.polling
    gauge_only : All IsGaugeWrite c.sampling
    in_range : polls c.stats < int64_mod
    balanced : (polls c.stats + owed c.polling) % 2 ^ 64 ≡ c.rounds % 2 ^ 64
    alone : (k : String) → k ≢ poll_count → Maps.get c.stats.counters k ≡ none
    at_rest : c.poll_live ≡ false → c.polling ≡ []

  poll_writes_lem :
      (reading : String → F) (rnd : F)
      → (owed (poll_writes reading rnd) ≡ 1) × All IsPollWrite (poll_writes reading rnd)
  unfolding poll_writes owed
  poll_writes_lem reading rnd = ground arith

  cpu_writes_lem : (i : ℕ) (pct : List F) → All IsGaugeWrite (cpu_writes i pct)
  unfolding cpu_writes
  cpu_writes_lem i [] = tt
  cpu_writes_lem i (p ∷ pct) = (tt, cpu_writes_lem (suc i) pct)

  system_writes_lem : (vm : Option (F × F)) (pct : List F) → All IsGaugeWrite (system_writes vm pct)
  unfolding system_writes
  system_writes_lem none pct = cpu_writes_lem 1 pct
  system_writes_lem (some (total, free)) pct = (tt, (tt, cpu_writes_lem 1 pct))

  -- A call changes the count of polls by what it owed, and no other counter.
  apply_lem :
      (wr : Write F) (s : Stats F)
      → IsPollWrite wr
      → polls s < int64_mod
      → (polls (apply wr s) ≡ (polls s + owed_by wr) % 2 ^ 64)
        × ((k : String) → k ≢ poll_count → Maps.get (apply wr s).counters k ≡ Maps.get s.counters k)
  unfolding apply add_int64
  apply_lem (gauge_write k v) s h b = (omega (arith, b), λ j n. refl)
  apply_lem (counter_write k d) s h b = (
    rw h (ap count_or_zero (get-put s.counters poll_count poll_count _)),
    λ j n. get-put s.counters k j _ ∙ rw (ne_test k j (λ e. n (sym e ∙ h))) refl,
  )

  gauge_calls :
      (xs : List (Write F)) (wr : Write F) → IsGaugeWrite wr → (owed_by wr ≡ 0) × IsPollWrite wr
  gauge_calls xs (gauge_write k v) h = (refl, tt)
  gauge_calls xs (counter_write k d) h = absurd h

  Step-IsCounted : {c c' : Collector F} → Step c c' → IsCounted c → IsCounted c'
  unfolding owed
  Step-IsCounted (poll c reading rnd live idle) v =
      let (one, only) = poll_writes_lem reading rnd in
      record {
        poll_only = only;
        gauge_only = v.gauge_only;
        in_range = v.in_range;
        balanced = let b = rw idle at v.balanced in omega (arith, b, one);
        alone = v.alone;
        at_rest = λ h. absurd (cc (h, live));
      }
  Step-IsCounted (poll_write c wr rest e) v =
      let only = rw e at v.poll_only in
      let b = rw e at v.balanced in
      let (counted, others) = apply_lem wr c.stats only.0 v.in_range in
      record {
        poll_only = only.1;
        gauge_only = v.gauge_only;
        in_range = omega (arith, counted);
        balanced = omega (arith, counted, b);
        alone = λ k n. others k n ∙ v.alone k n;
        at_rest = λ h. absurd (cc (v.at_rest h, e));
      }
  Step-IsCounted (sample c vm pct live idle) v = record {
    poll_only = v.poll_only;
    gauge_only = system_writes_lem vm pct;
    in_range = v.in_range;
    balanced = v.balanced;
    alone = v.alone;
    at_rest = v.at_rest;
  }
  Step-IsCounted (sample_write c wr rest e) v =
      let only = rw e at v.gauge_only in
      let (free, call) = gauge_calls rest wr only.0 in
      let (counted, others) = apply_lem wr c.stats call v.in_range in
      record {
        poll_only = v.poll_only;
        gauge_only = only.1;
        in_range = omega (arith, counted);
        balanced = omega (arith, counted, free, v.balanced);
        alone = λ k n. others k n ∙ v.alone k n;
        at_rest = v.at_rest;
      }
  Step-IsCounted (stop c) v = record {
    poll_only = v.poll_only;
    gauge_only = v.gauge_only;
    in_range = v.in_range;
    balanced = v.balanced;
    alone = v.alone;
    at_rest = v.at_rest;
  }
  Step-IsCounted (poll_return c s idle) v = record {
    poll_only = v.poll_only;
    gauge_only = v.gauge_only;
    in_range = v.in_range;
    balanced = v.balanced;
    alone = v.alone;
    at_rest = λ h. idle;
  }
  Step-IsCounted (sample_return c s idle) v = record {
    poll_only = v.poll_only;
    gauge_only = v.gauge_only;
    in_range = v.in_range;
    balanced = v.balanced;
    alone = v.alone;
    at_rest = v.at_rest;
  }

  start-IsCounted : IsCounted (start {F = F})
  unfolding start new_stats owed
  start-IsCounted = record {
    poll_only = tt;
    gauge_only = tt;
    in_range = rw (get-empty {V = ℕ} poll_count) (omega arith);
    balanced = rw (get-empty {V = ℕ} poll_count) refl;
    alone = λ k n. get-empty k;
    at_rest = λ h. refl;
  }

  Reach-IsCounted : {s c : Collector F} → IsCounted s → Reach s c → IsCounted c
  Reach-IsCounted v here = v
  Reach-IsCounted v (next r st) = Step-IsCounted st (Reach-IsCounted v r)

  -- Whatever the two goroutines, their timers and Stop do and in whatever order: a count of polls
  -- taken between two rounds of the first goroutine, or after it has returned, is the number of its
  -- rounds, as an int64, and there is no other counter at any time.
  pub start-Reach-polls :
      (c : Collector F)
      → Reach start c
      → ((c.polling ≡ []) ⊎ (c.poll_live ≡ false)
          → count_or_zero (Maps.get c.stats.counters poll_count) ≡ c.rounds % 2 ^ 64)
        × ((k : String) → k ≢ poll_count → Maps.get c.stats.counters k ≡ none)
  unfolding owed
  start-Reach-polls c r =
      let v = Reach-IsCounted start-IsCounted r in
      (
        λ idle.
            let none_left : c.polling ≡ [] = elim idle [ inl e ↦ e | inr gone ↦ v.at_rest gone ] in
            let b = rw none_left at v.balanced in omega (arith, b, v.in_range),
        v.alone,
      )
