-- ===== src/Ports/Flatten.antt =====
-- The batch that states every entry of two maps, as the persister and the agent build it, and what
-- it asks for.
use golectra.Ports.Batch.{writes, deltas, prepend}
use golectra.Domain.{Metrics, gauge_metric, counter_metric}
use golectra.Base.Maps
use golectra.Base.Maps.{IsMap}
use golectra.Base.{List, [], ◌∷◌, ◌≡◌, refl, ℕ, String, arith, eq_iff}

module _ {F : Type 0} where
  -- `for k, v := range gauges`
  unfoldable pub gauge_items : List (String × F) → List (Metrics F)
  gauge_items [] = []
  gauge_items ((k, v) ∷ rest) = gauge_metric k v ∷ gauge_items rest

  -- `for k, d := range counters`
  unfoldable pub counter_items : List (String × ℕ) → List (Metrics F)
  counter_items [] = []
  counter_items ((k, d) ∷ rest) = counter_metric k d ∷ counter_items rest

  pub writes-gauge_items :
      (k : String) (gs : List (String × F))
      → IsMap gs
      → writes k (gauge_items gs) ≡ prepend (Maps.lookup k gs) []
  unfolding writes gauge_items Maps.lookup
  writes-gauge_items k [] h = refl
  writes-gauge_items k ((j, v) ∷ gs) h =
      ground (arith, writes-gauge_items k gs h.1, eq_iff j k, h.0)

  pub deltas-gauge_items : (k : String) (gs : List (String × F)) → deltas k (gauge_items gs) ≡ []
  unfolding deltas gauge_items
  deltas-gauge_items k [] = refl
  deltas-gauge_items k ((j, v) ∷ gs) = ground (arith, deltas-gauge_items k gs)

module _ (F : Type 0) where
  pub deltas-counter_items :
      (k : String) (cs : List (String × ℕ))
      → IsMap cs
      → deltas k (counter_items {F = F} cs) ≡ prepend (Maps.lookup k cs) []
  unfolding deltas counter_items Maps.lookup
  deltas-counter_items k [] h = refl
  deltas-counter_items k ((j, v) ∷ cs) h =
      ground (arith, deltas-counter_items k cs h.1, eq_iff j k, h.0)

  pub writes-counter_items :
      (k : String) (cs : List (String × ℕ)) → writes k (counter_items {F = F} cs) ≡ []
  unfolding writes counter_items
  writes-counter_items k [] = refl
  writes-counter_items k ((j, v) ∷ cs) = ground (arith, writes-counter_items k cs)
