-- ===== src/Memory/Batch.antt =====
-- What UpdateMany of the in-memory repository does to each gauge and each counter.
use golectra.Base.{String, ◌≡◌, refl, true, List, [], ◌∷◌, ◌++◌, ◌==◌, arith, eq_iff, sum_int64}
use golectra.Base.Maps
use golectra.Base.Maps.{get-put}
use golectra.Domain.{gauge, counter, Metrics}
use golectra.Ports.Batch.{last_or, counted, writes, deltas}
use golectra.Memory.{Repo, update_one, update_all}

-- Nothing is both a gauge and a counter.
pub gauge-ne-counter : (t : String) → (t == gauge) ≡ true → (t == counter) ≡ true → ⊥
gauge-ne-counter t g c = ground (arith, eq_iff t gauge, eq_iff t counter, eq_iff gauge counter)

module _ {F : Type 0} where
  pub gauge-update_one :
      (k : String) (r : Repo F) (it : Metrics F)
      → Maps.get (update_one r it).gauges k ≡ last_or (Maps.get r.gauges k) (writes k (it ∷ []))
  unfolding update_one writes
  gauge-update_one k r it = grind (arith, get-put)

  pub counter-update_one :
      (k : String) (r : Repo F) (it : Metrics F)
      → Maps.get (update_one r it).counters k ≡ counted (Maps.get r.counters k) (deltas k (it ∷ []))
  unfolding update_one deltas sum_int64
  counter-update_one k r it = grind (arith, get-put, gauge-ne-counter, eq_iff)

  -- After a batch, a gauge has the last value that the batch writes to it, and a counter is the
  -- old count with the batch's deltas added; what the batch does not name stays, also if absent.
  pub update_all_lem :
      (k : String) (items : List (Metrics F)) (r : Repo F)
      → (Maps.get (update_all items r).gauges k ≡ last_or (Maps.get r.gauges k) (writes k items))
        × (Maps.get (update_all items r).counters k
            ≡ counted (Maps.get r.counters k) (deltas k items))
  unfolding update_all writes deltas sum_int64
  update_all_lem k [] r = (refl, refl)
  update_all_lem k (it ∷ items) r =
      let (g, c) = update_all_lem k items (update_one r it) in
      (ground (arith, g, gauge-update_one k r it), ground (arith, c, counter-update_one k r it))

  -- Two batches one after the other are the batch of both.
  pub update_all-append :
      (xs ys : List (Metrics F)) (r : Repo F)
      → update_all (xs ++ ys) r ≡ update_all ys (update_all xs r)
  unfolding update_all
  update_all-append [] ys r = refl
  update_all-append (it ∷ xs) ys r = update_all-append xs ys (update_one r it)
