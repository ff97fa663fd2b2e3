-- ===== src/Memory/Valid.antt =====
-- Each method of the in-memory repository keeps both maps free of double keys.
use golectra.Base.{inr, inl, ◌==◌, [], ◌∷◌, Bool-cases, ℕ, String, List, Option, none, some}
use golectra.Base.Maps
use golectra.Base.Maps.{put-IsMap, get-put, get-empty, get-copy_entries, IsMap, Visits}
use golectra.Domain.{counter, gauge, Metrics}
use golectra.Memory.{
  update_all, update_one, new, bump, Repo, get_gauge, get_counter, set_gauge, add_counter,
  update_many,
}

-- The two maps hold each key once.
pub record IsValid {F : Type 0} (r : Repo F) : Type 0 where
  pub gauges_once : IsMap r.gauges.entries
  pub counters_once : IsMap r.counters.entries

module _ {F : Type 0} where
  pub get_gauge-IsValid : (k : String) (r : Repo F) → IsValid r → IsValid (get_gauge k r).1
  unfolding get_gauge
  get_gauge-IsValid k r h = h

  pub get_counter-IsValid : (k : String) (r : Repo F) → IsValid r → IsValid (get_counter k r).1
  unfolding get_counter
  get_counter-IsValid k r h = h

  pub set_gauge-IsValid :
      (k : String) (v : F) (r : Repo F) → IsValid r → IsValid (set_gauge k v r).1
  unfolding set_gauge
  set_gauge-IsValid k v r h = record {
    gauges_once = put-IsMap r.gauges k v h.gauges_once;
    counters_once = h.counters_once;
  }

  pub bump-IsValid : (r : Repo F) (k : String) (d : ℕ) → IsValid r → IsValid (bump r k d)
  unfolding bump
  bump-IsValid r k d h = record {
    gauges_once = h.gauges_once;
    counters_once = put-IsMap r.counters k _ h.counters_once;
  }

  pub add_counter-IsValid :
      (k : String) (d : ℕ) (r : Repo F) → IsValid r → IsValid (add_counter k d r).1
  unfolding add_counter
  add_counter-IsValid k d r h = bump-IsValid r k d h

  pub write-IsValid :
      (r : Repo F) (k : String) (o : Option F)
      → IsValid r
      → IsValid (elim o [ none ↦ r | some v ↦ record r { gauges = Maps.put r.gauges k v } ])
  write-IsValid r k none h = h
  write-IsValid r k (some v) h = record {
    gauges_once = put-IsMap r.gauges k v h.gauges_once;
    counters_once = h.counters_once;
  }

  pub count-IsValid :
      (r : Repo F) (k : String) (o : Option ℕ)
      → IsValid r
      → IsValid (elim o [ none ↦ r | some d ↦ bump r k d ])
  count-IsValid r k none h = h
  count-IsValid r k (some d) h = bump-IsValid r k d h

  pub update_one-IsValid : (r : Repo F) (it : Metrics F) → IsValid r → IsValid (update_one r it)
  unfolding update_one
  update_one-IsValid r it h = elim (Bool-cases (it.mtype == gauge)) [
    | inl g ↦ rw g (write-IsValid r it.id it.value h)
    | inr ng ↦ elim (Bool-cases (it.mtype == counter)) [
      | inl c ↦ rw (ng, c) (count-IsValid r it.id it.delta h)
      | inr nc ↦ rw (ng, nc) h
    ]
  ]

  pub update_all-IsValid :
      (items : List (Metrics F)) (r : Repo F) → IsValid r → IsValid (update_all items r)
  unfolding update_all
  update_all-IsValid [] r h = h
  update_all-IsValid (it ∷ items) r h =
      update_all-IsValid items (update_one r it) (update_one-IsValid r it h)

  pub update_many-IsValid :
      (items : List (Metrics F)) (r : Repo F) → IsValid r → IsValid (update_many items r).1
  unfolding update_many
  update_many-IsValid items r h = update_all-IsValid items r h

  pub new-IsValid : IsValid (new {F = F})
  unfolding new Maps.empty
  new-IsValid = record { gauges_once = tt; counters_once = tt }
