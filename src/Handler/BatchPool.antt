-- ===== src/Handler/BatchPool.antt =====
-- decodeMetricsBatch and cloneMetrics of internal/adapters/http/ginserver/handler.go, with the pooled
-- slice that requests decode into one after the other.
pub mod Fresh
pub mod Stale
mod Tests
use golectra.Base.{List, [], ◌∷◌, Option, none, some, String, ℕ}
use golectra.Domain.{Metrics}
use golectra.Handler.{FloatText, Response, bad_request, update_metrics_batch_json}
use golectra.MetricsService.{Service, Context}
use golectra.Ports.{MetricsRepo}

-- What a JSON object says on each field: nothing, or a value; `null` sets a pointer to nil.
pub record Element (F : Type 0) : Type 0 where
  pub delta : Option (Option ℕ)
  pub value : Option (Option F)
  pub id : Option String
  pub mtype : Option String

-- What a body holds: an array, or something that Decode refuses; `written` is then the array behind
-- the slice as Decode has left it.
pub data Content (F : Type 0) : Type 0 where
  elements : List (Element F) → Content F
  refused : List (Metrics F) → Content F

abbrev pub keep {ℓ} : {A : Type ℓ} → Option A → A → A
keep none old = old
keep (some a) old = a

module _ {F : Type 0} where
  -- encoding/json decodes an object over what the element of the array holds
  unfoldable pub merge : Element F → Metrics F → Metrics F
  merge e old = record {
    delta = keep e.delta old.delta;
    value = keep e.value old.value;
    id = keep e.id old.id;
    mtype = keep e.mtype old.mtype;
  }

  abbrev pub zero_metric : Metrics F
  zero_metric = record { delta = none; value = none; id = ""; mtype = "" }

  -- `dec.Decode(&items)` for a slice of length 0: element by element over the array behind it, and
  -- over zero values where the array ends and has to grow
  unfoldable pub decode_over : List (Metrics F) → List (Element F) → List (Metrics F)
  unfolding merge
  decode_over old [] = []
  decode_over [] (e ∷ es) = merge e zero_metric ∷ decode_over [] es
  decode_over (m ∷ old) (e ∷ es) = merge e m ∷ decode_over old es

  -- the array behind `items[:0]`, once the slice is back in the pool
  unfoldable pub array_behind : List (Metrics F) → List (Metrics F) → List (Metrics F)
  array_behind [] old = old
  array_behind (it ∷ items) [] = it ∷ array_behind items []
  array_behind (it ∷ items) (m ∷ old) = it ∷ array_behind items old

  -- `*buf = items[:0]` in cleanup: for a body without elements Decode has set the slice to a new one
  -- of capacity 0, so that the pool gets no array back
  unfoldable pub array_after : List (Metrics F) → List (Metrics F) → List (Metrics F)
  unfolding array_behind
  array_after [] old = []
  array_after (it ∷ items) old = array_behind (it ∷ items) old

  -- cloneMetrics
  unfoldable pub clone_metrics : List (Metrics F) → List (Metrics F)
  clone_metrics [] = []
  clone_metrics (it ∷ items) = it ∷ clone_metrics items

module _ {F : Type 0} (floats : FloatText F) (repo : MetricsRepo F) where
  abbrev pub Pooled : Type 0
  Pooled = List (Metrics F) × Service repo.State F

  abbrev pub with_array : List (Metrics F) → Response F × Service repo.State F → Response F × Pooled
  with_array old (r, s) = (r, (old, s))

  -- UpdateMetricsBatchJSON on the slice that the pool hands out, whose array is `old`
  unfoldable pub update_metrics_batch : Context → Content F → Pooled → Response F × Pooled
  unfolding decode_over array_after clone_metrics
  update_metrics_batch ctx (refused written) (old, s) =
      with_array written (update_metrics_batch_json floats repo ctx none s)
  update_metrics_batch ctx (elements es) (old, s) =
      let items = decode_over old es in
      with_array (array_after items old)
        (update_metrics_batch_json floats repo ctx (some (clone_metrics items)) s)
