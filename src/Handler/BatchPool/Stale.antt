-- ===== src/Handler/BatchPool/Stale.antt =====
-- What a request gets that leaves a field out.
use golectra.MetricsService.OnMemory.{upsert_valid-memory}
use golectra.Base.{
  eq_refl, ◌∙◌, false, ap, ◌==◌, List, [], ◌∷◌, none, some, String, ◌≡◌, refl, arith, ◌≢◌,
  trim_space, eq_iff,
}
use golectra.Base.Maps
use golectra.Base.Maps.{get-put}
use golectra.Domain.{err, ok, Result, Metrics, gauge}
use golectra.Handler.{
  updated_json, answer, Response, FloatText, update_metrics_batch_json, http_error,
}
use golectra.Handler.BatchPool.{zero_metric, Element, merge, elements, update_metrics_batch}
use golectra.Memory.{update_all, Repo, update_one}
use golectra.Memory.Port.{memory_repo}
use golectra.MetricsService.{upsert_valid, Service, Context, upsert_batch, valid_items}

-- `{"id": k, "type": "gauge"}`
abbrev pub gauge_without_value : {F : Type 0} → String → Element F
gauge_without_value k = record { delta = none; value = none; id = some k; mtype = some gauge }

answer-state : {F S A : Type 0} (f : A → Response F) (r : Result A × S) → (answer f r).1 ≡ r.1
answer-state f (ok a, s) = refl
answer-state f (err e, s) = refl

not_blank : (k : String) → trim_space k ≢ "" → (trim_space k == "") ≡ false
not_blank k n = ground (arith, eq_iff (trim_space k) "", n)

module _ {F : Type 0} (k : String) (named : trim_space k ≢ "") where
  valid-fresh : valid_items (merge (gauge_without_value {F = F} k) zero_metric ∷ []) ≡ []
  unfolding valid_items merge
  valid-fresh = rw (not_blank k named) refl

  -- the metric that the request becomes
  abbrev taken_over : Metrics F → F → Metrics F
  taken_over m v = record { delta = m.delta; value = some v; id = trim_space k; mtype = gauge }

  valid-stale :
      (m : Metrics F) (v : F)
      → valid_items (merge (gauge_without_value k) (record m { value = some v }) ∷ [])
        ≡ taken_over m v ∷ []
  unfolding valid_items merge
  valid-stale m v = rw (not_blank k named) refl

  stored_value :
      (m : Metrics F) (v : F) (r : Repo F)
      → Maps.get (update_all (taken_over m v ∷ []) r).gauges (trim_space k) ≡ some v
  unfolding update_all update_one
  stored_value m v r =
      get-put r.gauges (trim_space k) (trim_space k) v ∙ rw (eq_refl (trim_space k)) refl

module _ {F : Type 0} (floats : FloatText F) where
  -- A gauge without a value, alone in a request: over an array that no request has written it is
  -- refused with 400; over one whose first element has kept the value of an earlier request it is
  -- answered 200, and the repository holds that value under the trimmed name.
  pub stale_value_stored :
      (ctx : Context) (k : String) (v : F) (m : Metrics F) (rest : List (Metrics F))
      (s : Service (Repo F) F)
      → trim_space k ≢ ""
      → let body = elements (gauge_without_value k ∷ []) in
        let (fresh, w0) = update_metrics_batch floats (memory_repo F) ctx body ([], s) in
        let (reused, w1) =
          update_metrics_batch floats
            (memory_repo F)
            ctx
            body
            (record m { value = some v } ∷ rest, s) in
        (fresh.status ≡ 400)
        × (reused.status ≡ 200)
        × (Maps.get w1.1.repo.gauges (trim_space k) ≡ some v)
  unfolding update_metrics_batch update_metrics_batch_json upsert_batch http_error
      golectra.Memory.update_many
  stale_value_stored ctx k v m rest s named =
      let e = valid-stale k named m v in
      let valid = taken_over k named m v ∷ [] in
      (
        rw (valid-fresh {F = F} k named) refl,
        rw e refl,
        rw e (
            ap (λ t. Maps.get t.repo.gauges (trim_space k))
              (answer-state {F = F} (λ n. record { status = 200; body = updated_json n })
                (upsert_valid (memory_repo F) ctx valid s))
            ∙ ap (λ r. Maps.get r.gauges (trim_space k)) (upsert_valid-memory ctx valid s)
            ∙ stored_value k named m v s.repo),
      )
