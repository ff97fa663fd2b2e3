-- ===== src/Handler/Status.antt =====
-- What a response tells about the service.
use golectra.Handler.Numbers.{parse_int64}
use golectra.MetricsService.Effects.{upsert-err, SameEffects}
use golectra.Base.{
  if-inv, refl, none, inr, ◌==◌, inl, trim_space, some, arith, ◌≢◌, ℕ, Option, String,
}
use golectra.Domain.{counter, gauge, gauge_metric, counter_metric, Result-cases, Metrics}
use golectra.MetricsService.{upsert, Service, Context}
use golectra.Ports.{MetricsRepo}
use golectra.Handler.{Handles, store_counter, store_gauge, store, update_metric, FloatText}

module _ {F : Type 0} (floats : FloatText F) (repo : MetricsRepo F) where
  store_unanswered :
      (ctx : Context) (m : Metrics F) (s : Service repo.State F)
      → (store floats repo ctx m s).0.status ≢ 200
      → SameEffects s (store floats repo ctx m s).1
  store_unanswered ctx m s h = elim (Result-cases (upsert repo ctx m s).0) [
    | inl (a, e) ↦ absurd (h (rw e refl))
    | inr (x, e) ↦ rw e (upsert-err repo ctx m s x e)
  ]

  store_gauge_unanswered :
      (ctx : Context) (name : String) (o : Option F) (s : Service repo.State F)
      → (store_gauge floats repo ctx name o s).0.status ≢ 200
      → SameEffects s (store_gauge floats repo ctx name o s).1
  store_gauge_unanswered ctx name none s h = ground arith
  store_gauge_unanswered ctx name (some v) s h = store_unanswered ctx (gauge_metric name v) s h

  store_counter_unanswered :
      (ctx : Context) (name : String) (o : Option ℕ) (s : Service repo.State F)
      → (store_counter floats repo ctx name o s).0.status ≢ 200
      → SameEffects s (store_counter floats repo ctx name o s).1
  store_counter_unanswered ctx name none s h = ground arith
  store_counter_unanswered ctx name (some d) s h = store_unanswered ctx (counter_metric name d) s h

  -- An update by path that is not answered 200 has sent no audit message and called no hook.
  pub update_metric_unanswered :
      (ctx : Context) (mtype name value : String) (s : Service repo.State F)
      → (update_metric floats repo ctx mtype name value s).0.status ≢ 200
      → SameEffects s (update_metric floats repo ctx mtype name value s).1
  unfolding update_metric
  update_metric_unanswered ctx mtype name value s =
      let P : Handles floats repo → Type 0 = λ f. (f s).0.status ≢ 200 → SameEffects s (f s).1 in
      if-inv P (trim_space name == "") _ _ (λ _ h. ground arith)
        λ _.
          if-inv P (mtype == gauge) _ _
            (λ _. store_gauge_unanswered ctx name (floats.parse_float value) s)
            λ _.
              if-inv P (mtype == counter) _ _
                (λ _. store_counter_unanswered ctx name (parse_int64 value) s) (λ _ h. ground arith)
