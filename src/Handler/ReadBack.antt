-- ===== src/Handler/ReadBack.antt =====
-- An update by path and the read that follows it, over any repository.
use golectra.Base.{
  ◌∙◌, ap, ◌==◌, none, refl, trim_space, arith, Bool-cases, add_int64, inr, inl, Option, ℕ, some,
  ◌≡◌, String,
}
use golectra.Handler.Numbers.{parse_int64, format_int64}
use golectra.Handler.{
  FloatText, update_metric, get_metric, store, store_counter, store_gauge, text, http_error,
}
use golectra.Handler.Values.{shown_counter, shown_gauge}
use golectra.MetricsService.{Service, Context, upsert}
use golectra.MetricsService.Upsert.{upsert-counter, upsert-gauge}
use golectra.Ports.{MetricsRepo, Contract}
use golectra.Ports.Batch.{count_or_zero}
use golectra.Domain.{counter_metric, gauge_metric, Metrics, ok, counter, gauge, Result-cases}

module _ {F : Type 0} (floats : FloatText F) (repo : MetricsRepo F) where
  -- A handler that answered 200 has stored the metric.
  abbrev pub StoredBy : Context → Metrics F → Service repo.State F → Service repo.State F → Type 0
  StoredBy ctx m s s' =
      (res : Metrics F) × ((upsert repo ctx m s).0 ≡ ok res) × (s' ≡ (upsert repo ctx m s).1)

  store-StoredBy :
      (ctx : Context) (m : Metrics F) (s : Service repo.State F)
      → (store floats repo ctx m s).0.status ≡ 200
      → StoredBy ctx m s (store floats repo ctx m s).1
  unfolding http_error
  store-StoredBy ctx m s h = elim (Result-cases (upsert repo ctx m s).0) [
    | inl (res, e) ↦ (res, e, rw e refl)
    | inr (x, e) ↦ absurd (ground (arith, rw e at h))
  ]

  store_counter-StoredBy :
      (ctx : Context) (name : String) (o : Option ℕ) (s : Service repo.State F)
      → (store_counter floats repo ctx name o s).0.status ≡ 200
      → (d : ℕ) × (o ≡ some d)
        × StoredBy ctx (counter_metric name d) s (store_counter floats repo ctx name o s).1
  store_counter-StoredBy ctx name none s h = absurd (omega (arith, h))
  store_counter-StoredBy ctx name (some d) s h =
      (d, refl, store-StoredBy ctx (counter_metric name d) s h)

  store_gauge-StoredBy :
      (ctx : Context) (name : String) (o : Option F) (s : Service repo.State F)
      → (store_gauge floats repo ctx name o s).0.status ≡ 200
      → (v : F) × (o ≡ some v)
        × StoredBy ctx (gauge_metric name v) s (store_gauge floats repo ctx name o s).1
  store_gauge-StoredBy ctx name none s h = absurd (omega (arith, h))
  store_gauge-StoredBy ctx name (some v) s h =
      (v, refl, store-StoredBy ctx (gauge_metric name v) s h)

  update_counter-StoredBy :
      (ctx : Context) (name value : String) (s : Service repo.State F)
      → (update_metric floats repo ctx counter name value s).0.status ≡ 200
      → (d : ℕ) × (parse_int64 value ≡ some d)
        × StoredBy ctx
            (counter_metric name d)
            s
            (update_metric floats repo ctx counter name value s).1
  unfolding update_metric
  update_counter-StoredBy ctx name value s h = elim (Bool-cases (trim_space name == "")) [
    | inl blank ↦ absurd (omega (arith, rw blank at h))
    | inr named ↦ rw named (store_counter-StoredBy ctx name (parse_int64 value) s (rw named at h))
  ]

  update_gauge-StoredBy :
      (ctx : Context) (name value : String) (s : Service repo.State F)
      → (update_metric floats repo ctx gauge name value s).0.status ≡ 200
      → (v : F) × (floats.parse_float value ≡ some v)
        × StoredBy ctx (gauge_metric name v) s (update_metric floats repo ctx gauge name value s).1
  unfolding update_metric
  update_gauge-StoredBy ctx name value s h = elim (Bool-cases (trim_space name == "")) [
    | inl blank ↦ absurd (omega (arith, rw blank at h))
    | inr named ↦
        rw named (store_gauge-StoredBy ctx name (floats.parse_float value) s (rw named at h))
  ]

module _ {F : Type 0} (floats : FloatText F) {repo : MetricsRepo F} (c : Contract repo) where
  -- A counter update by path that is answered 200 parsed its value as an int64, and a read of the
  -- same name after it, if it is answered 200, shows the old count plus this number, wrapping at 64
  -- bits, as FormatInt prints it.
  pub counter_read_back :
      (ctx : Context) (name value : String) (s : Service repo.State F)
      → (update_metric floats repo ctx counter name value s).0.status ≡ 200
      → let s' = (update_metric floats repo ctx counter name value s).1 in
        (get_metric floats repo counter name s').0.status ≡ 200
        → (d : ℕ) × (parse_int64 value ≡ some d)
          × ((get_metric floats repo counter name s').0.body
              ≡ text (
                  format_int64
                    (add_int64 (count_or_zero ((c.view s.repo).counter_at (trim_space name))) d)))
  counter_read_back ctx name value s posted shown =
      let (d, parsed, stored) = update_counter-StoredBy floats repo ctx name value s posted in
      let (res, up, same) = stored in
      let (d', e, answer, held) = upsert-counter c ctx (counter_metric name d) res s refl up in
      let given : d' ≡ d = cc e in
      (
        d,
        parsed,
        shown_counter floats c name _ _
            (ap (λ t. (c.view t.repo).counter_at (trim_space name)) same
              ∙ held
              ∙ ap
                  (λ x.
                    some
                      (add_int64 (count_or_zero ((c.view s.repo).counter_at (trim_space name))) x))
                  given)
            shown,
      )

  -- A gauge update by path that is answered 200 parsed its value as a float, and a read of the same
  -- name after it, if it is answered 200, shows this float as FormatFloat prints it.
  pub gauge_read_back :
      (ctx : Context) (name value : String) (s : Service repo.State F)
      → (update_metric floats repo ctx gauge name value s).0.status ≡ 200
      → let s' = (update_metric floats repo ctx gauge name value s).1 in
        (get_metric floats repo gauge name s').0.status ≡ 200
        → (v : F) × (floats.parse_float value ≡ some v)
          × ((get_metric floats repo gauge name s').0.body ≡ text (floats.format_float v))
  gauge_read_back ctx name value s posted shown =
      let (v, parsed, stored) = update_gauge-StoredBy floats repo ctx name value s posted in
      let (res, up, same) = stored in
      let (v', e, answer, held) = upsert-gauge c ctx (gauge_metric name v) res s refl up in
      let given : v' ≡ v = cc e in
      (
        v,
        parsed,
        shown_gauge floats c name _ _
            (ap (λ t. (c.view t.repo).gauge_at (trim_space name)) same ∙ held ∙ ap some given)
            shown,
      )
