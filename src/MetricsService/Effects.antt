-- ===== src/MetricsService/Effects.antt =====
-- What the operations of the metrics service do besides the repository: audit messages and calls of
-- the snapshot hook.
use golectra.Base.{none, trim_space, ℕ, refl, [], some, ◌∷◌, Option, arith, List, String, ◌≡◌}
use golectra.MetricsService.{
  counter, err, gauge, Metrics, upsert_counter, upsert, Error, on_repo, audit_message, dedup_names,
  notify_names, AuditMessage, upsert_gauge, get, notify_audit, enqueue_audit, Context, Service,
}
use golectra.Ports.{MetricsRepo}

-- The records of the calls outside: audit and hook.
pub record SameEffects {S F : Type 0} (a b : Service S F) : Type 0 where
  pub queue : b.queue ≡ a.queue
  pub published : b.published ≡ a.published
  pub dropped : b.dropped ≡ a.dropped
  pub changed : b.changed ≡ a.changed

module _ {S F : Type 0} where
  enqueue_audit_keeps :
      (msg : AuditMessage) (s : Service S F)
      → ((enqueue_audit msg s).changed ≡ s.changed)
        × ((enqueue_audit msg s).repo ≡ s.repo)
        × ((enqueue_audit msg s).on_changed ≡ s.on_changed)
  unfolding enqueue_audit
  enqueue_audit_keeps msg s = ground arith

  notify_names_keeps :
      (ctx : Context) (names : List String) (s : Service S F)
      → ((notify_names ctx names s).changed ≡ s.changed)
        × ((notify_names ctx names s).repo ≡ s.repo)
        × ((notify_names ctx names s).on_changed ≡ s.on_changed)
  notify_names_keeps ctx [] s = (refl, refl, refl)
  notify_names_keeps ctx (n ∷ ns) s = enqueue_audit_keeps (audit_message ctx (n ∷ ns) s) s

  -- Notifying the auditor touches neither the repository nor the hook.
  pub notify_audit_keeps :
      (ctx : Context) (names : List String) (s : Service S F)
      → ((notify_audit ctx names s).changed ≡ s.changed)
        × ((notify_audit ctx names s).repo ≡ s.repo)
        × ((notify_audit ctx names s).on_changed ≡ s.on_changed)
  unfolding notify_audit
  notify_audit_keeps ctx names s = ground (arith, notify_names_keeps ctx (dedup_names names) s)

module _ {F : Type 0} (repo : MetricsRepo F) where
  -- Reads tell nobody.
  pub get-SameEffects :
      (mtype id : String) (s : Service repo.State F) → SameEffects s (get repo mtype id s).1
  unfolding get
  get-SameEffects mtype id s = ground arith

  upsert_gauge_silent :
      (ctx : Context) (k : String) (o : Option F) (s : Service repo.State F)
      → (upsert_gauge repo ctx k o s).1.changed ≡ s.changed
  unfolding upsert_gauge
  upsert_gauge_silent ctx k none s = refl
  upsert_gauge_silent ctx k (some v) s =
      let s1 = (on_repo (repo.set_gauge k v) s).1 in
      let s2 = (get repo gauge k s1).1 in
      ground (arith, get-SameEffects gauge k s1, notify_audit_keeps ctx (k ∷ []) s2)

  upsert_counter_silent :
      (ctx : Context) (k : String) (o : Option ℕ) (s : Service repo.State F)
      → (upsert_counter repo ctx k o s).1.changed ≡ s.changed
  unfolding upsert_counter
  upsert_counter_silent ctx k none s = refl
  upsert_counter_silent ctx k (some d) s =
      let s1 = (on_repo (repo.add_counter k d) s).1 in
      let s2 = (get repo counter k s1).1 in
      ground (arith, get-SameEffects counter k s1, notify_audit_keeps ctx (k ∷ []) s2)

  -- An update of a single metric never calls the snapshot hook, whatever it returns.
  pub upsert_silent :
      (ctx : Context) (m : Metrics F) (s : Service repo.State F)
      → (upsert repo ctx m s).1.changed ≡ s.changed
  unfolding upsert
  upsert_silent ctx m s = ground (
    arith,
    upsert_gauge_silent ctx (trim_space m.id) m.value s,
    upsert_counter_silent ctx (trim_space m.id) m.delta s,
  )

  upsert_gauge-err :
      (ctx : Context) (k : String) (o : Option F) (s : Service repo.State F) (e : Error)
      → (upsert_gauge repo ctx k o s).0 ≡ err e
      → SameEffects s (upsert_gauge repo ctx k o s).1
  unfolding upsert_gauge
  upsert_gauge-err ctx k none s e h = ground arith
  upsert_gauge-err ctx k (some v) s e h =
      let s1 = (on_repo (repo.set_gauge k v) s).1 in ground (arith, get-SameEffects gauge k s1)

  upsert_counter-err :
      (ctx : Context) (k : String) (o : Option ℕ) (s : Service repo.State F) (e : Error)
      → (upsert_counter repo ctx k o s).0 ≡ err e
      → SameEffects s (upsert_counter repo ctx k o s).1
  unfolding upsert_counter
  upsert_counter-err ctx k none s e h = ground arith
  upsert_counter-err ctx k (some d) s e h =
      let s1 = (on_repo (repo.add_counter k d) s).1 in ground (arith, get-SameEffects counter k s1)

  -- An update that returns an error has sent no audit message and called no hook.
  pub upsert-err :
      (ctx : Context) (m : Metrics F) (s : Service repo.State F) (e : Error)
      → (upsert repo ctx m s).0 ≡ err e
      → SameEffects s (upsert repo ctx m s).1
  unfolding upsert
  upsert-err ctx m s e h = ground (
    arith,
    upsert_gauge-err ctx (trim_space m.id) m.value s e,
    upsert_counter-err ctx (trim_space m.id) m.delta s e,
  )
