-- ===== src/MetricsService/OnMemory.antt =====
-- The metrics service over the in-memory repository, which never fails: single updates and batches
-- come to the same state.
use golectra.MetricsService.{accept, get}
use golectra.Base.Maps
use golectra.Memory.Batch.{update_all-append}
use golectra.Domain.{Error, counter, invalid_type, err, gauge, Metrics}
use golectra.MetricsService.{
  notify_audit, Service, upsert_batch, Context, upsert, upsert_gauge, upsert_counter, valid_items,
  upsert_valid, call_on_changed,
}
use golectra.Base.Maps.{get-put}
use golectra.Ports.Batch.{count_or_zero}
use golectra.MetricsService.Effects.{notify_audit_keeps}
use golectra.Base.{
  Option-cases, eq_iff, ◌⊎◌, All, ◌≢◌, trim_space_idem, inr, ap, inl, map, ℕ, sym, refl, Bool-cases,
  trim_space, ◌++◌, Option, ◌∙◌, String, ◌∷◌, List, eq_refl, arith, add_int64, some, none, false,
  ◌==◌, [], ◌≡◌,
}
use golectra.Memory.Port.{memory_repo}
use golectra.Memory.{
  add_counter, update_many, snapshot, bump, set_gauge, Repo, get_gauge, get_counter, update_one,
  update_all,
}

module _ {F : Type 0} where
  -- a client that sends the metrics one by one, whatever the answers
  pub upsert_each : Context → List (Metrics F) → Service (Repo F) F → Service (Repo F) F
  upsert_each ctx [] s = s
  upsert_each ctx (m ∷ ms) s = upsert_each ctx ms (upsert (memory_repo F) ctx m s).1

  upsert_gauge-memory :
      (ctx : Context) (k : String) (o : Option F) (s : Service (Repo F) F)
      → trim_space k ≡ k
      → (k == "") ≡ false
      → (upsert_gauge (memory_repo F) ctx k o s).1.repo
        ≡ elim o [ none ↦ s.repo | some v ↦ (set_gauge k v s.repo).1 ]
  unfolding upsert_gauge get set_gauge get_gauge
  upsert_gauge-memory ctx k none s t ne = refl
  upsert_gauge-memory ctx k (some v) s t ne =
      let r = (set_gauge k v s.repo).1 in
      let told = notify_audit_keeps ctx (k ∷ []) (record s { repo = r }) in
      ground (arith, t, ne, told, get-put s.repo.gauges k k v, eq_refl k)

  upsert_counter-memory :
      (ctx : Context) (k : String) (o : Option ℕ) (s : Service (Repo F) F)
      → trim_space k ≡ k
      → (k == "") ≡ false
      → (upsert_counter (memory_repo F) ctx k o s).1.repo
        ≡ elim o [ none ↦ s.repo | some d ↦ bump s.repo k d ]
  unfolding upsert_counter get add_counter get_counter
  upsert_counter-memory ctx k none s t ne = refl
  upsert_counter-memory ctx k (some d) s t ne =
      let r = bump s.repo k d in
      let told = notify_audit_keeps ctx (k ∷ []) (record s { repo = r }) in
      let n = add_int64 (count_or_zero (Maps.get s.repo.counters k)) d in
      ground (arith, t, ne, told, get-put s.repo.counters k k n, eq_refl k)

  upsert-memory :
      (ctx : Context) (m : Metrics F) (s : Service (Repo F) F)
      → (upsert (memory_repo F) ctx m s).1.repo ≡ update_all (valid_items (m ∷ [])) s.repo
  unfolding upsert valid_items update_all update_one set_gauge
  upsert-memory ctx m s =
      let k = trim_space m.id in
      elim (Bool-cases (k == "")) [
        | inl blank ↦ rw blank
        | inr solid ↦ ground (
          arith,
          solid,
          upsert_gauge-memory ctx k m.value s (trim_space_idem m.id) solid,
          upsert_counter-memory ctx k m.delta s (trim_space_idem m.id) solid,
        )
      ]

  valid_items-cons :
      (m : Metrics F) (ms : List (Metrics F))
      → valid_items (m ∷ ms) ≡ valid_items (m ∷ []) ++ valid_items ms
  unfolding valid_items
  valid_items-cons m ms = ground arith

  upsert_each_lem :
      (ctx : Context) (items : List (Metrics F)) (s : Service (Repo F) F)
      → (upsert_each ctx items s).repo ≡ update_all (valid_items items) s.repo
  unfolding upsert_each
  upsert_each_lem ctx [] s = unfold valid_items update_all in refl
  upsert_each_lem ctx (m ∷ ms) s =
      upsert_each_lem ctx ms (upsert (memory_repo F) ctx m s).1
      ∙ rw (upsert-memory ctx m s, ← update_all-append)
          (ap (λ l. update_all l s.repo) (sym (valid_items-cons m ms)))

  call_on_changed-memory :
      (s : Service (Repo F) F) → (call_on_changed (memory_repo F) s).repo ≡ s.repo
  unfolding call_on_changed snapshot
  call_on_changed-memory s = ground arith

  pub upsert_valid-memory :
      (ctx : Context) (valid : List (Metrics F)) (s : Service (Repo F) F)
      → (upsert_valid (memory_repo F) ctx valid s).1.repo ≡ update_all valid s.repo
  unfolding upsert_valid update_many
  upsert_valid-memory ctx [] s = unfold update_all in refl
  upsert_valid-memory ctx (it ∷ items) s =
      let valid : List (Metrics F) = it ∷ items in
      let s1 = record s { repo = update_all valid s.repo } in
      let s2 = notify_audit ctx (map (λ m. m.id) valid) s1 in
      call_on_changed-memory s2 ∙ (notify_audit_keeps ctx (map (λ m. m.id) valid) s1).1

  -- A batch leaves the in-memory repository as the same metrics sent one by one, whatever they are:
  -- the invalid ones are refused either way.
  pub upsert_batch-eq-upsert_each :
      (ctx : Context) (items : List (Metrics F)) (s : Service (Repo F) F)
      → (upsert_batch (memory_repo F) ctx items s).1.repo ≡ (upsert_each ctx items s).repo
  unfolding upsert_batch
  upsert_batch-eq-upsert_each ctx items s =
      upsert_valid-memory ctx (valid_items items) s ∙ sym (upsert_each_lem ctx items s)

  -- what UpsertBatch asks of a metric: a name that is not blank, and the field that its type names
  abbrev pub IsAcceptable : Metrics F → Type 0
  IsAcceptable m =
      (trim_space m.id ≢ "")
      × (((m.mtype ≡ gauge) × (m.value ≢ none)) ⊎ ((m.mtype ≡ counter) × (m.delta ≢ none)))

  acceptable : (m : Metrics F) → IsAcceptable m → accept (record m { id = trim_space m.id }) ≢ none
  unfolding accept
  acceptable m (named, inl (g, v)) e =
      v (ground (arith, named, g, e, eq_iff (trim_space m.id) "", eq_iff m.mtype gauge))
  acceptable m (named, inr (c, d)) e = d (
      ground (
        arith,
        named,
        c,
        e,
        eq_iff (trim_space m.id) "",
        eq_iff m.mtype gauge,
        eq_iff m.mtype counter,
        eq_iff gauge counter,
      ))

  none_valid :
      (items : List (Metrics F)) → valid_items items ≡ [] → All (λ m. ¬ IsAcceptable m) items
  unfolding valid_items
  none_valid [] h = tt
  none_valid (m ∷ items) h = elim (Option-cases (accept (record m { id = trim_space m.id }))) [
    | inl e ↦ ((λ a. acceptable m a e), none_valid items (rw e at h))
    | inr (x, e) ↦ absurd (cc (rw e at h))
  ]

  upsert_valid-refused :
      (ctx : Context) (valid : List (Metrics F)) (e : Error) (s : Service (Repo F) F)
      → (upsert_valid (memory_repo F) ctx valid s).0 ≡ err e
      → (valid ≡ []) × (e ≡ invalid_type) × ((upsert_valid (memory_repo F) ctx valid s).1 ≡ s)
  unfolding upsert_valid update_many
  upsert_valid-refused ctx [] e s h = (refl, cc h, refl)
  upsert_valid-refused ctx (it ∷ items) e s h = absurd (cc h)

  -- On the in-memory repository: when UpsertBatch returns an error, it is ErrInvalidType, no metric of
  -- the batch has both a name that is not blank and the value or delta that its type names, and the
  -- service is as it was: its maps, its audit queue and the calls of its hook.
  pub upsert_batch-refused :
      (ctx : Context) (items : List (Metrics F)) (e : Error) (s : Service (Repo F) F)
      → (upsert_batch (memory_repo F) ctx items s).0 ≡ err e
      → All (λ m. ¬ IsAcceptable m) items
        × (e ≡ invalid_type)
        × ((upsert_batch (memory_repo F) ctx items s).1 ≡ s)
  unfolding upsert_batch
  upsert_batch-refused ctx items e s h =
      let (empty, invalid, same) = upsert_valid-refused ctx (valid_items items) e s h in
      (none_valid items empty, invalid, same)
