-- ===== src/Handler/BatchPool/Fresh.antt =====
-- Batches that do not depend on what earlier requests have left in the pooled slice.
use golectra.Handler.{updated_json, answer, update_metrics_batch_json, FloatText}
use golectra.Base.{
  false, true, Bool, if◌then◌else◌, ◌==◌, trim_space, suc, ap, List, [], ◌∷◌, Option, none, some, ℕ,
  ◌≡◌, refl, arith, eq_iff, map, length,
}
use golectra.Domain.{Metrics, gauge, counter}
use golectra.Handler.BatchPool.{
  Element, merge, decode_over, clone_metrics, elements, update_metrics_batch,
}
use golectra.Memory.{Repo, update_one, update_all}
use golectra.Memory.Port.{memory_repo}
use golectra.MetricsService.{Service, Context, accept, valid_items, upsert_valid, upsert_batch}
use golectra.Ports.Batch.{prepend}

-- what json.Marshal writes of a pointer: `omitempty` leaves out nil
abbrev pub stated {ℓ} : {A : Type ℓ} → Option A → Option (Option A)
stated none = none
stated (some a) = some (some a)

abbrev is_some {ℓ} : {A : Type ℓ} → Option A → Bool
is_some none = false
is_some (some a) = true

module _ {F : Type 0} where
  -- the JSON of a metric
  unfoldable pub element_of : Metrics F → Element F
  element_of m = record {
    delta = stated m.delta;
    value = stated m.value;
    id = some m.id;
    mtype = some m.mtype;
  }

  -- A gauge that has a value, a counter that has a delta, or neither.
  abbrev pub IsStated : Metrics F → Type 0
  IsStated m =
      (m.mtype ≡ gauge → (v : F) × (m.value ≡ some v))
      × (m.mtype ≡ counter → (d : ℕ) × (m.delta ≡ some d))

  abbrev pub AllStated : List (Metrics F) → Type 0
  AllStated [] = Unit
  AllStated (m ∷ items) = IsStated m × AllStated items

  -- The same metric to whoever reads the field that its type names.
  abbrev pub Alike : Metrics F → Metrics F → Type 0
  Alike a b =
      (a.id ≡ b.id)
      × (a.mtype ≡ b.mtype)
      × (b.mtype ≡ gauge → a.value ≡ b.value)
      × (b.mtype ≡ counter → a.delta ≡ b.delta)

  abbrev pub AllAlike : List (Metrics F) → List (Metrics F) → Type 0
  AllAlike [] [] = Unit
  AllAlike [] (b ∷ bs) = ⊥
  AllAlike (a ∷ as') [] = ⊥
  AllAlike (a ∷ as') (b ∷ bs) = Alike a b × AllAlike as' bs

  merge-Alike : (m old : Metrics F) → IsStated m → Alike (merge (element_of m) old) m
  unfolding merge element_of
  merge-Alike m old h =
      (refl, refl, (λ g. let (v, e) = h.0 g in rw e refl), λ c. let (d, e) = h.1 c in rw e refl)

  decode_over-AllAlike :
      (old items : List (Metrics F))
      → AllStated items
      → AllAlike (clone_metrics (decode_over old (map element_of items))) items
  unfolding decode_over clone_metrics
  decode_over-AllAlike [] [] h = tt
  decode_over-AllAlike (m ∷ old) [] h = tt
  decode_over-AllAlike [] (it ∷ items) h = (merge-Alike it _ h.0, decode_over-AllAlike [] items h.1)
  decode_over-AllAlike (m ∷ old) (it ∷ items) h =
      (merge-Alike it m h.0, decode_over-AllAlike old items h.1)

  update_one-Alike : (a b : Metrics F) (r : Repo F) → Alike a b → update_one r a ≡ update_one r b
  unfolding update_one
  update_one-Alike a b r h = ground (
    arith,
    h.0,
    h.1,
    h.2,
    h.3,
    eq_iff a.mtype gauge,
    eq_iff b.mtype gauge,
    eq_iff a.mtype counter,
    eq_iff b.mtype counter,
  )

  update_all-AllAlike :
      (as' bs : List (Metrics F)) (r : Repo F)
      → AllAlike as' bs
      → update_all as' r ≡ update_all bs r
  unfolding update_all
  update_all-AllAlike [] [] r h = refl
  update_all-AllAlike [] (b ∷ bs) r h = absurd h
  update_all-AllAlike (a ∷ as') [] r h = absurd h
  update_all-AllAlike (a ∷ as') (b ∷ bs) r h =
      rw (update_one-Alike a b r h.0) (update_all-AllAlike as' bs (update_one r b) h.1)

  ids-AllAlike :
      (as' bs : List (Metrics F)) → AllAlike as' bs → map (λ m. m.id) as' ≡ map (λ m. m.id) bs
  ids-AllAlike [] [] h = refl
  ids-AllAlike [] (b ∷ bs) h = absurd h
  ids-AllAlike (a ∷ as') [] h = absurd h
  ids-AllAlike (a ∷ as') (b ∷ bs) h = ground (arith, ids-AllAlike as' bs h.1, h.0.0)

  length-AllAlike : (as' bs : List (Metrics F)) → AllAlike as' bs → length as' ≡ length bs
  length-AllAlike [] [] h = refl
  length-AllAlike [] (b ∷ bs) h = absurd h
  length-AllAlike (a ∷ as') [] h = absurd h
  length-AllAlike (a ∷ as') (b ∷ bs) h = ap suc (length-AllAlike as' bs h.1)

  -- the tests of `accept`
  abbrev is_kept : Metrics F → Bool
  is_kept m =
      if m.id == ""
      then false
      else if m.mtype == gauge
      then is_some m.value
      else if m.mtype == counter
      then is_some m.delta
      else false

  accept-is_kept : (m : Metrics F) → accept m ≡ (if is_kept m then some m else none)
  unfolding accept
  accept-is_kept m = ground arith

  is_kept-Alike : (a b : Metrics F) → Alike a b → is_kept a ≡ is_kept b
  is_kept-Alike a b h =
      ground (arith, h.0, h.1, h.2, h.3, eq_iff b.mtype gauge, eq_iff b.mtype counter)

  prepend-AllAlike :
      (k : Bool) (a b : Metrics F) (as' bs : List (Metrics F))
      → Alike a b
      → AllAlike as' bs
      → AllAlike
          (prepend (if k then some a else none) as')
          (prepend (if k then some b else none) bs)
  prepend-AllAlike true a b as' bs h t = (h, t)
  prepend-AllAlike false a b as' bs h t = t

  prepend-accept-AllAlike :
      (a b : Metrics F) (as' bs : List (Metrics F))
      → Alike a b
      → AllAlike as' bs
      → AllAlike (prepend (accept a) as') (prepend (accept b) bs)
  prepend-accept-AllAlike a b as' bs h t =
      rw (accept-is_kept a, accept-is_kept b, is_kept-Alike a b h)
        (prepend-AllAlike (is_kept b) a b as' bs h t)

  valid_items-AllAlike :
      (as' bs : List (Metrics F)) → AllAlike as' bs → AllAlike (valid_items as') (valid_items bs)
  unfolding valid_items
  valid_items-AllAlike [] [] h = tt
  valid_items-AllAlike [] (b ∷ bs) h = absurd h
  valid_items-AllAlike (a ∷ as') [] h = absurd h
  valid_items-AllAlike (a ∷ as') (b ∷ bs) h =
      prepend-accept-AllAlike _ _ _ _ (ap trim_space h.0.0, h.0.1, h.0.2, h.0.3)
        (valid_items-AllAlike as' bs h.1)

  upsert_valid-AllAlike :
      (ctx : Context) (as' bs : List (Metrics F)) (s : Service (Repo F) F)
      → AllAlike as' bs
      → upsert_valid (memory_repo F) ctx as' s ≡ upsert_valid (memory_repo F) ctx bs s
  unfolding upsert_valid golectra.Memory.update_many golectra.MetricsService.call_on_changed
      golectra.MetricsService.notify_audit golectra.MetricsService.Names.dedup_names update_all
      golectra.Memory.snapshot
  upsert_valid-AllAlike ctx [] [] s h = refl
  upsert_valid-AllAlike ctx [] (b ∷ bs) s h = absurd h
  upsert_valid-AllAlike ctx (a ∷ as') [] s h = absurd h
  upsert_valid-AllAlike ctx (a ∷ as') (b ∷ bs) s h = rw (update_one-Alike a b s.repo h.0) (
      rw (update_all-AllAlike as' bs (update_one s.repo b) h.1)
        (rw (h.0.0, ids-AllAlike as' bs h.1, length-AllAlike as' bs h.1) refl))

module _ {F : Type 0} (floats : FloatText F) where
  -- A server with the in-memory repository: if every gauge of a batch has a value and every counter a
  -- delta, the answer to the JSON of the batch and the service after it do not depend on what earlier
  -- requests have left in the pooled slice. They are those of the batch itself.
  pub update_batch_fresh :
      (ctx : Context) (items old : List (Metrics F)) (s : Service (Repo F) F)
      → AllStated items
      → let (r, w) =
          update_metrics_batch floats
            (memory_repo F)
            ctx
            (elements (map element_of items))
            (old, s) in
        (r, w.1) ≡ update_metrics_batch_json floats (memory_repo F) ctx (some items) s
  unfolding update_metrics_batch update_metrics_batch_json upsert_batch
  update_batch_fresh ctx items old s h =
      let decoded = clone_metrics (decode_over old (map element_of items)) in
      let same =
        upsert_valid-AllAlike ctx (valid_items decoded) (valid_items items) s
          (valid_items-AllAlike decoded items (decode_over-AllAlike old items h)) in
      ap (answer (λ n. record { status = 200; body = updated_json n })) same
