-- ===== src/Server/Saving/Races.antt =====
-- Several batches at a time, each handled by its own goroutine, on the in-memory repository: what
-- UpsertBatch and the hook do to the repository and to the file, one call at a time. Save replaces the
-- file at once or leaves it, so the file is what it was last replaced by.
use golectra.Base.{List, [], ◌∷◌, ◌++◌, Option, some, ◌≡◌, refl, ◌≢◌}
use golectra.Domain.{Snapshot, Metrics, ok}
use golectra.Memory.{Repo, update_all, snapshot}
use golectra.MetricsService.{valid_items}

-- where a request stands: before UpdateMany, before Snapshot, or in the hook with a snapshot
pub data Phase (F : Type 0) : Type 0 where
  updating : List (Metrics F) → Phase F
  updated : List (Metrics F) → Phase F
  saving : List (Metrics F) → Snapshot F → Phase F

-- `answered` are the batches that were answered 200, the last one first.
pub record Server (F : Type 0) : Type 0 where
  pub repo : Repo F
  pub file : Option (Snapshot F)
  pub requests : List (Phase F)
  pub answered : List (List (Metrics F))

module _ {F : Type 0} where
  abbrev pub start : Repo F → Option (Snapshot F) → Server F
  start r file = record { repo = r; file = file; requests = []; answered = [] }

  pub data Step (s : Server F) (t : Server F) : Type 0 where
    arrive :
        (items : List (Metrics F))
        → t ≡ record s { requests = s.requests ++ updating items ∷ [] }
        → Step s t
    -- UpdateMany, of a batch with a valid metric
    update :
        (before after : List (Phase F)) (items : List (Metrics F))
        → s.requests ≡ before ++ updating items ∷ after
        → valid_items items ≢ []
        → t ≡ record s {
          repo = update_all (valid_items items) s.repo;
          requests = before ++ updated items ∷ after;
        }
        → Step s t
    -- a batch without one is refused
    refuse :
        (before after : List (Phase F)) (items : List (Metrics F))
        → s.requests ≡ before ++ updating items ∷ after
        → valid_items items ≡ []
        → t ≡ record s { requests = before ++ after }
        → Step s t
    take_snapshot :
        (before after : List (Phase F)) (items : List (Metrics F)) (sn : Snapshot F)
        → s.requests ≡ before ++ updated items ∷ after
        → (snapshot s.repo).0 ≡ ok sn
        → t ≡ record s { requests = before ++ saving items sn ∷ after }
        → Step s t
    -- Save, and the answer
    saved :
        (before after : List (Phase F)) (items : List (Metrics F)) (sn : Snapshot F)
        → s.requests ≡ before ++ saving items sn ∷ after
        → t ≡ record s { file = some sn; requests = before ++ after; answered = items ∷ s.answered }
        → Step s t
    save_failed :
        (before after : List (Phase F)) (items : List (Metrics F)) (sn : Snapshot F)
        → s.requests ≡ before ++ saving items sn ∷ after
        → t ≡ record s { requests = before ++ after; answered = items ∷ s.answered }
        → Step s t

  pub data Reach (s : Server F) : Server F → Type 0 where
    here : Reach s s
    next : {t u : Server F} → Reach s t → Step t u → Reach s u

  -- Two batches can leave a file without the later one, though both were saved and answered 200: for
  -- any two batches with a valid metric each, some run ends with no request left, with the effects of
  -- both in the repository, in their order, and with the file a snapshot of the state between them.
  pub stale_file :
      (r : Repo F) (file : Option (Snapshot F)) (one two : List (Metrics F))
      → valid_items one ≢ []
      → valid_items two ≢ []
      → let between = update_all (valid_items one) r in
        (sn : Snapshot F) × ((snapshot between).0 ≡ ok sn)
        × Reach (start r file) (record {
          repo = update_all (valid_items two) between;
          file = some sn;
          requests = [];
          answered = one ∷ two ∷ [];
        })
  unfolding snapshot
  stale_file r file one two some_one some_two = (
    _,
    refl,
    Reach.next
        (Reach.next
          (Reach.next
            (Reach.next
              (Reach.next
                (Reach.next (Reach.next (Reach.next Reach.here (arrive one refl)) (arrive two refl))
                  (update [] (updating two ∷ []) one refl some_one refl))
                (take_snapshot [] (updating two ∷ []) one _ refl refl refl))
              (update (saving one _ ∷ []) [] two refl some_two refl))
            (take_snapshot (saving one _ ∷ []) [] two _ refl refl refl))
          (saved (saving one _ ∷ []) [] two _ refl refl))
        (saved [] [] one _ refl refl),
  )
