-- ===== src/MetricsService.antt =====
-- internal/services/metrics/metrics.go: the metrics service, over any repository of ports. The
-- auditor and the snapshot hook are outside: the calls of them are recorded in the service's state
-- in their order. A receiver is never nil.
pub mod Names
pub mod Upsert
pub mod Effects
pub mod Batch
pub mod OnMemory
pub mod Dispatcher
mod Tests
use golectra.Ports.Batch.{prepend}
use golectra.Base.{
  ℕ, suc, String, Bool, true, false, Option, none, some, List, [], ◌∷◌, ◌++◌, ◌==◌, map, length,
  ltb, if◌then◌else◌, trim_space,
}
use golectra.Domain.{
  Error, not_found, invalid_type, Result, ok, err, Exec, ◌>>=◌, ◌>>◌, pure, raise, gauge, counter,
  gauge_metric, counter_metric, Metrics, Snapshot,
}
use golectra.Ports.{MetricsRepo}
use Names.{dedup_names}

-- audit.Event
pub record Event : Type 0 where
  pub timestamp : ℕ
  pub metrics : List String
  pub ip_address : String

-- What a call takes from its context and its surroundings: the client's address that
-- audit.WithClientIP stored, and the time that `s.now().Unix()` returns.
pub record Context : Type 0 where
  pub client_ip : String
  pub unix_time : ℕ

-- auditEvent
pub record AuditMessage : Type 0 where
  pub ctx : Context
  pub evt : Event

abbrev pub audit_queue_size : ℕ
audit_queue_size = 128

-- `repo` is the repository's state. `queue` is nil or the buffer of the channel, `published` the
-- calls of auditor.Publish made by the service's methods, `dropped` the lines logged for a full
-- queue, and `changed` the snapshots passed to onChanged.
pub record Service (S F : Type 0) : Type 0 where
  pub repo : S
  pub auditor : Bool
  pub on_changed : Bool
  pub clock : Bool
  pub queue : Option (List AuditMessage)
  pub published : List AuditMessage
  pub dropped : ℕ
  pub changed : List (Snapshot F)

module _ {S F : Type 0} where
  -- New: with an auditor the queue is made
  unfoldable pub new : S → Bool → Bool → Service S F
  new repo on_changed auditor = record {
    repo = repo;
    auditor = auditor;
    on_changed = on_changed;
    clock = true;
    queue = if auditor then some [] else none;
    published = [];
    dropped = 0;
    changed = [];
  }

  unfoldable pub enqueue_audit : AuditMessage → Service S F → Service S F
  enqueue_audit msg s = elim s.queue [
    | none ↦ record s { published = s.published ++ msg ∷ [] }
    | some q ↦
        if ltb (length q) audit_queue_size
        then record s { queue = some (q ++ msg ∷ []) }
        else record s { dropped = suc s.dropped }
  ]

  unfoldable pub audit_message : Context → List String → Service S F → AuditMessage
  audit_message ctx uniq s = record {
    ctx = ctx;
    evt = record {
      timestamp = if s.clock then ctx.unix_time else 0;
      metrics = uniq;
      ip_address = ctx.client_ip;
    };
  }

  abbrev notify_names : Context → List String → Service S F → Service S F
  notify_names ctx [] s = s
  notify_names ctx (n ∷ ns) s = enqueue_audit (audit_message ctx (n ∷ ns) s) s

  unfoldable pub notify_audit : Context → List String → Service S F → Service S F
  unfolding enqueue_audit audit_message
  notify_audit ctx names s = if s.auditor then notify_names ctx (dedup_names names) s else s

  -- a call of the method of the repository, with the service's other fields left alone
  abbrev pub on_repo : {A : Type 0} → Exec S A → Exec (Service S F) A
  on_repo m s = let (r, st) = m s.repo in (r, record s { repo = st })

module _ {F : Type 0} where
  -- the tests of the loop of UpsertBatch on one metric, its id already trimmed
  unfoldable pub accept : Metrics F → Option (Metrics F)
  accept it =
      if it.id == ""
      then none
      else if it.mtype == gauge
      then elim it.value [ none ↦ none | some v ↦ some it ]
      else if it.mtype == counter
      then elim it.delta [ none ↦ none | some d ↦ some it ]
      else none

  -- The loop of UpsertBatch: the metrics that it keeps, with trimmed ids.
  unfoldable pub valid_items : List (Metrics F) → List (Metrics F)
  unfolding accept
  valid_items [] = []
  valid_items (it ∷ items) =
      prepend (accept (record it { id = trim_space it.id })) (valid_items items)

module _ {F : Type 0} (repo : MetricsRepo F) where
  unfoldable pub ping : Exec (Service repo.State F) (Unit {0})
  ping = on_repo repo.ping

  unfoldable pub snapshot : Exec (Service repo.State F) (Snapshot F)
  snapshot = on_repo repo.snapshot

  -- the body of Get behind the test on the trimmed id
  unfoldable pub get_trimmed : String → String → Exec (Service repo.State F) (Metrics F)
  get_trimmed mtype id =
      if id == ""
      then raise not_found
      else if mtype == gauge
      then (do v ← on_repo (repo.get_gauge id); pure (gauge_metric id v))
      else if mtype == counter
      then (do d ← on_repo (repo.get_counter id); pure (counter_metric id d))
      else raise invalid_type

  unfoldable pub get : String → String → Exec (Service repo.State F) (Metrics F)
  unfolding get_trimmed
  get mtype id = get_trimmed mtype (trim_space id)

  -- `s.notifyAudit(ctx, names)` as a statement
  abbrev notifies : Context → List String → Exec (Service repo.State F) (Unit {0})
  notifies ctx names s = (ok tt, notify_audit ctx names s)

  unfoldable pub upsert_gauge :
      Context → String → Option F → Exec (Service repo.State F) (Metrics F)
  upsert_gauge ctx id none = raise invalid_type
  upsert_gauge ctx id (some v) = do
    on_repo (repo.set_gauge id v)
    res ← get gauge id
    notifies ctx (id ∷ [])
    pure res

  unfoldable pub upsert_counter :
      Context → String → Option ℕ → Exec (Service repo.State F) (Metrics F)
  upsert_counter ctx id none = raise invalid_type
  upsert_counter ctx id (some d) = do
    on_repo (repo.add_counter id d)
    res ← get counter id
    notifies ctx (id ∷ [])
    pure res

  unfoldable pub upsert : Context → Metrics F → Exec (Service repo.State F) (Metrics F)
  unfolding upsert_gauge upsert_counter
  upsert ctx m =
      let id = trim_space m.id in
      if id == ""
      then raise not_found
      else if m.mtype == gauge
      then upsert_gauge ctx id m.value
      else if m.mtype == counter
      then upsert_counter ctx id m.delta
      else raise invalid_type

  -- `if snap, err := s.repo.Snapshot(ctx); err == nil { s.onChanged(ctx, snap) }`
  abbrev report : Result (Snapshot F) → Service repo.State F → Service repo.State F
  report (ok snap) s = record s { changed = s.changed ++ snap ∷ [] }
  report (err e) s = s

  unfoldable pub call_on_changed : Service repo.State F → Service repo.State F
  call_on_changed s =
      if s.on_changed then (let (r, s') = on_repo repo.snapshot s in report r s') else s

  unfoldable pub upsert_valid : Context → List (Metrics F) → Exec (Service repo.State F) ℕ
  upsert_valid ctx [] = raise invalid_type
  upsert_valid ctx (it ∷ items) = do
    let valid = it ∷ items
    on_repo (repo.update_many valid)
    notifies ctx (map (λ m. m.id) valid)
    λ s. (ok (length valid), call_on_changed s)

  unfoldable pub upsert_batch : Context → List (Metrics F) → Exec (Service repo.State F) ℕ
  unfolding upsert_valid
  upsert_batch ctx items = upsert_valid ctx (valid_items items)
