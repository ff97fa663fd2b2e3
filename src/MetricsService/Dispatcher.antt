-- ===== src/MetricsService/Dispatcher.antt =====
-- The audit queue of the metrics service and the goroutine that initAuditDispatcher starts: calls of
-- enqueueAudit, the goroutine and Close interleave in any order.
pub mod Order
use golectra.Base.{inr, ltb→lt, length-append, inl, subst, Bool-cases, ltb, ◌∙◌, if◌then◌else◌}
use golectra.MetricsService.{audit_queue_size, AuditMessage, enqueue_audit, Service, new}
use golectra.Base.{
  refl, ◌≤◌, length, true, ◌++◌, ◌∷◌, some, ◌≡◌, [], false, none, arith, List, Bool, Option,
}

-- `busy` is the message that the goroutine has received and not yet published, `running` whether
-- it has not returned, `cancelled` whether auditStop was called, `open` whether auditStop is
-- not nil. `delivered` are its calls of Publish; `accepted` are the messages that were ever queued.
pub record System (S F : Type 0) : Type 0 where
  pub service : Service S F
  pub busy : Option AuditMessage
  pub running : Bool
  pub cancelled : Bool
  pub delivered : List AuditMessage
  pub accepted : List AuditMessage

abbrev pub to_list : Option AuditMessage → List AuditMessage
to_list none = []
to_list (some m) = m ∷ []

module _ {S F : Type 0} where
  -- New and initAuditDispatcher
  unfoldable pub start : S → Bool → Bool → System S F
  start repo on_changed auditor = record {
    service = new repo on_changed auditor;
    busy = none;
    running = auditor;
    cancelled = false;
    delivered = [];
    accepted = [];
  }

  -- enqueueAudit, with the queue that it finds
  unfoldable pub enqueue : AuditMessage → System S F → System S F
  enqueue msg t = elim t.service.queue [
    | none ↦ record t { service = enqueue_audit msg t.service }
    | some q ↦
        if ltb (length q) audit_queue_size
        then record t { service = enqueue_audit msg t.service; accepted = t.accepted ++ msg ∷ [] }
        else record t { service = enqueue_audit msg t.service }
  ]

  pub data Step : System S F → System S F → Type 0 where
    -- a method notifies the auditor
    notify : (t : System S F) (msg : AuditMessage) → Step t (enqueue msg t)
    -- `case msg := <-s.auditQueue`
    receive :
        (t : System S F) (m : AuditMessage) (q : List AuditMessage)
        → t.running ≡ true
        → t.busy ≡ none
        → t.service.queue ≡ some (m ∷ q)
        → Step t (record t { service = record t.service { queue = some q }; busy = some m })
    -- `s.auditor.Publish(msg.ctx, msg.evt)`
    publish :
        (t : System S F) (m : AuditMessage)
        → t.busy ≡ some m
        → Step t (record t { busy = none; delivered = t.delivered ++ m ∷ [] })
    -- `case <-ctx.Done()`
    done :
        (t : System S F)
        → t.busy ≡ none
        → t.cancelled ≡ true
        → Step t (record t { running = false })
    -- Close: `s.auditStop()`
    cancel : (t : System S F) → Step t (record t { cancelled = true })
    -- Close, when the goroutine has returned: `s.auditQueue = nil`
    release :
        (t : System S F)
        → t.cancelled ≡ true
        → t.running ≡ false
        → Step t (record t { service = record t.service { queue = none } })

  pub data Reach (s : System S F) : System S F → Type 0 where
    here : Reach s s
    next : {t u : System S F} → Reach s t → Step t u → Reach s u
