-- ===== src/MetricsService/Dispatcher/Order.antt =====
-- The order of the audit messages, over every interleaving of the methods, the goroutine and Close.
use golectra.Base.{
  inr, ltb→lt, length-append, refl, inl, ◌≤◌, ltb, subst, true, ◌∷◌, Bool-cases, ◌∙◌, length, some,
  false, [], ◌++◌, none, arith, ◌≡◌, Bool, Option, List,
}
use golectra.MetricsService.Dispatcher.{
  here, next, release, to_list, cancel, audit_queue_size, done, publish, receive, next, notify,
  AuditMessage, Step, enqueue_audit, new, Reach, System, enqueue, start,
}
use mathlib.Core.List.{append_assoc}

-- The queue holds at most 128 messages, and the messages that were ever queued are those that the
-- goroutine published, the one in hand and those waiting, in this order. Once the queue is nil the
-- goroutine has returned with none in hand, and those it never received, `lost`, are the last.
abbrev pub InOrder :
    Option (List AuditMessage)
    → Option AuditMessage
    → Bool
    → List AuditMessage
    → List AuditMessage
    → Type 0
InOrder none busy running delivered accepted =
    (running ≡ false) × (busy ≡ none) × (lost : List AuditMessage) × (accepted ≡ delivered ++ lost)
InOrder (some q) busy running delivered accepted =
    (length q ≤ audit_queue_size)
    × (running ≡ false → busy ≡ none)
    × (accepted ≡ delivered ++ (to_list busy ++ q))

abbrev pub IsOrdered : {S F : Type 0} → System S F → Type 0
IsOrdered t = InOrder t.service.queue t.busy t.running t.delivered t.accepted

snoc_order :
    (accepted delivered hand q : List AuditMessage) (m : AuditMessage)
    → accepted ≡ delivered ++ (hand ++ q)
    → accepted ++ m ∷ [] ≡ delivered ++ (hand ++ (q ++ m ∷ []))
snoc_order accepted delivered hand q m e = simp (e, append_assoc)

publish-InOrder :
    (o : Option (List AuditMessage)) (busy : Option AuditMessage) (running : Bool)
    (delivered accepted : List AuditMessage) (m : AuditMessage)
    → busy ≡ some m
    → InOrder o busy running delivered accepted
    → InOrder o none running (delivered ++ m ∷ []) accepted
publish-InOrder none busy running delivered accepted m b v = absurd (cc (b, v.1))
publish-InOrder (some q) busy running delivered accepted m b v =
    (v.0, λ e. refl, v.2 ∙ rw (b, append_assoc))

done-InOrder :
    (o : Option (List AuditMessage)) (busy : Option AuditMessage) (running : Bool)
    (delivered accepted : List AuditMessage)
    → busy ≡ none
    → InOrder o busy running delivered accepted
    → InOrder o busy false delivered accepted
done-InOrder none busy running delivered accepted b v = (refl, v.1, v.2, v.3)
done-InOrder (some q) busy running delivered accepted b v = (v.0, λ e. b, v.2)

release-InOrder :
    (o : Option (List AuditMessage)) (busy : Option AuditMessage) (running : Bool)
    (delivered accepted : List AuditMessage)
    → running ≡ false
    → InOrder o busy running delivered accepted
    → InOrder none busy running delivered accepted
release-InOrder none busy running delivered accepted r v = v
release-InOrder (some q) busy running delivered accepted r v = (r, v.1 r, q, v.2 ∙ rw (v.1 r))

start-IsOrdered :
    {S : Type 0} (F : Type 0) (repo : S) (on_changed auditor : Bool)
    → IsOrdered (start {F = F} repo on_changed auditor)
unfolding start new
start-IsOrdered F repo on_changed true = (omega arith, λ e. refl, refl)
start-IsOrdered F repo on_changed false = (refl, refl, [], refl)

module _ {S F : Type 0} where
  -- What a call of enqueueAudit leaves alone.
  enqueue_keeps :
      (msg : AuditMessage) (t : System S F)
      → ((enqueue msg t).busy ≡ t.busy)
        × ((enqueue msg t).running ≡ t.running)
        × ((enqueue msg t).delivered ≡ t.delivered)
  unfolding enqueue
  enqueue_keeps msg t = ground arith

  enqueue_room :
      (msg : AuditMessage) (t : System S F) (q : List AuditMessage)
      → t.service.queue ≡ some q
      → ltb (length q) audit_queue_size ≡ true
      → ((enqueue msg t).service.queue ≡ some (q ++ msg ∷ []))
        × ((enqueue msg t).accepted ≡ t.accepted ++ msg ∷ [])
  unfolding enqueue enqueue_audit
  enqueue_room msg t q e room = ground arith

  enqueue_full :
      (msg : AuditMessage) (t : System S F) (q : List AuditMessage)
      → t.service.queue ≡ some q
      → ltb (length q) audit_queue_size ≡ false
      → ((enqueue msg t).service.queue ≡ some q) × ((enqueue msg t).accepted ≡ t.accepted)
  unfolding enqueue enqueue_audit
  enqueue_full msg t q e full = ground arith

  enqueue_closed :
      (msg : AuditMessage) (t : System S F)
      → t.service.queue ≡ none
      → ((enqueue msg t).service.queue ≡ none) × ((enqueue msg t).accepted ≡ t.accepted)
  unfolding enqueue enqueue_audit
  enqueue_closed msg t e = ground arith

  enqueue-IsOrdered :
      (msg : AuditMessage) (t : System S F) (o : Option (List AuditMessage))
      → t.service.queue ≡ o
      → InOrder o t.busy t.running t.delivered t.accepted
      → IsOrdered (enqueue msg t)
  enqueue-IsOrdered msg t none e v =
      let (b, r, d) = enqueue_keeps msg t in
      let (q', a) = enqueue_closed msg t e in rw (q', b, r, d, a) v
  enqueue-IsOrdered msg t (some q) e v =
      let (b, r, d) = enqueue_keeps msg t in
      elim (Bool-cases (ltb (length q) audit_queue_size)) [
        | inl room ↦
            let (q', a) = enqueue_room msg t q e room in
            rw (q', b, r, d, a)
              (
                omega (arith, length-append q (msg ∷ []), ltb→lt (length q) audit_queue_size room),
                v.1,
                snoc_order t.accepted t.delivered (to_list t.busy) q msg v.2,
              )
        | inr full ↦ let (q', a) = enqueue_full msg t q e full in rw (q', b, r, d, a) v
      ]

  Step-IsOrdered : {t u : System S F} → Step t u → IsOrdered t → IsOrdered u
  Step-IsOrdered (notify t msg) v = enqueue-IsOrdered msg t t.service.queue refl v
  Step-IsOrdered (receive t m q r b e) v =
      let w = subst (λ o. InOrder o t.busy t.running t.delivered t.accepted) e v in
      (omega (arith, w.0), λ n. absurd (cc (n, r)), w.2 ∙ rw b)
  Step-IsOrdered (publish t m b) v =
      publish-InOrder t.service.queue t.busy t.running t.delivered t.accepted m b v
  Step-IsOrdered (done t b c) v =
      done-InOrder t.service.queue t.busy t.running t.delivered t.accepted b v
  Step-IsOrdered (cancel t) v = v
  Step-IsOrdered (release t c r) v =
      release-InOrder t.service.queue t.busy t.running t.delivered t.accepted r v

  Reach-IsOrdered : {s t : System S F} → IsOrdered s → Reach s t → IsOrdered t
  Reach-IsOrdered v here = v
  Reach-IsOrdered v (next r st) = Step-IsOrdered st (Reach-IsOrdered v r)

  -- From New on, after any interleaving of methods, the goroutine and Close: the queue holds at most
  -- 128 messages; the messages that were ever queued are those that the goroutine published, the one
  -- in its hand and those waiting, in this order; and once Close has returned the goroutine has too,
  -- with none in hand, and only the last of the queued messages can be missing among the published.
  pub start-Reach-IsOrdered :
      (repo : S) (on_changed auditor : Bool) (t : System S F)
      → Reach (start repo on_changed auditor) t
      → IsOrdered t
  start-Reach-IsOrdered repo on_changed auditor t r =
      Reach-IsOrdered (start-IsOrdered F repo on_changed auditor) r
