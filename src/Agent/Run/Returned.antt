-- ===== src/Agent/Run/Returned.antt =====
-- What Run leaves behind when it returns.
use golectra.Base.{subst, arith, List, [], ◌∷◌, ◌++◌, ℕ, false, ◌≡◌, refl, ◌∙◌, sym, ap, length}
use golectra.Domain.{Metrics}
use golectra.Agent
use golectra.Agent.{BatchPublisher, build_batch}
use golectra.Agent.Accounting.{stopped_lem}
use golectra.Collector
use golectra.Collector.{Collector}
use golectra.Agent.Run.{
  RunState, selecting, submitting, stopping_sender, stopping_collector, returned, System, start,
  Step, Reach, collect, work, cancel, tick_empty, tick, submit, leave_loop, sender_stopped,
  collector_stopped,
}

module _ {F : Type 0} where
  -- What holds at each place of Run.
  abbrev At : RunState F → Collector F → BatchPublisher F → List (List (Metrics F)) → Type 0
  At selecting c p reported = (p.closed ≡ false) × (reported ≡ p.submitted)
  At (submitting gs cs) c p reported =
      (p.closed ≡ false) × (reported ≡ p.submitted ++ build_batch gs cs ∷ [])
  At stopping_sender c p reported = reported ≡ p.submitted
  At stopping_collector c p reported = (p.live ≡ 0) × (reported ≡ p.submitted)
  At returned c p reported =
      (p.live ≡ 0) × (reported ≡ p.submitted) × (c.poll_live ≡ false) × (c.sample_live ≡ false)

  record IsInv (limit : ℕ) (s : System F) : Type 0 where
    sending : Agent.Reach (Agent.start limit) s.sender
    collecting : Collector.Reach Collector.start s.collector
    at : At s.state s.collector s.sender s.reported

  -- a worker that has left does not come back
  left_for_good : {p q : BatchPublisher F} → Agent.Step p q → p.live ≡ 0 → q.live ≡ 0
  left_for_good (Agent.submit p gs cs o n r) h = h
  left_for_good (Agent.receive p b rest i e) h = h
  left_for_good (Agent.finish p n e) h = h
  left_for_good (Agent.close p o) h = h
  left_for_good (Agent.leave p n c e i l) h = absurd (omega (arith, h, l))

  over_for_good :
      {c d : Collector F}
      → Collector.Step c d
      → (c.poll_live ≡ false → d.poll_live ≡ false)
        × (c.sample_live ≡ false → d.sample_live ≡ false)
  over_for_good (Collector.poll c reading rnd l e) = ((λ h. h), λ h. h)
  over_for_good (Collector.poll_write c wr rest e) = ((λ h. h), λ h. h)
  over_for_good (Collector.sample c vm pct l e) = ((λ h. h), λ h. h)
  over_for_good (Collector.sample_write c wr rest e) = ((λ h. h), λ h. h)
  over_for_good (Collector.stop c) = ((λ h. h), λ h. h)
  over_for_good (Collector.poll_return c s e) = ((λ h. refl), λ h. h)
  over_for_good (Collector.sample_return c s e) = ((λ h. h), λ h. refl)

  At-collect :
      (st : RunState F) (c d : Collector F) (p : BatchPublisher F)
      (reported : List (List (Metrics F)))
      → Collector.Step c d
      → At st c p reported
      → At st d p reported
  At-collect selecting c d p rs step h = h
  At-collect (submitting gs cs) c d p rs step h = h
  At-collect stopping_sender c d p rs step h = h
  At-collect stopping_collector c d p rs step h = h
  At-collect returned c d p rs step h = let (a, b) = over_for_good step in (h.0, h.1, a h.2, b h.3)

  At-work :
      (st : RunState F) (c : Collector F) (p q : BatchPublisher F)
      (reported : List (List (Metrics F)))
      → Agent.Step p q
      → q.submitted ≡ p.submitted
      → q.closed ≡ p.closed
      → At st c p reported
      → At st c q reported
  At-work selecting c p q rs step s o h = (o ∙ h.0, h.1 ∙ sym s)
  At-work (submitting gs cs) c p q rs step s o h =
      (o ∙ h.0, h.1 ∙ ap (λ x. x ++ build_batch gs cs ∷ []) (sym s))
  At-work stopping_sender c p q rs step s o h = h ∙ sym s
  At-work stopping_collector c p q rs step s o h = (left_for_good step h.0, h.1 ∙ sym s)
  At-work returned c p q rs step s o h = (left_for_good step h.0, h.1 ∙ sym s, h.2, h.3)

  state-At :
      (s : System F) (st : RunState F)
      → s.state ≡ st
      → At s.state s.collector s.sender s.reported
      → At st s.collector s.sender s.reported
  state-At s st e h = subst (λ x. At x s.collector s.sender s.reported) e h

  Step-IsInv : {limit : ℕ} {s t : System F} → Step s t → IsInv limit s → IsInv limit t
  Step-IsInv {limit} {s} {t} (collect c step kept same) v = subst (IsInv limit) (sym same) (record {
    sending = v.sending;
    collecting = Collector.Reach.next v.collecting step;
    at = At-collect s.state s.collector c s.sender s.reported step v.at;
  })
  Step-IsInv {limit} {s} {t} (work p step kept open_still same) v =
      subst (IsInv limit) (sym same) (record {
        sending = Agent.Reach.next v.sending step;
        collecting = v.collecting;
        at = At-work s.state s.collector s.sender p s.reported step kept open_still v.at;
      })
  Step-IsInv {limit} {s} {t} (cancel same) v = subst (IsInv limit) (sym same) (record {
    sending = v.sending;
    collecting = Collector.Reach.next v.collecting (Collector.stop s.collector);
    at = At-collect s.state s.collector _ s.sender s.reported (Collector.stop s.collector) v.at;
  })
  Step-IsInv {limit} {s} {t} (tick_empty e g c same) v = subst (IsInv limit) (sym same) v
  Step-IsInv {limit} {s} {t} (tick gs cs e g c some_entry same) v = subst (IsInv limit) (sym same) (
      let h = state-At s selecting e v.at in
      record {
        sending = v.sending;
        collecting = v.collecting;
        at = (h.0, ap (λ x. x ++ build_batch gs cs ∷ []) h.1);
      })
  Step-IsInv {limit} {s} {t} (submit gs cs e some_entry room same) v =
      subst (IsInv limit) (sym same) (
        let h = state-At s (submitting gs cs) e v.at in
        record {
          sending = Agent.Reach.next v.sending (Agent.submit s.sender gs cs h.0 some_entry room);
          collecting = v.collecting;
          at = h;
        })
  Step-IsInv {limit} {s} {t} (leave_loop e done same) v = subst (IsInv limit) (sym same) (
      let h = state-At s selecting e v.at in
      record {
        sending = Agent.Reach.next v.sending (Agent.close s.sender h.0);
        collecting = v.collecting;
        at = h.1;
      })
  Step-IsInv {limit} {s} {t} (sender_stopped e gone same) v =
      subst (IsInv limit) (sym same) (record {
        sending = v.sending;
        collecting = Collector.Reach.next v.collecting (Collector.stop s.collector);
        at = (gone, state-At s stopping_sender e v.at);
      })
  Step-IsInv {limit} {s} {t} (collector_stopped e a b same) v = subst (IsInv limit) (sym same) (
      let h = state-At s stopping_collector e v.at in
      record { sending = v.sending; collecting = v.collecting; at = (h.0, h.1, a, b) })

  Reach-IsInv : {limit : ℕ} {s t : System F} → IsInv limit s → Reach s t → IsInv limit t
  Reach-IsInv v Reach.here = v
  Reach-IsInv v (Reach.next r st) = Step-IsInv st (Reach-IsInv v r)

  start-IsInv : (limit : ℕ) → IsInv limit (start limit)
  unfolding start
  start-IsInv limit = record {
    sending = Agent.Reach.here;
    collecting = Collector.Reach.here;
    at = (refl, refl);
  }

  -- When Run returns, whatever the timers, the workers and the context have done and in whatever order,
  -- no goroutine that it started is left, and every batch that it ever reported was taken by a worker,
  -- in the order of the reports, and worked off.
  pub run_returned :
      (limit : ℕ) (s : System F)
      → Reach (start limit) s
      → s.state ≡ returned
      → (s.sender.live ≡ 0)
        × (s.collector.poll_live ≡ false)
        × (s.collector.sample_live ≡ false)
        × (s.sender.taken ≡ s.reported)
        × (s.sender.finished ≡ length s.reported)
  run_returned limit s r e =
      let v = Reach-IsInv (start-IsInv limit) r in
      let h = state-At s returned e v.at in
      let (taken, finished, empty) = stopped_lem limit s.sender v.sending h.0 in
      (h.0, h.2, h.3, taken ∙ sym h.1, finished ∙ ap length (sym h.1))
