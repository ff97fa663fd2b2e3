-- ===== src/Agent/Run/Tests.antt =====
-- A run of the agent with one worker: it samples the processor, reports the sample, and ends while the
-- worker sends the report.
use golectra.Agent.{build_batch, length}
use golectra.Domain.{Metrics}
use golectra.Base.{Bool, ◌∷◌, none, String, [], true, refl, false, ℕ, List, ◌≢◌, ◌≡◌, arith}
use golectra.Base.Maps.{entries-Visits, IsMap}
use golectra.Config.Values.{int64_leb}
use golectra.Agent.Run.Returned.{run_returned}
use golectra.Agent.Run.{
  System, start, Reach, cancel, leave_loop, work, sender_stopped, collect, collector_stopped,
  returned, stopping_sender, stopping_collector, selecting, submitting, tick, submit,
}
use golectra.Base.Maps
use golectra.Agent
use golectra.Collector
use golectra.Collector.{Stats, Collector}

-- the gauges and the calls that are left of the second goroutine, and whether each is live
abbrev collector_after :
    List (String × ℕ) → List (Collector.Write ℕ) → Bool → Bool → Bool → Collector ℕ
collector_after gauges sampling stopped poll_live sample_live = record {
  stats = record { gauges = record { entries = gauges }; counters = record { entries = [] } };
  polling = [];
  sampling = sampling;
  poll_live = poll_live;
  sample_live = sample_live;
  stopped = stopped;
  rounds = 0;
}

abbrev load : List (String × ℕ)
load = ("CPUutilization1", 7) ∷ []

abbrev reports : List (List (Metrics ℕ))
reports = build_batch load [] ∷ []

abbrev begun : System ℕ
begun = record {
  collector = collector_after [] (Collector.system_writes none (7 ∷ [])) false true true;
  sender = Agent.start 1;
  state = selecting;
  done = false;
  reported = [];
}

abbrev sampled : System ℕ
sampled = record begun { collector = collector_after load [] false true true }

abbrev ticked : System ℕ
ticked = record sampled { state = submitting load []; reported = reports }

abbrev submitted : System ℕ
submitted = record ticked {
  state = selecting;
  sender = record ticked.sender { queue = reports; submitted = reports };
}

abbrev received : System ℕ
received = record submitted {
  sender = record submitted.sender { queue = []; busy = 1; taken = reports };
}

abbrev cancelled : System ℕ
cancelled = record received { done = true; collector = collector_after load [] true true true }

abbrev left : System ℕ
left = record cancelled {
  state = stopping_sender;
  sender = record cancelled.sender { closed = true };
}

abbrev finished : System ℕ
finished = record left { sender = record left.sender { busy = 0; finished = 1 } }

abbrev no_worker : System ℕ
no_worker = record finished { sender = record finished.sender { live = 0 } }

abbrev told : System ℕ
told = record no_worker { state = stopping_collector }

abbrev poll_over : System ℕ
poll_over = record told { collector = collector_after load [] true false true }

abbrev both_over : System ℕ
both_over = record told { collector = collector_after load [] true false false }

abbrev ended : System ℕ
ended = record both_over { state = returned }

some_entry : ◌≢◌ {A = ℕ} 1 0
some_entry = λ e. omega (arith, e)

load-IsMap : IsMap load
unfolding Maps.lookup
load-IsMap = (refl, tt)

sampled_run : Reach (start 1) sampled
unfolding start Agent.start Collector.start Agent.worker_count int64_leb Maps.empty
    Collector.system_writes Collector.apply Maps.put Maps.store
    golectra.Handler.Numbers.format_int64
sampled_run =
    Reach.next
      (Reach.next Reach.here (
        collect begun.collector (Collector.sample Collector.start none (7 ∷ []) refl refl) refl
          refl))
      (collect sampled.collector (Collector.sample_write begun.collector _ [] refl) refl refl)

received_run : Reach (start 1) received
unfolding Agent.start Agent.worker_count int64_leb
received_run =
    Reach.next
      (Reach.next
        (Reach.next sampled_run (
          tick load [] refl (entries-Visits sampled.collector.stats.gauges load-IsMap)
            (entries-Visits sampled.collector.stats.counters tt) some_entry refl))
        (submit load [] refl some_entry (omega arith) refl))
      (work received.sender (Agent.receive submitted.sender _ [] (omega arith) refl) refl refl refl)

no_worker_run : Reach (start 1) no_worker
unfolding Agent.start Agent.worker_count int64_leb
no_worker_run =
    Reach.next
      (Reach.next (Reach.next (Reach.next received_run (cancel refl)) (leave_loop refl refl refl))
        (work finished.sender (Agent.finish left.sender 0 refl) refl refl refl))
      (work no_worker.sender (Agent.leave finished.sender 0 refl refl (omega arith) refl) refl refl
        refl)

ended_run : Reach (start 1) ended
unfolding Agent.start Agent.worker_count int64_leb
ended_run =
    Reach.next
      (Reach.next
        (Reach.next (Reach.next no_worker_run (sender_stopped refl refl refl))
          (collect poll_over.collector (Collector.poll_return told.collector refl refl) refl refl))
        (collect both_over.collector (Collector.sample_return poll_over.collector refl refl) refl
          refl))
      (collector_stopped refl refl refl refl)

run_returned_example :
    (ended.sender.live ≡ 0)
    × (ended.collector.poll_live ≡ false)
    × (ended.collector.sample_live ≡ false)
    × (ended.sender.taken ≡ ended.reported)
    × (ended.sender.finished ≡ length ended.reported)
run_returned_example = run_returned 1 ended ended_run refl
