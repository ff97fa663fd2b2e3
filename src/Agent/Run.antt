-- ===== src/Agent/Run.antt =====
-- New, Run and enqueueSnapshot of internal/services/agent/agent.go: the collector, the report loop and
-- the workers that send reports, as one system of goroutines.
pub mod Returned
mod Tests
use golectra.Base.{List, [], ◌∷◌, ◌++◌, String, ℕ, Bool, true, false, ◌≡◌, ◌≢◌, ◌<◌, ◌+◌, length}
use golectra.Base.Maps.{Visits}
use golectra.Domain.{Metrics}
use golectra.Agent
use golectra.Agent.{BatchPublisher, build_batch}
use golectra.Collector
use golectra.Collector.{Collector}

-- Where Run stands: in `select`, in Submit with the entries of a snapshot, in the deferred Stop of the
-- sender and of the collector, or at its end.
pub data RunState (F : Type 0) : Type 0 where
  selecting : RunState F
  submitting : List (String × F) → List (String × ℕ) → RunState F
  stopping_sender : RunState F
  stopping_collector : RunState F
  returned : RunState F

-- `done` is whether the context has ended; `reported` are the batches that enqueueSnapshot has made.
pub record System (F : Type 0) : Type 0 where
  pub collector : Collector F
  pub sender : BatchPublisher F
  pub state : RunState F
  pub done : Bool
  pub reported : List (List (Metrics F))

module _ {F : Type 0} where
  -- Run, up to its loop, with the rate limit of the configuration
  unfoldable pub start : ℕ → System F
  unfolding Agent.start Collector.start
  start limit = record {
    collector = Collector.start;
    sender = Agent.start limit;
    state = selecting;
    done = false;
    reported = [];
  }

  pub data Step (s : System F) (t : System F) : Type 0 where
    -- a goroutine of the collector goes on
    collect :
        (c : Collector F)
        → Collector.Step s.collector c
        → c.stopped ≡ s.collector.stopped
        → t ≡ record s { collector = c }
        → Step s t
    -- a worker goes on
    work :
        (p : BatchPublisher F)
        → Agent.Step s.sender p
        → p.submitted ≡ s.sender.submitted
        → p.closed ≡ s.sender.closed
        → t ≡ record s { sender = p }
        → Step s t
    -- the end of the context, which the goroutines of the collector see as well
    cancel :
        t ≡ record s { done = true; collector = record s.collector { stopped = true } } → Step s t
    -- `case <-ticker.C`, with an empty snapshot
    tick_empty :
        s.state ≡ selecting
        → Visits [] s.collector.stats.gauges
        → Visits [] s.collector.stats.counters
        → t ≡ s
        → Step s t
    -- and with one that is not, whose entries are visited in these orders
    tick :
        (gs : List (String × F)) (cs : List (String × ℕ))
        → s.state ≡ selecting
        → Visits gs s.collector.stats.gauges
        → Visits cs s.collector.stats.counters
        → length gs + length cs ≢ 0
        → t ≡ record s { state = submitting gs cs; reported = s.reported ++ build_batch gs cs ∷ [] }
        → Step s t
    -- Submit, once the channel has room
    submit :
        (gs : List (String × F)) (cs : List (String × ℕ))
        → s.state ≡ submitting gs cs
        → length gs + length cs ≢ 0
        → length s.sender.queue < s.sender.capacity
        → t ≡ record s {
          state = selecting;
          sender = record s.sender {
            queue = s.sender.queue ++ build_batch gs cs ∷ [];
            submitted = s.sender.submitted ++ build_batch gs cs ∷ [];
          };
        }
        → Step s t
    -- `case <-ctx.Done()`, and `close(bp.jobs)` of the sender's Stop
    leave_loop :
        s.state ≡ selecting
        → s.done ≡ true
        → t ≡ record s { state = stopping_sender; sender = record s.sender { closed = true } }
        → Step s t
    -- the end of its wait, and `close(c.stop)` of the collector's Stop
    sender_stopped :
        s.state ≡ stopping_sender
        → s.sender.live ≡ 0
        → t ≡ record s {
          state = stopping_collector;
          collector = record s.collector { stopped = true };
        }
        → Step s t
    -- the end of its wait
    collector_stopped :
        s.state ≡ stopping_collector
        → s.collector.poll_live ≡ false
        → s.collector.sample_live ≡ false
        → t ≡ record s { state = returned }
        → Step s t

  pub data Reach (s : System F) : System F → Type 0 where
    here : Reach s s
    next : {t u : System F} → Reach s t → Step t u → Reach s u
