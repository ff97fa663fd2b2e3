-- ===== src/Agent.antt =====
-- internal/services/agent: the reports of the agent and the workers that send them. The publisher
-- changes a world `W`; log lines are left out.
pub mod Reports
mod Tests
pub mod Accounting
pub mod Totals
pub mod Run
pub mod Fleet
use golectra.Base.{
  true, suc, ◌<◌, ◌≢◌, ◌+◌, false, length, ◌≡◌, nat_eqb, [], ◌++◌, Bool, ◌∷◌, ◌*◌, if◌then◌else◌,
  String, ℕ, List,
}
use golectra.Domain.{Error, Result, ok, err, Exec, Metrics}
use golectra.Ports.Flatten.{gauge_items, counter_items}
use golectra.Config.Values.{int64_leb}

-- ports.Publisher
pub record Publisher (W F : Type 0) : Type 0 where
  pub send_batch : List (Metrics F) → Exec W (Unit {0})
  pub send_one : Metrics F → Exec W (Unit {0})

module _ {F : Type 0} where
  -- buildBatch, and the batch of enqueueSnapshot, over the entries in the orders in which the loops
  -- visit them. The buffer that buildBatch reuses is cut to length 0 before it is filled.
  unfoldable pub build_batch : List (String × F) → List (String × ℕ) → List (Metrics F)
  build_batch gs cs = gauge_items gs ++ counter_items cs

module _ {W F : Type 0} (publisher : Publisher W F) where
  -- the fallback: each metric on its own, whether or not one fails
  unfoldable pub send_each : List (Metrics F) → W → W
  send_each [] w = w
  send_each (m ∷ batch) w = send_each batch (publisher.send_one m w).1

  abbrev pub fall_back : List (Metrics F) → Result (Unit {0}) × W → W
  fall_back batch (ok u, w) = w
  fall_back batch (err e, w) = send_each batch w

  -- what a worker does with a batch
  unfoldable pub work_off : List (Metrics F) → W → W
  work_off [] w = w
  work_off (m ∷ batch) w = fall_back (m ∷ batch) (publisher.send_batch (m ∷ batch) w)

  -- reportOnce, on the snapshot that the collector returns
  unfoldable pub report_once : List (String × F) → List (String × ℕ) → W → W
  report_once gs cs w =
      let batch = build_batch gs cs in
      if nat_eqb (length gs + length cs) 0
      then w
      else fall_back batch (publisher.send_batch batch w)

-- BatchPublisher: `queue` is the channel `jobs` of size `capacity`, `live` the number of workers that
-- have not returned and `busy` of those that have a batch in hand. `submitted` and `taken` are the
-- batches that were ever sent into and received from the channel, `finished` how many were worked off.
pub record BatchPublisher (F : Type 0) : Type 0 where
  pub workers : ℕ
  pub capacity : ℕ
  pub queue : List (List (Metrics F))
  pub closed : Bool
  pub live : ℕ
  pub busy : ℕ
  pub submitted : List (List (Metrics F))
  pub taken : List (List (Metrics F))
  pub finished : ℕ

-- NewBatchPublisher: at least one worker
unfoldable pub worker_count : ℕ → ℕ
worker_count n = if int64_leb 1 n then n else 1

module _ {F : Type 0} where
  -- NewBatchPublisher and Start, for a limit below 2 ^ 62: `workers * 2` is then an int
  unfoldable pub start : ℕ → BatchPublisher F
  unfolding worker_count
  start n = record {
    workers = worker_count n;
    capacity = worker_count n * 2;
    queue = [];
    closed = false;
    live = worker_count n;
    busy = 0;
    submitted = [];
    taken = [];
    finished = 0;
  }

  pub data Step : BatchPublisher F → BatchPublisher F → Type 0 where
    -- enqueueSnapshot with an empty snapshot submits nothing; with another one, Submit waits for room.
    submit :
        (p : BatchPublisher F) (gs : List (String × F)) (cs : List (String × ℕ))
        → p.closed ≡ false
        → length gs + length cs ≢ 0
        → length p.queue < p.capacity
        → Step p (record p {
          queue = p.queue ++ build_batch gs cs ∷ [];
          submitted = p.submitted ++ build_batch gs cs ∷ [];
        })
    -- `for batch := range bp.jobs`
    receive :
        (p : BatchPublisher F) (batch : List (Metrics F)) (rest : List (List (Metrics F)))
        → p.busy < p.live
        → p.queue ≡ batch ∷ rest
        → Step p (record p { queue = rest; busy = suc p.busy; taken = p.taken ++ batch ∷ [] })
    -- the end of the loop's body
    finish :
        (p : BatchPublisher F) (n : ℕ)
        → p.busy ≡ suc n
        → Step p (record p { busy = n; finished = suc p.finished })
    -- Stop: `close(bp.jobs)`
    close : (p : BatchPublisher F) → p.closed ≡ false → Step p (record p { closed = true })
    -- the end of the loop, on a channel that is closed and empty
    leave :
        (p : BatchPublisher F) (n : ℕ)
        → p.closed ≡ true
        → p.queue ≡ []
        → p.busy < p.live
        → p.live ≡ suc n
        → Step p (record p { live = n })

  pub data Reach (s : BatchPublisher F) : BatchPublisher F → Type 0 where
    here : Reach s s
    next : {t u : BatchPublisher F} → Reach s t → Step t u → Reach s u
