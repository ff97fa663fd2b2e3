-- ===== src/Agent/Fleet.antt =====
-- The workers of internal/services/agent/sender.go and a server with the in-memory repository: a worker
-- that has taken a batch sends it, and after an error of SendBatch each metric on its own. The server
-- carries out a request in one step, at any later time. A request that fails for the worker may have
-- been carried out, and is then followed by another one for the same metrics, or by none.
pub mod Moves
pub mod Settled
pub mod Overtaken
mod Tests
use golectra.Base.{List, [], ◌∷◌, ◌++◌, ℕ, suc, ◌≡◌, ◌<◌, ◌≤◌, length}
use golectra.Domain.{Metrics}
use golectra.Agent
use golectra.Agent.{BatchPublisher}
use golectra.Memory.{Repo, update_all}
use golectra.MetricsService.{valid_items}

-- what a worker has to send: a batch, or the metrics of a batch that are left in the fallback
pub data Hand (F : Type 0) : Type 0 where
  sending : List (Metrics F) → Hand F
  singly : List (Metrics F) → Hand F

-- `in_hand` is what workers have taken and have not worked off. Of the metrics that the server accepts,
-- `stored` are those stored, in its order; `repeated` those stored on a request that was no success for
-- the worker, who goes on with the same metrics; and `lost` those that a worker gave up.
pub record Fleet (F : Type 0) : Type 0 where
  pub sender : BatchPublisher F
  pub in_hand : List (Hand F)
  pub stored : List (Metrics F)
  pub repeated : List (Metrics F)
  pub lost : List (Metrics F)
  pub repo : Repo F

module _ {F : Type 0} where
  -- Start, with the rate limit of the configuration, and the repository of the server
  abbrev pub start : ℕ → Repo F → Fleet F
  start limit r = record {
    sender = Agent.start limit;
    in_hand = [];
    stored = [];
    repeated = [];
    lost = [];
    repo = r;
  }

  pub data Step (s : Fleet F) (t : Fleet F) : Type 0 where
    -- a report, Stop, or a worker that returns
    elsewhere :
        (p : BatchPublisher F)
        → Agent.Step s.sender p
        → p.taken ≡ s.sender.taken
        → p.busy ≡ s.sender.busy
        → t ≡ record s { sender = p }
        → Step s t
    -- `for batch := range bp.jobs`
    take :
        (batch : List (Metrics F)) (rest : List (List (Metrics F)))
        → s.sender.busy < s.sender.live
        → s.sender.queue ≡ batch ∷ rest
        → t ≡ record s {
          sender = record s.sender {
            queue = rest;
            busy = suc s.sender.busy;
            taken = s.sender.taken ++ batch ∷ [];
          };
          in_hand = sending batch ∷ s.in_hand;
        }
        → Step s t
    -- UpsertBatch at the server, and its answer at the worker
    store :
        (before after : List (Hand F)) (batch : List (Metrics F))
        → s.in_hand ≡ before ++ sending batch ∷ after
        → t ≡ record s {
          in_hand = before ++ after;
          stored = s.stored ++ valid_items batch;
          repo = update_all (valid_items batch) s.repo;
        }
        → Step s t
    -- UpsertBatch at the server, whose answer does not reach the worker
    store_again :
        (before after : List (Hand F)) (batch : List (Metrics F))
        → s.in_hand ≡ before ++ sending batch ∷ after
        → t ≡ record s {
          stored = s.stored ++ valid_items batch;
          repeated = s.repeated ++ valid_items batch;
          repo = update_all (valid_items batch) s.repo;
        }
        → Step s t
    -- `if err := bp.pub.SendBatch(ctx, batch); err != nil`
    go_singly :
        (before after : List (Hand F)) (batch : List (Metrics F))
        → s.in_hand ≡ before ++ sending batch ∷ after
        → t ≡ record s { in_hand = before ++ singly batch ∷ after }
        → Step s t
    -- SendOne without an error: Upsert at the server
    store_one :
        (before after : List (Hand F)) (m : Metrics F) (left : List (Metrics F))
        → s.in_hand ≡ before ++ singly (m ∷ left) ∷ after
        → t ≡ record s {
          in_hand = before ++ singly left ∷ after;
          stored = s.stored ++ valid_items (m ∷ []);
          repo = update_all (valid_items (m ∷ [])) s.repo;
        }
        → Step s t
    -- Upsert at the server, whose answer does not reach the worker
    store_one_again :
        (before after : List (Hand F)) (m : Metrics F) (left : List (Metrics F))
        → s.in_hand ≡ before ++ singly (m ∷ left) ∷ after
        → t ≡ record s {
          stored = s.stored ++ valid_items (m ∷ []);
          repeated = s.repeated ++ valid_items (m ∷ []);
          repo = update_all (valid_items (m ∷ [])) s.repo;
        }
        → Step s t
    -- SendOne with an error: the loop goes on
    lose_one :
        (before after : List (Hand F)) (m : Metrics F) (left : List (Metrics F))
        → s.in_hand ≡ before ++ singly (m ∷ left) ∷ after
        → t ≡ record s {
          in_hand = before ++ singly left ∷ after;
          lost = s.lost ++ valid_items (m ∷ []);
        }
        → Step s t
    -- the end of the loop over the metrics
    end_singly :
        (before after : List (Hand F))
        → s.in_hand ≡ before ++ singly [] ∷ after
        → t ≡ record s { in_hand = before ++ after }
        → Step s t
    -- a worker is done with its batch
    finish :
        (n : ℕ)
        → s.sender.busy ≡ suc n
        → length s.in_hand ≤ n
        → t ≡ record s { sender = record s.sender { busy = n; finished = suc s.sender.finished } }
        → Step s t

  pub data Reach (s : Fleet F) : Fleet F → Type 0 where
    here : Reach s s
    next : {t u : Fleet F} → Reach s t → Step t u → Reach s u

  -- the metrics of some batches that UpsertBatch keeps, one batch after the other
  unfoldable pub all_items : List (List (Metrics F)) → List (Metrics F)
  all_items [] = []
  all_items (b ∷ bs) = valid_items b ++ all_items bs
