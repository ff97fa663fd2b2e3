-- ===== src/Memory/Calls.antt =====
-- Calls of SetGauge, AddCounter and UpdateMany of the in-memory repository, one after the other. Each
-- holds the lock for its whole body, so the calls of several goroutines are such a sequence.
use golectra.Base.{refl, sym, ◌++◌, [], ◌∙◌, ℕ, ap, ◌∷◌, String, List, ◌≡◌}
use golectra.Memory.{Repo, set_gauge, add_counter, update_many, update_all, update_one}
use golectra.Memory.Merge.{update_all-perm}
use golectra.Memory.Batch.{update_all-append}
use golectra.Domain.{Metrics, gauge_metric, counter_metric}
use golectra.Base.Maps
use mathlib.Core.List.{Perm}

pub data Call (F : Type 0) : Type 0 where
  set : String → F → Call F
  add : String → ℕ → Call F
  many : List (Metrics F) → Call F

module _ {F : Type 0} where
  abbrev pub run_call : Call F → Repo F → Repo F
  run_call (set k v) r = (set_gauge k v r).1
  run_call (add k d) r = (add_counter k d r).1
  run_call (many items) r = (update_many items r).1

  unfoldable pub run_calls : List (Call F) → Repo F → Repo F
  run_calls [] r = r
  run_calls (c ∷ cs) r = run_calls cs (run_call c r)

  -- the updates that a call asks for
  abbrev pub updates : Call F → List (Metrics F)
  updates (set k v) = gauge_metric k v ∷ []
  updates (add k d) = counter_metric k d ∷ []
  updates (many items) = items

  unfoldable pub all_updates : List (Call F) → List (Metrics F)
  all_updates [] = []
  all_updates (c ∷ cs) = updates c ++ all_updates cs

  run_call-updates : (c : Call F) (r : Repo F) → run_call c r ≡ update_all (updates c) r
  unfolding set_gauge add_counter update_many update_all update_one
  run_call-updates (set k v) r = refl
  run_call-updates (add k d) r = refl
  run_call-updates (many items) r = refl

  run_calls-updates :
      (cs : List (Call F)) (r : Repo F) → run_calls cs r ≡ update_all (all_updates cs) r
  unfolding run_calls all_updates
  run_calls-updates [] r = unfold update_all in refl
  run_calls-updates (c ∷ cs) r =
      run_calls-updates cs (run_call c r)
      ∙ rw (run_call-updates c r) (sym (update_all-append (updates c) (all_updates cs) r))

  -- Two sequences of calls of SetGauge, AddCounter and UpdateMany that ask for the same updates leave
  -- the same count under every name: in whatever order the updates come, and however they are divided
  -- into single calls and batches.
  pub run_calls-perm :
      (k : String) (xs ys : List (Call F)) (r : Repo F)
      → Perm (all_updates xs) (all_updates ys)
      → Maps.get (run_calls xs r).counters k ≡ Maps.get (run_calls ys r).counters k
  run_calls-perm k xs ys r p =
      ap (λ s. Maps.get s.counters k) (run_calls-updates xs r)
      ∙ update_all-perm k (all_updates xs) (all_updates ys) r p
      ∙ ap (λ s. Maps.get s.counters k) (sym (run_calls-updates ys r))
