-- ===== src/Agent/Fleet/Settled.antt =====
-- What the counters of the server are when all workers have returned.
use golectra.MetricsService.{valid_items}
use golectra.Agent.{length}
use golectra.Domain.{Metrics}
use golectra.Base.{
  ◌∙◌, ap, refl, length-append, String, ◌≡◌, ◌≤◌, [], arith, ◌∷◌, sym, subst, ◌++◌, ℕ, List,
}
use golectra.Agent.Fleet.{
  end_singly, lose_one, store_one_again, store_one, go_singly, store_again, singly, sending, Hand,
  Fleet, Step, Reach, start, elsewhere, take, store, finish, all_items,
}
use golectra.Agent
use golectra.Agent.Accounting.{stopped_lem, start-Reach-Accounts}
use golectra.Memory.{Repo, update_all}
use golectra.Memory.Batch.{update_all-append}
use golectra.Memory.Merge.{update_all-perm}
use golectra.Base.Maps
use mathlib.Core.List.{Permᴰ}
use mathlib.Core.List.Permᴰ
use golectra.Agent.Fleet.Moves.{
  taken_perm, stored_perm, lost_perm, repeated_perm, all_items-append_one, left_items,
  left_items-perm, left_items-perm_one, left_items-perm_same,
}

module _ {F : Type 0} where
  record IsInv (limit : ℕ) (r : Repo F) (s : Fleet F) : Type 0 where
    sending_on : Agent.Reach (Agent.start limit) s.sender
    moved :
        Permᴰ
          (s.stored ++ (s.lost ++ left_items s.in_hand))
          (all_items s.sender.taken ++ s.repeated)
    held : length s.in_hand ≤ s.sender.busy
    summed : s.repo ≡ update_all s.stored r

  -- the hands of the workers are one fewer, or as many
  fewer :
      (before after hands : List (Hand F)) (h : Hand F) (n : ℕ)
      → hands ≡ before ++ h ∷ after
      → length hands ≤ n
      → (length (before ++ after) ≤ n) × ((g : Hand F) → length (before ++ g ∷ after) ≤ n)
  fewer before after hands h n e held =
      let l = rw e at held in
      (
        omega (arith, l, length-append before after, length-append before (h ∷ after)),
        λ g. omega (arith, l, length-append before (g ∷ after), length-append before (h ∷ after)),
      )

  stored_sum :
      (items stored : List (Metrics F)) (now r : Repo F)
      → now ≡ update_all stored r
      → update_all items now ≡ update_all (stored ++ items) r
  stored_sum items stored now r e = rw e (sym (update_all-append stored items r))

  Step-IsInv :
      {limit : ℕ} {r : Repo F} {s t : Fleet F} → Step s t → IsInv limit r s → IsInv limit r t
  unfolding valid_items
  Step-IsInv {limit} {r} {s} {t} (elsewhere p step kept busy same) v =
      subst (IsInv limit r) (sym same) (record {
        sending_on = Agent.Reach.next v.sending_on step;
        moved = rw kept v.moved;
        held = rw busy v.held;
        summed = v.summed;
      })
  Step-IsInv {limit} {r} {s} {t} (take batch rest idle e same) v =
      subst (IsInv limit r) (sym same) (record {
        sending_on = Agent.Reach.next v.sending_on (Agent.receive s.sender batch rest idle e);
        moved = rw (all_items-append_one s.sender.taken batch) (
            taken_perm (valid_items batch) s.stored s.lost (left_items s.in_hand)
              (all_items s.sender.taken) s.repeated v.moved);
        held = omega (arith, v.held);
        summed = v.summed;
      })
  Step-IsInv {limit} {r} {s} {t} (store before after batch e same) v =
      subst (IsInv limit r) (sym same) (record {
        sending_on = v.sending_on;
        moved =
            stored_perm (valid_items batch) s.stored s.lost _ _ _
              (left_items-perm before after (sending batch)) (rw e at v.moved);
        held = (fewer before after s.in_hand (sending batch) s.sender.busy e v.held).0;
        summed = stored_sum (valid_items batch) s.stored s.repo r v.summed;
      })
  Step-IsInv {limit} {r} {s} {t} (store_again before after batch e same) v =
      subst (IsInv limit r) (sym same) (record {
        sending_on = v.sending_on;
        moved =
            repeated_perm (valid_items batch) s.stored s.lost (left_items s.in_hand)
              (all_items s.sender.taken) s.repeated v.moved;
        held = v.held;
        summed = stored_sum (valid_items batch) s.stored s.repo r v.summed;
      })
  Step-IsInv {limit} {r} {s} {t} (go_singly before after batch e same) v =
      subst (IsInv limit r) (sym same) (record {
        sending_on = v.sending_on;
        moved =
            Permᴰ.trans
              (Permᴰ.append_left s.stored
                (Permᴰ.append_left s.lost (Permᴰ.symm (left_items-perm_same before after batch))))
              (rw e at v.moved);
        held = (fewer before after s.in_hand (sending batch) s.sender.busy e v.held).1 _;
        summed = v.summed;
      })
  Step-IsInv {limit} {r} {s} {t} (store_one before after m left e same) v =
      subst (IsInv limit r) (sym same) (record {
        sending_on = v.sending_on;
        moved =
            stored_perm (valid_items (m ∷ [])) s.stored s.lost _ _ _
              (left_items-perm_one before after m left) (rw e at v.moved);
        held = (fewer before after s.in_hand (singly (m ∷ left)) s.sender.busy e v.held).1 _;
        summed = stored_sum (valid_items (m ∷ [])) s.stored s.repo r v.summed;
      })
  Step-IsInv {limit} {r} {s} {t} (store_one_again before after m left e same) v =
      subst (IsInv limit r) (sym same) (record {
        sending_on = v.sending_on;
        moved =
            repeated_perm (valid_items (m ∷ [])) s.stored s.lost (left_items s.in_hand)
              (all_items s.sender.taken) s.repeated v.moved;
        held = v.held;
        summed = stored_sum (valid_items (m ∷ [])) s.stored s.repo r v.summed;
      })
  Step-IsInv {limit} {r} {s} {t} (lose_one before after m left e same) v =
      subst (IsInv limit r) (sym same) (record {
        sending_on = v.sending_on;
        moved =
            lost_perm (valid_items (m ∷ [])) s.stored s.lost _ _ _
              (left_items-perm_one before after m left) (rw e at v.moved);
        held = (fewer before after s.in_hand (singly (m ∷ left)) s.sender.busy e v.held).1 _;
        summed = v.summed;
      })
  Step-IsInv {limit} {r} {s} {t} (end_singly before after e same) v =
      subst (IsInv limit r) (sym same) (record {
        sending_on = v.sending_on;
        moved =
            Permᴰ.trans
              (Permᴰ.append_left s.stored
                (Permᴰ.append_left s.lost (Permᴰ.symm (left_items-perm before after (singly [])))))
              (rw e at v.moved);
        held = (fewer before after s.in_hand (singly []) s.sender.busy e v.held).0;
        summed = v.summed;
      })
  Step-IsInv {limit} {r} {s} {t} (finish n e fits same) v =
      subst (IsInv limit r) (sym same) (record {
        sending_on = Agent.Reach.next v.sending_on (Agent.finish s.sender n e);
        moved = v.moved;
        held = fits;
        summed = v.summed;
      })

  Reach-IsInv :
      {limit : ℕ} {r : Repo F} {s t : Fleet F} → IsInv limit r s → Reach s t → IsInv limit r t
  Reach-IsInv v Reach.here = v
  Reach-IsInv v (Reach.next h st) = Step-IsInv st (Reach-IsInv v h)

  start-IsInv : (limit : ℕ) (r : Repo F) → IsInv limit r (start limit r)
  unfolding all_items Agent.start update_all
  start-IsInv limit r = record {
    sending_on = Agent.Reach.here;
    moved = Permᴰ.nil;
    held = omega arith;
    summed = refl;
  }

  no_hand : (hs : List (Hand F)) → length hs ≤ 0 → hs ≡ []
  no_hand [] h = refl
  no_hand (b ∷ hs) h = absurd (omega (arith, h))

  -- When all workers have returned, whatever their number, in whatever order they took batches and the
  -- server carried out their requests, and whichever requests failed: every counter of the server,
  -- with the metrics stored as well that were lost on the way, is what the batches ever reported give,
  -- one after the other, in the order of the reports, and behind them the metrics that were stored on
  -- a request which failed for its worker.
  pub counters_settled :
      (limit : ℕ) (r : Repo F) (s : Fleet F) (k : String)
      → Reach (start limit r) s
      → s.sender.live ≡ 0
      → Maps.get (update_all s.lost s.repo).counters k
        ≡ Maps.get (update_all (all_items s.sender.submitted ++ s.repeated) r).counters k
  counters_settled limit r s k h gone =
      let v = Reach-IsInv (start-IsInv limit r) h in
      let a = start-Reach-Accounts limit s.sender v.sending_on in
      let (taken, finished, drained) = stopped_lem limit s.sender v.sending_on gone in
      let empty = no_hand s.in_hand (omega (arith, v.held, a.limited, gone)) in
      let settled : Permᴰ (s.stored ++ s.lost) (all_items s.sender.submitted ++ s.repeated) =
        Permᴰ.trans (Permᴰ.append_left s.stored (Permᴰ.symm (Permᴰ.append-nil s.lost)))
          (rw (empty, taken) at v.moved) in
      ap (λ x. Maps.get x.counters k) (stored_sum s.lost s.stored s.repo r v.summed)
      ∙ update_all-perm k (s.stored ++ s.lost) (all_items s.sender.submitted ++ s.repeated) r
          ∣ settled ∣₁
