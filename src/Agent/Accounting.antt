-- ===== src/Agent/Accounting.antt =====
-- No batch is lost between Submit and the workers.
use golectra.Base.{
  ◌*◌, ◌<◌, sym, ◌∙◌, refl, true, inr, ap, ◌⊎◌, [], ◌+◌, ◌∷◌, ◌≤◌, inl, ◌≡◌, ◌++◌, length-append,
  arith, ℕ, List,
}
use golectra.Config.Values.{int64_leb}
use golectra.Agent.{
  length, BatchPublisher, Step, submit, receive, finish, close, leave, Reach, here, next, start,
  build_batch, worker_count,
}

pub append_cons : {A : Type 0} (xs ys : List A) (y : A) → xs ++ y ∷ ys ≡ (xs ++ y ∷ []) ++ ys
append_cons [] ys y = refl
append_cons (x ∷ xs) ys y = ap (λ zs. x ∷ zs) (append_cons xs ys y)

append_assoc : {A : Type 0} (xs ys zs : List A) → (xs ++ ys) ++ zs ≡ xs ++ (ys ++ zs)
append_assoc [] ys zs = refl
append_assoc (x ∷ xs) ys zs = ap (λ l. x ∷ l) (append_assoc xs ys zs)

worker_count_bounds : (n : ℕ) → 1 ≤ worker_count n
unfolding worker_count int64_leb
worker_count_bounds n = ground arith

worker_count-small : (n : ℕ) → 1 ≤ n → n < 4611686018427387904 → worker_count n ≡ n
unfolding worker_count int64_leb
worker_count-small n some few = ground (arith, some, few)

pub append_nil : {A : Type 0} (xs : List A) → xs ++ [] ≡ xs
append_nil [] = refl
append_nil (x ∷ xs) = ap (λ l. x ∷ l) (append_nil xs)

module _ {F : Type 0} where
  pub record Accounts (p : BatchPublisher F) : Type 0 where
    pub bounded : length p.queue ≤ p.capacity
    pub limited : p.busy ≤ p.live
    pub staffed : p.live ≤ p.workers
    pub some_worker : 1 ≤ p.workers
    pub in_order : p.submitted ≡ p.taken ++ p.queue
    pub counted : length p.taken ≡ p.busy + p.finished
    pub drained : (p.live ≡ p.workers) ⊎ ((p.closed ≡ true) × (p.queue ≡ []))

  Step-Accounts : {p q : BatchPublisher F} → Step p q → Accounts p → Accounts q
  Step-Accounts (submit p gs cs o n room) a = record {
    bounded = omega (arith, length-append p.queue (build_batch gs cs ∷ []), room);
    limited = a.limited;
    staffed = a.staffed;
    some_worker = a.some_worker;
    in_order = rw a.in_order (append_assoc p.taken p.queue (build_batch gs cs ∷ []));
    counted = a.counted;
    drained = elim a.drained [ inl l ↦ inl l | inr (c, e) ↦ absurd (cc (c, o)) ];
  }
  Step-Accounts (receive p batch rest idle e) a = record {
    bounded = let b = rw e at a.bounded in omega (arith, b);
    limited = omega (arith, idle);
    staffed = a.staffed;
    some_worker = a.some_worker;
    in_order = a.in_order ∙ rw e (append_cons p.taken rest batch);
    counted = omega (arith, length-append p.taken (batch ∷ []), a.counted);
    drained = elim a.drained [ inl l ↦ inl l | inr (c, n) ↦ absurd (cc (n, e)) ];
  }
  Step-Accounts (finish p n e) a = record {
    bounded = a.bounded;
    limited = omega (arith, a.limited, e);
    staffed = a.staffed;
    some_worker = a.some_worker;
    in_order = a.in_order;
    counted = omega (arith, a.counted, e);
    drained = a.drained;
  }
  Step-Accounts (close p o) a = record {
    bounded = a.bounded;
    limited = a.limited;
    staffed = a.staffed;
    some_worker = a.some_worker;
    in_order = a.in_order;
    counted = a.counted;
    drained = elim a.drained [ inl l ↦ inl l | inr (c, n) ↦ inr (refl, n) ];
  }
  Step-Accounts (leave p n c e idle l) a = record {
    bounded = a.bounded;
    limited = omega (arith, idle, l);
    staffed = omega (arith, a.staffed, l);
    some_worker = a.some_worker;
    in_order = a.in_order;
    counted = a.counted;
    drained = inr (c, e);
  }

  start-Accounts : (n : ℕ) → Accounts (start {F = F} n)
  unfolding start
  start-Accounts n = record {
    bounded = omega arith;
    limited = omega arith;
    staffed = omega arith;
    some_worker = worker_count_bounds n;
    in_order = refl;
    counted = refl;
    drained = inl refl;
  }

  Reach-Accounts : {s p : BatchPublisher F} → Accounts s → Reach s p → Accounts p
  Reach-Accounts a here = a
  Reach-Accounts a (next r st) = Step-Accounts st (Reach-Accounts a r)

  -- what holds of the batches and of the workers after Start
  pub start-Reach-Accounts : (n : ℕ) (p : BatchPublisher F) → Reach (start n) p → Accounts p
  start-Reach-Accounts n p r = Reach-Accounts (start-Accounts n) r

  -- When the wait in Stop is over, that is when no worker is left, every batch ever submitted has been
  -- taken, in the order of the reports, and worked off.
  pub stopped_lem :
      (n : ℕ) (p : BatchPublisher F)
      → Reach (start n) p
      → p.live ≡ 0
      → (p.taken ≡ p.submitted) × (p.finished ≡ length p.submitted) × (p.queue ≡ [])
  stopped_lem n p r gone =
      let a = start-Reach-Accounts n p r in
      elim a.drained [
        | inl full ↦ absurd (omega (arith, full, gone, a.some_worker))
        | inr (c, e) ↦
            let all : p.submitted ≡ p.taken = a.in_order ∙ rw e (append_nil p.taken) in
            (sym all, rw all (omega (arith, a.counted, a.limited, gone)), e)
      ]

  -- the size of the pool and of the channel stay
  Step-sizes :
      {p q : BatchPublisher F} → Step p q → (q.workers ≡ p.workers) × (q.capacity ≡ p.capacity)
  Step-sizes (submit p gs cs o n room) = (refl, refl)
  Step-sizes (receive p batch rest idle e) = (refl, refl)
  Step-sizes (finish p n e) = (refl, refl)
  Step-sizes (close p o) = (refl, refl)
  Step-sizes (leave p n c e idle l) = (refl, refl)

  Reach-sizes :
      {s p : BatchPublisher F} → Reach s p → (p.workers ≡ s.workers) × (p.capacity ≡ s.capacity)
  Reach-sizes here = (refl, refl)
  Reach-sizes (next r st) =
      let (w, c) = Reach-sizes r in let (v, d) = Step-sizes st in (v ∙ w, d ∙ c)

  start-sizes :
      (n : ℕ) (p : BatchPublisher F)
      → 1 ≤ n
      → n < 4611686018427387904
      → Reach (start n) p
      → (p.workers ≡ n) × (p.capacity ≡ n * 2)
  unfolding start
  start-sizes n p some few r =
      let (w, c) = Reach-sizes r in
      (w ∙ worker_count-small n some few, c ∙ ap (λ k. k * 2) (worker_count-small n some few))

  -- With a rate limit n of at least 1 and less than 2 ^ 62, at any time after NewBatchPublisher and
  -- Start, whatever reports, workers and Stop do and in whatever order: at most n batches are being
  -- sent, at most 2 n wait in the channel, and at most 3 n of all batches submitted are not worked off.
  -- The batches submitted are those that workers took, in this order, and those that wait.
  pub start-Reach-limited :
      (n : ℕ) (p : BatchPublisher F)
      → 1 ≤ n
      → n < 4611686018427387904
      → Reach (start n) p
      → (p.busy ≤ n)
        × (length p.queue ≤ n * 2)
        × (length p.submitted ≤ p.finished + n * 3)
        × (p.submitted ≡ p.taken ++ p.queue)
  start-Reach-limited n p some few r =
      let a = start-Reach-Accounts n p r in
      let (w, c) = start-sizes n p some few r in
      let busy : p.busy ≤ n = omega (arith, a.limited, a.staffed, w) in
      let waiting : length p.queue ≤ n * 2 = omega (arith, a.bounded, c) in
      let all : length p.submitted ≡ length p.taken + length p.queue =
        rw a.in_order (length-append p.taken p.queue) in
      (busy, waiting, omega (arith, busy, waiting, all, a.counted), a.in_order)
