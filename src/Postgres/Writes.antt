-- ===== src/Postgres/Writes.antt =====
-- Writes through the retry loop happen once or not at all, on a database as IsDatabase says.
use golectra.Retry.Laws.{retry-inv}
use golectra.Domain.{counter, gauge, Result-cases, ◌>>◌, Exec, err, ok, Metrics, Result, Error}
use golectra.Base.{
  Option-cases, inr, sym, ◌==◌, inl, Bool-cases, none, some, ap, ◌∙◌, refl, [], ◌∷◌, ◌≡◌, ℕ, String,
  List,
}
use golectra.Retry.{default_backoff, Timer}
use golectra.Postgres.{
  statement_for, tx_item, tx_items, attempt_batch, is_retryable_pg, counter_statement, with_retry,
  gauge_statement, transaction, update_many, add_counter, set_gauge, Table, IsDatabase, ErrorClass,
  Driver,
}

module _ {W F : Type 0} (db : Driver W F) (timer : Timer W) (codes : List String)
    (classify : Error → ErrorClass) (no_rows : Error) (rely : IsDatabase db timer) where
  -- After the call: done once, or failed and not done.
  abbrev pub Once : (Table F → Table F) → W → Result (Unit {0}) × W → Type 0
  Once f w r =
      (r.0 ≡ ok tt → db.table r.1 ≡ f (db.table w))
      × ((e : Error) → r.0 ≡ err e → db.table r.1 ≡ db.table w)

  -- an operation that does `f` or fails and leaves the table, under the retry loop
  retry-Once_op :
      (op : Exec W (Unit {0})) (f : Table F → Table F) (w : W)
      → ((w' : W) → (op w').0 ≡ ok tt → db.table (op w').1 ≡ f (db.table w'))
      → ((w' : W) (e : Error) → (op w').0 ≡ err e → db.table (op w').1 ≡ db.table w')
      → Once f w (with_retry db timer codes classify no_rows op w)
  retry-Once_op op f w done failed =
      retry-inv timer (is_retryable_pg codes classify) op (λ w'. db.table w' ≡ db.table w)
        (Once f w) (λ w' a p e. (λ _. done w' e ∙ ap f p, λ e' h. absurd (cc h)))
        (λ w' e p h. failed w' e h ∙ p) (λ w' d p. rely.table-select d w' ∙ p)
        (λ w' e p. ((λ h. absurd (cc h)), (λ e' h. p))) default_backoff w refl

  retry-Once :
      (f : Table F → Table F) (w : W)
      → Once f w (with_retry db timer codes classify no_rows (db.execute f) w)
  retry-Once f w = retry-Once_op (db.execute f) f w (rely.execute_done f) (rely.execute_failed f)

  -- There, however many attempts fail, SetGauge that returns no error has written its row once, and one
  -- that returns an error has left the table as it was.
  pub set_gauge-Once :
      (n : String) (v : F) (w : W)
      → Once (gauge_statement n v) w (set_gauge db timer codes classify no_rows n v w)
  unfolding set_gauge
  set_gauge-Once n v w = retry-Once (gauge_statement n v) w

  -- There, however many attempts fail, AddCounter that returns no error has added its delta once, and one
  -- that returns an error has left the table as it was.
  pub add_counter-Once :
      (n : String) (d : ℕ) (w : W)
      → Once (counter_statement n d) w (add_counter db timer codes classify no_rows n d w)
  unfolding add_counter
  add_counter-Once n d w = retry-Once (counter_statement n d) w

  -- what the transaction has done so far: the table as it was, and, without an error, its own copy
  abbrev Written : (Table F → Table F) → Table F → W → Result (Unit {0}) × W → Type 0
  Written f t w r = (db.table r.1 ≡ db.table w) × (r.0 ≡ ok tt → db.pending r.1 ≡ some (f t))

  statement-Written :
      (f : Table F → Table F) (t : Table F) (w : W)
      → db.pending w ≡ some t
      → Written f t w (db.tx_execute f w)
  statement-Written f t w p = (rely.table-tx_execute f w, rely.tx_execute_done f w t p)

  tx_item-Written :
      (it : Metrics F) (t : Table F) (w : W)
      → db.pending w ≡ some t
      → Written (statement_for it) t w (tx_item db timer codes classify no_rows it w)
  unfolding tx_item statement_for
  tx_item-Written it t w p = elim (Bool-cases (it.mtype == gauge)) [
    | inl g ↦ elim (Option-cases it.value) [
      | inl e ↦ rw (g, e) (refl, λ h. p)
      | inr (v, e) ↦ rw (g, e) (statement-Written (gauge_statement it.id v) t w p)
    ]
    | inr ng ↦ elim (Bool-cases (it.mtype == counter)) [
      | inl c ↦ elim (Option-cases it.delta) [
        | inl e ↦ rw (ng, c, e) (refl, λ h. p)
        | inr (d, e) ↦ rw (ng, c, e) (statement-Written (counter_statement it.id d) t w p)
      ]
      | inr nc ↦ rw (ng, nc) (refl, λ h. p)
    ]
  ]

  tx_items-Written :
      (items : List (Metrics F)) (t : Table F) (w : W)
      → db.pending w ≡ some t
      → Written (transaction items) t w (tx_items db timer codes classify no_rows items w)
  unfolding tx_items transaction
  tx_items-Written [] t w p = (refl, λ h. p)
  tx_items-Written (it ∷ items) t w p =
      let (same, grown) = tx_item-Written it t w p in
      elim (Result-cases (tx_item db timer codes classify no_rows it w).0) [
        | inl (u, e) ↦
            let (kept, rest) =
              tx_items-Written items (statement_for it t)
                (tx_item db timer codes classify no_rows it w).1 (grown e) in
            rw e (kept ∙ same, rest)
        | inr (x, e) ↦ rw e (same, λ h. absurd (cc h))
      ]

  -- the loop and Commit
  committed-Once :
      (items : List (Metrics F)) (w : W)
      → db.pending w ≡ some (db.table w)
      → Once (transaction items) w ((tx_items db timer codes classify no_rows items >> db.commit) w)
  committed-Once items w p =
      let (same, grown) = tx_items-Written items (db.table w) w p in
      let w1 = (tx_items db timer codes classify no_rows items w).1 in
      elim (Result-cases (tx_items db timer codes classify no_rows items w).0) [
        | inl (u, e) ↦ rw e (
          rely.commit_done w1 (transaction items (db.table w)) (grown e),
          λ x h. rely.commit_failed w1 x h ∙ same,
        )
        | inr (x, e) ↦ rw e ((λ h. absurd (cc h)), λ y h. same)
      ]

  attempt_batch-Once :
      (items : List (Metrics F)) (w : W)
      → Once (transaction items) w (attempt_batch db timer codes classify no_rows items w)
  unfolding attempt_batch
  attempt_batch-Once items w =
      let same = rely.table-begin_tx w in
      let w1 = (db.begin_tx w).1 in
      elim (Result-cases (db.begin_tx w).0) [
        | inl (u, e) ↦
            let (done, failed) =
              committed-Once items w1 (rely.begin_done w e ∙ ap (λ t. some t) (sym same)) in
            rw e (
              (λ h. rely.table-rollback _ ∙ done h ∙ ap (transaction items) same),
              λ x h. rely.table-rollback _ ∙ failed x h ∙ same,
            )
        | inr (x, e) ↦ rw e ((λ h. absurd (cc h)), λ y h. same)
      ]

  attempt_batch-closes :
      (items : List (Metrics F)) (w : W)
      → db.pending w ≡ none
      → db.pending (attempt_batch db timer codes classify no_rows items w).1 ≡ none
  unfolding attempt_batch
  attempt_batch-closes items w p = elim (Result-cases (db.begin_tx w).0) [
    | inl (u, e) ↦ rw e (rely.pending-rollback _)
    | inr (x, e) ↦ rw e (rely.begin_failed w x e ∙ p)
  ]

  pub update_many-Once :
      (items : List (Metrics F)) (w : W)
      → Once (transaction items) w (update_many db timer codes classify no_rows items w)
  unfolding update_many transaction
  update_many-Once [] w = ((λ h. refl), (λ e h. refl))
  update_many-Once (it ∷ items) w =
      retry-Once_op (attempt_batch db timer codes classify no_rows (it ∷ items))
        (transaction (it ∷ items)) w (λ w' h. (attempt_batch-Once (it ∷ items) w').0 h)
        (λ w' e h. (attempt_batch-Once (it ∷ items) w').1 e h)

  -- However many of its attempts fail, at BeginTx, at any item or at Commit: UpdateMany that returns no
  -- error has applied the whole batch once, in its order, and one that returns an error has applied
  -- nothing of it, and no transaction is left open. No transaction was open before, a transaction works
  -- on its own copy of the table until Commit, and a Commit that answers an error has changed nothing.
  pub update_many-Atomic :
      (items : List (Metrics F)) (w : W)
      → db.pending w ≡ none
      → let r = update_many db timer codes classify no_rows items w in
        Once (transaction items) w r × (db.pending r.1 ≡ none)
  unfolding update_many
  update_many-Atomic [] w p = (update_many-Once [] w, p)
  update_many-Atomic (it ∷ items) w p = (
    update_many-Once (it ∷ items) w,
    retry-inv timer (is_retryable_pg codes classify)
        (attempt_batch db timer codes classify no_rows (it ∷ items)) (λ w'. db.pending w' ≡ none)
        (λ r. db.pending r.1 ≡ none) (λ w' a q e. attempt_batch-closes (it ∷ items) w' q)
        (λ w' e q h. attempt_batch-closes (it ∷ items) w' q)
        (λ w' d q. rely.pending-select d w' ∙ q) (λ w' e q. q) default_backoff w p,
  )
