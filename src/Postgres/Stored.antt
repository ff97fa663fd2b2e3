-- ===== src/Postgres/Stored.antt =====
-- The Postgres repository as an implementation of the port, on worlds whose table it has written.
use golectra.Base.{eq_iff, refl, arith, ◌∙◌, ap, sym, ℕ, ◌≢◌, subst, ◌≡◌, List, String}
use golectra.Postgres.{
  Driver, IsDatabase, HasPlainErrors, ErrorClass, Table, Timer, is_retryable_pg, get_gauge,
  get_counter, set_gauge, add_counter, update_many, snapshot, ping, gauge_statement,
  counter_statement, transaction,
}
use golectra.Postgres.View.{
  table_view, IsTyped, gauge_statement-IsTyped, counter_statement-IsTyped, transaction-IsTyped,
  gauge_statement_lem, counter_statement_lem,
}
use golectra.Postgres.Rows.{snapshot_lem}
use golectra.Postgres.Writes.{Once, set_gauge-Once, add_counter-Once, update_many-Once}
use golectra.Postgres.Reads.{get_gauge_reads}
use golectra.Postgres.Missing.{get_counter_keeps}
use golectra.Retry.{default_backoff}
use golectra.Retry.Laws.{retry-inv}
use golectra.Domain.{Error, Result, ok, err, Exec, Metrics}
use golectra.Ports.{View, SameAt, IfErr, MetricsRepo}

pub same_view :
    {F : Type 0} (t u : Table F) (k : String) → u ≡ t → SameAt k (table_view t) (table_view u)
same_view t u k e = record {
  gauge_same = ap (λ x. (table_view x).gauge_at k) e;
  counter_same = ap (λ x. (table_view x).counter_at k) e;
}

module _ {W F : Type 0} (db : Driver W F) (timer : Timer W) (codes : List String)
    (classify : Error → ErrorClass) (no_rows : Error) (rely : IsDatabase db timer)
    (plain : HasPlainErrors db timer classify) where
  -- A world whose table was written by the statements of the repository.
  abbrev pub Stored : Type 0
  Stored = (w : W) × IsTyped (db.table w)

  abbrev pub lifted :
      {A : Type 0} (op : Exec W A)
      → ((w : W) → IsTyped (db.table w) → IsTyped (db.table (op w).1))
      → Exec Stored A
  lifted op keeps (w, h) = ((op w).0, ((op w).1, keeps w h))

  pub kept-IsTyped :
      {A : Type 0} (op : Exec W A)
      → ((w : W) → db.table (op w).1 ≡ db.table w)
      → (w : W) → IsTyped (db.table w)
      → IsTyped (db.table (op w).1)
  kept-IsTyped op same w h = subst IsTyped (sym (same w)) h

  -- A method that leaves the table.
  abbrev pub reading :
      {A : Type 0} (op : Exec W A) → ((w : W) → db.table (op w).1 ≡ db.table w) → Exec Stored A
  reading op same = lifted op (kept-IsTyped op same)

  -- What a call that writes once or not at all leaves in the table, error or not.
  Once-IsTyped :
      (f : Table F → Table F) (w : W) (r : Result (Unit {0}) × W)
      → Once db timer codes classify no_rows rely f w r
      → IsTyped (f (db.table w))
      → IsTyped (db.table w)
      → IsTyped (db.table r.1)
  Once-IsTyped f w (ok u, w') o written old = subst IsTyped (sym (o.0 refl)) written
  Once-IsTyped f w (err e, w') o written old = subst IsTyped (sym (o.1 e refl)) old

  pub Once-ne :
      (f : Table F → Table F) (w : W) (r : Result (Unit {0}) × W) (j : String)
      → Once db timer codes classify no_rows rely f w r
      → SameAt j (table_view (db.table w)) (table_view (f (db.table w)))
      → SameAt j (table_view (db.table w)) (table_view (db.table r.1))
  Once-ne f w (ok u, w') j o same =
      subst (λ t. SameAt j (table_view (db.table w)) (table_view t)) (sym (o.0 refl)) same
  Once-ne f w (err e, w') j o same = same_view (db.table w) (db.table w') j (o.1 e refl)

  pub Once-err :
      (f : Table F → Table F) (w : W) (r : Result (Unit {0}) × W) (j : String)
      → Once db timer codes classify no_rows rely f w r
      → IfErr r.0 (SameAt j (table_view (db.table w)) (table_view (db.table r.1)))
  Once-err f w (ok u, w') j o = tt
  Once-err f w (err e, w') j o = same_view (db.table w) (db.table w') j (o.1 e refl)

  pub gauge_statement_ne :
      (k j : String) (v : F) (t : Table F)
      → k ≢ j
      → SameAt j (table_view t) (table_view (gauge_statement k v t))
  gauge_statement_ne k j v t n =
      let (g, c) = gauge_statement_lem k j v t in
      record {
        gauge_same = ground (arith, g, n, eq_iff k j);
        counter_same = ground (arith, c, n, eq_iff k j);
      }

  pub counter_statement_ne :
      (k j : String) (d : ℕ) (t : Table F)
      → IsTyped t
      → k ≢ j
      → SameAt j (table_view t) (table_view (counter_statement k d t))
  counter_statement_ne k j d t h n =
      let (g, c) = counter_statement_lem k j d t h in
      record {
        gauge_same = ground (arith, g, n, eq_iff k j);
        counter_same = ground (arith, c, n, eq_iff k j);
      }

  pub set_gauge-IsTyped :
      (k : String) (v : F) (w : W)
      → IsTyped (db.table w)
      → IsTyped (db.table (set_gauge db timer codes classify no_rows k v w).1)
  set_gauge-IsTyped k v w h =
      Once-IsTyped (gauge_statement k v) w (set_gauge db timer codes classify no_rows k v w)
        (set_gauge-Once db timer codes classify no_rows rely k v w)
        (gauge_statement-IsTyped k v (db.table w) h) h

  pub add_counter-IsTyped :
      (k : String) (d : ℕ) (w : W)
      → IsTyped (db.table w)
      → IsTyped (db.table (add_counter db timer codes classify no_rows k d w).1)
  add_counter-IsTyped k d w h =
      Once-IsTyped (counter_statement k d) w (add_counter db timer codes classify no_rows k d w)
        (add_counter-Once db timer codes classify no_rows rely k d w)
        (counter_statement-IsTyped k d (db.table w) h) h

  pub update_many-IsTyped :
      (items : List (Metrics F)) (w : W)
      → IsTyped (db.table w)
      → IsTyped (db.table (update_many db timer codes classify no_rows items w).1)
  update_many-IsTyped items w h =
      Once-IsTyped (transaction items) w (update_many db timer codes classify no_rows items w)
        (update_many-Once db timer codes classify no_rows rely items w)
        (transaction-IsTyped items (db.table w) h) h

  pub get_gauge_same :
      (k : String) (w : W) → db.table (get_gauge db timer codes classify no_rows k w).1 ≡ db.table w
  get_gauge_same k w = (get_gauge_reads db timer codes classify no_rows rely k w).0

  pub get_counter_same :
      (k : String) (w : W)
      → db.table (get_counter db timer codes classify no_rows k w).1 ≡ db.table w
  get_counter_same k w = get_counter_keeps db timer codes classify no_rows rely k w

  pub snapshot_same : (w : W) → db.table (snapshot db timer codes classify no_rows w).1 ≡ db.table w
  snapshot_same w = (snapshot_lem db timer codes classify no_rows rely w).0

  pub ping_same : (w : W) → db.table (ping db timer codes classify no_rows w).1 ≡ db.table w
  unfolding ping
  ping_same w =
      retry-inv timer (is_retryable_pg codes classify) db.ping (λ w'. db.table w' ≡ db.table w)
        (λ r. db.table r.1 ≡ db.table w) (λ w' a p e. rely.table-ping w' ∙ p)
        (λ w' e p h. rely.table-ping w' ∙ p) (λ w' d p. rely.table-select d w' ∙ p) (λ w' e p. p)
        default_backoff w refl

  -- The methods of the repository on stored worlds.
  abbrev pub postgres_repo : MetricsRepo F
  postgres_repo = record {
    State = Stored;
    get_gauge = λ k. reading (get_gauge db timer codes classify no_rows k) (get_gauge_same k);
    get_counter = λ k. reading (get_counter db timer codes classify no_rows k) (get_counter_same k);
    set_gauge =
        λ k v. lifted (set_gauge db timer codes classify no_rows k v) (set_gauge-IsTyped k v);
    add_counter =
        λ k d. lifted (add_counter db timer codes classify no_rows k d) (add_counter-IsTyped k d);
    update_many = λ items.
        lifted (update_many db timer codes classify no_rows items) (update_many-IsTyped items);
    snapshot = reading (snapshot db timer codes classify no_rows) (snapshot_same);
    ping = reading (ping db timer codes classify no_rows) (ping_same);
  }

  abbrev pub stored_view : Stored → View F
  stored_view (w, h) = table_view (db.table w)
