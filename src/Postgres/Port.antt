-- ===== src/Postgres/Port.antt =====
-- The Postgres repository against the contract of the port.
use golectra.Ports.Batch.{last_or, count_or_zero, counted, writes, deltas}
use golectra.Base.{refl, eq_refl, ◌∙◌, ap, add_int64, [], some, ℕ, ◌≢◌, ◌≡◌, String, List}
use golectra.Postgres.Stored.{
  Stored, stored_view, postgres_repo, Once-ne, Once-err, gauge_statement_ne, counter_statement_ne,
  same_view, get_gauge_same, get_counter_same, snapshot_same,
}
use golectra.Postgres.{
  Driver, IsDatabase, HasPlainErrors, ErrorClass, set_gauge, add_counter, update_many,
  gauge_statement, counter_statement, transaction,
}
use golectra.Postgres.View.{
  table_view, gauge_statement_lem, counter_statement_lem, transaction-gauge, transaction-counter,
}
use golectra.Postgres.Rows.{snapshot_lem}
use golectra.Postgres.Writes.{set_gauge-Once, add_counter-Once, update_many-Once}
use golectra.Postgres.Missing.{get_gauge-Reads, get_counter-Reads}
use golectra.Domain.{Error, ok, Metrics}
use golectra.Ports.{View, MetricsRepo, SameAt, IfErr, Contract}
use golectra.Retry.{Timer}

module _ {W F : Type 0} (db : Driver W F) (timer : Timer W) (codes : List String)
    (classify : Error → ErrorClass) (no_rows : Error) (rely : IsDatabase db timer)
    (plain : HasPlainErrors db timer classify) where
  abbrev pub pg : MetricsRepo F
  pg = postgres_repo db timer codes classify no_rows rely plain

  abbrev pub view : Stored db timer codes classify no_rows rely plain → View F
  view = stored_view db timer codes classify no_rows rely plain

  pub set_gauge-ok :
      (k : String) (v : F) (s : pg.State)
      → (pg.set_gauge k v s).0 ≡ ok tt
      → (view (pg.set_gauge k v s).1).gauge_at k ≡ some v
  set_gauge-ok k v (w, h) done =
      ap (λ t. (table_view t).gauge_at k)
        ((set_gauge-Once db timer codes classify no_rows rely k v w).0 done)
      ∙ (gauge_statement_lem k k v (db.table w)).0
      ∙ rw (eq_refl k) refl

  pub set_gauge_ne :
      (k j : String) (v : F) (s : pg.State)
      → k ≢ j
      → SameAt j (view s) (view (pg.set_gauge k v s).1)
  set_gauge_ne k j v (w, h) n =
      Once-ne db timer codes classify no_rows rely plain (gauge_statement k v) w
        (set_gauge db timer codes classify no_rows k v w) j
        (set_gauge-Once db timer codes classify no_rows rely k v w)
        (gauge_statement_ne db timer codes classify no_rows rely plain k j v (db.table w) n)

  pub set_gauge-err :
      (k j : String) (v : F) (s : pg.State)
      → IfErr (pg.set_gauge k v s).0 (SameAt j (view s) (view (pg.set_gauge k v s).1))
  set_gauge-err k j v (w, h) =
      Once-err db timer codes classify no_rows rely plain (gauge_statement k v) w
        (set_gauge db timer codes classify no_rows k v w) j
        (set_gauge-Once db timer codes classify no_rows rely k v w)

  pub add_counter-ok :
      (k : String) (d : ℕ) (s : pg.State)
      → (pg.add_counter k d s).0 ≡ ok tt
      → (view (pg.add_counter k d s).1).counter_at k
        ≡ some (add_int64 (count_or_zero ((view s).counter_at k)) d)
  add_counter-ok k d (w, h) done =
      ap (λ t. (table_view t).counter_at k)
        ((add_counter-Once db timer codes classify no_rows rely k d w).0 done)
      ∙ (counter_statement_lem k k d (db.table w) h).1
      ∙ rw (eq_refl k) refl

  pub add_counter_ne :
      (k j : String) (d : ℕ) (s : pg.State)
      → k ≢ j
      → SameAt j (view s) (view (pg.add_counter k d s).1)
  add_counter_ne k j d (w, h) n =
      Once-ne db timer codes classify no_rows rely plain (counter_statement k d) w
        (add_counter db timer codes classify no_rows k d w) j
        (add_counter-Once db timer codes classify no_rows rely k d w)
        (counter_statement_ne db timer codes classify no_rows rely plain k j d (db.table w) h n)

  pub add_counter-err :
      (k j : String) (d : ℕ) (s : pg.State)
      → IfErr (pg.add_counter k d s).0 (SameAt j (view s) (view (pg.add_counter k d s).1))
  add_counter-err k j d (w, h) =
      Once-err db timer codes classify no_rows rely plain (counter_statement k d) w
        (add_counter db timer codes classify no_rows k d w) j
        (add_counter-Once db timer codes classify no_rows rely k d w)

  pub update_many-gauges :
      (items : List (Metrics F)) (k : String) (s : pg.State)
      → (pg.update_many items s).0 ≡ ok tt
      → deltas k items ≡ []
      → (view (pg.update_many items s).1).gauge_at k
        ≡ last_or ((view s).gauge_at k) (writes k items)
  update_many-gauges items k (w, h) done none_counted =
      ap (λ t. (table_view t).gauge_at k)
        ((update_many-Once db timer codes classify no_rows rely items w).0 done)
      ∙ transaction-gauge items k (db.table w) none_counted

  pub update_many-counters :
      (items : List (Metrics F)) (k : String) (s : pg.State)
      → (pg.update_many items s).0 ≡ ok tt
      → writes k items ≡ []
      → (view (pg.update_many items s).1).counter_at k
        ≡ counted ((view s).counter_at k) (deltas k items)
  update_many-counters items k (w, h) done none_written =
      ap (λ t. (table_view t).counter_at k)
        ((update_many-Once db timer codes classify no_rows rely items w).0 done)
      ∙ transaction-counter items k (db.table w) h none_written

  pub update_many-err :
      (items : List (Metrics F)) (k : String) (s : pg.State)
      → IfErr (pg.update_many items s).0 (SameAt k (view s) (view (pg.update_many items s).1))
  update_many-err items k (w, h) =
      Once-err db timer codes classify no_rows rely plain (transaction items) w
        (update_many db timer codes classify no_rows items w) k
        (update_many-Once db timer codes classify no_rows rely items w)

  abbrev pub postgres_contract : Contract pg
  postgres_contract = record {
    view = view;
    Valid = λ s. Unit;
    get_gauge-Valid = λ k s v. tt;
    get_counter-Valid = λ k s v. tt;
    set_gauge-Valid = λ k x s v. tt;
    add_counter-Valid = λ k d s v. tt;
    update_many-Valid = λ items s v. tt;
    snapshot-Valid = λ s v. tt;
    get_gauge-Reads = λ k s. get_gauge-Reads db timer codes classify no_rows rely plain k s.0;
    get_gauge_keeps = λ k j s.
        same_view (db.table s.0) (db.table (pg.get_gauge k s).1.0) j
          (get_gauge_same db timer codes classify no_rows rely plain k s.0);
    get_counter-Reads = λ k s. get_counter-Reads db timer codes classify no_rows rely plain k s.0;
    get_counter_keeps = λ k j s.
        same_view (db.table s.0) (db.table (pg.get_counter k s).1.0) j
          (get_counter_same db timer codes classify no_rows rely plain k s.0);
    set_gauge-ok = set_gauge-ok;
    set_gauge_ne = set_gauge_ne;
    set_gauge-err = set_gauge-err;
    add_counter-ok = add_counter-ok;
    add_counter_ne = add_counter_ne;
    add_counter-err = add_counter-err;
    update_many-gauges = update_many-gauges;
    update_many-counters = update_many-counters;
    update_many-err = update_many-err;
    snapshot-ok = λ k s sn v h. (snapshot_lem db timer codes classify no_rows rely s.0).1 sn h k;
    snapshot_keeps = λ j s.
        same_view (db.table s.0) (db.table (pg.snapshot s).1.0) j
          (snapshot_same db timer codes classify no_rows rely plain s.0);
  }

  -- The Postgres repository meets the contract of ports.MetricsRepo, where an id is a gauge or a
  -- counter by the type of its row. The database does a statement outside of a transaction that it
  -- answers ok, and leaves the table alone when it answers an error; a transaction works on its own copy
  -- of the table, which a Commit that is answered ok puts in place and one that is answered with an
  -- error does not; rows are read to their end, and no error of the database passes for ErrNoRows. When
  -- and how often statements, BeginTx and Commit fail is free.
  pub postgres_meets_contract :
      (c : Contract (postgres_repo db timer codes classify no_rows rely plain)) × (c.view
        ≡ stored_view db timer codes classify no_rows rely plain)
  postgres_meets_contract = (postgres_contract, refl)
