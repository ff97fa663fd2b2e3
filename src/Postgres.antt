-- ===== src/Postgres.antt =====
-- internal/adapters/repository/postgres/postgres.go: the repository on a Postgres table. The database
-- engine and its driver are outside; a statement means on the table what its SQL says, and may fail.
pub mod Writes
pub mod Reads
pub mod View
pub mod Missing
pub mod Stored
pub mod Port
pub mod Rows
mod Tests
use text.Mathlib.Text.{starts_with}
use golectra.Domain.{◌>>◌, Snapshot, raise, ◌>>=◌}
use golectra.Retry.{default_backoff, retry, Timer}
use golectra.Ports.Batch.{count_or_zero}
use golectra.Ports.{IfErr}
use golectra.Base.Maps
use golectra.Base.Maps.{Visits, GoMap}
use golectra.Base.{
  ◌≢◌, map, ◌||◌, [], ◌==◌, false, true, ◌∷◌, Bool, List, if◌then◌else◌, add_int64, none, some, ◌≡◌,
  ℕ, Option, String,
}
use golectra.Domain.{not_found, pure, err, Error, Metrics, ok, gauge, counter, Exec, Result}

-- A row of `metrics`, without its time stamp: the primary key `id` is the key of the table.
pub record Row (F : Type 0) : Type 0 where
  pub mtype : String
  pub value : Option F
  pub delta : Option ℕ

abbrev pub Table : Type 0 → Type 0
Table F = GoMap (Row F)

abbrev pub row_delta : {F : Type 0} → Option (Row F) → Option ℕ
row_delta none = none
row_delta (some r) = r.delta

module _ {F : Type 0} where
  -- INSERT … VALUES ($1, 'gauge', v, NULL) ON CONFLICT (id) DO UPDATE SET mtype, value, delta=NULL
  unfoldable pub gauge_statement : String → F → Table F → Table F
  gauge_statement n v t = Maps.put t n (record { mtype = gauge; value = some v; delta = none })

  -- INSERT … VALUES ($1, 'counter', NULL, d) ON CONFLICT (id) DO UPDATE SET mtype, value=NULL,
  -- delta=COALESCE(metrics.delta,0)+EXCLUDED.delta
  unfoldable pub counter_statement : String → ℕ → Table F → Table F
  counter_statement n d t = Maps.put t n (record {
    mtype = counter;
    value = none;
    delta = some (add_int64 (count_or_zero (row_delta (Maps.get t n))) d);
  })

  -- what one metric of UpdateMany means for the table
  unfoldable pub statement_for : Metrics F → Table F → Table F
  unfolding gauge_statement counter_statement
  statement_for it t =
      if it.mtype == gauge
      then elim it.value [ none ↦ t | some v ↦ gauge_statement it.id v t ]
      else if it.mtype == counter
      then elim it.delta [ none ↦ t | some d ↦ counter_statement it.id d t ]
      else t

  -- what a transaction of UpdateMany means for the table
  unfoldable pub transaction : List (Metrics F) → Table F → Table F
  transaction [] t = t
  transaction (it ∷ items) t = transaction items (statement_for it t)

  -- SELECT … WHERE id=$1 AND mtype=$2
  unfoldable pub where_id : String → String → Table F → Option (Row F)
  where_id n ty t = elim (Maps.get t n) [
    | none ↦ none
    | some r ↦ if r.mtype == ty then some r else none
  ]

  -- the switch of Snapshot on a row, into the maps `g` and `c`
  unfoldable pub collect_row : String → Row F → Snapshot F → Snapshot F
  collect_row id row sn =
      if row.mtype == gauge
      then elim row.value [ none ↦ sn | some v ↦ record sn { gauges = Maps.put sn.gauges id v } ]
      else if row.mtype == counter
      then elim row.delta [
        | none ↦ sn
        | some d ↦ record sn { counters = Maps.put sn.counters id d }
      ]
      else sn

  -- `for rows.Next()`: a row that cannot be scanned is skipped, and rows.Err is not asked.
  unfoldable pub collect : List (Option (String × Row F)) → Snapshot F → Snapshot F
  unfolding collect_row
  collect [] sn = sn
  collect (none ∷ rest) sn = collect rest sn
  collect (some (id, row) ∷ rest) sn = collect rest (collect_row id row sn)

  abbrev pub no_metrics : Snapshot F
  no_metrics = record { gauges = Maps.empty; counters = Maps.empty }

-- The driver over a world `W`. `query_rows` is QueryContext of the whole table, with the rows that
-- rows.Next goes through; `none` is one that Scan refuses. `rows` hands over the table that a query runs
-- on; `execute` is ExecContext outside of a transaction. `pending` is the table as the open transaction
-- sees it, none if no transaction is open; Rollback answers nothing that the code reads.
pub record Driver (W F : Type 0) : Type 0 where
  pub table : W → Table F
  pub pending : W → Option (Table F)
  pub rows : Exec W (Table F)
  pub execute : (Table F → Table F) → Exec W (Unit {0})
  pub begin_tx : Exec W (Unit {0})
  pub tx_execute : (Table F → Table F) → Exec W (Unit {0})
  pub commit : Exec W (Unit {0})
  pub rollback : W → W
  pub ping : Exec W (Unit {0})
  pub query_rows : Exec W (List (Option (String × Row F)))

-- What the code relies on: a query sees the table and changes nothing, and the rows of the whole
-- table are read to their end; a statement is done, or has
-- failed and changed nothing, as when a sum leaves the range of bigint; a transaction works on its own
-- copy of the table, which Commit puts in place, or fails to; Rollback ends a transaction and changes
-- nothing in the table, also after Commit; waiting between attempts
-- changes nothing. A connection that breaks after a commit and before its answer is not such a
-- database, nor is one that other clients write to.
pub record IsDatabase {W F : Type 0} (db : Driver W F) (timer : Timer W) : Type 0 where
  pub rows-table : (w : W) (t : Table F) → (db.rows w).0 ≡ ok t → t ≡ db.table w
  pub table-rows : (w : W) → db.table (db.rows w).1 ≡ db.table w
  pub execute_done :
      (f : Table F → Table F) (w : W)
      → (db.execute f w).0 ≡ ok tt
      → db.table (db.execute f w).1 ≡ f (db.table w)
  pub execute_failed :
      (f : Table F → Table F) (w : W) (e : Error)
      → (db.execute f w).0 ≡ err e
      → db.table (db.execute f w).1 ≡ db.table w
  pub begin_done :
      (w : W) → (db.begin_tx w).0 ≡ ok tt → db.pending (db.begin_tx w).1 ≡ some (db.table w)
  pub begin_failed :
      (w : W) (e : Error) → (db.begin_tx w).0 ≡ err e → db.pending (db.begin_tx w).1 ≡ db.pending w
  pub table-begin_tx : (w : W) → db.table (db.begin_tx w).1 ≡ db.table w
  pub tx_execute_done :
      (f : Table F → Table F) (w : W) (t : Table F)
      → db.pending w ≡ some t
      → (db.tx_execute f w).0 ≡ ok tt
      → db.pending (db.tx_execute f w).1 ≡ some (f t)
  pub table-tx_execute :
      (f : Table F → Table F) (w : W) → db.table (db.tx_execute f w).1 ≡ db.table w
  pub commit_done :
      (w : W) (t : Table F)
      → db.pending w ≡ some t
      → (db.commit w).0 ≡ ok tt
      → db.table (db.commit w).1 ≡ t
  pub commit_failed :
      (w : W) (e : Error) → (db.commit w).0 ≡ err e → db.table (db.commit w).1 ≡ db.table w
  pub table-rollback : (w : W) → db.table (db.rollback w) ≡ db.table w
  pub pending-rollback : (w : W) → db.pending (db.rollback w) ≡ none
  pub pending-select : (d : ℕ) (w : W) → db.pending (timer.select d w).1 ≡ db.pending w
  pub table-ping : (w : W) → db.table (db.ping w).1 ≡ db.table w
  pub table-query_rows : (w : W) → db.table (db.query_rows w).1 ≡ db.table w
  pub query_rows-ok :
      (w : W) (scanned : List (Option (String × Row F)))
      → (db.query_rows w).0 ≡ ok scanned
      → (order : List (String × Row F)) × (scanned ≡ map some order) × Visits order (db.table w)
  pub table-select : (d : ℕ) (w : W) → db.table (timer.select d w).1 ≡ db.table w

-- What errors.Is and errors.As find in an error: driver.ErrBadConn, a *net.OpError, the code of a
-- *pq.Error, and sql.ErrNoRows.
pub record ErrorClass : Type 0 where
  pub bad_conn : Bool
  pub net_op : Bool
  pub pq_code : Option String
  pub is_no_rows : Bool

abbrev pub member : String → List String → Bool
member k [] = false
member k (c ∷ codes) = c == k || member k codes

-- isRetryablePGCode, over the keys of retryablePGCodes, whose texts are constants of pgerrcode
unfoldable pub is_retryable_pg_code : List String → String → Bool
is_retryable_pg_code codes code =
    if member code codes
    then true
    else if starts_with code "08"
    then true
    else starts_with code "40"

-- isRetryablePG
unfoldable pub is_retryable_pg : List String → (Error → ErrorClass) → Error → Bool
unfolding is_retryable_pg_code
is_retryable_pg codes classify e =
    if (classify e).bad_conn
    then true
    else if (classify e).net_op
    then true
    else elim (classify e).pq_code [ none ↦ false | some code ↦ is_retryable_pg_code codes code ]

module _ {W F : Type 0} (db : Driver W F) (timer : Timer W) (codes : List String)
    (classify : Error → ErrorClass) (no_rows : Error) where
  abbrev pub with_retry : {A : Type 0} → Exec W A → Exec W A
  with_retry op = retry timer (is_retryable_pg codes classify) op default_backoff

  -- `row.Scan(&v)`: no row is an error
  abbrev scanned : {A : Type 0} → (Row F → Option A) → Option (Row F) → Exec W (Option A)
  scanned column none = raise no_rows
  scanned column (some r) = pure (column r)

  -- `QueryRowContext(ctx, q, n, mtype).Scan(&v)`, with the column that `q` names
  unfoldable pub scan_row : {A : Type 0} → (Row F → Option A) → String → String → Exec W (Option A)
  scan_row column n ty = do t ← db.rows; scanned column (where_id n ty t)

  -- what GetGauge and GetCounter make of the last attempt: no row, or NULL, is not found
  unfoldable pub found : {A : Type 0} → Result (Option A) → Result A
  found (ok (some v)) = ok v
  found (ok none) = err not_found
  found (err e) = if (classify e).is_no_rows then err not_found else err e

  unfoldable pub get_gauge : String → Exec W F
  unfolding scan_row found
  get_gauge n w = let (r, w') = with_retry (scan_row (λ r. r.value) n gauge) w in (found r, w')

  unfoldable pub get_counter : String → Exec W ℕ
  unfolding scan_row found
  get_counter n w = let (r, w') = with_retry (scan_row (λ r. r.delta) n counter) w in (found r, w')

  unfoldable pub set_gauge : String → F → Exec W (Unit {0})
  set_gauge n v = with_retry (db.execute (gauge_statement n v))

  unfoldable pub add_counter : String → ℕ → Exec W (Unit {0})
  add_counter n d = with_retry (db.execute (counter_statement n d))

  -- one round of the loop in the transaction: an item without the value of its type is skipped
  unfoldable pub tx_item : Metrics F → Exec W (Unit {0})
  tx_item it =
      if it.mtype == gauge
      then elim it.value [ none ↦ pure tt | some v ↦ db.tx_execute (gauge_statement it.id v) ]
      else if it.mtype == counter
      then elim it.delta [ none ↦ pure tt | some d ↦ db.tx_execute (counter_statement it.id d) ]
      else pure tt

  -- the loop, which stops at the first error
  unfoldable pub tx_items : List (Metrics F) → Exec W (Unit {0})
  unfolding tx_item
  tx_items [] = pure tt
  tx_items (it ∷ items) = tx_item it >> tx_items items

  -- the deferred Rollback
  abbrev pub rolling_back : Exec W (Unit {0}) → Exec W (Unit {0})
  rolling_back m w = let (r, w') = m w in (r, db.rollback w')

  -- `attempt` of UpdateMany: BeginTx, the loop and Commit
  unfoldable pub attempt_batch : List (Metrics F) → Exec W (Unit {0})
  unfolding tx_items
  attempt_batch items = db.begin_tx >> rolling_back (tx_items items >> db.commit)

  unfoldable pub update_many : List (Metrics F) → Exec W (Unit {0})
  unfolding attempt_batch
  update_many [] = pure tt
  update_many (it ∷ items) = with_retry (attempt_batch (it ∷ items))

  unfoldable pub ping : Exec W (Unit {0})
  ping = with_retry db.ping

  abbrev pub read_rows : Exec W (Snapshot F)
  read_rows = do scanned ← db.query_rows; pure (collect scanned no_metrics)

  unfoldable pub snapshot : Exec W (Snapshot F)
  unfolding collect
  snapshot = with_retry read_rows

-- An error that is not read as a missing row.
abbrev pub IsPlain : (Error → ErrorClass) → Error → Type 0
IsPlain classify e = ((classify e).is_no_rows ≡ false) × (e ≢ not_found)

-- The errors of the driver and of the context are not sql.ErrNoRows, and not ErrNotFound.
pub record HasPlainErrors {W F : Type 0} (db : Driver W F) (timer : Timer W)
    (classify : Error → ErrorClass) : Type 0 where
  pub rows-IsPlain : (w : W) (e : Error) → (db.rows w).0 ≡ err e → IsPlain classify e
  pub ctx_err-IsPlain : (w : W) (e : Error) → timer.ctx_err w ≡ some e → IsPlain classify e
  pub select-IsPlain :
      (w : W) (d : ℕ) (e : Error) → (timer.select d w).0 ≡ some e → IsPlain classify e
