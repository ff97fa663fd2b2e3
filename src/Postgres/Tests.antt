-- ===== src/Postgres/Tests.antt =====
-- The Postgres repository on a database whose first statement fails with a broken connection.
use golectra.Postgres.Port.{postgres_meets_contract}
use golectra.Postgres.Stored.{stored_view, postgres_repo}
use golectra.Base.Maps.{Visits, IsMap}
use golectra.Ports.{Contract}
use golectra.Base.Maps
use golectra.Base.{
  ap, eq_refl, eq_iff, ◌∙◌, ◌==◌, if◌then◌else◌, arith, Option, map, String, refl, false, some, ◌∷◌,
  [], none, ℕ, List, Bool, true, ◌≡◌,
}
use golectra.Postgres.{
  IsPlain, HasPlainErrors, Driver, IsDatabase, Table, Row, ErrorClass, transaction, update_many,
}
use golectra.Postgres.Writes.{Once, update_many-Atomic}
use golectra.Retry.{Timer}
use golectra.Domain.{Error, ok, err, other, Exec, Metrics, gauge_metric, counter_metric}

-- whether the connection is broken, the table, and the open transaction
abbrev Server : Type 0
Server = Bool × Table ℕ × Option (Table ℕ)

abbrev broken : Error
broken = other "driver: bad connection"

abbrev execute : (Table ℕ → Table ℕ) → Exec Server (Unit {0})
execute f (true, t, p) = (err broken, (false, t, p))
execute f (false, t, p) = (ok tt, (false, f t, p))

-- the broken connection shows at the first statement of a transaction
abbrev begin_tx : Exec Server (Unit {0})
begin_tx (b, t, p) = (ok tt, (b, t, some t))

abbrev tx_execute : (Table ℕ → Table ℕ) → Exec Server (Unit {0})
tx_execute f (true, t, p) = (err broken, (false, t, p))
tx_execute f (false, t, none) = (err broken, (false, t, none))
tx_execute f (false, t, some u) = (ok tt, (false, t, some (f u)))

abbrev commit : Exec Server (Unit {0})
commit (b, t, none) = (err broken, (b, t, none))
commit (b, t, some u) = (ok tt, (b, u, none))

abbrev rows : Exec Server (Table ℕ)
rows (true, t, p) = (err broken, (false, t, p))
rows (false, t, p) = (ok t, (false, t, p))

abbrev without : String → List (String × Row ℕ) → List (String × Row ℕ)
without k [] = []
without k ((j, r) ∷ m) = if j == k then without k m else (j, r) ∷ without k m

-- the entries of a map, without those that an earlier one hides
abbrev first_only : List (String × Row ℕ) → List (String × Row ℕ)
first_only [] = []
first_only ((k, r) ∷ m) = (k, r) ∷ without k (first_only m)

lookup-without :
    (j k : String) (m : List (String × Row ℕ))
    → Maps.lookup j (without k m) ≡ (if k == j then none else Maps.lookup j m)
unfolding Maps.lookup
lookup-without j k [] = ground arith
lookup-without j k ((i, r) ∷ m) =
    ground (arith, lookup-without j k m, eq_iff i k, eq_iff i j, eq_iff k j)

without-IsMap : (k : String) (m : List (String × Row ℕ)) → IsMap m → IsMap (without k m)
without-IsMap k [] h = tt
without-IsMap k ((j, r) ∷ m) h = ground (arith, without-IsMap k m h.1, lookup-without j k m, h.0)

lookup-first_only :
    (j : String) (m : List (String × Row ℕ)) → Maps.lookup j (first_only m) ≡ Maps.lookup j m
unfolding Maps.lookup
lookup-first_only j [] = refl
lookup-first_only j ((k, r) ∷ m) =
    ground (arith, lookup-without j k (first_only m), lookup-first_only j m)

first_only-IsMap : (m : List (String × Row ℕ)) → IsMap (first_only m)
first_only-IsMap [] = tt
first_only-IsMap ((k, r) ∷ m) = (
  lookup-without k k (first_only m) ∙ rw (eq_refl k) refl,
  without-IsMap k (first_only m) (first_only-IsMap m),
)

abbrev db : Driver Server ℕ
db = record {
  table = λ w. w.1;
  rows = rows;
  execute = execute;
  pending = λ w. w.2;
  begin_tx = begin_tx;
  tx_execute = tx_execute;
  commit = commit;
  rollback = λ w. (w.0, w.1, none);
  ping = λ w. (ok tt, w);
  query_rows = λ w. (ok (map some (first_only w.1.entries)), w);
}

abbrev timer : Timer Server
timer = record { ctx_err = λ w. none; select = λ d w. (none, w) }

abbrev classify : Error → ErrorClass
classify e = record { bad_conn = true; net_op = false; pq_code = none; is_no_rows = false }

rows-table : (w : Server) (t : Table ℕ) → (rows w).0 ≡ ok t → t ≡ w.1
rows-table (true, t, p) u h = absurd (cc h)
rows-table (false, t, p) u h = cc h

table-rows : (w : Server) → (rows w).1.1 ≡ w.1
table-rows (true, t, p) = refl
table-rows (false, t, p) = refl

execute_done :
    (f : Table ℕ → Table ℕ) (w : Server) → (execute f w).0 ≡ ok tt → (execute f w).1.1 ≡ f w.1
execute_done f (true, t, p) h = absurd (cc h)
execute_done f (false, t, p) h = refl

execute_failed :
    (f : Table ℕ → Table ℕ) (w : Server) (e : Error)
    → (execute f w).0 ≡ err e
    → (execute f w).1.1 ≡ w.1
execute_failed f (true, t, p) e h = refl
execute_failed f (false, t, p) e h = absurd (cc h)

query_rows-ok :
    (w : Server) (scanned : List (Option (String × Row ℕ)))
    → (db.query_rows w).0 ≡ ok scanned
    → (order : List (String × Row ℕ)) × (scanned ≡ map some order) × Visits order w.1
unfolding Maps.get
query_rows-ok (b, t, p) scanned h = (
  first_only t.entries,
  cc h,
  record { once = first_only-IsMap t.entries; same = λ k. lookup-first_only k t.entries },
)

tx_execute_done :
    (f : Table ℕ → Table ℕ) (w : Server) (t : Table ℕ)
    → w.2 ≡ some t
    → (tx_execute f w).0 ≡ ok tt
    → (tx_execute f w).1.2 ≡ some (f t)
tx_execute_done f (true, u, p) t e h = absurd (cc h)
tx_execute_done f (false, u, none) t e h = absurd (cc h)
tx_execute_done f (false, u, some x) t e h = let same : x ≡ t = cc e in ap (λ y. some (f y)) same

table-tx_execute : (f : Table ℕ → Table ℕ) (w : Server) → (tx_execute f w).1.1 ≡ w.1
table-tx_execute f (true, u, p) = refl
table-tx_execute f (false, u, none) = refl
table-tx_execute f (false, u, some x) = refl

commit_done : (w : Server) (t : Table ℕ) → w.2 ≡ some t → (commit w).0 ≡ ok tt → (commit w).1.1 ≡ t
commit_done (b, u, none) t e h = absurd (cc h)
commit_done (b, u, some x) t e h = cc e

commit_failed : (w : Server) (e : Error) → (commit w).0 ≡ err e → (commit w).1.1 ≡ w.1
commit_failed (b, u, none) e h = refl
commit_failed (b, u, some x) e h = absurd (cc h)

db-IsDatabase : IsDatabase db timer
db-IsDatabase = record {
  rows-table = rows-table;
  table-rows = table-rows;
  execute_done = execute_done;
  execute_failed = execute_failed;
  begin_done = λ w h. refl;
  begin_failed = λ w e h. absurd (cc h);
  table-begin_tx = λ w. refl;
  tx_execute_done = tx_execute_done;
  table-tx_execute = table-tx_execute;
  commit_done = commit_done;
  commit_failed = commit_failed;
  table-rollback = λ w. refl;
  pending-rollback = λ w. refl;
  pending-select = λ d w. refl;
  table-ping = λ w. refl;
  table-query_rows = λ w. refl;
  query_rows-ok = query_rows-ok;
  table-select = λ d w. refl;
}

abbrev server : Server
server = (true, record { entries = [] }, none)

abbrev batch : List (Metrics ℕ)
batch = gauge_metric "HeapAlloc" 42 ∷ counter_metric "PollCount" 3 ∷ []

update_many-Atomic_example :
    let r = update_many db timer [] classify broken batch server in
    Once db timer [] classify broken db-IsDatabase (transaction batch) server r × (r.1.2 ≡ none)
update_many-Atomic_example =
    update_many-Atomic db timer [] classify broken db-IsDatabase batch server refl

rows-IsPlain : (w : Server) (e : Error) → (rows w).0 ≡ err e → IsPlain classify e
rows-IsPlain (true, t, p) e h = (refl, λ n. cc (h, n))
rows-IsPlain (false, t, p) e h = absurd (cc h)

db-HasPlainErrors : HasPlainErrors db timer classify
db-HasPlainErrors = record {
  rows-IsPlain = rows-IsPlain;
  ctx_err-IsPlain = λ w e h. absurd (cc h);
  select-IsPlain = λ w d e h. absurd (cc h);
}

postgres_meets_contract_example :
    (c : Contract (postgres_repo db timer [] classify broken db-IsDatabase db-HasPlainErrors))
    × (c.view ≡ stored_view db timer [] classify broken db-IsDatabase db-HasPlainErrors)
postgres_meets_contract_example =
    postgres_meets_contract db timer [] classify broken db-IsDatabase db-HasPlainErrors
