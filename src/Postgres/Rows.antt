-- ===== src/Postgres/Rows.antt =====
-- The query of the whole table, row by row, against the view of the table.
use golectra.Retry.{default_backoff, Timer}
use golectra.Postgres.{read_rows, snapshot, Driver, ErrorClass, IsDatabase, is_retryable_pg}
use golectra.Retry.Laws.{retry-inv}
use golectra.Base.{
  subst, ap, ◌∙◌, eq_iff, ◌∷◌, [], inr, arith, inl, Option-cases, ◌==◌, if◌then◌else◌, refl, ◌≡◌,
  some, map, none, String, List, Option,
}
use golectra.Postgres.{Table, Row, collect, collect_row, no_metrics}
use golectra.Postgres.View.{table_view, value_of, delta_of}
use golectra.Domain.{ok, Result-cases, Error, Snapshot}
use golectra.Base.Maps
use golectra.Base.Maps.{get-put, get-empty, IsMap, Visits}
use golectra.Memory.Batch.{gauge-ne-counter}

-- What a row leaves in a map where it has a value.
abbrev pub or_old : {A : Type 0} → Option A → Option A → Option A
or_old none old = old
or_old (some v) old = some v

or_old-none : {A : Type 0} → (o : Option A) → or_old o none ≡ o
or_old-none none = refl
or_old-none (some v) = refl

module _ {F : Type 0} where
  collect_row_lem :
      (id k : String) (row : Row F) (sn : Snapshot F)
      → (Maps.get (collect_row id row sn).gauges k ≡ (
          if id == k
          then or_old (value_of (some row)) (Maps.get sn.gauges k)
          else Maps.get sn.gauges k))
        × (Maps.get (collect_row id row sn).counters k ≡ (
            if id == k
            then or_old (delta_of (some row)) (Maps.get sn.counters k)
            else Maps.get sn.counters k))
  unfolding collect_row
  collect_row_lem id k row sn = elim (Option-cases row.value) [
    | inl ev ↦ elim (Option-cases row.delta) [
      | inl ed ↦ ground (arith, ev, ed, gauge-ne-counter row.mtype)
      | inr (d, ed) ↦ ground (arith, ev, ed, gauge-ne-counter row.mtype, get-put sn.counters id k d)
    ]
    | inr (v, ev) ↦ elim (Option-cases row.delta) [
      | inl ed ↦ ground (arith, ev, ed, gauge-ne-counter row.mtype, get-put sn.gauges id k v)
      | inr (d, ed) ↦ ground (
        arith,
        ev,
        ed,
        gauge-ne-counter row.mtype,
        get-put sn.gauges id k v,
        get-put sn.counters id k d,
      )
    ]
  ]

  collect_lem :
      (order : List (String × Row F)) (k : String) (sn : Snapshot F)
      → IsMap order
      → (Maps.get (collect (map some order) sn).gauges k
          ≡ or_old (value_of (Maps.lookup k order)) (Maps.get sn.gauges k))
        × (Maps.get (collect (map some order) sn).counters k
            ≡ or_old (delta_of (Maps.lookup k order)) (Maps.get sn.counters k))
  unfolding collect Maps.lookup
  collect_lem [] k sn h = (refl, refl)
  collect_lem ((j, row) ∷ order) k sn h = ground (
    arith,
    h.0,
    eq_iff j k,
    collect_lem order k (collect_row j row sn) h.1,
    collect_row_lem j k row sn,
  )

  -- A whole table read row by row gives the view of the table.
  pub collect-view :
      (order : List (String × Row F)) (t : Table F) (k : String)
      → Visits order t
      → (Maps.get (collect (map some order) no_metrics).gauges k ≡ (table_view t).gauge_at k)
        × (Maps.get (collect (map some order) no_metrics).counters k ≡ (table_view t).counter_at k)
  collect-view order t k v =
      let (g, c) = collect_lem order k no_metrics v.once in
      (
        g ∙ ap (or_old _) (get-empty k) ∙ or_old-none _ ∙ ap value_of (v.same k),
        c ∙ ap (or_old _) (get-empty k) ∙ or_old-none _ ∙ ap delta_of (v.same k),
      )

module _ {W F : Type 0} (db : Driver W F) (timer : Timer W) (codes : List String)
    (classify : Error → ErrorClass) (no_rows : Error) (rely : IsDatabase db timer) where
  -- The snapshot holds what the table holds.
  abbrev pub ShowsTable : Snapshot F → Table F → Type 0
  ShowsTable sn t =
      (k : String)
      → (Maps.get sn.gauges k ≡ (table_view t).gauge_at k)
        × (Maps.get sn.counters k ≡ (table_view t).counter_at k)

  read_rows-table : (w : W) → db.table (read_rows db timer codes classify no_rows w).1 ≡ db.table w
  read_rows-table w = elim (Result-cases (db.query_rows w).0) [
    | inl (scanned, h) ↦ rw h (rely.table-query_rows w)
    | inr (e, h) ↦ rw h (rely.table-query_rows w)
  ]

  read_rows-ok :
      (w : W) (sn : Snapshot F)
      → (read_rows db timer codes classify no_rows w).0 ≡ ok sn
      → ShowsTable sn (db.table w)
  read_rows-ok w sn p k = elim (Result-cases (db.query_rows w).0) [
    | inr (e, h) ↦ absurd (cc (rw h at p))
    | inl (scanned, h) ↦
        let (order, rows, v) = rely.query_rows-ok w scanned h in
        let same : collect (map some order) no_metrics ≡ sn = cc (rows, rw h at p) in
        subst
          (λ x.
            (Maps.get x.gauges k ≡ (table_view (db.table w)).gauge_at k)
            × (Maps.get x.counters k ≡ (table_view (db.table w)).counter_at k))
          same (collect-view order (db.table w) k v)
  ]

  -- Snapshot changes nothing, and if it returns no error it holds what the table holds, key by key.
  pub snapshot_lem :
      (w : W)
      → (db.table (snapshot db timer codes classify no_rows w).1 ≡ db.table w)
        × ((sn : Snapshot F)
            → (snapshot db timer codes classify no_rows w).0 ≡ ok sn
            → ShowsTable sn (db.table w))
  unfolding snapshot
  snapshot_lem w =
      retry-inv timer (is_retryable_pg codes classify) (read_rows db timer codes classify no_rows)
        (λ w'. db.table w' ≡ db.table w)
        (λ r.
          (db.table r.1 ≡ db.table w)
          × ((sn : Snapshot F) → r.0 ≡ ok sn → ShowsTable sn (db.table w)))
        (λ w' a p e.
          (read_rows-table w' ∙ p, λ sn q. subst (ShowsTable sn) p (read_rows-ok w' sn (e ∙ q))))
        (λ w' e p h. read_rows-table w' ∙ p) (λ w' d p. rely.table-select d w' ∙ p)
        (λ w' e p. (p, λ sn q. absurd (cc q))) default_backoff w refl
