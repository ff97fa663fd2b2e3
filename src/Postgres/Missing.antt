-- ===== src/Postgres/Missing.antt =====
-- What the reads answer: the column of the row of that type, or not found exactly where the view of
-- the table has none.
use golectra.Retry.Laws.{retry_rule}
use golectra.Postgres.Reads.{scan_row-table, retry_reads}
use golectra.Base.{
  subst, sym, ap, refl, Bool-cases, ◌∙◌, arith, inl, some, inr, none, ◌⊎◌, ◌≡◌, String, ◌≢◌, List,
  Option,
}
use golectra.Postgres.{
  is_retryable_pg, get_counter, with_retry, get_gauge, scanned, found, where_id, scan_row,
  IsDatabase, IsPlain, HasPlainErrors, ErrorClass, Row, Driver, Table,
}
use golectra.Postgres.View.{value_of, delta_of, typed}
use golectra.Retry.{default_backoff, Timer}
use golectra.Domain.{
  counter, gauge, Error, Result, ok, err, not_found, invalid_type, other, Result-cases,
}
use golectra.Ports.{Reads}
use golectra.Base.Maps

typed-where_id :
    {F A : Type 0} (column : Row F → Option A) (n ty : String) (t : Table F) (o : Option (Row F))
    → where_id n ty t ≡ o
    → typed column ty (Maps.get t n) ≡ elim o [ none ↦ none | some r ↦ column r ]
unfolding where_id
typed-where_id column n ty t o h = ground (arith, h)

err_inj : (A : Type 0) (x y : Error) → ◌≡◌ {A = Result A} (err x) (err y) → x ≡ y
err_inj A x y h = cc h

Reads-err :
    {A : Type 0} (e : Error) (o : Option A) → (e ≢ not_found) ⊎ (o ≡ none) → Reads {A = A} (err e) o
Reads-err not_found o (inl n) = absurd (n refl)
Reads-err not_found o (inr h) = h
Reads-err invalid_type o h = tt
Reads-err (other t) o h = tt

module _ {W F : Type 0} (db : Driver W F) (timer : Timer W) (codes : List String)
    (classify : Error → ErrorClass) (no_rows : Error) where
  found-Reads :
      {A : Type 0} (r : Result (Option A)) (o : Option A)
      → ((p : Option A) → r ≡ ok p → o ≡ p)
      → ((e : Error) → r ≡ err e → IsPlain classify e ⊎ (o ≡ none))
      → Reads (found db timer codes classify no_rows r) o
  unfolding found
  found-Reads (ok (some v)) o h k = h (some v) refl
  found-Reads (ok none) o h k = h none refl
  found-Reads (err e) o h k = elim (Bool-cases (classify e).is_no_rows) [
    | inl missing ↦ rw missing (elim (k e refl) [
      | inl plain ↦ absurd (cc (plain.0, missing))
      | inr none_there ↦ none_there
    ])
    | inr found_it ↦ rw found_it (
        Reads-err e o
          (elim (k e refl) [ inl plain ↦ inl plain.1 | inr none_there ↦ inr none_there ]))
  ]

  module _ (rely : IsDatabase db timer) (plain : HasPlainErrors db timer classify) {A : Type 0}
      (column : Row F → Option A) (n ty : String) where
    scanned-err :
        (o : Option (Row F)) (w : W) (e : Error)
        → (scanned db timer codes classify no_rows column o w).0 ≡ err e
        → o ≡ none
    scanned-err none w e h = refl
    scanned-err (some r) w e h = absurd (cc h)

    scan_row-err :
        (w : W) (e : Error)
        → (scan_row db timer codes classify no_rows column n ty w).0 ≡ err e
        → IsPlain classify e ⊎ (where_id n ty (db.table w) ≡ none)
    unfolding scan_row
    scan_row-err w e p = elim (Result-cases (db.rows w).0) [
      | inr (x, h) ↦
          let same : x ≡ e = cc (rw h at p) in inl (plain.rows-IsPlain w e (h ∙ ap err same))
      | inl (t, h) ↦ inr (
          ap (where_id n ty) (sym (rely.rows-table w t h))
          ∙ scanned-err (where_id n ty t) (db.rows w).1 e (rw h at p))
    ]

    read-err :
        (w : W) (e : Error)
        → (with_retry db timer codes classify no_rows
            (scan_row db timer codes classify no_rows column n ty)
            w).0
          ≡ err e
        → IsPlain classify e ⊎ (where_id n ty (db.table w) ≡ none)
    read-err w =
        retry_rule timer (is_retryable_pg codes classify)
          (scan_row db timer codes classify no_rows column n ty) (λ w'. db.table w' ≡ db.table w)
          (λ e. IsPlain classify e ⊎ (where_id n ty (db.table w) ≡ none))
          (λ r.
            (e : Error) → r.0 ≡ err e → IsPlain classify e ⊎ (where_id n ty (db.table w) ≡ none))
          (λ w' o p h e q. absurd (cc q))
          (λ w' e p h. (
            scan_row-table db timer codes classify no_rows rely column n ty w' ∙ p,
            subst (λ t. IsPlain classify e ⊎ (where_id n ty t ≡ none)) p (scan_row-err w' e h),
          ))
          (λ w' e h. inl (plain.ctx_err-IsPlain w' e h)) (λ w' d p. rely.table-select d w' ∙ p)
          (λ w' d e h. inl (plain.select-IsPlain w' d e h))
          (λ w' e p ex e' q.
            subst (λ x. IsPlain classify x ⊎ (where_id n ty (db.table w) ≡ none))
              (err_inj (Option A) e e' q) ex)
          default_backoff w refl

    read-Reads :
        (w : W)
        → Reads
            (found db timer codes classify no_rows
              (with_retry db timer codes classify no_rows
                (scan_row db timer codes classify no_rows column n ty)
                w).0)
            (typed column ty (Maps.get (db.table w) n))
    read-Reads w =
        let r =
          with_retry db timer codes classify no_rows
            (scan_row db timer codes classify no_rows column n ty) w in
        let (kept, read) = retry_reads db timer codes classify no_rows rely column n ty w in
        found-Reads r.0 (typed column ty (Maps.get (db.table w) n))
          (λ p h.
            let (row, at, col) = read p h in
            typed-where_id column n ty (db.table w) (some row) at ∙ col)
          (λ e h. elim (read-err w e h) [
            | inl is_plain ↦ inl is_plain
            | inr missing ↦ inr (typed-where_id column n ty (db.table w) none missing)
          ])

  -- GetGauge answers the gauge that the table holds under the name, and not found only if it holds
  -- none; other errors say nothing.
  pub get_gauge-Reads :
      (rely : IsDatabase db timer) (plain : HasPlainErrors db timer classify) (n : String) (w : W)
      → Reads (get_gauge db timer codes classify no_rows n w).0 (value_of (Maps.get (db.table w) n))
  unfolding get_gauge
  get_gauge-Reads rely plain n w = read-Reads rely plain (λ r. r.value) n gauge w

  pub get_counter-Reads :
      (rely : IsDatabase db timer) (plain : HasPlainErrors db timer classify) (n : String) (w : W)
      → Reads
          (get_counter db timer codes classify no_rows n w).0
          (delta_of (Maps.get (db.table w) n))
  unfolding get_counter
  get_counter-Reads rely plain n w = read-Reads rely plain (λ r. r.delta) n counter w

  pub get_counter_keeps :
      (rely : IsDatabase db timer) (n : String) (w : W)
      → db.table (get_counter db timer codes classify no_rows n w).1 ≡ db.table w
  unfolding get_counter
  get_counter_keeps rely n w =
      (retry_reads db timer codes classify no_rows rely (λ (r : Row F). r.delta) n counter w).0
