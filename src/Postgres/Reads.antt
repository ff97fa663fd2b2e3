-- ===== src/Postgres/Reads.antt =====
-- Reads through the retry loop, and what one table for both types makes of an id.
use golectra.Retry.Laws.{retry-inv}
use golectra.Domain.{err, gauge, Result-cases, ok, Result, Error}
use golectra.Base.{
  none, arith, refl, sym, subst, ap, ◌∙◌, inl, inr, some, ◌≡◌, String, List, Option,
}
use golectra.Retry.{default_backoff, Timer}
use golectra.Postgres.{
  scanned, found, get_gauge, is_retryable_pg, with_retry, where_id, scan_row, IsDatabase,
  ErrorClass, Row, Driver,
}

module _ {W F : Type 0} (db : Driver W F) (timer : Timer W) (codes : List String)
    (classify : Error → ErrorClass) (no_rows : Error) where
  -- A read changes nothing, and a value that it finds stands in the row of that id and type.
  abbrev pub ReadOf :
      {A : Type 0} → (Row F → Option A) → String → String → W → Result (Option A) × W → Type 0
  ReadOf {A} column n ty w r =
      (db.table r.1 ≡ db.table w)
      × ((o : Option A)
          → r.0 ≡ ok o
          → (row : Row F) × (where_id n ty (db.table w) ≡ some row) × (column row ≡ o))

  found-ok :
      {A : Type 0} (r : Result (Option A)) (v : A)
      → found db timer codes classify no_rows r ≡ ok v
      → r ≡ ok (some v)
  unfolding found
  found-ok (ok (some a)) v h = ground arith
  found-ok (ok none) v h = absurd (cc h)
  found-ok (err e) v h = ground arith

  module _ (rely : IsDatabase db timer) {A : Type 0} (column : Row F → Option A)
      (n ty : String) where
    scanned-keeps :
        (o : Option (Row F)) (w : W) → (scanned db timer codes classify no_rows column o w).1 ≡ w
    scanned-keeps none w = refl
    scanned-keeps (some r) w = refl

    scanned-ok :
        (o : Option (Row F)) (w : W) (v : Option A)
        → (scanned db timer codes classify no_rows column o w).0 ≡ ok v
        → (row : Row F) × (o ≡ some row) × (column row ≡ v)
    scanned-ok none w v h = absurd (cc h)
    scanned-ok (some r) w v h = (r, refl, cc h)

    pub scan_row-table :
        (w : W) → db.table (scan_row db timer codes classify no_rows column n ty w).1 ≡ db.table w
    unfolding scan_row
    scan_row-table w = elim (Result-cases (db.rows w).0) [
      | inr (e, h) ↦ rw h (rely.table-rows w)
      | inl (t, h) ↦
          rw h (ap db.table (scanned-keeps (where_id n ty t) (db.rows w).1) ∙ rely.table-rows w)
    ]

    scan_row-ok :
        (w : W) (o : Option A)
        → (scan_row db timer codes classify no_rows column n ty w).0 ≡ ok o
        → (row : Row F) × (where_id n ty (db.table w) ≡ some row) × (column row ≡ o)
    unfolding scan_row
    scan_row-ok w o p = elim (Result-cases (db.rows w).0) [
      | inr (e, h) ↦ absurd (cc (rw h at p))
      | inl (t, h) ↦
          let (row, hit, v) = scanned-ok (where_id n ty t) (db.rows w).1 o (rw h at p) in
          (row, ap (where_id n ty) (sym (rely.rows-table w t h)) ∙ hit, v)
    ]

    pub retry_reads :
        (w : W)
        → ReadOf column n ty w (
            with_retry db timer codes classify no_rows
              (scan_row db timer codes classify no_rows column n ty)
              w)
    retry_reads w =
        retry-inv timer (is_retryable_pg codes classify)
          (scan_row db timer codes classify no_rows column n ty) (λ w'. db.table w' ≡ db.table w)
          (ReadOf column n ty w)
          (λ w' o p e. (
            scan_row-table w' ∙ p,
            λ o' h.
                subst (λ t. (row : Row F) × (where_id n ty t ≡ some row) × (column row ≡ o')) p
                  (scan_row-ok w' o' (e ∙ h)),
          ))
          (λ w' e p h. scan_row-table w' ∙ p) (λ w' d p. rely.table-select d w' ∙ p)
          (λ w' e p. (p, λ o h. absurd (cc h))) default_backoff w refl

  -- However many attempts fail, GetGauge changes nothing, and the value that it returns stands in the
  -- row of that id, whose type is gauge.
  pub get_gauge_reads :
      (rely : IsDatabase db timer) (n : String) (w : W)
      → (db.table (get_gauge db timer codes classify no_rows n w).1 ≡ db.table w)
        × ((v : F)
            → (get_gauge db timer codes classify no_rows n w).0 ≡ ok v
            → (row : Row F) × (where_id n gauge (db.table w) ≡ some row) × (row.value ≡ some v))
  unfolding get_gauge
  get_gauge_reads rely n w =
      let r =
        with_retry db timer codes classify no_rows
          (scan_row db timer codes classify no_rows (λ (r : Row F). r.value) n gauge) w in
      let (kept, read) = retry_reads rely (λ r. r.value) n gauge w in
      (kept, λ v h. read (some v) (found-ok r.0 v h))
