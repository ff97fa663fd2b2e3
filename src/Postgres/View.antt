-- ===== src/Postgres/View.antt =====
-- What the table holds under each key, as the port sees it, and what the statements make of it.
use golectra.Base.{
  refl, false, inr, Option-cases, inl, [], sum_int64, Bool-cases, eq_iff, List, ◌∷◌, eq_refl,
  add_int64, ◌==◌, none, arith, if◌then◌else◌, ◌≡◌, ℕ, some, Option, String,
}
use golectra.Postgres.{
  Table, Row, gauge_statement, counter_statement, statement_for, transaction, row_delta,
}
use golectra.Domain.{gauge, counter, Metrics}
use golectra.Ports.{View}
use golectra.Ports.Batch.{count_or_zero, last_or, counted, writes, deltas}
use golectra.Base.Maps
use golectra.Base.Maps.{Visits, get-put, IsMap}
use golectra.Memory.Batch.{gauge-ne-counter}

-- the column of a row of the type asked for
abbrev pub typed : {F A : Type 0} → (Row F → Option A) → String → Option (Row F) → Option A
typed column ty none = none
typed column ty (some r) = if r.mtype == ty then column r else none

module _ {F : Type 0} where
  abbrev pub value_of : Option (Row F) → Option F
  value_of = typed (λ r. r.value) gauge

  abbrev pub delta_of : Option (Row F) → Option ℕ
  delta_of = typed (λ r. r.delta) counter

  abbrev pub table_view : Table F → View F
  table_view t = record {
    gauge_at = λ k. value_of (Maps.get t k);
    counter_at = λ k. delta_of (Maps.get t k);
  }

  -- Only a row of a counter has a delta.
  abbrev pub IsTypedRow : Option (Row F) → Type 0
  IsTypedRow o = row_delta o ≡ delta_of o

  abbrev pub IsTyped : Table F → Type 0
  IsTyped t = (k : String) → IsTypedRow (Maps.get t k)

  pub gauge_statement-IsTyped :
      (n : String) (v : F) (t : Table F) → IsTyped t → IsTyped (gauge_statement n v t)
  unfolding gauge_statement
  gauge_statement-IsTyped n v t h k = ground (
    arith,
    h k,
    get-put t n k (record { mtype = gauge; value = some v; delta = none }),
    eq_iff gauge counter,
  )

  pub counter_statement-IsTyped :
      (n : String) (d : ℕ) (t : Table F) → IsTyped t → IsTyped (counter_statement n d t)
  unfolding counter_statement
  counter_statement-IsTyped n d t h k = ground (
    arith,
    h k,
    get-put t n k (record {
      mtype = counter;
      value = none;
      delta = some (add_int64 (count_or_zero (row_delta (Maps.get t n))) d);
    }),
  )

  pub gauge_statement_lem :
      (n k : String) (v : F) (t : Table F)
      → ((table_view (gauge_statement n v t)).gauge_at k
          ≡ (if n == k then some v else (table_view t).gauge_at k))
        × ((table_view (gauge_statement n v t)).counter_at k
            ≡ (if n == k then none else (table_view t).counter_at k))
  unfolding gauge_statement
  gauge_statement_lem n k v t =
      ground (
        arith,
        get-put t n k (record { mtype = gauge; value = some v; delta = none }),
        eq_refl gauge,
      )

  pub counter_statement_lem :
      (n k : String) (d : ℕ) (t : Table F)
      → IsTyped t
      → ((table_view (counter_statement n d t)).gauge_at k
          ≡ (if n == k then none else (table_view t).gauge_at k))
        × ((table_view (counter_statement n d t)).counter_at k ≡ (
            if n == k
            then some (add_int64 (count_or_zero ((table_view t).counter_at k)) d)
            else (table_view t).counter_at k))
  unfolding counter_statement
  counter_statement_lem n k d t h = ground (
    arith,
    h n,
    eq_iff n k,
    eq_iff gauge counter,
    get-put t n k (record {
      mtype = counter;
      value = none;
      delta = some (add_int64 (count_or_zero (row_delta (Maps.get t n))) d);
    }),
  )

  pub statement_for-IsTyped :
      (it : Metrics F) (t : Table F) → IsTyped t → IsTyped (statement_for it t)
  unfolding statement_for
  statement_for-IsTyped it t h k = elim (Bool-cases (it.mtype == gauge)) [
    | inl g ↦ elim (Option-cases it.value) [
      | inl e ↦ rw (g, e) (h k)
      | inr (v, e) ↦ rw (g, e) (gauge_statement-IsTyped it.id v t h k)
    ]
    | inr g ↦ elim (Bool-cases (it.mtype == counter)) [
      | inl c ↦ elim (Option-cases it.delta) [
        | inl e ↦ rw (g, c, e) (h k)
        | inr (d, e) ↦ rw (g, c, e) (counter_statement-IsTyped it.id d t h k)
      ]
      | inr c ↦ rw (g, c) (h k)
    ]
  ]

  pub transaction-IsTyped :
      (items : List (Metrics F)) (t : Table F) → IsTyped t → IsTyped (transaction items t)
  unfolding transaction
  transaction-IsTyped [] t h = h
  transaction-IsTyped (it ∷ items) t h =
      transaction-IsTyped items (statement_for it t) (statement_for-IsTyped it t h)

  -- The gauge under another key.
  statement_counter_ne :
      (n k : String) (d : ℕ) (t : Table F)
      → (n == k) ≡ false
      → value_of (Maps.get (counter_statement n d t) k) ≡ value_of (Maps.get t k)
  unfolding counter_statement
  statement_counter_ne n k d t h = rw get-put (rw h refl)

  -- A metric that writes no count under `k` leaves there the gauge that it writes, if any.
  statement_for-gauge :
      (k : String) (it : Metrics F) (t : Table F)
      → deltas k (it ∷ []) ≡ []
      → (table_view (statement_for it t)).gauge_at k
        ≡ last_or ((table_view t).gauge_at k) (writes k (it ∷ []))
  unfolding statement_for writes deltas
  statement_for-gauge k it t h =
      grind (arith, gauge_statement_lem, gauge-ne-counter, eq_iff, statement_counter_ne)

  statement_for-counter :
      (k : String) (it : Metrics F) (t : Table F)
      → IsTyped t
      → writes k (it ∷ []) ≡ []
      → (table_view (statement_for it t)).counter_at k
        ≡ counted ((table_view t).counter_at k) (deltas k (it ∷ []))
  unfolding statement_for writes deltas sum_int64
  statement_for-counter k it t h n = elim (Option-cases it.value) [
    | inl ev ↦ elim (Option-cases it.delta) [
      | inl ed ↦ rw (ev, ed) (ground (arith, h k))
      | inr (d, ed) ↦ ground (
        arith,
        ev,
        ed,
        gauge-ne-counter it.mtype,
        eq_iff it.id k,
        counter_statement_lem it.id k d t h,
      )
    ]
    | inr (v, ev) ↦ elim (Option-cases it.delta) [
      | inl ed ↦ ground (
        arith,
        ev,
        ed,
        n,
        gauge-ne-counter it.mtype,
        eq_iff it.id k,
        gauge_statement_lem it.id k v t,
      )
      | inr (d, ed) ↦ ground (
        arith,
        ev,
        ed,
        n,
        gauge-ne-counter it.mtype,
        eq_iff it.id k,
        gauge_statement_lem it.id k v t,
        counter_statement_lem it.id k d t h,
      )
    ]
  ]

  -- After a transaction that counts nothing under `k`.
  pub transaction-gauge :
      (items : List (Metrics F)) (k : String) (t : Table F)
      → deltas k items ≡ []
      → (table_view (transaction items t)).gauge_at k
        ≡ last_or ((table_view t).gauge_at k) (writes k items)
  unfolding transaction writes deltas
  transaction-gauge [] k t h = refl
  transaction-gauge (it ∷ items) k t h =
      ground (arith, h, transaction-gauge items k (statement_for it t), statement_for-gauge k it t)

  pub transaction-counter :
      (items : List (Metrics F)) (k : String) (t : Table F)
      → IsTyped t
      → writes k items ≡ []
      → (table_view (transaction items t)).counter_at k
        ≡ counted ((table_view t).counter_at k) (deltas k items)
  unfolding transaction writes deltas sum_int64
  transaction-counter [] k t h n = refl
  transaction-counter (it ∷ items) k t h n = ground (
    arith,
    n,
    transaction-counter items k (statement_for it t) (statement_for-IsTyped it t h),
    statement_for-counter k it t h,
  )
