-- ===== src/Domain.antt =====
-- internal/domain: the metrics, the snapshot and the errors that the parts exchange, and the form
-- of a Go method that changes an object and may return an error. A float64 is a type parameter `F`:
-- the code stores and copies gauge values, and computes with none.
use golectra.Base.{refl, inr, inl, ◌⊎◌, ◌≡◌, ℕ, String, Option, none, some}
use golectra.Base.Maps.{GoMap}

-- A non-nil `error`. `errors.Is` tells the two sentinels apart; any other error has its text.
pub data Error : Type 0 where
  not_found : Error
  invalid_type : Error
  other : String → Error

-- What a Go function that returns `(A, error)` hands back.
pub data Result {ℓ} (A : Type ℓ) : Type ℓ where
  ok : A → Result A
  err : Error → Result A

-- A method on an object of type `S`: the result and the object after the call.
abbrev pub Exec {ℓ κ} : Type ℓ → Type κ → Type (ℓ ⊔ κ)
Exec S A = S → Result A × S

abbrev continue {ℓ κ μ} :
    {S : Type ℓ} {A : Type κ} {B : Type μ} → Result A → (A → Exec S B) → Exec S B
continue (ok a) f s = f a s
continue (err e) f s = (err e, s)

-- The next statement runs if this one returned no error: `if err != nil { return err }`.
infixl 10 ◌>>=◌ ◌>>◌
abbrev pub ◌>>=◌ {ℓ κ μ} :
    {S : Type ℓ} {A : Type κ} {B : Type μ} → Exec S A → (A → Exec S B) → Exec S B
◌>>=◌ m f s = let (r, s') = m s in continue r f s'

abbrev pub ◌>>◌ {ℓ κ μ} : {S : Type ℓ} {A : Type κ} {B : Type μ} → Exec S A → Exec S B → Exec S B
m >> n = m >>= λ _. n

abbrev pub pure {ℓ κ} : {S : Type ℓ} {A : Type κ} → A → Exec S A
pure a s = (ok a, s)

abbrev pub raise {ℓ κ} : {S : Type ℓ} {A : Type κ} → Error → Exec S A
raise e s = (err e, s)

-- the comma-ok read of a map, with the error for a missing key
abbrev pub or_not_found {ℓ} : {A : Type ℓ} → Option A → Result A
or_not_found none = err not_found
or_not_found (some a) = ok a

abbrev pub gauge : String
gauge = "gauge"

abbrev pub counter : String
counter = "counter"

-- `Delta` and `Value` are pointers: `none` is nil. A delta is the bit pattern of an int64.
pub record Metrics (F : Type 0) : Type 0 where
  pub delta : Option ℕ
  pub value : Option F
  pub id : String
  pub mtype : String

pub record Snapshot (F : Type 0) : Type 0 where
  pub gauges : GoMap F
  pub counters : GoMap ℕ

-- `Metrics{ID: id, MType: string(Gauge), Value: &v}`
abbrev pub gauge_metric : {F : Type 0} → String → F → Metrics F
gauge_metric id v = record { delta = none; value = some v; id = id; mtype = gauge }

-- `Metrics{ID: id, MType: string(Counter), Delta: &d}`
abbrev pub counter_metric : {F : Type 0} → String → ℕ → Metrics F
counter_metric id d = record { delta = some d; value = none; id = id; mtype = counter }

pub Result-cases {ℓ} :
    {A : Type ℓ} (r : Result A) → ((a : A) × (r ≡ ok a)) ⊎ ((e : Error) × (r ≡ err e))
Result-cases (ok a) = inl (a, refl)
Result-cases (err e) = inr (e, refl)
