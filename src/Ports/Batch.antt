-- ===== src/Ports/Batch.antt =====
-- What a batch of metrics asks for, key by key, with no reference to a repository: the gauge
-- values that it writes to a key, and the deltas that it adds to one.
use golectra.Base.{
  ℕ, String, ◌≡◌, refl, Bool, ◌&&◌, Option, none, some, List, [], ◌∷◌, ◌++◌, ◌==◌, if◌then◌else◌,
  arith, sum_int64,
}
use golectra.Domain.{gauge, counter, Metrics}

-- `m[k]` of a map to int64: 0 for a missing key
abbrev pub count_or_zero : Option ℕ → ℕ
count_or_zero none = 0
count_or_zero (some n) = n

abbrev pub prepend {ℓ} : {A : Type ℓ} → Option A → List A → List A
prepend none xs = xs
prepend (some x) xs = x ∷ xs

-- The last of some writes, or what was there.
abbrev pub last_or {ℓ} : {A : Type ℓ} → Option A → List A → Option A
last_or old [] = old
last_or old (x ∷ xs) = last_or (some x) xs

-- A counter after some additions; with none it stays as it was, also absent.
abbrev pub counted : Option ℕ → List ℕ → Option ℕ
counted old [] = old
counted old (d ∷ ds) = some (sum_int64 (count_or_zero old) (d ∷ ds))

module _ {F : Type 0} where
  abbrev pub has : String → String → Metrics F → Bool
  has t k it = it.mtype == t && it.id == k

  unfoldable pub writes : String → List (Metrics F) → List F
  writes k [] = []
  writes k (it ∷ items) =
      let rest = writes k items in if has gauge k it then prepend it.value rest else rest

  unfoldable pub deltas : String → List (Metrics F) → List ℕ
  deltas k [] = []
  deltas k (it ∷ items) =
      let rest = deltas k items in if has counter k it then prepend it.delta rest else rest

  pub writes-append :
      (k : String) (xs ys : List (Metrics F)) → writes k (xs ++ ys) ≡ writes k xs ++ writes k ys
  unfolding writes
  writes-append k [] ys = refl
  writes-append k (it ∷ xs) ys = ground (arith, writes-append k xs ys)

  pub deltas-append :
      (k : String) (xs ys : List (Metrics F)) → deltas k (xs ++ ys) ≡ deltas k xs ++ deltas k ys
  unfolding deltas
  deltas-append k [] ys = refl
  deltas-append k (it ∷ xs) ys = ground (arith, deltas-append k xs ys)
