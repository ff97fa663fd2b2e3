-- ===== src/Base/Maps.antt =====
-- Go's `map[string]V`. The entries stand in no order that a program may rely on: code that
-- ranges over a map is modelled over any `Visits` of it.
use Prim.Native.String.{String}
use Prim.Native.Nat.{ℕ}
use mathlib.Core.Path.{◌≡◌, refl}
use mathlib.Core.Option.{Option, none, some}
use mathlib.Core.List.{List, [], ◌∷◌}
use native.Mathlib.Omega.{arith}
use text.Mathlib.Text.{◌==◌}
use text.Mathlib.TextEquality.{eq_iff}
use golectra.Base.Tests.{if◌then◌else◌}
use golectra.Base.Lists.{length}

pub record GoMap {ℓ} (V : Type ℓ) : Type ℓ where
  pub entries : List (String × V)

module _ {ℓ} {V : Type ℓ} where
  -- `v, ok := m[k]` on the entries
  unfoldable pub lookup : String → List (String × V) → Option V
  lookup k [] = none
  lookup k ((j, v) ∷ m) = if j == k then some v else lookup k m

  unfoldable pub store : String → V → List (String × V) → List (String × V)
  store k v [] = (k, v) ∷ []
  store k v ((j, w) ∷ m) = if j == k then (k, v) ∷ m else (j, w) ∷ store k v m

  -- `make(map[string]V)`
  unfoldable pub empty : GoMap V
  empty = record { entries = [] }

  -- `v, ok := m[k]`
  unfoldable pub get : GoMap V → String → Option V
  get m k = lookup k m.entries

  -- `m[k] = v`
  unfoldable pub put : GoMap V → String → V → GoMap V
  put m k v = record { entries = store k v m.entries }

  -- `len(m)`
  unfoldable pub size : GoMap V → ℕ
  size m = length m.entries

  -- `maps.Copy(dst, src)`, over the entries of the source
  unfoldable pub copy_entries : GoMap V → List (String × V) → GoMap V
  unfolding put
  copy_entries dst [] = dst
  copy_entries dst ((k, v) ∷ rest) = copy_entries (put dst k v) rest

  -- No key occurs twice.
  abbrev pub IsMap : List (String × V) → Type ℓ
  IsMap [] = Unit
  IsMap ((k, v) ∷ m) = (lookup k m ≡ none) × IsMap m

  -- The entries in the order in which one `range` loop visits them: each key once, with its value.
  pub record Visits (order : List (String × V)) (m : GoMap V) : Type ℓ where
    pub once : IsMap order
    pub same : (k : String) → lookup k order ≡ get m k

  pub get-empty : (k : String) → get empty k ≡ none
  unfolding get empty lookup
  get-empty k = refl

  pub lookup-store :
      (k j : String) (v : V) (m : List (String × V))
      → lookup j (store k v m) ≡ (if k == j then some v else lookup j m)
  unfolding lookup store
  lookup-store k j v [] = refl
  lookup-store k j v ((i, w) ∷ m) =
      ground (arith, eq_iff k j, eq_iff i k, eq_iff i j, lookup-store k j v m)

  pub get-put :
      (m : GoMap V) (k j : String) (v : V)
      → get (put m k v) j ≡ (if k == j then some v else get m j)
  unfolding get put
  get-put m k j v = lookup-store k j v m.entries

  pub store-IsMap : (k : String) (v : V) (m : List (String × V)) → IsMap m → IsMap (store k v m)
  unfolding store lookup
  store-IsMap k v [] h = (refl, tt)
  store-IsMap k v ((j, w) ∷ m) h =
      ground (arith, lookup-store k j v m, store-IsMap k v m h.1, eq_iff j k, eq_iff k j)

  pub put-IsMap : (m : GoMap V) (k : String) (v : V) → IsMap m.entries → IsMap (put m k v).entries
  unfolding put
  put-IsMap m k v h = store-IsMap k v m.entries h

  -- A copy has the entries of its source, and keeps what the destination had besides.
  pub get-copy_entries :
      (dst : GoMap V) (order : List (String × V)) (k : String)
      → IsMap order
      → get (copy_entries dst order) k
        ≡ elim (lookup k order) [ none ↦ get dst k | some v ↦ some v ]
  unfolding copy_entries lookup
  get-copy_entries dst [] k h = refl
  get-copy_entries dst ((j, v) ∷ rest) k h =
      ground (arith, get-copy_entries (put dst j v) rest k h.1, get-put dst j k v, eq_iff j k)

  pub copy_entries-IsMap :
      (dst : GoMap V) (order : List (String × V))
      → IsMap dst.entries
      → IsMap (copy_entries dst order).entries
  unfolding copy_entries
  copy_entries-IsMap dst [] h = h
  copy_entries-IsMap dst ((j, v) ∷ rest) h =
      copy_entries-IsMap (put dst j v) rest (put-IsMap dst j v h)

  pub entries-Visits : (m : GoMap V) → IsMap m.entries → Visits m.entries m
  unfolding get
  entries-Visits m h = record { once = h; same = λ k. refl }

pub ruleset map_laws = (get-empty, get-put)
