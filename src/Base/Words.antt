-- ===== src/Base/Words.antt =====
-- Go's int64, as the bit pattern of its two's complement: a number below 2 ^ 64.
use Prim.Native.Nat.{ℕ, ◌+◌, ◌%◌, ◌^◌, ◌<◌}
use mathlib.Core.Path.{◌≡◌, refl}
use mathlib.Core.List.{List, [], ◌∷◌, ◌++◌}
use native.Mathlib.Omega.{arith}

abbrev pub int64_mod : ℕ
int64_mod = 2 ^ 64

-- `a + b` wraps round.
unfoldable pub add_int64 : ℕ → ℕ → ℕ
add_int64 a b = (a + b) % 2 ^ 64

-- The sum of some values, added one after another to the value `start`.
unfoldable pub sum_int64 : ℕ → List ℕ → ℕ
sum_int64 start [] = start
sum_int64 start (d ∷ ds) = sum_int64 (add_int64 start d) ds

pub add_int64_bounds : (a b : ℕ) → add_int64 a b < int64_mod
unfolding add_int64
add_int64_bounds a b = omega arith

pub add_int64_zero : (a : ℕ) → a < int64_mod → add_int64 0 a ≡ a
unfolding add_int64
add_int64_zero a h = omega arith

pub add_int64_assoc : (a b c : ℕ) → add_int64 (add_int64 a b) c ≡ add_int64 a (add_int64 b c)
unfolding add_int64
add_int64_assoc a b c = omega arith

pub sum_int64-append :
    (start : ℕ) (ds es : List ℕ) → sum_int64 start (ds ++ es) ≡ sum_int64 (sum_int64 start ds) es
unfolding sum_int64
sum_int64-append start [] es = refl
sum_int64-append start (d ∷ ds) es = sum_int64-append (add_int64 start d) ds es
