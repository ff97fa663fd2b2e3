-- ===== src/Handler/Numbers.antt =====
-- strconv.ParseInt(s, 10, 64) and strconv.FormatInt(n, 10), on the bit patterns of int64.
pub mod RoundTrip
use Prim.Native.Char.{code}
use Prim.Native.String.{◌++◌ as text_append}
use golectra.Base.{
  inr, inl, Bool-cases, arith, int64_mod, ◌/◌, zero, ◌<◌, ◌≡◌, suc, ◌%◌, ◌&&◌, ◌-◌, ◌^◌, ◌+◌,
  nat_eqb, ltb, ◌*◌, leb, none, some, ◌==◌, String, Option, ℕ, if◌then◌else◌,
}

-- the number that decimal digits stand for, after `acc`
unfoldable pub parse_digits : ℕ → String → Option ℕ
parse_digits acc String.[] = some acc
parse_digits acc (String.◌∷◌ c s) =
    let rest = parse_digits (acc * 10 + (code c - 48)) s in
    if leb 48 (code c) && leb (code c) 57 then rest else none

-- ParseUint: at least one digit
unfoldable pub parse_uint : String → Option ℕ
unfolding parse_digits
parse_uint s = if s == "" then none else parse_digits 0 s

-- the checks of the range, for a number without and with a minus sign
abbrev pub positive : Option ℕ → Option ℕ
positive none = none
positive (some n) = if ltb n (2 ^ 63) then some n else none

abbrev pub negative : Option ℕ → Option ℕ
negative none = none
negative (some n) = if leb n (2 ^ 63) then some ((2 ^ 64 - n) % 2 ^ 64) else none

unfoldable pub parse_int64 : String → Option ℕ
unfolding parse_uint
parse_int64 String.[] = none
parse_int64 (String.◌∷◌ c s) =
    if nat_eqb (code c) b'-'
    then negative (parse_uint s)
    else if nat_eqb (code c) b'+'
    then positive (parse_uint s)
    else positive (parse_uint (String.◌∷◌ c s))

unfoldable pub digit : ℕ → String
digit zero = "0"
digit (suc zero) = "1"
digit (suc (suc zero)) = "2"
digit (suc (suc (suc zero))) = "3"
digit (suc (suc (suc (suc zero)))) = "4"
digit (suc (suc (suc (suc (suc zero))))) = "5"
digit (suc (suc (suc (suc (suc (suc zero)))))) = "6"
digit (suc (suc (suc (suc (suc (suc (suc zero))))))) = "7"
digit (suc (suc (suc (suc (suc (suc (suc (suc zero)))))))) = "8"
digit _ = "9"

-- The decimal digits of a number; the fuel bounds their count.
unfoldable pub print_digits : ℕ → ℕ → String
unfolding digit
print_digits zero n = ""
print_digits (suc fuel) n =
    let front = print_digits fuel (n / 10) in
    if ltb n 10 then digit n else text_append front (digit (n % 10))

-- 2 ^ 63 has 19 digits.
unfoldable pub format_int64 : ℕ → String
unfolding print_digits
format_int64 n =
    if ltb n (2 ^ 63) then print_digits 20 n else text_append "-" (print_digits 20 (2 ^ 64 - n))

positive_bounds : (o : Option ℕ) (n : ℕ) → positive o ≡ some n → n < int64_mod
positive_bounds none n h = cc
positive_bounds (some m) n h = ground arith

negative_bounds : (o : Option ℕ) (n : ℕ) → negative o ≡ some n → n < int64_mod
negative_bounds none n h = cc
negative_bounds (some m) n h = ground arith

-- What ParseInt returns is the bit pattern of an int64.
pub parse_int64_bounds : (s : String) (n : ℕ) → parse_int64 s ≡ some n → n < int64_mod
unfolding parse_int64
parse_int64_bounds String.[] n h = cc
parse_int64_bounds (String.◌∷◌ c s) n h = elim (Bool-cases (nat_eqb (code c) b'-')) [
  | inl minus ↦ negative_bounds (parse_uint s) n (rw minus at h)
  | inr no_minus ↦ elim (Bool-cases (nat_eqb (code c) b'+')) [
    | inl plus ↦ positive_bounds (parse_uint s) n (rw (no_minus, plus) at h)
    | inr no_plus ↦ positive_bounds (parse_uint (String.◌∷◌ c s)) n (rw (no_minus, no_plus) at h)
  ]
]
