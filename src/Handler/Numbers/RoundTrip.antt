-- ===== src/Handler/Numbers/RoundTrip.antt =====
-- What FormatInt prints, ParseInt reads back.
use text.Mathlib.TextLemmas.{cons-ne-nil, nil-append, cons-append}
use golectra.Base.{
  true, ◌^◌, eq_iff, false, ◌==◌, int64_mod, sym, ◌%◌, ◌∙◌, ltb→lt, ap, ◌/◌, refl, inr, inl, ◌-◌,
  zero, ltb, ◌+◌, arith, ◌*◌, none, Bool-cases, ◌<◌, some, suc, ◌≡◌, ◌≤◌, String, Option, ℕ,
}
use Prim.Native.Char.{Char, code}
use Prim.Native.String.{◌++◌ as text_append}
use golectra.Handler.Numbers.{
  negative, positive, format_int64, parse_uint, parse_int64, parse_digits, digit, print_digits,
}

abbrev and_then : Option ℕ → (ℕ → Option ℕ) → Option ℕ
and_then none f = none
and_then (some a) f = f a

parse_digits-append :
    (s t : String) (acc : ℕ)
    → parse_digits acc (text_append s t) ≡ and_then (parse_digits acc s) (λ a. parse_digits a t)
unfolding parse_digits
parse_digits-append String.[] t acc = rw (nil-append t) refl
parse_digits-append (String.◌∷◌ c s) t acc =
    rw (cons-append c s t) (ground (arith, parse_digits-append s t (acc * 10 + (code c - 48))))

parse_digits-digit : (d acc : ℕ) → d < 10 → parse_digits acc (digit d) ≡ some (acc * 10 + d)
unfolding digit parse_digits
parse_digits-digit zero acc h = ground arith
parse_digits-digit (suc zero) acc h = ground arith
parse_digits-digit (suc (suc zero)) acc h = ground arith
parse_digits-digit (suc (suc (suc zero))) acc h = ground arith
parse_digits-digit (suc (suc (suc (suc zero)))) acc h = ground arith
parse_digits-digit (suc (suc (suc (suc (suc zero))))) acc h = ground arith
parse_digits-digit (suc (suc (suc (suc (suc (suc zero)))))) acc h = ground arith
parse_digits-digit (suc (suc (suc (suc (suc (suc (suc zero))))))) acc h = ground arith
parse_digits-digit (suc (suc (suc (suc (suc (suc (suc (suc zero)))))))) acc h = ground arith
parse_digits-digit (suc (suc (suc (suc (suc (suc (suc (suc (suc d))))))))) acc h = ground arith

-- 10 to a power
unfoldable pub pow10 : ℕ → ℕ
pow10 zero = 1
pow10 (suc k) = 10 * pow10 k

empty_digits : (n : ℕ) → n ≡ 0 → parse_digits 0 "" ≡ some n
unfolding parse_digits
empty_digits n e = ap some (sym e)

pub parse_digits-print_digits :
    (fuel n : ℕ) → n < pow10 fuel → parse_digits 0 (print_digits fuel n) ≡ some n
unfolding print_digits pow10
parse_digits-print_digits zero n h = empty_digits n (omega (arith, h))
parse_digits-print_digits (suc fuel) n h =
    let ih = parse_digits-print_digits fuel (n / 10) (omega (arith, h)) in
    elim (Bool-cases (ltb n 10)) [
      | inl small ↦ rw small (parse_digits-digit n 0 (ltb→lt n 10 small) ∙ ap some (omega arith))
      | inr large ↦ rw large (
          parse_digits-append (print_digits fuel (n / 10)) (digit (n % 10)) 0
          ∙ rw ih (parse_digits-digit (n % 10) (n / 10) (omega arith) ∙ ap some (omega arith)))
    ]

-- a text whose first character is a digit
abbrev StartsWithDigit : String → Type 0
StartsWithDigit String.[] = ⊥
StartsWithDigit (String.◌∷◌ c s) = (48 ≤ code c) × (code c ≤ 57)

digit-StartsWithDigit : (d : ℕ) → StartsWithDigit (digit d)
unfolding digit
digit-StartsWithDigit zero = omega arith
digit-StartsWithDigit (suc zero) = omega arith
digit-StartsWithDigit (suc (suc zero)) = omega arith
digit-StartsWithDigit (suc (suc (suc zero))) = omega arith
digit-StartsWithDigit (suc (suc (suc (suc zero)))) = omega arith
digit-StartsWithDigit (suc (suc (suc (suc (suc zero))))) = omega arith
digit-StartsWithDigit (suc (suc (suc (suc (suc (suc zero)))))) = omega arith
digit-StartsWithDigit (suc (suc (suc (suc (suc (suc (suc zero))))))) = omega arith
digit-StartsWithDigit (suc (suc (suc (suc (suc (suc (suc (suc zero)))))))) = omega arith
digit-StartsWithDigit (suc (suc (suc (suc (suc (suc (suc (suc (suc d))))))))) = omega arith

append-StartsWithDigit : (s t : String) → StartsWithDigit s → StartsWithDigit (text_append s t)
append-StartsWithDigit String.[] t h = absurd h
append-StartsWithDigit (String.◌∷◌ c s) t h = rw (cons-append c s t) h

print_digits-StartsWithDigit :
    (fuel n : ℕ) → n < pow10 fuel → StartsWithDigit (print_digits (suc fuel) n)
unfolding print_digits pow10
print_digits-StartsWithDigit zero n h = ground (arith, digit-StartsWithDigit n)
print_digits-StartsWithDigit (suc fuel) n h = elim (Bool-cases (ltb n 10)) [
  | inl small ↦ rw small (digit-StartsWithDigit n)
  | inr large ↦
      rw large
        (append-StartsWithDigit _ _ (print_digits-StartsWithDigit fuel (n / 10) (omega (arith, h))))
]

cons_not_empty : (c : Char) (s : String) → (String.◌∷◌ c s == "") ≡ false
cons_not_empty c s = ground (arith, eq_iff (String.◌∷◌ c s) "", cons-ne-nil c s)

parse_uint_digits : (s : String) → StartsWithDigit s → parse_uint s ≡ parse_digits 0 s
unfolding parse_uint
parse_uint_digits String.[] h = absurd h
parse_uint_digits (String.◌∷◌ c s) h = rw (cons_not_empty c s) refl

parse_int64_digits : (s : String) → StartsWithDigit s → parse_int64 s ≡ positive (parse_uint s)
unfolding parse_int64
parse_int64_digits String.[] h = absurd h
parse_int64_digits (String.◌∷◌ c s) h = ground arith

parse_int64_minus : (s : String) → parse_int64 (text_append "-" s) ≡ negative (parse_uint s)
unfolding parse_int64
parse_int64_minus s = rw (cons-append "-" "" s) (rw (nil-append s) refl)

parse_uint-print_digits : (n : ℕ) → n ≤ 2 ^ 63 → parse_uint (print_digits 20 n) ≡ some n
unfolding pow10
parse_uint-print_digits n h =
    parse_uint_digits (print_digits 20 n) (print_digits-StartsWithDigit 19 n (omega (arith, h)))
    ∙ parse_digits-print_digits 20 n (omega (arith, h))

below_pow : (n : ℕ) → n < 2 ^ 63 → n < pow10 19
unfolding pow10
below_pow n h = omega (arith, h)

minus_small : (n : ℕ) → ltb n (2 ^ 63) ≡ false → 2 ^ 64 - n ≤ 2 ^ 63
minus_small n h = ground arith

positive_small : (n : ℕ) → ltb n (2 ^ 63) ≡ true → positive (some n) ≡ some n
positive_small n h = rw h refl

negative_large :
    (n : ℕ) → ltb n (2 ^ 63) ≡ false → n < int64_mod → negative (some (2 ^ 64 - n)) ≡ some n
negative_large n h b = ground arith

-- The text that FormatInt prints for an int64 is one that ParseInt accepts, and reads as this int64.
pub parse_int64-format_int64 : (n : ℕ) → n < int64_mod → parse_int64 (format_int64 n) ≡ some n
unfolding format_int64
parse_int64-format_int64 n h = elim (Bool-cases (ltb n (2 ^ 63))) [
  | inl small ↦ rw small (
      parse_int64_digits (print_digits 20 n)
        (print_digits-StartsWithDigit 19 n (below_pow n (ltb→lt n (2 ^ 63) small)))
      ∙ ap positive (parse_uint-print_digits n (omega (arith, ltb→lt n (2 ^ 63) small)))
      ∙ positive_small n small)
  | inr large ↦ rw large (
      parse_int64_minus (print_digits 20 (2 ^ 64 - n))
      ∙ ap negative (parse_uint-print_digits (2 ^ 64 - n) (minus_small n large))
      ∙ negative_large n large h)
]
