-- ===== src/Reset/Imports/Fresh.antt =====
-- The loop that looks for a free alias ends, and the alias is free.
use golectra.Base.{
  ap, ◌∙◌, ◌==◌, [], inr, inl, Bool-cases, if◌then◌else◌, eq_iff, sym, zero, length, some, ◌∷◌, ◌≢◌,
  arith, ◌≤◌, false, true, List, suc, ◌≡◌, ◌<◌, String, ℕ,
}
use golectra.Reset.Imports.{one_of, numbered_alias, first_free, fresh_alias}
use golectra.Handler.Numbers.{parse_digits, print_digits}
use golectra.Handler.Numbers.RoundTrip.{parse_digits-print_digits, pow10}
use text.Mathlib.TextLemmas.{append_cancel_left}

below_pow10 : (n : ℕ) → n < pow10 (suc n)
unfolding pow10
below_pow10 zero = omega arith
below_pow10 (suc n) = omega (arith, below_pow10 n)

printed_inj : (i j : ℕ) → print_digits (suc i) i ≡ print_digits (suc j) j → i ≡ j
printed_inj i j e =
    let same : some i ≡ some j =
      sym (parse_digits-print_digits (suc i) i (below_pow10 i))
      ∙ ap (parse_digits 0) e
      ∙ parse_digits-print_digits (suc j) j (below_pow10 j) in
    cc same

numbered_alias_inj :
    (base : String) (i j : ℕ) → numbered_alias base i ≡ numbered_alias base j → i ≡ j
unfolding numbered_alias
numbered_alias_inj base i j e = printed_inj i j (append_cancel_left base _ _ e)

remove : String → List String → List String
remove a [] = []
remove a (x ∷ xs) = if x == a then xs else x ∷ remove a xs

one_of-remove :
    (a b : String) (used : List String)
    → a ≢ b
    → one_of b used ≡ true
    → one_of b (remove a used) ≡ true
unfolding remove
one_of-remove a b [] n h = h
one_of-remove a b (x ∷ xs) n h =
    ground (arith, one_of-remove a b xs n, eq_iff x a, eq_iff x b, n, h)

length-remove :
    (a : String) (used : List String)
    → one_of a used ≡ true
    → length used ≡ suc (length (remove a used))
unfolding remove
length-remove a [] h = absurd (cc h)
length-remove a (x ∷ xs) h = ground (arith, length-remove a xs, h)

-- `n` aliases from `i` on are used.
abbrev AllUsed : ℕ → ℕ → String → List String → Type 0
AllUsed zero i base used = Unit
AllUsed (suc n) i base used =
    (one_of (numbered_alias base i) used ≡ true) × AllUsed n (suc i) base used

AllUsed-remove :
    (n i j : ℕ) (base : String) (used : List String)
    → j < i
    → AllUsed n i base used
    → AllUsed n i base (remove (numbered_alias base j) used)
AllUsed-remove zero i j base used lt h = tt
AllUsed-remove (suc n) i j base used lt h = (
  one_of-remove (numbered_alias base j) (numbered_alias base i) used
      (λ e. absurd (omega (arith, lt, numbered_alias_inj base j i e))) h.0,
  AllUsed-remove n (suc i) j base used (omega (arith, lt)) h.1,
)

-- No more numbered aliases are used than there are used aliases.
AllUsed-le :
    (n i : ℕ) (base : String) (used : List String) → AllUsed n i base used → n ≤ length used
AllUsed-le zero i base used h = omega arith
AllUsed-le (suc n) i base used h =
    let fewer =
      AllUsed-le n (suc i) base (remove (numbered_alias base i) used)
        (AllUsed-remove n (suc i) i base used (omega arith) h.1) in
    omega (arith, fewer, length-remove (numbered_alias base i) used h.0)

first_free-used :
    (rounds i : ℕ) (base : String) (used : List String)
    → one_of (first_free rounds i base used) used ≡ true
    → AllUsed (suc rounds) i base used
unfolding first_free
first_free-used zero i base used h = (h, tt)
first_free-used (suc rounds) i base used h =
    elim (Bool-cases (one_of (numbered_alias base i) used)) [
      | inl taken ↦ (taken, first_free-used rounds (suc i) base used (rw taken at h))
      | inr open_alias ↦ absurd (cc (rw open_alias at h, open_alias))
    ]

-- The alias that the import manager takes for a package is not in use: the loop over the numbered
-- ones finds a free one within as many rounds as aliases are in use.
pub fresh_alias_free :
    (base : String) (used : List String) → one_of (fresh_alias base used) used ≡ false
unfolding fresh_alias
fresh_alias_free base used = elim (Bool-cases (one_of base used)) [
  | inr free ↦ rw free free
  | inl taken ↦ rw taken (elim (Bool-cases (one_of (first_free (length used) 2 base used) used)) [
    | inr free ↦ free
    | inl all ↦ absurd (
        omega (
          arith,
          AllUsed-le (suc (length used)) 2 base used
              (first_free-used (length used) 2 base used all),
        ))
  ])
]
