-- ===== src/Base/Texts.antt =====
-- Go strings as texts: `strings.TrimSpace`, and the order by which Go compares strings.
-- A text is the sequence of its code points; the order of the bytes of UTF-8 is theirs.
use Prim.Native.Nat.{ℕ}
use Prim.Native.Char.{Char, code}
use Prim.Native.String.{String, [], ◌∷◌}
use mathlib.Core.Path.{◌≡◌, refl, ap}
use mathlib.Core.Bool.{Bool, true, false, ◌&&◌, ◌||◌}
use mathlib.Core.Logic.{◌⊎◌, inl, inr}
use native.Mathlib.Omega.{arith}
use text.Mathlib.TextEquality.{Char-path}
use golectra.Base.Tests.{ltb, leb, nat_eqb, if◌then◌else◌, Bool-cases}

-- unicode.IsSpace: the code points with the property White_Space.
unfoldable pub is_space : ℕ → Bool
is_space c =
    (leb 9 c && leb c 13)
    || nat_eqb c 0x20
    || nat_eqb c 0x85
    || nat_eqb c 0xa0
    || nat_eqb c 0x1680
    || (leb 0x2000 c && leb c 0x200a)
    || nat_eqb c 0x2028
    || nat_eqb c 0x2029
    || nat_eqb c 0x202f
    || nat_eqb c 0x205f
    || nat_eqb c 0x3000

unfoldable pub trim_left : String → String
trim_left [] = []
trim_left (c ∷ s) = if is_space (code c) then trim_left s else c ∷ s

-- A character stays if it is no space or if a character after it stays.
abbrev pub cons_unless_blank : Char → String → String
cons_unless_blank c [] = if is_space (code c) then [] else c ∷ []
cons_unless_blank c (d ∷ s) = c ∷ d ∷ s

unfoldable pub trim_right : String → String
trim_right [] = []
trim_right (c ∷ s) = cons_unless_blank c (trim_right s)

-- strings.TrimSpace
unfoldable pub trim_space : String → String
trim_space s = trim_right (trim_left s)

cons_unless_blank-IsTrimmed :
    (c : Char) (t : String)
    → trim_right t ≡ t
    → trim_right (cons_unless_blank c t) ≡ cons_unless_blank c t
unfolding trim_right
cons_unless_blank-IsTrimmed c [] h = elim (Bool-cases (is_space (code c))) [
  | inl blank ↦ rw blank refl
  | inr solid ↦ rw solid (rw solid)
]
cons_unless_blank-IsTrimmed c (d ∷ s) h = ap (cons_unless_blank c) h

trim_right_idem : (s : String) → trim_right (trim_right s) ≡ trim_right s
unfolding trim_right
trim_right_idem [] = refl
trim_right_idem (c ∷ s) = cons_unless_blank-IsTrimmed c (trim_right s) (trim_right_idem s)

-- What a text that begins with no space keeps.
cons_unless_blank_keeps :
    (c : Char) (t : String) → is_space (code c) ≡ false → cons_unless_blank c t ≡ c ∷ t
cons_unless_blank_keeps c [] h = rw h
cons_unless_blank_keeps c (d ∷ s) h = refl

-- Trimming a text on the left leaves nothing, or a text whose first character is no space.
trim_left_cases :
    (s : String)
    → (trim_left s ≡ [])
      ⊎ ((c : Char) × (r : String) × (trim_left s ≡ c ∷ r) × (is_space (code c) ≡ false))
unfolding trim_left
trim_left_cases [] = inl refl
trim_left_cases (c ∷ s) = elim (Bool-cases (is_space (code c))) [
  | inl blank ↦ rw blank (trim_left_cases s)
  | inr solid ↦ inr (c, s, rw solid, solid)
]

trim_left-trim_right :
    (c : Char) (r : String)
    → is_space (code c) ≡ false
    → trim_left (trim_right (c ∷ r)) ≡ trim_right (c ∷ r)
trim_left-trim_right c r solid =
    let e : trim_right (c ∷ r) ≡ c ∷ trim_right r =
      unfold trim_right in cons_unless_blank_keeps c (trim_right r) solid in
    rw e (unfold trim_left in rw solid)

pub trim_space_idem : (s : String) → trim_space (trim_space s) ≡ trim_space s
unfolding trim_space
trim_space_idem s = elim (trim_left_cases s) [
  | inl e ↦ rw e (unfold trim_left trim_right in refl)
  | inr (c, r, e, solid) ↦ rw (e, trim_left-trim_right c r solid) (trim_right_idem (c ∷ r))
]

-- The order of Go strings: that of the first code points that differ, and a prefix comes first.
unfoldable pub str_ltb : String → String → Bool
str_ltb [] [] = false
str_ltb [] (d ∷ t) = true
str_ltb (c ∷ s) [] = false
str_ltb (c ∷ s) (d ∷ t) =
    if ltb (code c) (code d) then true else if ltb (code d) (code c) then false else str_ltb s t

pub str_ltb_irrefl : (s : String) → str_ltb s s ≡ false
unfolding str_ltb
str_ltb_irrefl [] = refl
str_ltb_irrefl (c ∷ s) = ground (arith, str_ltb_irrefl s)

pub str_ltb_trans : (s t u : String) → str_ltb s t ≡ true → str_ltb t u ≡ true → str_ltb s u ≡ true
unfolding str_ltb
str_ltb_trans [] [] u h k = cc
str_ltb_trans [] (d ∷ t) [] h k = cc
str_ltb_trans [] (d ∷ t) (e ∷ u) h k = refl
str_ltb_trans (c ∷ s) [] u h k = cc
str_ltb_trans (c ∷ s) (d ∷ t) [] h k = cc
str_ltb_trans (c ∷ s) (d ∷ t) (e ∷ u) h k = ground (arith, str_ltb_trans s t u)

cons-eq : (c d : Char) (s t : String) → code c ≡ code d → s ≡ t → Path String (c ∷ s) (d ∷ t)
cons-eq c d s t e p = cc (Char-path c d e)

pub str_ltb_trichotomy : (s t : String) → (str_ltb s t ≡ true) ⊎ ((s ≡ t) ⊎ (str_ltb t s ≡ true))
unfolding str_ltb
str_ltb_trichotomy [] [] = inr (inl refl)
str_ltb_trichotomy [] (d ∷ t) = inl refl
str_ltb_trichotomy (c ∷ s) [] = inr (inr refl)
str_ltb_trichotomy (c ∷ s) (d ∷ t) = ground (arith, str_ltb_trichotomy s t, cons-eq c d s t)
