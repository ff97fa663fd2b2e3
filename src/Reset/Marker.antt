-- ===== src/Reset/Marker.antt =====
-- hasMarker of cmd/reset/helpers.go: whether a comment marks a struct for the generator. Comments are
-- lists of lines with their slashes, nil is `none`; strings.ToLower is a parameter.
mod Tests
use golectra.Base.{
  if◌then◌else◌, String, List, Option, Bool, none, some, [], ◌∷◌, true, false, ◌==◌, ◌||◌, nat_eqb,
  trim_space,
}
use Prim.Native.Char.{code}

-- what follows a prefix
unfoldable pub after_prefix : String → String → Option String
after_prefix String.[] s = some s
after_prefix (String.◌∷◌ c p) String.[] = none
after_prefix (String.◌∷◌ c p) (String.◌∷◌ d s) =
    let rest = after_prefix p s in if nat_eqb (code c) (code d) then rest else none

-- strings.TrimPrefix
abbrev pub trim_prefix : String → String → String
trim_prefix s prefix = elim (after_prefix prefix s) [ none ↦ s | some rest ↦ rest ]

-- strings.TrimSuffix
unfoldable pub trim_suffix : String → String → String
trim_suffix String.[] suffix = ""
trim_suffix (String.◌∷◌ c s) suffix =
    let rest = trim_suffix s suffix in if String.◌∷◌ c s == suffix then "" else String.◌∷◌ c rest

module _ (to_lower : String → String) where
  -- the test of one line
  unfoldable pub is_marker : String → Bool
  unfolding after_prefix trim_suffix
  is_marker text =
      trim_space
        (trim_suffix (trim_prefix (trim_prefix (to_lower (trim_space text)) "//") "/*") "*/")
      == "+generate:reset"

  unfoldable pub any_marker : List String → Bool
  unfolding is_marker
  any_marker [] = false
  any_marker (text ∷ rest) = is_marker text || any_marker rest

  abbrev pub check : Option (List String) → Bool
  check none = false
  check (some lines) = any_marker lines

  -- hasMarker
  unfoldable pub has_marker : Option (List String) → Option (List String) → Bool
  unfolding any_marker
  has_marker gen_doc spec_doc = check spec_doc || check gen_doc
