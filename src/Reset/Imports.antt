-- ===== src/Reset/Imports.antt =====
-- cmd/reset/helpers.go: the import manager. A package of go/types is its path and its name.
pub mod Fresh
pub mod Distinct
use golectra.Base.{
  ◌||◌, ◌==◌, zero, length, false, Bool, none, if◌then◌else◌, some, ◌∷◌, suc, [], List, String, ℕ,
  Option,
}
use Prim.Native.String.{◌++◌ as text_append}
use golectra.Base.Maps
use golectra.Base.Maps.{GoMap}
use golectra.Handler.Numbers.{print_digits}

pub record Package : Type 0 where
  pub path : String
  pub name : String

-- importManager; `used_alias` holds the keys of the map of that name, whose values are all true
pub record ImportManager : Type 0 where
  pub local_pkg_path : String
  pub by_path : GoMap String
  pub used_alias : List String

abbrev pub one_of : String → List String → Bool
one_of a [] = false
one_of a (x ∷ xs) = x == a || one_of a xs

-- newImportManager
unfoldable pub new_import_manager : String → ImportManager
new_import_manager path = record { local_pkg_path = path; by_path = Maps.empty; used_alias = [] }

-- `fmt.Sprintf("%s%d", base, i)`
unfoldable pub numbered_alias : String → ℕ → String
numbered_alias base i = text_append base (print_digits (suc i) i)

-- `for i := 2; ; i++`, on the rounds that are left
unfoldable pub first_free : ℕ → ℕ → String → List String → String
first_free zero i base used = numbered_alias base i
first_free (suc rounds) i base used =
    let later = first_free rounds (suc i) base used in
    let alias = numbered_alias base i in if one_of alias used then later else alias

unfoldable pub fresh_alias : String → List String → String
unfolding first_free
fresh_alias base used = if one_of base used then first_free (length used) 2 base used else base

abbrev pub record_alias : Package → String → ImportManager → ImportManager
record_alias p alias im = record im {
  by_path = Maps.put im.by_path p.path alias;
  used_alias = alias ∷ im.used_alias;
}

-- an alias that is known, or a new one
abbrev pub alias_for : Package → Option String → ImportManager → String × ImportManager
alias_for p (some alias) im = (alias, im)
alias_for p none im =
    let alias = fresh_alias p.name im.used_alias in (alias, record_alias p alias im)

-- qualifier: `none` is nil
unfoldable pub qualifier : Option Package → ImportManager → String × ImportManager
qualifier none im = ("", im)
qualifier (some p) im =
    if p.path == im.local_pkg_path then ("", im) else alias_for p (Maps.get im.by_path p.path) im

-- The calls of qualifier that types.TypeString makes, one for each package that a type names.
unfoldable pub qualify_all : List (Option Package) → ImportManager → List String × ImportManager
unfolding qualifier
qualify_all [] im = ([], im)
qualify_all (p ∷ ps) im =
    let (alias, im1) = qualifier p im in
    let (aliases, im2) = qualify_all ps im1 in (alias ∷ aliases, im2)
