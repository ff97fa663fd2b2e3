-- ===== src/Reset/Packages.antt =====
-- processPackages of cmd/reset/logic.go on all packages that packages.Load gave, and hasResetMethod of
-- cmd/reset/helpers.go. Reading, writing and removing a file succeed; `source_of` is generateResetFile
-- with go/format.
mod Tests
pub mod Unchanged
use golectra.Base.{
  List, [], ◌∷◌, Option, none, some, String, ℕ, suc, Bool, true, false, ◌==◌, ◌&&◌, nat_eqb, not,
  if◌then◌else◌,
}
use golectra.Domain.{Result, ok, err, other}
use golectra.Reset.Generate.{Target}
use golectra.Reset.Run.{SourcePackage, find_target_structs, process_package, is_same}

-- An object of a method set: its name and, for a *types.Func, the numbers of parameters and results.
pub record Method : Type 0 where
  pub name : String
  pub signature : Option (ℕ × ℕ)

abbrev pub is_reset_signature : Option (ℕ × ℕ) → Bool
is_reset_signature none = false
is_reset_signature (some (params, results)) = nat_eqb params 0 && nat_eqb results 0

-- hasResetMethod, on the method set of the type
unfoldable pub has_reset_method : List Method → Bool
has_reset_method [] = false
has_reset_method (m ∷ ms) =
    let rest = has_reset_method ms in
    if m.name == "Reset" && is_reset_signature m.signature then true else rest

-- packages.Package: the errors of loading it, whether it has Go files, and what is in them
pub record Loaded : Type 0 where
  pub errors : List String
  pub has_files : Bool
  pub source : SourcePackage

module _ (source_of : List Target → String) where
  -- whether the file reset.gen.go is removed or written
  abbrev pub writes : SourcePackage → List Target → Bool
  writes p [] = elim p.generated [ none ↦ false | some g ↦ true ]
  writes p (t ∷ ts) = not (is_same source_of p.generated (source_of (t ∷ ts)))

  abbrev pub and_then : Bool → Loaded → Result ℕ × List Loaded → Result ℕ × List Loaded
  and_then changed p (ok n, ps) = (ok (if changed then suc n else n), p ∷ ps)
  and_then changed p (err e, ps) = (err e, p ∷ ps)

  abbrev pub processed : Loaded → Loaded
  processed p = record p { source = process_package source_of p.source }

  -- one round, with the errors of the package, whether it has files, and what the later rounds give
  abbrev pub round :
      List String → Bool → Loaded → List Loaded → Result ℕ × List Loaded → Result ℕ × List Loaded
  round (e ∷ es) has_files p ps rest = (err (other "package load errors"), p ∷ ps)
  round [] false p ps rest = and_then false p rest
  round [] true p ps rest =
      and_then (writes p.source (find_target_structs p.source)) (processed p) rest

  -- the loop of processPackages, with the number of files that it changed; log.Fatal on a package with
  -- errors ends the process, which is an error here
  unfoldable pub process_packages : List Loaded → Result ℕ × List Loaded
  process_packages [] = (ok 0, [])
  process_packages (p ∷ ps) = round p.errors p.has_files p ps (process_packages ps)
