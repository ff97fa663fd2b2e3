-- ===== src/Reset/Run.antt =====
-- processPackages and findTargetStructs of cmd/reset/logic.go, on one package that loads without errors.
-- Its file reset.gen.go is part of what is loaded, so its methods count as methods of the structs.
pub mod Twice
mod Tests
use golectra.Base.{
  ◌||◌, str_ltb, ◌==◌, not, some, filter, ◌&&◌, if◌then◌else◌, false, Bool, ◌∷◌, [], none, map,
  Option, String, List,
}
use golectra.Reset.{StructFields, Line}
use golectra.Reset.Imports.{one_of}
use golectra.Reset.Generate.{Target}

-- a struct declaration: `marked` is hasMarker of its comments, `own_reset` whether the package's other
-- files give it, or its pointer, a method Reset
pub record StructDecl : Type 0 where
  pub name : String
  pub fields : StructFields
  pub marked : Bool
  pub own_reset : Bool

-- `generated` is reset.gen.go, if it is there: the structs that it gives a method, and its text
pub record SourcePackage : Type 0 where
  pub structs : List StructDecl
  pub generated : Option (List String × String)

abbrev pub generated_names : Option (List String × String) → List String
generated_names none = []
generated_names (some (names, src)) = names

abbrev pub is_target : List String → StructDecl → Bool
is_target generated s = s.marked && not (s.own_reset || one_of s.name generated)

abbrev pub to_target : StructDecl → Target
to_target s = record { name = s.name; fields = s.fields }

-- sort.Slice by the name; the names of a package are distinct
unfoldable pub insert_target : Target → List Target → List Target
insert_target t [] = t ∷ []
insert_target t (u ∷ us) = if str_ltb u.name t.name then u ∷ insert_target t us else t ∷ u ∷ us

unfoldable pub sort_targets : List Target → List Target
unfolding insert_target
sort_targets [] = []
sort_targets (t ∷ ts) = insert_target t (sort_targets ts)

-- findTargetStructs
unfoldable pub find_target_structs : SourcePackage → List Target
unfolding sort_targets
find_target_structs p =
    sort_targets (map to_target (filter (is_target (generated_names p.generated)) p.structs))

module _ (source_of : List Target → String) where
  -- the file that is written for some targets; `source_of` is generateResetFile with go/format
  abbrev pub file_for : List Target → List String × String
  file_for ts = (map (λ t. t.name) ts, source_of ts)

  abbrev pub is_same : Option (List String × String) → String → Bool
  is_same none src = false
  is_same (some (names, old)) src = old == src

  -- os.Remove without a target; else the file is written, unless it has this text
  abbrev pub outcome : SourcePackage → List Target → SourcePackage
  outcome p [] = record p { generated = none }
  outcome p (t ∷ ts) =
      if is_same p.generated (source_of (t ∷ ts))
      then p
      else record p { generated = some (file_for (t ∷ ts)) }

  -- the body of the loop of processPackages
  unfoldable pub process_package : SourcePackage → SourcePackage
  unfolding find_target_structs
  process_package p = outcome p (find_target_structs p)
