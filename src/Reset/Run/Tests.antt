-- ===== src/Reset/Run/Tests.antt =====
-- The generator on a small package, with the structs of two packages of one name.
use golectra.Base.Maps
use golectra.Base.{
  eq_iff, arith, none, [], refl, ◌≢◌, ◌∷◌, true, some, Option, false, ◌≡◌, Bool, String, List,
}
use golectra.Reset.Run.{SourcePackage}
use golectra.Reset.Generate.{spec_for, sorted_imports, generate_reset_file, methods_of, Target}
use golectra.Reset.{
  text_append, GoType, StructFields, basic, other_kind, slice, struct, named, field, no_fields,
}
use golectra.Reset.Imports.{one_of, fresh_alias, ImportManager, Package}
use golectra.Reset.Generate.Apart.{spec_for-apart, bound_name}

abbrev foreign : String → GoType
foreign path = named "Stats" (some path) (struct no_fields)

abbrev has_reset : GoType → Bool
has_reset t = false

abbrev packages_of : GoType → List (Option Package)
packages_of (named n (some p) u) = some (record { path = p; name = "runtime" }) ∷ []
packages_of t = none ∷ []

abbrev render : GoType → List String → String
render (named n p u) (alias ∷ aliases) = text_append alias (text_append "." n)
render t aliases = "struct"

abbrev fields : StructFields
fields = field "count" (basic other_kind) (
    field "here" (foreign "a/runtime")
      (field "there" (foreign "b/runtime") (field "tail" slice no_fields)))

abbrev target : Target
target = record { name = "Buffer"; fields = fields }

generated_run :
    generate_reset_file has_reset packages_of render (λ p. p) "demo" "demo" (target ∷ [])
    ≡ (0, "// Code generated by cmd/reset; DO NOT EDIT.")
      ∷ (0, "")
      ∷ (0, "package demo")
      ∷ (0, "")
      ∷ (0, "import (")
      ∷ (1, "a/runtime")
      ∷ (1, "runtime2 b/runtime")
      ∷ (0, ")")
      ∷ (0, "")
      ∷ (0, "func (x *Buffer) Reset() {")
      ∷ (1, "if x == nil {")
      ∷ (2, "return")
      ∷ (1, "}")
      ∷ (0, "")
      ∷ (1, "x.count = 0")
      ∷ (1, "x.here = runtime.Stats{}")
      ∷ (1, "x.there = runtime2.Stats{}")
      ∷ (1, "x.tail = x.tail[:0]")
      ∷ (0, "}")
      ∷ (0, "")
      ∷ []
unfolding generate_reset_file sorted_imports golectra.Reset.emit_fields golectra.Reset.is_accessible
    golectra.Reset.assign_empty golectra.Reset.Imports.qualify_all
    golectra.Reset.Imports.new_import_manager Maps.get Maps.lookup Maps.empty Maps.put Maps.store
    golectra.Base.str_ltb fresh_alias golectra.Reset.zero_basic
    golectra.Reset.Imports.numbered_alias golectra.Handler.Numbers.print_digits
generated_run = refl

abbrev source_package : SourcePackage
source_package = record {
  structs = record { name = "Buffer"; fields = fields; marked = true; own_reset = false } ∷ [];
  generated = none;
}

abbrev source_of : List Target → String
source_of ts = "package demo"

abbrev imports : ImportManager
imports = (methods_of has_reset packages_of render "demo" (target ∷ [])).imports

second_alias : Maps.get imports.by_path "b/runtime" ≡ some "runtime2"
unfolding Maps.get Maps.lookup golectra.Reset.Generate.emit_methods golectra.Reset.emit_fields
    golectra.Reset.is_accessible golectra.Reset.assign_empty golectra.Reset.Imports.qualify_all
    golectra.Reset.Imports.new_import_manager Maps.empty Maps.put Maps.store fresh_alias
    golectra.Reset.Imports.numbered_alias golectra.Handler.Numbers.print_digits
second_alias = refl

first_alias : Maps.get imports.by_path "a/runtime" ≡ some "runtime"
unfolding Maps.get Maps.lookup golectra.Reset.Generate.emit_methods golectra.Reset.emit_fields
    golectra.Reset.is_accessible golectra.Reset.assign_empty golectra.Reset.Imports.qualify_all
    golectra.Reset.Imports.new_import_manager Maps.empty Maps.put Maps.store fresh_alias
    golectra.Reset.Imports.numbered_alias golectra.Handler.Numbers.print_digits
first_alias = refl

abbrev name_of : String → String
name_of path = "runtime"

first_given : ◌≢◌ {A = String} "runtime" ""
first_given e = ground (arith, eq_iff "runtime" "", e)

second_given : ◌≢◌ {A = String} "runtime2" ""
second_given e = ground (arith, eq_iff "runtime2" "", e)

other_path : ◌≢◌ {A = String} "a/runtime" "b/runtime"
other_path e = ground (arith, eq_iff "a/runtime" "b/runtime", e)

spec_for-apart_example :
    bound_name name_of (spec_for imports "a/runtime")
    ≢ bound_name name_of (spec_for imports "b/runtime")
unfolding golectra.Reset.Generate.after_slash
spec_for-apart_example =
    spec_for-apart has_reset packages_of render name_of "demo" (target ∷ []) "a/runtime" "b/runtime"
      "runtime" "runtime2" first_alias second_alias first_given second_given refl refl other_path
