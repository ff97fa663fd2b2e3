-- ===== src/Reset/Generate.antt =====
-- generateResetFile of cmd/reset/logic.go and emitResetMethod of main.go; go/format comes after them.
pub mod Apart
use golectra.Base.{
  nat_eqb, ◌++◌, [], some, ◌==◌, Option, none, map, if◌then◌else◌, ◌∷◌, String, List, Bool,
}
use Prim.Native.Char.{code}
use Prim.Native.String.{◌++◌ as text_append}
use golectra.Reset.{GoType, StructFields, Line, Output, Emit, line, text3, emit_fields}
use golectra.Reset.Imports.{ImportManager, Package, new_import_manager}
use golectra.MetricsService.Names.{sort}
use golectra.Base.Maps

-- targetStruct, with the fields of its underlying struct
pub record Target : Type 0 where
  pub name : String
  pub fields : StructFields

-- the text behind the last slash, if there is one
unfoldable pub after_slash : String → Option String
after_slash String.[] = none
after_slash (String.◌∷◌ c s) = elim (after_slash s) [
  | some r ↦ some r
  | none ↦ if nat_eqb (code c) b'/' then some s else none
]

abbrev pub last_part : String → String
last_part path = elim (after_slash path) [ none ↦ path | some r ↦ r ]

-- importSpec
pub record ImportSpec : Type 0 where
  pub path : String
  pub alias : String

-- the alias of a path in sortedImports: empty if it is the last part of the path
unfoldable pub spec_for : ImportManager → String → ImportSpec
unfolding after_slash
spec_for im p =
    let alias : String = elim (Maps.get im.by_path p) [ none ↦ "" | some a ↦ a ] in
    record { path = p; alias = if alias == last_part p then "" else alias }

-- sortedImports
unfoldable pub sorted_imports : ImportManager → List ImportSpec
unfolding sort spec_for
sorted_imports im = map (spec_for im) (sort (map (λ e. e.0) im.by_path.entries))

-- one line of the import block; `quote` is the verb %q
abbrev pub import_line : (String → String) → ImportSpec → Line
import_line quote spec =
    if spec.alias == "" then (1, quote spec.path) else (1, text3 spec.alias " " (quote spec.path))

abbrev pub import_block : (String → String) → List ImportSpec → List Line
import_block quote [] = []
import_block quote (spec ∷ specs) =
    (0, "import (") ∷ map (import_line quote) (spec ∷ specs) ++ (0, ")") ∷ (0, "") ∷ []

module _ (has_reset : GoType → Bool) (packages_of : GoType → List (Option Package))
    (render : GoType → List String → String) where
  -- emitResetMethod
  unfoldable pub emit_reset_method : String → Target → Emit
  unfolding line
  emit_reset_method pkg t o = line 0 "}" (
      emit_fields has_reset packages_of render pkg "x" t.fields (
        line 0 "" (
          line 1 "}" (
            line 2 "return" (
              line 1 "if x == nil {"
                (line 0 (text_append "func (x *" (text_append t.name ") Reset() {")) o))))))

  -- the loop over the targets
  unfoldable pub emit_methods : String → List Target → Emit
  unfolding emit_reset_method
  emit_methods pkg [] o = o
  emit_methods pkg (t ∷ ts) o = emit_methods pkg ts (line 0 "" (emit_reset_method pkg t o))

  abbrev pub methods_of : String → List Target → Output
  methods_of pkg ts = emit_methods pkg ts (record { lines = []; imports = new_import_manager pkg })

  -- generateResetFile, for a package with this path and this name
  unfoldable pub generate_reset_file : (String → String) → String → String → List Target → List Line
  unfolding emit_methods sorted_imports
  generate_reset_file quote pkg name ts =
      let o = methods_of pkg ts in
      ((0, "// Code generated by cmd/reset; DO NOT EDIT.")
        ∷ (0, "")
        ∷ (0, text_append "package " name)
        ∷ (0, "")
        ∷ [])
      ++ (import_block quote (sorted_imports o.imports) ++ o.lines)
