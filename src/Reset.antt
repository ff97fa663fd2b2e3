-- ===== src/Reset.antt =====
-- cmd/reset: the generator of Reset methods. Types come from go/types: `has_reset` is hasResetMethod on
-- their method sets (Reset/Packages), and `packages_of`, `render` are the parts of types.TypeString.
pub mod Imports
pub mod Generate
pub mod Run
pub mod Marker
pub mod Root
pub mod Packages
use golectra.Base.{
  if◌then◌else◌, none, [], ◌==◌, some, ◌∷◌, false, true, ◌++◌, Option, List, String, ℕ, Bool,
}
use Prim.Native.String.{◌++◌ as text_append}
use golectra.Reset.Imports.{ImportManager, Package, qualify_all}

-- The kinds of types.Basic that zeroBasic tells apart.
pub data BasicKind : Type 0 where
  bool_kind : BasicKind
  string_kind : BasicKind
  untyped_nil : BasicKind
  other_kind : BasicKind

mutual
  -- types.Type, as far as the generator looks into it: a type that is reached again through its own
  -- fields is not one of these. A named type has its package and its underlying type.
  pub data GoType : Type 0 where
    basic : BasicKind → GoType
    slice : GoType
    map_type : GoType
    chan_type : GoType
    signature : GoType
    interface : GoType
    array : GoType
    pointer : GoType → GoType
    struct : StructFields → GoType
    named : String → Option String → GoType → GoType

  pub data StructFields : Type 0 where
    no_fields : StructFields
    field : String → GoType → StructFields → StructFields

-- zeroBasic
unfoldable pub zero_basic : BasicKind → String
zero_basic bool_kind = "false"
zero_basic string_kind = "\"\""
zero_basic untyped_nil = "nil"
zero_basic other_kind = "0"

-- a line of codeWriter, with its indent
abbrev pub Line : Type 0
Line = ℕ × String

abbrev pub same_path : Option String → String → Bool
same_path none q = false
same_path (some p) q = p == q

-- accessibleStruct, of a type whose underlying type is a struct
unfoldable pub is_accessible : String → GoType → Bool
is_accessible local_pkg_path (struct fs) = true
is_accessible local_pkg_path (named n pkg u) = same_path pkg local_pkg_path
is_accessible local_pkg_path t = false

-- The text and the imports so far.
pub record Output : Type 0 where
  pub lines : List Line
  pub imports : ImportManager

abbrev pub Emit : Type 0
Emit = Output → Output

-- codeWriter.line
unfoldable pub line : ℕ → String → Emit
line indent s o = record o { lines = o.lines ++ (indent, s) ∷ [] }

abbrev pub text3 : String → String → String → String
text3 a b c = text_append a (text_append b c)

module _ (has_reset : GoType → Bool) (packages_of : GoType → List (Option Package))
    (render : GoType → List String → String) where
  -- typeString
  abbrev pub type_string : GoType → ImportManager → String × ImportManager
  type_string t im = let (aliases, im') = qualify_all (packages_of t) im in (render t aliases, im')

  -- `target = T{}`
  unfoldable pub assign_empty : ℕ → String → GoType → Emit
  unfolding line
  assign_empty indent target t o =
      let (name, im) = type_string t o.imports in
      line indent (text3 target " = " (text_append name "{}")) (record o { imports = im })

  -- zeroExpr of a type with the underlying type given last
  unfoldable pub zero_expr : GoType → GoType → ImportManager → String × ImportManager
  zero_expr whole (basic k) im = (zero_basic k, im)
  zero_expr whole (struct fs) im =
      let (name, im') = type_string whole im in (text_append name "{}", im')
  zero_expr whole array im = let (name, im') = type_string whole im in (text_append name "{}", im')
  zero_expr whole (named n p u) im = zero_expr whole u im
  zero_expr whole u im = ("nil", im)

  -- `target = zeroExpr`
  unfoldable pub assign_zero : ℕ → String → GoType → GoType → Emit
  unfolding line
  assign_zero indent target whole u o =
      let (zero_value, im) = zero_expr whole u o.imports in
      line indent (text3 target " = " zero_value) (record o { imports = im })

  unfoldable mutual
    -- emitResetForExpr of a type with the underlying type given last
    pub emit_for_expr : String → GoType → String → GoType → Emit
    emit_for_expr pkg whole expr (basic k) o = line 1 (text3 expr " = " (zero_basic k)) o
    emit_for_expr pkg whole expr slice o = line 1 (text3 expr " = " (text_append expr "[:0]")) o
    emit_for_expr pkg whole expr map_type o = line 1 (text3 "clear(" expr ")") o
    emit_for_expr pkg whole expr (pointer elem) o =
        line 1 "}"
          (emit_through_pointer pkg elem expr elem (line 1 (text3 "if " expr " != nil {") o))
    emit_for_expr pkg whole expr (struct fs) o =
        if has_reset (pointer whole)
        then line 1 (text3 "(&" expr ").Reset()") o
        else if has_reset whole
        then line 1 (text_append expr ".Reset()") o
        else if is_accessible pkg whole
        then emit_fields pkg expr fs o
        else assign_empty 1 expr whole o
    emit_for_expr pkg whole expr array o = assign_empty 1 expr whole o
    emit_for_expr pkg whole expr (named n p u) o = emit_for_expr pkg whole expr u o
    emit_for_expr pkg whole expr chan_type o = assign_zero 1 expr whole chan_type o
    emit_for_expr pkg whole expr signature o = assign_zero 1 expr whole signature o
    emit_for_expr pkg whole expr interface o = assign_zero 1 expr whole interface o

    -- emitResetThroughPointer
    pub emit_through_pointer : String → GoType → String → GoType → Emit
    emit_through_pointer pkg whole ptr (basic k) o =
        line 2 (text_append "*" (text3 ptr " = " (zero_basic k))) o
    emit_through_pointer pkg whole ptr slice o =
        line 2 (text_append "*" (text3 ptr " = (*" (text_append ptr ")[:0]"))) o
    emit_through_pointer pkg whole ptr map_type o = line 2 (text3 "clear(*" ptr ")") o
    emit_through_pointer pkg whole ptr (pointer elem) o = line 2 "}" (
        emit_through_pointer pkg elem (text_append "*" ptr) elem
          (line 2 (text3 "if *" ptr " != nil {") o))
    emit_through_pointer pkg whole ptr (struct fs) o =
        if has_reset (pointer whole)
        then line 2 (text_append ptr ".Reset()") o
        else if is_accessible pkg whole
        then emit_fields pkg ptr fs o
        else assign_empty 2 (text_append "*" ptr) whole o
    emit_through_pointer pkg whole ptr array o = assign_empty 2 (text_append "*" ptr) whole o
    emit_through_pointer pkg whole ptr (named n p u) o = emit_through_pointer pkg whole ptr u o
    emit_through_pointer pkg whole ptr chan_type o =
        assign_zero 2 (text_append "*" ptr) whole chan_type o
    emit_through_pointer pkg whole ptr signature o =
        assign_zero 2 (text_append "*" ptr) whole signature o
    emit_through_pointer pkg whole ptr interface o =
        assign_zero 2 (text_append "*" ptr) whole interface o

    -- the loops over the fields of a struct
    pub emit_fields : String → String → StructFields → Emit
    emit_fields pkg expr no_fields o = o
    emit_fields pkg expr (field n t rest) o =
        emit_fields pkg expr rest (emit_for_expr pkg t (text3 expr "." n) t o)
