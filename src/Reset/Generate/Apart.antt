-- ===== src/Reset/Generate/Apart.antt =====
-- The imports of a generated file.
use golectra.Base.{
  refl, false, true, ap, eq_iff, ◌∙◌, arith, ◌==◌, sym, if◌then◌else◌, ◌≢◌, some, [], if-inv, ℕ,
  ◌≡◌, ◌∷◌, String, Option, List, Bool,
}
use golectra.Reset.{
  GoType, StructFields, basic, slice, map_type, chan_type, signature, interface, array, pointer,
  struct, named, no_fields, field, Output, line, assign_empty, zero_expr, assign_zero,
  emit_for_expr, emit_through_pointer, emit_fields, is_accessible,
}
use golectra.Reset.Imports.{ImportManager, Package}
use golectra.Reset.Imports.Distinct.{IsDistinct, qualify_all-IsDistinct, new-IsDistinct}
use golectra.Base.Maps
use golectra.Reset.Generate.{last_part, spec_for, ImportSpec, Target, emit_methods, methods_of}

bare_name :
    (dropped : Bool) (a last : String)
    → a ≢ ""
    → (dropped ≡ true → a ≡ last)
    → (if (if dropped then "" else a) == "" then last else if dropped then "" else a) ≡ a
bare_name true a last filled same = sym (same refl)
bare_name false a last filled same = ground (arith, eq_iff a "", filled)

same_name : (a last : String) → (a == last) ≡ true → a ≡ last
same_name a last e = ground (arith, eq_iff a last, e)

-- the name by which a file knows an import
abbrev pub bound_name : (String → String) → ImportSpec → String
bound_name name_of spec = if spec.alias == "" then name_of spec.path else spec.alias

bound_name-spec_for :
    (name_of : String → String) (im : ImportManager) (p a : String)
    → Maps.get im.by_path p ≡ some a
    → a ≢ ""
    → name_of p ≡ last_part p
    → bound_name name_of (spec_for im p) ≡ a
unfolding spec_for
bound_name-spec_for name_of im p a e filled last =
    rw (e, last) (bare_name (a == last_part p) a (last_part p) filled (same_name a (last_part p)))

module _ (has_reset : GoType → Bool) (packages_of : GoType → List (Option Package))
    (render : GoType → List String → String) where
  abbrev Apart : Output → Type 0
  Apart o = IsDistinct o.imports

  assign_empty-Apart :
      (indent : ℕ) (target : String) (t : GoType) (o : Output)
      → Apart o
      → Apart (assign_empty has_reset packages_of render indent target t o)
  unfolding assign_empty
  assign_empty-Apart indent target t o v = qualify_all-IsDistinct (packages_of t) o.imports v

  zero_expr-IsDistinct :
      (whole u : GoType) (im : ImportManager)
      → IsDistinct im
      → IsDistinct (zero_expr has_reset packages_of render whole u im).1
  unfolding zero_expr
  zero_expr-IsDistinct whole (basic k) im v = v
  zero_expr-IsDistinct whole slice im v = v
  zero_expr-IsDistinct whole map_type im v = v
  zero_expr-IsDistinct whole chan_type im v = v
  zero_expr-IsDistinct whole signature im v = v
  zero_expr-IsDistinct whole interface im v = v
  zero_expr-IsDistinct whole (pointer e) im v = v
  zero_expr-IsDistinct whole (struct fs) im v = qualify_all-IsDistinct (packages_of whole) im v
  zero_expr-IsDistinct whole array im v = qualify_all-IsDistinct (packages_of whole) im v
  zero_expr-IsDistinct whole (named n p u) im v = zero_expr-IsDistinct whole u im v

  assign_zero-Apart :
      (indent : ℕ) (target : String) (whole : GoType) (u : GoType) (o : Output)
      → Apart o
      → Apart (assign_zero has_reset packages_of render indent target whole u o)
  unfolding assign_zero
  assign_zero-Apart indent target whole u o v = zero_expr-IsDistinct whole u o.imports v

  mutual
    unfolding emit_for_expr emit_through_pointer emit_fields line

    emit_for_expr-Apart :
        (pkg : String) (whole : GoType) (expr : String) (u : GoType) (o : Output)
        → Apart o
        → Apart (emit_for_expr has_reset packages_of render pkg whole expr u o)
    emit_for_expr-Apart pkg whole expr (basic k) o v = v
    emit_for_expr-Apart pkg whole expr slice o v = v
    emit_for_expr-Apart pkg whole expr map_type o v = v
    emit_for_expr-Apart pkg whole expr (pointer elem) o v =
        emit_through_pointer-Apart pkg elem expr elem _ v
    emit_for_expr-Apart pkg whole expr (struct fs) o v =
        if-inv Apart (has_reset (pointer whole)) _ _ (λ _. v)
          λ _.
            if-inv Apart (has_reset whole) _ _ (λ _. v)
              λ _.
                if-inv Apart (is_accessible pkg whole) _ _ (λ _. emit_fields-Apart pkg expr fs o v)
                  (λ _. assign_empty-Apart 1 expr whole o v)
    emit_for_expr-Apart pkg whole expr array o v = assign_empty-Apart 1 expr whole o v
    emit_for_expr-Apart pkg whole expr (named n p u) o v = emit_for_expr-Apart pkg whole expr u o v
    emit_for_expr-Apart pkg whole expr chan_type o v = assign_zero-Apart 1 expr whole chan_type o v
    emit_for_expr-Apart pkg whole expr signature o v = assign_zero-Apart 1 expr whole signature o v
    emit_for_expr-Apart pkg whole expr interface o v = assign_zero-Apart 1 expr whole interface o v

    emit_through_pointer-Apart :
        (pkg : String) (whole : GoType) (ptr : String) (u : GoType) (o : Output)
        → Apart o
        → Apart (emit_through_pointer has_reset packages_of render pkg whole ptr u o)
    emit_through_pointer-Apart pkg whole ptr (basic k) o v = v
    emit_through_pointer-Apart pkg whole ptr slice o v = v
    emit_through_pointer-Apart pkg whole ptr map_type o v = v
    emit_through_pointer-Apart pkg whole ptr (pointer elem) o v =
        emit_through_pointer-Apart pkg elem _ elem _ v
    emit_through_pointer-Apart pkg whole ptr (struct fs) o v =
        if-inv Apart (has_reset (pointer whole)) _ _ (λ _. v)
          λ _.
            if-inv Apart (is_accessible pkg whole) _ _ (λ _. emit_fields-Apart pkg ptr fs o v)
              (λ _. assign_empty-Apart 2 _ whole o v)
    emit_through_pointer-Apart pkg whole ptr array o v = assign_empty-Apart 2 _ whole o v
    emit_through_pointer-Apart pkg whole ptr (named n p u) o v =
        emit_through_pointer-Apart pkg whole ptr u o v
    emit_through_pointer-Apart pkg whole ptr chan_type o v =
        assign_zero-Apart 2 _ whole chan_type o v
    emit_through_pointer-Apart pkg whole ptr signature o v =
        assign_zero-Apart 2 _ whole signature o v
    emit_through_pointer-Apart pkg whole ptr interface o v =
        assign_zero-Apart 2 _ whole interface o v

    emit_fields-Apart :
        (pkg expr : String) (fs : StructFields) (o : Output)
        → Apart o
        → Apart (emit_fields has_reset packages_of render pkg expr fs o)
    emit_fields-Apart pkg expr no_fields o v = v
    emit_fields-Apart pkg expr (field n t rest) o v =
        emit_fields-Apart pkg expr rest _ (emit_for_expr-Apart pkg t _ t o v)

  emit_methods-Apart :
      (pkg : String) (ts : List Target) (o : Output)
      → Apart o
      → Apart (emit_methods has_reset packages_of render pkg ts o)
  unfolding emit_methods line
  emit_methods-Apart pkg [] o v = v
  emit_methods-Apart pkg (t ∷ ts) o v =
      emit_methods-Apart pkg ts _ (emit_fields-Apart pkg "x" t.fields _ v)

  -- the import manager gives no two paths one alias
  pub methods_of-apart :
      (pkg : String) (ts : List Target) (p q a : String)
      → let im = (methods_of has_reset packages_of render pkg ts).imports in
        Maps.get im.by_path p ≡ some a → Maps.get im.by_path q ≡ some a → p ≡ q
  methods_of-apart pkg ts = (emit_methods-Apart pkg ts _ (new-IsDistinct pkg)).apart

  -- The lines of the import block that sortedImports makes for two packages of a generated file,
  -- whatever structs it resets: they bind different names, if each of both packages has the name that
  -- its path ends in and the aliases of the import manager are not empty.
  pub spec_for-apart :
      (name_of : String → String) (pkg : String) (ts : List Target) (p q a b : String)
      → let im = (methods_of has_reset packages_of render pkg ts).imports in
        Maps.get im.by_path p ≡ some a
        → Maps.get im.by_path q ≡ some b
        → a ≢ ""
        → b ≢ ""
        → name_of p ≡ last_part p
        → name_of q ≡ last_part q
        → p ≢ q
        → bound_name name_of (spec_for im p) ≢ bound_name name_of (spec_for im q)
  spec_for-apart name_of pkg ts p q a b ep eq fa fb np nq differ same =
      let im = (methods_of has_reset packages_of render pkg ts).imports in
      let one : a ≡ b =
        sym (bound_name-spec_for name_of im p a ep fa np)
        ∙ same
        ∙ bound_name-spec_for name_of im q b eq fb nq in
      differ (methods_of-apart pkg ts p q b (ep ∙ ap some one) eq)
