-- ===== src/Reset/Run/Twice.antt =====
-- What a second run of the generator does with the work of the first.
use golectra.Base.{true, [], filter, ◌≡◌, map, ◌∷◌, String, List}
use golectra.Reset.Run.{StructDecl, is_target, to_target}
use golectra.Reset.Imports.{one_of}
use golectra.Reset.Generate.{Target}

abbrev target_names : List Target → List String
target_names ts = map (λ t. t.name) ts

-- The structs of `rest` that a run without a generated file would take are known to `names`.
abbrev Covers : List String → List StructDecl → Type 0
Covers names [] = Unit
Covers names (s ∷ rest) = (is_target [] s ≡ true → one_of s.name names ≡ true) × Covers names rest

abbrev found_names : List StructDecl → List String
found_names ss = target_names (map to_target (filter (is_target []) ss))
