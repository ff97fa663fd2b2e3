-- ===== src/Reset/Packages/Tests.antt =====
-- A package without structs whose generated file is left over, and one that does not load.
use golectra.Domain.{ok}
use golectra.Base.{none, false, refl, String, true, ◌≡◌, [], some, ◌∷◌, List}
use golectra.Reset.Packages.{Loaded, has_reset_method, process_packages}
use golectra.Reset.Run.{find_target_structs, process_package}
use golectra.Reset.Generate.{Target}

abbrev empty_package : Loaded
empty_package = record {
  errors = [];
  has_files = true;
  source = record { structs = []; generated = none };
}

abbrev leftover : Loaded
leftover = record empty_package {
  source = record { structs = []; generated = some ([], "package a") };
}

abbrev broken : Loaded
broken = record leftover { errors = "expected declaration" ∷ [] }

abbrev printed : List Target → String
printed ts = "package a"

removed :
    process_packages printed (leftover ∷ empty_package ∷ [])
    ≡ (ok 1, empty_package ∷ empty_package ∷ [])
unfolding process_packages find_target_structs process_package
removed = refl

-- the process ends at the second package, after the first was changed
ended :
    (process_packages printed (leftover ∷ broken ∷ leftover ∷ [])).1
    ≡ empty_package ∷ broken ∷ leftover ∷ []
unfolding process_packages find_target_structs process_package
ended = refl

with_parameter : has_reset_method (record { name = "Reset"; signature = some (1, 0) } ∷ []) ≡ false
unfolding has_reset_method
with_parameter = refl

with_none :
    has_reset_method (
      record { name = "String"; signature = some (0, 1) }
      ∷ record { name = "Reset"; signature = some (0, 0) }
      ∷ [])
    ≡ true
unfolding has_reset_method
with_none = refl
