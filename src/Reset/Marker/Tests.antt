-- ===== src/Reset/Marker/Tests.antt =====
-- The marker that the generator takes, and the one that its documentation gives.
use golectra.Base.{none, some, [], ◌∷◌, ◌≡◌, true, false, refl}
use golectra.Reset.Marker.{has_marker}

marked_run :
    has_marker (λ t. t) none (some ("// Buffer is reused." ∷ "/* +generate:reset */" ∷ [])) ≡ true
unfolding has_marker golectra.Base.trim_space golectra.Base.trim_right golectra.Base.trim_left
    golectra.Base.is_space
marked_run = refl

documented_run : has_marker (λ t. t) (some ("// generate:reset" ∷ [])) none ≡ false
unfolding has_marker golectra.Base.trim_space golectra.Base.trim_right golectra.Base.trim_left
    golectra.Base.is_space
documented_run = refl
