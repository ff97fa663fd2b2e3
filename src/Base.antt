-- ===== src/Base.antt =====
-- The names that the other modules share: the libraries', passed on, and those of the children
-- below (tests on numbers and texts, lists, Go strings, 64-bit words, Go maps).
mod Tests
mod Lists
mod Texts
mod Words
pub mod Maps
pub use Tests.*
pub use Lists.*
unfoldable pub use Texts.{is_space, trim_left, trim_right, trim_space, str_ltb}
pub use Texts.{trim_space_idem, str_ltb_trichotomy, str_ltb_trans, str_ltb_irrefl}
unfoldable pub use Words.{int64_mod, add_int64, sum_int64}
pub use Words.{add_int64_assoc, add_int64_zero, sum_int64-append, add_int64_bounds}
pub use Prim.Native.Nat.{ℕ, zero, suc, ◌+◌, ◌-◌, ◌*◌, ◌/◌, ◌%◌, ◌^◌, ◌≤◌, ◌<◌}
pub use Prim.Native.String.{String}
pub use mathlib.Core.Path.{◌≡◌, refl, sym, ap, ◌∙◌, subst, fun_ext}
pub use mathlib.Core.Logic.{◌≢◌, ◌↔◌, ◌⊎◌, inl, inr}
pub use mathlib.Core.Bool.{Bool, true, false, ◌&&◌, ◌||◌, not}
pub use mathlib.Core.Option.{Option, none, some}
pub use mathlib.Core.List.{List, [], ◌∷◌, ◌++◌, map}
pub use native.Mathlib.Omega.{arith}
pub use text.Mathlib.Text.{◌==◌}
pub use text.Mathlib.TextEquality.{eq_iff}
pub use text.Mathlib.TextPositions.{eq_refl}
