-- ===== src/Reset/Root.antt =====
-- findModuleRoot of cmd/reset/args.go. `has_go_mod` is whether os.Stat finds go.mod in a directory, and
-- `parent` is filepath.Dir.
use golectra.Base.{
  refl, ap, inr, inl, if◌then◌else◌, String, ℕ, suc, zero, Option, none, some, Bool, true, false,
  ◌==◌, ◌<◌, arith, Bool-cases, ◌≡◌,
}

module _ (has_go_mod : String → Bool) (parent : String → String) where
  abbrev first_found : Bool → String → Option String → Option String
  first_found true dir rest = some dir
  first_found false dir rest = rest

  -- the loop, on the rounds that are left
  unfoldable pub find_upwards : ℕ → String → Option String
  find_upwards zero dir = none
  find_upwards (suc rounds) dir =
      let above = find_upwards rounds (parent dir) in
      first_found (has_go_mod dir) dir (if parent dir == dir then none else above)

  -- findModuleRoot, from the working directory: `size` of a path bounds the rounds
  unfoldable pub find_module_root : (String → ℕ) → String → Option String
  unfolding find_upwards
  find_module_root size wd = find_upwards (suc (size wd)) wd

  -- One round more changes nothing once there are more rounds than the size of the directory, where
  -- the parent of a directory is itself or smaller.
  find_upwards-suc :
      (size : String → ℕ) (rounds : ℕ) (dir : String)
      → ((d : String) → (parent d == d) ≡ false → size (parent d) < size d)
      → size dir < rounds
      → find_upwards (suc rounds) dir ≡ find_upwards rounds dir
  unfolding find_upwards
  find_upwards-suc size zero dir smaller h = absurd (omega (arith, h))
  find_upwards-suc size (suc rounds) dir smaller h = elim (Bool-cases (parent dir == dir)) [
    | inl top ↦ rw top refl
    | inr below ↦
        ap (λ o. first_found (has_go_mod dir) dir (if parent dir == dir then none else o))
          (find_upwards-suc size rounds (parent dir) smaller (omega (arith, h, smaller dir below)))
  ]
