-- ===== src/Lint/Tests.antt =====
-- A main that calls os.Exit by itself, as an argument, and in a function literal.
use golectra.Base.{Option, ℕ, [], ◌∷◌, none, some, String, Bool, true, false, ◌≡◌, refl, ◌↔◌, ◌==◌}
use golectra.Lint.{
  Call, Fun, selector, other_fun, function, func_lit, call, no_nodes, node, FuncDecl, run,
  sa_analyzers, st1000, named,
}
use golectra.Lint.Reports.{In, InMains, os_exit, run_lem}

abbrev call_at : ℕ → Fun → Call
call_at pos fun = record { pos = pos; filename = "main.go"; fun = fun }

abbrev direct : Call
direct = call_at 1 (selector (some (function (some "os") "Exit")))

abbrev hidden : Call
hidden = call_at 2 (selector (some (function (some "os") "Exit")))

-- `Exit(1)` under a dot import
abbrev dotted : Call
dotted = call_at 3 other_fun

abbrev in_build : String → Bool
in_build name = name == "go-build"

abbrev decl : FuncDecl
decl = record {
  has_recv = false;
  name = some "main";
  body = some (
      node (func_lit (node (call hidden no_nodes) no_nodes))
        (node (call dotted (node (call direct no_nodes) no_nodes)) no_nodes));
}

report_of_run : run in_build true (some "main") (decl ∷ []) ≡ direct ∷ []
unfolding run golectra.Lint.is_os_exit_call
report_of_run = refl

abbrev main_package : Option String
main_package = some "main"

run_lem_example : In direct (run in_build true main_package (decl ∷ [])) ↔ (
    (main_package ≡ some "main")
    × InMains in_build true direct (decl ∷ [])
    × (true ≡ true)
    × (direct.fun ≡ os_exit))
run_lem_example = run_lem in_build true direct main_package (decl ∷ [])

selected_run : sa_analyzers (some "SA1000" ∷ none ∷ some "S1000" ∷ []) ≡ named "SA1000" ∷ []
unfolding sa_analyzers
selected_run = refl

first_run : st1000 (some "ST1001" ∷ some "ST1000" ∷ some "ST1000" ∷ []) ≡ named "ST1000" ∷ []
unfolding st1000
first_run = refl
