-- ===== src/Lint.antt =====
-- cmd/staticlint: the analyzer osexitmain (osexitmain/osexitmain.go) and the list of analyzers that main
-- runs (main.go). A syntax tree of go/ast keeps what the analyzer asks of it.
pub mod Reports
mod Tests
use golectra.Base.{
  List, [], ◌∷◌, ◌++◌, Option, none, some, String, ◌==◌, ◌&&◌, ◌||◌, Bool, true, false,
  if◌then◌else◌, ℕ,
}
use text.Mathlib.Text.{starts_with}

-- What TypesInfo.Uses has for an identifier: a *types.Func with its package's path and its name, or
-- something else.
pub data Object : Type 0 where
  function : Option String → String → Object
  other_object : Object

-- The function of a call: a selector with what it uses, or another expression.
pub data Fun : Type 0 where
  selector : Option Object → Fun
  other_fun : Fun

-- ast.CallExpr: its position and file name, and its function
pub record Call : Type 0 where
  pub pos : ℕ
  pub filename : String
  pub fun : Fun

mutual
  -- A node and its children in the order of ast.Inspect; a function literal, a call, or another.
  pub data Node : Type 0 where
    func_lit : Nodes → Node
    call : Call → Nodes → Node
    other_node : Nodes → Node

  pub data Nodes : Type 0 where
    no_nodes : Nodes
    node : Node → Nodes → Nodes

-- ast.FuncDecl
pub record FuncDecl : Type 0 where
  pub has_recv : Bool
  pub name : Option String
  pub body : Option Nodes

-- isOsExitCall; `has_uses` is whether there is type information
unfoldable pub is_os_exit_call : Bool → Fun → Bool
is_os_exit_call has_uses other_fun = false
is_os_exit_call has_uses (selector (some (function (some path) name))) =
    has_uses && (path == "os" && name == "Exit")
is_os_exit_call has_uses (selector o) = false

module _ (in_go_build : String → Bool) (has_uses : Bool) where
  -- whether the function that is given to ast.Inspect reports a call
  abbrev pub reported : Call → List Call → List Call
  reported c rest = if is_os_exit_call has_uses c.fun then c ∷ rest else rest

  unfoldable mutual
    -- `ast.Inspect(fd.Body, …)`: the calls that are reported, in order; `in_go_build` is the test on the
    -- name of a file
    pub inspect : Node → List Call
    inspect (func_lit body) = []
    inspect (call c args) =
        let rest = inspect_all args in if in_go_build c.filename then [] else reported c rest
    inspect (other_node children) = inspect_all children

    pub inspect_all : Nodes → List Call
    inspect_all no_nodes = []
    inspect_all (node n ns) = inspect n ++ inspect_all ns

  abbrev pub inspect_body : Option Nodes → List Call
  inspect_body none = []
  inspect_body (some body) = inspect_all body

  abbrev pub is_main : Option String → Bool
  is_main none = false
  is_main (some n) = n == "main"

  -- the function that is given to Preorder
  unfoldable pub check_decl : FuncDecl → List Call
  unfolding inspect
  check_decl fd = if fd.has_recv then [] else if is_main fd.name then inspect_body fd.body else []

  unfoldable pub check_decls : List FuncDecl → List Call
  unfolding check_decl
  check_decls [] = []
  check_decls (fd ∷ fds) = check_decl fd ++ check_decls fds

  -- run, on the name of the package and its function declarations in the order of Preorder
  unfoldable pub run : Option String → List FuncDecl → List Call
  unfolding check_decls
  run pkg fds = if is_main pkg then check_decls fds else []

-- Analyzers, by the package that declares them or by their names.
pub data Analyzer : Type 0 where
  of_package : String → Analyzer
  named : String → Analyzer

abbrev pub of_packages : List String → List Analyzer
of_packages [] = []
of_packages (p ∷ ps) = of_package p ∷ of_packages ps

abbrev pub go_passes : List String
go_passes =
    "assign" ∷ "atomic" ∷ "bools" ∷ "buildtag" ∷ "cgocall" ∷ "composite" ∷ "copylock" ∷ "errorsas"
    ∷ "httpresponse" ∷ "loopclosure" ∷ "lostcancel" ∷ "nilfunc" ∷ "printf" ∷ "shift" ∷ "stdmethods"
    ∷ "structtag" ∷ "tests" ∷ "unmarshal" ∷ "unreachable" ∷ "unsafeptr" ∷ "unusedresult" ∷ []

-- the analyzers of staticcheck whose names begin with SA; `none` is nil
unfoldable pub sa_analyzers : List (Option String) → List Analyzer
sa_analyzers [] = []
sa_analyzers (none ∷ rest) = sa_analyzers rest
sa_analyzers (some name ∷ rest) =
    let later = sa_analyzers rest in if starts_with name "SA" then named name ∷ later else later

-- the loop over stylecheck.Analyzers, with its break
unfoldable pub st1000 : List (Option String) → List Analyzer
st1000 [] = []
st1000 (none ∷ rest) = st1000 rest
st1000 (some name ∷ rest) =
    let later = st1000 rest in if name == "ST1000" then named name ∷ [] else later

-- what main hands to multichecker.Main
unfoldable pub analyzers : List (Option String) → List (Option String) → List Analyzer
unfolding sa_analyzers st1000
analyzers staticcheck stylecheck =
    of_packages go_passes
    ++ (sa_analyzers staticcheck
        ++ (st1000 stylecheck ++ of_packages ("nilerr" ∷ "forcetypeassert" ∷ "osexitmain" ∷ [])))
