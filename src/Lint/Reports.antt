-- ===== src/Lint/Reports.antt =====
-- Which calls the analyzer osexitmain reports.
use golectra.Base.{
  arith, eq_iff, ap, none, ◌↔◌, some, Option, sym, refl, subst, Bool-cases, true, List, [], ◌∷◌,
  ◌++◌, String, ◌≡◌, ◌⊎◌, inl, inr, Bool, false,
}
use golectra.Lint.{
  other_object, other_fun, function, selector, Fun, inspect_body, is_main, FuncDecl, check_decl,
  check_decls, run, no_nodes, func_lit, inspect, is_os_exit_call, inspect_all, Call, Node, Nodes,
  call, other_node, node,
}

abbrev pub os_exit : Fun
os_exit = selector (some (function (some "os") "Exit"))

abbrev pub In : Call → List Call → Type 0
In c [] = ⊥
In c (d ∷ ds) = (c ≡ d) ⊎ In c ds

In-append : (c : Call) (xs ys : List Call) → In c (xs ++ ys) → In c xs ⊎ In c ys
In-append c [] ys h = inr h
In-append c (x ∷ xs) ys (inl e) = inl (inl e)
In-append c (x ∷ xs) ys (inr h) = elim (In-append c xs ys h) [ inl l ↦ inl (inr l) | inr r ↦ inr r ]

append-In : (c : Call) (xs ys : List Call) → In c xs ⊎ In c ys → In c (xs ++ ys)
append-In c [] ys (inl h) = absurd h
append-In c [] ys (inr h) = h
append-In c (x ∷ xs) ys (inl (inl e)) = inl e
append-In c (x ∷ xs) ys (inl (inr h)) = inr (append-In c xs ys (inl h))
append-In c (x ∷ xs) ys (inr h) = inr (append-In c xs ys (inr h))

module _ (in_go_build : String → Bool) (has_uses : Bool) where
  mutual
    -- `c` stands in the tree, under no function literal and under no call in a file of go-build.
    pub data Stands (c : Call) : Node → Type 0 where
      itself : (args : Nodes) → in_go_build c.filename ≡ false → Stands c (call c args)
      in_args :
          (d : Call) (args : Nodes)
          → in_go_build d.filename ≡ false
          → StandsIn c args
          → Stands c (call d args)
      in_child : (ns : Nodes) → StandsIn c ns → Stands c (other_node ns)

    pub data StandsIn (c : Call) : Nodes → Type 0 where
      first : (n : Node) (ns : Nodes) → Stands c n → StandsIn c (node n ns)
      later : (n : Node) (ns : Nodes) → StandsIn c ns → StandsIn c (node n ns)

  abbrev Reported : Call → Type 0
  Reported c = is_os_exit_call has_uses c.fun ≡ true

  -- one call node
  call-In :
      (c d : Call) (args : Nodes)
      → In c (inspect in_go_build has_uses (call d args))
      → (in_go_build d.filename ≡ false)
        × (((c ≡ d) × Reported d) ⊎ In c (inspect_all in_go_build has_uses args))
  unfolding inspect
  call-In c d args h = elim (Bool-cases (in_go_build d.filename)) [
    | inl skipped ↦ absurd (rw skipped at h)
    | inr kept ↦ (
      kept,
      elim (Bool-cases (is_os_exit_call has_uses d.fun)) [
        | inl exits ↦ (elim (rw (kept, exits) at h) [ inl e ↦ inl (e, exits) | inr r ↦ inr r ])
        | inr quiet ↦ inr (rw (kept, quiet) at h)
      ],
    )
  ]

  In-call :
      (c d : Call) (args : Nodes)
      → in_go_build d.filename ≡ false
      → ((c ≡ d) × Reported d) ⊎ In c (inspect_all in_go_build has_uses args)
      → In c (inspect in_go_build has_uses (call d args))
  unfolding inspect
  In-call c d args kept (inl (e, exits)) = rw (kept, exits) (inl e)
  In-call c d args kept (inr r) = elim (Bool-cases (is_os_exit_call has_uses d.fun)) [
    | inl exits ↦ rw (kept, exits) (inr r)
    | inr quiet ↦ rw (kept, quiet) r
  ]

  call_found :
      (c d : Call) (args : Nodes)
      → in_go_build d.filename ≡ false
      → ((c ≡ d) × Reported d) ⊎ In c (inspect_all in_go_build has_uses args)
      → (In c (inspect_all in_go_build has_uses args) → StandsIn c args × Reported c)
      → Stands c (call d args) × Reported c
  call_found c d args kept (inl (e, exits)) below =
      subst (λ x. Stands x (call d args) × Reported x) (sym e) (itself args kept, exits)
  call_found c d args kept (inr r) below = let (s, x) = below r in (in_args d args kept s, x)

  mutual
    unfolding inspect

    inspect-Stands :
        (c : Call) (n : Node) → In c (inspect in_go_build has_uses n) → Stands c n × Reported c
    inspect-Stands c (func_lit body) h = absurd h
    inspect-Stands c (call d args) h =
        let (kept, found) = call-In c d args h in
        let found_args =
          λ (r : In c (inspect_all in_go_build has_uses args)). inspect_all-StandsIn c args r in
        call_found c d args kept found found_args
    inspect-Stands c (other_node ns) h =
        let (s, r) = inspect_all-StandsIn c ns h in (in_child ns s, r)

    inspect_all-StandsIn :
        (c : Call) (ns : Nodes)
        → In c (inspect_all in_go_build has_uses ns)
        → StandsIn c ns × Reported c
    inspect_all-StandsIn c no_nodes h = absurd h
    inspect_all-StandsIn c (node n ns) h =
        elim (In-append c (inspect in_go_build has_uses n) (inspect_all in_go_build has_uses ns)
          h) [
            | inl l ↦ (let (s, r) = inspect-Stands c n l in (first n ns s, r))
            | inr l ↦ (let (s, r) = inspect_all-StandsIn c ns l in (later n ns s, r))
          ]

  mutual
    unfolding inspect

    Stands-inspect :
        {c : Call} {n : Node} → Reported c → Stands c n → In c (inspect in_go_build has_uses n)
    Stands-inspect {c} exits (itself args kept) = In-call c c args kept (inl (refl, exits))
    Stands-inspect {c} exits (in_args d args kept s) =
        In-call c d args kept (inr (StandsIn-inspect exits s))
    Stands-inspect exits (in_child ns s) = StandsIn-inspect exits s

    StandsIn-inspect :
        {c : Call} {ns : Nodes}
        → Reported c
        → StandsIn c ns
        → In c (inspect_all in_go_build has_uses ns)
    StandsIn-inspect {c} exits (first n ns s) = append-In c _ _ (inl (Stands-inspect exits s))
    StandsIn-inspect {c} exits (later n ns s) = append-In c _ _ (inr (StandsIn-inspect exits s))

  -- `c` stands in the body of a function main that is no method.
  abbrev pub InMain : Call → FuncDecl → Type 0
  InMain c fd =
      (fd.has_recv ≡ false)
      × (fd.name ≡ some "main")
      × ((body : Nodes) × (fd.body ≡ some body) × StandsIn c body)

  abbrev pub InMains : Call → List FuncDecl → Type 0
  InMains c [] = ⊥
  InMains c (fd ∷ fds) = InMain c fd ⊎ InMains c fds

  is_main-ok : (o : Option String) → is_main in_go_build has_uses o ≡ true → o ≡ some "main"
  is_main-ok none h = absurd (cc h)
  is_main-ok (some n) h = ap some ((eq_iff n "main").0 h)

  body-StandsIn :
      (c : Call) (o : Option Nodes)
      → In c (inspect_body in_go_build has_uses o)
      → ((body : Nodes) × (o ≡ some body) × StandsIn c body) × Reported c
  body-StandsIn c none h = absurd h
  body-StandsIn c (some b) h = let (s, r) = inspect_all-StandsIn c b h in ((b, refl, s), r)

  check_decl-InMain :
      (c : Call) (fd : FuncDecl)
      → In c (check_decl in_go_build has_uses fd)
      → InMain c fd × Reported c
  unfolding check_decl
  check_decl-InMain c fd h = elim (Bool-cases fd.has_recv) [
    | inl method ↦ absurd (rw method at h)
    | inr plain ↦ elim (Bool-cases (is_main in_go_build has_uses fd.name)) [
      | inl m ↦
          (let (s, r) = body-StandsIn c fd.body (rw (plain, m) at h) in
            ((plain, is_main-ok fd.name m, s), r))
      | inr other ↦ absurd (rw (plain, other) at h)
    ]
  ]

  InMain-check_decl :
      (c : Call) (fd : FuncDecl)
      → InMain c fd
      → Reported c
      → In c (check_decl in_go_build has_uses fd)
  unfolding check_decl
  InMain-check_decl c fd (plain, m, (body, e, s)) exits =
      rw (plain, m, e) (StandsIn-inspect exits s)

  check_decls-InMains :
      (c : Call) (fds : List FuncDecl)
      → In c (check_decls in_go_build has_uses fds) ↔ (InMains c fds × Reported c)
  unfolding check_decls
  check_decls-InMains c [] = ((λ h. absurd h), λ h. h.0)
  check_decls-InMains c (fd ∷ fds) =
      let (sound, complete) = check_decls-InMains c fds in
      let one = check_decl in_go_build has_uses fd in
      (
        λ h. elim (In-append c one (check_decls in_go_build has_uses fds) h) [
          | inl l ↦ (let (s, r) = check_decl-InMain c fd l in (inl s, r))
          | inr l ↦ (let (s, r) = sound l in (inr s, r))
        ],
        λ h. append-In c one (check_decls in_go_build has_uses fds) (elim h.0 [
          | inl s ↦ inl (InMain-check_decl c fd s h.1)
          | inr s ↦ inr (complete (s, h.1))
        ]),
      )

  exits-os_exit : (f : Fun) → is_os_exit_call has_uses f ≡ true → (has_uses ≡ true) × (f ≡ os_exit)
  unfolding is_os_exit_call
  exits-os_exit other_fun h = absurd (cc h)
  exits-os_exit (selector none) h = absurd (cc h)
  exits-os_exit (selector (some other_object)) h = absurd (cc h)
  exits-os_exit (selector (some (function none name))) h = absurd (cc h)
  exits-os_exit (selector (some (function (some path) name))) h =
      ground (arith, h, eq_iff path "os", eq_iff name "Exit")

  os_exit-exits : (f : Fun) → has_uses ≡ true → f ≡ os_exit → is_os_exit_call has_uses f ≡ true
  unfolding is_os_exit_call
  os_exit-exits f u e = rw (e, u) refl

  -- The analyzer reports a call exactly if there is type information, the package is main, the call
  -- stands in the body of its function main, under no function literal and under no call in a file of
  -- go-build, itself included, and its function is a selector that is resolved to Exit of package os.
  pub run_lem :
      (c : Call) (pkg : Option String) (fds : List FuncDecl)
      → In c (run in_go_build has_uses pkg fds)
        ↔ ((pkg ≡ some "main") × InMains c fds × (has_uses ≡ true) × (c.fun ≡ os_exit))
  unfolding run
  run_lem c pkg fds =
      let (sound, complete) = check_decls-InMains c fds in
      elim (Bool-cases (is_main in_go_build has_uses pkg)) [
        | inl m ↦ (
          λ h.
              let (s, x) = sound (rw m at h) in
              let (u, e) = exits-os_exit c.fun x in (is_main-ok pkg m, s, u, e),
          λ h. rw m (complete (h.1, os_exit-exits c.fun h.2 h.3)),
        )
        | inr other ↦ (
          λ h. absurd (rw other at h),
          λ h. absurd (cc (other, ap (is_main in_go_build has_uses) h.0)),
        )
      ]
