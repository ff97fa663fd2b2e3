-- ===== src/Reset/Packages/Unchanged.antt =====
-- What the number of changed files that the generator reports says.
use golectra.Reset.Packages.{round, Loaded, process_packages, writes, processed, and_then}
use golectra.Reset.Run.{SourcePackage, find_target_structs, process_package, is_same, outcome}
use golectra.Reset.Generate.{Target}
use golectra.Domain.{Result, ok, err}
use golectra.Base.{
  ◌∙◌, ℕ, Bool, List, [], ◌∷◌, true, false, ◌≡◌, refl, ap, sym, Option-cases, Bool-cases, inl, inr,
  arith, String, suc,
}

module _ (source_of : List Target → String) where
  -- a package whose file is not written stays as it is
  not_written :
      (p : SourcePackage) (ts : List Target)
      → writes source_of p ts ≡ false
      → outcome source_of p ts ≡ p
  not_written p [] h = elim (Option-cases p.generated) [
    | inl e ↦ ap (λ g. record p { generated = g }) (sym e)
    | inr (g, e) ↦ absurd (cc (rw e at h))
  ]
  not_written p (t ∷ ts) h =
      elim (Bool-cases (is_same source_of p.generated (source_of (t ∷ ts)))) [
        | inl same ↦ rw same refl
        | inr new ↦ absurd (cc (rw new at h))
      ]

  counted_none :
      (changed : Bool) (p : Loaded) (r : Result ℕ × List Loaded)
      → (and_then source_of changed p r).0 ≡ ok 0
      → (changed ≡ false) × (r.0 ≡ ok 0) × ((and_then source_of changed p r).1 ≡ p ∷ r.1)
  counted_none false p (ok n, ps) h = (refl, h, refl)
  counted_none true p (ok n, ps) h = let e : suc n ≡ 0 = cc h in absurd (omega (arith, e))
  counted_none changed p (err e, ps) h = absurd (cc h)

  files_kept :
      (p : Loaded) (ps : List Loaded) (r : Result ℕ × List Loaded)
      → (r.0 ≡ ok 0 → r.1 ≡ ps)
      → let s =
          and_then source_of
            (writes source_of p.source (find_target_structs p.source))
            (processed source_of p)
            r in
        s.0 ≡ ok 0 → s.1 ≡ p ∷ ps
  unfolding process_package
  files_kept p ps r same h =
      let ts = find_target_structs p.source in
      let (f, g, e) = counted_none (writes source_of p.source ts) (processed source_of p) r h in
      e
      ∙ ap (λ l. processed source_of p ∷ l) (same g)
      ∙ ap (λ q. record p { source = q } ∷ ps) (not_written p.source ts f)

  round_kept :
      (errors : List String) (has_files : Bool) (p : Loaded) (ps : List Loaded)
      (r : Result ℕ × List Loaded)
      → (r.0 ≡ ok 0 → r.1 ≡ ps)
      → (round source_of errors has_files p ps r).0 ≡ ok 0
      → (round source_of errors has_files p ps r).1 ≡ p ∷ ps
  round_kept (e ∷ es) has_files p ps r same h = absurd (cc h)
  round_kept [] true p ps r same h = files_kept p ps r same h
  round_kept [] false p ps r same h =
      let (f, g, e) = counted_none false p r h in e ∙ ap (λ l. p ∷ l) (same g)

  -- A run that ends with the report of no changed file has changed none.
  pub process_packages-ok :
      (ps : List Loaded)
      → (process_packages source_of ps).0 ≡ ok 0
      → (process_packages source_of ps).1 ≡ ps
  unfolding process_packages
  process_packages-ok [] h = refl
  process_packages-ok (p ∷ ps) h =
      round_kept p.errors p.has_files p ps (process_packages source_of ps) (process_packages-ok ps)
        h
