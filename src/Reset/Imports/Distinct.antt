-- ===== src/Reset/Imports/Distinct.antt =====
-- Two packages never share an alias.
use golectra.Base.{
  [], ◌∷◌, List, none, inr, eq_iff, inl, ◌==◌, arith, Bool-cases, true, false, some, ◌≡◌, String,
  Option,
}
use golectra.Reset.Imports.{
  alias_for, qualify_all, ImportManager, Package, one_of, fresh_alias, record_alias, qualifier,
  new_import_manager,
}
use golectra.Reset.Imports.Fresh.{fresh_alias_free}
use golectra.Base.Maps
use golectra.Base.Maps.{get-put, get-empty}

-- Every alias is in use, and belongs to one path.
pub record IsDistinct (im : ImportManager) : Type 0 where
  pub in_use : (p a : String) → Maps.get im.by_path p ≡ some a → one_of a im.used_alias ≡ true
  pub apart :
      (p q a : String) → Maps.get im.by_path p ≡ some a → Maps.get im.by_path q ≡ some a → p ≡ q

pub new-IsDistinct : (path : String) → IsDistinct (new_import_manager path)
unfolding new_import_manager
new-IsDistinct path = record {
  in_use = λ p a h. absurd (cc (h, get-empty {V = String} p));
  apart = λ p q a h k. absurd (cc (h, get-empty {V = String} p));
}

record_alias-IsDistinct :
    (p : Package) (alias : String) (im : ImportManager)
    → IsDistinct im
    → one_of alias im.used_alias ≡ false
    → IsDistinct (record_alias p alias im)
record_alias-IsDistinct p alias im v free = record {
  in_use =
      λ q a h. ground (arith, h, get-put im.by_path p.path q alias, v.in_use q a, eq_iff alias a);
  apart = λ q r a h k. ground (
    arith,
    h,
    k,
    free,
    get-put im.by_path p.path q alias,
    get-put im.by_path p.path r alias,
    v.in_use q a,
    v.in_use r a,
    v.apart q r a,
    eq_iff p.path q,
    eq_iff p.path r,
  );
}

alias_for-IsDistinct :
    (p : Package) (o : Option String) (im : ImportManager)
    → IsDistinct im
    → IsDistinct (alias_for p o im).1
alias_for-IsDistinct p (some a) im v = v
alias_for-IsDistinct p none im v =
    record_alias-IsDistinct p (fresh_alias p.name im.used_alias) im v
      (fresh_alias_free p.name im.used_alias)

pub qualifier-IsDistinct :
    (p : Option Package) (im : ImportManager) → IsDistinct im → IsDistinct (qualifier p im).1
unfolding qualifier
qualifier-IsDistinct none im v = v
qualifier-IsDistinct (some p) im v = elim (Bool-cases (p.path == im.local_pkg_path)) [
  | inl here_it_is ↦ rw here_it_is v
  | inr other ↦ rw other (alias_for-IsDistinct p (Maps.get im.by_path p.path) im v)
]

pub qualify_all-IsDistinct :
    (ps : List (Option Package)) (im : ImportManager)
    → IsDistinct im
    → IsDistinct (qualify_all ps im).1
unfolding qualify_all
qualify_all-IsDistinct [] im v = v
qualify_all-IsDistinct (p ∷ ps) im v =
    qualify_all-IsDistinct ps (qualifier p im).1 (qualifier-IsDistinct p im v)
