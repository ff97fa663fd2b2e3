-- ===== src/MetricsService/Names/Order.antt =====
-- dedupNames keeps the names that are not empty, each once, in Go's order of strings.
use golectra.MetricsService.Names.{dedup_names, sort, insert_sorted, dedup_loop}
use golectra.Base.{
  ap, ◌∙◌, refl, str_ltb_irrefl, ◌&&◌, str_ltb_trans, eq_iff, str_ltb_trichotomy, inl, ◌||◌, inr,
  not, true, ◌==◌, Bool-cases, arith, false, [], All, Bool, ◌∷◌, ◌≡◌, str_ltb, String, List,
}

abbrev pub contains : String → List String → Bool
contains k [] = false
contains k (n ∷ ns) = n == k || contains k ns

-- No name of the list is less than `n`.
abbrev Above : String → List String → Type 0
Above n = All (λ m. str_ltb m n ≡ false)

abbrev IsSorted : List String → Type 0
IsSorted [] = Unit
IsSorted (n ∷ ns) = Above n ns × IsSorted ns

-- Every name of the list is greater than `n`.
abbrev pub StrictlyAbove : String → List String → Type 0
StrictlyAbove n = All (λ m. str_ltb n m ≡ true)

abbrev pub IsStrictlySorted : List String → Type 0
IsStrictlySorted [] = Unit
IsStrictlySorted (n ∷ ns) = StrictlyAbove n ns × IsStrictlySorted ns

not_lt_trans : (x m n : String) → str_ltb x m ≡ false → str_ltb m n ≡ false → str_ltb x n ≡ false
not_lt_trans x m n h k = elim (Bool-cases (str_ltb x n)) [
  | inr e ↦ e
  | inl lt ↦ elim (str_ltb_trichotomy m n) [
    | inl bad ↦ cc
    | inr (inl e) ↦ cc
    | inr (inr gt) ↦ cc (str_ltb_trans x n m lt gt)
  ]
]

lt-of_not_lt : (m n : String) → str_ltb m n ≡ false → (n == m) ≡ false → str_ltb n m ≡ true
lt-of_not_lt m n h ne = elim (str_ltb_trichotomy m n) [
  | inl bad ↦ cc
  | inr (inl e) ↦ ground (arith, eq_iff n m)
  | inr (inr gt) ↦ gt
]

not_lt-of_lt : (m n : String) → str_ltb n m ≡ true → str_ltb m n ≡ false
not_lt-of_lt m n h = elim (Bool-cases (str_ltb m n)) [
  | inr e ↦ e
  | inl lt ↦ cc (str_ltb_trans n m n h lt, str_ltb_irrefl n)
]

Above-trans : (n m : String) (ms : List String) → str_ltb m n ≡ false → Above m ms → Above n ms
Above-trans n m [] h a = tt
Above-trans n m (x ∷ ms) h a = (not_lt_trans x m n a.0 h, Above-trans n m ms h a.1)

insert_sorted-Above :
    (k n : String) (ms : List String)
    → str_ltb n k ≡ false
    → Above k ms
    → Above k (insert_sorted n ms)
unfolding insert_sorted
insert_sorted-Above k n [] h a = (h, tt)
insert_sorted-Above k n (m ∷ ms) h a = ground (arith, insert_sorted-Above k n ms h a.1)

insert_sorted-IsSorted :
    (n : String) (ms : List String) → IsSorted ms → IsSorted (insert_sorted n ms)
unfolding insert_sorted
insert_sorted-IsSorted n [] s = (tt, tt)
insert_sorted-IsSorted n (m ∷ ms) s = elim (Bool-cases (str_ltb m n)) [
  | inl lt ↦
      rw lt (insert_sorted-Above m n ms (not_lt-of_lt n m lt) s.0, insert_sorted-IsSorted n ms s.1)
  | inr ge ↦ rw ge ((ge, Above-trans n m ms ge s.0), s)
]

sort-IsSorted : (ns : List String) → IsSorted (sort ns)
unfolding sort
sort-IsSorted [] = tt
sort-IsSorted (n ∷ ns) = insert_sorted-IsSorted n (sort ns) (sort-IsSorted ns)

contains-insert_sorted :
    (k n : String) (ms : List String) → contains k (insert_sorted n ms) ≡ (n == k || contains k ms)
unfolding insert_sorted
contains-insert_sorted k n [] = refl
contains-insert_sorted k n (m ∷ ms) = ground (arith, contains-insert_sorted k n ms)

contains-sort : (k : String) (ns : List String) → contains k (sort ns) ≡ contains k ns
unfolding sort
contains-sort k [] = refl
contains-sort k (n ∷ ns) = ground (arith, contains-insert_sorted k n (sort ns), contains-sort k ns)

not_contains-of_lt :
    (last name : String) (names : List String)
    → str_ltb last name ≡ true
    → Above name names
    → contains last names ≡ false
not_contains-of_lt last name [] h a = refl
not_contains-of_lt last name (n ∷ names) h a =
    ground (arith, eq_iff n last, not_contains-of_lt last name names h a.1)

skipped_name :
    (k name last : String) (rest : Bool)
    → (name == "" || name == last) ≡ true
    → (not (k == "" || k == last) && rest) ≡ (not (k == "" || k == last) && (name == k || rest))
skipped_name k name last rest skip = elim (Bool-cases (name == k)) [
  | inl same ↦ rw (same, (rw ((eq_iff name k).0 same) at skip)) refl
  | inr differ ↦ rw differ
]

kept_name :
    (k name last : String) (rest : Bool)
    → (name == "" || name == last) ≡ false
    → (k ≡ last → rest ≡ false)
    → (name == k || (not (k == "" || k == name) && rest))
      ≡ (not (k == "" || k == last) && (name == k || rest))
kept_name k name last rest keep absent = elim (Bool-cases (name == k)) [
  | inl same ↦ rw (same, (rw ((eq_iff name k).0 same) at keep)) refl
  | inr differ ↦ rw differ (ground (arith, eq_iff name k, eq_iff k name, eq_iff k last, absent))
]

contains-dedup_loop :
    (k last : String) (names : List String)
    → IsSorted names
    → Above last names
    → contains k (dedup_loop last names) ≡ (not (k == "" || k == last) && contains k names)
unfolding dedup_loop
contains-dedup_loop k last [] s a = ground arith
contains-dedup_loop k last (name ∷ names) s a = elim (Bool-cases (name == "" || name == last)) [
  | inl skip ↦
      rw skip (
        contains-dedup_loop k last names s.1 a.1 ∙ skipped_name k name last (contains k names) skip)
  | inr keep ↦
      let above : str_ltb last name ≡ true =
        ground (arith, lt-of_not_lt name last a.0, eq_iff name last, eq_iff last name) in
      rw keep (
        ap (λ b. name == k || b) (contains-dedup_loop k name names s.1 s.0)
        ∙ kept_name k name last (contains k names) keep
            (λ e. rw e (not_contains-of_lt last name names above s.0)))
]

StrictlyAbove-trans :
    (l n : String) (ms : List String) → str_ltb l n ≡ true → StrictlyAbove n ms → StrictlyAbove l ms
StrictlyAbove-trans l n [] h a = tt
StrictlyAbove-trans l n (m ∷ ms) h a = (str_ltb_trans l n m h a.0, StrictlyAbove-trans l n ms h a.1)

dedup_loop-IsStrictlySorted :
    (last : String) (names : List String)
    → IsSorted names
    → Above last names
    → StrictlyAbove last (dedup_loop last names) × IsStrictlySorted (dedup_loop last names)
unfolding dedup_loop
dedup_loop-IsStrictlySorted last [] s a = (tt, tt)
dedup_loop-IsStrictlySorted last (name ∷ names) s a =
    let skipped = dedup_loop-IsStrictlySorted last names s.1 a.1 in
    let kept = dedup_loop-IsStrictlySorted name names s.1 s.0 in
    elim (Bool-cases (name == "" || name == last)) [
      | inl skip ↦ rw skip skipped
      | inr keep ↦
          let above : str_ltb last name ≡ true =
            ground (arith, lt-of_not_lt name last a.0, eq_iff name last, eq_iff last name) in
          rw keep
            ((above, StrictlyAbove-trans last name (dedup_loop name names) above kept.0), kept)
    ]

Above-empty : (ns : List String) → Above "" ns
unfolding str_ltb
Above-empty [] = tt
Above-empty (String.[] ∷ ns) = (refl, Above-empty ns)
Above-empty (String.◌∷◌ c n ∷ ns) = (refl, Above-empty ns)

-- The audited names are in strictly ascending order, so none occurs twice, and they are exactly the
-- names of the update that are not empty.
pub dedup_names_lem :
    (names : List String)
    → IsStrictlySorted (dedup_names names)
      × ((k : String) → contains k (dedup_names names) ≡ (not (k == "") && contains k names))
unfolding dedup_names
dedup_names_lem names =
    let s = sort-IsSorted names in
    let a = Above-empty (sort names) in
    (
      (dedup_loop-IsStrictlySorted "" (sort names) s a).1,
      λ k. ground (arith, contains-dedup_loop k "" (sort names) s a, contains-sort k names),
    )
