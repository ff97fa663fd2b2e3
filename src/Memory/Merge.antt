-- ===== src/Memory/Merge.antt =====
-- The counters of the in-memory repository do not depend on the order of the updates.
use golectra.Memory.Batch.{update_all_lem}
use golectra.Base.Maps
use golectra.Memory.{update_all, Repo}
use mathlib.Core.List.{Perm, Permᴰ}
use mathlib.Core.Logic.{∥∥₁_elim}
use native.Mathlib.Nat.{ℕ_set}
use golectra.Domain.{counter, Metrics}
use golectra.Ports.Batch.{has, deltas, count_or_zero, counted}
use golectra.Base.{
  sym, Option-cases, inl, ◌&&◌, inr, ◌∙◌, Bool-cases, refl, [], arith, ap, some, ◌≡◌, ◌∷◌, List, ℕ,
  add_int64, Option, sum_int64, String,
}

counted-cons :
    (old : Option ℕ) (d : ℕ) (ds : List ℕ)
    → counted old (d ∷ ds) ≡ counted (some (add_int64 (count_or_zero old) d)) ds
unfolding sum_int64
counted-cons old d [] = refl
counted-cons old d (e ∷ ds) = refl

counted-swap :
    (old : Option ℕ) (d e : ℕ) (ds : List ℕ) → counted old (d ∷ e ∷ ds) ≡ counted old (e ∷ d ∷ ds)
unfolding sum_int64 add_int64
counted-swap old d e ds = ap (λ n. some (sum_int64 n ds)) (omega arith)

module _ {F : Type 0} where
  deltas-cons :
      (k : String) (old : Option ℕ) (it : Metrics F) (xs ys : List (Metrics F))
      → ((o : Option ℕ) → counted o (deltas k xs) ≡ counted o (deltas k ys))
      → counted old (deltas k (it ∷ xs)) ≡ counted old (deltas k (it ∷ ys))
  unfolding deltas
  deltas-cons k old it xs ys same = elim (Bool-cases (has counter k it)) [
    | inr miss ↦ rw miss (same old)
    | inl hit ↦ elim (Option-cases it.delta) [
      | inl e ↦ rw (hit, e) (same old)
      | inr (d, e) ↦
          rw (hit, e, counted-cons old d (deltas k xs), counted-cons old d (deltas k ys))
            (same (some (add_int64 (count_or_zero old) d)))
    ]
  ]

  deltas-swap :
      (k : String) (old : Option ℕ) (x y : Metrics F) (l : List (Metrics F))
      → counted old (deltas k (x ∷ y ∷ l)) ≡ counted old (deltas k (y ∷ x ∷ l))
  unfolding deltas
  deltas-swap k old x y l = elim (Bool-cases (has counter k x && has counter k y)) [
    | inr miss ↦ ground (arith, miss)
    | inl both ↦ elim (Option-cases x.delta) [
      | inl e ↦ ground (arith, both, e)
      | inr (d, e) ↦ elim (Option-cases y.delta) [
        | inl e' ↦ ground (arith, both, e, e')
        | inr (d', e') ↦ ground (arith, both, e, e', counted-swap old d d' (deltas k l))
      ]
    ]
  ]

  counted-perm :
      (k : String) (old : Option ℕ) {xs ys : List (Metrics F)}
      → Permᴰ xs ys
      → counted old (deltas k xs) ≡ counted old (deltas k ys)
  counted-perm k old Permᴰ.nil = refl
  counted-perm k old (Permᴰ.cons {a = x} {b = y} {l₁ = xs} {l₂ = ys} e p) =
      deltas-cons k old x xs ys (λ o. counted-perm k o p) ∙ rw e refl
  counted-perm k old (Permᴰ.swap {a = a} {b = b} {l = l} e e') =
      deltas-swap k old a b l ∙ rw (e, e') refl
  counted-perm k old (Permᴰ.trans p q) = counted-perm k old p ∙ counted-perm k old q

  -- However updates are ordered, batched or interleaved, every counter ends with the same count.
  pub update_all-perm :
      (k : String) (xs ys : List (Metrics F)) (r : Repo F)
      → Perm xs ys
      → Maps.get (update_all xs r).counters k ≡ Maps.get (update_all ys r).counters k
  update_all-perm k xs ys r p =
      (update_all_lem k xs r).1
      ∙ ∥∥₁_elim p (hlevel ℕ_set) (λ d. counted-perm k (Maps.get r.counters k) d)
      ∙ sym (update_all_lem k ys r).1
