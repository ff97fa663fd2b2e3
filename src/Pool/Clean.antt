-- ===== src/Pool/Clean.antt =====
-- What Get hands out.
use golectra.Pool.{Store, get, put, start, Step, Reach, got, used, given_back, taken_or_made}
use golectra.HttpClient.Pools.{count, IsPool}
use golectra.Base.{
  true, inr, inl, nat_eqb, ap, Bool-cases, none, ◌⊎◌, sym, [], some, refl, subst, ◌∷◌, ◌≡◌, ◌++◌,
  Option, ℕ, List, arith, ◌+◌, ◌≤◌,
}

count-append : (k : ℕ) (xs ys : List ℕ) → count k (xs ++ ys) ≡ count k xs + count k ys
count-append k [] ys = omega arith
count-append k (x ∷ xs) ys = ground (arith, count-append k xs ys)

count-split : (k b : ℕ) (xs ys : List ℕ) → count k (xs ++ b ∷ ys) ≡ count k (b ∷ xs ++ ys)
count-split k b xs ys = ground (arith, count-append k xs (b ∷ ys), count-append k xs ys)

same_number : (n : ℕ) → nat_eqb n n ≡ true
same_number n = ground arith

-- a new object, or one that was reset
abbrev pub IsClean : {S : Type 0} → S → (S → S) → S → Type 0
IsClean {S} new_object reset x = (x ≡ new_object) ⊎ ((y : S) × (x ≡ reset y))

module _ {S : Type 0} (take : List ℕ → Option (ℕ × List ℕ)) (pool : IsPool take) (new_object : S)
    (reset : S → S) where
  record IsInv (s : Store S) : Type 0 where
    once : (k : ℕ) → count k s.free + count k s.held ≤ 1
    fresh : (k : ℕ) → s.made ≤ k → (count k s.free ≡ 0) × (count k s.held ≡ 0)
    clean : (k : ℕ) → 1 ≤ count k s.free → IsClean new_object reset (s.content k)

  got-IsInv :
      (s : Store S) (o : Option (ℕ × List ℕ))
      → take s.free ≡ o
      → IsInv s
      → let (b, q) = taken_or_made take new_object o s in IsInv (record q { held = b ∷ s.held })
  got-IsInv s none e v = record {
    once = λ k. ground (arith, v.once k, v.fresh k);
    fresh = λ k h. ground (arith, h, v.fresh k);
    clean = λ k h. elim (Bool-cases (nat_eqb s.made k)) [
      | inl hit ↦ rw hit (inl refl)
      | inr miss ↦ rw miss (v.clean k h)
    ];
  }
  got-IsInv s (some (b, rest)) e v = record {
    once = λ k. ground (arith, v.once k, pool.count-get s.free rest b k e);
    fresh = λ k h. ground (arith, h, v.fresh k, pool.count-get s.free rest b k e);
    clean = λ k h. v.clean k (ground (arith, h, pool.count-get s.free rest b k e));
  }

  not_free :
      (s : Store S) (before after : List ℕ) (b : ℕ)
      → s.held ≡ before ++ b ∷ after
      → IsInv s
      → count b s.free ≡ 0
  not_free s before after b e v =
      ground (arith, v.once b, ap (count b) e, count-split b b before after)

  Step-IsInv : {s t : Store S} → Step take new_object reset s t → IsInv s → IsInv t
  unfolding get put
  Step-IsInv {s} {t} (got same) v = subst IsInv (sym same) (got-IsInv s (take s.free) refl v)
  Step-IsInv {s} {t} (used before after b x e same) v = subst IsInv (sym same) (record {
    once = v.once;
    fresh = v.fresh;
    clean = λ k h. elim (Bool-cases (nat_eqb b k)) [
      | inl hit ↦ absurd (ground (arith, hit, h, not_free s before after b e v))
      | inr miss ↦ rw miss (v.clean k h)
    ];
  })
  Step-IsInv {s} {t} (given_back before after b e same) v = subst IsInv (sym same) (record {
    once = λ k. ground (arith, v.once k, ap (count k) e, count-split k b before after);
    fresh = λ k h. ground (arith, h, v.fresh k, ap (count k) e, count-split k b before after);
    clean = λ k h. elim (Bool-cases (nat_eqb b k)) [
      | inl hit ↦ rw hit (inr (s.content b, refl))
      | inr miss ↦ rw miss (v.clean k (ground (arith, miss, h)))
    ];
  })

  Reach-IsInv : {s t : Store S} → IsInv s → Reach take new_object reset s t → IsInv t
  Reach-IsInv v Reach.here = v
  Reach-IsInv v (Reach.next r st) = Step-IsInv st (Reach-IsInv v r)

  taken_or_made-IsClean :
      (s : Store S) (o : Option (ℕ × List ℕ))
      → take s.free ≡ o
      → IsInv s
      → let (b, q) = taken_or_made take new_object o s in
        IsClean new_object reset (q.content b) × (count b s.held ≡ 0)
  taken_or_made-IsClean s none e v =
      (rw (same_number s.made) (inl refl), (v.fresh s.made (omega arith)).1)
  taken_or_made-IsClean s (some (b, rest)) e v = (
    v.clean b (ground (arith, pool.count-get s.free rest b b e)),
    ground (arith, v.once b, pool.count-get s.free rest b b e),
  )

  -- Whatever goroutines have taken from the pool, changed and put back, each object once: the object that
  -- the next Get hands out is new, or was reset when it was put back and not changed since, and no
  -- goroutine holds it. sync.Pool hands out no object more often than it was put.
  pub get-IsClean :
      (content : ℕ → S) (s : Store S)
      → Reach take new_object reset (start content) s
      → let (b, q) = get take new_object s in
        IsClean new_object reset (q.content b) × (count b s.held ≡ 0)
  unfolding get
  get-IsClean content s r = taken_or_made-IsClean s (take s.free) refl (
      Reach-IsInv
        (record {
          once = λ k. omega arith;
          fresh = λ k h. (refl, refl);
          clean = λ k h. absurd (omega (arith, h));
        })
        r)
