-- ===== src/Pool/Tests.antt =====
-- A pool of texts that are cleared: one is made, changed and put back.
use golectra.Base.{arith, ap, ◌≤◌, refl, none, Option, some, ◌∷◌, ℕ, String, ◌≡◌, [], List}
use golectra.Pool.Clean.{get-IsClean, IsClean}
use golectra.Pool.{Store, get, put, start, Reach, got, used, given_back, set_content}
use golectra.HttpClient.Pools.{count}

-- the object that was put last
abbrev newest : List ℕ → Option (ℕ × List ℕ)
newest [] = none
newest (b ∷ bs) = some (b, bs)

counted :
    (bs rest : List ℕ) (b k : ℕ) → newest bs ≡ some (b, rest) → count k (b ∷ rest) ≤ count k bs
counted [] rest b k e = absurd (cc e)
counted (c ∷ bs) rest b k e =
    let same : (b ∷ rest) ≡ (c ∷ bs) = cc e in
    let counts : count k (b ∷ rest) ≡ count k (c ∷ bs) = ap (count k) same in omega (arith, counts)

abbrev clear : String → String
clear t = ""

abbrev begun : Store String
begun = start (λ k. "?")

abbrev taken : Store String
taken = let (b, q) = get newest "" begun in record q { held = b ∷ [] }

abbrev filled : Store String
filled = record taken { content = set_content 0 "alloc" taken.content }

abbrev returned : Store String
returned = record (put clear 0 filled) { held = [] }

returned_run : Reach newest "" clear begun returned
unfolding get
returned_run =
    Reach.next (Reach.next (Reach.next Reach.here (got refl)) (used [] [] 0 "alloc" refl refl))
      (given_back [] [] 0 refl refl)

get-IsClean_example :
    let (b, q) = get newest "" returned in
    IsClean "" clear (q.content b) × (count b returned.held ≡ 0)
get-IsClean_example =
    get-IsClean newest (record { count-get = counted }) "" clear (λ k. "?") returned returned_run
