-- ===== src/Pool.antt =====
-- Pool of internal/misc/pool.go: objects that are reset before they go back, shared by goroutines. An
-- object is a number, with its content in a store. sync.Pool is a parameter, as in HttpClient/Pools;
-- newFn is not nil.
pub mod Clean
mod Tests
use golectra.Base.{ℕ, suc, List, [], ◌∷◌, ◌++◌, Option, none, some, ◌≡◌, nat_eqb, if◌then◌else◌}

-- `held` are the objects that Get has handed out and that were not put back, `made` the number of those
-- that newFn has made.
pub record Store (S : Type 0) : Type 0 where
  pub free : List ℕ
  pub held : List ℕ
  pub made : ℕ
  pub content : ℕ → S

module _ {S : Type 0} where
  abbrev pub set_content : ℕ → S → (ℕ → S) → ℕ → S
  set_content b x content k = if nat_eqb b k then x else content k

  module _ (take : List ℕ → Option (ℕ × List ℕ)) (new_object : S) where
    abbrev pub taken_or_made : Option (ℕ × List ℕ) → Store S → ℕ × Store S
    taken_or_made none s =
        (s.made, record s { made = suc s.made; content = set_content s.made new_object s.content })
    taken_or_made (some (b, rest)) s = (b, record s { free = rest })

    -- Get, with the New of NewPool
    unfoldable pub get : Store S → ℕ × Store S
    get s = taken_or_made (take s.free) s

  -- Put, of the object that a goroutine holds
  unfoldable pub put : (S → S) → ℕ → Store S → Store S
  put reset b s = record s {
    free = b ∷ s.free;
    content = set_content b (reset (s.content b)) s.content;
  }

  -- NewPool; the content of an object that was not made does not matter
  abbrev pub start : (ℕ → S) → Store S
  start content = record { free = []; held = []; made = 0; content = content }

  -- One call by some goroutine, or a change of an object that it holds. An object is put back once.
  pub data Step (take : List ℕ → Option (ℕ × List ℕ)) (new_object : S) (reset : S → S) (s : Store S)
      (t : Store S) : Type 0 where
    got :
        t ≡ (let (b, q) = get take new_object s in record q { held = b ∷ s.held })
        → Step take new_object reset s t
    used :
        (before after : List ℕ) (b : ℕ) (x : S)
        → s.held ≡ before ++ b ∷ after
        → t ≡ record s { content = set_content b x s.content }
        → Step take new_object reset s t
    given_back :
        (before after : List ℕ) (b : ℕ)
        → s.held ≡ before ++ b ∷ after
        → t ≡ record (put reset b s) { held = before ++ after }
        → Step take new_object reset s t

  pub data Reach (take : List ℕ → Option (ℕ × List ℕ)) (new_object : S) (reset : S → S)
      (s : Store S) : Store S → Type 0 where
    here : Reach take new_object reset s s
    next :
        {t u : Store S}
        → Reach take new_object reset s t
        → Step take new_object reset t u
        → Reach take new_object reset s u
