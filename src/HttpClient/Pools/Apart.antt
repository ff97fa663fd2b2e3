-- ===== src/HttpClient/Pools/Apart.antt =====
-- No buffer is in two hands, whatever the goroutines do.
use Prim.Native.String.{◌++◌ as text_append}
use golectra.Domain.{Error, err, ok, Result}
use golectra.Base.{
  false, ℕ, suc, List, [], ◌∷◌, ◌++◌, ◌+◌, ◌≤◌, Option, none, some, String, ◌≡◌, nat_eqb,
  if◌then◌else◌,
}
use golectra.HttpClient.Pools.{Payload, Pools, count, bytes}

-- how many payloads in flight have a buffer
abbrev pub held : ℕ → List (ℕ × String) → ℕ
held k [] = 0
held k ((b, t) ∷ fs) = if nat_eqb b k then suc (held k fs) else held k fs

-- each payload in flight has its text in its buffer
abbrev pub Filled : Pools → List (ℕ × String) → Type 0
Filled p [] = Unit
Filled p ((b, t) ∷ fs) = (bytes (some b) p ≡ t) × Filled p fs

record IsApart (bs ws : List ℕ) (made : ℕ) (fs : List (ℕ × String)) : Type 0 where
  once : (k : ℕ) → count k bs + held k fs ≤ 1
  writers_once : (k : ℕ) → count k ws ≤ 1
  fresh : (k : ℕ) → made ≤ k → (count k bs ≡ 0) × (held k fs ≡ 0) × (count k ws ≡ 0)

abbrev Good : Pools → List (ℕ × String) → Type 0
Good p fs = IsApart p.buffers p.writers p.made fs

-- `p` is `q` but for the writer `z`, which writes into `b`, and for `b`, which holds `text`.
record IsWriting (b z : ℕ) (q : Pools) (text : String) (p : Pools) : Type 0 where
  buffers : p.buffers ≡ q.buffers
  writers : p.writers ≡ q.writers
  made : p.made ≡ q.made
  aimed : p.target z ≡ some b
  here : p.content b ≡ text
  others : (k : ℕ) → nat_eqb b k ≡ false → p.content k ≡ q.content k

abbrev IsInv : Pools → List (ℕ × String) → Type 0
IsInv p fs = Good p fs × Filled p fs

-- What a call of gzipBytes leaves, by the output of its writer.
abbrev Outcome : List (ℕ × String) → Option String → Result Payload × Pools → Type 0
Outcome fs (some t) (r, q) = (b : ℕ) × (r ≡ ok (some b)) × IsInv q ((b, t) ∷ fs)
Outcome fs none (r, q) = (x : Error) × (r ≡ err x) × IsInv q fs
