-- ===== src/HttpClient/Pools.antt =====
-- gzipBytes and compressedPayload of internal/adapters/publisher/httpjson/client.go, with the pools of
-- buffers and gzip writers that the goroutines share. sync.Pool and compress/gzip are parameters.
pub mod Apart
mod Tests
use golectra.Base.{
  ℕ, suc, List, [], ◌∷◌, ◌++◌, ◌+◌, ◌≤◌, Option, none, some, String, ◌≡◌, Bool, nat_eqb,
  if◌then◌else◌,
}
use golectra.Domain.{Error, Result, ok, err}
use golectra.Persistence.{wrap}
use Prim.Native.String.{◌++◌ as text_append}

-- how often an object is in a list
abbrev pub count : ℕ → List ℕ → ℕ
count k [] = 0
count k (b ∷ bs) = if nat_eqb b k then suc (count k bs) else count k bs

-- sync.Pool: Get hands out one of the objects that were put, or none, and may lose others.
pub record IsPool (get : List ℕ → Option (ℕ × List ℕ)) : Type 0 where
  pub count-get :
      (bs rest : List ℕ) (b k : ℕ) → get bs ≡ some (b, rest) → count k (b ∷ rest) ≤ count k bs

-- bufferPool and gzipWriterPool: the objects in them, the number of those that New has made, what each
-- buffer holds, and the buffer that each writer writes into; none is io.Discard
pub record Pools : Type 0 where
  pub buffers : List ℕ
  pub writers : List ℕ
  pub made : ℕ
  pub content : ℕ → String
  pub target : ℕ → Option ℕ

abbrev pub set_content : ℕ → String → Pools → Pools
set_content b t p = record p { content = λ k. if nat_eqb b k then t else p.content k }

-- `zw.Reset(buf)`
abbrev pub set_target : ℕ → ℕ → Pools → Pools
set_target z b p = record p { target = λ k. if nat_eqb z k then some b else p.target k }

abbrev pub append_to : Option ℕ → String → Pools → Pools
append_to none t p = p
append_to (some b) t p = set_content b (text_append (p.content b) t) p

-- what a gzip.Writer puts out goes behind what its buffer holds
abbrev pub emit : ℕ → String → Pools → Pools
emit z t p = append_to (p.target z) t p

-- compressedPayload: `none` is a nil buffer
abbrev pub Payload : Type 0
Payload = Option ℕ

-- Bytes
unfoldable pub bytes : Payload → Pools → String
bytes none p = ""
bytes (some b) p = p.content b

-- Release
unfoldable pub release : Payload → Pools → Payload × Pools
release none p = (none, p)
release (some b) p = (none, let q = set_content b "" p in record q { buffers = b ∷ p.buffers })

module _ (get : List ℕ → Option (ℕ × List ℕ)) where
  abbrev pub made_or_taken_buffer : Option (ℕ × List ℕ) → Pools → ℕ × Pools
  made_or_taken_buffer none p = (p.made, record p { made = suc p.made })
  made_or_taken_buffer (some (b, rest)) p = (b, record p { buffers = rest })

  abbrev pub made_or_taken_writer : Option (ℕ × List ℕ) → Pools → ℕ × Pools
  made_or_taken_writer none p = (p.made, record p { made = suc p.made })
  made_or_taken_writer (some (z, rest)) p = (z, record p { writers = rest })

  -- bufferPool.Get and gzipWriterPool.Get
  abbrev pub get_buffer : Pools → ℕ × Pools
  get_buffer p = made_or_taken_buffer (get p.buffers) p

  abbrev pub get_writer : Pools → ℕ × Pools
  get_writer p = made_or_taken_writer (get p.writers) p

  -- What Write, and then Close, of a gzip.Writer put out for the bytes that are written after a Reset,
  -- and the error that they return.
  module _ (write close : String → String × Option Error) where
    abbrev pub put_writer : ℕ → Pools → Pools
    put_writer z p = record p { writers = z ∷ p.writers }

    -- both go back on an error
    abbrev pub give_up : String → Error → ℕ → ℕ → Pools → Result Payload × Pools
    give_up what e b z p = (err (wrap what e), (release (some b) (put_writer z p)).1)

    abbrev pub closed : Option Error → ℕ → ℕ → Pools → Result Payload × Pools
    closed (some e) b z p = give_up "gzip close" e b z p
    closed none b z p = (ok (some b), put_writer z p)

    abbrev pub written : Option Error → String → ℕ → ℕ → Pools → Result Payload × Pools
    written (some e) src b z p = give_up "gzip write" e b z (emit z (close src).0 p)
    written none src b z p = let (t, e) = close src in closed e b z (emit z t p)

    -- gzipBytes
    unfoldable pub gzip_bytes : String → Pools → Result Payload × Pools
    unfolding release
    gzip_bytes src p =
        let (b, p1) = get_buffer p in
        let (z, p2) = get_writer (set_content b "" p1) in
        let (t, e) = write src in written e src b z (emit z t (set_target z b p2))

-- the whole output of a writer, if it gives no error
abbrev pub joined_output : String × Option Error → String × Option Error → Option String
joined_output (t, none) (u, none) = some (text_append t u)
joined_output (t, none) (u, some e) = none
joined_output (t, some e) u = none

-- The pools and the payloads in flight, each with the text that its gzip.Writer gave.
pub record System : Type 0 where
  pub pools : Pools
  pub in_flight : List (ℕ × String)

abbrev pub start : System
start = record {
  pools = record { buffers = []; writers = []; made = 0; content = λ k. ""; target = λ k. none };
  in_flight = [];
}

-- One call of gzipBytes or Release, by any goroutine.
pub data Step (get : List ℕ → Option (ℕ × List ℕ)) (write close : String → String × Option Error)
    (s : System) (t : System) : Type 0 where
  compress :
      (src text : String) (b : ℕ)
      → (gzip_bytes get write close src s.pools).0 ≡ ok (some b)
      → joined_output (write src) (close src) ≡ some text
      → t ≡ record {
        pools = (gzip_bytes get write close src s.pools).1;
        in_flight = (b, text) ∷ s.in_flight;
      }
      → Step get write close s t
  fail :
      (src : String) (e : Error)
      → (gzip_bytes get write close src s.pools).0 ≡ err e
      → t ≡ record s { pools = (gzip_bytes get write close src s.pools).1 }
      → Step get write close s t
  let_go :
      (before after : List (ℕ × String)) (b : ℕ) (text : String)
      → s.in_flight ≡ before ++ (b, text) ∷ after
      → t ≡ record { pools = (release (some b) s.pools).1; in_flight = before ++ after }
      → Step get write close s t

pub data Reach (get : List ℕ → Option (ℕ × List ℕ)) (write close : String → String × Option Error)
    (s : System) : System → Type 0 where
  here : Reach get write close s s
  next :
      {t u : System}
      → Reach get write close s t
      → Step get write close t u
      → Reach get write close s u
