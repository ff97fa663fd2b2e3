-- ===== src/Middlewares.antt =====
-- internal/adapters/http/ginserver/middlewares: the signature of bodies and gzip, around the handlers
-- that follow in the chain. SHA-256, gzip, strings.EqualFold and strings.ToLower are parameters.
use golectra.Domain.{ok, err, Result}
pub mod Signed
pub mod Compressed
pub mod Served
mod Tests
use golectra.Base.{
  ltb, [], not, ◌∷◌, ◌&&◌, some, true, trim_space, nat_eqb, ◌||◌, ◌==◌, Option, List, none, false,
  ℕ, String, Bool, if◌then◌else◌,
}
use Prim.Native.String.{◌++◌ as text_append}
use text.Mathlib.Text.{starts_with}

-- crypto/sha256 with hex.EncodeToString, and strings.EqualFold
pub record Digest : Type 0 where
  pub sha_hex : String → String
  pub equal_fold : String → String → Bool

-- SumSHA256 of internal/misc/hash.go
unfoldable pub sum_sha256 : Digest → String → String → String
sum_sha256 d value key = d.sha_hex (text_append value key)

-- bodyBufferWriter; status 0 is not set
pub record BodyBuffer : Type 0 where
  pub status : ℕ
  pub body : String

abbrev pub fresh : BodyBuffer
fresh = record { status = 0; body = "" }

-- Write
unfoldable pub write : String → BodyBuffer → BodyBuffer
write p w = record {
  status = if nat_eqb w.status 0 then 200 else w.status;
  body = text_append w.body p;
}

-- WriteHeader
unfoldable pub write_header : ℕ → BodyBuffer → BodyBuffer
write_header code w = record w { status = code }

-- What reaches the client: the header HashSHA256, if it is set, the status and the body.
pub record Sent : Type 0 where
  pub status : ℕ
  pub hash : Option String
  pub body : String

-- What the rest of the chain does with a request body that is read to its end, or cannot be.
abbrev pub Chain : Type 0 → Type 0
Chain S = Result String → S → BodyBuffer × S

-- the response with its signature, once the chain is done
abbrev pub seal : Digest → String → BodyBuffer → Sent
seal d key w = record {
  status = if nat_eqb w.status 0 then 200 else w.status;
  hash = if w.body == "" then none else some (sum_sha256 d w.body key);
  body = w.body;
}

abbrev pub unsigned : BodyBuffer → Sent
unsigned w = record {
  status = if nat_eqb w.status 0 then 200 else w.status;
  hash = none;
  body = w.body;
}

module _ {S : Type 0} (d : Digest) where
  -- AbortWithStatusJSON
  abbrev pub abort : String → S → BodyBuffer × S
  abort what s = (write what (write_header 400 fresh), s)

  -- the body against the signature that the client sent
  abbrev pub check_hash : String → String → Result String → Chain S → S → BodyBuffer × S
  check_hash key got (err e) next s = abort "{\"error\":\"read body failed\"}" s
  check_hash key got (ok body) next s =
      if body == ""
      then next (ok body) s
      else if d.equal_fold got (sum_sha256 d body key)
      then next (ok body) s
      else abort "{\"error\":\"invalid hash\"}" s

  abbrev pub sent : (BodyBuffer → Sent) → BodyBuffer × S → Sent × S
  sent f (w, s) = (f w, s)

  -- the handler that HashSHA256 returns for a key that is not blank
  abbrev pub hash_keyed : String → String → Result String → Chain S → S → Sent × S
  hash_keyed key got body next s =
      sent (seal d key) (if got == "" then next body s else check_hash key got body next s)

  -- HashSHA256, on the header HashSHA256 of a request and its body
  unfoldable pub hash_sha256 : String → String → Result String → Chain S → S → Sent × S
  hash_sha256 key header body next s =
      let k = trim_space key in
      if k == "" then sent unsigned (next body s) else hash_keyed k (trim_space header) body next s

-- compress/gzip: whether a body begins with a header, and what it holds
pub record Gzip : Type 0 where
  pub has_header : String → Bool
  pub decompress : String → Result String
  pub compress : String → String

module _ {A S : Type 0} (gz : Gzip) (contains_gzip : String → Bool) where
  -- GzipRequest, for a raw body; `contains_gzip` is the test on the lowered header
  unfoldable pub gzip_request :
      String → String → (S → A × S) → (Result String → S → A × S) → S → A × S
  gzip_request encoding raw bad_request next s =
      if contains_gzip encoding
      then if gz.has_header raw then next (gz.decompress raw) s else bad_request s
      else next (ok raw) s

-- gzipResponseWriter: `plain` is what reached the writer below, `zipped` what reached its gzip.Writer,
-- none if there is no such writer.
pub record GzipWriter : Type 0 where
  pub decided : Bool
  pub plain : String
  pub zipped : Option String

-- a new one
abbrev pub undecided : GzipWriter
undecided = record { decided = false; plain = ""; zipped = none }

module _ (content_type : String) (status : ℕ) where
  -- decide: JSON or HTML, with a status that has a body
  unfoldable pub is_compressible : Bool
  is_compressible =
      (starts_with content_type "application/json" || starts_with content_type "text/html")
      && not (nat_eqb status 204 || ltb status 200)

  unfoldable pub decide : GzipWriter → GzipWriter
  decide w =
      if w.decided
      then w
      else if is_compressible
      then record w { decided = true; zipped = some "" }
      else record w { decided = true }

  abbrev pub pass_on : Option String → String → GzipWriter → GzipWriter
  pass_on none p w = record w { plain = text_append w.plain p }
  pass_on (some z) p w = record w { zipped = some (text_append z p) }

  -- Write, for a client that accepts gzip
  unfoldable pub gzip_write : String → GzipWriter → GzipWriter
  unfolding decide
  gzip_write p w = let w' = decide w in pass_on w'.zipped p w'

  unfoldable pub gzip_writes : List String → GzipWriter → GzipWriter
  unfolding gzip_write
  gzip_writes [] w = w
  gzip_writes (p ∷ ps) w = gzip_writes ps (gzip_write p w)

-- Close, and with it the bytes that the client receives
unfoldable pub close : Gzip → GzipWriter → String
close gz w = elim w.zipped [ none ↦ w.plain | some z ↦ text_append w.plain (gz.compress z) ]
