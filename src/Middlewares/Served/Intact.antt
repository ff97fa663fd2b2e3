-- ===== src/Middlewares/Served/Intact.antt =====
-- What a client can rely on in an answer that went through the middlewares.
use golectra.Middlewares.Served.{
  respond, Answer, Arrived, serve, read_back, gzip_response, writes_of,
}
use golectra.Middlewares.{
  Digest, Gzip, BodyBuffer, Chain, Sent, hash_sha256, sum_sha256, gzip_request, gzip_writes, close,
  is_compressible,
}
use golectra.Middlewares.Signed.{blank_test}
use golectra.Domain.{Result, ok}
use text.Mathlib.TextLemmas.{nil-append}
use golectra.Base.{
  ◌∙◌, inr, inl, some, true, refl, none, false, [], ◌≢◌, if◌then◌else◌, ◌∷◌, List, Bool, Option,
  ◌≡◌, String, ◌==◌, Bool-cases, trim_space, ap,
}

-- the signature that goes with a body
abbrev pub signature : Digest → String → String → Option String
signature d key body = if body == "" then none else some (sum_sha256 d body key)

module _ (gz : Gzip) (content_type : String) (sent : Sent)
    (unzipped : (x : String) → gz.decompress (gz.compress x) ≡ ok x) where
  -- one write arrives as it was written
  written_once :
      (accepts : Bool)
      → read_back gz (gzip_response gz accepts content_type sent (sent.body ∷ [])) ≡ ok sent.body
  unfolding read_back gzip_response gzip_writes close
  written_once false = ap ok (nil-append sent.body)
  written_once true = elim (Bool-cases (is_compressible content_type sent.status)) [
    | inl zip ↦
        rw (zip, nil-append sent.body, nil-append (gz.compress sent.body)) (unzipped sent.body)
    | inr raw ↦ rw raw (ap ok (nil-append sent.body))
  ]

  kept :
      (accepts : Bool) (writes : List String)
      → let a = gzip_response gz accepts content_type sent writes in
        (a.status ≡ sent.status) × (a.hash ≡ sent.hash)
  unfolding gzip_response
  kept false writes = (refl, refl)
  kept true writes = (refl, refl)

module _ (gz : Gzip) (contains_gzip : String → Bool) where
  -- The request body behind GzipRequest, which refuses a body that claims to be gzip and is not.
  abbrev pub unpacked : Arrived → Option (Result String)
  unpacked req =
      if contains_gzip req.content_encoding
      then if gz.has_header req.body then some (gz.decompress req.body) else none
      else some (ok req.body)

module _ {S : Type 0} (d : Digest) (key : String) (next : Chain S) where
  -- what HashSHA256 and the handlers make of it
  abbrev pub inner : Arrived → Option (Result String) → S → Sent × S
  inner req none s = (record { status = 400; hash = none; body = "" }, s)
  inner req (some body) s = hash_sha256 d key req.hash_header body next s

module _ {S : Type 0} (gz : Gzip) (d : Digest) (key : String) where
  -- The client reads the body that was sent, with its status and signature.
  abbrev pub Intact : Sent × S → Answer × S → Type 0
  Intact (sent, s) (a, s') =
      (read_back gz a ≡ ok sent.body)
      × (a.status ≡ sent.status)
      × (a.hash ≡ signature d (trim_space key) sent.body)
      × (s' ≡ s)

module _ {S : Type 0} (gz : Gzip) (d : Digest) (contains_gzip : String → Bool) (key : String)
    (content_type : BodyBuffer → String) (next : Chain S)
    (unzipped : (x : String) → gz.decompress (gz.compress x) ≡ ok x) where
  keyed_writes : (sent : Sent) → trim_space key ≢ "" → writes_of key sent ≡ sent.body ∷ []
  keyed_writes sent n = rw (blank_test (trim_space key) n) refl

  -- HashSHA256 with a key signs what it sends
  signed :
      (header : String) (body : Result String) (s : S)
      → trim_space key ≢ ""
      → let sent = (hash_sha256 d key header body next s).0 in
        sent.hash ≡ signature d (trim_space key) sent.body
  unfolding hash_sha256
  signed header body s n = rw (blank_test (trim_space key) n) refl

  respond-Intact :
      (req : Arrived) (body : Result String) (s : S)
      → trim_space key ≢ ""
      → let r = hash_sha256 d key req.hash_header body next s in
        Intact gz d key r (respond gz d contains_gzip key content_type next req r)
  respond-Intact req body s n =
      let sent = (hash_sha256 d key req.hash_header body next s).0 in
      let (same_status, same_hash) =
        kept gz (content_type (record { status = sent.status; body = sent.body })) sent unzipped
          (contains_gzip req.accept_encoding) (writes_of key sent) in
      (
        rw (keyed_writes sent n) (
            written_once gz (content_type (record { status = sent.status; body = sent.body })) sent
              unzipped (contains_gzip req.accept_encoding)),
        same_status,
        same_hash ∙ signed req.hash_header body s n,
        refl,
      )

  -- With a key, whatever a client sends: it reads exactly the body that the handlers, or the middleware
  -- that refused the request, have written, compressed or not, with their status, and the header
  -- HashSHA256 is the signature of that body, or is missing when the body is empty. Decompression has
  -- to undo compression.
  pub serve-Intact :
      (req : Arrived) (s : S)
      → trim_space key ≢ ""
      → Intact gz d key
          (inner d key next req (unpacked gz contains_gzip req) s)
          (serve gz d contains_gzip key content_type next req s)
  unfolding serve gzip_request read_back
  serve-Intact req s n = elim (Bool-cases (contains_gzip req.content_encoding)) [
    | inr plain ↦ rw plain (respond-Intact req (ok req.body) s n)
    | inl zipped ↦ elim (Bool-cases (gz.has_header req.body)) [
      | inl headed ↦ rw (zipped, headed) (respond-Intact req (gz.decompress req.body) s n)
      | inr bare ↦ rw (zipped, bare) (refl, refl, refl, refl)
    ]
  ]
