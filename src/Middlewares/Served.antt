-- ===== src/Middlewares/Served.antt =====
-- The middlewares in the order in which cmd/server/main.go hands them to NewRouter: GzipRequest,
-- GzipResponse and HashSHA256 around a handler (gin_gzip.go, hashsha256.go). ZapLogger only logs.
pub mod Intact
use golectra.Base.{
  List, [], ◌∷◌, Option, none, some, String, ℕ, ◌==◌, if◌then◌else◌, Bool, true, false, trim_space,
}
use golectra.Domain.{Result, ok, err}
use golectra.Middlewares.{
  Digest, Gzip, BodyBuffer, Chain, Sent, gzip_request, hash_sha256, gzip_writes, undecided, close,
  GzipWriter,
}
use golectra.Middlewares.Compressed.{joined}

-- What the client receives.
pub record Answer : Type 0 where
  pub status : ℕ
  pub hash : Option String
  pub content_encoding : Option String
  pub body : String

-- The headers of a request that the middlewares read, and its raw body.
pub record Arrived : Type 0 where
  pub content_encoding : String
  pub accept_encoding : String
  pub hash_header : String
  pub body : String

-- what the middlewares before GzipResponse see of a request that GzipRequest refuses
abbrev pub refused : Answer
refused = record { status = 400; hash = none; content_encoding = none; body = "" }

-- the header Content-Encoding that decide has set, or not
abbrev pub encoding_of : GzipWriter → Option String
encoding_of w = elim w.zipped [ none ↦ none | some z ↦ some "gzip" ]

-- GzipResponse, on the calls of Write that reach it and the header Content-Type; `accepts` is the test
-- on the lowered header Accept-Encoding
unfoldable pub gzip_response : Gzip → Bool → String → Sent → List String → Answer
gzip_response gz accepts content_type sent writes =
    let w = gzip_writes content_type sent.status writes undecided in
    if accepts
    then record {
      status = sent.status;
      hash = sent.hash;
      content_encoding = encoding_of w;
      body = close gz w;
    }
    else record {
      status = sent.status;
      hash = sent.hash;
      content_encoding = none;
      body = joined "" writes;
    }

-- HashSHA256 writes the buffered body once, also if it is empty; without a key the handler writes its
-- body, if it has one, itself.
abbrev pub writes_of : String → Sent → List String
writes_of key sent =
    if trim_space key == "" then if sent.body == "" then [] else sent.body ∷ [] else sent.body ∷ []

module _ {S : Type 0} (gz : Gzip) (d : Digest) (contains_gzip : String → Bool) (key : String)
    (content_type : BodyBuffer → String) (next : Chain S) where
  -- HashSHA256, and behind it GzipResponse
  abbrev pub answer_of : Arrived → Sent → Answer
  answer_of req sent =
      gzip_response gz (contains_gzip req.accept_encoding)
        (content_type (record { status = sent.status; body = sent.body })) sent (writes_of key sent)

  abbrev pub respond : Arrived → Sent × S → Answer × S
  respond req (sent, s) = (answer_of req sent, s)

  -- the whole chain; `content_type` is the header that the handlers set for a response
  unfoldable pub serve : Arrived → S → Answer × S
  unfolding gzip_response
  serve req =
      gzip_request gz contains_gzip req.content_encoding req.body (λ s. (refused, s))
        (λ body s. respond req (hash_sha256 d key req.hash_header body next s))

-- the body that a client reads, which undoes the encoding that the answer names
unfoldable pub read_back : Gzip → Answer → Result String
read_back gz a = elim a.content_encoding [ none ↦ ok a.body | some e ↦ gz.decompress a.body ]
