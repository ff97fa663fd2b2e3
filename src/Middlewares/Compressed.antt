-- ===== src/Middlewares/Compressed.antt =====
-- What a client receives through the compressing writer.
use text.Mathlib.TextLemmas.{nil-append}
use golectra.Base.{
  inr, ◌∙◌, ap, inl, Bool-cases, if◌then◌else◌, refl, [], none, some, ◌≡◌, true, ◌∷◌, List, ℕ,
  String,
}
use golectra.Middlewares.{Gzip, undecided, is_compressible, gzip_writes, close}
use Prim.Native.String.{◌++◌ as text_append}

-- everything that was written
abbrev pub joined : String → List String → String
joined acc [] = acc
joined acc (p ∷ ps) = joined (text_append acc p) ps

module _ (content_type : String) (status : ℕ) where
  zipped_writes :
      (ps : List String) (z : String)
      → gzip_writes content_type status ps (record { decided = true; plain = ""; zipped = some z })
        ≡ record { decided = true; plain = ""; zipped = some (joined z ps) }
  unfolding gzip_writes
  zipped_writes [] z = refl
  zipped_writes (p ∷ ps) z = zipped_writes ps (text_append z p)

  plain_writes :
      (ps : List String) (t : String)
      → gzip_writes content_type status ps (record { decided = true; plain = t; zipped = none })
        ≡ record { decided = true; plain = joined t ps; zipped = none }
  unfolding gzip_writes
  plain_writes [] t = refl
  plain_writes (p ∷ ps) t = plain_writes ps (text_append t p)

  -- A response is compressed as a whole or not at all: JSON and HTML with a status from 200 on that
  -- is not 204 arrive as the compression of all that was written, anything else as it was written.
  pub close-gzip_writes :
      (gz : Gzip) (p : String) (ps : List String)
      → close gz (gzip_writes content_type status (p ∷ ps) undecided) ≡ (
          if is_compressible content_type status
          then gz.compress (joined "" (p ∷ ps))
          else joined "" (p ∷ ps))
  unfolding close gzip_writes
  close-gzip_writes gz p ps = elim (Bool-cases (is_compressible content_type status)) [
    | inl zip ↦ rw zip (ap (close gz) (zipped_writes ps (text_append "" p)) ∙ nil-append _)
    | inr raw ↦ rw raw (ap (close gz) (plain_writes ps (text_append "" p)))
  ]
