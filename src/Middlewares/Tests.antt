-- ===== src/Middlewares/Tests.antt =====
-- The middlewares around a chain that answers "ok" and counts its runs. The digest ignores what it
-- is given, and compression puts a mark in front.
use golectra.Middlewares.Served.Intact.{serve-Intact, unpacked, inner, Intact}
use golectra.Middlewares.Served.{Arrived}
use golectra.Base.{
  Bool, false, refl, is_space, eq_iff, trim_right, arith, String, trim_left, suc, ℕ, ◌==◌, ◌≢◌, ◌≡◌,
  true, trim_space,
}
use golectra.Middlewares.{Digest, Gzip, Chain, sum_sha256, hash_sha256, write}
use golectra.Middlewares.Served.{serve}
use golectra.Domain.{other, err, Result, ok}
use Prim.Native.String.{◌++◌ as text_append}

abbrev digest : Digest
digest = record { sha_hex = λ x. "c0ffee"; equal_fold = λ a b. a == b }

abbrev counting : Chain ℕ
counting body s = (write "ok" (record { status = 0; body = "" }), suc s)

abbrev gz : Gzip
gz = record { has_header = λ s. true; decompress = ok; compress = λ s. text_append "gz:" s }

keyed : trim_space "secret" ≢ ""
unfolding trim_space trim_left trim_right is_space
keyed e = ground (arith, eq_iff "secret" "")

signed : trim_space "beef" ≢ ""
unfolding trim_space trim_left trim_right is_space
signed e = ground (arith, eq_iff "beef" "")

full : ◌≢◌ {A = String} "[]" ""
full e = ground (arith, eq_iff "[]" "")

forged :
    digest.equal_fold (trim_space "beef") (sum_sha256 digest "[]" (trim_space "secret")) ≡ false
unfolding sum_sha256 trim_space trim_left trim_right is_space
forged = refl

hex : (x : String) → trim_space (digest.sha_hex x) ≡ digest.sha_hex x
unfolding trim_space trim_left trim_right is_space
hex x = refl

answered : (hash_sha256 digest "secret" "" (ok "[]") counting 0).0.body ≢ ""
unfolding hash_sha256 write trim_space trim_left trim_right is_space
answered e = ground (arith, e, eq_iff "ok" "")

-- gzip that puts a mark in front and takes it off
abbrev unmark : String → Result String
unmark String.[] = err (other "EOF")
unmark (String.◌∷◌ c t) = ok t

abbrev marked_gz : Gzip
marked_gz = record { has_header = λ s. true; decompress = unmark; compress = λ s. String.◌∷◌ "z" s }

abbrev gzip_named : String → Bool
gzip_named encoding = encoding == "gzip"

abbrev arrived : Arrived
arrived = record {
  content_encoding = "gzip";
  accept_encoding = "gzip";
  hash_header = "c0ffee";
  body = "z[]";
}

serve-Intact_example :
    Intact marked_gz digest "secret"
      (inner digest "secret" counting arrived (unpacked marked_gz gzip_named arrived) 0)
      (serve marked_gz digest gzip_named "secret" (λ w. "application/json") counting arrived 0)
serve-Intact_example =
    serve-Intact marked_gz digest gzip_named "secret" (λ w. "application/json") counting (λ x. refl)
      arrived 0 keyed
