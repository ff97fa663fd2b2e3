-- ===== src/Middlewares/Signed.antt =====
-- Which requests the signature middleware lets through, and what it signs.
use Prim.Native.String.{◌++◌ as text_append}
use golectra.Base.{
  ap, inr, inl, refl, Bool-cases, ◌==◌, eq_iff, if◌then◌else◌, arith, true, false, some, ◌≢◌, ◌≡◌,
  trim_space, String,
}
use golectra.Middlewares.{
  Digest, BodyBuffer, Chain, sum_sha256, hash_sha256, check_hash, seal, unsigned, sent,
}
use golectra.Domain.{Result, ok}

pub blank_test : (t : String) → t ≢ "" → (t == "") ≡ false
blank_test t n = ground (arith, eq_iff t "", n)

seal_signs :
    (d : Digest) (k : String) (w : BodyBuffer)
    → (seal d k w).body ≢ ""
    → (seal d k w).hash ≡ some (sum_sha256 d (seal d k w).body k)
seal_signs d k w n = rw (blank_test w.body n) refl

module _ {S : Type 0} (d : Digest) where
  passed :
      (k got body : String) (next : Chain S) (s : S)
      → d.equal_fold got (sum_sha256 d body k) ≡ true
      → (if got == "" then next (ok body) s else check_hash d k got (ok body) next s)
        ≡ next (ok body) s
  passed k got body next s h = ground (arith, h)

  -- With a key, every response that has a body carries its signature with that key, those of the
  -- middleware itself included.
  pub hash_sha256_signs :
      (key header : String) (body : Result String) (next : Chain S) (s : S)
      → trim_space key ≢ ""
      → let r = (hash_sha256 d key header body next s).0 in
        r.body ≢ "" → r.hash ≡ some (sum_sha256 d r.body (trim_space key))
  unfolding hash_sha256
  hash_sha256_signs key header body next s k = rw (blank_test (trim_space key) k) (
      seal_signs d (trim_space key)
        (if trim_space header == ""
          then next body s
          else check_hash d (trim_space key) (trim_space header) body next s).0)

  -- A client and a server that share a key: the signature that the client puts on a request, or the
  -- empty header without a key, is accepted, and the chain sees the body that the client signed.
  -- Digests are hexadecimal texts, and a text fits itself.
  pub hash_sha256_accepts :
      (key body : String) (next : Chain S) (s : S)
      → ((x : String) → trim_space (d.sha_hex x) ≡ d.sha_hex x)
      → ((x : String) → d.equal_fold x x ≡ true)
      → let k = trim_space key in
        hash_sha256 d key (if k == "" then "" else sum_sha256 d body k) (ok body) next s ≡ (
          if k == ""
          then sent d unsigned (next (ok body) s)
          else sent d (seal d k) (next (ok body) s))
  unfolding hash_sha256 sum_sha256
  hash_sha256_accepts key body next s hex fold = elim (Bool-cases (trim_space key == "")) [
    | inl open_door ↦ rw open_door refl
    | inr keyed ↦
        rw (keyed, hex (text_append body (trim_space key)))
          (ap (sent d (seal d (trim_space key))) (
            passed (trim_space key) (d.sha_hex (text_append body (trim_space key))) body next s
              (fold (d.sha_hex (text_append body (trim_space key))))))
  ]
