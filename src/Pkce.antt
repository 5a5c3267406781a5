-- ===== src/Pkce.antt =====
-- src/pkce.rs: PKCE pairs and their verification. The random bytes are an argument.
pub mod Laws
use skyauth.Base.{
  ℕ, ◌+◌, ◌*◌, ◌/◌, Bool, not, ◌&&◌, List, length, ◌==◌, leb, if◌then◌else◌, Result, ok, err, ◌>>=◌,
  ◌>>◌, fail_if,
}
use skyauth.Base.Text.{Str, codes}
use skyauth.Base.Utf8.{as_bytes, len}
use skyauth.Crypto.{Crypto, CryptoError, sha256_digest, base64url_encode}
use skyauth.Kernels.CtEq.{Subtle, constant_time_eq}
use skyauth.Kernels.PkceBytes.{
  VerifierByteError, invalid_length, invalid_character, validate_verifier_bytes,
  verifier_min_length, verifier_max_length,
}

pub data PkceMethod : Type 0 where
  s256 : PkceMethod

unfoldable pub as_str : PkceMethod → Str
as_str s256 = codes "S256"

pub record PkcePair : Type 0 where
  pub verifier : Str
  pub challenge : Str
  pub method : PkceMethod

-- `PkceError` of src/error.rs.
pub data PkceError : Type 0 where
  invalid_verifier_length : (actual low high : ℕ) → PkceError
  invalid_verifier_character : (char position : ℕ) → PkceError
  invalid_challenge_length : (actual : ℕ) → PkceError
  unsupported_method : Str → PkceError
  challenge_mismatch : PkceError
  crypto : CryptoError → PkceError

unfoldable pub derive_s256_challenge : Crypto → Str → Str
unfolding sha256_digest base64url_encode
derive_s256_challenge c verifier = base64url_encode c (sha256_digest c (as_bytes verifier))

-- The `match` on the kernel's result. `byte as char` is the code point of that number.
unfoldable pub verifier_error : Result VerifierByteError (Unit {0}) → Result PkceError (Unit {0})
verifier_error (ok done) = ok tt
verifier_error (err (invalid_length n)) =
    err (invalid_verifier_length n verifier_min_length verifier_max_length)
verifier_error (err (invalid_character byte position)) =
    err (invalid_verifier_character byte position)

unfoldable pub validate_verifier : Str → Result PkceError (Unit {0})
unfolding verifier_error
validate_verifier verifier = verifier_error (validate_verifier_bytes (as_bytes verifier))

unfoldable pub from_verifier : Crypto → Str → Result PkceError PkcePair
from_verifier c verifier = do
  validate_verifier verifier
  ok (record { verifier = verifier; challenge = derive_s256_challenge c verifier; method = s256 })

-- The 32 random bytes are the argument.
unfoldable pub generate : Crypto → List ℕ → PkcePair
generate c entropy =
    let verifier = base64url_encode c entropy in
    record { verifier = verifier; challenge = derive_s256_challenge c verifier; method = s256 }

-- `random n` is what the random generator fills a buffer of `n` bytes with.
unfoldable pub generate_with_entropy_size : Crypto → (ℕ → List ℕ) → ℕ → Result PkceError PkcePair
generate_with_entropy_size c random n =
    if not (leb 32 n && leb n 96)
    then err (invalid_verifier_length ((n * 4 + 2) / 3) 43 128)
    else from_verifier c (base64url_encode c (random n))

unfoldable pub verify_pkce : Subtle → Crypto → Str → Str → Result PkceError (Unit {0})
verify_pkce s c verifier expected = do
  validate_verifier verifier
  fail_if (not (len expected == 43)) (invalid_challenge_length (len expected))
  if constant_time_eq s (as_bytes (derive_s256_challenge c verifier)) (as_bytes expected)
      then ok tt
      else err challenge_mismatch

unfoldable pub verify : Subtle → Crypto → PkcePair → Str → Result PkceError (Unit {0})
verify s c pair candidate = verify_pkce s c candidate pair.challenge
