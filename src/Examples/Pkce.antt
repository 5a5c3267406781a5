-- ===== src/Examples/Pkce.antt =====
-- The properties of PKCE at concrete inputs.
use skyauth.Base.{ℕ, ◌≡◌, ◌↔◌, refl, replicate, ok, List}
use skyauth.Base.Text.{Str}
use skyauth.Base.Utf8.{as_bytes}
use skyauth.Kernels.PkceBytes.{
  validate_verifier_bytes, is_valid_verifier_length, is_unreserved_byte,
}
use skyauth.Pkce.{
  PkcePair, s256, derive_s256_challenge, validate_verifier, verifier_error, from_verifier,
  verify_pkce,
}
use skyauth.Pkce.Laws.{verify_pkce_iff}
use skyauth.Examples.Instances.{subtle, crypto}

abbrev verifier : Str
verifier = replicate 43 b'x'

verify_pkce_iff_example : (verify_pkce subtle crypto verifier verifier ≡ ok tt) ↔ (
    (validate_verifier verifier ≡ ok tt)
    × (as_bytes (derive_s256_challenge crypto verifier) ≡ as_bytes verifier))
verify_pkce_iff_example = verify_pkce_iff subtle crypto verifier verifier

abbrev pair : PkcePair
pair = record {
  verifier = verifier;
  challenge = derive_s256_challenge crypto verifier;
  method = s256;
}

from_verifier_ok : from_verifier crypto verifier ≡ ok pair
unfolding from_verifier validate_verifier verifier_error validate_verifier_bytes
    is_valid_verifier_length is_unreserved_byte as_bytes
from_verifier_ok = refl

abbrev entropy : List ℕ
entropy = replicate 32 7

abbrev random : ℕ → List ℕ
random n = replicate n 7
