-- ===== src/Examples/Integrations.antt =====
-- The properties of the two validators at concrete tokens.

use skyauth.Crypto.{base64url_encode, sha256_digest}
use skyauth.Kernels.CtEq.{constant_time_eq}
use skyauth.Base.{
  ℕ, ◌≡◌, ◌↔◌, refl, true, Option, some, none, List, [], ◌∷◌, ok, replicate, length, ◌==◌, list_eq,
  if◌then◌else◌,
}
use skyauth.Base.Text.{Str, codes, split, trim, eq_ignore_ascii_case, split_whitespace}
use skyauth.Base.Utf8.{as_bytes}
use skyauth.Url.{UrlParser}
use skyauth.Dpop.Proof.{JwkEc, DpopProofClaims, Jose, base64url_decode, header_str, verify_p256_raw}
use skyauth.Dpop.Verifier.{thumbprint, jwk_thumbprint_ec_p256}
use skyauth.Integrations.{AuthenticatedUser}
use skyauth.Integrations.JwtValidator.{
  JwtAccessTokenClaims, JwtAccessTokenValidator, verify_token_sync,
}
use skyauth.Integrations.JwtValidator
use skyauth.Integrations.JwtValidator.Laws.{Accepts, verify_token_sync-Accepts}
use skyauth.Integrations.TokenRegistry.{validate_sync, register_token}
use skyauth.Integrations.TokenRegistry.Laws.{IsCurrent, validate_sync-register_token}
use skyauth.Examples.Instances.{crypto, subtle}

abbrev pub jwk : JwkEc
jwk = record { kty = codes "EC"; crv = codes "P-256"; x = codes "xx"; y = codes "yy" }

abbrev pub claims : DpopProofClaims
claims = record {
  jti = codes "id";
  htm = codes "post";
  htu = codes "https://pds.example/";
  iat = 1000;
  exp = none;
  nonce = some (codes "n");
  ath = none;
}

-- A value is 0 for the header of a proof, 10 for that of a token, 1, 2, 4 and 5 for texts, and 3 for
-- a key.
abbrev field_of : ℕ → Str → Option ℕ
field_of v name =
    if v == 0
    then if list_eq name (codes "typ")
      then some 1
      else if list_eq name (codes "alg")
      then some 2
      else if list_eq name (codes "jwk")
      then some 3
      else none
    else if v == 10
    then if list_eq name (codes "typ")
      then some 4
      else if list_eq name (codes "alg")
      then some 2
      else none
    else none

abbrev text_of : ℕ → Str
text_of v =
    if v == 1
    then codes "dpop+jwt"
    else if v == 2
    then codes "ES256"
    else if v == 4
    then codes "at+jwt"
    else codes "https://pds.example"

abbrev pub jose : Jose
jose = record {
  Value = ℕ;
  from_slice = λ bytes. some (if length bytes == 3 then 10 else 0);
  get = field_of;
  as_str = λ v. some (text_of v);
  jwk_from_value = λ v. some jwk;
  claims_from_slice = λ bytes. some claims;
  VerifyingKey = List ℕ;
  from_sec1_bytes = λ bytes. some bytes;
  Signature = List ℕ;
  signature_from_slice = λ bytes. some bytes;
  verify = λ key message signature. true;
  decode_no_pad =
      λ s. some (replicate (if length s == 2 then 32 else if length s == 3 then 3 else 64) 7);
  decode_padded = λ s. none;
}

abbrev pub url : UrlParser
url s = some (record {
  scheme = codes "https";
  host_str = some (codes "pds.example");
  port = none;
  port_or_known_default = some 443;
  path = codes "/";
  username = [];
  password = none;
  query = none;
  fragment = none;
  ascii_origin = codes "https://pds.example";
})

abbrev pub jkt : Str
jkt = thumbprint jose crypto subtle url jwk

abbrev pub access_claims : JwtAccessTokenClaims ℕ
access_claims = record {
  iss = codes "https://auth.example";
  sub = codes "did:plc:abc";
  client_id = codes "client";
  aud = some 5;
  exp = 2000;
  nbf = some 900;
  iat = 900;
  jti = codes "t";
  scope = some (codes "atproto more");
  jkt = jkt;
}

abbrev pub tokens : JwtAccessTokenValidator (List ℕ)
tokens = record {
  trusted_keys = [];
  default_key = some (1 ∷ []);
  expected_issuer = some (codes "https://auth.example");
  expected_audience = some (codes "https://pds.example");
  expected_subject = none;
  required_scopes = codes "atproto" ∷ [];
  clock_skew_leeway = 60;
}

abbrev pub user : AuthenticatedUser
user = record {
  did = codes "did:plc:abc";
  access_token = codes "hhh.p.s";
  dpop_thumbprint = jkt;
  scope = some (codes "atproto more");
}

abbrev pub as_array : ℕ → Option (List ℕ)
as_array v = none

pub token_ok :
    verify_token_sync jose subtle as_array
      (λ b. some access_claims)
      tokens
      (some 1010)
      (codes "hhh.p.s")
      jkt
    ≡ ok user
unfolding verify_token_sync split trim base64url_decode header_str eq_ignore_ascii_case
    JwtValidator.select_key verify_p256_raw split_whitespace constant_time_eq as_bytes thumbprint
    jwk_thumbprint_ec_p256 base64url_encode sha256_digest
token_ok = refl

verify_token_sync-Accepts_example :
    Accepts jose subtle as_array
      (λ b. some access_claims)
      tokens
      (some 1010)
      (codes "hhh.p.s")
      jkt
      user
verify_token_sync-Accepts_example =
    verify_token_sync-Accepts jose subtle as_array (λ b. some access_claims) tokens (some 1010)
      (codes "hhh.p.s") jkt user token_ok

validate_sync-register_token_example :
    (validate_sync crypto subtle
        (register_token crypto [] (as_bytes (codes "t")) (codes "did") (codes "k") none (some 2000))
        1000
        (codes "t")
        (codes "k")
      ≡ ok user)
    ↔ (IsCurrent 1000 (some 2000)
        × (as_bytes (codes "k") ≡ as_bytes (codes "k"))
        × (user ≡ record {
          did = codes "did";
          access_token = codes "t";
          dpop_thumbprint = codes "k";
          scope = none;
        }))
validate_sync-register_token_example =
    validate_sync-register_token crypto subtle [] (codes "t") (codes "did") (codes "k") none
      (some 2000) 1000 (codes "k") user
