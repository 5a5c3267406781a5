-- ===== src/ServiceAuth.antt =====
-- src/service_auth.rs: service tokens of the AT Protocol, signed by the key in the DID document of
-- their issuer. What every part shares: the keys, the claims, the identifiers, and the errors.
-- The `k256` and `p256` crates are the parameter `Curves`.
pub mod Base58
pub mod KeyCache
pub mod Verifier
use skyauth.Base.{
  ℕ, Bool, true, false, not, ◌&&◌, ◌||◌, Option, none, some, List, [], ◌∷◌, all, ltb, leb, ◌==◌,
  if◌then◌else◌,
}
use skyauth.Base.Text.{
  Str, codes, is_empty, split, strip_prefix, starts_with, ends_with, is_ascii_lowercase,
  is_ascii_digit, is_ascii_alphanumeric,
}
use skyauth.Base.Utf8.{as_bytes, len}
use skyauth.Crypto.{CryptoError}
use skyauth.Integrations.{TokenError}
use skyauth.Kernels.ServiceAuthBytes.{curve_secp256k1, curve_p256}

-- The verifying keys and signatures of the two curves.
pub record Curves : Type 1 where
  pub Secp256k1Key : Type 0
  pub P256Key : Type 0
  pub secp256k1_from_sec1 : List ℕ → Option Secp256k1Key
  pub p256_from_sec1 : List ℕ → Option P256Key
  -- `Signature::from_slice` and `verify`: none for a malformed signature.
  pub secp256k1_verify : Secp256k1Key → (message signature : List ℕ) → Option Bool
  pub p256_verify : P256Key → (message signature : List ℕ) → Option Bool

pub data AtprotoVerifyingKey (c : Curves) : Type 0 where
  secp256k1 : c.Secp256k1Key → AtprotoVerifyingKey c
  p256 : c.P256Key → AtprotoVerifyingKey c

unfoldable pub curve_id : {c : Curves} → AtprotoVerifyingKey c → ℕ
curve_id (secp256k1 k) = curve_secp256k1
curve_id (p256 k) = curve_p256

pub record ServiceJwtClaims : Type 0 where
  pub iss : Option Str
  pub sub : Option Str
  pub aud : Option Str
  pub lxm : Option Str
  pub exp : Option ℕ
  pub iat : Option ℕ
  pub jti : Option Str

-- The errors of this file, of several types in the source, without their messages.
pub data ServiceAuthError : Type 0 where
  missing_header invalid_scheme malformed_did_document invalid_did_syntax : ServiceAuthError
  resolution : ServiceAuthError
  crypto : CryptoError → ServiceAuthError
  token : TokenError → ServiceAuthError

unfoldable pub is_plc_byte : ℕ → Bool
is_plc_byte b = is_ascii_lowercase b || is_ascii_digit b || (b == b'_') || (b == b'-')

unfoldable pub is_label : Str → Bool
is_label l =
    not (is_empty l)
    && leb (len l) 63
    && not (starts_with (codes "-") l)
    && not (ends_with (codes "-") l)
    && all (λ b. is_ascii_alphanumeric b || (b == b'-')) (as_bytes l)

-- `rest.split(':').next().unwrap_or("")`.
unfoldable pub first_part : List Str → Str
first_part [] = []
first_part (p ∷ parts) = p

unfoldable pub is_valid_web_host : Str → Bool
unfolding is_label
is_valid_web_host host = not (is_empty host) && leb (len host) 253 && all is_label (split b'.' host)

unfoldable pub is_valid_service_did : Str → Bool
unfolding is_plc_byte is_valid_web_host first_part
is_valid_service_did did = elim (strip_prefix (codes "did:plc:") did) [
  | some id ↦ not (is_empty id) && leb (len id) 64 && all is_plc_byte (as_bytes id)
  | none ↦ elim (strip_prefix (codes "did:web:") did) [
    | some rest ↦ is_valid_web_host (first_part (split b':' rest))
    | none ↦ false
  ]
]

-- `self.iss.as_deref().or(self.sub.as_deref())`.
unfoldable pub issuer_of : ServiceJwtClaims → Option Str
issuer_of claims = elim claims.iss [ some iss ↦ some iss | none ↦ claims.sub ]

unfoldable pub filter_did : Option Str → Option Str
filter_did none = none
filter_did (some did) = if is_valid_service_did did then some did else none

unfoldable pub viewer_did : ServiceJwtClaims → Option Str
unfolding issuer_of filter_did
viewer_did claims = filter_did (issuer_of claims)
