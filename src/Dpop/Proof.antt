-- ===== src/Dpop/Proof.antt =====
-- The part of `DPoPVerifier` of src/dpop.rs that reads a proof by itself: the compact form, the
-- header, the key and the signature, with the functions of src/crypto.rs that it calls. The
-- `base64`, `serde_json` and `p256` crates are the parameter `Jose`.
use skyauth.Base.{
  ℕ, ◌∷◌, ◌++◌, Bool, not, Option, none, some, List, [], length, list_eq, ◌==◌, Result, ok, err,
  ◌>>=◌, ◌>>◌, fail_if, ok_or, map_err, is_some,
}
use skyauth.Base.Text.{Str, codes, trim, split, eq_ignore_ascii_case}
use skyauth.Base.Utf8.{as_bytes}
use skyauth.Crypto.{CryptoError, base64_decode, invalid_point, ecdsa_verify}
use skyauth.Dpop.Errors.{
  DpopError, malformed_jwt, invalid_header_typ, unsupported_algorithm, missing_jwk,
  private_key_in_jwk, invalid_jwk, signature_verification_failed, crypto,
}

pub record JwkEc : Type 0 where
  pub kty : Str
  pub crv : Str
  pub x : Str
  pub y : Str

pub record DpopProofClaims : Type 0 where
  pub jti : Str
  pub htm : Str
  pub htu : Str
  pub iat : ℕ
  pub exp : Option ℕ
  pub nonce : Option Str
  pub ath : Option Str

-- `serde_json::Value` and the two derived deserializers, `p256`'s keys and signatures, and the two
-- decoders of `base64`.
pub record Jose : Type 1 where
  pub Value : Type 0
  pub from_slice : List ℕ → Option Value
  pub get : Value → Str → Option Value
  pub as_str : Value → Option Str
  pub jwk_from_value : Value → Option JwkEc
  pub claims_from_slice : List ℕ → Option DpopProofClaims
  pub VerifyingKey : Type 0
  pub from_sec1_bytes : List ℕ → Option VerifyingKey
  pub Signature : Type 0
  pub signature_from_slice : List ℕ → Option Signature
  pub verify : VerifyingKey → (message : List ℕ) → Signature → Bool
  pub decode_no_pad : Str → Option (List ℕ)
  pub decode_padded : Str → Option (List ℕ)

-- `.or_else(|_| …).map_err(…)`.
unfoldable pub or_decode : Option (List ℕ) → Option (List ℕ) → Result CryptoError (List ℕ)
or_decode (some bytes) other = ok bytes
or_decode none other = ok_or other base64_decode

module _ (j : Jose) where
  unfoldable pub base64url_decode : Str → Result CryptoError (List ℕ)
  unfolding or_decode
  base64url_decode input = or_decode (j.decode_no_pad (trim input)) (j.decode_padded (trim input))

  unfoldable pub base64url_decode_fixed : (n : ℕ) (input : Str) → Result CryptoError (List ℕ)
  base64url_decode_fixed n input = base64url_decode input >>= λ bytes.
      fail_if (not (length bytes == n)) base64_decode >> ok bytes

  unfoldable pub verifying_key_from_coordinates :
      (x_bytes y_bytes : List ℕ) → Result CryptoError j.VerifyingKey
  verifying_key_from_coordinates x_bytes y_bytes =
      ok_or (j.from_sec1_bytes (0x04 ∷ x_bytes ++ y_bytes)) invalid_point

  unfoldable pub to_verifying_key : JwkEc → Result CryptoError j.VerifyingKey
  to_verifying_key jwk = base64url_decode_fixed 32 jwk.x >>= λ x_bytes.
      base64url_decode_fixed 32 jwk.y >>= λ y_bytes. verifying_key_from_coordinates x_bytes y_bytes

  unfoldable pub verify_p256_raw :
      j.VerifyingKey → (message signature_bytes : List ℕ) → Result CryptoError (Unit {0})
  verify_p256_raw key message signature_bytes =
      fail_if (not (length signature_bytes == 64)) ecdsa_verify
      >> (ok_or (j.signature_from_slice signature_bytes) ecdsa_verify >>= λ sig.
          fail_if (not (j.verify key message sig)) ecdsa_verify)

  -- `header_val.get(name).and_then(|v| v.as_str())`.
  unfoldable pub header_str : j.Value → Str → Option Str
  header_str header name = elim (j.get header name) [ none ↦ none | (some v) ↦ j.as_str v ]

  -- The tests on the header of `verify_proof_no_replay`, up to the key.
  unfoldable pub check_header : j.Value → Result DpopError JwkEc
  check_header header = ok_or (header_str header (codes "typ")) invalid_header_typ >>= λ typ.
      fail_if (not (eq_ignore_ascii_case typ (codes "dpop+jwt"))) invalid_header_typ
      >> (ok_or (header_str header (codes "alg")) unsupported_algorithm >>= λ alg.
          fail_if (not (list_eq alg (codes "ES256"))) unsupported_algorithm
          >> (ok_or (j.get header (codes "jwk")) missing_jwk >>= λ jwk_val.
              fail_if (is_some (j.get jwk_val (codes "d"))) private_key_in_jwk
              >> (ok_or (j.jwk_from_value jwk_val) invalid_jwk >>= λ jwk.
                  fail_if (not (list_eq jwk.kty (codes "EC"))) invalid_jwk
                  >> fail_if (not (list_eq jwk.crv (codes "P-256"))) invalid_jwk
                  >> ok jwk)))

  -- From the three parts to the verified claims.
  unfoldable pub decode_parts :
      (header payload signature : Str) → Result DpopError (DpopProofClaims × JwkEc)
  decode_parts header payload signature =
      map_err crypto (base64url_decode header) >>= λ header_bytes.
      map_err crypto (base64url_decode payload) >>= λ payload_bytes.
      map_err crypto (base64url_decode signature) >>= λ signature_bytes.
      ok_or (j.from_slice header_bytes) malformed_jwt >>= λ header_val.
      check_header header_val >>= λ jwk. map_err crypto (to_verifying_key jwk) >>= λ key.
      map_err (λ _. signature_verification_failed)
        (verify_p256_raw key (as_bytes (header ++ b'.' ∷ payload)) signature_bytes)
      >> (ok_or (j.claims_from_slice payload_bytes) malformed_jwt >>= λ claims. ok (claims, jwk))

  unfoldable pub decode_split : List Str → Result DpopError (DpopProofClaims × JwkEc)
  decode_split (header ∷ payload ∷ signature ∷ []) = decode_parts header payload signature
  decode_split parts = err malformed_jwt

  -- The part of `verify_proof_no_replay` that reads the proof alone.
  unfoldable pub decode_proof : Str → Result DpopError (DpopProofClaims × JwkEc)
  unfolding decode_split
  decode_proof proof_jwt = decode_split (split b'.' (trim proof_jwt))
