-- ===== src/Dpop/Key.antt =====
-- `DPoPKey` of src/dpop.rs: proofs and client assertions, with the functions of src/crypto.rs that
-- it calls. The `p256` crate, the text of a JSON value, and Unicode upper case are the parameter
-- `Signer`; import and export of keys are calls of that crate and left out.
pub mod Parts
pub mod Reading
pub mod Documents
pub mod RoundTrip
use skyauth.Base.{
  ℕ, ◌∷◌, ◌++◌, Option, none, some, List, [], ◌-◌, ◌==◌, not, leb, length, replicate, take,
  if◌then◌else◌, Result, ok, err, ◌>>=◌, ◌>>◌, fail_if, ok_or, map_err,
}
use skyauth.Base.Text.{Str, codes, is_empty, trim}
use skyauth.Base.Utf8.{as_bytes}
use skyauth.Crypto.{Crypto, CryptoError, ecdsa_sign, base64url_encode}
use skyauth.Kernels.CtEq.{Subtle}
use skyauth.Url.{UrlParser}
use skyauth.Dpop.Errors.{DpopError, crypto, clock_skew}
use skyauth.Dpop.Htu.{normalize_htu}
use skyauth.Dpop.NonceSource.{saturating_add}
use skyauth.Dpop.Proof.{JwkEc, DpopProofClaims, Jose}
use skyauth.Dpop.Verifier.{thumbprint}

-- `serde_json::Value`, as far as it is written here.
mutual
  pub data Json : Type 0 where
    text : Str → Json
    number : ℕ → Json
    object : Fields → Json

  pub data Fields : Type 0 where
    end : Fields
    field : (name : Str) → Json → Fields → Fields

pub record Signer (j : Jose) : Type 1 where
  pub SigningKey : Type 0
  pub verifying_key : SigningKey → j.VerifyingKey
  -- The coordinates of `to_sec1_point`.
  pub x : j.VerifyingKey → Option (List ℕ)
  pub y : j.VerifyingKey → Option (List ℕ)
  -- `sign` and `to_bytes`.
  pub sign : SigningKey → (message : List ℕ) → List ℕ
  -- `serde_json::to_string`.
  pub to_string : Json → Str
  -- `str::to_uppercase`.
  pub to_uppercase : Str → Str

-- An optional claim, left out when it is blank.
unfoldable pub optional_field : (name : Str) → Option Str → Fields → Fields
optional_field name none rest = rest
optional_field name (some s) rest =
    if is_empty (trim s) then rest else field name (text (trim s)) rest

unfoldable pub jwk_json : JwkEc → Json
jwk_json jwk = object (
    field (codes "kty") (text jwk.kty) (
      field (codes "crv") (text jwk.crv)
        (field (codes "x") (text jwk.x) (field (codes "y") (text jwk.y) end))))

unfoldable pub proof_header : JwkEc → Json
proof_header jwk = object (
    field (codes "typ") (text (codes "dpop+jwt"))
      (field (codes "alg") (text (codes "ES256")) (field (codes "jwk") (jwk_json jwk) end)))

unfoldable pub proof_payload : (jti htm htu : Str) (iat : ℕ) (nonce ath : Option Str) → Json
proof_payload jti htm htu iat nonce ath = object (
    field (codes "jti") (text jti) (
      field (codes "htm") (text htm) (
        field (codes "htu") (text htu) (
          field (codes "iat") (number iat)
            (optional_field (codes "nonce") nonce (optional_field (codes "ath") ath end))))))

-- 32 bytes, with zeros before a shorter coordinate.
unfoldable pub padded : Option (List ℕ) → List ℕ
padded none = replicate 32 0
padded (some bytes) =
    let len = if leb (length bytes) 32 then length bytes else 32 in
    replicate (32 - len) 0 ++ take len bytes

-- `match jti_override`.
unfoldable pub jti_of : Crypto → (jti_override : Option Str) (jti_bytes : List ℕ) → Str
jti_of c none jti_bytes = base64url_encode c jti_bytes
jti_of c (some jti) jti_bytes = jti

module _ (j : Jose) (s : Signer j) (c : Crypto) (ct : Subtle) (url : UrlParser) where
  unfoldable pub verifying_key_to_coordinates : j.VerifyingKey → List ℕ × List ℕ
  verifying_key_to_coordinates key = (padded (s.x key), padded (s.y key))

  unfoldable pub sign_p256_raw : s.SigningKey → (message : List ℕ) → Result CryptoError (List ℕ)
  sign_p256_raw key message =
      let bytes = s.sign key message in fail_if (not (length bytes == 64)) ecdsa_sign >> ok bytes

  unfoldable pub public_jwk : s.SigningKey → JwkEc
  public_jwk key =
      let (x_bytes, y_bytes) = verifying_key_to_coordinates (s.verifying_key key) in
      record {
        kty = codes "EC";
        crv = codes "P-256";
        x = base64url_encode c x_bytes;
        y = base64url_encode c y_bytes;
      }

  unfoldable pub jwk_thumbprint : s.SigningKey → Str
  jwk_thumbprint key = thumbprint j c ct url (public_jwk key)

  -- The end of both functions: the header and the payload, encoded, and the signature over them.
  unfoldable pub sign_jwt : s.SigningKey → (header payload : Json) → Result DpopError Str
  sign_jwt key header payload =
      let header_b64 = base64url_encode c (as_bytes (s.to_string header)) in
      let payload_b64 = base64url_encode c (as_bytes (s.to_string payload)) in
      let signing_input = header_b64 ++ b'.' ∷ payload_b64 in
      map_err crypto (sign_p256_raw key (as_bytes signing_input)) >>= λ sig_bytes.
      ok (signing_input ++ b'.' ∷ base64url_encode c sig_bytes)

  unfoldable pub create_proof_internal :
      s.SigningKey
      → (htm htu : Str) (nonce ath : Option Str) (iat_secs : ℕ) (jti_override : Option Str)
        (jti_bytes : List ℕ)
      → Result DpopError Str
  create_proof_internal key htm htu nonce ath iat_secs jti_override jti_bytes =
      normalize_htu url htu >>= λ normalized_htu. sign_jwt key (proof_header (public_jwk key)) (
        proof_payload (jti_of c jti_override jti_bytes) (s.to_uppercase (trim htm)) normalized_htu
          iat_secs nonce ath)

  unfoldable pub create_proof :
      s.SigningKey
      → (htm htu : Str) (nonce ath : Option Str) (clock : Option ℕ) (jti_bytes : List ℕ)
      → Result DpopError Str
  create_proof key htm htu nonce ath clock jti_bytes = ok_or clock clock_skew >>= λ now_secs.
      create_proof_internal key htm htu nonce ath now_secs none jti_bytes

  unfoldable pub public_client_jwk : s.SigningKey → Json
  public_client_jwk key =
      let jwk = public_jwk key in
      object (
        field (codes "kty") (text jwk.kty) (
          field (codes "crv") (text jwk.crv) (
            field (codes "x") (text jwk.x) (
              field (codes "y") (text jwk.y) (
                field (codes "kid") (text (thumbprint j c ct url jwk)) (
                  field (codes "use") (text (codes "sig"))
                    (field (codes "alg") (text (codes "ES256")) end)))))))

  unfoldable pub create_client_assertion_internal :
      s.SigningKey
      → (client_id audience : Str) (iat_secs : ℕ) (jti_override : Option Str) (jti_bytes : List ℕ)
      → Result DpopError Str
  create_client_assertion_internal key client_id audience iat_secs jti_override jti_bytes =
      sign_jwt key
        (object (
          field (codes "alg") (text (codes "ES256")) (
            field (codes "kid") (text (jwk_thumbprint key))
              (field (codes "typ") (text (codes "jwt")) end))))
        (object (
          field (codes "iss") (text client_id) (
            field (codes "sub") (text client_id) (
              field (codes "aud") (text audience) (
                field (codes "jti") (text (jti_of c jti_override jti_bytes)) (
                  field (codes "iat") (number iat_secs)
                    (field (codes "exp") (number (saturating_add iat_secs 60)) end)))))))

  unfoldable pub create_client_assertion :
      s.SigningKey
      → (client_id audience : Str) (clock : Option ℕ) (jti_bytes : List ℕ) → Result DpopError Str
  create_client_assertion key client_id audience clock jti_bytes =
      ok_or clock clock_skew >>= λ now_secs.
      create_client_assertion_internal key client_id audience now_secs none jti_bytes
