-- ===== src/Dpop/Key/RoundTrip.antt =====
-- A proof that `create_proof` makes is read back by `decode_proof`.
use skyauth.Base.{ℕ, ◌∷◌, ◌++◌, ◌≡◌, refl, true, not, Option, some, List, length, ok, ◌>>=◌}
use skyauth.Base.Text.{Str, is_whitespace, trim}
use skyauth.Base.Splits.{all-imp, trim-none}
use skyauth.Base.Utf8.{as_bytes}
use skyauth.Crypto.{Crypto, base64url_encode, is_base64url}
use skyauth.Kernels.CtEq.{Subtle}
use skyauth.Url.{UrlParser}
use skyauth.Dpop.Htu.{normalize_htu}
use skyauth.Dpop.Proof.{
  DpopProofClaims, Jose, base64url_decode, base64url_decode_fixed, verifying_key_from_coordinates,
  to_verifying_key, verify_p256_raw, check_header, decode_parts, decode_split, decode_proof,
}
use skyauth.Dpop.Key.{
  Json, Signer, padded, proof_header, proof_payload, jti_of, public_jwk,
  verifying_key_to_coordinates, sign_p256_raw, sign_jwt, create_proof_internal, create_proof,
}
use skyauth.Dpop.Key.Reading.{IsReadBack, IsDerived}
use skyauth.Dpop.Key.Documents.{
  claims_of, check_header-proof_header, claims_from_slice-proof_payload,
}
use skyauth.Dpop.Key.Parts.{length-padded, base64url-space, split-parts}

-- `base64` decodes what it encoded.
abbrev pub IsDecoded : Jose → Crypto → List ℕ → Type 0
IsDecoded j c bytes = j.decode_no_pad (c.encode bytes) ≡ some bytes

-- What the `base64` and `p256` crates document, for one key and one message: a key is read back from
-- its coordinates, and a signature has 64 bytes and verifies under the key of the signer.
pub record IsSigned (j : Jose) (s : Signer j) (c : Crypto) (key : s.SigningKey) (message : List ℕ)
    : Type 0 where
  pub x : IsDecoded j c (padded (s.x (s.verifying_key key)))
  pub y : IsDecoded j c (padded (s.y (s.verifying_key key)))
  pub point :
      j.from_sec1_bytes
        (0x04 ∷ padded (s.x (s.verifying_key key)) ++ padded (s.y (s.verifying_key key)))
      ≡ some (s.verifying_key key)
  pub length : length (s.sign key message) ≡ 64
  pub signature : IsDecoded j c (s.sign key message)
  pub parsed : j.Signature
  pub from_slice : j.signature_from_slice (s.sign key message) ≡ some parsed
  pub verify : j.verify (s.verifying_key key) message parsed ≡ true

module _ (j : Jose) (c : Crypto) where
  base64url_decode-encode :
      (bytes : List ℕ)
      → IsDecoded j c bytes
      → base64url_decode j (base64url_encode c bytes) ≡ ok bytes
  unfolding base64url_decode base64url_encode
  base64url_decode-encode bytes decoded =
      let spaces =
        all-imp is_base64url (λ x. not (is_whitespace x)) (c.encode bytes) base64url-space
          (c.all-encode bytes) in
      rw (trim-none (c.encode bytes) spaces, decoded) refl

module _ (j : Jose) (s : Signer j) (c : Crypto) where
  to_verifying_key-public_jwk :
      (ct : Subtle) (url : UrlParser) (key : s.SigningKey) (message : List ℕ)
      → IsSigned j s c key message
      → to_verifying_key j (public_jwk j s c ct url key) ≡ ok (s.verifying_key key)
  unfolding to_verifying_key public_jwk base64url_decode_fixed verifying_key_from_coordinates
      verifying_key_to_coordinates
  to_verifying_key-public_jwk ct url key message h =
      let x = s.x (s.verifying_key key) in
      let y = s.y (s.verifying_key key) in
      let x_back = base64url_decode-encode j c (padded x) h.x in
      let y_back = base64url_decode-encode j c (padded y) h.y in
      rw (x_back, y_back, length-padded x, length-padded y, h.point) refl

  verify-sign :
      (key : s.SigningKey) (message : List ℕ)
      → IsSigned j s c key message
      → verify_p256_raw j (s.verifying_key key) message (s.sign key message) ≡ ok tt
  unfolding verify_p256_raw
  verify-sign key message h = rw (h.length, h.from_slice) (rw h.verify refl)

module _ (j : Jose) (s : Signer j) (c : Crypto) (ct : Subtle) (url : UrlParser)
    (key : s.SigningKey) where
  -- The header of a proof, and its text.
  abbrev pub made_header : Json
  made_header = proof_header (public_jwk j s c ct url key)

  abbrev pub bytes_of : Json → List ℕ
  bytes_of json = as_bytes (s.to_string json)

  -- What is signed.
  abbrev pub signing_bytes : Json → List ℕ
  signing_bytes payload =
      as_bytes (c.encode (bytes_of made_header) ++ b'.' ∷ c.encode (bytes_of payload))

  decode_proof-sign_jwt :
      (payload : Json) (claims : DpopProofClaims) (header : j.Value)
      → IsDecoded j c (bytes_of made_header)
      → IsDecoded j c (bytes_of payload)
      → IsSigned j s c key (signing_bytes payload)
      → j.from_slice (bytes_of made_header) ≡ some header
      → check_header j header ≡ ok (public_jwk j s c ct url key)
      → j.claims_from_slice (bytes_of payload) ≡ some claims
      → (sign_jwt j s c ct url key made_header payload >>= λ proof. decode_proof j proof)
        ≡ ok (claims, public_jwk j s c ct url key)
  unfolding sign_jwt decode_proof decode_split sign_p256_raw base64url_encode decode_parts
      public_jwk
  decode_proof-sign_jwt payload claims header head_back payload_back signed head_read checked read =
      let message = signing_bytes payload in
      let signature = s.sign key message in
      let header_bytes = bytes_of made_header in
      let parts =
        split-parts (c.encode header_bytes) (c.encode (bytes_of payload)) (c.encode signature)
          (c.all-encode header_bytes) (c.all-encode (bytes_of payload)) (c.all-encode signature) in
      let decoded = base64url_decode-encode j c in
      let head = decoded header_bytes head_back in
      let body = decoded (bytes_of payload) payload_back in
      let last = decoded signature signed.signature in
      let read_key = to_verifying_key-public_jwk j s c ct url key message signed in
      rw signed.length (
        rw parts (
          rw (head, body, last, head_read)
            (rw (checked, read_key) (rw (verify-sign j s c key message signed, read) refl))))

  -- The claims that `create_proof` puts in a proof, and the payload it writes for them.
  abbrev pub made_claims :
      (htm target : Str) (nonce ath : Option Str) (now : ℕ) (jti_bytes : List ℕ) → DpopProofClaims
  made_claims htm target nonce ath now jti_bytes =
      claims_of (c.encode jti_bytes) (s.to_uppercase (trim htm)) target now nonce ath

  abbrev pub made_payload :
      (htm target : Str) (nonce ath : Option Str) (now : ℕ) (jti_bytes : List ℕ) → Json
  made_payload htm target nonce ath now jti_bytes =
      proof_payload (c.encode jti_bytes) (s.to_uppercase (trim htm)) target now nonce ath

  -- A proof that `create_proof` makes for a target that normalizes is decoded again, to its
  -- identifier, the upper case of the trimmed method, the normalized target, the time, the trimmed
  -- nonce and hash where they are not blank, and the public key of the signer, if `base64` decodes
  -- what it encoded, `p256` reads back the key and verifies the signature, and `serde_json` reads
  -- from the two texts the fields that were written, and the claims and the key from their fields.
  pub decode_proof-create_proof :
      (as_u64 : j.Value → Option ℕ) (htm htu target : Str) (nonce ath : Option Str) (now : ℕ)
      (jti_bytes : List ℕ)
      → normalize_htu url htu ≡ ok target
      → IsDecoded j c (bytes_of made_header)
      → IsDecoded j c (bytes_of (made_payload htm target nonce ath now jti_bytes))
      → IsSigned j s c key (signing_bytes (made_payload htm target nonce ath now jti_bytes))
      → IsReadBack j as_u64 (bytes_of made_header) made_header
      → IsReadBack j as_u64
          (bytes_of (made_payload htm target nonce ath now jti_bytes))
          (made_payload htm target nonce ath now jti_bytes)
      → IsDerived j as_u64 (bytes_of (made_payload htm target nonce ath now jti_bytes))
      → (create_proof j s c ct url key htm htu nonce ath (some now) jti_bytes >>= λ proof.
          decode_proof j proof)
        ≡ ok (made_claims htm target nonce ath now jti_bytes, public_jwk j s c ct url key)
  unfolding create_proof create_proof_internal jti_of base64url_encode public_jwk
  decode_proof-create_proof as_u64 htm htu target nonce ath now jti_bytes normalized head_back
        body_back signed (header, head_read, head_says) written derived =
      let payload = made_payload htm target nonce ath now jti_bytes in
      let claims = made_claims htm target nonce ath now jti_bytes in
      let jwk = public_jwk j s c ct url key in
      let checked =
        check_header-proof_header j as_u64 (bytes_of payload) jwk header derived refl refl
          head_says in
      let read =
        claims_from_slice-proof_payload j as_u64 (bytes_of payload) (c.encode jti_bytes)
          (s.to_uppercase (trim htm)) target now nonce ath derived written in
      rw normalized (
        decode_proof-sign_jwt payload claims header head_back body_back signed head_read checked
          read)
