-- ===== src/Examples/Keys.antt =====
-- The round trip of a proof at a concrete key: both coordinates are missing, and the crates tell what
-- they decode by its length.
use skyauth.Base.Utf8.{as_bytes}
use skyauth.Crypto.{base64url_encode}
use skyauth.Base.{
  ℕ, ◌≡◌, ◌==◌, ◌>>=◌, refl, Option, some, none, false, arith, true, List, [], ◌∷◌, ok, replicate,
  length, list_eq, if◌then◌else◌,
}
use skyauth.Base.Text.{Str, codes, trim, to_ascii_lowercase}
use skyauth.Kernels.HtuComponents.{parse, build_normalized_htu}
use skyauth.Dpop.Htu.{normalize_htu}
use skyauth.Dpop.Proof.{JwkEc, DpopProofClaims, Jose, header_str, decode_proof}
use skyauth.Dpop.Key.{
  Json, Fields, end, object, field, Signer, public_jwk, create_proof, padded,
  verifying_key_to_coordinates, proof_header, proof_payload, jwk_json, optional_field,
}
use skyauth.Dpop.Key.Reading.{is_named, IsReadBack, IsDerived}
use skyauth.Dpop.Key.RoundTrip.{
  IsDecoded, IsSigned, bytes_of, made_header, signing_bytes, made_claims, made_payload,
  decode_proof-create_proof,
}
use skyauth.Url.{UrlParser}
use skyauth.Examples.Instances.{crypto, subtle}
use skyauth.Examples.Ssrf
use skyauth.Examples.Documents.{
  find, number_value, jwk_fields, header_fields, payload_fields, reader,
}

abbrev own_jwk : JwkEc
own_jwk = record {
  kty = codes "EC";
  crv = codes "P-256";
  x = replicate 43 b'A';
  y = replicate 43 b'A';
}

abbrev own_claims : DpopProofClaims
own_claims = record {
  jti = codes "AA";
  htm = codes "POST";
  htu = codes "https://pds.example/";
  iat = 1000;
  exp = none;
  nonce = some (codes "n");
  ath = none;
}

-- A value is 0 for the header, 1 and 2 for its texts, and 3 for its key.
abbrev own_field : ℕ → Str → Option ℕ
own_field v name =
    if v == 0
    then if list_eq name (codes "typ")
      then some 1
      else if list_eq name (codes "alg")
      then some 2
      else some 3
    else none

abbrev pub jose : Jose
jose = record {
  Value = ℕ;
  from_slice = λ bytes. some 0;
  get = own_field;
  as_str = λ v. some (if v == 1 then codes "dpop+jwt" else codes "ES256");
  jwk_from_value = λ v. some own_jwk;
  claims_from_slice = λ bytes. some own_claims;
  VerifyingKey = List ℕ;
  from_sec1_bytes = λ bytes. some [];
  Signature = List ℕ;
  signature_from_slice = λ bytes. some bytes;
  verify = λ key message signature. true;
  decode_no_pad = λ s.
      if length s == 2
      then some (codes "h")
      else if length s == 3
      then some (codes "pp")
      else if length s == 43
      then some (replicate 32 0)
      else some (replicate 64 7);
  decode_padded = λ s. none;
}

abbrev text_of : Json → Str
text_of (object (field name value rest)) =
    if list_eq name (codes "typ") then codes "h" else codes "pp"
text_of json = []

abbrev signer : Signer reader
signer = record {
  SigningKey = List ℕ;
  verifying_key = λ key. [];
  x = λ key. none;
  y = λ key. none;
  sign = λ key message. replicate 64 7;
  to_string = text_of;
  to_uppercase = λ s. s;
}

abbrev url : UrlParser
url s = some Ssrf.url

normalized : normalize_htu url (codes "https://pds.example/?q") ≡ ok (codes "https://pds.example/")
unfolding normalize_htu trim parse to_ascii_lowercase build_normalized_htu
normalized = refl

abbrev own_payload : Json
own_payload =
    made_payload reader signer crypto subtle url [] (codes "POST") (codes "https://pds.example/")
      (some (codes " n")) (some (codes " ")) 1000 (1 ∷ [])

abbrev own_header : Json
own_header = made_header reader signer crypto subtle url []

abbrev own_bytes : Json → List ℕ
own_bytes = bytes_of reader signer crypto subtle url []

header-IsDecoded : IsDecoded reader crypto (own_bytes own_header)
unfolding as_bytes proof_header
header-IsDecoded = refl

payload-IsDecoded : IsDecoded reader crypto (own_bytes own_payload)
unfolding as_bytes proof_payload
payload-IsDecoded = refl

signed :
    IsSigned reader signer crypto [] (signing_bytes reader signer crypto subtle url [] own_payload)
unfolding padded
signed = record {
  x = refl;
  y = refl;
  point = refl;
  length = refl;
  signature = refl;
  parsed = replicate 64 7;
  from_slice = refl;
  verify = refl;
}

-- A name that is not there is not found.
find-none : (name : Str) (fields : Fields) → is_named name fields ≡ false → find name fields ≡ none
find-none name end h = refl
find-none name (field name' json rest) h =
    let behind = find-none name rest (ground arith) in ground arith

header-IsReadBack : IsReadBack reader number_value (own_bytes own_header) own_header
unfolding as_bytes proof_header jwk_json public_jwk base64url_encode verifying_key_to_coordinates
    padded
header-IsReadBack = (
  object header_fields,
  refl,
  (
    (
      (_, refl, refl),
      (
        (_, refl, refl),
        (
          (
            _,
            refl,
            (
              ((_, refl, refl), ((_, refl, refl), ((_, refl, refl), ((_, refl, refl), tt)))),
              λ name h. find-none name jwk_fields h,
            ),
          ),
          tt,
        ),
      ),
    ),
    λ name h. find-none name header_fields h,
  ),
)

payload-IsReadBack : IsReadBack reader number_value (own_bytes own_payload) own_payload
unfolding as_bytes proof_payload optional_field trim
payload-IsReadBack = (
  object payload_fields,
  refl,
  (
    (
      (_, refl, refl),
      ((_, refl, refl), ((_, refl, refl), ((_, refl, refl), ((_, refl, refl), tt)))),
    ),
    λ name h. find-none name payload_fields h,
  ),
)

derived : IsDerived reader number_value (own_bytes own_payload)
unfolding header_str
derived = record {
  jwk_of = λ v jwk kty crv x y. rw (kty, crv, x, y) refl;
  claims_of = λ v claims read jti htm htu iat exp nonce ath. ground arith;
}

decode_proof-create_proof_example :
    (create_proof reader signer crypto subtle url []
        (codes "POST")
        (codes "https://pds.example/?q")
        (some (codes " n"))
        (some (codes " "))
        (some 1000)
        (1 ∷ [])
      >>= λ proof. decode_proof reader proof)
    ≡ ok (
      made_claims reader signer crypto subtle url []
          (codes "POST")
          (codes "https://pds.example/")
          (some (codes " n"))
          (some (codes " "))
          1000
          (1 ∷ []),
      public_jwk reader signer crypto subtle url [],
    )
decode_proof-create_proof_example =
    decode_proof-create_proof reader signer crypto subtle url [] number_value (codes "POST")
      (codes "https://pds.example/?q") (codes "https://pds.example/") (some (codes " n"))
      (some (codes " ")) 1000 (1 ∷ []) normalized header-IsDecoded payload-IsDecoded signed
      header-IsReadBack payload-IsReadBack derived
