-- ===== src/Examples/Documents.antt =====
-- A reader of two concrete documents, the header and the payload of a proof, with deserializers that
-- find their fields by name.

use skyauth.Base.{
  ℕ, ◌==◌, Option, some, none, true, List, [], replicate, length, list_eq, if◌then◌else◌,
}
use skyauth.Base.Text.{Str, codes}
use skyauth.Dpop.Proof.{JwkEc, DpopProofClaims, Jose}
use skyauth.Dpop.Key.{Json, Fields, end, text, number, object, field}

-- A value is a document, with its fields found by name.
abbrev pub find : Str → Fields → Option Json
find name end = none
find name (field name' json rest) = if list_eq name' name then some json else find name rest

abbrev pub get_field : Json → Str → Option Json
get_field (object fields) name = find name fields
get_field json name = none

abbrev pub text_value : Json → Option Str
text_value (text t) = some t
text_value json = none

abbrev pub number_value : Json → Option ℕ
number_value (number n) = some n
number_value json = none

-- The derived deserializers: by name, with optional fields last.
abbrev pub text_field : Json → Str → Option Str
text_field v name = elim (get_field v name) [ none ↦ none | (some w) ↦ text_value w ]

abbrev pub number_field : Json → Str → Option ℕ
number_field v name = elim (get_field v name) [ none ↦ none | (some w) ↦ number_value w ]

-- `?` on an `Option`.
infixl 5 ◌>>?◌
abbrev pub ◌>>?◌ : {A B : Type 0} → Option A → (A → Option B) → Option B
none >>? f = none
some a >>? f = f a

abbrev pub read_jwk : Json → Option JwkEc
read_jwk v = text_field v (codes "kty") >>? λ kty. text_field v (codes "crv") >>? λ crv.
    text_field v (codes "x") >>? λ x.
    text_field v (codes "y") >>? λ y. some (record { kty = kty; crv = crv; x = x; y = y })

abbrev pub read_claims : Json → Option DpopProofClaims
read_claims v = text_field v (codes "jti") >>? λ jti. text_field v (codes "htm") >>? λ htm.
    text_field v (codes "htu") >>? λ htu. number_field v (codes "iat") >>? λ iat. some (record {
      jti = jti;
      htm = htm;
      htu = htu;
      iat = iat;
      exp = number_field v (codes "exp");
      nonce = text_field v (codes "nonce");
      ath = text_field v (codes "ath");
    })

-- The documents of the two texts, the header of one byte and the payload of two.
abbrev pub jwk_fields : Fields
jwk_fields = field (codes "kty") (text (codes "EC")) (
    field (codes "crv") (text (codes "P-256")) (
      field (codes "x") (text (replicate 43 b'A'))
        (field (codes "y") (text (replicate 43 b'A')) end)))

abbrev pub header_fields : Fields
header_fields =
    field (codes "typ") (text (codes "dpop+jwt"))
      (field (codes "alg") (text (codes "ES256")) (field (codes "jwk") (object jwk_fields) end))

abbrev pub payload_fields : Fields
payload_fields = field (codes "jti") (text (codes "AA")) (
    field (codes "htm") (text (codes "POST")) (
      field (codes "htu") (text (codes "https://pds.example/"))
        (field (codes "iat") (number 1000) (field (codes "nonce") (text (codes "n")) end))))

abbrev pub parse_document : List ℕ → Option Json
parse_document bytes =
    if list_eq bytes (codes "h")
    then some (object header_fields)
    else if list_eq bytes (codes "pp")
    then some (object payload_fields)
    else none

abbrev pub reader : Jose
reader = record {
  Value = Json;
  from_slice = parse_document;
  get = get_field;
  as_str = text_value;
  jwk_from_value = read_jwk;
  claims_from_slice = λ bytes. parse_document bytes >>? read_claims;
  VerifyingKey = List ℕ;
  from_sec1_bytes = λ bytes. some [];
  Signature = List ℕ;
  signature_from_slice = λ bytes. some bytes;
  verify = λ key message signature. true;
  decode_no_pad = λ s.
      if length s == 2
      then some (codes "h")
      else if length s == 3
      then some (codes "pp")
      else if length s == 43
      then some (replicate 32 0)
      else some (replicate 64 7);
  decode_padded = λ s. none;
}
