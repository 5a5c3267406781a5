-- ===== src/Examples/ServiceAuth.antt =====
-- The properties of service tokens at a concrete key, cache and token.
use skyauth.Maps.{get, insert}
use skyauth.Base.Utf8.{len}
use skyauth.Kernels.ServiceAuthBytes.{
  alg_id_from_str, is_alg_bound_to_curve, is_service_jwt_exp_valid,
}
use skyauth.Base.{ℕ, ◌≡◌, refl, true, some, none, List, [], ◌∷◌, ok, arith}
use skyauth.Base.Text.{
  Str, codes, trim, eq_ignore_ascii_case, split, strip_prefix, is_ascii_lowercase,
}
use skyauth.ServiceAuth.{
  Curves, AtprotoVerifyingKey, p256, ServiceJwtClaims, issuer_of, is_valid_service_did, curve_id,
  viewer_did,
}
use skyauth.ServiceAuth.Base58.{
  bs58_encode, bs58_decode, decode_multikey, encode_multikey_secp256k1, encode_multikey_p256,
}
use skyauth.ServiceAuth.Base58.RoundTrip.{decode_multikey-encode, bs58_decode-bs58_encode}
use skyauth.ServiceAuth.KeyCache.{DidKeyCache, new, insert_atproto_key, get_atproto_key}
use skyauth.ServiceAuth.Verifier.{
  extract_bearer_token, verify_service_jwt_claims, decode, verify_with, check_claims,
}
use skyauth.ServiceAuth.Verifier.Signed.{IsAuthentic, verify_service_jwt_claims-IsAuthentic}
use skyauth.Examples.Instances.{hash}

abbrev curves : Curves
curves = record {
  Secp256k1Key = List ℕ;
  P256Key = List ℕ;
  secp256k1_from_sec1 = λ bytes. some bytes;
  p256_from_sec1 = λ bytes. some bytes;
  secp256k1_verify = λ key message signature. some true;
  p256_verify = λ key message signature. some true;
}

bs58_decode-bs58_encode_example :
    bs58_decode (bs58_encode (7 ∷ 0 ∷ 255 ∷ [])) ≡ ok (7 ∷ 0 ∷ 255 ∷ [])
bs58_decode-bs58_encode_example =
    bs58_decode-bs58_encode 7 (0 ∷ 255 ∷ []) (omega arith)
      (omega arith, (omega arith, (omega arith, tt)))

decode_multikey-encode_example :
    (decode_multikey (λ s. none) (encode_multikey_secp256k1 (2 ∷ 9 ∷ []))
      ≡ ok (0xe7 ∷ 0x01 ∷ 2 ∷ 9 ∷ []))
    × (decode_multikey (λ s. none) (encode_multikey_p256 (2 ∷ 9 ∷ []))
        ≡ ok (0x80 ∷ 0x24 ∷ 2 ∷ 9 ∷ []))
decode_multikey-encode_example =
    decode_multikey-encode (λ s. none) (2 ∷ 9 ∷ []) (omega arith, (omega arith, tt))

abbrev key : AtprotoVerifyingKey curves
key = p256 (2 ∷ 9 ∷ [])

abbrev did : Str
did = codes "did:plc:abc"

abbrev empty : DidKeyCache curves
empty = new 900

abbrev cached : DidKeyCache curves
cached = insert_atproto_key hash empty did key 1000

abbrev claims : ServiceJwtClaims
claims = record {
  iss = some did;
  sub = none;
  aud = some (codes "did:web:pds.example");
  lxm = none;
  exp = some 1600;
  iat = none;
  jti = none;
}

accepted :
    (verify_service_jwt_claims curves
      (λ s. some (1 ∷ []))
      (λ s. none)
      (λ d. none)
      hash
      (λ bytes. some (codes "ES256"))
      (λ bytes. some claims)
      cached
      (codes "Bearer h.p.s")
      (codes "did:web:pds.example" ∷ [])
      1500
      60).0
    ≡ ok claims
unfolding verify_service_jwt_claims trim eq_ignore_ascii_case split decode alg_id_from_str issuer_of
    is_valid_service_did strip_prefix len is_ascii_lowercase get_atproto_key get insert_atproto_key
    new insert is_alg_bound_to_curve curve_id verify_with check_claims is_service_jwt_exp_valid
    viewer_did
accepted = refl

verify_service_jwt_claims-IsAuthentic_example :
    (jwt : Str) × (extract_bearer_token (codes "Bearer h.p.s") ≡ ok jwt)
    × IsAuthentic curves
        (λ s. some (1 ∷ []))
        (λ s. none)
        (λ d. none)
        hash
        (λ bytes. some (codes "ES256"))
        (λ bytes. some claims)
        cached
        jwt
        claims
        (codes "did:web:pds.example" ∷ [])
        1500
        60
verify_service_jwt_claims-IsAuthentic_example =
    verify_service_jwt_claims-IsAuthentic curves (λ s. some (1 ∷ [])) (λ s. none) (λ d. none) hash
      (λ bytes. some (codes "ES256")) (λ bytes. some claims) cached (codes "Bearer h.p.s")
      (codes "did:web:pds.example" ∷ []) 1500 60 claims accepted
