-- ===== src/ServiceAuth/Verifier.antt =====
-- `ServiceAuthVerifier` of src/service_auth.rs: from a bearer token to the claims of its issuer. The
-- resolver of DID documents, the decoders of `base64` and the deserializers of `serde_json` are
-- parameters. An operation returns the key cache after it.
pub mod Claims
pub mod Signed
use skyauth.Base.{
  ℕ, ◌∷◌, ◌++◌, Bool, true, false, not, ◌&&◌, ◌||◌, Option, none, some, List, [], length, any,
  list_eq, ltb, ◌==◌, if◌then◌else◌, Result, ok, err, ◌>>=◌, ◌>>◌, fail_if, ok_or, map_err, is_some,
}
use skyauth.Base.Text.{Str, codes, is_empty, is_whitespace, trim, split, eq_ignore_ascii_case}
use skyauth.Base.Utf8.{as_bytes}
use skyauth.Crypto.{invalid_key}
use skyauth.Integrations.{
  TokenError, malformed_token, missing_issuer, invalid_signature, expired, audience_mismatch,
  missing_did,
}
use skyauth.Kernels.ServiceAuthBytes.{
  classify_multikey_bytes, alg_id_from_str, is_alg_bound_to_curve, is_service_jwt_exp_valid,
  alg_none, curve_secp256k1, curve_p256,
}
use skyauth.Identity.{DidDocument, VerificationMethod, extract_signing_key}
use skyauth.ServiceAuth.{
  Curves, AtprotoVerifyingKey, secp256k1, p256, curve_id, ServiceJwtClaims, ServiceAuthError,
  missing_header, invalid_scheme, malformed_did_document, invalid_did_syntax, resolution, crypto,
  token, is_valid_service_did, issuer_of, viewer_did,
}
use skyauth.ServiceAuth.Base58.{decode_multikey}
use skyauth.ServiceAuth.KeyCache.{DidKeyCache, get_atproto_key, insert_atproto_key, invalidate}

abbrev pub malformed : ServiceAuthError
malformed = token malformed_token

-- `split_once(char::is_whitespace)`.
unfoldable pub split_space : Str → Option (Str × Str)
split_space [] = none
split_space (c ∷ s) =
    let rest = split_space s in
    if is_whitespace c
    then some ([], s)
    else elim rest [ none ↦ none | some parts ↦ some (c ∷ parts.0, parts.1) ]

unfoldable pub bearer_of : (trimmed : Str) → Option (Str × Str) → Result ServiceAuthError Str
bearer_of trimmed none = ok trimmed
bearer_of trimmed (some parts) =
    fail_if (not (eq_ignore_ascii_case parts.0 (codes "Bearer"))) invalid_scheme
    >> fail_if (is_empty (trim parts.1)) malformed
    >> ok (trim parts.1)

unfoldable pub extract_bearer_token : Str → Result ServiceAuthError Str
unfolding bearer_of split_space
extract_bearer_token auth_header_or_token =
    let trimmed = trim auth_header_or_token in
    fail_if (is_empty trimmed) missing_header
    >> fail_if (eq_ignore_ascii_case trimmed (codes "Bearer")) malformed
    >> bearer_of trimmed (split_space trimmed)

-- `if let Some(exp) = claims.exp { … }`.
unfoldable pub check_exp : (now leeway : ℕ) → Option ℕ → Result ServiceAuthError (Unit {0})
check_exp now leeway none = ok tt
check_exp now leeway (some exp) =
    fail_if (not (is_service_jwt_exp_valid exp now leeway)) (token (expired exp now))

-- The audience, where one is expected and one is claimed.
unfoldable pub check_aud : (expected : List Str) → Option Str → Result ServiceAuthError (Unit {0})
check_aud expected none = ok tt
check_aud expected (some aud) =
    fail_if (not (is_empty expected) && not (any (λ e. list_eq e aud) expected))
      (token (audience_mismatch aud))

-- The tests after the signature.
unfoldable pub check_claims :
    ServiceJwtClaims
    → (expected_audiences : List Str) (now leeway : ℕ) → Result ServiceAuthError (Unit {0})
unfolding check_exp check_aud
check_claims claims expected_audiences now leeway =
    check_exp now leeway claims.exp
    >> check_aud expected_audiences claims.aud
    >> fail_if (not (is_some claims.iss) || not (is_some (viewer_did claims))) (token missing_did)

-- `expected_audience.into_iter().collect()`.
unfoldable pub audiences_of : Option Str → List Str
audiences_of none = []
audiences_of (some aud) = aud ∷ []

module _ (c : Curves) (decode_no_pad decode_padded : Str → Option (List ℕ)) where
  abbrev Key : Type 0
  Key = AtprotoVerifyingKey c

  -- `URL_SAFE_NO_PAD.decode(…).or_else(|_| URL_SAFE.decode(…))`.
  unfoldable pub decode : Str → Option (List ℕ)
  decode s = elim (decode_no_pad s) [ some bytes ↦ some bytes | none ↦ decode_padded s ]

  -- The key of a classified Multikey; every other outcome is an invalid key.
  unfoldable pub key_of : Option (ℕ × List ℕ) → Result ServiceAuthError Key
  key_of none = err (crypto invalid_key)
  key_of (some (curve, sec1)) =
      if curve == curve_secp256k1
      then (ok_or (c.secp256k1_from_sec1 sec1) (crypto invalid_key) >>= λ k. ok (secp256k1 k))
      else if curve == curve_p256
      then (ok_or (c.p256_from_sec1 sec1) (crypto invalid_key) >>= λ k. ok (p256 k))
      else err (crypto invalid_key)

  unfoldable pub extract_atproto_key_from_document : DidDocument → Result ServiceAuthError Key
  unfolding key_of
  extract_atproto_key_from_document doc =
      ok_or (extract_signing_key doc) malformed_did_document >>= λ method.
      ok_or method.public_key_multibase malformed_did_document >>= λ raw.
      map_err crypto (decode_multikey decode_no_pad raw) >>= λ key_bytes.
      key_of (classify_multikey_bytes key_bytes)

  -- The verification under a key: none for a malformed signature.
  unfoldable pub verify_with : Key → (message signature : List ℕ) → Option Bool
  verify_with (secp256k1 k) message signature = c.secp256k1_verify k message signature
  verify_with (p256 k) message signature = c.p256_verify k message signature

  module _ (resolve_did : Str → Option DidDocument) (hash : Str → ℕ)
      (header_alg : List ℕ → Option Str)
      (claims_from_slice : List ℕ → Option ServiceJwtClaims) where
    abbrev Cache : Type 0
    Cache = DidKeyCache c

    unfoldable pub cache_key :
        Cache
        → (did : Str) (now : ℕ) → Result ServiceAuthError Key
        → Result ServiceAuthError Key × Cache
    cache_key s did now (err e) = (err e, s)
    cache_key s did now (ok key) = (ok key, insert_atproto_key hash s did key now)

    unfoldable pub resolve_missing :
        Cache → (did : Str) (now : ℕ) → Option Key → Result ServiceAuthError Key × Cache
    unfolding cache_key
    resolve_missing s did now (some key) = (ok key, s)
    resolve_missing s did now none =
        cache_key s did now
          (ok_or (resolve_did did) resolution >>= λ doc. extract_atproto_key_from_document doc)

    unfoldable pub resolve_atproto_key :
        Cache → (did : Str) (now : ℕ) → Result ServiceAuthError Key × Cache
    unfolding resolve_missing
    resolve_atproto_key s did now =
        if not (is_valid_service_did did)
        then (err invalid_did_syntax, s)
        else resolve_missing s did now (get_atproto_key hash s did now)

    unfoldable pub parse_parts : List Str → Result ServiceAuthError ServiceJwtClaims
    parse_parts (header ∷ payload_b64 ∷ sig_b64 ∷ []) =
        fail_if (is_empty sig_b64) malformed
        >> (ok_or (decode payload_b64) malformed >>= λ decoded.
            ok_or (claims_from_slice decoded) malformed)
    parse_parts parts = err malformed

    unfoldable pub parse_service_jwt_claims_unverified :
        (token : Str) → Result ServiceAuthError ServiceJwtClaims
    unfolding parse_parts
    parse_service_jwt_claims_unverified jwt = parse_parts (split b'.' (trim jwt))

    -- From the resolved key to the claims; a bad signature drops the cached key.
    unfoldable pub settle :
        Cache
        → (issuer : Str) → ServiceJwtClaims
        → (expected_audiences : List Str) (now leeway : ℕ) → Option Bool
        → Result ServiceAuthError ServiceJwtClaims × Cache
    settle s issuer claims expected_audiences now leeway none = (err malformed, s)
    settle s issuer claims expected_audiences now leeway (some false) =
        (err (token invalid_signature), invalidate hash s issuer)
    settle s issuer claims expected_audiences now leeway (some true) =
        (check_claims claims expected_audiences now leeway >> ok claims, s)

    unfoldable pub verify_signed :
        (issuer alg message signature_b64 : Str)
        → ServiceJwtClaims
        → (expected_audiences : List Str) (now leeway : ℕ) → Result ServiceAuthError Key × Cache
        → Result ServiceAuthError ServiceJwtClaims × Cache
    unfolding settle
    verify_signed issuer alg message signature_b64 claims expected_audiences now leeway (err e, s) =
        (err e, s)
    verify_signed issuer alg message signature_b64 claims expected_audiences now leeway
          (ok key, s) =
        if not (is_alg_bound_to_curve (curve_id key) (alg_id_from_str alg))
        then (err malformed, s)
        else elim (decode signature_b64) [
          | none ↦ (err malformed, s)
          | some signature ↦
              settle s issuer claims expected_audiences now leeway
                (verify_with key (as_bytes message) signature)
        ]

    -- The algorithm, the claims and their issuer, from the parts of a token.
    unfoldable pub read_parts :
        (jwt header_b64 : Str) → Result ServiceAuthError (Str × (ServiceJwtClaims × Str))
    unfolding parse_service_jwt_claims_unverified
    read_parts jwt header_b64 = ok_or (decode header_b64) malformed >>= λ header_bytes.
        ok_or (header_alg header_bytes) malformed >>= λ alg.
        fail_if (alg_id_from_str alg == alg_none) malformed
        >> (parse_service_jwt_claims_unverified jwt >>= λ claims.
            ok_or (issuer_of claims) (token missing_issuer) >>= λ issuer.
            ok (alg, (claims, issuer)))

    unfoldable pub verify_parts :
        Cache
        → (jwt : Str) (expected_audiences : List Str) (now leeway : ℕ) → List Str
        → Result ServiceAuthError ServiceJwtClaims × Cache
    unfolding read_parts resolve_atproto_key verify_signed
    verify_parts s jwt expected_audiences now leeway (header ∷ payload ∷ signature ∷ []) =
        elim (read_parts jwt header) [
          | err e ↦ (err e, s)
          | ok read ↦
              verify_signed read.1.1 read.0 (header ++ b'.' ∷ payload) signature read.1.0
                expected_audiences now leeway (resolve_atproto_key s read.1.1 now)
        ]
    verify_parts s jwt expected_audiences now leeway parts = (err malformed, s)

    unfoldable pub verify_service_jwt_claims :
        Cache
        → (auth_header_or_token : Str) (expected_audiences : List Str) (now_secs leeway_secs : ℕ)
        → Result ServiceAuthError ServiceJwtClaims × Cache
    unfolding verify_parts extract_bearer_token
    verify_service_jwt_claims s auth_header_or_token expected_audiences now_secs leeway_secs =
        elim (extract_bearer_token auth_header_or_token) [
          | err e ↦ (err e, s)
          | ok jwt ↦ verify_parts s jwt expected_audiences now_secs leeway_secs (split b'.' jwt)
        ]

    -- The default leeway of 60 seconds.
    unfoldable pub verify_service_jwt :
        Cache
        → (auth_header : Str) (expected_audience : Option Str) (now_secs : ℕ)
        → Result ServiceAuthError Str × Cache
    unfolding audiences_of
    verify_service_jwt s auth_header expected_audience now_secs =
        let done =
          verify_service_jwt_claims s auth_header (audiences_of expected_audience) now_secs 60 in
        (done.0 >>= λ claims. ok_or claims.iss (token missing_did), done.1)
