-- ===== src/ServiceAuth/Verifier/Signed.antt =====
-- What an accepted service token has passed.
use skyauth.Base.{
  ℕ, ◌≡◌, ◌∷◌, ◌++◌, refl, sym, subst, Bool, true, false, Option, none, some, List, [], Result, ok,
  err, arith, Bool-cases, Option-cases, Result-cases, inl, inr,
}
use skyauth.Base.Text.{Str, split}
use skyauth.Base.Utf8.{as_bytes}
use skyauth.Kernels.ServiceAuthBytes.{alg_id_from_str, is_alg_bound_to_curve}
use skyauth.Identity.{DidDocument}
use skyauth.ServiceAuth.{
  Curves, AtprotoVerifyingKey, curve_id, ServiceJwtClaims, ServiceAuthError, issuer_of,
}
use skyauth.ServiceAuth.KeyCache.{DidKeyCache}
use skyauth.ServiceAuth.Verifier.{
  extract_bearer_token, check_claims, decode, verify_with, resolve_atproto_key,
  parse_service_jwt_claims_unverified, settle, verify_signed, read_parts, verify_parts,
  verify_service_jwt_claims,
}
use skyauth.ServiceAuth.Verifier.Claims.{IsMeant, IsUnexpired, IsIssuedBy, check_claims-ok}

module _ (c : Curves) (decode_no_pad decode_padded : Str → Option (List ℕ))
    (resolve_did : Str → Option DidDocument) (hash : Str → ℕ) (header_alg : List ℕ → Option Str)
    (claims_from_slice : List ℕ → Option ServiceJwtClaims) where
  -- What acceptance establishes of a token, its claims, and the key of its issuer.
  pub record IsAuthentic (s : DidKeyCache c) (jwt : Str) (claims : ServiceJwtClaims)
      (expected : List Str) (now leeway : ℕ) : Type 0 where
    pub header : Str
    pub payload : Str
    pub signature : Str
    pub parts : split b'.' jwt ≡ header ∷ payload ∷ signature ∷ []
    pub parsed :
        parse_service_jwt_claims_unverified c decode_no_pad decode_padded resolve_did hash
          header_alg claims_from_slice jwt
        ≡ ok claims
    pub issuer : Str
    pub issued : IsIssuedBy claims issuer
    pub key : AtprotoVerifyingKey c
    pub resolved :
        (resolve_atproto_key c decode_no_pad decode_padded resolve_did hash header_alg
          claims_from_slice s issuer now).0
        ≡ ok key
    pub header_bytes : List ℕ
    pub header_decoded : decode c decode_no_pad decode_padded header ≡ some header_bytes
    pub alg : Str
    pub alg_read : header_alg header_bytes ≡ some alg
    pub bound : is_alg_bound_to_curve (curve_id key) (alg_id_from_str alg) ≡ true
    pub signature_bytes : List ℕ
    pub decoded : decode c decode_no_pad decode_padded signature ≡ some signature_bytes
    pub verified :
        verify_with c decode_no_pad decode_padded key
          (as_bytes (header ++ b'.' ∷ payload))
          signature_bytes
        ≡ some true
    pub unexpired : IsUnexpired now leeway claims.exp
    pub meant : IsMeant expected claims.aud

  settle-ok :
      (s : DidKeyCache c) (issuer : Str) (claims accepted : ServiceJwtClaims) (expected : List Str)
      (now leeway : ℕ) (verdict : Option Bool)
      → (settle c decode_no_pad decode_padded resolve_did hash header_alg claims_from_slice s issuer
          claims expected now leeway verdict).0
        ≡ ok accepted
      → (verdict ≡ some true)
        × (check_claims claims expected now leeway ≡ ok tt)
        × (claims ≡ accepted)
  unfolding settle
  settle-ok s issuer claims accepted expected now leeway none h = cc
  settle-ok s issuer claims accepted expected now leeway (some false) h = cc
  settle-ok s issuer claims accepted expected now leeway (some true) h =
      elim (Result-cases (check_claims claims expected now leeway)) [
        | (inr (e, p)) ↦ ground arith
        | (inl (done, p)) ↦ (refl, ground arith, ground arith)
      ]

  verify_signed-ok :
      (issuer alg message signature : Str) (claims accepted : ServiceJwtClaims)
      (expected : List Str) (now leeway : ℕ)
      (resolved : Result ServiceAuthError (AtprotoVerifyingKey c) × DidKeyCache c)
      → (verify_signed c decode_no_pad decode_padded resolve_did hash header_alg claims_from_slice
          issuer alg message signature claims expected now leeway resolved).0
        ≡ ok accepted
      → (key : AtprotoVerifyingKey c) × (resolved.0 ≡ ok key)
        × (is_alg_bound_to_curve (curve_id key) (alg_id_from_str alg) ≡ true)
        × (bytes : List ℕ) × (decode c decode_no_pad decode_padded signature ≡ some bytes)
        × (verify_with c decode_no_pad decode_padded key (as_bytes message) bytes ≡ some true)
        × (check_claims claims expected now leeway ≡ ok tt)
        × (claims ≡ accepted)
  unfolding verify_signed
  verify_signed-ok issuer alg message signature claims accepted expected now leeway (err e, s) h =
      cc
  verify_signed-ok issuer alg message signature claims accepted expected now leeway (ok key, s) h =
      elim (Bool-cases (is_alg_bound_to_curve (curve_id key) (alg_id_from_str alg))) [
        | (inr p) ↦ ground arith
        | (inl p) ↦ elim (Option-cases (decode c decode_no_pad decode_padded signature)) [
          | (inl q) ↦ ground arith
          | (inr (bytes, q)) ↦
              let (valid, checked, same) =
                settle-ok s issuer claims accepted expected now leeway
                  (verify_with c decode_no_pad decode_padded key (as_bytes message) bytes)
                  (ground arith) in
              (key, refl, p, bytes, q, valid, checked, same)
        ]
      ]

  read_parts-ok :
      (jwt header : Str) (read : Str × (ServiceJwtClaims × Str))
      → read_parts c decode_no_pad decode_padded resolve_did hash header_alg claims_from_slice jwt
          header
        ≡ ok read
      → (parse_service_jwt_claims_unverified c decode_no_pad decode_padded resolve_did hash
            header_alg claims_from_slice jwt
          ≡ ok read.1.0)
        × (issuer_of read.1.0 ≡ some read.1.1)
        × (bytes : List ℕ) × (decode c decode_no_pad decode_padded header ≡ some bytes)
        × (header_alg bytes ≡ some read.0)
  unfolding read_parts
  read_parts-ok jwt header read h =
      elim (Option-cases (decode c decode_no_pad decode_padded header)) [
        | (inl p) ↦ ground arith
        | (inr (bytes, p)) ↦ elim (Option-cases (header_alg bytes)) [
          | (inl q) ↦ ground arith
          | (inr (alg, q)) ↦
              elim (Result-cases (
                parse_service_jwt_claims_unverified c decode_no_pad decode_padded resolve_did hash
                  header_alg claims_from_slice jwt)) [
                    | (inr (e, r)) ↦ ground arith
                    | (inl (claims, r)) ↦ elim (Option-cases (issuer_of claims)) [
                      | (inl t) ↦ ground arith
                      | (inr (issuer, t)) ↦
                          let same : Path (Str × (ServiceJwtClaims × Str)) (alg, (claims, issuer))
                              read =
                            ground arith in
                          (rw (sym same) r, rw (sym same) t, bytes, p, rw (sym same) q)
                    ]
                  ]
        ]
      ]

  three-IsAuthentic :
      (s : DidKeyCache c) (jwt header payload signature : Str) (accepted : ServiceJwtClaims)
      (expected : List Str) (now leeway : ℕ)
      → split b'.' jwt ≡ header ∷ payload ∷ signature ∷ []
      → (verify_parts c decode_no_pad decode_padded resolve_did hash header_alg claims_from_slice s
          jwt expected now leeway
          (header ∷ payload ∷ signature ∷ [])).0
        ≡ ok accepted
      → IsAuthentic s jwt accepted expected now leeway
  unfolding verify_parts
  three-IsAuthentic s jwt header payload signature accepted expected now leeway parts h =
      elim (Result-cases (
        read_parts c decode_no_pad decode_padded resolve_did hash header_alg claims_from_slice jwt
          header)) [
            | (inr (e, p)) ↦ ground arith
            | (inl (read, p)) ↦
                let (parsed, issuer, header_bytes, header_decoded, alg_read) =
                  read_parts-ok jwt header read p in
                let (key, resolved, bound, bytes, decoded, verified, checked, same) =
                  verify_signed-ok read.1.1 read.0 (header ++ b'.' ∷ payload) signature read.1.0
                    accepted expected now leeway
                    (resolve_atproto_key c decode_no_pad decode_padded resolve_did hash header_alg
                      claims_from_slice s read.1.1 now)
                    (ground arith) in
                let (unexpired, meant, issued) =
                  check_claims-ok read.1.0 expected now leeway read.1.1 issuer checked in
                record {
                  header = header;
                  payload = payload;
                  signature = signature;
                  parts = parts;
                  parsed = rw (sym same) parsed;
                  issuer = read.1.1;
                  issued = subst (λ k. IsIssuedBy k read.1.1) same issued;
                  key = key;
                  resolved = resolved;
                  header_bytes = header_bytes;
                  header_decoded = header_decoded;
                  alg = read.0;
                  alg_read = alg_read;
                  bound = bound;
                  signature_bytes = bytes;
                  decoded = decoded;
                  verified = verified;
                  unexpired = subst (λ k. IsUnexpired now leeway k.exp) same unexpired;
                  meant = subst (λ k. IsMeant expected k.aud) same meant;
                }
          ]

  parts-IsAuthentic :
      (s : DidKeyCache c) (jwt : Str) (accepted : ServiceJwtClaims) (expected parts : List Str)
      (now leeway : ℕ)
      → split b'.' jwt ≡ parts
      → (verify_parts c decode_no_pad decode_padded resolve_did hash header_alg claims_from_slice s
          jwt expected now leeway parts).0
        ≡ ok accepted
      → IsAuthentic s jwt accepted expected now leeway
  unfolding verify_parts
  parts-IsAuthentic s jwt accepted expected (a ∷ b ∷ d ∷ []) now leeway p h =
      three-IsAuthentic s jwt a b d accepted expected now leeway p h
  parts-IsAuthentic s jwt accepted expected [] now leeway p h = cc
  parts-IsAuthentic s jwt accepted expected (a ∷ []) now leeway p h = cc
  parts-IsAuthentic s jwt accepted expected (a ∷ b ∷ []) now leeway p h = cc
  parts-IsAuthentic s jwt accepted expected (a ∷ b ∷ d ∷ e ∷ r) now leeway p h = cc

  -- An accepted service token has three parts; its claims are those of the token, their issuer is
  -- a well-formed DID, the key that was resolved for it is on the curve of the algorithm that the
  -- header names and verifies the signature of the first two parts, and an expiry or an audience,
  -- where there is one, is in time or among those expected, if any are.
  pub verify_service_jwt_claims-IsAuthentic :
      (s : DidKeyCache c) (auth_header : Str) (expected : List Str) (now leeway : ℕ)
      (claims : ServiceJwtClaims)
      → (verify_service_jwt_claims c decode_no_pad decode_padded resolve_did hash header_alg
          claims_from_slice s auth_header expected now leeway).0
        ≡ ok claims
      → (jwt : Str) × (extract_bearer_token auth_header ≡ ok jwt)
        × IsAuthentic s jwt claims expected now leeway
  unfolding verify_service_jwt_claims
  verify_service_jwt_claims-IsAuthentic s auth_header expected now leeway claims h =
      elim (Result-cases (extract_bearer_token auth_header)) [
        | (inr (e, p)) ↦ ground arith
        | (inl (jwt, p)) ↦ (
          jwt,
          p,
          parts-IsAuthentic s jwt claims expected (split b'.' jwt) now leeway refl (ground arith),
        )
      ]
