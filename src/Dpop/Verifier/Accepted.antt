-- ===== src/Dpop/Verifier/Accepted.antt =====
-- What the claims and the signature of an accepted proof satisfy.
use skyauth.Base.{
  ℕ, ◌≤◌, ◌≡◌, ◌⊎◌, refl, true, false, not, Option, none, some, List, [], ◌∷◌, ◌++◌, length, Result,
  ok, err, ◌>>=◌, ◌>>◌, Option-cases, fail_if, arith, list_eq, list_eq_sound, Result-cases, inl,
  inr, map_err, ok_or, sym, subst,
}
use skyauth.Base.Text.{Str, is_empty, trim, split, eq_ignore_ascii_case}
use skyauth.Base.Utf8.{as_bytes, len}
use skyauth.Crypto.{Crypto}
use skyauth.Kernels.CtEq.{Subtle, constant_time_eq_iff}
use skyauth.Url.{UrlParser}
use skyauth.Dpop.Errors.{
  DpopError, missing_nonce, missing_ath, nonce_mismatch, ath_mismatch, uri_mismatch,
  signature_verification_failed, crypto, malformed_jwt,
}
use skyauth.Dpop.Htu.{normalize_htu}
use skyauth.Dpop.Proof.{
  JwkEc, DpopProofClaims, Jose, decode_proof, decode_split, decode_parts, check_header,
  base64url_decode, to_verifying_key, verify_p256_raw,
}
use skyauth.Dpop.Verifier.{
  DpopVerifier, Expected, check_request, check_claim, verify_proof_no_replay,
}
use skyauth.Dpop.Verifier.Laws.{verify_proof_no_replay-ok}
use skyauth.Dpop.Verifier.Headers.{IsProofHeader, header-ok}

-- An expected claim is there, and its bytes are those expected.
abbrev pub Carries : (expected actual : Option Str) → Type 0
Carries none actual = Unit {0}
Carries (some e) actual = (a : Str) × (actual ≡ some a) × (as_bytes e ≡ as_bytes a)

check_claim-ok :
    (ct : Subtle) (missing : DpopError) (mismatch : Str → Str → DpopError)
    (expected actual : Option Str)
    → check_claim ct missing mismatch expected actual ≡ ok tt
    → Carries expected actual
unfolding check_claim
check_claim-ok ct missing mismatch none actual h = tt
check_claim-ok ct missing mismatch (some e) none h = cc
check_claim-ok ct missing mismatch (some e) (some a) h =
    (a, refl, ground (arith, constant_time_eq_iff ct (as_bytes e) (as_bytes a)))

-- The two target URIs of a request normalize to one.
htu-ok :
    (m n : Result DpopError Str) (actual : Str)
    → (m >>= λ norm_expected_htu. n >>= λ norm_claims_htu.
        fail_if
          (not (list_eq norm_claims_htu norm_expected_htu))
          (uri_mismatch norm_expected_htu actual))
      ≡ ok tt
    → (u : Str) × (m ≡ ok u) × (n ≡ ok u)
htu-ok (err e) n actual h = cc
htu-ok (ok u) (err e) actual h = cc
htu-ok (ok u) (ok w) actual h = (u, refl, ground (arith, list_eq_sound w u))

module _ (j : Jose) (c : Crypto) (ct : Subtle) (url : UrlParser) where
  check_request-ok :
      (claims : DpopProofClaims) (expected : Expected)
      → check_request j c ct url claims expected ≡ ok tt
      → (is_empty (trim claims.jti) ≡ false)
        × (len claims.jti ≤ 256)
        × (eq_ignore_ascii_case claims.htm expected.htm ≡ true)
        × ((u : Str) × (normalize_htu url expected.htu ≡ ok u)
            × (normalize_htu url claims.htu ≡ ok u))
        × Carries expected.nonce claims.nonce
        × Carries expected.ath claims.ath
  unfolding check_request
  check_request-ok claims expected h = (
    ground arith,
    ground arith,
    ground arith,
    htu-ok (normalize_htu url expected.htu) (normalize_htu url claims.htu) claims.htu
        (ground arith),
    check_claim-ok ct missing_nonce nonce_mismatch expected.nonce claims.nonce (ground arith),
    check_claim-ok ct missing_ath ath_mismatch expected.ath claims.ath (ground arith),
  )

  -- The claims of an accepted proof belong to the request: their identifier is not blank and has
  -- at most 256 bytes, their method is that of the request up to ASCII case, both targets
  -- normalize to one, and they carry the nonce and the access token hash that the server expects,
  -- if it expects them.
  pub verify_proof_no_replay-bound :
      (v : DpopVerifier) (proof : Str) (expected : Expected) (over : Option (Option ℕ))
      (system : Option ℕ) (decoded : DpopProofClaims × JwkEc)
      → verify_proof_no_replay j c ct url v proof expected over system ≡ ok decoded
      → (is_empty (trim decoded.0.jti) ≡ false)
        × (len decoded.0.jti ≤ 256)
        × (eq_ignore_ascii_case decoded.0.htm expected.htm ≡ true)
        × ((u : Str) × (normalize_htu url expected.htu ≡ ok u)
            × (normalize_htu url decoded.0.htu ≡ ok u))
        × Carries expected.nonce decoded.0.nonce
        × Carries expected.ath decoded.0.ath
  verify_proof_no_replay-bound v proof expected over system decoded h =
      let (d, e, now, at, times) =
        verify_proof_no_replay-ok j c ct url v proof expected over system decoded h in
      check_request-ok decoded.0 expected e

-- The compact parts of a proof and the signature over the first two, under the key of the header.
abbrev pub IsSigned : (j : Jose) (proof : Str) → DpopProofClaims × JwkEc → Type 0
IsSigned j proof decoded =
    (header : Str) × (payload : Str) × (signature : Str) × (split b'.' (trim proof)
      ≡ header ∷ payload ∷ signature ∷ [])
    × (header_bytes : List ℕ) × (base64url_decode j header ≡ ok header_bytes)
    × (value : j.Value) × (j.from_slice header_bytes ≡ some value)
    × IsProofHeader j value decoded.1
    × (key : j.VerifyingKey) × (to_verifying_key j decoded.1 ≡ ok key)
    × (bytes : List ℕ) × (base64url_decode j signature ≡ ok bytes)
    × (length bytes ≡ 64)
    × (sig : j.Signature) × (j.signature_from_slice bytes ≡ some sig)
    × (j.verify key (as_bytes (header ++ b'.' ∷ payload)) sig ≡ true)
    × (claims : List ℕ) × (base64url_decode j payload ≡ ok claims)
    × (j.claims_from_slice claims ≡ some decoded.0)

module _ (j : Jose) where
  parts_of :
      (parts : List Str)
      → ((header : Str) × (payload : Str) × (signature : Str) × (parts
            ≡ header ∷ payload ∷ signature ∷ []))
        ⊎ (decode_split j parts ≡ err malformed_jwt)
  unfolding decode_split
  parts_of [] = inr refl
  parts_of (a ∷ []) = inr refl
  parts_of (a ∷ b ∷ []) = inr refl
  parts_of (a ∷ b ∷ c ∷ []) = inl (a, b, c, refl)
  parts_of (a ∷ b ∷ c ∷ d ∷ r) = inr refl

  signature-ok :
      (key : j.VerifyingKey) (message bytes : List ℕ)
      → verify_p256_raw j key message bytes ≡ ok tt
      → (length bytes ≡ 64)
        × (sig : j.Signature) × (j.signature_from_slice bytes ≡ some sig)
        × (j.verify key message sig ≡ true)
  unfolding verify_p256_raw
  signature-ok key message bytes h = elim (Option-cases (j.signature_from_slice bytes)) [
    | (inl p) ↦ ground arith
    | (inr (sig, p)) ↦ (ground arith, sig, p, ground arith)
  ]

  -- The last steps of the decoding: the key, the signature and the claims.
  sealed-ok :
      (jwk : JwkEc) (message bytes payload_bytes : List ℕ) (decoded : DpopProofClaims × JwkEc)
      → (map_err crypto (to_verifying_key j jwk) >>= λ key.
          map_err (λ _. signature_verification_failed) (verify_p256_raw j key message bytes)
          >> (ok_or (j.claims_from_slice payload_bytes) malformed_jwt >>= λ claims.
              ok (claims, jwk)))
        ≡ ok decoded
      → (decoded.1 ≡ jwk)
        × (j.claims_from_slice payload_bytes ≡ some decoded.0)
        × (key : j.VerifyingKey) × (to_verifying_key j jwk ≡ ok key)
        × (verify_p256_raw j key message bytes ≡ ok tt)
  sealed-ok jwk message bytes payload_bytes decoded h =
      elim (Result-cases (to_verifying_key j jwk)) [
        | (inr (e, p)) ↦ ground arith
        | (inl (key, p)) ↦ elim (Result-cases (verify_p256_raw j key message bytes)) [
          | (inr (e, q)) ↦ ground arith
          | (inl (done, q)) ↦ elim (Option-cases (j.claims_from_slice payload_bytes)) [
            | (inl r) ↦ ground arith
            | (inr (claims, r)) ↦ (ground arith, ground arith, key, p, q)
          ]
        ]
      ]

  parts-ok :
      (proof header payload signature : Str) (decoded : DpopProofClaims × JwkEc)
      → split b'.' (trim proof) ≡ header ∷ payload ∷ signature ∷ []
      → decode_parts j header payload signature ≡ ok decoded
      → IsSigned j proof decoded
  unfolding decode_parts
  parts-ok proof header payload signature decoded s h =
      elim (Result-cases (base64url_decode j header)) [
        | (inr (e, p)) ↦ ground arith
        | (inl (hb, p)) ↦ elim (Result-cases (base64url_decode j payload)) [
          | (inr (e, q)) ↦ ground arith
          | (inl (pb, q)) ↦ elim (Result-cases (base64url_decode j signature)) [
            | (inr (e, r)) ↦ ground arith
            | (inl (sb, r)) ↦ elim (Option-cases (j.from_slice hb)) [
              | (inl t) ↦ ground arith
              | (inr (value, t)) ↦ elim (Result-cases (check_header j value)) [
                | (inr (e, u)) ↦ ground arith
                | (inl (jwk, u)) ↦
                    let (same, claims, key, to_key, verified) =
                      sealed-ok jwk (as_bytes (header ++ b'.' ∷ payload)) sb pb decoded
                        (ground arith) in
                    let (size, sig, parsed, valid) =
                      signature-ok key (as_bytes (header ++ b'.' ∷ payload)) sb verified in
                    (
                      header,
                      payload,
                      signature,
                      s,
                      hb,
                      p,
                      value,
                      t,
                      subst (IsProofHeader j value) (sym same) (header-ok j value jwk u),
                      key,
                      rw same to_key,
                      sb,
                      r,
                      size,
                      sig,
                      parsed,
                      valid,
                      pb,
                      q,
                      claims,
                    )
              ]
            ]
          ]
        ]
      ]

  -- A proof that decodes has exactly three parts. The first is a header of type `dpop+jwt` and
  -- algorithm ES256 with a P-256 key that has no private part, and that key is returned; the first
  -- two parts, as sent, carry a valid signature of 64 bytes under it; and the claims are those of
  -- the second part.
  pub decode_proof-IsSigned :
      (proof : Str) (decoded : DpopProofClaims × JwkEc)
      → decode_proof j proof ≡ ok decoded
      → IsSigned j proof decoded
  unfolding decode_proof decode_split
  decode_proof-IsSigned proof decoded h = elim (parts_of (split b'.' (trim proof))) [
    | (inl (header, payload, signature, p)) ↦
        parts-ok proof header payload signature decoded p (ground arith)
    | (inr p) ↦ ground arith
  ]
