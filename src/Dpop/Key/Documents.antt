-- ===== src/Dpop/Key/Documents.antt =====
-- The header and the payload of a proof, read back from what was written.
use skyauth.Base.{ℕ, ◌≡◌, refl, false, Option, none, some, List, ◌∙◌, ap, list_eq, ok}
use skyauth.Base.Text.{Str, codes, eq_ignore_ascii_case}
use skyauth.Dpop.Proof.{JwkEc, DpopProofClaims, Jose, check_header}
use skyauth.Dpop.Key.{Fields, end, optional_field, jwk_json, proof_header, proof_payload}
use skyauth.Dpop.Key.Reading.{
  is_named, non_blank, Represents, IsReadBack, IsDerived, text-header_str, number-number_at,
  HasFields-optional_field, is_named-optional_field, optional_field-blank,
}

-- The claims of a payload.
abbrev pub claims_of : (jti htm htu : Str) (iat : ℕ) (nonce ath : Option Str) → DpopProofClaims
claims_of jti htm htu iat nonce ath = record {
  jti = jti;
  htm = htm;
  htu = htu;
  iat = iat;
  exp = none;
  nonce = non_blank nonce;
  ath = non_blank ath;
}

module _ (j : Jose) (as_u64 : j.Value → Option ℕ) where
  jwk_from_value-jwk_json :
      (bytes : List ℕ) (jwk : JwkEc) (v : j.Value)
      → IsDerived j as_u64 bytes
      → Represents j as_u64 (jwk_json jwk) v
      → j.jwk_from_value v ≡ some jwk
  unfolding jwk_json
  jwk_from_value-jwk_json bytes jwk v derived ((kty, (crv, (x, (y, done)))), absent) =
      derived.jwk_of v jwk (text-header_str j as_u64 v (codes "kty") jwk.kty kty)
        (text-header_str j as_u64 v (codes "crv") jwk.crv crv)
        (text-header_str j as_u64 v (codes "x") jwk.x x)
        (text-header_str j as_u64 v (codes "y") jwk.y y)

  -- The header that is written for a P-256 key passes the checks.
  pub check_header-proof_header :
      (bytes : List ℕ) (jwk : JwkEc) (v : j.Value)
      → IsDerived j as_u64 bytes
      → jwk.kty ≡ codes "EC"
      → jwk.crv ≡ codes "P-256"
      → Represents j as_u64 (proof_header jwk) v
      → check_header j v ≡ ok jwk
  unfolding proof_header check_header jwk_json eq_ignore_ascii_case
  check_header-proof_header bytes jwk v derived kty crv
        ((typ, (alg, ((w, found, key), done))), absent) =
      let t = text-header_str j as_u64 v (codes "typ") (codes "dpop+jwt") typ in
      let a = text-header_str j as_u64 v (codes "alg") (codes "ES256") alg in
      let public = key.1 (codes "d") refl in
      let read = jwk_from_value-jwk_json bytes jwk w derived key in
      rw (t, a, found) (rw (public, read) (rw (kty, crv) refl))

  -- The payload that is written for claims is read as those claims.
  pub claims_from_slice-proof_payload :
      (bytes : List ℕ) (jti htm htu : Str) (iat : ℕ) (nonce ath : Option Str)
      → IsDerived j as_u64 bytes
      → IsReadBack j as_u64 bytes (proof_payload jti htm htu iat nonce ath)
      → j.claims_from_slice bytes ≡ some (claims_of jti htm htu iat nonce ath)
  unfolding proof_payload
  claims_from_slice-proof_payload bytes jti htm htu iat nonce ath derived
        (v, read, ((j_, (m, (u, (i, rest)))), absent)) =
      let hashed : Fields = optional_field (codes "ath") ath end in
      let after_nonce : (name : Str)
          → list_eq (codes "nonce") name ≡ false
          → is_named name (optional_field (codes "nonce") nonce hashed) ≡ is_named name hashed =
        λ name differ. is_named-optional_field name (codes "nonce") nonce hashed differ in
      let no_nonce : non_blank nonce ≡ none → j.get v (codes "nonce") ≡ none = λ blank.
        absent (codes "nonce") (
          ap (is_named (codes "nonce")) (optional_field-blank (codes "nonce") nonce hashed blank)
          ∙ is_named-optional_field (codes "nonce") (codes "ath") ath end refl) in
      let no_ath : non_blank ath ≡ none → j.get v (codes "ath") ≡ none = λ blank.
        absent (codes "ath") (
          after_nonce (codes "ath") refl
          ∙ ap (is_named (codes "ath")) (optional_field-blank (codes "ath") ath end blank)) in
      let no_exp : j.get v (codes "exp") ≡ none = absent (codes "exp") (
        after_nonce (codes "exp") refl
        ∙ is_named-optional_field (codes "exp") (codes "ath") ath end refl) in
      let (n, others) =
        HasFields-optional_field j as_u64 v (codes "nonce") nonce hashed no_nonce rest in
      let (h, done) = HasFields-optional_field j as_u64 v (codes "ath") ath end no_ath others in
      derived.claims_of v (claims_of jti htm htu iat nonce ath) read
        (text-header_str j as_u64 v (codes "jti") jti j_)
        (text-header_str j as_u64 v (codes "htm") htm m)
        (text-header_str j as_u64 v (codes "htu") htu u)
        (number-number_at j as_u64 v (codes "iat") iat i) no_exp n h
