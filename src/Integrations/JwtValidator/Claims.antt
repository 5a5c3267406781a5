-- ===== src/Integrations/JwtValidator/Claims.antt =====
-- What the checks on the claims of an access token guarantee.
use skyauth.Base.{
  ℕ, ◌≤◌, ◌<◌, ◌≡◌, true, false, refl, Option, none, some, List, all, any, list_eq, list_eq_sound,
  ok, arith,
}
use skyauth.Base.Text.{Str, is_empty, trim, split_whitespace}
use skyauth.Base.Utf8.{as_bytes}
use skyauth.Kernels.CtEq.{Subtle, constant_time_eq_iff}
use skyauth.Dpop.NonceSource.{saturating_add}
use skyauth.Dpop.Proof.{Jose}
use skyauth.Integrations.JwtValidator.{
  JwtAccessTokenClaims, JwtAccessTokenValidator, check_nbf, check_issuer, check_subject,
  check_scopes, scope_text, check_audience, matches_audience, check_claims,
}

module _ (j : Jose) (ct : Subtle) (as_array : j.Value → Option (List j.Value))
    (access_claims : List ℕ → Option (JwtAccessTokenClaims j.Value)) where
  abbrev Claims : Type 0
  Claims = JwtAccessTokenClaims j.Value

  abbrev Validator : Type 0
  Validator = JwtAccessTokenValidator j.VerifyingKey

  -- What the claims of an accepted token say, at a time and for a key.
  pub record IsValid (v : Validator) (claims : Claims) (jkt : Str) (now : ℕ) : Type 0 where
    pub unexpired : saturating_add now v.clock_skew_leeway < claims.exp
    pub begun : (nbf : ℕ) → claims.nbf ≡ some nbf → nbf ≤ saturating_add now v.clock_skew_leeway
    pub issued : v.expected_issuer ≡ some claims.iss
    pub audience :
        (aud : Str) × (v.expected_audience ≡ some aud)
        × (value : j.Value) × (claims.aud ≡ some value)
        × (matches_audience j ct as_array access_claims aud value ≡ true)
    pub named : is_empty (trim claims.sub) ≡ false
    pub subject : (sub : Str) → v.expected_subject ≡ some sub → claims.sub ≡ sub
    pub granted :
        all
          (λ r. any (λ g. list_eq g r) (split_whitespace (scope_text claims.scope)))
          v.required_scopes
        ≡ true
    pub bound : as_bytes claims.jkt ≡ as_bytes jkt

  check_issuer-ok :
      (expected : Option Str) (iss : Str) → check_issuer expected iss ≡ ok tt → expected ≡ some iss
  unfolding check_issuer
  check_issuer-ok none iss h = ground arith
  check_issuer-ok (some e) iss h = ground (arith, list_eq_sound iss e)

  check_audience-ok :
      (expected : Option Str) (aud : Option j.Value)
      → check_audience j ct as_array access_claims expected aud ≡ ok tt
      → (e : Str) × (expected ≡ some e)
        × (value : j.Value) × (aud ≡ some value)
        × (matches_audience j ct as_array access_claims e value ≡ true)
  unfolding check_audience
  check_audience-ok (some e) (some value) h = (e, refl, value, refl, ground arith)
  check_audience-ok none (some value) h = cc
  check_audience-ok _ none h = cc

  check_subject-ok :
      (expected : Option Str) (sub e : Str)
      → check_subject expected sub ≡ ok tt
      → expected ≡ some e
      → sub ≡ e
  unfolding check_subject
  check_subject-ok none sub e h q = cc
  check_subject-ok (some d) sub e h q = ground (arith, list_eq_sound sub d)

  check_nbf-ok :
      (now leeway : ℕ) (held : Option ℕ) (nbf : ℕ)
      → check_nbf now leeway held ≡ ok tt
      → held ≡ some nbf
      → nbf ≤ saturating_add now leeway
  unfolding check_nbf
  check_nbf-ok now leeway none nbf h q = cc
  check_nbf-ok now leeway (some n) nbf h q = ground arith

  pub check_claims-IsValid :
      (v : Validator) (claims : Claims) (jkt : Str) (now : ℕ)
      → check_claims j ct as_array access_claims v claims jkt now ≡ ok tt
      → IsValid v claims jkt now
  unfolding check_claims check_scopes
  check_claims-IsValid v claims jkt now h = record {
    unexpired = ground arith;
    begun = λ nbf. check_nbf-ok now v.clock_skew_leeway claims.nbf nbf (ground arith);
    issued = check_issuer-ok v.expected_issuer claims.iss (ground arith);
    audience = check_audience-ok v.expected_audience claims.aud (ground arith);
    named = ground arith;
    subject = λ sub. check_subject-ok v.expected_subject claims.sub sub (ground arith);
    granted = ground arith;
    bound = (constant_time_eq_iff ct (as_bytes claims.jkt) (as_bytes jkt)).0 (ground arith);
  }
