-- ===== src/ServiceAuth/Verifier/Claims.antt =====
-- What the checks on the claims of a service token guarantee.
use skyauth.Base.{
  ℕ, ◌≡◌, true, false, Option, none, some, List, any, list_eq, ok, arith, Option-cases, inl, inr,
}
use skyauth.Base.Text.{Str, is_empty}
use skyauth.Kernels.ServiceAuthBytes.{is_service_jwt_exp_valid}
use skyauth.ServiceAuth.{ServiceJwtClaims, is_valid_service_did, issuer_of, viewer_did, filter_did}
use skyauth.ServiceAuth.Verifier.{check_exp, check_aud, check_claims}

-- The audience is one of the expected ones, if some are expected and one is claimed.
abbrev pub IsMeant : List Str → Option Str → Type 0
IsMeant expected none = Unit
IsMeant expected (some aud) = (is_empty expected ≡ false) → any (λ e. list_eq e aud) expected ≡ true

-- The expiry, if one is claimed, has not passed by more than the leeway.
abbrev pub IsUnexpired : (now leeway : ℕ) → Option ℕ → Type 0
IsUnexpired now leeway none = Unit
IsUnexpired now leeway (some exp) = is_service_jwt_exp_valid exp now leeway ≡ true

check_exp-ok :
    (now leeway : ℕ) (exp : Option ℕ)
    → check_exp now leeway exp ≡ ok tt
    → IsUnexpired now leeway exp
unfolding check_exp
check_exp-ok now leeway none h = tt
check_exp-ok now leeway (some exp) h = ground arith

check_aud-ok :
    (expected : List Str) (aud : Option Str) → check_aud expected aud ≡ ok tt → IsMeant expected aud
unfolding check_aud
check_aud-ok expected none h = tt
check_aud-ok expected (some aud) h = λ some_expected. ground arith

filter_did-some :
    (did : Option Str) (v : Str)
    → filter_did did ≡ some v
    → (did ≡ some v) × (is_valid_service_did v ≡ true)
unfolding filter_did
filter_did-some none v h = cc
filter_did-some (some d) v h = ground arith

-- The issuer of accepted claims.
abbrev pub IsIssuedBy : ServiceJwtClaims → Str → Type 0
IsIssuedBy claims issuer = (claims.iss ≡ some issuer) × (is_valid_service_did issuer ≡ true)

pub check_claims-ok :
    (claims : ServiceJwtClaims) (expected : List Str) (now leeway : ℕ) (issuer : Str)
    → issuer_of claims ≡ some issuer
    → check_claims claims expected now leeway ≡ ok tt
    → IsUnexpired now leeway claims.exp × IsMeant expected claims.aud × IsIssuedBy claims issuer
unfolding check_claims viewer_did issuer_of
check_claims-ok claims expected now leeway issuer e h =
    let unexpired = check_exp-ok now leeway claims.exp (ground arith) in
    let meant = check_aud-ok expected claims.aud (ground arith) in
    elim (Option-cases claims.iss) [
      | (inl p) ↦ ground arith
      | (inr (iss, p)) ↦ elim (Option-cases (filter_did (issuer_of claims))) [
        | (inl q) ↦ ground arith
        | (inr (v, q)) ↦
            let (same, valid) = filter_did-some (issuer_of claims) v q in
            (unexpired, meant, (ground arith, ground arith))
      ]
    ]
