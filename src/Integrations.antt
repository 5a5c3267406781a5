-- ===== src/Integrations.antt =====
-- src/integrations: the checks that a resource server runs on a request. What every part shares:
-- the user of a request, and the errors, without their messages.
pub mod JwtValidator
pub mod TokenRegistry
pub mod Tower
use skyauth.Base.{ℕ, Option, Result}
use skyauth.Base.Text.{Str}
use skyauth.Dpop.Errors.{DpopError}
use skyauth.Store.{StoreError}

-- `AuthenticatedUser` of src/integrations/mod.rs.
pub record AuthenticatedUser : Type 0 where
  pub did : Str
  pub access_token : Str
  pub dpop_thumbprint : Str
  pub scope : Option Str

-- The part of `TokenError` of src/error.rs that concerns access tokens.
pub data TokenError : Type 0 where
  missing_audience missing_issuer missing_did malformed_token invalid_signature : TokenError
  expired : (exp now : ℕ) → TokenError
  not_yet_valid : (nbf now : ℕ) → TokenError
  issuer_mismatch cnf_thumbprint_mismatch sub_mismatch : (expected actual : Str) → TokenError
  audience_mismatch : (expected : Str) → TokenError
  missing_atproto_scope : (granted : Option Str) → TokenError

-- `IntegrationError` of src/error.rs.
pub data IntegrationError : Type 0 where
  missing_code missing_state oauth_error missing_auth_header : IntegrationError
  missing_dpop_proof_header session_not_found auth_failed internal : IntegrationError
  invalid_auth_scheme : Str → IntegrationError
  store : StoreError → IntegrationError
  dpop : DpopError → IntegrationError
  token : TokenError → IntegrationError

-- The trait `AccessTokenValidator`, over a state that the validator may keep.
abbrev pub AccessTokenValidator {ℓ} : Type ℓ → Type ℓ
AccessTokenValidator State =
    State → (token dpop_thumbprint : Str) → Result IntegrationError AuthenticatedUser
