-- ===== src/Dpop/Errors.antt =====
-- `DPoPError` of src/error.rs. Messages are left out, and so is the expected method of a mismatch, which the source prints in capitals.
use skyauth.Base.{ℕ}
use skyauth.Base.Text.{Str}
use skyauth.Crypto.{CryptoError}

pub data DpopError : Type 0 where
  malformed_jwt invalid_header_typ unsupported_algorithm missing_jwk private_key_in_jwk : DpopError
  invalid_jwk signature_verification_failed invalid_uri missing_nonce missing_ath : DpopError
  clock_skew response_missing_dpop_nonce nonce_retry_limit_exceeded serialization : DpopError
  crypto : CryptoError → DpopError
  missing_claim : Str → DpopError
  jti_too_long : (max actual : ℕ) → DpopError
  method_mismatch : (actual : Str) → DpopError
  uri_mismatch nonce_mismatch ath_mismatch : (expected actual : Str) → DpopError
  future_proof : (iat now leeway : ℕ) → DpopError
  proof_too_old : (iat now max_age_secs : ℕ) → DpopError
  expired_proof : (exp now : ℕ) → DpopError
  replay_detected : (jti : Str) → DpopError
  replay_cache_saturated : DpopError
  nonce_cache_saturated : DpopError
