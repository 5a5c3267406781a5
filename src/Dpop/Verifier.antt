-- ===== src/Dpop/Verifier.antt =====
-- `DPoPVerifier` of src/dpop.rs: a proof against a request, the clock and the replay cache, over
-- `Dpop.Proof`, which reads a proof by itself. A clock reading is a number of seconds
-- since the epoch, or none before the epoch; a `Duration` is its whole seconds.
pub mod Laws
pub mod Accepted
pub mod Headers
pub mod Replays
use skyauth.Base.{
  ℕ, ◌+◌, ◌-◌, ◌∷◌, ◌++◌, Bool, true, false, not, Option, none, some, List, [], length, list_eq,
  ltb, ◌==◌, if◌then◌else◌, Result, ok, err, ◌>>=◌, ◌>>◌, fail_if, ok_or, map_err, is_some,
}
use skyauth.Base.Text.{Str, codes, is_empty, trim, split, eq_ignore_ascii_case}
use skyauth.Base.Utf8.{as_bytes, len}
use skyauth.Crypto.{
  Crypto, CryptoError, base64_decode, invalid_point, ecdsa_verify, sha256_digest, base64url_encode,
}
use skyauth.Kernels.CtEq.{Subtle, constant_time_eq}
use skyauth.Url.{UrlParser}
use skyauth.Dpop.Errors.{
  DpopError, malformed_jwt, invalid_header_typ, unsupported_algorithm, missing_jwk,
  private_key_in_jwk, invalid_jwk, signature_verification_failed, missing_nonce, missing_ath,
  clock_skew, crypto, missing_claim, jti_too_long, method_mismatch, uri_mismatch, nonce_mismatch,
  ath_mismatch, future_proof, proof_too_old, expired_proof,
}
use skyauth.Dpop.Htu.{normalize_htu}
use skyauth.Dpop.Proof.{JwkEc, DpopProofClaims, Jose, base64url_decode, decode_proof}
use skyauth.Dpop.NonceSource.{saturating_add}
use skyauth.Dpop.ReplayCache.{DpopReplayCache, check_and_record}
use skyauth.Dpop.ReplayCache

abbrev pub max_jti_length : ℕ
max_jti_length = 256

pub record DpopVerifier : Type 0 where
  pub max_clock_skew : ℕ
  pub max_proof_age : ℕ
  pub replay_cache : Option DpopReplayCache

unfoldable pub new : DpopVerifier
new = record { max_clock_skew = 60; max_proof_age = 300; replay_cache = some ReplayCache.new }

unfoldable pub with_replay_prevention : DpopVerifier → (enabled : Bool) → DpopVerifier
with_replay_prevention v enabled =
    if enabled
    then if not (is_some v.replay_cache)
      then record v { replay_cache = some ReplayCache.new }
      else v
    else record v { replay_cache = none }

-- `duration_since(UNIX_EPOCH)`.
unfoldable pub secs_of : Option ℕ → Result DpopError ℕ
secs_of time = ok_or time clock_skew

-- `match now_override`.
unfoldable pub time_of : (now_override : Option (Option ℕ)) (system : Option ℕ) → Result DpopError ℕ
unfolding secs_of
time_of none system = secs_of system
time_of (some time) system = secs_of time

-- The test of an expected claim: the nonce and the access token hash have the same shape.
unfoldable pub check_claim :
    Subtle
    → (missing : DpopError) (mismatch : Str → Str → DpopError) (expected actual : Option Str)
    → Result DpopError (Unit {0})
check_claim ct missing mismatch none actual = ok tt
check_claim ct missing mismatch (some e) none = err missing
check_claim ct missing mismatch (some e) (some a) =
    fail_if (not (constant_time_eq ct (as_bytes e) (as_bytes a))) (mismatch e a)

unfoldable pub check_exp : (exp : Option ℕ) (now skew_secs : ℕ) → Result DpopError (Unit {0})
check_exp none now skew_secs = ok tt
check_exp (some exp) now skew_secs =
    fail_if (ltb (saturating_add exp skew_secs) now) (expired_proof exp now)

-- The temporal tests at the end of `verify_proof_no_replay`.
unfoldable pub check_times :
    DpopVerifier → DpopProofClaims → (now : ℕ) → Result DpopError (Unit {0})
unfolding check_exp
check_times v claims now =
    let skew_secs = v.max_clock_skew in
    let max_age_secs = v.max_proof_age in
    fail_if (ltb (saturating_add now skew_secs) claims.iat) (future_proof claims.iat now skew_secs)
    >> fail_if (ltb max_age_secs (now - claims.iat)) (proof_too_old claims.iat now max_age_secs)
    >> check_exp claims.exp now skew_secs

-- What a server expects of a request.
pub record Expected : Type 0 where
  pub htm : Str
  pub htu : Str
  pub nonce : Option Str
  pub ath : Option Str

-- `ReplayAdmission`.
pub record ReplayAdmission : Type 0 where
  pub jkt : Str
  pub jti : Str
  pub expires_at : ℕ
  pub now : ℕ

module _ (j : Jose) (c : Crypto) (ct : Subtle) (url : UrlParser) where
  -- The tests of the claims against the request.
  unfoldable pub check_request : DpopProofClaims → Expected → Result DpopError (Unit {0})
  check_request claims expected =
      fail_if (is_empty (trim claims.jti)) (missing_claim (codes "jti"))
      >> fail_if (ltb max_jti_length (len claims.jti))
          (jti_too_long max_jti_length (len claims.jti))
      >> fail_if (not (eq_ignore_ascii_case claims.htm expected.htm)) (method_mismatch claims.htm)
      >> (normalize_htu url expected.htu >>= λ norm_expected_htu.
          normalize_htu url claims.htu >>= λ norm_claims_htu.
          fail_if (not (list_eq norm_claims_htu norm_expected_htu))
            (uri_mismatch norm_expected_htu claims.htu))
      >> check_claim ct missing_nonce nonce_mismatch expected.nonce claims.nonce
      >> check_claim ct missing_ath ath_mismatch expected.ath claims.ath

  unfoldable pub verify_proof_no_replay :
      DpopVerifier
      → (proof_jwt : Str) → Expected
      → (now_override : Option (Option ℕ)) → (system : Option ℕ)
      → Result DpopError (DpopProofClaims × JwkEc)
  verify_proof_no_replay v proof_jwt expected now_override system =
      decode_proof j proof_jwt >>= λ decoded.
      check_request decoded.0 expected
      >> (time_of now_override system >>= λ now. check_times v decoded.0 now)
      >> ok decoded

  unfoldable pub jwk_thumbprint_ec_p256 : (x y : Str) → Str
  jwk_thumbprint_ec_p256 x y = base64url_encode c (
      sha256_digest c (
        as_bytes (
          codes "{\"crv\":\"P-256\",\"kty\":\"EC\",\"x\":\""
          ++ x
          ++ codes "\",\"y\":\""
          ++ y
          ++ codes "\"}")))

  unfoldable pub thumbprint : JwkEc → Str
  thumbprint jwk = jwk_thumbprint_ec_p256 jwk.x jwk.y

  unfoldable pub admission_of : DpopVerifier → DpopProofClaims × JwkEc → (now : ℕ) → ReplayAdmission
  admission_of v decoded now = record {
    jkt = thumbprint decoded.1;
    jti = decoded.0.jti;
    expires_at = saturating_add (saturating_add now v.max_proof_age) v.max_clock_skew;
    now = now;
  }

  -- The clock is read once for the tests, and again for the admission.
  unfoldable pub verify_proof_deferred :
      DpopVerifier
      → (proof_jwt : Str) → Expected
      → (now_override : Option (Option ℕ)) → (checked_at admitted_at : Option ℕ)
      → Result DpopError (DpopProofClaims × JwkEc × ReplayAdmission)
  verify_proof_deferred v proof_jwt expected now_override checked_at admitted_at =
      verify_proof_no_replay v proof_jwt expected now_override checked_at >>= λ decoded.
      secs_of admitted_at >>= λ now. ok (decoded.0, decoded.1, admission_of v decoded now)

module _ (hash : Str → ℕ) where
  -- `if let Some(ref cache) = self.replay_cache { cache.check_and_record(…)?; }`.
  unfoldable pub admit_proof :
      DpopVerifier
      → (jkt jti : Str) (expires_at now : ℕ) → Result DpopError (Unit {0}) × DpopVerifier
  admit_proof v jkt jti expires_at now = elim v.replay_cache [
    | none ↦ (ok tt, v)
    | (some cache) ↦ (
      (check_and_record hash cache jkt jti expires_at now).0,
      record v { replay_cache = some (check_and_record hash cache jkt jti expires_at now).1 },
    )
  ]

  unfoldable pub commit_replay_admission :
      DpopVerifier → ReplayAdmission → Result DpopError (Unit {0}) × DpopVerifier
  commit_replay_admission v a = admit_proof v a.jkt a.jti a.expires_at a.now

module _ (j : Jose) (c : Crypto) (ct : Subtle) (url : UrlParser) (hash : Str → ℕ) where
  -- `verify_proof` once the proof is verified, with the second reading of the clock.
  unfoldable pub admit_decoded :
      DpopVerifier
      → Result DpopError (DpopProofClaims × JwkEc)
      → Result DpopError ℕ
      → Result DpopError (DpopProofClaims × JwkEc) × DpopVerifier
  admit_decoded v (err e) clock = (err e, v)
  admit_decoded v (ok decoded) (err e) = (err e, v)
  admit_decoded v (ok decoded) (ok now) =
      let jkt = thumbprint j c ct url decoded.1 in
      let expires_at = saturating_add (saturating_add now v.max_proof_age) v.max_clock_skew in
      let admitted = admit_proof hash v jkt decoded.0.jti expires_at now in
      (admitted.0 >> ok decoded, admitted.1)

  unfoldable pub verify_proof :
      DpopVerifier
      → (proof_jwt : Str) → Expected
      → (now_override : Option (Option ℕ)) → (checked_at admitted_at : Option ℕ)
      → Result DpopError (DpopProofClaims × JwkEc) × DpopVerifier
  verify_proof v proof_jwt expected now_override checked_at admitted_at =
      admit_decoded v
        (verify_proof_no_replay j c ct url v proof_jwt expected now_override checked_at)
        (secs_of admitted_at)
