-- ===== src/Integrations/Tower/Prepare.antt =====
-- `OAuthAuthService::call` of src/integrations/tower.rs, up to the future that it returns: the
-- credential, the proof, and the nonce. This part leaves the replay cache alone.
use skyauth.Base.{ℕ, Bool, false, not, Option, none, some, if◌then◌else◌, Result, ok, err}
use skyauth.Base.Text.{Str, codes, is_empty, trim}
use skyauth.Crypto.{Crypto}
use skyauth.Kernels.CtEq.{Subtle}
use skyauth.Url.{UrlParser}
use skyauth.Dpop.Errors.{DpopError, replay_detected, replay_cache_saturated, nonce_cache_saturated}
use skyauth.Dpop.Proof.{Jose, JwkEc, DpopProofClaims}
use skyauth.Dpop.Verifier.{
  DpopVerifier, Expected, ReplayAdmission, verify_proof_deferred, thumbprint,
}
use skyauth.Dpop.Htu.{compute_access_token_hash}
use skyauth.Integrations.Tower.{
  Scheme, Uri, Request, Response, Pending, Prepared, answered, pending, NonceSource, request_htu,
  credential_of, unauthorized_response, service_unavailable_response,
}

-- The service's own fields; the nonce source is its state where there is one.
pub record OauthAuthService (Nonces : Type 0) : Type 0 where
  pub verifier : DpopVerifier
  pub nonce_source : Option Nonces
  pub require_ath : Bool
  pub htu_override : Option (Uri → Str)

-- The clock readings of one verification.
pub record Clock : Type 0 where
  pub checked_at : Option ℕ
  pub admitted_at : Option ℕ

unfoldable pub replay_description : Str
replay_description = codes "DPoP proof replay detected"

unfoldable pub nonce_description : Str
nonce_description = codes "Resource server requires fresh DPoP nonce"

module _ {Body : Type 0} (default : Body) (is_header_value : Str → Bool) (ns : NonceSource) where
  abbrev unauthorized : (error_code : Str) (description nonce : Option Str) → Response Body
  unauthorized error_code description nonce =
      unauthorized_response default is_header_value error_code description nonce

  abbrev unavailable : Response Body
  unavailable = service_unavailable_response default is_header_value

  -- A 401 with a fresh nonce, a 503 when the source is full, and a 401 without a nonce otherwise.
  unfoldable pub challenge :
      (error_code : Str) (description : Option Str) → Result DpopError Str → Response Body
  challenge error_code description (ok nonce) = unauthorized error_code description (some nonce)
  challenge error_code description (err nonce_cache_saturated) = unavailable
  challenge error_code description (err _) = unauthorized error_code description none

  -- The same where the source is optional.
  unfoldable pub challenge_opt :
      (error_code : Str) → Option ns.State → Response Body × Option ns.State
  unfolding challenge
  challenge_opt error_code none = (unauthorized error_code none none, none)
  challenge_opt error_code (some s) =
      (challenge error_code none (ns.generate_nonce s).0, some (ns.generate_nonce s).1)

  -- `map(|n| nonce_source.verify_nonce(n)).unwrap_or(false)`.
  unfoldable pub verify_claimed : ns.State → Option Str → Bool × ns.State
  verify_claimed s none = (false, s)
  verify_claimed s (some n) = ns.verify_nonce s n

  unfoldable pub has_authorization : Option (Option Str) → Bool
  has_authorization (some (some v)) = not (is_empty (trim v))
  has_authorization _ = false

  -- The nonce test on a verified proof; `next` is what follows.
  unfoldable pub check_nonce :
      Option ns.State → (claimed : Option Str) → Pending → Prepared Body × Option ns.State
  unfolding verify_claimed challenge nonce_description
  check_nonce none claimed next = (pending next, none)
  check_nonce (some s) claimed next =
      let checked = verify_claimed s claimed in
      if not checked.0
      then (
        answered (
            challenge (codes "use_dpop_nonce") (some nonce_description)
              (ns.generate_nonce checked.1).0),
        some (ns.generate_nonce checked.1).1,
      )
      else (pending next, some checked.1)

  -- How the result of the proof's verification is answered.
  unfoldable pub after_proof :
      (thumbprint_of : JwkEc → Str)
      → Option ns.State
      → (access_token : Str) → Result DpopError (DpopProofClaims × JwkEc × ReplayAdmission)
      → Prepared Body × Option ns.State
  unfolding check_nonce challenge_opt replay_description
  after_proof thumbprint_of source access_token (ok verified) =
      check_nonce source verified.0.nonce (record {
        access_token = access_token;
        dpop_thumbprint = thumbprint_of verified.1;
        replay_admission = verified.2;
      })
  after_proof thumbprint_of source access_token (err (replay_detected jti)) =
      (answered (unauthorized (codes "invalid_dpop_proof") (some replay_description) none), source)
  after_proof thumbprint_of source access_token (err replay_cache_saturated) =
      (answered unavailable, source)
  after_proof thumbprint_of source access_token (err _) =
      let reply = challenge_opt (codes "invalid_dpop_proof") source in (answered reply.0, reply.1)

  module _ (j : Jose) (c : Crypto) (ct : Subtle) (url : UrlParser)
      (parse_scheme : Str → Option Scheme) where
    abbrev Service : Type 0
    Service = OauthAuthService ns.State

    unfoldable pub expected_of : Service → Request → (access_token htu : Str) → Expected
    expected_of s req access_token htu = record {
      htm = req.method;
      htu = htu;
      nonce = none;
      ath = if s.require_ath then some (compute_access_token_hash c access_token) else none;
    }

    -- With a credential and a proof.
    unfoldable pub verify_request :
        Service
        → Request
        → Clock
        → (access_token dpop_header : Str) → Option Str
        → Prepared Body × Option ns.State
    unfolding after_proof expected_of
    verify_request s req clock access_token dpop_header none =
        (answered (unauthorized (codes "invalid_dpop_proof") none none), s.nonce_source)
    verify_request s req clock access_token dpop_header (some htu) =
        after_proof (thumbprint j c ct url) s.nonce_source access_token (
          verify_proof_deferred j c ct url s.verifier dpop_header
            (expected_of s req access_token htu) none clock.checked_at clock.admitted_at)

    -- With a credential: the `DPoP` header.
    unfoldable pub read_proof :
        Service
        → Request
        → Clock
        → (access_token : Str) → Option (Option Str)
        → Prepared Body × Option ns.State
    unfolding verify_request challenge_opt has_authorization
    read_proof s req clock access_token none =
        if not (has_authorization req.authorization)
        then (answered (unauthorized (codes "missing_dpop_proof") none none), s.nonce_source)
        else let reply = challenge_opt (codes "missing_dpop_proof") s.nonce_source in
          (answered reply.0, reply.1)
    read_proof s req clock access_token (some none) =
        (answered (unauthorized (codes "invalid_dpop_proof") none none), s.nonce_source)
    read_proof s req clock access_token (some (some dpop_header)) =
        verify_request s req clock access_token dpop_header
          (request_htu parse_scheme s.htu_override req.uri)

    unfoldable pub read_credential :
        Service → Request → Clock → Option Str → Prepared Body × Option ns.State
    unfolding read_proof
    read_credential s req clock none =
        (answered (unauthorized (codes "invalid_scheme") none none), s.nonce_source)
    read_credential s req clock (some access_token) = read_proof s req clock access_token req.dpop

    unfoldable pub read_authorization :
        Service → Request → Clock → Option (Option Str) → Prepared Body × Option ns.State
    unfolding read_credential
    read_authorization s req clock none =
        (answered (unauthorized (codes "missing_token") none none), s.nonce_source)
    read_authorization s req clock (some none) =
        (answered (unauthorized (codes "invalid_token") none none), s.nonce_source)
    read_authorization s req clock (some (some auth_header)) =
        read_credential s req clock (credential_of auth_header)

    -- The part of `call` before the future.
    unfoldable pub prepare : Service → Request → Clock → Prepared Body × Option ns.State
    unfolding read_authorization
    prepare s req clock = read_authorization s req clock req.authorization
