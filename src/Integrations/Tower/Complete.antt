-- ===== src/Integrations/Tower/Complete.antt =====
-- The future that `OAuthAuthService::call` of src/integrations/tower.rs returns: the access token,
-- the replay admission, the inner service, and a fresh nonce on its response. Other requests may run
-- before it, so the state that it meets is an argument.
use skyauth.Base.{ℕ, Bool, ◌&&◌, Option, none, some, ltb, leb, if◌then◌else◌, Result, ok, err}
use skyauth.Base.Text.{Str, codes}
use skyauth.Dpop.Errors.{DpopError, replay_cache_saturated}
use skyauth.Dpop.Verifier.{DpopVerifier, ReplayAdmission, commit_replay_admission}
use skyauth.Integrations.{AuthenticatedUser, IntegrationError}
use skyauth.Integrations.Tower.Prepare.{replay_description}
use skyauth.Integrations.Tower.{
  Response, Prepared, answered, pending, NonceSource, unauthorized_response,
  service_unavailable_response,
}

-- What happened: the response, the state after it, and the user that reached the inner service.
pub record Outcome (E Nonces Body : Type 0) : Type 0 where
  pub response : Result E (Response Body)
  pub verifier : DpopVerifier
  pub source : Option Nonces
  pub forwarded : Option AuthenticatedUser

module _ {Body : Type 0} (default : Body) (is_header_value : Str → Bool) (ns : NonceSource)
    (hash : Str → ℕ) {E : Type 0}
    (validate_access_token : (token jkt : Str) → Result IntegrationError AuthenticatedUser)
    (inner : AuthenticatedUser → Result E (Response Body)) where
  abbrev unauthorized : (error_code : Str) (description nonce : Option Str) → Response Body
  unauthorized error_code description nonce =
      unauthorized_response default is_header_value error_code description nonce

  abbrev unavailable : Response Body
  unavailable = service_unavailable_response default is_header_value

  unfoldable pub is_success : ℕ → Bool
  is_success status = leb 200 status && ltb status 300

  -- `headers_mut().insert` of the nonce, if it makes a header value.
  unfoldable pub with_nonce : Response Body → Str → Response Body
  with_nonce response nonce =
      if is_header_value nonce then record response { dpop_nonce = some nonce } else response

  unfoldable pub attach_nonce : Response Body → Result DpopError Str → Response Body
  unfolding with_nonce
  attach_nonce response (ok nonce) = with_nonce response nonce
  attach_nonce response (err _) = unavailable

  -- The end of the future: a fresh nonce on a successful response.
  unfoldable pub finish :
      Option ns.State → Result E (Response Body) → Result E (Response Body) × Option ns.State
  unfolding is_success attach_nonce
  finish source (err e) = (err e, source)
  finish none (ok response) = (ok response, none)
  finish (some s) (ok response) =
      if is_success response.status
      then (ok (attach_nonce response (ns.generate_nonce s).0), some (ns.generate_nonce s).1)
      else (ok response, some s)

  unfoldable pub refuse_commit : DpopError → Response Body
  unfolding replay_description
  refuse_commit replay_cache_saturated = unavailable
  refuse_commit _ = unauthorized (codes "invalid_dpop_proof") (some replay_description) none

  -- Once the admission is committed, or refused.
  unfoldable pub forward :
      Option ns.State
      → AuthenticatedUser
      → Result DpopError (Unit {0}) × DpopVerifier
      → Outcome E ns.State Body
  unfolding finish refuse_commit
  forward source user (err e, verifier) = record {
    response = ok (refuse_commit e);
    verifier = verifier;
    source = source;
    forwarded = none;
  }
  forward source user (ok _, verifier) = record {
    response = (finish source (inner user)).0;
    verifier = verifier;
    source = (finish source (inner user)).1;
    forwarded = some user;
  }

  unfoldable pub admit_user :
      DpopVerifier
      → Option ns.State
      → ReplayAdmission
      → Result IntegrationError AuthenticatedUser
      → Outcome E ns.State Body
  unfolding forward
  admit_user verifier source admission (err e) = record {
    response = ok (unauthorized (codes "invalid_token") none none);
    verifier = verifier;
    source = source;
    forwarded = none;
  }
  admit_user verifier source admission (ok user) =
      forward source user (commit_replay_admission hash verifier admission)

  -- The future that `call` returns, with the verifier and the nonce source as they are then.
  unfoldable pub complete : DpopVerifier → Option ns.State → Prepared Body → Outcome E ns.State Body
  unfolding admit_user
  complete verifier source (answered response) = record {
    response = ok response;
    verifier = verifier;
    source = source;
    forwarded = none;
  }
  complete verifier source (pending p) =
      admit_user verifier source p.replay_admission
        (validate_access_token p.access_token p.dpop_thumbprint)
