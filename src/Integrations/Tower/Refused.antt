-- ===== src/Integrations/Tower/Refused.antt =====
-- The answers of the middleware itself: their status, and what a refused request leaves behind.
use skyauth.Base.{
  ℕ, ◌≡◌, ◌⊎◌, refl, Bool, not, Option, none, some, Result, ok, err, arith, Result-cases, inl, inr,
  if_both,
}
use skyauth.Base.Text.{Str}
use skyauth.Crypto.{Crypto}
use skyauth.Kernels.CtEq.{Subtle}
use skyauth.Url.{UrlParser}
use skyauth.Dpop.Errors.{DpopError, replay_detected, replay_cache_saturated, nonce_cache_saturated}
use skyauth.Dpop.Proof.{Jose, JwkEc, DpopProofClaims}
use skyauth.Dpop.Verifier.{DpopVerifier, ReplayAdmission, commit_replay_admission}
use skyauth.Integrations.{AuthenticatedUser, IntegrationError}
use skyauth.Integrations.Tower.{
  Scheme, Request, Response, Pending, Prepared, answered, pending, NonceSource,
  unauthorized_response, service_unavailable_response, credential_of,
}
use skyauth.Integrations.Tower.Prepare.{
  OauthAuthService, Clock, check_nonce, verify_claimed, after_proof, verify_request, read_proof,
  read_credential, read_authorization, prepare, challenge_opt, challenge, has_authorization,
}
use skyauth.Integrations.Tower.Complete.{Outcome, complete, admit_user, forward, refuse_commit}

-- A refusal is a 401, or a 503 for a condition of the server.
abbrev pub IsRefusal : {Body : Type 0} → Response Body → Type 0
IsRefusal r = (r.status ≡ 401) ⊎ (r.status ≡ 503)

-- A call that has been answered was refused.
abbrev pub Refuses : {Body : Type 0} → Prepared Body → Type 0
Refuses (answered r) = IsRefusal r
Refuses (pending p) = Unit

module _ {Body : Type 0} (default : Body) (is_header_value : Str → Bool) (ns : NonceSource) where
  refused-401 :
      (error_code : Str) (description fresh : Option Str)
      → IsRefusal (unauthorized_response default is_header_value error_code description fresh)
  unfolding unauthorized_response
  refused-401 error_code description fresh = inl refl

  refused-503 : IsRefusal (service_unavailable_response default is_header_value)
  unfolding service_unavailable_response
  refused-503 = inr refl

  challenge-IsRefusal :
      (error_code : Str) (description : Option Str) (generated : Result DpopError Str)
      → IsRefusal (challenge default is_header_value ns error_code description generated)
  unfolding challenge
  challenge-IsRefusal error_code description (ok nonce) =
      refused-401 error_code description (some nonce)
  challenge-IsRefusal error_code description (err nonce_cache_saturated) = refused-503
  challenge-IsRefusal error_code description (err _) = refused-401 error_code description none

  challenge_opt-IsRefusal :
      (error_code : Str) (source : Option ns.State)
      → IsRefusal (challenge_opt default is_header_value ns error_code source).0
  unfolding challenge_opt
  challenge_opt-IsRefusal error_code none = refused-401 error_code none none
  challenge_opt-IsRefusal error_code (some s) =
      challenge-IsRefusal error_code none (ns.generate_nonce s).0

  check_nonce-Refuses :
      (source : Option ns.State) (claimed : Option Str) (next : Pending)
      → Refuses (check_nonce default is_header_value ns source claimed next).0
  unfolding check_nonce
  check_nonce-Refuses none claimed next = tt
  check_nonce-Refuses (some s) claimed next =
      if_both (λ (x : Prepared Body × Option ns.State). Refuses x.0)
        (not (verify_claimed default is_header_value ns s claimed).0) (challenge-IsRefusal _ _ _) tt

  after_proof-Refuses :
      (thumbprint_of : JwkEc → Str) (source : Option ns.State) (access_token : Str)
      (verified : Result DpopError (DpopProofClaims × JwkEc × ReplayAdmission))
      → Refuses
          (after_proof default is_header_value ns thumbprint_of source access_token verified).0
  unfolding after_proof
  after_proof-Refuses thumbprint_of source access_token (ok verified) =
      check_nonce-Refuses source verified.0.nonce _
  after_proof-Refuses thumbprint_of source access_token (err (replay_detected jti)) =
      refused-401 _ _ _
  after_proof-Refuses thumbprint_of source access_token (err replay_cache_saturated) = refused-503
  after_proof-Refuses thumbprint_of source access_token (err _) = challenge_opt-IsRefusal _ source

  module _ (j : Jose) (c : Crypto) (ct : Subtle) (url : UrlParser)
      (parse_scheme : Str → Option Scheme) (s : OauthAuthService ns.State) (req : Request)
      (clock : Clock) where
    verify_request-Refuses :
        (access_token dpop_header : Str) (htu : Option Str)
        → Refuses
            (verify_request default is_header_value ns j c ct url parse_scheme s req clock
              access_token dpop_header htu).0
    unfolding verify_request
    verify_request-Refuses access_token dpop_header none = refused-401 _ _ _
    verify_request-Refuses access_token dpop_header (some htu) =
        after_proof-Refuses _ s.nonce_source access_token _

    read_proof-Refuses :
        (access_token : Str) (dpop : Option (Option Str))
        → Refuses
            (read_proof default is_header_value ns j c ct url parse_scheme s req clock access_token
              dpop).0
    unfolding read_proof
    read_proof-Refuses access_token none =
        if_both (λ (x : Prepared Body × Option ns.State). Refuses x.0)
          (not (has_authorization default is_header_value ns req.authorization)) (refused-401 _ _ _)
          (challenge_opt-IsRefusal _ s.nonce_source)
    read_proof-Refuses access_token (some none) = refused-401 _ _ _
    read_proof-Refuses access_token (some (some dpop_header)) =
        verify_request-Refuses access_token dpop_header _

    read_credential-Refuses :
        (credential : Option Str)
        → Refuses
            (read_credential default is_header_value ns j c ct url parse_scheme s req clock
              credential).0
    unfolding read_credential
    read_credential-Refuses none = refused-401 _ _ _
    read_credential-Refuses (some access_token) = read_proof-Refuses access_token req.dpop

    read_authorization-Refuses :
        (authorization : Option (Option Str))
        → Refuses
            (read_authorization default is_header_value ns j c ct url parse_scheme s req clock
              authorization).0
    unfolding read_authorization
    read_authorization-Refuses none = refused-401 _ _ _
    read_authorization-Refuses (some none) = refused-401 _ _ _
    read_authorization-Refuses (some (some auth_header)) =
        read_credential-Refuses (credential_of auth_header)

    pub prepare-Refuses :
        Refuses (prepare default is_header_value ns j c ct url parse_scheme s req clock).0
    unfolding prepare
    prepare-Refuses = read_authorization-Refuses req.authorization

module _ {Body : Type 0} (default : Body) (is_header_value : Str → Bool) (ns : NonceSource)
    (hash : Str → ℕ) {E : Type 0}
    (validate_access_token : (token jkt : Str) → Result IntegrationError AuthenticatedUser)
    (inner : AuthenticatedUser → Result E (Response Body)) where
  abbrev run : DpopVerifier → Option ns.State → Prepared Body → Outcome E ns.State Body
  run v source prepared =
      complete default is_header_value ns hash validate_access_token inner v source prepared

  -- The replay cache is as it was, or a valid access token came with the proof.
  abbrev pub IsSpent : DpopVerifier → DpopVerifier → Prepared Body → Type 0
  IsSpent v w (answered r) = w ≡ v
  IsSpent v w (pending p) =
      (w ≡ v)
      ⊎ ((user : AuthenticatedUser) × (validate_access_token p.access_token p.dpop_thumbprint
            ≡ ok user)
          × (w ≡ (commit_replay_admission hash v p.replay_admission).1))

  refuse_commit-IsRefusal :
      (e : DpopError)
      → IsRefusal (refuse_commit default is_header_value ns hash validate_access_token inner e)
  unfolding refuse_commit
  refuse_commit-IsRefusal replay_cache_saturated = refused-503 default is_header_value ns
  refuse_commit-IsRefusal _ = refused-401 default is_header_value ns _ _ _

  forward-refused :
      (source : Option ns.State) (user : AuthenticatedUser)
      (committed : Result DpopError (Unit {0}) × DpopVerifier)
      → (forward default is_header_value ns hash validate_access_token inner source user
          committed).forwarded
        ≡ none
      → (r : Response Body) × ((forward default is_header_value ns hash validate_access_token inner
            source user committed).response
          ≡ ok r)
        × IsRefusal r
  unfolding forward
  forward-refused source user (err e, w) h = (_, refl, refuse_commit-IsRefusal e)
  forward-refused source user (ok done, w) h = cc

  forward-state :
      (source : Option ns.State) (user : AuthenticatedUser)
      (committed : Result DpopError (Unit {0}) × DpopVerifier)
      → (forward default is_header_value ns hash validate_access_token inner source user
          committed).verifier
        ≡ committed.1
  unfolding forward
  forward-state source user (err e, w) = refl
  forward-state source user (ok done, w) = refl

  -- A call that was refused if it was answered before the future, and does not reach the inner
  -- service.
  complete-IsRefusal :
      (v : DpopVerifier) (source : Option ns.State) (prepared : Prepared Body)
      → Refuses prepared
      → (run v source prepared).forwarded ≡ none
      → ((r : Response Body) × ((run v source prepared).response ≡ ok r) × IsRefusal r)
        × IsSpent v (run v source prepared).verifier prepared
  unfolding complete admit_user
  complete-IsRefusal v source (answered r) k h = ((r, refl, k), refl)
  complete-IsRefusal v source (pending p) k h =
      elim (Result-cases (validate_access_token p.access_token p.dpop_thumbprint)) [
        | (inr (e, q)) ↦
            (rw q (_, refl, refused-401 default is_header_value ns _ _ _), inl (ground arith))
        | (inl (u, q)) ↦ (
          rw q (forward-refused source u _ (ground arith)),
          inr (u, q, rw q (forward-state source u _)),
        )
      ]

  module _ (j : Jose) (c : Crypto) (ct : Subtle) (url : UrlParser)
      (parse_scheme : Str → Option Scheme) (s : OauthAuthService ns.State) (req : Request)
      (clock : Clock) where
    -- What `call` passes to the future.
    abbrev prepared : Prepared Body
    prepared = (prepare default is_header_value ns j c ct url parse_scheme s req clock).0

    -- A request that does not reach the inner service is answered with 401 or 503. The replay
    -- cache is then as it was, or the request had passed the synchronous checks, the validator
    -- accepted its access token for the key of its proof, and the cache is what committing the
    -- admission of that proof leaves.
    pub complete-refused :
        (v : DpopVerifier) (source : Option ns.State)
        → (run v source prepared).forwarded ≡ none
        → ((r : Response Body) × ((run v source prepared).response ≡ ok r) × IsRefusal r)
          × IsSpent v (run v source prepared).verifier prepared
    complete-refused v source h =
        complete-IsRefusal v source prepared
          (prepare-Refuses default is_header_value ns j c ct url parse_scheme s req clock) h
