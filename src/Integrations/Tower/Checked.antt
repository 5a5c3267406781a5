-- ===== src/Integrations/Tower/Checked.antt =====
-- What a request has passed when the middleware goes on to its access token.
use skyauth.Base.{
  ◌≡◌, refl, Bool, true, Option, none, some, Result, ok, err, arith, Bool-cases, inl, inr,
}
use skyauth.Base.Text.{Str}
use skyauth.Crypto.{Crypto}
use skyauth.Kernels.CtEq.{Subtle}
use skyauth.Url.{UrlParser}
use skyauth.Dpop.Errors.{DpopError, replay_detected, replay_cache_saturated}
use skyauth.Dpop.Proof.{Jose, JwkEc, DpopProofClaims}
use skyauth.Dpop.Verifier.{ReplayAdmission, verify_proof_deferred, thumbprint}
use skyauth.Integrations.Tower.{
  Scheme, Request, Pending, pending, NonceSource, request_htu, credential_of,
}
use skyauth.Integrations.Tower.Prepare.{
  OauthAuthService, Clock, verify_claimed, check_nonce, after_proof, expected_of, verify_request,
  read_proof, read_credential, read_authorization, prepare,
}

module _ {Body : Type 0} (default : Body) (is_header_value : Str → Bool) (ns : NonceSource) where
  -- The claimed nonce was accepted, where there is a nonce source.
  abbrev pub HasNonce : Option ns.State → (claimed : Option Str) → Type 0
  HasNonce none claimed = Unit
  HasNonce (some s) claimed = (n : Str) × (claimed ≡ some n) × ((ns.verify_nonce s n).0 ≡ true)

  verify_claimed-HasNonce :
      (s : ns.State) (claimed : Option Str)
      → (verify_claimed default is_header_value ns s claimed).0 ≡ true
      → HasNonce (some s) claimed
  unfolding verify_claimed
  verify_claimed-HasNonce s none h = cc
  verify_claimed-HasNonce s (some n) h = (n, refl, h)

  check_nonce-pending :
      (source : Option ns.State) (claimed : Option Str) (next p : Pending)
      → (check_nonce default is_header_value ns source claimed next).0 ≡ pending p
      → (next ≡ p) × HasNonce source claimed
  unfolding check_nonce
  check_nonce-pending none claimed next p h = ground arith
  check_nonce-pending (some s) claimed next p h =
      elim (Bool-cases (verify_claimed default is_header_value ns s claimed).0) [
        | (inl q) ↦ (ground arith, verify_claimed-HasNonce s claimed q)
        | (inr q) ↦ ground arith
      ]

  after_proof-pending :
      (thumbprint_of : JwkEc → Str) (source : Option ns.State) (access_token : Str)
      (verified : Result DpopError (DpopProofClaims × JwkEc × ReplayAdmission)) (p : Pending)
      → (after_proof default is_header_value ns thumbprint_of source access_token verified).0
        ≡ pending p
      → (claims : DpopProofClaims) × (jwk : JwkEc) × (verified
          ≡ ok (claims, jwk, p.replay_admission))
        × (p.access_token ≡ access_token)
        × (p.dpop_thumbprint ≡ thumbprint_of jwk)
        × HasNonce source claims.nonce
  unfolding after_proof
  after_proof-pending thumbprint_of source access_token (ok (claims, jwk, admission)) p h =
      let next : Pending = record {
        access_token = access_token;
        dpop_thumbprint = thumbprint_of jwk;
        replay_admission = admission;
      } in
      let (same, accepted) = check_nonce-pending source claims.nonce next p h in
      (claims, jwk, ground arith, ground arith, ground arith, accepted)
  after_proof-pending thumbprint_of source access_token (err (replay_detected jti)) p h = cc
  after_proof-pending thumbprint_of source access_token (err replay_cache_saturated) p h = cc
  after_proof-pending thumbprint_of source access_token (err _) p h = cc

  module _ (j : Jose) (c : Crypto) (ct : Subtle) (url : UrlParser)
      (parse_scheme : Str → Option Scheme) where
    -- What the first part of a call has found when it goes on to the future.
    pub record IsChecked (s : OauthAuthService ns.State) (req : Request) (clock : Clock)
        (p : Pending) : Type 0 where
      pub auth_header : Str
      pub authorized : req.authorization ≡ some (some auth_header)
      pub credential : credential_of auth_header ≡ some p.access_token
      pub dpop_header : Str
      pub carried : req.dpop ≡ some (some dpop_header)
      pub htu : Str
      pub target : request_htu parse_scheme s.htu_override req.uri ≡ some htu
      pub claims : DpopProofClaims
      pub jwk : JwkEc
      pub verified :
          verify_proof_deferred j c ct url s.verifier dpop_header
            (expected_of default is_header_value ns j c ct url parse_scheme s req p.access_token
              htu)
            none
            clock.checked_at
            clock.admitted_at
          ≡ ok (claims, jwk, p.replay_admission)
      pub proven : p.dpop_thumbprint ≡ thumbprint j c ct url jwk
      pub accepted : HasNonce s.nonce_source claims.nonce

    module _ (s : OauthAuthService ns.State) (req : Request) (clock : Clock) (p : Pending) where
      verify_request-IsChecked :
          (auth_header access_token dpop_header : Str) (htu : Option Str)
          → req.authorization ≡ some (some auth_header)
          → credential_of auth_header ≡ some access_token
          → req.dpop ≡ some (some dpop_header)
          → request_htu parse_scheme s.htu_override req.uri ≡ htu
          → (verify_request default is_header_value ns j c ct url parse_scheme s req clock
              access_token dpop_header htu).0
            ≡ pending p
          → IsChecked s req clock p
      unfolding verify_request
      verify_request-IsChecked auth_header access_token dpop_header none a b d t h = cc
      verify_request-IsChecked auth_header access_token dpop_header (some htu) a b d t h =
          let (claims, jwk, ok_proof, same, key, nonce) =
            after_proof-pending (thumbprint j c ct url) s.nonce_source access_token _ p h in
          record {
            auth_header = auth_header;
            authorized = a;
            credential = rw same b;
            dpop_header = dpop_header;
            carried = d;
            htu = htu;
            target = t;
            claims = claims;
            jwk = jwk;
            verified = rw same ok_proof;
            proven = key;
            accepted = nonce;
          }

      read_proof-IsChecked :
          (auth_header access_token : Str) (dpop : Option (Option Str))
          → req.authorization ≡ some (some auth_header)
          → credential_of auth_header ≡ some access_token
          → req.dpop ≡ dpop
          → (read_proof default is_header_value ns j c ct url parse_scheme s req clock access_token
              dpop).0
            ≡ pending p
          → IsChecked s req clock p
      unfolding read_proof
      read_proof-IsChecked auth_header access_token none a b d h = ground arith
      read_proof-IsChecked auth_header access_token (some none) a b d h = cc
      read_proof-IsChecked auth_header access_token (some (some dpop_header)) a b d h =
          verify_request-IsChecked auth_header access_token dpop_header
            (request_htu parse_scheme s.htu_override req.uri) a b d refl h

      read_credential-IsChecked :
          (auth_header : Str) (credential : Option Str)
          → req.authorization ≡ some (some auth_header)
          → credential_of auth_header ≡ credential
          → (read_credential default is_header_value ns j c ct url parse_scheme s req clock
              credential).0
            ≡ pending p
          → IsChecked s req clock p
      unfolding read_credential
      read_credential-IsChecked auth_header none a b h = cc
      read_credential-IsChecked auth_header (some access_token) a b h =
          read_proof-IsChecked auth_header access_token req.dpop a b refl h

      read_authorization-IsChecked :
          (authorization : Option (Option Str))
          → req.authorization ≡ authorization
          → (read_authorization default is_header_value ns j c ct url parse_scheme s req clock
              authorization).0
            ≡ pending p
          → IsChecked s req clock p
      unfolding read_authorization
      read_authorization-IsChecked none a h = cc
      read_authorization-IsChecked (some none) a h = cc
      read_authorization-IsChecked (some (some auth_header)) a h =
          read_credential-IsChecked auth_header (credential_of auth_header) a refl h

      -- A call that goes on to its future has a DPoP credential, a proof that verifies for the
      -- request's method and target and, where that is required, for the credential, and a nonce
      -- that the source accepted, where there is a source.
      pub prepare-IsChecked :
          (prepare default is_header_value ns j c ct url parse_scheme s req clock).0 ≡ pending p
          → IsChecked s req clock p
      unfolding prepare
      prepare-IsChecked h = read_authorization-IsChecked req.authorization refl h
