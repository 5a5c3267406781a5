-- ===== src/Integrations/Tower/Authenticated.antt =====
-- The middleware over the validator of JWT access tokens: the proof, the token and the user agree.
use skyauth.Base.{ℕ, ◌≡◌, Bool, Option, some, List, Result, ok, ◌∙◌, ap, sym}
use skyauth.Base.Text.{Str}
use skyauth.Crypto.{Crypto}
use skyauth.Kernels.CtEq.{Subtle}
use skyauth.Url.{UrlParser}
use skyauth.Dpop.Proof.{Jose}
use skyauth.Dpop.Verifier.{DpopVerifier, commit_replay_admission, thumbprint}
use skyauth.Integrations.{AuthenticatedUser}
use skyauth.Integrations.JwtValidator.{
  JwtAccessTokenClaims, JwtAccessTokenValidator, verify_token_sync,
}
use skyauth.Integrations.JwtValidator.Laws.{IsSigned, verify_token_sync-Accepts}
use skyauth.Integrations.JwtValidator.Claims.{IsValid}
use skyauth.Integrations.Tower.{Scheme, Request, Response, Pending, NonceSource}
use skyauth.Integrations.Tower.Prepare.{OauthAuthService, Clock, prepare}
use skyauth.Integrations.Tower.Complete.{complete}
use skyauth.Integrations.Tower.Forwarded.{complete-forwarded}
use skyauth.Integrations.Tower.Checked.{IsChecked, prepare-IsChecked}

module _ {Body : Type 0} (default : Body) (is_header_value : Str → Bool) (ns : NonceSource)
    (j : Jose) (c : Crypto) (ct : Subtle) (url : UrlParser) (parse_scheme : Str → Option Scheme)
    (hash : Str → ℕ) (as_array : j.Value → Option (List j.Value))
    (access_claims : List ℕ → Option (JwtAccessTokenClaims j.Value)) {E : Type 0}
    (inner : AuthenticatedUser → Result E (Response Body)) where
  -- When a request reaches the inner service as a user, its proof passed every check of the
  -- middleware, its access token is signed by a configured key with claims that are valid at that
  -- time and bound to the thumbprint of the proof's own key, the user is the subject of the token
  -- with that thumbprint, and the admission of the proof was committed. The verifier may have been
  -- changed by other requests before the future ran.
  pub complete-authenticated :
      (s : OauthAuthService ns.State) (req : Request) (clock : Clock)
      (tokens : JwtAccessTokenValidator j.VerifyingKey) (now : Option ℕ) (v : DpopVerifier)
      (source : Option ns.State) (user : AuthenticatedUser)
      → (complete default is_header_value ns hash
          (verify_token_sync j ct as_array access_claims tokens now)
          inner
          v
          source
          (prepare default is_header_value ns j c ct url parse_scheme s req clock).0).forwarded
        ≡ some user
      → (p : Pending) × (checked : IsChecked default is_header_value ns j c ct url parse_scheme s
          req clock p)
        × (claims : JwtAccessTokenClaims j.Value) × (now_secs : ℕ) × (now ≡ some now_secs)
        × IsSigned j ct as_array access_claims tokens p.access_token claims
        × IsValid j ct as_array access_claims tokens claims
            (thumbprint j c ct url checked.jwk)
            now_secs
        × (user.did ≡ claims.sub)
        × (user.dpop_thumbprint ≡ thumbprint j c ct url checked.jwk)
        × ((commit_replay_admission hash v p.replay_admission).0 ≡ ok tt)
  complete-authenticated s req clock tokens now v source user h =
      let (p, same, valid, admitted, state) =
        complete-forwarded default is_header_value ns hash
          (verify_token_sync j ct as_array access_claims tokens now) inner v source
          (prepare default is_header_value ns j c ct url parse_scheme s req clock).0 user h in
      let checked =
        prepare-IsChecked default is_header_value ns j c ct url parse_scheme s req clock p same in
      let (claims, now_secs, q, signed, fits, is_user) =
        verify_token_sync-Accepts j ct as_array access_claims tokens now p.access_token
          p.dpop_thumbprint user valid in
      (
        p,
        checked,
        claims,
        now_secs,
        q,
        signed,
        rw (sym checked.proven) fits,
        ap (λ u. u.did) is_user,
        ap (λ u. u.dpop_thumbprint) is_user ∙ checked.proven,
        admitted,
      )
