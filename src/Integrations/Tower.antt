-- ===== src/Integrations/Tower.antt =====
-- src/integrations/tower.rs: `OAuthAuthService::call`, the middleware that lets a request through to
-- the inner service once its DPoP proof, its nonce and its access token are accepted. A request and
-- a response keep the parts that the middleware reads or writes. The `http` crate's parser of a
-- scheme and its test of a header value are parameters, and so are the traits: the nonce source and
-- the validator, whose clocks and randomness belong to their state, and the inner service.
pub mod Prepare
pub mod Complete
pub mod Checked
pub mod Forwarded
pub mod Refused
pub mod Once
pub mod Authenticated
use skyauth.Base.{
  ℕ, ◌∷◌, ◌++◌, Bool, true, false, not, ◌&&◌, ◌||◌, Option, none, some, List, [], ltb, leb, ◌==◌,
  if◌then◌else◌, Result, ok, err, ◌>>=◌,
}
use skyauth.Base.Text.{Str, codes, is_empty, trim, eq_ignore_ascii_case, split_once}
use skyauth.Base.Utf8.{as_bytes}
use skyauth.Crypto.{Crypto, sha256_digest, base64url_encode}
use skyauth.Dpop.Htu.{compute_access_token_hash}
use skyauth.Kernels.CtEq.{Subtle}
use skyauth.Kernels.HtuComponents.{decimal_port_str}
use skyauth.Url.{UrlParser}
use skyauth.Dpop.Errors.{DpopError, replay_detected, replay_cache_saturated, nonce_cache_saturated}
use skyauth.Dpop.Proof.{Jose, JwkEc, DpopProofClaims}
use skyauth.Dpop.Verifier.{
  DpopVerifier, Expected, ReplayAdmission, verify_proof_deferred, commit_replay_admission,
  thumbprint,
}
use skyauth.Integrations.{AuthenticatedUser, IntegrationError}

pub data Scheme : Type 0 where
  https http : Scheme
  other : Str → Scheme

pub record Authority : Type 0 where
  pub as_str : Str
  pub host : Str
  pub port_u16 : Option ℕ

-- `http::Uri`, by its accessors.
pub record Uri : Type 0 where
  pub scheme_str : Option Str
  pub authority : Option Authority
  pub host : Option Str
  pub port_u16 : Option ℕ
  pub path_and_query : Option Str

-- A header whose value is not text is `some none`.
pub record Request : Type 0 where
  pub method : Str
  pub uri : Uri
  pub authorization : Option (Option Str)
  pub dpop : Option (Option Str)

pub record Response (Body : Type 0) : Type 0 where
  pub status : ℕ
  pub www_authenticate : Option Str
  pub dpop_nonce : Option Str
  pub retry_after : Option Str
  pub body : Body

unfoldable pub scheme_text : Scheme → Str
scheme_text https = codes "https"
scheme_text http = codes "http"
scheme_text (other s) = s

-- The comparison of a port with the default of the scheme.
unfoldable pub is_default_port : Scheme → Option ℕ → Bool
is_default_port https (some p) = p == 443
is_default_port http (some p) = p == 80
is_default_port (other s) (some p) = false
is_default_port scheme none = false

-- `{host}:{p}` unless the port is the default or missing.
unfoldable pub host_repr : Scheme → (host : Str) → Option ℕ → Str
unfolding is_default_port
host_repr scheme host none = host
host_repr scheme host (some p) =
    if is_default_port scheme (some p) then host else host ++ decimal_port_str p

abbrev join_url : Scheme → (host path : Str) → Str
join_url scheme host path = scheme_text scheme ++ codes "://" ++ host ++ path

unfoldable pub from_host : Scheme → (path : Str) → Option Str → Option ℕ → Option Str
unfolding scheme_text host_repr
from_host scheme path none port = none
from_host scheme path (some host) port = some (join_url scheme (host_repr scheme host port) path)

unfoldable pub path_text : Option Str → Str
path_text none = codes "/"
path_text (some pq) = pq

unfoldable pub default_htu_from_uri : Scheme → Uri → Option Str
unfolding from_host is_default_port path_text scheme_text
default_htu_from_uri scheme uri =
    let path = path_text uri.path_and_query in
    let by_host = from_host scheme path uri.host uri.port_u16 in
    elim uri.authority [
      | none ↦ by_host
      | some a ↦ elim uri.scheme_str [
        | none ↦ by_host
        | some s ↦
            some (
              join_url scheme (if is_default_port scheme a.port_u16 then a.host else a.as_str) path)
      ]
    ]

-- `scheme_str().and_then(|s| s.parse().ok()).unwrap_or(HTTPS)`.
unfoldable pub scheme_of : (Str → Option Scheme) → Option Str → Scheme
scheme_of parse none = https
scheme_of parse (some s) = elim (parse s) [ none ↦ https | some scheme ↦ scheme ]

unfoldable pub htu_for : Scheme → Uri → Option Str
htu_for https uri = default_htu_from_uri https uri
htu_for http uri = default_htu_from_uri http uri
htu_for (other s) uri = none

-- The target of a request: the override, or what the URI gives; none is a refusal.
unfoldable pub request_htu :
    (Str → Option Scheme) → (htu_override : Option (Uri → Str)) → Uri → Option Str
unfolding scheme_of htu_for
request_htu parse (some f) uri = some (f uri)
request_htu parse none uri = htu_for (scheme_of parse uri.scheme_str) uri

-- The credential of an `Authorization` header with the scheme `DPoP`.
unfoldable pub credential_of : Str → Option Str
credential_of auth_header = elim (split_once b' ' auth_header) [
  | none ↦ none
  | some parts ↦ if eq_ignore_ascii_case parts.0 (codes "DPoP") then some (trim parts.1) else none
]

module _ {Body : Type 0} (default : Body) (is_header_value : Str → Bool) where
  -- `if let Ok(val) = HeaderValue::from_str(text)`.
  unfoldable pub header_value : Str → Option Str
  header_value text = if is_header_value text then some text else none

  unfoldable pub nonce_header : Option Str → Option Str
  unfolding header_value
  nonce_header none = none
  nonce_header (some n) = header_value n

  unfoldable pub challenge_text : (error_code : Str) (description : Option Str) → Str
  challenge_text error_code none = codes "DPoP error=\"" ++ error_code ++ codes "\""
  challenge_text error_code (some desc) =
      codes "DPoP error=\"" ++ error_code ++ codes "\", error_description=\"" ++ desc ++ codes "\""

  unfoldable pub unauthorized_response :
      (error_code : Str) (description nonce : Option Str) → Response Body
  unfolding nonce_header challenge_text
  unauthorized_response error_code description nonce = record {
    status = 401;
    www_authenticate = header_value (challenge_text error_code description);
    dpop_nonce = nonce_header nonce;
    retry_after = none;
    body = default;
  }

  unfoldable pub service_unavailable_response : Response Body
  service_unavailable_response = record {
    status = 503;
    www_authenticate = none;
    dpop_nonce = none;
    retry_after = some (codes "1");
    body = default;
  }

-- What the asynchronous part of a call needs.
pub record Pending : Type 0 where
  pub access_token : Str
  pub dpop_thumbprint : Str
  pub replay_admission : ReplayAdmission

pub data Prepared (Body : Type 0) : Type 0 where
  answered : Response Body → Prepared Body
  pending : Pending → Prepared Body

-- `DPoPServerNonceSource`.
pub record NonceSource : Type 1 where
  pub State : Type 0
  pub generate_nonce : State → Result DpopError Str × State
  pub verify_nonce : State → Str → Bool × State
