-- ===== src/Discovery.antt =====
-- src/discovery.rs: the metadata of a protected resource and of an authorization server, their
-- validation, and the whole discovery.
pub mod Origins
pub mod Fetch
pub mod Laws
pub mod Pipeline
use skyauth.Base.{
  ◌∷◌, Bool, true, false, not, ◌&&◌, ◌||◌, Option, List, [], ℕ, any, list_eq, if◌then◌else◌, Result,
  ok, err, ◌>>◌, fail_if,
}
use skyauth.Base.Text.{Str, codes, is_empty, trim}
use skyauth.Ssrf.{SsrfError}
use skyauth.Identity.Errors.{IdentityError}
use skyauth.Url.{UrlParser}

-- `DiscoveryError` of src/error.rs, without its messages.
pub data DiscoveryError : Type 0 where
  protected_resource_discovery_failed auth_server_discovery_failed invalid_endpoint_url http json :
      DiscoveryError
  missing_authorization_servers invalid_authorization_server_url : Str → DiscoveryError
  multiple_authorization_servers : ℕ → DiscoveryError
  resource_mismatch issuer_mismatch : (expected actual : Str) → DiscoveryError
  missing_dpop_algorithm missing_pkce_method missing_par_endpoint par_not_required :
      Str → DiscoveryError
  missing_request_uri_registration missing_response_type missing_token_auth_method :
      Str → DiscoveryError
  missing_grant_type : (auth_server missing : Str) → DiscoveryError
  missing_token_auth_signing_alg invalid_token_auth_signing_alg missing_atproto_scope :
      Str → DiscoveryError
  missing_iss_parameter_support missing_client_metadata_support missing_token_endpoint :
      Str → DiscoveryError
  missing_authorization_endpoint : Str → DiscoveryError
  identity : IdentityError → DiscoveryError
  ssrf : SsrfError → DiscoveryError

pub record ProtectedResourceMetadata : Type 0 where
  pub resource : Str
  pub authorization_servers : List Str
  pub scopes_supported : List Str
  pub bearer_methods_supported : List Str
  pub resource_documentation : Option Str

pub record AuthorizationServerMetadata : Type 0 where
  pub issuer : Str
  pub authorization_endpoint : Str
  pub token_endpoint : Str
  pub pushed_authorization_request_endpoint : Str
  pub require_pushed_authorization_requests : Bool
  pub dpop_signing_alg_values_supported : List Str
  pub code_challenge_methods_supported : List Str
  pub response_types_supported : List Str
  pub grant_types_supported : List Str
  pub token_endpoint_auth_methods_supported : List Str
  pub token_endpoint_auth_signing_alg_values_supported : List Str
  pub scopes_supported : List Str
  pub authorization_response_iss_parameter_supported : Bool
  pub client_id_metadata_document_supported : Bool
  pub require_request_uri_registration : Bool

pub record DiscoveredAuthEndpoints : Type 0 where
  pub did : Str
  pub handle : Option Str
  pub pds_endpoint : Str
  pub auth_server_issuer : Str
  pub par_endpoint : Str
  pub authorization_endpoint : Str
  pub token_endpoint : Str
  pub dpop_algs : List Str
  pub scopes : List Str
  pub protected_resource_metadata : ProtectedResourceMetadata
  pub auth_server_metadata : AuthorizationServerMetadata
