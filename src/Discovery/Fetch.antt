-- ===== src/Discovery/Fetch.antt =====
-- The steps of src/discovery.rs: `validate_auth_server_capabilities`, the two fetches, and
-- `discover_oauth_endpoints`.
use skyauth.Base.{
  ℕ, ◌∷◌, ◌++◌, Bool, not, ◌||◌, ◌==◌, Option, none, some, List, [], length, any, list_eq,
  if◌then◌else◌, Result, ok, err, ◌>>◌, ◌>>=◌, fail_if, map_err,
}
use skyauth.Base.Text.{Str, codes, is_empty, trim, trim_end_matches}
use skyauth.Ssrf.{SsrfError, SsrfFilter, http_status}
use skyauth.Ssrf.Network.{Network, protected_resource, auth_server, auth_server_fallback, get_json}
use skyauth.Identity.{DidDocument}
use skyauth.Identity.Resolver.{Doh, IdentityResolver, ResolvedIdentity, resolve_ident}
use skyauth.Url.{UrlParser}
use skyauth.Discovery.{
  DiscoveryError, protected_resource_discovery_failed, auth_server_discovery_failed,
  missing_authorization_servers, multiple_authorization_servers, invalid_authorization_server_url,
  resource_mismatch, issuer_mismatch, missing_dpop_algorithm, missing_pkce_method,
  missing_par_endpoint, par_not_required, missing_request_uri_registration, missing_response_type,
  missing_token_auth_method, missing_grant_type, missing_token_auth_signing_alg,
  invalid_token_auth_signing_alg, missing_atproto_scope, missing_iss_parameter_support,
  missing_client_metadata_support, missing_token_endpoint, missing_authorization_endpoint, identity,
  ssrf, ProtectedResourceMetadata, AuthorizationServerMetadata, DiscoveredAuthEndpoints,
}
use skyauth.Discovery.Origins.{is_origin_only, normalize_origin, validate_https_endpoint}

-- `iter().any(|s| s == word)`.
unfoldable pub lists : List Str → (word : Str) → Bool
lists words word = any (λ s. list_eq s word) words

-- The mapping of a failed fetch; `failed` is the error for a status and for bad JSON.
unfoldable pub fetch_error : (failed : DiscoveryError) → SsrfError → DiscoveryError
fetch_error failed (http_status status) = failed
fetch_error failed SsrfError.json = failed
fetch_error failed e = ssrf e

module _ (parse : UrlParser) (meta : AuthorizationServerMetadata) (auth_server_url : Str) where
  -- The issuer and its origin.
  unfoldable pub check_issuer : Result DiscoveryError (Unit {0})
  check_issuer =
      fail_if (not (is_origin_only parse auth_server_url))
        (invalid_authorization_server_url auth_server_url)
      >> fail_if (not (is_origin_only parse meta.issuer))
          (invalid_authorization_server_url meta.issuer)
      >> fail_if
          (not
            (list_eq (normalize_origin parse auth_server_url) (normalize_origin parse meta.issuer)))
          (issuer_mismatch auth_server_url meta.issuer)

  -- The three endpoints, and that pushed requests are required.
  unfoldable pub check_endpoints : Result DiscoveryError (Unit {0})
  check_endpoints =
      fail_if (is_empty (trim meta.pushed_authorization_request_endpoint))
        (missing_par_endpoint auth_server_url)
      >> validate_https_endpoint parse meta.pushed_authorization_request_endpoint
      >> fail_if (not meta.require_pushed_authorization_requests) (par_not_required auth_server_url)
      >> fail_if (is_empty (trim meta.token_endpoint)) (missing_token_endpoint auth_server_url)
      >> validate_https_endpoint parse meta.token_endpoint
      >> fail_if (is_empty (trim meta.authorization_endpoint))
          (missing_authorization_endpoint auth_server_url)
      >> validate_https_endpoint parse meta.authorization_endpoint

  -- What the server says that it supports.
  unfoldable pub check_support : Result DiscoveryError (Unit {0})
  check_support =
      fail_if (not (lists meta.response_types_supported (codes "code")))
        (missing_response_type auth_server_url)
      >> fail_if (not (lists meta.grant_types_supported (codes "authorization_code")))
          (missing_grant_type auth_server_url (codes "authorization_code"))
      >> fail_if (not (lists meta.grant_types_supported (codes "refresh_token")))
          (missing_grant_type auth_server_url (codes "refresh_token"))
      >> fail_if
          (not (lists meta.token_endpoint_auth_methods_supported (codes "none"))
            || not (lists meta.token_endpoint_auth_methods_supported (codes "private_key_jwt")))
          (missing_token_auth_method auth_server_url)
      >> fail_if (not (lists meta.token_endpoint_auth_signing_alg_values_supported (codes "ES256")))
          (missing_token_auth_signing_alg auth_server_url)
      >> fail_if (lists meta.token_endpoint_auth_signing_alg_values_supported (codes "none"))
          (invalid_token_auth_signing_alg auth_server_url)
      >> fail_if (not (lists meta.scopes_supported (codes "atproto")))
          (missing_atproto_scope auth_server_url)
      >> fail_if (not meta.authorization_response_iss_parameter_supported)
          (missing_iss_parameter_support auth_server_url)
      >> fail_if (not meta.client_id_metadata_document_supported)
          (missing_client_metadata_support auth_server_url)
      >> fail_if (not meta.require_request_uri_registration)
          (missing_request_uri_registration auth_server_url)
      >> fail_if (not (lists meta.dpop_signing_alg_values_supported (codes "ES256")))
          (missing_dpop_algorithm auth_server_url)
      >> fail_if (not (lists meta.code_challenge_methods_supported (codes "S256")))
          (missing_pkce_method auth_server_url)

  unfoldable pub validate_auth_server_capabilities : Result DiscoveryError (Unit {0})
  validate_auth_server_capabilities = check_issuer >> check_endpoints >> check_support

module _ (parse : UrlParser) (pds_endpoint : Str) (meta : ProtectedResourceMetadata) where
  -- The one authorization server, and the resource.
  unfoldable pub check_servers : List Str → Result DiscoveryError (Unit {0})
  check_servers [] = err (missing_authorization_servers pds_endpoint)
  check_servers (as_url ∷ []) =
      fail_if (not (is_origin_only parse as_url)) (invalid_authorization_server_url as_url)
  check_servers (a ∷ b ∷ rest) = err (multiple_authorization_servers (length (a ∷ b ∷ rest)))

  unfoldable pub check_resource : Result DiscoveryError (Unit {0})
  check_resource =
      let expected_origin = normalize_origin parse pds_endpoint in
      fail_if (not (list_eq expected_origin (normalize_origin parse meta.resource)))
        (resource_mismatch expected_origin meta.resource)
      >> fail_if (not (is_origin_only parse meta.resource))
          (resource_mismatch expected_origin meta.resource)

  unfoldable pub check_protected_resource : Result DiscoveryError (Unit {0})
  check_protected_resource = check_servers meta.authorization_servers >> check_resource

module _ (net : Network) (resource_from_slice : List ℕ → Option ProtectedResourceMetadata)
    (server_from_slice : List ℕ → Option AuthorizationServerMetadata) where
  -- The document before its checks.
  unfoldable pub get_resource :
      SsrfFilter → (pds_endpoint : Str) → Result DiscoveryError ProtectedResourceMetadata
  get_resource f pds_endpoint = map_err (fetch_error protected_resource_discovery_failed) (
      get_json net f resource_from_slice protected_resource
        (trim_end_matches b'/' pds_endpoint ++ codes "/.well-known/oauth-protected-resource"))

  unfoldable pub fetch_protected_resource_metadata :
      SsrfFilter → (pds_endpoint : Str) → Result DiscoveryError ProtectedResourceMetadata
  fetch_protected_resource_metadata f pds_endpoint = get_resource f pds_endpoint >>= λ meta.
      check_protected_resource net.parse pds_endpoint meta >> ok meta

  unfoldable pub fallback :
      SsrfFilter → (base : Str) → Result DiscoveryError AuthorizationServerMetadata
  fallback f base = map_err (fetch_error auth_server_discovery_failed) (
      get_json net f server_from_slice auth_server_fallback
        (base ++ codes "/.well-known/openid-configuration"))

  -- The `match` on the first fetch: a 404 is followed by the second.
  unfoldable pub or_fallback :
      SsrfFilter
      → (base : Str) → Result SsrfError AuthorizationServerMetadata
      → Result DiscoveryError AuthorizationServerMetadata
  or_fallback f base (ok m) = ok m
  or_fallback f base (err (http_status status)) =
      if status == 404 then fallback f base else err auth_server_discovery_failed
  or_fallback f base (err e) = err (fetch_error auth_server_discovery_failed e)

  -- The document of one of the two, before its checks.
  unfoldable pub get_server :
      SsrfFilter → (auth_server_url : Str) → Result DiscoveryError AuthorizationServerMetadata
  get_server f auth_server_url =
      let base = trim_end_matches b'/' auth_server_url in
      or_fallback f base (
        get_json net f server_from_slice auth_server
          (base ++ codes "/.well-known/oauth-authorization-server"))

  unfoldable pub fetch_auth_server_metadata :
      SsrfFilter → (auth_server_url : Str) → Result DiscoveryError AuthorizationServerMetadata
  fetch_auth_server_metadata f auth_server_url = get_server f auth_server_url >>= λ meta.
      validate_auth_server_capabilities net.parse meta auth_server_url >> ok meta

  unfoldable pub scopes_of : AuthorizationServerMetadata → ProtectedResourceMetadata → List Str
  scopes_of as_meta pds_meta =
      if not (is_empty as_meta.scopes_supported)
      then as_meta.scopes_supported
      else if not (is_empty pds_meta.scopes_supported)
      then pds_meta.scopes_supported
      else codes "atproto" ∷ []

  unfoldable pub endpoints_of :
      ResolvedIdentity
      → ProtectedResourceMetadata
      → AuthorizationServerMetadata
      → DiscoveredAuthEndpoints
  endpoints_of id pds_meta as_meta = record {
    did = id.did;
    handle = id.handle;
    pds_endpoint = id.pds_endpoint;
    auth_server_issuer = as_meta.issuer;
    par_endpoint = as_meta.pushed_authorization_request_endpoint;
    authorization_endpoint = as_meta.authorization_endpoint;
    token_endpoint = as_meta.token_endpoint;
    dpop_algs = as_meta.dpop_signing_alg_values_supported;
    scopes = scopes_of as_meta pds_meta;
    protected_resource_metadata = pds_meta;
    auth_server_metadata = as_meta;
  }

  -- `authorization_servers[0]`, a panic when there is none, and what follows.
  unfoldable pub with_server :
      SsrfFilter
      → ResolvedIdentity
      → ProtectedResourceMetadata
      → List Str
      → Option (Result DiscoveryError DiscoveredAuthEndpoints)
  with_server f id pds_meta [] = none
  with_server f id pds_meta (auth_server_url ∷ rest) = some (
      fetch_auth_server_metadata f auth_server_url >>= λ as_meta.
      ok (endpoints_of id pds_meta as_meta))

  module _ (doh : Doh) (from_slice : List ℕ → Option DidDocument) where
    -- The identity and the metadata of its server.
    unfoldable pub find_resource :
        IdentityResolver
        → (did_or_handle : Str)
        → Result DiscoveryError (ResolvedIdentity × ProtectedResourceMetadata)
    find_resource resolver did_or_handle =
        map_err identity (resolve_ident net doh from_slice resolver did_or_handle) >>= λ id.
        fetch_protected_resource_metadata resolver.ssrf_filter id.pds_endpoint >>= λ pds_meta.
        ok (id, pds_meta)

    unfoldable pub continue_with :
        SsrfFilter
        → Result DiscoveryError (ResolvedIdentity × ProtectedResourceMetadata)
        → Option (Result DiscoveryError DiscoveredAuthEndpoints)
    continue_with f (err e) = some (err e)
    continue_with f (ok (id, pds_meta)) = with_server f id pds_meta pds_meta.authorization_servers

    unfoldable pub discover_oauth_endpoints :
        IdentityResolver
        → (did_or_handle : Str) → Option (Result DiscoveryError DiscoveredAuthEndpoints)
    discover_oauth_endpoints resolver did_or_handle =
        continue_with resolver.ssrf_filter (find_resource resolver did_or_handle)
