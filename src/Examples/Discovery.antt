-- ===== src/Examples/Discovery.antt =====
-- The properties of the discovery at concrete metadata.

use skyauth.Net.{parse_ip}
use skyauth.Ssrf.Resolver.{checked_addrs}
use skyauth.Kernels.IpFilter.{is_restricted_ip, is_restricted_ipv4_octets}
use skyauth.Ssrf.{validate_url, is_blocked_hostname, validate_ip, is_ip_restricted}
use skyauth.Ssrf.Fetch.{safe_get_json, build_pinned_client, resolve_and_pin, read_bounded_body}
use skyauth.Ssrf.Network.{get_json}
use skyauth.Discovery.Origins.{
  is_origin_only, is_origin, is_secure, has_userinfo, has_explicit_port, host_port_of,
  normalize_origin, validate_https_endpoint,
}
use skyauth.Base.{◌≡◌, refl, true, some, none, [], ◌∷◌, Result, ok}
use skyauth.Base.Text.{
  Str, codes, contains_char, split, strip_prefix, trim, to_ascii_lowercase, ends_with,
  trim_end_matches,
}
use skyauth.Discovery.{
  DiscoveryError, ProtectedResourceMetadata, AuthorizationServerMetadata, DiscoveredAuthEndpoints,
}
use skyauth.Discovery.Fetch.{
  validate_auth_server_capabilities, discover_oauth_endpoints, check_issuer, check_endpoints,
  check_support, lists, continue_with, find_resource, fetch_protected_resource_metadata,
  get_resource, with_server, check_protected_resource, check_resource, check_servers,
  fetch_auth_server_metadata, get_server, or_fallback, fallback, endpoints_of, scopes_of,
}
use skyauth.Discovery.Pipeline.{
  IsTrusted, discover_oauth_endpoints-IsTrusted, discover_oauth_endpoints_total,
}
use skyauth.Examples.Identity.{net, doh, did, document_of, resolver, alice, resolved_ok}

abbrev origin : Str
origin = codes "https://pds.example"

abbrev resource : ProtectedResourceMetadata
resource = record {
  resource = origin;
  authorization_servers = origin ∷ [];
  scopes_supported = codes "atproto" ∷ [];
  bearer_methods_supported = [];
  resource_documentation = none;
}

abbrev server : AuthorizationServerMetadata
server = record {
  issuer = origin;
  authorization_endpoint = codes "https://pds.example/authorize";
  token_endpoint = codes "https://pds.example/token";
  pushed_authorization_request_endpoint = codes "https://pds.example/par";
  require_pushed_authorization_requests = true;
  dpop_signing_alg_values_supported = codes "ES256" ∷ [];
  code_challenge_methods_supported = codes "S256" ∷ [];
  response_types_supported = codes "code" ∷ [];
  grant_types_supported = codes "authorization_code" ∷ codes "refresh_token" ∷ [];
  token_endpoint_auth_methods_supported = codes "none" ∷ codes "private_key_jwt" ∷ [];
  token_endpoint_auth_signing_alg_values_supported = codes "ES256" ∷ [];
  scopes_supported = codes "atproto" ∷ [];
  authorization_response_iss_parameter_supported = true;
  client_id_metadata_document_supported = true;
  require_request_uri_registration = true;
}

abbrev endpoints : DiscoveredAuthEndpoints
endpoints = record {
  did = did;
  handle = some (codes "alice.example.net");
  pds_endpoint = origin;
  auth_server_issuer = origin;
  par_endpoint = codes "https://pds.example/par";
  authorization_endpoint = codes "https://pds.example/authorize";
  token_endpoint = codes "https://pds.example/token";
  dpop_algs = codes "ES256" ∷ [];
  scopes = codes "atproto" ∷ [];
  protected_resource_metadata = resource;
  auth_server_metadata = server;
}

capable : validate_auth_server_capabilities net.parse server origin ≡ ok tt
unfolding validate_auth_server_capabilities check_issuer is_origin_only is_origin is_secure
    has_userinfo has_explicit_port contains_char split host_port_of strip_prefix normalize_origin
    check_endpoints trim validate_https_endpoint check_support lists
capable = refl

discovered :
    discover_oauth_endpoints net
      (λ bytes. some resource)
      (λ bytes. some server)
      doh
      document_of
      resolver
      alice
    ≡ some (ok endpoints)
unfolding discover_oauth_endpoints continue_with find_resource fetch_protected_resource_metadata
    get_resource get_json safe_get_json build_pinned_client resolve_and_pin validate_url
    is_blocked_hostname parse_ip trim_end_matches to_ascii_lowercase ends_with checked_addrs
    validate_ip is_ip_restricted is_restricted_ip is_restricted_ipv4_octets read_bounded_body
    with_server check_protected_resource check_resource check_servers fetch_auth_server_metadata
    get_server or_fallback fallback endpoints_of scopes_of validate_auth_server_capabilities
    check_issuer is_origin_only is_origin is_secure has_userinfo has_explicit_port contains_char
    split host_port_of strip_prefix normalize_origin check_endpoints trim validate_https_endpoint
    check_support lists
discovered = rw resolved_ok refl

discover_oauth_endpoints-IsTrusted_example :
    IsTrusted net
      (λ bytes. some resource)
      (λ bytes. some server)
      doh
      document_of
      resolver
      alice
      endpoints
discover_oauth_endpoints-IsTrusted_example =
    discover_oauth_endpoints-IsTrusted net (λ bytes. some resource) (λ bytes. some server) doh
      document_of resolver alice endpoints discovered

discover_oauth_endpoints_total_example :
    (r : Result DiscoveryError DiscoveredAuthEndpoints) × (discover_oauth_endpoints net
        (λ bytes. some resource)
        (λ bytes. some server)
        doh
        document_of
        resolver
        alice
      ≡ some r)
discover_oauth_endpoints_total_example =
    discover_oauth_endpoints_total net (λ bytes. some resource) (λ bytes. some server) doh
      document_of resolver alice
