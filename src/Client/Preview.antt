-- ===== src/Client/Preview.antt =====
-- src/client.rs: `preview_login`, what a user is shown before a login, and the host names of
-- src/discovery.rs that it shows.
use skyauth.Base.{ℕ, Option, none, some, List, Result, ok, err}
use skyauth.Base.Text.{Str}
use skyauth.Ssrf.Network.{Network}
use skyauth.Ssrf.Fetch.{unwrap_or}
use skyauth.Url.{Url, UrlParser}
use skyauth.Identity.{DidDocument}
use skyauth.Identity.Resolver.{Doh, IdentityResolver}
use skyauth.Discovery.{
  DiscoveryError, ProtectedResourceMetadata, AuthorizationServerMetadata, DiscoveredAuthEndpoints,
}
use skyauth.Discovery.Fetch.{discover_oauth_endpoints}

pub record OauthLoginPreview : Type 0 where
  pub did : Str
  pub handle : Option Str
  pub pds_endpoint : Str
  pub pds_host : Str
  pub auth_server_issuer : Str
  pub auth_server_host : Str
  pub authorization_endpoint : Str

-- `and_then(|u| u.host_str()…)`.
unfoldable pub host_name : Option Url → Option Str
host_name none = none
host_name (some url) = url.host_str

unfoldable pub host_of_pds : UrlParser → DiscoveredAuthEndpoints → Option Str
unfolding host_name
host_of_pds parse endpoints = host_name (parse endpoints.pds_endpoint)

unfoldable pub host_of_auth_server : UrlParser → DiscoveredAuthEndpoints → Option Str
unfolding host_name
host_of_auth_server parse endpoints = host_name (parse endpoints.auth_server_issuer)

unfoldable pub preview_of : UrlParser → DiscoveredAuthEndpoints → OauthLoginPreview
preview_of parse endpoints = record {
  did = endpoints.did;
  handle = endpoints.handle;
  pds_endpoint = endpoints.pds_endpoint;
  pds_host = unwrap_or (host_of_pds parse endpoints) endpoints.pds_endpoint;
  auth_server_issuer = endpoints.auth_server_issuer;
  auth_server_host = unwrap_or (host_of_auth_server parse endpoints) endpoints.auth_server_issuer;
  authorization_endpoint = endpoints.authorization_endpoint;
}

-- `discover_oauth_endpoints(…).await?`; a panic stays one.
unfoldable pub previewed :
    UrlParser
    → Option (Result DiscoveryError DiscoveredAuthEndpoints)
    → Option (Result DiscoveryError OauthLoginPreview)
previewed parse none = none
previewed parse (some (err e)) = some (err e)
previewed parse (some (ok endpoints)) = some (ok (preview_of parse endpoints))

module _ (net : Network) (resource_from_slice : List ℕ → Option ProtectedResourceMetadata)
    (server_from_slice : List ℕ → Option AuthorizationServerMetadata) (doh : Doh)
    (from_slice : List ℕ → Option DidDocument) (resolver : IdentityResolver) where
  unfoldable pub preview_login :
      (handle_or_did : Str) → Option (Result DiscoveryError OauthLoginPreview)
  unfolding previewed
  preview_login handle_or_did = previewed net.parse (
      discover_oauth_endpoints net resource_from_slice server_from_slice doh from_slice resolver
        handle_or_did)
