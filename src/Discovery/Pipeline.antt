-- ===== src/Discovery/Pipeline.antt =====
-- The whole discovery: it ends with a result, and what the endpoints of a result stand on.
use skyauth.Base.{
  ℕ, ◌≡◌, ◌∷◌, ◌∙◌, refl, sym, ap, subst, Option, some, arith, List, [], list_eq_sound, Result, ok,
  err, ◌>>=◌, bind-ok, then-ok, map_err-ok, ok-injective, some-injective, Result-cases, inl, inr,
  map_err,
}
use skyauth.Base.Text.{Str, trim}
use skyauth.Ssrf.{SsrfFilter}
use skyauth.Ssrf.Network.{Network}
use skyauth.Url.{UrlParser}
use skyauth.Identity.{DidDocument}
use skyauth.Identity.Resolver.{Doh, IdentityResolver, ResolvedIdentity, resolve_ident}
use skyauth.Identity.Resolver.Laws.{IsSound, resolve_ident-IsSound}
use skyauth.Discovery.{
  DiscoveryError, identity, ProtectedResourceMetadata, AuthorizationServerMetadata,
  DiscoveredAuthEndpoints,
}
use skyauth.Discovery.Origins.{normalize_origin}
use skyauth.Discovery.Fetch.{
  validate_auth_server_capabilities, check_servers, check_resource, check_protected_resource,
  fetch_protected_resource_metadata, fetch_auth_server_metadata, get_resource, get_server,
  endpoints_of, with_server, find_resource, continue_with, discover_oauth_endpoints,
}
use skyauth.Discovery.Laws.{
  IsCapable, IsOrigin, is_origin_only-IsOrigin, validate_auth_server_capabilities-IsCapable,
}

-- One server, which is an origin.
check_servers-ok :
    (parse : UrlParser) (pds_endpoint : Str) (meta : ProtectedResourceMetadata) (servers : List Str)
    → check_servers parse pds_endpoint meta servers ≡ ok tt
    → (server : Str) × (servers ≡ server ∷ []) × IsOrigin parse server
unfolding check_servers
check_servers-ok parse pds_endpoint meta [] h = cc
check_servers-ok parse pds_endpoint meta (a ∷ []) h =
    (a, refl, is_origin_only-IsOrigin parse a (ground arith))
check_servers-ok parse pds_endpoint meta (a ∷ b ∷ rest) h = cc

-- The metadata of a resource: one server, and the origin that was asked.
abbrev pub IsResource :
    UrlParser → (pds_endpoint : Str) → ProtectedResourceMetadata → (server : Str) → Type 0
IsResource parse pds_endpoint meta server =
    (meta.authorization_servers ≡ server ∷ [])
    × IsOrigin parse server
    × IsOrigin parse meta.resource
    × (normalize_origin parse pds_endpoint ≡ normalize_origin parse meta.resource)

check_protected_resource-IsResource :
    (parse : UrlParser) (pds_endpoint : Str) (meta : ProtectedResourceMetadata)
    → check_protected_resource parse pds_endpoint meta ≡ ok tt
    → (server : Str) × IsResource parse pds_endpoint meta server
unfolding check_protected_resource check_resource
check_protected_resource-IsResource parse pds_endpoint meta h =
    let (server, one, origin) =
      check_servers-ok parse pds_endpoint meta meta.authorization_servers (ground arith) in
    (
      server,
      (
        one,
        origin,
        is_origin_only-IsOrigin parse meta.resource (ground arith),
        list_eq_sound (normalize_origin parse pds_endpoint) (normalize_origin parse meta.resource)
            (ground arith),
      ),
    )

module _ (net : Network) (resource_from_slice : List ℕ → Option ProtectedResourceMetadata)
    (server_from_slice : List ℕ → Option AuthorizationServerMetadata) (doh : Doh)
    (from_slice : List ℕ → Option DidDocument) (resolver : IdentityResolver) where
  fetch_protected_resource_metadata-IsResource :
      (f : SsrfFilter) (pds_endpoint : Str) (meta : ProtectedResourceMetadata)
      → fetch_protected_resource_metadata net resource_from_slice server_from_slice f pds_endpoint
        ≡ ok meta
      → (server : Str) × IsResource net.parse pds_endpoint meta server
  unfolding fetch_protected_resource_metadata
  fetch_protected_resource_metadata-IsResource f pds_endpoint meta h =
      let (m, got, rest) =
        bind-ok (get_resource net resource_from_slice server_from_slice f pds_endpoint) _ h in
      let (checked, done) = then-ok (check_protected_resource net.parse pds_endpoint m) _ rest in
      subst (λ m. (server : Str) × IsResource net.parse pds_endpoint m server) (ok-injective done)
        (check_protected_resource-IsResource net.parse pds_endpoint m checked)

  fetch_auth_server_metadata-IsCapable :
      (f : SsrfFilter) (server : Str) (meta : AuthorizationServerMetadata)
      → fetch_auth_server_metadata net resource_from_slice server_from_slice f server ≡ ok meta
      → IsCapable net.parse meta server
  unfolding fetch_auth_server_metadata
  fetch_auth_server_metadata-IsCapable f server meta h =
      let (m, got, rest) =
        bind-ok (get_server net resource_from_slice server_from_slice f server) _ h in
      let (checked, done) = then-ok (validate_auth_server_capabilities net.parse m server) _ rest in
      subst (λ m. IsCapable net.parse m server) (ok-injective done)
        (validate_auth_server_capabilities-IsCapable net.parse m server checked)

  -- What the endpoints of a discovery stand on.
  pub record IsTrusted (did_or_handle : Str) (found : DiscoveredAuthEndpoints) : Type 0 where
    pub id : ResolvedIdentity
    pub resolved : IsSound net doh from_slice resolver (trim did_or_handle) id
    pub subject :
        (found.did ≡ id.did) × (found.handle ≡ id.handle) × (found.pds_endpoint ≡ id.pds_endpoint)
    pub server : Str
    pub resource : IsResource net.parse found.pds_endpoint found.protected_resource_metadata server
    pub capable : IsCapable net.parse found.auth_server_metadata server
    pub endpoints :
        (found.auth_server_issuer ≡ found.auth_server_metadata.issuer)
        × (found.par_endpoint ≡ found.auth_server_metadata.pushed_authorization_request_endpoint)
        × (found.authorization_endpoint ≡ found.auth_server_metadata.authorization_endpoint)
        × (found.token_endpoint ≡ found.auth_server_metadata.token_endpoint)

  abbrev find :
      (did_or_handle : Str) → Result DiscoveryError (ResolvedIdentity × ProtectedResourceMetadata)
  find = find_resource net resource_from_slice server_from_slice doh from_slice resolver

  abbrev discover : (did_or_handle : Str) → Option (Result DiscoveryError DiscoveredAuthEndpoints)
  discover =
      discover_oauth_endpoints net resource_from_slice server_from_slice doh from_slice resolver

  find_resource-ok :
      (did_or_handle : Str) (id : ResolvedIdentity) (meta : ProtectedResourceMetadata)
      → find did_or_handle ≡ ok (id, meta)
      → IsSound net doh from_slice resolver (trim did_or_handle) id
        × ((server : Str) × IsResource net.parse id.pds_endpoint meta server)
  unfolding find_resource
  find_resource-ok did_or_handle id meta h =
      let (r, got, rest) =
        bind-ok (map_err identity (resolve_ident net doh from_slice resolver did_or_handle)) _ h in
      let (m, fetched, done) =
        bind-ok
          (fetch_protected_resource_metadata net resource_from_slice server_from_slice
            resolver.ssrf_filter r.pds_endpoint)
          _ rest in
      let pair = ok-injective done in
      let found =
        resolve_ident-IsSound net doh from_slice resolver did_or_handle r
          (map_err-ok identity _ got) in
      let resource =
        fetch_protected_resource_metadata-IsResource resolver.ssrf_filter r.pds_endpoint m
          fetched in
      subst
        (λ (p : ResolvedIdentity × ProtectedResourceMetadata).
          IsSound net doh from_slice resolver (trim did_or_handle) p.0
          × ((server : Str) × IsResource net.parse p.0.pds_endpoint p.1 server))
        pair (found, resource)

  abbrev finish :
      ResolvedIdentity
      → ProtectedResourceMetadata
      → (server : Str) → Result DiscoveryError DiscoveredAuthEndpoints
  finish id meta server =
      fetch_auth_server_metadata net resource_from_slice server_from_slice resolver.ssrf_filter
        server
      >>= λ as_meta. ok (endpoints_of net resource_from_slice server_from_slice id meta as_meta)

  -- With a resource found, its one server is asked.
  discover-finish :
      (did_or_handle server : Str) (id : ResolvedIdentity) (meta : ProtectedResourceMetadata)
      → find did_or_handle ≡ ok (id, meta)
      → meta.authorization_servers ≡ server ∷ []
      → discover did_or_handle ≡ some (finish id meta server)
  unfolding discover_oauth_endpoints continue_with with_server
  discover-finish did_or_handle server id meta q one =
      ap
        (continue_with net resource_from_slice server_from_slice doh from_slice
          resolver.ssrf_filter)
        q
      ∙ ap (with_server net resource_from_slice server_from_slice resolver.ssrf_filter id meta) one

  finish-IsTrusted :
      (did_or_handle server : Str) (id : ResolvedIdentity) (meta : ProtectedResourceMetadata)
      (found : DiscoveredAuthEndpoints)
      → IsSound net doh from_slice resolver (trim did_or_handle) id
      → IsResource net.parse id.pds_endpoint meta server
      → finish id meta server ≡ ok found
      → IsTrusted did_or_handle found
  unfolding endpoints_of
  finish-IsTrusted did_or_handle server id meta found resolved resource h =
      let (as_meta, got, done) =
        bind-ok
          (fetch_auth_server_metadata net resource_from_slice server_from_slice resolver.ssrf_filter
            server)
          _ h in
      subst (IsTrusted did_or_handle) (ok-injective done) (record {
        id = id;
        resolved = resolved;
        subject = (refl, refl, refl);
        server = server;
        resource = resource;
        capable = fetch_auth_server_metadata-IsCapable resolver.ssrf_filter server as_meta got;
        endpoints = (refl, refl, refl, refl);
      })

  -- If discovery returns endpoints, they are those of a soundly resolved identity: the metadata of
  -- its resource server names one authorization server, which is an origin, and the origin of the
  -- resource server itself; the metadata of the authorization server has its origin as issuer and
  -- everything that the profile demands; and the endpoints are taken from it.
  pub discover_oauth_endpoints-IsTrusted :
      (did_or_handle : Str) (found : DiscoveredAuthEndpoints)
      → discover_oauth_endpoints net resource_from_slice server_from_slice doh from_slice resolver
          did_or_handle
        ≡ some (ok found)
      → IsTrusted did_or_handle found
  unfolding discover_oauth_endpoints continue_with
  discover_oauth_endpoints-IsTrusted did_or_handle found h =
      elim (Result-cases (find did_or_handle)) [
        | inr r ↦ let (e, q) = r in absurd (ground arith)
        | inl r ↦
            let ((id, meta), q) = r in
            let (resolved, (server, resource)) = find_resource-ok did_or_handle id meta q in
            let reached = discover-finish did_or_handle server id meta q resource.0 in
            finish-IsTrusted did_or_handle server id meta found resolved resource
              (some-injective (sym reached ∙ h))
      ]

  -- For every input, discovery ends with endpoints or with an error: it never reads the first
  -- server of an empty list.
  pub discover_oauth_endpoints_total :
      (did_or_handle : Str)
      → (r : Result DiscoveryError DiscoveredAuthEndpoints) × (discover_oauth_endpoints net
            resource_from_slice server_from_slice doh from_slice resolver did_or_handle
          ≡ some r)
  unfolding discover_oauth_endpoints continue_with
  discover_oauth_endpoints_total did_or_handle = elim (Result-cases (find did_or_handle)) [
    | inr r ↦ let (e, q) = r in (err e, rw q refl)
    | inl r ↦
        let ((id, meta), q) = r in
        let (resolved, (server, resource)) = find_resource-ok did_or_handle id meta q in
        (finish id meta server, discover-finish did_or_handle server id meta q resource.0)
  ]
