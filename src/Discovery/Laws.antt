-- ===== src/Discovery/Laws.antt =====
-- What discovered endpoints have been checked for, and that discovery does not panic.
use mathlib.Core.List.{Memᴰ}
use skyauth.Base.{
  ◌≡◌, ◌⊎◌, ◌∷◌, refl, sym, subst, true, false, ◌||◌, Option, none, some, arith, List, [], list_eq,
  list_eq_sound, list_eq_refl, is_some, ok, Bool-cases, Option-cases, inl, inr,
}
use skyauth.Base.Text.{Str, codes, is_empty}
use skyauth.Url.{Url, UrlParser}
use skyauth.Discovery.{AuthorizationServerMetadata}
use skyauth.Discovery.Origins.{
  is_loopback_host, host_of, is_secure, has_userinfo, is_origin, is_origin_only, normalize_origin,
  validate_https_endpoint,
}
use skyauth.Discovery.Fetch.{
  lists, check_issuer, check_endpoints, check_support, validate_auth_server_capabilities,
}

-- HTTPS, or HTTP to the same machine.
abbrev pub IsSecure : Url → Type 0
IsSecure u =
    (u.scheme ≡ codes "https") ⊎ ((u.scheme ≡ codes "http") × (is_loopback_host (host_of u) ≡ true))

abbrev pub HasNoUserinfo : Url → Type 0
HasNoUserinfo u = (u.username ≡ []) × (u.password ≡ none)

is_secure-IsSecure : (u : Url) → is_secure u ≡ true → IsSecure u
unfolding is_secure
is_secure-IsSecure u h = elim (Bool-cases (list_eq u.scheme (codes "https"))) [
  | inl e ↦ inl (list_eq_sound u.scheme (codes "https") e)
  | inr e ↦ inr (list_eq_sound u.scheme (codes "http") (ground arith), ground arith)
]

is_empty-eq : (s : Str) → is_empty s ≡ true → s ≡ []
is_empty-eq [] h = refl
is_empty-eq (c ∷ s) h = cc

is_some-none : (o : Option Str) → is_some o ≡ false → o ≡ none
is_some-none none h = refl
is_some-none (some a) h = cc

has_userinfo-HasNoUserinfo : (u : Url) → has_userinfo u ≡ false → HasNoUserinfo u
unfolding has_userinfo
has_userinfo-HasNoUserinfo u h =
    (is_empty-eq u.username (ground arith), is_some-none u.password (ground arith))

empty_or_slash :
    (path : Str)
    → (is_empty path || list_eq path (codes "/")) ≡ true
    → (path ≡ []) ⊎ (path ≡ codes "/")
empty_or_slash [] h = inl refl
empty_or_slash (c ∷ s) h = inr (list_eq_sound (c ∷ s) (codes "/") h)

is_origin-ok :
    (s : Str) (u : Url)
    → is_origin s u ≡ true
    → (is_secure u ≡ true)
      × (has_userinfo u ≡ false)
      × ((is_empty u.path || list_eq u.path (codes "/")) ≡ true)
      × (is_some u.query ≡ false)
      × (is_some u.fragment ≡ false)
unfolding is_origin
is_origin-ok s u h = ground arith

lists-Memᴰ : (words : List Str) (word : Str) → lists words word ≡ true → Memᴰ word words
unfolding lists
lists-Memᴰ [] word h = cc
lists-Memᴰ (w ∷ words) word h = elim (Bool-cases (list_eq w word)) [
  | inl e ↦ Memᴰ.head (sym (list_eq_sound w word e))
  | inr e ↦ Memᴰ.tail (lists-Memᴰ words word (ground arith))
]

Memᴰ-lists : (words : List Str) (word : Str) → Memᴰ word words → lists words word ≡ true
unfolding lists
Memᴰ-lists [] word m = elim m [ ]
Memᴰ-lists (w ∷ words) word (Memᴰ.head e) =
    let same : list_eq w word ≡ true = subst (λ v. list_eq v word ≡ true) e (list_eq_refl word) in
    ground arith
Memᴰ-lists (w ∷ words) word (Memᴰ.tail m) = let rest = Memᴰ-lists words word m in ground arith

module _ (parse : UrlParser) where
  -- An endpoint over HTTPS or to the same machine, with a host and no credentials.
  abbrev pub IsEndpoint : Str → Type 0
  IsEndpoint s =
      (u : Url) × (parse s ≡ some u) × IsSecure u × HasNoUserinfo u × (is_some u.host_str ≡ true)

  -- An origin: such a URL with no path, query or fragment.
  abbrev pub IsOrigin : Str → Type 0
  IsOrigin s =
      (u : Url) × (parse s ≡ some u)
      × IsSecure u
      × HasNoUserinfo u
      × ((u.path ≡ []) ⊎ (u.path ≡ codes "/"))
      × (u.query ≡ none)
      × (u.fragment ≡ none)

  validate_https_endpoint-IsEndpoint :
      (s : Str) → validate_https_endpoint parse s ≡ ok tt → IsEndpoint s
  unfolding validate_https_endpoint
  validate_https_endpoint-IsEndpoint s h = elim (Option-cases (parse s)) [
    | inl e ↦ absurd (ground arith)
    | inr e ↦
        let (u, parsed) = e in
        (
          u,
          parsed,
          is_secure-IsSecure u (ground arith),
          has_userinfo-HasNoUserinfo u (ground arith),
          ground arith,
        )
  ]

  pub is_origin_only-IsOrigin : (s : Str) → is_origin_only parse s ≡ true → IsOrigin s
  unfolding is_origin_only
  is_origin_only-IsOrigin s h = elim (Option-cases (parse s)) [
    | inl e ↦ absurd (ground arith)
    | inr e ↦
        let (u, parsed) = e in
        let (secure, user, path, query, fragment) = is_origin-ok s u (ground arith) in
        (
          u,
          parsed,
          is_secure-IsSecure u secure,
          has_userinfo-HasNoUserinfo u user,
          empty_or_slash u.path path,
          is_some-none u.query query,
          is_some-none u.fragment fragment,
        )
  ]

  -- The issuer has the origin that was asked, pushed requests are required, the endpoints are secure,
  -- and the server says that it supports what the profile asks for.
  pub record IsCapable (meta : AuthorizationServerMetadata) (auth_server_url : Str) : Type 0 where
    pub issuer : IsOrigin meta.issuer
    pub same_origin : normalize_origin parse auth_server_url ≡ normalize_origin parse meta.issuer
    pub par_endpoint : IsEndpoint meta.pushed_authorization_request_endpoint
    pub par_required : meta.require_pushed_authorization_requests ≡ true
    pub token_endpoint : IsEndpoint meta.token_endpoint
    pub authorization_endpoint : IsEndpoint meta.authorization_endpoint
    pub code : Memᴰ (codes "code") meta.response_types_supported
    pub authorization_code : Memᴰ (codes "authorization_code") meta.grant_types_supported
    pub refresh_token : Memᴰ (codes "refresh_token") meta.grant_types_supported
    pub public_client : Memᴰ (codes "none") meta.token_endpoint_auth_methods_supported
    pub confidential_client :
        Memᴰ (codes "private_key_jwt") meta.token_endpoint_auth_methods_supported
    pub signed : Memᴰ (codes "ES256") meta.token_endpoint_auth_signing_alg_values_supported
    pub never_unsigned :
        Memᴰ (codes "none") meta.token_endpoint_auth_signing_alg_values_supported → ⊥
    pub scope : Memᴰ (codes "atproto") meta.scopes_supported
    pub iss : meta.authorization_response_iss_parameter_supported ≡ true
    pub client_metadata : meta.client_id_metadata_document_supported ≡ true
    pub registration : meta.require_request_uri_registration ≡ true
    pub dpop : Memᴰ (codes "ES256") meta.dpop_signing_alg_values_supported
    pub pkce : Memᴰ (codes "S256") meta.code_challenge_methods_supported

  check_issuer-IsOrigin :
      (meta : AuthorizationServerMetadata) (server : Str)
      → check_issuer parse meta server ≡ ok tt
      → IsOrigin meta.issuer × (normalize_origin parse server ≡ normalize_origin parse meta.issuer)
  unfolding check_issuer
  check_issuer-IsOrigin meta server h = (
    is_origin_only-IsOrigin meta.issuer (ground arith),
    list_eq_sound (normalize_origin parse server) (normalize_origin parse meta.issuer)
        (ground arith),
  )

  check_endpoints-IsEndpoint :
      (meta : AuthorizationServerMetadata) (server : Str)
      → check_endpoints parse meta server ≡ ok tt
      → IsEndpoint meta.pushed_authorization_request_endpoint
        × (meta.require_pushed_authorization_requests ≡ true)
        × IsEndpoint meta.token_endpoint
        × IsEndpoint meta.authorization_endpoint
  unfolding check_endpoints
  check_endpoints-IsEndpoint meta server h = (
    validate_https_endpoint-IsEndpoint meta.pushed_authorization_request_endpoint (ground arith),
    ground arith,
    validate_https_endpoint-IsEndpoint meta.token_endpoint (ground arith),
    validate_https_endpoint-IsEndpoint meta.authorization_endpoint (ground arith),
  )

  -- The capabilities, once the issuer and the endpoints are known to be good.
  validate-IsCapable :
      (meta : AuthorizationServerMetadata) (server : Str)
      → check_issuer parse meta server ≡ ok tt
      → check_endpoints parse meta server ≡ ok tt
      → check_support parse meta server ≡ ok tt
      → IsCapable meta server
  unfolding check_support
  validate-IsCapable meta server i e h =
      let (issuer, same_origin) = check_issuer-IsOrigin meta server i in
      let (par, required, token, authorization) = check_endpoints-IsEndpoint meta server e in
      record {
        issuer = issuer;
        same_origin = same_origin;
        par_endpoint = par;
        par_required = required;
        token_endpoint = token;
        authorization_endpoint = authorization;
        code = lists-Memᴰ meta.response_types_supported (codes "code") (ground arith);
        authorization_code =
            lists-Memᴰ meta.grant_types_supported (codes "authorization_code") (ground arith);
        refresh_token =
            lists-Memᴰ meta.grant_types_supported (codes "refresh_token") (ground arith);
        public_client =
            lists-Memᴰ meta.token_endpoint_auth_methods_supported (codes "none") (ground arith);
        confidential_client =
            lists-Memᴰ meta.token_endpoint_auth_methods_supported (codes "private_key_jwt")
              (ground arith);
        signed =
            lists-Memᴰ meta.token_endpoint_auth_signing_alg_values_supported (codes "ES256")
              (ground arith);
        never_unsigned = λ m.
            let there =
              Memᴰ-lists meta.token_endpoint_auth_signing_alg_values_supported (codes "none") m in
            absurd (ground arith);
        scope = lists-Memᴰ meta.scopes_supported (codes "atproto") (ground arith);
        iss = ground arith;
        client_metadata = ground arith;
        registration = ground arith;
        dpop = lists-Memᴰ meta.dpop_signing_alg_values_supported (codes "ES256") (ground arith);
        pkce = lists-Memᴰ meta.code_challenge_methods_supported (codes "S256") (ground arith);
      }

  pub validate_auth_server_capabilities-IsCapable :
      (meta : AuthorizationServerMetadata) (server : Str)
      → validate_auth_server_capabilities parse meta server ≡ ok tt
      → IsCapable meta server
  unfolding validate_auth_server_capabilities
  validate_auth_server_capabilities-IsCapable meta server h =
      validate-IsCapable meta server (ground arith) (ground arith) (ground arith)
