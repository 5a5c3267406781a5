-- ===== src/Ssrf/Fetch.antt =====
-- src/ssrf.rs: resolution ahead of a request, the pinned client, the redirect loop of `safe_get`,
-- and the bounded body. The `reqwest` client and the network are the parameter `World`, one for
-- each request, since answers change between requests. The pool of clients is left out: the
-- resolver of the filter is passed along.
use skyauth.Base.{
  ℕ, zero, suc, Bool, not, ◌&&◌, Option, none, some, List, [], ◌∷◌, ◌++◌, length, leb, ltb,
  if◌then◌else◌, Result, ok, err, ◌>>=◌, ◌>>◌, fail_if, ok_or,
}
use skyauth.Base.Text.{Str, codes}
use skyauth.Kernels.IpFilter.{IpAddr}
use skyauth.Kernels.HtuComponents.{decimal_port_str}
use skyauth.Net.{SocketAddr, parse_ip}
use skyauth.Url.{Url, UrlParser}
use skyauth.Dpop.NonceSource.{saturating_add}
use skyauth.Ssrf.{
  SsrfError, SsrfFilter, invalid_url, dns_resolution_failed, too_many_redirects, http, http_status,
  json, response_too_large, validate_ip, validate_url,
}
use skyauth.Ssrf.Resolver.{Lookup, SsrfDnsResolver, checked_addrs, resolve, pin_host}

-- A chunk of a body, and the length that the response reports after it.
pub record Chunk : Type 0 where
  pub bytes : List ℕ
  pub content_length : Option ℕ

-- A header value that is not text is `some none`; a chunk that fails is `none`.
pub record Response : Type 0 where
  pub status : ℕ
  pub location : Option (Option Str)
  pub content_length : Option ℕ
  pub chunks : List (Option Chunk)

-- What one request meets: the two forms of a look-up, and the client, which is given the resolver
-- hook, the URL and the host header.
pub record World : Type 0 where
  pub lookup_target : Str → Lookup
  pub lookup_host : Str → ℕ → Lookup
  pub send : (Str → Result SsrfError (List SocketAddr)) → Url → Str → Result SsrfError Response

unfoldable pub unwrap_or {ℓ} : {A : Type ℓ} → Option A → A → A
unwrap_or none d = d
unwrap_or (some a) d = a

-- `format!("{host}:{p}")` when the port is explicit.
unfoldable pub host_header_of : Str → Option ℕ → Str
host_header_of host none = host
host_header_of host (some p) = host ++ decimal_port_str p

-- `addrs[0]`; the list is not empty.
unfoldable pub first_addr : (host : Str) → List SocketAddr → Result SsrfError SocketAddr
first_addr host [] = err (dns_resolution_failed host)
first_addr host (a ∷ addrs) = ok a

-- The address for a literal, or for the look-up of a name.
unfoldable pub pinned_addr :
    World → SsrfFilter → (host : Str) (port : ℕ) → Option IpAddr → Result SsrfError SocketAddr
unfolding first_addr
pinned_addr w f host port (some ip) = validate_ip f ip >> ok (record { ip = ip; port = port })
pinned_addr w f host port none =
    checked_addrs f host (w.lookup_target (host ++ decimal_port_str port)) >>= first_addr host

unfoldable pub resolve_and_pin : World → SsrfFilter → Url → Result SsrfError (SocketAddr × Str)
unfolding pinned_addr host_header_of unwrap_or
resolve_and_pin w f url =
    validate_url f url
    >> (ok_or url.host_str invalid_url >>= λ host.
        pinned_addr w f host (unwrap_or url.port_or_known_default 443) (parse_ip host) >>= λ addr.
        ok (addr, host_header_of host url.port))

unfoldable pub validate_url_and_dns : World → SsrfFilter → Url → Result SsrfError SocketAddr
validate_url_and_dns w f url = resolve_and_pin w f url >>= λ pinned. ok pinned.0

-- `if host_only.parse::<IpAddr>().is_err() { resolver.pin_host(…) }`.
unfoldable pub pin_name : SsrfDnsResolver → (host : Str) → Option IpAddr → IpAddr → SsrfDnsResolver
pin_name r host (some literal) ip = r
pin_name r host none ip = pin_host r host ip

unfoldable pub build_pinned_client :
    World → SsrfDnsResolver → Url → Result SsrfError (SsrfDnsResolver × (SocketAddr × Str))
unfolding pin_name unwrap_or
build_pinned_client w r url = resolve_and_pin w r.filter url >>= λ pinned.
    let host_only = unwrap_or url.host_str (codes "localhost") in
    ok (pin_name r host_only (parse_ip host_only) pinned.0.ip, pinned)

-- The loop over the chunks.
unfoldable pub read_chunks :
    (max_bytes : ℕ) (buffer : List ℕ) → List (Option Chunk) → Result SsrfError (List ℕ)
unfolding unwrap_or
read_chunks max_bytes buffer [] = ok buffer
read_chunks max_bytes buffer (none ∷ rest) = err http
read_chunks max_bytes buffer (some chunk ∷ rest) =
    let sum = saturating_add (length buffer) (length chunk.bytes) in
    fail_if (ltb max_bytes sum) (response_too_large max_bytes (unwrap_or chunk.content_length sum))
    >> read_chunks max_bytes (buffer ++ chunk.bytes) rest

-- `if let Some(content_length) = resp.content_length() { … }`.
unfoldable pub check_length : (max_bytes : ℕ) → Option ℕ → Result SsrfError (Unit {0})
check_length max_bytes none = ok tt
check_length max_bytes (some n) = fail_if (ltb max_bytes n) (response_too_large max_bytes n)

unfoldable pub read_bounded_body : Response → (max_bytes : ℕ) → Result SsrfError (List ℕ)
unfolding check_length read_chunks
read_bounded_body resp max_bytes =
    check_length max_bytes resp.content_length >> read_chunks max_bytes [] resp.chunks

-- A request as it was sent.
pub record Sent : Type 0 where
  pub url : Url
  pub pinned_addr : SocketAddr
  pub host_header : Str

-- The text of the `Location` header.
unfoldable pub location_of : Option (Option Str) → Result SsrfError Str
location_of none = err http
location_of (some none) = err http
location_of (some (some text)) = ok text

-- What a response that is not a redirection gives.
unfoldable pub finish : (max_bytes : ℕ) → Response → Result SsrfError (List ℕ)
finish max_bytes resp =
    fail_if (not (leb 200 resp.status && ltb resp.status 300)) (http_status resp.status)
    >> read_bounded_body resp max_bytes

-- `StatusCode::is_redirection`.
unfoldable pub is_redirection : ℕ → Bool
is_redirection status = leb 300 status && ltb status 400

-- How a round of the loop ends: with a result, or with a redirection to follow.
pub data Round : Type 0 where
  stopped : List Sent → Result SsrfError (List ℕ) → Round
  redirected : Sent → SsrfDnsResolver → Response → Round

module _ (join : Url → Str → Option Url) (max_bytes : ℕ) (worlds : ℕ → World) where
  unfoldable pub next_url : Url → Response → Result SsrfError Url
  unfolding location_of
  next_url url resp =
      location_of resp.location >>= λ location. ok_or (join url location) invalid_url

  -- One round of the loop, up to the decision on the status.
  unfoldable pub answered : Sent → SsrfDnsResolver → Result SsrfError Response → Round
  unfolding is_redirection finish
  answered sent r (err e) = stopped (sent ∷ []) (err e)
  answered sent r (ok resp) =
      if is_redirection resp.status
      then redirected sent r resp
      else stopped (sent ∷ []) (finish max_bytes resp)

  unfoldable pub request_with :
      World → Url → Result SsrfError (SsrfDnsResolver × (SocketAddr × Str)) → Round
  unfolding answered
  request_with w url (err e) = stopped [] (err e)
  request_with w url (ok built) =
      answered (record { url = url; pinned_addr = built.1.0; host_header = built.1.1 }) built.0
        (w.send (resolve w.lookup_host built.0) url built.1.1)

  unfoldable pub exchange : World → SsrfDnsResolver → Url → Round
  unfolding request_with
  exchange w r url = request_with w url (build_pinned_client w r url)

  -- The end of the body of the loop, with redirects left and with none left; `loop` is the next
  -- round.
  unfoldable pub last_round : Round → List Sent × Result SsrfError (List ℕ)
  last_round (stopped sent result) = (sent, result)
  last_round (redirected sent _ _) = (sent ∷ [], err too_many_redirects)

  unfoldable pub go_on :
      (loop : Url → List Sent × Result SsrfError (List ℕ))
      → Sent
      → Result SsrfError Url
      → List Sent × Result SsrfError (List ℕ)
  go_on loop sent (err e) = (sent ∷ [], err e)
  go_on loop sent (ok next) = let rest = loop next in (sent ∷ rest.0, rest.1)

  unfoldable pub next_round :
      (loop : SsrfDnsResolver → Url → List Sent × Result SsrfError (List ℕ))
      → Url
      → Round
      → List Sent × Result SsrfError (List ℕ)
  unfolding go_on next_url
  next_round loop url (stopped sent result) = (sent, result)
  next_round loop url (redirected sent r resp) = go_on (loop r) sent (next_url url resp)

  -- The loop, by recursion on `redirects_remaining`, with the requests that it sent. A request is
  -- sent in the world of that count.
  unfoldable pub follow :
      (redirects_remaining : ℕ) → SsrfDnsResolver → Url → List Sent × Result SsrfError (List ℕ)
  unfolding exchange last_round next_round
  follow zero r url = last_round (exchange (worlds zero) r url)
  follow (suc n) r url = next_round (follow n) url (exchange (worlds (suc n)) r url)

  unfoldable pub get_parsed : SsrfDnsResolver → Option Url → List Sent × Result SsrfError (List ℕ)
  unfolding follow
  get_parsed r none = ([], err invalid_url)
  get_parsed r (some url) = follow 3 r url

  unfoldable pub safe_get :
      UrlParser → SsrfDnsResolver → (url_str : Str) → List Sent × Result SsrfError (List ℕ)
  unfolding get_parsed
  safe_get parse r url_str = get_parsed r (parse url_str)

  unfoldable pub safe_get_json {ℓ} :
      {T : Type ℓ} (from_slice : List ℕ → Option T) (parse : UrlParser)
      → SsrfDnsResolver
      → (url_str : Str) → List Sent × Result SsrfError T
  unfolding safe_get
  safe_get_json from_slice parse r url_str =
      let got = safe_get parse r url_str in
      (got.0, got.1 >>= λ bytes. ok_or (from_slice bytes) json)

abbrev pub max_oauth_response_bytes : ℕ
max_oauth_response_bytes = 1048576
