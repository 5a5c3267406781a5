-- ===== src/Examples/Ssrf.antt =====
-- The properties of outbound requests at a concrete host: a public address and a small response.
use skyauth.Maps.{get, insert, contains_key}
use skyauth.Base.{
  ℕ, ◌≤◌, ◌≡◌, ◌↔◌, refl, false, Option, some, none, List, [], ◌∷◌, ok, arith, length, All,
}
use skyauth.Base.Text.{Str, codes, trim_end_matches, to_ascii_lowercase, ends_with}
use skyauth.Kernels.IpFilter.{IpAddr, v4, is_restricted_ip, is_restricted_ipv4_octets}
use skyauth.Net.{SocketAddr, parse_ip}
use skyauth.Url.{Url, UrlParser}
use skyauth.Ssrf.{is_blocked_hostname, validate_ip, is_ip_restricted, validate_url}
use skyauth.Ssrf.Resolver.{
  Lookup, found, SsrfDnsResolver, resolve, host_key, get_pinned_ip, checked_addrs, pin_host,
}
use skyauth.Ssrf.Fetch.{
  World, Response, safe_get, read_bounded_body, build_pinned_client, resolve_and_pin,
}
use skyauth.Ssrf.Laws.{IsOpen, resolve-IsOpen, resolve-build_pinned_client}
use skyauth.Ssrf.Loop.{IsSafe, Declares, body_of, safe_get-bounded, read_bounded_body_iff}

abbrev pub url : Url
url = record {
  scheme = codes "https";
  host_str = some (codes "pds.example");
  port = none;
  port_or_known_default = some 443;
  path = codes "/";
  username = [];
  password = none;
  query = none;
  fragment = none;
  ascii_origin = codes "https://pds.example";
}

abbrev public_ip : IpAddr
public_ip = v4 (record { o0 = 93; o1 = 184; o2 = 216; o3 = 34 })

abbrev answer : Lookup
answer = found (record { ip = public_ip; port = 443 } ∷ [])

abbrev pub response : Response
response = record {
  status = 200;
  location = none;
  content_length = some 2;
  chunks = some (record { bytes = 1 ∷ 2 ∷ []; content_length = some 0 }) ∷ [];
}

abbrev pub world : World
world = record {
  lookup_target = λ host. answer;
  lookup_host = λ host port. answer;
  send = λ hook u header. ok response;
}

abbrev pub resolver : SsrfDnsResolver
resolver = record { filter = record { allow_insecure_localhost = false }; pinned_ips = [] }

abbrev pub parse : UrlParser
parse s = some url

abbrev pub join : Url → Str → Option Url
join u s = some url

safe_get-bounded_example :
    All (IsSafe resolver.filter) (safe_get join 1024 (λ n. world) parse resolver (codes "u")).0
    × (length (safe_get join 1024 (λ n. world) parse resolver (codes "u")).0 ≤ 4)
    × ((body : List ℕ)
        → (safe_get join 1024 (λ n. world) parse resolver (codes "u")).1 ≡ ok body
        → length body ≤ 1024)
safe_get-bounded_example =
    safe_get-bounded join 1024 (λ n. world) parse resolver (codes "u") (omega arith)

read_bounded_body_iff_example : (read_bounded_body response 1024 ≡ ok (1 ∷ 2 ∷ [])) ↔ (
    Declares 1024 response.content_length
    × (body_of response.chunks ≡ some (1 ∷ 2 ∷ []))
    × (length {A = ℕ} (1 ∷ 2 ∷ []) ≤ 1024))
read_bounded_body_iff_example = read_bounded_body_iff response 1024 (1 ∷ 2 ∷ []) (omega arith)

resolve-IsOpen_example : All (IsOpen resolver.filter) (record { ip = public_ip; port = 443 } ∷ [])
unfolding resolve is_blocked_hostname trim_end_matches to_ascii_lowercase host_key ends_with
    get_pinned_ip get validate_ip is_ip_restricted is_restricted_ip is_restricted_ipv4_octets
resolve-IsOpen_example =
    resolve-IsOpen (λ host port. answer) resolver (codes "pds.example")
      (record { ip = public_ip; port = 443 } ∷ []) refl

abbrev pinned : SocketAddr
pinned = record { ip = public_ip; port = 443 }

abbrev built_client : SsrfDnsResolver × (SocketAddr × Str)
built_client = (
  record {
    filter = record { allow_insecure_localhost = false };
    pinned_ips = (codes "pds.example", public_ip) ∷ [];
  },
  (pinned, codes "pds.example"),
)

resolve-build_pinned_client_example :
    resolve (λ host port. answer) built_client.0 (codes "pds.example")
    ≡ ok (record { ip = public_ip; port = 0 } ∷ [])
unfolding parse_ip build_pinned_client resolve_and_pin validate_url is_blocked_hostname
    trim_end_matches to_ascii_lowercase ends_with checked_addrs validate_ip is_ip_restricted
    is_restricted_ip is_restricted_ipv4_octets pin_host insert contains_key host_key
resolve-build_pinned_client_example =
    resolve-build_pinned_client world (λ host port. answer) resolver url (codes "pds.example")
      built_client refl refl refl
