-- ===== src/Ssrf/Resolver.antt =====
-- src/ssrf.rs: `SsrfDnsResolver`, the hook that resolves every host a pooled client connects to,
-- with the addresses that were pinned beforehand. The system's DNS is a parameter; a look-up runs
-- out of time, fails, or finds a list of addresses.
use skyauth.Base.{
  ℕ, Bool, true, false, not, ◌&&◌, Option, none, some, List, [], ◌∷◌, ◌++◌, length, leb,
  if◌then◌else◌, Result, ok, err, ◌>>◌, fail_if,
}
use skyauth.Base.Text.{Str, to_ascii_lowercase, trim_end_matches}
use skyauth.Kernels.IpFilter.{IpAddr}
use skyauth.Maps.{HashMap, get, contains_key, insert, remove}
use skyauth.Net.{SocketAddr, is_ipv4}
use skyauth.Ssrf.{
  SsrfError, SsrfFilter, blocked_host, dns_resolution_failed, validate_ip, is_blocked_hostname,
  metadata_or_internal,
}

abbrev pub max_pinned_hosts : ℕ
max_pinned_hosts = 1024

-- The result of `timeout(lookup_host(…))`.
pub data Lookup : Type 0 where
  timed_out failed : Lookup
  found : List SocketAddr → Lookup

pub record SsrfDnsResolver : Type 0 where
  pub filter : SsrfFilter
  pub pinned_ips : HashMap IpAddr

unfoldable pub new : SsrfFilter → SsrfDnsResolver
new filter = record { filter = filter; pinned_ips = [] }

-- `host.trim_end_matches('.').to_ascii_lowercase()`.
unfoldable pub host_key : Str → Str
host_key host = to_ascii_lowercase (trim_end_matches b'.' host)

-- `if let Some(victim) = guard.keys().next().cloned() { guard.remove(&victim); }`.
unfoldable pub remove_first : HashMap IpAddr → HashMap IpAddr
remove_first [] = []
remove_first (e ∷ m) = remove e.0 (e ∷ m)

unfoldable pub make_room : Str → HashMap IpAddr → HashMap IpAddr
unfolding remove_first
make_room key pins =
    if not (contains_key key pins) && leb max_pinned_hosts (length pins)
    then remove_first pins
    else pins

unfoldable pub pin_host : SsrfDnsResolver → Str → IpAddr → SsrfDnsResolver
unfolding make_room
pin_host r host ip = elim (validate_ip r.filter ip) [
  | err e ↦ r
  | ok _ ↦ record r {
    pinned_ips = insert (host_key host) ip (make_room (host_key host) r.pinned_ips);
  }
]

unfoldable pub get_pinned_ip : SsrfDnsResolver → Str → Option IpAddr
get_pinned_ip r host = get (host_key host) r.pinned_ips

-- The loop over the addresses: the first restricted one is the error.
unfoldable pub validate_all : SsrfFilter → List SocketAddr → Result SsrfError (Unit {0})
validate_all f [] = ok tt
validate_all f (a ∷ addrs) = validate_ip f a.ip >> validate_all f addrs

-- The stable sort by `if a.is_ipv4() { 0 } else { 1 }`.
unfoldable pub keep_family : Bool → List SocketAddr → List SocketAddr
keep_family want [] = []
keep_family want (a ∷ addrs) =
    let rest = keep_family want addrs in
    if is_ipv4 a.ip then (if want then a ∷ rest else rest) else (if want then rest else a ∷ rest)

unfoldable pub sort_ipv4_first : List SocketAddr → List SocketAddr
sort_ipv4_first addrs = keep_family true addrs ++ keep_family false addrs

-- The addresses of a look-up once all of them are validated; both callers share these lines.
unfoldable pub checked_addrs :
    SsrfFilter → (host : Str) → Lookup → Result SsrfError (List SocketAddr)
unfolding validate_all sort_ipv4_first
checked_addrs f host timed_out = err (dns_resolution_failed host)
checked_addrs f host failed = err (dns_resolution_failed host)
checked_addrs f host (found []) = err (dns_resolution_failed host)
checked_addrs f host (found (a ∷ rest)) =
    let addrs = a ∷ rest in
    validate_all f addrs >> ok (if f.allow_insecure_localhost then sort_ipv4_first addrs else addrs)

unfoldable pub resolve_with :
    SsrfFilter → (host : Str) → Option IpAddr → Lookup → Result SsrfError (List SocketAddr)
unfolding checked_addrs
resolve_with f host (some ip) lookup = validate_ip f ip >> ok (record { ip = ip; port = 0 } ∷ [])
resolve_with f host none lookup = checked_addrs f host lookup

unfoldable pub resolve :
    (lookup_host : Str → ℕ → Lookup)
    → SsrfDnsResolver
    → (name : Str) → Result SsrfError (List SocketAddr)
unfolding resolve_with
resolve lookup_host r name =
    let host = host_key name in
    fail_if (not r.filter.allow_insecure_localhost && is_blocked_hostname host) (blocked_host host)
    >> fail_if (r.filter.allow_insecure_localhost && metadata_or_internal host) (blocked_host host)
    >> resolve_with r.filter host (get_pinned_ip r host) (lookup_host host 0)
