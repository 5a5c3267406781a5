-- ===== src/Ssrf/Laws.antt =====
-- The addresses that are validated, pinned or handed out by the resolver hook are ones that the
-- filter lets through.
use skyauth.Base.{
  ℕ, ◌≡◌, refl, Bool, true, false, not, ◌&&◌, Option, none, some, List, [], ◌∷◌, ◌++◌, All, ok,
  arith, Option-cases, Result-cases, inl, inr,
}
use skyauth.Base.Text.{Str, to_ascii_lowercase, trim_end_matches}
use skyauth.Kernels.IpFilter.{IpAddr}
use skyauth.Maps.Laws.{get-insert_self}
use skyauth.Kernels.HtuComponents.{decimal_port_str}
use skyauth.Net.{SocketAddr, parse_ip}
use skyauth.Url.{Url}
use skyauth.Ssrf.{
  SsrfFilter, validate_ip, is_ip_restricted, validate_url, is_blocked_hostname,
  metadata_or_internal,
}
use skyauth.Ssrf.Resolver.{
  Lookup, found, SsrfDnsResolver, resolve, resolve_with, checked_addrs, validate_all, keep_family,
  sort_ipv4_first, pin_host, get_pinned_ip, host_key, make_room,
}
use skyauth.Ssrf.Fetch.{
  World, resolve_and_pin, pinned_addr, first_addr, build_pinned_client, pin_name, unwrap_or,
}
use skyauth.Ssrf.Hosts.{host_key_twice, lowercase-trim, lowercase_twice, trim_twice}

-- An address that the filter lets through.
abbrev pub IsOpen : SsrfFilter → SocketAddr → Type 0
IsOpen f a = is_ip_restricted f a.ip ≡ false

pub validate_ip-open :
    (f : SsrfFilter) (ip : IpAddr) → validate_ip f ip ≡ ok tt → is_ip_restricted f ip ≡ false
unfolding validate_ip
validate_ip-open f ip h = ground arith

validate_all-IsOpen :
    (f : SsrfFilter) (addrs : List SocketAddr) → validate_all f addrs ≡ ok tt → All (IsOpen f) addrs
unfolding validate_all validate_ip
validate_all-IsOpen f [] h = tt
validate_all-IsOpen f (a ∷ addrs) h = ground (arith, validate_all-IsOpen f addrs)

keep_family-IsOpen :
    (f : SsrfFilter) (want : Bool) (addrs : List SocketAddr)
    → All (IsOpen f) addrs
    → All (IsOpen f) (keep_family want addrs)
unfolding keep_family
keep_family-IsOpen f want [] h = tt
keep_family-IsOpen f want (a ∷ addrs) h = ground (arith, keep_family-IsOpen f want addrs h.1)

append-IsOpen :
    (f : SsrfFilter) (xs ys : List SocketAddr)
    → All (IsOpen f) xs
    → All (IsOpen f) ys
    → All (IsOpen f) (xs ++ ys)
append-IsOpen f [] ys h k = k
append-IsOpen f (x ∷ xs) ys h k = (h.0, append-IsOpen f xs ys h.1 k)

sort-IsOpen :
    (f : SsrfFilter) (addrs : List SocketAddr)
    → All (IsOpen f) addrs
    → All (IsOpen f) (sort_ipv4_first addrs)
unfolding sort_ipv4_first
sort-IsOpen f addrs h =
    append-IsOpen f (keep_family true addrs) (keep_family false addrs)
      (keep_family-IsOpen f true addrs h) (keep_family-IsOpen f false addrs h)

-- Every address that a look-up found is open.
abbrev pub AllFound : SsrfFilter → Lookup → Type 0
AllFound f (found addrs) = All (IsOpen f) addrs
AllFound f _ = Unit

pub checked_addrs-IsOpen :
    (f : SsrfFilter) (host : Str) (lookup : Lookup) (addrs : List SocketAddr)
    → checked_addrs f host lookup ≡ ok addrs
    → All (IsOpen f) addrs × AllFound f lookup
unfolding checked_addrs
checked_addrs-IsOpen f host (found (a ∷ rest)) addrs h =
    elim (Result-cases (validate_all f (a ∷ rest))) [
      | (inr (e, p)) ↦ ground arith
      | (inl (done, p)) ↦
          let every = validate_all-IsOpen f (a ∷ rest) (ground arith) in
          ground (arith, every, sort-IsOpen f (a ∷ rest) every)
    ]
checked_addrs-IsOpen f host _ addrs h = cc

-- Whatever the system's DNS answers and whatever is pinned, each address that the resolver hook
-- hands to a client is one that the filter lets through.
pub resolve-IsOpen :
    (lookup_host : Str → ℕ → Lookup) (r : SsrfDnsResolver) (name : Str) (addrs : List SocketAddr)
    → resolve lookup_host r name ≡ ok addrs
    → All (IsOpen r.filter) addrs
unfolding resolve resolve_with validate_ip
resolve-IsOpen lookup_host r name addrs h = elim (Option-cases (get_pinned_ip r (host_key name))) [
  | (inl p) ↦
      ground
        (arith, checked_addrs-IsOpen r.filter (host_key name) (lookup_host (host_key name) 0) addrs)
  | (inr (ip, p)) ↦ ground arith
]

first_addr-IsOpen :
    (f : SsrfFilter) (host : Str) (addrs : List SocketAddr) (addr : SocketAddr)
    → All (IsOpen f) addrs
    → first_addr host addrs ≡ ok addr
    → IsOpen f addr
unfolding first_addr
first_addr-IsOpen f host [] addr h e = cc
first_addr-IsOpen f host (a ∷ addrs) addr h e = ground arith

pinned_addr-IsOpen :
    (w : World) (f : SsrfFilter) (host : Str) (port : ℕ) (literal : Option IpAddr)
    (addr : SocketAddr)
    → pinned_addr w f host port literal ≡ ok addr
    → IsOpen f addr
unfolding pinned_addr validate_ip
pinned_addr-IsOpen w f host port (some ip) addr h = ground arith
pinned_addr-IsOpen w f host port none addr h =
    elim (Result-cases (checked_addrs f host (w.lookup_target (host ++ decimal_port_str port)))) [
      | (inr (e, p)) ↦ ground arith
      | (inl (addrs, p)) ↦
          first_addr-IsOpen f host addrs addr (checked_addrs-IsOpen f host _ addrs p).0
            (ground arith)
    ]

-- An address is pinned only for a URL that passes validation, and the filter lets it through.
pub resolve_and_pin-IsOpen :
    (w : World) (f : SsrfFilter) (url : Url) (pinned : SocketAddr × Str)
    → resolve_and_pin w f url ≡ ok pinned
    → (validate_url f url ≡ ok tt) × IsOpen f pinned.0
unfolding resolve_and_pin
resolve_and_pin-IsOpen w f url pinned h = elim (Option-cases url.host_str) [
  | (inl p) ↦ ground arith
  | (inr (host, p)) ↦
      elim (Result-cases
        (pinned_addr w f host (unwrap_or url.port_or_known_default 443) (parse_ip host))) [
          | (inr (e, q)) ↦ ground arith
          | (inl (addr, q)) ↦ ground (arith, pinned_addr-IsOpen w f host _ (parse_ip host) addr q)
        ]
]

pub build_pinned_client-IsOpen :
    (w : World) (r : SsrfDnsResolver) (url : Url) (built : SsrfDnsResolver × (SocketAddr × Str))
    → build_pinned_client w r url ≡ ok built
    → (validate_url r.filter url ≡ ok tt) × IsOpen r.filter built.1.0 × (built.0.filter ≡ r.filter)
unfolding build_pinned_client pin_name pin_host
build_pinned_client-IsOpen w r url built h = elim (Result-cases (resolve_and_pin w r.filter url)) [
  | (inr (e, p)) ↦ ground arith
  | (inl (pinned, p)) ↦ ground (arith, resolve_and_pin-IsOpen w r.filter url pinned p)
]

blocked-key : (host : Str) → is_blocked_hostname (host_key host) ≡ is_blocked_hostname host
unfolding is_blocked_hostname host_key
blocked-key host = rw (
  lowercase_twice (trim_end_matches b'.' host),
  lowercase-trim host,
  trim_twice (to_ascii_lowercase host),
)

validate_url-host :
    (f : SsrfFilter) (url : Url) (host : Str)
    → url.host_str ≡ some host
    → validate_url f url ≡ ok tt
    → ((not f.allow_insecure_localhost && is_blocked_hostname host) ≡ false)
      × ((f.allow_insecure_localhost && metadata_or_internal (host_key host)) ≡ false)
unfolding validate_url host_key
validate_url-host f url host e h = ground (arith, lowercase-trim host)

pin_host-get :
    (r : SsrfDnsResolver) (host : Str) (ip : IpAddr)
    → is_ip_restricted r.filter ip ≡ false
    → (get_pinned_ip (pin_host r host ip) (host_key host) ≡ some ip)
      × ((pin_host r host ip).filter ≡ r.filter)
unfolding pin_host get_pinned_ip validate_ip
pin_host-get r host ip h = ground (
  arith,
  host_key_twice host,
  get-insert_self (host_key host) ip (make_room (host_key host) r.pinned_ips),
)

resolve-pin_host :
    (lookup_host : Str → ℕ → Lookup) (r : SsrfDnsResolver) (host : Str) (ip : IpAddr)
    → is_ip_restricted r.filter ip ≡ false
    → (not r.filter.allow_insecure_localhost && is_blocked_hostname host) ≡ false
    → (r.filter.allow_insecure_localhost && metadata_or_internal (host_key host)) ≡ false
    → resolve lookup_host (pin_host r host ip) host ≡ ok (record { ip = ip; port = 0 } ∷ [])
unfolding resolve resolve_with validate_ip
resolve-pin_host lookup_host r host ip opened plain tested =
    let (pinned, same) = pin_host-get r host ip opened in
    rw (pinned, same, blocked-key host, plain, tested, opened) refl

-- Once a client is built for a URL whose host is a name and not an address, the resolver hook
-- answers for that host with the address that was validated and nothing else, whatever the DNS
-- says by then.
pub resolve-build_pinned_client :
    (w : World) (lookup_host : Str → ℕ → Lookup) (r : SsrfDnsResolver) (url : Url) (host : Str)
    (built : SsrfDnsResolver × (SocketAddr × Str))
    → url.host_str ≡ some host
    → parse_ip host ≡ none
    → build_pinned_client w r url ≡ ok built
    → resolve lookup_host built.0 host ≡ ok (record { ip = built.1.0.ip; port = 0 } ∷ [])
unfolding build_pinned_client pin_name unwrap_or
resolve-build_pinned_client w lookup_host r url host built e n h =
    elim (Result-cases (resolve_and_pin w r.filter url)) [
      | (inr (e, p)) ↦ ground arith
      | (inl (pinned, p)) ↦
          let (valid, opened) = resolve_and_pin-IsOpen w r.filter url pinned p in
          let (plain, tested) = validate_url-host r.filter url host e valid in
          let client : built ≡ (pin_host r host pinned.0.ip, pinned) = ground arith in
          rw client (resolve-pin_host lookup_host r host pinned.0.ip opened plain tested)
    ]
