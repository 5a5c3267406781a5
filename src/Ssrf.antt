-- ===== src/Ssrf.antt =====
-- src/ssrf.rs: which hosts, addresses and URLs an outbound request may reach. Error messages keep
-- the host or the address and leave out the rest of the text.
pub mod Resolver
pub mod Fetch
pub mod Network
pub mod Hosts
pub mod Laws
pub mod Loop
use skyauth.Base.{
  ℕ, Bool, true, false, not, ◌&&◌, ◌||◌, Option, none, some, list_eq, if◌then◌else◌, Result, ok,
  err, ◌>>=◌, ◌>>◌, fail_if, ok_or,
}
use skyauth.Base.Text.{Str, codes, to_ascii_lowercase, trim_end_matches, ends_with}
use skyauth.Kernels.IpFilter.{IpAddr, is_restricted_ip}
use skyauth.Net.{is_loopback, parse_ip}
use skyauth.Url.{Url}

-- `SsrfError` of src/error.rs.
pub data SsrfError : Type 0 where
  blocked_ip : IpAddr → SsrfError
  blocked_host dns_resolution_failed : Str → SsrfError
  insecure_scheme invalid_url too_many_redirects http io json : SsrfError
  response_too_large : (max_bytes actual_bytes : ℕ) → SsrfError
  http_status : ℕ → SsrfError

pub record SsrfFilter : Type 0 where
  pub allow_insecure_localhost : Bool

unfoldable pub new : Bool → SsrfFilter
new allow_insecure_localhost = record { allow_insecure_localhost = allow_insecure_localhost }

-- The hosts that stay blocked in test mode.
unfoldable pub metadata_or_internal : Str → Bool
metadata_or_internal host =
    list_eq host (codes "metadata.google.internal")
    || list_eq host (codes "instance-data")
    || list_eq host (codes "metadata.internal")
    || list_eq host (codes "169.254.169.254")
    || ends_with (codes ".internal") host
    || ends_with (codes ".local") host
    || ends_with (codes ".localhost") host

unfoldable pub is_blocked_hostname : Str → Bool
unfolding metadata_or_internal
is_blocked_hostname host =
    let lower = to_ascii_lowercase host in
    let trimmed = trim_end_matches b'.' lower in
    list_eq trimmed (codes "localhost") || metadata_or_internal trimmed

unfoldable pub is_ip_restricted : SsrfFilter → IpAddr → Bool
is_ip_restricted f ip =
    if f.allow_insecure_localhost && is_loopback ip then false else is_restricted_ip ip

unfoldable pub validate_ip : SsrfFilter → IpAddr → Result SsrfError (Unit {0})
validate_ip f ip = fail_if (is_ip_restricted f ip) (blocked_ip ip)

-- The hosts that plain HTTP may reach in test mode.
unfoldable pub is_local : Str → Bool
is_local host =
    list_eq host (codes "localhost")
    || list_eq host (codes "127.0.0.1")
    || list_eq host (codes "::1")
    || list_eq host (codes "[::1]")

unfoldable pub check_scheme : SsrfFilter → (scheme host : Str) → Result SsrfError (Unit {0})
unfolding is_local
check_scheme f scheme host =
    if not (list_eq scheme (codes "https"))
    then if list_eq scheme (codes "http")
      then fail_if (not f.allow_insecure_localhost) insecure_scheme
        >> fail_if (not (is_local host)) insecure_scheme
      else err insecure_scheme
    else ok tt

-- `if let Ok(ip) = host.parse::<IpAddr>() { self.validate_ip(ip)?; }`.
unfoldable pub check_literal : SsrfFilter → Option IpAddr → Result SsrfError (Unit {0})
check_literal f none = ok tt
check_literal f (some ip) = validate_ip f ip

unfoldable pub validate_url : SsrfFilter → Url → Result SsrfError (Unit {0})
unfolding check_scheme check_literal
validate_url f url = ok_or url.host_str invalid_url >>= λ host.
    check_scheme f url.scheme host
    >> fail_if (not f.allow_insecure_localhost && is_blocked_hostname host) (blocked_host host)
    >> fail_if
        (f.allow_insecure_localhost
          && metadata_or_internal (trim_end_matches b'.' (to_ascii_lowercase host)))
        (blocked_host host)
    >> check_literal f (parse_ip host)
