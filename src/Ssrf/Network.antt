-- ===== src/Ssrf/Network.antt =====
-- The network as the identity resolver and the discovery meet it: what each of their calls of
-- `safe_get` finds. A call is told by what it is for, and each of these is made at most once in a
-- run.
use skyauth.Base.{ℕ, Option, List, Result}
use skyauth.Base.Text.{Str}
use skyauth.Maps.{HashMap}
use skyauth.Kernels.IpFilter.{IpAddr}
use skyauth.Url.{Url, UrlParser}
use skyauth.Ssrf.{SsrfError, SsrfFilter}
use skyauth.Ssrf.Resolver.{SsrfDnsResolver}
use skyauth.Ssrf.Fetch.{World, safe_get, safe_get_json, max_oauth_response_bytes}

pub data Call : Type 0 where
  handle_https did_document protected_resource auth_server auth_server_fallback : Call

-- The parser and `Url::join`, the world of each request of a call, and what is pinned when the call
-- begins.
pub record Network : Type 0 where
  pub parse : UrlParser
  pub join : Url → Str → Option Url
  pub worlds : Call → ℕ → World
  pub pinned_ips : Call → HashMap IpAddr

module _ (net : Network) (ssrf_filter : SsrfFilter) where
  -- The resolver of the filter's client when a call begins.
  unfoldable pub resolver_of : Call → SsrfDnsResolver
  resolver_of call = record { filter = ssrf_filter; pinned_ips = net.pinned_ips call }

  -- The result of a call of `safe_get`.
  unfoldable pub get_bytes : Call → (url_str : Str) (max_bytes : ℕ) → Result SsrfError (List ℕ)
  unfolding resolver_of
  get_bytes call url_str max_bytes =
      (safe_get net.join max_bytes (net.worlds call) net.parse (resolver_of call) url_str).1

  -- The result of a call of `safe_get_json`.
  unfoldable pub get_json {ℓ} :
      {T : Type ℓ} (from_slice : List ℕ → Option T) → Call → (url_str : Str) → Result SsrfError T
  unfolding resolver_of
  get_json from_slice call url_str =
      (safe_get_json net.join max_oauth_response_bytes (net.worlds call) from_slice net.parse
        (resolver_of call) url_str).1
