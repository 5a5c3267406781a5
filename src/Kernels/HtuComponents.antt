-- ===== src/Kernels/HtuComponents.antt =====
-- src/kernels/htu_components.rs: the assembly of a normalized target URI from parsed components.
-- Slices at the byte length of a prefix that is known to match drop that prefix's code points.
pub mod Laws
pub mod Port
use skyauth.Base.{
  ℕ, zero, suc, ◌/◌, ◌%◌, ◌+◌, Bool, true, false, not, ◌&&◌, ◌||◌, Option, none, some, List, [],
  ◌∷◌, ◌++◌, reverse, length, drop, any, list_eq, ◌==◌, if◌then◌else◌,
}
use skyauth.Base.Text.{Str, codes, is_empty, to_ascii_lowercase, starts_with, is_ascii_digit}
use skyauth.Base.Utf8.{as_bytes}

pub data HtuScheme : Type 0 where
  http https : HtuScheme

unfoldable pub as_str : HtuScheme → Str
as_str http = codes "http"
as_str https = codes "https"

unfoldable pub default_port : HtuScheme → ℕ
default_port http = 80
default_port https = 443

unfoldable pub parse : Str → Option HtuScheme
parse scheme =
    if list_eq (to_ascii_lowercase scheme) (codes "http")
    then some http
    else if list_eq (to_ascii_lowercase scheme) (codes "https")
    then some https
    else none

-- The loop `while n > 0`, least digit first. Five rounds are enough for a `u16`.
unfoldable pub digits : (fuel n : ℕ) → Str
digits zero n = []
digits (suc fuel) n =
    let rest = digits fuel (n / 10) in if n == 0 then [] else (b'0' + n % 10) ∷ rest

unfoldable pub decimal_port_str : ℕ → Str
unfolding digits
decimal_port_str port = if port == 0 then b':' ∷ b'0' ∷ [] else b':' ∷ reverse (digits 5 port)

-- `match port`, shared by the assembly: the port is written unless it is the default.
unfoldable pub port_text : HtuScheme → Option ℕ → Str
unfolding default_port decimal_port_str
port_text scheme none = []
port_text scheme (some p) = if p == default_port scheme then [] else decimal_port_str p

unfoldable pub build_normalized_htu : HtuScheme → (host : Str) (port : Option ℕ) (path : Str) → Str
unfolding as_str port_text
build_normalized_htu scheme host port path =
    as_str scheme
    ++ codes "://"
    ++ host
    ++ port_text scheme port
    ++ (if is_empty path then codes "/" else path)

unfoldable pub starts_with_explicit_port : Str → Bool
unfolding is_ascii_digit
starts_with_explicit_port [] = false
starts_with_explicit_port (c ∷ []) = false
starts_with_explicit_port (c ∷ d ∷ s) = (c == b':') && is_ascii_digit d

unfoldable pub is_port_placed : HtuScheme → Option ℕ → (after_host : Str) → Bool
unfolding default_port decimal_port_str starts_with_explicit_port starts_with
is_port_placed scheme none after_host = not (starts_with_explicit_port after_host)
is_port_placed scheme (some p) after_host =
    if p == default_port scheme
    then not (starts_with_explicit_port after_host)
    else starts_with (decimal_port_str p) after_host

unfoldable pub is_query_or_fragment : ℕ → Bool
is_query_or_fragment b = (b == b'?') || (b == b'#')

unfoldable pub invariants_hold : HtuScheme → (host : Str) (port : Option ℕ) (path out : Str) → Bool
unfolding build_normalized_htu is_port_placed as_str starts_with is_query_or_fragment
invariants_hold scheme host port path out =
    let prefix = as_str scheme ++ codes "://" in
    let lower_host = to_ascii_lowercase host in
    if not (list_eq out (build_normalized_htu scheme host port path))
    then false
    else if any is_query_or_fragment (as_bytes host) || any is_query_or_fragment (as_bytes path)
    then false
    else if not (starts_with prefix out) || not (starts_with lower_host (drop (length prefix) out))
    then false
    else is_port_placed scheme port (drop (length prefix + length lower_host) out)
