-- ===== src/Discovery/Origins.antt =====
-- The tests on URLs of src/discovery.rs: `is_origin_only`, `normalize_origin` and
-- `validate_https_endpoint`, over the parser of the `url` crate.
use skyauth.Base.{
  ℕ, ◌+◌, ◌-◌, ◌*◌, ◌∷◌, Bool, false, not, ◌&&◌, ◌||◌, ◌==◌, Option, none, some, [], leb, last_or,
  all, list_eq, is_some, if◌then◌else◌, Result, ◌>>◌, ◌>>=◌, fail_if, ok_or,
}
use skyauth.Base.Text.{
  Str, codes, is_empty, is_ascii_digit, split, strip_prefix, contains_char, trim, trim_end_matches,
}
use skyauth.Url.{Url, UrlParser}
use skyauth.Discovery.{DiscoveryError, invalid_endpoint_url}

-- `split_once("://")`: what follows it.
unfoldable pub after_scheme : (url_str : Str) → Option Str
after_scheme [] = none
after_scheme (c ∷ s) =
    let later = after_scheme s in
    elim (strip_prefix (codes "://") (c ∷ s)) [ some rest ↦ some rest | none ↦ later ]

-- `split(['/', '?', '#']).next()`.
unfoldable pub first_piece : Str → Str
first_piece [] = []
first_piece (c ∷ s) =
    let rest = first_piece s in if (c == b'/') || (c == b'?') || (c == b'#') then [] else c ∷ rest

-- `rsplit(sep).next()`.
unfoldable pub last_piece : (sep : ℕ) → Str → Str
last_piece sep s = last_or (split sep s) []

unfoldable pub or_whole : Option Str → (whole : Str) → Str
or_whole none whole = whole
or_whole (some s) whole = s

unfoldable pub host_port_of : (url_str : Str) → Str
unfolding after_scheme first_piece last_piece or_whole
host_port_of url_str = last_piece b'@' (first_piece (or_whole (after_scheme url_str) url_str))

-- The digits of a number in base 10.
unfoldable pub decimal : (value : ℕ) → Str → ℕ
decimal value [] = value
decimal value (c ∷ s) = decimal (value * 10 + (c - b'0')) s

-- `u16::from_str` on digits, which may follow one plus sign.
unfoldable pub parse_digits : Str → Option ℕ
unfolding decimal
parse_digits [] = none
parse_digits (c ∷ s) =
    if all is_ascii_digit (c ∷ s) && leb (decimal 0 (c ∷ s)) 65535
    then some (decimal 0 (c ∷ s))
    else none

unfoldable pub parse_u16 : Str → Option ℕ
unfolding parse_digits
parse_u16 [] = none
parse_u16 (c ∷ s) = if c == b'+' then parse_digits s else parse_digits (c ∷ s)

-- An explicit port is a number, and not the default of the scheme.
unfoldable pub is_good_port : (scheme : Str) → Option ℕ → Bool
is_good_port scheme none = false
is_good_port scheme (some port) =
    not ((port == 443) && list_eq scheme (codes "https"))
    && not ((port == 80) && list_eq scheme (codes "http"))

-- The text after the last `]`, or all of it, has the colon of an explicit port.
unfoldable pub has_explicit_port : (host_port : Str) → Bool
unfolding last_piece
has_explicit_port host_port = contains_char b':' (last_piece b']' host_port)

unfoldable pub is_loopback_host : (host : Str) → Bool
is_loopback_host host =
    list_eq host (codes "localhost")
    || list_eq host (codes "127.0.0.1")
    || list_eq host (codes "::1")
    || list_eq host (codes "[::1]")

unfoldable pub host_of : Url → Str
unfolding or_whole
host_of parsed = or_whole parsed.host_str []

-- HTTPS, or HTTP to the same machine.
unfoldable pub is_secure : Url → Bool
unfolding is_loopback_host host_of
is_secure parsed =
    list_eq parsed.scheme (codes "https")
    || (list_eq parsed.scheme (codes "http") && is_loopback_host (host_of parsed))

unfoldable pub has_userinfo : Url → Bool
has_userinfo parsed = not (is_empty parsed.username) || is_some parsed.password

-- The tests on a URL that was parsed.
unfoldable pub is_origin : (url_str : Str) → Url → Bool
is_origin url_str parsed =
    let host_port = host_port_of url_str in
    if not (is_secure parsed)
    then false
    else if has_userinfo parsed
    then false
    else if has_explicit_port host_port
        && not (is_good_port parsed.scheme (parse_u16 (last_piece b':' host_port)))
    then false
    else if contains_char b'\\' host_port
    then false
    else (is_empty parsed.path || list_eq parsed.path (codes "/"))
      && not (is_some parsed.query)
      && not (is_some parsed.fragment)

module _ (parse : UrlParser) where
  unfoldable pub is_origin_only : (url_str : Str) → Bool
  is_origin_only url_str = elim (parse url_str) [
    | none ↦ false
    | some parsed ↦ is_origin url_str parsed
  ]

  unfoldable pub normalize_origin : (url_str : Str) → Str
  normalize_origin url_str = elim (parse url_str) [
    | none ↦ trim_end_matches b'/' (trim url_str)
    | some parsed ↦ parsed.ascii_origin
  ]

  unfoldable pub validate_https_endpoint : (endpoint : Str) → Result DiscoveryError (Unit {0})
  validate_https_endpoint endpoint = ok_or (parse endpoint) invalid_endpoint_url >>= λ parsed.
      fail_if (not (is_secure parsed)) invalid_endpoint_url
      >> fail_if (has_userinfo parsed) invalid_endpoint_url
      >> fail_if (not (is_some parsed.host_str)) invalid_endpoint_url
