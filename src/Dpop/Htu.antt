-- ===== src/Dpop/Htu.antt =====
-- `normalize_htu`, `extract_dpop_nonce`, `compute_access_token_hash` and `DPoPNonceCache` of src/dpop.rs. The `debug_assert!` of
-- `normalize_htu` is left out: `Kernels.HtuComponents.Laws` is about its condition.
use skyauth.Base.{◌>>=◌, Option, none, some, Result, ok, err, ok_or, if◌then◌else◌}
use skyauth.Base.Text.{Str, codes, is_empty, trim, to_ascii_lowercase}
use skyauth.Base.Utf8.{as_bytes}
use skyauth.Crypto.{Crypto, sha256_digest, base64url_encode}
use skyauth.Maps.{HashMap, get, insert, remove}
use skyauth.Url.{UrlParser}
use skyauth.Kernels.HtuComponents.{parse, build_normalized_htu}
use skyauth.Dpop.Errors.{DpopError, invalid_uri}

unfoldable pub normalize_htu : UrlParser → (uri_str : Str) → Result DpopError Str
normalize_htu url uri_str =
    let trimmed = trim uri_str in
    if is_empty trimmed
    then err invalid_uri
    else (ok_or (url trimmed) invalid_uri >>= λ parsed.
        ok_or (parse parsed.scheme) invalid_uri >>= λ scheme.
        ok_or parsed.host_str invalid_uri >>= λ host. ok (
          build_normalized_htu scheme (to_ascii_lowercase host) parsed.port
            (if is_empty parsed.path then codes "/" else parsed.path)))

unfoldable pub extract_dpop_nonce : Option Str → Option Str
extract_dpop_nonce none = none
extract_dpop_nonce (some v) =
    let trimmed = trim v in if is_empty trimmed then none else some trimmed

unfoldable pub compute_access_token_hash : Crypto → (access_token : Str) → Str
compute_access_token_hash c access_token =
    base64url_encode c (sha256_digest c (as_bytes access_token))

-- The map under the lock of `DPoPNonceCache`: the latest nonce of each origin.
abbrev pub DpopNonceCache : Type 0
DpopNonceCache = HashMap Str

-- `origin.trim().to_ascii_lowercase()`.
unfoldable pub origin_key : Str → Str
origin_key origin = to_ascii_lowercase (trim origin)

unfoldable pub set_nonce : DpopNonceCache → (origin nonce : Str) → DpopNonceCache
set_nonce cache origin nonce = insert (origin_key origin) nonce cache

unfoldable pub get_nonce : DpopNonceCache → (origin : Str) → Option Str
get_nonce cache origin = get (origin_key origin) cache

unfoldable pub clear_nonce : DpopNonceCache → (origin : Str) → DpopNonceCache
clear_nonce cache origin = remove (origin_key origin) cache
