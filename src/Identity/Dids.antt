-- ===== src/Identity/Dids.antt =====
-- `DidMethod` and `validate_did_syntax` of src/identity.rs.
pub mod Laws
use skyauth.Base.{
  ℕ, ◌∷◌, Bool, not, ◌&&◌, ◌||◌, ◌==◌, Option, none, some, List, [], all, list_eq, if◌then◌else◌,
  Result, ok, err, ◌>>◌, fail_if,
}
use skyauth.Base.Text.{
  Str, codes, is_empty, is_ascii_digit, is_ascii_lowercase, is_ascii_alphanumeric, trim, split,
  starts_with, strip_prefix, contains_char,
}
use skyauth.Base.Utf8.{len}
use skyauth.Identity.Errors.{IdentityError, invalid_did_syntax, unsupported_did_method}

pub data DidMethod : Type 0 where
  plc web : DidMethod

unfoldable pub is_plc_char : ℕ → Bool
is_plc_char c = is_ascii_lowercase c || is_ascii_digit c

unfoldable pub is_valid_plc : (hash : Str) → Bool
unfolding is_plc_char
is_valid_plc hash = (len hash == 24) && all is_plc_char hash

unfoldable pub is_web_char : ℕ → Bool
is_web_char c = is_ascii_alphanumeric c || (c == b'.') || (c == b'-') || (c == b'%')

unfoldable pub is_valid_segment : (seg : Str) → Bool
unfolding is_web_char
is_valid_segment seg = not (is_empty seg) && not (contains_char b'@' seg) && all is_web_char seg

-- `strip_prefix("did:web:").unwrap_or(domain)`.
unfoldable pub web_suffix : (trimmed domain : Str) → Str
web_suffix trimmed domain = elim (strip_prefix (codes "did:web:") trimmed) [
  | none ↦ domain
  | some s ↦ s
]

unfoldable pub is_valid_web : (trimmed domain : Str) → Bool
unfolding web_suffix is_valid_segment
is_valid_web trimmed domain =
    not (is_empty domain)
    && not (contains_char b'@' domain)
    && all is_valid_segment (split b':' (web_suffix trimmed domain))

-- The `match` on the method, with the third part.
unfoldable pub check_method : (trimmed method identifier : Str) → Result IdentityError DidMethod
unfolding is_valid_plc is_valid_web
check_method trimmed method identifier =
    if list_eq method (codes "plc")
    then fail_if (not (is_valid_plc identifier)) invalid_did_syntax >> ok plc
    else if list_eq method (codes "web")
    then fail_if (not (is_valid_web trimmed identifier)) invalid_did_syntax >> ok web
    else err (unsupported_did_method method)

-- `parts.len() < 3`, and otherwise the second and the third part.
unfoldable pub check_parts : (trimmed : Str) → List Str → Result IdentityError DidMethod
unfolding check_method
check_parts trimmed (scheme ∷ method ∷ identifier ∷ rest) = check_method trimmed method identifier
check_parts trimmed (scheme ∷ method ∷ []) = err invalid_did_syntax
check_parts trimmed (scheme ∷ []) = err invalid_did_syntax
check_parts trimmed [] = err invalid_did_syntax

unfoldable pub validate_did_syntax : (did : Str) → Result IdentityError DidMethod
unfolding check_parts
validate_did_syntax did =
    let trimmed = trim did in
    fail_if (not (starts_with (codes "did:") trimmed)) invalid_did_syntax
    >> check_parts trimmed (split b':' trimmed)
