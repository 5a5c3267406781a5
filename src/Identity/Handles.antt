-- ===== src/Identity/Handles.antt =====
-- The handles of src/identity.rs: `normalize_handle` and its variants with a default domain.
pub mod Laws
use skyauth.Base.{
  ℕ, ◌∷◌, ◌++◌, Bool, not, ◌&&◌, ◌||◌, ◌==◌, Option, none, some, List, [], length, all, any, ltb,
  last_or, list_eq, is_some, if◌then◌else◌, Result, ok, err, ◌>>◌, ◌>>=◌, fail_if,
}
use skyauth.Base.Text.{
  Str, codes, is_empty, is_ascii_digit, is_ascii_alphanumeric, to_ascii_lowercase, trim,
  trim_start_matches, split, starts_with, ends_with, contains_char,
}
use skyauth.Base.Utf8.{len}
use skyauth.Net.{parse_ip}
use skyauth.Identity.Errors.{IdentityError, invalid_handle_syntax, disallowed_handle_tld}

abbrev pub default_handle_domain : Str
default_handle_domain = codes "bsky.social"

abbrev pub disallowed_handle_tlds : List Str
disallowed_handle_tlds =
    codes "alt"
    ∷ codes "arpa"
    ∷ codes "example"
    ∷ codes "internal"
    ∷ codes "invalid"
    ∷ codes "local"
    ∷ codes "localhost"
    ∷ codes "onion"
    ∷ []

-- `DISALLOWED_HANDLE_TLDS.contains(…)`.
unfoldable pub is_disallowed : Str → Bool
is_disallowed s = any (λ tld. list_eq tld s) disallowed_handle_tlds

-- `label.chars().next().unwrap_or('\0')`.
unfoldable pub first_char : Str → ℕ
first_char [] = 0
first_char (c ∷ s) = c

unfoldable pub is_label_char : ℕ → Bool
is_label_char c = is_ascii_alphanumeric c || (c == b'-')

-- The body of the loop over the labels.
unfoldable pub check_label : (label : Str) → Result IdentityError (Unit {0})
unfolding first_char is_label_char
check_label label =
    fail_if (is_empty label || ltb 63 (len label)) invalid_handle_syntax
    >> fail_if (starts_with (codes "-") label || ends_with (codes "-") label) invalid_handle_syntax
    >> fail_if (not (is_ascii_alphanumeric (first_char label))) invalid_handle_syntax
    >> fail_if (not (all is_label_char label)) invalid_handle_syntax

unfoldable pub check_labels : (labels : List Str) → Result IdentityError (Unit {0})
unfolding check_label
check_labels [] = ok tt
check_labels (label ∷ labels) = check_label label >> check_labels labels

-- A raw address: an IP literal, a bracket, or digits and dots alone.
unfoldable pub is_ip_like : (normalized : Str) → Bool
is_ip_like normalized =
    is_some (parse_ip normalized)
    || starts_with (codes "[") normalized
    || all (λ c. is_ascii_digit c || (c == b'.')) normalized

-- The checks on the trimmed handle in lower case.
unfoldable pub check_handle : (normalized : Str) → Result IdentityError (Unit {0})
check_handle normalized =
    let labels = split b'.' normalized in
    let tld = last_or labels [] in
    fail_if (is_empty normalized) invalid_handle_syntax
    >> fail_if (ltb 244 (len normalized)) invalid_handle_syntax
    >> fail_if (is_ip_like normalized) invalid_handle_syntax
    >> fail_if (ltb (length labels) 2) invalid_handle_syntax
    >> check_labels labels
    >> fail_if (is_disallowed tld) (disallowed_handle_tld tld)
    >> fail_if (list_eq normalized (codes "handle.invalid"))
        (disallowed_handle_tld (codes "handle.invalid"))

unfoldable pub normalize_handle : (raw_handle : Str) → Result IdentityError Str
normalize_handle raw_handle =
    let normalized = to_ascii_lowercase (trim_start_matches b'@' (trim raw_handle)) in
    check_handle normalized >> ok normalized

-- A single label is completed with the default domain.
unfoldable pub normalize_handle_with_default_domain :
    (raw_handle default_domain : Str) → Result IdentityError Str
normalize_handle_with_default_domain raw_handle default_domain =
    let normalized = to_ascii_lowercase (trim (trim_start_matches b'@' (trim raw_handle))) in
    let suffix = trim_start_matches b'.' (trim default_domain) in
    fail_if (is_empty normalized) invalid_handle_syntax
    >> (if not (contains_char b'.' normalized)
        then (fail_if (is_disallowed normalized) invalid_handle_syntax
            >> fail_if (all is_ascii_digit normalized) invalid_handle_syntax
            >> normalize_handle (normalized ++ b'.' ∷ suffix))
        else normalize_handle raw_handle)

unfoldable pub normalize_user_handle : (raw_handle : Str) → Result IdentityError Str
normalize_user_handle raw_handle =
    normalize_handle_with_default_domain raw_handle default_handle_domain
