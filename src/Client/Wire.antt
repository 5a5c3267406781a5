-- ===== src/Client/Wire.antt =====
-- src/client.rs: the responses that the client reads, and the challenges in them.
use skyauth.Base.{
  ℕ, ◌&&◌, ◌||◌, ◌==◌, leb, ltb, Bool, false, not, Option, none, some, List, any, list_eq,
  if◌then◌else◌, Result, ok, ◌>>=◌, fail_if, map_err,
}
use skyauth.Base.Text.{
  Str, codes, is_empty, is_whitespace, trim, trim_start_by, trim_matches, split, split_once,
  eq_ignore_ascii_case,
}
use skyauth.Dpop.Errors.{DpopError, response_missing_dpop_nonce}
use skyauth.Dpop.Proof.{Jose}
use skyauth.Ssrf.Fetch.{Response, read_bounded_body, max_oauth_response_bytes}
use skyauth.Client.{TokenError, http}

-- A response, with the headers that are text.
pub record HttpResponse : Type 0 where
  pub response : Response
  pub dpop_nonce : Option Str
  pub www_authenticate : List Str

-- `map(|v| !v.trim().is_empty()).unwrap_or(false)`.
unfoldable pub is_present : Option Str → Bool
is_present none = false
is_present (some v) = not (is_empty (trim v))

unfoldable pub require_dpop_nonce : HttpResponse → Result DpopError (Unit {0})
require_dpop_nonce resp = fail_if (not (is_present resp.dpop_nonce)) response_missing_dpop_nonce

-- One parameter of a challenge, split at its first `=`.
unfoldable pub is_nonce_param : Option (Str × Str) → Bool
is_nonce_param none = false
is_nonce_param (some (key, value)) =
    if eq_ignore_ascii_case (trim key) (codes "error")
    then eq_ignore_ascii_case (trim_matches b'"' (trim value)) (codes "use_dpop_nonce")
    else false

-- A challenge, split at its first space.
unfoldable pub is_nonce_challenge : Option (Str × Str) → Bool
is_nonce_challenge none = false
is_nonce_challenge (some (scheme, rest)) =
    if eq_ignore_ascii_case scheme (codes "DPoP")
    then any (λ param. is_nonce_param (split_once b'=' (trim param)))
        (split b',' (trim_start_by is_whitespace rest))
    else false

unfoldable pub is_rs_dpop_nonce_challenge : HttpResponse → Bool
is_rs_dpop_nonce_challenge resp =
    any (λ challenge. is_nonce_challenge (split_once b' ' (trim challenge))) resp.www_authenticate

-- The status is 400 or 401.
unfoldable pub is_refusal : HttpResponse → Bool
is_refusal resp = (resp.response.status == 400) || (resp.response.status == 401)

unfoldable pub is_success : HttpResponse → Bool
is_success resp = leb 200 resp.response.status && ltb resp.response.status 300

module _ (j : Jose) where
  -- `json.and_then(|j| j.get(name)).and_then(|e| e.as_str())`.
  unfoldable pub field_text : Option j.Value → (name : Str) → Option Str
  field_text none name = none
  field_text (some value) name = elim (j.get value name) [ none ↦ none | (some v) ↦ j.as_str v ]

  -- `parse_oauth_error_fields`, without the description.
  unfoldable pub parse_oauth_error_fields : Option j.Value → Str
  unfolding field_text
  parse_oauth_error_fields json = elim (field_text json (codes "error")) [
    | none ↦ codes "token_request_failed"
    | some error ↦ error
  ]

  unfoldable pub is_use_dpop_nonce_error : Option j.Value → Bool
  unfolding field_text
  is_use_dpop_nonce_error json = elim (field_text json (codes "error")) [
    | none ↦ false
    | some error ↦ list_eq error (codes "use_dpop_nonce")
  ]

  unfoldable pub read_body : HttpResponse → Result TokenError (List ℕ)
  read_body resp = map_err (λ _. http) (read_bounded_body resp.response max_oauth_response_bytes)

  unfoldable pub read_bounded_json : HttpResponse → Result TokenError (Option j.Value)
  unfolding read_body
  read_bounded_json resp = read_body resp >>= λ bytes. ok (j.from_slice bytes)
