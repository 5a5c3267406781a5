-- ===== src/Client/Refresh.antt =====
-- src/client.rs: the refresh of a session, alone and shared between tasks.
pub mod Laws
use skyauth.Base.{
  ℕ, Bool, true, false, not, Option, none, some, List, [], ◌∷◌, any, filter, list_eq, Result, ok,
  err, ◌>>=◌, ◌>>◌, fail_if, ok_or, if◌then◌else◌,
}
use skyauth.Base.Text.{Str, codes, is_empty, split_whitespace, eq_ignore_ascii_case}
use skyauth.Base.Utf8.{as_bytes}
use skyauth.Kernels.CtEq.{constant_time_eq}
use skyauth.Session.{OauthSession, rotate_tokens_with_scope}
use skyauth.Url.{Url}
use skyauth.Ssrf.Fetch.{unwrap_or}
use skyauth.Client.{
  AtprotoOauthError, TokenResponse, token, http, invalid_token_type, request_failed, sub_mismatch,
  missing_atproto_scope, scope_expansion, missing_refresh_token, missing_field,
}
use skyauth.Client.Retry.{Attempt, Exchange}
use skyauth.Client.Token.{Codecs, Key, send_dpop_token_request_inner}
use skyauth.Client.Callback.{Clocks, AtprotoOauthClient, and_then, client_auth_of, has_scope}

-- The scopes of the response that were not granted.
unfoldable pub expanded : (granted new_scope : Str) → List Str
expanded granted new_scope =
    filter (λ s. not (any (λ g. list_eq g s) (split_whitespace granted)))
      (split_whitespace new_scope)

-- The test of expansion, which an empty grant skips.
unfoldable pub check_expansion : (granted new_scope : Str) → Result AtprotoOauthError (Unit {0})
unfolding expanded
check_expansion granted new_scope =
    if is_empty granted
    then ok tt
    else fail_if (not (is_empty (expanded granted new_scope)))
        (token (scope_expansion granted new_scope))

-- `if let Some(ref new_scope) = resp_json.scope`.
unfoldable pub check_scope : (granted : Str) → Option Str → Result AtprotoOauthError (Unit {0})
unfolding check_expansion
check_scope granted none = ok tt
check_scope granted (some new_scope) =
    fail_if (not (has_scope new_scope (codes "atproto"))) (token (missing_atproto_scope new_scope))
    >> check_expansion granted new_scope

-- The origin of a URL, or nothing.
unfoldable pub origin_of : Option Url → Str
origin_of none = []
origin_of (some url) = url.ascii_origin

module _ (c : Codecs) (initial retrying : Attempt) (clocks : Clocks)
    (client : AtprotoOauthClient (Key c)) where
  -- `match session.auth_server_issuer`.
  unfoldable pub resolved_issuer : OauthSession (Key c) → (token_endpoint : Str) → Str
  unfolding origin_of
  resolved_issuer s token_endpoint = elim s.auth_server_issuer [
    | none ↦ origin_of (c.parse token_endpoint)
    | some iss ↦ iss
  ]

  -- The checks on the response, and the rotation.
  unfoldable pub rotate_with :
      OauthSession (Key c) → TokenResponse → Result AtprotoOauthError (OauthSession (Key c))
  unfolding check_scope
  rotate_with s resp =
      fail_if (not (eq_ignore_ascii_case resp.token_type (codes "DPoP")))
        (token (invalid_token_type resp.token_type))
      >> (fail_if (is_empty resp.sub) (token (request_failed 200 (codes "invalid_request")))
          >> (fail_if (not (list_eq resp.sub s.sub)) (token (sub_mismatch s.sub resp.sub))
              >> (check_scope (unwrap_or s.scope []) resp.scope
                  >> ok (
                      rotate_tokens_with_scope clocks.last clocks.session_now s resp.access_token
                        resp.refresh_token resp.expires_in resp.scope))))

  -- What is needed of the session: the refresh token, the endpoint, and the body of the request.
  unfoldable pub refresh_form : OauthSession (Key c) → Result AtprotoOauthError (Str × Str)
  refresh_form s = ok_or s.refresh_token (token missing_refresh_token) >>= λ refresh_token.
      ok_or s.token_endpoint (token (missing_field (codes "token_endpoint"))) >>= λ token_endpoint.
      ok_or
        (c.urlencoded (
          (codes "grant_type", codes "refresh_token")
          ∷ (codes "refresh_token", refresh_token)
          ∷ (codes "client_id", client.metadata.client_id)
          ∷ []))
        (token http)
      >>= λ form_body. ok (token_endpoint, form_body)

  unfoldable pub refresh_from :
      OauthSession (Key c) → Result AtprotoOauthError (Str × Str) → Exchange (OauthSession (Key c))
  unfolding and_then rotate_with resolved_issuer
  refresh_from s (err e) = record { nonce_cache = client.nonce_cache; sent = []; result = err e }
  refresh_from s (ok (token_endpoint, form_body)) =
      and_then
        (send_dpop_token_request_inner c initial retrying token_endpoint s.dpop_key form_body
          (client_auth_of client.metadata.client_key client.metadata.client_id
            (resolved_issuer s token_endpoint))
          client.resolver client.nonce_cache)
        (rotate_with s)

  -- The session that the caller has afterwards is the result; after an error it is unchanged.
  unfoldable pub refresh_session_locked : OauthSession (Key c) → Exchange (OauthSession (Key c))
  unfolding refresh_from
  refresh_session_locked s = refresh_from s (refresh_form s)

  -- Under the lock of the subject, with the refresh token that was seen before it, and the shared
  -- session as it is now; the second component is the shared session afterwards.
  unfoldable pub write_back :
      OauthSession (Key c)
      → Exchange (OauthSession (Key c))
      → Exchange (OauthSession (Key c)) × OauthSession (Key c)
  write_back current done = elim done.result [
    | err e ↦ (done, current)
    | ok working ↦ (done, working)
  ]

  -- Whether the refresh token was rotated since it was seen.
  unfoldable pub is_rotated : (observed_rt : Str) → Option Str → Bool
  is_rotated observed_rt none = false
  is_rotated observed_rt (some current_rt) =
      not (constant_time_eq c.ct (as_bytes current_rt) (as_bytes observed_rt))

  unfoldable pub refresh_under_lock :
      (observed_rt : Str)
      → OauthSession (Key c)
      → Exchange (OauthSession (Key c)) × OauthSession (Key c)
  unfolding refresh_session_locked write_back is_rotated
  refresh_under_lock observed_rt current =
      let done = refresh_session_locked current in
      if is_rotated observed_rt current.refresh_token
      then (record { nonce_cache = client.nonce_cache; sent = []; result = ok current }, current)
      else write_back current done

  -- `refresh_shared_session`, with the refresh token that was seen.
  unfoldable pub having_seen :
      Option Str → OauthSession (Key c) → Exchange (OauthSession (Key c)) × OauthSession (Key c)
  unfolding refresh_under_lock
  having_seen none current = (
    record {
      nonce_cache = client.nonce_cache;
      sent = [];
      result = err (token missing_refresh_token);
    },
    current,
  )
  having_seen (some observed_rt) current = refresh_under_lock observed_rt current

  -- The shared session before the lock, and what it has become when the lock is held.
  unfoldable pub refresh_shared_session :
      (observed current : OauthSession (Key c))
      → Exchange (OauthSession (Key c)) × OauthSession (Key c)
  unfolding having_seen
  refresh_shared_session observed current = having_seen observed.refresh_token current
