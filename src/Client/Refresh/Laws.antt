-- ===== src/Client/Refresh/Laws.antt =====
-- What a refreshed session keeps, and that a task that shares a session sends nothing once another
-- has rotated the refresh token.

use skyauth.Base.{
  ◌≡◌, ◌≢◌, ◌⊎◌, inl, inr, refl, ap, sym, subst, ◌∙◌, Bool, true, not, Bool-cases, Option, none,
  some, List, [], ◌∷◌, All, any, filter, Result, ok, err, fail_if, list_eq, list_eq_sound, bind-ok,
  then-ok, fail_if-ok, ok-injective, arith,
}
use skyauth.Base.Text.{Str, codes, is_empty, split_whitespace, eq_ignore_ascii_case}
use skyauth.Base.Utf8.{as_bytes}
use skyauth.Kernels.CtEq.{constant_time_eq, constant_time_eq_iff}
use skyauth.Session.{OauthSession, rotate_tokens_with_scope, or_else}
use skyauth.Ssrf.Fetch.{unwrap_or}
use skyauth.Dpop.Htu.{DpopNonceCache}
use skyauth.Client.{AtprotoOauthError, TokenResponse}
use skyauth.Client.Retry.{Attempt}
use skyauth.Client.Retry.Laws.{Sent}
use skyauth.Client.Token.{Codecs, Key, send_dpop_token_request_inner}
use skyauth.Client.Token.Laws.{send_dpop_token_request_inner-IsGrant}
use skyauth.Client.Callback.{Clocks, AtprotoOauthClient, and_then, client_auth_of, has_scope}
use skyauth.Client.Callback.Sessions.{IsGranted}
use skyauth.Client.Refresh.{
  expanded, check_expansion, check_scope, resolved_issuer, rotate_with, refresh_form, refresh_from,
  refresh_session_locked, write_back, is_rotated, refresh_under_lock, having_seen,
  refresh_shared_session,
}

-- Each scope is one of those granted.
abbrev pub IsWithin : (granted new_scope : Str) → Type 0
IsWithin granted new_scope =
    All (λ s. any (λ g. list_eq g s) (split_whitespace granted) ≡ true) (split_whitespace new_scope)

All-filter :
    (p : Str → Bool) (xs : List Str)
    → is_empty (filter (λ s. not (p s)) xs) ≡ true
    → All (λ s. p s ≡ true) xs
All-filter p [] h = tt
All-filter p (x ∷ xs) h = elim (Bool-cases (p x)) [
  | inl e ↦ (e, All-filter p xs (ground arith))
  | inr e ↦ absurd (ground arith)
]

-- A scope that was returned has `atproto`, and is within a grant that is not empty.
abbrev pub IsScopeOf : (granted : Str) → Option Str → Type 0
IsScopeOf granted none = Unit {0}
IsScopeOf granted (some new_scope) =
    (has_scope new_scope (codes "atproto") ≡ true) × ((granted ≡ []) ⊎ IsWithin granted new_scope)

check_expansion-IsWithin :
    (granted new_scope : Str)
    → check_expansion granted new_scope ≡ ok tt
    → (granted ≡ []) ⊎ IsWithin granted new_scope
unfolding check_expansion expanded
check_expansion-IsWithin [] new_scope h = inl refl
check_expansion-IsWithin (g ∷ granted) new_scope h =
    let none_new = fail_if-ok (not (is_empty (expanded (g ∷ granted) new_scope))) _ h in
    inr (
      All-filter (λ s. any (λ x. list_eq x s) (split_whitespace (g ∷ granted)))
        (split_whitespace new_scope) (ground arith))

check_scope-IsScopeOf :
    (granted : Str) (scope : Option Str)
    → check_scope granted scope ≡ ok tt
    → IsScopeOf granted scope
unfolding check_scope
check_scope-IsScopeOf granted none h = tt
check_scope-IsScopeOf granted (some new_scope) h =
    let (atproto, rest) = then-ok (fail_if (not (has_scope new_scope (codes "atproto"))) _) _ h in
    let has = fail_if-ok (not (has_scope new_scope (codes "atproto"))) _ atproto in
    (ground arith, check_expansion-IsWithin granted new_scope rest)

module _ (c : Codecs) (initial retrying : Attempt) (clocks : Clocks)
    (client : AtprotoOauthClient (Key c)) where
  -- What a refresh keeps of a session, and what it takes of the response.
  pub record IsRefreshed (s : OauthSession (Key c)) (t : TokenResponse) (r : OauthSession (Key c))
      : Type 0 where
    pub subject : t.sub ≡ s.sub
    pub sub : r.sub ≡ s.sub
    pub dpop_key : r.dpop_key ≡ s.dpop_key
    pub issuer : r.auth_server_issuer ≡ s.auth_server_issuer
    pub pds_endpoint : r.pds_endpoint ≡ s.pds_endpoint
    pub access_token : r.access_token ≡ t.access_token
    pub refresh_token : r.refresh_token ≡ t.refresh_token
    pub scope : r.scope ≡ or_else t.scope s.scope
    pub within : IsScopeOf (unwrap_or s.scope []) t.scope

  rotate_with-IsRefreshed :
      (s : OauthSession (Key c)) (t : TokenResponse) (r : OauthSession (Key c))
      → rotate_with c initial retrying clocks client s t ≡ ok r
      → IsRefreshed s t r
  unfolding rotate_with rotate_tokens_with_scope
  rotate_with-IsRefreshed s t r h =
      let (kind, rest) =
        then-ok (fail_if (not (eq_ignore_ascii_case t.token_type (codes "DPoP"))) _) _ h in
      let (filled, rest) = then-ok (fail_if (is_empty t.sub) _) _ rest in
      let (same, rest) = then-ok (fail_if (not (list_eq t.sub s.sub)) _) _ rest in
      let (within, done) = then-ok (check_scope (unwrap_or s.scope []) t.scope) _ rest in
      let e = sym (ok-injective done) in
      let equal = fail_if-ok (not (list_eq t.sub s.sub)) _ same in
      record {
        subject = list_eq_sound t.sub s.sub (ground arith);
        sub = ap (λ (x : OauthSession (Key c)). x.sub) e;
        dpop_key = ap (λ (x : OauthSession (Key c)). x.dpop_key) e;
        issuer = ap (λ (x : OauthSession (Key c)). x.auth_server_issuer) e;
        pds_endpoint = ap (λ (x : OauthSession (Key c)). x.pds_endpoint) e;
        access_token = ap (λ (x : OauthSession (Key c)). x.access_token) e;
        refresh_token = ap (λ (x : OauthSession (Key c)). x.refresh_token) e;
        scope = ap (λ (x : OauthSession (Key c)). x.scope) e;
        within = check_scope-IsScopeOf (unwrap_or s.scope []) t.scope within;
      }

  refresh_from-IsRefreshed :
      (s : OauthSession (Key c)) (o : Result AtprotoOauthError (Str × Str))
      (r : OauthSession (Key c))
      → (refresh_from c initial retrying clocks client s o).result ≡ ok r
      → (t : TokenResponse) × IsGranted c t (refresh_from c initial retrying clocks client s o).sent
        × IsRefreshed s t r
  unfolding refresh_from and_then
  refresh_from-IsRefreshed s (err e) r h = absurd (ground arith)
  refresh_from-IsRefreshed s (ok (endpoint, form_body)) r h =
      let auth =
        client_auth_of client.metadata.client_key client.metadata.client_id
          (resolved_issuer c initial retrying clocks client s endpoint) in
      let run =
        send_dpop_token_request_inner c initial retrying endpoint s.dpop_key form_body auth
          client.resolver client.nonce_cache in
      let (t, got, checked) =
        bind-ok run.result (rotate_with c initial retrying clocks client s) h in
      let granted =
        send_dpop_token_request_inner-IsGrant c initial retrying endpoint s.dpop_key form_body auth
          client.resolver client.nonce_cache t got in
      (t, granted, rotate_with-IsRefreshed s t r checked)

  -- A session that a refresh returns keeps the subject, the key, the issuer and the resource
  -- server; a request that was sent was answered by a response with a good status, a nonce and a
  -- token of the same subject, whose tokens the session takes. A scope that came with it has
  -- `atproto` and, if the old grant is not empty, nothing beyond the grant; without one the old
  -- scope stays.
  pub refresh_session_locked-IsRefreshed :
      (s r : OauthSession (Key c))
      → (refresh_session_locked c initial retrying clocks client s).result ≡ ok r
      → (t : TokenResponse) × IsGranted c t
          (refresh_session_locked c initial retrying clocks client s).sent
        × IsRefreshed s t r
  unfolding refresh_session_locked
  refresh_session_locked-IsRefreshed s r h =
      refresh_from-IsRefreshed s (refresh_form c initial retrying clocks client s) r h

  -- A task that finds the token rotated sends nothing.
  refresh_under_lock-rotated :
      (observed_rt current_rt : Str) (current : OauthSession (Key c))
      → current.refresh_token ≡ some current_rt
      → as_bytes current_rt ≢ as_bytes observed_rt
      → refresh_under_lock c initial retrying clocks client observed_rt current
        ≡ (record { nonce_cache = client.nonce_cache; sent = []; result = ok current }, current)
  unfolding refresh_under_lock is_rotated
  refresh_under_lock-rotated observed_rt current_rt current has differ =
      elim (Bool-cases (constant_time_eq c.ct (as_bytes current_rt) (as_bytes observed_rt))) [
        | inl same ↦ absurd (
            differ
              ((constant_time_eq_iff c.ct (as_bytes current_rt) (as_bytes observed_rt)).0 same))
        | inr other ↦ rw (has, other) refl
      ]

  write_back-shared :
      (current r : OauthSession (Key c)) (cache : DpopNonceCache) (sent : List Sent)
      (o : Result AtprotoOauthError (OauthSession (Key c)))
      → (write_back c initial retrying clocks client current
          (record { nonce_cache = cache; sent = sent; result = o })).0.result
        ≡ ok r
      → (write_back c initial retrying clocks client current
          (record { nonce_cache = cache; sent = sent; result = o })).1
        ≡ r
  unfolding write_back
  write_back-shared current r cache sent (err e) h = absurd (ground arith)
  write_back-shared current r cache sent (ok working) h = ok-injective h

  -- What the shared session is after a refresh that succeeded.
  refresh_under_lock-shared :
      (observed_rt : Str) (current r : OauthSession (Key c))
      → (refresh_under_lock c initial retrying clocks client observed_rt current).0.result ≡ ok r
      → (refresh_under_lock c initial retrying clocks client observed_rt current).1 ≡ r
  unfolding refresh_under_lock
  refresh_under_lock-shared observed_rt current r h =
      let done = refresh_session_locked c initial retrying clocks client current in
      let written = write_back-shared current r done.nonce_cache done.sent done.result in
      elim (Bool-cases
        (is_rotated c initial retrying clocks client observed_rt current.refresh_token)) [
          | inl rotated ↦ ground arith
          | inr same ↦ ground (arith, written)
        ]

-- Two tasks that saw the same session, one after the other under the lock.
module _ (c : Codecs) (initial retrying : Attempt) (clocks : Clocks)
    (client : AtprotoOauthClient (Key c)) (observed : OauthSession (Key c)) where
  -- The shared session after the first task.
  abbrev pub shared_after : OauthSession (Key c)
  shared_after = (refresh_shared_session c initial retrying clocks client observed observed).1

  -- If a task refreshed a shared session that it saw with one refresh token, and the new session
  -- has another refresh token of other bytes, then a later task that saw the same session sends
  -- nothing, returns the new session and leaves it in place.
  pub refresh_shared_session-refresh_shared_session :
      (later_initial later_retrying : Attempt) (later : Clocks)
      (later_client : AtprotoOauthClient (Key c)) (observed_rt new_rt : Str)
      (r : OauthSession (Key c))
      → observed.refresh_token ≡ some observed_rt
      → (refresh_shared_session c initial retrying clocks client observed observed).0.result ≡ ok r
      → r.refresh_token ≡ some new_rt
      → as_bytes new_rt ≢ as_bytes observed_rt
      → refresh_shared_session c later_initial later_retrying later later_client observed
          shared_after
        ≡ (record { nonce_cache = later_client.nonce_cache; sent = []; result = ok r }, r)
  unfolding refresh_shared_session having_seen
  refresh_shared_session-refresh_shared_session later_initial later_retrying later later_client
        observed_rt new_rt r seen done rotated differ =
      let first = having_seen c initial retrying clocks client in
      let second = having_seen c later_initial later_retrying later later_client in
      let ran = subst (λ o. (first o observed).0.result ≡ ok r) seen done in
      let shared : shared_after ≡ r =
        subst (λ o. (first o observed).1 ≡ r) (sym seen)
          (refresh_under_lock-shared c initial retrying clocks client observed_rt observed r ran) in
      ap (λ o. second o shared_after) seen
      ∙ ap (λ s. second (some observed_rt) s) shared
      ∙ refresh_under_lock-rotated c later_initial later_retrying later later_client observed_rt
          new_rt r rotated differ
