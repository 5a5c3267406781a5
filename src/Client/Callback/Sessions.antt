-- ===== src/Client/Callback/Sessions.antt =====
-- What a session that `exchange_code` makes has been checked for.
use mathlib.Core.List.{Memᴰ}
use skyauth.Base.{
  ℕ, ◌≡◌, ◌⊎◌, inl, inr, refl, ap, sym, ◌∙◌, true, false, not, Option, none, some, List, ok, ok_or,
  fail_if, list_eq, list_eq_sound, bind-ok, then-ok, map_err-ok, fail_if-ok, ok_or-ok, arith,
}
use skyauth.Base.Text.{Str, codes, is_empty, trim, eq_ignore_ascii_case}
use skyauth.Session.{OauthSession}
use skyauth.Session
use skyauth.Client.{TokenResponse, StoredStateEntry, token, session, missing_scope}
use skyauth.Client.Wire.{HttpResponse}
use skyauth.Client.Retry.{Request, Attempt}
use skyauth.Client.Retry.Laws.{Sent}
use skyauth.Client.Token.{Codecs, Key}
use skyauth.Client.Token.Grants.{IsGrant}
use skyauth.Client.Callback.{Clocks, AtprotoOauthClient, has_scope, check_sub, session_of}

-- The fields of a session that `OAuthSession::new` made.
new-IsNew :
    {K : Type 0} (last now : ℕ) (sub access_token : Str) (refresh_token : Option Str)
    (token_type : Str) (scope : Option Str) (expires_in : Option ℕ) (dpop_key : K)
    (pds_endpoint auth_server_issuer token_endpoint : Option Str) (s : OauthSession K)
    → Session.new last now sub access_token refresh_token token_type scope expires_in dpop_key
        pds_endpoint auth_server_issuer token_endpoint
      ≡ ok s
    → (s.sub ≡ sub)
      × (s.access_token ≡ access_token)
      × (s.scope ≡ scope)
      × (s.dpop_key ≡ dpop_key)
      × (s.pds_endpoint ≡ pds_endpoint)
      × (s.auth_server_issuer ≡ auth_server_issuer)
      × (eq_ignore_ascii_case s.token_type (codes "DPoP") ≡ true)
unfolding Session.new
new-IsNew last now sub access_token refresh_token token_type scope expires_in dpop_key pds_endpoint
      auth_server_issuer token_endpoint s h =
    (
      ground arith,
      ground arith,
      ground arith,
      ground arith,
      ground arith,
      ground arith,
      ground arith,
    )

module _ (c : Codecs) where
  -- The response that grants a token is among those that were sent.
  abbrev pub IsGranted : TokenResponse → List Sent → Type 0
  IsGranted t sent =
      (q : Request) × (resp : HttpResponse) × Memᴰ (q, some resp) sent × IsGrant c resp t

  module _ (initial retrying : Attempt) (clocks : Clocks)
      (client : AtprotoOauthClient (Key c)) where
    -- The session is that of a token response, for the subject and the key of the entry.
    pub record IsSessionOf (entry : StoredStateEntry (Key c)) (t : TokenResponse)
        (s : OauthSession (Key c)) : Type 0 where
      pub sub : s.sub ≡ t.sub
      pub not_blank : is_empty (trim s.sub) ≡ false
      pub expected : (entry.did ≡ none) ⊎ (entry.did ≡ some s.sub)
      pub token_type : eq_ignore_ascii_case s.token_type (codes "DPoP") ≡ true
      pub access_token : s.access_token ≡ t.access_token
      pub scope : Str
      pub granted : s.scope ≡ some scope
      pub atproto : has_scope scope (codes "atproto") ≡ true
      pub dpop_key : s.dpop_key ≡ entry.dpop_key
      pub issuer : s.auth_server_issuer ≡ some entry.issuer
      pub pds_endpoint : s.pds_endpoint ≡ some entry.pds_endpoint

    check_sub-expected :
        (sub : Str) (did : Option Str) → check_sub sub did ≡ ok tt → (did ≡ none) ⊎ (did ≡ some sub)
    unfolding check_sub
    check_sub-expected sub none h = inl refl
    check_sub-expected sub (some expected) h =
        let same = fail_if-ok (not (list_eq sub expected)) _ h in
        inr (ap some (sym (list_eq_sound sub expected (ground arith))))

    pub session_of-IsSessionOf :
        (entry : StoredStateEntry (Key c)) (t : TokenResponse) (s : OauthSession (Key c))
        → session_of c initial retrying clocks client entry t ≡ ok s
        → IsSessionOf entry t s
    unfolding session_of
    session_of-IsSessionOf entry t s h =
        let (kind, rest) =
          then-ok (fail_if (not (eq_ignore_ascii_case t.token_type (codes "DPoP"))) _) _ h in
        let (blank, rest) = then-ok (fail_if (is_empty (trim t.sub)) _) _ rest in
        let (expected, rest) = then-ok (check_sub t.sub entry.did) _ rest in
        let (scope, granted, rest) = bind-ok (ok_or t.scope (token missing_scope)) _ rest in
        let (atproto, rest) =
          then-ok (fail_if (not (has_scope scope (codes "atproto"))) _) _ rest in
        let made =
          new-IsNew clocks.last clocks.session_now t.sub t.access_token t.refresh_token t.token_type
            t.scope t.expires_in entry.dpop_key (some entry.pds_endpoint) (some entry.issuer)
            (some entry.token_endpoint) s (map_err-ok session _ rest) in
        let (sub, access_token, scope_same, dpop_key, pds_endpoint, issuer, token_type) = made in
        let filled = fail_if-ok (is_empty (trim t.sub)) _ blank in
        let has = fail_if-ok (not (has_scope scope (codes "atproto"))) _ atproto in
        record {
          sub = sub;
          not_blank = ap (λ x. is_empty (trim x)) sub ∙ filled;
          expected = elim (check_sub-expected t.sub entry.did expected) [
            | inl free ↦ inl free
            | inr bound ↦ inr (bound ∙ ap some (sym sub))
          ];
          token_type = token_type;
          access_token = access_token;
          scope = scope;
          granted = scope_same ∙ ok_or-ok t.scope (token missing_scope) granted;
          atproto = ground arith;
          dpop_key = dpop_key;
          issuer = issuer;
          pds_endpoint = pds_endpoint;
        }
