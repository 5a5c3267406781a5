-- ===== src/Client/Callback.antt =====
-- src/client.rs: `AtprotoOAuthClient`, `handle_callback` and the exchange of a code for a session.
pub mod Sessions
pub mod Laws
use skyauth.Base.{
  ℕ, Bool, true, false, not, ◌||◌, Option, none, some, List, [], ◌∷◌, any, list_eq, Result, ok, err,
  ◌>>=◌, ◌>>◌, fail_if, ok_or, map_err,
}
use skyauth.Base.Text.{
  Str, codes, is_empty, trim, trim_end_matches, split_whitespace, eq_ignore_ascii_case,
}
use skyauth.Store.{OAuthStateStore, take_state_sync}
use skyauth.Session.{OauthSession}
use skyauth.Session
use skyauth.Ssrf.Resolver.{SsrfDnsResolver}
use skyauth.Dpop.Htu.{DpopNonceCache}
use skyauth.Client.{
  AtprotoOauthError, TokenResponse, StoredStateEntry, CallbackParams, OauthClientMetadata,
  is_expired, token, http, session, invalid_token_type, missing_did, sub_mismatch, missing_scope,
  missing_atproto_scope, invalid_state, state_expired, missing_callback_issuer, issuer_mismatch,
}
use skyauth.Client.Retry.{Attempt, Exchange}
use skyauth.Client.Token.{Codecs, Key, ClientAuth, send_dpop_token_request_inner}

-- The readings of the clocks: of the store, for the age of the entry, and for the session, with
-- the latest time that it can hold.
pub record Clocks : Type 0 where
  pub store_now : ℕ
  pub entry_now : ℕ
  pub session_now : ℕ
  pub last : ℕ

-- `AtprotoOAuthClient`, as far as these operations use it: the resolver is that of its filter.
pub record AtprotoOauthClient (K : Type 0) : Type 0 where
  pub metadata : OauthClientMetadata K
  pub nonce_cache : DpopNonceCache
  pub resolver : SsrfDnsResolver
  pub state_store : OAuthStateStore (StoredStateEntry K)

-- The rest of an operation, on the result of its request.
unfoldable pub and_then :
    {A B : Type 0} → Exchange A → (A → Result AtprotoOauthError B) → Exchange B
and_then e f = record { nonce_cache = e.nonce_cache; sent = e.sent; result = e.result >>= f }

-- `.map(|k| (k, client_id, audience))`.
unfoldable pub client_auth_of :
    {K : Type 0} → Option K → (client_id audience : Str) → Option (ClientAuth K)
client_auth_of none client_id audience = none
client_auth_of (some k) client_id audience =
    some (record { ckey = k; client_id = client_id; audience = audience })

-- `split_whitespace().any(|s| s == name)`.
unfoldable pub has_scope : (scope name : Str) → Bool
has_scope scope name = any (λ s. list_eq s name) (split_whitespace scope)

-- `if let Some(ref expected_did) = state_entry.did`.
unfoldable pub check_sub : (sub : Str) → Option Str → Result AtprotoOauthError (Unit {0})
check_sub sub none = ok tt
check_sub sub (some expected_did) =
    fail_if (not (list_eq sub expected_did)) (token (sub_mismatch expected_did sub))

module _ (c : Codecs) (initial retrying : Attempt) (clocks : Clocks)
    (client : AtprotoOauthClient (Key c)) where
  -- The checks of `exchange_code` on the response, and the session.
  unfoldable pub session_of :
      StoredStateEntry (Key c) → TokenResponse → Result AtprotoOauthError (OauthSession (Key c))
  session_of entry resp =
      fail_if (not (eq_ignore_ascii_case resp.token_type (codes "DPoP")))
        (token (invalid_token_type resp.token_type))
      >> (fail_if (is_empty (trim resp.sub)) (token missing_did)
          >> (check_sub resp.sub entry.did
              >> (ok_or resp.scope (token missing_scope) >>= λ scope.
                  fail_if (not (has_scope scope (codes "atproto")))
                    (token (missing_atproto_scope scope))
                  >> map_err session (
                      Session.new clocks.last clocks.session_now resp.sub resp.access_token
                        resp.refresh_token resp.token_type resp.scope resp.expires_in entry.dpop_key
                        (some entry.pds_endpoint) (some entry.issuer)
                        (some entry.token_endpoint)))))

  -- `exchange_code`, with the outcome of `serde_urlencoded::to_string`.
  unfoldable pub exchange_form :
      StoredStateEntry (Key c) → Option Str → Exchange (OauthSession (Key c))
  unfolding and_then session_of
  exchange_form entry none = record {
    nonce_cache = client.nonce_cache;
    sent = [];
    result = err (token http);
  }
  exchange_form entry (some form_body) =
      and_then
        (send_dpop_token_request_inner c initial retrying entry.token_endpoint entry.dpop_key
          form_body (client_auth_of client.metadata.client_key entry.client_id entry.issuer)
          client.resolver client.nonce_cache)
        (session_of entry)

  unfoldable pub exchange_code :
      (code : Str) → StoredStateEntry (Key c) → Exchange (OauthSession (Key c))
  unfolding exchange_form
  exchange_code code entry = exchange_form entry (
      c.urlencoded (
        (codes "grant_type", codes "authorization_code")
        ∷ (codes "code", code)
        ∷ (codes "redirect_uri", entry.redirect_uri)
        ∷ (codes "client_id", entry.client_id)
        ∷ (codes "code_verifier", entry.code_verifier)
        ∷ []))

  -- `trim().trim_end_matches('/')`.
  unfoldable pub norm_issuer : Str → Str
  norm_issuer iss = trim_end_matches b'/' (trim iss)

  -- The guards of `handle_callback_with_entry`.
  unfoldable pub check_callback :
      CallbackParams → StoredStateEntry (Key c) → Result AtprotoOauthError (Unit {0})
  check_callback params entry =
      fail_if (not (list_eq params.state entry.state)) (token (invalid_state params.state))
      >> (fail_if (is_expired entry clocks.entry_now) (token state_expired)
          >> (ok_or params.iss (token missing_callback_issuer) >>= λ callback_iss.
              fail_if (not (list_eq (norm_issuer callback_iss) (norm_issuer entry.issuer)))
                (token (issuer_mismatch entry.issuer callback_iss))))

  unfoldable pub after_guards :
      CallbackParams
      → StoredStateEntry (Key c)
      → Result AtprotoOauthError (Unit {0})
      → Exchange (OauthSession (Key c))
  unfolding exchange_code
  after_guards params entry (err e) = record {
    nonce_cache = client.nonce_cache;
    sent = [];
    result = err e;
  }
  after_guards params entry (ok u) = exchange_code params.code entry

  unfoldable pub handle_callback_with_entry :
      CallbackParams → StoredStateEntry (Key c) → Exchange (OauthSession (Key c))
  unfolding after_guards
  handle_callback_with_entry params entry = after_guards params entry (check_callback params entry)

  -- `handle_callback`, with what the store hands out.
  unfoldable pub with_taken :
      CallbackParams → Option (StoredStateEntry (Key c)) → Exchange (OauthSession (Key c))
  unfolding handle_callback_with_entry
  with_taken params none = record {
    nonce_cache = client.nonce_cache;
    sent = [];
    result = err (token (invalid_state params.state));
  }
  with_taken params (some entry) = handle_callback_with_entry params entry

  unfoldable pub handle_callback :
      (hash : Str → ℕ)
      → CallbackParams
      → Exchange (OauthSession (Key c)) × AtprotoOauthClient (Key c)
  unfolding with_taken
  handle_callback hash params =
      let taken = take_state_sync hash client.state_store params.state clocks.store_now in
      let done = with_taken params taken.0 in
      (done, record client { nonce_cache = done.nonce_cache; state_store = taken.1 })
