-- ===== src/Client/Callback/Laws.antt =====
-- What a session of a callback has been checked for, and that a callback is taken once.

use skyauth.Base.{
  ℕ, ◌≡◌, refl, false, not, Option, none, some, List, [], Result, ok, err, ok_or, fail_if, list_eq,
  list_eq_refl, list_eq_sound, bind-ok, then-ok, fail_if-ok, ok_or-ok, arith,
}
use skyauth.Base.Text.{Str}
use skyauth.Store.{take_state_sync}
use skyauth.Store.Refines.{IsWellFormed, view, take_state_sync-view, take_state_sync-IsWellFormed}
use skyauth.Session.{OauthSession}
use skyauth.Client.{
  AtprotoOauthError, TokenResponse, StoredStateEntry, CallbackParams, is_expired, token,
  invalid_state, missing_callback_issuer,
}
use skyauth.Client.Retry.{Attempt}
use skyauth.Client.Retry.Laws.{Sent}
use skyauth.Client.Token.{Codecs, Key, send_dpop_token_request_inner}
use skyauth.Client.Token.Laws.{send_dpop_token_request_inner-IsGrant}
use skyauth.Client.Callback.{
  Clocks, AtprotoOauthClient, and_then, client_auth_of, session_of, exchange_form, exchange_code,
  norm_issuer, check_callback, after_guards, handle_callback_with_entry, with_taken,
  handle_callback,
}
use skyauth.Client.Callback.Sessions.{IsGranted, IsSessionOf, session_of-IsSessionOf}

module _ (c : Codecs) where
  module _ (initial retrying : Attempt) (clocks : Clocks)
      (client : AtprotoOauthClient (Key c)) where
    exchange_form-IsSessionOf :
        (entry : StoredStateEntry (Key c)) (o : Option Str) (s : OauthSession (Key c))
        → (exchange_form c initial retrying clocks client entry o).result ≡ ok s
        → (t : TokenResponse) × IsGranted c t
            (exchange_form c initial retrying clocks client entry o).sent
          × IsSessionOf c initial retrying clocks client entry t s
    unfolding exchange_form and_then
    exchange_form-IsSessionOf entry none s h = absurd (ground arith)
    exchange_form-IsSessionOf entry (some form_body) s h =
        let auth = client_auth_of client.metadata.client_key entry.client_id entry.issuer in
        let run =
          send_dpop_token_request_inner c initial retrying entry.token_endpoint entry.dpop_key
            form_body auth client.resolver client.nonce_cache in
        let (t, got, checked) =
          bind-ok run.result (session_of c initial retrying clocks client entry) h in
        let granted =
          send_dpop_token_request_inner-IsGrant c initial retrying entry.token_endpoint
            entry.dpop_key form_body auth client.resolver client.nonce_cache t got in
        (t, granted, session_of-IsSessionOf c initial retrying clocks client entry t s checked)

    -- What the callback has been checked for against the entry.
    pub record IsAnswerTo (params : CallbackParams) (entry : StoredStateEntry (Key c))
        : Type 0 where
      pub state : params.state ≡ entry.state
      pub live : is_expired entry clocks.entry_now ≡ false
      pub iss : Str
      pub given : params.iss ≡ some iss
      pub same :
          norm_issuer c initial retrying clocks client iss
          ≡ norm_issuer c initial retrying clocks client entry.issuer

    check_callback-IsAnswerTo :
        (params : CallbackParams) (entry : StoredStateEntry (Key c))
        → check_callback c initial retrying clocks client params entry ≡ ok tt
        → IsAnswerTo params entry
    unfolding check_callback
    check_callback-IsAnswerTo params entry h =
        let (state, rest) = then-ok (fail_if (not (list_eq params.state entry.state)) _) _ h in
        let (live, rest) = then-ok (fail_if (is_expired entry clocks.entry_now) _) _ rest in
        let (iss, given, same) =
          bind-ok (ok_or params.iss (token missing_callback_issuer)) _ rest in
        let norm = norm_issuer c initial retrying clocks client in
        let equal = fail_if-ok (not (list_eq params.state entry.state)) _ state in
        let equal_iss = fail_if-ok (not (list_eq (norm iss) (norm entry.issuer))) _ same in
        record {
          state = list_eq_sound params.state entry.state (ground arith);
          live = fail_if-ok (is_expired entry clocks.entry_now) _ live;
          iss = iss;
          given = ok_or-ok params.iss (token missing_callback_issuer) given;
          same = list_eq_sound (norm iss) (norm entry.issuer) (ground arith);
        }

    -- A session that came of an entry.
    abbrev pub IsAuthenticated :
        CallbackParams → StoredStateEntry (Key c) → List Sent → OauthSession (Key c) → Type 0
    IsAuthenticated params entry sent s =
        IsAnswerTo params entry
        × (t : TokenResponse) × IsGranted c t sent
        × IsSessionOf c initial retrying clocks client entry t s

    after_guards-IsAuthenticated :
        (params : CallbackParams) (entry : StoredStateEntry (Key c))
        (g : Result AtprotoOauthError (Unit {0})) (s : OauthSession (Key c))
        → check_callback c initial retrying clocks client params entry ≡ g
        → (after_guards c initial retrying clocks client params entry g).result ≡ ok s
        → IsAuthenticated params entry
            (after_guards c initial retrying clocks client params entry g).sent
            s
    unfolding after_guards exchange_code
    after_guards-IsAuthenticated params entry (err e) s g h = absurd (ground arith)
    after_guards-IsAuthenticated params entry (ok u) s g h =
        let (t, granted, made) = exchange_form-IsSessionOf entry _ s h in
        (check_callback-IsAnswerTo params entry g, t, granted, made)

    with_taken-IsAuthenticated :
        (params : CallbackParams) (o : Option (StoredStateEntry (Key c))) (s : OauthSession (Key c))
        → (with_taken c initial retrying clocks client params o).result ≡ ok s
        → (entry : StoredStateEntry (Key c)) × (o ≡ some entry)
          × IsAuthenticated params entry
              (with_taken c initial retrying clocks client params o).sent
              s
    unfolding with_taken handle_callback_with_entry
    with_taken-IsAuthenticated params none s h = absurd (ground arith)
    with_taken-IsAuthenticated params (some entry) s h = (
      entry,
      refl,
      after_guards-IsAuthenticated params entry
          (check_callback c initial retrying clocks client params entry) s refl h,
    )

    -- A session that `handle_callback` returns comes of an entry that the store handed out for the
    -- callback's state: the entry has that state and has not expired, the callback names the
    -- issuer of the entry up to outer space and trailing slashes, and one of the requests that
    -- were sent was answered by a response with a good status, a nonce and a token. The session
    -- has the subject of that token, which is not blank and is the expected one if there is one, a
    -- scope with `atproto`, and the key, the issuer and the resource server of the entry.
    pub handle_callback-IsAuthenticated :
        (hash : Str → ℕ) (params : CallbackParams) (s : OauthSession (Key c))
        → (handle_callback c initial retrying clocks client hash params).0.result ≡ ok s
        → (entry : StoredStateEntry (Key c)) × ((take_state_sync hash client.state_store
              params.state clocks.store_now).0
            ≡ some entry)
          × IsAuthenticated params entry
              (handle_callback c initial retrying clocks client hash params).0.sent
              s
    unfolding handle_callback
    handle_callback-IsAuthenticated hash params s h =
        with_taken-IsAuthenticated params
          (take_state_sync hash client.state_store params.state clocks.store_now).0 s h

    -- A state that the store has no record of.
    handle_callback-absent :
        (hash : Str → ℕ) (params : CallbackParams)
        → IsWellFormed client.state_store
        → view hash client.state_store params.state ≡ none
        → (handle_callback c initial retrying clocks client hash params).0 ≡ record {
          nonce_cache = client.nonce_cache;
          sent = [];
          result = err (token (invalid_state params.state));
        }
    unfolding handle_callback with_taken
    handle_callback-absent hash params w absent =
        let (taken, left) =
          take_state_sync-view hash client.state_store params.state clocks.store_now w in
        rw (taken, absent) refl

-- A second callback with the same state.
module _ (c : Codecs) (initial retrying : Attempt) (clocks : Clocks)
    (client : AtprotoOauthClient (Key c)) (hash : Str → ℕ) (params : CallbackParams) where
  -- The client after the first callback.
  abbrev pub client_after : AtprotoOauthClient (Key c)
  client_after = (handle_callback c initial retrying clocks client hash params).1

  -- In a client whose store is well formed, after a callback, whatever came of it, a later
  -- callback with the same state sends nothing and is refused, at any time and whatever the
  -- network does.
  pub handle_callback-handle_callback :
      (later_initial later_retrying : Attempt) (later : Clocks) (replay : CallbackParams)
      → IsWellFormed client.state_store
      → replay.state ≡ params.state
      → (handle_callback c later_initial later_retrying later client_after hash replay).0 ≡ record {
        nonce_cache = client_after.nonce_cache;
        sent = [];
        result = err (token (invalid_state replay.state));
      }
  unfolding handle_callback
  handle_callback-handle_callback later_initial later_retrying later replay w same =
      let (taken, left) =
        take_state_sync-view hash client.state_store params.state clocks.store_now w in
      let kept =
        take_state_sync-IsWellFormed hash client.state_store params.state clocks.store_now w in
      let eq = list_eq_refl params.state in
      let gone : view hash client_after.state_store replay.state ≡ none =
        rw (same, left params.state, eq) refl in
      handle_callback-absent c later_initial later_retrying later client_after hash replay kept gone
