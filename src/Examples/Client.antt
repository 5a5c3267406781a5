-- ===== src/Examples/Client.antt =====
-- The properties of the client at a concrete login: the first token request is answered by a
-- challenge, the second by a token.

use skyauth.Kernels.HtuComponents.{parse}
use skyauth.Dpop.Htu.{normalize_htu, get_nonce, extract_dpop_nonce, set_nonce, origin_key}
use skyauth.Dpop.Key.{create_proof, create_proof_internal, sign_jwt, sign_p256_raw}
use skyauth.Kernels.CtEq.{constant_time_eq}
use skyauth.Kernels.IpFilter.{is_restricted_ip, is_restricted_ipv4_octets}
use skyauth.Net.{parse_ip}
use skyauth.Ssrf.{validate_url, is_blocked_hostname, validate_ip, is_ip_restricted}
use skyauth.Base.{
  inr, ℕ, ◌≡◌, ◌≢◌, refl, Option, some, none, List, [], ◌∷◌, ok, err, arith, replicate,
}
use skyauth.Base.Text.{
  Str, codes, trim_end_matches, trim, to_ascii_lowercase, ends_with, eq_ignore_ascii_case,
  split_whitespace,
}
use skyauth.Base.Utf8.{as_bytes, char_bytes}
use skyauth.Maps.{HashMap, contains_key, retain, get, insert}
use skyauth.Store.{StoredStateRecord, OAuthStateStore, insert_record, take_state_sync}
use skyauth.Store
use skyauth.Store.Refines.{IsWellFormed, new-IsWellFormed, insert_record-IsWellFormed}
use skyauth.Session.{OauthSession, rotate_tokens_with_scope, expiry_of, new}
use skyauth.Ssrf.Resolver.{checked_addrs, pin_host}
use skyauth.Ssrf.Fetch.{build_pinned_client, resolve_and_pin, is_redirection, read_bounded_body}
use skyauth.Dpop.Proof.{Jose}
use skyauth.Client.{
  TokenResponse, StoredStateEntry, CallbackParams, token, invalid_state, is_expired,
}
use skyauth.Client.Wire.{
  HttpResponse, is_refusal, read_bounded_json, is_use_dpop_nonce_error, is_success,
  require_dpop_nonce, is_present,
}
use skyauth.Client.Retry.{Attempt}
use skyauth.Client.Token.{
  Codecs, send_dpop_token_request_inner, build_token_form_body, proof_of, judge, final,
}
use skyauth.Client.Token.Laws.{IsTokenRun, send_dpop_token_request_inner-IsTokenRun}
use skyauth.Client.Resource.{Ask, send_dpop_request}
use skyauth.Client.Resource.Laws.{IsResourceRun, send_dpop_request-IsResourceRun}
use skyauth.Client.Callback.{
  Clocks, AtprotoOauthClient, handle_callback, check_callback, norm_issuer, client_auth_of,
  has_scope, check_sub,
}
use skyauth.Client.Callback.Sessions.{IsGranted}
use skyauth.Client.Callback.Laws.{
  IsAuthenticated, client_after, handle_callback-IsAuthenticated, handle_callback-handle_callback,
}
use skyauth.Client.Refresh.{refresh_session_locked, refresh_shared_session, refresh_form}
use skyauth.Client.Refresh.Laws.{
  IsRefreshed, shared_after, refresh_session_locked-IsRefreshed,
  refresh_shared_session-refresh_shared_session,
}
use skyauth.Client.SingleFlight.{lock_for}
use skyauth.Client.SingleFlight.Laws.{IsTable, lock_for-IsTable}
use skyauth.Examples.Instances.{crypto, subtle, hash}
use skyauth.Examples.Keys.{jose}
use skyauth.Examples.Ssrf

abbrev did : Str
did = codes "did:plc:a"

abbrev granted : TokenResponse
granted = record {
  access_token = codes "at";
  token_type = codes "DPoP";
  expires_in = some 60;
  refresh_token = some (codes "r2");
  scope = some (codes "atproto");
  sub = did;
}

-- Every body is an error that asks for a nonce.
abbrev challenging : Jose
challenging = record jose { get = λ v name. some 9; as_str = λ v. some (codes "use_dpop_nonce") }

abbrev codecs : Codecs
codecs = record {
  jose = challenging;
  signer = record {
    SigningKey = List ℕ;
    verifying_key = λ key. [];
    x = λ key. none;
    y = λ key. none;
    sign = λ key message. replicate 64 7;
    to_string = λ json. codes "j";
    to_uppercase = λ s. s;
  };
  crypto = crypto;
  ct = subtle;
  parse = Ssrf.parse;
  urlencoded = λ pairs. some (codes "f");
  append_pair = λ form name value. form;
  token_response = λ bytes. some granted;
}

abbrev answer_with : (status : ℕ) (given : Str) → HttpResponse
answer_with status given = record {
  response = record Ssrf.response { status = status };
  dpop_nonce = some given;
  www_authenticate = [];
}

abbrev attempt : (status : ℕ) (given : Str) → Attempt
attempt status given = record {
  world = Ssrf.world;
  send = λ hook request. some (answer_with status given);
  clock = some 1000;
  jti_bytes = 1 ∷ [];
  assertion_clock = some 1000;
  assertion_jti_bytes = 2 ∷ [];
}

abbrev initial : Attempt
initial = attempt 400 (codes "n1")

abbrev retrying : Attempt
retrying = attempt 200 (codes "n2")

abbrev entry : StoredStateEntry (List ℕ)
entry = record {
  state = codes "st";
  client_id = codes "c";
  code_verifier = codes "v";
  dpop_key = [];
  issuer = codes "https://as.example";
  did = some did;
  handle = none;
  redirect_uri = codes "https://c.example/cb";
  pds_endpoint = codes "https://pds.example";
  token_endpoint = codes "https://as.example/token";
  scopes = codes "atproto";
  created_at = 0;
  expires_in_secs = 300;
}

abbrev empty : OAuthStateStore (StoredStateEntry (List ℕ))
empty = Store.new 300

abbrev stored : StoredStateRecord (StoredStateEntry (List ℕ))
stored = record { entry = entry; created_at = 10; expires_at = 40 }

abbrev client : AtprotoOauthClient (List ℕ)
client = record {
  metadata = record {
    client_id = codes "c";
    redirect_uri = codes "https://c.example/cb";
    scope = codes "atproto";
    client_name = none;
    client_key = none;
  };
  nonce_cache = [];
  resolver = Ssrf.resolver;
  state_store = (insert_record hash empty (codes "st") stored 10).1;
}

abbrev clocks : Clocks
clocks = record { store_now = 20; entry_now = 20; session_now = 30; last = 100000000000000 }

abbrev params : CallbackParams
params = record {
  code = codes "code";
  state = codes "st";
  iss = some (codes "https://as.example/");
}

abbrev session : OauthSession (List ℕ)
session = record {
  sub = did;
  access_token = codes "at";
  refresh_token = some (codes "r2");
  token_type = codes "DPoP";
  scope = some (codes "atproto");
  expires_at = some 60000000030;
  dpop_key = [];
  pds_endpoint = some (codes "https://pds.example");
  auth_server_issuer = some (codes "https://as.example");
  token_endpoint = some (codes "https://as.example/token");
  created_at = 30;
}

store-IsWellFormed : IsWellFormed client.state_store
store-IsWellFormed =
    insert_record-IsWellFormed hash empty (codes "st") stored 10
      (new-IsWellFormed (StoredStateEntry (List ℕ)) 300)

send_dpop_token_request_inner-IsTokenRun_example :
    IsTokenRun codecs initial retrying
      (codes "https://as.example/token")
      []
      (codes "f")
      none
      (send_dpop_token_request_inner codecs initial retrying
        (codes "https://as.example/token")
        []
        (codes "f")
        none
        Ssrf.resolver
        []).sent
send_dpop_token_request_inner-IsTokenRun_example =
    send_dpop_token_request_inner-IsTokenRun codecs initial retrying
      (codes "https://as.example/token") [] (codes "f") none Ssrf.resolver []

abbrev ask : Ask
ask = record {
  method = codes "POST";
  url_str = codes "https://pds.example/xrpc/a.b.c";
  access_token = some (codes "at");
  body_bytes = some (1 ∷ []);
  content_type = none;
}

send_dpop_request-IsResourceRun_example :
    IsResourceRun codecs initial retrying [] ask
      (send_dpop_request codecs initial retrying [] ask Ssrf.resolver []).sent
send_dpop_request-IsResourceRun_example =
    send_dpop_request-IsResourceRun codecs initial retrying [] ask Ssrf.resolver []

signed_in :
    (handle_callback codecs initial retrying clocks client hash params).0.result ≡ ok session
unfolding handle_callback take_state_sync Store.if_live get insert_record Store.new Store.admit
    insert Store.is_expired check_callback is_expired norm_issuer trim_end_matches trim
    send_dpop_token_request_inner build_pinned_client resolve_and_pin validate_url
    is_blocked_hostname to_ascii_lowercase ends_with parse_ip checked_addrs validate_ip
    is_ip_restricted is_restricted_ip is_restricted_ipv4_octets build_token_form_body client_auth_of
    proof_of create_proof create_proof_internal normalize_htu parse sign_jwt sign_p256_raw judge
    is_redirection is_refusal read_bounded_json read_bounded_body is_use_dpop_nonce_error get_nonce
    extract_dpop_nonce set_nonce origin_key pin_host final is_success require_dpop_nonce is_present
    eq_ignore_ascii_case check_sub has_scope split_whitespace new expiry_of
signed_in = refl

handle_callback-IsAuthenticated_example :
    (found : StoredStateEntry (List ℕ)) × ((take_state_sync hash client.state_store params.state
        clocks.store_now).0
      ≡ some found)
    × IsAuthenticated codecs initial retrying clocks client params found
        (handle_callback codecs initial retrying clocks client hash params).0.sent
        session
handle_callback-IsAuthenticated_example =
    handle_callback-IsAuthenticated codecs initial retrying clocks client hash params session
      signed_in

handle_callback-handle_callback_example :
    (handle_callback codecs retrying retrying clocks
      (client_after codecs initial retrying clocks client hash params)
      hash
      params).0
    ≡ record {
      nonce_cache = (client_after codecs initial retrying clocks client hash params).nonce_cache;
      sent = [];
      result = err (token (invalid_state (codes "st")));
    }
handle_callback-handle_callback_example =
    handle_callback-handle_callback codecs initial retrying clocks client hash params retrying
      retrying clocks params store-IsWellFormed refl

abbrev old_session : OauthSession (List ℕ)
old_session = record session { refresh_token = some (codes "r1"); access_token = codes "old" }

refreshed :
    (refresh_session_locked codecs initial retrying clocks client old_session).result ≡ ok session
unfolding refresh_session_locked refresh_form send_dpop_token_request_inner build_pinned_client
    resolve_and_pin validate_url is_blocked_hostname trim_end_matches to_ascii_lowercase ends_with
    parse_ip checked_addrs validate_ip is_ip_restricted is_restricted_ip is_restricted_ipv4_octets
    build_token_form_body client_auth_of proof_of create_proof create_proof_internal normalize_htu
    trim parse sign_jwt sign_p256_raw judge is_redirection is_refusal read_bounded_json
    read_bounded_body is_use_dpop_nonce_error get_nonce get extract_dpop_nonce set_nonce insert
    origin_key pin_host final is_success require_dpop_nonce is_present eq_ignore_ascii_case
    has_scope split_whitespace rotate_tokens_with_scope expiry_of
refreshed = refl

refresh_session_locked-IsRefreshed_example :
    (t : TokenResponse) × IsGranted codecs t
      (refresh_session_locked codecs initial retrying clocks client old_session).sent
    × IsRefreshed codecs initial retrying clocks client old_session t session
refresh_session_locked-IsRefreshed_example =
    refresh_session_locked-IsRefreshed codecs initial retrying clocks client old_session session
      refreshed

shared :
    (refresh_shared_session codecs initial retrying clocks client old_session old_session).0.result
    ≡ ok session
unfolding refresh_shared_session constant_time_eq as_bytes refresh_form
    send_dpop_token_request_inner build_pinned_client resolve_and_pin validate_url
    is_blocked_hostname trim_end_matches to_ascii_lowercase ends_with parse_ip checked_addrs
    validate_ip is_ip_restricted is_restricted_ip is_restricted_ipv4_octets build_token_form_body
    client_auth_of proof_of create_proof create_proof_internal normalize_htu trim parse sign_jwt
    sign_p256_raw judge is_redirection is_refusal read_bounded_json read_bounded_body
    is_use_dpop_nonce_error get_nonce get extract_dpop_nonce set_nonce insert origin_key pin_host
    final is_success require_dpop_nonce is_present eq_ignore_ascii_case has_scope split_whitespace
    rotate_tokens_with_scope expiry_of
shared = refl

rotated : as_bytes (codes "r2") ≢ as_bytes (codes "r1")
unfolding as_bytes char_bytes
rotated = λ e. ground arith

refresh_shared_session-refresh_shared_session_example :
    refresh_shared_session codecs initial initial clocks client old_session
      (shared_after codecs initial retrying clocks client old_session)
    ≡ (record { nonce_cache = []; sent = []; result = ok session }, session)
refresh_shared_session-refresh_shared_session_example =
    refresh_shared_session-refresh_shared_session codecs initial retrying clocks client old_session
      initial initial clocks client (codes "r1") (codes "r2") session refl shared refl rotated

abbrev table : HashMap ℕ
table = (codes "a", 1) ∷ []

abbrev first_key : HashMap ℕ → Option Str
first_key [] = none
first_key (e ∷ m) = some e.0

lock_for-IsTable_example :
    IsTable (λ lock. 2) first_key (lock_for (λ lock. 2) first_key table (codes "b") 5).1
unfolding contains_key retain
lock_for-IsTable_example =
    lock_for-IsTable (λ lock. 2) first_key table (codes "b") 5 ((refl, tt), omega arith)
      (inr (codes "a", refl, refl))
