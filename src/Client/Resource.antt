-- ===== src/Client/Resource.antt =====
-- src/client.rs: `send_dpop_request` and `send_xrpc_request`, the requests to a resource server.
pub mod Laws
use skyauth.Base.{
  ℕ, ◌++◌, Bool, true, false, not, Option, none, some, List, [], ◌∷◌, length, Result, ok, err,
  ◌>>=◌, ◌>>◌, fail_if, ok_or, map_err, if◌then◌else◌,
}
use mathlib.Core.Option
use skyauth.Base.Text.{Str, codes, is_empty, trim_start_matches, trim_end_matches}
use skyauth.Kernels.NsidBytes.{is_valid_nsid}
use skyauth.Session.{OauthSession}
use skyauth.Url.{Url, UrlParser}
use skyauth.Ssrf.Fetch.{build_pinned_client}
use skyauth.Ssrf.Resolver.{SsrfDnsResolver}
use skyauth.Dpop.Errors.{nonce_retry_limit_exceeded}
use skyauth.Dpop.Htu.{DpopNonceCache, get_nonce, compute_access_token_hash}
use skyauth.Client.{
  AtprotoOauthError, TokenError, token, dpop_error, http, ssrf, invalid_nsid, missing_field,
}
use skyauth.Client.Wire.{
  HttpResponse, require_dpop_nonce, is_refusal, is_success, is_rs_dpop_nonce_challenge,
  is_use_dpop_nonce_error, read_body,
}
use skyauth.Client.Retry.{
  Request, Attempt, Exchange, Verdict, finished, challenged, Course, with_retry,
}
use skyauth.Client.Token.{Codecs, Key, proof_of}

-- What a caller of `send_dpop_request` asks for.
pub record Ask : Type 0 where
  pub method : Str
  pub url_str : Str
  pub access_token : Option Str
  pub body_bytes : Option (List ℕ)
  pub content_type : Option Str

-- The response with a body that was buffered.
unfoldable pub rebuilt : HttpResponse → (bytes : List ℕ) → HttpResponse
rebuilt resp bytes = record resp {
  response = record resp.response {
    content_length = some (length bytes);
    chunks = some (record { bytes = bytes; content_length = some 0 }) ∷ [];
  };
}

module _ (c : Codecs) where
  -- A refusal that its header does not call a challenge.
  unfoldable pub judge_body : HttpResponse → Result TokenError (List ℕ) → Verdict HttpResponse
  unfolding rebuilt
  judge_body resp (err e) = finished (err (token e))
  judge_body resp (ok bytes) =
      if is_use_dpop_nonce_error c.jose (c.jose.from_slice bytes)
      then challenged
      else finished (ok (rebuilt resp bytes))

  unfoldable pub judge : HttpResponse → Verdict HttpResponse
  unfolding judge_body
  judge resp =
      if is_refusal resp
      then if is_rs_dpop_nonce_challenge resp
        then challenged
        else judge_body resp (read_body c.jose resp)
      else finished (map_err dpop_error (require_dpop_nonce resp) >> ok resp)

  unfoldable pub final : HttpResponse → Result AtprotoOauthError HttpResponse
  unfolding rebuilt
  final resp =
      if is_refusal resp
      then if is_rs_dpop_nonce_challenge resp
        then err (dpop_error nonce_retry_limit_exceeded)
        else (map_err token (read_body c.jose resp) >>= λ bytes.
            if is_use_dpop_nonce_error c.jose (c.jose.from_slice bytes)
            then err (dpop_error nonce_retry_limit_exceeded)
            else ok (rebuilt resp bytes))
      else if is_success resp
      then map_err dpop_error (require_dpop_nonce resp) >> ok resp
      else ok resp

  module _ (initial retrying : Attempt) (dpop_key : Key c) (ask : Ask) where
    -- `access_token.map(compute_access_token_hash)`.
    unfoldable pub ath_of : Option Str
    ath_of = Option.map (λ t. compute_access_token_hash c.crypto t) ask.access_token

    -- The request, with the `authorization` header of a token.
    unfoldable pub request_of : (host_header proof : Str) → Request
    request_of host_header proof = record {
      method = ask.method;
      url = ask.url_str;
      host_header = host_header;
      dpop = proof;
      authorization = Option.map (λ t. codes "DPoP " ++ t) ask.access_token;
      content_type = ask.content_type;
      body = ask.body_bytes;
    }

    unfoldable pub first_request :
        SsrfDnsResolver
        → Url
        → (initial_nonce : Option Str) → Result AtprotoOauthError (SsrfDnsResolver × Request)
    unfolding ath_of request_of
    first_request resolver parsed initial_nonce =
        map_err (λ e. token (ssrf e)) (build_pinned_client initial.world resolver parsed)
        >>= λ built.
            proof_of c initial dpop_key ask.method ask.url_str initial_nonce ath_of >>= λ proof.
            ok (built.0, request_of built.1.1 proof)

    unfoldable pub second_request :
        Url
        → SsrfDnsResolver
        → (fresh_nonce : Str) → Result AtprotoOauthError (SsrfDnsResolver × Request)
    unfolding ath_of request_of
    second_request parsed resolver fresh_nonce =
        proof_of c retrying dpop_key ask.method ask.url_str (some fresh_nonce) ath_of >>= λ proof.
        map_err (λ e. token (ssrf e)) (build_pinned_client retrying.world resolver parsed)
        >>= λ built. ok (built.0, request_of built.1.1 proof)

    unfoldable pub course : SsrfDnsResolver → DpopNonceCache → Url → Course HttpResponse
    unfolding first_request second_request
    course resolver cache parsed = record {
      origin = parsed.ascii_origin;
      first = first_request resolver parsed (get_nonce cache parsed.ascii_origin);
      judge = judge;
      second = second_request parsed;
      final = final;
    }

    unfoldable pub send_to : SsrfDnsResolver → DpopNonceCache → Option Url → Exchange HttpResponse
    unfolding course with_retry
    send_to resolver cache none = record {
      nonce_cache = cache;
      sent = [];
      result = err (token http);
    }
    send_to resolver cache (some parsed) =
        with_retry (course resolver cache parsed) initial retrying cache

    unfoldable pub send_dpop_request : SsrfDnsResolver → DpopNonceCache → Exchange HttpResponse
    unfolding send_to
    send_dpop_request resolver cache = send_to resolver cache (c.parse ask.url_str)

-- `Url::set_path`, `query_pairs_mut().extend_pairs(…)` and `Url::as_str`.
pub record UrlEditor : Type 0 where
  pub set_path : Url → Str → Url
  pub extend_pairs : Url → List (Str × Str) → Url
  pub as_str : Url → Str

-- `if !query_params.is_empty()`.
unfoldable pub with_query : UrlEditor → Url → List (Str × Str) → Url
with_query edit url query_params =
    if is_empty query_params then url else edit.extend_pairs url query_params

unfoldable pub validate_xrpc_nsid : (nsid : Str) → Result TokenError (Unit {0})
validate_xrpc_nsid nsid = fail_if (not (is_valid_nsid nsid)) (invalid_nsid nsid)

-- The target of an XRPC call under the path of the PDS.
unfoldable pub xrpc_url : UrlEditor → Url → (nsid : Str) → List (Str × Str) → Url
unfolding with_query
xrpc_url edit url nsid query_params =
    let trimmed_nsid = trim_start_matches b'/' nsid in
    let base_path = trim_end_matches b'/' url.path in
    with_query edit (edit.set_path url (base_path ++ codes "/xrpc/" ++ trimmed_nsid)) query_params

module _ (c : Codecs) (edit : UrlEditor) (initial retrying : Attempt) where
  unfoldable pub xrpc_target :
      OauthSession (Key c)
      → (nsid : Str) (query_params : List (Str × Str)) → Result AtprotoOauthError Str
  unfolding xrpc_url
  xrpc_target s nsid query_params =
      map_err token (validate_xrpc_nsid nsid)
      >> (ok_or s.pds_endpoint (token (missing_field (codes "pds_endpoint"))) >>= λ pds_endpoint.
          ok_or (c.parse pds_endpoint) (token http) >>= λ url.
          ok (edit.as_str (xrpc_url edit url nsid query_params)))

  unfoldable pub send_to_target :
      OauthSession (Key c)
      → SsrfDnsResolver
      → DpopNonceCache
      → Result AtprotoOauthError Str
      → Exchange HttpResponse
  unfolding send_dpop_request
  send_to_target s resolver cache (err e) = record {
    nonce_cache = cache;
    sent = [];
    result = err e;
  }
  send_to_target s resolver cache (ok url_str) =
      send_dpop_request c initial retrying s.dpop_key
        (record {
          method = codes "GET";
          url_str = url_str;
          access_token = some s.access_token;
          body_bytes = none;
          content_type = none;
        })
        resolver cache

  unfoldable pub send_xrpc_request :
      OauthSession (Key c)
      → (nsid : Str) (query_params : List (Str × Str)) → SsrfDnsResolver
      → DpopNonceCache
      → Exchange HttpResponse
  unfolding send_to_target xrpc_target
  send_xrpc_request s nsid query_params resolver cache =
      send_to_target s resolver cache (xrpc_target s nsid query_params)
