-- ===== src/Client/Token.antt =====
-- src/client.rs: `send_dpop_token_request_inner`, the request to a token endpoint.
pub mod Grants
pub mod Laws
use skyauth.Base.{
  ◌==◌, Bool, true, false, not, Option, none, some, List, [], ℕ, Result, ok, err, ◌>>=◌, ◌>>◌,
  ok_or, map_err, if◌then◌else◌,
}
use skyauth.Base.Text.{Str, codes}
use skyauth.Base.Utf8.{as_bytes}
use skyauth.Crypto.{Crypto}
use skyauth.Kernels.CtEq.{Subtle}
use skyauth.Url.{Url, UrlParser}
use skyauth.Ssrf.Fetch.{build_pinned_client, is_redirection}
use skyauth.Ssrf.Resolver.{SsrfDnsResolver}
use skyauth.Dpop.Errors.{nonce_retry_limit_exceeded}
use skyauth.Dpop.Proof.{Jose}
use skyauth.Dpop.Key.{Signer, create_proof, create_client_assertion}
use skyauth.Dpop.Htu.{DpopNonceCache, get_nonce}
use skyauth.Client.{
  AtprotoOauthError, TokenError, TokenResponse, token, dpop_error, http, json, ssrf, dpop,
  request_failed,
}
use skyauth.Client.Wire.{
  HttpResponse, require_dpop_nonce, is_refusal, is_success, parse_oauth_error_fields,
  is_use_dpop_nonce_error, read_body, read_bounded_json,
}
use skyauth.Client.Retry.{
  Request, Attempt, Exchange, Verdict, finished, challenged, Course, with_retry,
}

-- The `p256` and `base64` crates, `serde_urlencoded::to_string`, `append_pair` of
-- `url::form_urlencoded`, and the deserializer of `TokenResponse`.
pub record Codecs : Type 1 where
  pub jose : Jose
  pub signer : Signer jose
  pub crypto : Crypto
  pub ct : Subtle
  pub parse : UrlParser
  pub urlencoded : List (Str × Str) → Option Str
  pub append_pair : (form name value : Str) → Str
  pub token_response : List ℕ → Option TokenResponse

-- The key, the client identifier and the audience of a client assertion.
pub record ClientAuth (Key : Type 0) : Type 0 where
  pub ckey : Key
  pub client_id : Str
  pub audience : Str

abbrev pub client_assertion_type_jwt_bearer : Str
client_assertion_type_jwt_bearer = codes "urn:ietf:params:oauth:client-assertion-type:jwt-bearer"

module _ (c : Codecs) where
  abbrev pub Key : Type 0
  Key = c.signer.SigningKey

  -- `DPoPKey::create_proof` of an attempt.
  unfoldable pub proof_of :
      Attempt → Key → (method url : Str) (nonce ath : Option Str) → Result AtprotoOauthError Str
  proof_of attempt key method url nonce ath = map_err dpop_error (
      create_proof c.jose c.signer c.crypto c.ct c.parse key method url nonce ath attempt.clock
        attempt.jti_bytes)

  unfoldable pub build_token_form_body :
      Attempt → (base_form_body : Str) → Option (ClientAuth Key) → Result AtprotoOauthError (List ℕ)
  build_token_form_body attempt base_form_body none = ok (as_bytes base_form_body)
  build_token_form_body attempt base_form_body (some auth) =
      map_err dpop_error (
        create_client_assertion c.jose c.signer c.crypto c.ct c.parse auth.ckey auth.client_id
          auth.audience attempt.assertion_clock attempt.assertion_jti_bytes)
      >>= λ assertion.
          let typed =
            c.append_pair base_form_body (codes "client_assertion_type")
              client_assertion_type_jwt_bearer in
          ok (as_bytes (c.append_pair typed (codes "client_assertion") assertion))

  -- The request itself.
  unfoldable pub post : (token_endpoint host_header proof : Str) (body : List ℕ) → Request
  post token_endpoint host_header proof body = record {
    method = codes "POST";
    url = token_endpoint;
    host_header = host_header;
    dpop = proof;
    authorization = none;
    content_type = some (codes "application/x-www-form-urlencoded");
    body = some body;
  }

  -- `TokenError::RequestFailed` with the fields of the body.
  unfoldable pub failed :
      HttpResponse → Option c.jose.Value → Result AtprotoOauthError TokenResponse
  failed resp body =
      err (token (request_failed resp.response.status (parse_oauth_error_fields c.jose body)))

  -- The end of a response with a good status.
  unfoldable pub accept : HttpResponse → Result AtprotoOauthError TokenResponse
  accept resp =
      map_err (λ e. token (dpop e)) (require_dpop_nonce resp)
      >> (map_err token (read_body c.jose resp) >>= λ bytes.
          ok_or (c.token_response bytes) (token json))

  unfoldable pub refuse_redirect : HttpResponse → Result AtprotoOauthError TokenResponse
  refuse_redirect resp = err (token (request_failed resp.response.status (codes "invalid_request")))

  -- What a 400 or a 401 is taken for.
  unfoldable pub judge_refusal :
      HttpResponse → Result TokenError (Option c.jose.Value) → Verdict TokenResponse
  unfolding failed
  judge_refusal resp (err e) = finished (err (token e))
  judge_refusal resp (ok body) =
      if is_use_dpop_nonce_error c.jose body then challenged else finished (failed resp body)

  unfoldable pub judge : HttpResponse → Verdict TokenResponse
  unfolding judge_refusal accept refuse_redirect failed
  judge resp =
      if is_redirection resp.response.status
      then finished (refuse_redirect resp)
      else if is_refusal resp
      then judge_refusal resp (read_bounded_json c.jose resp)
      else if not (is_success resp)
      then finished (map_err token (read_bounded_json c.jose resp) >>= failed resp)
      else finished (accept resp)

  unfoldable pub final : HttpResponse → Result AtprotoOauthError TokenResponse
  unfolding accept refuse_redirect failed
  final resp =
      if is_redirection resp.response.status
      then refuse_redirect resp
      else if is_success resp
      then accept resp
      else (map_err token (read_bounded_json c.jose resp) >>= λ body.
          if is_use_dpop_nonce_error c.jose body
          then err (dpop_error nonce_retry_limit_exceeded)
          else failed resp body)

  module _ (initial retrying : Attempt) (token_endpoint : Str) (dpop_key : Key)
      (base_form_body : Str) (client_auth : Option (ClientAuth Key)) where
    unfoldable pub first_request :
        SsrfDnsResolver
        → Url
        → (nonce : Option Str) → Result AtprotoOauthError (SsrfDnsResolver × Request)
    first_request resolver parsed nonce =
        map_err (λ e. token (ssrf e)) (build_pinned_client initial.world resolver parsed)
        >>= λ built. build_token_form_body initial base_form_body client_auth >>= λ body.
            proof_of initial dpop_key (codes "POST") token_endpoint nonce none >>= λ proof.
            ok (built.0, post token_endpoint built.1.1 proof body)

    unfoldable pub second_request :
        Url
        → SsrfDnsResolver
        → (fresh_nonce : Str) → Result AtprotoOauthError (SsrfDnsResolver × Request)
    second_request parsed resolver fresh_nonce =
        proof_of retrying dpop_key (codes "POST") token_endpoint (some fresh_nonce) none
        >>= λ proof. build_token_form_body retrying base_form_body client_auth >>= λ body.
            map_err (λ e. token (ssrf e)) (build_pinned_client retrying.world resolver parsed)
            >>= λ built. ok (built.0, post token_endpoint built.1.1 proof body)

    unfoldable pub course : SsrfDnsResolver → DpopNonceCache → Url → Course TokenResponse
    unfolding first_request second_request
    course resolver cache parsed = record {
      origin = parsed.ascii_origin;
      first = first_request resolver parsed (get_nonce cache parsed.ascii_origin);
      judge = judge;
      second = second_request parsed;
      final = final;
    }

    unfoldable pub send_to : SsrfDnsResolver → DpopNonceCache → Option Url → Exchange TokenResponse
    unfolding course with_retry
    send_to resolver cache none = record {
      nonce_cache = cache;
      sent = [];
      result = err (token http);
    }
    send_to resolver cache (some parsed) =
        with_retry (course resolver cache parsed) initial retrying cache

    unfoldable pub send_dpop_token_request_inner :
        SsrfDnsResolver → DpopNonceCache → Exchange TokenResponse
    unfolding send_to
    send_dpop_token_request_inner resolver cache = send_to resolver cache (c.parse token_endpoint)
