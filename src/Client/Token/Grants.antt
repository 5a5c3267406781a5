-- ===== src/Client/Token/Grants.antt =====
-- What a token response has been checked for, and what asks for a nonce.

use skyauth.Base.{
  ℕ, ◌≡◌, ◌⊎◌, inl, inr, refl, sym, ◌∙◌, true, not, if◌then◌else◌, Bool-cases, Option, none, some,
  List, Result, ok, err, ◌>>=◌, map_err, bind-ok, then-ok, map_err-ok, fail_if-ok, ok_or-ok, arith,
}
use skyauth.Base.Text.{Str}
use skyauth.Maps.Laws.{get-insert_self}
use skyauth.Ssrf.Fetch.{is_redirection}
use skyauth.Dpop.Htu.{DpopNonceCache, get_nonce, set_nonce, origin_key}
use skyauth.Dpop.Errors.{nonce_retry_limit_exceeded}
use skyauth.Client.{AtprotoOauthError, TokenError, TokenResponse, token, dpop_error}
use skyauth.Client.Wire.{
  HttpResponse, is_present, require_dpop_nonce, is_refusal, is_success, is_use_dpop_nonce_error,
  read_body, read_bounded_json,
}
use skyauth.Client.Retry.{finished, challenged, remember}
use skyauth.Client.Token.{Codecs, accept, judge, judge_refusal, final, failed, refuse_redirect}

-- The nonce that is cached after a response is its own, if it has one.
pub remember-get :
    (cache : DpopNonceCache) (origin nonce : Str) (o : Option Str)
    → get_nonce (remember cache origin o) origin ≡ some nonce
    → (o ≡ none) ⊎ (o ≡ some nonce)
unfolding remember get_nonce set_nonce
remember-get cache origin nonce none h = inl refl
remember-get cache origin nonce (some n) h =
    inr (sym (get-insert_self (origin_key origin) n cache) ∙ h)

module _ (c : Codecs) where
  -- The response grants a token: its status is good, it has a nonce, and its body is read.
  pub record IsGrant (resp : HttpResponse) (t : TokenResponse) : Type 0 where
    pub success : is_success resp ≡ true
    pub has_nonce : is_present resp.dpop_nonce ≡ true
    pub bytes : List ℕ
    pub body : read_body c.jose resp ≡ ok bytes
    pub read : c.token_response bytes ≡ some t

  -- The response asks for a nonce: its status is 400 or 401, and so says its body.
  pub record IsNonceRequest (resp : HttpResponse) : Type 0 where
    pub refusal : is_refusal resp ≡ true
    pub json : Option c.jose.Value
    pub body : read_bounded_json c.jose resp ≡ ok json
    pub error : is_use_dpop_nonce_error c.jose json ≡ true

  accept-IsGrant :
      (resp : HttpResponse) (t : TokenResponse)
      → is_success resp ≡ true
      → accept c resp ≡ ok t
      → IsGrant resp t
  unfolding accept require_dpop_nonce
  accept-IsGrant resp t s h =
      let (guard, rest) = then-ok _ _ h in
      let (bytes, got, read) = bind-ok (map_err token (read_body c.jose resp)) _ rest in
      let present = fail_if-ok (not (is_present resp.dpop_nonce)) _ (map_err-ok _ _ guard) in
      record {
        success = s;
        has_nonce = ground arith;
        bytes = bytes;
        body = map_err-ok token (read_body c.jose resp) got;
        read = ok_or-ok (c.token_response bytes) _ read;
      }

  failed-err :
      (resp : HttpResponse) (m : Result AtprotoOauthError (Option c.jose.Value)) (t : TokenResponse)
      → (m >>= failed c resp) ≡ ok t
      → ⊥
  unfolding failed
  failed-err resp (ok body) t h = cc
  failed-err resp (err e) t h = cc

  judge_refusal-ok :
      (resp : HttpResponse) (m : Result TokenError (Option c.jose.Value)) (t : TokenResponse)
      → judge_refusal c resp m ≡ finished (ok t)
      → ⊥
  unfolding judge_refusal failed
  judge_refusal-ok resp (err e) t h = cc
  judge_refusal-ok resp (ok body) t h = ground arith

  pub judge-IsGrant :
      (resp : HttpResponse) (t : TokenResponse) → judge c resp ≡ finished (ok t) → IsGrant resp t
  unfolding judge refuse_redirect
  judge-IsGrant resp t h =
      let refusal = judge_refusal-ok resp (read_bounded_json c.jose resp) t in
      let failure = failed-err resp (map_err token (read_bounded_json c.jose resp)) t in
      let (s, a) : (is_success resp ≡ true) × (accept c resp ≡ ok t) =
        (ground (arith, refusal, failure), ground (arith, refusal, failure)) in
      accept-IsGrant resp t s a

  pub final-IsGrant :
      (resp : HttpResponse) (t : TokenResponse) → final c resp ≡ ok t → IsGrant resp t
  unfolding final refuse_redirect
  final-IsGrant resp t h = elim (Bool-cases (is_redirection resp.response.status)) [
    | inl r ↦ absurd (ground arith)
    | inr r ↦ elim (Bool-cases (is_success resp)) [
      | inl s ↦ accept-IsGrant resp t s (ground arith)
      | inr s ↦
          let (body, got, rest) =
            bind-ok (map_err token (read_bounded_json c.jose resp))
              (λ body.
                if is_use_dpop_nonce_error c.jose body
                then err (dpop_error nonce_retry_limit_exceeded)
                else failed c resp body)
              {b = t} (ground arith) in
          absurd (ground (arith, failed-err resp (ok body) t))
    ]
  ]

  judge_refusal-IsNonceRequest :
      (resp : HttpResponse) (m : Result TokenError (Option c.jose.Value))
      → is_refusal resp ≡ true
      → read_bounded_json c.jose resp ≡ m
      → judge_refusal c resp m ≡ challenged
      → IsNonceRequest resp
  unfolding judge_refusal
  judge_refusal-IsNonceRequest resp (err e) r m h = absurd (ground arith)
  judge_refusal-IsNonceRequest resp (ok json) r m h = record {
    refusal = r;
    json = json;
    body = m;
    error = ground arith;
  }

  pub judge-IsNonceRequest : (resp : HttpResponse) → judge c resp ≡ challenged → IsNonceRequest resp
  unfolding judge
  judge-IsNonceRequest resp h =
      judge_refusal-IsNonceRequest resp (read_bounded_json c.jose resp) (ground arith) refl
        (ground arith)
