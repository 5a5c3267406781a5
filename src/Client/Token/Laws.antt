-- ===== src/Client/Token/Laws.antt =====
-- What a token request sends, and where its token comes from.
use mathlib.Core.List.{Memᴰ}
use skyauth.Base.{
  ◌≡◌, ◌⊎◌, inl, inr, ap, sym, ◌∙◌, Option, none, some, List, [], ◌∷◌, ok, map_err, bind-ok,
  ok-injective, arith,
}
use skyauth.Base.Text.{Str, codes}
use skyauth.Url.{Url}
use skyauth.Ssrf.Fetch.{build_pinned_client}
use skyauth.Ssrf.Resolver.{SsrfDnsResolver}
use skyauth.Dpop.Htu.{DpopNonceCache, get_nonce, extract_dpop_nonce}
use skyauth.Client.{TokenResponse, token, ssrf}
use skyauth.Client.Wire.{HttpResponse}
use skyauth.Client.Retry.{Request, Attempt, Course}
use skyauth.Client.Retry.Laws.{
  Sent, IsFirst, IsRetry, IsSingleRetry, IsTakenFrom, with_retry-IsCourse,
}
use skyauth.Client.Token.{
  Codecs, Key, ClientAuth, proof_of, build_token_form_body, post, first_request, second_request,
  course, send_to, send_dpop_token_request_inner,
}
use skyauth.Client.Token.Grants.{
  remember-get, IsGrant, IsNonceRequest, judge-IsGrant, final-IsGrant, judge-IsNonceRequest,
}

module _ (c : Codecs) where
  module _ (initial retrying : Attempt) (token_endpoint : Str) (dpop_key : Key c)
      (base_form_body : Str) (client_auth : Option (ClientAuth (Key c))) where
    abbrev pub IsPost : Request → Type 0
    IsPost q = (q.method ≡ codes "POST") × (q.url ≡ token_endpoint)

    -- The second request: the first answer asked for a nonce, and the proof has the nonce that the
    -- answer gave, or an earlier one if it gave none.
    pub record IsTokenRetry (a b : Sent) : Type 0 where
      pub resp : HttpResponse
      pub answer : a.1 ≡ some resp
      pub request : IsNonceRequest c resp
      pub nonce : Str
      pub given :
          (extract_dpop_nonce resp.dpop_nonce ≡ none)
          ⊎ (extract_dpop_nonce resp.dpop_nonce ≡ some nonce)
      pub proof :
          proof_of c retrying dpop_key (codes "POST") token_endpoint (some nonce) none ≡ ok b.0.dpop

    abbrev pub IsTokenRun : List Sent → Type 0
    IsTokenRun [] = Unit {0}
    IsTokenRun (a ∷ []) = IsPost a.0
    IsTokenRun (a ∷ b ∷ []) = IsPost a.0 × IsPost b.0 × IsTokenRetry a b
    IsTokenRun (a ∷ b ∷ d ∷ rest) = ⊥

    first_request-IsPost :
        (resolver behind : SsrfDnsResolver) (parsed : Url) (cached : Option Str) (q : Request)
        → first_request c initial retrying token_endpoint dpop_key base_form_body client_auth
            resolver parsed cached
          ≡ ok (behind, q)
        → IsPost q
    unfolding first_request post
    first_request-IsPost resolver behind parsed cached q h =
        let (built, pinned, rest) =
          bind-ok
            (map_err (λ e. token (ssrf e)) (build_pinned_client initial.world resolver parsed)) _
            h in
        let (body, made, rest) =
          bind-ok (build_token_form_body c initial base_form_body client_auth) _ rest in
        let (proof, signed, done) =
          bind-ok (proof_of c initial dpop_key (codes "POST") token_endpoint cached none) _ rest in
        let same = ap (λ r. r.1) (ok-injective done) in
        (sym (ap (λ (r : Request). r.method) same), sym (ap (λ (r : Request). r.url) same))

    second_request-IsPost :
        (resolver behind : SsrfDnsResolver) (parsed : Url) (nonce : Str) (q : Request)
        → second_request c initial retrying token_endpoint dpop_key base_form_body client_auth
            parsed resolver nonce
          ≡ ok (behind, q)
        → IsPost q
          × (proof_of c retrying dpop_key (codes "POST") token_endpoint (some nonce) none
              ≡ ok q.dpop)
    unfolding second_request post
    second_request-IsPost resolver behind parsed nonce q h =
        let (proof, signed, rest) =
          bind-ok (proof_of c retrying dpop_key (codes "POST") token_endpoint (some nonce) none) _
            h in
        let (body, made, rest) =
          bind-ok (build_token_form_body c retrying base_form_body client_auth) _ rest in
        let (built, pinned, done) =
          bind-ok
            (map_err (λ e. token (ssrf e)) (build_pinned_client retrying.world resolver parsed)) _
            rest in
        let same = ap (λ r. r.1) (ok-injective done) in
        (
          (sym (ap (λ (r : Request). r.method) same), sym (ap (λ (r : Request). r.url) same)),
          signed ∙ ap (λ (r : Request). ok r.dpop) same,
        )

    module _ (resolver : SsrfDnsResolver) (cache : DpopNonceCache) where
      abbrev course_to : Url → Course TokenResponse
      course_to =
          course c initial retrying token_endpoint dpop_key base_form_body client_auth resolver
            cache

      retry-IsTokenRetry :
          (parsed : Url) (a b : Sent)
          → IsRetry (course_to parsed) cache a b
          → IsPost b.0 × IsTokenRetry a b
      unfolding course
      retry-IsTokenRetry parsed a b h =
          let (posted, proof) =
            second_request-IsPost h.before h.behind parsed h.nonce b.0 h.second in
          (
            posted,
            record {
              resp = h.resp;
              answer = h.answer;
              request = judge-IsNonceRequest c h.resp h.challenge;
              nonce = h.nonce;
              given =
                  remember-get cache parsed.ascii_origin h.nonce
                    (extract_dpop_nonce h.resp.dpop_nonce) h.cached;
              proof = proof;
            },
          )

      first-IsPost : (parsed : Url) (a : Sent) → IsFirst (course_to parsed) a → IsPost a.0
      unfolding course
      first-IsPost parsed a h =
          first_request-IsPost resolver h.0 parsed (get_nonce cache parsed.ascii_origin) a.0 h.1

      single-IsTokenRun :
          (parsed : Url) (sent : List Sent)
          → IsSingleRetry (course_to parsed) cache sent
          → IsTokenRun sent
      single-IsTokenRun parsed [] h = tt
      single-IsTokenRun parsed (a ∷ []) h = first-IsPost parsed a h
      single-IsTokenRun parsed (a ∷ b ∷ []) h =
          let (posted, retry) = retry-IsTokenRetry parsed a b h.1 in
          (first-IsPost parsed a h.0, posted, retry)
      single-IsTokenRun parsed (a ∷ b ∷ d ∷ rest) h = h

      taken-IsGrant :
          (parsed : Url) (t : TokenResponse) (sent : List Sent)
          → IsTakenFrom (course_to parsed) t sent
          → (q : Request) × (resp : HttpResponse) × Memᴰ (q, some resp) sent × IsGrant c resp t
      unfolding course
      taken-IsGrant parsed t sent (q, resp, m, inl j) = (q, resp, m, judge-IsGrant c resp t j)
      taken-IsGrant parsed t sent (q, resp, m, inr f) = (q, resp, m, final-IsGrant c resp t f)

      send_to-IsTokenRun :
          (o : Option Url)
          → IsTokenRun
              (send_to c initial retrying token_endpoint dpop_key base_form_body client_auth
                resolver cache o).sent
      unfolding send_to
      send_to-IsTokenRun none = tt
      send_to-IsTokenRun (some parsed) =
          single-IsTokenRun parsed _
            (with_retry-IsCourse (course_to parsed) initial retrying cache).single

      send_to-IsGrant :
          (o : Option Url) (t : TokenResponse)
          → (send_to c initial retrying token_endpoint dpop_key base_form_body client_auth resolver
              cache o).result
            ≡ ok t
          → (q : Request) × (resp : HttpResponse) × Memᴰ
              (q, some resp)
              (send_to c initial retrying token_endpoint dpop_key base_form_body client_auth
                resolver cache o).sent
            × IsGrant c resp t
      unfolding send_to
      send_to-IsGrant none t h = absurd (ground arith)
      send_to-IsGrant (some parsed) t h =
          taken-IsGrant parsed t _
            ((with_retry-IsCourse (course_to parsed) initial retrying cache).taken t h)

      -- A token request sends at most two requests, both POSTs to the token endpoint. The second
      -- is sent only when the first was answered with 400 or 401 and a body that asks for a nonce;
      -- its proof is one that was made for the endpoint with a nonce, which is that of the answer
      -- if the answer gave one.
      pub send_dpop_token_request_inner-IsTokenRun :
          IsTokenRun
            (send_dpop_token_request_inner c initial retrying token_endpoint dpop_key base_form_body
              client_auth resolver cache).sent
      unfolding send_dpop_token_request_inner
      send_dpop_token_request_inner-IsTokenRun = send_to-IsTokenRun (c.parse token_endpoint)

      pub send_dpop_token_request_inner-IsGrant :
          (t : TokenResponse)
          → (send_dpop_token_request_inner c initial retrying token_endpoint dpop_key base_form_body
              client_auth resolver cache).result
            ≡ ok t
          → (q : Request) × (resp : HttpResponse) × Memᴰ
              (q, some resp)
              (send_dpop_token_request_inner c initial retrying token_endpoint dpop_key
                base_form_body client_auth resolver cache).sent
            × IsGrant c resp t
      unfolding send_dpop_token_request_inner
      send_dpop_token_request_inner-IsGrant t h = send_to-IsGrant (c.parse token_endpoint) t h
