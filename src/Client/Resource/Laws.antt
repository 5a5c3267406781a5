-- ===== src/Client/Resource/Laws.antt =====
-- When a request to a resource server is sent again.
use skyauth.Base.{
  ◌≡◌, ◌⊎◌, inl, inr, refl, ap, sym, ◌∙◌, true, Bool-cases, Option, none, some, List, [], ◌∷◌, ℕ,
  Result, ok, err, map_err, bind-ok, ok-injective, arith,
}
use skyauth.Base.Text.{Str}
use skyauth.Url.{Url}
use skyauth.Ssrf.Fetch.{build_pinned_client}
use skyauth.Ssrf.Resolver.{SsrfDnsResolver}
use skyauth.Dpop.Htu.{DpopNonceCache, get_nonce, extract_dpop_nonce}
use skyauth.Client.{TokenError, token, ssrf}
use skyauth.Client.Wire.{
  HttpResponse, is_refusal, is_rs_dpop_nonce_challenge, is_use_dpop_nonce_error, read_body,
}
use skyauth.Client.Retry.{Request, Attempt, challenged, Course}
use skyauth.Client.Retry.Laws.{Sent, IsFirst, IsRetry, IsSingleRetry, with_retry-IsCourse}
use skyauth.Client.Token.{Codecs, Key, proof_of}
use skyauth.Client.Token.Grants.{remember-get}
use skyauth.Client.Resource.{
  Ask, judge, judge_body, ath_of, request_of, first_request, second_request, course, send_to,
  send_dpop_request,
}

module _ (c : Codecs) where
  -- The response has the status 400 or 401, and its header or its body asks for a nonce.
  pub record IsRsChallenge (resp : HttpResponse) : Type 0 where
    pub refusal : is_refusal resp ≡ true
    pub signal :
        (is_rs_dpop_nonce_challenge resp ≡ true)
        ⊎ ((bytes : List ℕ) × (read_body c.jose resp ≡ ok bytes)
            × (is_use_dpop_nonce_error c.jose (c.jose.from_slice bytes) ≡ true))

  judge_body-error :
      (resp : HttpResponse) (m : Result TokenError (List ℕ))
      → judge_body c resp m ≡ challenged
      → (bytes : List ℕ) × (m ≡ ok bytes)
        × (is_use_dpop_nonce_error c.jose (c.jose.from_slice bytes) ≡ true)
  unfolding judge_body
  judge_body-error resp (err e) h = absurd (ground arith)
  judge_body-error resp (ok bytes) h = (bytes, refl, ground arith)

  judge-IsRsChallenge : (resp : HttpResponse) → judge c resp ≡ challenged → IsRsChallenge resp
  unfolding judge
  judge-IsRsChallenge resp h =
      let refusal : is_refusal resp ≡ true = ground arith in
      elim (Bool-cases (is_rs_dpop_nonce_challenge resp)) [
        | inl signal ↦ record { refusal = refusal; signal = inl signal }
        | inr silent ↦ record {
          refusal = refusal;
          signal = inr (judge_body-error resp (read_body c.jose resp) (ground arith));
        }
      ]

  module _ (initial retrying : Attempt) (dpop_key : Key c) (ask : Ask) where
    -- The request is the one that was asked for, with some host and some proof.
    abbrev pub IsAsked : Request → Type 0
    IsAsked q =
        (host_header : Str) × (proof : Str) × (q
          ≡ request_of c initial retrying dpop_key ask host_header proof)

    pub record IsResourceRetry (a b : Sent) : Type 0 where
      pub resp : HttpResponse
      pub answer : a.1 ≡ some resp
      pub challenge : IsRsChallenge resp
      pub nonce : Str
      pub given :
          (extract_dpop_nonce resp.dpop_nonce ≡ none)
          ⊎ (extract_dpop_nonce resp.dpop_nonce ≡ some nonce)
      pub proof :
          proof_of c retrying dpop_key ask.method ask.url_str
            (some nonce)
            (ath_of c initial retrying dpop_key ask)
          ≡ ok b.0.dpop

    abbrev pub IsResourceRun : List Sent → Type 0
    IsResourceRun [] = Unit {0}
    IsResourceRun (a ∷ []) = IsAsked a.0
    IsResourceRun (a ∷ b ∷ []) = IsAsked a.0 × IsAsked b.0 × IsResourceRetry a b
    IsResourceRun (a ∷ b ∷ d ∷ rest) = ⊥

    first_request-IsAsked :
        (resolver behind : SsrfDnsResolver) (parsed : Url) (cached : Option Str) (q : Request)
        → first_request c initial retrying dpop_key ask resolver parsed cached ≡ ok (behind, q)
        → IsAsked q
    unfolding first_request
    first_request-IsAsked resolver behind parsed cached q h =
        let (built, pinned, rest) =
          bind-ok
            (map_err (λ e. token (ssrf e)) (build_pinned_client initial.world resolver parsed)) _
            h in
        let (proof, signed, done) =
          bind-ok
            (proof_of c initial dpop_key ask.method ask.url_str cached
              (ath_of c initial retrying dpop_key ask))
            _ rest in
        (built.1.1, proof, sym (ap (λ r. r.1) (ok-injective done)))

    second_request-IsAsked :
        (resolver behind : SsrfDnsResolver) (parsed : Url) (nonce : Str) (q : Request)
        → second_request c initial retrying dpop_key ask parsed resolver nonce ≡ ok (behind, q)
        → IsAsked q
          × (proof_of c retrying dpop_key ask.method ask.url_str
                (some nonce)
                (ath_of c initial retrying dpop_key ask)
              ≡ ok q.dpop)
    unfolding second_request request_of
    second_request-IsAsked resolver behind parsed nonce q h =
        let (proof, signed, rest) =
          bind-ok
            (proof_of c retrying dpop_key ask.method ask.url_str (some nonce)
              (ath_of c initial retrying dpop_key ask))
            _ h in
        let (built, pinned, done) =
          bind-ok
            (map_err (λ e. token (ssrf e)) (build_pinned_client retrying.world resolver parsed)) _
            rest in
        let same = ap (λ r. r.1) (ok-injective done) in
        ((built.1.1, proof, sym same), signed ∙ ap (λ (r : Request). ok r.dpop) same)

    module _ (resolver : SsrfDnsResolver) (cache : DpopNonceCache) where
      abbrev course_to : Url → Course HttpResponse
      course_to = course c initial retrying dpop_key ask resolver cache

      retry-IsResourceRetry :
          (parsed : Url) (a b : Sent)
          → IsRetry (course_to parsed) cache a b
          → IsAsked b.0 × IsResourceRetry a b
      unfolding course
      retry-IsResourceRetry parsed a b h =
          let (asked, proof) =
            second_request-IsAsked h.before h.behind parsed h.nonce b.0 h.second in
          (
            asked,
            record {
              resp = h.resp;
              answer = h.answer;
              challenge = judge-IsRsChallenge h.resp h.challenge;
              nonce = h.nonce;
              given =
                  remember-get cache parsed.ascii_origin h.nonce
                    (extract_dpop_nonce h.resp.dpop_nonce) h.cached;
              proof = proof;
            },
          )

      first-IsAsked : (parsed : Url) (a : Sent) → IsFirst (course_to parsed) a → IsAsked a.0
      unfolding course
      first-IsAsked parsed a h =
          first_request-IsAsked resolver h.0 parsed (get_nonce cache parsed.ascii_origin) a.0 h.1

      single-IsResourceRun :
          (parsed : Url) (sent : List Sent)
          → IsSingleRetry (course_to parsed) cache sent
          → IsResourceRun sent
      single-IsResourceRun parsed [] h = tt
      single-IsResourceRun parsed (a ∷ []) h = first-IsAsked parsed a h
      single-IsResourceRun parsed (a ∷ b ∷ []) h =
          let (asked, retry) = retry-IsResourceRetry parsed a b h.1 in
          (first-IsAsked parsed a h.0, asked, retry)
      single-IsResourceRun parsed (a ∷ b ∷ d ∷ rest) h = h

      send_to-IsResourceRun :
          (o : Option Url)
          → IsResourceRun (send_to c initial retrying dpop_key ask resolver cache o).sent
      unfolding send_to
      send_to-IsResourceRun none = tt
      send_to-IsResourceRun (some parsed) =
          single-IsResourceRun parsed _
            (with_retry-IsCourse (course_to parsed) initial retrying cache).single

      -- A request to a resource server is sent at most twice, each time as the caller asked for
      -- it, and the second time only when the first was answered with 400 or 401 and its header or
      -- its body asks for a nonce; the second proof is bound to the access token and has a nonce,
      -- which is that of the answer if the answer gave one.
      pub send_dpop_request-IsResourceRun :
          IsResourceRun (send_dpop_request c initial retrying dpop_key ask resolver cache).sent
      unfolding send_dpop_request
      send_dpop_request-IsResourceRun = send_to-IsResourceRun (c.parse ask.url_str)
