-- ===== src/Client/Retry/Laws.antt =====
-- What a course of at most two requests sends, and where its result comes from.
use mathlib.Core.List.{Memᴰ}
use skyauth.Base.{
  ◌≡◌, ◌⊎◌, inl, inr, refl, ap, ◌∙◌, Option, none, some, List, [], ◌∷◌, Result, ok, err,
}
use skyauth.Base.Text.{Str}
use skyauth.Ssrf.Resolver.{SsrfDnsResolver, resolve}
use skyauth.Dpop.Htu.{DpopNonceCache, get_nonce, extract_dpop_nonce}
use skyauth.Client.{AtprotoOauthError}
use skyauth.Client.Wire.{HttpResponse}
use skyauth.Client.Retry.{
  Request, Attempt, Exchange, Verdict, finished, challenged, Course, remember, retried, send_retry,
  retry, judged, retry, answered, begin, with_retry,
}

abbrev pub Sent : Type 0
Sent = Request × Option HttpResponse

module _ {T : Type 0} (course : Course T) where
  -- The nonces after a response.
  abbrev pub after : DpopNonceCache → HttpResponse → DpopNonceCache
  after cache resp = remember cache course.origin (extract_dpop_nonce resp.dpop_nonce)

  -- A first request answered by a challenge, and a second one with the nonce that is then cached.
  pub record IsRetry (cache : DpopNonceCache) (a b : Sent) : Type 0 where
    pub resp : HttpResponse
    pub answer : a.1 ≡ some resp
    pub challenge : course.judge resp ≡ challenged
    pub nonce : Str
    pub cached : get_nonce (after cache resp) course.origin ≡ some nonce
    pub before : SsrfDnsResolver
    pub behind : SsrfDnsResolver
    pub second : course.second before nonce ≡ ok (behind, b.0)

  abbrev pub IsFirst : Sent → Type 0
  IsFirst a = (r : SsrfDnsResolver) × (course.first ≡ ok (r, a.0))

  abbrev pub IsSingleRetry : DpopNonceCache → List Sent → Type 0
  IsSingleRetry cache [] = Unit {0}
  IsSingleRetry cache (a ∷ []) = IsFirst a
  IsSingleRetry cache (a ∷ b ∷ []) = IsFirst a × IsRetry cache a b
  IsSingleRetry cache (a ∷ b ∷ c ∷ rest) = ⊥

  -- The response that a result was taken from.
  abbrev pub IsTakenFrom : T → List Sent → Type 0
  IsTakenFrom t sent =
      (q : Request) × (resp : HttpResponse) × Memᴰ (q, some resp) sent
      × ((course.judge resp ≡ finished (ok t)) ⊎ (course.final resp ≡ ok t))

  -- The nonces after a row of answers.
  abbrev pub remembered : DpopNonceCache → List Sent → DpopNonceCache
  remembered cache [] = cache
  remembered cache ((q, none) ∷ rest) = remembered cache rest
  remembered cache ((q, some resp) ∷ rest) = remembered (after cache resp) rest

  -- At most one retry, a result that was taken from an answer, and the nonces of the answers.
  pub record IsCourse (cache : DpopNonceCache) (e : Exchange T) : Type 0 where
    pub single : IsSingleRetry cache e.sent
    pub taken : (t : T) → e.result ≡ ok t → IsTakenFrom t e.sent
    pub nonces : e.nonce_cache ≡ remembered cache e.sent

  module _ (initial retrying : Attempt) (cache : DpopNonceCache) (request : Request)
      (first : (r : SsrfDnsResolver) × (course.first ≡ ok (r, request))) (resp : HttpResponse) where
    abbrev IsAfter : Exchange T → Type 0
    IsAfter again =
        IsCourse cache (judged course.origin (after cache resp) request resp again challenged)

    again_of :
        (resolver behind : SsrfDnsResolver) (nonce : Str) (q : Request) (o : Option HttpResponse)
        → course.judge resp ≡ challenged
        → get_nonce (after cache resp) course.origin ≡ some nonce
        → course.second resolver nonce ≡ ok (behind, q)
        → IsRetry cache (request, some resp) (q, o)
    again_of resolver behind nonce q o c g s = record {
      resp = resp;
      answer = refl;
      challenge = c;
      nonce = nonce;
      cached = g;
      before = resolver;
      behind = behind;
      second = s;
    }

    retried-IsAfter :
        (resolver behind : SsrfDnsResolver) (nonce : Str) (q : Request) (o : Option HttpResponse)
        → course.judge resp ≡ challenged
        → get_nonce (after cache resp) course.origin ≡ some nonce
        → course.second resolver nonce ≡ ok (behind, q)
        → IsAfter (retried course.origin (after cache resp) course.final q o)
    unfolding retried judged
    retried-IsAfter resolver behind nonce q none c g s = record {
      single = (first, again_of resolver behind nonce q none c g s);
      taken = λ t h. cc;
      nonces = refl;
    }
    retried-IsAfter resolver behind nonce q (some answer) c g s = record {
      single = (first, again_of resolver behind nonce q (some answer) c g s);
      taken = λ t h. (q, answer, Memᴰ.tail (Memᴰ.head refl), inr h);
      nonces = refl;
    }

    send_retry-IsAfter :
        (resolver : SsrfDnsResolver) (nonce : Str)
        (prepared : Result AtprotoOauthError (SsrfDnsResolver × Request))
        → course.judge resp ≡ challenged
        → get_nonce (after cache resp) course.origin ≡ some nonce
        → course.second resolver nonce ≡ prepared
        → IsAfter (send_retry course.origin (after cache resp) retrying course.final prepared)
    unfolding send_retry judged
    send_retry-IsAfter resolver nonce (err e) c g s = record {
      single = first;
      taken = λ t h. cc;
      nonces = refl;
    }
    send_retry-IsAfter resolver nonce (ok (behind, q)) c g s =
        retried-IsAfter resolver behind nonce q
          (retrying.send (resolve retrying.world.lookup_host behind) q) c g s

    retry-IsAfter :
        (resolver : SsrfDnsResolver) (o : Option Str)
        → course.judge resp ≡ challenged
        → get_nonce (after cache resp) course.origin ≡ o
        → IsAfter (
            retry course.origin resp.response.status
              (after cache resp)
              retrying
              (course.second resolver)
              course.final)
    unfolding retry send_retry judged
    retry-IsAfter resolver none c g =
        rw g (record { single = first; taken = λ t h. cc; nonces = refl })
    retry-IsAfter resolver (some nonce) c g =
        rw g (send_retry-IsAfter resolver nonce (course.second resolver nonce) c g refl)

    judged-IsCourse :
        (resolver : SsrfDnsResolver) (v : Verdict T)
        → course.judge resp ≡ v
        → IsCourse cache (
            judged course.origin
              (after cache resp)
              request
              resp
              (retry course.origin resp.response.status
                (after cache resp)
                retrying
                (course.second resolver)
                course.final)
              v)
    unfolding judged
    judged-IsCourse resolver (finished result) j = record {
      single = first;
      taken = λ t h. (request, resp, Memᴰ.head refl, inl (j ∙ ap finished h));
      nonces = refl;
    }
    judged-IsCourse resolver challenged j =
        retry-IsAfter resolver (get_nonce (after cache resp) course.origin) j refl

  module _ (initial retrying : Attempt) (cache : DpopNonceCache) where
    answered-IsCourse :
        (resolver : SsrfDnsResolver) (request : Request) (o : Option HttpResponse)
        → course.first ≡ ok (resolver, request)
        → IsCourse cache (answered course initial retrying cache resolver request o)
    unfolding answered
    answered-IsCourse resolver request none f = record {
      single = (resolver, f);
      taken = λ t h. cc;
      nonces = refl;
    }
    answered-IsCourse resolver request (some resp) f =
        judged-IsCourse initial retrying cache request (resolver, f) resp resolver
          (course.judge resp) refl

    begin-IsCourse :
        (prepared : Result AtprotoOauthError (SsrfDnsResolver × Request))
        → course.first ≡ prepared
        → IsCourse cache (begin course initial retrying cache prepared)
    unfolding begin
    begin-IsCourse (err e) f = record { single = tt; taken = λ t h. cc; nonces = refl }
    begin-IsCourse (ok (resolver, request)) f =
        answered-IsCourse resolver request
          (initial.send (resolve initial.world.lookup_host resolver) request) f

    pub with_retry-IsCourse : IsCourse cache (with_retry course initial retrying cache)
    unfolding with_retry
    with_retry-IsCourse = begin-IsCourse course.first refl
