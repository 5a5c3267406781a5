-- ===== src/Client/Retry.antt =====
-- src/client.rs: the course that `send_dpop_token_request_inner` and `send_dpop_request` share: a
-- request with the nonce that is cached, and one retry when the answer is a challenge.

pub mod Laws
use skyauth.Base.{
  ℕ, Bool, true, false, not, Option, none, some, List, [], ◌∷◌, Result, ok, err, ◌>>=◌, ok_or,
  if◌then◌else◌,
}
use skyauth.Base.Text.{Str, codes}
use skyauth.Ssrf.{SsrfError}
use skyauth.Net.{SocketAddr}
use skyauth.Ssrf.Fetch.{World}
use skyauth.Ssrf.Resolver.{SsrfDnsResolver, resolve}
use skyauth.Dpop.Htu.{DpopNonceCache, get_nonce, set_nonce, extract_dpop_nonce}
use skyauth.Client.{AtprotoOauthError, token, http, request_failed}
use skyauth.Client.Wire.{HttpResponse}

-- A request as it was sent; the `accept` header, which every token request has, is left out.
pub record Request : Type 0 where
  pub method : Str
  pub url : Str
  pub host_header : Str
  pub dpop : Str
  pub authorization : Option Str
  pub content_type : Option Str
  pub body : Option (List ℕ)

-- What one of the two requests meets: the look-ups, the client, which is given the resolver hook,
-- and the clock and the random bytes of the proof and of the client assertion.
pub record Attempt : Type 0 where
  pub world : World
  pub send : (Str → Result SsrfError (List SocketAddr)) → Request → Option HttpResponse
  pub clock : Option ℕ
  pub jti_bytes : List ℕ
  pub assertion_clock : Option ℕ
  pub assertion_jti_bytes : List ℕ

-- What a request leaves: the nonces, what was sent and answered, and the result.
pub record Exchange (T : Type 0) : Type 0 where
  pub nonce_cache : DpopNonceCache
  pub sent : List (Request × Option HttpResponse)
  pub result : Result AtprotoOauthError T

-- How the first answer is taken.
pub data Verdict (T : Type 0) : Type 0 where
  finished : Result AtprotoOauthError T → Verdict T
  challenged : Verdict T

-- `if let Some(new_nonce) = extract_dpop_nonce(…) { nonce_cache.set_nonce(…) }`.
unfoldable pub remember : DpopNonceCache → (origin : Str) → Option Str → DpopNonceCache
remember cache origin none = cache
remember cache origin (some new_nonce) = set_nonce cache origin new_nonce

module _ {T : Type 0} (origin : Str) where
  -- The end of the second request.
  unfoldable pub retried :
      DpopNonceCache
      → (final : HttpResponse → Result AtprotoOauthError T) → Request
      → Option HttpResponse
      → Exchange T
  unfolding remember
  retried cache final request none = record {
    nonce_cache = cache;
    sent = (request, none) ∷ [];
    result = err (token http);
  }
  retried cache final request (some resp) = record {
    nonce_cache = remember cache origin (extract_dpop_nonce resp.dpop_nonce);
    sent = (request, some resp) ∷ [];
    result = final resp;
  }

  unfoldable pub send_retry :
      DpopNonceCache
      → Attempt
      → (final : HttpResponse → Result AtprotoOauthError T)
      → Result AtprotoOauthError (SsrfDnsResolver × Request)
      → Exchange T
  unfolding retried
  send_retry cache attempt final (err e) = record { nonce_cache = cache; sent = []; result = err e }
  send_retry cache attempt final (ok (resolver, request)) =
      retried cache final request
        (attempt.send (resolve attempt.world.lookup_host resolver) request)

  -- After a challenge with this status: `nonce_cache.get_nonce(…)`, and the second request.
  unfoldable pub retry :
      (status : ℕ)
      → DpopNonceCache
      → Attempt
      → (prepare : Str → Result AtprotoOauthError (SsrfDnsResolver × Request))
      → (final : HttpResponse → Result AtprotoOauthError T) → Exchange T
  unfolding send_retry
  retry status cache attempt prepare final = send_retry cache attempt final (
      ok_or (get_nonce cache origin) (token (request_failed status (codes "use_dpop_nonce")))
      >>= prepare)

  -- The answer to the first request, with the nonces after it; `again` is the retry.
  unfoldable pub judged :
      DpopNonceCache → Request → HttpResponse → (again : Exchange T) → Verdict T → Exchange T
  judged cache request resp again (finished result) = record {
    nonce_cache = cache;
    sent = (request, some resp) ∷ [];
    result = result;
  }
  judged cache request resp again challenged = record {
    nonce_cache = again.nonce_cache;
    sent = (request, some resp) ∷ again.sent;
    result = again.result;
  }

-- The two requests: how each is made, and how each answer is taken. The first request goes by a
-- resolver, which the second is given too.
pub record Course (T : Type 0) : Type 0 where
  pub origin : Str
  pub first : Result AtprotoOauthError (SsrfDnsResolver × Request)
  pub judge : HttpResponse → Verdict T
  pub second : SsrfDnsResolver → Str → Result AtprotoOauthError (SsrfDnsResolver × Request)
  pub final : HttpResponse → Result AtprotoOauthError T

module _ {T : Type 0} (course : Course T) (initial retrying : Attempt) where
  unfoldable pub answered :
      DpopNonceCache → SsrfDnsResolver → Request → Option HttpResponse → Exchange T
  unfolding judged retry remember
  answered cache resolver request none = record {
    nonce_cache = cache;
    sent = (request, none) ∷ [];
    result = err (token http);
  }
  answered cache resolver request (some resp) =
      let after = remember cache course.origin (extract_dpop_nonce resp.dpop_nonce) in
      judged course.origin after request resp
        (retry course.origin resp.response.status after retrying (course.second resolver)
          course.final)
        (course.judge resp)

  unfoldable pub begin :
      DpopNonceCache → Result AtprotoOauthError (SsrfDnsResolver × Request) → Exchange T
  unfolding answered
  begin cache (err e) = record { nonce_cache = cache; sent = []; result = err e }
  begin cache (ok (resolver, request)) =
      answered cache resolver request
        (initial.send (resolve initial.world.lookup_host resolver) request)

  unfoldable pub with_retry : DpopNonceCache → Exchange T
  unfolding begin
  with_retry cache = begin cache course.first
