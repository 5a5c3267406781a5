-- ===== src/Ssrf/Loop.antt =====
-- The redirect loop and the bounded body: what was sent, how often, and how much was read.
use skyauth.Base.{
  ℕ, zero, suc, ◌+◌, ◌-◌, ◌^◌, ◌≤◌, ◌<◌, ◌≡◌, ◌↔◌, refl, Option, none, some, List, [], ◌∷◌, ◌++◌,
  ◌∙◌, length, length-append, All, Result, ok, err, if_both, subst, arith, Option-cases,
  Result-cases, inl, inr,
}
use mathlib.Core.List.{append_assoc, append-nil}
use skyauth.Base.Text.{Str}
use skyauth.Url.{Url, UrlParser}
use skyauth.Ssrf.{SsrfError, SsrfFilter, validate_url}
use skyauth.Ssrf.Resolver.{SsrfDnsResolver, resolve}
use skyauth.Ssrf.Fetch.{
  World, Response, Chunk, Sent, Round, stopped, redirected, build_pinned_client, read_chunks,
  read_bounded_body, check_length, finish, answered, request_with, last_round, go_on, next_round,
  exchange, next_url, follow, get_parsed, safe_get, is_redirection,
}
use skyauth.Ssrf.Laws.{IsOpen, build_pinned_client-IsOpen}

-- The whole body, if no chunk fails: the reference for the loop with its buffer.
unfoldable pub body_of : List (Option Chunk) → Option (List ℕ)
body_of [] = some []
body_of (none ∷ rest) = none
body_of (some chunk ∷ rest) = elim (body_of rest) [
  | none ↦ none
  | some bytes ↦ some (chunk.bytes ++ bytes)
]

-- The declared length, if there is one, is within the limit.
abbrev pub Declares : ℕ → Option ℕ → Type 0
Declares max_bytes none = Unit
Declares max_bytes (some n) = n ≤ max_bytes

read_chunks_sound :
    (max_bytes : ℕ) (buffer : List ℕ) (chunks : List (Option Chunk)) (body : List ℕ)
    → max_bytes < 2 ^ 64 - 1
    → length buffer ≤ max_bytes
    → read_chunks max_bytes buffer chunks ≡ ok body
    → (rest : List ℕ) × (body_of chunks ≡ some rest)
      × (body ≡ buffer ++ rest)
      × (length body ≤ max_bytes)
unfolding read_chunks body_of
read_chunks_sound max_bytes buffer [] body m l h =
    ([], refl, ground (arith, append-nil buffer), ground arith)
read_chunks_sound max_bytes buffer (none ∷ rest) body m l h = cc
read_chunks_sound max_bytes buffer (some chunk ∷ chunks) body m l h =
    let fits : length buffer + length chunk.bytes ≤ max_bytes = ground arith in
    let (rest, whole, split, size) =
      read_chunks_sound max_bytes (buffer ++ chunk.bytes) chunks body m
        (omega (arith, length-append buffer chunk.bytes)) (ground arith) in
    (chunk.bytes ++ rest, rw whole refl, split ∙ append_assoc buffer chunk.bytes rest, size)

read_chunks_complete :
    (max_bytes : ℕ) (buffer : List ℕ) (chunks : List (Option Chunk)) (rest : List ℕ)
    → max_bytes < 2 ^ 64 - 1
    → body_of chunks ≡ some rest
    → length buffer + length rest ≤ max_bytes
    → read_chunks max_bytes buffer chunks ≡ ok (buffer ++ rest)
unfolding read_chunks body_of
read_chunks_complete max_bytes buffer [] rest m b l = ground (arith, append-nil buffer)
read_chunks_complete max_bytes buffer (none ∷ chunks) rest m b l = cc
read_chunks_complete max_bytes buffer (some chunk ∷ chunks) rest m b l =
    elim (Option-cases (body_of chunks)) [
      | (inl p) ↦ ground arith
      | (inr (more, p)) ↦
          let same : rest ≡ chunk.bytes ++ more = ground arith in
          let size = length-append chunk.bytes more in
          let again =
            read_chunks_complete max_bytes (buffer ++ chunk.bytes) chunks more m p
              (ground (arith, length-append buffer chunk.bytes, size)) in
          ground (arith, again, size, append_assoc buffer chunk.bytes more)
    ]

check_length_iff :
    (max_bytes : ℕ) (declared : Option ℕ)
    → (check_length max_bytes declared ≡ ok tt) ↔ Declares max_bytes declared
unfolding check_length
check_length_iff max_bytes none = (λ h. tt, λ h. refl)
check_length_iff max_bytes (some n) = ground arith

-- A body is returned just when the declared length, where there is one, is within the limit, no
-- chunk fails, and the chunks together are within the limit; the body is then all of them. The
-- limit is below 2 ^ 64 - 1.
pub read_bounded_body_iff :
    (resp : Response) (max_bytes : ℕ) (body : List ℕ)
    → max_bytes < 2 ^ 64 - 1
    → (read_bounded_body resp max_bytes ≡ ok body) ↔ (
        Declares max_bytes resp.content_length
        × (body_of resp.chunks ≡ some body)
        × (length body ≤ max_bytes))
unfolding read_bounded_body
read_bounded_body_iff resp max_bytes body m = (
  λ h. elim (Result-cases (check_length max_bytes resp.content_length)) [
    | (inr (e, p)) ↦ ground arith
    | (inl (done, p)) ↦
        let (rest, whole, same, size) =
          read_chunks_sound max_bytes [] resp.chunks body m (omega arith) (ground arith) in
        ((check_length_iff max_bytes resp.content_length).0 p, rw same whole, size)
  ],
  λ h.
      rw ((check_length_iff max_bytes resp.content_length).1 h.0)
        (read_chunks_complete max_bytes [] resp.chunks body m h.1 (omega (arith, h.2))),
)

-- A request that was sent went to a validated URL, pinned to an address that the filter lets through.
pub record IsSafe (f : SsrfFilter) (sent : Sent) : Type 0 where
  pub validated : validate_url f sent.url ≡ ok tt
  pub opened : IsOpen f sent.pinned_addr

module _ (join : Url → Str → Option Url) (max_bytes : ℕ) (worlds : ℕ → World) where
  -- What a round guarantees.
  abbrev Guarded : SsrfFilter → Round → Type 0
  Guarded f (stopped sent result) =
      All (IsSafe f) sent
      × (length sent ≤ 1)
      × ((body : List ℕ) → result ≡ ok body → length body ≤ max_bytes)
  Guarded f (redirected sent r resp) = IsSafe f sent × (r.filter ≡ f)

  finish-size :
      (resp : Response) (body : List ℕ)
      → max_bytes < 2 ^ 64 - 1
      → finish max_bytes resp ≡ ok body
      → length body ≤ max_bytes
  unfolding finish
  finish-size resp body m h = ground (arith, read_bounded_body_iff resp max_bytes body m)

  answered-Guarded :
      (f : SsrfFilter) (sent : Sent) (r : SsrfDnsResolver) (reply : Result SsrfError Response)
      → max_bytes < 2 ^ 64 - 1
      → IsSafe f sent
      → r.filter ≡ f
      → Guarded f (answered join max_bytes worlds sent r reply)
  unfolding answered
  answered-Guarded f sent r (err e) m s h = ((s, tt), omega arith, λ body q. cc)
  answered-Guarded f sent r (ok resp) m s h =
      if_both (Guarded f) (is_redirection resp.status) (s, h)
        ((s, tt), omega arith, λ body q. finish-size resp body m q)

  exchange-Guarded :
      (w : World) (r : SsrfDnsResolver) (url : Url)
      → max_bytes < 2 ^ 64 - 1
      → Guarded r.filter (exchange join max_bytes worlds w r url)
  unfolding exchange request_with
  exchange-Guarded w r url m = elim (Result-cases (build_pinned_client w r url)) [
    | (inr (e, p)) ↦ rw (p, Guarded) (tt, omega arith, λ body h. cc)
    | (inl (built, p)) ↦
        let (valid, opened, filter) = build_pinned_client-IsOpen w r url built p in
        let sent : Sent = record { url = url; pinned_addr = built.1.0; host_header = built.1.1 } in
        rw (p, Guarded)
          (answered-Guarded r.filter sent built.0
            (w.send (resolve w.lookup_host built.0) url built.1.1) m
            (record { validated = valid; opened = opened }) filter)
  ]

  -- What the whole loop guarantees, for a bound on the requests.
  abbrev Bounded : SsrfFilter → ℕ → List Sent × Result SsrfError (List ℕ) → Type 0
  Bounded f most outcome =
      All (IsSafe f) outcome.0
      × (length outcome.0 ≤ most)
      × ((body : List ℕ) → outcome.1 ≡ ok body → length body ≤ max_bytes)

  last_round-Bounded :
      (f : SsrfFilter) (round : Round)
      → Guarded f round
      → Bounded f 1 (last_round join max_bytes worlds round)
  unfolding last_round
  last_round-Bounded f (stopped sent result) g = g
  last_round-Bounded f (redirected sent r resp) g = ((g.0, tt), omega arith, λ body h. cc)

  go_on-Bounded :
      (f : SsrfFilter) (n : ℕ) (loop : Url → List Sent × Result SsrfError (List ℕ)) (sent : Sent)
      (next : Result SsrfError Url)
      → ((url : Url) → Bounded f n (loop url))
      → IsSafe f sent
      → Bounded f (suc n) (go_on join max_bytes worlds loop sent next)
  unfolding go_on
  go_on-Bounded f n loop sent (err e) h s = ((s, tt), omega arith, λ body q. cc)
  go_on-Bounded f n loop sent (ok url) h s = ((s, (h url).0), omega (arith, (h url).1), (h url).2)

  next_round-Bounded :
      (f : SsrfFilter) (n : ℕ)
      (loop : SsrfDnsResolver → Url → List Sent × Result SsrfError (List ℕ)) (url : Url)
      (round : Round)
      → ((r : SsrfDnsResolver) (url : Url) → r.filter ≡ f → Bounded f n (loop r url))
      → Guarded f round
      → Bounded f (suc n) (next_round join max_bytes worlds loop url round)
  unfolding next_round
  next_round-Bounded f n loop url (stopped sent result) h g = (g.0, omega (arith, g.1), g.2)
  next_round-Bounded f n loop url (redirected sent r resp) h g =
      go_on-Bounded f n (loop r) sent (next_url join max_bytes worlds url resp)
        (λ next. h r next g.1) g.0

  follow-Bounded :
      (f : SsrfFilter) (n : ℕ) (r : SsrfDnsResolver) (url : Url)
      → max_bytes < 2 ^ 64 - 1
      → r.filter ≡ f
      → Bounded f (suc n) (follow join max_bytes worlds n r url)
  unfolding follow
  follow-Bounded f zero r url m e =
      last_round-Bounded f (exchange join max_bytes worlds (worlds zero) r url) (
        subst (λ g. Guarded g (exchange join max_bytes worlds (worlds zero) r url)) e
          (exchange-Guarded (worlds zero) r url m))
  follow-Bounded f (suc n) r url m e =
      next_round-Bounded f (suc n) (follow join max_bytes worlds n) url
        (exchange join max_bytes worlds (worlds (suc n)) r url)
        (λ s next q. follow-Bounded f n s next m q)
        (subst (λ g. Guarded g (exchange join max_bytes worlds (worlds (suc n)) r url)) e
          (exchange-Guarded (worlds (suc n)) r url m))

  get_parsed-Bounded :
      (r : SsrfDnsResolver) (url : Option Url)
      → max_bytes < 2 ^ 64 - 1
      → Bounded r.filter 4 (get_parsed join max_bytes worlds r url)
  unfolding get_parsed
  get_parsed-Bounded r none m = (tt, omega arith, λ body h. cc)
  get_parsed-Bounded r (some url) m = follow-Bounded r.filter 3 r url m refl

  -- However the network, the DNS and the redirects behave, `safe_get` ends after at most four
  -- requests, each to a URL that passes validation and is pinned to an address that the filter
  -- lets through, and a body that it returns has at most `max_bytes` bytes, for a limit below 2 ^
  -- 64 - 1.
  pub safe_get-bounded :
      (parse : UrlParser) (r : SsrfDnsResolver) (url_str : Str)
      → max_bytes < 2 ^ 64 - 1
      → All (IsSafe r.filter) (safe_get join max_bytes worlds parse r url_str).0
        × (length (safe_get join max_bytes worlds parse r url_str).0 ≤ 4)
        × ((body : List ℕ)
            → (safe_get join max_bytes worlds parse r url_str).1 ≡ ok body
            → length body ≤ max_bytes)
  unfolding safe_get
  safe_get-bounded parse r url_str m = get_parsed-Bounded r (parse url_str) m
