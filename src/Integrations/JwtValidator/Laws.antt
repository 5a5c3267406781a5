-- ===== src/Integrations/JwtValidator/Laws.antt =====
-- What an accepted access token has passed.
use skyauth.Base.{
  ℕ, ◌≡◌, ◌⊎◌, ◌∷◌, ◌++◌, false, refl, Option, none, some, List, [], list_eq_refl, ok, arith,
  Option-cases, Result-cases, inl, inr, is_ok,
}
use skyauth.Base.Text.{Str, codes, trim, split}
use skyauth.Base.Utf8.{as_bytes}
use skyauth.Maps.{HashMap, get}
use skyauth.Kernels.CtEq.{Subtle}
use skyauth.Dpop.Proof.{Jose, base64url_decode, verify_p256_raw, header_str}
use skyauth.Integrations.{AuthenticatedUser}
use skyauth.Integrations.JwtValidator.Claims.{IsValid, check_claims-IsValid}
use skyauth.Integrations.JwtValidator.{
  JwtAccessTokenClaims, JwtAccessTokenValidator, select_key, only_key, or_default, check_claims,
  header_key, read_claims, verify_parts, verify_token_sync,
}

module _ (j : Jose) (ct : Subtle) (as_array : j.Value → Option (List j.Value))
    (access_claims : List ℕ → Option (JwtAccessTokenClaims j.Value)) where
  abbrev Claims : Type 0
  Claims = JwtAccessTokenClaims j.Value

  abbrev Validator : Type 0
  Validator = JwtAccessTokenValidator j.VerifyingKey

  -- A key that was configured, by identifier or as the default.
  abbrev pub IsTrusted : Validator → j.VerifyingKey → Type 0
  IsTrusted v key = (v.default_key ≡ some key) ⊎ ((kid : Str) × (get kid v.trusted_keys ≡ some key))

  only_key-get :
      (keys : HashMap j.VerifyingKey) (key : j.VerifyingKey)
      → only_key keys ≡ some key
      → (kid : Str) × (get kid keys ≡ some key)
  unfolding only_key get
  only_key-get [] key h = cc
  only_key-get (e ∷ []) key h = (e.0, ground (arith, list_eq_refl e.0))
  only_key-get (e ∷ d ∷ m) key h = cc

  or_default-IsTrusted :
      (v : Validator) (kid : Str) (found : Option j.VerifyingKey) (key : j.VerifyingKey)
      → get kid v.trusted_keys ≡ found
      → or_default v.trusted_keys v.default_key found ≡ some key
      → IsTrusted v key
  unfolding or_default
  or_default-IsTrusted v kid (some k) key e h = inr (kid, ground arith)
  or_default-IsTrusted v kid none key e h = inl (ground arith)

  select_key-IsTrusted :
      (v : Validator) (kid : Option Str) (key : j.VerifyingKey)
      → select_key v kid ≡ some key
      → IsTrusted v key
  unfolding select_key
  select_key-IsTrusted v (some k) key h = or_default-IsTrusted v k (get k v.trusted_keys) key refl h
  select_key-IsTrusted v none key h = elim (Option-cases v.default_key) [
    | (inl p) ↦ inr (only_key-get v.trusted_keys key (ground arith))
    | (inr (k, p)) ↦ inl (ground arith)
  ]

  header_key-IsTrusted :
      (v : Validator) (header : j.Value) (key : j.VerifyingKey)
      → header_key j ct as_array access_claims v header ≡ ok key
      → IsTrusted v key
  unfolding header_key
  header_key-IsTrusted v header key h =
      elim (Option-cases (select_key v (header_str j header (codes "kid")))) [
        | (inl p) ↦ ground arith
        | (inr (k, p)) ↦
            select_key-IsTrusted v (header_str j header (codes "kid")) key (ground arith)
      ]

  -- The three parts of a token, of which the last is a signature of the first two under a trusted
  -- key, and the claims that the second holds.
  pub record IsSigned (v : Validator) (token : Str) (claims : Claims) : Type 0 where
    pub header : Str
    pub payload : Str
    pub signature : Str
    pub parts : split b'.' (trim token) ≡ header ∷ payload ∷ signature ∷ []
    pub key : j.VerifyingKey
    pub trusted : IsTrusted v key
    pub signature_bytes : List ℕ
    pub decoded : base64url_decode j signature ≡ ok signature_bytes
    pub verified :
        verify_p256_raw j key (as_bytes (header ++ b'.' ∷ payload)) signature_bytes ≡ ok tt
    pub payload_bytes : List ℕ
    pub payload_decoded : base64url_decode j payload ≡ ok payload_bytes
    pub claimed : access_claims payload_bytes ≡ some claims

  read_claims-IsSigned :
      (v : Validator) (token header payload signature : Str) (claims : Claims)
      → split b'.' (trim token) ≡ header ∷ payload ∷ signature ∷ []
      → read_claims j ct as_array access_claims v header payload signature ≡ ok claims
      → IsSigned v token claims
  unfolding read_claims
  read_claims-IsSigned v token header payload signature claims s h =
      elim (Result-cases (base64url_decode j header)) [
        | (inr (e, p)) ↦ ground arith
        | (inl (hb, p)) ↦ elim (Result-cases (base64url_decode j payload)) [
          | (inr (e, q)) ↦ ground arith
          | (inl (pb, q)) ↦ elim (Result-cases (base64url_decode j signature)) [
            | (inr (e, r)) ↦ ground arith
            | (inl (sb, r)) ↦ elim (Option-cases (j.from_slice hb)) [
              | (inl t) ↦ ground arith
              | (inr (value, t)) ↦
                  elim (Result-cases (header_key j ct as_array access_claims v value)) [
                    | (inr (e, u)) ↦ ground arith
                    | (inl (k, u)) ↦
                        elim (Result-cases
                          (verify_p256_raw j k (as_bytes (header ++ b'.' ∷ payload)) sb)) [
                            | (inr (e, w)) ↦ ground arith
                            | (inl (done, w)) ↦ record {
                              header = header;
                              payload = payload;
                              signature = signature;
                              parts = s;
                              key = k;
                              trusted = header_key-IsTrusted v value k u;
                              signature_bytes = sb;
                              decoded = r;
                              verified = w;
                              payload_bytes = pb;
                              payload_decoded = q;
                              claimed = ground arith;
                            }
                          ]
                  ]
            ]
          ]
        ]
      ]

  -- What acceptance establishes.
  abbrev pub Accepts : Validator → (now : Option ℕ) → (token jkt : Str) → AuthenticatedUser → Type 0
  Accepts v now token jkt user =
      (claims : Claims) × (now_secs : ℕ) × (now ≡ some now_secs)
      × IsSigned v token claims
      × IsValid j ct as_array access_claims v claims jkt now_secs
      × (user ≡ record {
        did = claims.sub;
        access_token = token;
        dpop_thumbprint = jkt;
        scope = claims.scope;
      })

  three-Accepts :
      (v : Validator) (now : Option ℕ) (token jkt header payload signature : Str)
      (user : AuthenticatedUser)
      → split b'.' (trim token) ≡ header ∷ payload ∷ signature ∷ []
      → verify_parts j ct as_array access_claims v token jkt now (header ∷ payload ∷ signature ∷ [])
        ≡ ok user
      → Accepts v now token jkt user
  unfolding verify_parts
  three-Accepts v now token jkt header payload signature user s h =
      elim (Result-cases (read_claims j ct as_array access_claims v header payload signature)) [
        | (inr (e, p)) ↦ ground arith
        | (inl (claims, p)) ↦ elim (Option-cases now) [
          | (inl q) ↦ ground arith
          | (inr (now_secs, q)) ↦
              elim (Result-cases (check_claims j ct as_array access_claims v claims jkt now_secs)) [
                | (inr (e, r)) ↦ ground arith
                | (inl (done, r)) ↦ (
                  claims,
                  now_secs,
                  q,
                  read_claims-IsSigned v token header payload signature claims s p,
                  check_claims-IsValid j ct as_array access_claims v claims jkt now_secs r,
                  ground arith,
                )
              ]
        ]
      ]

  verify_parts-Accepts :
      (v : Validator) (now : Option ℕ) (token jkt : Str) (parts : List Str)
      (user : AuthenticatedUser)
      → split b'.' (trim token) ≡ parts
      → verify_parts j ct as_array access_claims v token jkt now parts ≡ ok user
      → Accepts v now token jkt user
  unfolding verify_parts
  verify_parts-Accepts v now token jkt (a ∷ b ∷ c ∷ []) user s h =
      three-Accepts v now token jkt a b c user s h
  verify_parts-Accepts v now token jkt [] user s h = cc
  verify_parts-Accepts v now token jkt (a ∷ []) user s h = cc
  verify_parts-Accepts v now token jkt (a ∷ b ∷ []) user s h = cc
  verify_parts-Accepts v now token jkt (a ∷ b ∷ c ∷ d ∷ r) user s h = cc

  -- An accepted token has three parts, the last a valid signature of the first two under a
  -- configured key; its claims are unexpired and begun within the leeway, have exactly the
  -- configured issuer, with no trimming, and the configured audience, a subject that is not blank
  -- and is the configured one where there is one, every required scope, and the thumbprint of the
  -- proof's key. The user is the subject of the token.
  pub verify_token_sync-Accepts :
      (v : Validator) (now : Option ℕ) (token jkt : Str) (user : AuthenticatedUser)
      → verify_token_sync j ct as_array access_claims v now token jkt ≡ ok user
      → Accepts v now token jkt user
  unfolding verify_token_sync
  verify_token_sync-Accepts v now token jkt user h =
      verify_parts-Accepts v now token jkt (split b'.' (trim token)) user refl h

  -- Unless both an issuer and an audience are configured, no token is accepted.
  verify_token_sync-closed :
      (v : Validator) (now : Option ℕ) (token jkt : Str)
      → (v.expected_issuer ≡ none) ⊎ (v.expected_audience ≡ none)
      → is_ok (verify_token_sync j ct as_array access_claims v now token jkt) ≡ false
  verify_token_sync-closed v now token jkt missing =
      elim (Result-cases (verify_token_sync j ct as_array access_claims v now token jkt)) [
        | (inr (e, p)) ↦ ground arith
        | (inl (user, p)) ↦
            let (claims, now_secs, q, signed, valid, same) =
              verify_token_sync-Accepts v now token jkt user p in
            let (aud, named, value, held, matched) = valid.audience in
            let issued = valid.issued in ground arith
      ]
