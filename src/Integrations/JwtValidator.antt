-- ===== src/Integrations/JwtValidator.antt =====
-- src/integrations/validator.rs: `JwtAccessTokenValidator`. The clock is an argument, in seconds
-- since the epoch, or none before it. Besides the crates of `Jose`, the deserializer of the claims
-- and the arrays of `serde_json` are parameters.
pub mod Claims
pub mod Laws
use skyauth.Base.{
  ℕ, ◌+◌, ◌-◌, ◌∷◌, ◌++◌, Bool, true, false, not, ◌||◌, Option, none, some, List, [], length, all,
  any, list_eq, ltb, leb, ◌==◌, if◌then◌else◌, Result, ok, err, ◌>>=◌, ◌>>◌, fail_if, ok_or,
  map_err, is_some,
}
use skyauth.Base.Text.{Str, codes, is_empty, trim, split, eq_ignore_ascii_case, split_whitespace}
use skyauth.Base.Utf8.{as_bytes}
use skyauth.Maps.{HashMap, get, insert}
use skyauth.Kernels.CtEq.{Subtle, constant_time_eq}
use skyauth.Dpop.NonceSource.{saturating_add}
use skyauth.Dpop.Proof.{Jose, base64url_decode, verify_p256_raw, header_str}
use skyauth.Integrations.{
  AuthenticatedUser, IntegrationError, TokenError, auth_failed, internal, token, malformed_token,
  invalid_signature, expired, not_yet_valid, missing_issuer, issuer_mismatch, missing_audience,
  audience_mismatch, missing_did, sub_mismatch, missing_atproto_scope, cnf_thumbprint_mismatch,
}

module _ (Value : Type 0) where
  -- `cnf` holds one field, `jkt`.
  pub record JwtAccessTokenClaims : Type 0 where
    pub iss : Str
    pub sub : Str
    pub client_id : Str
    pub aud : Option Value
    pub exp : ℕ
    pub nbf : Option ℕ
    pub iat : ℕ
    pub jti : Str
    pub scope : Option Str
    pub jkt : Str

pub record JwtAccessTokenValidator (Key : Type 0) : Type 0 where
  pub trusted_keys : HashMap Key
  pub default_key : Option Key
  pub expected_issuer : Option Str
  pub expected_audience : Option Str
  pub expected_subject : Option Str
  pub required_scopes : List Str
  pub clock_skew_leeway : ℕ

module _ {Key : Type 0} where
  unfoldable pub new : JwtAccessTokenValidator Key
  new = record {
    trusted_keys = [];
    default_key = none;
    expected_issuer = none;
    expected_audience = none;
    expected_subject = none;
    required_scopes = [];
    clock_skew_leeway = 60;
  }

  unfoldable pub with_trusted_key :
      JwtAccessTokenValidator Key → (kid : Str) → Key → JwtAccessTokenValidator Key
  with_trusted_key v kid key = record v { trusted_keys = insert kid key v.trusted_keys }

  unfoldable pub with_verifying_key :
      JwtAccessTokenValidator Key → Key → JwtAccessTokenValidator Key
  with_verifying_key v key = record v { default_key = some key }

  unfoldable pub with_expected_issuer :
      JwtAccessTokenValidator Key → Str → JwtAccessTokenValidator Key
  with_expected_issuer v issuer = record v { expected_issuer = some issuer }

  unfoldable pub with_expected_audience :
      JwtAccessTokenValidator Key → Str → JwtAccessTokenValidator Key
  with_expected_audience v audience = record v { expected_audience = some audience }

  unfoldable pub with_expected_subject :
      JwtAccessTokenValidator Key → Str → JwtAccessTokenValidator Key
  with_expected_subject v subject = record v { expected_subject = some subject }

  unfoldable pub with_required_scope :
      JwtAccessTokenValidator Key → Str → JwtAccessTokenValidator Key
  with_required_scope v scope = record v { required_scopes = v.required_scopes ++ scope ∷ [] }

  unfoldable pub with_clock_skew : JwtAccessTokenValidator Key → ℕ → JwtAccessTokenValidator Key
  with_clock_skew v leeway = record v { clock_skew_leeway = leeway }

  -- `self.trusted_keys.values().next()` of a map with one entry.
  unfoldable pub only_key : HashMap Key → Option Key
  only_key (e ∷ []) = some e.1
  only_key _ = none

  unfoldable pub or_default : HashMap Key → (default_key found : Option Key) → Option Key
  or_default keys default_key (some key) = some key
  or_default keys default_key none = if is_empty keys then default_key else none

  -- The key for the `kid` of a header.
  unfoldable pub select_key : JwtAccessTokenValidator Key → (kid : Option Str) → Option Key
  unfolding only_key or_default
  select_key v (some k) = or_default v.trusted_keys v.default_key (get k v.trusted_keys)
  select_key v none = elim v.default_key [ some key ↦ some key | none ↦ only_key v.trusted_keys ]

-- `if let Some(nbf) = claims.nbf { … }`.
unfoldable pub check_nbf : (now leeway : ℕ) → Option ℕ → Result IntegrationError (Unit {0})
check_nbf now leeway none = ok tt
check_nbf now leeway (some nbf) =
    fail_if (ltb (saturating_add now leeway) nbf) (token (not_yet_valid nbf now))

-- The presence of the issuer, and its comparison with the configured one.
unfoldable pub check_issuer :
    (expected : Option Str) (iss : Str) → Result IntegrationError (Unit {0})
check_issuer expected iss =
    fail_if (is_empty (trim iss)) (token missing_issuer)
    >> (ok_or expected auth_failed >>= λ exp_iss.
        fail_if (not (list_eq iss exp_iss)) (token (issuer_mismatch exp_iss iss)))

unfoldable pub check_subject :
    (expected : Option Str) (sub : Str) → Result IntegrationError (Unit {0})
check_subject none sub = ok tt
check_subject (some exp_sub) sub =
    fail_if (not (list_eq sub exp_sub)) (token (sub_mismatch exp_sub sub))

unfoldable pub scope_text : Option Str → Str
scope_text none = []
scope_text (some scope) = scope

-- Every required scope is one of the granted ones.
unfoldable pub check_scopes :
    (required : List Str) (granted : Option Str) → Result IntegrationError (Unit {0})
unfolding scope_text
check_scopes required granted =
    let granted_scopes = split_whitespace (scope_text granted) in
    fail_if (not (all (λ r. any (λ g. list_eq g r) granted_scopes) required))
      (token (missing_atproto_scope granted))

-- `typ` in either of its spellings.
unfoldable pub is_access_token_typ : Option Str → Bool
is_access_token_typ none = false
is_access_token_typ (some t) =
    eq_ignore_ascii_case t (codes "at+jwt") || eq_ignore_ascii_case t (codes "application/at+jwt")

abbrev pub malformed : IntegrationError
malformed = token malformed_token

module _ (j : Jose) (ct : Subtle) (as_array : j.Value → Option (List j.Value))
    (access_claims : List ℕ → Option (JwtAccessTokenClaims j.Value)) where
  unfoldable pub is_text : Str → j.Value → Bool
  is_text s v = elim (j.as_str v) [ none ↦ false | some t ↦ list_eq t s ]

  unfoldable pub matches_audience : (exp_aud : Str) → j.Value → Bool
  unfolding is_text
  matches_audience exp_aud v = elim (j.as_str v) [
    | some t ↦ list_eq t exp_aud
    | none ↦ elim (as_array v) [ none ↦ false | some items ↦ any (is_text exp_aud) items ]
  ]

  unfoldable pub check_audience :
      (expected : Option Str) → Option j.Value → Result IntegrationError (Unit {0})
  unfolding matches_audience
  check_audience expected aud = ok_or aud (token missing_audience) >>= λ v.
      ok_or expected auth_failed >>= λ exp_aud.
      fail_if (not (matches_audience exp_aud v)) (token (audience_mismatch exp_aud))

  -- The tests on the claims of a token whose signature is valid.
  unfoldable pub check_claims :
      JwtAccessTokenValidator j.VerifyingKey
      → JwtAccessTokenClaims j.Value
      → (dpop_thumbprint : Str) (now_secs : ℕ) → Result IntegrationError (Unit {0})
  unfolding check_nbf check_issuer check_audience check_subject check_scopes
  check_claims v claims dpop_thumbprint now_secs =
      let leeway_secs = v.clock_skew_leeway in
      fail_if (leb claims.exp (saturating_add now_secs leeway_secs))
        (token (expired claims.exp now_secs))
      >> check_nbf now_secs leeway_secs claims.nbf
      >> check_issuer v.expected_issuer claims.iss
      >> check_audience v.expected_audience claims.aud
      >> fail_if (is_empty (trim claims.sub)) (token missing_did)
      >> check_subject v.expected_subject claims.sub
      >> check_scopes v.required_scopes claims.scope
      >> fail_if (not (constant_time_eq ct (as_bytes claims.jkt) (as_bytes dpop_thumbprint)))
          (token (cnf_thumbprint_mismatch claims.jkt dpop_thumbprint))

  -- The header, up to the key for it.
  unfoldable pub header_key :
      JwtAccessTokenValidator j.VerifyingKey → j.Value → Result IntegrationError j.VerifyingKey
  unfolding is_access_token_typ
  header_key v header = ok_or (header_str j header (codes "alg")) malformed >>= λ alg.
      fail_if (not (list_eq alg (codes "ES256"))) malformed
      >> fail_if (not (is_access_token_typ (header_str j header (codes "typ")))) malformed
      >> ok_or (select_key v (header_str j header (codes "kid"))) auth_failed

  -- The claims of a token, with a valid signature.
  unfoldable pub read_claims :
      JwtAccessTokenValidator j.VerifyingKey
      → (header payload signature : Str) → Result IntegrationError (JwtAccessTokenClaims j.Value)
  unfolding header_key
  read_claims v header payload signature =
      map_err (λ _. malformed) (base64url_decode j header) >>= λ header_bytes.
      map_err (λ _. malformed) (base64url_decode j payload) >>= λ payload_bytes.
      map_err (λ _. malformed) (base64url_decode j signature) >>= λ signature_bytes.
      ok_or (j.from_slice header_bytes) malformed >>= λ header_val.
      header_key v header_val >>= λ key.
      map_err (λ _. token invalid_signature)
        (verify_p256_raw j key (as_bytes (header ++ b'.' ∷ payload)) signature_bytes)
      >> ok_or (access_claims payload_bytes) malformed

  unfoldable pub verify_parts :
      JwtAccessTokenValidator j.VerifyingKey
      → (access_token dpop_thumbprint : Str) (now : Option ℕ) → List Str
      → Result IntegrationError AuthenticatedUser
  unfolding read_claims check_claims
  verify_parts v access_token dpop_thumbprint now (header ∷ payload ∷ signature ∷ []) =
      read_claims v header payload signature >>= λ claims. ok_or now internal >>= λ now_secs.
      check_claims v claims dpop_thumbprint now_secs
      >> ok (record {
        did = claims.sub;
        access_token = access_token;
        dpop_thumbprint = dpop_thumbprint;
        scope = claims.scope;
      })
  verify_parts v access_token dpop_thumbprint now parts = err malformed

  unfoldable pub verify_token_sync :
      JwtAccessTokenValidator j.VerifyingKey
      → (now : Option ℕ) → (access_token dpop_thumbprint : Str)
      → Result IntegrationError AuthenticatedUser
  unfolding verify_parts
  verify_token_sync v now access_token dpop_thumbprint =
      verify_parts v access_token dpop_thumbprint now (split b'.' (trim access_token))
