-- ===== src/Session.antt =====
-- src/session.rs: `OAuthSession`, and from src/dpop.rs how its key is stored. A `SystemTime` is its
-- nanoseconds since the epoch; the clock that the source reads is an argument, and so is the latest
-- time that `SystemTime` can hold. A key is a parameter, like the format that `serde` stores a
-- session in. `Drop` and the zeroizing of outgoing tokens, which no later read can see, are left
-- out.
pub mod Laws
use skyauth.Base.{
  ℕ, ◌+◌, ◌*◌, ◌&&◌, Bool, true, false, not, Option, none, some, ltb, leb, if◌then◌else◌, Result,
  ok, err, ◌>>◌, ◌>>=◌, ok_or, fail_if, is_some,
}
use skyauth.Base.Text.{Str, codes, is_empty, trim, eq_ignore_ascii_case}

-- `TokenError`, and the failures of `serde`. Messages are left out.
pub data SessionError : Type 0 where
  invalid_token_type : Str → SessionError
  expiry_overflow rejected : SessionError

pub record OauthSession (Key : Type 0) : Type 0 where
  pub sub : Str
  pub access_token : Str
  pub refresh_token : Option Str
  pub token_type : Str
  pub scope : Option Str
  pub expires_at : Option ℕ
  pub dpop_key : Key
  pub pds_endpoint : Option Str
  pub auth_server_issuer : Option Str
  pub token_endpoint : Option Str
  pub created_at : ℕ

-- `SystemTime::checked_add`.
unfoldable pub checked_add : (last time duration : ℕ) → Option ℕ
checked_add last time duration = if leb (time + duration) last then some (time + duration) else none

-- `expires_in_secs.and_then(|secs| now.checked_add(…))`.
unfoldable pub expiry_of : (last now : ℕ) → (expires_in_secs : Option ℕ) → Option ℕ
unfolding checked_add
expiry_of last now none = none
expiry_of last now (some secs) = checked_add last now (secs * 1000000000)

-- The comparison of `is_expired_with_leeway`; no expiry means never.
unfoldable pub is_past : (exp : ℕ) → Option ℕ → Bool
is_past exp none = true
is_past exp (some now_with_leeway) = leb exp now_with_leeway

unfoldable pub expires_by : (last now leeway : ℕ) → Option ℕ → Bool
unfolding is_past
expires_by last now leeway none = false
expires_by last now leeway (some exp) = is_past exp (checked_add last now leeway)

-- `if let Some(new_scope) = scope`.
unfoldable pub or_else : Option Str → Option Str → Option Str
or_else none old = old
or_else (some new_scope) old = some new_scope

-- `RawSession`, with the key as it is stored.
pub record RawSession : Type 0 where
  pub sub : Str
  pub access_token : Str
  pub refresh_token : Option Str
  pub token_type : Str
  pub scope : Option Str
  pub expires_at : Option ℕ
  pub dpop_key : Str
  pub pds_endpoint : Option Str
  pub auth_server_issuer : Option Str
  pub token_endpoint : Option Str
  pub created_at : ℕ

-- A format of `serde` and its derived reader and writer of the fields, and the functions of src/dpop.rs
-- that write a key as PEM and read it.
pub record Codec (Key : Type 0) : Type 1 where
  pub Document : Type 0
  pub write : RawSession → Document
  pub read : Document → Option RawSession
  pub to_pkcs8_pem : Key → Option Str
  pub from_pkcs8_pem : Str → Option Key

module _ {Key : Type 0} where
  -- The fields as they are stored, with the key as the text `pem`.
  unfoldable pub stored : (pem : Str) → OauthSession Key → RawSession
  stored pem s = record {
    sub = s.sub;
    access_token = s.access_token;
    refresh_token = s.refresh_token;
    token_type = s.token_type;
    scope = s.scope;
    expires_at = s.expires_at;
    dpop_key = pem;
    pds_endpoint = s.pds_endpoint;
    auth_server_issuer = s.auth_server_issuer;
    token_endpoint = s.token_endpoint;
    created_at = s.created_at;
  }

  unfoldable pub new :
      (last now : ℕ) (sub access_token : Str) (refresh_token : Option Str) (token_type : Str)
      (scope : Option Str) (expires_in_secs : Option ℕ) (dpop_key : Key)
      (pds_endpoint auth_server_issuer token_endpoint : Option Str)
      → Result SessionError (OauthSession Key)
  new last now sub access_token refresh_token token_type scope expires_in_secs dpop_key pds_endpoint
        auth_server_issuer token_endpoint =
      let expires_at = expiry_of last now expires_in_secs in
      fail_if (not (eq_ignore_ascii_case token_type (codes "DPoP"))) (invalid_token_type token_type)
      >> fail_if (is_some expires_in_secs && not (is_some expires_at)) expiry_overflow
      >> ok (record {
        sub = sub;
        access_token = access_token;
        refresh_token = refresh_token;
        token_type = token_type;
        scope = scope;
        expires_at = expires_at;
        dpop_key = dpop_key;
        pds_endpoint = pds_endpoint;
        auth_server_issuer = auth_server_issuer;
        token_endpoint = token_endpoint;
        created_at = now;
      })

  unfoldable pub is_expired_with_leeway : (last now : ℕ) → OauthSession Key → (leeway : ℕ) → Bool
  unfolding expires_by
  is_expired_with_leeway last now s leeway = expires_by last now leeway s.expires_at

  unfoldable pub is_expired : (last now : ℕ) → OauthSession Key → Bool
  is_expired last now s = is_expired_with_leeway last now s 0

  unfoldable pub rotate_tokens_with_scope :
      (last now : ℕ)
      → OauthSession Key
      → (access_token : Str) (refresh_token : Option Str) (expires_in_secs : Option ℕ)
        (scope : Option Str)
      → OauthSession Key
  unfolding or_else
  rotate_tokens_with_scope last now s access_token refresh_token expires_in_secs scope =
      let expires_at = expiry_of last now expires_in_secs in
      record s {
        access_token = access_token;
        refresh_token = refresh_token;
        scope = or_else scope s.scope;
        expires_at =
            if is_some expires_in_secs && not (is_some expires_at) then some now else expires_at;
      }

  unfoldable pub rotate_tokens :
      (last now : ℕ)
      → OauthSession Key
      → (access_token : Str) (refresh_token : Option Str) (expires_in_secs : Option ℕ)
      → OauthSession Key
  rotate_tokens last now s access_token refresh_token expires_in_secs =
      rotate_tokens_with_scope last now s access_token refresh_token expires_in_secs none

module _ {Key : Type 0} (c : Codec Key) where
  -- `Serialize` and `Deserialize` of `DPoPKey`.
  unfoldable pub serialize_key : Key → Result SessionError Str
  serialize_key key = ok_or (c.to_pkcs8_pem key) rejected

  unfoldable pub deserialize_key : Str → Result SessionError Key
  deserialize_key s = ok_or (c.from_pkcs8_pem s) rejected

  -- The derived `Serialize`.
  unfoldable pub serialize : OauthSession Key → Result SessionError c.Document
  unfolding serialize_key stored
  serialize s = serialize_key s.dpop_key >>= λ pem. ok (c.write (stored pem s))

  unfoldable pub deserialize : c.Document → Result SessionError (OauthSession Key)
  unfolding deserialize_key
  deserialize document = ok_or (c.read document) rejected >>= λ raw.
      deserialize_key raw.dpop_key >>= λ dpop_key.
      fail_if (not (eq_ignore_ascii_case raw.token_type (codes "DPoP"))) rejected
      >> (fail_if (is_empty (trim raw.sub)) rejected
          >> (fail_if (is_empty (trim raw.access_token)) rejected
              >> ok (record {
                sub = raw.sub;
                access_token = raw.access_token;
                refresh_token = raw.refresh_token;
                token_type = raw.token_type;
                scope = raw.scope;
                expires_at = raw.expires_at;
                dpop_key = dpop_key;
                pds_endpoint = raw.pds_endpoint;
                auth_server_issuer = raw.auth_server_issuer;
                token_endpoint = raw.token_endpoint;
                created_at = raw.created_at;
              })))
