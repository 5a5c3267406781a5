-- ===== src/Client.antt =====
-- src/client.rs: what `AtprotoOAuthClient` keeps, is given and returns, and the errors of its
-- operations. The fields of src/error.rs that hold a message alone are left out, and so are the
-- `Debug` and zeroizing implementations.
pub mod Wire
pub mod Retry
pub mod Token
pub mod Resource
pub mod Callback
pub mod Refresh
pub mod SingleFlight
pub mod Preview
use skyauth.Base.{ℕ, ◌*◌, ◌-◌, ◌+◌, ltb, Bool, true, Option, none, if◌then◌else◌}
use skyauth.Base.Text.{Str}
use skyauth.Ssrf.{SsrfError}
use skyauth.Dpop.Errors.{DpopError}
use skyauth.Session.{SessionError}

-- The variants of `TokenError` that the client returns.
pub data TokenError : Type 0 where
  missing_did missing_refresh_token state_expired missing_callback_issuer missing_scope : TokenError
  http json : TokenError
  invalid_nsid invalid_token_type missing_field missing_atproto_scope invalid_state :
      Str → TokenError
  issuer_mismatch sub_mismatch : (expected actual : Str) → TokenError
  scope_expansion : (granted requested : Str) → TokenError
  request_failed : (status : ℕ) (error : Str) → TokenError
  dpop : DpopError → TokenError
  ssrf : SsrfError → TokenError

-- `AtprotoOAuthError`, as far as these operations return it.
pub data AtprotoOauthError : Type 0 where
  token : TokenError → AtprotoOauthError
  dpop_error : DpopError → AtprotoOauthError
  session : SessionError → AtprotoOauthError

pub record OauthClientMetadata (Key : Type 0) : Type 0 where
  pub client_id : Str
  pub redirect_uri : Str
  pub scope : Str
  pub client_name : Option Str
  pub client_key : Option Key

-- Times are nanoseconds since the epoch.
pub record StoredStateEntry (Key : Type 0) : Type 0 where
  pub state : Str
  pub client_id : Str
  pub code_verifier : Str
  pub dpop_key : Key
  pub issuer : Str
  pub did : Option Str
  pub handle : Option Str
  pub redirect_uri : Str
  pub pds_endpoint : Str
  pub token_endpoint : Str
  pub scopes : Str
  pub created_at : ℕ
  pub expires_in_secs : ℕ

-- `StoredStateEntry::is_expired`; a clock behind `created_at` counts as expired.
unfoldable pub is_expired : {Key : Type 0} → StoredStateEntry Key → (now : ℕ) → Bool
is_expired e now =
    if ltb now e.created_at then true else ltb (e.expires_in_secs * 1000000000) (now - e.created_at)

pub record CallbackParams : Type 0 where
  pub code : Str
  pub state : Str
  pub iss : Option Str

pub record TokenResponse : Type 0 where
  pub access_token : Str
  pub token_type : Str
  pub expires_in : Option ℕ
  pub refresh_token : Option Str
  pub scope : Option Str
  pub sub : Str
