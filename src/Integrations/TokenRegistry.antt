-- ===== src/Integrations/TokenRegistry.antt =====
-- src/integrations/validator.rs: `InMemoryTokenValidator`, the access tokens of a server by the
-- SHA-256 digest of their bytes. A `SystemTime` is its nanoseconds since the epoch, and the clock is
-- an argument. Every operation holds the lock of the map throughout.
pub mod Laws
use skyauth.Base.{
  ℕ, ◌-◌, ◌/◌, Bool, true, false, not, Option, none, some, List, [], length, ltb, ◌==◌, Result, ok,
  err, ◌>>=◌, ◌>>◌, fail_if, ok_or,
}
use skyauth.Base.Text.{Str}
use skyauth.Base.Utf8.{as_bytes}
use skyauth.Maps.{HashMap, get, insert, remove, retain}
use skyauth.Crypto.{Crypto, sha256_digest}
use skyauth.Kernels.CtEq.{Subtle, constant_time_eq}
use skyauth.Session.{OauthSession}
use skyauth.Integrations.{
  AuthenticatedUser, IntegrationError, token, malformed_token, expired, cnf_thumbprint_mismatch,
}

pub record RegisteredToken : Type 0 where
  pub did : Str
  pub dpop_thumbprint : Str
  pub scope : Option Str
  pub expires_at : Option ℕ

abbrev pub InMemoryTokenValidator : Type 0
InMemoryTokenValidator = HashMap RegisteredToken

abbrev pub new : InMemoryTokenValidator
new = []

-- What `prune_expired` keeps.
unfoldable pub unexpired_at : (now : ℕ) → RegisteredToken → Bool
unexpired_at now entry = elim entry.expires_at [ none ↦ true | some exp ↦ ltb now exp ]

-- The tokens left, and the number of those that went.
unfoldable pub prune_expired : InMemoryTokenValidator → (now : ℕ) → ℕ × InMemoryTokenValidator
prune_expired s now = let kept = retain (unexpired_at now) s in (length s - length kept, kept)

unfoldable pub len : InMemoryTokenValidator → ℕ
len s = length s

unfoldable pub is_empty : InMemoryTokenValidator → Bool
unfolding len
is_empty s = len s == 0

-- `if now > exp { return Err(…) }`, with both times in seconds.
unfoldable pub check_expiry : (now : ℕ) → Option ℕ → Result IntegrationError (Unit {0})
check_expiry now none = ok tt
check_expiry now (some exp) =
    fail_if (ltb exp now) (token (expired (exp / 1000000000) (now / 1000000000)))

module _ (c : Crypto) where
  unfoldable pub register_token :
      InMemoryTokenValidator
      → (bytes : List ℕ) (did dpop_thumbprint : Str) (scope : Option Str) (expires_at : Option ℕ)
      → InMemoryTokenValidator
  register_token s bytes did dpop_thumbprint scope expires_at =
      insert (sha256_digest c bytes)
        (record {
          did = did;
          dpop_thumbprint = dpop_thumbprint;
          scope = scope;
          expires_at = expires_at;
        })
        s

  -- The thumbprint of a key is a parameter.
  unfoldable pub register_session :
      {Key : Type 0} (jwk_thumbprint : Key → Str)
      → InMemoryTokenValidator
      → OauthSession Key
      → InMemoryTokenValidator
  register_session jwk_thumbprint s session =
      register_token s (as_bytes session.access_token) session.sub (jwk_thumbprint session.dpop_key)
        session.scope session.expires_at

  unfoldable pub revoke_token :
      InMemoryTokenValidator → (access_token : Str) → InMemoryTokenValidator
  revoke_token s access_token = remove (sha256_digest c (as_bytes access_token)) s

  module _ (ct : Subtle) where
    unfoldable pub check_entry :
        (now : ℕ) (access_token dpop_thumbprint : Str)
        → RegisteredToken
        → Result IntegrationError AuthenticatedUser
    unfolding check_expiry
    check_entry now access_token dpop_thumbprint entry =
        check_expiry now entry.expires_at
        >> fail_if
            (not (constant_time_eq ct (as_bytes entry.dpop_thumbprint) (as_bytes dpop_thumbprint)))
            (token (cnf_thumbprint_mismatch entry.dpop_thumbprint dpop_thumbprint))
        >> ok (record {
          did = entry.did;
          access_token = access_token;
          dpop_thumbprint = dpop_thumbprint;
          scope = entry.scope;
        })

    unfoldable pub validate_sync :
        InMemoryTokenValidator
        → (now : ℕ) (access_token dpop_thumbprint : Str) → Result IntegrationError AuthenticatedUser
    unfolding check_entry
    validate_sync s now access_token dpop_thumbprint =
        ok_or (get (sha256_digest c (as_bytes access_token)) s) (token malformed_token) >>= λ entry.
        check_entry now access_token dpop_thumbprint entry
