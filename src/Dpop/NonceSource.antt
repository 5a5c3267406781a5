-- ===== src/Dpop/NonceSource.antt =====
-- `InMemoryServerNonceSource` of src/dpop.rs: the nonces that a server issues. The clock, in
-- seconds, and the 24 random bytes of a nonce are arguments.
pub mod Laws
use skyauth.Base.{
  ℕ, ◌+◌, ◌-◌, ◌^◌, Bool, true, false, not, Option, none, some, List, [], length, ◌==◌, ltb, leb,
  if◌then◌else◌, Result, ok, err,
}
use skyauth.Base.Text.{Str, trim}
use skyauth.Maps.{HashMap, get, insert, remove, retain}
use skyauth.Crypto.{Crypto, base64url_encode}
use skyauth.Dpop.Errors.{DpopError, nonce_cache_saturated}

abbrev pub nonce_prune_threshold : ℕ
nonce_prune_threshold = 1024

abbrev pub nonce_cache_capacity : ℕ
nonce_cache_capacity = 4096

abbrev pub challenge_issuance_rate_limit : ℕ
challenge_issuance_rate_limit = 64

-- `u64::saturating_add`.
abbrev pub saturating_add : ℕ → ℕ → ℕ
saturating_add a b = if leb (a + b) (2 ^ 64 - 1) then a + b else 2 ^ 64 - 1

pub record InMemoryServerNonceSource : Type 0 where
  pub nonces : HashMap ℕ
  pub ttl : ℕ
  pub single_use : Bool
  pub issuance_window_secs : ℕ
  pub issuance_count_in_window : ℕ
  pub issuance_rate_limit : ℕ

unfoldable pub new : ℕ → InMemoryServerNonceSource
new ttl = record {
  nonces = [];
  ttl = ttl;
  single_use = false;
  issuance_window_secs = 0;
  issuance_count_in_window = 0;
  issuance_rate_limit = challenge_issuance_rate_limit;
}

unfoldable pub with_issuance_rate_limit : InMemoryServerNonceSource → ℕ → InMemoryServerNonceSource
with_issuance_rate_limit s per_second = record s { issuance_rate_limit = per_second }

unfoldable pub with_single_use : InMemoryServerNonceSource → InMemoryServerNonceSource
with_single_use s = record s { single_use = true }

abbrev pub live_at : ℕ → ℕ → Bool
live_at now exp = ltb now exp

unfoldable pub prune_expired : InMemoryServerNonceSource → ℕ → InMemoryServerNonceSource
prune_expired s now = record s { nonces = retain (live_at now) s.nonces }

-- The first lines of the rate limiter: a new second starts a new count.
unfoldable pub open_window : InMemoryServerNonceSource → ℕ → InMemoryServerNonceSource
open_window s now =
    if not (s.issuance_window_secs == now)
    then record s { issuance_window_secs = now; issuance_count_in_window = 0 }
    else s

-- The part of `generate_nonce` under the lock of the nonces.
unfoldable pub store_nonce :
    InMemoryServerNonceSource
    → Str
    → (exp now : ℕ) → Result DpopError Str × InMemoryServerNonceSource
store_nonce s nonce exp now =
    let held =
      if ltb nonce_prune_threshold (length s.nonces)
      then retain (live_at now) s.nonces
      else s.nonces in
    if leb nonce_cache_capacity (length held)
    then (err nonce_cache_saturated, record s { nonces = held })
    else (ok nonce, record s { nonces = insert nonce exp held })

unfoldable pub generate_nonce :
    Crypto
    → InMemoryServerNonceSource
    → (now : ℕ) (raw : List ℕ) → Result DpopError Str × InMemoryServerNonceSource
generate_nonce c s now raw =
    let w = open_window s now in
    let counted = record w { issuance_count_in_window = w.issuance_count_in_window + 1 } in
    if leb w.issuance_rate_limit w.issuance_count_in_window
    then (err nonce_cache_saturated, w)
    else store_nonce counted (base64url_encode c raw) (saturating_add now w.ttl) now

unfoldable pub is_live : ℕ → Option ℕ → Bool
is_live now none = false
is_live now (some exp) = live_at now exp

unfoldable pub verify_nonce :
    InMemoryServerNonceSource → Str → (now : ℕ) → Bool × InMemoryServerNonceSource
unfolding is_live
verify_nonce s nonce now =
    let trimmed = trim nonce in
    if s.single_use
    then if is_live now (get trimmed s.nonces)
      then (true, record s { nonces = remove trimmed s.nonces })
      else (false, s)
    else (is_live now (get trimmed s.nonces), s)
