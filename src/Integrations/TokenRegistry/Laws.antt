-- ===== src/Integrations/TokenRegistry/Laws.antt =====
-- A registered token is accepted with its own key until it expires or is revoked.
use skyauth.Base.{
  ℕ, ◌≤◌, ◌<◌, ◌≡◌, ◌↔◌, refl, ap, Bool, false, Option, none, some, ok, ◌>>=◌, ok_or, arith, is_ok,
  ◌∙◌, Bool-cases, Option-cases, inl, inr, list_eq_refl,
}
use skyauth.Base.Text.{Str}
use skyauth.Base.Utf8.{as_bytes}
use skyauth.Maps.{get, IsMap}
use skyauth.Maps.Laws.{get-insert_self, get-remove, get-retain, keep}
use skyauth.Crypto.{Crypto, sha256_digest}
use skyauth.Kernels.CtEq.{Subtle, constant_time_eq_iff}
use skyauth.Integrations.{AuthenticatedUser, token, malformed_token}
use skyauth.Integrations.TokenRegistry.{
  RegisteredToken, InMemoryTokenValidator, unexpired_at, prune_expired, check_expiry,
  register_token, revoke_token, check_entry, validate_sync,
}

-- No expiry, or one that has not passed.
abbrev pub IsCurrent : ℕ → Option ℕ → Type 0
IsCurrent now none = Unit
IsCurrent now (some exp) = now ≤ exp

check_expiry_iff : (now : ℕ) (exp : Option ℕ) → (check_expiry now exp ≡ ok tt) ↔ IsCurrent now exp
unfolding check_expiry
check_expiry_iff now none = (λ h. tt, λ h. refl)
check_expiry_iff now (some exp) = ground arith

module _ (c : Crypto) (ct : Subtle) where
  -- After a token is registered it validates just when its expiry, if it has one, has not passed
  -- and the key is the one that it was registered with; the user is the one that was registered.
  pub validate_sync-register_token :
      (s : InMemoryTokenValidator) (access_token did jkt : Str) (scope : Option Str)
      (expires_at : Option ℕ) (now : ℕ) (presented : Str) (user : AuthenticatedUser)
      → (validate_sync c ct
            (register_token c s (as_bytes access_token) did jkt scope expires_at)
            now
            access_token
            presented
          ≡ ok user)
        ↔ (IsCurrent now expires_at
            × (as_bytes jkt ≡ as_bytes presented)
            × (user ≡ record {
              did = did;
              access_token = access_token;
              dpop_thumbprint = presented;
              scope = scope;
            }))
  unfolding validate_sync register_token check_entry
  validate_sync-register_token s access_token did jkt scope expires_at now presented user =
      let entry : RegisteredToken = record {
        did = did;
        dpop_thumbprint = jkt;
        scope = scope;
        expires_at = expires_at;
      } in
      let held = get-insert_self (sha256_digest c (as_bytes access_token)) entry s in
      ground (
        arith,
        held,
        check_expiry_iff now expires_at,
        constant_time_eq_iff ct (as_bytes jkt) (as_bytes presented),
      )

  -- A revoked token is refused from then on.
  pub validate_sync-revoke_token :
      (s : InMemoryTokenValidator) (access_token presented : Str) (now : ℕ)
      → is_ok (validate_sync c ct (revoke_token c s access_token) now access_token presented)
        ≡ false
  unfolding validate_sync revoke_token
  validate_sync-revoke_token s access_token presented now =
      let key = sha256_digest c (as_bytes access_token) in
      ground (arith, get-remove key key s, list_eq_refl key)

  -- An entry that pruning drops is one that is refused later.
  dropped-refused :
      (entry : RegisteredToken) (now later : ℕ) (access_token presented : Str)
      → now < later
      → unexpired_at now entry ≡ false
      → is_ok (check_entry c ct later access_token presented entry) ≡ false
  unfolding unexpired_at check_entry check_expiry
  dropped-refused entry now later access_token presented h d =
      elim (Option-cases entry.expires_at) [
        | (inl p) ↦ ground arith
        | (inr (exp, p)) ↦ ground arith
      ]

  answer : Option RegisteredToken → (now : ℕ) (access_token presented : Str) → Bool
  answer found now access_token presented =
      is_ok (ok_or found (token malformed_token) >>= check_entry c ct now access_token presented)

  answer-keep :
      (found : Option RegisteredToken) (now later : ℕ) (access_token presented : Str)
      → now < later
      → answer (keep (unexpired_at now) found) later access_token presented
        ≡ answer found later access_token presented
  unfolding answer
  answer-keep none now later access_token presented h = refl
  answer-keep (some entry) now later access_token presented h =
      elim (Bool-cases (unexpired_at now entry)) [
        | (inl p) ↦ rw p refl
        | (inr p) ↦ rw (p, dropped-refused entry now later access_token presented h p) refl
      ]

  -- In a registry with distinct keys, pruning changes for no token whether it is accepted at a
  -- later time.
  validate_sync-prune_expired :
      (s : InMemoryTokenValidator) (now later : ℕ) (access_token presented : Str)
      → IsMap s
      → now < later
      → is_ok (validate_sync c ct (prune_expired s now).1 later access_token presented)
        ≡ is_ok (validate_sync c ct s later access_token presented)
  unfolding validate_sync prune_expired answer
  validate_sync-prune_expired s now later access_token presented m h =
      let key = sha256_digest c (as_bytes access_token) in
      ap (λ found. answer found later access_token presented)
        (get-retain (unexpired_at now) key s m)
      ∙ answer-keep (get key s) now later access_token presented h
