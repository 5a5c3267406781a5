-- ===== src/Dpop/NonceSource/Laws.antt =====
-- What a nonce source verifies.
use skyauth.Base.{
  ℕ, ◌+◌, ◌<◌, ◌^◌, ◌≡◌, refl, true, false, some, List, [], ◌∷◌, all, leb, Result, ok, err, arith,
  list_eq_refl, if_both,
}
use skyauth.Base.Text.{Str, trim, trim_start_by, trim_end_by, is_whitespace}
use skyauth.Maps.{get, retain}
use skyauth.Maps.Laws.{get-insert_self, get-remove}
use skyauth.Maps.Sizes.{insert-IsMap, remove-IsMap, length-insert-le, length-remove-le}
use skyauth.Maps.Shards.{Fits, retain-Fits}
use skyauth.Crypto.{Crypto, is_base64url, base64url_encode}
use skyauth.Dpop.Errors.{DpopError, nonce_cache_saturated}
use skyauth.Dpop.NonceSource.{
  InMemoryServerNonceSource, live_at, saturating_add, open_window, store_nonce, generate_nonce,
  is_live, verify_nonce, new,
}

-- Distinct nonces, and at most 4096 of them.
abbrev pub IsWellFormed : InMemoryServerNonceSource → Type 0
IsWellFormed s = Fits 4096 s.nonces

pub new-IsWellFormed : (ttl : ℕ) → IsWellFormed (new ttl)
unfolding new
new-IsWellFormed ttl = record { distinct = tt; bounded = omega arith }

store_nonce-IsWellFormed :
    (s : InMemoryServerNonceSource) (nonce : Str) (exp now : ℕ)
    → IsWellFormed s
    → IsWellFormed (store_nonce s nonce exp now).1
unfolding store_nonce
store_nonce-IsWellFormed s nonce exp now w =
    let p = retain-Fits 4096 (live_at now) s.nonces w in
    record {
      distinct = ground (
        arith,
        insert-IsMap nonce exp s.nonces w.distinct,
        insert-IsMap nonce exp (retain (live_at now) s.nonces) p.distinct,
        p.distinct,
      );
      bounded = ground (
        arith,
        length-insert-le nonce exp s.nonces,
        length-insert-le nonce exp (retain (live_at now) s.nonces),
        p.bounded,
      );
    }

open_window-nonces :
    (s : InMemoryServerNonceSource) (now : ℕ) → (open_window s now).nonces ≡ s.nonces
unfolding open_window
open_window-nonces s now = ground arith

open_window-ttl : (s : InMemoryServerNonceSource) (now : ℕ) → (open_window s now).ttl ≡ s.ttl
unfolding open_window
open_window-ttl s now = ground arith

-- The source that counts one more issue in the window of the second `now`.
abbrev counted : InMemoryServerNonceSource → ℕ → InMemoryServerNonceSource
counted s now = record (open_window s now) {
  issuance_count_in_window = (open_window s now).issuance_count_in_window + 1;
}

-- Issuing a nonce, or refusing to, keeps a source well formed: its nonces distinct and at most
-- 4096.
pub generate_nonce-IsWellFormed :
    (c : Crypto) (s : InMemoryServerNonceSource) (now : ℕ) (raw : List ℕ)
    → IsWellFormed s
    → IsWellFormed (generate_nonce c s now raw).1
unfolding generate_nonce
generate_nonce-IsWellFormed c s now raw w =
    let kept : IsWellFormed (open_window s now) = rw (open_window-nonces s now) w in
    if_both (λ (o : Result DpopError Str × InMemoryServerNonceSource). IsWellFormed o.1)
      (leb (open_window s now).issuance_rate_limit (open_window s now).issuance_count_in_window)
      {x = (err nonce_cache_saturated, open_window s now)}
      {y = store_nonce (counted s now) (base64url_encode c raw)
        (saturating_add now (open_window s now).ttl) now}
      kept
      (store_nonce-IsWellFormed (counted s now) (base64url_encode c raw)
        (saturating_add now (open_window s now).ttl) now kept)

pub verify_nonce-IsWellFormed :
    (s : InMemoryServerNonceSource) (nonce : Str) (now : ℕ)
    → IsWellFormed s
    → IsWellFormed (verify_nonce s nonce now).1
unfolding verify_nonce
verify_nonce-IsWellFormed s nonce now w = record {
  distinct = ground (arith, remove-IsMap (trim nonce) s.nonces w.distinct);
  bounded = ground (arith, length-remove-le (trim nonce) s.nonces);
}

-- Base64url text has no white space to trim.
trim_end_by-base64url : (s : Str) → all is_base64url s ≡ true → trim_end_by is_whitespace s ≡ s
unfolding trim_end_by is_whitespace is_base64url
trim_end_by-base64url [] h = refl
trim_end_by-base64url (x ∷ []) h = ground arith
trim_end_by-base64url (x ∷ y ∷ s) h = ground (arith, trim_end_by-base64url (y ∷ s))

trim_start_by-base64url : (s : Str) → all is_base64url s ≡ true → trim_start_by is_whitespace s ≡ s
unfolding trim_start_by is_whitespace is_base64url
trim_start_by-base64url [] h = refl
trim_start_by-base64url (x ∷ s) h = ground arith

trim-base64url : (s : Str) → all is_base64url s ≡ true → trim s ≡ s
unfolding trim
trim-base64url [] h = refl
trim-base64url (x ∷ s) h = rw (trim_start_by-base64url (x ∷ s) h) (trim_end_by-base64url (x ∷ s) h)

store_nonce-get :
    (s t : InMemoryServerNonceSource) (nonce issued : Str) (exp now : ℕ)
    → store_nonce s nonce exp now ≡ (ok issued, t)
    → (issued ≡ nonce) × (get nonce t.nonces ≡ some exp)
unfolding store_nonce
store_nonce-get s t nonce issued exp now e = ground (
  arith,
  get-insert_self nonce exp s.nonces,
  get-insert_self nonce exp (retain (live_at now) s.nonces),
)

generate_nonce-get :
    (c : Crypto) (s t : InMemoryServerNonceSource) (now : ℕ) (raw : List ℕ) (nonce : Str)
    → generate_nonce c s now raw ≡ (ok nonce, t)
    → (nonce ≡ base64url_encode c raw) × (get nonce t.nonces ≡ some (saturating_add now s.ttl))
unfolding generate_nonce
generate_nonce-get c s t now raw nonce e = ground (
  arith,
  store_nonce-get (counted s now) t (base64url_encode c raw) nonce
      (saturating_add now (open_window s now).ttl) now,
  open_window-ttl s now,
)

verify_nonce-live :
    (s : InMemoryServerNonceSource) (nonce : Str) (now : ℕ)
    → (verify_nonce s nonce now).0 ≡ is_live now (get (trim nonce) s.nonces)
unfolding verify_nonce
verify_nonce-live s nonce now = ground arith

-- A nonce that was issued at `now` is accepted at every `later` second before `now + ttl`, whether
-- or not the source is single-use, if that sum is below 2 ^ 64.
pub verify_nonce-generate_nonce :
    (c : Crypto) (s t : InMemoryServerNonceSource) (now later : ℕ) (raw : List ℕ) (nonce : Str)
    → generate_nonce c s now raw ≡ (ok nonce, t)
    → later < now + s.ttl
    → now + s.ttl < 2 ^ 64
    → (verify_nonce t nonce later).0 ≡ true
unfolding is_live base64url_encode
verify_nonce-generate_nonce c s t now later raw nonce e h f =
    let (issued, held) = generate_nonce-get c s t now raw nonce e in
    let plain : trim nonce ≡ nonce =
      rw issued (trim-base64url (base64url_encode c raw) (c.all-encode raw)) in
    rw (verify_nonce-live t nonce later, plain, held) (ground arith)

-- A single-use source that accepted a nonce does not accept it again.
verify_nonce-verify_nonce :
    (s : InMemoryServerNonceSource) (nonce : Str) (now later : ℕ)
    → s.single_use ≡ true
    → (verify_nonce s nonce now).0 ≡ true
    → (verify_nonce (verify_nonce s nonce now).1 nonce later).0 ≡ false
unfolding verify_nonce
verify_nonce-verify_nonce s nonce now later single e =
    ground (arith, get-remove (trim nonce) (trim nonce) s.nonces, list_eq_refl (trim nonce))
