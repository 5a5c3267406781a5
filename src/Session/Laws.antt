-- ===== src/Session/Laws.antt =====
-- When a session expires, and which sessions are read back from storage.
use skyauth.Base.{
  ℕ, ◌+◌, ◌≤◌, ◌≡◌, ◌↔◌, ◌*◌, ◌<◌, ◌⊎◌, inl, inr, Bool-cases, refl, true, false, Option, none, some,
  leb, ok, ◌>>=◌, arith,
}
use skyauth.Base.Text.{Str, is_empty, trim, codes, eq_ignore_ascii_case}
use skyauth.Session.{
  OauthSession, checked_add, expiry_of, deserialize, serialize, serialize_key, deserialize_key,
  stored, Codec, new, is_expired_with_leeway, is_expired, expires_by, is_past,
  rotate_tokens_with_scope,
}

module _ {Key : Type 0} (last : ℕ) where
  -- After a rotation, at any later time that the clock can represent, a session is expired exactly
  -- if a lifetime was given and has passed or cannot be represented.
  is_expired-rotate :
      (now later : ℕ) (s : OauthSession Key) (access_token : Str) (refresh_token : Option Str)
      (expires_in_secs : Option ℕ) (scope : Option Str)
      → now ≤ later
      → later ≤ last
      → (is_expired last later
            (rotate_tokens_with_scope last now s access_token refresh_token expires_in_secs scope)
          ≡ true)
        ↔ ((secs : ℕ) × (expires_in_secs ≡ some secs)
            × ((now + secs * 1000000000 ≤ later) ⊎ (last < now + secs * 1000000000)))
  unfolding is_expired is_expired_with_leeway expires_by is_past rotate_tokens_with_scope expiry_of
      checked_add
  is_expired-rotate now later s access_token refresh_token none scope h f =
      (λ e. cc, λ e. ground arith)
  is_expired-rotate now later s access_token refresh_token (some secs) scope h f =
      elim (Bool-cases (leb (now + secs * 1000000000) last)) [
        | (inl p) ↦ (λ e. (secs, refl, inl (ground arith)), λ e. ground arith)
        | (inr p) ↦ (λ e. (secs, refl, inr (ground arith)), λ e. ground arith)
      ]

  -- A session that the constructor made, stored and read again, is the same session exactly if its
  -- subject and its access token are not blank, if its key is read back from the PEM that it is
  -- written as, and the format reads back the fields that were written.
  pub deserialize-new :
      (c : Codec Key) (now : ℕ) (sub access_token : Str) (refresh_token : Option Str)
      (token_type : Str) (scope : Option Str) (expires_in_secs : Option ℕ) (dpop_key : Key)
      (pds_endpoint auth_server_issuer token_endpoint : Option Str) (s : OauthSession Key)
      (pem : Str)
      → new last now sub access_token refresh_token token_type scope expires_in_secs dpop_key
          pds_endpoint auth_server_issuer token_endpoint
        ≡ ok s
      → c.to_pkcs8_pem dpop_key ≡ some pem
      → c.from_pkcs8_pem pem ≡ some dpop_key
      → c.read (c.write (stored pem s)) ≡ some (stored pem s)
      → ((serialize c s >>= λ document. deserialize c document) ≡ ok s)
        ↔ ((is_empty (trim sub) ≡ false) × (is_empty (trim access_token) ≡ false))
  unfolding new serialize serialize_key deserialize deserialize_key stored
  deserialize-new c now sub access_token refresh_token token_type scope expires_in_secs dpop_key
        pds_endpoint auth_server_issuer token_endpoint s pem h exported imported read =
      let (e, f, g, k) : (s.token_type ≡ token_type)
          × (s.sub ≡ sub)
          × (s.access_token ≡ access_token)
          × (s.dpop_key ≡ dpop_key) =
        (ground arith, ground arith, ground arith, ground arith) in
      let named : eq_ignore_ascii_case token_type (codes "DPoP") ≡ true = ground arith in
      (λ q. (ground arith, ground arith), λ q. ground arith)
