-- ===== src/Crypto.antt =====
-- src/crypto.rs: the calls into the `sha2` and `base64` crates. Both crates are parameters; what the
-- callers rely on is the length of a digest, and the length and the alphabet of an encoding.
use skyauth.Base.{ℕ, ◌+◌, ◌*◌, ◌/◌, ◌≡◌, Bool, true, ◌||◌, List, length, all, ◌==◌}
use skyauth.Base.Text.{Str, is_ascii_alphanumeric}

-- The characters of RFC 4648 §5.
unfoldable pub is_base64url : ℕ → Bool
unfolding is_ascii_alphanumeric
is_base64url c = is_ascii_alphanumeric c || (c == b'-') || (c == b'_')

-- `CryptoError` of src/error.rs, without the messages.
pub data CryptoError : Type 0 where
  ecdsa_sign ecdsa_verify invalid_key invalid_point base64_decode json rng hmac pem : CryptoError
  seal open_sealed invalid_envelope utf8 : CryptoError

pub record Crypto : Type 0 where
  -- `Sha256::digest`.
  pub sha256 : List ℕ → List ℕ
  pub length-sha256 : (bytes : List ℕ) → length (sha256 bytes) ≡ 32
  -- `URL_SAFE_NO_PAD.encode`: four characters for three bytes, and no padding.
  pub encode : List ℕ → Str
  pub length-encode : (bytes : List ℕ) → length (encode bytes) ≡ (length bytes * 4 + 2) / 3
  pub all-encode : (bytes : List ℕ) → all is_base64url (encode bytes) ≡ true

unfoldable pub sha256_digest : Crypto → List ℕ → List ℕ
sha256_digest c bytes = c.sha256 bytes

unfoldable pub base64url_encode : Crypto → List ℕ → Str
base64url_encode c bytes = c.encode bytes
