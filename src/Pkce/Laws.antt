-- ===== src/Pkce/Laws.antt =====
-- What a PKCE pair promises, and what `verify_pkce` accepts.
use skyauth.Base.{
  ℕ, ◌+◌, ◌*◌, ◌/◌, ◌≤◌, ◌<◌, ◌≡◌, refl, ◌↔◌, true, List, [], ◌∷◌, length, all, All, arith, ok, ap,
  ◌∙◌,
}
use skyauth.Base.Text.{Str}
use skyauth.Base.Utf8.{as_bytes, len, as_bytes-ascii}
use skyauth.Crypto.{Crypto, is_base64url, sha256_digest, base64url_encode}
use skyauth.Kernels.CtEq.{Subtle, constant_time_eq_iff}
use skyauth.Kernels.PkceBytes.{
  validate_verifier_bytes, check_bytes, is_unreserved_byte, is_valid_verifier_length,
}
use skyauth.Pkce.{
  PkcePair, derive_s256_challenge, validate_verifier, from_verifier, generate,
  generate_with_entropy_size, verify_pkce, verify, s256,
}

is_base64url-ascii : (s : Str) → all is_base64url s ≡ true → All (λ c. c < 128) s
unfolding is_base64url
is_base64url-ascii [] h = tt
is_base64url-ascii (c ∷ s) h = (ground arith, is_base64url-ascii s (ground arith))

module _ (c : Crypto) where
  length-encode : (bytes : List ℕ) → length (base64url_encode c bytes) ≡ (length bytes * 4 + 2) / 3
  unfolding base64url_encode
  length-encode bytes = c.length-encode bytes

  all-encode : (bytes : List ℕ) → all is_base64url (base64url_encode c bytes) ≡ true
  unfolding base64url_encode
  all-encode bytes = c.all-encode bytes

  encode-ascii : (bytes : List ℕ) → as_bytes (base64url_encode c bytes) ≡ base64url_encode c bytes
  unfolding base64url_encode
  encode-ascii bytes = as_bytes-ascii _ (is_base64url-ascii _ (c.all-encode bytes))

  len-encode : (bytes : List ℕ) → len (base64url_encode c bytes) ≡ (length bytes * 4 + 2) / 3
  unfolding len base64url_encode
  len-encode bytes = ap length (encode-ascii bytes) ∙ c.length-encode bytes

  len-challenge : (v : Str) → len (derive_s256_challenge c v) ≡ 43
  unfolding derive_s256_challenge sha256_digest
  len-challenge v =
      omega (arith, len-encode (sha256_digest c (as_bytes v)), c.length-sha256 (as_bytes v))

  check_bytes-encode : (i : ℕ) (s : Str) → all is_base64url s ≡ true → check_bytes i s ≡ ok tt
  unfolding check_bytes is_unreserved_byte is_base64url
  check_bytes-encode i [] h = refl
  check_bytes-encode i (x ∷ s) h = ground (arith, check_bytes-encode (i + 1) s)

  -- An encoding of 32 to 96 bytes is a valid verifier.
  validate_verifier-encode :
      (bytes : List ℕ)
      → 32 ≤ length bytes
      → length bytes ≤ 96
      → validate_verifier (base64url_encode c bytes) ≡ ok tt
  unfolding validate_verifier validate_verifier_bytes is_valid_verifier_length
  validate_verifier-encode bytes h k = rw encode-ascii (
      ground (
        arith,
        length-encode bytes,
        check_bytes-encode 0 (base64url_encode c bytes) (all-encode bytes),
      ))

  -- Given a generator that fills a buffer of `n` bytes, a pair is generated exactly if `n` is from
  -- 32 to 96.
  pub generate_with_entropy_size_iff :
      (random : ℕ → List ℕ) (n : ℕ)
      → length (random n) ≡ n
      → ((p : PkcePair) × (generate_with_entropy_size c random n ≡ ok p)) ↔ ((32 ≤ n) × (n ≤ 96))
  unfolding generate_with_entropy_size from_verifier
  generate_with_entropy_size_iff random n h = (
    λ (p, e). ground arith,
    λ (low, high).
        let valid = validate_verifier-encode (random n) (omega arith) (omega arith) in
        (
          record {
            verifier = base64url_encode c (random n);
            challenge = derive_s256_challenge c (base64url_encode c (random n));
            method = s256;
          },
          ground (arith, valid),
        ),
  )

module _ (s : Subtle) (c : Crypto) where
  -- Verification succeeds exactly if the verifier is valid and its S256 challenge has the bytes of
  -- the expected one.
  pub verify_pkce_iff :
      (verifier expected : Str)
      → (verify_pkce s c verifier expected ≡ ok tt) ↔ (
          (validate_verifier verifier ≡ ok tt)
          × (as_bytes (derive_s256_challenge c verifier) ≡ as_bytes expected))
  unfolding verify_pkce len
  verify_pkce_iff verifier expected = ground (
    arith,
    len-challenge c verifier,
    constant_time_eq_iff s (as_bytes (derive_s256_challenge c verifier)) (as_bytes expected),
    ap length {x = as_bytes (derive_s256_challenge c verifier)} {y = as_bytes expected},
  )

  -- A pair that is made from a verifier has that verifier, and accepts it.
  pub verify-from_verifier :
      (v : Str) {p : PkcePair}
      → from_verifier c v ≡ ok p
      → (p.verifier ≡ v) × (verify s c p v ≡ ok tt)
  unfolding from_verifier verify
  verify-from_verifier v {p} h = ground (arith, (verify_pkce_iff v p.challenge).1)

  -- For 32 bytes of entropy, the verifier of the generated pair is valid, and the pair accepts it.
  verify-generate :
      (entropy : List ℕ)
      → length entropy ≡ 32
      → (validate_verifier (generate c entropy).verifier ≡ ok tt)
        × (verify s c (generate c entropy) (generate c entropy).verifier ≡ ok tt)
  unfolding generate verify
  verify-generate entropy h =
      let valid = validate_verifier-encode c entropy (omega arith) (omega arith) in
      (valid, (verify_pkce_iff _ _).1 (valid, refl))
