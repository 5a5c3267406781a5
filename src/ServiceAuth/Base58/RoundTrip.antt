-- ===== src/ServiceAuth/Base58/RoundTrip.antt =====
-- Bytes that do not begin with a zero are read back from their base58 text, and a public key from
-- its Multikey.
use skyauth.Base.{
  ℕ, ◌+◌, ◌*◌, ◌<◌, ◌≡◌, ◌∙◌, sym, refl, ap, subst, List, [], ◌∷◌, ◌++◌, reverse, map, All, length,
  length-append, false, Option, ok, ltb, arith,
}
use mathlib.Core.List.{reverse_aux}
use native.Mathlib.Nat.{mul-pos}
use skyauth.Base.Text.{Str}
use skyauth.Base.Utf8.{as_bytes, char_bytes, as_bytes-ascii}
use skyauth.ServiceAuth.Base58.{
  spread, decode_bytes, bs58_decode, encode_from, leading_ones, char_of, bs58_encode,
  decode_multibase, decode_multikey, strip_zero, encode_multikey_secp256k1, encode_multikey_p256,
}
use skyauth.ServiceAuth.Base58.Numerals.{
  number_from, spread_zero-IsCanonical, reverse_aux-IsCanonical, IsCanonical-reverse_aux,
  All-reverse_aux, value-reverse_aux, value, Below, IsCanonical, value_injective,
}
use skyauth.ServiceAuth.Base58.Digits.{
  value-encode_from, encode_from-IsCanonical, encode_from-Below, digits_from, value-digits_from,
  digits_from-IsCanonical, digits_from-Below, map-ascii, decode_bytes-map,
}

value-reverse : (base : ℕ) (xs : List ℕ) → value base (reverse xs) ≡ number_from base 0 xs
unfolding value
value-reverse base xs = value-reverse_aux base xs []

-- Two ways to spell one number.
digits_from-bytes :
    (digits : List ℕ) (b : ℕ) (bytes : List ℕ)
    → All (λ x. x < 256) (b ∷ bytes)
    → 0 < b
    → number_from 58 0 digits ≡ number_from 256 0 (b ∷ bytes)
    → digits_from [] digits ≡ reverse (b ∷ bytes)
unfolding value
digits_from-bytes digits b bytes bounded h e =
    value_injective 256 (digits_from [] digits) (reverse (b ∷ bytes)) (omega arith)
      (digits_from-Below [] digits tt) (All-reverse_aux (λ x. x < 256) (b ∷ bytes) [] bounded tt)
      (digits_from-IsCanonical [] digits tt) (reverse_aux-IsCanonical bytes b [] h)
      (value-digits_from [] digits ∙ (e ∙ sym (value-reverse 256 (b ∷ bytes))))

reverse_reverse_aux : (xs acc : List ℕ) → reverse_aux (reverse_aux xs acc) [] ≡ reverse_aux acc xs
reverse_reverse_aux [] acc = refl
reverse_reverse_aux (x ∷ xs) acc = reverse_reverse_aux xs (x ∷ acc)

reverse-reverse : (xs : List ℕ) → reverse (reverse xs) ≡ xs
reverse-reverse xs = reverse_reverse_aux xs []

from_pos :
    (base before : ℕ) (bytes : List ℕ) → 0 < base → 0 < before → 0 < number_from base before bytes
unfolding number_from
from_pos base before [] p h = h
from_pos base before (b ∷ bytes) p h =
    let product = mul-pos {m = base} {n = before} p h in
    from_pos base (b + base * before) bytes p (omega arith)

number_pos : (base b : ℕ) (bytes : List ℕ) → 0 < base → 0 < b → 0 < number_from base 0 (b ∷ bytes)
unfolding number_from
number_pos base b bytes p h = from_pos base (b + base * 0) bytes p (omega arith)

-- The text of a canonical numeral with the number of the bytes is decoded to the bytes.
decode-reverse :
    (digits : List ℕ) (b : ℕ) (bytes : List ℕ)
    → Below 58 digits
    → IsCanonical (reverse digits)
    → All (λ x. x < 256) (b ∷ bytes)
    → 0 < b
    → number_from 58 0 digits ≡ number_from 256 0 (b ∷ bytes)
    → decode_bytes (map char_of digits) ≡ ok (b ∷ bytes)
unfolding number_from
decode-reverse [] b bytes below canon bounded h e =
    let positive = number_pos 256 b bytes (omega arith) h in absurd (omega arith)
decode-reverse (d ∷ digits) b bytes below canon bounded h e =
    decode_bytes-map d digits below (IsCanonical-reverse_aux digits d [] canon)
    ∙ ap ok (
        ap reverse (digits_from-bytes (d ∷ digits) b bytes bounded h e)
        ∙ reverse-reverse (b ∷ bytes))

leading_ones-pos : (b : ℕ) (bytes : List ℕ) → 0 < b → leading_ones (b ∷ bytes) ≡ []
unfolding leading_ones
leading_ones-pos b bytes h = ground arith

encoded-IsCanonical :
    (b : ℕ) (bytes : List ℕ) → 0 < b → IsCanonical (encode_from (0 ∷ []) (b ∷ bytes))
unfolding encode_from
encoded-IsCanonical b bytes h =
    encode_from-IsCanonical (spread 58 256 (0 ∷ []) b) bytes
      (spread_zero-IsCanonical 58 256 b (omega arith) h)

value_zero : (base : ℕ) → value base (0 ∷ []) ≡ 0
unfolding value
value_zero base = omega arith

encoded-number :
    (bytes : List ℕ)
    → number_from 58 0 (reverse (encode_from (0 ∷ []) bytes)) ≡ number_from 256 0 bytes
encoded-number bytes =
    let digits = encode_from (0 ∷ []) bytes in
    sym (value-reverse 58 (reverse digits))
    ∙ (ap (value 58) (reverse-reverse digits)
        ∙ (value-encode_from (0 ∷ []) bytes ∙ ap (λ n. number_from 256 n bytes) (value_zero 58)))

-- Bytes that do not begin with a zero byte are decoded from their base58 text.
pub bs58_decode-bs58_encode :
    (b : ℕ) (bytes : List ℕ)
    → 0 < b
    → All (λ x. x < 256) (b ∷ bytes)
    → bs58_decode (bs58_encode (b ∷ bytes)) ≡ ok (b ∷ bytes)
unfolding bs58_decode bs58_encode
bs58_decode-bs58_encode b bytes h bounded =
    let digits = encode_from (0 ∷ []) (b ∷ bytes) in
    let below : Below 58 (reverse digits) =
      All-reverse_aux (λ d. d < 58) digits []
        (encode_from-Below (0 ∷ []) (b ∷ bytes) (omega arith, tt)) tt in
    let canon : IsCanonical (reverse (reverse digits)) =
      subst IsCanonical (sym (reverse-reverse digits)) (encoded-IsCanonical b bytes h) in
    ap (λ ones. decode_bytes (as_bytes (ones ++ map char_of (reverse digits))))
      (leading_ones-pos b bytes h)
    ∙ (ap decode_bytes
          (as_bytes-ascii (map char_of (reverse digits)) (map-ascii (reverse digits) below))
        ∙ decode-reverse (reverse digits) b bytes below canon bounded h
            (encoded-number (b ∷ bytes)))

two_bytes : (c d : ℕ) (t : Str) → ltb (length (as_bytes (c ∷ d ∷ t))) 2 ≡ false
unfolding as_bytes char_bytes
two_bytes c d t = ground (
  arith,
  length-append (char_bytes c) (as_bytes (d ∷ t)),
  length-append (char_bytes d) (as_bytes t),
)

decode_multikey-z :
    (decode_no_pad : Str → Option (List ℕ)) (text : Str) (b : ℕ) (bytes : List ℕ)
    → 0 < b
    → bs58_decode text ≡ ok (b ∷ bytes)
    → decode_multikey decode_no_pad (b'z' ∷ text) ≡ ok (b ∷ bytes)
unfolding decode_multikey decode_multibase bs58_decode decode_bytes as_bytes strip_zero
decode_multikey-z decode_no_pad [] b bytes h e = cc
decode_multikey-z decode_no_pad (c ∷ text) b bytes h e =
    rw (two_bytes b'z' c text, e) (ground arith)

-- A public key, as any bytes, is decoded from its Multikey text, with the header of its curve in
-- front.
pub decode_multikey-encode :
    (decode_no_pad : Str → Option (List ℕ)) (sec1 : List ℕ)
    → All (λ x. x < 256) sec1
    → (decode_multikey decode_no_pad (encode_multikey_secp256k1 sec1) ≡ ok (0xe7 ∷ 0x01 ∷ sec1))
      × (decode_multikey decode_no_pad (encode_multikey_p256 sec1) ≡ ok (0x80 ∷ 0x24 ∷ sec1))
unfolding encode_multikey_secp256k1 encode_multikey_p256
decode_multikey-encode decode_no_pad sec1 bounded = (
  decode_multikey-z decode_no_pad (bs58_encode (0xe7 ∷ 0x01 ∷ sec1)) 0xe7 (0x01 ∷ sec1)
      (omega arith)
      (bs58_decode-bs58_encode 0xe7 (0x01 ∷ sec1) (omega arith)
        (omega arith, (omega arith, bounded))),
  decode_multikey-z decode_no_pad (bs58_encode (0x80 ∷ 0x24 ∷ sec1)) 0x80 (0x24 ∷ sec1)
      (omega arith)
      (bs58_decode-bs58_encode 0x80 (0x24 ∷ sec1) (omega arith)
        (omega arith, (omega arith, bounded))),
)
