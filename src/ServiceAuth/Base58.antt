-- ===== src/ServiceAuth/Base58.antt =====
-- src/service_auth.rs: `bs58_decode`, `bs58_encode` and the multibase form of a public key. Both
-- conversions keep a little-endian number in a vector and run the same loop over it, with the
-- roles of 58 and 256 exchanged; no sum in it reaches 2^32. A byte operation `x & 0xff` or `x >> 8`
-- is a remainder or a quotient by 256.
pub mod Numerals
pub mod Digits
pub mod RoundTrip
use skyauth.Base.{
  ℕ, zero, suc, ◌+◌, ◌*◌, ◌/◌, ◌%◌, ◌∷◌, ◌++◌, Bool, true, false, Option, none, some, List, [],
  length, get_or, drop, reverse, map, ltb, ◌==◌, if◌then◌else◌, Result, ok, err, ◌>>=◌, map_err,
  ok_or,
}
use skyauth.Base.Text.{Str, codes, is_empty}
use skyauth.Base.Utf8.{as_bytes}
use skyauth.Crypto.{CryptoError, invalid_key, base64_decode}

abbrev pub alphabet : Str
alphabet = codes "123456789ABCDEFGHJKLMNPQRSTUVWXYZabcdefghijkmnopqrstuvwxyz"

-- `ALPHABET.iter().position(|&c| c == byte)`.
unfoldable pub position : (byte : ℕ) → Str → Option ℕ
position byte [] = none
position byte (c ∷ s) =
    let rest = position byte s in
    if c == byte then some 0 else elim rest [ none ↦ none | some i ↦ some (suc i) ]

unfoldable pub digit_of : (byte : ℕ) → Option ℕ
unfolding position
digit_of byte = position byte alphabet

-- `while carry > 0 { push(carry % base); carry /= base; }`. A round makes the carry smaller, so the
-- carry itself is enough fuel.
unfoldable pub push_carry : (base fuel carry : ℕ) → List ℕ
push_carry base zero carry = []
push_carry base (suc fuel) carry =
    let rest = push_carry base fuel (carry / base) in if carry == 0 then [] else carry % base ∷ rest

-- The loop over the digits with its carry, and the digits that are pushed at its end.
unfoldable pub spread : (base factor : ℕ) (digits : List ℕ) (carry : ℕ) → List ℕ
unfolding push_carry
spread base factor [] carry = push_carry base carry carry
spread base factor (d ∷ ds) carry =
    (d * factor + carry) % base ∷ spread base factor ds ((d * factor + carry) / base)

unfoldable pub decode_from : (out input : List ℕ) → Result CryptoError (List ℕ)
unfolding digit_of spread
decode_from out [] = ok out
decode_from out (byte ∷ input) =
    ok_or (digit_of byte) invalid_key >>= λ digit. decode_from (spread 256 58 out digit) input

unfoldable pub decode_bytes : List ℕ → Result CryptoError (List ℕ)
unfolding decode_from
decode_bytes [] = ok []
decode_bytes (c ∷ input) =
    if c == b'1' then err invalid_key else decode_from [] (c ∷ input) >>= λ out. ok (reverse out)

unfoldable pub bs58_decode : Str → Result CryptoError (List ℕ)
unfolding decode_bytes
bs58_decode input = decode_bytes (as_bytes input)

unfoldable pub encode_from : (digits bytes : List ℕ) → List ℕ
unfolding spread
encode_from digits [] = digits
encode_from digits (b ∷ bytes) = encode_from (spread 58 256 digits b) bytes

-- A `1` for each byte of the leading zeros.
unfoldable pub leading_ones : List ℕ → Str
leading_ones [] = []
leading_ones (b ∷ bytes) = let rest = leading_ones bytes in if b == 0 then b'1' ∷ rest else []

unfoldable pub char_of : ℕ → ℕ
char_of d = get_or alphabet d 0

unfoldable pub bs58_encode : List ℕ → Str
unfolding encode_from leading_ones char_of
bs58_encode bytes = leading_ones bytes ++ map char_of (reverse (encode_from (0 ∷ []) bytes))

-- `if decoded.first().copied() == Some(0x00)`.
unfoldable pub strip_zero : List ℕ → List ℕ
strip_zero [] = []
strip_zero (b ∷ bytes) = if b == 0 then bytes else b ∷ bytes

-- The decoder of base64url without padding is a parameter. A text below has two bytes at least, and
-- is cut after its first byte, which is ASCII.
unfoldable pub decode_multibase :
    (decode_no_pad : Str → Option (List ℕ)) → Str → Result CryptoError (List ℕ)
unfolding bs58_decode
decode_multibase decode_no_pad [] = err invalid_key
decode_multibase decode_no_pad (c ∷ rest) =
    if c == b'z'
    then bs58_decode rest
    else if c == b'u'
    then ok_or (decode_no_pad rest) base64_decode
    else err invalid_key

unfoldable pub decode_multikey :
    (decode_no_pad : Str → Option (List ℕ)) → Str → Result CryptoError (List ℕ)
unfolding decode_multibase strip_zero
decode_multikey decode_no_pad multibase =
    if ltb (length (as_bytes multibase)) 2
    then err invalid_key
    else decode_multibase decode_no_pad multibase >>= λ decoded. ok (strip_zero decoded)

-- The compressed point of a key is 33 bytes.
unfoldable pub encode_multikey_secp256k1 : (sec1 : List ℕ) → Str
unfolding bs58_encode
encode_multikey_secp256k1 sec1 = b'z' ∷ bs58_encode (0xe7 ∷ 0x01 ∷ sec1)

unfoldable pub encode_multikey_p256 : (sec1 : List ℕ) → Str
unfolding bs58_encode
encode_multikey_p256 sec1 = b'z' ∷ bs58_encode (0x80 ∷ 0x24 ∷ sec1)
