-- ===== src/ServiceAuth/Base58/Digits.antt =====
-- The loops of base58 as changes of the base of a number, and its alphabet.
use skyauth.Base.{
  ℕ, ◌+◌, ◌*◌, ◌<◌, ◌≡◌, ◌∙◌, refl, ap, List, [], ◌∷◌, reverse, map, All, ◌==◌, if◌then◌else◌, Bool,
  true, false, ◌&&◌, Option, none, some, ok, ltb, arith,
}
use skyauth.Base.Bits.{every_below, every_below_sound}
use skyauth.ServiceAuth.Base58.{digit_of, spread, decode_from, decode_bytes, encode_from, char_of}
use skyauth.ServiceAuth.Base58.Numerals.{
  number_from, value, Below, IsCanonical, value-spread, spread-Below, spread-IsCanonical,
}

swap : (base v b : ℕ) → base * v + b ≡ b + base * v
swap base v b = omega arith

pub value-encode_from :
    (digits bytes : List ℕ)
    → value 58 (encode_from digits bytes) ≡ number_from 256 (value 58 digits) bytes
unfolding encode_from number_from
value-encode_from digits [] = refl
value-encode_from digits (b ∷ bytes) =
    value-encode_from (spread 58 256 digits b) bytes
    ∙ ap (λ n. number_from 256 n bytes)
        (value-spread 58 256 digits b (omega arith) ∙ swap 256 (value 58 digits) b)

pub encode_from-IsCanonical :
    (digits bytes : List ℕ) → IsCanonical digits → IsCanonical (encode_from digits bytes)
unfolding encode_from
encode_from-IsCanonical digits [] h = h
encode_from-IsCanonical digits (b ∷ bytes) h =
    encode_from-IsCanonical (spread 58 256 digits b) bytes
      (spread-IsCanonical 58 256 digits b (omega arith) (omega arith) h)

pub encode_from-Below :
    (digits bytes : List ℕ) → Below 58 digits → Below 58 (encode_from digits bytes)
unfolding encode_from
encode_from-Below digits [] h = h
encode_from-Below digits (b ∷ bytes) h =
    encode_from-Below (spread 58 256 digits b) bytes (spread-Below 58 256 digits b (omega arith))

-- The same three facts of the other direction, over the digits that the characters stand for.
unfoldable pub digits_from : (out digits : List ℕ) → List ℕ
digits_from out [] = out
digits_from out (d ∷ digits) = digits_from (spread 256 58 out d) digits

pub value-digits_from :
    (out digits : List ℕ)
    → value 256 (digits_from out digits) ≡ number_from 58 (value 256 out) digits
unfolding digits_from number_from
value-digits_from out [] = refl
value-digits_from out (d ∷ digits) =
    value-digits_from (spread 256 58 out d) digits
    ∙ ap (λ n. number_from 58 n digits)
        (value-spread 256 58 out d (omega arith) ∙ swap 58 (value 256 out) d)

pub digits_from-IsCanonical :
    (out digits : List ℕ) → IsCanonical out → IsCanonical (digits_from out digits)
unfolding digits_from
digits_from-IsCanonical out [] h = h
digits_from-IsCanonical out (d ∷ digits) h =
    digits_from-IsCanonical (spread 256 58 out d) digits
      (spread-IsCanonical 256 58 out d (omega arith) (omega arith) h)

pub digits_from-Below : (out digits : List ℕ) → Below 256 out → Below 256 (digits_from out digits)
unfolding digits_from
digits_from-Below out [] h = h
digits_from-Below out (d ∷ digits) h =
    digits_from-Below (spread 256 58 out d) digits (spread-Below 256 58 out d (omega arith))

-- Each digit has its own character, which is ASCII, and only the digit 0 has the character 1.
coded_as : (found : Option ℕ) (char d : ℕ) → Bool
coded_as none char d = false
coded_as (some e) char d = (e == d) && ltb char 128 && (if char == b'1' then d == 0 else true)

coded_as-facts :
    (found : Option ℕ) (char d : ℕ)
    → coded_as found char d ≡ true
    → (found ≡ some d) × (char < 128) × (0 < d → (char == b'1') ≡ false)
unfolding coded_as
coded_as-facts none char d h = cc
coded_as-facts (some e) char d h = ground arith

is_coded : ℕ → Bool
unfolding coded_as digit_of char_of
is_coded d = coded_as (digit_of (char_of d)) (char_of d) d

coded : (d : ℕ) → d < 58 → is_coded d ≡ true
unfolding is_coded char_of digit_of every_below
coded d h = every_below_sound 58 is_coded d refl h

char_of-facts :
    (d : ℕ)
    → d < 58
    → (digit_of (char_of d) ≡ some d) × (char_of d < 128) × (0 < d → (char_of d == b'1') ≡ false)
unfolding is_coded
char_of-facts d h = coded_as-facts (digit_of (char_of d)) (char_of d) d (coded d h)

decode_from-map :
    (out digits : List ℕ)
    → Below 58 digits
    → decode_from out (map char_of digits) ≡ ok (digits_from out digits)
unfolding decode_from digits_from
decode_from-map out [] h = refl
decode_from-map out (d ∷ digits) h =
    rw (char_of-facts d h.0).0 (decode_from-map (spread 256 58 out d) digits h.1)

pub map-ascii : (digits : List ℕ) → Below 58 digits → All (λ c. c < 128) (map char_of digits)
map-ascii [] h = tt
map-ascii (d ∷ digits) h = ((char_of-facts d h.0).1, map-ascii digits h.1)

-- Digits with a nonzero digit first are read as their number.
pub decode_bytes-map :
    (d : ℕ) (digits : List ℕ)
    → Below 58 (d ∷ digits)
    → 0 < d
    → decode_bytes (map char_of (d ∷ digits)) ≡ ok (reverse (digits_from [] (d ∷ digits)))
unfolding decode_bytes
decode_bytes-map d digits b h =
    rw ((char_of-facts d b.0).2 h, decode_from-map [] (d ∷ digits) b) refl
