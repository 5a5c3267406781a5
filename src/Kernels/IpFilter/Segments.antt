-- ===== src/Kernels/IpFilter/Segments.antt =====
-- The IPv6 test of ip_filter.rs against the prefixes that its documentation lists.
use Prim.Native.Nat.{bit_and}
use skyauth.Base.{
  ℕ, ◌+◌, ◌-◌, ◌*◌, ◌/◌, ◌%◌, ◌^◌, ◌<◌, ◌≡◌, refl, Bool, true, ◌&&◌, List, [], ◌∷◌, any, arith,
  ◌==◌, All, length, list_eq, ◌∙◌, and_assoc, and_true, or_assoc, or_false,
}
use skyauth.Base.Bits.{every_below, every_below_sound}
use skyauth.Kernels.IpFilter.{
  Octets, Segs, embedded, is_restricted_ipv4_octets, is_restricted_ipv6_segments,
}

-- Every segment is a 16-bit word.
pub record IsWords (s : Segs) : Type 0 where
  pub w0 : s.s0 < 65536
  pub w1 : s.s1 < 65536
  pub w2 : s.s2 < 65536
  pub w3 : s.s3 < 65536
  pub w4 : s.s4 < 65536
  pub w5 : s.s5 < 65536
  pub w6 : s.s6 < 65536
  pub w7 : s.s7 < 65536

-- A row of 16-bit words as one number, the first word the highest.
abbrev pub horner : ℕ → List ℕ → ℕ
horner acc [] = acc
horner acc (x ∷ xs) = horner (acc * 65536 + x) xs

abbrev words_2 : Segs → List ℕ
words_2 s = s.s0 ∷ s.s1 ∷ []

abbrev words_6 : Segs → List ℕ
words_6 s = s.s0 ∷ s.s1 ∷ s.s2 ∷ s.s3 ∷ s.s4 ∷ s.s5 ∷ []

abbrev words_8 : Segs → List ℕ
words_8 s = s.s0 ∷ s.s1 ∷ s.s2 ∷ s.s3 ∷ s.s4 ∷ s.s5 ∷ s.s6 ∷ s.s7 ∷ []

-- The address as a 128-bit number.
abbrev pub number : Segs → ℕ
number s = horner 0 (words_8 s)

-- The two bytes of a word, the high one first.
abbrev pub bytes : ℕ → ℕ → Octets
bytes hi lo = record { o0 = hi / 256; o1 = hi % 256; o2 = lo / 256; o3 = lo % 256 }

-- The prefix `base/len`, and what else is asked of an address in it.
pub record Prefix : Type 0 where
  pub base : Segs
  pub len : ℕ
  pub inner : Segs → Bool

abbrev agree : ℕ → Segs → Segs → Bool
agree len s b = number s / 2 ^ (128 - len) == number b / 2 ^ (128 - len)

abbrev pub hits : Segs → Prefix → Bool
hits s p = agree p.len s p.base && p.inner s

abbrev segs : ℕ → ℕ → ℕ → ℕ → ℕ → ℕ → ℕ → ℕ → Segs
segs a b c d e f g h = record { s0 = a; s1 = b; s2 = c; s3 = d; s4 = e; s5 = f; s6 = g; s7 = h }

abbrev whole : Segs → ℕ → Prefix
whole base len = record { base = base; len = len; inner = λ _. true }

-- The filtered ranges, in the order of the documentation. The address that an IPv4-mapped or a
-- 6to4 address carries is judged as an IPv4 address.
abbrev pub prefixes : List Prefix
prefixes =
    whole (segs 0 0 0 0 0 0 0 0) 128
    ∷ whole (segs 0 0 0 0 0 0 0 1) 128
    ∷ record {
      base = segs 0 0 0 0 0 0xffff 0 0;
      len = 96;
      inner = λ s. is_restricted_ipv4_octets (bytes s.s6 s.s7);
    }
    ∷ whole (segs 0 0 0 0 0xffff 0 0 0) 96
    ∷ whole (segs 0x0064 0xff9b 0 0 0 0 0 0) 96
    ∷ whole (segs 0x2001 0x0db8 0 0 0 0 0 0) 32
    ∷ whole (segs 0x2001 0 0 0 0 0 0 0) 32
    ∷ record {
      base = segs 0x2002 0 0 0 0 0 0 0;
      len = 16;
      inner = λ s. is_restricted_ipv4_octets (bytes s.s1 s.s2);
    }
    ∷ whole (segs 0xfc00 0 0 0 0 0 0 0) 7
    ∷ whole (segs 0xfe80 0 0 0 0 0 0 0) 10
    ∷ whole (segs 0xfec0 0 0 0 0 0 0 0) 10
    ∷ whole (segs 0xff00 0 0 0 0 0 0 0) 8
    ∷ []

word_masks : ℕ → Bool
word_masks x =
    (bit_and x 0xff == x % 256)
    && (bit_and (x / 256) 0xff == x / 256)
    && (bit_and x 0xfe00 == x / 512 * 512)
    && (bit_and x 0xffc0 == x / 64 * 64)
    && (bit_and x 0xff00 == x / 256 * 256)

word_masks_table : every_below 65536 word_masks ≡ true
unfolding every_below word_masks
word_masks_table = refl

word_masks_lem : (x : ℕ) → x < 65536 → word_masks x ≡ true
word_masks_lem x h = every_below_sound 65536 word_masks x word_masks_table h

pub embedded-bytes : (hi lo : ℕ) → hi < 65536 → lo < 65536 → embedded hi lo ≡ bytes hi lo
unfolding embedded word_masks
embedded-bytes hi lo h l = ground (arith, word_masks_lem hi h, word_masks_lem lo l)

abbrev AreWords : List ℕ → Type 0
AreWords = All (λ x. x < 65536)

-- Two rows of as many words are the same number only word by word.
horner-eq :
    (a b : ℕ) (xs ys : List ℕ)
    → AreWords xs
    → AreWords ys
    → length xs ≡ length ys
    → (horner a xs == horner b ys) ≡ ((a == b) && list_eq xs ys)
horner-eq a b [] [] h k e = ground arith
horner-eq a b [] (y ∷ ys) h k e = absurd (omega arith)
horner-eq a b (x ∷ xs) [] h k e = absurd (omega arith)
horner-eq a b (x ∷ xs) (y ∷ ys) h k e =
    horner-eq (a * 65536 + x) (b * 65536 + y) xs ys h.1 k.1 (omega arith) ∙ ground arith

div_one : (n : ℕ) → n / 2 ^ 0 ≡ n
div_one n = omega arith

div_96 : (s : Segs) → IsWords s → number s / 2 ^ 32 ≡ horner 0 (words_6 s)
div_96 s w = omega arith

div_32 : (s : Segs) → IsWords s → number s / 2 ^ 96 ≡ horner 0 (words_2 s)
div_32 s w = omega arith

div_16 : (s : Segs) → IsWords s → number s / 2 ^ 112 ≡ s.s0
div_16 s w = omega arith

module _ (s b : Segs) (w : IsWords s) (v : IsWords b) where
  agree_128 : agree 128 s b ≡ list_eq (words_8 s) (words_8 b)
  agree_128 =
      rw (div_one (number s), div_one (number b))
        (horner-eq 0 0 (words_8 s) (words_8 b) (omega arith) (omega arith) refl)

  agree_96 : agree 96 s b ≡ list_eq (words_6 s) (words_6 b)
  agree_96 =
      rw (div_96 s w, div_96 b v)
        (horner-eq 0 0 (words_6 s) (words_6 b) (omega arith) (omega arith) refl)

  agree_32 : agree 32 s b ≡ list_eq (words_2 s) (words_2 b)
  agree_32 =
      rw (div_32 s w, div_32 b v)
        (horner-eq 0 0 (words_2 s) (words_2 b) (omega arith) (omega arith) refl)

  agree_16 : agree 16 s b ≡ (s.s0 == b.s0)
  agree_16 = rw (div_16 s w, div_16 b v)

module _ (s : Segs) (w : IsWords s) where
  ula : agree 7 s (segs 0xfc00 0 0 0 0 0 0 0) ≡ (bit_and s.s0 0xfe00 == 0xfc00)
  unfolding word_masks
  ula = ground (arith, word_masks_lem s.s0 w.w0)

  link_local : agree 10 s (segs 0xfe80 0 0 0 0 0 0 0) ≡ (bit_and s.s0 0xffc0 == 0xfe80)
  unfolding word_masks
  link_local = ground (arith, word_masks_lem s.s0 w.w0)

  site_local : agree 10 s (segs 0xfec0 0 0 0 0 0 0 0) ≡ (bit_and s.s0 0xffc0 == 0xfec0)
  unfolding word_masks
  site_local = ground (arith, word_masks_lem s.s0 w.w0)

  multicast : agree 8 s (segs 0xff00 0 0 0 0 0 0 0) ≡ (bit_and s.s0 0xff00 == 0xff00)
  unfolding word_masks
  multicast = ground (arith, word_masks_lem s.s0 w.w0)

-- For every IPv6 address, the test holds exactly when the address lies in one of the documented
-- prefixes, where a mapped or a 6to4 address also has to carry a restricted IPv4 address.
pub is_restricted_ipv6_segments-prefixes :
    (s : Segs) → IsWords s → is_restricted_ipv6_segments s ≡ any (hits s) prefixes
unfolding is_restricted_ipv6_segments
is_restricted_ipv6_segments-prefixes s w =
    rw
      (
        agree_128 s (segs 0 0 0 0 0 0 0 0) w (omega arith),
        agree_128 s (segs 0 0 0 0 0 0 0 1) w (omega arith),
        agree_96 s (segs 0 0 0 0 0 0xffff 0 0) w (omega arith),
        agree_96 s (segs 0 0 0 0 0xffff 0 0 0) w (omega arith),
        agree_96 s (segs 0x0064 0xff9b 0 0 0 0 0 0) w (omega arith),
        agree_32 s (segs 0x2001 0x0db8 0 0 0 0 0 0) w (omega arith),
        agree_32 s (segs 0x2001 0 0 0 0 0 0 0) w (omega arith),
        agree_16 s (segs 0x2002 0 0 0 0 0 0 0) w (omega arith),
        ula s w,
        link_local s w,
        site_local s w,
        multicast s w,
        embedded-bytes s.s6 s.s7 w.w6 w.w7,
        embedded-bytes s.s1 s.s2 w.w1 w.w2,
      )
      (simp (or_assoc, or_false, and_assoc, and_true))
