-- ===== src/Kernels/IpFilter/Cidr.antt =====
-- The IPv4 test against the address blocks that the documentation of ip_filter.rs lists.
use Prim.Native.Nat.{bit_and}
use skyauth.Base.{
  ℕ, ◌+◌, ◌-◌, ◌*◌, ◌/◌, ◌^◌, ◌<◌, ◌≡◌, refl, Bool, true, ◌&&◌, ◌||◌, List, [], ◌∷◌, any, arith,
  ◌==◌, ==_iff, leb, or_assoc, or_false,
}
use skyauth.Base.Bits.{every_below, every_below_sound}
use skyauth.Kernels.IpFilter.{Octets, is_restricted_ipv4_octets}

-- Every octet is a byte.
pub record IsBytes (a : Octets) : Type 0 where
  pub b0 : a.o0 < 256
  pub b1 : a.o1 < 256
  pub b2 : a.o2 < 256
  pub b3 : a.o3 < 256

-- The address as a 32-bit number.
abbrev pub number : Octets → ℕ
number a = a.o0 * 16777216 + a.o1 * 65536 + a.o2 * 256 + a.o3

-- The block `base/len`: the addresses that agree with `base` in the first `len` bits.
pub record Block : Type 0 where
  pub base : Octets
  pub len : ℕ

abbrev pub in_block : Octets → Block → Bool
in_block a b = number a / 2 ^ (32 - b.len) == number b.base / 2 ^ (32 - b.len)

abbrev block : ℕ → ℕ → ℕ → ℕ → ℕ → Block
block a b c d n = record { base = record { o0 = a; o1 = b; o2 = c; o3 = d }; len = n }

-- The filtered ranges, in the order of the documentation.
abbrev pub blocks : List Block
blocks =
    block 0 0 0 0 8
    ∷ block 10 0 0 0 8
    ∷ block 100 64 0 0 10
    ∷ block 127 0 0 0 8
    ∷ block 169 254 0 0 16
    ∷ block 172 16 0 0 12
    ∷ block 192 0 0 0 24
    ∷ block 192 0 2 0 24
    ∷ block 192 88 99 0 24
    ∷ block 192 168 0 0 16
    ∷ block 198 18 0 0 15
    ∷ block 198 51 100 0 24
    ∷ block 203 0 113 0 24
    ∷ block 224 0 0 0 4
    ∷ block 240 0 0 0 4
    ∷ []

mask_table : every_below 256 (λ x. bit_and x 0xc0 == x / 64 * 64) ≡ true
unfolding every_below
mask_table = refl

mask : (x : ℕ) → x < 256 → bit_and x 0xc0 ≡ x / 64 * 64
mask x h =
    (==_iff _ _).0 (every_below_sound 256 (λ x. bit_and x 0xc0 == x / 64 * 64) x mask_table h)

module _ (a : Octets) (v : IsBytes a) where
  in_block_8 : (k : ℕ) → in_block a (block k 0 0 0 8) ≡ (a.o0 == k)
  in_block_8 k = ground arith

  in_block_16 : (k l : ℕ) → l < 256 → in_block a (block k l 0 0 16) ≡ ((a.o0 == k) && (a.o1 == l))
  in_block_16 k l h = ground arith

  in_block_24 :
      (k l m : ℕ)
      → l < 256
      → m < 256
      → in_block a (block k l m 0 24) ≡ ((a.o0 == k) && (a.o1 == l) && (a.o2 == m))
  in_block_24 k l m h i = ground arith

  shared_space : in_block a (block 100 64 0 0 10) ≡ ((a.o0 == 100) && (bit_and a.o1 0xc0 == 64))
  shared_space = ground (arith, mask a.o1)

  private_172 : in_block a (block 172 16 0 0 12) ≡ ((a.o0 == 172) && leb 16 a.o1 && leb a.o1 31)
  private_172 = ground arith

  benchmarking :
      in_block a (block 198 18 0 0 15) ≡ ((a.o0 == 198) && ((a.o1 == 18) || (a.o1 == 19)))
  benchmarking = ground arith

  multicast : in_block a (block 224 0 0 0 4) ≡ (leb 224 a.o0 && leb a.o0 239)
  multicast = ground arith

  class_e : in_block a (block 240 0 0 0 4) ≡ leb 240 a.o0
  class_e = ground arith

-- On four bytes, the IPv4 test holds exactly if the address lies in one of the fifteen documented
-- blocks.
pub is_restricted_ipv4_octets-blocks :
    (a : Octets) → IsBytes a → is_restricted_ipv4_octets a ≡ any (in_block a) blocks
unfolding is_restricted_ipv4_octets
is_restricted_ipv4_octets-blocks a v =
    rw
      (
        in_block_8 a v 0,
        in_block_8 a v 10,
        shared_space a v,
        in_block_8 a v 127,
        in_block_16 a v 169 254 (omega arith),
        private_172 a v,
        in_block_24 a v 192 0 0 (omega arith) (omega arith),
        in_block_24 a v 192 0 2 (omega arith) (omega arith),
        in_block_24 a v 192 88 99 (omega arith) (omega arith),
        in_block_16 a v 192 168 (omega arith),
        benchmarking a v,
        in_block_24 a v 198 51 100 (omega arith) (omega arith),
        in_block_24 a v 203 0 113 (omega arith) (omega arith),
        multicast a v,
        class_e a v,
      )
      (simp (or_assoc, or_false))
