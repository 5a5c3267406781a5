-- ===== src/Kernels/IpFilter/Agreement.antt =====
-- `SsrfFormalSpec` of src/verification/formal_models.rs, against the kernel of ip_filter.rs.
use Prim.Native.Nat.{bit_and}
use skyauth.Base.{
  ℕ, ◌≡◌, Bool, false, ◌&&◌, ◌||◌, Option, none, some, arith, ◌==◌, leb, or_assoc, and_assoc,
  if◌then◌else◌,
}
use skyauth.Kernels.IpFilter.{
  Octets, Segs, IpAddr, v4, v6, embedded, is_restricted_ipv4_octets, is_restricted_ipv6_segments,
  is_restricted_ip,
}
use skyauth.Kernels.IpFilter.Segments.{IsWords, bytes, embedded-bytes}

-- `(a..=b).contains(&x)`.
abbrev within : ℕ → ℕ → ℕ → Bool
within a b x = leb a x && leb x b

pub spec_is_restricted_ipv4 : Octets → Bool
spec_is_restricted_ipv4 octets =
    (o0 == 0)
    || (o0 == 10)
    || ((o0 == 100) && (bit_and o1 0xc0 == 64))
    || (o0 == 127)
    || ((o0 == 169) && (o1 == 254))
    || ((o0 == 172) && within 16 31 o1)
    || ((o0 == 192) && (o1 == 0) && (o2 == 0))
    || ((o0 == 192) && (o1 == 0) && (o2 == 2))
    || ((o0 == 192) && (o1 == 88) && (o2 == 99))
    || ((o0 == 192) && (o1 == 168))
    || ((o0 == 198) && ((o1 == 18) || (o1 == 19)))
    || ((o0 == 198) && (o1 == 51) && (o2 == 100))
    || ((o0 == 203) && (o1 == 0) && (o2 == 113))
    || within 224 239 o0
    || leb 240 o0
  where
    open octets use {o0, o1, o2}

-- `Ipv6Addr::is_unspecified`, `is_loopback` and `to_ipv4_mapped`, as std documents them.
is_unspecified : Segs → Bool
is_unspecified s =
    (s.s0 == 0)
    && (s.s1 == 0)
    && (s.s2 == 0)
    && (s.s3 == 0)
    && (s.s4 == 0)
    && (s.s5 == 0)
    && (s.s6 == 0)
    && (s.s7 == 0)

is_loopback : Segs → Bool
is_loopback s =
    (s.s0 == 0)
    && (s.s1 == 0)
    && (s.s2 == 0)
    && (s.s3 == 0)
    && (s.s4 == 0)
    && (s.s5 == 0)
    && (s.s6 == 0)
    && (s.s7 == 1)

to_ipv4_mapped : Segs → Option Octets
to_ipv4_mapped s =
    if (s.s0 == 0) && (s.s1 == 0) && (s.s2 == 0) && (s.s3 == 0) && (s.s4 == 0) && (s.s5 == 0xffff)
    then some (bytes s.s6 s.s7)
    else none

-- `if let Some(mapped) = … { … } else { false }`.
spec_mapped : Option Octets → Bool
spec_mapped (some mapped) = spec_is_restricted_ipv4 mapped
spec_mapped none = false

pub spec_is_restricted_ipv6 : Segs → Bool
unfolding is_unspecified is_loopback
spec_is_restricted_ipv6 seg =
    is_unspecified seg
    || is_loopback seg
    || spec_mapped (to_ipv4_mapped seg)
    || ((s0 == 0) && (s1 == 0) && (s2 == 0) && (s3 == 0) && (s4 == 0xffff) && (s5 == 0))
    || ((s0 == 0x0064) && (s1 == 0xff9b) && (s2 == 0) && (s3 == 0) && (s4 == 0) && (s5 == 0))
    || ((s0 == 0x2001) && (s1 == 0x0db8))
    || ((s0 == 0x2001) && (s1 == 0))
    || ((s0 == 0x2002) && spec_is_restricted_ipv4 (embedded s1 s2))
    || (bit_and s0 0xfe00 == 0xfc00)
    || (bit_and s0 0xffc0 == 0xfe80)
    || (bit_and s0 0xffc0 == 0xfec0)
    || (bit_and s0 0xff00 == 0xff00)
  where
    open seg use {s0, s1, s2, s3, s4, s5, s6, s7}

pub spec_is_restricted_ip : IpAddr → Bool
spec_is_restricted_ip (v4 ip) = spec_is_restricted_ipv4 ip
spec_is_restricted_ip (v6 ip) = spec_is_restricted_ipv6 ip

ipv4-spec : (o : Octets) → is_restricted_ipv4_octets o ≡ spec_is_restricted_ipv4 o
unfolding is_restricted_ipv4_octets spec_is_restricted_ipv4
ipv4-spec o = simp (or_assoc, and_assoc)

mapped-spec :
    (s : Segs)
    → spec_mapped (to_ipv4_mapped s) ≡ (
        (s.s0 == 0)
        && (s.s1 == 0)
        && (s.s2 == 0)
        && (s.s3 == 0)
        && (s.s4 == 0)
        && (s.s5 == 0xffff)
        && is_restricted_ipv4_octets (bytes s.s6 s.s7))
unfolding spec_mapped to_ipv4_mapped
mapped-spec s = ground (arith, ipv4-spec (bytes s.s6 s.s7))

ipv6-spec : (s : Segs) → IsWords s → is_restricted_ipv6_segments s ≡ spec_is_restricted_ipv6 s
unfolding is_restricted_ipv6_segments spec_is_restricted_ipv6
ipv6-spec s w =
    rw
      (
        mapped-spec s,
        ← ipv4-spec (embedded s.s1 s.s2),
        embedded-bytes s.s6 s.s7 w.w6 w.w7,
        embedded-bytes s.s1 s.s2 w.w1 w.w2,
      )
      (simp (or_assoc, and_assoc))

-- What an address is made of is in range.
abbrev pub IsAddress : IpAddr → Type 0
IsAddress (v4 ip) = Unit {0}
IsAddress (v6 ip) = IsWords ip

-- On every address, with 16-bit segments if it is an IPv6 address, the kernel decides as the
-- formal specification does.
pub is_restricted_ip-spec :
    (ip : IpAddr) → IsAddress ip → is_restricted_ip ip ≡ spec_is_restricted_ip ip
unfolding is_restricted_ip spec_is_restricted_ip
is_restricted_ip-spec (v4 ip) w = ipv4-spec ip
is_restricted_ip-spec (v6 ip) w = ipv6-spec ip w
