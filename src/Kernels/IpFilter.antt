-- ===== src/Kernels/IpFilter.antt =====
-- src/kernels/ip_filter.rs: which addresses an outbound request may not reach, and the
-- specification of it in src/verification/formal_models.rs (`SsrfFormalSpec`).
pub mod Cidr
pub mod Segments
pub mod Agreement
use Prim.Native.Nat.{bit_and}
use skyauth.Base.{
  ℕ, ◌/◌, ◌%◌, ◌^◌, Bool, true, false, ◌&&◌, ◌||◌, Option, none, some, ◌==◌, leb, if◌then◌else◌,
}

-- `[u8; 4]`, as `Ipv4Addr::octets` gives it.
pub record Octets : Type 0 where
  pub o0 : ℕ
  pub o1 : ℕ
  pub o2 : ℕ
  pub o3 : ℕ

-- `[u16; 8]`, as `Ipv6Addr::segments` gives it.
pub record Segs : Type 0 where
  pub s0 : ℕ
  pub s1 : ℕ
  pub s2 : ℕ
  pub s3 : ℕ
  pub s4 : ℕ
  pub s5 : ℕ
  pub s6 : ℕ
  pub s7 : ℕ

-- `std::net::IpAddr`.
pub data IpAddr : Type 0 where
  v4 : Octets → IpAddr
  v6 : Segs → IpAddr

unfoldable pub is_restricted_ipv4_octets : Octets → Bool
is_restricted_ipv4_octets octets =
    (o0 == 0)
    || (o0 == 10)
    || ((o0 == 100) && (bit_and o1 0xc0 == 64))
    || (o0 == 127)
    || ((o0 == 169) && (o1 == 254))
    || ((o0 == 172) && leb 16 o1 && leb o1 31)
    || ((o0 == 192) && (o1 == 0) && (o2 == 0))
    || ((o0 == 192) && (o1 == 0) && (o2 == 2))
    || ((o0 == 192) && (o1 == 88) && (o2 == 99))
    || ((o0 == 192) && (o1 == 168))
    || ((o0 == 198) && ((o1 == 18) || (o1 == 19)))
    || ((o0 == 198) && (o1 == 51) && (o2 == 100))
    || ((o0 == 203) && (o1 == 0) && (o2 == 113))
    || (leb 224 o0 && leb o0 239)
    || leb 240 o0
  where
    open octets use {o0, o1, o2}

-- `((s >> 8) & 0xff) as u8` and `(s & 0xff) as u8` of two segments.
unfoldable pub embedded : ℕ → ℕ → Octets
embedded hi lo = record {
  o0 = bit_and (hi / 2 ^ 8) 0xff;
  o1 = bit_and hi 0xff;
  o2 = bit_and (lo / 2 ^ 8) 0xff;
  o3 = bit_and lo 0xff;
}

unfoldable pub is_restricted_ipv6_segments : Segs → Bool
unfolding embedded
is_restricted_ipv6_segments seg =
    ((s0 == 0)
      && (s1 == 0)
      && (s2 == 0)
      && (s3 == 0)
      && (s4 == 0)
      && (s5 == 0)
      && (s6 == 0)
      && (s7 == 0))
    || ((s0 == 0)
        && (s1 == 0)
        && (s2 == 0)
        && (s3 == 0)
        && (s4 == 0)
        && (s5 == 0)
        && (s6 == 0)
        && (s7 == 1))
    || ((s0 == 0)
        && (s1 == 0)
        && (s2 == 0)
        && (s3 == 0)
        && (s4 == 0)
        && (s5 == 0xffff)
        && is_restricted_ipv4_octets (embedded s6 s7))
    || ((s0 == 0) && (s1 == 0) && (s2 == 0) && (s3 == 0) && (s4 == 0xffff) && (s5 == 0))
    || ((s0 == 0x0064) && (s1 == 0xff9b) && (s2 == 0) && (s3 == 0) && (s4 == 0) && (s5 == 0))
    || ((s0 == 0x2001) && (s1 == 0x0db8))
    || ((s0 == 0x2001) && (s1 == 0))
    || ((s0 == 0x2002) && is_restricted_ipv4_octets (embedded s1 s2))
    || (bit_and s0 0xfe00 == 0xfc00)
    || (bit_and s0 0xffc0 == 0xfe80)
    || (bit_and s0 0xffc0 == 0xfec0)
    || (bit_and s0 0xff00 == 0xff00)
  where
    open seg use {s0, s1, s2, s3, s4, s5, s6, s7}

-- The adapters over `&Ipv4Addr` and `&Ipv6Addr`.
abbrev pub is_restricted_ipv4 : Octets → Bool
is_restricted_ipv4 ip = is_restricted_ipv4_octets ip

abbrev pub is_restricted_ipv6 : Segs → Bool
is_restricted_ipv6 ip = is_restricted_ipv6_segments ip

unfoldable pub is_restricted_ip : IpAddr → Bool
is_restricted_ip (v4 ip) = is_restricted_ipv4 ip
is_restricted_ip (v6 ip) = is_restricted_ipv6 ip
