-- ===== src/Examples/Kernels.antt =====
-- The properties of the kernels at concrete inputs.
use skyauth.Base.{ℕ, ◌≡◌, ◌↔◌, refl, true, List, [], ◌∷◌, any, replicate, arith, err}
use skyauth.Base.Text.{trim_start_matches, codes, Str}
use skyauth.Kernels.IpFilter.{Octets, Segs, v4, is_restricted_ipv6_segments, is_restricted_ip}
use skyauth.Kernels.IpFilter.Cidr.{IsBytes}
use skyauth.Kernels.IpFilter.Segments.{
  IsWords, hits, prefixes, is_restricted_ipv6_segments-prefixes,
}
use skyauth.Kernels.IpFilter.Agreement.{spec_is_restricted_ip, is_restricted_ip-spec}
use skyauth.Kernels.PkceBytes.{
  validate_verifier_bytes, invalid_character, is_valid_verifier_length, is_unreserved_byte,
}
use skyauth.Kernels.NsidBytes.{is_valid_nsid}
use skyauth.Kernels.NsidBytes.Laws.{IsNsid, is_valid_nsid_iff}

abbrev home_router : Octets
home_router = record { o0 = 192; o1 = 168; o2 = 1; o3 = 1 }

home_router-IsBytes : IsBytes home_router
home_router-IsBytes = record {
  b0 = omega arith;
  b1 = omega arith;
  b2 = omega arith;
  b3 = omega arith;
}

abbrev link_local : Segs
link_local = record { s0 = 0xfe80; s1 = 0; s2 = 0; s3 = 0; s4 = 0; s5 = 0; s6 = 0; s7 = 1 }

link_local-IsWords : IsWords link_local
link_local-IsWords = record {
  w0 = omega arith;
  w1 = omega arith;
  w2 = omega arith;
  w3 = omega arith;
  w4 = omega arith;
  w5 = omega arith;
  w6 = omega arith;
  w7 = omega arith;
}

is_restricted_ipv6_segments-prefixes_example :
    is_restricted_ipv6_segments link_local ≡ any (hits link_local) prefixes
is_restricted_ipv6_segments-prefixes_example =
    is_restricted_ipv6_segments-prefixes link_local link_local-IsWords

is_restricted_ip-spec_example :
    is_restricted_ip (v4 home_router) ≡ spec_is_restricted_ip (v4 home_router)
is_restricted_ip-spec_example = is_restricted_ip-spec (v4 home_router) tt

abbrev expected : List ℕ
expected = 1 ∷ 2 ∷ []

abbrev candidate : List ℕ
candidate = 1 ∷ 3 ∷ []

-- 43 letters, the last of them a space.
abbrev spaced : List ℕ
spaced = codes "aaaaaaaaaaaaaaaaaaaaaaaaaaaaaaaaaaaaaaaaaa "

spaced_rejected : validate_verifier_bytes spaced ≡ err (invalid_character 32 42)
unfolding validate_verifier_bytes is_valid_verifier_length is_unreserved_byte
spaced_rejected = refl

abbrev multikey : List ℕ
multikey = 0xe7 ∷ 0x01 ∷ 2 ∷ replicate 32 7

-- A name with a leading slash, which the kernel trims off.
abbrev method : Str
method = codes "/com.atproto.server.createSession"

is_valid_nsid_iff_example :
    (is_valid_nsid method ≡ true) ↔ IsNsid (codes "com.atproto.server.createSession")
unfolding trim_start_matches
is_valid_nsid_iff_example = is_valid_nsid_iff method

abbrev issuer : Str
issuer = codes "pds.example"
