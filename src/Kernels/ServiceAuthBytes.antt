-- ===== src/Kernels/ServiceAuthBytes.antt =====
-- src/kernels/service_auth_bytes.rs: the header of a Multikey, the algorithm that belongs to a
-- curve, and the expiry of a service token.
pub mod Laws
use skyauth.Base.{
  ℕ, ◌+◌, ◌-◌, ◌%◌, ◌^◌, Bool, true, false, ◌&&◌, ◌||◌, Option, none, some, List, [], ◌∷◌, length,
  get_or, drop, list_eq, ltb, leb, ◌==◌, if◌then◌else◌,
}
use skyauth.Base.Text.{Str, codes}

abbrev pub curve_none : ℕ
curve_none = 0

abbrev pub curve_secp256k1 : ℕ
curve_secp256k1 = 1

abbrev pub curve_p256 : ℕ
curve_p256 = 2

abbrev pub alg_none : ℕ
alg_none = 0

abbrev pub alg_es256k : ℕ
alg_es256k = 1

abbrev pub alg_es256 : ℕ
alg_es256 = 2

unfoldable pub is_compressed_sec1_tag : ℕ → Bool
is_compressed_sec1_tag tag = (tag == 0x02) || (tag == 0x03)

unfoldable pub classify_multikey_header : ℕ → ℕ → ℕ → ℕ → ℕ
classify_multikey_header len b0 b1 b2 =
    if ((len == 35) && (b0 == 0xe7) && (b1 == 0x01) && ((b2 == 0x02) || (b2 == 0x03)))
      || ((len == 34) && (b0 == 0xe7) && ((b1 == 0x02) || (b1 == 0x03)))
    then 1
    else if (len == 35) && (b0 == 0x80) && (b1 == 0x24) && ((b2 == 0x02) || (b2 == 0x03))
    then 2
    else 0

unfoldable pub multikey_sec1_offset : ℕ → ℕ → ℕ → ℕ → ℕ
multikey_sec1_offset len b0 b1 b2 =
    if (len == 35)
      && ((b2 == 0x02) || (b2 == 0x03))
      && (((b0 == 0xe7) && (b1 == 0x01)) || ((b0 == 0x80) && (b1 == 0x24)))
    then 2
    else if (len == 34) && (b0 == 0xe7) && ((b1 == 0x02) || (b1 == 0x03))
    then 1
    else 0

-- A read below is in range: the length is tested first.
unfoldable pub classify_multikey_bytes : List ℕ → Option (ℕ × List ℕ)
unfolding classify_multikey_header multikey_sec1_offset
classify_multikey_bytes bytes =
    if ltb (length bytes) 3
    then none
    else let curve = classify_multikey_header (length bytes) b0 b1 b2 in
      let offset = multikey_sec1_offset (length bytes) b0 b1 b2 in
      if (curve == curve_none) || (offset == 0) then none else some (curve, drop offset bytes)
  where
    b0 : ℕ
    b0 = get_or bytes 0 0

    b1 : ℕ
    b1 = get_or bytes 1 0

    b2 : ℕ
    b2 = get_or bytes 2 0

unfoldable pub is_alg_bound_to_curve : ℕ → ℕ → Bool
is_alg_bound_to_curve curve_id alg_id =
    ((curve_id == 1) && (alg_id == 1)) || ((curve_id == 2) && (alg_id == 2))

unfoldable pub alg_id_from_str : Str → ℕ
alg_id_from_str alg =
    if list_eq alg (codes "ES256K")
    then alg_es256k
    else if list_eq alg (codes "ES256")
    then alg_es256
    else alg_none

abbrev pub u64_max : ℕ
u64_max = 2 ^ 64 - 1

-- On `u64`; the sum wraps at 2 ^ 64.
unfoldable pub is_service_jwt_exp_valid : ℕ → ℕ → ℕ → Bool
is_service_jwt_exp_valid exp now_secs leeway_secs =
    if ltb (u64_max - leeway_secs) exp then true else leb now_secs ((exp + leeway_secs) % 2 ^ 64)
