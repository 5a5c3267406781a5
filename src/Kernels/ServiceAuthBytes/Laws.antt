-- ===== src/Kernels/ServiceAuthBytes/Laws.antt =====
-- What the Multikey kernels accept, and the arithmetic of the expiry test.
use skyauth.Base.{
  ℕ, ◌+◌, ◌≤◌, ◌≡◌, ◌↔◌, ◌⊎◌, inl, inr, true, some, List, [], ◌∷◌, length, get_or, list_eq_sound,
  leb, arith,
}
use skyauth.Base.Text.{Str, codes}
use skyauth.Kernels.ServiceAuthBytes.{
  classify_multikey_bytes, is_alg_bound_to_curve, alg_id_from_str, is_service_jwt_exp_valid,
  u64_max,
}

-- A compressed SEC1 point: 33 bytes, the first of them 2 or 3.
abbrev pub IsSec1 : List ℕ → Type 0
IsSec1 point = (length point ≡ 33) × ((get_or point 0 0 ≡ 2) ⊎ (get_or point 0 0 ≡ 3))

-- The three layouts of a Multikey: the two-byte varint prefixes, and the older one-byte prefix.
abbrev pub IsMultikey : List ℕ → ℕ → List ℕ → Type 0
IsMultikey bytes curve point =
    IsSec1 point
    × (((curve ≡ 1) × (bytes ≡ 0xe7 ∷ 0x01 ∷ point))
        ⊎ ((curve ≡ 1) × (bytes ≡ 0xe7 ∷ point))
        ⊎ ((curve ≡ 2) × (bytes ≡ 0x80 ∷ 0x24 ∷ point)))

accept :
    (bytes : List ℕ) (curve : ℕ) (point : List ℕ)
    → IsMultikey bytes curve point
    → classify_multikey_bytes bytes ≡ some (curve, point)
unfolding classify_multikey_bytes
accept bytes curve [] (p, e) = absurd (omega arith)
accept bytes curve (tag ∷ rest) (p, inl (c, e)) = rw (c, e) (ground arith)
accept bytes curve (tag ∷ rest) (p, inr (inl (c, e))) = rw (c, e) (ground arith)
accept bytes curve (tag ∷ rest) (p, inr (inr (c, e))) = rw (c, e) (ground arith)

reject :
    (bytes : List ℕ) (curve : ℕ) (point : List ℕ)
    → classify_multikey_bytes bytes ≡ some (curve, point)
    → IsMultikey bytes curve point
unfolding classify_multikey_bytes
reject [] curve point h = ground arith
reject (a ∷ []) curve point h = ground arith
reject (a ∷ b ∷ []) curve point h = ground arith
reject (a ∷ b ∷ c ∷ r) curve point h = ground arith

-- Bytes are classified with a curve and a point exactly if they are one of the three layouts of a
-- Multikey for that curve and that compressed point of 33 bytes.
classify_multikey_bytes_iff :
    (bytes : List ℕ) (curve : ℕ) (point : List ℕ)
    → (classify_multikey_bytes bytes ≡ some (curve, point)) ↔ IsMultikey bytes curve point
classify_multikey_bytes_iff bytes curve point = (reject bytes curve point, accept bytes curve point)

-- An algorithm name belongs to a curve exactly if it is `ES256K` on secp256k1 or `ES256` on P-256.
pub is_alg_bound_to_curve_iff :
    (curve : ℕ) (alg : Str)
    → (is_alg_bound_to_curve curve (alg_id_from_str alg) ≡ true)
      ↔ (((curve ≡ 1) × (alg ≡ codes "ES256K")) ⊎ ((curve ≡ 2) × (alg ≡ codes "ES256")))
unfolding is_alg_bound_to_curve alg_id_from_str
is_alg_bound_to_curve_iff curve alg =
    ground (arith, list_eq_sound alg (codes "ES256K"), list_eq_sound alg (codes "ES256"))

-- On 64-bit numbers the expiry test compares the time with the exact sum of expiry and leeway,
-- although that sum may not fit.
is_service_jwt_exp_valid-exact :
    (exp now leeway : ℕ)
    → exp ≤ u64_max
    → now ≤ u64_max
    → leeway ≤ u64_max
    → is_service_jwt_exp_valid exp now leeway ≡ leb now (exp + leeway)
unfolding is_service_jwt_exp_valid
is_service_jwt_exp_valid-exact exp now leeway h k l = ground arith
