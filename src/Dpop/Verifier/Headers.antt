-- ===== src/Dpop/Verifier/Headers.antt =====
-- What the header of an accepted proof says.
use skyauth.Base.{
  ◌≡◌, true, not, none, some, ok, ◌>>=◌, ◌>>◌, Option-cases, fail_if, arith, list_eq, list_eq_sound,
  inl, inr, ok_or, sym, ap, is_some,
}
use skyauth.Base.Text.{Str, codes, eq_ignore_ascii_case}
use skyauth.Dpop.Errors.{missing_jwk, private_key_in_jwk, invalid_jwk}
use skyauth.Dpop.Proof.{JwkEc, Jose, check_header, header_str}

-- The key that the header carries: on P-256, with no private part.
abbrev pub IsPublicJwk : (j : Jose) → j.Value → JwkEc → Type 0
IsPublicJwk j value jwk =
    (jwk_value : j.Value) × (j.get value (codes "jwk") ≡ some jwk_value)
    × (j.get jwk_value (codes "d") ≡ none)
    × (j.jwk_from_value jwk_value ≡ some jwk)
    × (jwk.kty ≡ codes "EC")
    × (jwk.crv ≡ codes "P-256")

-- A header of a proof: its type, its algorithm and its key.
abbrev pub IsProofHeader : (j : Jose) → j.Value → JwkEc → Type 0
IsProofHeader j value jwk =
    (typ : Str) × (header_str j value (codes "typ") ≡ some typ)
    × (eq_ignore_ascii_case typ (codes "dpop+jwt") ≡ true)
    × (header_str j value (codes "alg") ≡ some (codes "ES256"))
    × IsPublicJwk j value jwk

module _ (j : Jose) where
  -- The key of a header that passed the checks.
  jwk-ok :
      (value : j.Value) (jwk : JwkEc)
      → (ok_or (j.get value (codes "jwk")) missing_jwk >>= λ jwk_val.
          fail_if (is_some (j.get jwk_val (codes "d"))) private_key_in_jwk
          >> (ok_or (j.jwk_from_value jwk_val) invalid_jwk >>= λ jwk.
              fail_if (not (list_eq jwk.kty (codes "EC"))) invalid_jwk
              >> fail_if (not (list_eq jwk.crv (codes "P-256"))) invalid_jwk
              >> ok jwk))
        ≡ ok jwk
      → IsPublicJwk j value jwk
  jwk-ok value jwk h = elim (Option-cases (j.get value (codes "jwk"))) [
    | (inl p) ↦ ground arith
    | (inr (v, p)) ↦ elim (Option-cases (j.get v (codes "d"))) [
      | (inr (d, q)) ↦ ground arith
      | (inl q) ↦ elim (Option-cases (j.jwk_from_value v)) [
        | (inl r) ↦ ground arith
        | (inr (k, r)) ↦
            let same : k ≡ jwk = ground arith in
            (
              v,
              p,
              q,
              ground arith,
              list_eq_sound jwk.kty (codes "EC") (rw (sym same) (ground arith)),
              list_eq_sound jwk.crv (codes "P-256") (rw (sym same) (ground arith)),
            )
      ]
    ]
  ]

  pub header-ok :
      (value : j.Value) (jwk : JwkEc) → check_header j value ≡ ok jwk → IsProofHeader j value jwk
  unfolding check_header
  header-ok value jwk h = elim (Option-cases (header_str j value (codes "typ"))) [
    | (inl p) ↦ ground arith
    | (inr (typ, p)) ↦ elim (Option-cases (header_str j value (codes "alg"))) [
      | (inl q) ↦ ground arith
      | (inr (alg, q)) ↦
          let named : alg ≡ codes "ES256" = list_eq_sound alg (codes "ES256") (ground arith) in
          (typ, p, ground arith, rw q (ap some named), jwk-ok value jwk (ground arith))
    ]
  ]
