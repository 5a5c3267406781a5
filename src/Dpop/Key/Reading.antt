-- ===== src/Dpop/Key/Reading.antt =====
-- What `serde_json` documents about a text that it wrote: the value that it reads has the fields that
-- were written, and the derived deserializers of src/dpop.rs take the fields by their names.
use skyauth.Base.{
  ℕ, ◌≡◌, ◌||◌, refl, false, Bool, Option, none, some, list_eq, Bool-cases, inl, inr, arith, List,
  if◌then◌else◌, subst,
}
use skyauth.Base.Text.{Str, codes, is_empty, trim}
use skyauth.Dpop.Proof.{JwkEc, DpopProofClaims, Jose, header_str}
use skyauth.Dpop.Key.{Json, text, number, object, Fields, end, field, optional_field}

-- An object has a field of the name.
abbrev pub is_named : Str → Fields → Bool
is_named name end = false
is_named name (field name' json rest) = list_eq name' name || is_named name rest

-- What a claim holds: a blank nonce or hash is left out, another is trimmed.
abbrev pub non_blank : Option Str → Option Str
non_blank none = none
non_blank (some t) = if is_empty (trim t) then none else some (trim t)

module _ (j : Jose) (as_u64 : j.Value → Option ℕ) where
  -- The value says what was written: the texts, the numbers, and the fields and no others.
  abbrev mutual
    pub Represents : Json → j.Value → Type 0
    Represents (text t) v = j.as_str v ≡ some t
    Represents (number n) v = as_u64 v ≡ some n
    Represents (object fields) v =
        HasFields fields v × ((name : Str) → is_named name fields ≡ false → j.get v name ≡ none)

    pub HasFields : Fields → j.Value → Type 0
    HasFields end v = Unit {0}
    HasFields (field name json rest) v =
        ((w : j.Value) × (j.get v name ≡ some w) × Represents json w) × HasFields rest v

  -- The text of a document is read back.
  abbrev pub IsReadBack : (bytes : List ℕ) → Json → Type 0
  IsReadBack bytes json = (v : j.Value) × (j.from_slice bytes ≡ some v) × Represents json v

  abbrev pub number_at : j.Value → Str → Option ℕ
  number_at v name = elim (j.get v name) [ none ↦ none | (some w) ↦ as_u64 w ]

  -- What a field of type `Option` is read from.
  abbrev pub HoldsText : j.Value → Str → Option Str → Type 0
  HoldsText v name none = j.get v name ≡ none
  HoldsText v name (some t) = header_str j v name ≡ some t

  abbrev pub HoldsNumber : j.Value → Str → Option ℕ → Type 0
  HoldsNumber v name none = j.get v name ≡ none
  HoldsNumber v name (some n) = number_at v name ≡ some n

  -- The derived deserializers of `JwkEc`, and of `DPoPProofClaims` for one text whose names differ.
  pub record IsDerived (bytes : List ℕ) : Type 0 where
    pub jwk_of :
        (v : j.Value) (jwk : JwkEc)
        → header_str j v (codes "kty") ≡ some jwk.kty
        → header_str j v (codes "crv") ≡ some jwk.crv
        → header_str j v (codes "x") ≡ some jwk.x
        → header_str j v (codes "y") ≡ some jwk.y
        → j.jwk_from_value v ≡ some jwk
    pub claims_of :
        (v : j.Value) (claims : DpopProofClaims)
        → j.from_slice bytes ≡ some v
        → header_str j v (codes "jti") ≡ some claims.jti
        → header_str j v (codes "htm") ≡ some claims.htm
        → header_str j v (codes "htu") ≡ some claims.htu
        → number_at v (codes "iat") ≡ some claims.iat
        → HoldsNumber v (codes "exp") claims.exp
        → HoldsText v (codes "nonce") claims.nonce
        → HoldsText v (codes "ath") claims.ath
        → j.claims_from_slice bytes ≡ some claims

  pub text-header_str :
      (v : j.Value) (name t : Str)
      → ((w : j.Value) × (j.get v name ≡ some w) × (j.as_str w ≡ some t))
      → header_str j v name ≡ some t
  unfolding header_str
  text-header_str v name t (w, found, says) = rw (found, header_str) says

  pub number-number_at :
      (v : j.Value) (name : Str) (n : ℕ)
      → ((w : j.Value) × (j.get v name ≡ some w) × (as_u64 w ≡ some n))
      → number_at v name ≡ some n
  number-number_at v name n (w, found, says) = rw (found, number_at) says

  -- An optional field, and those behind it.
  pub HasFields-optional_field :
      (v : j.Value) (name : Str) (o : Option Str) (rest : Fields)
      → (non_blank o ≡ none → j.get v name ≡ none)
      → HasFields (optional_field name o rest) v
      → HoldsText v name (non_blank o) × HasFields rest v
  unfolding optional_field
  HasFields-optional_field v name none rest absent h = (absent refl, h)
  HasFields-optional_field v name (some t) rest absent h = elim (Bool-cases (is_empty (trim t))) [
    | (inl blank) ↦
        let left : optional_field name (some t) rest ≡ rest = rw blank refl in
        (rw blank (absent (rw blank refl)), subst (λ fields. HasFields fields v) left h)
    | (inr full) ↦
        let kept : optional_field name (some t) rest ≡ field name (text (trim t)) rest =
          rw full refl in
        let (first, others) = subst (λ fields. HasFields fields v) kept h in
        (rw full (text-header_str v name (trim t) first), others)
  ]

-- A name that is not that of an optional field is sought behind it.
pub is_named-optional_field :
    (name name' : Str) (o : Option Str) (rest : Fields)
    → list_eq name' name ≡ false
    → is_named name (optional_field name' o rest) ≡ is_named name rest
unfolding optional_field
is_named-optional_field name name' none rest differ = refl
is_named-optional_field name name' (some t) rest differ = elim (Bool-cases (is_empty (trim t))) [
  | (inl blank) ↦ rw blank refl
  | (inr full) ↦ rw full (rw differ refl)
]

pub optional_field-blank :
    (name : Str) (o : Option Str) (rest : Fields)
    → non_blank o ≡ none
    → optional_field name o rest ≡ rest
unfolding optional_field
optional_field-blank name none rest h = refl
optional_field-blank name (some t) rest h = elim (Bool-cases (is_empty (trim t))) [
  | (inl blank) ↦ rw blank refl
  | (inr full) ↦ absurd (ground arith)
]
