-- ===== src/Identity/Dids/Laws.antt =====
-- Which DIDs are accepted.
use skyauth.Base.{
  ℕ, ◌≡◌, ◌≢◌, ◌↔◌, refl, ap, sym, subst, ◌∙◌, true, not, ◌==◌, arith, List, [], ◌∷◌, ◌++◌, all,
  All, list_eq, list_eq_sound, ok, Bool-cases, inl, inr,
}
use skyauth.Base.Text.{
  Str, codes, join, split, trim, starts_with, strip_prefix, is_ascii_lowercase, is_ascii_digit,
}
use skyauth.Base.Splits.{join-split, all-imp, split-piece, split-whole, starts_with-prefix}
use skyauth.Base.Utf8.{len}
use skyauth.Identity.Dids.{
  plc, web, DidMethod, is_plc_char, is_valid_plc, is_web_char, is_valid_segment, web_suffix,
  is_valid_web, check_method, check_parts, validate_did_syntax,
}

-- 24 lower-case letters and digits.
abbrev pub IsPlcHash : Str → Type 0
IsPlcHash hash = (len hash ≡ 24) × (all is_plc_char hash ≡ true)

-- Letters, digits, dots, hyphens and percent signs, one at least.
abbrev pub IsWebSegment : Str → Type 0
IsWebSegment seg = (seg ≢ []) × (all is_web_char seg ≡ true)

plc_char-colon : (c : ℕ) → is_plc_char c ≡ true → not (c == b':') ≡ true
unfolding is_plc_char is_ascii_lowercase is_ascii_digit
plc_char-colon c h = ground arith

-- The parts after `did`.
check_parts-ok :
    (trimmed scheme : Str) (q : List Str) (m : DidMethod)
    → check_parts trimmed (scheme ∷ q) ≡ ok m
    → (method : Str) × (identifier : Str) × (rest : List Str) × (q ≡ method ∷ identifier ∷ rest)
      × (check_method trimmed method identifier ≡ ok m)
unfolding check_parts
check_parts-ok trimmed scheme [] m h = cc
check_parts-ok trimmed scheme (a ∷ []) m h = cc
check_parts-ok trimmed scheme (a ∷ b ∷ rest) m h = (a, b, rest, refl, h)

-- An accepted DID begins with `did:`, and its method accepts the parts that follow.
validate_did_syntax-ok :
    (did : Str) (m : DidMethod)
    → validate_did_syntax did ≡ ok m
    → (method : Str) × (identifier : Str) × (rest : List Str) × (trim did
        ≡ join b':' (codes "did" ∷ method ∷ identifier ∷ rest))
      × (check_method (trim did) method identifier ≡ ok m)
unfolding validate_did_syntax
validate_did_syntax-ok did m h = elim (Bool-cases (starts_with (codes "did:") (trim did))) [
  | inr out ↦ absurd (ground arith)
  | inl begins ↦
      let (t, e) = starts_with-prefix (codes "did:") (trim did) begins in
      let pieces = ap (split b':') e ∙ split-piece b':' (codes "did") t refl in
      let checked : check_parts (trim did) (codes "did" ∷ split b':' t) ≡ ok m =
        ap (check_parts (trim did)) (sym pieces) ∙ ground arith in
      let (method, identifier, rest, q, accepted) =
        check_parts-ok (trim did) (codes "did") (split b':' t) m checked in
      (
        method,
        identifier,
        rest,
        sym (join-split b':' (trim did)) ∙ ap (join b':') (pieces ∙ ap (λ r. codes "did" ∷ r) q),
        accepted,
      )
]

check_method-plc :
    (trimmed method identifier : Str)
    → check_method trimmed method identifier ≡ ok plc
    → (method ≡ codes "plc") × IsPlcHash identifier
unfolding check_method is_valid_plc
check_method-plc trimmed method identifier h = elim (Bool-cases (list_eq method (codes "plc"))) [
  | inl e ↦ (list_eq_sound method (codes "plc") e, ground arith)
  | inr e ↦ absurd (ground arith)
]

-- The identifier is the third part, whatever follows it.
split-hash :
    (hash : Str) (rest : List Str)
    → all is_plc_char hash ≡ true
    → (others : List Str) × (split b':' (join b':' (hash ∷ rest)) ≡ hash ∷ others)
split-hash hash [] h =
    ([], split-whole b':' hash (all-imp is_plc_char (λ c. not (c == b':')) hash plc_char-colon h))
split-hash hash (r ∷ rest) h = (
  split b':' (join b':' (r ∷ rest)),
  split-piece b':' hash (join b':' (r ∷ rest))
      (all-imp is_plc_char (λ c. not (c == b':')) hash plc_char-colon h),
)

IsPlcHash-check_parts :
    (trimmed hash : Str) (others : List Str)
    → IsPlcHash hash
    → check_parts trimmed (codes "did" ∷ codes "plc" ∷ hash ∷ others) ≡ ok plc
unfolding check_parts is_valid_plc
IsPlcHash-check_parts trimmed hash others h = ground arith

IsPlcHash-validate_did_syntax :
    (did hash : Str) (rest : List Str)
    → IsPlcHash hash
    → trim did ≡ join b':' (codes "did" ∷ codes "plc" ∷ hash ∷ rest)
    → validate_did_syntax did ≡ ok plc
unfolding validate_did_syntax starts_with
IsPlcHash-validate_did_syntax did hash rest h e =
    let (others, q) = split-hash hash rest h.1 in
    let s = join b':' (codes "did" ∷ codes "plc" ∷ hash ∷ rest) in
    let pieces : split b':' s ≡ codes "did" ∷ codes "plc" ∷ hash ∷ others =
      split-piece b':' (codes "did") (join b':' (codes "plc" ∷ hash ∷ rest)) refl
      ∙ ap (λ r. codes "did" ∷ r)
          (split-piece b':' (codes "plc") (join b':' (hash ∷ rest)) refl
            ∙ ap (λ r. codes "plc" ∷ r) q) in
    rw (e, pieces) (IsPlcHash-check_parts s hash others h)

-- A text is accepted as a PLC DID just when, trimmed, it is `did:plc:` with 24 lower-case letters
-- and digits, alone or with any parts after a further colon.
pub validate_did_syntax-plc_iff :
    (did : Str)
    → (validate_did_syntax did ≡ ok plc) ↔ (
        (hash : Str) × (rest : List Str) × IsPlcHash hash
        × (trim did ≡ join b':' (codes "did" ∷ codes "plc" ∷ hash ∷ rest)))
validate_did_syntax-plc_iff did = (
  λ h.
      let (method, hash, rest, e, accepted) = validate_did_syntax-ok did plc h in
      let (is_plc, good) = check_method-plc (trim did) method hash accepted in
      (hash, rest, good, e ∙ ap (λ m. join b':' (codes "did" ∷ m ∷ hash ∷ rest)) is_plc),
  λ g. IsPlcHash-validate_did_syntax did g.0 g.1 g.2 g.3,
)

are_web_segments :
    (segments : List Str) → all is_valid_segment segments ≡ true → All IsWebSegment segments
unfolding is_valid_segment
are_web_segments [] h = tt
are_web_segments ([] ∷ segments) h = cc
are_web_segments ((c ∷ s) ∷ segments) h =
    ((ground arith, ground arith), are_web_segments segments (ground arith))

check_method-web :
    (trimmed method identifier : Str)
    → check_method trimmed method identifier ≡ ok web
    → (method ≡ codes "web") × All IsWebSegment (split b':' (web_suffix trimmed identifier))
unfolding check_method is_valid_web
check_method-web trimmed method identifier h = elim (Bool-cases (list_eq method (codes "web"))) [
  | inl e ↦ (
    list_eq_sound method (codes "web") e,
    are_web_segments (split b':' (web_suffix trimmed identifier)) (ground arith),
  )
  | inr e ↦ absurd (ground arith)
]

web_suffix-join :
    (identifier : Str) (rest : List Str)
    → web_suffix (join b':' (codes "did" ∷ codes "web" ∷ identifier ∷ rest)) identifier
      ≡ join b':' (identifier ∷ rest)
unfolding web_suffix strip_prefix
web_suffix-join identifier rest = refl

pub validate_did_syntax-web :
    (did : Str)
    → validate_did_syntax did ≡ ok web
    → (suffix : Str) × (trim did ≡ codes "did:web:" ++ suffix)
      × All IsWebSegment (split b':' suffix)
validate_did_syntax-web did h =
    let (method, identifier, rest, e, accepted) = validate_did_syntax-ok did web h in
    let (is_web, segments) = check_method-web (trim did) method identifier accepted in
    let whole = e ∙ ap (λ m. join b':' (codes "did" ∷ m ∷ identifier ∷ rest)) is_web in
    (
      join b':' (identifier ∷ rest),
      whole,
      subst (λ s. All IsWebSegment (split b':' s))
          (ap (λ s. web_suffix s identifier) whole ∙ web_suffix-join identifier rest) segments,
    )
