-- ===== src/Identity/Handles/Laws.antt =====
-- What a normalized handle is, and that normalizing it again changes nothing.
use skyauth.Base.{
  ℕ, ◌≡◌, ◌≢◌, ◌≤◌, refl, ap, subst, ◌∙◌, Bool, true, false, not, ◌||◌, ◌==◌, arith, none, some,
  List, [], ◌∷◌, length, all, any, All, first?, last_or, list_eq, list_eq_refl, list_eq_sound,
  all-append, ok, Result-cases, inl, inr, Bool-cases, Option-cases,
}
use skyauth.Base.Text.{
  Str, codes, join, split, trim, trim_start_matches, to_ascii_lowercase, is_ascii_lowercase,
  is_ascii_uppercase, is_ascii_digit, is_ascii_alphanumeric, is_whitespace, starts_with,
}
use skyauth.Base.Splits.{
  join-split, all-split, all-join, ends_with-last, trim-none, trim_start_matches-none, all-imp,
  to_ascii_lowercase-none, all-to_ascii_lowercase,
}
use skyauth.Base.Utf8.{len}
use skyauth.Net.{parse_ip}
use skyauth.Identity.Handles.{
  disallowed_handle_tlds, is_disallowed, is_label_char, check_label, check_labels, is_ip_like,
  check_handle, normalize_handle,
}

unfoldable pub is_lower_char : ℕ → Bool
unfolding is_ascii_lowercase is_ascii_digit
is_lower_char c = is_ascii_lowercase c || is_ascii_digit c || (c == b'-')

-- 1 to 63 lower-case letters, digits and hyphens, with no hyphen at either end.
abbrev pub IsLabel : Str → Type 0
IsLabel label =
    (label ≢ [])
    × (len label ≤ 63)
    × (first? label ≢ some b'-')
    × (last_or label 0 ≢ b'-')
    × (all is_lower_char label ≡ true)

-- Two or more labels joined by dots, at most 244 bytes, not an address, and not under a reserved
-- domain.
pub record IsHandle (h : Str) : Type 0 where
  pub labels : List Str
  pub joined : join b'.' labels ≡ h
  pub enough : 2 ≤ length labels
  pub are_labels : All IsLabel labels
  pub fits : len h ≤ 244
  pub no_address : parse_ip h ≡ none
  pub open_tld : All (λ tld. last_or labels [] ≢ tld) disallowed_handle_tlds

lower_char :
    (c : ℕ) → is_label_char c ≡ true → is_ascii_uppercase c ≡ false → is_lower_char c ≡ true
unfolding is_label_char is_lower_char is_ascii_alphanumeric
lower_char c h l = ground arith

all-lower_char :
    (s : Str)
    → all is_label_char s ≡ true
    → all (λ c. not (is_ascii_uppercase c)) s ≡ true
    → all is_lower_char s ≡ true
all-lower_char [] h l = refl
all-lower_char (c ∷ s) h l =
    let one = lower_char c (ground arith) (ground arith) in
    let rest = all-lower_char s (ground arith) (ground arith) in ground arith

check_label-IsLabel :
    (label : Str)
    → all (λ c. not (is_ascii_uppercase c)) label ≡ true
    → check_label label ≡ ok tt
    → IsLabel label
unfolding check_label starts_with
check_label-IsLabel [] l h = cc
check_label-IsLabel (c ∷ s) l h =
    let last = ends_with-last b'-' c s in
    let chars = all-lower_char (c ∷ s) (ground arith) l in
    (ground arith, ground arith, ground arith, ground arith, chars)

check_labels-IsLabel :
    (labels : List Str)
    → All (λ a. all (λ c. not (is_ascii_uppercase c)) a ≡ true) labels
    → check_labels labels ≡ ok tt
    → All IsLabel labels
unfolding check_labels
check_labels-IsLabel [] l h = tt
check_labels-IsLabel (a ∷ labels) l h =
    (check_label-IsLabel a l.0 (ground arith), check_labels-IsLabel labels l.1 (ground arith))

-- A domain that is not on the list differs from each that is.
any-All_ne :
    (s : Str) (tlds : List Str)
    → any (λ tld. list_eq tld s) tlds ≡ false
    → All (λ tld. s ≢ tld) tlds
any-All_ne s [] h = tt
any-All_ne s (t ∷ tlds) h = (
  λ e. let same = list_eq_refl t in let here = ap (λ u. list_eq t u) e in ground arith,
  any-All_ne s tlds (ground arith),
)

no_address : (h : Str) → is_ip_like h ≡ false → parse_ip h ≡ none
unfolding is_ip_like
no_address h l = elim (Option-cases (parse_ip h)) [ inl e ↦ e | inr e ↦ let (a, q) = e in cc ]

is_disallowed-All_ne :
    (s : Str) → is_disallowed s ≡ false → All (λ tld. s ≢ tld) disallowed_handle_tlds
unfolding is_disallowed
is_disallowed-All_ne s h = any-All_ne s disallowed_handle_tlds h

check_handle-IsHandle :
    (h : Str) → all (λ c. not (is_ascii_uppercase c)) h ≡ true → check_handle h ≡ ok tt → IsHandle h
unfolding check_handle
check_handle-IsHandle h lower checked = record {
  labels = split b'.' h;
  joined = join-split b'.' h;
  enough = ground arith;
  are_labels =
      check_labels-IsLabel (split b'.' h) (all-split (λ c. not (is_ascii_uppercase c)) b'.' h lower)
        (ground arith);
  fits = ground arith;
  no_address = no_address h (ground arith);
  open_tld = is_disallowed-All_ne (last_or (split b'.' h) []) (ground arith);
}

-- The characters of a handle.
unfoldable pub is_handle_char : ℕ → Bool
unfolding is_lower_char
is_handle_char c = is_lower_char c || (c == b'.')

lower_char-handle_char : (c : ℕ) → is_lower_char c ≡ true → is_handle_char c ≡ true
unfolding is_handle_char
lower_char-handle_char c h = ground arith

are_handle_chars :
    (labels : List Str) → All IsLabel labels → All (λ a. all is_handle_char a ≡ true) labels
are_handle_chars [] h = tt
are_handle_chars (a ∷ labels) h = (
  all-imp is_lower_char is_handle_char a lower_char-handle_char h.0.4,
  are_handle_chars labels h.1,
)

pub IsHandle-chars : (h : Str) → IsHandle h → all is_handle_char h ≡ true
unfolding is_handle_char
IsHandle-chars h g =
    subst (λ s. all is_handle_char s ≡ true) g.joined
      (all-join is_handle_char b'.' g.labels refl (are_handle_chars g.labels g.are_labels))

handle_char-space : (c : ℕ) → is_handle_char c ≡ true → not (is_whitespace c) ≡ true
unfolding is_whitespace is_handle_char
handle_char-space c h = ground arith

handle_char-upper : (c : ℕ) → is_handle_char c ≡ true → not (is_ascii_uppercase c) ≡ true
unfolding is_ascii_uppercase is_handle_char
handle_char-upper c h = ground arith

handle_char-at : (c : ℕ) → is_handle_char c ≡ true → not (c == b'@') ≡ true
unfolding is_handle_char
handle_char-at c h = ground arith

-- What `normalize_handle` returns.
pub normalize_handle-ok :
    (raw h : Str)
    → normalize_handle raw ≡ ok h
    → (to_ascii_lowercase (trim_start_matches b'@' (trim raw)) ≡ h) × (check_handle h ≡ ok tt)
unfolding normalize_handle
normalize_handle-ok raw h q =
    let n = to_ascii_lowercase (trim_start_matches b'@' (trim raw)) in
    elim (Result-cases (check_handle n)) [
      | inl r ↦
          let (u, e) = r in
          let same : n ≡ h = ground arith in
          (same, subst (λ s. check_handle s ≡ ok tt) same (ground arith))
      | inr r ↦ let (u, e) = r in absurd (ground arith)
    ]

pub normalize_handle-IsHandle : (raw h : Str) → normalize_handle raw ≡ ok h → IsHandle h
normalize_handle-IsHandle raw h q =
    let (same, checked) = normalize_handle-ok raw h q in
    check_handle-IsHandle h
      (subst (λ s. all (λ c. not (is_ascii_uppercase c)) s ≡ true) same
        (all-to_ascii_lowercase (trim_start_matches b'@' (trim raw))))
      checked

-- A handle that `normalize_handle` returned is returned unchanged when it is normalized again.
pub normalize_handle-normalize_handle :
    (raw h : Str) → normalize_handle raw ≡ ok h → normalize_handle h ≡ ok h
unfolding normalize_handle
normalize_handle-normalize_handle raw h q =
    let (same, checked) = normalize_handle-ok raw h q in
    let chars = IsHandle-chars h (normalize_handle-IsHandle raw h q) in
    let trimmed =
      trim-none h (all-imp is_handle_char (λ c. not (is_whitespace c)) h handle_char-space chars) in
    let stripped =
      trim_start_matches-none b'@' h
        (all-imp is_handle_char (λ c. not (c == b'@')) h handle_char-at chars) in
    let lowered =
      to_ascii_lowercase-none h
        (all-imp is_handle_char (λ c. not (is_ascii_uppercase c)) h handle_char-upper chars) in
    rw (trimmed, stripped, lowered, checked) refl

starts_with-all :
    (p : ℕ → Bool) (q s : Str) → starts_with q s ≡ true → all p s ≡ true → all p q ≡ true
unfolding starts_with
starts_with-all p [] s h l = refl
starts_with-all p (c ∷ q) [] h l = cc
starts_with-all p (c ∷ q) (d ∷ s) h l =
    let rest = starts_with-all p q s (ground arith) (ground arith) in ground arith

join-dot :
    (labels : List Str) → 2 ≤ length labels → all (λ c. not (c == b'.')) (join b'.' labels) ≡ false
join-dot [] h = absurd (omega arith)
join-dot (a ∷ []) h = absurd (omega arith)
join-dot (a ∷ b ∷ r) h =
    ground (arith, all-append (λ c. not (c == b'.')) a (b'.' ∷ join b'.' (b ∷ r)))

-- A handle is not the name `localhost`, with a port or without one.
pub no_localhost :
    (h : Str)
    → IsHandle h
    → (list_eq h (codes "localhost") || starts_with (codes "localhost:") h) ≡ false
unfolding is_handle_char
no_localhost h g = elim (Bool-cases (starts_with (codes "localhost:") h)) [
  | inl e ↦
      let bad : all is_handle_char (codes "localhost:") ≡ true =
        starts_with-all is_handle_char (codes "localhost:") h e (IsHandle-chars h g) in
      absurd (cc)
  | inr e ↦ elim (Bool-cases (list_eq h (codes "localhost"))) [
    | inr ne ↦ ground arith
    | inl same ↦
        let dot : all (λ c. not (c == b'.')) (codes "localhost") ≡ false =
          subst (λ s. all (λ c. not (c == b'.')) s ≡ false)
            (g.joined ∙ list_eq_sound h (codes "localhost") same) (join-dot g.labels g.enough) in
        absurd (cc)
  ]
]
