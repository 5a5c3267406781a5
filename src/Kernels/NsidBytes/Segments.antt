-- ===== src/Kernels/NsidBytes/Segments.antt =====
-- Segments joined by dots, and a text split at its dots.
use skyauth.Base.{
  ℕ, ◌≡◌, ◌≢◌, ◌≤◌, refl, ap, ◌∙◌, Bool, ◌&&◌, ◌||◌, true, false, Bool-cases, inl, inr, arith, some,
  List, [], ◌∷◌, ◌++◌, length, all, any, All, first?, last_or, ◌==◌, drop,
}
use skyauth.Base.Text.{
  join, Str, codes, is_empty, is_ascii_alphabetic, is_ascii_alphanumeric, is_ascii_lowercase,
  is_ascii_uppercase, is_ascii_digit, split, split_step, starts_with, contains, contains_char,
}
use skyauth.Base.Splits.{split-nonempty}
use skyauth.Base.Utf8.{len}
use skyauth.Kernels.NsidBytes.{is_segment_char}

-- Letters, digits and hyphens, 1 to 63 of them, with no hyphen at either end.
abbrev pub IsSegment : Str → Type 0
IsSegment seg =
    (seg ≢ [])
    × (len seg ≤ 63)
    × (first? seg ≢ some b'-')
    × (last_or seg 0 ≢ b'-')
    × (all is_segment_char seg ≡ true)

split_step-segment :
    (c : ℕ) (r : List Str) (a : Str)
    → is_segment_char c ≡ true
    → split_step (c == b'.') c (a ∷ r) ≡ (c ∷ a) ∷ r
unfolding split_step is_segment_char is_ascii_alphanumeric is_ascii_alphabetic is_ascii_lowercase
    is_ascii_uppercase is_ascii_digit
split_step-segment c r a h = ground arith

split-segment : (a : Str) → all is_segment_char a ≡ true → split b'.' a ≡ a ∷ []
unfolding split
split-segment [] h = refl
split-segment (c ∷ a) h =
    ap (λ r. split_step (c == b'.') c r) (split-segment a (ground arith))
    ∙ split_step-segment c [] a (ground arith)

split-dot :
    (a t : Str) → all is_segment_char a ≡ true → split b'.' (a ++ b'.' ∷ t) ≡ a ∷ split b'.' t
unfolding split split_step
split-dot [] t h = refl
split-dot (c ∷ a) t h =
    ap (λ r. split_step (c == b'.') c r) (split-dot a t (ground arith))
    ∙ split_step-segment c (split b'.' t) a (ground arith)

pub split-join :
    (s : Str) (r : List Str) → All IsSegment (s ∷ r) → split b'.' (join b'.' (s ∷ r)) ≡ s ∷ r
split-join s [] h = split-segment s h.0.4
split-join s (t ∷ r) h =
    split-dot s (join b'.' (t ∷ r)) h.0.4 ∙ ap (λ q. s ∷ q) (split-join t r h.1)

any-drop : (r : List Str) → any is_empty (drop 1 r) ≡ true → any is_empty r ≡ true
any-drop [] h = h
any-drop (a ∷ r) h = ground (arith, h)

drop-split_step : (c : ℕ) (r : List Str) → length r ≢ 0 → drop 1 (split_step false c r) ≡ drop 1 r
unfolding split_step
drop-split_step c [] l = absurd (l refl)
drop-split_step c (a ∷ r) l = refl

any-split_dot : (s : Str) → starts_with (codes ".") s ≡ true → any is_empty (split b'.' s) ≡ true
unfolding starts_with split split_step
any-split_dot [] h = refl
any-split_dot (c ∷ s) h = elim (Bool-cases (c == b'.')) [
  | inl q ↦ rw q refl
  | inr q ↦ absurd (ground arith)
]

-- Two dots in a row make an empty segment after the first one.
contains-dots_step :
    (b : Bool) (c : ℕ) (s : Str)
    → ((b && starts_with (codes ".") s) || contains (codes "..") s) ≡ true
    → (contains (codes "..") s ≡ true → any is_empty (drop 1 (split b'.' s)) ≡ true)
    → any is_empty (drop 1 (split_step b c (split b'.' s))) ≡ true
unfolding split_step
contains-dots_step true c s h later = elim (Bool-cases (starts_with (codes ".") s)) [
  | inl q ↦ any-split_dot s q
  | inr q ↦ any-drop (split b'.' s) (later (ground arith))
]
contains-dots_step false c s h later =
    ap (λ r. any is_empty r) (drop-split_step c (split b'.' s) (split-nonempty b'.' s)) ∙ later h

contains-dots :
    (s : Str) → contains (codes "..") s ≡ true → any is_empty (drop 1 (split b'.' s)) ≡ true
unfolding contains starts_with split
contains-dots [] h = cc
contains-dots (c ∷ s) h = contains-dots_step (c == b'.') c s (ground arith) (contains-dots s)

any-IsSegment : (r : List Str) → All IsSegment r → any is_empty r ≡ false
any-IsSegment [] h = refl
any-IsSegment ([] ∷ r) h = absurd (h.0.0 refl)
any-IsSegment ((c ∷ a) ∷ r) h = any-IsSegment r h.1

contains_char-append :
    (x : ℕ) (a b : Str) → contains_char x (a ++ b) ≡ (contains_char x a || contains_char x b)
unfolding contains_char
contains_char-append x [] b = refl
contains_char-append x (c ∷ a) b = ground (arith, contains_char-append x a b)

contains_char-segment :
    (x : ℕ) (a : Str)
    → is_segment_char x ≡ false
    → all is_segment_char a ≡ true
    → contains_char x a ≡ false
unfolding contains_char
contains_char-segment x [] out h = refl
contains_char-segment x (c ∷ a) out h = ground (arith, contains_char-segment x a out)

-- A character that is neither a dot nor allowed in a segment does not occur.
pub contains_char-join :
    (x : ℕ) (r : List Str)
    → is_segment_char x ≡ false
    → (x == b'.') ≡ false
    → All IsSegment r
    → contains_char x (join b'.' r) ≡ false
unfolding contains_char
contains_char-join x [] out dot h = refl
contains_char-join x (a ∷ []) out dot h = contains_char-segment x a out h.0.4
contains_char-join x (a ∷ b ∷ r) out dot h =
    let one = contains_char-segment x a out h.0.4 in
    let others = contains_char-join x (b ∷ r) out dot h.1 in
    let both = contains_char-append x a (b'.' ∷ join b'.' (b ∷ r)) in ground arith

pub contains-join :
    (r : List Str) → length r ≢ 0 → All IsSegment r → contains (codes "..") (join b'.' r) ≡ false
contains-join [] l h = absurd (l refl)
contains-join (a ∷ r) l h = elim (Bool-cases (contains (codes "..") (join b'.' (a ∷ r)))) [
  | inl q ↦
      let empty = contains-dots (join b'.' (a ∷ r)) q in
      let none_empty = any-IsSegment r h.1 in
      let same = ap (λ t. any is_empty (drop 1 t)) (split-join a r h) in absurd (ground arith)
  | inr q ↦ q
]
