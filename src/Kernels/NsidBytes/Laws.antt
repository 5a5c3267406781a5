-- ===== src/Kernels/NsidBytes/Laws.antt =====
-- The names that the kernel accepts are those of the grammar.
use skyauth.Base.{
  ◌≡◌, ◌≤◌, ◌↔◌, refl, ap, sym, subst, ◌∙◌, true, false, not, arith, List, [], ◌∷◌, length, all,
  any, All, get_or, last_or,
}
use skyauth.Base.Text.{
  join, Str, is_empty, is_ascii_alphanumeric, trim_start_matches, split, starts_with,
}
use skyauth.Base.Splits.{join-split, ends_with-last}
use skyauth.Base.Utf8.{len}
use skyauth.Kernels.NsidBytes.{
  is_bad_segment, starts_with_letter, is_bad_name, is_valid_trimmed, is_valid_nsid,
}
use skyauth.Kernels.NsidBytes.Segments.{IsSegment, split-join, contains-join, contains_char-join}

abbrev pub IsName : Str → Type 0
IsName name = (starts_with_letter name ≡ true) × (all is_ascii_alphanumeric name ≡ true)

-- The grammar: three segments at least, the first one begins with a letter, and the last one is a
-- letter followed by letters and digits.
pub record IsNsid (s : Str) : Type 0 where
  pub segments : List Str
  pub joined : join b'.' segments ≡ s
  pub fits : len s ≤ 317
  pub enough : 3 ≤ length segments
  pub are_segments : All IsSegment segments
  pub authority : starts_with_letter (get_or segments 0 []) ≡ true
  pub name : IsName (last_or segments [])

is_bad_segment_iff : (seg : Str) → (is_bad_segment seg ≡ false) ↔ IsSegment seg
unfolding is_bad_segment starts_with
is_bad_segment_iff [] = ground arith
is_bad_segment_iff (c ∷ s) = ground (arith, ends_with-last b'-' c s)

any-bad_iff : (segs : List Str) → (any is_bad_segment segs ≡ false) ↔ All IsSegment segs
any-bad_iff [] = ground arith
any-bad_iff (s ∷ r) = ground (arith, is_bad_segment_iff s, any-bad_iff r)

any-not :
    (s : Str)
    → (any (λ c. not (is_ascii_alphanumeric c)) s ≡ false) ↔ (all is_ascii_alphanumeric s ≡ true)
any-not [] = ground arith
any-not (c ∷ s) = ground (arith, any-not s)

is_bad_name_iff : (s : Str) → (is_bad_name s ≡ false) ↔ IsName s
unfolding is_bad_name
is_bad_name_iff s = ground (arith, any-not s)

is_valid_trimmed-IsNsid : (s : Str) → is_valid_trimmed s ≡ true → IsNsid s
unfolding is_valid_trimmed
is_valid_trimmed-IsNsid s h = record {
  segments = split b'.' s;
  joined = join-split b'.' s;
  fits = ground arith;
  enough = ground arith;
  are_segments = ground (arith, any-bad_iff (split b'.' s));
  authority = ground arith;
  name = ground (arith, is_bad_name_iff (last_or (split b'.' s) []));
}

join-nonempty : (r : List Str) → 3 ≤ length r → is_empty (join b'.' r) ≡ false
join-nonempty [] h = absurd (omega arith)
join-nonempty (a ∷ []) h = absurd (omega arith)
join-nonempty ([] ∷ b ∷ r) h = refl
join-nonempty ((c ∷ a) ∷ b ∷ r) h = refl

IsNsid-is_valid_trimmed :
    (r : List Str)
    → len (join b'.' r) ≤ 317
    → 3 ≤ length r
    → All IsSegment r
    → starts_with_letter (get_or r 0 []) ≡ true
    → IsName (last_or r [])
    → is_valid_trimmed (join b'.' r) ≡ true
unfolding is_valid_trimmed is_ascii_alphanumeric
IsNsid-is_valid_trimmed [] fits enough segs first name = absurd (omega arith)
IsNsid-is_valid_trimmed (a ∷ r) fits enough segs first name =
    let split_ok = split-join a r segs in
    let dots = contains-join (a ∷ r) (omega arith) segs in
    let back = contains_char-join b'\\' (a ∷ r) refl refl segs in
    let percent = contains_char-join b'%' (a ∷ r) refl refl segs in
    let full = join-nonempty (a ∷ r) enough in
    let good = (any-bad_iff (a ∷ r)).1 segs in
    let named = (is_bad_name_iff (last_or (a ∷ r) [])).1 name in ground arith

-- A name is accepted just when, its leading slashes aside, it is one of the grammar: at most 317
-- bytes, three or more segments of 1 to 63 letters, digits and inner hyphens joined by dots, the
-- first one beginning with a letter, and the last one a letter followed by letters and digits. So
-- the tests for two dots in a row, backslashes and percent signs refuse nothing more.
pub is_valid_nsid_iff :
    (nsid : Str) → (is_valid_nsid nsid ≡ true) ↔ IsNsid (trim_start_matches b'/' nsid)
unfolding is_valid_nsid
is_valid_nsid_iff nsid = (
  is_valid_trimmed-IsNsid (trim_start_matches b'/' nsid),
  λ g.
      ap is_valid_trimmed (sym g.joined)
      ∙ IsNsid-is_valid_trimmed g.segments (subst (λ t. len t ≤ 317) (sym g.joined) g.fits) g.enough
          g.are_segments g.authority g.name,
)
