-- ===== src/Kernels/NsidBytes.antt =====
-- src/kernels/nsid_bytes.rs: the grammar of the names of XRPC methods.
use skyauth.Base.{
  ℕ, Bool, true, false, not, ◌||◌, ◌==◌, none, some, List, [], ◌∷◌, length, all, any, first?,
  get_or, last_or, ltb, if◌then◌else◌,
}
use skyauth.Base.Text.{
  Str, codes, is_empty, is_ascii_alphabetic, is_ascii_alphanumeric, trim_start_matches, split,
  starts_with, ends_with, contains, contains_char,
}
use skyauth.Base.Utf8.{len}
mod Segments
pub mod Laws

abbrev pub nsid_max_length : ℕ
nsid_max_length = 317

abbrev pub nsid_max_segment_length : ℕ
nsid_max_segment_length = 63

abbrev pub nsid_min_segments : ℕ
nsid_min_segments = 3

unfoldable pub is_segment_char : ℕ → Bool
is_segment_char c = is_ascii_alphanumeric c || (c == b'-')

-- The test in the loop over the segments, which fails on the first bad one.
unfoldable pub is_bad_segment : (seg : Str) → Bool
unfolding is_segment_char
is_bad_segment seg =
    is_empty seg
    || ltb nsid_max_segment_length (len seg)
    || starts_with (codes "-") seg
    || ends_with (codes "-") seg
    || not (all is_segment_char seg)

-- `first().is_some_and(|c| c.is_ascii_alphabetic())`.
unfoldable pub starts_with_letter : Str → Bool
starts_with_letter s = elim (first? s) [ none ↦ false | some c ↦ is_ascii_alphabetic c ]

unfoldable pub is_bad_name : (name : Str) → Bool
unfolding starts_with_letter
is_bad_name name = not (starts_with_letter name) || any (λ c. not (is_ascii_alphanumeric c)) name

unfoldable pub is_valid_trimmed : (trimmed : Str) → Bool
unfolding is_bad_segment is_bad_name
is_valid_trimmed trimmed =
    let segments = split b'.' trimmed in
    if is_empty trimmed || ltb nsid_max_length (len trimmed)
    then false
    else if contains (codes "..") trimmed
        || contains_char b'\\' trimmed
        || contains_char b'%' trimmed
    then false
    else if ltb (length segments) nsid_min_segments
    then false
    else if any is_bad_segment segments
    then false
    else if not (starts_with_letter (get_or segments 0 []))
    then false
    else if is_bad_name (last_or segments [])
    then false
    else true

unfoldable pub is_valid_nsid : (nsid : Str) → Bool
unfolding is_valid_trimmed
is_valid_nsid nsid = is_valid_trimmed (trim_start_matches b'/' nsid)
