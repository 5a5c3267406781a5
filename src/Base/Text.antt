-- ===== src/Base/Text.antt =====
-- `&str` as its list of code points, with the methods of `str` and `char` that the source calls.
-- Comparison, search and trimming act on code points; `Utf8` has the lengths and the bytes.
use Prim.Native.Char.{code}
use Prim.Native.String.{String}
use Prim.Native.Nat.{ℕ, zero, suc, ◌+◌, ◌-◌}
use mathlib.Core.Bool.{Bool, true, false, ◌&&◌, ◌||◌}
use mathlib.Core.Option.{Option, none, some}
use mathlib.Core.List.{List, [], ◌∷◌, ◌++◌, map}
use skyauth.Base.Tests.{◌==◌, leb, if◌then◌else◌}
use skyauth.Base.Lists.{list_eq, length}

abbrev pub Str : Type 0
Str = List ℕ

-- The code points of a literal.
abbrev pub codes : String → Str
codes String.[] = []
codes (String.◌∷◌ c s) = code c ∷ codes s

abbrev pub is_empty {ℓ} : {A : Type ℓ} → List A → Bool
is_empty [] = true
is_empty (c ∷ s) = false

-- `char::is_ascii_*`, which agree with `u8::is_ascii_*`.
unfoldable pub is_ascii_digit : ℕ → Bool
is_ascii_digit c = leb b'0' c && leb c b'9'

unfoldable pub is_ascii_lowercase : ℕ → Bool
is_ascii_lowercase c = leb b'a' c && leb c b'z'

unfoldable pub is_ascii_uppercase : ℕ → Bool
is_ascii_uppercase c = leb b'A' c && leb c b'Z'

unfoldable pub is_ascii_alphabetic : ℕ → Bool
unfolding is_ascii_lowercase is_ascii_uppercase
is_ascii_alphabetic c = is_ascii_lowercase c || is_ascii_uppercase c

unfoldable pub is_ascii_alphanumeric : ℕ → Bool
unfolding is_ascii_alphabetic is_ascii_digit
is_ascii_alphanumeric c = is_ascii_alphabetic c || is_ascii_digit c

unfoldable pub to_ascii_lower : ℕ → ℕ
unfolding is_ascii_uppercase
to_ascii_lower c = if is_ascii_uppercase c then c + 32 else c

unfoldable pub to_ascii_lowercase : Str → Str
unfolding to_ascii_lower
to_ascii_lowercase s = map to_ascii_lower s

unfoldable pub eq_ignore_ascii_case : Str → Str → Bool
unfolding to_ascii_lowercase
eq_ignore_ascii_case a b = list_eq (to_ascii_lowercase a) (to_ascii_lowercase b)

-- `char::is_whitespace`, the Unicode property White_Space.
unfoldable pub is_whitespace : ℕ → Bool
is_whitespace c =
    (leb 0x09 c && leb c 0x0d)
    || (c == 0x20)
    || (c == 0x85)
    || (c == 0xa0)
    || (c == 0x1680)
    || (leb 0x2000 c && leb c 0x200a)
    || (c == 0x2028)
    || (c == 0x2029)
    || (c == 0x202f)
    || (c == 0x205f)
    || (c == 0x3000)

unfoldable pub trim_start_by : (ℕ → Bool) → Str → Str
trim_start_by p [] = []
trim_start_by p (c ∷ s) = if p c then trim_start_by p s else c ∷ s

unfoldable pub cons_unless : (ℕ → Bool) → ℕ → Str → Str
cons_unless p c [] = if p c then [] else c ∷ []
cons_unless p c (d ∷ s) = c ∷ d ∷ s

unfoldable pub trim_end_by : (ℕ → Bool) → Str → Str
unfolding cons_unless
trim_end_by p [] = []
trim_end_by p (c ∷ s) = cons_unless p c (trim_end_by p s)

unfoldable pub trim : Str → Str
unfolding is_whitespace trim_start_by trim_end_by
trim s = trim_end_by is_whitespace (trim_start_by is_whitespace s)

-- `trim_start_matches(c)` and `trim_end_matches(c)`.
unfoldable pub trim_start_matches : ℕ → Str → Str
unfolding trim_start_by
trim_start_matches c s = trim_start_by (λ d. d == c) s

unfoldable pub trim_end_matches : ℕ → Str → Str
unfolding trim_end_by
trim_end_matches c s = trim_end_by (λ d. d == c) s

unfoldable pub split_step : Bool → ℕ → List Str → List Str
split_step true c r = [] ∷ r
split_step false c [] = (c ∷ []) ∷ []
split_step false c (p ∷ r) = (c ∷ p) ∷ r

-- `split(sep)`, which yields one more piece than there are separators.
unfoldable pub split : ℕ → Str → List Str
unfolding split_step
split sep [] = [] ∷ []
split sep (c ∷ s) = split_step (c == sep) c (split sep s)

-- `split_once(sep)`: the parts before and after the first separator.
unfoldable pub split_once : ℕ → Str → Option (Str × Str)
split_once sep [] = none
split_once sep (c ∷ s) =
    let rest = split_once sep s in
    if c == sep
    then some ([], s)
    else elim rest [ none ↦ none | some parts ↦ some (c ∷ parts.0, parts.1) ]

split_by : (ℕ → Bool) → Str → List Str
unfolding split_step
split_by p [] = [] ∷ []
split_by p (c ∷ s) = split_step (p c) c (split_by p s)

drop_empty : List Str → List Str
drop_empty [] = []
drop_empty (p ∷ r) = let rest = drop_empty r in if is_empty p then rest else p ∷ rest

unfoldable pub split_whitespace : Str → List Str
unfolding split_by drop_empty is_whitespace
split_whitespace s = drop_empty (split_by is_whitespace s)

unfoldable pub strip_prefix : Str → Str → Option Str
strip_prefix [] s = some s
strip_prefix (c ∷ p) [] = none
strip_prefix (c ∷ p) (d ∷ s) = if c == d then strip_prefix p s else none

unfoldable pub starts_with : Str → Str → Bool
starts_with [] s = true
starts_with (c ∷ p) [] = false
starts_with (c ∷ p) (d ∷ s) = (c == d) && starts_with p s

unfoldable pub ends_with : Str → Str → Bool
ends_with p [] = is_empty p
ends_with p (c ∷ s) = list_eq p (c ∷ s) || ends_with p s

unfoldable pub contains : Str → Str → Bool
unfolding starts_with
contains p [] = is_empty p
contains p (c ∷ s) = starts_with p (c ∷ s) || contains p s

unfoldable pub contains_char : ℕ → Str → Bool
contains_char c [] = false
contains_char c (d ∷ s) = (d == c) || contains_char c s

-- `join`: the separator between each two pieces.
abbrev pub join : ℕ → List Str → Str
join sep [] = []
join sep (s ∷ []) = s
join sep (s ∷ t ∷ r) = s ++ sep ∷ join sep (t ∷ r)

-- `trim_matches(c)`.
unfoldable pub trim_matches : ℕ → Str → Str
unfolding trim_start_matches trim_end_matches
trim_matches c s = trim_end_matches c (trim_start_matches c s)

-- `replace(from, to)` for a text `from` that is not empty; `skip` code points of a match are left.
replace_from : (from to : Str) (skip : ℕ) → Str → Str
unfolding starts_with
replace_from from to skip [] = []
replace_from from to (suc skip) (c ∷ s) = replace_from from to skip s
replace_from from to zero (c ∷ s) = elim (starts_with from (c ∷ s)) [
  | true ↦ to ++ replace_from from to (length from - 1) s
  | false ↦ c ∷ replace_from from to zero s
]

unfoldable pub replace : (from to : Str) → Str → Str
unfolding replace_from
replace from to s = replace_from from to 0 s
